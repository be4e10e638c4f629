-- ===== src/PeerManager/Poll.antt =====
-- `Stream::poll_next` of spectrum-network/src/peer_manager.rs, at the instant `now`.
use spectrum.Prelude.{◌+◌, List, [], ◌∷◌, leb, if◌then◌else◌, Outcome, returned, ◌>>=◌}
use spectrum.PeerManager.Data.{Instant}
use spectrum.PeerManager.Manager.{
  PeerManagerOut, PeerManagerRequest, add_peers, add_reserved_peer, set_reserved_peers, report_peer,
  get_peer_reputation, get_peers, incoming_connection, connection_established, connection_lost,
  dial_failure, force_enabled, PeerManagerIn, notification, request, ConnAllocationMode, active,
  passive, idle, active_conn_alloc_interval, PeerManager, connect_reserved, connect_best,
  prepare_allocate_connections,
}
use spectrum.PeerManager.Protocols.{allocate_protocols}
use spectrum.PeerManager.Events.{
  on_add_peers, on_get_peers, on_add_reserved_peer, on_set_reserved_peers, on_report_peer,
  on_get_peer_reputation, on_set_peer_protocols, on_incoming_connection, on_connection_established,
  on_connection_lost, on_dial_failure, on_force_enabled,
}

-- The match on a message of the mailbox.
unfoldable pub handle : Instant → PeerManagerIn → PeerManager → PeerManager
handle now (notification (incoming_connection pid conn)) pm = on_incoming_connection pid conn pm
handle now (notification (connection_established pid conn)) pm =
    on_connection_established pid conn pm
handle now (notification (connection_lost pid reason)) pm = on_connection_lost now pid reason pm
handle now (notification (dial_failure pid)) pm = on_dial_failure pid pm
handle now (notification (force_enabled pid prot)) pm = on_force_enabled pid prot pm
handle now (request (add_peers ps)) pm = on_add_peers ps pm
handle now (request (get_peers limit snd)) pm = on_get_peers limit snd pm
handle now (request (report_peer pid change)) pm = on_report_peer pid change pm
handle now (request (add_reserved_peer p)) pm = on_add_reserved_peer p pm
handle now (request (get_peer_reputation pid resp)) pm = on_get_peer_reputation pid resp pm
handle now (request (set_reserved_peers pids)) pm = on_set_reserved_peers pids pm
handle now (request (PeerManagerRequest.set_protocols pid ps)) pm = on_set_peer_protocols pid ps pm

unfoldable pub schedule : Instant → ConnAllocationMode → PeerManager → PeerManager
schedule now active pm =
    let pm' = connect_best now pm in
    record pm' { next_conn_alloc = now + active_conn_alloc_interval }
schedule now passive pm =
    let pm' = connect_best now pm in
    record pm' { next_conn_alloc = now + (pm'.conf).conn_alloc_interval }
schedule now idle pm = record pm { next_conn_alloc = now + (pm.conf).conn_alloc_interval }

-- The first `if` on a delay: reserved peers, then the mode.
unfoldable pub allocate_connections : Instant → PeerManager → PeerManager
unfolding schedule
allocate_connections now pm =
    let (pm', mode) = prepare_allocate_connections (connect_reserved now pm) in
    schedule now mode pm'

-- The second: the protocols.
unfoldable pub allocate_protocols_at : Instant → PeerManager → Outcome PeerManager
allocate_protocols_at now pm = do
  pm' ← allocate_protocols pm
  returned (record pm' { next_prot_alloc = now + (pm'.conf).prot_alloc_interval })

-- The end of the loop's body, where the mailbox has no message.
unfoldable pub run_timers : Instant → PeerManager → Outcome PeerManager
run_timers now pm =
    let pm' = if leb pm.next_conn_alloc now then allocate_connections now pm else pm in
    if leb pm'.next_prot_alloc now then allocate_protocols_at now pm' else returned pm'

pub data Poll : Type 0 where
  ready : PeerManagerOut → Poll
  pending : Poll

unfoldable pub idle_poll : Instant → PeerManager → Outcome (PeerManager × Poll)
idle_poll now pm = do pm' ← run_timers now pm; returned (pm', pending)

-- A round returns the first output, or else takes the next message; the mailbox bounds the rounds.
unfoldable pub poll_messages :
    Instant → List PeerManagerIn → PeerManager → Outcome (PeerManager × Poll)
poll_messages now [] pm = elim pm.out_queue [
  | out ∷ rest ↦ returned (record pm { mailbox = []; out_queue = rest }, ready out)
  | [] ↦ idle_poll now (record pm { mailbox = [] })
]
poll_messages now (m ∷ ms) pm = elim pm.out_queue [
  | out ∷ rest ↦ returned (record pm { mailbox = m ∷ ms; out_queue = rest }, ready out)
  | [] ↦ poll_messages now ms (handle now m (record pm { mailbox = ms }))
]

unfoldable pub poll_next : Instant → PeerManager → Outcome (PeerManager × Poll)
unfolding poll_messages idle_poll
poll_next now pm = poll_messages now pm.mailbox pm
