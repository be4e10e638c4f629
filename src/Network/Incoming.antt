-- ===== src/Network/Incoming.antt =====
-- How the controller of spectrum-network/src/network_controller.rs and the peer manager settle a
-- connection that a peer opens.
use spectrum.Network.Controller.{established_in, on_connection_established}
use spectrum.Network.Instructions.{accept_in, on_instruction, reject_in}
use spectrum.Network.State.{
  ConnectedPeer, NetworkController, connected_peer, pending_approve, with_peers,
}
use spectrum.PeerManager.Data.{Instant, PeerId, PeerInfo}
use spectrum.PeerManager.Events.{on_incoming_connection}
use spectrum.PeerManager.Incoming.{
  admits, entry_after, known_or_new, on_incoming_connection_answers, verdict,
}
use spectrum.PeerManager.Manager.{ConnectionId, PeerManager, incoming_connection, notification}
use spectrum.PeerManager.Poll.{Poll, handle, pending, poll_messages, poll_next, ready}
use spectrum.Prelude.{
  Bool, Option, Outcome, Returns, [], ap, false, insert, lookup, lookup-insert_self,
  lookup-remove_self, none, panicked, refl, returned, some, true, ◌++◌, ◌>>=◌, ◌∙◌, ◌∷◌, ◌≡◌,
}

-- The controller follows the instruction, if there is one.
unfoldable follow :
    PeerManager × Poll → NetworkController → Outcome (PeerManager × NetworkController)
unfolding on_instruction
follow (pm, ready out) c = on_instruction out c >>= λ after. returned (pm, after)
follow (pm, pending) c = returned (pm, c)

-- The connection is established, the manager is polled with what the controller sent it, and the
-- controller takes the instruction that the manager returns.
unfoldable pub settle :
    Instant
    → PeerId
    → ConnectionId
    → PeerManager
    → NetworkController
    → Outcome (PeerManager × NetworkController)
unfolding follow on_connection_established poll_next
settle now pid conn pm c = on_connection_established pid conn c >>= λ told.
    poll_next now (record pm { mailbox = pm.mailbox ++ told.to_manager }) >>= λ r.
    follow r (record told { to_manager = [] })

-- Nothing is under way.
abbrev pub idle_manager : PeerManager → PeerManager
idle_manager pm = record pm { mailbox = []; out_queue = [] }

abbrev pub idle_controller : NetworkController → NetworkController
idle_controller c = record c { to_manager = [] }

abbrev joined_if : ConnectionId → Bool → Option ConnectedPeer
joined_if conn true = some (connected_peer (conn ∷ []) [])
joined_if conn false = none

follow_verdict :
    (pid : PeerId) (conn : ConnectionId) (admitted : Bool) (pm : PeerManager)
    (c : NetworkController)
    → lookup pid c.enabled_peers ≡ some (pending_approve conn)
    → Returns
        (λ r. (r.0 ≡ pm) × (lookup pid (r.1).enabled_peers ≡ joined_if conn admitted))
        (follow (pm, ready (verdict pid conn admitted)) c)
unfolding follow on_instruction accept_in reject_in
follow_verdict pid conn true pm c waits =
    rw waits (refl, lookup-insert_self pid (connected_peer (conn ∷ []) []) c.enabled_peers)
follow_verdict pid conn false pm c waits = rw waits (refl, lookup-remove_self pid c.enabled_peers)

poll-verdict :
    (now : Instant) (pid : PeerId) (conn : ConnectionId) (pm : PeerManager)
    → poll_next now
        (record pm { mailbox = notification (incoming_connection pid conn) ∷ []; out_queue = [] })
      ≡ returned (
        idle_manager (on_incoming_connection pid conn (idle_manager pm)),
        ready (verdict pid conn (admits pid pm)),
      )
unfolding poll_next poll_messages handle
poll-verdict now pid conn pm =
    rw ((on_incoming_connection_answers pid conn (idle_manager pm)).0, poll_messages) refl

-- What holds of a manager holds of the one that the result has.
agreed :
    (pid : PeerId) (entry : Option PeerInfo) (seen : Option ConnectedPeer) (pm : PeerManager)
    (o : Outcome (PeerManager × NetworkController))
    → lookup pid (pm.state).peers ≡ entry
    → Returns (λ r. (r.0 ≡ pm) × (lookup pid (r.1).enabled_peers ≡ seen)) o
    → Returns
        (λ r. (lookup pid ((r.0).state).peers ≡ entry) × (lookup pid (r.1).enabled_peers ≡ seen))
        o
agreed pid entry seen pm (returned r) known held =
    (ap (λ (m : PeerManager). lookup pid (m.state).peers) held.0 ∙ known, held.1)
agreed pid entry seen pm panicked known held = absurd held

-- A peer that the controller does not know opens a connection, and nothing else is under way. The
-- controller asks the manager, the manager answers, and the controller follows the answer. In the end
-- both agree: if the manager admits the connection, the controller has the peer connected by it, and
-- the manager has it as connected inbound; if not, the controller has forgotten the peer, and the
-- manager has it as it was, or as a new one.
pub incoming_settled :
    (now : Instant) (pid : PeerId) (conn : ConnectionId) (pm : PeerManager) (c : NetworkController)
    → lookup pid c.enabled_peers ≡ none
    → Returns
        (λ r.
          (lookup pid ((r.0).state).peers
            ≡ some (entry_after (admits pid pm) (known_or_new (lookup pid (pm.state).peers))))
          × (lookup pid (r.1).enabled_peers ≡ joined_if conn (admits pid pm)))
        (settle now pid conn (idle_manager pm) (idle_controller c))
unfolding settle on_connection_established established_in
incoming_settled now pid conn pm c unknown =
    let pm' = idle_manager (on_incoming_connection pid conn (idle_manager pm)) in
    let answered = (on_incoming_connection_answers pid conn (idle_manager pm)).1 in
    let followed =
      follow_verdict pid conn (admits pid pm) pm'
        (with_peers (insert pid (pending_approve conn) c.enabled_peers) (idle_controller c))
        (lookup-insert_self pid (pending_approve conn) c.enabled_peers) in
    rw (unknown, poll-verdict now pid conn pm) (agreed pid _ _ pm' _ answered followed)
