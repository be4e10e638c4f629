-- ===== src/PeerManager/Manager.antt =====
-- spectrum-network/src/peer_manager.rs: the manager's state, its messages, and the allocation of
-- connections. Instants are arguments; a oneshot response channel is a number, and what is sent on
-- it is kept in `replies`.
use spectrum.Prelude.{
  ℕ, Bool, true, false, not, ◌&&◌, List, [], ◌∷◌, ◌++◌, Option, none, some, leb, if◌then◌else◌,
}
use spectrum.PeerManager.Data.{
  PeerId, ProtocolId, Instant, Reputation, ReputationChange, PeerDestination, ConnectionLossReason,
  is_connected, PeerInfo, ProtocolAllocationPolicy,
}
use spectrum.PeerManager.Handles.{
  PeerRepo, PeerInState, in_connected, in_not_connected, peer, disconnect, connect_peer,
  destination, forget,
}
use spectrum.PeerManager.Repo.{
  only_not_connected, NetworkingState, add_peer, get_reserved_peers, networking_state, filter_peers,
  pick_best,
}

abbrev pub ConnectionId : Type 0
ConnectionId = ℕ

abbrev pub Sender : Type 0
Sender = ℕ

pub data PeerManagerOut : Type 0 where
  connect : PeerDestination → PeerManagerOut
  drop : PeerId → PeerManagerOut
  accept_incoming_connection : PeerId → ConnectionId → PeerManagerOut
  reject : PeerId → ConnectionId → PeerManagerOut
  start_protocol : ProtocolId → PeerId → PeerManagerOut
  notify_peer_punished : PeerId → ReputationChange → PeerManagerOut

pub data PeerManagerRequest : Type 0 where
  add_peers : List PeerDestination → PeerManagerRequest
  add_reserved_peer : PeerDestination → PeerManagerRequest
  set_reserved_peers : List PeerId → PeerManagerRequest
  report_peer : PeerId → ReputationChange → PeerManagerRequest
  get_peer_reputation : PeerId → Sender → PeerManagerRequest
  get_peers : ℕ → Sender → PeerManagerRequest
  set_protocols : PeerId → List ProtocolId → PeerManagerRequest

pub data PeerEvent : Type 0 where
  incoming_connection : PeerId → ConnectionId → PeerEvent
  connection_established : PeerId → ConnectionId → PeerEvent
  connection_lost : PeerId → ConnectionLossReason → PeerEvent
  dial_failure : PeerId → PeerEvent
  force_enabled : PeerId → ProtocolId → PeerEvent

pub data PeerManagerIn : Type 0 where
  notification : PeerEvent → PeerManagerIn
  request : PeerManagerRequest → PeerManagerIn

pub data Reply : Type 0 where
  peers_reply : Sender → List PeerDestination → Reply
  reputation_reply : Sender → Reputation → Reply

pub record PeerManagerConfig : Type 0 where
  pub min_acceptable_reputation : Reputation
  pub min_reputation : Reputation
  pub conn_reset_outbound_backoff : ℕ
  pub conn_alloc_interval : ℕ
  pub prot_alloc_interval : ℕ
  pub protocols_allocation : List (ProtocolId × ProtocolAllocationPolicy)
  pub peer_manager_msg_buffer_size : ℕ

pub data ConnAllocationMode : Type 0 where
  active passive idle : ConnAllocationMode

-- One second, in milliseconds.
abbrev pub active_conn_alloc_interval : ℕ
active_conn_alloc_interval = 1000

-- A delay is the instant at which it is ready.
pub record PeerManager : Type 0 where
  pub state : PeerRepo
  pub conf : PeerManagerConfig
  pub mailbox : List PeerManagerIn
  pub out_queue : List PeerManagerOut
  pub next_conn_alloc : Instant
  pub next_prot_alloc : Instant
  pub boot_in_progress : Bool
  pub replies : List Reply

-- `PeerManager::new`, whose delays are ready at once.
unfoldable pub new_manager : PeerRepo → PeerManagerConfig → PeerManager
new_manager state conf = record {
  state = state;
  conf = conf;
  mailbox = [];
  out_queue = [];
  next_conn_alloc = 0;
  next_prot_alloc = 0;
  boot_in_progress = false;
  replies = [];
}

-- `out_queue.push_back`.
abbrev pub push_out : PeerManagerOut → PeerManager → PeerManager
push_out out pm = record pm { out_queue = pm.out_queue ++ out ∷ [] }

-- The backoff of a peer is over.
abbrev pub backoff_over : Instant → Option Instant → Bool
backoff_over now none = true
backoff_over now (some until) = leb until now

unfoldable pub connect_in : Instant → Option PeerInState → PeerManager → PeerManager
connect_in now (some (in_not_connected ncp)) pm =
    let cp = connect_peer ncp in
    if backoff_over now (ncp.peer_info).outbound_backoff_until
    then push_out (connect (destination cp)) (record pm { state = cp.repo })
    else pm
connect_in now st pm = pm

-- `PeerManager::connect`.
unfoldable pub connect_to : Instant → PeerId → PeerManager → PeerManager
unfolding connect_in
connect_to now pid pm = connect_in now (peer pid pm.state) pm

unfoldable pub disconnect_in : PeerId → Bool → Option PeerInState → PeerManager → PeerManager
disconnect_in pid forgets (some (in_connected cp)) pm =
    let ncp = disconnect cp in
    push_out (drop pid) (record pm { state = if forgets then (forget ncp).0 else ncp.repo })
disconnect_in pid forgets st pm = pm

-- `PeerManager::disconnect`.
unfoldable pub disconnect_from : PeerId → Bool → PeerManager → PeerManager
unfolding disconnect_in
disconnect_from pid forgets pm = disconnect_in pid forgets (peer pid pm.state) pm

unfoldable pub connect_each : Instant → List PeerId → PeerManager → PeerManager
connect_each now [] pm = pm
connect_each now (pid ∷ pids) pm = connect_each now pids (connect_to now pid pm)

unfoldable pub connect_reserved : Instant → PeerManager → PeerManager
unfolding connect_each
connect_reserved now pm =
    connect_each now (get_reserved_peers (some only_not_connected) pm.state) pm

abbrev pub is_not_connected : PeerId → PeerInfo → Bool
is_not_connected pid info = not (is_connected info.state)

unfoldable pub connect_if : Instant → Option PeerId → PeerManager → PeerManager
connect_if now none pm = pm
connect_if now (some pid) pm = connect_to now pid pm

unfoldable pub connect_best : Instant → PeerManager → PeerManager
unfolding connect_if
connect_best now pm = connect_if now (pick_best (some is_not_connected) pm.state) pm

unfoldable pub add_each : Bool → Bool → List PeerDestination → PeerRepo → PeerRepo
add_each reserved boot [] r = r
add_each reserved boot (p ∷ ps) r = add_each reserved boot ps (add_peer p reserved boot r)

unfoldable pub disconnect_each : List PeerId → PeerManager → PeerManager
disconnect_each [] pm = pm
disconnect_each (pid ∷ pids) pm = disconnect_each pids (disconnect_from pid true pm)

abbrev pub is_connected_boot : PeerId → PeerInfo → Bool
is_connected_boot pid info = info.is_boot && is_connected info.state

unfoldable pub drop_boot_peers : PeerManager → PeerManager
unfolding disconnect_each
drop_boot_peers pm = record (disconnect_each (filter_peers is_connected_boot pm.state) pm) {
  boot_in_progress = false;
}

unfoldable pub prepare : NetworkingState → PeerManager → PeerManager × ConnAllocationMode
prepare (NetworkingState.not_bootstrapped boot_peers) pm =
    (record pm { state = add_each false true boot_peers pm.state }, active)
prepare NetworkingState.boot_in_progress pm = (record pm { boot_in_progress = true }, active)
prepare NetworkingState.bootstrapped pm =
    (if pm.boot_in_progress then drop_boot_peers pm else pm, passive)
prepare NetworkingState.saturated pm = (pm, idle)

unfoldable pub prepare_allocate_connections : PeerManager → PeerManager × ConnAllocationMode
unfolding prepare drop_boot_peers add_each
prepare_allocate_connections pm = prepare (networking_state pm.state) pm
