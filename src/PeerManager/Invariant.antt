-- ===== src/PeerManager/Invariant.antt =====
-- The invariant of the repository through the manager's handlers and `poll_next`:
-- spectrum-network/src/peer_manager.rs.
pub mod Handlers
pub mod Runs
use spectrum.PeerManager.Data.{
  Instant, PeerDestination, PeerId, ProtocolAllocationPolicy, ProtocolId,
}
use spectrum.PeerManager.Handles.{PeerInState, PeerRepo, disconnect, in_connected, in_not_connected}
use spectrum.PeerManager.Manager.{
  ConnAllocationMode, PeerManager, active, add_each, connect_best, connect_each, connect_if,
  connect_in, connect_reserved, connect_to, disconnect_each, disconnect_from, disconnect_in,
  drop_boot_peers, idle, is_connected_boot, passive, prepare, prepare_allocate_connections,
}
use spectrum.PeerManager.Poll.{allocate_connections, schedule}
use spectrum.PeerManager.Protocols.{
  allocate_each, allocate_enabled, allocate_if, allocate_protocol, allocate_protocols, start_in,
  start_with,
}
use spectrum.PeerManager.Repo.{
  NetworkingState, boot_in_progress, bootstrapped, filter_peers, get_reserved_peers,
  networking_state, not_bootstrapped, only_not_connected, saturated,
}
use spectrum.PeerManager.Soundness.{
  Entered, IsSound, connect_peer-IsAttached, disconnect-IsAttached, enable_protocol_with-IsAttached,
  peer-Entered,
}
use spectrum.PeerManager.Soundness.Entries.{add_peer-IsSound, forget-IsSound}
use spectrum.Prelude.{
  Bool, List, Option, Outcome, [], arith, false, none, panicked, refl, returned, some, true, ◌>>=◌,
  ◌∷◌,
}

abbrev pub Inv : PeerManager → Type 0
Inv pm = IsSound pm.state

connect_in-Inv :
    (now : Instant) (st : Option PeerInState) (pm : PeerManager)
    → Inv pm
    → Entered st
    → Inv (connect_in now st pm)
unfolding connect_in
connect_in-Inv now none pm v e = v
connect_in-Inv now (some (in_connected h)) pm v e = v
connect_in-Inv now (some (in_not_connected h)) pm v e =
    ground (arith, connect_peer-IsAttached h e.0)

connect_to-Inv :
    (now : Instant) (pid : PeerId) (pm : PeerManager) → Inv pm → Inv (connect_to now pid pm)
unfolding connect_to
connect_to-Inv now pid pm v = connect_in-Inv now _ pm v (peer-Entered pid pm.state v)

disconnect_in-Inv :
    (pid : PeerId) (b : Bool) (st : Option PeerInState) (pm : PeerManager)
    → Inv pm
    → Entered st
    → Inv (disconnect_in pid b st pm)
unfolding disconnect_in
disconnect_in-Inv pid b none pm v e = v
disconnect_in-Inv pid true (some (in_connected h)) pm v e =
    forget-IsSound (disconnect h) (disconnect-IsAttached h e.0 e.1) (unfold disconnect in refl)
disconnect_in-Inv pid false (some (in_connected h)) pm v e = (disconnect-IsAttached h e.0 e.1).0
disconnect_in-Inv pid b (some (in_not_connected h)) pm v e = v

pub disconnect_from-Inv :
    (pid : PeerId) (b : Bool) (pm : PeerManager) → Inv pm → Inv (disconnect_from pid b pm)
unfolding disconnect_from
disconnect_from-Inv pid b pm v = disconnect_in-Inv pid b _ pm v (peer-Entered pid pm.state v)

connect_each-Inv :
    (now : Instant) (pids : List PeerId) (pm : PeerManager)
    → Inv pm
    → Inv (connect_each now pids pm)
unfolding connect_each
connect_each-Inv now [] pm v = v
connect_each-Inv now (pid ∷ pids) pm v = connect_each-Inv now pids _ (connect_to-Inv now pid pm v)

connect_if-Inv :
    (now : Instant) (o : Option PeerId) (pm : PeerManager) → Inv pm → Inv (connect_if now o pm)
unfolding connect_if
connect_if-Inv now none pm v = v
connect_if-Inv now (some pid) pm v = connect_to-Inv now pid pm v

pub add_each-IsSound :
    (b boot : Bool) (ps : List PeerDestination) (r : PeerRepo)
    → IsSound r
    → IsSound (add_each b boot ps r)
unfolding add_each
add_each-IsSound b boot [] r s = s
add_each-IsSound b boot (p ∷ ps) r s = add_each-IsSound b boot ps _ (add_peer-IsSound p b boot r s)

disconnect_each-Inv :
    (pids : List PeerId) (pm : PeerManager) → Inv pm → Inv (disconnect_each pids pm)
unfolding disconnect_each
disconnect_each-Inv [] pm v = v
disconnect_each-Inv (pid ∷ pids) pm v =
    disconnect_each-Inv pids _ (disconnect_from-Inv pid true pm v)

prepare-Inv : (s : NetworkingState) (pm : PeerManager) → Inv pm → Inv (prepare s pm).0
unfolding prepare drop_boot_peers
prepare-Inv (NetworkingState.not_bootstrapped ps) pm v = add_each-IsSound false true ps pm.state v
prepare-Inv NetworkingState.boot_in_progress pm v = v
prepare-Inv NetworkingState.bootstrapped pm v =
    ground (arith, disconnect_each-Inv (filter_peers is_connected_boot pm.state) pm v)
prepare-Inv NetworkingState.saturated pm v = v

schedule-Inv :
    (now : Instant) (m : ConnAllocationMode) (pm : PeerManager) → Inv pm → Inv (schedule now m pm)
unfolding schedule connect_best
schedule-Inv now active pm v = connect_if-Inv now _ pm v
schedule-Inv now passive pm v = connect_if-Inv now _ pm v
schedule-Inv now idle pm v = v

connect_reserved-Inv : (now : Instant) (pm : PeerManager) → Inv pm → Inv (connect_reserved now pm)
unfolding connect_reserved
connect_reserved-Inv now pm v =
    connect_each-Inv now (get_reserved_peers (some only_not_connected) pm.state) pm v

prepare_allocate_connections-Inv :
    (pm : PeerManager) → Inv pm → Inv (prepare_allocate_connections pm).0
unfolding prepare_allocate_connections
prepare_allocate_connections-Inv pm v = prepare-Inv (networking_state pm.state) pm v

pub allocate_connections-Inv :
    (now : Instant) (pm : PeerManager) → Inv pm → Inv (allocate_connections now pm)
unfolding allocate_connections
allocate_connections-Inv now pm v =
    let p = prepare_allocate_connections (connect_reserved now pm) in
    schedule-Inv now p.1 p.0
      (prepare_allocate_connections-Inv (connect_reserved now pm) (connect_reserved-Inv now pm v))

start_in-Inv :
    (prot : ProtocolId) (pid : PeerId) (st : Option PeerInState) (pm : PeerManager)
    → Inv pm
    → Entered st
    → Inv (start_in prot pid st pm)
unfolding start_in
start_in-Inv prot pid none pm v e = v
start_in-Inv prot pid (some (in_connected h)) pm v e =
    (enable_protocol_with-IsAttached prot h e.0).0
start_in-Inv prot pid (some (in_not_connected h)) pm v e = v

start_with-Inv :
    (prot : ProtocolId) (o : Option PeerId) (pm : PeerManager) → Inv pm → Inv (start_with prot o pm)
unfolding start_with
start_with-Inv prot none pm v = v
start_with-Inv prot (some pid) pm v = start_in-Inv prot pid _ pm v (peer-Entered pid pm.state v)

allocate_if-Inv :
    (prot : ProtocolId) (l : List PeerId) (pm : PeerManager) (b : Bool)
    → Inv pm
    → Inv (allocate_if prot l pm b)
unfolding allocate_if
allocate_if-Inv prot l pm false v = v
allocate_if-Inv prot l pm true v = start_with-Inv prot _ pm v

-- The invariant of what a call returns; a panic ends the program.
abbrev pub Kept : Outcome PeerManager → Type 0
Kept (returned pm) = Inv pm
Kept panicked = Unit {0}

allocate_more-Kept :
    (prot : ProtocolId) (l : List PeerId) (pm : PeerManager) (o : Outcome Bool)
    → Inv pm
    → Kept (o >>= λ more. returned (allocate_if prot l pm more))
allocate_more-Kept prot l pm (returned b) v = allocate_if-Inv prot l pm b v
allocate_more-Kept prot l pm panicked v = tt

allocate_enabled-Kept :
    (prot : ProtocolId) (policy : ProtocolAllocationPolicy) (o : Option (List PeerId))
    (pm : PeerManager)
    → Inv pm
    → Kept (allocate_enabled prot policy o pm)
unfolding allocate_enabled
allocate_enabled-Kept prot policy none pm v = v
allocate_enabled-Kept prot policy (some l) pm v = allocate_more-Kept prot l pm _ v

pub >>=-Kept :
    (o : Outcome PeerManager) (f : PeerManager → Outcome PeerManager)
    → Kept o
    → ((pm : PeerManager) → Inv pm → Kept (f pm))
    → Kept (o >>= f)
>>=-Kept (returned pm) f k h = h pm k
>>=-Kept panicked f k h = tt

allocate_each-Kept :
    (l : List (ProtocolId × ProtocolAllocationPolicy)) (pm : PeerManager)
    → Inv pm
    → Kept (allocate_each l pm)
unfolding allocate_each allocate_protocol
allocate_each-Kept [] pm v = v
allocate_each-Kept ((prot, policy) ∷ l) pm v =
    >>=-Kept _ _ (allocate_enabled-Kept prot policy _ pm v) (λ pm' v'. allocate_each-Kept l pm' v')

pub allocate_protocols-Kept : (pm : PeerManager) → Inv pm → Kept (allocate_protocols pm)
unfolding allocate_protocols
allocate_protocols-Kept pm v = allocate_each-Kept _ pm v
