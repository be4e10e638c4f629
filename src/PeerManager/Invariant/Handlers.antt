-- ===== src/PeerManager/Invariant/Handlers.antt =====
-- Every handler of spectrum-network/src/peer_manager.rs keeps the invariant of the repository.
use spectrum.PeerManager.Repo
use spectrum.PeerManager.Data.{
  ConnectionLossReason, Instant, PeerId, ProtocolId, ReputationChange, no_response, not_connected,
  peer_id, reset, reset_by_peer, sync_channel_exhausted, too_slow, unacceptable_peer,
}
use spectrum.PeerManager.Events.{
  add_unknown, after_loss, answer, answer_new, answer_state, enable_in, establish, fail_dial, lose,
  on_add_peers, on_add_reserved_peer, on_connection_established, on_connection_lost,
  on_dial_failure, on_force_enabled, on_get_peer_reputation, on_get_peers, on_incoming_connection,
  on_report_peer, on_set_peer_protocols, on_set_reserved_peers, punish, punish_known,
  send_reputation, update_protocols,
}
use spectrum.PeerManager.Handles.{
  PeerHandle, PeerInState, PeerRepo, adjust_reputation, disconnect, handle_of, in_connected,
  in_not_connected, peer, try_accept_connection,
}
use spectrum.PeerManager.Index.{update_reserved_set}
use spectrum.PeerManager.Invariant.{Inv, add_each-IsSound, disconnect_from-Inv}
use spectrum.PeerManager.Manager.{
  ConnectionId, PeerManager, PeerManagerIn, PeerManagerRequest, Sender, add_peers,
  add_reserved_peer, connection_established, connection_lost, dial_failure, force_enabled,
  get_peer_reputation, get_peers, incoming_connection, notification, notify_peer_punished, push_out,
  report_peer, request, set_reserved_peers,
}
use spectrum.PeerManager.Poll.{handle}
use spectrum.PeerManager.Repo.{Reserving, reserve_all, reserve_one}
use spectrum.PeerManager.Soundness.{
  Entered, IsAttached, IsSound, confirm_connection-IsAttached, disconnect-IsAttached,
  enable_protocol_with-IsAttached, force_inbound-IsAttached, peer-Entered,
  set_backoff_until-IsAttached,
}
use spectrum.PeerManager.Soundness.Entries.{
  Added, add_peer-IsSound, adjust_reputation-IsAttached, set_protocols-IsAttached,
  set_reserved-IsAttached, try_add_peer-Added,
}
use spectrum.Prelude.{List, Option, [], arith, false, none, some, true, ◌+◌, ◌∷◌, ◌≡◌}

reserve_all-IsSound :
    (pids : List PeerId) (s : Reserving) → IsSound s.repo → IsSound (reserve_all pids s).repo
unfolding reserve_all
reserve_all-IsSound [] s v = v
reserve_all-IsSound (pid ∷ pids) s v =
    reserve_all-IsSound pids _ (reserve_one-IsSound pid _ s v (peer-Entered pid s.repo v))
  where
    reserve_one-IsSound :
        (p : PeerId) (st : Option PeerInState) (t : Reserving)
        → IsSound t.repo
        → Entered st
        → IsSound (reserve_one p st t).repo
    reserve_one-IsSound p none t w e = w
    reserve_one-IsSound p (some (in_connected h)) t w e =
        (set_reserved-IsAttached true (in_connected h) e.0).0
    reserve_one-IsSound p (some (in_not_connected h)) t w e =
        (set_reserved-IsAttached true (in_not_connected h) e.0).0

set_reserved_peers-IsSound :
    (pids : List PeerId) (r : PeerRepo) → IsSound r → IsSound (Repo.set_reserved_peers pids r).0
unfolding Repo.set_reserved_peers update_reserved_set
set_reserved_peers-IsSound pids r v =
    let s = reserve_all-IsSound pids (record { repo = r; known = []; unknown = [] }) v in
    record {
      ranked = s.ranked;
      ordered = s.ordered;
      tracked = s.tracked;
      no_inbound = s.no_inbound;
      no_outbound = s.no_outbound;
      no_boot = s.no_boot;
    }

add_unknown-IsSound : (pids : List PeerId) (r : PeerRepo) → IsSound r → IsSound (add_unknown pids r)
unfolding add_unknown
add_unknown-IsSound [] r v = v
add_unknown-IsSound (pid ∷ pids) r v =
    add_unknown-IsSound pids _ (add_peer-IsSound (peer_id pid) true false r v)

on_set_reserved_peers-Inv :
    (pids : List PeerId) (pm : PeerManager) → Inv pm → Inv (on_set_reserved_peers pids pm)
unfolding on_set_reserved_peers
on_set_reserved_peers-Inv pids pm v =
    add_unknown-IsSound (Repo.set_reserved_peers pids pm.state).1 _
      (set_reserved_peers-IsSound pids pm.state v)

punish-Inv :
    (pid : PeerId) (change : ReputationChange) (st : PeerInState) (pm : PeerManager)
    → IsAttached (handle_of st)
    → Inv (punish pid change st pm)
unfolding punish
punish-Inv pid change st pm a = ground (
  arith,
  adjust_reputation-IsAttached change st a,
  disconnect_from-Inv pid true (record (push_out (notify_peer_punished pid change) pm) {
    state = (handle_of (adjust_reputation change st)).repo;
  }),
  disconnect_from-Inv pid true
      (record pm { state = (handle_of (adjust_reputation change st)).repo }),
)

punish_known-Inv :
    (pid : PeerId) (change : ReputationChange) (st : Option PeerInState) (pm : PeerManager)
    → Inv pm
    → Entered st
    → Inv (punish_known pid change st pm)
unfolding punish_known
punish_known-Inv pid change none pm v e = v
punish_known-Inv pid change (some (in_connected h)) pm v e =
    punish-Inv pid change (in_connected h) pm e.0
punish_known-Inv pid change (some (in_not_connected h)) pm v e =
    punish-Inv pid change (in_not_connected h) pm e.0

on_report_peer-Inv :
    (pid : PeerId) (change : ReputationChange) (pm : PeerManager)
    → Inv pm
    → Inv (on_report_peer pid change pm)
unfolding on_report_peer
on_report_peer-Inv pid change pm v =
    punish_known-Inv pid change _ pm v (peer-Entered pid pm.state v)

send_reputation-Inv :
    (s : Sender) (st : Option PeerInState) (pm : PeerManager)
    → Inv pm
    → Inv (send_reputation s st pm)
unfolding send_reputation
send_reputation-Inv s none pm v = v
send_reputation-Inv s (some st) pm v = v

update_protocols-Inv :
    (ps : List ProtocolId) (st : Option PeerInState) (pm : PeerManager)
    → Inv pm
    → Entered st
    → Inv (update_protocols ps st pm)
unfolding update_protocols
update_protocols-Inv ps none pm v e = v
update_protocols-Inv ps (some (in_connected h)) pm v e =
    (set_protocols-IsAttached ps (in_connected h) e.0).0
update_protocols-Inv ps (some (in_not_connected h)) pm v e =
    (set_protocols-IsAttached ps (in_not_connected h) e.0).0

answer-Inv :
    (pid : PeerId) (conn : ConnectionId) (h : PeerHandle) (pm : PeerManager)
    → IsAttached h
    → (h.peer_info).state ≡ not_connected
    → Inv (answer pid conn (try_accept_connection h) pm)
unfolding answer try_accept_connection
answer-Inv pid conn h pm a n = ground (arith, force_inbound-IsAttached h a n, a.0)

answer_new-Inv :
    (pid : PeerId) (conn : ConnectionId) (o : Option PeerHandle) (pm : PeerManager)
    → Inv pm
    → Added o
    → Inv (answer_new pid conn o pm)
unfolding answer_new
answer_new-Inv pid conn none pm v a = v
answer_new-Inv pid conn (some h) pm v a = answer-Inv pid conn h pm a.0 a.1

answer_state-Inv :
    (pid : PeerId) (conn : ConnectionId) (st : Option PeerInState) (pm : PeerManager)
    → Inv pm
    → Entered st
    → Inv (answer_state pid conn st pm)
unfolding answer_state
answer_state-Inv pid conn none pm v e =
    answer_new-Inv pid conn _ pm v (try_add_peer-Added (peer_id pid) false false pm.state v)
answer_state-Inv pid conn (some (in_connected h)) pm v e = v
answer_state-Inv pid conn (some (in_not_connected h)) pm v e =
    ground (arith, answer-Inv pid conn h pm e.0 e.1)

establish-Inv :
    (st : Option PeerInState) (pm : PeerManager) → Inv pm → Entered st → Inv (establish st pm)
unfolding establish
establish-Inv none pm v e = v
establish-Inv (some (in_connected h)) pm v e = (confirm_connection-IsAttached h e.0).0
establish-Inv (some (in_not_connected h)) pm v e = v

after_loss-Inv :
    (now : Instant) (pid : PeerId) (reason : ConnectionLossReason) (h : PeerHandle)
    (pm : PeerManager)
    → IsAttached h
    → Inv (after_loss now pid reason h pm)
unfolding after_loss
after_loss-Inv now pid reset_by_peer h pm a =
    ground
      (arith, a.0, set_backoff_until-IsAttached (now + (pm.conf).conn_reset_outbound_backoff) h a)
after_loss-Inv now pid (reset sync_channel_exhausted) h pm a =
    on_report_peer-Inv pid too_slow (record pm { state = h.repo }) a.0
after_loss-Inv now pid (reset unacceptable_peer) h pm a = a.0
after_loss-Inv now pid ConnectionLossReason.unknown h pm a = a.0

lose-Inv :
    (now : Instant) (pid : PeerId) (reason : ConnectionLossReason) (st : Option PeerInState)
    (pm : PeerManager)
    → Inv pm
    → Entered st
    → Inv (lose now pid reason st pm)
unfolding lose
lose-Inv now pid reason none pm v e = v
lose-Inv now pid reason (some (in_connected h)) pm v e =
    after_loss-Inv now pid reason (disconnect h) pm (disconnect-IsAttached h e.0 e.1)
lose-Inv now pid reason (some (in_not_connected h)) pm v e = v

fail_dial-Inv :
    (pid : PeerId) (st : Option PeerInState) (pm : PeerManager) → Inv pm → Inv (fail_dial pid st pm)
unfolding fail_dial
fail_dial-Inv pid none pm v = v
fail_dial-Inv pid (some (in_connected h)) pm v = on_report_peer-Inv pid no_response pm v
fail_dial-Inv pid (some (in_not_connected h)) pm v = v

enable_in-Inv :
    (prot : ProtocolId) (st : Option PeerInState) (pm : PeerManager)
    → Inv pm
    → Entered st
    → Inv (enable_in prot st pm)
unfolding enable_in
enable_in-Inv prot none pm v e = v
enable_in-Inv prot (some (in_connected h)) pm v e = (enable_protocol_with-IsAttached prot h e.0).0
enable_in-Inv prot (some (in_not_connected h)) pm v e = v

-- Every message keeps it.
pub handle-Inv :
    (now : Instant) (m : PeerManagerIn) (pm : PeerManager) → Inv pm → Inv (handle now m pm)
unfolding handle on_incoming_connection on_connection_established on_connection_lost on_dial_failure
    on_force_enabled on_add_peers on_get_peers on_add_reserved_peer on_get_peer_reputation
    on_set_peer_protocols
handle-Inv now (notification (incoming_connection pid conn)) pm v =
    answer_state-Inv pid conn (peer pid pm.state) pm v (peer-Entered pid pm.state v)
handle-Inv now (notification (connection_established pid conn)) pm v =
    establish-Inv (peer pid pm.state) pm v (peer-Entered pid pm.state v)
handle-Inv now (notification (connection_lost pid reason)) pm v =
    lose-Inv now pid reason (peer pid pm.state) pm v (peer-Entered pid pm.state v)
handle-Inv now (notification (dial_failure pid)) pm v = fail_dial-Inv pid (peer pid pm.state) pm v
handle-Inv now (notification (force_enabled pid prot)) pm v =
    enable_in-Inv prot (peer pid pm.state) pm v (peer-Entered pid pm.state v)
handle-Inv now (request (add_peers ps)) pm v = add_each-IsSound false false ps pm.state v
handle-Inv now (request (get_peers limit snd)) pm v = v
handle-Inv now (request (report_peer pid change)) pm v = on_report_peer-Inv pid change pm v
handle-Inv now (request (add_reserved_peer p)) pm v = add_peer-IsSound p true false pm.state v
handle-Inv now (request (get_peer_reputation pid resp)) pm v =
    send_reputation-Inv resp (peer pid pm.state) pm v
handle-Inv now (request (set_reserved_peers pids)) pm v = on_set_reserved_peers-Inv pids pm v
handle-Inv now (request (PeerManagerRequest.set_protocols pid ps)) pm v =
    update_protocols-Inv ps (peer pid pm.state) pm v (peer-Entered pid pm.state v)
