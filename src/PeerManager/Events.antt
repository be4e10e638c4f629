-- ===== src/PeerManager/Events.antt =====
-- The handlers of spectrum-network/src/peer_manager.rs (`PeerManagerRequestsBehavior` and
-- `PeerManagerNotificationsBehavior`), and `poll_next`.
use spectrum.Prelude.{
  ℕ, ◌+◌, true, false, List, [], ◌∷◌, ◌++◌, Option, none, some, leb_ℤ, if◌then◌else◌, Result, ok,
  err,
}
use spectrum.PeerManager.Data.{
  PeerId, ProtocolId, Instant, ReputationChange, no_response, too_slow, PeerDestination, peer_id,
  is_downgrade, ConnectionLossReason, reset_by_peer, reset, sync_channel_exhausted,
  unacceptable_peer,
}
use spectrum.PeerManager.Handles.{
  PeerRepo, NotConnectedPeer, ConnectedPeer, PeerInState, in_connected, in_not_connected, handle_of,
  peer, disconnect, confirm_connection, enable_protocol_with, try_accept_connection, set_protocols,
  set_backoff_until, adjust_reputation, is_reputation_acceptable, get_reputation,
}
use spectrum.PeerManager.Repo
use spectrum.PeerManager.Repo.{try_add_peer, add_peer}
use spectrum.PeerManager.Manager.{
  ConnectionId, Sender, accept_incoming_connection, reject, notify_peer_punished, peers_reply,
  reputation_reply, PeerManager, push_out, disconnect_from, add_each,
}

unfoldable pub on_add_peers : List PeerDestination → PeerManager → PeerManager
unfolding add_each
on_add_peers ps pm = record pm { state = add_each false false ps pm.state }

unfoldable pub on_get_peers : ℕ → Sender → PeerManager → PeerManager
on_get_peers limit response pm = record pm {
  replies = pm.replies ++ peers_reply response (Repo.get_peers limit pm.state) ∷ [];
}

unfoldable pub on_add_reserved_peer : PeerDestination → PeerManager → PeerManager
on_add_reserved_peer p pm = record pm { state = add_peer p true false pm.state }

unfoldable pub add_unknown : List PeerId → PeerRepo → PeerRepo
add_unknown [] r = r
add_unknown (pid ∷ pids) r = add_unknown pids (add_peer (peer_id pid) true false r)

unfoldable pub on_set_reserved_peers : List PeerId → PeerManager → PeerManager
unfolding add_unknown
on_set_reserved_peers pids pm =
    let (r, unknown) = Repo.set_reserved_peers pids pm.state in
    record pm { state = add_unknown unknown r }

unfoldable pub punish : PeerId → ReputationChange → PeerInState → PeerManager → PeerManager
punish pid change st pm =
    let notified =
      if is_downgrade change then push_out (notify_peer_punished pid change) pm else pm in
    let st' = adjust_reputation change st in
    let adjusted = record notified { state = (handle_of st').repo } in
    if is_reputation_acceptable (pm.conf).min_acceptable_reputation st'
    then adjusted
    else disconnect_from pid true adjusted

unfoldable pub punish_known :
    PeerId → ReputationChange → Option PeerInState → PeerManager → PeerManager
punish_known pid change none pm = pm
punish_known pid change (some st) pm = punish pid change st pm

unfoldable pub on_report_peer : PeerId → ReputationChange → PeerManager → PeerManager
unfolding punish_known punish
on_report_peer pid change pm = punish_known pid change (peer pid pm.state) pm

unfoldable pub send_reputation : Sender → Option PeerInState → PeerManager → PeerManager
send_reputation response none pm = pm
send_reputation response (some st) pm = record pm {
  replies = pm.replies ++ reputation_reply response (get_reputation st) ∷ [];
}

unfoldable pub on_get_peer_reputation : PeerId → Sender → PeerManager → PeerManager
unfolding send_reputation
on_get_peer_reputation pid response pm = send_reputation response (peer pid pm.state) pm

unfoldable pub update_protocols : List ProtocolId → Option PeerInState → PeerManager → PeerManager
update_protocols ps none pm = pm
update_protocols ps (some st) pm = record pm { state = (handle_of (set_protocols ps st)).repo }

unfoldable pub on_set_peer_protocols : PeerId → List ProtocolId → PeerManager → PeerManager
unfolding update_protocols
on_set_peer_protocols pid ps pm = update_protocols ps (peer pid pm.state) pm

unfoldable pub answer :
    PeerId → ConnectionId → Result ConnectedPeer NotConnectedPeer → PeerManager → PeerManager
answer pid conn (ok cp) pm =
    push_out (accept_incoming_connection pid conn) (record pm { state = cp.repo })
answer pid conn (err ncp) pm = push_out (reject pid conn) (record pm { state = ncp.repo })

unfoldable pub answer_new :
    PeerId → ConnectionId → Option NotConnectedPeer → PeerManager → PeerManager
answer_new pid conn none pm = push_out (reject pid conn) pm
answer_new pid conn (some ncp) pm = answer pid conn (try_accept_connection ncp) pm

-- The first test of the conjunction guards the second, which may connect the peer.
unfoldable pub answer_state : PeerId → ConnectionId → Option PeerInState → PeerManager → PeerManager
answer_state pid conn (some (in_not_connected ncp)) pm =
    if leb_ℤ (pm.conf).min_reputation (ncp.peer_info).reputation
    then answer pid conn (try_accept_connection ncp) pm
    else push_out (reject pid conn) pm
answer_state pid conn (some (in_connected cp)) pm = push_out (reject pid conn) pm
answer_state pid conn none pm =
    answer_new pid conn (try_add_peer (peer_id pid) false false pm.state) pm

unfoldable pub on_incoming_connection : PeerId → ConnectionId → PeerManager → PeerManager
unfolding answer_state answer_new answer
on_incoming_connection pid conn pm = answer_state pid conn (peer pid pm.state) pm

unfoldable pub establish : Option PeerInState → PeerManager → PeerManager
establish (some (in_connected cp)) pm = record pm { state = ((confirm_connection cp).0).repo }
establish st pm = pm

unfoldable pub on_connection_established : PeerId → ConnectionId → PeerManager → PeerManager
unfolding establish
on_connection_established pid conn pm = establish (peer pid pm.state) pm

unfoldable pub after_loss :
    Instant → PeerId → ConnectionLossReason → NotConnectedPeer → PeerManager → PeerManager
after_loss now pid reset_by_peer ncp pm =
    if (ncp.peer_info).is_reserved then record pm { state = ncp.repo } else record pm {
      state = (set_backoff_until (now + (pm.conf).conn_reset_outbound_backoff) ncp).repo;
    }
after_loss now pid (reset sync_channel_exhausted) ncp pm =
    on_report_peer pid too_slow (record pm { state = ncp.repo })
after_loss now pid (reset unacceptable_peer) ncp pm = record pm { state = ncp.repo }
after_loss now pid ConnectionLossReason.unknown ncp pm = record pm { state = ncp.repo }

unfoldable pub lose :
    Instant → PeerId → ConnectionLossReason → Option PeerInState → PeerManager → PeerManager
lose now pid reason (some (in_connected cp)) pm = after_loss now pid reason (disconnect cp) pm
lose now pid reason st pm = pm

unfoldable pub on_connection_lost :
    Instant → PeerId → ConnectionLossReason → PeerManager → PeerManager
unfolding lose after_loss
on_connection_lost now pid reason pm = lose now pid reason (peer pid pm.state) pm

unfoldable pub fail_dial : PeerId → Option PeerInState → PeerManager → PeerManager
fail_dial pid (some (in_connected cp)) pm = on_report_peer pid no_response pm
fail_dial pid st pm = pm

unfoldable pub on_dial_failure : PeerId → PeerManager → PeerManager
unfolding fail_dial
on_dial_failure pid pm = fail_dial pid (peer pid pm.state) pm

unfoldable pub enable_in : ProtocolId → Option PeerInState → PeerManager → PeerManager
enable_in prot (some (in_connected cp)) pm = record pm {
  state = (enable_protocol_with prot cp).repo;
}
enable_in prot st pm = pm

unfoldable pub on_force_enabled : PeerId → ProtocolId → PeerManager → PeerManager
unfolding enable_in
on_force_enabled pid prot pm = enable_in prot (peer pid pm.state) pm
