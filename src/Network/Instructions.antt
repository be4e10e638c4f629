-- ===== src/Network/Instructions.antt =====
-- The instructions of the peer manager, in `poll` of spectrum-network/src/network_controller.rs.
use spectrum.Network.HandlerEvents.{with_protocols}
use spectrum.Network.State.{
  ConnectedPeer, NetworkController, close_all_protocols, connected_peer,
  connected_with_inbound_peer, dial, disconnected, enable_pending, generate, notify, peer_punished,
  pending_approve, pending_connect, pending_disconnect, protocol_pending_enable, push_action,
  requested_local, tell_handler, with_peers,
}
use spectrum.PeerManager.Data.{
  PeerDestination, PeerId, ProtocolId, id_of, into_addr, reset, unacceptable_peer,
}
use spectrum.PeerManager.Manager.{
  ConnectionId, PeerManagerOut, accept_incoming_connection, connect, drop, notify_peer_punished,
  reject, start_protocol,
}
use spectrum.Prelude.{
  List, Option, Outcome, [], false, if◌then◌else◌, insert, is_some, lookup, none, remove, returned,
  some, unwrap, ◌>>=◌, ◌∷◌,
}

-- `Vec::first`.
abbrev pub first_of : List ConnectionId → Option ConnectionId
first_of [] = none
first_of (id ∷ ids) = some id

unfoldable pub on_connect : PeerDestination → NetworkController → NetworkController
unfolding lookup insert
on_connect destination c =
    if is_some (lookup (id_of destination) c.enabled_peers)
    then c
    else push_action (dial (id_of destination) (into_addr destination))
        (with_peers (insert (id_of destination) (pending_connect [] false) c.enabled_peers) c)

-- The entry stays until the handler answers.
unfoldable pub drop_in :
    PeerId → Option ConnectedPeer → NetworkController → Outcome NetworkController
drop_in pid (some (connected_peer conn_ids protocols)) c = unwrap (first_of conn_ids) >>= λ conn.
    returned (
      generate (disconnected pid (reset unacceptable_peer)) (notify pid conn close_all_protocols c))
drop_in pid (some (pending_approve old)) c = returned c
drop_in pid (some (pending_connect tasks terminate_asap)) c = returned c
drop_in pid (some (pending_disconnect old)) c = returned c
drop_in pid none c = returned c

unfoldable pub accept_in :
    PeerId → ConnectionId → Option ConnectedPeer → NetworkController → NetworkController
unfolding insert
accept_in pid conn (some (pending_approve old)) c =
    generate (connected_with_inbound_peer pid)
      (with_peers (insert pid (connected_peer (conn ∷ []) []) c.enabled_peers) c)
accept_in pid conn (some (connected_peer conn_ids protocols)) c = c
accept_in pid conn (some (pending_connect tasks terminate_asap)) c = c
accept_in pid conn (some (pending_disconnect old)) c = c
accept_in pid conn none c = c

unfoldable pub reject_in :
    PeerId → ConnectionId → Option ConnectedPeer → NetworkController → NetworkController
unfolding remove
reject_in pid conn (some (pending_approve old)) c =
    notify pid conn close_all_protocols (with_peers (remove pid c.enabled_peers) c)
reject_in pid conn (some (connected_peer conn_ids protocols)) c = c
reject_in pid conn (some (pending_connect tasks terminate_asap)) c = c
reject_in pid conn (some (pending_disconnect old)) c = c
reject_in pid conn none c = c

unfoldable pub start_in :
    ProtocolId → PeerId → Option ConnectedPeer → NetworkController → Outcome NetworkController
unfolding lookup insert
start_in protocol pid (some (connected_peer conn_ids protocols)) c =
    unwrap (lookup protocol c.supported_protocols) >>= λ handler. returned (
      if is_some (lookup protocol protocols)
      then c
      else generate (protocol_pending_enable pid protocol) (
          tell_handler protocol (requested_local pid)
            (with_protocols pid conn_ids (insert protocol enable_pending protocols) c)))
start_in protocol pid (some (pending_approve old)) c = returned c
start_in protocol pid (some (pending_connect tasks terminate_asap)) c = returned c
start_in protocol pid (some (pending_disconnect old)) c = returned c
start_in protocol pid none c = returned c

-- An instruction of the peer manager.
unfoldable pub on_instruction : PeerManagerOut → NetworkController → Outcome NetworkController
unfolding on_connect drop_in accept_in reject_in start_in lookup
on_instruction (connect destination) c = returned (on_connect destination c)
on_instruction (drop pid) c = drop_in pid (lookup pid c.enabled_peers) c
on_instruction (accept_incoming_connection pid conn) c =
    returned (accept_in pid conn (lookup pid c.enabled_peers) c)
on_instruction (reject pid conn) c = returned (reject_in pid conn (lookup pid c.enabled_peers) c)
on_instruction (start_protocol protocol pid) c =
    start_in protocol pid (lookup pid c.enabled_peers) c
on_instruction (notify_peer_punished pid reason) c =
    returned (generate (peer_punished pid reason) c)
