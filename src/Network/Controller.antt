-- ===== src/Network/Controller.antt =====
-- `on_swarm_event` of spectrum-network/src/network_controller.rs.
use spectrum.Network.State.{
  ConnectedPeer, EnabledProtocol, NetworkController, OneShotMessage, ProtocolConfig,
  close_connection, connected_peer, connected_with_outbound_peer, disconnected, generate, notify,
  peer_connected, pending_approve, pending_connect, pending_disconnect, push_action, tell_handler,
  tell_manager, try_deliver_once, with_peers,
}
use spectrum.PeerManager.Data.{
  ConnHandlerError, ConnectionLossReason, PeerId, ProtocolId, reset, reset_by_peer,
}
use spectrum.PeerManager.Manager.{
  ConnectionId, connection_established, connection_lost, dial_failure, incoming_connection,
  notification,
}
use spectrum.Prelude.{
  List, Option, Outcome, [], contains, if◌then◌else◌, insert, lookup, none, panicked, remove,
  returned, some, unwrap, ◌++◌, ◌==◌, ◌>>=◌, ◌∷◌,
}

-- A command for each one-shot message that waited for the connection.
unfoldable pub deliver_tasks :
    PeerId → ConnectionId → List OneShotMessage → NetworkController → NetworkController
deliver_tasks pid conn [] c = c
deliver_tasks pid conn (task ∷ tasks) c =
    deliver_tasks pid conn tasks (notify pid conn (try_deliver_once task) c)

unfoldable pub tell_connected :
    PeerId → List (ProtocolId × ProtocolConfig) → NetworkController → NetworkController
tell_connected pid [] c = c
tell_connected pid (protocol ∷ protocols) c =
    tell_connected pid protocols (tell_handler protocol.0 (peer_connected pid) c)

-- The peer that was dialled is connected, with its one-shot messages on their way.
abbrev pub joined :
    PeerId → ConnectionId → List OneShotMessage → NetworkController → NetworkController
joined pid conn tasks c =
    let told =
      tell_manager (notification (connection_established pid conn))
        (deliver_tasks pid conn tasks c) in
    with_peers (insert pid (connected_peer (conn ∷ []) []) told.enabled_peers) told

-- By the entry of the peer.
unfoldable pub established_in :
    PeerId → ConnectionId → Option ConnectedPeer → NetworkController → Outcome NetworkController
unfolding deliver_tasks tell_connected insert contains
established_in pid conn none c = returned (
    with_peers (insert pid (pending_approve conn) c.enabled_peers)
      (tell_manager (notification (incoming_connection pid conn)) c))
established_in pid conn (some (pending_connect tasks terminate_asap)) c =
    let moved = joined pid conn tasks c in
    returned (
      generate (connected_with_outbound_peer pid)
        (tell_connected pid moved.supported_protocols moved))
established_in pid conn (some (connected_peer conn_ids protocols)) c =
    if contains conn conn_ids
    then panicked
    else returned (
        push_action (close_connection pid conn) (
          with_peers (insert pid (connected_peer (conn_ids ++ conn ∷ []) protocols) c.enabled_peers)
            c))
established_in pid conn (some (pending_disconnect old)) c =
    returned (push_action (close_connection pid conn) c)
established_in pid conn (some (pending_approve old)) c =
    returned (push_action (close_connection pid conn) c)

unfoldable pub on_connection_established :
    PeerId → ConnectionId → NetworkController → Outcome NetworkController
unfolding established_in lookup
on_connection_established pid conn c = established_in pid conn (lookup pid c.enabled_peers) c

abbrev loss_reason : Option ConnHandlerError → ConnectionLossReason
loss_reason none = reset_by_peer
loss_reason (some fault) = reset fault

-- `connection_lost` to the manager, and `peer_disconnected`.
abbrev lose : PeerId → Option ConnHandlerError → NetworkController → NetworkController
lose pid fault c =
    generate (disconnected pid (loss_reason fault))
      (tell_manager (notification (connection_lost pid (loss_reason fault))) c)

-- `Vec::remove` of the first position of an id, which has to be there.
unfoldable pub remove_conn : ConnectionId → List ConnectionId → Option (List ConnectionId)
remove_conn conn [] = none
remove_conn conn (id ∷ ids) =
    let rest = remove_conn conn ids in
    if id == conn then some ids else elim rest [ none ↦ none | some left ↦ some (id ∷ left) ]

-- The entry of a peer after one of its connections is gone.
unfoldable pub without_conn :
    PeerId
    → List ConnectionId
    → List (ProtocolId × EnabledProtocol)
    → List (PeerId × ConnectedPeer)
    → List (PeerId × ConnectedPeer)
unfolding insert remove
without_conn pid [] protocols peers = remove pid peers
without_conn pid (id ∷ ids) protocols peers = insert pid (connected_peer (id ∷ ids) protocols) peers

unfoldable pub closed_in :
    PeerId
    → ConnectionId
    → Option ConnHandlerError
    → Option ConnectedPeer
    → NetworkController
    → Outcome NetworkController
unfolding remove_conn without_conn remove
closed_in pid conn fault (some (connected_peer conn_ids protocols)) c =
    unwrap (remove_conn conn conn_ids) >>= λ left.
    returned (lose pid fault (with_peers (without_conn pid left protocols c.enabled_peers) c))
closed_in pid conn fault (some (pending_disconnect old)) c =
    returned (lose pid fault (with_peers (remove pid c.enabled_peers) c))
closed_in pid conn fault (some (pending_connect tasks terminate_asap)) c = returned c
closed_in pid conn fault (some (pending_approve old)) c = returned c
closed_in pid conn fault none c = returned c

unfoldable pub on_connection_closed :
    PeerId → ConnectionId → Option ConnHandlerError → NetworkController → Outcome NetworkController
unfolding closed_in lookup
on_connection_closed pid conn fault c = closed_in pid conn fault (lookup pid c.enabled_peers) c

unfoldable pub on_dial_failure : Option PeerId → NetworkController → NetworkController
on_dial_failure none c = c
on_dial_failure (some pid) c = tell_manager (notification (dial_failure pid)) c
