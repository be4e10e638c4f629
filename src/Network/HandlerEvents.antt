-- ===== src/Network/HandlerEvents.antt =====
-- `on_connection_handler_event` of spectrum-network/src/network_controller.rs.
use spectrum.Network.State.{
  ConnHandlerOut, ConnectedPeer, EnabledProtocol, MessageSink, NetworkController, ProtocolTag,
  RawMessage, approve_pending, close_protocol, closed, closed_all_protocols, closed_by_peer,
  connected_peer, disable_pending, enable_pending, enabled, generate, incoming_msg, message, notify,
  one_shot_message, opened, opened_by_peer, pending_approve, pending_connect, pending_disconnect,
  protocol_enabled, protocol_is_enabled, protocol_pending_approve, protocol_requested,
  refused_to_open, tell_handler, with_peers,
}
use spectrum.PeerManager.Data.{PeerId, ProtocolId}
use spectrum.PeerManager.Manager.{ConnectionId}
use spectrum.Prelude.{
  List, Option, Outcome, if◌then◌else◌, insert, is_some, lookup, none, panicked, remove, returned,
  some, unwrap, ◌>>=◌,
}

-- The entry of a connected peer with other protocols.
abbrev pub with_protocols :
    PeerId
    → List ConnectionId
    → List (ProtocolId × EnabledProtocol)
    → NetworkController
    → NetworkController
with_protocols pid conn_ids protocols c =
    with_peers (insert pid (connected_peer conn_ids protocols) c.enabled_peers) c

-- By the state of the protocol.
unfoldable pub opened_in :
    PeerId
    → ProtocolTag
    → MessageSink
    → Option RawMessage
    → List ConnectionId
    → List (ProtocolId × EnabledProtocol)
    → Option EnabledProtocol
    → NetworkController
    → NetworkController
unfolding insert
opened_in pid tag sink handshake conn_ids protocols (some enable_pending) c =
    generate (protocol_enabled pid tag.protocol_id tag.protocol_ver) (
      with_protocols pid conn_ids (insert tag.protocol_id (enabled tag.protocol_ver sink) protocols)
        (tell_handler tag.protocol_id (protocol_is_enabled pid tag.protocol_ver sink handshake) c))
opened_in pid tag sink handshake conn_ids protocols (some (enabled ver old)) c = c
opened_in pid tag sink handshake conn_ids protocols (some approve_pending) c = c
opened_in pid tag sink handshake conn_ids protocols (some disable_pending) c = c
opened_in pid tag sink handshake conn_ids protocols none c = c

-- A protocol that is not supported makes it panic.
unfoldable pub opened_by_peer_in :
    PeerId
    → ConnectionId
    → ProtocolTag
    → Option RawMessage
    → List ConnectionId
    → List (ProtocolId × EnabledProtocol)
    → NetworkController
    → Outcome NetworkController
unfolding lookup insert
opened_by_peer_in pid conn tag handshake conn_ids protocols c =
    unwrap (lookup tag.protocol_id c.supported_protocols) >>= λ handler. returned (
      if is_some (lookup tag.protocol_id protocols)
      then notify pid conn (close_protocol tag.protocol_id) c
      else generate (protocol_pending_approve pid tag.protocol_id) (
          tell_handler tag.protocol_id (protocol_requested pid tag.protocol_ver handshake)
            (with_protocols pid conn_ids (insert tag.protocol_id approve_pending protocols) c)))

-- An event of a connected peer.
unfoldable pub on_connected_event :
    PeerId
    → ConnectionId
    → ConnHandlerOut
    → List ConnectionId
    → List (ProtocolId × EnabledProtocol)
    → NetworkController
    → Outcome NetworkController
unfolding opened_in opened_by_peer_in lookup insert remove
on_connected_event pid conn (opened tag sink handshake) conn_ids protocols c =
    returned
      (opened_in pid tag sink handshake conn_ids protocols (lookup tag.protocol_id protocols) c)
on_connected_event pid conn (opened_by_peer tag handshake) conn_ids protocols c =
    opened_by_peer_in pid conn tag handshake conn_ids protocols c
on_connected_event pid conn (closed_by_peer protocol) conn_ids protocols c =
    returned (with_protocols pid conn_ids (remove protocol protocols) c)
on_connected_event pid conn (refused_to_open protocol) conn_ids protocols c =
    returned (with_protocols pid conn_ids (remove protocol protocols) c)
on_connected_event pid conn (closed protocol) conn_ids protocols c =
    returned (with_protocols pid conn_ids (remove protocol protocols) c)
on_connected_event pid conn (message tag content) conn_ids protocols c = returned (
    if is_some (lookup tag.protocol_id protocols)
    then tell_handler tag.protocol_id (incoming_msg pid tag.protocol_ver content) c
    else c)
on_connected_event pid conn closed_all_protocols conn_ids protocols c = returned c
on_connected_event pid conn (one_shot_message tag content) conn_ids protocols c = returned c

-- The events that are about a connected peer only.
unfoldable pub peer_event_in :
    PeerId
    → ConnectionId
    → ConnHandlerOut
    → Option ConnectedPeer
    → NetworkController
    → Outcome NetworkController
unfolding on_connected_event
peer_event_in pid conn event (some (connected_peer conn_ids protocols)) c =
    on_connected_event pid conn event conn_ids protocols c
peer_event_in pid conn event (some (pending_approve old)) c = returned c
peer_event_in pid conn event (some (pending_connect tasks terminate_asap)) c = returned c
peer_event_in pid conn event (some (pending_disconnect old)) c = returned c
peer_event_in pid conn event none c = returned c

-- The assertion that the peer was there, and its removal.
unfoldable pub on_closed_all : PeerId → NetworkController → Outcome NetworkController
unfolding lookup remove
on_closed_all pid c =
    if is_some (lookup pid c.enabled_peers)
    then returned (with_peers (remove pid c.enabled_peers) c)
    else panicked

unfoldable pub on_one_shot_message :
    PeerId → ProtocolTag → RawMessage → NetworkController → NetworkController
unfolding lookup
on_one_shot_message pid tag content c =
    if is_some (lookup tag.protocol_id c.supported_protocols)
    then tell_handler tag.protocol_id (incoming_msg pid tag.protocol_ver content) c
    else c

-- The events that do not look the peer up as a connected one are handled first.
unfoldable pub on_connection_handler_event :
    PeerId → ConnectionId → ConnHandlerOut → NetworkController → Outcome NetworkController
unfolding peer_event_in on_closed_all on_one_shot_message lookup
on_connection_handler_event pid conn closed_all_protocols c = on_closed_all pid c
on_connection_handler_event pid conn (one_shot_message tag content) c =
    returned (on_one_shot_message pid tag content c)
on_connection_handler_event pid conn (opened tag sink handshake) c =
    peer_event_in pid conn (opened tag sink handshake) (lookup pid c.enabled_peers) c
on_connection_handler_event pid conn (opened_by_peer tag handshake) c =
    peer_event_in pid conn (opened_by_peer tag handshake) (lookup pid c.enabled_peers) c
on_connection_handler_event pid conn (closed_by_peer protocol) c =
    peer_event_in pid conn (closed_by_peer protocol) (lookup pid c.enabled_peers) c
on_connection_handler_event pid conn (refused_to_open protocol) c =
    peer_event_in pid conn (refused_to_open protocol) (lookup pid c.enabled_peers) c
on_connection_handler_event pid conn (closed protocol) c =
    peer_event_in pid conn (closed protocol) (lookup pid c.enabled_peers) c
on_connection_handler_event pid conn (message tag content) c =
    peer_event_in pid conn (message tag content) (lookup pid c.enabled_peers) c
