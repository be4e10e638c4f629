-- ===== src/Network/Requests.antt =====
-- The requests of protocol handlers, in `poll` of spectrum-network/src/network_controller.rs.
use spectrum.Network.HandlerEvents.{with_protocols}
use spectrum.Network.Instructions.{first_of}
use spectrum.Network.State.{
  ConnectedPeer, EnabledProtocol, NetworkController, NetworkControllerIn, OneShotMessage,
  PolyVerHandshakeSpec, approve_pending, ban_peer, connected_peer, dial, disable_pending,
  enable_pending, enable_protocol, enabled, generate, notify, open_protocol, pending_approve,
  pending_connect, pending_disconnect, protocol_pending_enable, push_action, send_one_shot_message,
  tell_manager, try_deliver_once, update_peer_protocols, with_peers,
}
use spectrum.PeerManager.Data.{Multiaddr, PeerId, ProtocolId}
use spectrum.PeerManager.Manager.{ConnectionId, force_enabled, notification, request, set_protocols}
use spectrum.Prelude.{
  List, Option, Outcome, [], insert, lookup, none, returned, some, true, unwrap, ◌++◌, ◌>>=◌, ◌∷◌,
}

unfoldable pub send_in :
    PeerId
    → Option Multiaddr
    → OneShotMessage
    → Option ConnectedPeer
    → NetworkController
    → Outcome NetworkController
unfolding insert
send_in pid addr_hint task none c = returned (
    with_peers (insert pid (pending_connect (task ∷ []) true) c.enabled_peers)
      (push_action (dial pid addr_hint) c))
send_in pid addr_hint task (some (connected_peer conn_ids protocols)) c =
    unwrap (first_of conn_ids) >>= λ conn. returned (notify pid conn (try_deliver_once task) c)
send_in pid addr_hint task (some (pending_approve conn)) c =
    returned (notify pid conn (try_deliver_once task) c)
send_in pid addr_hint task (some (pending_connect tasks terminate_asap)) c = returned (
    with_peers (insert pid (pending_connect (tasks ++ task ∷ []) terminate_asap) c.enabled_peers) c)
send_in pid addr_hint task (some (pending_disconnect old)) c = returned c

-- The handler approves a request of either side.
abbrev approve :
    ProtocolId
    → PeerId
    → PolyVerHandshakeSpec
    → List ConnectionId
    → List (ProtocolId × EnabledProtocol)
    → NetworkController
    → Outcome NetworkController
approve protocol pid handshake conn_ids protocols c = unwrap (first_of conn_ids) >>= λ conn.
    returned (
      notify pid conn (open_protocol protocol handshake)
        (with_protocols pid conn_ids (insert protocol enable_pending protocols) c))

-- By the state of the protocol; one that is not known for the peer is opened on the handler's own
-- account.
unfoldable pub enable_with :
    ProtocolId
    → PeerId
    → PolyVerHandshakeSpec
    → List ConnectionId
    → List (ProtocolId × EnabledProtocol)
    → Option EnabledProtocol
    → NetworkController
    → Outcome NetworkController
unfolding insert
enable_with protocol pid handshake conn_ids protocols (some enable_pending) c =
    approve protocol pid handshake conn_ids protocols c
enable_with protocol pid handshake conn_ids protocols (some approve_pending) c =
    approve protocol pid handshake conn_ids protocols c
enable_with protocol pid handshake conn_ids protocols (some (enabled ver sink)) c = returned c
enable_with protocol pid handshake conn_ids protocols (some disable_pending) c = returned c
enable_with protocol pid handshake conn_ids protocols none c =
    unwrap (first_of conn_ids) >>= λ conn. returned (
      generate (protocol_pending_enable pid protocol) (
        notify pid conn (open_protocol protocol handshake) (
          tell_manager (notification (force_enabled pid protocol))
            (with_protocols pid conn_ids (insert protocol enable_pending protocols) c))))

unfoldable pub enable_in :
    ProtocolId
    → PeerId
    → PolyVerHandshakeSpec
    → Option ConnectedPeer
    → NetworkController
    → Outcome NetworkController
unfolding enable_with lookup
enable_in protocol pid handshake (some (connected_peer conn_ids protocols)) c =
    unwrap (lookup protocol c.supported_protocols) >>= λ handler.
    enable_with protocol pid handshake conn_ids protocols (lookup protocol protocols) c
enable_in protocol pid handshake (some (pending_approve old)) c = returned c
enable_in protocol pid handshake (some (pending_connect tasks terminate_asap)) c = returned c
enable_in protocol pid handshake (some (pending_disconnect old)) c = returned c
enable_in protocol pid handshake none c = returned c

-- A request of a protocol handler.
unfoldable pub on_request : NetworkControllerIn → NetworkController → Outcome NetworkController
unfolding send_in enable_in lookup
on_request (send_one_shot_message pid addr_hint tag content) c =
    send_in pid addr_hint (record { protocol = tag; content = content })
      (lookup pid c.enabled_peers) c
on_request (update_peer_protocols pid protocols) c =
    returned (tell_manager (request (set_protocols pid protocols)) c)
on_request (enable_protocol protocol pid handshake) c =
    enable_in protocol pid handshake (lookup pid c.enabled_peers) c
on_request (ban_peer pid) c = returned c
