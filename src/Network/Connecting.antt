-- ===== src/Network/Connecting.antt =====
-- The handler that a new connection gets, in `init_conn_handler` and the methods that call it, of
-- spectrum-network/src/network_controller.rs. The random ids of one-shot requests are the argument
-- `draw`, by the number of the draw.
use spectrum.Connection.Handler.{
  OneShotProtocol, OneShotRequest, PeerConnHandler, StatefulProtocol, awaiting, closed_state,
}
use spectrum.Network.State.{
  ConnectedPeer, NetworkController, OneShotMessage, ProtocolConfig, ProtocolVer,
  StatefulProtocolSpec, connected_peer, one_shot, pending_approve, pending_connect,
  pending_disconnect, stateful,
}
use spectrum.PeerManager.Data.{Instant, PeerId, ProtocolId}
use spectrum.Prelude.{Bool, List, Option, [], false, insert, lookup, none, some, ℕ, ◌+◌, ◌∷◌}

-- The last of the supported versions stays.
unfoldable add_versions :
    ProtocolId
    → List (ProtocolVer × StatefulProtocolSpec)
    → List (ProtocolVer × StatefulProtocolSpec)
    → List (ProtocolId × StatefulProtocol)
    → List (ProtocolId × StatefulProtocol)
unfolding insert
add_versions protocol all [] table = table
add_versions protocol all (v ∷ versions) table = add_versions protocol all versions (
    insert protocol
      (record { ver = v.0; spec = v.1; state = some closed_state; all_versions_specs = all }) table)

unfoldable stateful_of :
    List (ProtocolId × ProtocolConfig)
    → List (ProtocolId × StatefulProtocol)
    → List (ProtocolId × StatefulProtocol)
unfolding add_versions
stateful_of [] table = table
stateful_of ((protocol, stateful versions) ∷ configs) table =
    stateful_of configs (add_versions protocol versions versions table)
stateful_of ((protocol, one_shot ver size) ∷ configs) table = stateful_of configs table

unfoldable one_shot_of :
    List (ProtocolId × ProtocolConfig)
    → List (ProtocolId × OneShotProtocol)
    → List (ProtocolId × OneShotProtocol)
unfolding insert
one_shot_of [] table = table
one_shot_of ((protocol, stateful versions) ∷ configs) table = one_shot_of configs table
one_shot_of ((protocol, one_shot ver size) ∷ configs) table =
    one_shot_of configs (insert protocol (record { ver = ver; max_message_size = size }) table)

-- One-shot requests collected from the draw with this number on.
unfoldable pub collect_requests :
    (ℕ → ℕ) → ℕ → List OneShotMessage → List (ℕ × OneShotRequest) → List (ℕ × OneShotRequest)
unfolding insert
collect_requests draw n [] table = table
collect_requests draw n (task ∷ tasks) table =
    collect_requests draw (n + 1) tasks (insert (draw n) (awaiting task) table)

unfoldable pub init_conn_handler :
    (ℕ → ℕ) → Instant → PeerId → List OneShotMessage → Bool → NetworkController → PeerConnHandler
unfolding stateful_of one_shot_of collect_requests
init_conn_handler draw now pid requests asap c = record {
  stateful_protocols = stateful_of c.supported_protocols [];
  one_shot_protocols = one_shot_of c.supported_protocols [];
  created_at = now;
  remote = pid;
  pending_events = [];
  fault = none;
  pending_one_shots = collect_requests draw 0 requests [];
  terminate_asap = asap;
  approvals = [];
}

unfoldable pub handle_established_inbound_connection :
    (ℕ → ℕ) → Instant → PeerId → NetworkController → PeerConnHandler
unfolding init_conn_handler
handle_established_inbound_connection draw now pid c = init_conn_handler draw now pid [] false c

-- By the entry of the peer.
unfoldable pub outbound_handler :
    (ℕ → ℕ) → Instant → PeerId → Option ConnectedPeer → NetworkController → PeerConnHandler
unfolding init_conn_handler
outbound_handler draw now pid (some (pending_connect tasks asap)) c =
    init_conn_handler draw now pid tasks asap c
outbound_handler draw now pid (some (connected_peer ids protocols)) c =
    init_conn_handler draw now pid [] false c
outbound_handler draw now pid (some (pending_approve conn)) c =
    init_conn_handler draw now pid [] false c
outbound_handler draw now pid (some (pending_disconnect conn)) c =
    init_conn_handler draw now pid [] false c
outbound_handler draw now pid none c = init_conn_handler draw now pid [] false c

unfoldable pub handle_established_outbound_connection :
    (ℕ → ℕ) → Instant → PeerId → NetworkController → PeerConnHandler
unfolding outbound_handler lookup
handle_established_outbound_connection draw now pid c =
    outbound_handler draw now pid (lookup pid c.enabled_peers) c
