-- ===== src/Network/State.antt =====
-- The data of spectrum-network/src/network_controller.rs, with the commands and events of
-- peer_conn_handler.rs and the events of protocol_api.rs. A raw message and a sink are numbers, and a
-- handshake lists its versions in their order. What the controller sends to the peer manager is kept
-- in `to_manager`, and what it sends to the handler of a protocol in `to_handlers`.
use spectrum.PeerManager.Data.{
  ConnectionLossReason, Multiaddr, PeerId, ProtocolId, ReputationChange,
}
use spectrum.PeerManager.Manager.{ConnectionId, PeerManagerIn}
use spectrum.Prelude.{Bool, List, Option, [], ℕ, ◌++◌, ◌∷◌}

abbrev pub ProtocolVer : Type 0
ProtocolVer = ℕ

abbrev pub RawMessage : Type 0
RawMessage = ℕ

-- The entries of a `BTreeMap` in its order, where `Ord for ProtocolVer` (types.rs) puts the greatest
-- version first.
abbrev pub PolyVerHandshakeSpec : Type 0
PolyVerHandshakeSpec = List (ProtocolVer × Option RawMessage)

abbrev pub MessageSink : Type 0
MessageSink = ℕ

pub record ProtocolTag : Type 0 where
  pub protocol_id : ProtocolId
  pub protocol_ver : ProtocolVer

pub record OneShotMessage : Type 0 where
  pub protocol : ProtocolTag
  pub content : RawMessage

pub data EnabledProtocol : Type 0 where
  enabled : ProtocolVer → MessageSink → EnabledProtocol
  approve_pending enable_pending disable_pending : EnabledProtocol

-- The handler of an enabled protocol is the one of the protocol.
pub data ConnectedPeer : Type 0 where
  connected_peer : List ConnectionId → List (ProtocolId × EnabledProtocol) → ConnectedPeer
  pending_approve : ConnectionId → ConnectedPeer
  pending_connect : List OneShotMessage → Bool → ConnectedPeer
  pending_disconnect : ConnectionId → ConnectedPeer

pub data NetworkControllerOut : Type 0 where
  connected_with_inbound_peer : PeerId → NetworkControllerOut
  connected_with_outbound_peer : PeerId → NetworkControllerOut
  disconnected : PeerId → ConnectionLossReason → NetworkControllerOut
  protocol_pending_approve : PeerId → ProtocolId → NetworkControllerOut
  protocol_pending_enable : PeerId → ProtocolId → NetworkControllerOut
  protocol_enabled : PeerId → ProtocolId → ProtocolVer → NetworkControllerOut
  protocol_disabled : PeerId → ProtocolId → NetworkControllerOut
  peer_punished : PeerId → ReputationChange → NetworkControllerOut

pub data NetworkControllerIn : Type 0 where
  enable_protocol : ProtocolId → PeerId → PolyVerHandshakeSpec → NetworkControllerIn
  update_peer_protocols : PeerId → List ProtocolId → NetworkControllerIn
  send_one_shot_message : PeerId → Option Multiaddr → ProtocolTag → RawMessage → NetworkControllerIn
  ban_peer : PeerId → NetworkControllerIn

pub data ConnHandlerIn : Type 0 where
  open_protocol : ProtocolId → PolyVerHandshakeSpec → ConnHandlerIn
  close_protocol : ProtocolId → ConnHandlerIn
  close_all_protocols : ConnHandlerIn
  try_deliver_once : OneShotMessage → ConnHandlerIn

pub data ConnHandlerOut : Type 0 where
  opened : ProtocolTag → MessageSink → Option RawMessage → ConnHandlerOut
  refused_to_open : ProtocolId → ConnHandlerOut
  closed : ProtocolId → ConnHandlerOut
  closed_all_protocols : ConnHandlerOut
  opened_by_peer : ProtocolTag → Option RawMessage → ConnHandlerOut
  closed_by_peer : ProtocolId → ConnHandlerOut
  message : ProtocolTag → RawMessage → ConnHandlerOut
  one_shot_message : ProtocolTag → RawMessage → ConnHandlerOut

-- `ToSwarm`.
pub data Action : Type 0 where
  generate_event : NetworkControllerOut → Action
  dial : PeerId → Option Multiaddr → Action
  notify_handler : PeerId → ConnectionId → ConnHandlerIn → Action
  close_connection : PeerId → ConnectionId → Action

pub data ProtocolEvent : Type 0 where
  peer_connected : PeerId → ProtocolEvent
  incoming_msg : PeerId → ProtocolVer → RawMessage → ProtocolEvent
  protocol_requested : PeerId → ProtocolVer → Option RawMessage → ProtocolEvent
  requested_local : PeerId → ProtocolEvent
  protocol_is_enabled : PeerId → ProtocolVer → MessageSink → Option RawMessage → ProtocolEvent
  protocol_is_disabled : PeerId → ProtocolEvent

pub record StatefulProtocolSpec : Type 0 where
  pub max_message_size : ℕ
  pub approve_required : Bool

pub data ProtocolConfig : Type 0 where
  stateful : List (ProtocolVer × StatefulProtocolSpec) → ProtocolConfig
  one_shot : ProtocolVer → ℕ → ProtocolConfig

pub record NetworkController : Type 0 where
  pub supported_protocols : List (ProtocolId × ProtocolConfig)
  pub enabled_peers : List (PeerId × ConnectedPeer)
  pub pending_one_shot_requests : List (PeerId × OneShotMessage)
  pub pending_actions : List Action
  pub to_manager : List PeerManagerIn
  pub to_handlers : List (ProtocolId × ProtocolEvent)

unfoldable pub new_controller : List (ProtocolId × ProtocolConfig) → NetworkController
new_controller supported_protocols = record {
  supported_protocols = supported_protocols;
  enabled_peers = [];
  pending_one_shot_requests = [];
  pending_actions = [];
  to_manager = [];
  to_handlers = [];
}

-- `pending_actions.push_back`, the methods of `NetworkEvents`, `PeerEvents` and `ProtocolEvents`.
abbrev pub push_action : Action → NetworkController → NetworkController
push_action action c = record c { pending_actions = c.pending_actions ++ action ∷ [] }

abbrev pub generate : NetworkControllerOut → NetworkController → NetworkController
generate event = push_action (generate_event event)

abbrev pub notify : PeerId → ConnectionId → ConnHandlerIn → NetworkController → NetworkController
notify pid conn command = push_action (notify_handler pid conn command)

abbrev pub tell_manager : PeerManagerIn → NetworkController → NetworkController
tell_manager m c = record c { to_manager = c.to_manager ++ m ∷ [] }

abbrev pub tell_handler : ProtocolId → ProtocolEvent → NetworkController → NetworkController
tell_handler protocol event c = record c { to_handlers = c.to_handlers ++ (protocol, event) ∷ [] }

abbrev pub with_peers : List (PeerId × ConnectedPeer) → NetworkController → NetworkController
with_peers peers c = record c { enabled_peers = peers }
