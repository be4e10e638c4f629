-- ===== src/Network/EventHandling.antt =====
-- The events of connection handlers keep the invariant of the controller of
-- spectrum-network/src/network_controller.rs.
use spectrum.Network.HandlerEvents.{
  on_closed_all, on_connected_event, on_connection_handler_event, on_one_shot_message,
  opened_by_peer_in, opened_in, peer_event_in,
}
use spectrum.Network.Invariant.{
  Fits, Inv, IsGood, IsKnown, Kept, entry-Fits, remove-Inv, remove_protocol-Inv, supports,
  with_protocols-Inv,
}
use spectrum.Network.State.{
  ConnHandlerOut, ConnectedPeer, EnabledProtocol, MessageSink, NetworkController, ProtocolConfig,
  ProtocolTag, RawMessage, approve_pending, closed, closed_all_protocols, closed_by_peer,
  connected_peer, disable_pending, enable_pending, enabled, message, one_shot_message, opened,
  opened_by_peer, pending_approve, pending_connect, pending_disconnect, refused_to_open,
}
use spectrum.PeerManager.Data.{PeerId, ProtocolId}
use spectrum.PeerManager.Manager.{ConnectionId}
use spectrum.Prelude.{
  All-lookup, Bool-cases, List, Option, Option-cases, inl, inr, is_some, lookup, none, refl, some,
}

module _ (supported : List (ProtocolId × ProtocolConfig)) where
  opened_in-Inv :
      (pid : PeerId) (tag : ProtocolTag) (sink : MessageSink) (handshake : Option RawMessage)
      (ids : List ConnectionId) (protocols : List (ProtocolId × EnabledProtocol))
      (c : NetworkController)
      → Inv supported c
      → IsGood supported (connected_peer ids protocols)
      → Inv supported
          (opened_in pid tag sink handshake ids protocols (lookup tag.protocol_id protocols) c)
  unfolding opened_in
  opened_in-Inv pid tag sink handshake ids protocols c v fits =
      elim (Option-cases (lookup tag.protocol_id protocols)) [
        | inl missing ↦ rw missing v
        | inr (st, found) ↦
            rw found (
              by_state st
                (All-lookup (IsKnown supported) tag.protocol_id protocols st fits.1 found))
      ]
    where
      by_state :
          (st : EnabledProtocol)
          → IsKnown supported (tag.protocol_id, st)
          → Inv supported (opened_in pid tag sink handshake ids protocols (some st) c)
      by_state enable_pending known =
          with_protocols-Inv supported pid ids protocols tag.protocol_id
            (enabled tag.protocol_ver sink) c v fits (known.0, refl)
      by_state (enabled ver old) known = v
      by_state approve_pending known = v
      by_state disable_pending known = v

  opened_by_peer_in-Inv :
      (pid : PeerId) (conn : ConnectionId) (tag : ProtocolTag) (handshake : Option RawMessage)
      (ids : List ConnectionId) (protocols : List (ProtocolId × EnabledProtocol))
      (c : NetworkController)
      → Inv supported c
      → IsGood supported (connected_peer ids protocols)
      → Kept supported (opened_by_peer_in pid conn tag handshake ids protocols c)
  unfolding opened_by_peer_in
  opened_by_peer_in-Inv pid conn tag handshake ids protocols c v fits =
      elim (Option-cases (lookup tag.protocol_id c.supported_protocols)) [
        | inl missing ↦ rw missing tt
        | inr handler ↦
            rw (handler.1) (elim (Bool-cases (is_some (lookup tag.protocol_id protocols))) [
              | inl known ↦ rw known v
              | inr fresh ↦ rw fresh (
                  with_protocols-Inv supported pid ids protocols tag.protocol_id approve_pending c v
                    fits (supports supported c tag.protocol_id v (rw (handler.1) refl), refl))
            ])
      ]

  on_connected_event-Inv :
      (pid : PeerId) (conn : ConnectionId) (event : ConnHandlerOut) (ids : List ConnectionId)
      (protocols : List (ProtocolId × EnabledProtocol)) (c : NetworkController)
      → Inv supported c
      → IsGood supported (connected_peer ids protocols)
      → Kept supported (on_connected_event pid conn event ids protocols c)
  unfolding on_connected_event
  on_connected_event-Inv pid conn (opened tag sink handshake) ids protocols c v fits =
      opened_in-Inv pid tag sink handshake ids protocols c v fits
  on_connected_event-Inv pid conn (opened_by_peer tag handshake) ids protocols c v fits =
      opened_by_peer_in-Inv pid conn tag handshake ids protocols c v fits
  on_connected_event-Inv pid conn (closed_by_peer protocol) ids protocols c v fits =
      remove_protocol-Inv supported pid ids protocols protocol c v fits
  on_connected_event-Inv pid conn (refused_to_open protocol) ids protocols c v fits =
      remove_protocol-Inv supported pid ids protocols protocol c v fits
  on_connected_event-Inv pid conn (closed protocol) ids protocols c v fits =
      remove_protocol-Inv supported pid ids protocols protocol c v fits
  on_connected_event-Inv pid conn (message tag content) ids protocols c v fits =
      elim (Bool-cases (is_some (lookup tag.protocol_id protocols))) [
        | inl known ↦ rw known v
        | inr other ↦ rw other v
      ]
  on_connected_event-Inv pid conn closed_all_protocols ids protocols c v fits = v
  on_connected_event-Inv pid conn (one_shot_message tag content) ids protocols c v fits = v

  peer_event_in-Inv :
      (pid : PeerId) (conn : ConnectionId) (event : ConnHandlerOut) (entry : Option ConnectedPeer)
      (c : NetworkController)
      → Inv supported c
      → Fits supported entry
      → Kept supported (peer_event_in pid conn event entry c)
  unfolding peer_event_in
  peer_event_in-Inv pid conn event (some (connected_peer ids protocols)) c v fits =
      on_connected_event-Inv pid conn event ids protocols c v fits
  peer_event_in-Inv pid conn event (some (pending_approve old)) c v fits = v
  peer_event_in-Inv pid conn event (some (pending_connect tasks asap)) c v fits = v
  peer_event_in-Inv pid conn event (some (pending_disconnect old)) c v fits = v
  peer_event_in-Inv pid conn event none c v fits = v

  on_closed_all-Inv :
      (pid : PeerId) (c : NetworkController)
      → Inv supported c
      → Kept supported (on_closed_all pid c)
  unfolding on_closed_all
  on_closed_all-Inv pid c v = elim (Bool-cases (is_some (lookup pid c.enabled_peers))) [
    | inl there ↦ rw there (remove-Inv supported c pid v)
    | inr gone ↦ rw gone tt
  ]

  on_one_shot_message-Inv :
      (pid : PeerId) (tag : ProtocolTag) (content : RawMessage) (c : NetworkController)
      → Inv supported c
      → Inv supported (on_one_shot_message pid tag content c)
  unfolding on_one_shot_message
  on_one_shot_message-Inv pid tag content c v =
      elim (Bool-cases (is_some (lookup tag.protocol_id c.supported_protocols))) [
        | inl known ↦ rw known v
        | inr other ↦ rw other v
      ]

  pub on_connection_handler_event-Inv :
      (pid : PeerId) (conn : ConnectionId) (event : ConnHandlerOut) (c : NetworkController)
      → Inv supported c
      → Kept supported (on_connection_handler_event pid conn event c)
  unfolding on_connection_handler_event
  on_connection_handler_event-Inv pid conn closed_all_protocols c v = on_closed_all-Inv pid c v
  on_connection_handler_event-Inv pid conn (one_shot_message tag content) c v =
      on_one_shot_message-Inv pid tag content c v
  on_connection_handler_event-Inv pid conn (opened tag sink handshake) c v =
      peer_event_in-Inv pid conn (opened tag sink handshake) _ c v (entry-Fits supported pid c v)
  on_connection_handler_event-Inv pid conn (opened_by_peer tag handshake) c v =
      peer_event_in-Inv pid conn (opened_by_peer tag handshake) _ c v (entry-Fits supported pid c v)
  on_connection_handler_event-Inv pid conn (closed_by_peer protocol) c v =
      peer_event_in-Inv pid conn (closed_by_peer protocol) _ c v (entry-Fits supported pid c v)
  on_connection_handler_event-Inv pid conn (refused_to_open protocol) c v =
      peer_event_in-Inv pid conn (refused_to_open protocol) _ c v (entry-Fits supported pid c v)
  on_connection_handler_event-Inv pid conn (closed protocol) c v =
      peer_event_in-Inv pid conn (closed protocol) _ c v (entry-Fits supported pid c v)
  on_connection_handler_event-Inv pid conn (message tag content) c v =
      peer_event_in-Inv pid conn (message tag content) _ c v (entry-Fits supported pid c v)
