-- ===== src/Network/Away.antt =====
-- What the events of other peers leave of the entry of a peer and of the actions that dial it, in
-- spectrum-network/src/network_controller.rs.
use spectrum.Network.Controller.{
  closed_in, deliver_tasks, established_in, joined, remove_conn, tell_connected, without_conn,
}
use spectrum.Network.HandlerEvents.{
  on_closed_all, on_connected_event, on_connection_handler_event, on_one_shot_message,
  opened_by_peer_in, opened_in, peer_event_in,
}
use spectrum.Network.State.{
  Action, ConnHandlerOut, ConnectedPeer, EnabledProtocol, MessageSink, NetworkController,
  OneShotMessage, ProtocolConfig, ProtocolTag, RawMessage, approve_pending, close_connection,
  closed, closed_all_protocols, closed_by_peer, connected_peer, dial, disable_pending,
  enable_pending, enabled, generate_event, message, notify, notify_handler, one_shot_message,
  opened, opened_by_peer, peer_connected, pending_approve, pending_connect, pending_disconnect,
  refused_to_open, tell_handler, try_deliver_once,
}
use spectrum.PeerManager.Data.{ConnHandlerError, PeerId, ProtocolId}
use spectrum.PeerManager.Manager.{ConnectionId}
use spectrum.Prelude.{
  All, All-append, Bool, Bool-cases, List, Option, Option-cases, Yields, [], contains, false, inl,
  inr, insert, is_some, lookup, lookup-insert, lookup-remove, none, refl, remove, some, ◌++◌, ◌==◌,
  ◌∙◌, ◌∷◌, ◌≡◌,
}

module _ (pid : PeerId) where
  -- The action dials the peer.
  abbrev pub dials : Action → Bool
  dials (dial other addr_hint) = other == pid
  dials (generate_event event) = false
  dials (notify_handler other conn command) = false
  dials (close_connection other conn) = false

  abbrev pub NoDial : List Action → Type 0
  NoDial = All (λ action. dials action ≡ false)

  -- The entry of the peer is the same, and no action that dials it is new.
  unfoldable pub Away : NetworkController → NetworkController → Type 0
  Away c c' =
      (lookup pid c'.enabled_peers ≡ lookup pid c.enabled_peers)
      × (NoDial c.pending_actions → NoDial c'.pending_actions)

  pub pushed :
      (actions : List Action) (action : Action)
      → dials action ≡ false
      → NoDial actions
      → NoDial (actions ++ action ∷ [])
  pushed actions action calm quiet =
      All-append (λ a. dials a ≡ false) actions (action ∷ []) quiet (calm, tt)

  pub insert-Away :
      (other : PeerId) (p : ConnectedPeer) (peers : List (PeerId × ConnectedPeer))
      → (other == pid) ≡ false
      → lookup pid (insert other p peers) ≡ lookup pid peers
  insert-Away other p peers apart = lookup-insert other pid p peers ∙ rw apart refl

  pub remove-Away :
      (other : PeerId) (peers : List (PeerId × ConnectedPeer))
      → (other == pid) ≡ false
      → lookup pid (remove other peers) ≡ lookup pid peers
  remove-Away other peers apart = lookup-remove other pid peers ∙ rw apart refl

  deliver_tasks-Away :
      (other : PeerId) (conn : ConnectionId) (tasks : List OneShotMessage) (c : NetworkController)
      → Away c (deliver_tasks other conn tasks c)
  unfolding deliver_tasks Away
  deliver_tasks-Away other conn [] c = (refl, λ q. q)
  deliver_tasks-Away other conn (task ∷ tasks) c =
      let rest =
        deliver_tasks-Away other conn tasks (notify other conn (try_deliver_once task) c) in
      (rest.0, λ q. rest.1 (pushed _ _ refl q))

  tell_connected-Away :
      (other : PeerId) (protocols : List (ProtocolId × ProtocolConfig)) (c : NetworkController)
      → Away c (tell_connected other protocols c)
  unfolding tell_connected Away
  tell_connected-Away other [] c = (refl, λ q. q)
  tell_connected-Away other (protocol ∷ protocols) c =
      tell_connected-Away other protocols (tell_handler protocol.0 (peer_connected other) c)

  pub established_in-Away :
      (other : PeerId) (conn : ConnectionId) (entry : Option ConnectedPeer) (c : NetworkController)
      → (other == pid) ≡ false
      → Yields (Away c) (established_in other conn entry c)
  unfolding established_in Away
  established_in-Away other conn none c apart = (insert-Away other _ _ apart, λ q. q)
  established_in-Away other conn (some (pending_connect tasks asap)) c apart =
      let told =
        tell_connected-Away other (joined other conn tasks c).supported_protocols
          (joined other conn tasks c) in
      let delivered = deliver_tasks-Away other conn tasks c in
      (
        told.0 ∙ insert-Away other (connected_peer (conn ∷ []) []) _ apart ∙ delivered.0,
        λ q. pushed _ _ refl (told.1 (delivered.1 q)),
      )
  established_in-Away other conn (some (connected_peer ids protocols)) c apart =
      elim (Bool-cases (contains conn ids)) [
        | inl known ↦ rw known tt
        | inr fresh ↦ rw fresh (insert-Away other _ _ apart, pushed _ _ refl)
      ]
  established_in-Away other conn (some (pending_disconnect old)) c apart = (refl, pushed _ _ refl)
  established_in-Away other conn (some (pending_approve old)) c apart = (refl, pushed _ _ refl)

  without_conn-Away :
      (other : PeerId) (ids : List ConnectionId) (protocols : List (ProtocolId × EnabledProtocol))
      (peers : List (PeerId × ConnectedPeer))
      → (other == pid) ≡ false
      → lookup pid (without_conn other ids protocols peers) ≡ lookup pid peers
  unfolding without_conn
  without_conn-Away other [] protocols peers apart = remove-Away other peers apart
  without_conn-Away other (id ∷ ids) protocols peers apart = insert-Away other _ peers apart

  pub closed_in-Away :
      (other : PeerId) (conn : ConnectionId) (fault : Option ConnHandlerError)
      (entry : Option ConnectedPeer) (c : NetworkController)
      → (other == pid) ≡ false
      → Yields (Away c) (closed_in other conn fault entry c)
  unfolding closed_in Away
  closed_in-Away other conn fault (some (connected_peer ids protocols)) c apart =
      elim (Option-cases (remove_conn conn ids)) [
        | inl missing ↦ rw missing tt
        | inr left ↦ rw (left.1) (without_conn-Away other left.0 protocols _ apart, pushed _ _ refl)
      ]
  closed_in-Away other conn fault (some (pending_disconnect old)) c apart =
      (remove-Away other _ apart, pushed _ _ refl)
  closed_in-Away other conn fault (some (pending_connect tasks asap)) c apart = (refl, λ q. q)
  closed_in-Away other conn fault (some (pending_approve old)) c apart = (refl, λ q. q)
  closed_in-Away other conn fault none c apart = (refl, λ q. q)

  opened_in-Away :
      (other : PeerId) (tag : ProtocolTag) (sink : MessageSink) (handshake : Option RawMessage)
      (ids : List ConnectionId) (protocols : List (ProtocolId × EnabledProtocol))
      (st : Option EnabledProtocol) (c : NetworkController)
      → (other == pid) ≡ false
      → Away c (opened_in other tag sink handshake ids protocols st c)
  unfolding opened_in Away
  opened_in-Away other tag sink handshake ids protocols (some enable_pending) c apart =
      (insert-Away other _ _ apart, pushed _ _ refl)
  opened_in-Away other tag sink handshake ids protocols (some (enabled ver old)) c apart =
      (refl, λ q. q)
  opened_in-Away other tag sink handshake ids protocols (some approve_pending) c apart =
      (refl, λ q. q)
  opened_in-Away other tag sink handshake ids protocols (some disable_pending) c apart =
      (refl, λ q. q)
  opened_in-Away other tag sink handshake ids protocols none c apart = (refl, λ q. q)

  opened_by_peer_in-Away :
      (other : PeerId) (conn : ConnectionId) (tag : ProtocolTag) (handshake : Option RawMessage)
      (ids : List ConnectionId) (protocols : List (ProtocolId × EnabledProtocol))
      (c : NetworkController)
      → (other == pid) ≡ false
      → Yields (Away c) (opened_by_peer_in other conn tag handshake ids protocols c)
  unfolding opened_by_peer_in Away
  opened_by_peer_in-Away other conn tag handshake ids protocols c apart =
      elim (Option-cases (lookup tag.protocol_id c.supported_protocols)) [
        | inl missing ↦ rw missing tt
        | inr handler ↦
            rw (handler.1) (elim (Bool-cases (is_some (lookup tag.protocol_id protocols))) [
              | inl known ↦ rw known (refl, pushed _ _ refl)
              | inr fresh ↦ rw fresh (insert-Away other _ _ apart, pushed _ _ refl)
            ])
      ]

  on_connected_event-Away :
      (other : PeerId) (conn : ConnectionId) (event : ConnHandlerOut) (ids : List ConnectionId)
      (protocols : List (ProtocolId × EnabledProtocol)) (c : NetworkController)
      → (other == pid) ≡ false
      → Yields (Away c) (on_connected_event other conn event ids protocols c)
  unfolding on_connected_event Away
  on_connected_event-Away other conn (opened tag sink handshake) ids protocols c apart =
      opened_in-Away other tag sink handshake ids protocols _ c apart
  on_connected_event-Away other conn (opened_by_peer tag handshake) ids protocols c apart =
      opened_by_peer_in-Away other conn tag handshake ids protocols c apart
  on_connected_event-Away other conn (closed_by_peer protocol) ids protocols c apart =
      (insert-Away other _ _ apart, λ q. q)
  on_connected_event-Away other conn (refused_to_open protocol) ids protocols c apart =
      (insert-Away other _ _ apart, λ q. q)
  on_connected_event-Away other conn (closed protocol) ids protocols c apart =
      (insert-Away other _ _ apart, λ q. q)
  on_connected_event-Away other conn (message tag content) ids protocols c apart =
      elim (Bool-cases (is_some (lookup tag.protocol_id protocols))) [
        | inl known ↦ rw known (refl, λ q. q)
        | inr fresh ↦ rw fresh (refl, λ q. q)
      ]
  on_connected_event-Away other conn closed_all_protocols ids protocols c apart = (refl, λ q. q)
  on_connected_event-Away other conn (one_shot_message tag content) ids protocols c apart =
      (refl, λ q. q)

  peer_event_in-Away :
      (other : PeerId) (conn : ConnectionId) (event : ConnHandlerOut) (entry : Option ConnectedPeer)
      (c : NetworkController)
      → (other == pid) ≡ false
      → Yields (Away c) (peer_event_in other conn event entry c)
  unfolding peer_event_in Away
  peer_event_in-Away other conn event (some (connected_peer ids protocols)) c apart =
      on_connected_event-Away other conn event ids protocols c apart
  peer_event_in-Away other conn event (some (pending_approve old)) c apart = (refl, λ q. q)
  peer_event_in-Away other conn event (some (pending_connect tasks asap)) c apart = (refl, λ q. q)
  peer_event_in-Away other conn event (some (pending_disconnect old)) c apart = (refl, λ q. q)
  peer_event_in-Away other conn event none c apart = (refl, λ q. q)

  pub on_connection_handler_event-Away :
      (other : PeerId) (conn : ConnectionId) (event : ConnHandlerOut) (c : NetworkController)
      → (other == pid) ≡ false
      → Yields (Away c) (on_connection_handler_event other conn event c)
  unfolding on_connection_handler_event on_closed_all on_one_shot_message Away
  on_connection_handler_event-Away other conn closed_all_protocols c apart =
      elim (Bool-cases (is_some (lookup other c.enabled_peers))) [
        | inl there ↦ rw there (remove-Away other _ apart, λ q. q)
        | inr gone ↦ rw gone tt
      ]
  on_connection_handler_event-Away other conn (one_shot_message tag content) c apart =
      elim (Bool-cases (is_some (lookup tag.protocol_id c.supported_protocols))) [
        | inl known ↦ rw known (refl, λ q. q)
        | inr foreign ↦ rw foreign (refl, λ q. q)
      ]
  on_connection_handler_event-Away other conn (opened tag sink handshake) c apart =
      peer_event_in-Away other conn (opened tag sink handshake) _ c apart
  on_connection_handler_event-Away other conn (opened_by_peer tag handshake) c apart =
      peer_event_in-Away other conn (opened_by_peer tag handshake) _ c apart
  on_connection_handler_event-Away other conn (closed_by_peer protocol) c apart =
      peer_event_in-Away other conn (closed_by_peer protocol) _ c apart
  on_connection_handler_event-Away other conn (refused_to_open protocol) c apart =
      peer_event_in-Away other conn (refused_to_open protocol) _ c apart
  on_connection_handler_event-Away other conn (closed protocol) c apart =
      peer_event_in-Away other conn (closed protocol) _ c apart
  on_connection_handler_event-Away other conn (message tag content) c apart =
      peer_event_in-Away other conn (message tag content) _ c apart
