-- ===== src/Network/Answers.antt =====
-- The instructions and requests that `poll` of spectrum-network/src/network_controller.rs reads keep
-- the invariant, and panic on protocols only that are not supported.
use mathlib.Core.Bool.{false≢true, true≢false}
use spectrum.Network.Instructions.{
  accept_in, drop_in, first_of, on_connect, on_instruction, reject_in, start_in,
}
use spectrum.Network.Invariant.{
  Fits, Inv, IsGood, IsKnown, entry-Fits, insert-Inv, remove-Inv, supports, with_protocols-Inv,
}
use spectrum.Network.Requests.{enable_in, enable_with, on_request, send_in}
use spectrum.Network.State.{
  ConnectedPeer, EnabledProtocol, NetworkController, NetworkControllerIn, OneShotMessage,
  PolyVerHandshakeSpec, ProtocolConfig, approve_pending, ban_peer, connected_peer, disable_pending,
  enable_pending, enable_protocol, enabled, pending_approve, pending_connect, pending_disconnect,
  send_one_shot_message, update_peer_protocols,
}
use spectrum.PeerManager.Data.{Multiaddr, PeerDestination, PeerId, ProtocolId, id_of}
use spectrum.PeerManager.Manager.{
  ConnectionId, PeerManagerOut, accept_incoming_connection, connect, drop, notify_peer_punished,
  reject, start_protocol,
}
use spectrum.Prelude.{
  Bool, Bool-cases, List, Option, Option-cases, Outcome, [], ap, false, inl, inr, is_some, lookup,
  none, panicked, refl, returned, some, sym, true, ◌++◌, ◌∙◌, ◌∷◌, ◌≡◌,
}

module _ (supported : List (ProtocolId × ProtocolConfig)) where
  -- Whether the protocol that is asked for is supported.
  abbrev pub instruction_fits : PeerManagerOut → Bool
  instruction_fits (start_protocol protocol pid) = is_some (lookup protocol supported)
  instruction_fits (connect destination) = true
  instruction_fits (drop pid) = true
  instruction_fits (accept_incoming_connection pid conn) = true
  instruction_fits (reject pid conn) = true
  instruction_fits (notify_peer_punished pid reason) = true

  abbrev pub request_fits : NetworkControllerIn → Bool
  request_fits (enable_protocol protocol pid handshake) = is_some (lookup protocol supported)
  request_fits (update_peer_protocols pid protocols) = true
  request_fits (send_one_shot_message pid addr_hint tag content) = true
  request_fits (ban_peer pid) = true

  -- The call returns with the invariant, or it panics on what does not fit.
  abbrev pub Safe : Bool → Outcome NetworkController → Type 0
  Safe fits (returned c) = Inv supported c
  Safe fits panicked = fits ≡ false

  on_connect-Inv :
      (destination : PeerDestination) (c : NetworkController)
      → Inv supported c
      → Inv supported (on_connect destination c)
  unfolding on_connect
  on_connect-Inv destination c v =
      elim (Bool-cases (is_some (lookup (id_of destination) c.enabled_peers))) [
        | inl there ↦ rw there v
        | inr vacant ↦
            rw vacant (insert-Inv supported c (id_of destination) (pending_connect [] false) v tt)
      ]

  has_first :
      (ids : List ConnectionId)
      → is_some (first_of ids) ≡ true
      → (id : ConnectionId) × (first_of ids ≡ some id)
  has_first [] there = absurd (false≢true there)
  has_first (id ∷ ids) there = (id, refl)

  drop_in-Safe :
      (pid : PeerId) (entry : Option ConnectedPeer) (c : NetworkController)
      → Inv supported c
      → Fits supported entry
      → Safe true (drop_in pid entry c)
  unfolding drop_in
  drop_in-Safe pid (some (connected_peer ids protocols)) c v fits = rw ((has_first ids fits.0).1) v
  drop_in-Safe pid (some (pending_approve old)) c v fits = v
  drop_in-Safe pid (some (pending_connect tasks asap)) c v fits = v
  drop_in-Safe pid (some (pending_disconnect old)) c v fits = v
  drop_in-Safe pid none c v fits = v

  accept_in-Inv :
      (pid : PeerId) (conn : ConnectionId) (entry : Option ConnectedPeer) (c : NetworkController)
      → Inv supported c
      → Inv supported (accept_in pid conn entry c)
  unfolding accept_in
  accept_in-Inv pid conn (some (pending_approve old)) c v =
      insert-Inv supported c pid (connected_peer (conn ∷ []) []) v (refl, tt)
  accept_in-Inv pid conn (some (connected_peer ids protocols)) c v = v
  accept_in-Inv pid conn (some (pending_connect tasks asap)) c v = v
  accept_in-Inv pid conn (some (pending_disconnect old)) c v = v
  accept_in-Inv pid conn none c v = v

  reject_in-Inv :
      (pid : PeerId) (conn : ConnectionId) (entry : Option ConnectedPeer) (c : NetworkController)
      → Inv supported c
      → Inv supported (reject_in pid conn entry c)
  unfolding reject_in
  reject_in-Inv pid conn (some (pending_approve old)) c v = remove-Inv supported c pid v
  reject_in-Inv pid conn (some (connected_peer ids protocols)) c v = v
  reject_in-Inv pid conn (some (pending_connect tasks asap)) c v = v
  reject_in-Inv pid conn (some (pending_disconnect old)) c v = v
  reject_in-Inv pid conn none c v = v

  -- A protocol that the controller does not find is not supported.
  not_found :
      (c : NetworkController) (protocol : ProtocolId)
      → Inv supported c
      → lookup protocol c.supported_protocols ≡ none
      → is_some (lookup protocol supported) ≡ false
  not_found c protocol v missing =
      ap (λ (l : List (ProtocolId × ProtocolConfig)). is_some (lookup protocol l)) (sym v.0)
      ∙ ap is_some missing

  start_in-Safe :
      (protocol : ProtocolId) (pid : PeerId) (entry : Option ConnectedPeer) (c : NetworkController)
      → Inv supported c
      → Fits supported entry
      → Safe (is_some (lookup protocol supported)) (start_in protocol pid entry c)
  unfolding start_in
  start_in-Safe protocol pid (some (connected_peer ids protocols)) c v fits =
      elim (Option-cases (lookup protocol c.supported_protocols)) [
        | inl missing ↦ rw missing (not_found c protocol v missing)
        | inr handler ↦ rw (handler.1) (elim (Bool-cases (is_some (lookup protocol protocols))) [
          | inl known ↦ rw known v
          | inr fresh ↦ rw fresh (
              with_protocols-Inv supported pid ids protocols protocol enable_pending c v fits
                (supports supported c protocol v (rw (handler.1) refl), refl))
        ])
      ]
  start_in-Safe protocol pid (some (pending_approve old)) c v fits = v
  start_in-Safe protocol pid (some (pending_connect tasks asap)) c v fits = v
  start_in-Safe protocol pid (some (pending_disconnect old)) c v fits = v
  start_in-Safe protocol pid none c v fits = v

  pub on_instruction-Safe :
      (out : PeerManagerOut) (c : NetworkController)
      → Inv supported c
      → Safe (instruction_fits out) (on_instruction out c)
  unfolding on_instruction
  on_instruction-Safe (connect destination) c v = on_connect-Inv destination c v
  on_instruction-Safe (drop pid) c v = drop_in-Safe pid _ c v (entry-Fits supported pid c v)
  on_instruction-Safe (accept_incoming_connection pid conn) c v = accept_in-Inv pid conn _ c v
  on_instruction-Safe (reject pid conn) c v = reject_in-Inv pid conn _ c v
  on_instruction-Safe (start_protocol protocol pid) c v =
      start_in-Safe protocol pid _ c v (entry-Fits supported pid c v)
  on_instruction-Safe (notify_peer_punished pid reason) c v = v

  send_in-Safe :
      (pid : PeerId) (addr_hint : Option Multiaddr) (task : OneShotMessage)
      (entry : Option ConnectedPeer) (c : NetworkController)
      → Inv supported c
      → Fits supported entry
      → Safe true (send_in pid addr_hint task entry c)
  unfolding send_in
  send_in-Safe pid addr_hint task none c v fits =
      insert-Inv supported c pid (pending_connect (task ∷ []) true) v tt
  send_in-Safe pid addr_hint task (some (connected_peer ids protocols)) c v fits =
      rw ((has_first ids fits.0).1) v
  send_in-Safe pid addr_hint task (some (pending_approve conn)) c v fits = v
  send_in-Safe pid addr_hint task (some (pending_connect tasks asap)) c v fits =
      insert-Inv supported c pid (pending_connect (tasks ++ task ∷ []) asap) v tt
  send_in-Safe pid addr_hint task (some (pending_disconnect old)) c v fits = v

  enable_with-Safe :
      (protocol : ProtocolId) (pid : PeerId) (handshake : PolyVerHandshakeSpec)
      (ids : List ConnectionId) (protocols : List (ProtocolId × EnabledProtocol))
      (st : Option EnabledProtocol) (c : NetworkController)
      → Inv supported c
      → IsGood supported (connected_peer ids protocols)
      → IsKnown supported (protocol, enable_pending)
      → Safe true (enable_with protocol pid handshake ids protocols st c)
  unfolding enable_with
  enable_with-Safe protocol pid handshake ids protocols (some enable_pending) c v fits known =
      rw ((has_first ids fits.0).1)
        (with_protocols-Inv supported pid ids protocols protocol enable_pending c v fits known)
  enable_with-Safe protocol pid handshake ids protocols (some approve_pending) c v fits known =
      rw ((has_first ids fits.0).1)
        (with_protocols-Inv supported pid ids protocols protocol enable_pending c v fits known)
  enable_with-Safe protocol pid handshake ids protocols (some (enabled ver sink)) c v fits known = v
  enable_with-Safe protocol pid handshake ids protocols (some disable_pending) c v fits known = v
  enable_with-Safe protocol pid handshake ids protocols none c v fits known =
      rw ((has_first ids fits.0).1)
        (with_protocols-Inv supported pid ids protocols protocol enable_pending c v fits known)

  widen : (fits : Bool) (o : Outcome NetworkController) → Safe true o → Safe fits o
  widen fits (returned c) safe = safe
  widen fits panicked safe = absurd (true≢false safe)

  enable_in-Safe :
      (protocol : ProtocolId) (pid : PeerId) (handshake : PolyVerHandshakeSpec)
      (entry : Option ConnectedPeer) (c : NetworkController)
      → Inv supported c
      → Fits supported entry
      → Safe (is_some (lookup protocol supported)) (enable_in protocol pid handshake entry c)
  unfolding enable_in
  enable_in-Safe protocol pid handshake (some (connected_peer ids protocols)) c v fits =
      elim (Option-cases (lookup protocol c.supported_protocols)) [
        | inl missing ↦ rw missing (not_found c protocol v missing)
        | inr handler ↦ rw (handler.1) (
            widen _ _ (
              enable_with-Safe protocol pid handshake ids protocols (lookup protocol protocols) c v
                fits (supports supported c protocol v (rw (handler.1) refl), refl)))
      ]
  enable_in-Safe protocol pid handshake (some (pending_approve old)) c v fits = v
  enable_in-Safe protocol pid handshake (some (pending_connect tasks asap)) c v fits = v
  enable_in-Safe protocol pid handshake (some (pending_disconnect old)) c v fits = v
  enable_in-Safe protocol pid handshake none c v fits = v

  pub on_request-Safe :
      (req : NetworkControllerIn) (c : NetworkController)
      → Inv supported c
      → Safe (request_fits req) (on_request req c)
  unfolding on_request
  on_request-Safe (enable_protocol protocol pid handshake) c v =
      enable_in-Safe protocol pid handshake _ c v (entry-Fits supported pid c v)
  on_request-Safe (update_peer_protocols pid protocols) c v = v
  on_request-Safe (send_one_shot_message pid addr_hint tag content) c v =
      send_in-Safe pid addr_hint _ _ c v (entry-Fits supported pid c v)
  on_request-Safe (ban_peer pid) c v = v
