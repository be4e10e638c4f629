-- ===== src/Network/AwayPolling.antt =====
-- What the instructions and requests about other peers leave of the entry of a peer and of the
-- actions that dial it, in `poll` of spectrum-network/src/network_controller.rs.
use spectrum.Network.Away.{Away, insert-Away, pushed, remove-Away}
use spectrum.Network.Instructions.{accept_in, drop_in, first_of, reject_in, start_in}
use spectrum.Network.Requests.{enable_in, enable_with, send_in}
use spectrum.Network.State.{
  ConnectedPeer, EnabledProtocol, NetworkController, OneShotMessage, PolyVerHandshakeSpec,
  approve_pending, connected_peer, disable_pending, enable_pending, enabled, pending_approve,
  pending_connect, pending_disconnect,
}
use spectrum.PeerManager.Data.{Multiaddr, PeerId, ProtocolId}
use spectrum.PeerManager.Manager.{ConnectionId}
use spectrum.Prelude.{
  Bool-cases, List, Option, Option-cases, Yields, [], false, inl, inr, is_some, lookup, none, refl,
  some, ◌==◌, ◌∷◌, ◌≡◌,
}

module _ (pid : PeerId) where
  pub drop_in-Away :
      (other : PeerId) (entry : Option ConnectedPeer) (c : NetworkController)
      → Yields (Away pid c) (drop_in other entry c)
  unfolding drop_in Away
  drop_in-Away other (some (connected_peer ids protocols)) c = elim (Option-cases (first_of ids)) [
    | inl missing ↦ rw missing tt
    | inr first ↦ rw (first.1) (refl, λ q. pushed pid _ _ refl (pushed pid _ _ refl q))
  ]
  drop_in-Away other (some (pending_approve old)) c = (refl, λ q. q)
  drop_in-Away other (some (pending_connect tasks asap)) c = (refl, λ q. q)
  drop_in-Away other (some (pending_disconnect old)) c = (refl, λ q. q)
  drop_in-Away other none c = (refl, λ q. q)

  pub accept_in-Away :
      (other : PeerId) (conn : ConnectionId) (entry : Option ConnectedPeer) (c : NetworkController)
      → (other == pid) ≡ false
      → Away pid c (accept_in other conn entry c)
  unfolding accept_in Away
  accept_in-Away other conn (some (pending_approve old)) c apart =
      (insert-Away pid other _ _ apart, pushed pid _ _ refl)
  accept_in-Away other conn (some (connected_peer ids protocols)) c apart = (refl, λ q. q)
  accept_in-Away other conn (some (pending_connect tasks asap)) c apart = (refl, λ q. q)
  accept_in-Away other conn (some (pending_disconnect old)) c apart = (refl, λ q. q)
  accept_in-Away other conn none c apart = (refl, λ q. q)

  pub reject_in-Away :
      (other : PeerId) (conn : ConnectionId) (entry : Option ConnectedPeer) (c : NetworkController)
      → (other == pid) ≡ false
      → Away pid c (reject_in other conn entry c)
  unfolding reject_in Away
  reject_in-Away other conn (some (pending_approve old)) c apart =
      (remove-Away pid other _ apart, pushed pid _ _ refl)
  reject_in-Away other conn (some (connected_peer ids protocols)) c apart = (refl, λ q. q)
  reject_in-Away other conn (some (pending_connect tasks asap)) c apart = (refl, λ q. q)
  reject_in-Away other conn (some (pending_disconnect old)) c apart = (refl, λ q. q)
  reject_in-Away other conn none c apart = (refl, λ q. q)

  pub start_in-Away :
      (protocol : ProtocolId) (other : PeerId) (entry : Option ConnectedPeer)
      (c : NetworkController)
      → (other == pid) ≡ false
      → Yields (Away pid c) (start_in protocol other entry c)
  unfolding start_in Away
  start_in-Away protocol other (some (connected_peer ids protocols)) c apart =
      elim (Option-cases (lookup protocol c.supported_protocols)) [
        | inl missing ↦ rw missing tt
        | inr handler ↦ rw (handler.1) (elim (Bool-cases (is_some (lookup protocol protocols))) [
          | inl known ↦ rw known (refl, λ q. q)
          | inr fresh ↦ rw fresh (insert-Away pid other _ _ apart, pushed pid _ _ refl)
        ])
      ]
  start_in-Away protocol other (some (pending_approve old)) c apart = (refl, λ q. q)
  start_in-Away protocol other (some (pending_connect tasks asap)) c apart = (refl, λ q. q)
  start_in-Away protocol other (some (pending_disconnect old)) c apart = (refl, λ q. q)
  start_in-Away protocol other none c apart = (refl, λ q. q)

  pub send_in-Away :
      (other : PeerId) (addr_hint : Option Multiaddr) (task : OneShotMessage)
      (entry : Option ConnectedPeer) (c : NetworkController)
      → (other == pid) ≡ false
      → Yields (Away pid c) (send_in other addr_hint task entry c)
  unfolding send_in Away
  send_in-Away other addr_hint task none c apart =
      (insert-Away pid other _ _ apart, pushed pid _ _ apart)
  send_in-Away other addr_hint task (some (connected_peer ids protocols)) c apart =
      elim (Option-cases (first_of ids)) [
        | inl missing ↦ rw missing tt
        | inr first ↦ rw (first.1) (refl, pushed pid _ _ refl)
      ]
  send_in-Away other addr_hint task (some (pending_approve conn)) c apart =
      (refl, pushed pid _ _ refl)
  send_in-Away other addr_hint task (some (pending_connect tasks asap)) c apart =
      (insert-Away pid other _ _ apart, λ q. q)
  send_in-Away other addr_hint task (some (pending_disconnect old)) c apart = (refl, λ q. q)

  enable_with-Away :
      (protocol : ProtocolId) (other : PeerId) (handshake : PolyVerHandshakeSpec)
      (ids : List ConnectionId) (protocols : List (ProtocolId × EnabledProtocol))
      (st : Option EnabledProtocol) (c : NetworkController)
      → (other == pid) ≡ false
      → Yields (Away pid c) (enable_with protocol other handshake ids protocols st c)
  unfolding enable_with Away
  enable_with-Away protocol other handshake [] protocols (some enable_pending) c apart = tt
  enable_with-Away protocol other handshake [] protocols (some approve_pending) c apart = tt
  enable_with-Away protocol other handshake [] protocols none c apart = tt
  enable_with-Away protocol other handshake (id ∷ ids) protocols (some enable_pending) c apart =
      (insert-Away pid other _ _ apart, pushed pid _ _ refl)
  enable_with-Away protocol other handshake (id ∷ ids) protocols (some approve_pending) c apart =
      (insert-Away pid other _ _ apart, pushed pid _ _ refl)
  enable_with-Away protocol other handshake (id ∷ ids) protocols none c apart =
      (insert-Away pid other _ _ apart, λ q. pushed pid _ _ refl (pushed pid _ _ refl q))
  enable_with-Away protocol other handshake ids protocols (some (enabled ver sink)) c apart =
      (refl, λ q. q)
  enable_with-Away protocol other handshake ids protocols (some disable_pending) c apart =
      (refl, λ q. q)

  pub enable_in-Away :
      (protocol : ProtocolId) (other : PeerId) (handshake : PolyVerHandshakeSpec)
      (entry : Option ConnectedPeer) (c : NetworkController)
      → (other == pid) ≡ false
      → Yields (Away pid c) (enable_in protocol other handshake entry c)
  unfolding enable_in Away
  enable_in-Away protocol other handshake (some (connected_peer ids protocols)) c apart =
      elim (Option-cases (lookup protocol c.supported_protocols)) [
        | inl missing ↦ rw missing tt
        | inr handler ↦ rw (handler.1) (
            enable_with-Away protocol other handshake ids protocols (lookup protocol protocols) c
              apart)
      ]
  enable_in-Away protocol other handshake (some (pending_approve old)) c apart = (refl, λ q. q)
  enable_in-Away protocol other handshake (some (pending_connect tasks asap)) c apart =
      (refl, λ q. q)
  enable_in-Away protocol other handshake (some (pending_disconnect old)) c apart = (refl, λ q. q)
  enable_in-Away protocol other handshake none c apart = (refl, λ q. q)
