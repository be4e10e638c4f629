-- ===== src/Network/Invariant.antt =====
-- The invariant of the peers of the controller of spectrum-network/src/network_controller.rs.
use spectrum.Network.HandlerEvents.{with_protocols}
use spectrum.Network.Instructions.{first_of}
use spectrum.Network.State.{
  ConnectedPeer, EnabledProtocol, NetworkController, ProtocolConfig, approve_pending,
  connected_peer, disable_pending, enable_pending, enabled, pending_approve, pending_connect,
  pending_disconnect, with_peers,
}
use spectrum.PeerManager.Data.{PeerId, ProtocolId}
use spectrum.PeerManager.Manager.{ConnectionId}
use spectrum.Prelude.{
  All, All-insert, All-lookup, All-remove, Bool, List, Option, Option-cases, Outcome, Yields, ap,
  false, inl, inr, insert, is_some, lookup, none, remove, some, sym, true, ◌∙◌, ◌≡◌,
}

-- A protocol that is not being disabled.
abbrev is_live : EnabledProtocol → Bool
is_live (enabled ver sink) = true
is_live approve_pending = true
is_live enable_pending = true
is_live disable_pending = false

module _ (supported : List (ProtocolId × ProtocolConfig)) where
  abbrev pub IsKnown : ProtocolId × EnabledProtocol → Type 0
  IsKnown entry = (is_some (lookup entry.0 supported) ≡ true) × (is_live entry.1 ≡ true)

  -- A connected peer has a connection, and its protocols are supported and live. No peer waits for
  -- its disconnection.
  abbrev pub IsGood : ConnectedPeer → Type 0
  IsGood (connected_peer conn_ids protocols) =
      (is_some (first_of conn_ids) ≡ true) × All IsKnown protocols
  IsGood (pending_approve conn) = Unit
  IsGood (pending_connect tasks terminate_asap) = Unit
  IsGood (pending_disconnect conn) = ⊥

  abbrev pub Inv : NetworkController → Type 0
  Inv c =
      (c.supported_protocols ≡ supported)
      × All (λ (e : PeerId × ConnectedPeer). IsGood e.1) c.enabled_peers

  abbrev pub Kept : Outcome NetworkController → Type 0
  Kept = Yields Inv

  entry-IsGood :
      (c : NetworkController) (pid : PeerId) (p : ConnectedPeer)
      → Inv c
      → lookup pid c.enabled_peers ≡ some p
      → IsGood p
  entry-IsGood c pid p v found =
      All-lookup (λ (e : PeerId × ConnectedPeer). IsGood e.1) pid c.enabled_peers p v.1 found

  pub insert-Inv :
      (c : NetworkController) (pid : PeerId) (p : ConnectedPeer)
      → Inv c
      → IsGood p
      → Inv (with_peers (insert pid p c.enabled_peers) c)
  insert-Inv c pid p v fits =
      (v.0, All-insert (λ (e : PeerId × ConnectedPeer). IsGood e.1) pid p c.enabled_peers v.1 fits)

  pub remove-Inv :
      (c : NetworkController) (pid : PeerId)
      → Inv c
      → Inv (with_peers (remove pid c.enabled_peers) c)
  remove-Inv c pid v =
      (v.0, All-remove (λ (e : PeerId × ConnectedPeer). IsGood e.1) pid c.enabled_peers v.1)

  -- What an entry is known to be.
  abbrev pub Fits : Option ConnectedPeer → Type 0
  Fits none = Unit
  Fits (some p) = IsGood p

  pub entry-Fits :
      (pid : PeerId) (c : NetworkController) → Inv c → Fits (lookup pid c.enabled_peers)
  entry-Fits pid c v = elim (Option-cases (lookup pid c.enabled_peers)) [
    | inl missing ↦ rw missing tt
    | inr found ↦ rw found.1 (entry-IsGood c pid found.0 v found.1)
  ]

  -- A protocol that the controller has found among the supported ones.
  pub supports :
      (c : NetworkController) (protocol : ProtocolId)
      → Inv c
      → is_some (lookup protocol c.supported_protocols) ≡ true
      → is_some (lookup protocol supported) ≡ true
  supports c protocol v there =
      ap (λ (l : List (ProtocolId × ProtocolConfig)). is_some (lookup protocol l)) (sym v.0) ∙ there

  pub with_protocols-Inv :
      (pid : PeerId) (ids : List ConnectionId) (protocols : List (ProtocolId × EnabledProtocol))
      (protocol : ProtocolId) (st : EnabledProtocol) (c : NetworkController)
      → Inv c
      → IsGood (connected_peer ids protocols)
      → IsKnown (protocol, st)
      → Inv (with_protocols pid ids (insert protocol st protocols) c)
  with_protocols-Inv pid ids protocols protocol st c v fits known =
      insert-Inv c pid _ v (fits.0, All-insert IsKnown protocol st protocols fits.1 known)

  pub remove_protocol-Inv :
      (pid : PeerId) (ids : List ConnectionId) (protocols : List (ProtocolId × EnabledProtocol))
      (protocol : ProtocolId) (c : NetworkController)
      → Inv c
      → IsGood (connected_peer ids protocols)
      → Inv (with_protocols pid ids (remove protocol protocols) c)
  remove_protocol-Inv pid ids protocols protocol c v fits =
      insert-Inv c pid (connected_peer ids (remove protocol protocols)) v
        (fits.0, All-remove IsKnown protocol protocols fits.1)
