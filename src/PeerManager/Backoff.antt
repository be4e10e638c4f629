-- ===== src/PeerManager/Backoff.antt =====
-- The backoff after a connection that the peer reset, of spectrum-network/src/peer_manager.rs.
use spectrum.PeerManager.Data.{
  Instant, PeerId, PeerInfo, is_connected, not_connected, reset_by_peer,
}
use spectrum.PeerManager.Events.{on_connection_lost}
use spectrum.PeerManager.Handles.{connect_peer, destination, disconnect, peer, set_backoff_until}
use spectrum.PeerManager.Manager.{PeerManager, connect, connect_to}
use spectrum.PeerManager.Repo.{dest_of}
use spectrum.Prelude.{
  Bool-cases, [], ap, append-nil, arith, false, if◌then◌else◌, inl, inr, insert, lookup,
  lookup-insert_self, ltb, some, sym, true, ◌++◌, ◌+◌, ◌<◌, ◌∙◌, ◌∷◌, ◌≡◌, ◌≤◌,
}

-- The entry of a peer that reset its connection at `now`.
abbrev pub backed_off : Instant → PeerInfo → PeerInfo
backed_off until info = record info { state = not_connected; outbound_backoff_until = some until }

pub lost_entry :
    (now : Instant) (pid : PeerId) (pm : PeerManager) (info : PeerInfo)
    → lookup pid (pm.state).peers ≡ some info
    → is_connected info.state ≡ true
    → info.is_reserved ≡ false
    → lookup pid ((on_connection_lost now pid reset_by_peer pm).state).peers
      ≡ some (backed_off (now + (pm.conf).conn_reset_outbound_backoff) info)
unfolding on_connection_lost peer disconnect set_backoff_until
lost_entry now pid pm info e c n = ground (
  arith,
  lookup-insert_self pid (backed_off (now + (pm.conf).conn_reset_outbound_backoff) info)
      (insert pid (record info { state = not_connected }) (pm.state).peers),
)

connect_backed_off :
    (later : Instant) (pid : PeerId) (pm : PeerManager) (until : Instant) (info : PeerInfo)
    → lookup pid (pm.state).peers ≡ some (backed_off until info)
    → (later < until → connect_to later pid pm ≡ pm)
      × (until ≤ later
          → (connect_to later pid pm).out_queue
            ≡ pm.out_queue ++ connect (dest_of pid info.addr) ∷ [])
unfolding connect_to peer connect_peer destination dest_of
connect_backed_off later pid pm until info e = (λ h. ground arith, λ h. ground arith)

-- A peer that is not reserved and resets its connection is left alone until its backoff is over: an
-- attempt to connect to it puts nothing in the queue before that, and from then on it dials.
pub backoff_respected :
    (now later : Instant) (pid : PeerId) (pm : PeerManager) (info : PeerInfo)
    → lookup pid (pm.state).peers ≡ some info
    → is_connected info.state ≡ true
    → info.is_reserved ≡ false
    → let pm' = on_connection_lost now pid reset_by_peer pm in
      let until = now + (pm.conf).conn_reset_outbound_backoff in
      (connect_to later pid pm').out_queue
      ≡ pm'.out_queue ++ (if ltb later until then [] else connect (dest_of pid info.addr) ∷ [])
backoff_respected now later pid pm info e c n =
    let until = now + (pm.conf).conn_reset_outbound_backoff in
    let pm' = on_connection_lost now pid reset_by_peer pm in
    let (early, late) =
      connect_backed_off later pid pm' until info (lost_entry now pid pm info e c n) in
    elim (Bool-cases (ltb later until)) [
      | inl before ↦
          rw before (ap (λ m. m.out_queue) (early (ground arith)) ∙ sym (append-nil pm'.out_queue))
      | inr after ↦ rw after (late (ground arith))
    ]
