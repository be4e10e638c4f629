-- ===== src/PeerManager/Soundness/Entries.antt =====
-- The operations on an entry that change the ranking or the reserved set keep the invariant:
-- spectrum-network/src/peer_manager/peers_state.rs (`PeerInState`, `forget`, `try_add_peer`).
use spectrum.PeerManager.Data.{
  PeerDestination, PeerId, PeerInfo, ProtocolId, Reputation, ReputationChange, apply, id_of,
  into_addr, new_info, not_connected,
}
use spectrum.PeerManager.Handles.{
  NotConnectedPeer, PeerHandle, PeerInState, PeerRepo, adjust_handle, adjust_reputation, forget,
  handle_of, in_connected, in_not_connected, reserve_handle, set_protocols, set_reserved,
  write_index, write_info,
}
use spectrum.PeerManager.Index.{PeerIndex, drop_reserved_peer, reserve_peer}
use spectrum.PeerManager.Ranking.{
  Ranking, has_rank, has_rank-insert_rank, has_rank-remove_rank, insert_rank, insert_rank-IsOrdered,
  remove_rank, remove_rank-IsOrdered, same_rank_other, same_rank_same,
}
use spectrum.PeerManager.Repo.{add_peer, added, try_add_peer, vacant, with_peer}
use spectrum.PeerManager.Soundness.{
  IsAttached, IsSound, index-IsAttached, rated, write_info-IsAttached,
}
use spectrum.Prelude.{
  ==_refl, Bool, Bool-cases, List, Option, ap, arith, false, if◌then◌else◌, inl, inr, insert,
  lookup, lookup-insert, lookup-remove, none, refl, remove, some, true, ◌==◌, ◌≡◌,
}

pub set_protocols-IsAttached :
    (ps : List ProtocolId) (st : PeerInState)
    → IsAttached (handle_of st)
    → IsAttached (handle_of (set_protocols ps st))
unfolding set_protocols
set_protocols-IsAttached ps (in_connected h) a =
    write_info-IsAttached h (record (h.peer_info) { supported_protocols = some ps }) a refl refl
set_protocols-IsAttached ps (in_not_connected h) a =
    write_info-IsAttached h (record (h.peer_info) { supported_protocols = some ps }) a refl refl

reserve_index : Bool → PeerId → PeerIndex → PeerIndex
reserve_index b pid ix = if b then reserve_peer pid ix else drop_reserved_peer pid ix

reserve_handle-IsAttached :
    (b : Bool) (h : PeerHandle) → IsAttached h → IsAttached (reserve_handle b h)
unfolding reserve_handle reserve_peer drop_reserved_peer write_info write_index
reserve_handle-IsAttached true h a =
    write_info-IsAttached (write_index h (reserve_peer h.pid (h.repo).index))
      (record (h.peer_info) { is_reserved = true }) (index-IsAttached h _ a refl refl refl refl)
      refl refl
reserve_handle-IsAttached false h a =
    write_info-IsAttached (write_index h (drop_reserved_peer h.pid (h.repo).index))
      (record (h.peer_info) { is_reserved = false }) (index-IsAttached h _ a refl refl refl refl)
      refl refl

pub set_reserved-IsAttached :
    (b : Bool) (st : PeerInState)
    → IsAttached (handle_of st)
    → IsAttached (handle_of (set_reserved b st))
unfolding set_reserved
set_reserved-IsAttached b (in_connected h) a = reserve_handle-IsAttached b h a
set_reserved-IsAttached b (in_not_connected h) a = reserve_handle-IsAttached b h a

-- The pair of a peer moves to its new reputation, and all others stay.
adjust-ranked :
    (pid : PeerId) (old new z : Reputation) (p : PeerId) (xs : Ranking)
    (m : List (PeerId × PeerInfo)) (info : PeerInfo)
    → has_rank p z xs ≡ rated z (lookup p m)
    → lookup pid m ≡ some info
    → info.reputation ≡ old
    → has_rank p z (insert_rank pid new (remove_rank pid old xs))
      ≡ rated z (lookup p (insert pid (record info { reputation = new }) m))
adjust-ranked pid old new z p xs m info k e o = elim (Bool-cases (pid == p)) [
  | inl same ↦ ground (
    arith,
    same_rank_same pid new p z same,
    same_rank_same pid old p z same,
    has_rank-insert_rank pid new p z (remove_rank pid old xs),
    has_rank-remove_rank pid old p z xs,
    lookup-insert pid p (record info { reputation = new }) m,
    ap (λ k. lookup k m) {x = pid} {y = p},
  )
  | inr other ↦ ground (
    arith,
    same_rank_other pid new p z other,
    same_rank_other pid old p z other,
    has_rank-insert_rank pid new p z (remove_rank pid old xs),
    has_rank-remove_rank pid old p z xs,
    lookup-insert pid p (record info { reputation = new }) m,
  )
]

-- The pair of a peer goes with its entry.
forget-ranked :
    (pid : PeerId) (z : Reputation) (p : PeerId) (xs : Ranking) (m : List (PeerId × PeerInfo))
    (info : PeerInfo)
    → has_rank p z xs ≡ rated z (lookup p m)
    → lookup pid m ≡ some info
    → has_rank p z (remove_rank pid info.reputation xs) ≡ rated z (lookup p (remove pid m))
forget-ranked pid z p xs m info k e = elim (Bool-cases (pid == p)) [
  | inl same ↦ ground (
    arith,
    same_rank_same pid info.reputation p z same,
    has_rank-remove_rank pid info.reputation p z xs,
    lookup-remove pid p m,
    ap (λ k. lookup k m) {x = pid} {y = p},
  )
  | inr other ↦ ground (
    arith,
    same_rank_other pid info.reputation p z other,
    has_rank-remove_rank pid info.reputation p z xs,
    lookup-remove pid p m,
  )
]

pub adjust_handle-IsAttached :
    (change : ReputationChange) (h : PeerHandle)
    → IsAttached h
    → IsAttached (adjust_handle change h)
unfolding adjust_handle write_info
adjust_handle-IsAttached change h (s, e) = (
  record {
    ranked = λ p z. adjust-ranked h.pid _ _ z p _ _ h.peer_info (s.ranked p z) e refl;
    ordered = insert_rank-IsOrdered h.pid _ _ (remove_rank-IsOrdered h.pid _ _ s.ordered);
    tracked = λ p. ground (
      arith,
      s.tracked p,
      lookup-insert h.pid p
          (record (h.peer_info) { reputation = apply (h.peer_info).reputation change })
          (h.repo).peers,
      ap (λ k. lookup k (h.repo).peers) {x = h.pid} {y = p},
    );
    no_inbound = s.no_inbound;
    no_outbound = s.no_outbound;
    no_boot = s.no_boot;
  },
  rw (lookup-insert, ==_refl),
)

pub adjust_reputation-IsAttached :
    (change : ReputationChange) (st : PeerInState)
    → IsAttached (handle_of st)
    → IsAttached (handle_of (adjust_reputation change st))
unfolding adjust_reputation
adjust_reputation-IsAttached change (in_connected h) a = adjust_handle-IsAttached change h a
adjust_reputation-IsAttached change (in_not_connected h) a = adjust_handle-IsAttached change h a

-- `forget`, of a peer that is not connected.
pub forget-IsSound :
    (h : PeerHandle) → IsAttached h → (h.peer_info).state ≡ not_connected → IsSound (forget h).0
unfolding forget
forget-IsSound h (s, e) n = record {
  ranked = λ p z. forget-ranked h.pid z p _ _ h.peer_info (s.ranked p z) e;
  ordered = remove_rank-IsOrdered h.pid _ _ s.ordered;
  tracked = λ p. ground (
    arith,
    s.tracked p,
    lookup-remove h.pid p (h.repo).peers,
    ap (λ k. lookup k (h.repo).peers) {x = h.pid} {y = p},
  );
  no_inbound = s.no_inbound;
  no_outbound = s.no_outbound;
  no_boot = s.no_boot;
}

-- The pair of a new peer comes with its entry.
add-ranked :
    (pid : PeerId) (z : Reputation) (p : PeerId) (xs : Ranking) (m : List (PeerId × PeerInfo))
    (info : PeerInfo)
    → has_rank p z xs ≡ rated z (lookup p m)
    → lookup pid m ≡ none
    → has_rank p z (insert_rank pid info.reputation xs) ≡ rated z (lookup p (insert pid info m))
add-ranked pid z p xs m info k e = elim (Bool-cases (pid == p)) [
  | inl same ↦ ground (
    arith,
    same_rank_same pid info.reputation p z same,
    has_rank-insert_rank pid info.reputation p z xs,
    lookup-insert pid p info m,
    ap (λ k. lookup k m) {x = pid} {y = p},
  )
  | inr other ↦ ground (
    arith,
    same_rank_other pid info.reputation p z other,
    has_rank-insert_rank pid info.reputation p z xs,
    lookup-insert pid p info m,
  )
]

with_peer-IsSound :
    (dest : PeerDestination) (b boot : Bool) (r : PeerRepo)
    → IsSound r
    → lookup (id_of dest) r.peers ≡ none
    → IsSound (with_peer dest b boot r)
unfolding with_peer reserve_peer
with_peer-IsSound dest b boot r s e = record {
  ranked =
      λ p z. add-ranked (id_of dest) z p _ _ (new_info (into_addr dest) b boot) (s.ranked p z) e;
  ordered = insert_rank-IsOrdered (id_of dest) _ _ s.ordered;
  tracked = λ p. ground (
    arith,
    s.tracked p,
    lookup-insert (id_of dest) p (new_info (into_addr dest) b boot) r.peers,
    ap (λ k. lookup k r.peers) {x = id_of dest} {y = p},
  );
  no_inbound = ground (arith, s.no_inbound);
  no_outbound = ground (arith, s.no_outbound);
  no_boot = ground (arith, s.no_boot);
}

-- A peer that is added is known and not connected.
abbrev pub Added : Option NotConnectedPeer → Type 0
Added none = Unit {0}
Added (some h) = IsAttached h × ((h.peer_info).state ≡ not_connected)

vacant-Added :
    (dest : PeerDestination) (b boot : Bool) (r : PeerRepo) (o : Option PeerInfo)
    → IsSound r
    → lookup (id_of dest) r.peers ≡ o
    → Added (vacant dest b boot r o)
unfolding vacant with_peer
vacant-Added dest b boot r none s e = (
  (
    with_peer-IsSound dest b boot r s e,
    ground
        (arith, lookup-insert (id_of dest) (id_of dest) (new_info (into_addr dest) b boot) r.peers),
  ),
  refl,
)
vacant-Added dest b boot r (some info) s e = tt

pub try_add_peer-Added :
    (dest : PeerDestination) (b boot : Bool) (r : PeerRepo)
    → IsSound r
    → Added (try_add_peer dest b boot r)
unfolding try_add_peer
try_add_peer-Added dest b boot r s = vacant-Added dest b boot r _ s refl

added-IsSound :
    (r : PeerRepo) (o : Option NotConnectedPeer) → IsSound r → Added o → IsSound (added r o)
unfolding added
added-IsSound r none s a = s
added-IsSound r (some h) s a = a.0.0

pub add_peer-IsSound :
    (dest : PeerDestination) (b boot : Bool) (r : PeerRepo)
    → IsSound r
    → IsSound (add_peer dest b boot r)
unfolding add_peer
add_peer-IsSound dest b boot r s = added-IsSound r _ s (try_add_peer-Added dest b boot r s)
