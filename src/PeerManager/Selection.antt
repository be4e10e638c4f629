-- ===== src/PeerManager/Selection.antt =====
-- `pick_best` and `get_peers` of spectrum-network/src/peer_manager/peers_state.rs.
use spectrum.PeerManager.Data.{PeerId, PeerInfo, Reputation}
use spectrum.PeerManager.Handles.{PeerRepo}
use spectrum.PeerManager.Ranking.{
  IsOrdered, Ranking, has_rank, has_rank-lt, same_rank_lem, same_rank_refl,
}
use spectrum.PeerManager.Repo.{
  dest_if_known, destinations, first_picked, get_peers, pick_best, picks,
}
use spectrum.PeerManager.Soundness.{IsSound}
use spectrum.Prelude.{
  Bool, Bool-cases, List, Option, [], ap, arith, false, inl, inr, is_some, length, lookup, min,
  none, refl, some, suc, take, true, zero, ℕ, ◌<◌, ◌∷◌, ◌≡◌,
}

-- The filter passes for what the table keeps of the peer.
abbrev pub passing : (PeerId → PeerInfo → Bool) → PeerId → Option PeerInfo → Bool
passing test pid none = false
passing test pid (some info) = test pid info

-- The least passing id, or none.
abbrev pub IsLeast : (PeerId → Bool) → Option PeerId → Type 0
IsLeast good none = (p : PeerId) → good p ≡ false
IsLeast good (some q) = (good q ≡ true) × ((p : PeerId) → p < q → good p ≡ false)

module _ (test : PeerId → PeerInfo → Bool) (peers : List (PeerId × PeerInfo)) where
  pub first_picked_hit :
      (xs : Ranking) (q : PeerId)
      → first_picked (some test) peers xs ≡ some q
      → passing test q (lookup q peers) ≡ true
  unfolding first_picked picks
  first_picked_hit [] q e = cc
  first_picked_hit ((p, z) ∷ xs) q e =
      ground
        (arith, first_picked_hit xs q, ap (λ k. passing test k (lookup k peers)) {x = p} {y = q})

  first_picked_miss :
      (xs : Ranking) (p : PeerId) (z : Reputation)
      → first_picked (some test) peers xs ≡ none
      → has_rank p z xs ≡ true
      → passing test p (lookup p peers) ≡ false
  unfolding first_picked picks has_rank
  first_picked_miss [] p z e h = cc
  first_picked_miss ((q, w) ∷ xs) p z e h = ground (
    arith,
    first_picked_miss xs p z,
    same_rank_lem p z q w,
    ap (λ k. passing test k (lookup k peers)) {x = q} {y = p},
  )

  first_picked_least :
      (xs : Ranking) (q p : PeerId) (z : Reputation)
      → IsOrdered xs
      → first_picked (some test) peers xs ≡ some q
      → has_rank p z xs ≡ true
      → p < q
      → passing test p (lookup p peers) ≡ false
  unfolding first_picked picks has_rank
  first_picked_least [] q p z o e h l = cc
  first_picked_least ((r, w) ∷ xs) q p z o e h l = ground (
    arith,
    first_picked_least xs q p z o.1,
    has_rank-lt p r z xs o.0,
    same_rank_lem p z r w,
    ap (λ k. passing test k (lookup k peers)) {x = r} {y = p},
  )

-- In a sound repository a peer that passes has a pair in the ranking.
passing-has_rank :
    (test : PeerId → PeerInfo → Bool) (r : PeerRepo) (p : PeerId) (o : Option PeerInfo)
    → IsSound r
    → lookup p r.peers ≡ o
    → passing test p o ≡ true
    → (z : Reputation) × (has_rank p z r.sorted_peers ≡ true)
passing-has_rank test r p none s e h = cc
passing-has_rank test r p (some info) s e h =
    (info.reputation, ground (arith, s.ranked p info.reputation))

not_passing :
    (test : PeerId → PeerInfo → Bool) (r : PeerRepo) (p : PeerId)
    → IsSound r
    → ((z : Reputation)
        → has_rank p z r.sorted_peers ≡ true
        → passing test p (lookup p r.peers) ≡ false)
    → passing test p (lookup p r.peers) ≡ false
not_passing test r p s miss = elim (Bool-cases (passing test p (lookup p r.peers))) [
  | inl yea ↦ let (z, h) = passing-has_rank test r p _ s refl yea in miss z h
  | inr nay ↦ nay
]

-- `pick_best` returns the least id among the known peers that pass the filter, whatever their
-- reputations, and none exactly if no known peer passes.
pub pick_best-IsLeast :
    (test : PeerId → PeerInfo → Bool) (r : PeerRepo)
    → IsSound r
    → IsLeast (λ p. passing test p (lookup p r.peers)) (pick_best (some test) r)
unfolding pick_best
pick_best-IsLeast test r s = go (first_picked (some test) r.peers r.sorted_peers) refl
  where
    go :
        (o : Option PeerId)
        → first_picked (some test) r.peers r.sorted_peers ≡ o
        → IsLeast (λ p. passing test p (lookup p r.peers)) o
    go none e =
        λ p. not_passing test r p s (λ z h. first_picked_miss test r.peers r.sorted_peers p z e h)
    go (some q) e = (
      first_picked_hit test r.peers r.sorted_peers q e,
      λ p l.
          not_passing test r p s
            (λ z h. first_picked_least test r.peers r.sorted_peers q p z s.ordered e h l),
    )

-- Every pair of the ranking is of a known peer.
abbrev AllKnown : List (PeerId × PeerInfo) → Ranking → Type 0
AllKnown m [] = Unit {0}
AllKnown m ((p, z) ∷ xs) = (is_some (lookup p m) ≡ true) × AllKnown m xs

length-destinations :
    (n : ℕ) (m : List (PeerId × PeerInfo)) (xs : Ranking)
    → AllKnown m xs
    → length (destinations m (take n xs)) ≡ min n (length xs)
unfolding destinations dest_if_known
length-destinations zero m xs k = omega arith
length-destinations (suc n) m [] k = omega arith
length-destinations (suc n) m ((p, z) ∷ xs) k = ground (arith, length-destinations n m xs k.1)

ranked-AllKnown :
    (m : List (PeerId × PeerInfo)) (xs : Ranking)
    → ((p : PeerId) (z : Reputation) → has_rank p z xs ≡ true → is_some (lookup p m) ≡ true)
    → AllKnown m xs
unfolding has_rank
ranked-AllKnown m [] h = tt
ranked-AllKnown m ((p, z) ∷ xs) h =
    (h p z (rw (same_rank_refl p z)), ranked-AllKnown m xs (λ q w k. h q w (ground arith)))

-- `get_peers` of a sound repository returns as many destinations as the ranking has, up to the
-- limit.
length-get_peers :
    (limit : ℕ) (r : PeerRepo)
    → IsSound r
    → length (get_peers limit r) ≡ min limit (length r.sorted_peers)
unfolding get_peers
length-get_peers limit r s =
    length-destinations limit r.peers r.sorted_peers
      (ranked-AllKnown r.peers r.sorted_peers (λ p z h. ground (arith, s.ranked p z)))
