-- ===== src/PeerManager/Ranking.antt =====
-- The `BTreeSet<(PeerId, Reputation)>` of spectrum-network/src/peer_manager/peers_state.rs: a list
-- in the order of pairs, the peer id first.
use mathlib.Core.Path.{ap₂}
use spectrum.PeerManager.Data.{PeerId, Reputation}
use spectrum.Prelude.{
  Bool, List, [], arith, eqb_ℤ, eqb_ℤ_iff, false, if◌then◌else◌, ltb, ltb_ℤ, refl, true, ◌&&◌, ◌<◌,
  ◌==◌, ◌||◌, ◌∷◌, ◌≡◌, ◌≤◌,
}

abbrev pub Ranking : Type 0
Ranking = List (PeerId × Reputation)

unfoldable pub same_rank : PeerId → Reputation → PeerId → Reputation → Bool
same_rank p r q s = p == q && eqb_ℤ r s

unfoldable pub rank_lt : PeerId → Reputation → PeerId → Reputation → Bool
rank_lt p r q s = ltb p q || (p == q && ltb_ℤ r s)

pub same_rank_lem :
    (p : PeerId) (r : Reputation) (q : PeerId) (s : Reputation)
    → same_rank p r q s ≡ true
    → (p ≡ q) × (r ≡ s)
unfolding same_rank
same_rank_lem p r q s h = (ground arith, (eqb_ℤ_iff r s).0 (ground arith))

pub same_rank_refl : (p : PeerId) (r : Reputation) → same_rank p r p r ≡ true
unfolding same_rank
same_rank_refl p r = rw ((eqb_ℤ_iff r r).1 refl) (ground arith)

same_rank_sym :
    (p : PeerId) (r : Reputation) (q : PeerId) (s : Reputation)
    → same_rank p r q s ≡ same_rank q s p r
unfolding same_rank
same_rank_sym p r q s =
    ap₂ ◌&&◌ {x = p == q} {y = q == p} {u = eqb_ℤ r s} {v = eqb_ℤ s r} (ground arith) (ground arith)

-- Against equal pairs a test gives the same.
same_rank_swap :
    (p : PeerId) (r : Reputation) (q : PeerId) (s : Reputation) (a : PeerId) (b : Reputation)
    → same_rank p r a b ≡ true
    → same_rank p r q s ≡ same_rank q s a b
same_rank_swap p r q s a b h =
    let (e, f) = same_rank_lem p r a b h in rw (← e, ← f) (same_rank_sym p r q s)

same_rank_cong :
    (p : PeerId) (r : Reputation) (q : PeerId) (s : Reputation) (a : PeerId) (b : Reputation)
    → same_rank p r q s ≡ true
    → same_rank q s a b ≡ same_rank p r a b
same_rank_cong p r q s a b h = let (e, f) = same_rank_lem p r q s h in rw (← e, ← f)

rank_lt-le :
    (p : PeerId) (r : Reputation) (q : PeerId) (s : Reputation) → rank_lt p r q s ≡ true → p ≤ q
unfolding rank_lt
rank_lt-le p r q s h = ground arith

rank_not_lt-le :
    (p : PeerId) (r : Reputation) (q : PeerId) (s : Reputation) → rank_lt p r q s ≡ false → q ≤ p
unfolding rank_lt
rank_not_lt-le p r q s h = ground arith

unfoldable pub insert_rank : PeerId → Reputation → Ranking → Ranking
insert_rank p r [] = (p, r) ∷ []
insert_rank p r ((q, s) ∷ xs) =
    if same_rank p r q s
    then (q, s) ∷ xs
    else if rank_lt p r q s
    then (p, r) ∷ (q, s) ∷ xs
    else (q, s) ∷ insert_rank p r xs

unfoldable pub remove_rank : PeerId → Reputation → Ranking → Ranking
remove_rank p r [] = []
remove_rank p r ((q, s) ∷ xs) =
    if same_rank p r q s then remove_rank p r xs else (q, s) ∷ remove_rank p r xs

-- Whether the pair is in the set.
unfoldable pub has_rank : PeerId → Reputation → Ranking → Bool
has_rank p r [] = false
has_rank p r ((q, s) ∷ xs) = same_rank p r q s || has_rank p r xs

-- The ids of the pairs are `q` or above.
abbrev pub Above : PeerId → Ranking → Type 0
Above q [] = Unit {0}
Above q ((p, r) ∷ xs) = (q ≤ p) × Above q xs

-- The set is walked in the order of peer ids.
abbrev pub IsOrdered : Ranking → Type 0
IsOrdered [] = Unit {0}
IsOrdered ((q, s) ∷ xs) = Above q xs × IsOrdered xs

pub has_rank-insert_rank :
    (p : PeerId) (r : Reputation) (q : PeerId) (s : Reputation) (xs : Ranking)
    → has_rank q s (insert_rank p r xs) ≡ (same_rank p r q s || has_rank q s xs)
unfolding has_rank insert_rank
has_rank-insert_rank p r q s [] = rw (same_rank_sym q s p r)
has_rank-insert_rank p r q s ((a, b) ∷ xs) =
    ground
      (arith, has_rank-insert_rank p r q s xs, same_rank_swap p r q s a b, same_rank_sym q s p r)

pub has_rank-remove_rank :
    (p : PeerId) (r : Reputation) (q : PeerId) (s : Reputation) (xs : Ranking)
    → has_rank q s (remove_rank p r xs) ≡ (if same_rank p r q s then false else has_rank q s xs)
unfolding has_rank remove_rank
has_rank-remove_rank p r q s [] = ground arith
has_rank-remove_rank p r q s ((a, b) ∷ xs) =
    ground (
      arith,
      has_rank-remove_rank p r q s xs,
      same_rank_swap p r q s a b,
      same_rank_cong p r q s a b,
    )

Above-insert_rank :
    (q p : PeerId) (r : Reputation) (xs : Ranking)
    → q ≤ p
    → Above q xs
    → Above q (insert_rank p r xs)
unfolding insert_rank
Above-insert_rank q p r [] h a = (h, tt)
Above-insert_rank q p r ((b, s) ∷ xs) h a = ground (arith, Above-insert_rank q p r xs h a.1)

Above-remove_rank :
    (q p : PeerId) (r : Reputation) (xs : Ranking) → Above q xs → Above q (remove_rank p r xs)
unfolding remove_rank
Above-remove_rank q p r [] a = tt
Above-remove_rank q p r ((b, s) ∷ xs) a = ground (arith, Above-remove_rank q p r xs a.1)

Above-mono : (p q : PeerId) (xs : Ranking) → p ≤ q → Above q xs → Above p xs
Above-mono p q [] h a = tt
Above-mono p q ((b, s) ∷ xs) h a = (omega arith, Above-mono p q xs h a.1)

pub insert_rank-IsOrdered :
    (p : PeerId) (r : Reputation) (xs : Ranking) → IsOrdered xs → IsOrdered (insert_rank p r xs)
unfolding insert_rank
insert_rank-IsOrdered p r [] o = (tt, tt)
insert_rank-IsOrdered p r ((b, s) ∷ xs) o = ground (
  arith,
  insert_rank-IsOrdered p r xs o.1,
  Above-insert_rank b p r xs,
  Above-mono p b xs,
  rank_lt-le p r b s,
  rank_not_lt-le p r b s,
)

pub remove_rank-IsOrdered :
    (p : PeerId) (r : Reputation) (xs : Ranking) → IsOrdered xs → IsOrdered (remove_rank p r xs)
unfolding remove_rank
remove_rank-IsOrdered p r [] o = tt
remove_rank-IsOrdered p r ((b, s) ∷ xs) o =
    ground (arith, remove_rank-IsOrdered p r xs o.1, Above-remove_rank b p r xs o.0)

-- No pair below a lower bound is in the set.
pub has_rank-lt :
    (p q : PeerId) (r : Reputation) (xs : Ranking) → Above q xs → p < q → has_rank p r xs ≡ false
unfolding has_rank
has_rank-lt p q r [] a h = refl
has_rank-lt p q r ((b, s) ∷ xs) a h =
    ground (arith, has_rank-lt p q r xs a.1 h, same_rank_lem p r b s)

pub same_rank_same :
    (p : PeerId) (r : Reputation) (q : PeerId) (s : Reputation)
    → (p == q) ≡ true
    → same_rank p r q s ≡ eqb_ℤ r s
unfolding same_rank
same_rank_same p r q s h = rw h

pub same_rank_other :
    (p : PeerId) (r : Reputation) (q : PeerId) (s : Reputation)
    → (p == q) ≡ false
    → same_rank p r q s ≡ false
unfolding same_rank
same_rank_other p r q s h = rw h
