-- ===== src/Handel/Choice.antt =====
-- The peer that `run_dissemination` of spectrum-handel/src/lib.rs sends to.
use mathlib.Core.Path.{subst}
use spectrum.Handel.Overlay.{cvp}
use spectrum.Handel.Partitioning.{PeerIx}
use spectrum.Handel.Sending.{
  all_completed, completed_by, disseminate_level, first_open, next_peer, open_at,
}
use spectrum.Handel.State.{ActiveLevel, Handel}
use spectrum.Prelude.{
  Bool, Bool-cases, List, Option, Option-cases, [], ap, arith, contains, drop, false, get_elem?,
  inl, inr, none, refl, returned, some, suc, sym, take, true, zero, ℕ, ◌+◌, ◌-◌, ◌<◌, ◌∙◌, ◌∷◌, ◌≡◌,
  ◌≤◌, ◌⊎◌,
}

abbrev pub IsOpen : (PeerIx → Bool) → List PeerIx → PeerIx × ℕ → Type 0
IsOpen is_done peers p = (is_done p.0 ≡ false) × (get_elem? peers p.1 ≡ some p.0)

first_open-IsOpen :
    (is_done : PeerIx → Bool) (i : ℕ) (peers : List PeerIx) (p : PeerIx × ℕ)
    → first_open is_done i peers ≡ some p
    → (is_done p.0 ≡ false) × (i ≤ p.1) × (get_elem? peers (p.1 - i) ≡ some p.0)
unfolding first_open
first_open-IsOpen is_done i [] p e = cc
first_open-IsOpen is_done i (x ∷ xs) p e = elim (Bool-cases (is_done x)) [
  | inl closed ↦
      let (o, le, found) = first_open-IsOpen is_done (i + 1) xs p (ground arith) in
      (
        o,
        omega (arith, le),
        ap (get_elem? (x ∷ xs)) {x = p.1 - i} {y = suc (p.1 - (i + 1))} (omega (arith, le)) ∙ found,
      )
  | inr open_yet ↦
      let q : (x, i) ≡ p = ground arith in
      (
        subst (λ p. is_done p.0 ≡ false) q open_yet,
        subst (λ p. i ≤ p.1) q (omega arith),
        subst (λ p. get_elem? (x ∷ xs) (p.1 - i) ≡ some p.0) q
            (ap (get_elem? (x ∷ xs)) {x = i - i} {y = 0} (omega arith)),
      )
]

get_elem?-drop :
    {A : Type 0} (n : ℕ) (xs : List A) (i : ℕ) → get_elem? (drop n xs) i ≡ get_elem? xs (n + i)
get_elem?-drop zero xs i = ap (get_elem? xs) (omega arith)
get_elem?-drop (suc n) [] i = refl
get_elem?-drop (suc n) (x ∷ xs) i =
    get_elem?-drop n xs i ∙ ap (get_elem? (x ∷ xs)) {x = suc (n + i)} (omega arith)

get_elem?-take :
    {A : Type 0} (n : ℕ) (xs : List A) (i : ℕ) (a : A)
    → get_elem? (take n xs) i ≡ some a
    → get_elem? xs i ≡ some a
get_elem?-take zero xs i a e = cc
get_elem?-take (suc n) [] i a e = e
get_elem?-take (suc n) (x ∷ xs) zero a e = e
get_elem?-take (suc n) (x ∷ xs) (suc i) a e = get_elem?-take n xs i a e

first_open-none :
    (is_done : PeerIx → Bool) (base : ℕ) (peers : List PeerIx) (i : ℕ) (pix : PeerIx)
    → first_open is_done base peers ≡ none
    → get_elem? peers i ≡ some pix
    → is_done pix ≡ true
unfolding first_open
first_open-none is_done base [] i pix n g = cc
first_open-none is_done base (x ∷ xs) zero pix n g = elim (Bool-cases (is_done x)) [
  | inr open_yet ↦ absurd (ground arith)
  | inl closed ↦ ground arith
]
first_open-none is_done base (x ∷ xs) (suc i) pix n g = elim (Bool-cases (is_done x)) [
  | inr open_yet ↦ absurd (ground arith)
  | inl closed ↦ first_open-none is_done (base + 1) xs i pix (ground arith) g
]

open_at-IsOpen :
    (is_done : PeerIx → Bool) (peers : List PeerIx) (i : ℕ) (p : PeerIx × ℕ)
    → open_at is_done peers i ≡ returned (some p)
    → IsOpen is_done peers p
unfolding open_at
open_at-IsOpen is_done peers i p e = elim (Option-cases (get_elem? peers i)) [
  | inl n ↦ absurd (ground arith)
  | inr (x, s) ↦ elim (Bool-cases (is_done x)) [
    | inl closed ↦ absurd (ground arith)
    | inr open_yet ↦
        let q : (x, i) ≡ p = ground arith in subst (IsOpen is_done peers) q (open_yet, s)
  ]
]

-- The peer that is chosen stands at the index that comes with it, and has not completed the level.
pub next_peer-IsOpen :
    (is_done : PeerIx → Bool) (peers : List PeerIx) (last : Option ℕ) (p : PeerIx × ℕ)
    → next_peer is_done peers last ≡ returned (some p)
    → IsOpen is_done peers p
unfolding next_peer
next_peer-IsOpen is_done peers none p e = open_at-IsOpen is_done peers 0 p e
next_peer-IsOpen is_done peers (some ix) p e =
    elim (Option-cases (first_open is_done (ix + 1) (drop (ix + 1) peers))) [
      | inr (q, s) ↦
          let (o, le, found) = first_open-IsOpen is_done (ix + 1) (drop (ix + 1) peers) q s in
          let r : q ≡ p = ground arith in
          subst (IsOpen is_done peers) r (
            o,
            ap (get_elem? peers) {x = q.1} {y = ix + 1 + (q.1 - (ix + 1))} (omega (arith, le))
                ∙ sym (get_elem?-drop (ix + 1) peers (q.1 - (ix + 1)))
                ∙ found,
          )
      | inl n ↦ elim (Option-cases (first_open is_done 0 (take ix peers))) [
        | inr (q, s) ↦
            let (o, le, found) = first_open-IsOpen is_done 0 (take ix peers) q s in
            let r : q ≡ p = ground arith in
            subst (IsOpen is_done peers) r (
              o,
              get_elem?-take ix peers q.1 q.0
                  (ap (get_elem? (take ix peers)) {x = q.1} {y = q.1 - 0} (omega arith) ∙ found),
            )
        | inl m ↦ open_at-IsOpen is_done peers ix p (ground arith)
      ]
    ]

open_at-none :
    (is_done : PeerIx → Bool) (peers : List PeerIx) (i : ℕ) (pix : PeerIx)
    → open_at is_done peers i ≡ returned none
    → get_elem? peers i ≡ some pix
    → is_done pix ≡ true
unfolding open_at
open_at-none is_done peers i pix e g = elim (Bool-cases (is_done pix)) [
  | inl closed ↦ closed
  | inr open_yet ↦ absurd (ground arith)
]

lt-cases : (i n : ℕ) → (i < n) ⊎ (i ≡ n) ⊎ (n < i)
lt-cases zero zero = inr (inl refl)
lt-cases zero (suc n) = inl (omega arith)
lt-cases (suc i) zero = inr (inr (omega arith))
lt-cases (suc i) (suc n) = elim (lt-cases i n) [
  | inl before ↦ inl (omega (arith, before))
  | inr (inl same) ↦ inr (inl (ap suc same))
  | inr (inr after) ↦ inr (inr (omega (arith, after)))
]

get_elem?-take_lt :
    {A : Type 0} (n : ℕ) (xs : List A) (i : ℕ) → i < n → get_elem? (take n xs) i ≡ get_elem? xs i
get_elem?-take_lt zero xs i h = absurd (omega (arith, h))
get_elem?-take_lt (suc n) [] i h = refl
get_elem?-take_lt (suc n) (x ∷ xs) zero h = refl
get_elem?-take_lt (suc n) (x ∷ xs) (suc i) h = get_elem?-take_lt n xs i (omega (arith, h))

-- Once a peer of the level has been contacted, no peer is chosen only if all of them have completed
-- the level.
pub next_peer-none :
    (is_done : PeerIx → Bool) (peers : List PeerIx) (ix : ℕ)
    → next_peer is_done peers (some ix) ≡ returned none
    → (i : ℕ) (pix : PeerIx) → get_elem? peers i ≡ some pix
    → is_done pix ≡ true
unfolding next_peer
next_peer-none is_done peers ix e i pix g =
    elim (Option-cases (first_open is_done (ix + 1) (drop (ix + 1) peers))) [
      | inr (q, s) ↦ absurd (ground arith)
      | inl n ↦ elim (Option-cases (first_open is_done 0 (take ix peers))) [
        | inr (q, s) ↦ absurd (ground arith)
        | inl m ↦ elim (lt-cases i ix) [
          | inl before ↦
              first_open-none is_done 0 (take ix peers) i pix m
                (get_elem?-take_lt ix peers i before ∙ g)
          | inr (inl same) ↦
              open_at-none is_done peers ix pix (ground arith)
                (ap (get_elem? peers) {x = ix} {y = i} (sym same) ∙ g)
          | inr (inr after) ↦
              first_open-none is_done (ix + 1) (drop (ix + 1) peers) (i - (ix + 1)) pix n (
                get_elem?-drop (ix + 1) peers (i - (ix + 1))
                ∙ ap (get_elem? peers) {x = ix + 1 + (i - (ix + 1))} {y = i} (omega (arith, after))
                ∙ g)
        ]
      ]
    ]

all_completed-returns :
    {C : Type 0} (level : ℕ) (h : Handel C) (peers : List PeerIx)
    → contains h.own_peer_ix peers ≡ false
    → (b : Bool) × (all_completed level h peers ≡ returned b)
unfolding all_completed contains
all_completed-returns level h [] o = (true, refl)
all_completed-returns level h (x ∷ xs) o =
    let (b, e) = all_completed-returns level h xs (ground arith) in
    elim (Bool-cases (completed_by level h x)) [
      | inl closed ↦ (b, ground arith)
      | inr open_yet ↦ (false, ground arith)
    ]

-- At a level where nobody was contacted yet and the first peer has completed the level, a
-- dissemination sends nothing and changes nothing, whatever the other peers still need.
dissemination_stalls :
    {C : Type 0} (level : ℕ) (own : C) (lvl : ActiveLevel C) (h : Handel C) (p : PeerIx)
    (ps : List PeerIx)
    → (h.peer_partitions).at_level level cvp ≡ returned (p ∷ ps)
    → lvl.last_contacted_peer_ix ≡ none
    → completed_by level h p ≡ true
    → contains h.own_peer_ix (p ∷ ps) ≡ false
    → disseminate_level level own lvl h ≡ returned h
unfolding disseminate_level next_peer open_at
dissemination_stalls level own lvl h p ps e n c o =
    let (b, t) = all_completed-returns level h (p ∷ ps) o in ground arith
