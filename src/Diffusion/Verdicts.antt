-- ===== src/Diffusion/Verdicts.antt =====
-- What each verdict of the comparison of chains in spectrum-diffusion/src/service.rs means.
use mathlib.Core.Bool.{true≢false}
use spectrum.Diffusion.Service.{
  History, RemoteChainCmp, SyncStatus, before_common, common_point, compare_lists, compare_remote,
  compare_tails, equal, fork, longer, nonsense, optimistic_common_point, origin, shorter,
}
use spectrum.Prelude.{
  ==_refl, ==_iff, leb→le, ltb→lt, All, Bool-cases, List, [], ap, arith, contains, contains-append,
  contains-reverse, false, leb, length, ltb, none, refl, reverse, some, sym, true, ℕ, ◌++◌, ◌-◌,
  ◌<◌, ◌==◌, ◌∙◌, ◌∷◌, ◌≡◌, ◌≤◌, ◌⊎◌, inl, inr, reverse-reverse,
}

module _ (history : History) where
  abbrev pub tip_slot : ℕ
  tip_slot = (history.get_tip).slot_num

  abbrev pub tip : ℕ
  tip = (history.get_tip).id

  -- What each verdict says of the height and the tail, newest block first, that a peer sent.
  abbrev pub Means : ℕ → List ℕ → RemoteChainCmp → Type 0
  Means height tail equal = (older : List ℕ) × (tail ≡ tip ∷ older) × (tip_slot ≤ height)
  Means height tail (longer none) = length tail < height - tip_slot
  Means height tail (longer (some suffix)) =
      (older : List ℕ) × (tail ≡ reverse suffix ++ tip ∷ older)
      × (contains tip suffix ≡ false)
      × (tip_slot ≤ height)
  Means height tail (shorter b) =
      ((tail ≡ []) × (b ≡ origin))
      ⊎ ((older : List ℕ) × (tail ≡ b ∷ older) × (history.member b ≡ true))
  Means height tail (fork none) = All (λ b. history.member b ≡ false) tail
  Means height tail (fork (some b)) =
      (newest : ℕ) × (newer : List ℕ) × (older : List ℕ) × (tail ≡ newest ∷ newer ++ b ∷ older)
      × All (λ n. history.member n ≡ false) (newest ∷ newer)
      × (history.member b ≡ true)
  Means height tail nonsense = (height < tip_slot) × (contains tip tail ≡ true)

==→≡ : (a b : ℕ) → (a == b) ≡ true → a ≡ b
==→≡ a b = (==_iff a b).0

-- The tail splits at the tip, or does not contain it.
abbrev SplitAt : ℕ → List ℕ → Type 0
SplitAt t tail =
    ((optimistic_common_point t tail ≡ none) × (contains t tail ≡ false))
    ⊎ ((newer : List ℕ) × (older : List ℕ) × (tail ≡ newer ++ t ∷ older)
        × (contains t newer ≡ false))

pub split_at_tip :
    (t : ℕ) (newer older : List ℕ)
    → contains t newer ≡ false
    → (optimistic_common_point t (newer ++ t ∷ older) ≡ some t)
      × (before_common t (newer ++ t ∷ older) ≡ newer)
unfolding contains optimistic_common_point before_common
split_at_tip t [] older fresh = (ground arith, ground arith)
split_at_tip t (n ∷ newer) older fresh =
    let rest = split_at_tip t newer older (ground (arith, fresh)) in
    (ground (arith, fresh, rest.0), ground (arith, fresh, rest.1))

split_tail : (t : ℕ) (tail : List ℕ) → SplitAt t tail
unfolding contains optimistic_common_point
split_tail t [] = inl (refl, refl)
split_tail t (x ∷ xs) = elim (Bool-cases (x == t)) [
  | inl same ↦ inr ([], xs, ap (λ (y : ℕ). y ∷ xs) (==→≡ x t same), refl)
  | inr other ↦ elim (split_tail t xs) [
    | inl missing ↦ inl (ground (arith, other, missing.0), ground (arith, other, missing.1))
    | inr (newer, older, split, fresh) ↦
        inr (x ∷ newer, older, ap (λ (ys : List ℕ). x ∷ ys) split, ground (arith, other, fresh))
  ]
]

module _ (history : History) where
  abbrev NoMembers : List ℕ → Type 0
  NoMembers = All (λ b. history.member b ≡ false)

  -- The first block of the local chain in a tail, if there is one.
  common_split :
      (tail : List ℕ)
      → ((common_point history tail ≡ none) × NoMembers tail)
        ⊎ ((b : ℕ) × (newer : List ℕ) × (older : List ℕ) × (tail ≡ newer ++ b ∷ older)
            × NoMembers newer
            × (history.member b ≡ true)
            × (common_point history tail ≡ some b))
  unfolding common_point
  common_split [] = inl (refl, tt)
  common_split (x ∷ xs) = elim (Bool-cases (history.member x)) [
    | inl known ↦ inr (x, [], xs, refl, tt, known, rw known refl)
    | inr foreign ↦ elim (common_split xs) [
      | inl missing ↦ inl (rw foreign missing.0, (foreign, missing.1))
      | inr (b, newer, older, split, none_newer, known, found) ↦ inr (
        b,
        x ∷ newer,
        older,
        ap (λ (ys : List ℕ). x ∷ ys) split,
        (foreign, none_newer),
        known,
        rw foreign found,
      )
    ]
  ]

  -- The verdict where the tip is not in the tail.
  compare_apart :
      (height newest : ℕ) (rest : List ℕ)
      → Means history height
          (newest ∷ rest)
          (compare_tails history height newest (newest ∷ rest) none)
  unfolding compare_tails common_point
  compare_apart height newest rest = elim (Bool-cases (history.member newest)) [
    | inl known ↦ rw (known, Means) (rw (==_refl newest, Means) (inr (rest, refl, known)))
    | inr foreign ↦
        rw (foreign, Means)
          (elim (common_split rest) [
            | inl missing ↦ rw (missing.0, Means) (foreign, missing.1)
            | inr (b, newer, older, split, none_newer, known, found) ↦
                rw (found, Means)
                  (elim (Bool-cases (b == newest)) [
                    | inl same ↦
                        absurd (
                          true≢false (sym known ∙ ap history.member (==→≡ b newest same) ∙ foreign))
                    | inr other ↦
                        rw (other, Means)
                          (
                            newest,
                            newer,
                            older,
                            ap (λ (ys : List ℕ). newest ∷ ys) split,
                            (foreign, none_newer),
                            known,
                          )
                  ])
          ])
  ]

  -- The verdict where the tip is in the tail.
  compare_joined :
      (height newest : ℕ) (rest newer older : List ℕ)
      → newest ∷ rest ≡ newer ++ tip history ∷ older
      → contains (tip history) newer ≡ false
      → Means history height
          (newest ∷ rest)
          (compare_tails history height newest (newest ∷ rest) (some (tip history)))
  unfolding compare_tails
  compare_joined height newest rest newer older split fresh =
      elim (Bool-cases (leb (tip_slot history) height)) [
        | inl reached ↦ rw reached (elim (Bool-cases (tip history == newest)) [
          | inl same ↦ rw same (
            rest,
            ap (λ (x : ℕ). x ∷ rest) (sym (==→≡ (tip history) newest same)),
            leb→le _ _ reached,
          )
          | inr other ↦ rw other (
            older,
            split
                ∙ ap (λ (xs : List ℕ). xs ++ tip history ∷ older)
                    (sym (reverse-reverse newer)
                      ∙ ap (λ (xs : List ℕ). reverse (reverse xs))
                          (sym (split_at_tip (tip history) newer older fresh).1
                            ∙ ap (before_common (tip history)) (sym split))),
            contains-reverse (tip history) (before_common (tip history) (newest ∷ rest))
                ∙ ap (λ (xs : List ℕ). contains (tip history) (before_common (tip history) xs))
                    split
                ∙ ap (contains (tip history)) (split_at_tip (tip history) newer older fresh).1
                ∙ fresh,
            leb→le _ _ reached,
          )
        ])
        | inr below ↦ rw below (
          ground (arith, below),
          ap (contains (tip history)) split
              ∙ contains-append (tip history) newer (tip history ∷ older)
              ∙ (unfold contains in ground (arith, fresh)),
        )
      ]

  compare_lists_meaning :
      (height : ℕ) (tail : List ℕ) → Means history height tail (compare_lists history height tail)
  unfolding compare_lists
  compare_lists_meaning height [] = inl (refl, refl)
  compare_lists_meaning height (newest ∷ rest) =
      elim (Bool-cases (ltb (length (newest ∷ rest)) (height - tip_slot history))) [
        | inl far ↦ rw far (ltb→lt _ _ far)
        | inr near ↦ rw near (elim (split_tail (tip history) (newest ∷ rest)) [
          | inl apart ↦ rw apart.0 (compare_apart height newest rest)
          | inr (newer, older, split, fresh) ↦
              rw
                (ap (optimistic_common_point (tip history)) split
                  ∙ (split_at_tip (tip history) newer older fresh).0)
                (compare_joined height newest rest newer older split fresh)
        ])
      ]

  -- What the comparison says of a peer is so. Equal: the peer's newest block is the local tip.
  -- Longer by a suffix: the tail continues the local tip by that suffix, which is given oldest first
  -- and without the tip. Longer: the height is ahead by more than the blocks in the tail. Shorter: the
  -- block is the peer's newest and on the local chain, or the origin for an empty tail. Fork at a
  -- block: it is on the local chain, and all the newer ones of the tail, at least one, are not. Fork:
  -- none of the tail is on the local chain. Nonsense: the tail has the tip, and the height is below.
  pub compare_remote_meaning :
      (peer_status : SyncStatus)
      → Means history peer_status.height peer_status.last_blocks
          (compare_remote history peer_status)
  unfolding compare_remote
  compare_remote_meaning peer_status =
      compare_lists_meaning peer_status.height peer_status.last_blocks
