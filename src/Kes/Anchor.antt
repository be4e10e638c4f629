-- ===== src/Kes/Anchor.antt =====
-- The branch that the next slot opens, in the tree of keys of spectrum-kes/src.
use native.Mathlib.Nat.{one-le-pow, pow-suc}
use spectrum.Kes.Bits.{trail, trail_high, trail_last}
use spectrum.Kes.Tree.{
  Scalars, TreeFits, leaf, leaf_high, leaf_low, left, length-pairs_at, pairs_at, pairs_at_high,
  pairs_at_low, pk_at, right, seeds_at, seeds_at_high, seeds_at_low,
}
use spectrum.Kes.Utils.{Crypto}
use spectrum.Prelude.{
  Bool-cases, List, [], ap, arith, false, inl, inr, length, ltb, ltb→lt, lt→ltb, refl, suc, sym,
  true, zero, ℕ, ◌++◌, ◌+◌, ◌-◌, ◌<◌, ◌^◌, ◌∙◌, ◌∷◌, ◌≡◌, ◌≤◌,
}

module _ {Digest SecretKey Scalar PublicKey Signature : Type 0}
    (c : Crypto Digest SecretKey Scalar PublicKey Signature) (k : Scalars c) where
  -- The branch that the next slot opens: its seed is the last one kept, and its height one less than
  -- the number of anchors.
  pub record Anchor (h : ℕ) (seed : Digest) (n : ℕ) : Type 0 where
    pub level : ℕ
    pub target : Digest
    pub above : List Digest
    pub front : List (PublicKey × PublicKey)
    pub beside : PublicKey
    pub below : List (PublicKey × PublicKey)
    pub anchors : trail 64 n ≡ level + 1
    pub seeds_now : seeds_at c k h seed n ≡ above ++ target ∷ []
    pub pairs_now : pairs_at c k h seed n ≡ front ++ (beside, pk_at c k level target) ∷ below
    pub length_front : length front + (level + 1) ≡ h
    pub length_below : length below ≡ level
    pub seeds_next : seeds_at c k h seed (n + 1) ≡ above ++ seeds_at c k level target 0
    pub pairs_next :
        pairs_at c k h seed (n + 1)
        ≡ front ++ (beside, pk_at c k level target) ∷ pairs_at c k level target 0
    pub leaf_next : leaf c k h seed (n + 1) ≡ leaf c k level target 0
    pub covers : TreeFits c k h seed → TreeFits c k level target

  pub seeds_last : (h : ℕ) (seed : Digest) → seeds_at c k h seed (2 ^ h - 1) ≡ []
  seeds_last zero seed = unfold seeds_at in refl
  seeds_last (suc h) seed =
      let side : ltb (2 ^ suc h - 1) (2 ^ h) ≡ false =
        ground (arith, pow-suc 2 h, one-le-pow h 2) in
      let rest : 2 ^ suc h - 1 - 2 ^ h ≡ 2 ^ h - 1 = omega (arith, pow-suc 2 h) in
      seeds_at_high c k h seed (2 ^ suc h - 1) side
      ∙ ap (seeds_at c k h (right c k seed)) rest
      ∙ seeds_last h (right c k seed)

  pub length-seeds_at : (h : ℕ) (seed : Digest) (n : ℕ) → length (seeds_at c k h seed n) ≤ h
  length-seeds_at zero seed n = unfold seeds_at in omega arith
  length-seeds_at (suc h) seed n = elim (Bool-cases (ltb n (2 ^ h))) [
    | inl low ↦
        rw (seeds_at_low c k h seed n low) (omega (arith, length-seeds_at h (left c k seed) n))
    | inr high ↦
        rw (seeds_at_high c k h seed n high)
          (omega (arith, length-seeds_at h (right c k seed) (n - 2 ^ h)))
  ]

  -- The next slot lies in the same half.
  Anchor-low :
      (h : ℕ) (seed : Digest) (n : ℕ)
      → n + 1 < 2 ^ h
      → Anchor h (left c k seed) n
      → Anchor (suc h) seed n
  Anchor-low h seed n small a =
      let now : ltb n (2 ^ h) ≡ true = lt→ltb _ _ (omega arith) in
      let then_low : ltb (n + 1) (2 ^ h) ≡ true = lt→ltb _ _ small in
      let pair : PublicKey × PublicKey =
        (pk_at c k h (left c k seed), pk_at c k h (right c k seed)) in
      record {
        level = a.level;
        target = a.target;
        above = right c k seed ∷ a.above;
        front = pair ∷ a.front;
        beside = a.beside;
        below = a.below;
        anchors = a.anchors;
        seeds_now = seeds_at_low c k h seed n now ∙ ap (λ s. right c k seed ∷ s) a.seeds_now;
        pairs_now = pairs_at_low c k h seed n now ∙ ap (λ s. pair ∷ s) a.pairs_now;
        length_front = omega (arith, a.length_front);
        length_below = a.length_below;
        seeds_next =
            seeds_at_low c k h seed (n + 1) then_low ∙ ap (λ s. right c k seed ∷ s) a.seeds_next;
        pairs_next = pairs_at_low c k h seed (n + 1) then_low ∙ ap (λ s. pair ∷ s) a.pairs_next;
        leaf_next = leaf_low c k h seed (n + 1) then_low ∙ a.leaf_next;
        covers = λ g. a.covers g.0;
      }

  Anchor-high :
      (h : ℕ) (seed : Digest) (n : ℕ)
      → 2 ^ h ≤ n
      → n + 1 < 2 ^ suc h
      → Anchor h (right c k seed) (n - 2 ^ h)
      → Anchor (suc h) seed n
  Anchor-high h seed n big small a =
      let now : ltb n (2 ^ h) ≡ false = ground arith in
      let then_high : ltb (n + 1) (2 ^ h) ≡ false = ground arith in
      let pair : PublicKey × PublicKey =
        (pk_at c k h (left c k seed), pk_at c k h (right c k seed)) in
      let moved : n + 1 - 2 ^ h ≡ n - 2 ^ h + 1 = omega arith in
      let back : 2 ^ h + (n - 2 ^ h) ≡ n = omega arith in
      record {
        level = a.level;
        target = a.target;
        above = a.above;
        front = pair ∷ a.front;
        beside = a.beside;
        below = a.below;
        anchors =
            ap (trail 64) (sym back)
            ∙ trail_high h 64 (n - 2 ^ h) (omega (arith, pow-suc 2 h))
            ∙ a.anchors;
        seeds_now = seeds_at_high c k h seed n now ∙ a.seeds_now;
        pairs_now = pairs_at_high c k h seed n now ∙ ap (λ s. pair ∷ s) a.pairs_now;
        length_front = omega (arith, a.length_front);
        length_below = a.length_below;
        seeds_next =
            seeds_at_high c k h seed (n + 1) then_high
            ∙ ap (seeds_at c k h (right c k seed)) moved
            ∙ a.seeds_next;
        pairs_next =
            pairs_at_high c k h seed (n + 1) then_high
            ∙ ap (λ m. pair ∷ pairs_at c k h (right c k seed) m) moved
            ∙ ap (λ s. pair ∷ s) a.pairs_next;
        leaf_next =
            leaf_high c k h seed (n + 1) then_high
            ∙ ap (leaf c k h (right c k seed)) moved
            ∙ a.leaf_next;
        covers = λ g. a.covers g.1;
      }

  -- The next slot is the first of the right half.
  Anchor-crossing : (h : ℕ) (seed : Digest) (n : ℕ) → h < 64 → n + 1 ≡ 2 ^ h → Anchor (suc h) seed n
  Anchor-crossing h seed n fits crossing =
      let now : ltb n (2 ^ h) ≡ true = lt→ltb _ _ (omega arith) in
      let then_high : ltb (n + 1) (2 ^ h) ≡ false = ground arith in
      let moved : n + 1 - 2 ^ h ≡ 0 = omega arith in
      let last : n ≡ 2 ^ h - 1 = omega arith in
      let pair : PublicKey × PublicKey =
        (pk_at c k h (left c k seed), pk_at c k h (right c k seed)) in
      record {
        level = h;
        target = right c k seed;
        above = [];
        front = [];
        beside = pk_at c k h (left c k seed);
        below = pairs_at c k h (left c k seed) n;
        anchors = ap (trail 64) last ∙ trail_last h 64 fits;
        seeds_now =
            seeds_at_low c k h seed n now
            ∙ ap (λ m. right c k seed ∷ seeds_at c k h (left c k seed) m) last
            ∙ ap (λ s. right c k seed ∷ s) (seeds_last h (left c k seed));
        pairs_now = pairs_at_low c k h seed n now;
        length_front = omega arith;
        length_below = length-pairs_at c k h (left c k seed) n;
        seeds_next =
            seeds_at_high c k h seed (n + 1) then_high ∙ ap (seeds_at c k h (right c k seed)) moved;
        pairs_next =
            pairs_at_high c k h seed (n + 1) then_high
            ∙ ap (λ m. pair ∷ pairs_at c k h (right c k seed) m) moved;
        leaf_next = leaf_high c k h seed (n + 1) then_high ∙ ap (leaf c k h (right c k seed)) moved;
        covers = λ g. g.1;
      }

  pub anchor : (h : ℕ) (seed : Digest) (n : ℕ) → h < 64 → n + 1 < 2 ^ h → Anchor h seed n
  anchor zero seed n fits small = absurd (omega (arith, small))
  anchor (suc h) seed n fits small = elim (Bool-cases (ltb (n + 1) (2 ^ h))) [
    | inl low ↦
        let below : n + 1 < 2 ^ h = ltb→lt _ _ low in
        Anchor-low h seed n below (anchor h (left c k seed) n (omega arith) below)
    | inr high ↦ elim (Bool-cases (ltb n (2 ^ h))) [
      | inl low ↦ Anchor-crossing h seed n (omega arith) (ground arith)
      | inr beyond ↦
          let big : 2 ^ h ≤ n = ground arith in
          Anchor-high h seed n big small
            (anchor h (right c k seed) (n - 2 ^ h) (omega arith) (omega (arith, pow-suc 2 h)))
    ]
  ]
