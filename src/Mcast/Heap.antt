-- ===== src/Mcast/Heap.antt =====
-- The tree that `build_links` of spectrum-mcast/src/overlay.rs walks: a binary heap of the indices.
use native.Mathlib.Nat.{pow-suc}
use spectrum.Algebra.{try_from}
use spectrum.Handel.Overlay.{position}
use spectrum.Mcast.Overlay.{
  Links, Peer, build_links, build_loop, ids, leaf_links, links_at, node_links, root_links,
}
use spectrum.PeerManager.Data.{PeerId}
use spectrum.Prelude.{
  Bool-cases, List, Option-cases, [], ap, append_assoc, arith, false, get_elem?,
  get_elem?-append_length, if◌then◌else◌, inl, inr, leb, leb→le, length, length-append, none, refl,
  returned, some, suc, sym, usize, zero, ℕ, ◌*◌, ◌++◌, ◌+◌, ◌-◌, ◌/◌, ◌<◌, ◌==◌, ◌^◌, ◌∙◌, ◌∷◌, ◌≡◌,
  ◌≤◌,
}

-- The links of the node at an index: its parent is at `(index - 1) / 2`, its children are at
-- `2 * index + 1` and `2 * index + 2`.
unfoldable pub heap_links : List Peer → ℕ → Links
heap_links peers zero = root_links (get_elem? peers 1) (get_elem? peers 2)
heap_links peers (suc i) = elim (get_elem? peers (i / 2)) [
  | none ↦ root_links (get_elem? peers 1) (get_elem? peers 2)
  | some parent ↦
      elim (try_from (get_elem? peers (2 * suc i + 1)) (get_elem? peers (2 * suc i + 2))) [
        | some children ↦ node_links parent.0 children
        | none ↦ leaf_links parent.0
      ]
]

-- The variables of the loop at an index: the bounds of its level, and the lower one of the level
-- above.
record Tracks (lower upper prev level ix : ℕ) : Type 0 where
  power : lower + 1 ≡ 2 ^ level
  width : upper ≡ 2 * lower + 1
  above : prev ≡ lower / 2
  from : lower ≤ ix
  to : ix ≤ upper

module _ (peers : List Peer) (fits : length peers < 2 ^ 62) where
  links_at_root :
      (upper prev : ℕ) (p : Peer)
      → Tracks 0 upper prev 0 0
      → get_elem? peers 0 ≡ some p
      → links_at peers 0 upper prev 0 ≡ heap_links peers 0
  unfolding links_at heap_links
  links_at_root upper prev p t found =
      let parent_ix : prev + (0 - 0) / 2 ≡ 0 = omega (arith, t.above) in
      rw (parent_ix, links_at) (rw found (rw parent_ix refl))

  links_at_below :
      (lower upper prev level i : ℕ)
      → Tracks lower upper prev level (suc i)
      → suc i < upper
      → suc i < length peers
      → links_at peers lower upper prev (suc i) ≡ heap_links peers (suc i)
  unfolding links_at heap_links
  links_at_below lower upper prev zero i t inside within = absurd (omega (arith, t.power, t.width))
  links_at_below lower upper prev (suc level) i t inside within =
      let parent_ix : prev + (suc i - lower) / 2 ≡ i / 2 =
        omega (arith, t.power, t.above, t.from, pow-suc 2 level) in
      let left_ix : usize (2 * (suc i - lower) + upper) ≡ 2 * suc i + 1 =
        omega (arith, t.width, t.from, t.to) in
      let right_ix : usize (2 * suc i + 1 + 1) ≡ 2 * suc i + 2 = omega arith in
      let below : (i / 2 == suc i) ≡ false = ground arith in
      rw (parent_ix, links_at)
        (elim (Option-cases (get_elem? peers (i / 2))) [
          | inl missing ↦ rw (missing, heap_links) refl
          | inr parent ↦
              rw (parent.1, heap_links)
                (rw parent_ix (rw below (rw (left_ix, try_from) (rw (right_ix, try_from) refl))))
        ])

  links_at_lem :
      (lower upper prev level ix : ℕ) (p : Peer)
      → Tracks lower upper prev level ix
      → ix < upper
      → ix < length peers
      → get_elem? peers ix ≡ some p
      → links_at peers lower upper prev ix ≡ heap_links peers ix
  links_at_lem zero upper prev zero zero p t inside within found =
      links_at_root upper prev p t found
  links_at_lem (suc lower) upper prev zero zero p t inside within found =
      absurd (omega (arith, t.from))
  links_at_lem lower upper prev (suc level) zero p t inside within found =
      absurd (omega (arith, t.from, t.power, pow-suc 2 level))
  links_at_lem lower upper prev level (suc i) p t inside within found =
      links_at_below lower upper prev level i t inside within

  -- One step of the loop keeps the bounds.
  Tracks-at_level :
      (lower upper prev level ix : ℕ)
      → Tracks lower upper prev level ix
      → ix < length peers
      → let crossed = leb upper ix in
        let up =
          if crossed
          then usize (upper + usize (2 ^ (if crossed then level + 1 else level)))
          else upper in
        Tracks
          (if crossed then upper else lower)
          up
          (if crossed then lower else prev)
          (if crossed then level + 1 else level)
          ix
        × (ix < up)
  Tracks-at_level lower upper prev level ix t within =
      let doubled : 2 ^ (level + 1) ≡ 2 ^ level * 2 =
        ap (λ (e : ℕ). 2 ^ e) (omega arith) ∙ pow-suc 2 level in
      elim (Bool-cases (leb upper ix)) [
        | inl crossed ↦
            let reached : upper ≤ ix = leb→le _ _ crossed in
            let up : usize (upper + usize (2 ^ (level + 1))) ≡ 2 * upper + 1 =
              omega (arith, doubled, t.power, t.width) in
            rw crossed (
              rw up (
                record {
                  power = omega (arith, doubled, t.power, t.width);
                  width = refl;
                  above = omega (arith, t.width);
                  from = reached;
                  to = omega (arith, t.to);
                },
                omega (arith, t.to),
              ))
        | inr inside ↦ rw inside (t, ground arith)
      ]

  Tracks-onwards :
      (lower upper prev level ix ix' : ℕ)
      → ix + 1 ≡ ix'
      → Tracks lower upper prev level ix × (ix < upper)
      → Tracks lower upper prev level ix'
  Tracks-onwards lower upper prev level ix ix' moved t = record {
    power = t.0.power;
    width = t.0.width;
    above = t.0.above;
    from = omega (arith, t.0.from);
    to = omega (arith, t.1);
  }

  build_loop_lem :
      (after before : List Peer) (host : PeerId) (rounds d lower upper prev level : ℕ)
      → peers ≡ before ++ after
      → length after < rounds
      → position host (ids after) ≡ some d
      → Tracks lower upper prev level (length before)
      → build_loop rounds host peers lower upper prev level (length before)
        ≡ returned (heap_links peers (length before + d))
  unfolding position build_loop
  build_loop_lem after before host zero d lower upper prev level split enough found t =
      elim enough [ ]
  build_loop_lem [] before host (suc rounds) d lower upper prev level split enough found t = cc
  build_loop_lem (p ∷ after) before host (suc rounds) d lower upper prev level split enough found
        t =
      let here_is : get_elem? peers (length before) ≡ some p =
        rw split (get_elem?-append_length before p after) in
      let within : length before < length peers =
        rw split (omega (arith, length-append before (p ∷ after))) in
      let inside = Tracks-at_level lower upper prev level (length before) t within in
      let ix_next : length before + 1 ≡ length (before ++ p ∷ []) =
        omega (arith, length-append before (p ∷ [])) in
      elim (Bool-cases (p.0 == host)) [
        | inl host_found ↦
            let at_once : d ≡ 0 = ground (arith, found) in
            let same : length before + d ≡ length before = omega arith in
            rw (here_is, build_loop)
              (rw host_found (
                rw same (
                  ap returned
                    (links_at_lem _ _ _ _ (length before) p inside.0 inside.1 within here_is))))
        | inr other ↦ elim (Option-cases (position host (ids after))) [
          | inl missing ↦ ground (arith, found)
          | inr later ↦
              let more : d ≡ suc later.0 = ground (arith, found, later.1) in
              let same : length before + d ≡ length (before ++ p ∷ []) + later.0 = omega arith in
              let moved : peers ≡ (before ++ p ∷ []) ++ after =
                split ∙ sym (append_assoc before (p ∷ []) after) in
              rw (here_is, build_loop)
                (rw other (
                  rw same (
                    rw ix_next (
                      build_loop_lem after (before ++ p ∷ []) host rounds later.0 _ _ _ _ moved
                        (omega arith) later.1
                        (Tracks-onwards _ _ _ _ (length before) _ ix_next inside)))))
        ]
      ]

-- Where the list is shorter than 2 ^ 62, the walk of `build_links` finds for the host at its first
-- place in the list the links of a binary heap: the parent at half the place before it, the children
-- at twice its place plus one and plus two where the list has them, and for the first place those of
-- the root.
pub build_links_heap :
    (peers : List Peer) (host : PeerId) (ix : ℕ)
    → length peers < 2 ^ 62
    → position host (ids peers) ≡ some ix
    → build_links host peers ≡ returned (heap_links peers ix)
unfolding build_links
build_links_heap peers host ix fits found =
    let from_start : 0 + ix ≡ ix = omega arith in
    build_loop_lem peers fits peers [] host (suc (length peers)) ix 0 1 0 0 refl (omega arith) found
      (record { power = refl; width = refl; above = refl; from = omega arith; to = omega arith })
    ∙ ap (λ i. returned (heap_links peers i)) from_start
