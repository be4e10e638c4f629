-- ===== src/Mcast/Agreement.antt =====
-- `make` of spectrum-mcast/src/overlay.rs at two nodes.
use spectrum.Handel.Overlay.{position, sort_by_key}
use spectrum.Mcast.Heap.{build_links_heap, heap_links}
use spectrum.Mcast.Occurrences.{
  Same, occurrences, position_once, position_some, remove_at-Same, sort_by_key-Same,
}
use spectrum.Mcast.Overlay.{DagOverlay, Peer, add_links, ids, make, passes, remove_at, root_first}
use spectrum.Mcast.Symmetry.{
  is_child, is_child-add_links, is_parent, is_parent-add_links, links_agree,
}
use spectrum.PeerManager.Data.{PeerId}
use spectrum.Prelude.{
  List, Option, Returns, [], arith, contains, length, none, refl, returned, some, suc, true, zero,
  ℕ, ◌<◌, ◌^◌, ◌∙◌, ◌∷◌, ◌≡◌,
}

module _ {Rng : Type 0} (seed_from : ℕ → Rng) (shuffle : Rng → List Peer → List Peer × Rng)
    (shuffle-Same : (rng : Rng) (peers : List Peer) → Same peers (shuffle rng peers).0) where
  abbrev pub Agree : PeerId → PeerId → DagOverlay → DagOverlay → Type 0
  Agree a b of_a of_b = is_child b of_a ≡ true → is_parent a of_b ≡ true

  passes-Agree :
      (n : ℕ) (a b : PeerId) (peers : List Peer) (rng : Rng) (of_a of_b : DagOverlay)
      → length peers < 2 ^ 62
      → occurrences a peers ≡ 1
      → occurrences b peers ≡ 1
      → Agree a b of_a of_b
      → Returns
          (λ oa. Returns (λ ob. Agree a b oa ob) (passes seed_from shuffle n b peers rng of_b))
          (passes seed_from shuffle n a peers rng of_a)
  unfolding passes
  passes-Agree zero a b peers rng of_a of_b fits once_a once_b agree = agree
  passes-Agree (suc n) a b peers rng of_a of_b fits once_a once_b agree =
      let at_a = position_some a peers once_a in
      let at_b = position_some b peers once_b in
      let found_b : position b (ids peers) ≡ some at_b.0 =
        position_once b peers at_b.0 at_b.1 once_b at_b.2 at_b.3 in
      let kept = shuffle-Same rng peers in
      rw
        (build_links_heap peers a at_a.0 fits
          (position_once a peers at_a.0 at_a.1 once_a at_a.2 at_a.3))
        (rw (build_links_heap peers b at_b.0 fits found_b) (
          passes-Agree n a b (shuffle rng peers).0 (shuffle rng peers).1
            (add_links (heap_links peers at_a.0) of_a) (add_links (heap_links peers at_b.0) of_b)
            (omega (arith, kept.size)) (kept.counts a ∙ once_a) (kept.counts b ∙ once_b)
            (λ child. ground (
              arith,
              is_child-add_links b (heap_links peers at_a.0) of_a,
              is_parent-add_links a (heap_links peers at_b.0) of_b,
              links_agree peers a b at_a.0 at_b.0 at_a.1 at_a.2 at_a.3 once_b found_b,
              agree,
              child,
            ))))

  -- The root, if one is given, is a peer.
  abbrev pub RootListed : Option PeerId → List Peer → Type 0
  RootListed none peers = Unit {0}
  RootListed (some root) peers = occurrences root peers ≡ 1

  listed_in :
      (fixed_root_peer : Option PeerId) (peers changed : List Peer)
      → Same peers changed
      → RootListed fixed_root_peer peers
      → RootListed fixed_root_peer changed
  listed_in none peers changed kept listed = tt
  listed_in (some root) peers changed kept listed = kept.counts root ∙ listed

  root_first-Same :
      (fixed_root_peer : Option PeerId) (peers : List Peer)
      → RootListed fixed_root_peer peers
      → (changed : List Peer) × (root_first fixed_root_peer peers ≡ returned changed)
        × Same peers changed
  unfolding root_first
  root_first-Same none peers listed = (peers, refl, record { counts = λ pid. refl; size = refl })
  root_first-Same (some root) peers listed =
      let found = position_some root peers listed in
      let at : position root (ids peers) ≡ some found.0 =
        position_once root peers found.0 found.1 listed found.2 found.3 in
      (
        found.1 ∷ remove_at found.0 peers,
        rw at (rw found.2 refl),
        remove_at-Same found.0 peers found.1 found.2,
      )

  -- Where the shuffles only permute the peers, the list is shorter than 2 ^ 62, two nodes and the
  -- fixed root, if there is one, occur in it once, and all nodes make their overlays with one list,
  -- one root, one seed and one factor: `make` returns for both nodes, and when the second is among
  -- the children of the first, to which that one sends, the first is among the parents of the
  -- second, from which that one takes messages.
  pub make_agree :
      (redundancy_factor seed : ℕ) (fixed_root_peer : Option PeerId) (a b : PeerId)
      (peers : List Peer)
      → length peers < 2 ^ 62
      → occurrences a peers ≡ 1
      → occurrences b peers ≡ 1
      → RootListed fixed_root_peer peers
      → Returns
          (λ of_a.
            Returns
              (λ of_b. is_child b of_a ≡ true → is_parent a of_b ≡ true)
              (make seed_from shuffle redundancy_factor seed fixed_root_peer b peers))
          (make seed_from shuffle redundancy_factor seed fixed_root_peer a peers)
  unfolding make
  make_agree redundancy_factor seed fixed_root_peer a b peers fits once_a once_b listed =
      let sorted = sort_by_key (λ (p : Peer). p.0) peers in
      let kept : Same peers sorted = sort_by_key-Same (λ p. p.0) peers in
      let rooted =
        root_first-Same fixed_root_peer sorted
          (listed_in fixed_root_peer peers sorted kept listed) in
      rw rooted.1 (
        passes-Agree redundancy_factor a b rooted.0 (seed_from seed)
          (record { parent_nodes = []; child_nodes = [] })
          (record { parent_nodes = []; child_nodes = [] }) (omega (arith, kept.size, rooted.2.size))
          (rooted.2.counts a ∙ kept.counts a ∙ once_a) (rooted.2.counts b ∙ kept.counts b ∙ once_b)
          (λ none_yet. unfold contains in cc none_yet))
