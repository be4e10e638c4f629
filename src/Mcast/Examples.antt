-- ===== src/Mcast/Examples.antt =====
-- The multicasting of spectrum-mcast/src on three peers, and on statements that are numbers.
use spectrum.Algebra.{both_of, try_from}
use spectrum.Handel.Overlay.{position}
use spectrum.Handel.Partitioning.{range}
use spectrum.Handel.State.{Ops, PeerPartitions}
use spectrum.Mcast.Agreement.{make_agree}
use spectrum.Mcast.Broadcast.{Sends, all_out, conflict_silences, heavier_reaches_children}
use spectrum.Mcast.Heap.{build_links_heap, heap_links}
use spectrum.Mcast.Multicasting.{DagMulticasting, indices, inject_statement, poll_multicasting}
use spectrum.Mcast.Occurrences.{Same}
use spectrum.Mcast.Overlay.{Peer, build_links, build_loop, links_at, make, node_links}
use spectrum.Mcast.Symmetry.{is_child, is_parent}
use spectrum.Prelude.{
  List, Returns, [], arith, contains, if◌then◌else◌, ltb, map, none, panicked, refl, returned, some,
  true, ℕ, ◌+◌, ◌==◌, ◌>>=◌, ◌∷◌, ◌≡◌,
}

abbrev three_peers : List Peer
three_peers = (5, none) ∷ (7, none) ∷ (3, none) ∷ []

build_links_heap_example : build_links 7 three_peers ≡ returned (heap_links three_peers 1)
build_links_heap_example = build_links_heap three_peers 7 1 (omega arith) (unfold position in refl)

-- The tree of the tests: index 5 of 15 has the parent 2 and the children 11 and 12.
abbrev fifteen : List Peer
fifteen = map (λ i. (i, none)) (range 100 15)

fifth_of_fifteen :
    build_links 105 fifteen ≡ returned (node_links 102 (both_of (111, none) (112, none)))
unfolding build_links build_loop links_at try_from range
fifth_of_fifteen = refl

-- A shuffle that does nothing is a permutation.
kept : (rng : ℕ) (peers : List Peer) → Same peers peers
kept rng peers = record { counts = λ pid. refl; size = refl }

make_agree_example :
    Returns
      (λ of_a.
        Returns
          (λ of_b. is_child 7 of_a ≡ true → is_parent 5 of_b ≡ true)
          (make (λ seed. seed) (λ rng peers. (peers, rng)) 2 9 (some 5) 7 three_peers))
      (make (λ seed. seed) (λ rng peers. (peers, rng)) 2 9 (some 5) 5 three_peers)
make_agree_example =
    make_agree (λ seed. seed) (λ rng peers. (peers, rng)) kept 2 9 (some 5) 5 7 three_peers
      (omega arith) refl refl refl

-- Two numbers do not combine if they are equal.
abbrev numbers : Ops ℕ
numbers = record {
  try_combine = λ a b. if a == b then none else some (a + b);
  weight = λ a. a;
  verify = λ a. ltb a 100;
}

abbrev any_index : PeerPartitions
any_index = record {
  at_level = λ level ord. panicked;
  identify = λ pix. panicked;
  try_index = λ pid. some pid;
  hint = λ pid. none;
  count = 0;
}

abbrev node : DagMulticasting ℕ
node = record {
  statement = some 4;
  overlay = record { parent_nodes = 1 ∷ []; child_nodes = (8, none) ∷ [] };
  contacted_peers = 8 ∷ [];
  outbox = [];
  creation_time = 0;
  processing_delay = 2;
  next_processing = some 10;
  multicasting_duration = 50;
}

heavier_reaches_children_example :
    Returns
      (λ after. Sends 8 6 (all_out (poll_multicasting 12 after)))
      (inject_statement numbers any_index 1 2 node)
heavier_reaches_children_example =
    heavier_reaches_children numbers any_index 1 2 4 6 12 8 (8 ∷ []) node
      (unfold contains in (refl, refl)) refl refl (omega arith) (unfold indices in refl)
      (refl, refl) (unfold contains in refl)

conflict_silences_example :
    Returns
      (λ after. (after.statement ≡ some 9) × (all_out (poll_multicasting 12 after) ≡ []))
      (inject_statement numbers any_index 1 4 node >>= inject_statement numbers any_index 1 9)
conflict_silences_example =
    conflict_silences numbers any_index 1 1 4 9 4 12 node (unfold contains in (refl, refl))
      (unfold contains in (refl, refl)) refl refl (unfold contains in (refl, tt)) (refl, refl)
