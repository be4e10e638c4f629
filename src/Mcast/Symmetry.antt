-- ===== src/Mcast/Symmetry.antt =====
-- The overlays that the nodes make by spectrum-mcast/src/overlay.rs agree with one another.
use mathlib.Core.List.{map-append}
use spectrum.Algebra.{collect, try_from}
use spectrum.Handel.Overlay.{position}
use spectrum.Kes.Tree.{left, right}
use spectrum.Mcast.Heap.{heap_links}
use spectrum.Mcast.Occurrences.{occurrences, position_once}
use spectrum.Mcast.Overlay.{
  DagOverlay, Links, Peer, add_links, ids, leaf_links, node_links, push_some, root_links,
}
use spectrum.PeerManager.Data.{PeerId}
use spectrum.Prelude.{
  contains-append, ==_iff, ==_refl, Bool, Bool-cases, List, Option, Option-cases, [], ap,
  append-nil, append_assoc, arith, contains, contains-add, false, get_elem?, inl, inr, none, refl,
  some, suc, sym, true, zero, ℕ, ◌*◌, ◌++◌, ◌+◌, ◌/◌, ◌==◌, ◌||◌, ◌∙◌, ◌∷◌, ◌≡◌, ◌≤◌, ◌⊎◌,
}

-- The children and the parents of a node's links.
abbrev pub link_children : Links → List Peer
link_children (root_links left right) = push_some right (push_some left [])
link_children (node_links parent children) = collect children
link_children (leaf_links parent) = []

abbrev pub link_parents : Links → List PeerId
link_parents (root_links left right) = []
link_parents (node_links parent children) = parent ∷ []
link_parents (leaf_links parent) = parent ∷ []

-- A message of a node goes to its children, and is taken from its parents.
abbrev pub is_child : PeerId → DagOverlay → Bool
is_child pid overlay = contains pid (ids overlay.child_nodes)

abbrev pub is_parent : PeerId → DagOverlay → Bool
is_parent pid overlay = contains pid overlay.parent_nodes

is_child-append :
    (pid : PeerId) (xs ys : List Peer)
    → contains pid (ids (xs ++ ys)) ≡ (contains pid (ids xs) || contains pid (ids ys))
is_child-append pid xs ys =
    rw (map-append (λ (p : Peer). p.0) xs ys) (contains-append pid (ids xs) (ids ys))

or_false : (b : Bool) → b ≡ (b || contains 0 [])
unfolding contains
or_false true = refl
or_false false = refl

push_some-append :
    (x y : Option Peer) (xs : List Peer)
    → push_some y (push_some x xs) ≡ xs ++ push_some y (push_some x [])
push_some-append none none xs = sym (append-nil xs)
push_some-append none (some b) xs = refl
push_some-append (some a) none xs = refl
push_some-append (some a) (some b) xs = append_assoc xs (a ∷ []) (b ∷ [])

pub is_child-add_links :
    (pid : PeerId) (links : Links) (acc : DagOverlay)
    → is_child pid (add_links links acc)
      ≡ (is_child pid acc || contains pid (ids (link_children links)))
unfolding add_links contains
is_child-add_links pid (root_links left right) acc =
    rw (push_some-append left right acc.child_nodes)
      (is_child-append pid acc.child_nodes (push_some right (push_some left [])))
is_child-add_links pid (node_links parent children) acc =
    is_child-append pid acc.child_nodes (collect children)
is_child-add_links pid (leaf_links parent) acc = or_false (is_child pid acc)

pub is_parent-add_links :
    (pid : PeerId) (links : Links) (acc : DagOverlay)
    → is_parent pid (add_links links acc) ≡ (contains pid (link_parents links) || is_parent pid acc)
unfolding add_links contains
is_parent-add_links pid (root_links left right) acc = refl
is_parent-add_links pid (node_links parent children) acc =
    ground (arith, contains-add parent pid acc.parent_nodes)
is_parent-add_links pid (leaf_links parent) acc =
    ground (arith, contains-add parent pid acc.parent_nodes)

get_elem?-within {ℓ} :
    {A : Type ℓ} (xs : List A) (i j : ℕ) (x : A)
    → get_elem? xs j ≡ some x
    → i ≤ j
    → (y : A) × (get_elem? xs i ≡ some y)
get_elem?-within [] i j x found le = cc
get_elem?-within (y ∷ xs) zero j x found le = (y, refl)
get_elem?-within (y ∷ xs) (suc i) zero x found le = elim le [ ]
get_elem?-within (y ∷ xs) (suc i) (suc j) x found le = get_elem?-within xs i j x found (omega arith)

heap_children :
    (peers : List Peer) (i : ℕ) (p : Peer)
    → get_elem? peers i ≡ some p
    → link_children (heap_links peers i)
      ≡ push_some (get_elem? peers (2 * i + 2)) (push_some (get_elem? peers (2 * i + 1)) [])
unfolding heap_links try_from collect
heap_children peers zero p found = refl
heap_children peers (suc i) p found =
    let parent = get_elem?-within peers (i / 2) (suc i) p found (omega arith) in
    rw (parent.1, heap_links)
      (go parent.0.0 (get_elem? peers (2 * suc i + 1)) (get_elem? peers (2 * suc i + 2)))
  where
    go :
        (parent : PeerId) (x y : Option Peer)
        → link_children (elim (try_from x y) [
          | some children ↦ node_links parent children
          | none ↦ leaf_links parent
        ])
          ≡ push_some y (push_some x [])
    go parent none none = refl
    go parent none (some b) = refl
    go parent (some a) none = refl
    go parent (some a) (some b) = refl

heap_parent :
    (peers : List Peer) (i j : ℕ) (p : Peer)
    → get_elem? peers i ≡ some p
    → (j ≡ 2 * i + 1) ⊎ (j ≡ 2 * i + 2)
    → contains p.0 (link_parents (heap_links peers j)) ≡ true
unfolding contains heap_links
heap_parent peers i zero p found child = absurd (omega (arith, child))
heap_parent peers i (suc j) p found child =
    let half : j / 2 ≡ i = omega (arith, child) in
    rw (half, heap_links)
      (rw found (go (get_elem? peers (2 * suc j + 1)) (get_elem? peers (2 * suc j + 2))))
  where
    go :
        (x y : Option Peer)
        → contains p.0 (
            link_parents (elim (try_from x y) [
              | some children ↦ node_links p.0 children
              | none ↦ leaf_links p.0
            ]))
          ≡ true
    go x y = elim (Option-cases (try_from x y)) [
      | inl neither ↦ rw neither (rw (==_refl p.0) refl)
      | inr children ↦ rw children.1 (rw (==_refl p.0) refl)
    ]

-- Who is among two optional children.
among :
    (pid : PeerId) (x y : Option Peer)
    → contains pid (ids (push_some y (push_some x []))) ≡ true
    → (p : Peer) × ((x ≡ some p) ⊎ (y ≡ some p)) × ((p.0 == pid) ≡ true)
unfolding contains
among pid none none found = cc
among pid (some a) none found = (a, inl refl, ground arith)
among pid none (some b) found = (b, inr refl, ground arith)
among pid (some a) (some b) found = elim (Bool-cases (a.0 == pid)) [
  | inl first ↦ (a, inl refl, first)
  | inr other ↦ (b, inr refl, ground arith)
]

-- The links of two nodes in one list.
pub links_agree :
    (peers : List Peer) (a b : PeerId) (i j : ℕ) (p : Peer)
    → get_elem? peers i ≡ some p
    → (p.0 == a) ≡ true
    → occurrences b peers ≡ 1
    → position b (ids peers) ≡ some j
    → contains b (ids (link_children (heap_links peers i))) ≡ true
    → contains a (link_parents (heap_links peers j)) ≡ true
links_agree peers a b i j p found is_a once at_j child =
    let listed : contains b (
          ids
            (push_some (get_elem? peers (2 * i + 2)) (push_some (get_elem? peers (2 * i + 1)) [])))
        ≡ true =
      ap (λ (l : List Peer). contains b (ids l)) (sym (heap_children peers i p found)) ∙ child in
    let q = among b (get_elem? peers (2 * i + 1)) (get_elem? peers (2 * i + 2)) listed in
    let same_a : p.0 ≡ a = (==_iff p.0 a).0 is_a in
    rw (← same_a) (
      heap_parent peers i j p found (elim q.1 [
        | inl first ↦
            let at : position b (ids peers) ≡ some (2 * i + 1) =
              position_once b peers (2 * i + 1) q.0 once first q.2 in
            inl (cc)
        | inr second ↦
            let at : position b (ids peers) ≡ some (2 * i + 2) =
              position_once b peers (2 * i + 2) q.0 once second q.2 in
            inr (cc)
      ]))
