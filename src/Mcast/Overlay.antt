-- ===== src/Mcast/Overlay.antt =====
-- The overlay of spectrum-mcast/src/overlay.rs. The random generator is a parameter: its state, and
-- `shuffle`.
use spectrum.Algebra.{EitherOrBoth, collect, try_from}
use spectrum.Handel.Overlay.{position, sort_by_key}
use spectrum.Kes.Tree.{left, right}
use spectrum.PeerManager.Data.{Multiaddr, PeerId}
use spectrum.PeerManager.Handles.{peer}
use spectrum.Prelude.{
  List, Option, Outcome, [], add, get_elem?, if◌then◌else◌, leb, length, map, none, panicked,
  returned, some, suc, unwrap, usize, zero, ℕ, ◌*◌, ◌++◌, ◌+◌, ◌-◌, ◌/◌, ◌==◌, ◌>>=◌, ◌^◌, ◌∷◌,
}

abbrev pub Peer : Type 0
Peer = PeerId × Option Multiaddr

pub record DagOverlay : Type 0 where
  pub parent_nodes : List PeerId
  pub child_nodes : List Peer

pub data Links : Type 0 where
  root_links : Option Peer → Option Peer → Links
  node_links : PeerId → EitherOrBoth Peer Peer → Links
  leaf_links : PeerId → Links

-- What `build_links` returns at the host's index `ix`, in the part of the indices from `lower` to
-- `upper`.
unfoldable pub links_at : List Peer → ℕ → ℕ → ℕ → ℕ → Links
unfolding try_from
links_at peers lower upper prev_pt_lower ix =
    let ix_in_pt = ix - lower in
    let parent_ix = prev_pt_lower + ix_in_pt / 2 in
    let left_child_ix = usize (2 * ix_in_pt + upper) in
    let root = root_links (get_elem? peers 1) (get_elem? peers 2) in
    elim (get_elem? peers parent_ix) [
      | none ↦ root
      | some parent ↦
          if parent_ix == ix
          then root
          else elim (try_from (get_elem? peers left_child_ix)
              (get_elem? peers (usize (left_child_ix + 1)))) [
                | some children ↦ node_links parent.0 children
                | none ↦ leaf_links parent.0
              ]
    ]

-- The loop of `build_links`, with a bound on the rounds.
unfoldable pub build_loop : ℕ → PeerId → List Peer → ℕ → ℕ → ℕ → ℕ → ℕ → Outcome Links
build_loop zero host_peer peers lower upper prev_pt_lower cur_pt_ix cur_ix = panicked
build_loop (suc rounds) host_peer peers lower upper prev_pt_lower cur_pt_ix cur_ix =
    let crossed = leb upper cur_ix in
    let pt_ix = if crossed then cur_pt_ix + 1 else cur_pt_ix in
    let prev = if crossed then lower else prev_pt_lower in
    let low = if crossed then upper else lower in
    let up = if crossed then usize (upper + usize (2 ^ pt_ix)) else upper in
    let rest = build_loop rounds host_peer peers low up prev pt_ix (cur_ix + 1) in
    elim (get_elem? peers cur_ix) [
      | none ↦ panicked
      | some peer ↦
          if peer.0 == host_peer then returned (links_at peers low up prev cur_ix) else rest
    ]

-- A round for each peer, and one to find that there is none left.
unfoldable pub build_links : PeerId → List Peer → Outcome Links
build_links host_peer peers = build_loop (suc (length peers)) host_peer peers 0 1 0 0 0

-- `Vec::remove`.
unfoldable pub remove_at : ℕ → List Peer → List Peer
remove_at ix [] = []
remove_at zero (p ∷ ps) = ps
remove_at (suc ix) (p ∷ ps) = p ∷ remove_at ix ps

abbrev pub ids : List Peer → List PeerId
ids = map (λ p. p.0)

unfoldable pub root_first : Option PeerId → List Peer → Outcome (List Peer)
unfolding remove_at position
root_first none peers = returned peers
root_first (some root_peer) peers = do
  ix ← unwrap (position root_peer (ids peers))
  root ← unwrap (get_elem? peers ix)
  returned (root ∷ remove_at ix peers)

abbrev pub push_some : Option Peer → List Peer → List Peer
push_some none peers = peers
push_some (some p) peers = peers ++ p ∷ []

unfoldable pub add_links : Links → DagOverlay → DagOverlay
unfolding add collect
add_links (root_links left right) acc = record acc {
  child_nodes = push_some right (push_some left acc.child_nodes);
}
add_links (node_links parent children) acc = record {
  parent_nodes = add parent acc.parent_nodes;
  child_nodes = acc.child_nodes ++ collect children;
}
add_links (leaf_links parent) acc = record acc { parent_nodes = add parent acc.parent_nodes }

module _ {Rng : Type 0} (seed_from : ℕ → Rng) (shuffle : Rng → List Peer → List Peer × Rng) where
  -- The passes of `make`.
  unfoldable pub passes : ℕ → PeerId → List Peer → Rng → DagOverlay → Outcome DagOverlay
  passes zero host_peer peers rng acc = returned acc
  passes (suc n) host_peer peers rng acc = do
    links ← build_links host_peer peers
    let shuffled = shuffle rng peers
    passes n host_peer shuffled.0 shuffled.1 (add_links links acc)

  -- `RedundancyDagOverlayBuilder::make`, with the builder's two fields.
  unfoldable pub make : ℕ → ℕ → Option PeerId → PeerId → List Peer → Outcome DagOverlay
  unfolding passes root_first sort_by_key
  make redundancy_factor seed fixed_root_peer host_peer peers = do
    ordered ← root_first fixed_root_peer (sort_by_key (λ p. p.0) peers)
    passes redundancy_factor host_peer ordered (seed_from seed)
        (record { parent_nodes = []; child_nodes = [] })
