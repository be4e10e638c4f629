-- ===== src/Handel/Overlay.antt =====
-- The orders of the levels and `BinomialPeerPartitions` of spectrum-handel/src/partitioning.rs. The
-- hash behind `GenPermutation` is a parameter, and so are the random ids of the fake peers.
use mathlib.Core.Option
use spectrum.Handel.Partitioning.{PeerIx, bin_partition, normalize}
use spectrum.Handel.Partitioning.Levels.{levels}
use spectrum.PeerManager.Data.{Multiaddr, PeerId}
use spectrum.Prelude.{
  Bool, List, Option, Outcome, [], contains, false, get_elem?, if◌then◌else◌, insert, keep, leb,
  length, lookup, ltb, map, none, not, panicked, returned, some, suc, unwrap, ℕ, ◌++◌, ◌+◌, ◌-◌,
  ◌==◌, ◌>>=◌, ◌^◌, ◌∷◌,
}

pub record GenPermutation : Type 0 where
  pub gen_priority : PeerId → ℕ
  pub gen_vp : PeerIx → PeerIx → ℕ

pub data PeerOrd : Type 0 where
  vp cvp : PeerOrd

-- `sort_by_key` of the standard library is a stable sort.
unfoldable pub insert_by {ℓ} : {A : Type ℓ} → (A → ℕ) → A → List A → List A
insert_by key x [] = x ∷ []
insert_by key x (y ∷ ys) = if leb (key x) (key y) then x ∷ y ∷ ys else y ∷ insert_by key x ys

unfoldable pub sort_by_key {ℓ} : {A : Type ℓ} → (A → ℕ) → List A → List A
unfolding insert_by
sort_by_key key [] = []
sort_by_key key (x ∷ xs) = insert_by key x (sort_by_key key xs)

unfoldable pub position : ℕ → List ℕ → Option ℕ
position h [] = none
position h (x ∷ xs) = if x == h then some 0 else Option.map suc (position h xs)

-- Arrange peers within partitions according to their VP.
unfoldable pub ordered_by_vp : GenPermutation → List (List PeerIx) → PeerIx → List (List PeerIx)
unfolding sort_by_key
ordered_by_vp rng [] host = []
ordered_by_vp rng (pt ∷ pts) host = sort_by_key (rng.gen_vp host) pt ∷ ordered_by_vp rng pts host

-- The key of a peer in the closure of `ordered_by_cvp`: the host's place in the peer's own level.
unfoldable pub host_place : GenPermutation → PeerIx → ℕ → ℕ → PeerIx → Outcome ℕ
host_place rng host nodes l pix = do
  levels ← unwrap (bin_partition pix nodes)
  pt ← unwrap (get_elem? levels l)
  unwrap (position host (sort_by_key (rng.gen_vp pix) pt))

unfoldable pub with_keys : (PeerIx → Outcome ℕ) → List PeerIx → Outcome (List (ℕ × PeerIx))
with_keys key [] = returned []
with_keys key (x ∷ xs) = do k ← key x; rest ← with_keys key xs; returned ((k, x) ∷ rest)

abbrev pub by_key : ℕ × PeerIx → ℕ
by_key (k, x) = k

abbrev pub without_key : ℕ × PeerIx → PeerIx
without_key (k, x) = x

-- The sort asks for no key of a list with fewer than two elements.
unfoldable pub sort_by_place : (PeerIx → Outcome ℕ) → List PeerIx → Outcome (List PeerIx)
unfolding with_keys
sort_by_place key pt =
    let sorted : Outcome (List PeerIx) =
      (with_keys key pt >>= λ ks. returned (map without_key (sort_by_key by_key ks))) in
    if ltb (length pt) 2 then returned pt else sorted

unfoldable pub cvp_from :
    GenPermutation → PeerIx → ℕ → ℕ → List (List PeerIx) → Outcome (List (List PeerIx))
cvp_from rng host nodes l [] = returned []
cvp_from rng host nodes l (pt ∷ pts) = do
  pt' ← sort_by_place (host_place rng host nodes l) pt
  rest ← cvp_from rng host nodes (l + 1) pts
  returned (pt' ∷ rest)

unfoldable pub ordered_by_cvp :
    GenPermutation → List (List PeerIx) → PeerIx → ℕ → Outcome (List (List PeerIx))
unfolding cvp_from
ordered_by_cvp rng partitions host nodes = cvp_from rng host nodes 0 partitions

pub record BinomialPeerPartitions : Type 0 where
  pub peers : List PeerId
  pub peer_index : List (PeerId × PeerIx)
  pub partitions_by_vp : List (List PeerIx)
  pub partitions_by_cvp : List (List PeerIx)
  pub addr_book : List (PeerId × Multiaddr)
  pub rng : GenPermutation

-- The pairs of `enumerate`, collected in a hash map.
index_from : ℕ → List PeerId → List (PeerId × PeerIx) → List (PeerId × PeerIx)
index_from ix [] m = m
index_from ix (pid ∷ pids) m = index_from (ix + 1) pids (insert pid ix m)

ids : List (PeerId × Option Multiaddr) → List PeerId
ids [] = []
ids ((pid, addr) ∷ ps) = pid ∷ ids ps

known_addrs :
    List (PeerId × Option Multiaddr) → List (PeerId × Multiaddr) → List (PeerId × Multiaddr)
known_addrs [] m = m
known_addrs ((pid, none) ∷ ps) m = known_addrs ps m
known_addrs ((pid, some addr) ∷ ps) m = known_addrs ps (insert pid addr m)

-- A fake peer's index is dropped.
unfoldable pub is_real : List PeerId → List PeerId → PeerIx → Bool
is_real fake all pix = is_real_id (get_elem? all pix)
  where
    is_real_id : Option PeerId → Bool
    is_real_id none = false
    is_real_id (some pid) = not (contains pid fake)

unfoldable pub cleared : List PeerId → List PeerId → List (List PeerIx) → List (List PeerIx)
cleared fake all [] = []
cleared fake all (pt ∷ pts) = keep (is_real fake all) pt ∷ cleared fake all pts

-- `BinomialPeerPartitions::new`; `random n` are the ids of `n` fake peers.
unfoldable pub new_partitions :
    (ℕ → List PeerId)
    → PeerId
    → List (PeerId × Option Multiaddr)
    → GenPermutation
    → Outcome BinomialPeerPartitions
unfolding index_from ids known_addrs cleared is_real
new_partitions random host ps rng =
    let real = length ps in
    let built = normalize real in
    if leb (2 ^ 32) real then panicked else (do
      normalized ← unwrap built
      let fake = random (normalized - real)
      let all = sort_by_key rng.gen_priority (ids ps ++ fake)
      host_ix ← unwrap (position host all)
      let nodes = length all
      partitions ← unwrap (bin_partition host_ix nodes)
      let real_parts = cleared fake all partitions
      by_cvp ← ordered_by_cvp rng real_parts host_ix nodes
      returned (record {
        peers = all;
        peer_index = index_from 0 all [];
        partitions_by_vp = ordered_by_vp rng real_parts host_ix;
        partitions_by_cvp = by_cvp;
        addr_book = known_addrs ps [];
        rng = rng;
      }))

-- The trait `PeerPartitions` on it.
unfoldable pub peers_at_level : ℕ → PeerOrd → BinomialPeerPartitions → Outcome (List PeerIx)
peers_at_level level vp pp = unwrap (get_elem? pp.partitions_by_vp level)
peers_at_level level cvp pp = unwrap (get_elem? pp.partitions_by_cvp level)

unfoldable pub identify_peer : PeerIx → BinomialPeerPartitions → Outcome PeerId
identify_peer pix pp = unwrap (get_elem? pp.peers pix)

unfoldable pub try_index_peer : PeerId → BinomialPeerPartitions → Option PeerIx
try_index_peer pid pp = lookup pid pp.peer_index

unfoldable pub addr_hint : PeerId → BinomialPeerPartitions → Option Multiaddr
addr_hint pid pp = lookup pid pp.addr_book

unfoldable pub num_levels : BinomialPeerPartitions → ℕ
num_levels pp = length pp.partitions_by_vp
