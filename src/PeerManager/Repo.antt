-- ===== src/PeerManager/Repo.antt =====
-- `impl PeersState for PeerRepo` of spectrum-network/src/peer_manager/peers_state.rs. A hash map or
-- a hash set is walked in the order of its list.
use spectrum.Prelude.{
  ℕ, ◌+◌, ◌-◌, ◌%◌, ◌^◌, Bool, true, false, ◌&&◌, List, [], ◌∷◌, Option, none, some, ltb,
  if◌then◌else◌, length, take, lookup, insert, add,
}
use spectrum.PeerManager.Data.{
  PeerId, ProtocolId, Reputation, PeerDestination, peer_id, peer_id_with_addr, id_of, into_addr,
  ConnectionState, PeerInfo, new_info, initial_reputation,
}
use spectrum.PeerManager.Index.{reserve_peer, update_reserved_set}
use spectrum.PeerManager.Ranking.{Ranking, insert_rank}
use spectrum.PeerManager.Handles.{
  PeerRepo, NotConnectedPeer, PeerInState, handle_of, peer, set_reserved,
}

pub data PeerStateFilter : Type 0 where
  only_connected only_not_connected : PeerStateFilter

pub data NetworkingState : Type 0 where
  not_bootstrapped : List PeerDestination → NetworkingState
  boot_in_progress : NetworkingState
  bootstrapped : NetworkingState
  saturated : NetworkingState

-- The loop of `get_peers` over the ranking cut to `limit`.
unfoldable pub dest_of : PeerId → Option ℕ → PeerDestination
dest_of pid none = peer_id pid
dest_of pid (some addr) = peer_id_with_addr pid addr

unfoldable pub dest_if_known :
    PeerId → Option PeerInfo → List PeerDestination → List PeerDestination
dest_if_known pid none rest = rest
dest_if_known pid (some info) rest = dest_of pid info.addr ∷ rest

unfoldable pub destinations : List (PeerId × PeerInfo) → Ranking → List PeerDestination
destinations peers [] = []
destinations peers ((pid, rep) ∷ xs) = dest_if_known pid (lookup pid peers) (destinations peers xs)

unfoldable pub get_peers : ℕ → PeerRepo → List PeerDestination
unfolding destinations dest_if_known dest_of
get_peers limit r = destinations r.peers (take limit r.sorted_peers)

reputation_of : Option PeerInfo → Option Reputation
reputation_of none = none
reputation_of (some info) = some info.reputation

unfoldable pub get_peer_reputation : PeerId → PeerRepo → Option Reputation
unfolding reputation_of
get_peer_reputation pid r = reputation_of (lookup pid r.peers)

-- The repository after the vacant entry of the destination's peer was filled.
unfoldable pub with_peer : PeerDestination → Bool → Bool → PeerRepo → PeerRepo
with_peer dest reserved boot r =
    let pid = id_of dest in
    record r {
      sorted_peers = insert_rank pid initial_reputation r.sorted_peers;
      peers = insert pid (new_info (into_addr dest) reserved boot) r.peers;
      index = if reserved then reserve_peer pid r.index else r.index;
    }

unfoldable pub vacant :
    PeerDestination → Bool → Bool → PeerRepo → Option PeerInfo → Option NotConnectedPeer
vacant dest reserved boot r none = some (record {
  pid = id_of dest;
  peer_info = new_info (into_addr dest) reserved boot;
  repo = with_peer dest reserved boot r;
})
vacant dest reserved boot r (some info) = none

-- `none` leaves the repository as it was.
unfoldable pub try_add_peer : PeerDestination → Bool → Bool → PeerRepo → Option NotConnectedPeer
unfolding with_peer vacant
try_add_peer dest reserved boot r = vacant dest reserved boot r (lookup (id_of dest) r.peers)

-- The call for its effect.
unfoldable pub added : PeerRepo → Option NotConnectedPeer → PeerRepo
added r none = r
added r (some ncp) = ncp.repo

unfoldable pub add_peer : PeerDestination → Bool → Bool → PeerRepo → PeerRepo
unfolding added try_add_peer
add_peer dest reserved boot r = added r (try_add_peer dest reserved boot r)

-- What the loop of `set_reserved_peers` carries.
pub record Reserving : Type 0 where
  pub repo : PeerRepo
  pub known : List PeerId
  pub unknown : List PeerId

unfoldable pub reserve_one : PeerId → Option PeerInState → Reserving → Reserving
reserve_one pid none s = record s { unknown = add pid s.unknown }
reserve_one pid (some st) s = record s {
  repo = (handle_of (set_reserved true st)).repo;
  known = add pid s.known;
}

unfoldable pub reserve_all : List PeerId → Reserving → Reserving
unfolding reserve_one
reserve_all [] s = s
reserve_all (pid ∷ pids) s = reserve_all pids (reserve_one pid (peer pid s.repo) s)

-- The repository and the set of unknown peers.
unfoldable pub set_reserved_peers : List PeerId → PeerRepo → PeerRepo × List PeerId
unfolding reserve_all
set_reserved_peers pids r =
    let s = reserve_all pids (record { repo = r; known = []; unknown = [] }) in
    (record (s.repo) { index = update_reserved_set s.known (s.repo).index }, s.unknown)

passes : ConnectionState → Option PeerStateFilter → Bool
passes (ConnectionState.connected d) (some only_connected) = true
passes ConnectionState.not_connected (some only_not_connected) = true
passes s none = true
passes s f = false

reserved_and_passes : Option PeerStateFilter → Option PeerInfo → Bool
reserved_and_passes f none = false
reserved_and_passes f (some info) = info.is_reserved && passes info.state f

reserved_among : PeerRepo → Option PeerStateFilter → List PeerId → List PeerId
reserved_among r f [] = []
reserved_among r f (pid ∷ pids) =
    let rest = reserved_among r f pids in
    if reserved_and_passes f (lookup pid r.peers) then pid ∷ rest else rest

unfoldable pub get_reserved_peers : Option PeerStateFilter → PeerRepo → List PeerId
unfolding reserved_among reserved_and_passes passes
get_reserved_peers f r = reserved_among r f (r.index).reserved_peers

unfoldable pub get_enabled_peers : ProtocolId → PeerRepo → Option (List PeerId)
get_enabled_peers prot r = lookup prot (r.index).protocols

unfoldable pub num_connected_peers : PeerRepo → ℕ
num_connected_peers r = length (r.index).enabled_connections

-- The difference of the counters is a usize and wraps in a release build.
unfoldable pub networking_state : PeerRepo → NetworkingState
networking_state r =
    if ltb (length r.peers) conf.min_known_peers
    then not_bootstrapped r.boot_peers
    else if ltb ((ix.num_outbound + 2 ^ 64 - length ix.boot_peers) % 2 ^ 64) conf.min_outbound
    then boot_in_progress
    else if ltb ix.num_outbound conf.max_outbound
    then bootstrapped
    else saturated
  where
    open r use {index as ix, netw_conf as conf}

ids_where : (PeerId → PeerInfo → Bool) → List (PeerId × PeerInfo) → List PeerId
ids_where test [] = []
ids_where test ((pid, info) ∷ m) =
    let rest = ids_where test m in if test pid info then pid ∷ rest else rest

unfoldable pub filter_peers : (PeerId → PeerInfo → Bool) → PeerRepo → List PeerId
unfolding ids_where
filter_peers test r = ids_where test r.peers

-- The guard of the match in `pick_best`.
unfoldable pub picks : Option (PeerId → PeerInfo → Bool) → PeerId → Option PeerInfo → Bool
picks test pid none = false
picks none pid (some info) = true
picks (some test) pid (some info) = test pid info

unfoldable pub first_picked :
    Option (PeerId → PeerInfo → Bool) → List (PeerId × PeerInfo) → Ranking → Option PeerId
first_picked test peers [] = none
first_picked test peers ((pid, rep) ∷ xs) =
    let rest = first_picked test peers xs in
    if picks test pid (lookup pid peers) then some pid else rest

unfoldable pub pick_best : Option (PeerId → PeerInfo → Bool) → PeerRepo → Option PeerId
unfolding first_picked picks
pick_best test r = first_picked test r.peers r.sorted_peers
