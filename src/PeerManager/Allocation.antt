-- ===== src/PeerManager/Allocation.antt =====
-- `allocate_protocols` of spectrum-network/src/peer_manager.rs and `networking_state` of
-- spectrum-network/src/peer_manager/peers_state.rs.
use spectrum.PeerManager.Data.{
  ConnectionDirection, ConnectionState, PeerDestination, PeerId, PeerInfo, ProtocolAllocationPolicy,
  ProtocolId, connected, is_connected, not_connected, supports,
}
use spectrum.PeerManager.Handles.{NetworkingConfig, PeerRepo, peer}
use spectrum.PeerManager.Invariant.Runs.{Reach, Reach-IsSound, start}
use spectrum.PeerManager.Manager.{PeerManager, PeerManagerConfig, start_protocol}
use spectrum.PeerManager.Protocols.{
  allocate_enabled, allocate_if, allocate_protocol, allocate_protocols, is_candidate, is_true,
  start_in, start_with, wants_more,
}
use spectrum.PeerManager.Repo.{
  NetworkingState, boot_in_progress, bootstrapped, get_enabled_peers, networking_state,
  not_bootstrapped, num_connected_peers, pick_best, saturated,
}
use spectrum.PeerManager.Selection.{first_picked_hit, passing}
use spectrum.PeerManager.Soundness.{outbound_entry}
use spectrum.Prelude.{
  Bool, List, Option, Outcome, Returns, [], arith, contains, false, if◌then◌else◌, inl, inr,
  is_some, length, lookup, ltb, none, panicked, refl, returned, some, true, ℕ, ◌&&◌, ◌++◌, ◌/◌, ◌<◌,
  ◌==◌, ◌∙◌, ◌∷◌, ◌≡◌, ◌≢◌, ◌⊎◌,
}

abbrev pub panic_if : Bool → PeerManager → Outcome PeerManager
panic_if true pm = panicked
panic_if false pm = returned pm

-- Under a bound below 100 percent no protocol is ever started: the bound is 0 after the integer
-- division. The call panics exactly if the protocol has a set of enabled peers and no connection is
-- enabled.
allocate_protocol_bounded :
    (prot : ProtocolId) (percent : ℕ) (pm : PeerManager)
    → percent < 100
    → allocate_protocol prot (ProtocolAllocationPolicy.bounded percent) pm
      ≡ panic_if (is_some (get_enabled_peers prot pm.state) && num_connected_peers pm.state == 0) pm
unfolding allocate_protocol wants_more
allocate_protocol_bounded prot percent pm h = ground arith

enabled-nil :
    (m : List (PeerId × ConnectionDirection))
    → ((p : PeerId) → is_some (lookup p m) ≡ false)
    → length m ≡ 0
unfolding lookup
enabled-nil [] h = refl
enabled-nil ((p, d) ∷ m) h = let e = h p in ground arith

-- In every manager that a run reaches: if no known peer is connected outbound, then the first
-- protocol's bound panics as soon as the protocol has a set of enabled peers, although peers may be
-- connected inbound.
pub allocate_protocols_panics :
    (c : NetworkingConfig) (boot : List PeerDestination) (conf : PeerManagerConfig)
    (prot : ProtocolId) (percent : ℕ) (rest : List (ProtocolId × ProtocolAllocationPolicy))
    (enabled : List PeerId) {pm : PeerManager}
    → Reach (start c boot conf) pm
    → ((p : PeerId) → outbound_entry (lookup p (pm.state).peers) ≡ false)
    → get_enabled_peers prot pm.state ≡ some enabled
    → (pm.conf).protocols_allocation ≡ (prot, ProtocolAllocationPolicy.bounded percent) ∷ rest
    → allocate_protocols pm ≡ panicked
unfolding allocate_protocols allocate_protocol wants_more num_connected_peers
allocate_protocols_panics c boot conf prot percent rest enabled {pm} r o e a = ground (
  arith,
  enabled-nil ((pm.state).index).enabled_connections
      (λ p. (Reach-IsSound c boot conf r).tracked p ∙ o p),
)

-- A start of a protocol, if there is one, is with a connected peer that supports the protocol and
-- is not enabled yet.
abbrev pub StartsWell : ProtocolId → List PeerId → PeerManager → PeerManager → Type 0
StartsWell prot enabled pm pm' =
    (pm' ≡ pm)
    ⊎ ((pid : PeerId) × (info : PeerInfo) × (lookup pid (pm.state).peers ≡ some info)
        × (is_connected info.state ≡ true)
        × (contains pid enabled ≡ false)
        × (is_true (supports info prot) ≡ true)
        × (pm'.out_queue ≡ pm.out_queue ++ start_protocol prot pid ∷ []))

start_known :
    (prot : ProtocolId) (pid : PeerId) (enabled : List PeerId) (pm : PeerManager) (info : PeerInfo)
    (s : ConnectionState)
    → lookup pid (pm.state).peers ≡ some info
    → info.state ≡ s
    → is_candidate prot enabled pid info ≡ true
    → StartsWell prot enabled pm (start_in prot pid (peer pid pm.state) pm)
unfolding start_in peer
start_known prot pid enabled pm info (connected d) l s h =
    inr (pid, info, l, ground arith, ground arith, ground arith, ground arith)
start_known prot pid enabled pm info not_connected l s h = inl (ground arith)

start_found :
    (prot : ProtocolId) (pid : PeerId) (enabled : List PeerId) (pm : PeerManager)
    (o : Option PeerInfo)
    → lookup pid (pm.state).peers ≡ o
    → passing (is_candidate prot enabled) pid o ≡ true
    → StartsWell prot enabled pm (start_in prot pid (peer pid pm.state) pm)
start_found prot pid enabled pm none l h = cc
start_found prot pid enabled pm (some info) l h =
    start_known prot pid enabled pm info info.state l refl h

start_with-StartsWell :
    (prot : ProtocolId) (enabled : List PeerId) (pm : PeerManager) (o : Option PeerId)
    → pick_best (some (is_candidate prot enabled)) pm.state ≡ o
    → StartsWell prot enabled pm (start_with prot o pm)
unfolding start_with pick_best
start_with-StartsWell prot enabled pm none e = inl refl
start_with-StartsWell prot enabled pm (some pid) e =
    start_found prot pid enabled pm _ refl
      (first_picked_hit (is_candidate prot enabled) (pm.state).peers (pm.state).sorted_peers pid e)

allocate_if-StartsWell :
    (prot : ProtocolId) (enabled : List PeerId) (pm : PeerManager) (b : Bool)
    → StartsWell prot enabled pm (allocate_if prot enabled pm b)
unfolding allocate_if
allocate_if-StartsWell prot enabled pm true = start_with-StartsWell prot enabled pm _ refl
allocate_if-StartsWell prot enabled pm false = inl refl

wants_more-returns :
    (policy : ProtocolAllocationPolicy) (enabled conns : ℕ)
    → conns ≢ 0
    → (b : Bool) × (wants_more policy enabled conns ≡ returned b)
unfolding wants_more
wants_more-returns (ProtocolAllocationPolicy.bounded percent) enabled conns h =
    (ltb (enabled / conns) (percent / 100), ground arith)
wants_more-returns ProtocolAllocationPolicy.max enabled conns h = (ltb enabled conns, refl)
wants_more-returns ProtocolAllocationPolicy.zero enabled conns h = (false, refl)

-- While a connection is enabled a round returns, and it starts the protocol with at most one peer:
-- a connected peer that supports the protocol and is not among those it is enabled with.
pub allocate_protocol-StartsWell :
    (prot : ProtocolId) (policy : ProtocolAllocationPolicy) (enabled : List PeerId)
    (pm : PeerManager)
    → get_enabled_peers prot pm.state ≡ some enabled
    → num_connected_peers pm.state ≢ 0
    → Returns (StartsWell prot enabled pm) (allocate_protocol prot policy pm)
unfolding allocate_protocol allocate_enabled
allocate_protocol-StartsWell prot policy enabled pm e c =
    let (b, w) = wants_more-returns policy (length enabled) (num_connected_peers pm.state) c in
    rw (e, allocate_enabled, w) (allocate_if-StartsWell prot enabled pm b)

-- What the networking state is while both counters are 0.
abbrev pub state_of_limits : PeerRepo → NetworkingState
state_of_limits r =
    if ltb (length r.peers) (r.netw_conf).min_known_peers
    then not_bootstrapped r.boot_peers
    else if ltb 0 (r.netw_conf).min_outbound
    then boot_in_progress
    else if ltb 0 (r.netw_conf).max_outbound
    then bootstrapped
    else saturated

-- In every manager that a run reaches the networking state depends on the number of known peers and
-- the limits alone, not on the connections: with enough peers it is boot in progress if a minimum
-- of outbound connections is set, and otherwise bootstrapped unless the maximum is 0.
pub networking_state_ignores_connections :
    (c : NetworkingConfig) (boot : List PeerDestination) (conf : PeerManagerConfig)
    {pm : PeerManager}
    → Reach (start c boot conf) pm
    → networking_state pm.state ≡ state_of_limits pm.state
unfolding networking_state
networking_state_ignores_connections c boot conf {pm} r =
    let s = Reach-IsSound c boot conf r in rw (s.no_outbound, s.no_boot)
