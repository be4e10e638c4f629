-- ===== src/PeerManager/Protocols.antt =====
-- `PeerManager::allocate_protocols` of spectrum-network/src/peer_manager.rs.
use spectrum.Prelude.{
  ℕ, ◌/◌, Bool, true, false, not, ◌&&◌, List, [], ◌∷◌, Option, none, some, ltb, ◌==◌, if◌then◌else◌,
  length, contains, Outcome, returned, panicked, ◌>>=◌,
}
use spectrum.PeerManager.Data.{PeerId, ProtocolId, PeerInfo, supports, ProtocolAllocationPolicy}
use spectrum.PeerManager.Handles.{PeerInState, in_connected, peer, enable_protocol_with}
use spectrum.PeerManager.Repo.{get_enabled_peers, num_connected_peers, pick_best}
use spectrum.PeerManager.Manager.{PeerManager, push_out, start_protocol}

-- The test `cond`; a division by zero panics.
unfoldable pub wants_more : ProtocolAllocationPolicy → ℕ → ℕ → Outcome Bool
wants_more (ProtocolAllocationPolicy.bounded percent) enabled conns =
    if conns == 0 then panicked else returned (ltb (enabled / conns) (percent / 100))
wants_more ProtocolAllocationPolicy.max enabled conns = returned (ltb enabled conns)
wants_more ProtocolAllocationPolicy.zero enabled conns = returned false

abbrev pub is_true : Option Bool → Bool
is_true none = false
is_true (some b) = b

abbrev pub is_candidate : ProtocolId → List PeerId → PeerId → PeerInfo → Bool
is_candidate prot enabled pid info = not (contains pid enabled) && is_true (supports info prot)

unfoldable pub start_in : ProtocolId → PeerId → Option PeerInState → PeerManager → PeerManager
start_in prot pid (some (in_connected cp)) pm =
    push_out (start_protocol prot pid) (record pm { state = (enable_protocol_with prot cp).repo })
start_in prot pid st pm = pm

unfoldable pub start_with : ProtocolId → Option PeerId → PeerManager → PeerManager
start_with prot none pm = pm
start_with prot (some pid) pm = start_in prot pid (peer pid pm.state) pm

unfoldable pub allocate_if : ProtocolId → List PeerId → PeerManager → Bool → PeerManager
allocate_if prot enabled pm false = pm
allocate_if prot enabled pm true =
    start_with prot (pick_best (some (is_candidate prot enabled)) pm.state) pm

unfoldable pub allocate_enabled :
    ProtocolId → ProtocolAllocationPolicy → Option (List PeerId) → PeerManager → Outcome PeerManager
allocate_enabled prot policy none pm = returned pm
allocate_enabled prot policy (some enabled) pm = do
  more ← wants_more policy (length enabled) (num_connected_peers pm.state)
  returned (allocate_if prot enabled pm more)

-- One round of the loop.
unfoldable pub allocate_protocol :
    ProtocolId → ProtocolAllocationPolicy → PeerManager → Outcome PeerManager
unfolding allocate_enabled allocate_if start_with start_in
allocate_protocol prot policy pm = allocate_enabled prot policy (get_enabled_peers prot pm.state) pm

unfoldable pub allocate_each :
    List (ProtocolId × ProtocolAllocationPolicy) → PeerManager → Outcome PeerManager
allocate_each [] pm = returned pm
allocate_each ((prot, policy) ∷ rest) pm = do
  pm' ← allocate_protocol prot policy pm
  allocate_each rest pm'

unfoldable pub allocate_protocols : PeerManager → Outcome PeerManager
unfolding allocate_each
allocate_protocols pm = allocate_each (pm.conf).protocols_allocation pm
