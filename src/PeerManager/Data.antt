-- ===== src/PeerManager/Data.antt =====
-- spectrum-network/src/peer_manager/data.rs, and `Reputation` of spectrum-network/src/types.rs.
-- Peer ids, addresses, connection ids, protocol ids and instants are numbers: of a peer id and of an
-- address the code uses only equality and, for the ranking, the order.
use spectrum.Prelude.{
  ℕ, Bool, true, false, List, Option, none, some, ℤ, pos, negsuc, ◌+ℤ◌, wrap_i32, contains,
}

abbrev pub PeerId : Type 0
PeerId = ℕ

abbrev pub Multiaddr : Type 0
Multiaddr = ℕ

abbrev pub ProtocolId : Type 0
ProtocolId = ℕ

abbrev pub Instant : Type 0
Instant = ℕ

-- An i32.
abbrev pub Reputation : Type 0
Reputation = ℤ

pub data PeerDestination : Type 0 where
  peer_id : PeerId → PeerDestination
  peer_id_with_addr : PeerId → Multiaddr → PeerDestination

abbrev pub id_of : PeerDestination → PeerId
id_of (PeerDestination.peer_id pid) = pid
id_of (peer_id_with_addr pid addr) = pid

abbrev pub into_addr : PeerDestination → Option Multiaddr
into_addr (PeerDestination.peer_id pid) = none
into_addr (peer_id_with_addr pid addr) = some addr

pub data ReputationChange : Type 0 where
  no_response too_slow : ReputationChange

abbrev pub is_downgrade : ReputationChange → Bool
is_downgrade no_response = true
is_downgrade too_slow = true

-- `From<ReputationChange> for i32`: both changes are -10.
abbrev pub penalty : ReputationChange → ℤ
penalty no_response = negsuc 9
penalty too_slow = negsuc 9

abbrev pub initial_reputation : Reputation
initial_reputation = pos 0

-- `Reputation::apply`; i32 addition wraps in a release build.
unfoldable pub apply : Reputation → ReputationChange → Reputation
unfolding ◌+ℤ◌
apply r change = wrap_i32 (r +ℤ penalty change)

pub data ConnHandlerError : Type 0 where
  sync_channel_exhausted unacceptable_peer : ConnHandlerError

pub data ConnectionLossReason : Type 0 where
  reset_by_peer : ConnectionLossReason
  reset : ConnHandlerError → ConnectionLossReason
  unknown : ConnectionLossReason

-- The flag of an outbound connection says whether it is confirmed.
pub data ConnectionDirection : Type 0 where
  inbound : ConnectionDirection
  outbound : Bool → ConnectionDirection

pub data ConnectionState : Type 0 where
  connected : ConnectionDirection → ConnectionState
  not_connected : ConnectionState

abbrev pub is_connected : ConnectionState → Bool
is_connected (connected d) = true
is_connected not_connected = false

pub record PeerInfo : Type 0 where
  pub is_reserved : Bool
  pub is_boot : Bool
  pub addr : Option Multiaddr
  pub reputation : Reputation
  pub state : ConnectionState
  pub num_connections : ℕ
  pub last_handshake : Option Instant
  pub outbound_backoff_until : Option Instant
  pub supported_protocols : Option (List ProtocolId)

-- `PeerInfo::new`.
abbrev pub new_info : Option Multiaddr → Bool → Bool → PeerInfo
new_info addr reserved boot = record {
  is_reserved = reserved;
  is_boot = boot;
  addr = addr;
  reputation = initial_reputation;
  state = not_connected;
  num_connections = 0;
  last_handshake = none;
  outbound_backoff_until = none;
  supported_protocols = none;
}

-- `PeerInfo::supports`.
unfoldable pub supports : PeerInfo → ProtocolId → Option Bool
supports info protocol = supported info.supported_protocols
  where
    supported : Option (List ProtocolId) → Option Bool
    supported none = none
    supported (some ps) = some (contains protocol ps)

pub data ProtocolAllocationPolicy : Type 0 where
  bounded : ℕ → ProtocolAllocationPolicy
  max : ProtocolAllocationPolicy
  zero : ProtocolAllocationPolicy
