-- ===== src/PeerManager/Index.antt =====
-- spectrum-network/src/peer_manager/peer_index.rs: sets and counters beside the table of peers.
-- `saturating_sub` is the subtraction of ℕ, which stops at 0.
use spectrum.Prelude.{
  ℕ, ◌-◌, Bool, false, List, [], Option, none, some, if◌then◌else◌, lookup, insert, remove,
  contains, add, discard,
}
use spectrum.PeerManager.Data.{PeerId, ProtocolId, ConnectionDirection, outbound}

pub record PeerIndex : Type 0 where
  pub reserved_peers : List PeerId
  pub boot_peers : List PeerId
  pub enabled_connections : List (PeerId × ConnectionDirection)
  pub protocols : List (ProtocolId × List PeerId)
  pub num_inbound : ℕ
  pub num_outbound : ℕ

-- `PeerIndex::new`.
abbrev pub new_index : PeerIndex
new_index = record {
  reserved_peers = [];
  boot_peers = [];
  enabled_connections = [];
  protocols = [];
  num_inbound = 0;
  num_outbound = 0;
}

unfoldable pub add_outgoing : PeerId → PeerIndex → PeerIndex
add_outgoing pid ix = record ix {
  enabled_connections = insert pid (outbound false) ix.enabled_connections;
}

unfoldable pub drop_outgoing : PeerId → Bool → PeerIndex → PeerIndex
drop_outgoing pid boot ix = record ix {
  num_outbound = ix.num_outbound - 1;
  enabled_connections = remove pid ix.enabled_connections;
  boot_peers = if boot then discard pid ix.boot_peers else ix.boot_peers;
}

unfoldable pub drop_incoming : PeerId → PeerIndex → PeerIndex
drop_incoming pid ix = record ix {
  num_inbound = ix.num_inbound - 1;
  enabled_connections = remove pid ix.enabled_connections;
}

unfoldable pub reserve_peer : PeerId → PeerIndex → PeerIndex
reserve_peer pid ix = record ix { reserved_peers = add pid ix.reserved_peers }

unfoldable pub drop_reserved_peer : PeerId → PeerIndex → PeerIndex
drop_reserved_peer pid ix = record ix { reserved_peers = discard pid ix.reserved_peers }

unfoldable pub update_reserved_set : List PeerId → PeerIndex → PeerIndex
update_reserved_set peers ix = record ix { reserved_peers = peers }

members : Option (List PeerId) → List PeerId
members none = []
members (some peers) = peers

-- The entry API of `ConnectedPeer::enable_protocol`: the set is made if the protocol has none.
unfoldable pub enable_protocol : ProtocolId → PeerId → PeerIndex → PeerIndex
unfolding members
enable_protocol prot pid ix = record ix {
  protocols = insert prot (add pid (members (lookup prot ix.protocols))) ix.protocols;
}

unfoldable pub is_protocol_enabled : ProtocolId → PeerId → PeerIndex → Bool
unfolding members
is_protocol_enabled prot pid ix = contains pid (members (lookup prot ix.protocols))
