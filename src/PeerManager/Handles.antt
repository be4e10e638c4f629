-- ===== src/PeerManager/Handles.antt =====
-- The repository of peers and the handles on its entries:
-- spectrum-network/src/peer_manager/peers_state.rs (`PeerRepo`, `ConnectedPeer`,
-- `NotConnectedPeer`, `PeerInState`). A handle borrows the repository mutably, so it holds the whole
-- repository, and what it writes to its entry goes to the table at once.
use spectrum.Prelude.{
  ℕ, Bool, true, false, List, [], Option, none, some, ltb, leb_ℤ, if◌then◌else◌, lookup, insert,
  remove, Result, ok, err, Outcome, returned, panicked,
}
use spectrum.PeerManager.Data.{
  PeerId, ProtocolId, Instant, Reputation, ReputationChange, PeerDestination, peer_id,
  peer_id_with_addr, ConnectionDirection, inbound, outbound, ConnectionState, connected,
  not_connected, PeerInfo, apply,
}
use spectrum.PeerManager.Index.{
  PeerIndex, new_index, add_outgoing, drop_outgoing, drop_incoming, reserve_peer,
  drop_reserved_peer, enable_protocol,
}
use spectrum.PeerManager.Ranking.{Ranking, insert_rank, remove_rank}

-- spectrum-network/src/peer_manager.rs
pub record NetworkingConfig : Type 0 where
  pub min_known_peers : ℕ
  pub min_outbound : ℕ
  pub max_inbound : ℕ
  pub max_outbound : ℕ

pub record PeerRepo : Type 0 where
  pub peers : List (PeerId × PeerInfo)
  pub sorted_peers : Ranking
  pub index : PeerIndex
  pub netw_conf : NetworkingConfig
  pub boot_peers : List PeerDestination

-- `PeerRepo::new`.
unfoldable pub new_repo : NetworkingConfig → List PeerDestination → PeerRepo
new_repo conf boot = record {
  peers = [];
  sorted_peers = [];
  index = new_index;
  netw_conf = conf;
  boot_peers = boot;
}

-- `peer_info` is the value of the occupied entry of `pid` in `repo.peers`.
pub record PeerHandle : Type 0 where
  pub pid : PeerId
  pub peer_info : PeerInfo
  pub repo : PeerRepo

abbrev pub ConnectedPeer : Type 0
ConnectedPeer = PeerHandle

abbrev pub NotConnectedPeer : Type 0
NotConnectedPeer = PeerHandle

pub data PeerInState : Type 0 where
  in_connected : ConnectedPeer → PeerInState
  in_not_connected : NotConnectedPeer → PeerInState

-- A write through `OccupiedEntry::get_mut`.
unfoldable pub write_info : PeerHandle → PeerInfo → PeerHandle
write_info h info = record h {
  peer_info = info;
  repo = record (h.repo) { peers = insert h.pid info (h.repo).peers };
}

unfoldable pub write_index : PeerHandle → PeerIndex → PeerHandle
write_index h ix = record h { repo = record (h.repo) { index = ix } }

in_state : ConnectionState → PeerHandle → PeerInState
in_state (connected d) h = in_connected h
in_state not_connected h = in_not_connected h

entry : PeerId → PeerRepo → Option PeerInfo → Option PeerInState
entry pid r none = none
entry pid r (some info) =
    some (in_state info.state (record { pid = pid; peer_info = info; repo = r }))

-- `PeersState::peer`.
unfoldable pub peer : PeerId → PeerRepo → Option PeerInState
unfolding entry in_state
peer pid r = entry pid r (lookup pid r.peers)

-- `ConnectedPeer::disconnect`: the index first, then the state.
unfoldable pub unindexed : ConnectionState → PeerId → Bool → PeerIndex → PeerIndex
unindexed (connected inbound) pid boot ix = drop_incoming pid ix
unindexed (connected (outbound c)) pid boot ix = drop_outgoing pid boot ix
unindexed not_connected pid boot ix = ix

unfoldable pub disconnect : ConnectedPeer → NotConnectedPeer
unfolding write_info write_index unindexed
disconnect cp =
    write_info (write_index cp (unindexed info.state cp.pid info.is_boot (cp.repo).index))
      (record info { state = not_connected })
  where
    info : PeerInfo
    info = cp.peer_info

-- `ConnectedPeer::confirm_connection`: the flag says whether the state changed.
confirmed : ConnectionState → ConnectionState × Bool
confirmed (connected (outbound false)) = (connected (outbound true), true)
confirmed s = (s, false)

unfoldable pub confirm_connection : ConnectedPeer → ConnectedPeer × Bool
unfolding write_info confirmed
confirm_connection cp =
    let (s, changed) = confirmed (cp.peer_info).state in
    (write_info cp (record (cp.peer_info) { state = s }), changed)

-- `ConnectedPeer::is_confirmed`.
abbrev pub confirmed_state : ConnectionState → Bool
confirmed_state (connected inbound) = true
confirmed_state (connected (outbound c)) = c
confirmed_state not_connected = false

unfoldable pub is_confirmed : ConnectedPeer → Bool
is_confirmed cp = confirmed_state (cp.peer_info).state

-- `ConnectedPeer::get_conn_direction`; the panic is the source's `panic!("impossible")`.
direction : ConnectionState → Outcome ConnectionDirection
direction (connected d) = returned d
direction not_connected = panicked

unfoldable pub get_conn_direction : ConnectedPeer → Outcome ConnectionDirection
unfolding direction
get_conn_direction cp = direction (cp.peer_info).state

-- `ConnectedPeer::handshaked`, at the time `now`.
unfoldable pub handshaked : Instant → ConnectedPeer → ConnectedPeer
unfolding write_info
handshaked now cp = write_info cp (record (cp.peer_info) { last_handshake = some now })

-- `ConnectedPeer::enable_protocol`.
unfoldable pub enable_protocol_with : ProtocolId → ConnectedPeer → ConnectedPeer
unfolding write_index
enable_protocol_with prot cp = write_index cp (enable_protocol prot cp.pid (cp.repo).index)

-- `ConnectedPeer::destination`.
destination_of : PeerId → Option ℕ → PeerDestination
destination_of pid none = peer_id pid
destination_of pid (some addr) = peer_id_with_addr pid addr

unfoldable pub destination : ConnectedPeer → PeerDestination
unfolding destination_of
destination cp = destination_of cp.pid (cp.peer_info).addr

-- `NotConnectedPeer::force_connect`; the result of its `saturating_add` is dropped.
unfoldable pub force_connect : ConnectionDirection → NotConnectedPeer → ConnectedPeer
unfolding write_info
force_connect d ncp = write_info ncp (record (ncp.peer_info) { state = connected d })

-- `NotConnectedPeer::connect`.
unfoldable pub connect_peer : NotConnectedPeer → ConnectedPeer
unfolding write_index force_connect
connect_peer ncp =
    force_connect (outbound false) (write_index ncp (add_outgoing ncp.pid (ncp.repo).index))

-- `NotConnectedPeer::try_accept_connection`.
unfoldable pub try_accept_connection : NotConnectedPeer → Result ConnectedPeer NotConnectedPeer
unfolding force_connect
try_accept_connection ncp =
    if ltb ((ncp.repo).index).num_inbound ((ncp.repo).netw_conf).max_inbound
    then ok (force_connect inbound ncp)
    else err ncp

-- `NotConnectedPeer::forget`: the repository without the peer, and what it knew of it.
unfoldable pub forget : NotConnectedPeer → PeerRepo × PeerInfo
forget ncp = (
  record (ncp.repo) {
    sorted_peers = remove_rank ncp.pid (ncp.peer_info).reputation (ncp.repo).sorted_peers;
    peers = remove ncp.pid (ncp.repo).peers;
  },
  ncp.peer_info,
)

-- `adjust_reputation` of `ConnectedPeer` and of `NotConnectedPeer`: the value of `apply` is dropped.
unfoldable pub adjust_in_place : ReputationChange → PeerHandle → PeerHandle
unfolding write_info
adjust_in_place change h =
    let dropped = apply (h.peer_info).reputation change in write_info h h.peer_info

-- `NotConnectedPeer::set_backoff_until`.
unfoldable pub set_backoff_until : Instant → NotConnectedPeer → NotConnectedPeer
unfolding write_info
set_backoff_until ts ncp =
    write_info ncp (record (ncp.peer_info) { outbound_backoff_until = some ts })

abbrev pub handle_of : PeerInState → PeerHandle
handle_of (in_connected cp) = cp
handle_of (in_not_connected ncp) = ncp

-- The same state about a changed handle.
abbrev pub with_handle : PeerInState → PeerHandle → PeerInState
with_handle (in_connected cp) h = in_connected h
with_handle (in_not_connected ncp) h = in_not_connected h

-- `PeerInState::set_protocols`; both arms do the same.
unfoldable pub set_protocols : List ProtocolId → PeerInState → PeerInState
unfolding write_info
set_protocols ps st =
    let h = handle_of st in
    with_handle st (write_info h (record (h.peer_info) { supported_protocols = some ps }))

-- The arms of `PeerInState::adjust_reputation`: the entry, then the ranking.
unfoldable pub adjust_handle : ReputationChange → PeerHandle → PeerHandle
unfolding write_info
adjust_handle change h =
    let old_rep = (h.peer_info).reputation in
    let new_rep = apply old_rep change in
    let h' = write_info h (record (h.peer_info) { reputation = new_rep }) in
    record h' {
      repo = record (h'.repo) {
        sorted_peers = insert_rank h.pid new_rep (remove_rank h.pid old_rep (h'.repo).sorted_peers);
      };
    }

unfoldable pub adjust_reputation : ReputationChange → PeerInState → PeerInState
unfolding adjust_handle
adjust_reputation change st = with_handle st (adjust_handle change (handle_of st))

-- `PeerInState::get_reputation`.
unfoldable pub get_reputation : PeerInState → Reputation
get_reputation st = ((handle_of st).peer_info).reputation

-- `PeerInState::is_reputation_acceptable`.
unfoldable pub is_reputation_acceptable : Reputation → PeerInState → Bool
unfolding get_reputation
is_reputation_acceptable least st = leb_ℤ least (get_reputation st)

-- `PeerInState::set_reserved`; both arms do the same.
unfoldable pub reserve_handle : Bool → PeerHandle → PeerHandle
unfolding write_info write_index
reserve_handle reserved h =
    let ix = (h.repo).index in
    let ix' = if reserved then reserve_peer h.pid ix else drop_reserved_peer h.pid ix in
    write_info (write_index h ix') (record (h.peer_info) { is_reserved = reserved })

unfoldable pub set_reserved : Bool → PeerInState → PeerInState
unfolding reserve_handle
set_reserved reserved st = with_handle st (reserve_handle reserved (handle_of st))
