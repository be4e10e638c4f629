-- ===== src/PeerManager/Soundness.antt =====
-- The invariant of the repository, and the handle operations that keep it.
pub mod Entries
use mathlib.Core.Path.{subst}
use spectrum.PeerManager.Data.{
  ConnectionState, Instant, PeerId, PeerInfo, ProtocolId, Reputation, connected, inbound,
  is_connected, not_connected, outbound,
}
use spectrum.PeerManager.Handles.{
  PeerHandle, PeerInState, PeerRepo, confirm_connection, connect_peer, disconnect,
  enable_protocol_with, force_connect, in_connected, in_not_connected, peer, set_backoff_until,
  unindexed, write_index, write_info,
}
use spectrum.PeerManager.Index.{
  PeerIndex, add_outgoing, drop_incoming, drop_outgoing, enable_protocol,
}
use spectrum.PeerManager.Ranking.{IsOrdered, has_rank}
use spectrum.Prelude.{
  Bool, Option, [], ap, arith, discard, eqb_ℤ, false, if◌then◌else◌, is_some, lookup, lookup-insert,
  lookup-remove, none, refl, some, true, ◌==◌, ◌∙◌, ◌≡◌,
}

abbrev pub is_outbound : ConnectionState → Bool
is_outbound (connected (outbound c)) = true
is_outbound (connected inbound) = false
is_outbound not_connected = false

-- The reputation that the table keeps of a peer is `z`.
abbrev pub rated : Reputation → Option PeerInfo → Bool
rated z none = false
rated z (some info) = eqb_ℤ info.reputation z

abbrev pub outbound_entry : Option PeerInfo → Bool
outbound_entry none = false
outbound_entry (some info) = is_outbound info.state

pub record IsSound (r : PeerRepo) : Type 0 where
  pub ranked :
      (p : PeerId) (z : Reputation) → has_rank p z r.sorted_peers ≡ rated z (lookup p r.peers)
  pub ordered : IsOrdered r.sorted_peers
  pub tracked :
      (p : PeerId)
      → is_some (lookup p (r.index).enabled_connections) ≡ outbound_entry (lookup p r.peers)
  pub no_inbound : (r.index).num_inbound ≡ 0
  pub no_outbound : (r.index).num_outbound ≡ 0
  pub no_boot : (r.index).boot_peers ≡ []

-- A handle on an entry of a sound repository.
abbrev pub IsAttached : PeerHandle → Type 0
IsAttached h = IsSound h.repo × (lookup h.pid (h.repo).peers ≡ some h.peer_info)

-- What an index must keep when the state of `pid` becomes `s`.
pub record Follows (pid : PeerId) (s : ConnectionState) (ix ix' : PeerIndex) : Type 0 where
  pub enabled :
      (p : PeerId)
      → is_some (lookup p ix'.enabled_connections)
        ≡ (if pid == p then is_outbound s else is_some (lookup p ix.enabled_connections))
  pub inbound_kept : ix.num_inbound ≡ 0 → ix'.num_inbound ≡ 0
  pub outbound_kept : ix.num_outbound ≡ 0 → ix'.num_outbound ≡ 0
  pub boot_kept : ix.boot_peers ≡ [] → ix'.boot_peers ≡ []

-- Writing an entry that keeps the reputation, with an index that follows the state.
pub update-IsAttached :
    (h : PeerHandle) (info : PeerInfo) (ix : PeerIndex)
    → IsAttached h
    → info.reputation ≡ (h.peer_info).reputation
    → Follows h.pid info.state (h.repo).index ix
    → IsAttached (write_info (write_index h ix) info)
unfolding write_info write_index
update-IsAttached h info ix (s, e) same f = (
  record {
    ranked = λ p z. ground (
      arith,
      s.ranked p z,
      lookup-insert h.pid p info (h.repo).peers,
      ap (λ k. lookup k (h.repo).peers) {x = h.pid} {y = p},
    );
    ordered = s.ordered;
    tracked =
        λ p. ground (arith, s.tracked p, f.enabled p, lookup-insert h.pid p info (h.repo).peers);
    no_inbound = f.inbound_kept s.no_inbound;
    no_outbound = f.outbound_kept s.no_outbound;
    no_boot = f.boot_kept s.no_boot;
  },
  ground (arith, lookup-insert h.pid h.pid info (h.repo).peers),
)

-- What `peer` finds: handles on the entry, in the state that the entry has.
abbrev pub Entered : Option PeerInState → Type 0
Entered none = Unit {0}
Entered (some (in_connected h)) = IsAttached h × (is_connected (h.peer_info).state ≡ true)
Entered (some (in_not_connected h)) = IsAttached h × ((h.peer_info).state ≡ not_connected)

pub peer-Entered : (pid : PeerId) (r : PeerRepo) → IsSound r → Entered (peer pid r)
unfolding peer
peer-Entered pid r s = ground arith

Follows-same :
    (h : PeerHandle) (t : ConnectionState) (ix : PeerIndex)
    → IsAttached h
    → is_outbound t ≡ is_outbound (h.peer_info).state
    → ix.enabled_connections ≡ ((h.repo).index).enabled_connections
    → ix.num_inbound ≡ ((h.repo).index).num_inbound
    → ix.num_outbound ≡ ((h.repo).index).num_outbound
    → ix.boot_peers ≡ ((h.repo).index).boot_peers
    → Follows h.pid t (h.repo).index ix
Follows-same h t ix (s, e) o a b c d = record {
  enabled = λ p. ground (arith, s.tracked p, ap (λ k. lookup k (h.repo).peers) {x = h.pid} {y = p});
  inbound_kept = λ z. b ∙ z;
  outbound_kept = λ z. c ∙ z;
  boot_kept = λ z. d ∙ z;
}

-- Writes that keep the reputation and the direction.
pub write_info-IsAttached :
    (h : PeerHandle) (info : PeerInfo)
    → IsAttached h
    → info.reputation ≡ (h.peer_info).reputation
    → is_outbound info.state ≡ is_outbound (h.peer_info).state
    → IsAttached (write_info h info)
unfolding write_info write_index
write_info-IsAttached h info a same o =
    update-IsAttached h info (h.repo).index a same
      (Follows-same h info.state (h.repo).index a o refl refl refl refl)

unindexed-Follows :
    (s : ConnectionState) (pid : PeerId) (boot : Bool) (ix : PeerIndex)
    → is_connected s ≡ true
    → Follows pid not_connected ix (unindexed s pid boot ix)
unfolding unindexed drop_incoming drop_outgoing discard
unindexed-Follows (connected inbound) pid boot ix c = record {
  enabled = λ p. ground (arith, lookup-remove pid p ix.enabled_connections);
  inbound_kept = λ z. omega arith;
  outbound_kept = λ z. z;
  boot_kept = λ z. z;
}
unindexed-Follows (connected (outbound b)) pid true ix c = record {
  enabled = λ p. ground (arith, lookup-remove pid p ix.enabled_connections);
  inbound_kept = λ z. z;
  outbound_kept = λ z. omega arith;
  boot_kept = λ z. rw (z, discard);
}
unindexed-Follows (connected (outbound b)) pid false ix c = record {
  enabled = λ p. ground (arith, lookup-remove pid p ix.enabled_connections);
  inbound_kept = λ z. z;
  outbound_kept = λ z. omega arith;
  boot_kept = λ z. z;
}
unindexed-Follows not_connected pid boot ix c = cc

add_outgoing-Follows :
    (pid : PeerId) (b : Bool) (ix : PeerIndex)
    → Follows pid (connected (outbound b)) ix (add_outgoing pid ix)
unfolding add_outgoing
add_outgoing-Follows pid b ix = record {
  enabled = λ p. ground (arith, lookup-insert pid p (outbound false) ix.enabled_connections);
  inbound_kept = λ z. z;
  outbound_kept = λ z. z;
  boot_kept = λ z. z;
}

pub disconnect-IsAttached :
    (h : PeerHandle)
    → IsAttached h
    → is_connected (h.peer_info).state ≡ true
    → IsAttached (disconnect h)
unfolding disconnect
disconnect-IsAttached h a c =
    update-IsAttached h (record (h.peer_info) { state = not_connected }) _ a refl
      (unindexed-Follows (h.peer_info).state h.pid (h.peer_info).is_boot (h.repo).index c)

pub connect_peer-IsAttached : (h : PeerHandle) → IsAttached h → IsAttached (connect_peer h)
unfolding connect_peer
connect_peer-IsAttached h a =
    update-IsAttached h (record (h.peer_info) { state = connected (outbound false) }) _ a refl
      (add_outgoing-Follows h.pid false (h.repo).index)

pub force_inbound-IsAttached :
    (h : PeerHandle)
    → IsAttached h
    → (h.peer_info).state ≡ not_connected
    → IsAttached (force_connect inbound h)
unfolding force_connect
force_inbound-IsAttached h a n =
    write_info-IsAttached h (record (h.peer_info) { state = connected inbound }) a refl
      (ground arith)

pub confirm_connection-IsAttached :
    (h : PeerHandle) → IsAttached h → IsAttached (confirm_connection h).0
unfolding confirm_connection
confirm_connection-IsAttached h a = write_info-IsAttached h _ a refl (ground arith)

pub set_backoff_until-IsAttached :
    (ts : Instant) (h : PeerHandle) → IsAttached h → IsAttached (set_backoff_until ts h)
unfolding set_backoff_until
set_backoff_until-IsAttached ts h a =
    write_info-IsAttached h (record (h.peer_info) { outbound_backoff_until = some ts }) a refl refl

-- An index that keeps the connections and the counters.
pub index-IsAttached :
    (h : PeerHandle) (ix : PeerIndex)
    → IsAttached h
    → ix.enabled_connections ≡ ((h.repo).index).enabled_connections
    → ix.num_inbound ≡ ((h.repo).index).num_inbound
    → ix.num_outbound ≡ ((h.repo).index).num_outbound
    → ix.boot_peers ≡ ((h.repo).index).boot_peers
    → IsAttached (write_index h ix)
unfolding write_index
index-IsAttached h ix (s, e) a b c d = (
  record {
    ranked = s.ranked;
    ordered = s.ordered;
    tracked = λ p. rw a (s.tracked p);
    no_inbound = b ∙ s.no_inbound;
    no_outbound = c ∙ s.no_outbound;
    no_boot = d ∙ s.no_boot;
  },
  e,
)

pub enable_protocol_with-IsAttached :
    (prot : ProtocolId) (h : PeerHandle) → IsAttached h → IsAttached (enable_protocol_with prot h)
unfolding enable_protocol_with enable_protocol
enable_protocol_with-IsAttached prot h a = index-IsAttached h _ a refl refl refl refl
