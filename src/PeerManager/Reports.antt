-- ===== src/PeerManager/Reports.antt =====
-- `on_report_peer` and the backoff after a reset, of spectrum-network/src/peer_manager.rs, and
-- `Reputation::apply` of spectrum-network/src/types.rs.
use mathlib.Core.Path.{subst}
use spectrum.PeerManager.Data.{
  PeerId, PeerInfo, Reputation, ReputationChange, apply, is_connected, no_response, not_connected,
  too_slow,
}
use spectrum.PeerManager.Events.{on_report_peer}
use spectrum.PeerManager.Handles.{
  adjust_reputation, disconnect, forget, is_reputation_acceptable, peer,
}
use spectrum.PeerManager.Manager.{
  PeerManager, PeerManagerOut, disconnect_from, drop, notify_peer_punished,
}
use spectrum.Prelude.{
  Bool, IsI32, List, Option, [], ap, append-nil, arith, false, if◌then◌else◌, insert, leb, leb_ℤ,
  lookup, lookup-insert_self, lookup-remove_self, neg_part, negsuc, none, not, pos, some, true,
  ◌++◌, ◌+ℤ◌, ◌+◌, ◌-◌, ◌^◌, ◌||◌, ◌∷◌, ◌≡◌,
}

-- Ten less, as an i32 that wraps: below the least i32 it goes on from the greatest.
abbrev pub ten_less : Reputation → Reputation
ten_less r =
    if leb (neg_part r + 10) (2 ^ 31) then r +ℤ negsuc 9 else pos (2 ^ 32 - 10 - neg_part r)

-- Either change takes 10 from an i32.
apply_lowers : (r : Reputation) (change : ReputationChange) → IsI32 r → apply r change ≡ ten_less r
unfolding apply ◌+ℤ◌
apply_lowers (pos n) no_response v = ground arith
apply_lowers (pos n) too_slow v = ground arith
apply_lowers (negsuc n) no_response v = ground arith
apply_lowers (negsuc n) too_slow v = ground arith

-- The peer with its reputation lowered.
abbrev pub lowered : PeerInfo → PeerInfo
lowered info = record info { reputation = ten_less info.reputation }

abbrev applied : ReputationChange → PeerInfo → PeerInfo
applied change info = record info { reputation = apply info.reputation change }

-- The peer stays: it is acceptable still, or there is no connection to drop.
abbrev pub stays : Reputation → PeerInfo → Bool
stays least info = leb_ℤ least info.reputation || not (is_connected info.state)

abbrev pub kept_if : Bool → PeerInfo → Option PeerInfo
kept_if true info = some info
kept_if false info = none

abbrev pub drop_unless : Bool → PeerId → List PeerManagerOut
drop_unless true pid = []
drop_unless false pid = drop pid ∷ []

-- A report, by the change that is applied.
reported :
    (pid : PeerId) (change : ReputationChange) (pm : PeerManager) (info : PeerInfo)
    → lookup pid (pm.state).peers ≡ some info
    → let pm' = on_report_peer pid change pm in
      let b = stays (pm.conf).min_acceptable_reputation (applied change info) in
      (lookup pid (pm'.state).peers ≡ kept_if b (applied change info))
      × (pm'.out_queue
          ≡ (pm.out_queue ++ notify_peer_punished pid change ∷ []) ++ drop_unless b pid)
unfolding on_report_peer peer adjust_reputation is_reputation_acceptable disconnect_from disconnect
    forget
reported pid change pm info e = ground (
  arith,
  append-nil (pm.out_queue ++ notify_peer_punished pid change ∷ []),
  lookup-insert_self pid (applied change info) (pm.state).peers,
  lookup-remove_self pid (
      insert pid (record (applied change info) { state = not_connected })
        (insert pid (applied change info) (pm.state).peers)),
)

-- A report about a known peer, whose reputation is an i32, takes 10 from it, whatever the change, in
-- arithmetic that wraps at the least i32, and notifies the punishment. If the peer is connected and
-- the reputation that it has then is not acceptable, it is dropped and forgotten as well, and else it
-- stays with that reputation.
pub on_report_peer_lem :
    (pid : PeerId) (change : ReputationChange) (pm : PeerManager) (info : PeerInfo)
    → lookup pid (pm.state).peers ≡ some info
    → IsI32 info.reputation
    → let pm' = on_report_peer pid change pm in
      let b = stays (pm.conf).min_acceptable_reputation (lowered info) in
      (lookup pid (pm'.state).peers ≡ kept_if b (lowered info))
      × (pm'.out_queue
          ≡ (pm.out_queue ++ notify_peer_punished pid change ∷ []) ++ drop_unless b pid)
on_report_peer_lem pid change pm info e fits =
    let is_lowered : applied change info ≡ lowered info =
      ap (λ (r : Reputation). record info { reputation = r })
        (apply_lowers info.reputation change fits) in
    subst
      (λ (after : PeerInfo).
        let b = stays (pm.conf).min_acceptable_reputation after in
        (lookup pid ((on_report_peer pid change pm).state).peers ≡ kept_if b after)
        × ((on_report_peer pid change pm).out_queue
            ≡ (pm.out_queue ++ notify_peer_punished pid change ∷ []) ++ drop_unless b pid))
      is_lowered (reported pid change pm info e)
