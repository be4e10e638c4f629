-- ===== src/Handel/State.antt =====
-- The state of a Handel round: spectrum-handel/src/lib.rs and message.rs. The contribution type `C`
-- comes with `Ops`; `verify` is at the public data of the round. The peer partitions are the trait
-- of partitioning.rs.
use spectrum.Handel.Overlay.{
  BinomialPeerPartitions, PeerOrd, addr_hint, identify_peer, num_levels, peers_at_level,
  try_index_peer, vp,
}
use spectrum.Handel.Partitioning.{PeerIx}
use spectrum.PeerManager.Data.{Multiaddr, PeerId}
use spectrum.Prelude.{
  Bool, List, Option, Outcome, [], false, get_elem?, if◌then◌else◌, length, ltb, none, panicked,
  replicate, returned, set, some, suc, true, unwrap, usize, zero, ℕ, ◌*◌, ◌+◌, ◌-◌, ◌/◌, ◌==◌,
  ◌>>=◌, ◌∷◌,
}

pub record Ops (C : Type 0) : Type 0 where
  pub try_combine : C → C → Option C
  pub weight : C → ℕ
  pub verify : C → Bool

pub record PeerPartitions : Type 0 where
  pub at_level : ℕ → PeerOrd → Outcome (List PeerIx)
  pub identify : PeerIx → Outcome PeerId
  pub try_index : PeerId → Option PeerIx
  pub hint : PeerId → Option Multiaddr
  pub count : ℕ

-- The binomial partitions as an implementation of the trait.
pub binomial : BinomialPeerPartitions → PeerPartitions
unfolding peers_at_level identify_peer try_index_peer addr_hint num_levels
binomial pp = record {
  at_level = λ level ord. peers_at_level level ord pp;
  identify = λ pix. identify_peer pix pp;
  try_index = λ pid. try_index_peer pid pp;
  hint = λ pid. addr_hint pid pp;
  count = num_levels pp;
}

pub record Threshold : Type 0 where
  pub num : ℕ
  pub denom : ℕ

-- `Threshold::min`.
unfoldable pub threshold_min : Threshold → ℕ → Outcome ℕ
threshold_min t n = if t.denom == 0 then panicked else returned (usize (n * t.num) / t.denom)

pub record HandelConfig : Type 0 where
  pub threshold : Threshold
  pub window_shrinking_factor : ℕ
  pub initial_scoring_window : ℕ
  pub fast_path_window : ℕ
  pub dissemination_delay : ℕ
  pub level_activation_delay : ℕ
  pub throttle_factor : ℕ

pub record PendingContribution (C : Type 0) : Type 0 where
  pub sender_id : PeerIx
  pub aggregate_contribution : C
  pub individual_contribution : Option C

pub record ScoredContribution (C : Type 0) : Type 0 where
  pub score : ℕ
  pub contribution : C

pub record ScoredContributionTraced (C : Type 0) : Type 0 where
  pub score : ℕ
  pub sender_id : PeerIx
  pub contribution : C

-- `Verified` is a mark without content.
pub record ActiveLevel (C : Type 0) : Type 0 where
  pub prioritized_contributions : List (PendingContribution C)
  pub individual_contributions : List C
  pub best_contribution : ScoredContribution C
  pub last_contacted_peer_ix : Option ℕ
  pub sent_contribution_scores : List ℕ
  pub is_completed : Bool

pub record HandelMessage (C : Type 0) : Type 0 where
  pub level : ℕ
  pub individual_contribution : Option C
  pub aggregate_contribution : C
  pub contact_sender : Bool

-- `NetworkAction::SendOneShotMessage`; the version is always the default.
pub record OneShotMessage (C : Type 0) : Type 0 where
  pub peer : PeerId
  pub addr_hint : Option Multiaddr
  pub message : HandelMessage C

pub record Handel (C : Type 0) : Type 0 where
  pub conf : HandelConfig
  pub scoring_window : ℕ
  pub unverified_contributions : List (List (PeerIx × PendingContribution C))
  pub peer_partitions : PeerPartitions
  pub levels : List (Option (ActiveLevel C))
  pub byzantine_nodes : List PeerIx
  pub own_contribution_recvs : List PeerIx
  pub outbox : List (OneShotMessage C)
  pub own_peer_ix : PeerIx
  pub peers_completed_levels : List (PeerIx × List ℕ)
  pub next_processing : Option ℕ
  pub next_dissemination : ℕ
  pub next_activation : ℕ

module _ {C : Type 0} where
  -- `ActiveLevel::new`.
  unfoldable pub new_level : ScoredContribution C → ℕ → ActiveLevel C
  new_level best n = record {
    prioritized_contributions = [];
    individual_contributions = [];
    best_contribution = best;
    last_contacted_peer_ix = none;
    sent_contribution_scores = replicate n 0;
    is_completed = false;
  }

  -- `ActiveLevel::unit`.
  unfoldable pub unit_level : ScoredContribution C → ActiveLevel C
  unit_level best = record {
    prioritized_contributions = [];
    individual_contributions = [];
    best_contribution = best;
    last_contacted_peer_ix = none;
    sent_contribution_scores = 0 ∷ [];
    is_completed = true;
  }

  -- `levels[level]`.
  unfoldable pub level_ref : ℕ → Handel C → Outcome (Option (ActiveLevel C))
  level_ref level h = unwrap (get_elem? h.levels level)

  unfoldable pub set_level : ℕ → ActiveLevel C → Handel C → Handel C
  set_level level lvl h = record h { levels = set h.levels level (some lvl) }

  -- `Handel::new` at the time `now`; the two writes panic on fewer than two levels.
  unfoldable pub new_handel : ℕ → HandelConfig → C → PeerPartitions → PeerIx → Outcome (Handel C)
  unfolding new_level unit_level
  new_handel now conf own pp own_ix =
      let best : ScoredContribution C = record { score = 1; contribution = own } in
      if ltb pp.count 2
      then panicked
      else returned (record {
        conf = conf;
        scoring_window = conf.initial_scoring_window;
        unverified_contributions = replicate pp.count [];
        peer_partitions = pp;
        levels =
            set (set (replicate pp.count none) 0 (some (unit_level best))) 1
              (some (new_level best 1));
        byzantine_nodes = [];
        own_contribution_recvs = [];
        outbox = [];
        own_peer_ix = own_ix;
        peers_completed_levels = [];
        next_processing = none;
        next_dissemination = now + conf.dissemination_delay;
        next_activation = now + conf.level_activation_delay;
      })

  abbrev pub active : Option (ActiveLevel C) → Bool
  active none = false
  active (some lvl) = true

  abbrev pub completed_level : Option (ActiveLevel C) → Bool
  completed_level none = false
  completed_level (some lvl) = lvl.is_completed

  -- `is_active`.
  unfoldable pub is_active : ℕ → Handel C → Bool
  is_active level h = elim (get_elem? h.levels level) [ none ↦ false | some l ↦ active l ]

  -- `try_activate_level`, where `rest` levels are left from `level` on: with none left, `get` finds
  -- nothing. A level that is activated takes over the best contribution below it; an empty one is
  -- complete at once, and the next is tried.
  unfoldable pub activate_from : ℕ → ℕ → Handel C → Outcome (Handel C)
  activate_from zero level h = returned h
  activate_from (suc rest) level h = if is_active level h then returned h else (do
    below ← if level == 0 then panicked else level_ref (level - 1) h
    elim below [
      | none ↦ returned h
      | some prev ↦ (do
        peers ← (h.peer_partitions).at_level level vp
        elim peers [
          | [] ↦
              activate_from rest (level + 1) (set_level level (unit_level prev.best_contribution) h)
          | p ∷ ps ↦
              returned (set_level level (new_level prev.best_contribution (length (p ∷ ps))) h)
        ])
    ])

  unfoldable pub try_activate_level : ℕ → Handel C → Outcome (Handel C)
  unfolding activate_from
  try_activate_level level h = activate_from (length h.levels - level) level h

  unfoldable pub next_inactive_from : ℕ → List (Option (ActiveLevel C)) → Option ℕ
  next_inactive_from i [] = none
  next_inactive_from i (some l ∷ ls) = next_inactive_from (i + 1) ls
  next_inactive_from i (none ∷ ls) = some i

  -- `next_non_active_level`.
  unfoldable pub next_non_active_level : Handel C → Option ℕ
  next_non_active_level h = elim (next_inactive_from 0 h.levels) [
    | none ↦ none
    | some i ↦ if ltb i (h.peer_partitions).count then some i else none
  ]

  -- `get_own_contribution`: `levels[0]` must be active.
  unfoldable pub get_own_contribution : Handel C → Outcome C
  get_own_contribution h = do
    l ← level_ref 0 h
    lvl ← unwrap l
    returned (lvl.best_contribution).contribution

  -- `get_complete_aggregate`.
  unfoldable pub get_complete_aggregate : Handel C → Outcome (Option C)
  get_complete_aggregate h = do
    l ← if length h.levels == 0 then panicked else level_ref (length h.levels - 1) h
    returned (elim l [
      | none ↦ none
      | some lvl ↦ if lvl.is_completed then some (lvl.best_contribution).contribution else none
    ])

  unfoldable pub best_from : List (Option (ActiveLevel C)) → C → C
  best_from [] c = c
  best_from (none ∷ ls) c = c
  best_from (some lvl ∷ ls) c = best_from ls (lvl.best_contribution).contribution

  -- `best_contribution`: that of the last of the levels that are active one after another.
  unfoldable pub best_contribution_of : Handel C → Outcome C
  best_contribution_of h = do own ← get_own_contribution h; returned (best_from h.levels own)
