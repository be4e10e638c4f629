-- ===== src/Handel/Examples.antt =====
-- A Handel round on a concrete run: two nodes, and contributions that are numbers, which combine by
-- addition and verify below 100.
use spectrum.Handel.Aggregation.{
  combined, insert_scored, is_complete, prioritize, score_aggregate, score_all, score_one,
  verify_all, verify_one, widen,
}
use spectrum.Handel.Choice.{IsOpen, next_peer-IsOpen, next_peer-none}
use spectrum.Handel.Contributions.{completed_in, handle_contribution_answers, waiting_in}
use spectrum.Handel.Orders.{SameMembers, ordered_by_cvp-returns}
use spectrum.Handel.Overlay.{
  GenPermutation, PeerOrd, insert_by, ordered_by_cvp, ordered_by_vp, sort_by_key,
}
use spectrum.Handel.Partitioning.{PeerIx, bin_partition, normalize, partition_loop, range, with_own}
use spectrum.Handel.Partitioning.Members.{level_at}
use spectrum.Handel.Partitioning.Partition.{
  IsBinomial, bin_partition-IsBinomial, bin_partition_symmetric, normalize_least,
}
use spectrum.Handel.Progress.{WindowFits, run_level-improves, run_level_window}
use spectrum.Handel.Round.{
  Polled, activate_when_due, complete_level, disseminate_when_due, finished, handle_contribution,
  inject_message, note_completed, poll, poll_out, run_aggregation, run_level,
}
use spectrum.Handel.Sending.{
  completed_by, dedup, first_open, message_for, next_peer, open_at, own_best, push_message,
  run_fast_path, send_all, window_nodes,
}
use spectrum.Handel.State.{
  ActiveLevel, Handel, HandelConfig, HandelMessage, Ops, PeerPartitions, activate_from,
  get_complete_aggregate, is_active, level_ref, new_handel, new_level, set_level, threshold_min,
  try_activate_level, unit_level,
}
use spectrum.Handel.Verified.{AllVerified}
use spectrum.Handel.Verified.Runs.{
  OutVerified, Reach, Reach-AllVerified, injected, poll_verified, polled, start,
}
use spectrum.PeerManager.Data.{PeerId}
use spectrum.Prelude.{
  Bool, List, Option, Outcome, Returns, Returns, Yields, [], add, arith, contains, false,
  if◌then◌else◌, if◌then◌else◌, insert, lookup, ltb, none, panicked, refl, remove, returned, some,
  true, ℕ, ◌%◌, ◌&&◌, ◌*◌, ◌+◌, ◌<◌, ◌==◌, ◌^◌, ◌||◌, ◌∷◌, ◌≡◌, ◌≤◌, ◌⊎◌,
}

double_sum : Ops ℕ
double_sum = record { try_combine = λ a b. some (a + b); weight = λ a. a; verify = λ a. ltb a 100 }

level_of_two : ℕ → PeerOrd → Outcome (List PeerIx)
level_of_two level ord = returned (if level == 1 then 1 ∷ [] else [])

node_of : PeerId → Option PeerIx
node_of pid = if pid == 11 then some 1 else none

two_nodes : PeerPartitions
unfolding level_of_two node_of
two_nodes = record {
  at_level = level_of_two;
  identify = λ pix. returned (pix + 10);
  try_index = node_of;
  hint = λ pid. none;
  count = 2;
}

conf : HandelConfig
conf = record {
  threshold = record { num = 1; denom = 1 };
  window_shrinking_factor = 2;
  initial_scoring_window = 4;
  fast_path_window = 4;
  dissemination_delay = 100;
  level_activation_delay = 50;
  throttle_factor = 5;
}

blank : Handel ℕ
unfolding two_nodes conf
blank = record {
  conf = conf;
  scoring_window = 4;
  unverified_contributions = [];
  peer_partitions = two_nodes;
  levels = [];
  byzantine_nodes = [];
  own_contribution_recvs = [];
  outbox = [];
  own_peer_ix = 0;
  peers_completed_levels = [];
  next_processing = none;
  next_dissemination = 0;
  next_activation = 0;
}

-- The state that a call leaves.
abbrev left : Outcome (Handel ℕ) → Handel ℕ
unfolding blank two_nodes conf
left (returned h) = h
left panicked = blank

abbrev left_by_poll : Outcome (Handel ℕ × Polled ℕ) → Handel ℕ
unfolding blank two_nodes conf
left_by_poll (returned r) = r.0
left_by_poll panicked = blank

at_start : Handel ℕ
unfolding left new_handel new_level unit_level two_nodes conf double_sum level_of_two node_of blank
at_start = left (new_handel 0 conf 1 two_nodes 0)

-- The other node's contribution completes level 1, and the fast path answers it.
incoming : HandelMessage ℕ
incoming = record {
  level = 1;
  individual_contribution = some 2;
  aggregate_contribution = 2;
  contact_sender = true;
}

after_message : Handel ℕ
unfolding left at_start incoming new_handel new_level unit_level two_nodes conf double_sum
    level_of_two node_of blank inject_message run_aggregation complete_level run_level
    handle_contribution note_completed run_fast_path send_all own_best push_message message_for
    completed_by window_nodes dedup verify_all verify_one score_all score_one score_aggregate
    combined prioritize insert_scored is_complete threshold_min widen try_activate_level
    activate_from is_active set_level level_ref sort_by_key insert_by lookup insert remove contains
    add
after_message = left (inject_message double_sum 11 incoming at_start)

after_poll : Handel ℕ
unfolding left_by_poll after_message at_start new_handel new_level unit_level two_nodes conf
    double_sum level_of_two node_of blank inject_message run_aggregation complete_level run_level
    handle_contribution note_completed run_fast_path send_all own_best push_message message_for
    completed_by window_nodes dedup verify_all verify_one score_all score_one score_aggregate
    combined prioritize insert_scored is_complete threshold_min widen try_activate_level
    activate_from is_active set_level level_ref sort_by_key insert_by lookup insert remove contains
    add poll poll_out disseminate_when_due activate_when_due get_complete_aggregate
after_poll = left_by_poll (poll 1 after_message)

run_to_end : Reach double_sum at_start after_poll
unfolding left left_by_poll after_poll after_message at_start incoming new_handel new_level
    unit_level two_nodes conf double_sum level_of_two node_of blank inject_message run_aggregation
    complete_level run_level handle_contribution note_completed run_fast_path send_all own_best
    push_message message_for completed_by window_nodes dedup verify_all verify_one score_all
    score_one score_aggregate combined prioritize insert_scored is_complete threshold_min widen
    try_activate_level activate_from is_active set_level level_ref sort_by_key insert_by lookup
    insert remove contains add poll poll_out disseminate_when_due activate_when_due
    get_complete_aggregate
run_to_end = polled 1 (injected 11 incoming start refl) refl

poll_verified_example : OutVerified double_sum (finished 3)
unfolding left left_by_poll after_poll after_message at_start incoming new_handel new_level
    unit_level two_nodes conf double_sum level_of_two node_of blank inject_message run_aggregation
    complete_level run_level handle_contribution note_completed run_fast_path send_all own_best
    push_message message_for completed_by window_nodes dedup verify_all verify_one score_all
    score_one score_aggregate combined prioritize insert_scored is_complete threshold_min widen
    try_activate_level activate_from is_active set_level level_ref sort_by_key insert_by lookup
    insert remove contains add poll poll_out disseminate_when_due activate_when_due
    get_complete_aggregate
poll_verified_example =
    poll_verified double_sum 0 3 conf 1 two_nodes 0 at_start after_poll
      (left_by_poll (poll 3 after_poll)) (finished 3) refl refl run_to_end refl

Reach-AllVerified_example : AllVerified double_sum after_poll
unfolding AllVerified left at_start two_nodes conf double_sum level_of_two node_of blank new_handel
    new_level unit_level
Reach-AllVerified_example =
    Reach-AllVerified double_sum at_start after_poll (((refl, tt), ((refl, tt), tt)), tt) run_to_end

handle_contribution_answers_example :
    Returns
      (λ r.
        (r.1 ≡ true)
        × ((other : PeerIx) (at : ℕ)
            → completed_in other at (r.0).peers_completed_levels ≡ (
                true && 1 == other && 1 == at
                || completed_in other at at_start.peers_completed_levels))
        × ((at : ℕ) (other : PeerIx)
            → waiting_in at other (r.0).unverified_contributions ≡ (
                if true && 1 == at && 1 == other
                then some (record {
                  sender_id = 1;
                  aggregate_contribution = 5;
                  individual_contribution = none;
                })
                else waiting_in at other at_start.unverified_contributions))
        × (r.0 ≡ record at_start {
          peers_completed_levels = (r.0).peers_completed_levels;
          unverified_contributions = (r.0).unverified_contributions;
        }))
      (handle_contribution 11 1 false 5 none at_start)
unfolding contains left at_start two_nodes conf double_sum level_of_two node_of blank new_handel
    new_level unit_level
handle_contribution_answers_example =
    handle_contribution_answers 11 1 1 false 5 none at_start _ [] refl refl refl

-- Nodes 4 and 6 have completed the level.
four_or_six : PeerIx → Bool
four_or_six pix = pix == 4 || pix == 6

next_peer-IsOpen_example : IsOpen four_or_six (4 ∷ 5 ∷ 6 ∷ []) (5, 1)
unfolding next_peer open_at first_open four_or_six
next_peer-IsOpen_example = next_peer-IsOpen four_or_six (4 ∷ 5 ∷ 6 ∷ []) (some 1) (5, 1) refl

next_peer-none_example : four_or_six 6 ≡ true
unfolding next_peer open_at first_open four_or_six
next_peer-none_example = next_peer-none four_or_six (4 ∷ 6 ∷ []) 0 refl 1 6 refl

own_best_level : ActiveLevel ℕ
unfolding new_level
own_best_level = new_level (record { score = 1; contribution = 1 }) 1

-- A level with a contribution to score.
busy : ActiveLevel ℕ
unfolding own_best_level new_level
busy = record own_best_level {
  prioritized_contributions =
      record { sender_id = 1; aggregate_contribution = 2; individual_contribution = some 200 } ∷ [];
}

run_level-improves_example :
    Yields
      (λ r. (busy.best_contribution).score ≤ ((r.0).best_contribution).score)
      (run_level double_sum busy at_start)
run_level-improves_example = run_level-improves double_sum busy at_start

run_level_window_example :
    Returns (λ r. WindowFits (r.1).scoring_window) (run_level double_sum busy at_start)
unfolding left at_start two_nodes conf double_sum level_of_two node_of blank new_handel new_level
    unit_level
run_level_window_example =
    run_level_window double_sum busy at_start (omega arith) (omega arith, omega arith)

bin_partition-IsBinomial_example :
    (ps : List (List PeerIx)) × (bin_partition 2 8 ≡ some ps)
    × (level_at ps 0 ≡ [])
    × IsBinomial 3 2 ps
bin_partition-IsBinomial_example = bin_partition-IsBinomial 2 2 (omega arith)

levels_of_2 : List (List PeerIx)
levels_of_2 = [] ∷ (3 ∷ []) ∷ (0 ∷ 1 ∷ []) ∷ (4 ∷ 5 ∷ 6 ∷ 7 ∷ []) ∷ []

levels_of_7 : List (List PeerIx)
levels_of_7 = [] ∷ (6 ∷ []) ∷ (4 ∷ 5 ∷ []) ∷ (0 ∷ 1 ∷ 2 ∷ 3 ∷ []) ∷ []

bin_partition_symmetric_example :
    contains 7 (level_at levels_of_2 3) ≡ contains 2 (level_at levels_of_7 3)
unfolding bin_partition partition_loop with_own range levels_of_2 levels_of_7
bin_partition_symmetric_example =
    bin_partition_symmetric 2 2 7 3 levels_of_2 levels_of_7 (omega arith) (omega arith) refl refl

normalize_least_example :
    (k : ℕ) × (normalize 5 ≡ some (2 ^ k)) × (5 ≤ 2 ^ k) × ((k ≡ 0) ⊎ (2 ^ k < 10))
normalize_least_example = normalize_least 5 (omega arith)

mixing : GenPermutation
mixing = record { gen_priority = λ pid. pid; gen_vp = λ i j. (i * 7 + j * 3) % 5 }

levels_of_1 : List (List PeerIx)
levels_of_1 = [] ∷ (0 ∷ []) ∷ (2 ∷ 3 ∷ []) ∷ []

ordered_by_cvp-returns_example :
    (out : List (List ℕ)) × (ordered_by_cvp mixing levels_of_1 1 4 ≡ returned out)
    × SameMembers out (ordered_by_vp mixing levels_of_1 1)
unfolding bin_partition partition_loop with_own range levels_of_1 contains
ordered_by_cvp-returns_example =
    ordered_by_cvp-returns mixing 1 1 levels_of_1 levels_of_1 (omega arith) refl
      (tt, ((refl, tt), ((refl, (refl, tt)), tt)))
