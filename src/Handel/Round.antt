-- ===== src/Handel/Round.antt =====
-- The calls that drive a Handel round, of spectrum-handel/src/lib.rs: `run_aggregation`,
-- `handle_contribution`, `inject_message` and `poll`.
use spectrum.Handel.Aggregation.{is_complete, prioritize, score_all, verify_all}
use spectrum.Handel.Overlay.{vp}
use spectrum.Handel.Partitioning.{PeerIx}
use spectrum.Handel.Sending.{run_dissemination, run_fast_path}
use spectrum.Handel.State.{
  ActiveLevel, Handel, HandelMessage, OneShotMessage, Ops, completed_level, get_complete_aggregate,
  level_ref, next_non_active_level, set_level, try_activate_level,
}
use spectrum.PeerManager.Data.{PeerId}
use spectrum.Prelude.{
  Bool, List, Option, Outcome, [], add, contains, false, get_elem?, if◌then◌else◌, insert, leb,
  lookup, none, returned, reverse, set, some, true, unwrap, ℕ, ◌+◌, ◌>>=◌, ◌||◌, ◌∷◌,
}

-- What `poll` returns: nothing yet, a message to send, or the aggregate.
pub data Polled (C : Type 0) : Type 0 where
  waiting : Polled C
  outgoing : OneShotMessage C → Polled C
  finished : C → Polled C

-- A `Sleep` that is over.
abbrev pub elapsed : ℕ → ℕ → Bool
elapsed now deadline = leb deadline now

module _ {C : Type 0} where
  -- `handle_contribution`: `none` is the error. The completed level of the sender is recorded in
  -- either case, but not for an unknown sender.
  unfoldable pub note_completed : PeerIx → ℕ → Bool → Handel C → Handel C
  note_completed pix level true h = h
  note_completed pix level false h =
      let before : List ℕ = elim (lookup pix h.peers_completed_levels) [ none ↦ [] | some s ↦ s ] in
      record h { peers_completed_levels = insert pix (add level before) h.peers_completed_levels }

  unfoldable pub handle_contribution :
      PeerId → ℕ → Bool → C → Option C → Handel C → Outcome (Handel C × Bool)
  handle_contribution pid level contact aggregate individual h =
      elim ((h.peer_partitions).try_index pid) [
        | none ↦ returned (h, false)
        | some pix ↦
            let h' = note_completed pix level contact h in
            (do
              l ← level_ref level h'
              if contains pix h'.byzantine_nodes || completed_level l
                  then returned (h', false)
                  else (do
                    at ← unwrap (get_elem? h'.unverified_contributions level)
                    returned (
                      record h' {
                        unverified_contributions = set h'.unverified_contributions level (
                            insert pix
                              (record {
                                sender_id = pix;
                                aggregate_contribution = aggregate;
                                individual_contribution = individual;
                              })
                              at);
                      },
                      true,
                    )))
      ]

  unfoldable pub disseminate_when_due : ℕ → Handel C → Outcome (Handel C)
  disseminate_when_due now h =
      if elapsed now h.next_dissemination
      then (do
        h' ← run_dissemination h
        returned (record h' { next_dissemination = now + (h.conf).dissemination_delay }))
      else returned h

  unfoldable pub activate_when_due : ℕ → Handel C → Outcome (Handel C)
  activate_when_due now h =
      if elapsed now h.next_activation
      then (elim (next_non_active_level h) [
        | none ↦ returned h
        | some level ↦ (do
          h' ← try_activate_level level h
          returned (record h' { next_activation = now + (h.conf).level_activation_delay }))
      ])
      else returned h

  -- The end of `poll`: a message of the outbox, the aggregate, or nothing. `BASE_THROTTLE_DURATION`
  -- is a millisecond.
  unfoldable pub poll_out : ℕ → Handel C → Outcome (Handel C × Polled C)
  poll_out now h = elim h.outbox [
    | m ∷ ms ↦ returned (record h { outbox = ms; next_processing = some (now + 1) }, outgoing m)
    | [] ↦ (do
      ca ← get_complete_aggregate h
      returned (elim ca [
        | some c ↦ (record h { next_processing = none }, finished c)
        | none ↦ (record h { next_processing = some (now + (h.conf).throttle_factor) }, waiting)
      ]))
  ]

  -- `poll` at the time `now`, in milliseconds.
  unfoldable pub poll : ℕ → Handel C → Outcome (Handel C × Polled C)
  poll now h = do
    h1 ← disseminate_when_due now h
    h2 ← activate_when_due now h1
    elim h2.next_processing [
      | none ↦ poll_out now h2
      | some deadline ↦ if elapsed now deadline then poll_out now h2 else returned (h2, waiting)
    ]

module _ {C : Type 0} (ops : Ops C) where
  -- The scoring and the verification of what the level has prioritized: the level and the window
  -- afterwards, and the peers found out. The last contribution is popped first.
  unfoldable pub run_level : ActiveLevel C → Handel C → Outcome (ActiveLevel C × Handel C)
  run_level lvl h = do
    factor ← returned (h.conf).window_shrinking_factor
    s ←
        score_all ops factor (lvl.best_contribution).contribution
          (reverse lvl.prioritized_contributions)
          (record {
            window = h.scoring_window;
            byzantine = h.byzantine_nodes;
            individual = lvl.individual_contributions;
            scored = [];
          })
    v ←
        verify_all ops factor s.scored
          (record { window = s.window; byzantine = s.byzantine; best = lvl.best_contribution })
    returned (
      record lvl {
        prioritized_contributions = [];
        individual_contributions = s.individual;
        best_contribution = v.best;
      },
      record h { scoring_window = v.window; byzantine_nodes = v.byzantine },
    )

  -- The end of `run_aggregation`.
  unfoldable pub complete_level : ℕ → ActiveLevel C → Handel C → Outcome (Handel C)
  complete_level level lvl h = do
    complete ← is_complete ops (lvl.best_contribution).contribution level (h.conf).threshold
    if complete
        then (do
          h' ← run_fast_path level (set_level level (record lvl { is_completed = true }) h)
          try_activate_level (level + 1) h')
        else returned (set_level level lvl h)

  -- `run_aggregation`.
  unfoldable pub run_aggregation : ℕ → Handel C → Outcome (Handel C)
  run_aggregation level h = do
    l ← level_ref level h
    elim l [
      | none ↦ returned h
      | some lvl ↦ (do
        unverified ← unwrap (get_elem? h.unverified_contributions level)
        elim unverified [
          | [] ↦ returned h
          | u ∷ us ↦ (do
            peers ← (h.peer_partitions).at_level level vp
            chosen ←
                returned
                  (prioritize ops h.scoring_window peers (u ∷ us) lvl.prioritized_contributions)
            (lvl', h') ←
                run_level (record lvl { prioritized_contributions = chosen.1 })
                  (record h {
                    unverified_contributions = set h.unverified_contributions level chosen.0;
                  })
            complete_level level lvl' h')
        ])
    ]

  -- `inject_message`.
  unfoldable pub inject_message : PeerId → HandelMessage C → Handel C → Outcome (Handel C)
  inject_message pid msg h = do
    (h', accepted) ←
        handle_contribution pid msg.level msg.contact_sender msg.aggregate_contribution
          msg.individual_contribution h
    if accepted then run_aggregation msg.level h' else returned h'
