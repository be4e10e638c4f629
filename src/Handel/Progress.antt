-- ===== src/Handel/Progress.antt =====
-- What an aggregation of spectrum-handel/src/lib.rs does to the best contribution and the window.
use native.Mathlib.Nat.{div-le_self, mul-le-mul_left}
use spectrum.Handel.Aggregation.{
  Scoring, Verification, ban_sender, score_aggregate, score_all, score_one, shrink, verify_all,
  verify_one, widen,
}
use spectrum.Handel.Round.{run_level}
use spectrum.Handel.State.{ActiveLevel, Handel, Ops, PendingContribution, ScoredContributionTraced}
use spectrum.Prelude.{
  Bool-cases, List, Option-cases, Returns, Returns-bind, Yields, Yields-after, Yields-bind,
  Yields-map, [], arith, inl, inr, ltb, reverse, ℕ, ◌<◌, ◌==◌, ◌^◌, ◌∷◌, ◌≤◌,
}

module _ {C : Type 0} (ops : Ops C) where
  verify_one-improves :
      (factor : ℕ) (sc : ScoredContributionTraced C) (v : Verification C)
      → Yields (λ v'. (v.best).score ≤ (v'.best).score) (verify_one ops factor sc v)
  unfolding verify_one
  verify_one-improves factor sc v = elim (Bool-cases (Ops.verify ops sc.contribution)) [
    | inl good ↦ elim (Bool-cases (ltb (v.best).score sc.score)) [
      | inl more ↦ rw (good, more) (ground arith)
      | inr less ↦ rw (good, less) (omega arith)
    ]
    | inr bad ↦ rw bad (
        Yields-after (λ v'. (v.best).score ≤ (v'.best).score) (shrink v.window factor) _
          (λ n. omega arith))
  ]

  verify_all-improves :
      (factor : ℕ) (scs : List (ScoredContributionTraced C)) (v : Verification C)
      → Yields (λ v'. (v.best).score ≤ (v'.best).score) (verify_all ops factor scs v)
  unfolding verify_all
  verify_all-improves factor [] v = omega arith
  verify_all-improves factor (sc ∷ scs) v =
      Yields-bind (λ w. (v.best).score ≤ (w.best).score) (λ v'. (v.best).score ≤ (v'.best).score)
        (verify_one ops factor sc v) _ (verify_one-improves factor sc v)
        (λ w h.
          Yields-map (λ v'. (w.best).score ≤ (v'.best).score)
            (λ v'. (v.best).score ≤ (v'.best).score) _ (λ v' k. omega (arith, h, k))
            (verify_all-improves factor scs w))

  -- A level's best contribution is never replaced by one of a lower score.
  pub run_level-improves :
      (lvl : ActiveLevel C) (h : Handel C)
      → Yields
          (λ r. (lvl.best_contribution).score ≤ ((r.0).best_contribution).score)
          (run_level ops lvl h)
  unfolding run_level
  run_level-improves lvl h =
      Yields-after (λ r. (lvl.best_contribution).score ≤ ((r.0).best_contribution).score)
        (score_all ops (h.conf).window_shrinking_factor (lvl.best_contribution).contribution
          (reverse lvl.prioritized_contributions)
          (record {
            window = h.scoring_window;
            byzantine = h.byzantine_nodes;
            individual = lvl.individual_contributions;
            scored = [];
          }))
        _
        (λ s.
          Yields-bind (λ v. (lvl.best_contribution).score ≤ (v.best).score)
            (λ r. (lvl.best_contribution).score ≤ ((r.0).best_contribution).score)
            (verify_all ops (h.conf).window_shrinking_factor s.scored
              (record { window = s.window; byzantine = s.byzantine; best = lvl.best_contribution }))
            _ (verify_all-improves (h.conf).window_shrinking_factor s.scored _) (λ v k. k))

-- A window of at least one contribution, which fits in a `usize`.
abbrev pub WindowFits : ℕ → Type 0
WindowFits w = (1 ≤ w) × (w < 2 ^ 64)

shrink-WindowFits :
    (w factor : ℕ) → 1 ≤ factor → WindowFits w → Returns WindowFits (shrink w factor)
unfolding shrink
shrink-WindowFits w factor f k = elim (Bool-cases (factor == 0)) [
  | inl z ↦ absurd (ground arith)
  | inr n ↦ rw n (omega arith, omega (arith, div-le_self w factor, k.1))
]

widen-WindowFits : (w factor : ℕ) → 1 ≤ factor → WindowFits w → WindowFits (widen w factor)
unfolding widen
widen-WindowFits w factor f k = (omega (arith, mul-le-mul_left w f, k.0), omega arith)

module _ {C : Type 0} (ops : Ops C) (factor : ℕ) (f : 1 ≤ factor) where
  score_all-window :
      (best : C) (cs : List (PendingContribution C)) (s : Scoring C)
      → WindowFits s.window
      → Returns (λ s'. WindowFits s'.window) (score_all ops factor best cs s)
  unfolding score_all score_one score_aggregate ban_sender
  score_all-window best [] s k = k
  score_all-window best (c ∷ cs) s k =
      Returns-bind (λ s'. WindowFits s'.window) (λ s'. WindowFits s'.window)
        (score_one ops factor best c s) _
        (elim (Option-cases c.individual_contribution) [
          | inl e ↦ rw e k
          | inr (ic, e) ↦ elim (Bool-cases (Ops.verify ops ic)) [
            | inl good ↦ rw (e, good) k
            | inr bad ↦
                rw (e, bad)
                  (Returns-bind WindowFits (λ s'. WindowFits s'.window) (shrink s.window factor) _
                    (shrink-WindowFits s.window factor f k) (λ w kw. kw))
          ]
        ])
        (λ s' k'. score_all-window best cs s' k')

  verify_all-window :
      (scs : List (ScoredContributionTraced C)) (v : Verification C)
      → WindowFits v.window
      → Returns (λ v'. WindowFits v'.window) (verify_all ops factor scs v)
  unfolding verify_all verify_one
  verify_all-window [] v k = k
  verify_all-window (sc ∷ scs) v k =
      Returns-bind (λ v'. WindowFits v'.window) (λ v'. WindowFits v'.window)
        (verify_one ops factor sc v) _
        (elim (Bool-cases (Ops.verify ops sc.contribution)) [
          | inl good ↦ rw good (widen-WindowFits v.window factor f k)
          | inr bad ↦ rw bad (
              Returns-bind WindowFits (λ v'. WindowFits v'.window) (shrink v.window factor) _
                (shrink-WindowFits v.window factor f k) (λ w kw. kw))
        ])
        (λ v' k'. verify_all-window scs v' k')

-- With a shrinking factor that is not 0, scoring and verifying the contributions of a level does not
-- panic, and the scoring window stays at least 1 and within 64 bits, whatever was received.
pub run_level_window :
    {C : Type 0} (ops : Ops C) (lvl : ActiveLevel C) (h : Handel C)
    → 1 ≤ (h.conf).window_shrinking_factor
    → WindowFits h.scoring_window
    → Returns (λ r. WindowFits (r.1).scoring_window) (run_level ops lvl h)
unfolding run_level
run_level_window ops lvl h f k =
    Returns-bind (λ s. WindowFits s.window) (λ r. WindowFits (r.1).scoring_window)
      (score_all ops (h.conf).window_shrinking_factor (lvl.best_contribution).contribution
        (reverse lvl.prioritized_contributions)
        (record {
          window = h.scoring_window;
          byzantine = h.byzantine_nodes;
          individual = lvl.individual_contributions;
          scored = [];
        }))
      _ (score_all-window ops (h.conf).window_shrinking_factor f _ _ _ k)
      (λ s ks.
        Returns-bind (λ v. WindowFits v.window) (λ r. WindowFits (r.1).scoring_window)
          (verify_all ops (h.conf).window_shrinking_factor s.scored
            (record { window = s.window; byzantine = s.byzantine; best = lvl.best_contribution }))
          _ (verify_all-window ops (h.conf).window_shrinking_factor f s.scored _ ks) (λ v kv. kv))
