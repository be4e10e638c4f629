-- ===== src/Handel/Verified.antt =====
-- What a Handel round keeps in its levels and sends, of spectrum-handel/src/lib.rs, is verified.
pub mod Steps
pub mod Sent
pub mod Runs
use spectrum.Handel.Aggregation.{
  Scoring, Verification, ban_sender, score_aggregate, score_all, score_one, shrink, verify_all,
  verify_one,
}
use spectrum.Handel.Partitioning.Levels.{levels}
use spectrum.Handel.Round.{run_level}
use spectrum.Handel.State.{
  ActiveLevel, Handel, OneShotMessage, Ops, PendingContribution, ScoredContributionTraced,
  level_ref,
}
use spectrum.Prelude.{
  All, All-append, All-get, Bool-cases, List, Option, Option-cases, Outcome, Yields, Yields-bind,
  Yields-trivial, [], get_elem?, inl, inr, ltb, none, refl, some, true, unwrap, ℕ, ◌>>=◌, ◌∷◌, ◌≡◌,
}

pub Yields-unwrap :
    {A : Type 0} (P : A → Type 0) (e : Option A)
    → ((a : A) → e ≡ some a → P a)
    → Yields P (unwrap e)
Yields-unwrap P none f = tt
Yields-unwrap P (some a) f = f a refl

shrink-trivial :
    {A : Type 0} (P : A → Type 0) (w factor : ℕ) (f : ℕ → Outcome A)
    → ((n : ℕ) → Yields P (f n))
    → Yields P (shrink w factor >>= f)
shrink-trivial P w factor f h =
    Yields-bind (λ n. Unit) P (shrink w factor) f (Yields-trivial (shrink w factor)) (λ n u. h n)

module _ {C : Type 0} (ops : Ops C) where
  abbrev pub Holds : C → Type 0
  Holds c = Ops.verify ops c ≡ true

  abbrev pub HoldsIfAny : Option C → Type 0
  HoldsIfAny none = Unit
  HoldsIfAny (some c) = Holds c

  abbrev pub LevelVerified : Option (ActiveLevel C) → Type 0
  LevelVerified none = Unit
  LevelVerified (some lvl) =
      Holds (lvl.best_contribution).contribution × All Holds lvl.individual_contributions

  abbrev pub MessageVerified : OneShotMessage C → Type 0
  MessageVerified m =
      Holds (m.message).aggregate_contribution × HoldsIfAny (m.message).individual_contribution

  -- The levels and the waiting messages hold verified contributions only.
  unfoldable pub AllVerified : Handel C → Type 0
  AllVerified h = All LevelVerified h.levels × All MessageVerified h.outbox

  pub level_ref-verified :
      (level : ℕ) (h : Handel C)
      → All LevelVerified h.levels
      → Yields LevelVerified (level_ref level h)
  unfolding level_ref
  level_ref-verified level h v =
      Yields-unwrap LevelVerified (get_elem? h.levels level)
        (λ l e. All-get LevelVerified h.levels level l v e)

  score_one-verified :
      (factor : ℕ) (best : C) (c : PendingContribution C) (s : Scoring C)
      → All Holds s.individual
      → Yields (λ s'. All Holds s'.individual) (score_one ops factor best c s)
  unfolding score_one score_aggregate ban_sender
  score_one-verified factor best c s v = elim (Option-cases c.individual_contribution) [
    | inl e ↦ rw e v
    | inr (ic, e) ↦ elim (Bool-cases (Ops.verify ops ic)) [
      | inl good ↦ rw (e, good) (All-append Holds s.individual (ic ∷ []) v (good, tt))
      | inr bad ↦
          rw (e, bad) (shrink-trivial (λ s'. All Holds s'.individual) s.window factor _ (λ n. v))
    ]
  ]

  verify_one-verified :
      (factor : ℕ) (sc : ScoredContributionTraced C) (v : Verification C)
      → Holds (v.best).contribution
      → Yields (λ v'. Holds (v'.best).contribution) (verify_one ops factor sc v)
  unfolding verify_one
  verify_one-verified factor sc v h = elim (Bool-cases (Ops.verify ops sc.contribution)) [
    | inl good ↦ elim (Bool-cases (ltb (v.best).score sc.score)) [
      | inl more ↦ rw (good, more) good
      | inr less ↦ rw (good, less) h
    ]
    | inr bad ↦
        rw bad (shrink-trivial (λ v'. Holds (v'.best).contribution) v.window factor _ (λ n. h))
  ]

  score_all-verified :
      (factor : ℕ) (best : C) (cs : List (PendingContribution C)) (s : Scoring C)
      → All Holds s.individual
      → Yields (λ s'. All Holds s'.individual) (score_all ops factor best cs s)
  unfolding score_all
  score_all-verified factor best [] s v = v
  score_all-verified factor best (c ∷ cs) s v =
      Yields-bind (λ s'. All Holds s'.individual) (λ s'. All Holds s'.individual)
        (score_one ops factor best c s) _ (score_one-verified factor best c s v)
        (λ s' v'. score_all-verified factor best cs s' v')

  verify_all-verified :
      (factor : ℕ) (scs : List (ScoredContributionTraced C)) (v : Verification C)
      → Holds (v.best).contribution
      → Yields (λ v'. Holds (v'.best).contribution) (verify_all ops factor scs v)
  unfolding verify_all
  verify_all-verified factor [] v h = h
  verify_all-verified factor (sc ∷ scs) v h =
      Yields-bind (λ v'. Holds (v'.best).contribution) (λ v'. Holds (v'.best).contribution)
        (verify_one ops factor sc v) _ (verify_one-verified factor sc v h)
        (λ v' h'. verify_all-verified factor scs v' h')

  -- The level after its scoring and verification, and the rest of the state.
  pub run_level-verified :
      (lvl : ActiveLevel C) (h : Handel C)
      → LevelVerified (some lvl)
      → AllVerified h
      → Yields (λ r. LevelVerified (some r.0) × AllVerified r.1) (run_level ops lvl h)
  unfolding run_level AllVerified
  run_level-verified lvl h l v =
      Yields-bind {A = Scoring C} (λ s. All Holds s.individual)
        (λ r. LevelVerified (some r.0) × AllVerified r.1) _ _ (score_all-verified _ _ _ _ l.1)
        (λ s sv.
          Yields-bind {A = Verification C} (λ w. Holds (w.best).contribution)
            (λ r. LevelVerified (some r.0) × AllVerified r.1) _ _ (verify_all-verified _ _ _ l.0)
            (λ w wv. ((wv, sv), v)))
