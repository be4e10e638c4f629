-- ===== src/Handel/Aggregation.antt =====
-- `run_aggregation` and `run_fast_path` of spectrum-handel/src/lib.rs.
use spectrum.Handel.Partitioning.{PeerIx}
use spectrum.Handel.State.{
  Ops, PendingContribution, ScoredContribution, ScoredContributionTraced, Threshold, threshold_min,
}
use spectrum.Prelude.{
  Bool, List, Outcome, [], add, if◌then◌else◌, leb, length, lookup, ltb, max, min, none, panicked,
  remove, returned, some, u32, usize, ℕ, ◌*◌, ◌++◌, ◌-◌, ◌/◌, ◌==◌, ◌>>=◌, ◌^◌, ◌∷◌,
}

-- What the scoring of a level's contributions carries.
pub record Scoring (C : Type 0) : Type 0 where
  pub window : ℕ
  pub byzantine : List PeerIx
  pub individual : List C
  pub scored : List (ScoredContributionTraced C)

-- What the verification carries.
pub record Verification (C : Type 0) : Type 0 where
  pub window : ℕ
  pub byzantine : List PeerIx
  pub best : ScoredContribution C

-- `max(window.saturating_div(factor), 1)`.
unfoldable pub shrink : ℕ → ℕ → Outcome ℕ
shrink window factor = if factor == 0 then panicked else returned (max (window / factor) 1)

-- `window.saturating_mul(factor)`.
unfoldable pub widen : ℕ → ℕ → ℕ
widen window factor = min (window * factor) (2 ^ 64 - 1)

module _ {C : Type 0} (ops : Ops C) where
  open ops use {try_combine, weight, verify}

  -- `is_complete`.
  unfoldable pub is_complete : C → ℕ → Threshold → Outcome Bool
  is_complete c level t = do
    least ← threshold_min t (usize (2 ^ u32 level))
    returned (leb least (weight c))

  -- A `BTreeSet` ordered by the score alone: of two contributions with one score it keeps the first.
  unfoldable pub insert_scored :
      ScoredContributionTraced C
      → List (ScoredContributionTraced C)
      → List (ScoredContributionTraced C)
  insert_scored s [] = s ∷ []
  insert_scored s (t ∷ ts) =
      if s.score == t.score
      then t ∷ ts
      else if ltb s.score t.score
      then s ∷ t ∷ ts
      else t ∷ insert_scored s ts

  -- The first loop: contributions leave the unverified ones in the order of the peers, until the
  -- window is full.
  unfoldable pub prioritize :
      ℕ
      → List PeerIx
      → List (PeerIx × PendingContribution C)
      → List (PendingContribution C)
      → List (PeerIx × PendingContribution C) × List (PendingContribution C)
  prioritize window [] unverified chosen = (unverified, chosen)
  prioritize window (pix ∷ peers) unverified chosen =
      let chosen' : List (PendingContribution C) = elim (lookup pix unverified) [
        | none ↦ chosen
        | some uc ↦ chosen ++ uc ∷ []
      ] in
      let unverified' = remove pix unverified in
      let rest = prioritize window peers unverified' chosen' in
      if leb window (length chosen') then (unverified', chosen') else rest

  -- The individual contributions that combine are added to the aggregate one by one.
  unfoldable pub add_individuals : C → List C → C
  add_individuals acc [] = acc
  add_individuals acc (ic ∷ ics) =
      add_individuals (elim (try_combine acc ic) [ none ↦ acc | some aggr ↦ aggr ]) ics

  -- What is scored of an aggregate contribution.
  unfoldable pub combined : C → C → List C → C
  combined best aggregate individual = elim (try_combine best aggregate) [
    | some aggr ↦ aggr
    | none ↦ add_individuals aggregate individual
  ]

  unfoldable pub score_aggregate : C → PendingContribution C → Scoring C → Scoring C
  score_aggregate best c s =
      let aggr = combined best c.aggregate_contribution s.individual in
      record s {
        scored =
            insert_scored
              (record { score = weight aggr; sender_id = c.sender_id; contribution = aggr })
              s.scored;
      }

  unfoldable pub ban_sender : ℕ → PeerIx → Scoring C → Outcome (Scoring C)
  ban_sender factor pix s = do
    w ← shrink s.window factor
    returned (record s { byzantine = add pix s.byzantine; window = w })

  -- One round of the `while` loop: the individual contribution is checked first.
  unfoldable pub score_one : ℕ → C → PendingContribution C → Scoring C → Outcome (Scoring C)
  unfolding score_aggregate ban_sender
  score_one factor best c s = elim c.individual_contribution [
    | none ↦ returned (score_aggregate best c s)
    | some ic ↦
        if verify ic
        then returned (score_aggregate best c (record s { individual = s.individual ++ ic ∷ [] }))
        else ban_sender factor c.sender_id s
  ]

  unfoldable pub score_all : ℕ → C → List (PendingContribution C) → Scoring C → Outcome (Scoring C)
  score_all factor best [] s = returned s
  score_all factor best (c ∷ cs) s = do s' ← score_one factor best c s; score_all factor best cs s'

  -- One round of the loop over the scored contributions.
  unfoldable pub verify_one :
      ℕ → ScoredContributionTraced C → Verification C → Outcome (Verification C)
  verify_one factor sc v =
      if verify sc.contribution
      then returned (record v {
        best =
            if ltb (v.best).score sc.score
            then record { score = sc.score; contribution = sc.contribution }
            else v.best;
        window = widen v.window factor;
      })
      else (do
        w ← shrink v.window factor
        returned (record v { byzantine = add sc.sender_id v.byzantine; window = w }))

  unfoldable pub verify_all :
      ℕ → List (ScoredContributionTraced C) → Verification C → Outcome (Verification C)
  verify_all factor [] v = returned v
  verify_all factor (sc ∷ scs) v = do v' ← verify_one factor sc v; verify_all factor scs v'
