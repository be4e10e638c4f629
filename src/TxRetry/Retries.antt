-- ===== src/TxRetry/Retries.antt =====
-- When the scheduler of spectrum-ergo-connector/src/rocksdb/tx_retry_scheduler.rs gives up.
use mathlib.Core.Path.{subst}
use spectrum.Prelude.{
  List, Outcome, Returns, [], ap, arith, if◌then◌else◌, leb_ℤ, length, refl, returned, some, true,
  wrap_i64, ℕ, ℤ, ◌%◌, ◌+ℤ◌, ◌+◌, ◌<◌, ◌==◌, ◌>>=◌, ◌^◌, ◌∙◌, ◌∷◌, ◌≡◌, ◌≤◌,
}
use spectrum.TxRetry.Scheduler.{
  Status, TxOps, TxRetryScheduler, aborted, add_tx, current, in_progress, next_command,
  notify_failed, resubmit_tx,
}

module _ {T U : Type 0} (ops : TxOps T U) where
  -- Failures are notified one after another.
  unfoldable pub fail_all : List T → TxRetryScheduler T → Outcome (TxRetryScheduler T)
  fail_all [] s = returned s
  fail_all (t ∷ ts) s = do s' ← notify_failed ops t s; fail_all ts s'

  -- Each is the same transaction as the one before it, up to what equality ignores.
  abbrev pub SameTx : T → List T → Type 0
  SameTx t [] = Unit
  SameTx t (u ∷ us) = (ops.same t u ≡ true) × SameTx u us

  -- The status after `n` failures.
  abbrev pub after_failures : ℕ → ℕ → Status
  after_failures n retries = if n == retries then aborted else in_progress

  -- The state after a failure that is counted as the one after the `n`th.
  unfoldable failed : T → ℕ → TxRetryScheduler T → TxRetryScheduler T
  failed u n s = record s {
    tx = some u;
    count = some ((n + 1) % 2 ^ 32);
    status = if (n + 1) % 2 ^ 32 == s.max_retries then some aborted else s.status;
  }

  notify_failed_eq :
      (t u : T) (n : ℕ) (s : TxRetryScheduler T)
      → s.tx ≡ some t
      → ops.same t u ≡ true
      → s.count ≡ some n
      → notify_failed ops u s ≡ returned (failed u n s)
  unfolding notify_failed current failed
  notify_failed_eq t u n s e same c = ground arith

  failed_status :
      (u : T) (n : ℕ) (s : TxRetryScheduler T)
      → s.status ≡ some (after_failures n s.max_retries)
      → n < s.max_retries
      → s.max_retries < 2 ^ 32
      → (failed u n s).status ≡ some (after_failures (n + 1) s.max_retries)
  unfolding failed
  failed_status u n s st le lt = ground arith

  fail_from :
      (t : T) (ts : List T) (n : ℕ) (s : TxRetryScheduler T)
      → SameTx t ts
      → s.tx ≡ some t
      → s.count ≡ some n
      → s.status ≡ some (after_failures n s.max_retries)
      → n + length ts ≤ s.max_retries
      → s.max_retries < 2 ^ 32
      → Returns
          (λ s'.
            (s'.count ≡ some (n + length ts))
            × (s'.status ≡ some (after_failures (n + length ts) s.max_retries)))
          (fail_all ts s)
  unfolding fail_all failed
  fail_from t [] n s same e c st le lt = (
    c ∙ ap some (omega arith),
    st ∙ ap (λ m. some (after_failures m s.max_retries)) (omega arith),
  )
  fail_from t (u ∷ us) n s same e c st le lt =
      let small : (n + 1) % 2 ^ 32 ≡ n + 1 = omega (arith, le, lt) in
      let more : n + 1 + length us ≡ n + length (u ∷ us) = omega arith in
      let s1 = failed u n s in
      rw (notify_failed_eq t u n s e same.0 c) (
        subst
          (λ m.
            Returns
              (λ s'. (s'.count ≡ some m) × (s'.status ≡ some (after_failures m s.max_retries)))
              (fail_all us s1))
          more
          (fail_from u us (n + 1) s1 same.1 refl (ap some small)
            (failed_status u n s st (omega (arith, le)) lt) (omega (arith, le)) lt))

  -- After a transaction is added, each failure of it is counted, and the scheduler gives up on it at
  -- exactly the `max_retries`th failure: before that the transaction stays in progress. No failure up to
  -- then panics.
  pub retries_then_abort :
      (t : T) (ts : List T) (s : TxRetryScheduler T)
      → SameTx t ts
      → length ts ≤ s.max_retries
      → 0 < s.max_retries
      → s.max_retries < 2 ^ 32
      → Returns
          (λ s'.
            (s'.count ≡ some (length ts))
            × (s'.status ≡ some (after_failures (length ts) s.max_retries)))
          (fail_all ts (add_tx ops t s))
  unfolding add_tx
  retries_then_abort t ts s same le pos_max lt =
      subst
        (λ m.
          Returns (λ s'. (s'.count ≡ some m) × (s'.status ≡ some (after_failures m s.max_retries)))
            (fail_all ts (add_tx ops t s)))
        {x = 0 + length ts} {y = length ts} (omega arith)
        (fail_from t ts 0 (add_tx ops t s) same refl refl (ground arith) (omega (arith, le)) lt)

  -- With no retries allowed the scheduler does not give up at the first failure: the transaction stays
  -- in progress, with a count of 1.
  no_retries_not_aborted :
      (t u : T) (s : TxRetryScheduler T)
      → ops.same t u ≡ true
      → s.max_retries ≡ 0
      → Returns
          (λ s'. (s'.count ≡ some 1) × (s'.status ≡ some in_progress))
          (notify_failed ops u (add_tx ops t s))
  unfolding add_tx failed
  no_retries_not_aborted t u s same z =
      rw (notify_failed_eq t u 0 (add_tx ops t s) refl same refl) (refl, rw z refl)

  -- A failure does not move the time of the next retry, whatever the timestamp of the new data: from
  -- the time set by `add` on, the command is to resubmit the new data at once.
  notify_failed_keeps_time :
      (now : ℤ) (t u : T) (s : TxRetryScheduler T)
      → ops.same t u ≡ true
      → 1 < s.max_retries
      → leb_ℤ (wrap_i64 (ops.get_timestamp t +ℤ s.retry_delay_duration)) now ≡ true
      → Returns
          (λ s'. next_command ops now s' ≡ returned (resubmit_tx u))
          (notify_failed ops u (add_tx ops t s))
  unfolding add_tx next_command failed
  notify_failed_keeps_time now t u s same more due =
      rw (notify_failed_eq t u 0 (add_tx ops t s) refl same refl) (ground arith)
