-- ===== src/TxRetry/Examples.antt =====
-- The retry scheduler on concrete transactions: an identifier with a timestamp, which equality
-- ignores.
use spectrum.Prelude.{Returns, [], arith, none, pos, refl, some, ℕ, ◌==◌, ◌∷◌, ◌≡◌}
use spectrum.TxRetry.Retries.{fail_all, retries_then_abort}
use spectrum.TxRetry.Scheduler.{TxOps, TxRetryScheduler, aborted, add_tx}

stamped : TxOps (ℕ × ℕ) ℕ
stamped = record {
  same = λ a b. a.0 == b.0;
  is_identified_by = λ a i. a.0 == i;
  get_timestamp = λ a. pos a.1;
}

two_retries : TxRetryScheduler (ℕ × ℕ)
two_retries = record {
  tx = none;
  count = some 0;
  status = none;
  retry_timestamp = none;
  retry_delay_duration = pos 10;
  max_retries = 2;
}

retries_then_abort_example :
    Returns
      (λ s. (s.count ≡ some 2) × (s.status ≡ some aborted))
      (fail_all stamped ((7, 120) ∷ (7, 140) ∷ []) (add_tx stamped (7, 100) two_retries))
unfolding stamped two_retries
retries_then_abort_example =
    retries_then_abort stamped (7, 100) ((7, 120) ∷ (7, 140) ∷ []) two_retries (refl, (refl, tt))
      (omega arith) (omega arith) (omega arith)
