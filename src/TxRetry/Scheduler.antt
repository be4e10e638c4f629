-- ===== src/TxRetry/Scheduler.antt =====
-- `TxRetrySchedulerRocksDB` of spectrum-ergo-connector/src/rocksdb/tx_retry_scheduler.rs. The store
-- has four keys; a value is kept as it was before it was encoded, since decoding is the inverse of
-- encoding in the serialisation library. A transaction of the store is one step.
use spectrum.Prelude.{
  Bool, unwrap, Option, Outcome, false, if◌then◌else◌, leb_ℤ, neg_part, negsuc, none, panicked, pos,
  pos_part, returned, some, sub_ℕ, true, wrap_i64, ℕ, ℤ, ◌%◌, ◌+ℤ◌, ◌+◌, ◌-◌, ◌==◌, ◌>>=◌, ◌^◌,
}

-- What the source uses of a transaction: `==`, `is_identified_by` and `get_timestamp`.
pub record TxOps (T U : Type 0) : Type 0 where
  pub same : T → T → Bool
  pub is_identified_by : T → U → Bool
  pub get_timestamp : T → ℤ

pub data Status : Type 0 where
  in_progress aborted confirmed : Status

pub data Command (T : Type 0) : Type 0 where
  resubmit_tx : T → Command T
  abort : T → Command T
  wait : ℕ → T → Command T
  tx_confirmed : T → Command T
  idle : Command T

pub record TxRetryScheduler (T : Type 0) : Type 0 where
  pub tx : Option T
  pub count : Option ℕ
  pub status : Option Status
  pub retry_timestamp : Option ℤ
  pub retry_delay_duration : ℤ
  pub max_retries : ℕ

-- The difference of two i64 as a u64, for the duration to wait.
abbrev pub u64_of : ℤ → ℕ
u64_of (pos n) = n % 2 ^ 64
u64_of (negsuc n) = 2 ^ 64 - 1 - n % 2 ^ 64

module _ {T U : Type 0} (ops : TxOps T U) where
  -- `new` on a store with the contents of `db`.
  unfoldable pub new_scheduler : TxRetryScheduler T → ℤ → ℕ → TxRetryScheduler T
  new_scheduler db delay retries = record db {
    count = some 0;
    retry_delay_duration = delay;
    max_retries = retries;
  }

  unfoldable pub add_tx : T → TxRetryScheduler T → TxRetryScheduler T
  add_tx data_ s = record s {
    tx = some data_;
    count = some 0;
    status = some in_progress;
    retry_timestamp = some (wrap_i64 (ops.get_timestamp data_ +ℤ s.retry_delay_duration));
  }

  unfoldable pub next_command : ℤ → TxRetryScheduler T → Outcome (Command T)
  next_command now s = elim s.tx [
    | none ↦ returned idle
    | some t ↦ (do
      status ← unwrap s.status
      elim status [
        | in_progress ↦ (do
          next_timestamp ← unwrap s.retry_timestamp
          returned (
              if leb_ℤ next_timestamp now
              then resubmit_tx t
              else wait
                  (u64_of (
                    sub_ℕ (pos_part next_timestamp + neg_part now)
                      (pos_part now + neg_part next_timestamp)))
                  t))
        | confirmed ↦ returned (tx_confirmed t)
        | aborted ↦ returned (abort t)
      ])
  ]

  -- The transaction of the store, which must be the given one.
  unfoldable pub current : T → TxRetryScheduler T → Outcome T
  current t s = do value ← unwrap s.tx; if ops.same value t then returned value else panicked

  unfoldable pub notify_confirmed : T → TxRetryScheduler T → Outcome (TxRetryScheduler T)
  notify_confirmed t s = do
    value ← current t s
    returned (record s { status = some confirmed; count = some 0 })

  unfoldable pub notify_failed : T → TxRetryScheduler T → Outcome (TxRetryScheduler T)
  notify_failed t s = do
    value ← current t s
    count ← unwrap s.count
    returned (record s {
      tx = some t;
      count = some ((count + 1) % 2 ^ 32);
      status = if (count + 1) % 2 ^ 32 == s.max_retries then some aborted else s.status;
    })

  is_status : Status → Status → Bool
  is_status confirmed confirmed = true
  is_status aborted aborted = true
  is_status in_progress in_progress = true
  is_status a b = false

  -- `clear_confirmed` and `clear_aborted`: they differ in the status that they assert.
  unfoldable pub clear : Status → U → TxRetryScheduler T → Outcome (TxRetryScheduler T)
  unfolding is_status
  clear expected element s = elim s.tx [
    | none ↦ returned s
    | some value ↦
        if ops.is_identified_by value element
        then (do
          status ← unwrap s.status
          if is_status status expected then returned (record s { tx = none }) else panicked)
        else panicked
  ]

  unfoldable pub clear_confirmed : U → TxRetryScheduler T → Outcome (TxRetryScheduler T)
  unfolding clear
  clear_confirmed = clear confirmed

  unfoldable pub clear_aborted : U → TxRetryScheduler T → Outcome (TxRetryScheduler T)
  unfolding clear
  clear_aborted = clear aborted
