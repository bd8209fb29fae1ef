-- ===== src/Txn/Task.antt =====
-- src/sdk/transaction/txn_task/txn_task.cc: the base class of the tasks of a transaction, and
-- txn_common.h: what a store says of a transaction. `NeedRetry` and `DoAsyncDone` are those of
-- RawKv.antt; here a task can ask to be run again without a status. What a task does in `DoAsync`, up to
-- its call of `DoAsyncDone` or of `DoAsyncRetry`, is an argument.
use dingo_sdk.Base.{ℕ, zero, suc, Bool, true, false, List, Option, none, some, if◌then◌else◌, ltb}
use dingo_sdk.Key.{Key}
use dingo_sdk.Outcome.{Outcome, done, ◌>>=◌}
use dingo_sdk.Status.{
  Status, is_ok, ok, of_code, code_aborted, txn_lock_conflict, txn_write_conflict, txn_not_found,
  txn_primary_mismatch,
}
use dingo_sdk.Rpc.{ErrorCode}
use dingo_sdk.RawKv.{Task, need_retry}
pub mod Ends

-- `pb::store::LockInfo`, the fields that the client reads.
pub record LockInfo : Type 0 where
  pub primary_lock : Key
  pub key : Key
  pub lock_ts : ℕ
  pub lock_ttl : ℕ
  pub use_async_commit : Bool
  pub min_commit_ts : ℕ
  pub secondaries : List Key

-- `pb::store::TxnResultInfo`.
pub record TxnResultInfo : Type 0 where
  pub locked : Option LockInfo
  pub has_write_conflict : Bool
  pub has_txn_not_found : Bool
  pub has_primary_mismatch : Bool

-- `CheckTxnResultInfo`.
unfoldable pub check_txn_result_info : TxnResultInfo → Status
check_txn_result_info r = elim r.locked [
  | some l ↦ of_code txn_lock_conflict
  | none ↦
      if r.has_write_conflict
      then of_code txn_write_conflict
      else (if r.has_txn_not_found
          then of_code txn_not_found
          else (if r.has_primary_mismatch then of_code txn_primary_mismatch else ok))
]

-- How a run of `DoAsync` ends: with `DoAsyncDone`, or with `DoAsyncRetry`.
pub data Turn (S : Type 0) : Type 0 where
  ends : Status → S → Turn S
  repeats : S → Turn S

module _ {S : Type 0} where
  -- `DoAsyncRetry`: whether the task is run again, and the task afterwards.
  unfoldable pub do_async_retry : ℕ → Task S → Bool × Task S
  do_async_retry max_retry t =
      let counted = record t { retry_count = suc t.retry_count } in
      if ltb counted.retry_count max_retry then (true, counted) else (
        false,
        record counted { status = record { code = code_aborted; errno = t.status.errno } },
      )

  abbrev pub go_on :
      (Task S → Outcome (Option (Task S))) → Bool × Task S → Outcome (Option (Task S))
  go_on f (true, t) = f t
  go_on f (false, t) = done (some t)

  module _ (number : ErrorCode → ℕ) (do_async : S → Outcome (Turn S)) (max_retry : ℕ) where
    -- `DoAsync` until the call back fires, on fuel: `none` is out of fuel.
    unfoldable pub run : ℕ → Task S → Outcome (Option (Task S))
    run zero t = done none
    run (suc fuel) t = do_async t.inner >>= λ r. elim r [
      | ends status s ↦
          let after = record t { status = status; inner = s } in
          if is_ok status
          then done (some after)
          else go_on (run fuel) (need_retry number max_retry after)
      | repeats s ↦ go_on (run fuel) (do_async_retry max_retry (record t { inner = s }))
    ]

    -- `AsyncRun` of a task whose `Init` gives this status and state.
    unfoldable pub async_run : ℕ → Status × S → Outcome (Option (Task S))
    async_run fuel init =
        let t : Task S = record { inner = init.1; status = init.0; retry_count = 0 } in
        if is_ok init.0 then run fuel t else done (some t)
