-- ===== src/RawKv.antt =====
-- src/sdk/rawkv: the tasks of the client without transactions. Here `RawKvTask` (raw_kv_task.h and
-- raw_kv_task.cc): a task is run again while its status says that the regions have changed. What a
-- task does in `DoAsync`, up to its call of `DoAsyncDone`, is an argument.
use dingo_sdk.Base.{ℕ, zero, suc, Bool, true, false, ◌&&◌, Option, none, some, if◌then◌else◌, ltb}
use dingo_sdk.Outcome.{Outcome, done, aborted, ◌>>=◌}
use dingo_sdk.Status.{Status, Code, incomplete, code_aborted, is_ok}
use dingo_sdk.Rpc.{ErrorCode, is_retry_error_code}
pub mod Batch
pub mod DeleteRange
pub mod Ends
pub mod Scan
pub mod Scanner
pub mod Single

pub record Task (S : Type 0) : Type 0 where
  pub inner : S
  pub status : Status
  pub retry_count : ℕ

abbrev pub is_incomplete : Code → Bool
is_incomplete incomplete = true
is_incomplete _ = false

module _ (number : ErrorCode → ℕ) where
  abbrev pub wants_retry : Status → Bool
  wants_retry s = is_incomplete s.code && is_retry_error_code number s.errno

  module _ {S : Type 0} where
    -- `NeedRetry`: its answer, and the task afterwards.
    unfoldable pub need_retry : ℕ → Task S → Bool × Task S
    need_retry max_retry t =
        let counted = record t { retry_count = suc t.retry_count } in
        if wants_retry t.status
        then (if ltb counted.retry_count max_retry then (true, counted) else (
          false,
          record counted { status = record { code = code_aborted; errno = t.status.errno } },
        ))
        else (false, t)

    module _ (do_async : S → Outcome (Status × S)) (max_retry : ℕ) where
      abbrev pub go_on :
          (Task S → Outcome (Option (Task S))) → Bool × Task S → Outcome (Option (Task S))
      go_on f (true, t) = f t
      go_on f (false, t) = done (some t)

      -- `DoAsync`, `DoAsyncDone` and `FailOrRetry` until the call back fires, on fuel: `none` is out of
      -- fuel.
      unfoldable pub run : ℕ → Task S → Outcome (Option (Task S))
      run zero t = done none
      run (suc fuel) t = do_async t.inner >>= λ r.
          let after = record t { status = r.0; inner = r.1 } in
          if is_ok r.0 then done (some after) else go_on (run fuel) (need_retry max_retry after)

      -- `AsyncRun` of a task whose `Init` gives this status and state.
      unfoldable pub async_run : ℕ → Status × S → Outcome (Option (Task S))
      async_run fuel init =
          let t : Task S = record { inner = init.1; status = init.0; retry_count = 0 } in
          if is_ok init.0 then run fuel t else done (some t)
