-- ===== src/Txn/KeyTasks.antt =====
-- src/sdk/transaction/txn_task: the tasks on several keys that only end or fail (txn_commit_task.cc,
-- txn_batch_rollback_task.cc and txn_resolve_lock_task.cc): what they put into a request, how large a
-- request of a commit is, and what they take from a response. Keyed.antt is what they have in common.
use dingo_sdk.Base.{
  ℕ, zero, suc, Bool, true, false, List, [], ◌∷◌, ◌++◌, length, Option, none, some, if◌then◌else◌,
  ◌==◌,
}
use dingo_sdk.Key.{Key}
use dingo_sdk.Outcome.{Outcome, done, aborted, check, ◌>>=◌, ◌>>◌}
use dingo_sdk.Status.{
  Status, Result, is_ok, ok, of_code, txn_write_conflict, txn_commit_ts_expired,
  txn_primary_mismatch,
}
use dingo_sdk.Region.{RegionPtr}
use dingo_sdk.Rpc.{ErrorCode}
use dingo_sdk.RawKv.{Task}
use dingo_sdk.Keyed.{Group, Keyed, Answer, insert_all, do_async, do_async_cached}
use dingo_sdk.Txn.Task.{TxnResultInfo, check_txn_result_info, Turn, ends, async_run}
pub mod Answered
pub mod Batches
pub mod Errors

-- A task, with its timestamps: a commit is that of the primary key or of the others.
pub data KeysTask : Type 0 where
  txn_commit : Bool → ℕ → ℕ → KeysTask
  txn_batch_rollback : ℕ → KeysTask
  txn_resolve_lock : ℕ → ℕ → KeysTask

-- The fields of a request, without its context.
pub record KeysRequest : Type 0 where
  pub task : KeysTask
  pub keys : List Key

-- The status that the controller gives, and the response.
pub record KeysReply : Type 0 where
  pub status : Status
  pub txn_result : Option TxnResultInfo
  pub has_commit_ts_expired : Bool

unfoldable pub init : KeysTask → List Key → Outcome (Status × List Key)
init (txn_commit true start_ts commit_ts) keys =
    check (length keys == 1) >> done (insert_all keys [])
init task keys = done (insert_all keys [])

-- `ProcessTxnCommitResponse`; a transaction that is not found ends the process.
unfoldable pub process_txn_commit_response : Bool → KeysReply → Outcome Status
process_txn_commit_response is_primary r = elim r.txn_result [
  | none ↦ done ok
  | some x ↦ elim x.locked [
    | some l ↦ done ok
    | none ↦
        if x.has_txn_not_found
        then aborted
        else (if x.has_write_conflict
            then done (of_code txn_write_conflict)
            else (if r.has_commit_ts_expired
                then done (if is_primary then of_code txn_commit_ts_expired else ok)
                else done (if x.has_primary_mismatch then of_code txn_primary_mismatch else ok)))
  ]
]

unfoldable pub check_result : Option TxnResultInfo → Status
check_result none = ok
check_result (some x) = check_txn_result_info x

-- What the call backs take for the status of a request.
unfoldable pub status_of : KeysTask → KeysReply → Outcome Status
status_of (txn_commit is_primary start_ts commit_ts) r =
    if is_ok r.status then process_txn_commit_response is_primary r else done r.status
status_of (txn_batch_rollback start_ts) r =
    done (if is_ok r.status then check_result r.txn_result else r.status)
status_of (txn_resolve_lock lock_ts commit_ts) r =
    done (if is_ok r.status then check_result r.txn_result else r.status)

-- The requests of a commit to one region: a request that has `max` keys is closed.
unfoldable pub split_keys : ℕ → List Key → List Key → List (List Key)
split_keys max request [] = request ∷ []
split_keys max request (k ∷ ks) = elim (length request == max) [
  | true ↦ request ∷ split_keys max (k ∷ []) ks
  | false ↦ split_keys max (request ++ k ∷ []) ks
]

unfoldable pub requests_to : RegionPtr → List (List Key) → List Group
requests_to r [] = []
requests_to r (ks ∷ rest) = record { region = r; keys = ks } ∷ requests_to r rest

unfoldable pub split_groups : ℕ → List Group → List Group
split_groups max [] = []
split_groups max (g ∷ gs) = requests_to g.region (split_keys max [] g.keys) ++ split_groups max gs

module _ {C : Type 0} (look_up : Key → C → Outcome (Result RegionPtr × C))
    (call : RegionPtr → KeysRequest → C → Outcome (KeysReply × C)) (order : List Group → List Group)
    (max_batch_count : ℕ) where
  -- A request and its call back; `call` is the store controller's.
  unfoldable pub send : KeysTask → Group → Unit {0} → C → Outcome (Answer (Unit {0}) × C)
  send task g u c = call g.region (record { task = task; keys = g.keys }) c >>= λ a.
      status_of task a.0 >>= λ s. done (record { status = s; erased = g.keys; own = u }, a.1)

  -- `DoAsync`; only a commit looks up each key, and splits its requests.
  unfoldable pub run_keys :
      KeysTask → Keyed (Unit {0}) × C → Outcome (Status × (Keyed (Unit {0}) × C))
  run_keys (txn_commit is_primary start_ts commit_ts) x =
      do_async look_up (send (txn_commit is_primary start_ts commit_ts))
        (λ gs. order (split_groups max_batch_count gs)) x
  run_keys (txn_batch_rollback start_ts) x =
      do_async_cached look_up (send (txn_batch_rollback start_ts)) order x
  run_keys (txn_resolve_lock lock_ts commit_ts) x =
      do_async_cached look_up (send (txn_resolve_lock lock_ts commit_ts)) order x

  abbrev pub fresh : List Key → C → Keyed (Unit {0}) × C
  fresh next_keys c = (record { next_keys = next_keys; status = ok; own = tt }, c)

  -- A whole task: `Init`, and `DoAsync` until the call back fires.
  unfoldable pub run_task :
      (ErrorCode → ℕ)
      → ℕ
      → ℕ
      → KeysTask
      → List Key
      → C
      → Outcome (Option (Task (Keyed (Unit {0}) × C)))
  run_task number max_retry fuel task keys c = init task keys >>= λ i.
      async_run number (λ x. run_keys task x >>= λ r. done (ends r.0 r.1)) max_retry fuel
        (i.0, fresh i.1 c)
