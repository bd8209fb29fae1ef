-- ===== src/Txn/Get.antt =====
-- src/sdk/transaction/txn_task/txn_get_task.cc: the task that reads a key at the start timestamp of a
-- transaction. The lookup in the cache of regions, the call of the store controller and the lock
-- resolver are arguments, and `C` is what they read and change.
use dingo_sdk.Base.{ℕ, Bool, true, false, List, [], ◌∷◌, Option, none, some, if◌then◌else◌}
use dingo_sdk.Key.{Key, is_empty}
use dingo_sdk.Outcome.{Outcome, done, aborted, ◌>>=◌}
use dingo_sdk.Status.{
  Status, Code, Result, success, failure, is_ok, of_code, not_found, txn_lock_conflict,
  push_min_commit_ts,
}
use dingo_sdk.Region.{RegionPtr}
use dingo_sdk.Txn.Task.{LockInfo, TxnResultInfo, check_txn_result_info, Turn, ends, repeats}
pub mod Stuck

pub record GetRequest : Type 0 where
  pub region : RegionPtr
  pub start_ts : ℕ
  pub key : Key
  pub resolved_lock : ℕ

-- The status that the controller gives, and the response.
pub record GetReply : Type 0 where
  pub status : Status
  pub txn_result : Option TxnResultInfo
  pub value : Key

-- The task's own `status_` is not that of its base class.
pub record GetTask : Type 0 where
  pub start_ts : ℕ
  pub key : Key
  pub value : Key
  pub resolved_lock : ℕ
  pub status : Status

abbrev pub is_lock_conflict : Code → Bool
is_lock_conflict txn_lock_conflict = true
is_lock_conflict _ = false

abbrev pub is_push_min_commit_ts : Code → Bool
is_push_min_commit_ts push_min_commit_ts = true
is_push_min_commit_ts _ = false

-- The end of the call back.
unfoldable pub finish : GetReply → GetTask → Turn GetTask
finish r t =
    if is_ok t.status
    then (if is_empty r.value
        then ends (of_code not_found) (record t { status = of_code not_found })
        else ends t.status (record t { value = r.value }))
    else ends t.status t

-- What the task does after the resolver has returned.
unfoldable pub after_resolve : GetReply → LockInfo → Status → GetTask → Turn GetTask
after_resolve r l s t =
    if is_ok s
    then repeats t
    else (if is_push_min_commit_ts s.code
        then repeats (record t { resolved_lock = l.lock_ts })
        else finish r (record t { status = s }))

module _ {C : Type 0} (look_up : Key → C → Outcome (Result RegionPtr × C))
    (call : GetRequest → C → Outcome (GetReply × C))
    (resolve_lock : LockInfo → ℕ → C → Outcome (Status × C)) where
  -- `TxnGetRpcCallback`; the lock of the result is there when the result is a conflict.
  unfoldable pub txn_get_rpc_callback : GetReply → GetTask → C → Outcome (Turn (GetTask × C))
  txn_get_rpc_callback r t c =
      if is_ok r.status
      then elim r.txn_result [
        | none ↦ done (with_env c (finish r t))
        | some x ↦ elim x.locked [
          | some l ↦
              resolve_lock l t.start_ts c >>= λ s. done (with_env s.1 (after_resolve r l s.0 t))
          | none ↦ done (with_env c (finish r (record t { status = check_txn_result_info x })))
        ]
      ]
      else done (with_env c (finish r (record t { status = r.status })))
    where
      with_env : C → Turn GetTask → Turn (GetTask × C)
      with_env c (ends s t) = ends s (t, c)
      with_env c (repeats t) = repeats (t, c)

  -- `DoAsync`.
  unfoldable pub do_async : GetTask × C → Outcome (Turn (GetTask × C))
  do_async (t, c) = look_up t.key c >>= λ found. elim found.0 [
    | failure s ↦ done (ends s (t, found.1))
    | success r ↦
        call
          (record {
            region = r;
            start_ts = t.start_ts;
            key = t.key;
            resolved_lock = t.resolved_lock;
          })
          found.1
        >>= λ a. txn_get_rpc_callback a.0 t a.1
  ]
