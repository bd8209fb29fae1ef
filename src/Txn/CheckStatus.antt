-- ===== src/Txn/CheckStatus.antt =====
-- src/sdk/transaction/txn_task/txn_check_status_task.cc: the task that asks the store of a primary key
-- what has become of its transaction, and `TxnStatus` of txn_lock_resolver.h. The lookup in the cache of
-- regions, the timestamp provider and the call of the store controller are arguments.
use dingo_sdk.Base.{ℕ, Bool, true, false, ◌&&◌, [], Option, none, some, ltb, ◌==◌}
use dingo_sdk.Key.{Key}
use dingo_sdk.Outcome.{Outcome, done, ◌>>=◌}
use dingo_sdk.Status.{Status, Result, success, failure, is_ok, ok}
use dingo_sdk.Region.{RegionPtr}
use dingo_sdk.Txn.Task.{LockInfo, TxnResultInfo, Turn, ends}

-- The values of `pb::store::Action` that the source names, and the others.
pub data Action : Type 0 where
  no_action min_commit_ts_pushed : Action
  other_action : ℕ → Action

-- `TxnStatus`. A status that no store has filled is never read.
pub record TxnStatus : Type 0 where
  pub lock_ttl : ℕ
  pub commit_ts : ℕ
  pub action : Action
  pub primary_lock_info : LockInfo

unfoldable pub is_committed : TxnStatus → Bool
is_committed s = ltb 0 s.commit_ts

unfoldable pub is_rollbacked : TxnStatus → Bool
is_rollbacked s = s.lock_ttl == 0 && s.commit_ts == 0

unfoldable pub is_locked : TxnStatus → Bool
is_locked s = ltb 0 s.lock_ttl

abbrev pub action_is_pushed : Action → Bool
action_is_pushed min_commit_ts_pushed = true
action_is_pushed _ = false

unfoldable pub is_min_commit_ts_pushed : TxnStatus → Bool
is_min_commit_ts_pushed s = action_is_pushed s.action

pub record CheckRequest : Type 0 where
  pub primary_key : Key
  pub lock_ts : ℕ
  pub caller_start_ts : ℕ
  pub force_sync_commit : Bool
  pub rollback_if_not_exist : Bool

pub record CheckReply : Type 0 where
  pub status : Status
  pub txn_result : Option TxnResultInfo
  pub lock_ttl : ℕ
  pub commit_ts : ℕ
  pub action : Action

-- `pb::store::LockInfo()`.
abbrev pub no_lock : LockInfo
no_lock = record {
  primary_lock = [];
  key = [];
  lock_ts = 0;
  lock_ttl = 0;
  use_async_commit = false;
  min_commit_ts = 0;
  secondaries = [];
}

-- The lock of the result, if the status of the controller is OK.
abbrev pub lock_in : Option TxnResultInfo → LockInfo
lock_in none = no_lock
lock_in (some x) = elim x.locked [ none ↦ no_lock | some l ↦ l ]

unfoldable pub lock_of : CheckReply → LockInfo
lock_of r = elim (is_ok r.status) [ true ↦ lock_in r.txn_result | false ↦ no_lock ]

-- `TxnCheckStatusRpcCallback`: the status that it gives to `DoAsyncDone`, and `txn_status_`. The
-- status of `CheckTxnResultInfo` is a local one and is dropped.
unfoldable pub txn_check_status_rpc_callback : CheckReply → Status × TxnStatus
txn_check_status_rpc_callback r = (
  elim (is_ok r.status) [ true ↦ ok | false ↦ r.status ],
  record {
    lock_ttl = r.lock_ttl;
    commit_ts = r.commit_ts;
    action = r.action;
    primary_lock_info = lock_of r;
  },
)

module _ {C : Type 0} (look_up : Key → C → Outcome (Result RegionPtr × C))
    (gen_ts : ℕ → C → Outcome (Result ℕ × C))
    (call : RegionPtr → ℕ → CheckRequest → C → Outcome (CheckReply × C)) where
  -- `DoAsync`, which asks with the current timestamp.
  unfoldable pub do_async : CheckRequest → TxnStatus × C → Outcome (Turn (TxnStatus × C))
  do_async q (t, c) = look_up q.primary_key c >>= λ found. elim found.0 [
    | failure s ↦ done (ends s (t, found.1))
    | success r ↦ gen_ts 2 found.1 >>= λ ts. elim ts.0 [
      | failure s ↦ done (ends s (t, ts.1))
      | success current_ts ↦ call r current_ts q ts.1 >>= λ a.
          let told = txn_check_status_rpc_callback a.0 in done (ends told.0 (told.1, a.1))
    ]
  ]
