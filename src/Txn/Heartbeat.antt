-- ===== src/Txn/Heartbeat.antt =====
-- src/sdk/transaction/txn_task/txn_heartbeat_task.cc: the task that moves the time to live of the lock of
-- a transaction's primary key. What is around it is an argument, as in Txn/CheckStatus.antt.
use dingo_sdk.Base.{ℕ, ◌+◌, true, false, Option, none, some}
use dingo_sdk.Key.{Key}
use dingo_sdk.Outcome.{Outcome, done, ◌>>=◌}
use dingo_sdk.Status.{Status, Result, success, failure, is_ok}
use dingo_sdk.Region.{RegionPtr}
use dingo_sdk.Txn.Task.{TxnResultInfo, check_txn_result_info, Turn, ends}

pub record HeartbeatRequest : Type 0 where
  pub start_ts : ℕ
  pub primary_lock : Key
  pub advise_lock_ttl : ℕ

pub record HeartbeatReply : Type 0 where
  pub status : Status
  pub txn_result : Option TxnResultInfo

-- The task's own status, which no run of `DoAsync` resets.
pub record HeartbeatTask : Type 0 where
  pub lock_ts : ℕ
  pub primary_key : Key
  pub status : Status

-- `TxnHeartbeatRpcCallback`.
unfoldable pub txn_heartbeat_rpc_callback : HeartbeatReply → HeartbeatTask → HeartbeatTask
txn_heartbeat_rpc_callback r t = elim (is_ok r.status) [
  | false ↦ record t { status = r.status }
  | true ↦ elim r.txn_result [ none ↦ t | some x ↦ record t { status = check_txn_result_info x } ]
]

module _ {C : Type 0} (look_up : Key → C → Outcome (Result RegionPtr × C))
    (gen_physical_ts : ℕ → C → Outcome (Result ℕ × C))
    (call : RegionPtr → HeartbeatRequest → C → Outcome (HeartbeatReply × C))
    (lock_delay_ms : ℕ) where
  -- `DoAsync`.
  unfoldable pub do_async : HeartbeatTask × C → Outcome (Turn (HeartbeatTask × C))
  do_async (t, c) = look_up t.primary_key c >>= λ found. elim found.0 [
    | failure s ↦ done (ends s (t, found.1))
    | success r ↦ gen_physical_ts 2 found.1 >>= λ ts. elim ts.0 [
      | failure s ↦ done (ends s (t, ts.1))
      | success physical_ts ↦
          call r
            (record {
              start_ts = t.lock_ts;
              primary_lock = t.primary_key;
              advise_lock_ttl = physical_ts + lock_delay_ms;
            })
            ts.1
          >>= λ a.
              let told = txn_heartbeat_rpc_callback a.0 t in done (ends told.status (told, a.1))
    ]
  ]
