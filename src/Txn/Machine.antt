-- ===== src/Txn/Machine.antt =====
-- src/sdk/transaction/txn_impl.h and txn_impl.cc: a transaction, its reads and its writes. What the
-- services outside the transaction answer is in `Env`, by the number of the call.
use dingo_sdk.Base.{
  ℕ, ◌+◌, Bool, true, false, not, ◌&&◌, ◌||◌, List, [], ◌∷◌, ◌++◌, map, Option, none, some,
  if◌then◌else◌, ltb, ◌==◌,
}
use dingo_sdk.Key.{Key, key_ltb, is_empty}
use dingo_sdk.Outcome.{Outcome, done, aborted, check, ◌>>=◌, ◌>>◌}
use dingo_sdk.Status.{
  Status, Result, success, failure, Answer, ok, of_code, is_ok, not_found, invalid_argument,
}
use dingo_sdk.Txn.Buffer
use dingo_sdk.Txn.Buffer.{Buffer, Mutation, MutationType}
pub mod PreCommit
pub mod Commit
pub mod Rollback
pub mod Ends
pub mod Refused
pub mod Prewrites
pub mod Phases
pub mod Whole

pub data State : Type 0 where
  init active txn_aborted rollbacking rollbacked rollback_failed : State
  pre_committing pre_committed committing committed finished : State

abbrev pub code_of : State → ℕ
code_of init = 0
code_of active = 1
code_of txn_aborted = 2
code_of rollbacking = 3
code_of rollbacked = 4
code_of rollback_failed = 5
code_of pre_committing = 6
code_of pre_committed = 7
code_of committing = 8
code_of committed = 9
code_of finished = 10

-- `state == kX`.
abbrev pub state_is : State → State → Bool
state_is a b = code_of a == code_of b

-- The tasks and the jobs that a transaction hands to the services.
pub data Request : Type 0 where
  -- The primary key, the mutations, the keys that the primary records for an asynchronous commit,
  -- and the flags `is_one_pc` and `use_async_commit`.
  prewrite : Key → List Mutation → List Key → Bool → Bool → Request
  -- The keys, the commit timestamp, and whether they are the primary key.
  commit : List Key → ℕ → Bool → Request
  batch_rollback : List Key → Request

-- What a job of the actuator does when it runs.
pub data Job : Type 0 where
  commit_keys rollback_keys : List Key → Job
  heart_beat : ℕ → Key → Job

-- What a prewrite task leaves: its status, and the arguments that it may change.
pub record Prewritten : Type 0 where
  pub status : Status
  pub one_pc : Bool
  pub async_commit : Bool
  pub min_commit_ts : ℕ

pub record Env : Type 0 where
  pub gen_ts : ℕ → Result ℕ
  pub region_of : ℕ → Key → Result ℕ
  pub prewritten : ℕ → Prewritten
  pub committed_by : ℕ → Status
  pub rolled_back_by : ℕ → Status
  pub value_of : ℕ → Key → Result Key
  pub values_of : ℕ → List Key → Status × List (Key × Key)

pub record Flags : Type 0 where
  pub txn_op_max_retry : ℕ
  pub txn_max_batch_count : ℕ
  pub txn_max_async_commit_count : ℕ
  pub enable_txn_async_commit : Bool
  pub enable_txn_concurrent_prewrite : Bool

-- `calls` counts what the services were asked, and `sent` has the requests, the last one first;
-- `registered` is whether the manager has the transaction in its map.
pub record Txn : Type 0 where
  pub state : State
  pub start_ts : ℕ
  pub commit_ts : ℕ
  pub is_one_pc : Bool
  pub use_async_commit : Bool
  pub use_concurrent_precommit : Bool
  pub buffer : Buffer
  pub registered : Bool
  pub calls : ℕ
  pub sent : List Request
  pub jobs : List Job

abbrev pub new : Txn
new = record {
  state = init;
  start_ts = 0;
  commit_ts = 0;
  is_one_pc = false;
  use_async_commit = false;
  use_concurrent_precommit = false;
  buffer = Buffer.new;
  registered = false;
  calls = 0;
  sent = [];
  jobs = [];
}

abbrev pub called : Txn → Txn
called t = record t { calls = t.calls + 1 }

abbrev pub send : Request → Txn → Txn
send r t = record t { calls = t.calls + 1; sent = r ∷ t.sent }

abbrev pub set_state : State → Txn → Txn
set_state s t = record t { state = s }

abbrev pub schedule : Job → Txn → Txn
schedule j t = record t { jobs = t.jobs ++ j ∷ [] }

unfoldable pub begin : Env → Txn → Status × Txn
begin env t = elim (env.gen_ts t.calls) [
  | success ts ↦ (ok, record t { calls = t.calls + 1; state = active; start_ts = ts })
  | failure s ↦ (s, called t)
]

unfoldable pub check_finished : Txn → Bool
check_finished t =
    state_is t.state finished || (state_is t.state rollback_failed || state_is t.state txn_aborted)

unfoldable pub check_front_task_completed : Txn → Bool
unfolding check_finished
check_front_task_completed t =
    check_finished t || (state_is t.state rollbacked || state_is t.state committed)

-- `Cleanup`, with `TxnManager::UnregisterTxn`: a transaction that leaves the map has finished.
unfoldable pub cleanup : Txn → Outcome Txn
cleanup t = elim t.registered [
  | true ↦ do check (check_finished t); done (record t { registered = false })
  | false ↦ done t
]

unfoldable pub clean : Txn → Outcome Txn
clean t = elim (state_is t.state active) [
  | true ↦ cleanup (set_state txn_aborted t)
  | false ↦ done t
]

-- What the buffer says of a key.
pub data Local : Type 0 where
  has_value : Key → Local
  has_none not_there : Local

local_of : Result Mutation → Outcome Local
local_of (failure s) = done not_there
local_of (success m) = elim m.type [
  | MutationType.put_mutation ↦ done (has_value m.value)
  | MutationType.delete_mutation ↦ done has_none
  | MutationType.put_if_absent_mutation ↦ done (has_value m.value)
  | MutationType.none_mutation ↦ aborted
]

unfoldable pub get : Env → Key → Txn → Answer Txn Key
unfolding local_of
get env key t = elim (is_empty key) [
  | true ↦ done (failure (of_code invalid_argument), t)
  | false ↦ local_of (Buffer.get key t.buffer) >>= found
]
  where
    found : Local → Answer Txn Key
    found (has_value v) = done (success v, t)
    found has_none = done (failure (of_code not_found), t)
    found not_there = done (env.value_of t.calls key, called t)

abbrev pub any_empty : List Key → Bool
any_empty [] = false
any_empty (k ∷ ks) = is_empty k || any_empty ks

-- The loop of `BatchGet`: what the buffer has, and the keys to ask the servers for.
unfoldable pub read_buffer : List Key → Buffer → Outcome (List (Key × Key) × List Key)
unfolding local_of
read_buffer [] b = done ([], [])
read_buffer (k ∷ ks) b = do
  here ← local_of (Buffer.get k b)
  rest ← read_buffer ks b
  done (add here rest)
  where
    add : Local → List (Key × Key) × List Key → List (Key × Key) × List Key
    add (has_value v) (kvs, not_found_keys) = ((k, v) ∷ kvs, not_found_keys)
    add has_none (kvs, not_found_keys) = (kvs, not_found_keys)
    add not_there (kvs, not_found_keys) = (kvs, k ∷ not_found_keys)

-- `BatchGet` sets its output also when the servers fail.
unfoldable pub batch_get : Env → List Key → Txn → Outcome ((Status × List (Key × Key)) × Txn)
batch_get env keys t = elim (any_empty keys) [
  | true ↦ done ((of_code invalid_argument, []), t)
  | false ↦ read_buffer keys t.buffer >>= λ r. ask r.0 r.1
]
  where
    ask : List (Key × Key) → List Key → Outcome ((Status × List (Key × Key)) × Txn)
    ask kvs [] = done ((ok, kvs), t)
    ask kvs (k ∷ ks) =
        let answer = env.values_of t.calls (k ∷ ks) in done ((answer.0, kvs ++ answer.1), called t)

-- The shape of each write: `CheckStateActive`, the test of the keys, the buffer.
unfoldable pub write_keys : List Key → (Buffer → Outcome Buffer) → Txn → Outcome (Status × Txn)
write_keys keys write t = do
  check (state_is t.state active)
  elim (any_empty keys) [
    | true ↦ done (of_code invalid_argument, t)
    | false ↦ write t.buffer >>= λ b. done (ok, record t { buffer = b })
  ]

unfoldable pub put : Key → Key → Txn → Outcome (Status × Txn)
put key value = write_keys (key ∷ []) (Buffer.put key value)

unfoldable pub batch_put : List (Key × Key) → Txn → Outcome (Status × Txn)
batch_put kvs = write_keys (map (λ kv. kv.0) kvs) (Buffer.batch_put kvs)

unfoldable pub put_if_absent : Key → Key → Txn → Outcome (Status × Txn)
put_if_absent key value = write_keys (key ∷ []) (Buffer.put_if_absent key value)

unfoldable pub batch_put_if_absent : List (Key × Key) → Txn → Outcome (Status × Txn)
batch_put_if_absent kvs = write_keys (map (λ kv. kv.0) kvs) (Buffer.batch_put_if_absent kvs)

unfoldable pub delete : Key → Txn → Outcome (Status × Txn)
delete key = write_keys (key ∷ []) (Buffer.delete key)

unfoldable pub batch_delete : List Key → Txn → Outcome (Status × Txn)
batch_delete keys = write_keys keys (Buffer.batch_delete keys)
