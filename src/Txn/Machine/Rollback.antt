-- ===== src/Txn/Machine/Rollback.antt =====
-- src/sdk/transaction/txn_impl.cc: rollback, with the job that ends it.
use dingo_sdk.Base.{true, false, ◌||◌, List, [], ◌∷◌}
use dingo_sdk.Key.{Key}
use dingo_sdk.Outcome.{Outcome, done, check, ◌>>=◌, ◌>>◌}
use dingo_sdk.Status.{Status, ok, of_code, is_ok, illegal_state}
use dingo_sdk.Txn.Buffer
use dingo_sdk.Txn.Machine.{
  pre_committing, pre_committed, rollbacking, rollbacked, rollback_failed, finished, state_is, Env,
  Txn, batch_rollback, rollback_keys, send, schedule, set_state, cleanup,
}
use dingo_sdk.Txn.Machine.PreCommit.{ordinary, keys_of}

unfoldable pub rollback_primary_key : Env → Txn → Outcome (Status × Txn)
rollback_primary_key env t = do
  primary ← Buffer.get_primary_key t.buffer
  done (env.rolled_back_by t.calls, send (batch_rollback (primary ∷ [])) t)

-- Its status is OK.
unfoldable pub rollback_ordinary_key : Txn → Outcome Txn
rollback_ordinary_key t = do
  primary ← Buffer.get_primary_key t.buffer
  done (schedule (rollback_keys (keys_of (ordinary primary t))) t)

-- `DoRollbackOrdinaryKey`: the job, and the callback of its task.
unfoldable pub do_rollback_ordinary_key : List Key → Txn → Outcome Txn
do_rollback_ordinary_key keys t = do
  check (state_is t.state rollbacked)
  done (send (batch_rollback keys) t)

unfoldable pub keys_rolled_back : Txn → Outcome Txn
keys_rolled_back t = cleanup (set_state finished t)

-- How `DoRollback` ends when the primary key has been sent.
unfoldable pub primary_rolled_back : Status × Txn → Outcome (Status × Txn)
unfolding rollback_ordinary_key
primary_rolled_back (s, t) = elim (is_ok s) [
  | false ↦ do u ← cleanup (set_state rollback_failed t); done (s, u)
  | true ↦ do u ← rollback_ordinary_key (set_state rollbacked t); done (ok, u)
]

unfoldable pub do_rollback : Env → Txn → Outcome (Status × Txn)
unfolding rollback_primary_key primary_rolled_back
do_rollback env t = elim (state_is t.state pre_committing || state_is t.state pre_committed) [
  | false ↦ done (of_code illegal_state, t)
  | true ↦ elim t.is_one_pc [
    | true ↦ do u ← cleanup (set_state finished t); done (ok, u)
    | false ↦ rollback_primary_key env (set_state rollbacking t) >>= primary_rolled_back
  ]
]
