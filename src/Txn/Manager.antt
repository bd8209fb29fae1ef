-- ===== src/Txn/Manager.antt =====
-- src/sdk/transaction/txn_manager.h and txn_manager.cc: the register of active transactions. The map
-- holds pointers; the states of the transactions are a function of their ids here.
use dingo_sdk.Base.{ℕ, Bool, true, false, not, ◌&&◌, List, [], ◌∷◌, map, Option, none, some, length}
use dingo_sdk.Outcome.{Outcome, done, aborted, check, ◌>>=◌, ◌>>◌}
use dingo_sdk.Status.{Status, Code, ok, of_code}
use dingo_sdk.MetaCache.Ids.{find_id, erase_id}
use dingo_sdk.Txn.Machine.{Txn, check_finished, check_front_task_completed}
pub mod Active

-- The ids of the transactions, and what the pointers are to.
pub record Manager : Type 0 where
  pub active_txns : List (ℕ × Unit {0})
  pub stopped : Bool

abbrev pub new : Manager
new = record { active_txns = []; stopped = false }

is_absent : Option (Unit {0}) → Bool
is_absent none = true
is_absent (some u) = false

-- `RegisterTxn`. It reads `IsStopped` before it takes the lock: what it read is an argument.
unfoldable pub register_txn : ℕ → Bool → Manager → Outcome (Status × Manager)
unfolding is_absent
register_txn txn_id was_stopped m = elim was_stopped [
  | true ↦ done (of_code Code.code_aborted, m)
  | false ↦ do
    check (is_absent (find_id txn_id m.active_txns))
    done (ok, record m { active_txns = (txn_id, tt) ∷ m.active_txns })
]

unfoldable pub unregister_txn : (ℕ → Txn) → ℕ → Manager → Outcome Manager
unregister_txn txns txn_id m = elim (find_id txn_id m.active_txns) [
  | none ↦ done m
  | some u ↦ do
    check (check_finished (txns txn_id))
    done (record m { active_txns = erase_id txn_id m.active_txns })
]

-- The condition on which `WaitAllTxnsComplete` goes on, under the lock.
unfoldable pub all_complete : Manager → Bool
all_complete m = elim m.active_txns [ [] ↦ true | x ∷ xs ↦ false ]

-- `CheckTxnState`.
unfoldable pub check_txn_state : (ℕ → Txn) → List (ℕ × Unit {0}) → Outcome (Unit {0})
check_txn_state txns [] = done tt
check_txn_state txns ((txn_id, u) ∷ rest) = do
  check (check_front_task_completed (txns txn_id))
  check_txn_state txns rest

-- `Stop`, up to its wait: it waits until `all_complete`.
unfoldable pub stop : (ℕ → Txn) → Manager → Outcome Manager
unfolding check_txn_state
stop txns m = do check_txn_state txns m.active_txns; done (record m { stopped = true })

unfoldable pub get_active_txn_count : Manager → ℕ
get_active_txn_count m = length m.active_txns
