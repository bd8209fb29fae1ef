-- ===== src/Txn/SecondaryLocks.antt =====
-- `TxnSecondaryLockStatus` of src/sdk/transaction/txn_lock_resolver.h: what is known of the secondary locks of
-- a transaction with asynchronous commit, and the tests and loops of txn_lock_resolver.cc over them.
use dingo_sdk.Base.{
  ℕ, max, Bool, true, false, not, ◌&&◌, ◌||◌, List, [], ◌∷◌, map, Option, none, some, ltb, leb,
  ◌==◌,
}
use dingo_sdk.Key.{Key}
use dingo_sdk.Outcome.{Outcome, done, check, ◌>>◌}
use dingo_sdk.Txn.Task.{LockInfo}

-- `TxnSecondaryLockStatus`.
pub record TxnSecondaryLockStatus : Type 0 where
  pub locked_keys : List LockInfo
  pub commit_ts : ℕ
  pub is_txn_not_found : Bool
  pub is_rollbacked : Bool

abbrev pub is_nil : {A : Type 0} → List A → Bool
is_nil [] = true
is_nil (x ∷ xs) = false

unfoldable pub is_error : TxnSecondaryLockStatus → Bool
is_error s =
    s.is_txn_not_found && ltb 0 s.commit_ts
    || s.is_rollbacked && ltb 0 s.commit_ts
    || s.commit_ts == 0 && not s.is_rollbacked && is_nil s.locked_keys && not s.is_txn_not_found

abbrev pub keys_of : LockInfo → List LockInfo → List Key
keys_of p locks = p.primary_lock ∷ map (λ (l : LockInfo). l.key) locks

unfoldable pub check_lock_ts : LockInfo → LockInfo → Unit {0} → Outcome (Unit {0})
check_lock_ts p l u = check (l.lock_ts == p.lock_ts)

unfoldable pub check_committed : LockInfo → ℕ → LockInfo → Unit {0} → Outcome (Unit {0})
check_committed p commit_ts l u = do
  check (l.lock_ts == p.lock_ts)
  check (leb l.min_commit_ts commit_ts)

-- The loop over the locks that still exist: `none` where it goes back to a resolution without
-- asynchronous commit, and the commit timestamp otherwise.
unfoldable pub least_commit_ts : LockInfo → List LockInfo → ℕ → Outcome (Option ℕ)
least_commit_ts p [] n = done (some n)
least_commit_ts p (l ∷ ls) n =
    check (l.lock_ts == p.lock_ts) >> elim (not l.use_async_commit || l.min_commit_ts == 0) [
      | true ↦ done none
      | false ↦ least_commit_ts p ls (max n l.min_commit_ts)
    ]
