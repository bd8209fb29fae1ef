-- ===== src/Txn/Machine/Whole.antt =====
-- src/sdk/transaction/txn_impl.cc: `PreWriteAndCommit`, the two phases together.
use dingo_sdk.Base.{false, ◌≡◌}
use dingo_sdk.Status.{Status, ok, is_ok}
use dingo_sdk.Txn.Machine.{finished, Env, Txn}
use dingo_sdk.Txn.Machine.Ends
use dingo_sdk.Txn.Machine.Ends.{Ended}
use dingo_sdk.Txn.Machine.Prewrites.{Under, OneSent, AllSent}

-- It ends as the first phase does, or as the second does for a transaction that the first left.
pub data WholeEnded (env : Env) (t : Txn) : Status × Txn → Type 0 where
  in_one_phase : (u : Txn) → u.state ≡ finished → OneSent env t u → WholeEnded env t (ok, u)
  prewrite_failed : (s : Status) (u : Txn) → is_ok s ≡ false → Under t u → WholeEnded env t (s, u)
  in_two_phases :
      (u : Txn) (r : Status × Txn)
      → Ends.Prewritten u
      → AllSent env t u
      → u.start_ts ≡ t.start_ts
      → u.buffer ≡ t.buffer
      → Ended env u r
      → WholeEnded env t r
