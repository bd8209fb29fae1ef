-- ===== src/Txn/Machine/Phases.antt =====
-- src/sdk/transaction/txn_impl.cc: `DoPreCommit` ends in a state that `DoCommit` can go on from.
use dingo_sdk.Base.{false, ◌≡◌}
use dingo_sdk.Outcome.{Outcome}
use dingo_sdk.Status.{Status, ok, is_ok}
use dingo_sdk.Txn.Buffer.{Buffer}
use dingo_sdk.Txn.Machine.{finished, Env, Txn}
use dingo_sdk.Txn.Machine.Ends
use dingo_sdk.Txn.Machine.Prewrites.{Under, OneSent, AllSent}

-- How a call of `DoPreCommit` may end.
pub data PreEnded (env : Env) (t : Txn) : Status × Txn → Type 0 where
  -- It is committed, in one phase.
  one_phase : (u : Txn) → u.state ≡ finished → OneSent env t u → PreEnded env t (ok, u)
  -- All is prewritten, and `DoCommit` may be called.
  prewrites :
      (u : Txn)
      → Ends.Prewritten u
      → AllSent env t u
      → u.start_ts ≡ t.start_ts
      → u.buffer ≡ t.buffer
      → u.is_one_pc ≡ false
      → PreEnded env t (ok, u)
  -- A lookup or a prewrite failed, and the transaction may be rolled back.
  fails : (s : Status) (u : Txn) → is_ok s ≡ false → Under t u → PreEnded env t (s, u)
