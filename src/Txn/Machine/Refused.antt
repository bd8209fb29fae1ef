-- ===== src/Txn/Machine/Refused.antt =====
-- src/sdk/transaction/txn_impl.cc: what a transaction refuses while its state is `committing`.
use dingo_sdk.Base.{
  Bool, true, false, not, ◌||◌, ◌≡◌, ◌==◌, ltb, refl, ap, arith, Bool-cases, inl, inr,
}
use dingo_sdk.Outcome.{done, Returns}
use dingo_sdk.Status.{Status, failure, of_code, illegal_state}
use dingo_sdk.Txn.Machine.{
  State, active, pre_committing, pre_committed, committing, committed, finished, state_is, Env,
  Flags, Txn, clean, check_finished, check_front_task_completed,
}
use dingo_sdk.Txn.Machine.PreCommit.{do_pre_commit}
use dingo_sdk.Txn.Machine.Commit.{
  do_commit, commit_phase, timed, take_commit_ts, pre_write_and_commit,
}
use dingo_sdk.Txn.Machine.Ends.{Prewritten}
use dingo_sdk.Txn.Machine.Rollback.{do_rollback}

-- Each call is refused and changes nothing, and the manager may not stop.
pub record Refused (env : Env) (flags : Flags) (t : Txn) : Type 0 where
  pub again : do_commit env flags t ≡ done (of_code illegal_state, t)
  pub anew : pre_write_and_commit env flags t ≡ done (of_code illegal_state, t)
  pub back : do_rollback env t ≡ done (of_code illegal_state, t)
  pub cleans : clean t ≡ done t
  pub front : check_front_task_completed t ≡ false

-- A transaction whose state is `committing`.
pub committing-Refused :
    (env : Env) (flags : Flags) (t : Txn) → t.state ≡ committing → Refused env flags t
unfolding do_commit pre_write_and_commit do_pre_commit do_rollback clean check_front_task_completed
    check_finished
committing-Refused env flags t h = record {
  again =
      rw
        (
          at (λ s. state_is s committed || state_is s finished),
          at (λ s. state_is s pre_committed),
          do_commit,
        )
        refl;
  anew =
      rw
        (
          at (λ s. state_is s pre_committed),
          at (λ s. state_is s active),
          pre_write_and_commit,
          do_pre_commit,
        )
        refl;
  back = rw (at (λ s. state_is s pre_committing || state_is s pre_committed), do_rollback) refl;
  cleans = rw (at (λ s. state_is s active), clean) refl;
  front = at (λ s.
      (state_is s finished || (state_is s State.rollback_failed || state_is s State.txn_aborted))
      || (state_is s State.rollbacked || state_is s committed));
}
  where
    at : (f : State → Bool) → f t.state ≡ f committing
    at f = ap f h

-- DoCommit of a transaction that is prewritten and has no commit timestamp, when the provider fails: it
-- returns the provider's status with nothing sent, and leaves a transaction which from then on, whatever the
-- services answer, refuses commit and rollback alike; Clean does nothing to it, and the check that TxnManager
-- makes when it stops is false of it.
pub do_commit-Refused :
    (env later : Env) (flags : Flags) (t : Txn) (s : Status)
    → Prewritten t
    → t.commit_ts ≡ 0
    → env.gen_ts t.calls ≡ failure s
    → Returns (do_commit env flags t) λ r. (r.0 ≡ s) × (r.1.sent ≡ t.sent) × Refused later flags r.1
unfolding do_commit commit_phase timed take_commit_ts
do_commit-Refused env later flags t s p z e =
    rw
      (
        undecided, here, p.has_mutations, allowed, do_commit, commit_phase, no_ts, e, timed,
        take_commit_ts,
      )
      (refl, refl, committing-Refused later flags _ refl)
  where
    undecided : (state_is t.state committed || state_is t.state finished) ≡ false
    undecided = ap (λ s. state_is s committed || state_is s finished) p.is_pre_committed

    here : state_is t.state pre_committed ≡ true
    here = ap (λ s. state_is s pre_committed) p.is_pre_committed

    no_ts : (t.commit_ts == 0) ≡ true
    no_ts = ground (arith, z)

    allowed : (not t.use_async_commit || ltb 0 t.commit_ts) ≡ true
    allowed = elim (Bool-cases t.use_async_commit) [
      | inl y ↦ ground (arith, p.async_timed y)
      | inr n ↦ ground (arith, n)
    ]
