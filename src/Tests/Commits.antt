-- ===== src/Tests/Commits.antt =====
-- A transaction with one write, and a manager with one transaction.
use dingo_sdk.Base.{ℕ, zero, suc, ◌+◌, false, true, [], ◌∷◌, ◌≡◌, refl, inl, arith}
use dingo_sdk.Key.{Key}
use dingo_sdk.Outcome.{done, Returns, ◌>>=◌}
use dingo_sdk.Status.{Status, success, failure, ok, of_code, not_found, txn_commit_ts_expired}
use dingo_sdk.Txn.Buffer
use dingo_sdk.Txn.Machine
use dingo_sdk.Txn.Machine.{Env, Flags, Txn, active, pre_committed, finished, init, check_finished}
use dingo_sdk.Txn.Machine.Commit.{do_commit}
use dingo_sdk.Txn.Machine.Ends.{Ended, Prewritten, GivesLater, FailsWell, do_commit-Ended}
use dingo_sdk.OrdMap
use dingo_sdk.Txn.Machine.Refused.{Refused, do_commit-Refused}
use dingo_sdk.Txn.Manager.{Manager}
use dingo_sdk.Txn.Manager.Active.{registers, unregisters, calls, Drained, calls-Drained}

-- The first commit request comes too late, the next is accepted.
abbrev committed_by : ℕ → Status
committed_by (suc zero) = of_code txn_commit_ts_expired
committed_by n = ok

abbrev env : Env
env = record {
  gen_ts = λ n. success (n + 11);
  region_of = λ n k. success 1;
  prewritten = λ n. record { status = ok; one_pc = false; async_commit = false; min_commit_ts = 0 };
  committed_by = committed_by;
  rolled_back_by = λ n. ok;
  value_of = λ n k. failure (of_code not_found);
  values_of = λ n ks. (ok, []);
}

abbrev flags : Flags
flags = record {
  txn_op_max_retry = 20;
  txn_max_batch_count = 4096;
  txn_max_async_commit_count = 256;
  enable_txn_async_commit = true;
  enable_txn_concurrent_prewrite = true;
}

abbrev k : Key
k = b'k' ∷ []

abbrev prewritten : Txn
prewritten = record Machine.new {
  state = pre_committed;
  start_ts = 10;
  buffer = record {
    primary_key = k;
    mutation_map = (k, record { type = Buffer.put_mutation; key = k; value = k }) ∷ [];
  };
}

later : GivesLater env prewritten
later n ts h = ground (arith, h)

env-FailsWell : FailsWell env
env-FailsWell = record { times = λ n s h. cc; regions = λ n k s h. cc }

prewritten-Prewritten : Prewritten prewritten
prewritten-Prewritten = record {
  is_pre_committed = refl;
  has_mutations = refl;
  has_primary = refl;
  timed = inl refl;
  async_timed = λ e. absurd (ground (arith, e));
  requests = tt;
}

do_commit-Ended_example : Returns (do_commit env flags prewritten) (Ended env prewritten)
do_commit-Ended_example =
    do_commit-Ended env flags prewritten later env-FailsWell prewritten-Prewritten

-- The same transaction before its first phase.
abbrev active_txn : Txn
active_txn = record prewritten { state = active }

-- The commit timestamp 11 has expired, and 13 is taken.
commits_at : do_commit env flags prewritten >>= (λ r. done (r.1.commit_ts)) ≡ done 13
unfolding do_commit Buffer.get_primary_key
commits_at = refl

-- The provider that gives no timestamp.
abbrev no_times : Env
no_times = record env { gen_ts = λ n. failure (of_code not_found) }

do_commit-Refused_example :
    Returns
      (do_commit no_times flags prewritten)
      λ r. (r.0 ≡ of_code not_found) × (r.1.sent ≡ []) × Refused env flags r.1
do_commit-Refused_example =
    do_commit-Refused no_times env flags prewritten (of_code not_found) prewritten-Prewritten refl
      refl

abbrev txns : ℕ → Txn
txns n = record prewritten { state = finished; start_ts = n }

abbrev stopped : Manager
stopped = record { active_txns = (10, tt) ∷ (12, tt) ∷ []; stopped = true }

calls-Drained_example :
    Returns
      (calls txns (registers 14 true ∷ unregisters 10 ∷ unregisters 9 ∷ []) stopped)
      (Drained (registers 14 true ∷ unregisters 10 ∷ unregisters 9 ∷ []) stopped)
calls-Drained_example =
    calls-Drained txns (registers 14 true ∷ unregisters 10 ∷ unregisters 9 ∷ []) stopped
      (unfold check_finished in (refl, (refl, (refl, tt)))) refl
