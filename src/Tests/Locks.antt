-- ===== src/Tests/Locks.antt =====
-- The locks of two transactions: that of timestamp 5 is prepared, with one secondary lock, and all
-- others are rolled back.
use dingo_sdk.Base.{
  ℕ, Bool, true, false, List, [], ◌∷◌, none, some, if◌then◌else◌, ◌==◌, ◌≡◌, refl, sym, subst, All,
  arith, ==_iff,
}
use dingo_sdk.Key.{Key, key_eqb}
use dingo_sdk.Outcome.{done, Returns, for_each}
use dingo_sdk.Status.{success, ok, of_code, txn_not_found}
use dingo_sdk.MetaCache.Ids.{find_id}
use dingo_sdk.Txn.Task.{LockInfo, TxnResultInfo, check_txn_result_info}
use dingo_sdk.Txn.CheckStatus.{
  TxnStatus, CheckRequest, CheckReply, no_action, no_lock, is_committed, is_rollbacked,
  txn_check_status_rpc_callback,
}
use dingo_sdk.Txn.ResolvedLocks.{Resolver}
use dingo_sdk.Txn.SecondaryLocks.{TxnSecondaryLockStatus, is_error}
use dingo_sdk.Txn.Resolver.{Tasks, Call, call, resolve_lock}
use dingo_sdk.Txn.Resolver.Right.{Truth, Stores, Sound, Tells, Good}
use dingo_sdk.Txn.Resolver.Calls.{calls-Good}
use dingo_sdk.Txn.Resolver.Unfound.{resolve_lock_rolls_back_unfound}

abbrev lock_at : Key → ℕ → ℕ → List Key → LockInfo
lock_at key ts min secondaries = record {
  primary_lock = b'p' ∷ [];
  key = key;
  lock_ts = ts;
  lock_ttl = 3;
  use_async_commit = true;
  min_commit_ts = min;
  secondaries = secondaries;
}

abbrev primary : LockInfo
primary = lock_at (b'p' ∷ []) 5 8 ((b's' ∷ []) ∷ [])

abbrev prepared : TxnStatus
prepared = record { lock_ttl = 3; commit_ts = 0; action = no_action; primary_lock_info = primary }

abbrev rolled_back : TxnStatus
rolled_back = record {
  lock_ttl = 0;
  commit_ts = 0;
  action = no_action;
  primary_lock_info = no_lock;
}

abbrev secondary : TxnSecondaryLockStatus
secondary = record {
  locked_keys = lock_at (b's' ∷ []) 5 9 [] ∷ [];
  commit_ts = 0;
  is_txn_not_found = false;
  is_rollbacked = false;
}

-- The requests to resolve locks, with their commit timestamps, are written down.
abbrev World : Type 0
World = List (ℕ × ℕ)

abbrev tasks : Tasks World
tasks = record {
  check_status = λ q c. done ((ok, if q.lock_ts == 5 then prepared else rolled_back), c);
  gen_physical_ts = λ n c. done (success 1, c);
  check_secondary_locks = λ keys ts c. done ((ok, secondary), c);
  resolve = λ ts keys commit_ts c. done (ok, (ts, commit_ts) ∷ c);
  max_cache_size = 2;
  max_retry_times = 3;
}

abbrev fate : ℕ → ℕ
fate ts = if ts == 5 then 9 else 0

abbrev truth : Truth World
truth = record {
  Fate = λ ts commit_ts. commit_ts ≡ fate ts;
  Primary = λ p. p ≡ primary;
  Keeps = λ c. All (λ (q : ℕ × ℕ). q.1 ≡ fate q.0) c;
}

told :
    (q : CheckRequest)
    → Tells tasks truth q.lock_ts (if q.lock_ts == 5 then prepared else rolled_back)
unfolding is_committed is_rollbacked
told q = go (q.lock_ts == 5) refl
  where
    go :
        (b : Bool)
        → (q.lock_ts == 5) ≡ b
        → Tells tasks truth q.lock_ts (if b then prepared else rolled_back)
    go true e = (λ h. cc, λ h. (refl, sym ((==_iff q.lock_ts 5).0 e)))
    go false e = (λ h. ground (arith, e), λ h. cc)

secondary-Sound : Sound tasks truth primary secondary
unfolding is_error
secondary-Sound = record {
  sane = refl;
  own = (refl, tt);
  rolled_back = λ h. cc;
  committed = λ h. cc;
  complete = λ h k. refl;
  prepared = λ h k r. refl;
}

stores : Stores tasks truth
stores = record {
  checks = λ q c i. (i, λ y. told q);
  clock = λ n c i. i;
  secondaries =
      λ p c h i. (i, λ y. subst (λ x. Sound tasks truth x secondary) (sym h) secondary-Sound);
  resolves = λ ts keys commit_ts c i f. (f, i);
}

abbrev calls : List Call
calls =
    record { lock = lock_at (b's' ∷ []) 5 9 []; start_ts = 20; force_sync_commit = false }
    ∷ record { lock = lock_at (b't' ∷ []) 6 9 []; start_ts = 20; force_sync_commit = false }
    ∷ record { lock = lock_at (b't' ∷ []) 6 9 []; start_ts = 21; force_sync_commit = true }
    ∷ []

abbrev empty : Resolver
empty = record { lru_queue = []; lock_cache = [] }

locks_resolved : Returns (for_each (call tasks) calls (empty, [])) λ x. Good tasks truth x.0 x.1
locks_resolved = calls-Good tasks truth stores calls empty [] (
  (
    record { distinct = tt; distinct_keys = tt; same = λ i. refl; sized = refl; told = tt },
    omega arith,
  ),
  tt,
)

-- The store of the primary key answers TxnNotFound.
abbrev unfound_info : TxnResultInfo
unfound_info = record {
  locked = none;
  has_write_conflict = false;
  has_txn_not_found = true;
  has_primary_mismatch = false;
}

abbrev unfound : CheckReply
unfound = record {
  status = ok;
  txn_result = some unfound_info;
  lock_ttl = 0;
  commit_ts = 0;
  action = no_action;
}

abbrev unfound_tasks : Tasks World
unfound_tasks = record tasks {
  check_status = λ q c. done (txn_check_status_rpc_callback unfound, c);
}

no_entry : find_id 6 empty.lock_cache ≡ none
unfolding find_id
no_entry = refl

resolve_lock_rolls_back_unfound_example :
    (check_txn_result_info unfound_info ≡ of_code txn_not_found)
    × (resolve_lock unfound_tasks (lock_at (b't' ∷ []) 6 9 []) 20 false (empty, [])
        ≡ done (ok, record { lru_queue = 6 ∷ []; lock_cache = (6, rolled_back) ∷ [] }, (6, 0) ∷ []))
unfolding key_eqb
resolve_lock_rolls_back_unfound_example =
    resolve_lock_rolls_back_unfound unfound_tasks (lock_at (b't' ∷ []) 6 9 []) 20 2 false empty []
      [] unfound unfound_info
      (record {
        answered = refl;
        result = refl;
        unlocked = refl;
        no_conflict = refl;
        not_found = refl;
        no_ttl = refl;
        no_commit = refl;
        nothing_done = refl;
      })
      no_entry (omega arith) refl refl refl
