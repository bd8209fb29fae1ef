-- ===== src/Txn/Resolver.antt =====
-- src/sdk/transaction/txn_lock_resolver.h and txn_lock_resolver.cc: what is done about the lock of
-- another transaction, with a cache of the transactions whose end is known. The tasks that the
-- resolver runs and the timestamp provider are arguments (`Tasks`), and `C` is what they read and
-- change.
use dingo_sdk.Base.{
  ℕ, zero, suc, ◌/◌, max, Bool, true, false, not, ◌&&◌, ◌||◌, List, [], ◌∷◌, map, length, last?,
  keep, Option, none, some, if◌then◌else◌, ltb, leb, ◌==◌,
}
use dingo_sdk.Key.{Key, key_eqb}
use dingo_sdk.Outcome.{Outcome, done, aborted, check, check_some, for_each, ◌>>=◌, ◌>>◌}
use dingo_sdk.Status.{
  Status, Code, Result, success, failure, is_ok, ok, of_code, txn_not_found, txn_lock_conflict,
  txn_write_conflict, push_min_commit_ts,
}
use dingo_sdk.MetaCache.Ids.{find_id, erase_id}
use dingo_sdk.Txn.Task.{LockInfo}
use dingo_sdk.Txn.ResolvedLocks.{Resolver, is_definitive, save, cached}
use dingo_sdk.Txn.SecondaryLocks.{
  TxnSecondaryLockStatus, is_error, is_nil, keys_of, check_lock_ts, check_committed,
  least_commit_ts,
}
use dingo_sdk.Txn.CheckStatus.{
  TxnStatus, CheckRequest, is_committed, is_rollbacked, is_locked, is_min_commit_ts_pushed,
}
pub mod Right
pub mod Calls
pub mod Unfound

abbrev pub is_not_found : Code → Bool
is_not_found txn_not_found = true
is_not_found _ = false

abbrev pub is_conflict : Code → Bool
is_conflict txn_lock_conflict = true
is_conflict _ = false

abbrev pub finish : Status → Status
finish s = if is_ok s then ok else s

-- A value that depends on the current time, unless that is not known.
abbrev pub with_time : {C : Type 0} → (ℕ → Bool) → Result ℕ × C → Result Bool × C
with_time f (failure e, c) = (failure e, c)
with_time f (success n, c) = (success (f n), c)

-- What the resolver calls, and its two bounds.
pub record Tasks (C : Type 0) : Type 0 where
  pub check_status : CheckRequest → C → Outcome ((Status × TxnStatus) × C)
  pub gen_physical_ts : ℕ → C → Outcome (Result ℕ × C)
  pub check_secondary_locks : List Key → ℕ → C → Outcome ((Status × TxnSecondaryLockStatus) × C)
  pub resolve : ℕ → List Key → ℕ → C → Outcome (Status × C)
  pub max_cache_size : ℕ
  pub max_retry_times : ℕ

-- The arguments of a call of `ResolveLock`.
pub record Call : Type 0 where
  pub lock : LockInfo
  pub start_ts : ℕ
  pub force_sync_commit : Bool

module _ {C : Type 0} (e : Tasks C) where
  -- `ResolveNormalLock`.
  unfoldable pub resolve_normal_lock : LockInfo → TxnStatus → C → Outcome (Status × C)
  resolve_normal_lock l s c =
      if is_min_commit_ts_pushed s
      then done (of_code push_min_commit_ts, c)
      else (if is_locked s
          then done (of_code txn_lock_conflict, c)
          else check (is_definitive s)
            >> (if key_eqb l.primary_lock l.key
                then done (ok, c)
                else (e.resolve l.lock_ts (l.key ∷ []) s.commit_ts c >>= λ r.
                    done (finish r.0, r.1))))

  -- What a check that fails leads to: the end, or another check with this `rollback_if_not_exist`.
  unfoldable pub after_failure :
      LockInfo → ℕ → Bool → Status → TxnStatus → C → Outcome (Result Bool × C)
  after_failure l start_ts rollback s told c =
      if is_not_found s.code
      then (e.gen_physical_ts 2 c >>= λ ts.
          done (with_time (λ current_ts. if ltb current_ts l.lock_ttl then rollback else true) ts))
      else (if is_conflict s.code
          then (if ltb start_ts told.primary_lock_info.lock_ts
              then done (failure (of_code txn_write_conflict), c)
              else (e.gen_physical_ts 2 c >>= λ ts. done (with_time (λ current_ts. rollback) ts)))
          else done (failure s, c))

  -- The loop of checks, for the passes that are left, and the status of the pass before.
  unfoldable pub check_loop :
      LockInfo
      → ℕ
      → Bool
      → ℕ
      → Bool
      → Status
      → Resolver × C
      → Outcome (Result TxnStatus × Resolver × C)
  check_loop l start_ts force zero rollback s (r, c) = done (failure s, r, c)
  check_loop l start_ts force (suc n) rollback s (r, c) =
      e.check_status
        (record {
          primary_key = l.primary_lock;
          lock_ts = l.lock_ts;
          caller_start_ts = start_ts;
          force_sync_commit = force;
          rollback_if_not_exist = rollback;
        })
        c
      >>= λ a. elim (is_ok a.0.0) [
        | true ↦
            save e.max_cache_size l.lock_ts a.0.1 r >>= λ saved. done (success a.0.1, saved, a.1)
        | false ↦ after_failure l start_ts rollback a.0.0 a.0.1 a.1 >>= λ next. elim next.0 [
          | failure st ↦ done (failure st, r, next.1)
          | success rollback1 ↦ check_loop l start_ts force n rollback1 a.0.0 (r, next.1)
        ]
      ]

  -- A status that was found, and whether the lock of its primary key is one of asynchronous commit.
  unfoldable pub check_primary :
      LockInfo → ℕ → Bool → Resolver × C → Outcome (Result (TxnStatus × Bool) × Resolver × C)
  check_primary l start_ts force (r, c) =
      check_loop l start_ts force e.max_retry_times false ok (r, c) >>= λ a. done (elim a.0 [
        | failure st ↦ (failure st, a.1, a.2)
        | success s ↦ (
          success (s, ltb 0 s.primary_lock_info.lock_ts && s.primary_lock_info.use_async_commit),
          a.1,
          a.2,
        )
      ])

  -- The status in the cache, if it is definitive, and otherwise that of a check.
  unfoldable pub find_status :
      LockInfo → ℕ → Bool → Resolver × C → Outcome (Result (TxnStatus × Bool) × Resolver × C)
  find_status l start_ts force (r, c) =
      let hit = cached l.lock_ts r in
      elim hit.0 [
        | none ↦ check_primary l start_ts force (hit.1, c)
        | some s ↦ elim (is_definitive s) [
          | true ↦ done (success (s, s.primary_lock_info.use_async_commit), hit.1, c)
          | false ↦ check_primary l start_ts force (hit.1, c)
        ]
      ]

  -- `ResolveLock` with `force_sync_commit`, which is where the secondary locks may lead back to.
  unfoldable pub resolve_forced : LockInfo → ℕ → Resolver × C → Outcome (Status × Resolver × C)
  resolve_forced l start_ts x = find_status l start_ts true x >>= λ found. elim found.0 [
    | failure st ↦ done (st, found.1, found.2)
    | success s ↦ resolve_normal_lock l s.0 found.2 >>= λ a. done (a.0, found.1, a.1)
  ]

  abbrev pub resolve_keys :
      LockInfo → List LockInfo → ℕ → Resolver × C → Outcome (Status × Resolver × C)
  resolve_keys p locks commit_ts (r, c) =
      e.resolve p.lock_ts (keys_of p locks) commit_ts c >>= λ a. done (finish a.0, r, a.1)

  -- `ResolveLockSecondaryLocks` once the status of the locks is known; `again` is the way back.
  unfoldable pub resolve_secondaries :
      (Resolver × C → Outcome (Status × Resolver × C))
      → LockInfo
      → TxnSecondaryLockStatus
      → Resolver × C
      → Outcome (Status × Resolver × C)
  resolve_secondaries again p s x =
      check (not (is_error s))
      >> (if s.is_rollbacked || s.is_txn_not_found
          then for_each (check_lock_ts p) s.locked_keys tt >> resolve_keys p s.locked_keys 0 x
          else (if ltb 0 s.commit_ts
              then for_each (check_committed p s.commit_ts) s.locked_keys tt
                >> resolve_keys p s.locked_keys s.commit_ts x
              else (if is_nil s.locked_keys
                  then done (ok, x.0, x.1)
                  else check (length s.locked_keys == length p.secondaries)
                    >> (least_commit_ts p s.locked_keys p.min_commit_ts >>= λ least. elim least [
                      | none ↦ again x
                      | some n ↦ check (ltb 0 n) >> resolve_keys p s.locked_keys n x
                    ]))))

  -- `ResolveLockSecondaryLocks`.
  unfoldable pub resolve_lock_secondary_locks :
      (Resolver × C → Outcome (Status × Resolver × C))
      → LockInfo
      → Resolver × C
      → Outcome (Status × Resolver × C)
  resolve_lock_secondary_locks again p (r, c) =
      e.check_secondary_locks p.secondaries p.lock_ts c >>= λ a.
      if is_ok a.0.0 then resolve_secondaries again p a.0.1 (r, a.1) else done (a.0.0, r, a.1)

  -- `ResolveLock`.
  unfoldable pub resolve_lock : LockInfo → ℕ → Bool → Resolver × C → Outcome (Status × Resolver × C)
  resolve_lock l start_ts force x = find_status l start_ts force x >>= λ found. elim found.0 [
    | failure st ↦ done (st, found.1, found.2)
    | success s ↦
        if s.1 && not force
        then resolve_lock_secondary_locks (resolve_forced l start_ts) s.0.primary_lock_info
            (found.1, found.2)
        else resolve_normal_lock l s.0 found.2 >>= λ a. done (a.0, found.1, a.1)
  ]

  -- A call of `ResolveLock` whose status is dropped.
  unfoldable pub call : Call → Resolver × C → Outcome (Resolver × C)
  call k x = resolve_lock k.lock k.start_ts k.force_sync_commit x >>= λ a. done (a.1, a.2)

-- The number of checks, from the two flags.
unfoldable pub max_retry_times_of : ℕ → ℕ → ℕ
max_retry_times_of heartbeat_lock_delay_ms check_status_interval_ms =
    suc (heartbeat_lock_delay_ms / check_status_interval_ms)
