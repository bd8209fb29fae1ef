-- ===== src/Txn/Resolver/Unfound.antt =====
-- A lock whose transaction the store of the primary key does not know.
use dingo_sdk.Base.{
  ℕ, suc, ◌<◌, Bool, true, false, [], ◌∷◌, length, Option, none, some, ltb, ◌≡◌, refl, sym, subst,
  ap, ◌∙◌, arith,
}
use dingo_sdk.Key.{key_eqb}
use dingo_sdk.Outcome.{Outcome, done, aborted, ◌>>=◌}
use dingo_sdk.Status.{Status, success, ok, is_ok, of_code, txn_not_found}
use dingo_sdk.MetaCache.Ids.{find_id}
use dingo_sdk.Txn.Task.{LockInfo, TxnResultInfo, check_txn_result_info}
use dingo_sdk.Txn.CheckStatus.{
  TxnStatus, CheckReply, no_action, no_lock, is_committed, is_rollbacked, is_locked,
  is_min_commit_ts_pushed, txn_check_status_rpc_callback, lock_in, lock_of,
}
use dingo_sdk.Txn.ResolvedLocks.{Resolver, save, evict, cached}
use dingo_sdk.Txn.Resolver.{
  Tasks, finish, resolve_normal_lock, check_loop, check_primary, find_status, resolve_lock,
}

-- The answer of a store that does not know the transaction: the other fields have their defaults.
pub record IsUnfound (reply : CheckReply) (x : TxnResultInfo) : Type 0 where
  pub answered : is_ok reply.status ≡ true
  pub result : reply.txn_result ≡ some x
  pub unlocked : x.locked ≡ none
  pub no_conflict : x.has_write_conflict ≡ false
  pub not_found : x.has_txn_not_found ≡ true
  pub no_ttl : reply.lock_ttl ≡ 0
  pub no_commit : reply.commit_ts ≡ 0
  pub nothing_done : reply.action ≡ no_action

-- What the task makes of it.
abbrev pub unfound_status : TxnStatus
unfound_status = record {
  lock_ttl = 0;
  commit_ts = 0;
  action = no_action;
  primary_lock_info = no_lock;
}

no_lock_of : (reply : CheckReply) (x : TxnResultInfo) → IsUnfound reply x → lock_of reply ≡ no_lock
unfolding lock_of
no_lock_of reply x u =
    let given : lock_in (some x) ≡ no_lock = rw (lock_in, u.unlocked) refl in
    rw (lock_of, u.answered) (ap lock_in u.result ∙ given)

told_unfound :
    (reply : CheckReply) (x : TxnResultInfo)
    → IsUnfound reply x
    → txn_check_status_rpc_callback reply ≡ (ok, unfound_status)
unfolding txn_check_status_rpc_callback
told_unfound reply x u =
    rw
      (
        txn_check_status_rpc_callback,
        no_lock_of reply x u,
        u.answered,
        u.no_ttl,
        u.no_commit,
        u.nothing_done,
      )
      refl

module _ {C : Type 0} (e : Tasks C) where
  abbrev pub with_unfound : ℕ → Resolver → Resolver
  with_unfound ts r = record {
    lru_queue = ts ∷ r.lru_queue;
    lock_cache = (ts, unfound_status) ∷ r.lock_cache;
  }

  saved_unfound :
      (ts : ℕ) (r : Resolver)
      → find_id ts r.lock_cache ≡ none
      → length r.lock_cache < e.max_cache_size
      → save e.max_cache_size ts unfound_status r ≡ done (with_unfound ts r)
  unfolding save evict is_committed is_rollbacked
  saved_unfound ts r absent room =
      let fits : ltb e.max_cache_size (suc (length r.lock_cache)) ≡ false = ground (arith, room) in
      rw (save, absent, evict, fits) refl

  checked_unfound :
      (l : LockInfo) (start_ts n : ℕ) (force : Bool) (r : Resolver) (c d : C)
      → find_id l.lock_ts r.lock_cache ≡ none
      → length r.lock_cache < e.max_cache_size
      → e.check_status
          (record {
            primary_key = l.primary_lock;
            lock_ts = l.lock_ts;
            caller_start_ts = start_ts;
            force_sync_commit = force;
            rollback_if_not_exist = false;
          })
          c
        ≡ done ((ok, unfound_status), d)
      → check_loop e l start_ts force (suc n) false ok (r, c)
        ≡ done (success unfound_status, with_unfound l.lock_ts r, d)
  unfolding check_loop
  checked_unfound l start_ts n force r c d absent room asked =
      rw (check_loop, asked, saved_unfound l.lock_ts r absent room) refl

  cached_absent : (ts : ℕ) (r : Resolver) → find_id ts r.lock_cache ≡ none → cached ts r ≡ (none, r)
  unfolding cached
  cached_absent ts r absent = rw (cached, absent) refl

  found_unfound :
      (l : LockInfo) (start_ts : ℕ) (force : Bool) (r : Resolver) (c d : C)
      → find_id l.lock_ts r.lock_cache ≡ none
      → check_loop e l start_ts force e.max_retry_times false ok (r, c)
        ≡ done (success unfound_status, with_unfound l.lock_ts r, d)
      → find_status e l start_ts force (r, c)
        ≡ done (success (unfound_status, false), with_unfound l.lock_ts r, d)
  unfolding find_status check_primary
  found_unfound l start_ts force r c d absent checked =
      let miss = cached_absent l.lock_ts r absent in
      rw (find_status, miss)
        (rw (ap (λ (p : Option TxnStatus × Resolver). p.1) miss) (rw (check_primary, checked) refl))

  -- The status of the request is the end of the call.
  finishes :
      (m : Outcome (Status × C)) (r : Resolver)
      → let n : Outcome (Status × C) = m >>= λ a. done (finish a.0, a.1) in
        let left : Outcome (Status × Resolver × C) = n >>= λ a. done (a.0, r, a.1) in
        let right : Outcome (Status × Resolver × C) = m >>= λ a. done (finish a.0, r, a.1) in
        left ≡ right
  finishes (done a) r = refl
  finishes aborted r = refl

  -- A store does not know the transaction of a lock, which is not that of the primary key: its result
  -- is the error TxnNotFound. The first check of ResolveLock, which asks without
  -- `rollback_if_not_exist`, then ends with OK and a status that counts as rolled back, whatever the
  -- time to live of the lock. ResolveLock puts this status into its cache, if that has room, and asks
  -- to roll the lock back.
  pub resolve_lock_rolls_back_unfound :
      (l : LockInfo) (start_ts n : ℕ) (force : Bool) (r : Resolver) (c d : C) (reply : CheckReply)
      (x : TxnResultInfo)
      → IsUnfound reply x
      → find_id l.lock_ts r.lock_cache ≡ none
      → length r.lock_cache < e.max_cache_size
      → e.max_retry_times ≡ suc n
      → key_eqb l.primary_lock l.key ≡ false
      → e.check_status
          (record {
            primary_key = l.primary_lock;
            lock_ts = l.lock_ts;
            caller_start_ts = start_ts;
            force_sync_commit = force;
            rollback_if_not_exist = false;
          })
          c
        ≡ done (txn_check_status_rpc_callback reply, d)
      → (check_txn_result_info x ≡ of_code txn_not_found)
        × (resolve_lock e l start_ts force (r, c)
            ≡ e.resolve l.lock_ts (l.key ∷ []) 0 d >>= λ a.
                done (finish a.0, with_unfound l.lock_ts r, a.1))
  unfolding check_txn_result_info resolve_lock resolve_normal_lock is_committed is_rollbacked
      is_locked is_min_commit_ts_pushed
  resolve_lock_rolls_back_unfound l start_ts n force r c d reply x u absent room tries other asked =
      (
        rw (check_txn_result_info, u.unlocked, u.no_conflict, u.not_found) refl,
        let checked =
              checked_unfound l start_ts n force r c d absent room
                (asked ∙ ap (λ t. done (t, d)) (told_unfound reply x u)) in
            let from_flags =
              subst
                (λ (k : ℕ).
                  check_loop e l start_ts force k false ok (r, c)
                  ≡ done (success unfound_status, with_unfound l.lock_ts r, d))
                (sym tries) checked in
            rw
              (
                resolve_lock,
                found_unfound l start_ts force r c d absent from_flags,
                resolve_normal_lock,
                other,
              )
              (finishes (e.resolve l.lock_ts (l.key ∷ []) 0 d) (with_unfound l.lock_ts r)),
      )
