-- ===== src/Txn/Resolver/Right.antt =====
-- The resolver only asks the stores to do to a lock what has become of the lock's transaction.
use dingo_sdk.Base.{
  ℕ, zero, suc, ◌≤◌, max, Bool, true, false, not, ◌||◌, List, [], ◌∷◌, length, if◌then◌else◌, ltb,
  ◌==◌, ◌≡◌, All, Bool-cases, inl, inr, arith,
}
use dingo_sdk.Key.{Key, key_eqb}
use dingo_sdk.Outcome.{Outcome, done, ◌>>=◌, Returns, Returns->>=}
use dingo_sdk.Status.{Status, Result, success, failure, is_ok}
use dingo_sdk.Txn.Task.{LockInfo}
use dingo_sdk.Txn.CheckStatus.{
  TxnStatus, CheckRequest, is_committed, is_rollbacked, is_locked, is_min_commit_ts_pushed,
}
use dingo_sdk.Txn.ResolvedLocks.{Resolver, is_definitive}
use dingo_sdk.Txn.ResolvedLocks.Valid.{IsValid, save-IsValid}
use dingo_sdk.Txn.SecondaryLocks.{TxnSecondaryLockStatus, is_error}
use dingo_sdk.Txn.Resolver.{
  Tasks, is_not_found, is_conflict, with_time, resolve_normal_lock, after_failure, check_loop,
}

-- `Fate ts commit_ts` says that the transaction of these locks ends, or has ended, with this commit
-- timestamp, or is rolled back, where it is 0. `Primary` are the locks of primary keys with
-- asynchronous commit, and `Keeps` is what the stores keep.
pub record Truth (C : Type 0) : Type 1 where
  pub Fate : ℕ → ℕ → Type 0
  pub Primary : LockInfo → Type 0
  pub Keeps : C → Type 0

module _ {C : Type 0} (e : Tasks C) (o : Truth C) where
  -- A status tells the fate of the transaction, when it is definitive.
  abbrev pub Tells : ℕ → TxnStatus → Type 0
  Tells ts s =
      (is_definitive s ≡ true → o.Fate ts s.commit_ts)
      × (s.primary_lock_info.use_async_commit ≡ true
          → o.Primary s.primary_lock_info × (s.primary_lock_info.lock_ts ≡ ts))

  abbrev pub Ready : LockInfo → Type 0
  Ready l = (not l.use_async_commit || l.min_commit_ts == 0) ≡ false

  abbrev pub latest : ℕ → List LockInfo → ℕ
  latest n [] = n
  latest n (l ∷ ls) = latest (max n l.min_commit_ts) ls

  -- The status of the secondary locks tells the fate of the transaction of the primary lock.
  pub record Sound (p : LockInfo) (s : TxnSecondaryLockStatus) : Type 0 where
    pub sane : is_error s ≡ false
    pub own : All (λ (l : LockInfo). l.lock_ts ≡ p.lock_ts) s.locked_keys
    pub rolled_back : (s.is_rollbacked || s.is_txn_not_found) ≡ true → o.Fate p.lock_ts 0
    pub committed :
        ltb 0 s.commit_ts ≡ true
        → o.Fate p.lock_ts s.commit_ts
          × All (λ (l : LockInfo). l.min_commit_ts ≤ s.commit_ts) s.locked_keys
    pub complete :
        (s.is_rollbacked || s.is_txn_not_found) ≡ false
        → ltb 0 s.commit_ts ≡ false
        → length s.locked_keys ≡ length p.secondaries
    pub prepared :
        (s.is_rollbacked || s.is_txn_not_found) ≡ false
        → ltb 0 s.commit_ts ≡ false
        → All Ready s.locked_keys
        → o.Fate p.lock_ts (latest p.min_commit_ts s.locked_keys)

  -- What the stores answer is true, and they keep `Keeps` while each request is right.
  pub record Stores : Type 0 where
    pub checks :
        (q : CheckRequest) (c : C)
        → o.Keeps c
        → Returns
            (e.check_status q c)
            λ a. o.Keeps a.1 × (is_ok a.0.0 ≡ true → Tells q.lock_ts a.0.1)
    pub clock : (n : ℕ) (c : C) → o.Keeps c → Returns (e.gen_physical_ts n c) λ a. o.Keeps a.1
    pub secondaries :
        (p : LockInfo) (c : C)
        → o.Primary p
        → o.Keeps c
        → Returns
            (e.check_secondary_locks p.secondaries p.lock_ts c)
            λ a. o.Keeps a.1 × (is_ok a.0.0 ≡ true → Sound p a.0.1)
    pub resolves :
        (ts : ℕ) (keys : List Key) (commit_ts : ℕ) (c : C)
        → o.Keeps c
        → o.Fate ts commit_ts
        → Returns (e.resolve ts keys commit_ts c) λ a. o.Keeps a.1

  abbrev pub Kept : ℕ → TxnStatus → Type 0
  Kept ts s = (is_definitive s ≡ true) × Tells ts s

  -- The cache is valid and true, and `Keeps` holds.
  abbrev pub Good : Resolver → C → Type 0
  Good r c = IsValid Kept e.max_cache_size r × o.Keeps c

  abbrev pub Ended : Status × Resolver × C → Type 0
  Ended a = Good a.1 a.2

  definitive_rest : (s : TxnStatus) → is_locked s ≡ false → is_definitive s ≡ true
  unfolding is_locked is_committed is_rollbacked
  definitive_rest s n = ground (arith, n)

  module _ (w : Stores) where
    pub resolve_normal_lock-keeps :
        (l : LockInfo) (s : TxnStatus) (c : C)
        → Tells l.lock_ts s
        → o.Keeps c
        → Returns (resolve_normal_lock e l s c) λ a. o.Keeps a.1
    unfolding resolve_normal_lock
    resolve_normal_lock-keeps l s c t i = elim (Bool-cases (is_min_commit_ts_pushed s)) [
      | inl y ↦ rw (resolve_normal_lock, y) i
      | inr z ↦ elim (Bool-cases (is_locked s)) [
        | inl y ↦ rw (resolve_normal_lock, z, y) i
        | inr n ↦
            let d = definitive_rest s n in
            elim (Bool-cases (key_eqb l.primary_lock l.key)) [
              | inl y ↦ rw (resolve_normal_lock, z, n, d, y) i
              | inr k ↦
                  rw (resolve_normal_lock, z, n, d, k)
                    (Returns->>= (λ a. o.Keeps a.1) (λ a. o.Keeps a.1) _ _
                      (w.resolves l.lock_ts (l.key ∷ []) s.commit_ts c i (t.0 d)) λ a h. h)
            ]
      ]
    ]

    after_failure-keeps :
        (l : LockInfo) (start_ts : ℕ) (rollback : Bool) (s : Status) (told : TxnStatus) (c : C)
        → o.Keeps c
        → Returns (after_failure e l start_ts rollback s told c) λ a. o.Keeps a.1
    unfolding after_failure
    after_failure-keeps l start_ts rollback s told c i = elim (Bool-cases (is_not_found s.code)) [
      | inl y ↦ rw (after_failure, y) (timed (λ n. if ltb n l.lock_ttl then rollback else true))
      | inr z ↦ elim (Bool-cases (is_conflict s.code)) [
        | inr n ↦ rw (after_failure, z, n) i
        | inl y ↦ elim (Bool-cases (ltb start_ts told.primary_lock_info.lock_ts)) [
          | inl m ↦ rw (after_failure, z, y, m) i
          | inr m ↦ rw (after_failure, z, y, m) (timed (λ n. rollback))
        ]
      ]
    ]
      where
        keeps : (f : ℕ → Bool) (x : Result ℕ × C) → o.Keeps x.1 → o.Keeps (with_time f x).1
        keeps f (failure st, d) j = j
        keeps f (success n, d) j = j

        timed :
            (f : ℕ → Bool)
            → Returns (e.gen_physical_ts 2 c >>= λ ts. done (with_time f ts)) λ a. o.Keeps a.1
        timed f = Returns->>= (λ a. o.Keeps a.1) (λ a. o.Keeps a.1) _ _ (w.clock 2 c i) (keeps f)

    -- What is found is true.
    abbrev pub FoundTrue : ℕ → Result TxnStatus × Resolver × C → Type 0
    FoundTrue ts (failure st, r, c) = Good r c
    FoundTrue ts (success s, r, c) = Good r c × Tells ts s

    go_on-FoundTrue :
        (ts : ℕ) (r : Resolver) (b : Result Bool × C)
        (k : Bool → C → Outcome (Result TxnStatus × Resolver × C))
        → IsValid Kept e.max_cache_size r
        → o.Keeps b.1
        → ((x : Bool) (d : C) → o.Keeps d → Returns (k x d) (FoundTrue ts))
        → Returns
            (elim b.0 [ failure st ↦ done (failure st, r, b.1) | success x ↦ k x b.1 ])
            (FoundTrue ts)
    go_on-FoundTrue ts r (failure st, d) k v i h = (v, i)
    go_on-FoundTrue ts r (success x, d) k v i h = h x d i

    pub check_loop-FoundTrue :
        (l : LockInfo) (start_ts : ℕ) (force : Bool) (n : ℕ) (rollback : Bool) (s : Status)
        (r : Resolver) (c : C)
        → Good r c
        → Returns (check_loop e l start_ts force n rollback s (r, c)) (FoundTrue l.lock_ts)
    unfolding check_loop
    check_loop-FoundTrue l start_ts force zero rollback s r c g = g
    check_loop-FoundTrue l start_ts force (suc n) rollback s r c g =
        Returns->>=
          (λ (a : (Status × TxnStatus) × C).
            o.Keeps a.1 × (is_ok a.0.0 ≡ true → Tells l.lock_ts a.0.1))
          (FoundTrue l.lock_ts) _ _ (w.checks _ c g.1)
          λ a t. elim (Bool-cases (is_ok a.0.0)) [
            | inl y ↦ rw (y) (
                Returns->>= (IsValid Kept e.max_cache_size) (FoundTrue l.lock_ts) _ _
                  (save-IsValid Kept e.max_cache_size l.lock_ts a.0.1 r (λ d. (d, t.1 y)) g.0)
                  λ saved v. ((v, t.0), t.1 y))
            | inr z ↦ rw (z) (
                Returns->>= (λ (b : Result Bool × C). o.Keeps b.1) (FoundTrue l.lock_ts) _ _
                  (after_failure-keeps l start_ts rollback a.0.0 a.0.1 a.1 t.0)
                  λ b i.
                    go_on-FoundTrue l.lock_ts r b _ g.0 i
                      λ x d j. check_loop-FoundTrue l start_ts force n x a.0.0 r d (g.0, j))
          ]
