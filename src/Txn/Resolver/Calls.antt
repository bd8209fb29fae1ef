-- ===== src/Txn/Resolver/Calls.antt =====
-- Calls of `ResolveLock`, one after another.
use dingo_sdk.Base.{
  ℕ, ◌≤◌, ◌<◌, max, Bool, true, false, not, ◌&&◌, ◌||◌, List, [], ◌∷◌, length, Option, none, some,
  if◌then◌else◌, ltb, leb, ◌==◌, ◌≡◌, refl, All, Bool-cases, inl, inr, arith, ==_refl,
}
use dingo_sdk.Outcome.{
  Outcome, done, check, for_each, ◌>>=◌, ◌>>◌, Returns, Returns->>=, Returns-map,
}
use dingo_sdk.Status.{Status, Result, success, failure, is_ok, ok}
use dingo_sdk.Txn.Task.{LockInfo}
use dingo_sdk.Txn.CheckStatus.{TxnStatus}
use dingo_sdk.Txn.ResolvedLocks.{Resolver, is_definitive, cached}
use dingo_sdk.Txn.ResolvedLocks.Valid.{IsValid, Given, cached-IsValid}
use dingo_sdk.Txn.SecondaryLocks.{
  TxnSecondaryLockStatus, is_nil, keys_of, check_lock_ts, check_committed, least_commit_ts,
}
use dingo_sdk.Txn.Resolver.{
  Tasks, resolve_normal_lock, check_primary, find_status, resolve_forced, resolve_keys,
  resolve_secondaries, resolve_lock_secondary_locks, resolve_lock, Call, call,
}
use dingo_sdk.Txn.Resolver.Right.{
  Truth, Tells, Ready, latest, Sound, Stores, Kept, Good, Ended, FoundTrue,
  resolve_normal_lock-keeps, check_loop-FoundTrue,
}

module _ {C : Type 0} (e : Tasks C) (o : Truth C) (w : Stores e o) where
  abbrev Found : ℕ → Result (TxnStatus × Bool) × Resolver × C → Type 0
  Found ts (failure st, r, c) = Good e o r c
  Found ts (success s, r, c) =
      Good e o r c × Tells e o ts s.0 × (s.1 ≡ true → s.0.primary_lock_info.use_async_commit ≡ true)

  check_primary-Found :
      (l : LockInfo) (start_ts : ℕ) (force : Bool) (r : Resolver) (c : C)
      → Good e o r c
      → Returns (check_primary e l start_ts force (r, c)) (Found l.lock_ts)
  unfolding check_primary
  check_primary-Found l start_ts force r c g =
      Returns->>= (FoundTrue e o w l.lock_ts) (Found l.lock_ts) _ _
        (check_loop-FoundTrue e o w l start_ts force e.max_retry_times false ok r c g) tells
    where
      tells :
          (a : Result TxnStatus × Resolver × C)
          → FoundTrue e o w l.lock_ts a
          → Found l.lock_ts (elim a.0 [
            | failure st ↦ (failure st, a.1, a.2)
            | success s ↦ (
              success
                  (s, ltb 0 s.primary_lock_info.lock_ts && s.primary_lock_info.use_async_commit),
              a.1,
              a.2,
            )
          ])
      tells (failure st, r1, c1) h = h
      tells (success s, r1, c1) h = (h.0, h.1, λ b. ground (arith, b))

  find_status-Found :
      (l : LockInfo) (start_ts : ℕ) (force : Bool) (r : Resolver) (c : C)
      → Good e o r c
      → Returns (find_status e l start_ts force (r, c)) (Found l.lock_ts)
  unfolding find_status
  find_status-Found l start_ts force r c g =
      let (valid, given) = cached-IsValid (Kept e o) e.max_cache_size l.lock_ts r g.0 in
      go (cached l.lock_ts r) valid given
    where
      go :
          (hit : Option TxnStatus × Resolver)
          → IsValid (Kept e o) e.max_cache_size hit.1
          → Given (Kept e o) l.lock_ts hit.0
          → Returns
              (elim hit.0 [
                | none ↦ check_primary e l start_ts force (hit.1, c)
                | some s ↦ elim (is_definitive s) [
                  | true ↦ done (success (s, s.primary_lock_info.use_async_commit), hit.1, c)
                  | false ↦ check_primary e l start_ts force (hit.1, c)
                ]
              ])
              (Found l.lock_ts)
      go (none, r1) v k = check_primary-Found l start_ts force r1 c (v, g.1)
      go (some s, r1) v k = rw (k.0) ((v, g.1), k.1, λ b. b)

  resolve_forced-Ended :
      (l : LockInfo) (start_ts : ℕ) (r : Resolver) (c : C)
      → Good e o r c
      → Returns (resolve_forced e l start_ts (r, c)) (Ended e o)
  unfolding resolve_forced
  resolve_forced-Ended l start_ts r c g =
      Returns->>= (Found l.lock_ts) (Ended e o) _ _ (find_status-Found l start_ts true r c g) ends
    where
      ends :
          (a : Result (TxnStatus × Bool) × Resolver × C)
          → Found l.lock_ts a
          → Returns
              (elim a.0 [
                | failure st ↦ done (st, a.1, a.2)
                | success s ↦ resolve_normal_lock e l s.0 a.2 >>= λ b. done (b.0, a.1, b.1)
              ])
              (Ended e o)
      ends (failure st, r1, c1) h = h
      ends (success s, r1, c1) h =
          Returns->>= (λ (b : Status × C). o.Keeps b.1) (Ended e o) _ _
            (resolve_normal_lock-keeps e o w l s.0 c1 h.1 h.0.1) λ b i. (h.0.0, i)

  -- The loops over the secondary locks pass.
  check_lock_ts-passes :
      (p : LockInfo) (ls : List LockInfo)
      → All (λ (l : LockInfo). l.lock_ts ≡ p.lock_ts) ls
      → for_each (check_lock_ts p) ls tt ≡ done tt
  unfolding for_each check_lock_ts
  check_lock_ts-passes p [] h = refl
  check_lock_ts-passes p (l ∷ ls) h = rw (h.0, ==_refl p.lock_ts) (check_lock_ts-passes p ls h.1)

  check_committed-passes :
      (p : LockInfo) (n : ℕ) (ls : List LockInfo)
      → All (λ (l : LockInfo). l.lock_ts ≡ p.lock_ts) ls
      → All (λ (l : LockInfo). l.min_commit_ts ≤ n) ls
      → for_each (check_committed p n) ls tt ≡ done tt
  unfolding for_each check_committed
  check_committed-passes p n [] h k = refl
  check_committed-passes p n (l ∷ ls) h k =
      let below : leb l.min_commit_ts n ≡ true = ground (arith, k.0) in
      rw (h.0, ==_refl p.lock_ts, below) (check_committed-passes p n ls h.1 k.1)

  -- The least commit timestamp is found, unless a lock is not ready.
  abbrev Least : LockInfo → ℕ → List LockInfo → Option ℕ → Type 0
  Least p n ls none = Unit
  Least p n ls (some m) = All (Ready e o) ls × (m ≡ latest e o n ls)

  least_commit_ts-Least :
      (p : LockInfo) (ls : List LockInfo) (n : ℕ)
      → All (λ (l : LockInfo). l.lock_ts ≡ p.lock_ts) ls
      → Returns (least_commit_ts p ls n) (Least p n ls)
  unfolding least_commit_ts
  least_commit_ts-Least p [] n h = (tt, refl)
  least_commit_ts-Least p (l ∷ ls) n h =
      elim (Bool-cases (not l.use_async_commit || l.min_commit_ts == 0)) [
        | inl y ↦ rw (least_commit_ts, h.0, ==_refl p.lock_ts, y) tt
        | inr z ↦
            rw (least_commit_ts, h.0, ==_refl p.lock_ts, z)
              (Returns-map (Least p (max n l.min_commit_ts) ls) (Least p n (l ∷ ls)) _ (both z)
                (least_commit_ts-Least p ls (max n l.min_commit_ts) h.1))
      ]
    where
      both :
          (not l.use_async_commit || l.min_commit_ts == 0) ≡ false
          → (m : Option ℕ) → Least p (max n l.min_commit_ts) ls m
          → Least p n (l ∷ ls) m
      both z none k = tt
      both z (some m) k = ((z, k.0), k.1)

  le-latest : (n : ℕ) (ls : List LockInfo) → n ≤ latest e o n ls
  le-latest n [] = omega arith
  le-latest n (l ∷ ls) = omega (arith, le-latest (max n l.min_commit_ts) ls)

  latest_positive :
      (n : ℕ) (ls : List LockInfo)
      → is_nil ls ≡ false
      → All (Ready e o) ls
      → ltb 0 (latest e o n ls) ≡ true
  latest_positive n [] q h = cc
  latest_positive n (l ∷ ls) q h =
      let some_time : 0 < l.min_commit_ts = ground (arith, h.0) in
      ground (arith, le-latest (max n l.min_commit_ts) ls)

  resolve_keys-Ended :
      (p : LockInfo) (ls : List LockInfo) (n : ℕ) (r : Resolver) (c : C)
      → Good e o r c
      → o.Fate p.lock_ts n
      → Returns (resolve_keys e p ls n (r, c)) (Ended e o)
  resolve_keys-Ended p ls n r c g f =
      Returns->>= (λ (b : Status × C). o.Keeps b.1) (Ended e o) _ _
        (w.resolves p.lock_ts (keys_of p ls) n c g.1 f) λ b i. (g.0, i)

  resolve_secondaries-Ended :
      (again : Resolver × C → Outcome (Status × Resolver × C)) (p : LockInfo)
      (s : TxnSecondaryLockStatus) (r : Resolver) (c : C)
      → Returns (again (r, c)) (Ended e o)
      → Sound e o p s
      → Good e o r c
      → Returns (resolve_secondaries e again p s (r, c)) (Ended e o)
  unfolding resolve_secondaries
  resolve_secondaries-Ended again p s r c k t g =
      elim (Bool-cases (s.is_rollbacked || s.is_txn_not_found)) [
        | inl y ↦
            rw (resolve_secondaries, t.sane, y, check_lock_ts-passes p s.locked_keys t.own)
              (resolve_keys-Ended p s.locked_keys 0 r c g (t.rolled_back y))
        | inr z ↦ elim (Bool-cases (ltb 0 s.commit_ts)) [
          | inl y ↦
              let (fate, below) = t.committed y in
              rw
                (
                  resolve_secondaries,
                  t.sane,
                  z,
                  y,
                  check_committed-passes p s.commit_ts s.locked_keys t.own below,
                )
                (resolve_keys-Ended p s.locked_keys s.commit_ts r c g fate)
          | inr n ↦ elim (Bool-cases (is_nil s.locked_keys)) [
            | inl y ↦ rw (resolve_secondaries, t.sane, z, n, y) g
            | inr x ↦
                rw
                  (
                    resolve_secondaries,
                    t.sane,
                    z,
                    n,
                    x,
                    t.complete z n,
                    ==_refl (length p.secondaries),
                  )
                  (Returns->>= (Least p p.min_commit_ts s.locked_keys) (Ended e o) _ _
                    (least_commit_ts-Least p s.locked_keys p.min_commit_ts t.own) (takes z n x))
          ]
        ]
      ]
    where
      takes :
          (s.is_rollbacked || s.is_txn_not_found) ≡ false
          → ltb 0 s.commit_ts ≡ false
          → is_nil s.locked_keys ≡ false
          → (m : Option ℕ) → Least p p.min_commit_ts s.locked_keys m
          → Returns
              (elim m [
                | none ↦ again (r, c)
                | some n ↦ check (ltb 0 n) >> resolve_keys e p s.locked_keys n (r, c)
              ])
              (Ended e o)
      takes z n x none h = k
      takes z n x (some m) h =
          let positive = latest_positive p.min_commit_ts s.locked_keys x h.0 in
          rw (h.1, positive)
            (resolve_keys-Ended p s.locked_keys (latest e o p.min_commit_ts s.locked_keys) r c g
              (t.prepared z n h.0))

  resolve_lock_secondary_locks-Ended :
      (again : Resolver × C → Outcome (Status × Resolver × C)) (p : LockInfo) (r : Resolver) (c : C)
      → ((d : C) → o.Keeps d → Returns (again (r, d)) (Ended e o))
      → o.Primary p
      → Good e o r c
      → Returns (resolve_lock_secondary_locks e again p (r, c)) (Ended e o)
  unfolding resolve_lock_secondary_locks
  resolve_lock_secondary_locks-Ended again p r c k q g =
      Returns->>=
        (λ (a : (Status × TxnSecondaryLockStatus) × C).
          o.Keeps a.1 × (is_ok a.0.0 ≡ true → Sound e o p a.0.1))
        (Ended e o) _ _ (w.secondaries p c q g.1)
        λ a h. elim (Bool-cases (is_ok a.0.0)) [
          | inl y ↦
              rw (y) (resolve_secondaries-Ended again p a.0.1 r a.1 (k a.1 h.0) (h.1 y) (g.0, h.0))
          | inr z ↦ rw (z) (g.0, h.0)
        ]

  resolve_lock-Ended :
      (l : LockInfo) (start_ts : ℕ) (force : Bool) (r : Resolver) (c : C)
      → Good e o r c
      → Returns (resolve_lock e l start_ts force (r, c)) (Ended e o)
  unfolding resolve_lock
  resolve_lock-Ended l start_ts force r c g =
      Returns->>= (Found l.lock_ts) (Ended e o) _ _ (find_status-Found l start_ts force r c g) ends
    where
      normal :
          (s : TxnStatus) (r1 : Resolver) (c1 : C)
          → Good e o r1 c1
          → Tells e o l.lock_ts s
          → Returns (resolve_normal_lock e l s c1 >>= λ b. done (b.0, r1, b.1)) (Ended e o)
      normal s r1 c1 h t =
          Returns->>= (λ (b : Status × C). o.Keeps b.1) (Ended e o) _ _
            (resolve_normal_lock-keeps e o w l s c1 t h.1) λ b i. (h.0, i)

      ends :
          (a : Result (TxnStatus × Bool) × Resolver × C)
          → Found l.lock_ts a
          → Returns
              (elim a.0 [
                | failure st ↦ done (st, a.1, a.2)
                | success s ↦
                    if s.1 && not force
                    then resolve_lock_secondary_locks e
                        (resolve_forced e l start_ts)
                        s.0.primary_lock_info
                        (a.1, a.2)
                    else resolve_normal_lock e l s.0 a.2 >>= λ b. done (b.0, a.1, b.1)
              ])
              (Ended e o)
      ends (failure st, r1, c1) h = h
      ends (success (s, true), r1, c1) h = elim (Bool-cases force) [
        | inl y ↦ rw (y) (normal s r1 c1 h.0 h.1)
        | inr z ↦ rw (z) (
            resolve_lock_secondary_locks-Ended (resolve_forced e l start_ts) s.primary_lock_info r1
              c1 (λ d i. resolve_forced-Ended l start_ts r1 d (h.0.0, i)) (h.1.1 (h.2 refl)).0 h.0)
      ]
      ends (success (s, false), r1, c1) h = normal s r1 c1 h.0 h.1

  -- Calls of `ResolveLock`, on a cache that is valid and true, when the tasks that it runs give out what
  -- `Stores` says; of TxnCheckStatusTask this asks that a status it calls OK is true. No CHECK fails and the
  -- cache stays valid and true.
  pub calls-Good :
      (ks : List Call) (r : Resolver) (c : C)
      → Good e o r c
      → Returns (for_each (call e) ks (r, c)) λ x. Good e o x.0 x.1
  unfolding for_each call
  calls-Good [] r c g = g
  calls-Good (k ∷ ks) r c g =
      Returns->>= (λ (x : Resolver × C). Good e o x.0 x.1) (λ (x : Resolver × C). Good e o x.0 x.1)
        _ _
        (Returns->>= (Ended e o) (λ (x : Resolver × C). Good e o x.0 x.1) _ _
          (resolve_lock-Ended k.lock k.start_ts k.force_sync_commit r c g) λ a h. h)
        λ x h. calls-Good ks x.0 x.1 h
