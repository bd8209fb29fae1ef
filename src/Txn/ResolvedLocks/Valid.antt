-- ===== src/Txn/ResolvedLocks/Valid.antt =====
-- The queue and the map of the cache hold the same timestamps, at most as many as the cache may hold.
use dingo_sdk.Base.{
  ℕ, suc, ◌≤◌, true, not, ◌&&◌, List, [], ◌∷◌, length, Option, none, some, ltb, ◌==◌, ◌≡◌, sym, ap,
  subst, ◌∙◌, All, Bool-cases, Option-cases, inl, inr, arith, ==_iff,
}
use dingo_sdk.Outcome.{Returns}
use dingo_sdk.MetaCache.Ids.{find_id, erase_id}
use dingo_sdk.Txn.CheckStatus.{TxnStatus}
use dingo_sdk.Txn.ResolvedLocks.{Resolver, promote, evict, is_definitive, save, cached}
use dingo_sdk.Txn.ResolvedLocks.Keys.{
  holds, Distinct, has, DistinctKeys, holds-keep, keep-Distinct, length-keep, pop_back-keep,
  has-erase_id, erase_id-DistinctKeys, length-erase_id, has-none, has-some,
}

module _ (P : ℕ → TxnStatus → Type 0) where
  abbrev Told : List (ℕ × TxnStatus) → Type 0
  Told m = All (λ (e : ℕ × TxnStatus). P e.0 e.1) m

  -- Each timestamp is once in the queue and once in the map, with a status that has `P`.
  pub record Linked (r : Resolver) : Type 0 where
    pub distinct : Distinct r.lru_queue
    pub distinct_keys : DistinctKeys r.lock_cache
    pub same : (i : ℕ) → holds i r.lru_queue ≡ has i r.lock_cache
    pub sized : length r.lru_queue ≡ length r.lock_cache
    pub told : Told r.lock_cache

  abbrev pub IsValid : ℕ → Resolver → Type 0
  IsValid max_cache_size r = Linked r × (length r.lock_cache ≤ max_cache_size)

  told_found :
      (i : ℕ) (s : TxnStatus) (m : List (ℕ × TxnStatus)) → find_id i m ≡ some s → Told m → P i s
  unfolding find_id
  told_found i s [] f t = cc
  told_found i s (e ∷ m) f t = elim (Bool-cases (i == e.0)) [
    | inl y ↦
        let value : some e.1 ≡ some s = ground (arith, f, y) in
        let same : e.1 ≡ s = cc in
        subst (λ (k : ℕ). P k s) (sym ((==_iff i e.0).0 y)) (subst (λ x. P e.0 x) same t.0)
    | inr n ↦ told_found i s m (ground (arith, f, n)) t.1
  ]

  erase_id-Told : (j : ℕ) (m : List (ℕ × TxnStatus)) → Told m → Told (erase_id j m)
  unfolding erase_id
  erase_id-Told j [] t = tt
  erase_id-Told j (e ∷ m) t = elim (Bool-cases (j == e.0)) [
    | inl y ↦ rw (erase_id, y) (erase_id-Told j m t.1)
    | inr n ↦ rw (erase_id, n) (t.0, erase_id-Told j m t.1)
  ]

  promote-Linked :
      (ts : ℕ) (r : Resolver) → has ts r.lock_cache ≡ true → Linked r → Linked (promote ts r)
  unfolding promote
  promote-Linked ts r h v =
      let held : holds ts r.lru_queue ≡ true = v.same ts ∙ h in
      record {
        distinct =
            (ground (arith, holds-keep ts ts r.lru_queue), keep-Distinct ts r.lru_queue v.distinct);
        distinct_keys = v.distinct_keys;
        same = λ i. elim (Bool-cases (i == ts)) [
          | inl y ↦
              rw (holds, y)
                (sym (subst (λ (k : ℕ). has k r.lock_cache ≡ true) (sym ((==_iff i ts).0 y)) h))
          | inr z ↦ ground (arith, z, holds-keep i ts r.lru_queue, v.same i)
        ];
        sized = sym (length-keep ts r.lru_queue v.distinct held) ∙ v.sized;
        told = v.told;
      }

  -- What the cache gives has `P`, and the cache stays valid.
  abbrev pub Given : ℕ → Option TxnStatus → Type 0
  Given ts none = Unit
  Given ts (some s) = P ts s

  pub cached-IsValid :
      (n ts : ℕ) (r : Resolver) → IsValid n r → IsValid n (cached ts r).1 × Given ts (cached ts r).0
  unfolding cached promote
  cached-IsValid n ts r v = elim (Option-cases (find_id ts r.lock_cache)) [
    | inl h ↦ rw (cached, h) (v, tt)
    | inr (s, h) ↦
        rw (cached, h)
          (
            (promote-Linked ts r (has-some ts s r.lock_cache h) v.0, v.1),
            told_found ts s r.lock_cache h v.0.told,
          )
  ]

  evict-IsValid :
      (n x : ℕ) (q : List ℕ) (m : List (ℕ × TxnStatus))
      → Linked (record { lru_queue = x ∷ q; lock_cache = m })
      → length m ≤ suc n
      → Returns (evict n (record { lru_queue = x ∷ q; lock_cache = m })) (IsValid n)
  unfolding evict
  evict-IsValid n x q m v b = elim (Bool-cases (ltb n (length m))) [
    | inl y ↦
        let (k, last, popped, held) = pop_back-keep x q v.distinct in
        let in_map : has k m ≡ true = sym (v.same k) ∙ held in
        let fewer = length-erase_id k m v.distinct_keys in_map in
        rw (evict, y, last, popped)
          (
            record {
              distinct = keep-Distinct k (x ∷ q) v.distinct;
              distinct_keys = erase_id-DistinctKeys k m v.distinct_keys;
              same = λ i.
                  holds-keep i k (x ∷ q)
                  ∙ ap (λ b. b && not (k == i)) (v.same i)
                  ∙ sym (has-erase_id i k m);
              sized = omega (arith, length-keep k (x ∷ q) v.distinct held, v.sized, fewer);
              told = erase_id-Told k m v.told;
            },
            omega (arith, fewer, b),
          )
    | inr z ↦ rw (evict, z) (v, ground (arith, z))
  ]

  pub save-IsValid :
      (n ts : ℕ) (s : TxnStatus) (r : Resolver)
      → (is_definitive s ≡ true → P ts s)
      → IsValid n r
      → Returns (save n ts s r) (IsValid n)
  unfolding save
  save-IsValid n ts s r p v = elim (Bool-cases (is_definitive s)) [
    | inr z ↦ rw (save, z) v
    | inl y ↦ elim (Option-cases (find_id ts r.lock_cache)) [
      | inr (x, h) ↦ rw (save, y, h) v
      | inl h ↦
          let absent = has-none ts r.lock_cache h in
          rw (save, y, h)
            (evict-IsValid n ts r.lru_queue ((ts, s) ∷ r.lock_cache)
              (record {
                distinct = (v.0.same ts ∙ absent, v.0.distinct);
                distinct_keys = (absent, v.0.distinct_keys);
                same = λ i. ground (arith, v.0.same i);
                sized = ap suc v.0.sized;
                told = (p y, v.0.told);
              })
              (omega (arith, v.1)))
    ]
  ]
