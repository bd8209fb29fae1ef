-- ===== src/Txn/ResolvedLocks/Keys.antt =====
-- The timestamps in the queue and in the map of the cache.
use dingo_sdk.Base.{
  ℕ, suc, Bool, true, false, not, ◌&&◌, ◌||◌, List, [], ◌∷◌, length, last?, keep, none, some, ◌==◌,
  ◌≡◌, refl, sym, ap, subst, Bool-cases, inl, inr, arith, ==_iff, ==_refl,
}
use dingo_sdk.MetaCache.Ids.{find_id, erase_id}
use dingo_sdk.Txn.CheckStatus.{TxnStatus}
use dingo_sdk.Txn.ResolvedLocks.{other_than, pop_back}

abbrev pub holds : ℕ → List ℕ → Bool
holds i [] = false
holds i (x ∷ xs) = i == x || holds i xs

abbrev pub Distinct : List ℕ → Type 0
Distinct [] = Unit
Distinct (x ∷ xs) = (holds x xs ≡ false) × Distinct xs

abbrev pub has : ℕ → List (ℕ × TxnStatus) → Bool
has i [] = false
has i (e ∷ m) = i == e.0 || has i m

abbrev pub DistinctKeys : List (ℕ × TxnStatus) → Type 0
DistinctKeys [] = Unit
DistinctKeys (e ∷ m) = (has e.0 m ≡ false) × DistinctKeys m

pub holds-keep :
    (i j : ℕ) (q : List ℕ) → holds i (keep (other_than j) q) ≡ holds i q && not (j == i)
holds-keep i j [] = refl
holds-keep i j (x ∷ q) = ground (arith, holds-keep i j q)

pub keep-Distinct : (j : ℕ) (q : List ℕ) → Distinct q → Distinct (keep (other_than j) q)
keep-Distinct j [] d = tt
keep-Distinct j (x ∷ q) d = elim (Bool-cases (j == x)) [
  | inl y ↦ rw (Distinct, y) (keep-Distinct j q d.1)
  | inr n ↦ rw (Distinct, n) (ground (arith, holds-keep x j q, d.0), keep-Distinct j q d.1)
]

keep_absent : (j : ℕ) (q : List ℕ) → holds j q ≡ false → keep (other_than j) q ≡ q
keep_absent j [] h = refl
keep_absent j (x ∷ q) h = ground (arith, keep_absent j q)

pub length-keep :
    (j : ℕ) (q : List ℕ)
    → Distinct q
    → holds j q ≡ true
    → length q ≡ suc (length (keep (other_than j) q))
length-keep j [] d h = cc
length-keep j (x ∷ q) d h = elim (Bool-cases (j == x)) [
  | inl y ↦
      let e : j ≡ x = (==_iff j x).0 y in
      rw (keep, y, keep_absent j q (subst (λ k. holds k q ≡ false) (sym e) d.0)) refl
  | inr n ↦ rw (keep, n) (ap suc (length-keep j q d.1 (ground (arith, h))))
]

-- The last of the queue is given up.
pub pop_back-keep :
    (x : ℕ) (q : List ℕ)
    → Distinct (x ∷ q)
    → (b : ℕ) × (last? (x ∷ q) ≡ some b)
      × (pop_back (x ∷ q) ≡ keep (other_than b) (x ∷ q))
      × (holds b (x ∷ q) ≡ true)
unfolding pop_back
pop_back-keep x [] d = (x, refl, rw (keep, ==_refl x) refl, rw (holds, ==_refl x) refl)
pop_back-keep x (y ∷ q) d =
    let (b, last, popped, held) = pop_back-keep y q d.1 in
    let ne : b == x ≡ false = elim (Bool-cases (b == x)) [
      | inl e ↦ cc (d.0, held, (==_iff b x).0 e)
      | inr n ↦ n
    ] in
    (b, last, rw (keep, ne, popped) refl, rw (holds, ne) held)

pub has-erase_id :
    (i j : ℕ) (m : List (ℕ × TxnStatus)) → has i (erase_id j m) ≡ has i m && not (j == i)
unfolding erase_id
has-erase_id i j [] = refl
has-erase_id i j (e ∷ m) = ground (arith, has-erase_id i j m)

erase_id_absent : (j : ℕ) (m : List (ℕ × TxnStatus)) → has j m ≡ false → erase_id j m ≡ m
unfolding erase_id
erase_id_absent j [] h = refl
erase_id_absent j (e ∷ m) h = ground (arith, erase_id_absent j m)

pub erase_id-DistinctKeys :
    (j : ℕ) (m : List (ℕ × TxnStatus)) → DistinctKeys m → DistinctKeys (erase_id j m)
unfolding erase_id
erase_id-DistinctKeys j [] d = tt
erase_id-DistinctKeys j (e ∷ m) d = elim (Bool-cases (j == e.0)) [
  | inl y ↦ rw (DistinctKeys, y) (erase_id-DistinctKeys j m d.1)
  | inr n ↦
      rw (DistinctKeys, n)
        (ground (arith, has-erase_id e.0 j m, d.0), erase_id-DistinctKeys j m d.1)
]

pub length-erase_id :
    (j : ℕ) (m : List (ℕ × TxnStatus))
    → DistinctKeys m
    → has j m ≡ true
    → length m ≡ suc (length (erase_id j m))
unfolding erase_id
length-erase_id j [] d h = cc
length-erase_id j (e ∷ m) d h = elim (Bool-cases (j == e.0)) [
  | inl y ↦
      let same : j ≡ e.0 = (==_iff j e.0).0 y in
      rw (y, erase_id_absent j m (subst (λ k. has k m ≡ false) (sym same) d.0)) refl
  | inr n ↦ rw (n) (ap suc (length-erase_id j m d.1 (ground (arith, h))))
]

pub has-none : (i : ℕ) (m : List (ℕ × TxnStatus)) → find_id i m ≡ none → has i m ≡ false
unfolding find_id
has-none i [] h = refl
has-none i (e ∷ m) h = ground (arith, has-none i m, h)

pub has-some :
    (i : ℕ) (s : TxnStatus) (m : List (ℕ × TxnStatus)) → find_id i m ≡ some s → has i m ≡ true
unfolding find_id
has-some i s [] h = cc
has-some i s (e ∷ m) h = ground (arith, has-some i s m, h)
