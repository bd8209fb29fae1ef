-- ===== src/Txn/KeyTasks/Batches.antt =====
-- The requests of a commit to a region have its keys, in their order, and are not too large.
use dingo_sdk.Base.{
  ℕ, suc, ◌+◌, ◌≤◌, ◌<◌, List, [], ◌∷◌, ◌++◌, All, length, ◌==◌, ◌≡◌, refl, Bool-cases, inl, inr,
  arith,
}
use dingo_sdk.Key.{Key}
use dingo_sdk.Region.{RegionPtr}
use dingo_sdk.Keyed.{Group}
use dingo_sdk.Keyed.Count.{count, keys_in, count-append}
use dingo_sdk.Txn.KeyTasks.{split_keys, requests_to, split_groups}

count-split_keys :
    (max : ℕ) (r : RegionPtr) (k : Key) (request ks : List Key)
    → count k (keys_in (requests_to r (split_keys max request ks))) ≡ count k request + count k ks
unfolding split_keys requests_to
count-split_keys max r k request [] = omega (arith, count-append k request [])
count-split_keys max r k request (x ∷ ks) = elim (Bool-cases (length request == max)) [
  | inl y ↦
      rw (split_keys, y)
        (omega (
          arith,
          count-append k request (keys_in (requests_to r (split_keys max (x ∷ []) ks))),
          count-split_keys max r k (x ∷ []) ks,
        ))
  | inr n ↦
      rw (split_keys, n)
        (omega
          (arith, count-split_keys max r k (request ++ x ∷ []) ks, count-append k request (x ∷ [])))
]

pub count-requests_to :
    (k : Key) (xs ys : List Group)
    → count k (keys_in (xs ++ ys)) ≡ count k (keys_in xs) + count k (keys_in ys)
count-requests_to k [] ys = omega arith
count-requests_to k (x ∷ xs) ys = omega (
  arith,
  count-requests_to k xs ys,
  count-append k x.keys (keys_in (xs ++ ys)),
  count-append k x.keys (keys_in xs),
)

-- No key is lost or sent twice.
pub count-split_groups :
    (max : ℕ) (gs : List Group) (k : Key)
    → count k (keys_in (split_groups max gs)) ≡ count k (keys_in gs)
unfolding split_groups
count-split_groups max [] k = refl
count-split_groups max (g ∷ gs) k = omega (
  arith,
  count-requests_to k (requests_to g.region (split_keys max [] g.keys)) (split_groups max gs),
  count-split_keys max g.region k [] g.keys,
  count-split_groups max gs k,
  count-append k g.keys (keys_in gs),
)

abbrev pub Small : ℕ → Group → Type 0
Small max g = length g.keys ≤ max

length-grown : (x : Key) (xs : List Key) → length (xs ++ x ∷ []) ≡ suc (length xs)
length-grown x [] = refl
length-grown x (y ∷ xs) = omega (arith, length-grown x xs)

split_keys-Small :
    (max : ℕ) (r : RegionPtr) (request ks : List Key)
    → 0 < max
    → length request ≤ max
    → All (Small max) (requests_to r (split_keys max request ks))
unfolding split_keys requests_to
split_keys-Small max r request [] p l = (l, tt)
split_keys-Small max r request (x ∷ ks) p l = elim (Bool-cases (length request == max)) [
  | inl y ↦ rw (split_keys, y) (l, split_keys-Small max r (x ∷ []) ks p (omega (arith, p)))
  | inr n ↦
      rw (split_keys, n)
        (split_keys-Small max r (request ++ x ∷ []) ks p
          (ground (arith, l, n, length-grown x request)))
]

All-both :
    (max : ℕ) (xs ys : List Group)
    → All (Small max) xs
    → All (Small max) ys
    → All (Small max) (xs ++ ys)
All-both max [] ys a b = b
All-both max (x ∷ xs) ys a b = (a.0, All-both max xs ys a.1 b)

-- The requests of a commit are of at most `max` keys each, where `max` is positive.
pub split_groups-Small :
    (max : ℕ) (gs : List Group) → 0 < max → All (Small max) (split_groups max gs)
unfolding split_groups
split_groups-Small max [] p = tt
split_groups-Small max (g ∷ gs) p =
    All-both max (requests_to g.region (split_keys max [] g.keys)) (split_groups max gs)
      (split_keys-Small max g.region [] g.keys p (omega (arith, p))) (split_groups-Small max gs p)
