-- ===== src/Keyed/Count.antt =====
-- How often a key is in a list of keys.
use dingo_sdk.Base.{
  ℕ, ◌+◌, ◌≤◌, ◌<◌, Bool, true, false, List, [], ◌∷◌, ◌++◌, if◌then◌else◌, ◌==◌, ◌≡◌, refl,
  Bool-cases, inl, inr, arith,
}
use dingo_sdk.Key.{Key, key_ltb, key_eqb}
use dingo_sdk.Key.Order.{eqb_iff, eqb_refl}
use dingo_sdk.Status.{Status, is_ok, of_code, invalid_argument}
use dingo_sdk.Region.{RegionPtr}
use dingo_sdk.Keyed.{has_key, insert_key, erase_key, erase_keys, insert_all, Group, push_key}

abbrev pub count : Key → List Key → ℕ
count k [] = 0
count k (x ∷ xs) = (if key_eqb k x then 1 else 0) + count k xs

-- The keys of all requests.
abbrev pub keys_in : List Group → List Key
keys_in [] = []
keys_in (g ∷ gs) = g.keys ++ keys_in gs

pub count-append : (k : Key) (xs ys : List Key) → count k (xs ++ ys) ≡ count k xs + count k ys
count-append k [] ys = omega arith
count-append k (x ∷ xs) ys = omega (arith, count-append k xs ys)

pub count-insert_key : (k x : Key) (xs : List Key) → count k (insert_key x xs) ≡ count k (x ∷ xs)
unfolding insert_key
count-insert_key k x [] = refl
count-insert_key k x (y ∷ xs) = elim (Bool-cases (key_ltb x y)) [
  | inl h ↦ rw (insert_key, h) refl
  | inr h ↦ rw (insert_key, h) (omega (arith, count-insert_key k x xs))
]

inserted :
    (k x : Key) (next : List Key) (rest : Status × List Key) (n : ℕ) (b : Bool)
    → (is_ok rest.0 ≡ true → count k rest.1 ≡ n)
    → is_ok
        (elim b as (λ _. Status × List Key) [
          | true ↦ (of_code invalid_argument, next)
          | false ↦ rest
        ]).0
      ≡ true
    → count k
        (elim b as (λ _. Status × List Key) [
          | true ↦ (of_code invalid_argument, next)
          | false ↦ rest
        ]).1
      ≡ n
inserted k x next rest n true f h = cc
inserted k x next rest n false f h = f h

pub count-insert_all :
    (k : Key) (ks next : List Key)
    → is_ok (insert_all ks next).0 ≡ true
    → count k (insert_all ks next).1 ≡ count k ks + count k next
unfolding insert_all
count-insert_all k [] next h = omega arith
count-insert_all k (x ∷ ks) next h =
    inserted k x next (insert_all ks (insert_key x next)) _ (has_key x next)
      (λ y. omega (arith, count-insert_all k ks (insert_key x next) y, count-insert_key k x next)) h

pub count-erase_key :
    (k x : Key) (next : List Key)
    → 0 < count x next
    → count k (erase_key x next) + count k (x ∷ []) ≡ count k next
unfolding erase_key
count-erase_key k x [] h = absurd (omega (arith, h))
count-erase_key k x (y ∷ next) h = elim (Bool-cases (key_eqb x y)) [
  | inl e ↦ rw (erase_key, e, (eqb_iff x y).0 e) (omega arith)
  | inr n ↦
      let later : 0 < count x next = ground (arith, h, n) in
      rw (erase_key, n) (omega (arith, count-erase_key k x next later))
]

pub count-erase_keys :
    (ks next : List Key)
    → ((k : Key) → count k ks ≤ count k next)
    → (k : Key) → count k (erase_keys ks next) + count k ks ≡ count k next
unfolding erase_keys
count-erase_keys [] next h k = omega arith
count-erase_keys (x ∷ ks) next h k =
    let here : 0 < count x next = ground (arith, h x, eqb_refl x) in
    let rest =
      count-erase_keys ks (erase_key x next)
        (λ j. omega (arith, h j, count-erase_key j x next here)) k in
    omega (arith, rest, count-erase_key k x next here)

pub count-push_key :
    (k : Key) (r : RegionPtr) (x : Key) (gs : List Group)
    → count k (keys_in (push_key r x gs)) ≡ count k (x ∷ []) + count k (keys_in gs)
unfolding push_key
count-push_key k r x [] = omega arith
count-push_key k r x (g ∷ gs) = elim (Bool-cases (r.region_id == g.region.region_id)) [
  | inl y ↦
      rw (push_key, y)
        (omega (
          arith,
          count-append k (g.keys ++ x ∷ []) (keys_in gs),
          count-append k g.keys (x ∷ []),
          count-append k g.keys (keys_in gs),
        ))
  | inr n ↦
      rw (push_key, n)
        (omega (
          arith,
          count-append k g.keys (keys_in (push_key r x gs)),
          count-append k g.keys (keys_in gs),
          count-push_key k r x gs,
        ))
]
