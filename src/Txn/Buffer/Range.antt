-- ===== src/Txn/Buffer/Range.antt =====
-- `Range`: which mutations it returns, and the ranges at which its second CHECK fails.
use dingo_sdk.Base.{
  Bool, true, false, not, ◌&&◌, List, [], ◌∷◌, if◌then◌else◌, ◌≡◌, refl, sym, arith, keep,
  keep_none, All, All-map, Bool-cases, inl, inr,
}
use dingo_sdk.Key.{Key, key_ltb}
use dingo_sdk.Key.Order.{◌<ₖ◌, ◌≤ₖ◌, le_trans, le_of_lt, lt_trans}
use dingo_sdk.OrdMap
use dingo_sdk.OrdMap.{IsSorted}
use dingo_sdk.Outcome.{done, aborted}
use dingo_sdk.Txn.Buffer.{Buffer, Mutation, range, values, is_nil}

abbrev pub in_range : Key → Key → Key × Mutation → Bool
in_range s e x = not (key_ltb x.0 s) && key_ltb x.0 e

-- Every key lies at or after `e`.
abbrev pub none_below : Key → List (Key × Mutation) → Bool
none_below e [] = true
none_below e ((j, v) ∷ m) = not (key_ltb j e) && none_below e m

-- Past the start, `lower_bound` of the end cuts off what lies in the range.
before-keep :
    (s e : Key) (m : List (Key × Mutation))
    → IsSorted m
    → All (λ x. s ≤ₖ x.0) m
    → OrdMap.before e m ≡ keep (in_range s e) m
unfolding OrdMap.before
before-keep s e [] o h = refl
before-keep s e ((j, v) ∷ m) o h = elim (Bool-cases (key_ltb j e)) [
  | inl lt ↦ ground (arith, before-keep s e m o.1 h.1)
  | inr ge ↦ ground (arith, keep_none (in_range s e) m (rest ge))
]
  where
    rest : e ≤ₖ j → All (λ x. in_range s e x ≡ false) m
    rest ge = All-map (λ x lt. ground (arith, le_trans e j x.0 ge (le_of_lt j x.0 lt))) m o.0

before-from-keep :
    (s e : Key) (m : List (Key × Mutation))
    → IsSorted m
    → OrdMap.before e (OrdMap.from s m) ≡ keep (in_range s e) m
unfolding OrdMap.from
before-from-keep s e [] o = unfold OrdMap.before in refl
before-from-keep s e ((j, v) ∷ m) o = elim (Bool-cases (key_ltb j s)) [
  | inl lt ↦ ground (arith, before-from-keep s e m o.1)
  | inr ge ↦
      rw (ge, OrdMap.from)
        (before-keep s e ((j, v) ∷ m) o
          (ge, All-map (λ x lt. le_trans s j x.0 ge (le_of_lt j x.0 lt)) m o.0))
]

before-none_below :
    (e : Key) (m : List (Key × Mutation)) → IsSorted m → is_nil (OrdMap.before e m) ≡ none_below e m
unfolding OrdMap.before
before-none_below e [] o = refl
before-none_below e ((j, v) ∷ m) o = elim (Bool-cases (key_ltb j e)) [
  | inl lt ↦ rw (lt, OrdMap.before)
  | inr ge ↦ rw (ge, OrdMap.before) (sym (below ge m o.0))
]
  where
    below : e ≤ₖ j → (m : List (Key × Mutation)) → All (λ x. j <ₖ x.0) m → none_below e m ≡ true
    below ge [] h = refl
    below ge (x ∷ m) h = ground (arith, below ge m h.1, le_trans e j x.0 ge (le_of_lt j x.0 h.0))

before-nil : (e : Key) → OrdMap.before {V = Mutation} e [] ≡ []
unfolding OrdMap.before
before-nil e = refl

-- With nothing at or after the start, what is buffered lies below the end.
empty_from :
    (s e j : Key) (v : Mutation) (m : List (Key × Mutation))
    → s <ₖ e
    → is_nil (OrdMap.from s ((j, v) ∷ m)) ≡ true
    → none_below e ((j, v) ∷ m) ≡ false
unfolding OrdMap.from
empty_from s e j v m lt h = ground (arith, lt_trans j s e)

-- With a start key below the end key, `Range` returns the mutations whose keys lie in
-- [start_key, end_key), in order; but the process ends at its second CHECK if the buffer holds
-- mutations and each lies at or after the end key.
pub range-keep :
    (s e : Key) (b : Buffer)
    → IsSorted b.mutation_map
    → s <ₖ e
    → range s e b ≡ (
        if not (is_nil b.mutation_map) && none_below e b.mutation_map
        then aborted
        else done (values (keep (in_range s e) b.mutation_map)))
unfolding range
range-keep s e b o lt = go b.mutation_map refl
  where
    go :
        (m : List (Key × Mutation))
        → b.mutation_map ≡ m
        → range s e b ≡ (
            if not (is_nil b.mutation_map) && none_below e b.mutation_map
            then aborted
            else done (values (keep (in_range s e) b.mutation_map)))
    go [] h = rw (lt, h)
    go ((j, v) ∷ m) h = ground (
      arith,
      before-from-keep s e b.mutation_map o,
      before-none_below e b.mutation_map o,
      empty_from s e j v m,
      before-nil e,
    )
