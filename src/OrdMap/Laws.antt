-- ===== src/OrdMap/Laws.antt =====
-- The laws of the map's operations.
use dingo_sdk.Base.{
  false, List, [], ◌∷◌, ◌++◌, none, some, ◌≡◌, refl, sym, subst, All, All-map, arith, Bool-cases,
  inl, inr, if◌then◌else◌,
}
use dingo_sdk.Key.{Key, key_ltb, key_eqb}
use dingo_sdk.Key.Order.{◌<ₖ◌, ◌≤ₖ◌, lt_trans, eqb_iff, eqb_refl, eqb-lt, lt_of_le_of_ne}
use dingo_sdk.OrdMap.{find, erase, insert, before, from, IsSorted}

module _ {ℓ} {V : Type ℓ} where
  pub before-from : (k : Key) (m : List (Key × V)) → before k m ++ from k m ≡ m
  unfolding before from
  before-from k [] = refl
  before-from k ((j, v) ∷ m) = ground (arith, before-from k m)

  -- No entry of a map that begins above a key has that key.
  pub find_above : (a : Key) (m : List (Key × V)) → All (λ e. a <ₖ e.0) m → find a m ≡ none
  unfolding find
  find_above a [] h = refl
  find_above a ((b, w) ∷ m) h = ground (arith, find_above a m h.1, eqb-lt a b h.0)

  pub find-insert :
      (k q : Key) (v : V) (m : List (Key × V))
      → find k m ≡ none
      → find q (insert k v m) ≡ (if key_eqb q k then some v else find q m)
  unfolding find insert
  find-insert k q v [] h = refl
  find-insert k q v ((j, w) ∷ m) h =
      ground
        (arith, find-insert k q v m, (eqb_iff q k).0, (eqb_iff q j).0, (eqb_iff k j).1, eqb_refl k)

  pub find-erase :
      (k q : Key) (m : List (Key × V))
      → IsSorted m
      → find q (erase k m) ≡ (if key_eqb q k then none else find q m)
  unfolding find erase
  find-erase k q [] s = ground arith
  find-erase k q ((j, w) ∷ m) s = ground (
    arith,
    find-erase k q m s.1,
    (eqb_iff q k).0,
    (eqb_iff q j).0,
    (eqb_iff k j).0,
    (eqb_iff k j).1,
    find_above j m s.0,
  )

  pub All-erase {κ} :
      (P : Key × V → Type κ) (k : Key) (m : List (Key × V)) → All P m → All P (erase k m)
  unfolding erase
  All-erase P k [] h = tt
  All-erase P k ((j, w) ∷ m) h = elim (Bool-cases (key_eqb k j)) [
    | inl e ↦ rw (e, erase) h.1
    | inr n ↦ rw (n, erase) (h.0, All-erase P k m h.1)
  ]

  pub erase-IsSorted : (k : Key) (m : List (Key × V)) → IsSorted m → IsSorted (erase k m)
  unfolding erase
  erase-IsSorted k [] s = tt
  erase-IsSorted k ((j, w) ∷ m) s = elim (Bool-cases (key_eqb k j)) [
    | inl e ↦ rw (e, erase) s.1
    | inr n ↦ rw (n, erase) (All-erase _ k m s.0, erase-IsSorted k m s.1)
  ]

  pub All-insert {κ} :
      (P : Key × V → Type κ) (k : Key) (v : V) (m : List (Key × V))
      → P (k, v)
      → All P m
      → All P (insert k v m)
  unfolding insert
  All-insert P k v [] p h = (p, tt)
  All-insert P k v ((j, w) ∷ m) p h = elim (Bool-cases (key_ltb k j)) [
    | inl e ↦ rw (e, insert) (p, h)
    | inr n ↦ rw (n, insert) (h.0, All-insert P k v m p h.1)
  ]

  pub insert-IsSorted :
      (k : Key) (v : V) (m : List (Key × V))
      → find k m ≡ none
      → IsSorted m
      → IsSorted (insert k v m)
  unfolding insert find
  insert-IsSorted k v [] f s = (tt, tt)
  insert-IsSorted k v ((j, w) ∷ m) f s = elim (Bool-cases (key_ltb k j)) [
    | inl e ↦ rw (e, insert) ((e, All-map (λ a h. lt_trans k j a.0 e h) m s.0), s)
    | inr n ↦
        rw (n, insert)
          (All-insert _ k v m (above n) s.0, insert-IsSorted k v m (ground (arith, f)) s.1)
  ]
    where
      above : j ≤ₖ k → j <ₖ k
      above n = lt_of_le_of_ne j k n (ground (arith, f))

  -- What holds of each entry holds of one that is found.
  pub All-find {κ} :
      (P : Key × V → Type κ) (k : Key) (v : V) (m : List (Key × V))
      → All P m
      → find k m ≡ some v
      → P (k, v)
  unfolding find
  All-find P k v [] h e = absurd (none≢some e)
    where
      none≢some : none ≡ some v → ⊥
      none≢some e = cc
  All-find P k v ((j, w) ∷ m) h e = elim (Bool-cases (key_eqb k j)) [
    | inl same ↦
        let p : k ≡ j = (eqb_iff k j).0 same in
        let q : w ≡ v = ground (arith, e) in
        subst (λ x. P (x, v)) (sym p) (subst (λ x. P (j, x)) q h.0)
    | inr other ↦ All-find P k v m h.1 (ground (arith, e))
  ]

  -- The keys that are left by `erase` are others.
  pub erase-All-ne :
      (k : Key) (m : List (Key × V)) → IsSorted m → All (λ e. key_eqb k e.0 ≡ false) (erase k m)
  unfolding erase
  erase-All-ne k [] s = tt
  erase-All-ne k ((j, w) ∷ m) s = elim (Bool-cases (key_eqb k j)) [
    | inl same ↦
        rw (same, erase) (All-map (λ e h. rw ((eqb_iff k j).0 same) (eqb-lt j e.0 h)) m s.0)
    | inr other ↦ rw (other, erase) (other, erase-All-ne k m s.1)
  ]

  pub All-of_insert {κ} :
      (P : Key × V → Type κ) (k : Key) (v : V) (m : List (Key × V))
      → All P (insert k v m)
      → P (k, v) × All P m
  unfolding insert
  All-of_insert P k v [] h = h
  All-of_insert P k v ((j, w) ∷ m) h = elim (Bool-cases (key_ltb k j)) [
    | inl e ↦ rw (e, insert) at h
    | inr n ↦
        let g : P (j, w) × All P (insert k v m) = rw (n, insert) at h in
        let (a, b) = All-of_insert P k v m g.1 in (a, (g.0, b))
  ]
