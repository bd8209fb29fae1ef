-- ===== src/MetaCache/Ids.antt =====
-- The hash map from region ids: an association list in which no id comes twice.
use dingo_sdk.Base.{ℕ, List, [], ◌∷◌, Option, none, some, if◌then◌else◌, ◌==◌, ◌≡◌, refl, arith}

module _ {V : Type 0} where
  unfoldable pub find_id : ℕ → List (ℕ × V) → Option V
  find_id i [] = none
  find_id i ((j, v) ∷ m) = if i == j then some v else find_id i m

  unfoldable pub erase_id : ℕ → List (ℕ × V) → List (ℕ × V)
  erase_id i [] = []
  erase_id i ((j, v) ∷ m) = if i == j then erase_id i m else (j, v) ∷ erase_id i m

  pub find_id-cons :
      (i j : ℕ) (v : V) (m : List (ℕ × V))
      → find_id i ((j, v) ∷ m) ≡ (if i == j then some v else find_id i m)
  unfolding find_id
  find_id-cons i j v m = refl

  pub find_id-erase_id :
      (i j : ℕ) (m : List (ℕ × V))
      → find_id i (erase_id j m) ≡ (if i == j then none else find_id i m)
  unfolding find_id erase_id
  find_id-erase_id i j [] = ground arith
  find_id-erase_id i j ((k, v) ∷ m) = ground (arith, find_id-erase_id i j m)
