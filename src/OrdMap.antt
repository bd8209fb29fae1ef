-- ===== src/OrdMap.antt =====
-- std::map from keys: the entries in the order of their keys, as the source iterates over them.
-- An iterator into the map is a position, given by the entries before it and those from it on.
use dingo_sdk.Base.{
  ℕ, Bool, true, false, List, [], ◌∷◌, Option, none, some, if◌then◌else◌, ◌≡◌, ◌≢◌, All, refl,
}
use dingo_sdk.Key.{Key, key_ltb, key_eqb}
use dingo_sdk.Key.Order.{◌<ₖ◌}
pub mod Laws

module _ {ℓ} {V : Type ℓ} where
  -- `m.find(k)`, and the value that it points to.
  unfoldable pub find : Key → List (Key × V) → Option V
  find k [] = none
  find k ((j, v) ∷ m) = if key_eqb k j then some v else find k m

  -- `m.erase(k)`.
  unfoldable pub erase : Key → List (Key × V) → List (Key × V)
  erase k [] = []
  erase k ((j, v) ∷ m) = if key_eqb k j then m else (j, v) ∷ erase k m

  -- `m.insert({k, v})` at a key that is not there: the entry goes to its place in the order.
  unfoldable pub insert : Key → V → List (Key × V) → List (Key × V)
  insert k v [] = (k, v) ∷ []
  insert k v ((j, w) ∷ m) = if key_ltb k j then (k, v) ∷ (j, w) ∷ m else (j, w) ∷ insert k v m

  -- The entries before `m.lower_bound(k)`, and those from it on.
  unfoldable pub before : Key → List (Key × V) → List (Key × V)
  before k [] = []
  before k ((j, v) ∷ m) = elim (key_ltb j k) [ true ↦ (j, v) ∷ before k m | false ↦ [] ]

  unfoldable pub from : Key → List (Key × V) → List (Key × V)
  from k [] = []
  from k ((j, v) ∷ m) = elim (key_ltb j k) [ true ↦ from k m | false ↦ (j, v) ∷ m ]

  -- The entries before `m.upper_bound(k)`.
  unfoldable pub up_to : Key → List (Key × V) → List (Key × V)
  up_to k [] = []
  up_to k ((j, v) ∷ m) = elim (key_ltb k j) [ true ↦ [] | false ↦ (j, v) ∷ up_to k m ]

  -- Keys ascend.
  abbrev pub IsSorted : List (Key × V) → Type 0
  IsSorted [] = Unit
  IsSorted ((j, v) ∷ m) = All (λ e. j <ₖ e.0) m × IsSorted m
