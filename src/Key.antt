-- ===== src/Key.antt =====
-- Keys as std::string: sequences of bytes, compared from the left as unsigned bytes.
use dingo_sdk.Base.{ℕ, Bool, true, false, not, List, [], ◌∷◌, ltb, ◌==◌, if◌then◌else◌, ◌&&◌}
pub mod Order

abbrev pub Key : Type 0
Key = List ℕ

-- `a < b`.
unfoldable pub key_ltb : Key → Key → Bool
key_ltb a [] = false
key_ltb [] (y ∷ ys) = true
key_ltb (x ∷ xs) (y ∷ ys) = if ltb x y then true else (if x == y then key_ltb xs ys else false)

-- `a == b`.
unfoldable pub key_eqb : Key → Key → Bool
key_eqb [] [] = true
key_eqb [] (y ∷ ys) = false
key_eqb (x ∷ xs) [] = false
key_eqb (x ∷ xs) (y ∷ ys) = x == y && key_eqb xs ys

-- `a <= b`.
abbrev pub key_leb : Key → Key → Bool
key_leb a b = not (key_ltb b a)

-- `key.empty()`.
abbrev pub is_empty : Key → Bool
is_empty [] = true
is_empty (x ∷ xs) = false
