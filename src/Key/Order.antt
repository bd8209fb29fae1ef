-- ===== src/Key/Order.antt =====
-- The order on keys is a strict total order.
use dingo_sdk.Base.{◌≡◌, refl, true, false, [], ◌∷◌, inl, inr, arith, ◌↔◌, Bool-cases}
use dingo_sdk.Key.{Key, key_ltb, key_eqb}

infix 50 ◌<ₖ◌ ◌≤ₖ◌
abbrev pub ◌<ₖ◌ : Key → Key → Type 0
a <ₖ b = key_ltb a b ≡ true

abbrev pub ◌≤ₖ◌ : Key → Key → Type 0
a ≤ₖ b = key_ltb b a ≡ false

pub lt_irrefl : (a : Key) → key_ltb a a ≡ false
unfolding key_ltb
lt_irrefl [] = refl
lt_irrefl (x ∷ xs) = ground (arith, lt_irrefl xs)

pub lt_trans : (a b c : Key) → a <ₖ b → b <ₖ c → a <ₖ c
unfolding key_ltb
lt_trans a b [] p q = q
lt_trans a [] (z ∷ zs) p q = ground arith
lt_trans [] (y ∷ ys) (z ∷ zs) p q = refl
lt_trans (x ∷ xs) (y ∷ ys) (z ∷ zs) p q = ground (arith, lt_trans xs ys zs)

pub eq_of_not_lt : (a b : Key) → a ≤ₖ b → b ≤ₖ a → a ≡ b
unfolding key_ltb
eq_of_not_lt [] [] p q = refl
eq_of_not_lt [] (y ∷ ys) p q = cc
eq_of_not_lt (x ∷ xs) [] p q = cc
eq_of_not_lt (x ∷ xs) (y ∷ ys) p q = ground (arith, eq_of_not_lt xs ys)

pub eqb_iff : (a b : Key) → (key_eqb a b ≡ true) ↔ (a ≡ b)
unfolding key_eqb
eqb_iff [] [] = ((λ _. refl), λ _. refl)
eqb_iff [] (y ∷ ys) = ((λ h. cc), λ h. cc)
eqb_iff (x ∷ xs) [] = ((λ h. cc), λ h. cc)
eqb_iff (x ∷ xs) (y ∷ ys) = ground (arith, (eqb_iff xs ys).0, (eqb_iff xs ys).1)

pub eqb_refl : (a : Key) → key_eqb a a ≡ true
eqb_refl a = (eqb_iff a a).1 refl

pub le_of_lt : (a b : Key) → a <ₖ b → a ≤ₖ b
le_of_lt a b p = elim (Bool-cases (key_ltb b a)) [
  | inl q ↦ cc (lt_trans a b a p q, lt_irrefl a)
  | inr q ↦ q
]

pub lt_of_le_of_lt : (a b c : Key) → a ≤ₖ b → b <ₖ c → a <ₖ c
lt_of_le_of_lt a b c p q = elim (Bool-cases (key_ltb a b)) [
  | inl r ↦ lt_trans a b c r q
  | inr r ↦ subst_lt (eq_of_not_lt a b p r)
]
  where
    subst_lt : a ≡ b → a <ₖ c
    subst_lt e = cc

pub lt_of_lt_of_le : (a b c : Key) → a <ₖ b → b ≤ₖ c → a <ₖ c
lt_of_lt_of_le a b c p q = elim (Bool-cases (key_ltb b c)) [
  | inl r ↦ lt_trans a b c p r
  | inr r ↦ subst_lt (eq_of_not_lt b c q r)
]
  where
    subst_lt : b ≡ c → a <ₖ c
    subst_lt e = cc

pub le_trans : (a b c : Key) → a ≤ₖ b → b ≤ₖ c → a ≤ₖ c
le_trans a b c p q = elim (Bool-cases (key_ltb c a)) [
  | inl r ↦ cc (lt_of_lt_of_le c a b r p)
  | inr r ↦ r
]

-- A key below another differs from it.
pub eqb-lt : (a b : Key) → a <ₖ b → key_eqb a b ≡ false
eqb-lt a b p = elim (Bool-cases (key_eqb a b)) [ inl e ↦ absurd_eq ((eqb_iff a b).0 e) | inr n ↦ n ]
  where
    absurd_eq : a ≡ b → key_eqb a b ≡ false
    absurd_eq e = cc (lt_irrefl a)

-- Keys that differ are ordered one way.
pub lt_of_le_of_ne : (a b : Key) → a ≤ₖ b → key_eqb b a ≡ false → a <ₖ b
lt_of_le_of_ne a b p n = elim (Bool-cases (key_ltb a b)) [
  | inl q ↦ q
  | inr q ↦ cc (eqb_refl b, same (eq_of_not_lt a b p q))
]
  where
    same : a ≡ b → key_eqb b a ≡ key_eqb b b
    same e = cc
