-- ===== src/Outcome.antt =====
-- What a call may do: return, or end the process at a failed CHECK (src/common/logging.h, glog).
use dingo_sdk.Base.{
  ℕ, zero, suc, ◌<◌, Bool, true, false, Option, none, some, List, [], ◌∷◌, All, get_elem?, length,
  arith,
}

pub data Outcome {ℓ} (A : Type ℓ) : Type ℓ where
  done : A → Outcome A
  aborted : Outcome A

infixl 5 ◌>>=◌ ◌>>◌
abbrev pub ◌>>=◌ {ℓ κ} : {A : Type ℓ} {B : Type κ} → Outcome A → (A → Outcome B) → Outcome B
done a >>= f = f a
aborted >>= f = aborted

abbrev pub ◌>>◌ {ℓ} : {B : Type ℓ} → Outcome (Unit {0}) → Outcome B → Outcome B
m >> k = m >>= λ _. k

-- `CHECK(b)`.
abbrev pub check : Bool → Outcome (Unit {0})
check true = done tt
check false = aborted

-- A read through an iterator or pointer that must be there.
abbrev pub check_some {ℓ} : {A : Type ℓ} → Option A → Outcome A
check_some none = aborted
check_some (some a) = done a

-- The call returns, with a value that satisfies `P`.
abbrev pub Returns {ℓ} : {A : Type ℓ} → Outcome A → (A → Type 0) → Type 0
Returns (done a) P = P a
Returns aborted P = ⊥

-- A loop whose body may abort, over the elements of a collection.
unfoldable pub for_each {ℓ κ} :
    {A : Type ℓ} {S : Type κ} → (A → S → Outcome S) → List A → S → Outcome S
for_each body [] s = done s
for_each body (x ∷ xs) s = body x s >>= for_each body xs

-- A weaker postcondition.
pub Returns-map {ℓ} :
    {A : Type ℓ} (P Q : A → Type 0) (o : Outcome A)
    → ((a : A) → P a → Q a)
    → Returns o P
    → Returns o Q
Returns-map P Q (done a) f h = f a h
Returns-map P Q aborted f h = h

-- The rule for a sequence of calls.
pub Returns->>= {ℓ κ} :
    {A : Type ℓ} {B : Type κ} (P : A → Type 0) (Q : B → Type 0) (o : Outcome A) (f : A → Outcome B)
    → Returns o P
    → ((a : A) → P a → Returns (f a) Q)
    → Returns (o >>= f) Q
Returns->>= P Q (done a) f h k = k a h
Returns->>= P Q aborted f h k = h

pub Returns-both {ℓ} :
    {A : Type ℓ} (P Q : A → Type 0) (o : Outcome A)
    → Returns o P
    → Returns o Q
    → Returns o (λ a. P a × Q a)
Returns-both P Q (done a) h k = (h, k)
Returns-both P Q aborted h k = h

-- An element that is read at an index of the list has what each has.
pub get_elem?-Returns {ℓ} :
    {A : Type ℓ} (P : A → Type 0) (xs : List A) (n : ℕ)
    → n < length xs
    → All P xs
    → Returns (check_some (get_elem? xs n)) P
get_elem?-Returns P [] n h a = absurd (ground (arith, h))
get_elem?-Returns P (x ∷ xs) zero h a = a.0
get_elem?-Returns P (x ∷ xs) (suc n) h a = get_elem?-Returns P xs n (omega (arith, h)) a.1
