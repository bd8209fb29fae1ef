-- ===== src/AutoIncrement/Manager.antt =====
-- src/sdk/auto_increment_manager.cc: `AutoIncrementerManager`, the incrementers by the id of their
-- index. The map holds pointers, so it is enough to model which object an index has.
use dingo_sdk.Base.{
  ℕ, ◌+◌, ◌<◌, List, ◌∷◌, Option, none, some, ◌≡◌, ◌≢◌, refl, sym, ap, ◌∙◌, arith, ==_refl, ◌⊎◌,
  inl, inr,
}
use dingo_sdk.MetaCache.Ids.{find_id, erase_id}

pub data Kind : Type 0 where
  vector_index document_index : Kind

-- A pointer to an incrementer of one of the two classes.
pub record IncrementerPtr : Type 0 where
  pub addr : ℕ
  pub kind : Kind

pub record Manager : Type 0 where
  pub auto_incrementer_map : List (ℕ × IncrementerPtr)
  pub next_addr : ℕ

-- `GetOrCreateVectorIndexIncrementer` and `GetOrCreateDocumentIndexIncrementer`. The CHECK of the
-- insertion is that of a key which was just not found.
unfoldable pub get_or_create : Kind → ℕ → Manager → IncrementerPtr × Manager
get_or_create kind index_id m = elim (find_id index_id m.auto_incrementer_map) [
  | some p ↦ (p, m)
  | none ↦
      let p : IncrementerPtr = record { addr = m.next_addr; kind = kind } in
      (
        p,
        record {
          auto_incrementer_map = (index_id, p) ∷ m.auto_incrementer_map;
          next_addr = m.next_addr + 1;
        },
      )
]

unfoldable pub remove_by_id : ℕ → Manager → Manager
remove_by_id index_id m = elim (find_id index_id m.auto_incrementer_map) [
  | some p ↦ record m { auto_incrementer_map = erase_id index_id m.auto_incrementer_map }
  | none ↦ m
]

-- No two indexes have the same object, and the next one is new.
pub record IsValid (m : Manager) : Type 0 where
  pub older :
      (index_id : ℕ) (p : IncrementerPtr)
      → find_id index_id m.auto_incrementer_map ≡ some p
      → p.addr < m.next_addr
  pub apart :
      (a b : ℕ) (p q : IncrementerPtr)
      → find_id a m.auto_incrementer_map ≡ some p
      → find_id b m.auto_incrementer_map ≡ some q
      → p.addr ≡ q.addr
      → a ≡ b

-- What a call for an index leaves.
pub record Shared (index_id : ℕ) (m : Manager) (r : IncrementerPtr × Manager) : Type 0 where
  pub again : (kind : Kind) → get_or_create kind index_id r.1 ≡ r
  pub others :
      (other : ℕ)
      → other ≢ index_id
      → find_id other r.1.auto_incrementer_map ≡ find_id other m.auto_incrementer_map
  pub valid : IsValid r.1

Entry : ℕ → ℕ → IncrementerPtr → IncrementerPtr → Manager → Type 0
Entry a index_id p q m = ((a ≡ index_id) × (p ≡ q)) ⊎ (find_id a m.auto_incrementer_map ≡ some q)

entry_of :
    (a index_id : ℕ) (p q : IncrementerPtr) (m : Manager)
    → find_id a ((index_id, p) ∷ m.auto_incrementer_map) ≡ some q
    → Entry a index_id p q m
unfolding Entry find_id
entry_of a index_id p q m h = ground (arith)

added-IsValid :
    (m : Manager) (index_id : ℕ) (p : IncrementerPtr)
    → IsValid m
    → p.addr ≡ m.next_addr
    → IsValid (record {
      auto_incrementer_map = (index_id, p) ∷ m.auto_incrementer_map;
      next_addr = m.next_addr + 1;
    })
unfolding Entry
added-IsValid m index_id p v e = record {
  older = λ a q h. elim (entry_of a index_id p q m h) [
    | inl x ↦ ground (arith, ap (λ y. y.addr) x.1)
    | inr x ↦ ground (arith, v.older a q x)
  ];
  apart = λ a b q r h k g. elim (entry_of a index_id p q m h) [
    | inl x ↦ elim (entry_of b index_id p r m k) [
      | inl y ↦ x.0 ∙ sym y.0
      | inr y ↦ ground (arith, ap (λ z. z.addr) x.1, v.older b r y)
    ]
    | inr x ↦ elim (entry_of b index_id p r m k) [
      | inl y ↦ ground (arith, ap (λ z. z.addr) y.1, v.older a q x)
      | inr y ↦ v.apart a b q r x y g
    ]
  ];
}

-- On a valid manager, after a call for an index, each call for it gives the same object and changes
-- nothing, other indexes keep theirs, and no two indexes share an object.
pub get_or_create-Shared :
    (kind : Kind) (index_id : ℕ) (m : Manager)
    → IsValid m
    → Shared index_id m (get_or_create kind index_id m)
unfolding get_or_create find_id
get_or_create-Shared kind index_id m v = go (find_id index_id m.auto_incrementer_map) refl
  where
    go :
        (o : Option IncrementerPtr)
        → find_id index_id m.auto_incrementer_map ≡ o
        → Shared index_id m (get_or_create kind index_id m)
    go (some p) e =
        rw (e, get_or_create)
          (record { again = λ k. rw (e, get_or_create) refl; others = λ o n. refl; valid = v })
    go none e =
        rw (e, get_or_create)
          (record {
            again = λ k. rw (==_refl index_id, get_or_create) refl;
            others = λ o n. ground arith;
            valid = added-IsValid m index_id _ v refl;
          })
