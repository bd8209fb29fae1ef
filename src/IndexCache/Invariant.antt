-- ===== src/IndexCache/Invariant.antt =====
-- The two maps of the cache of indexes hold the same indexes, and each operation keeps it so.
use dingo_sdk.Base.{
  ℕ, suc, true, false, ◌∷◌, none, some, ◌==◌, ◌≡◌, refl, sym, ap, ◌∙◌, subst, Bool-cases, inl, inr,
  arith,
}
use dingo_sdk.Key.{Key, key_eqb}
use dingo_sdk.Key.Order.{eqb_iff, eqb_refl}
use dingo_sdk.OrdMap
use dingo_sdk.OrdMap.{IsSorted}
use dingo_sdk.OrdMap.Laws.{find-insert, find-erase, erase-IsSorted, insert-IsSorted}
use dingo_sdk.Outcome.{done}
use dingo_sdk.MetaCache.Ids.{erase_id, find_id, find_id-cons, find_id-erase_id}
use dingo_sdk.Region.{update}
use dingo_sdk.IndexCache.{
  Index, Cache, key_of, encode_key, remove_index_by_id, remove_index_by_key, add_index,
}

-- Each id leads to an index of that id, whose key leads back to the id; and each key to the id of an
-- index that has the key.
pub record IsValid (c : Cache) : Type 0 where
  pub sorted : IsSorted c.index_key_to_id
  pub listed :
      (id : ℕ) (x : Index)
      → find_id id c.id_to_index ≡ some x
      → (x.id ≡ id) × (OrdMap.find (key_of x) c.index_key_to_id ≡ some id)
  pub linked :
      (key : Key) (id : ℕ)
      → OrdMap.find key c.index_key_to_id ≡ some id
      → (x : Index) × (find_id id c.id_to_index ≡ some x) × (key_of x ≡ key)

-- The cache without the index `x`.
abbrev pub without : ℕ → Index → Cache → Cache
without id x c = record c {
  stale = update c.stale x.addr true;
  id_to_index = erase_id id c.id_to_index;
  index_key_to_id = OrdMap.erase (key_of x) c.index_key_to_id;
}

module _ (c : Cache) (v : IsValid c) (id : ℕ) (x : Index)
    (h : find_id id c.id_to_index ≡ some x) where
  -- Another id that is found leads to another key.
  other_key :
      (i : ℕ) (y : Index)
      → find_id i c.id_to_index ≡ some y
      → (i == id) ≡ false
      → key_eqb (key_of y) (key_of x) ≡ false
  other_key i y f n = elim (Bool-cases (key_eqb (key_of y) (key_of x))) [
    | inl e ↦
        let p : OrdMap.find (key_of y) c.index_key_to_id ≡ some id =
          subst (λ k. OrdMap.find k c.index_key_to_id ≡ some id)
            (sym ((eqb_iff (key_of y) (key_of x)).0 e)) (v.listed id x h).1 in
        absurd (ground (arith, n, p, (v.listed i y f).1))
    | inr d ↦ d
  ]

  found_other :
      (i : ℕ) (y : Index)
      → find_id i (erase_id id c.id_to_index) ≡ some y
      → (find_id i c.id_to_index ≡ some y) × ((i == id) ≡ false)
  found_other i y e = elim (Bool-cases (i == id)) [
    | inl hit ↦ absurd (ground (arith, e, hit, find_id-erase_id i id c.id_to_index))
    | inr n ↦ (ground (arith, e, n, find_id-erase_id i id c.id_to_index), n)
  ]

  found_other_key :
      (k : Key) (i : ℕ)
      → OrdMap.find k (OrdMap.erase (key_of x) c.index_key_to_id) ≡ some i
      → (OrdMap.find k c.index_key_to_id ≡ some i) × (key_eqb k (key_of x) ≡ false)
  found_other_key k i e = elim (Bool-cases (key_eqb k (key_of x))) [
    | inl hit ↦ absurd (ground (arith, e, hit, find-erase (key_of x) k c.index_key_to_id v.sorted))
    | inr n ↦ (ground (arith, e, n, find-erase (key_of x) k c.index_key_to_id v.sorted), n)
  ]

  other_id :
      (k : Key) (i : ℕ) (y : Index)
      → find_id i c.id_to_index ≡ some y
      → key_of y ≡ k
      → key_eqb k (key_of x) ≡ false
      → (i == id) ≡ false
  other_id k i y g q n = elim (Bool-cases (i == id)) [
    | inl hit ↦
        let p : y ≡ x = ground (arith, g, h, hit) in
        let e : key_eqb k (key_of x) ≡ true =
          (eqb_iff k (key_of x)).1 (sym q ∙ ap (λ (z : Index). key_of z) p) in
        absurd (ground (arith, n, e))
    | inr m ↦ m
  ]

  pub without-IsValid : IsValid (without id x c)
  without-IsValid = record {
    sorted = erase-IsSorted (key_of x) c.index_key_to_id v.sorted;
    listed = λ i y e.
        let (f, n) = found_other i y e in
        (
          (v.listed i y f).0,
          find-erase (key_of x) (key_of y) c.index_key_to_id v.sorted
              ∙ ground (arith, other_key i y f n, (v.listed i y f).1),
        );
    linked = λ k i e.
        let (f, n) = found_other_key k i e in
        let (y, g, q) = v.linked k i f in
        (y, find_id-erase_id i id c.id_to_index ∙ ground (arith, g, other_id k i y g q n), q);
  }

  pub remove_index_by_id-without : remove_index_by_id id c ≡ done (without id x c)
  unfolding remove_index_by_id
  remove_index_by_id-without = rw (remove_index_by_id, h, (v.listed id x h).1) refl

  pub remove_index_by_key-without : remove_index_by_key (key_of x) c ≡ done (without id x c)
  unfolding remove_index_by_key
  remove_index_by_key-without = rw (remove_index_by_key, (v.listed id x h).1, h) refl

-- A new index, when neither its id nor its key is in the cache.
module _ (c : Cache) (v : IsValid c) (id schema_id : ℕ) (name : Key)
    (new_id : find_id id c.id_to_index ≡ none)
    (new_key : OrdMap.find (encode_key schema_id name) c.index_key_to_id ≡ none) where
  abbrev pub new_index : Index
  new_index = record { addr = c.next_addr; id = id; schema_id = schema_id; name = name }

  abbrev pub with_index : Cache
  with_index = record {
    index_key_to_id = OrdMap.insert (encode_key schema_id name) id c.index_key_to_id;
    id_to_index = (id, new_index) ∷ c.id_to_index;
    stale = update c.stale c.next_addr false;
    next_addr = suc c.next_addr;
  }

  pub add_index-with_index : add_index id schema_id name c ≡ done (new_index, with_index)
  unfolding add_index
  add_index-with_index = rw (new_key, new_id) refl

  with_index-listed :
      (i : ℕ) (y : Index)
      → find_id i ((id, new_index) ∷ c.id_to_index) ≡ some y
      → (y.id ≡ i)
        × (OrdMap.find (key_of y) (OrdMap.insert (encode_key schema_id name) id c.index_key_to_id)
            ≡ some i)
  with_index-listed i y e = elim (Bool-cases (i == id)) [
    | inl hit ↦
        let p : new_index ≡ y = ground (arith, e, hit, find_id-cons i id new_index c.id_to_index) in
        (
          sym (ap (λ (z : Index). z.id) p) ∙ ground (arith, hit),
          ap
                (λ (z : Index).
                  OrdMap.find (key_of z)
                    (OrdMap.insert (encode_key schema_id name) id c.index_key_to_id))
                (sym p)
              ∙ find-insert (encode_key schema_id name) (encode_key schema_id name) id
                  c.index_key_to_id new_key
              ∙ ground (arith, hit, eqb_refl (encode_key schema_id name)),
        )
    | inr n ↦
        let f : find_id i c.id_to_index ≡ some y =
          ground (arith, e, n, find_id-cons i id new_index c.id_to_index) in
        let (p, q) = v.listed i y f in
        (
          p,
          find-insert (encode_key schema_id name) (key_of y) id c.index_key_to_id new_key
              ∙ ground (arith, q, differs y i q),
        )
  ]
    where
      differs :
          (y : Index) (i : ℕ)
          → OrdMap.find (key_of y) c.index_key_to_id ≡ some i
          → key_eqb (key_of y) (encode_key schema_id name) ≡ false
      differs y i q = elim (Bool-cases (key_eqb (key_of y) (encode_key schema_id name))) [
        | inl e ↦
            let p : OrdMap.find (encode_key schema_id name) c.index_key_to_id ≡ some i =
              subst (λ k. OrdMap.find k c.index_key_to_id ≡ some i)
                ((eqb_iff (key_of y) (encode_key schema_id name)).0 e) q in
            absurd (ground (arith, p, new_key))
        | inr d ↦ d
      ]

  with_index-linked :
      (k : Key) (i : ℕ)
      → OrdMap.find k (OrdMap.insert (encode_key schema_id name) id c.index_key_to_id) ≡ some i
      → (y : Index) × (find_id i ((id, new_index) ∷ c.id_to_index) ≡ some y) × (key_of y ≡ k)
  with_index-linked k i e =
      let law = find-insert (encode_key schema_id name) k id c.index_key_to_id new_key in
      elim (Bool-cases (key_eqb k (encode_key schema_id name))) [
        | inl hit ↦ (
          new_index,
          find_id-cons i id new_index c.id_to_index ∙ ground (arith, e, hit, law),
          sym ((eqb_iff k (encode_key schema_id name)).0 hit),
        )
        | inr n ↦
            let f : OrdMap.find k c.index_key_to_id ≡ some i = ground (arith, e, n, law) in
            let (y, g, q) = v.linked k i f in
            (y, find_id-cons i id new_index c.id_to_index ∙ ground (arith, g, new_id), q)
      ]

  pub with_index-IsValid : IsValid with_index
  with_index-IsValid = record {
    sorted = insert-IsSorted (encode_key schema_id name) id c.index_key_to_id new_key v.sorted;
    listed = with_index-listed;
    linked = with_index-linked;
  }
