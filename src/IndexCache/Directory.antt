-- ===== src/IndexCache/Directory.antt =====
-- The lookups of the cache of indexes, when the coordinator gives each index one name.
use dingo_sdk.Base.{
  ℕ, ◌^◌, ◌<◌, true, false, Option, none, some, if◌then◌else◌, ◌==◌, ==_refl, ◌≡◌, refl, sym, ap,
  ◌∙◌, Bool-cases, Option-cases, inl, inr, arith,
}
use dingo_sdk.Key.{Key, key_eqb, is_empty}
use dingo_sdk.Key.Order.{eqb_iff}
use dingo_sdk.OrdMap
use dingo_sdk.Outcome.{Outcome, done, aborted, Returns}
use dingo_sdk.Status.{of_code, not_found, Result, success, failure, and_then}
use dingo_sdk.MetaCache.Ids.{find_id, find_id-cons}
use dingo_sdk.IndexCache.{
  Index, EntityId, IndexDefinition, IndexDefinitionWithId, Cache, Reply, encode_key, decode_key,
  well_made, process_index_definition_with_id, check_index_definition_with_id, take_response,
  slow_get_index_by_id, slow_get_index_by_key, get_index_by_key, get_index_id_by_key,
  get_index_by_id,
}
use dingo_sdk.IndexCache.Keys.{decode_key-encode_key}
use dingo_sdk.IndexCache.Invariant.{
  IsValid, new_index, with_index, add_index-with_index, with_index-IsValid,
}

-- The schema and the name that each id has, for ever; no two ids have the same.
pub record Directory : Type 0 where
  pub names : ℕ → ℕ × Key
  pub bounded : (id : ℕ) → (names id).0 < 2 ^ 64
  pub apart : (a b : ℕ) → names a ≡ names b → a ≡ b

module _ (dir : Directory) where
  abbrev pub Names : IndexDefinitionWithId → Type 0
  Names w =
      (e : EntityId) (d : IndexDefinition)
      → w.index_id ≡ some e
      → w.index_definition ≡ some d
      → (dir.names e.entity_id ≡ (e.parent_entity_id, d.name)) × (well_made d ≡ true)

  -- The reply names an index as the directory does, and defines it so that an index can be made of it.
  abbrev pub Truthful : Reply → Type 0
  Truthful (failure s) = Unit {0}
  Truthful (success none) = Unit {0}
  Truthful (success (some w)) = Names w

  -- A key of the cache is that of a schema and of a name.
  abbrev pub Proper : Key → Type 0
  Proper key = (is_empty (decode_key key).1 ≡ false) × (((decode_key key).0 == 0) ≡ false)

  -- The cache is valid and agrees with the directory.
  pub record Agrees (c : Cache) : Type 0 where
    pub valid : IsValid c
    pub named :
        (id : ℕ) (x : Index)
        → find_id id c.id_to_index ≡ some x
        → dir.names id ≡ (x.schema_id, x.name)

  -- An index that is given out is in the cache.
  abbrev pub Gives : Result Index × Cache → Type 0
  Gives (failure s, c) = Agrees c
  Gives (success x, c) = Agrees c × (find_id x.id c.id_to_index ≡ some x)

  -- Ids of the same key are the same.
  same_key :
      (a b : ℕ)
      → encode_key (dir.names a).0 (dir.names a).1 ≡ encode_key (dir.names b).0 (dir.names b).1
      → a ≡ b
  same_key a b e = dir.apart a b (
      sym (decode_key-encode_key (dir.names a).0 (dir.names a).1 (dir.bounded a))
      ∙ ap decode_key e
      ∙ decode_key-encode_key (dir.names b).0 (dir.names b).1 (dir.bounded b))

  -- A key of the cache belongs to the index that the directory gives it to.
  new_key :
      (id schema_id : ℕ) (name : Key) (c : Cache)
      → dir.names id ≡ (schema_id, name)
      → Agrees c
      → find_id id c.id_to_index ≡ none
      → OrdMap.find (encode_key schema_id name) c.index_key_to_id ≡ none
  new_key id schema_id name c n a h =
      elim (Option-cases (OrdMap.find (encode_key schema_id name) c.index_key_to_id)) [
        | inl m ↦ m
        | inr m ↦
            let (y, g, q) = a.valid.linked (encode_key schema_id name) m.0 m.1 in
            let e : m.0 ≡ id = same_key m.0 id (
              ap (λ p. encode_key p.0 p.1) (a.named m.0 y g)
              ∙ q
              ∙ sym (ap (λ p. encode_key p.0 p.1) n)) in
            absurd (none_some (sym h ∙ ap (λ i. find_id i c.id_to_index) (sym e) ∙ g))
      ]
    where
      none_some : {x : Index} → none ≡ some x → ⊥
      none_some e = cc

  added-Agrees :
      (e : EntityId) (d : IndexDefinition) (c : Cache)
      → dir.names e.entity_id ≡ (e.parent_entity_id, d.name)
      → (a : Agrees c) (h : find_id e.entity_id c.id_to_index ≡ none)
        (k : OrdMap.find (encode_key e.parent_entity_id d.name) c.index_key_to_id ≡ none)
      → Agrees (with_index c a.valid e.entity_id e.parent_entity_id d.name h k)
  added-Agrees e d c n a h k = record {
    valid = with_index-IsValid c a.valid e.entity_id e.parent_entity_id d.name h k;
    named = λ i y f. elim (Bool-cases (i == e.entity_id)) [
      | inl hit ↦
          let x : Index = new_index c a.valid e.entity_id e.parent_entity_id d.name h k in
          let p : x ≡ y = ground (arith, f, hit, find_id-cons i e.entity_id x c.id_to_index) in
          let q : i ≡ e.entity_id = ground (arith, hit) in
          ap dir.names q ∙ n ∙ ap (λ (z : Index). (z.schema_id, z.name)) p
      | inr miss ↦ a.named i y (
          ground (
            arith,
            f,
            miss,
            find_id-cons i e.entity_id
                (new_index c a.valid e.entity_id e.parent_entity_id d.name h k) c.id_to_index,
          ))
    ];
  }

  process-Gives :
      (e : EntityId) (d : IndexDefinition) (c : Cache)
      → (dir.names e.entity_id ≡ (e.parent_entity_id, d.name)) × (well_made d ≡ true)
      → Agrees c
      → Returns (process_index_definition_with_id e d c) Gives
  unfolding process_index_definition_with_id
  process-Gives e d c (n, made) a = go (find_id e.entity_id c.id_to_index) refl
    where
      go :
          (o : Option Index)
          → find_id e.entity_id c.id_to_index ≡ o
          → Returns (process_index_definition_with_id e d c) Gives
      go none h =
          let k = new_key e.entity_id e.parent_entity_id d.name c n a h in
          rw
            (
              process_index_definition_with_id,
              h,
              made,
              add_index-with_index c a.valid e.entity_id e.parent_entity_id d.name h k,
            )
            (
              added-Agrees e d c n a h k,
              find_id-cons e.entity_id e.entity_id _ c.id_to_index
                  ∙ ground (arith, ==_refl e.entity_id),
            )
      go (some x) h =
          let same : x.name ≡ d.name = ap (λ p. p.1) (sym (a.named e.entity_id x h) ∙ n) in
          let eq : key_eqb x.name d.name ≡ true = (eqb_iff x.name d.name).1 same in
          rw (process_index_definition_with_id, h, eq)
            (a, ap (λ i. find_id i c.id_to_index) (a.valid.listed e.entity_id x h).0 ∙ h)

  slow_get_index_by_id-Gives :
      (r : Reply) (c : Cache) → Truthful r → Agrees c → Returns (slow_get_index_by_id r c) Gives
  unfolding slow_get_index_by_id take_response
  slow_get_index_by_id-Gives (failure s) c t a = a
  slow_get_index_by_id-Gives (success none) c t a = a
  slow_get_index_by_id-Gives (success (some w)) c t a = go w.index_id refl w.index_definition refl
    where
      go :
          (o : Option EntityId)
          → w.index_id ≡ o
          → (p : Option IndexDefinition) → w.index_definition ≡ p
          → Returns
              (elim o [
                | none ↦ done (failure (of_code not_found), c)
                | some e ↦ elim p [
                  | none ↦ done (failure (of_code not_found), c)
                  | some d ↦
                      if check_index_definition_with_id e d
                      then process_index_definition_with_id e d c
                      else done (failure (of_code not_found), c)
                ]
              ])
              Gives
      go none h p k = a
      go (some e) h none k = a
      go (some e) h (some d) k = elim (Bool-cases (check_index_definition_with_id e d)) [
        | inl y ↦ rw (y) (process-Gives e d c (t e d h k) a)
        | inr n ↦ rw (n) a
      ]

  slow_get_index_by_key-Gives :
      (key : Key) (r : Reply) (c : Cache)
      → Proper key
      → Truthful r
      → Agrees c
      → Returns (slow_get_index_by_key key r c) Gives
  unfolding slow_get_index_by_key
  slow_get_index_by_key-Gives key r c p t a = rw (p.0, p.1) (slow_get_index_by_id-Gives r c t a)

  pub get_index_by_id-Gives :
      (id : ℕ) (r : Reply) (c : Cache)
      → Truthful r
      → Agrees c
      → Returns (get_index_by_id id r c) Gives
  unfolding get_index_by_id
  get_index_by_id-Gives id r c t a = go (find_id id c.id_to_index) refl
    where
      go :
          (o : Option Index) → find_id id c.id_to_index ≡ o → Returns (get_index_by_id id r c) Gives
      go none h = rw (get_index_by_id, h) (slow_get_index_by_id-Gives r c t a)
      go (some x) h =
          rw (get_index_by_id, h)
            (a, ap (λ i. find_id i c.id_to_index) (a.valid.listed id x h).0 ∙ h)

  pub get_index_by_key-Gives :
      (key : Key) (r : Reply) (c : Cache)
      → Proper key
      → Truthful r
      → Agrees c
      → Returns (get_index_by_key key r c) Gives
  unfolding get_index_by_key
  get_index_by_key-Gives key r c p t a = go (OrdMap.find key c.index_key_to_id) refl
    where
      go :
          (o : Option ℕ)
          → OrdMap.find key c.index_key_to_id ≡ o
          → Returns (get_index_by_key key r c) Gives
      go none h = rw (get_index_by_key, h) (slow_get_index_by_key-Gives key r c p t a)
      go (some id) h =
          let (x, f, q) = a.valid.linked key id h in
          rw (get_index_by_key, h, f)
            (a, ap (λ i. find_id i c.id_to_index) (a.valid.listed id x f).0 ∙ f)

  pub get_index_id_by_key-Agrees :
      (key : Key) (r : Reply) (c : Cache)
      → Proper key
      → Truthful r
      → Agrees c
      → Returns (get_index_id_by_key key r c) (λ x. Agrees x.1)
  unfolding get_index_id_by_key
  get_index_id_by_key-Agrees key r c p t a = go (OrdMap.find key c.index_key_to_id) refl
    where
      go :
          (o : Option ℕ)
          → OrdMap.find key c.index_key_to_id ≡ o
          → Returns (get_index_id_by_key key r c) (λ x. Agrees x.1)
      go none h =
          rw (get_index_id_by_key, h)
            (weaker (slow_get_index_by_key key r c) (slow_get_index_by_key-Gives key r c p t a))
        where
          weaker :
              (o : Outcome (Result Index × Cache))
              → Returns o Gives
              → Returns (and_then o (λ x d. done (success x.id, d))) (λ x. Agrees x.1)
          weaker (done (success x, d)) g = g.0
          weaker (done (failure s, d)) g = g
          weaker aborted g = g
      go (some id) h = rw (get_index_id_by_key, h) a
