-- ===== src/IndexCache/Calls.antt =====
-- Calls of the cache of indexes, one after another, when the coordinator gives each index one name.
use dingo_sdk.Base.{
  ℕ, true, false, List, [], ◌∷◌, Option, none, some, ltb, length, Bool-cases, inl, inr, ◌≡◌, refl,
  subst, All, arith,
}
use dingo_sdk.Key.{Key, is_empty}
use dingo_sdk.OrdMap
use dingo_sdk.Outcome.{Outcome, done, aborted, ◌>>=◌, Returns, Returns->>=, for_each}
use dingo_sdk.Status.{Result, success, failure}
use dingo_sdk.MetaCache.Ids.{find_id, find_id-erase_id}
use dingo_sdk.IndexCache.{
  Index, IndexDefinition, well_made, Cache, Reply, remove_index_by_id, remove_index_by_key,
  add_index, process_index_definition_with_id, check_index_definition_with_id, take_response,
  slow_get_index_by_id, get_index_by_key, get_index_id_by_key, get_index_by_id,
}
use dingo_sdk.IndexCache.Invariant.{
  IsValid, without, without-IsValid, remove_index_by_id-without, remove_index_by_key-without,
}
use dingo_sdk.IndexCache.Directory.{
  Directory, Truthful, Proper, Agrees, Gives, get_index_by_id-Gives, get_index_by_key-Gives,
  get_index_id_by_key-Agrees,
}

pub data Call : Type 0 where
  gets : ℕ → Reply → Call
  gets_by_key gets_id_by_key : Key → Reply → Call
  removes : ℕ → Call
  removes_by_key : Key → Call

abbrev pub after : {A : Type 0} → Outcome (Result A × Cache) → Outcome Cache
after o = o >>= λ r. done r.1

unfoldable pub call : Call → Cache → Outcome Cache
call (gets id reply) c = after (get_index_by_id id reply c)
call (gets_by_key key reply) c = after (get_index_by_key key reply c)
call (gets_id_by_key key reply) c = after (get_index_id_by_key key reply c)
call (removes id) c = remove_index_by_id id c
call (removes_by_key key) c = remove_index_by_key key c

abbrev pub empty_cache : Cache
empty_cache = record { index_key_to_id = []; id_to_index = []; stale = λ _. false; next_addr = 0 }

module _ (dir : Directory) where
  abbrev pub Allowed : Call → Type 0
  Allowed (gets id reply) = Truthful dir reply
  Allowed (gets_by_key key reply) = Proper dir key × Truthful dir reply
  Allowed (gets_id_by_key key reply) = Proper dir key × Truthful dir reply
  Allowed (removes id) = Unit
  Allowed (removes_by_key key) = Unit

  without-Agrees :
      (c : Cache) (id : ℕ) (x : Index)
      → Agrees dir c
      → find_id id c.id_to_index ≡ some x
      → Agrees dir (without id x c)
  without-Agrees c id x a h = record {
    valid = without-IsValid c a.valid id x h;
    named = λ i y f. a.named i y (ground (arith, f, find_id-erase_id i id c.id_to_index));
  }

  remove_index_by_id-Agrees :
      (id : ℕ) (c : Cache) → Agrees dir c → Returns (remove_index_by_id id c) (Agrees dir)
  unfolding remove_index_by_id
  remove_index_by_id-Agrees id c a = go (find_id id c.id_to_index) refl
    where
      go :
          (o : Option Index)
          → find_id id c.id_to_index ≡ o
          → Returns (remove_index_by_id id c) (Agrees dir)
      go none h = rw (remove_index_by_id, h) a
      go (some x) h = rw (remove_index_by_id-without c a.valid id x h) (without-Agrees c id x a h)

  remove_index_by_key-Agrees :
      (key : Key) (c : Cache) → Agrees dir c → Returns (remove_index_by_key key c) (Agrees dir)
  unfolding remove_index_by_key
  remove_index_by_key-Agrees key c a = go (OrdMap.find key c.index_key_to_id) refl
    where
      go :
          (o : Option ℕ)
          → OrdMap.find key c.index_key_to_id ≡ o
          → Returns (remove_index_by_key key c) (Agrees dir)
      go none h = rw (remove_index_by_key, h) a
      go (some id) h =
          let (x, f, q) = a.valid.linked key id h in
          subst (λ k. Returns (remove_index_by_key k c) (Agrees dir)) q
            (rw (remove_index_by_key-without c a.valid id x f) (without-Agrees c id x a f))

  given : (r : Result Index × Cache) → Gives dir r → Agrees dir r.1
  given (success x, c) g = g.0
  given (failure s, c) g = g

  call-Agrees : (k : Call) (c : Cache) → Allowed k → Agrees dir c → Returns (call k c) (Agrees dir)
  unfolding call
  call-Agrees (gets id r) c t a =
      Returns->>= (Gives dir) (Agrees dir) _ _ (get_index_by_id-Gives dir id r c t a) given
  call-Agrees (gets_by_key key r) c t a =
      Returns->>= (Gives dir) (Agrees dir) _ _ (get_index_by_key-Gives dir key r c t.0 t.1 a) given
  call-Agrees (gets_id_by_key key r) c t a =
      Returns->>= (λ x. Agrees dir x.1) (Agrees dir) _ _
        (get_index_id_by_key-Agrees dir key r c t.0 t.1 a) λ x h. h
  call-Agrees (removes id) c t a = remove_index_by_id-Agrees id c a
  call-Agrees (removes_by_key key) c t a = remove_index_by_key-Agrees key c a

  -- Calls of the cache of indexes, with keys that are of a schema and a name, on a cache that agrees with
  -- a directory in which no two ids have the same schema and name: while the coordinator names each index
  -- as the directory does, and defines it with partitions that begin at different ids, none negative,
  -- with different ids of their own, and with scalar fields that have different keys and known types, no
  -- CHECK fails, and the two maps hold the same indexes and agree with the directory afterwards.
  pub calls-Agrees :
      (ks : List Call) (c : Cache)
      → All Allowed ks
      → Agrees dir c
      → Returns (for_each call ks c) (Agrees dir)
  unfolding for_each
  calls-Agrees [] c h a = a
  calls-Agrees (k ∷ ks) c h a =
      Returns->>= (Agrees dir) (Agrees dir) (call k c) (for_each call ks) (call-Agrees k c h.0 a)
        λ d b. calls-Agrees ks d h.1 b

-- When the cache holds an index, and the coordinator gives another id with its schema and its name, as
-- after it was dropped and made again elsewhere, GetVectorIndexById of that id ends the process.
pub get_index_by_id_aborts :
    (c : Cache) (x : Index) (id other : ℕ) (d : IndexDefinition)
    → IsValid c
    → find_id id c.id_to_index ≡ some x
    → find_id other c.id_to_index ≡ none
    → ltb 0 other ≡ true
    → ltb 0 x.schema_id ≡ true
    → is_empty x.name ≡ false
    → d.name ≡ x.name
    → ltb 0 (length d.partitions) ≡ true
    → get_index_by_id other
        (success (
          some (record {
            index_id = some (record { entity_id = other; parent_entity_id = x.schema_id });
            index_definition = some d;
          })))
        c
      ≡ aborted
unfolding get_index_by_id slow_get_index_by_id take_response process_index_definition_with_id
    add_index
get_index_by_id_aborts c x id other d v f n a b e q p = elim (Bool-cases (well_made d)) [
  | inl y ↦
      rw
        (
          get_index_by_id,
          n,
          checked,
          process_index_definition_with_id,
          n,
          y,
          q,
          (v.listed id x f).1,
        )
        refl
  | inr z ↦ rw (get_index_by_id, n, checked, process_index_definition_with_id, n, z) refl
]
  where
    checked :
        check_index_definition_with_id
          (record { entity_id = other; parent_entity_id = x.schema_id })
          d
        ≡ true
    checked = unfold check_index_definition_with_id in ground (arith, a, b, e, p, q)
