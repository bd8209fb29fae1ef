-- ===== src/IndexCache.antt =====
-- src/sdk/vector/vector_index_cache.h and vector_index_cache.cc: the cache of vector indexes, by id and
-- by schema and name. src/sdk/document/document_index_cache.cc has the same text for document indexes.
-- The reply of the coordinator is an argument, and what is read of it are the fields of the records
-- below. Each map is a hash map, whose order is never read.
use dingo_sdk.Base.{
  ℕ, zero, suc, ◌+◌, ◌*◌, ◌/◌, ◌%◌, Bool, true, false, not, ◌&&◌, ◌||◌, List, [], ◌∷◌, ◌++◌, Option,
  none, some, if◌then◌else◌, ltb, ◌==◌, take, drop, length,
}
use dingo_sdk.Key.{Key, key_eqb, is_empty}
use dingo_sdk.OrdMap
use dingo_sdk.Outcome.{Outcome, done, aborted, check, check_some, ◌>>=◌, ◌>>◌}
use dingo_sdk.Status.{Status, Result, success, failure, of_code, not_found, Answer, and_then}
use dingo_sdk.Region.{update}
use dingo_sdk.MetaCache.Ids.{find_id, erase_id}
pub mod Keys
pub mod Invariant
pub mod Directory
pub mod Calls

-- The bytes of an integer in memory, the lowest first, and back.
unfoldable pub le_bytes : ℕ → ℕ → List ℕ
le_bytes zero n = []
le_bytes (suc w) n = (n % 256) ∷ le_bytes w (n / 256)

unfoldable pub of_le_bytes : List ℕ → ℕ
of_le_bytes [] = 0
of_le_bytes (b ∷ bs) = b + 256 * of_le_bytes bs

-- `EncodeVectorIndexCacheKey` and `DecodeVectorIndexCacheKey`; a schema id has 8 bytes.
unfoldable pub encode_key : ℕ → Key → Key
unfolding le_bytes
encode_key schema_id index_name = le_bytes 8 schema_id ++ index_name

unfoldable pub decode_key : Key → ℕ × Key
unfolding of_le_bytes
decode_key key = (of_le_bytes (take 8 key), drop 8 key)

-- `VectorIndex`, of which the cache reads what never changes.
pub record Index : Type 0 where
  pub addr : ℕ
  pub id : ℕ
  pub schema_id : ℕ
  pub name : Key

pub record EntityId : Type 0 where
  pub entity_id : ℕ
  pub parent_entity_id : ℕ

-- The id in the start key of a partition, which is `none` if it is negative, and its own id.
pub record Partition : Type 0 where
  pub start_id : Option ℕ
  pub part_id : ℕ

-- `fields` are the keys of the scalar schema; `known` is whether each of its types is one of the client's.
pub record IndexDefinition : Type 0 where
  pub name : Key
  pub partitions : List Partition
  pub fields : List Key
  pub known : Bool

pub record IndexDefinitionWithId : Type 0 where
  pub index_id : Option EntityId
  pub index_definition : Option IndexDefinition

pub record Cache : Type 0 where
  pub index_key_to_id : List (Key × ℕ)
  pub id_to_index : List (ℕ × Index)
  pub stale : ℕ → Bool
  pub next_addr : ℕ

-- `GetVectorIndexCacheKey`.
abbrev pub key_of : Index → Key
key_of x = encode_key x.schema_id x.name

abbrev pub is_there : {A : Type 0} → Option A → Bool
is_there none = false
is_there (some a) = true

unfoldable pub remove_index_by_id : ℕ → Cache → Outcome Cache
remove_index_by_id id c = elim (find_id id c.id_to_index) [
  | none ↦ done c
  | some x ↦ do
    check (is_there (OrdMap.find (key_of x) c.index_key_to_id))
    done (record c {
      stale = update c.stale x.addr true;
      id_to_index = erase_id id c.id_to_index;
      index_key_to_id = OrdMap.erase (key_of x) c.index_key_to_id;
    })
]

unfoldable pub remove_index_by_key : Key → Cache → Outcome Cache
remove_index_by_key key c = elim (OrdMap.find key c.index_key_to_id) [
  | none ↦ done c
  | some id ↦ do
    x ← check_some (find_id id c.id_to_index)
    done (record c {
      stale = update c.stale x.addr true;
      id_to_index = erase_id id c.id_to_index;
      index_key_to_id = OrdMap.erase key c.index_key_to_id;
    })
]

abbrev pub has_id : ℕ → List Partition → Bool
has_id id [] = false
has_id id (p ∷ ps) = p.part_id == id || has_id id ps

abbrev pub starts_at : ℕ → List Partition → Bool
starts_at id [] = false
starts_at id (p ∷ ps) =
    elim p.start_id [ none ↦ false | some start ↦ start == id ] || starts_at id ps

-- The two insertions of each partition succeed, and no start is negative.
unfoldable pub apart : List Partition → Bool
apart [] = true
apart (p ∷ ps) = elim p.start_id [
  | none ↦ false
  | some start ↦ not (starts_at start ps) && (not (has_id p.part_id ps) && apart ps)
]

abbrev pub has_field : Key → List Key → Bool
has_field k [] = false
has_field k (x ∷ xs) = key_eqb k x || has_field k xs

unfoldable pub fields_apart : List Key → Bool
fields_apart [] = true
fields_apart (k ∷ ks) = not (has_field k ks) && fields_apart ks

-- The CHECKs of the constructor of `VectorIndex`, and of `MaybeGenerateScalarSchema`.
unfoldable pub well_made : IndexDefinition → Bool
well_made d =
    ltb 0 (length d.partitions) && (apart d.partitions && (fields_apart d.fields && d.known))

-- A new index object after its constructor's CHECKs, and the two insertions.
unfoldable pub add_index : ℕ → ℕ → Key → Cache → Outcome (Index × Cache)
add_index id schema_id name c =
    let x : Index = record { addr = c.next_addr; id = id; schema_id = schema_id; name = name } in
    do
      check (not (is_there (OrdMap.find (key_of x) c.index_key_to_id)))
      check (not (is_there (find_id id c.id_to_index)))
      done (
        x,
        record {
          index_key_to_id = OrdMap.insert (key_of x) id c.index_key_to_id;
          id_to_index = (id, x) ∷ c.id_to_index;
          stale = update c.stale x.addr false;
          next_addr = suc c.next_addr;
        },
      )

-- `ProcessIndexDefinitionWithId`, of the id and the definition.
unfoldable pub process_index_definition_with_id :
    EntityId → IndexDefinition → Cache → Outcome (Result Index × Cache)
process_index_definition_with_id e d c = elim (find_id e.entity_id c.id_to_index) [
  | some x ↦ do check (key_eqb x.name d.name); done (success x, c)
  | none ↦ do
    check (well_made d)
    added ← add_index e.entity_id e.parent_entity_id d.name c
    done (success added.0, added.1)
]

-- `CheckIndexDefinitionWithId`, of the parts that are there.
unfoldable pub check_index_definition_with_id : EntityId → IndexDefinition → Bool
check_index_definition_with_id e d =
    ltb 0 e.entity_id
    && ltb 0 e.parent_entity_id
    && not (is_empty d.name)
    && ltb 0 (length d.partitions)

-- The last part of both slow lookups; a response may lack the definition, or its parts.
unfoldable pub take_response : Option IndexDefinitionWithId → Cache → Outcome (Result Index × Cache)
take_response none c = done (failure (of_code not_found), c)
take_response (some w) c = elim w.index_id [
  | none ↦ done (failure (of_code not_found), c)
  | some e ↦ elim w.index_definition [
    | none ↦ done (failure (of_code not_found), c)
    | some d ↦
        if check_index_definition_with_id e d
        then process_index_definition_with_id e d c
        else done (failure (of_code not_found), c)
  ]
]

abbrev pub Reply : Type 0
Reply = Result (Option IndexDefinitionWithId)

unfoldable pub slow_get_index_by_id : Reply → Cache → Outcome (Result Index × Cache)
slow_get_index_by_id (failure s) c = done (failure s, c)
slow_get_index_by_id (success r) c = take_response r c

unfoldable pub slow_get_index_by_key : Key → Reply → Cache → Outcome (Result Index × Cache)
slow_get_index_by_key key reply c = do
  check (not (is_empty (decode_key key).1))
  check (not ((decode_key key).0 == 0))
  slow_get_index_by_id reply c

unfoldable pub get_index_by_key : Key → Reply → Cache → Outcome (Result Index × Cache)
get_index_by_key key reply c = elim (OrdMap.find key c.index_key_to_id) [
  | some id ↦ do x ← check_some (find_id id c.id_to_index); done (success x, c)
  | none ↦ slow_get_index_by_key key reply c
]

unfoldable pub get_index_id_by_key : Key → Reply → Cache → Outcome (Result ℕ × Cache)
get_index_id_by_key key reply c = elim (OrdMap.find key c.index_key_to_id) [
  | some id ↦ done (success id, c)
  | none ↦ and_then (slow_get_index_by_key key reply c) (λ x d. done (success x.id, d))
]

unfoldable pub get_index_by_id : ℕ → Reply → Cache → Outcome (Result Index × Cache)
get_index_by_id id reply c = elim (find_id id c.id_to_index) [
  | some x ↦ done (success x, c)
  | none ↦ slow_get_index_by_id reply c
]
