-- ===== src/Txn/Buffer.antt =====
-- src/sdk/transaction/txn_buffer.h and txn_buffer.cc: the writes that a transaction has not yet sent.
use dingo_sdk.Base.{
  ◌||◌, ℕ, Bool, true, false, not, List, [], ◌∷◌, map, Option, none, some, if◌then◌else◌, length,
  ◌≡◌,
}
use dingo_sdk.Key.{Key, key_ltb, key_eqb, is_empty}
use dingo_sdk.OrdMap
use dingo_sdk.Outcome.{Outcome, done, aborted, check, ◌>>=◌, ◌>>◌, for_each}
use dingo_sdk.Status.{Status, Result, success, failure, of_code, not_found}
pub mod View
pub mod Writes
pub mod Range

pub data MutationType : Type 0 where
  none_mutation put_mutation delete_mutation put_if_absent_mutation : MutationType

pub record Mutation : Type 0 where
  pub type : MutationType
  pub key : Key
  pub value : Key

pub record Buffer : Type 0 where
  pub primary_key : Key
  pub mutation_map : List (Key × Mutation)

abbrev pub new : Buffer
new = record { primary_key = []; mutation_map = [] }

unfoldable pub get : Key → Buffer → Result Mutation
get key b = elim (OrdMap.find key b.mutation_map) [
  | none ↦ failure (of_code not_found)
  | some m ↦ success m
]

-- `Erase`.
unfoldable pub erase : Key → Buffer → Buffer
erase key b = record {
  primary_key = if key_eqb key b.primary_key then [] else b.primary_key;
  mutation_map = OrdMap.erase key b.mutation_map;
}

is_none : {A : Type 0} → Option A → Bool
is_none none = true
is_none (some a) = false

-- `Emplace`: the insertion must be a new entry.
unfoldable pub emplace : Key → Mutation → Buffer → Outcome Buffer
unfolding is_none
emplace key m b = do
  check (is_none (OrdMap.find key b.mutation_map))
  done (record {
    primary_key = if is_empty b.primary_key then key else b.primary_key;
    mutation_map = OrdMap.insert key m b.mutation_map;
  })

-- The operations return `Status::OK()`.
unfoldable pub put : Key → Key → Buffer → Outcome Buffer
unfolding erase emplace
put key value b =
    emplace key (record { type = put_mutation; key = key; value = value }) (erase key b)

-- What `PutIfAbsent` does to an entry of this type.
put_over : MutationType → Key → Mutation → Buffer → Outcome Buffer
put_over delete_mutation key m b = emplace key m (erase key b)
put_over _ key m b = done b

unfoldable pub put_if_absent : Key → Key → Buffer → Outcome Buffer
unfolding put_over emplace erase
put_if_absent key value b =
    let op : Mutation = record { type = put_if_absent_mutation; key = key; value = value } in
    elim (OrdMap.find key b.mutation_map) [
      | none ↦ emplace key op b
      | some m ↦ put_over m.type key op b
    ]

unfoldable pub delete : Key → Buffer → Outcome Buffer
unfolding erase emplace
delete key b = emplace key (record { type = delete_mutation; key = key; value = [] }) (erase key b)

unfoldable pub batch_put : List (Key × Key) → Buffer → Outcome Buffer
batch_put = for_each (λ kv. put kv.0 kv.1)

unfoldable pub batch_put_if_absent : List (Key × Key) → Buffer → Outcome Buffer
batch_put_if_absent = for_each (λ kv. put_if_absent kv.0 kv.1)

unfoldable pub batch_delete : List Key → Buffer → Outcome Buffer
batch_delete = for_each delete

abbrev pub is_nil {ℓ} : {A : Type ℓ} → List A → Bool
is_nil [] = true
is_nil (x ∷ xs) = false

abbrev pub values : List (Key × Mutation) → List Mutation
values = map (λ e. e.1)

-- The loop goes from `lower_bound(start_key)` to `lower_bound(end_key)`.
unfoldable pub range : Key → Key → Buffer → Outcome (List Mutation)
range start_key end_key b = do
  check (key_ltb start_key end_key)
  let found = OrdMap.from start_key b.mutation_map
  let nothing = is_nil b.mutation_map || is_nil found
  if nothing then done [] else in_range found (OrdMap.before end_key b.mutation_map)
  where
    in_range : List (Key × Mutation) → List (Key × Mutation) → Outcome (List Mutation)
    in_range found until = do
      check (not (is_nil until))
      done (values (OrdMap.before end_key found))

-- `GetPrimaryKey`.
unfoldable pub get_primary_key : Buffer → Outcome Key
get_primary_key b = do check (not (is_empty b.primary_key)); done b.primary_key

unfoldable pub mutations_size : Buffer → ℕ
mutations_size b = length b.mutation_map
