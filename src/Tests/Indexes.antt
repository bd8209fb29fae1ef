-- ===== src/Tests/Indexes.antt =====
-- The cache of indexes at one index.
use dingo_sdk.Base.{ℕ, List, [], ◌∷◌, some, none, true, ◌≡◌, refl, arith}
use dingo_sdk.Key.{Key}
use dingo_sdk.OrdMap
use dingo_sdk.Outcome.{aborted, Returns, for_each}
use dingo_sdk.Status.{success}
use dingo_sdk.MetaCache.Ids.{find_id}
use dingo_sdk.IndexCache.{
  Cache, IndexDefinition, well_made, apart, fields_apart, Reply, encode_key, decode_key,
  get_index_by_id, le_bytes, of_le_bytes,
}
use dingo_sdk.IndexCache.Keys.{decode_key-encode_key}
use dingo_sdk.IndexCache.Invariant.{IsValid, with_index, with_index-IsValid}
use dingo_sdk.IndexCache.Directory.{Directory, Truthful, Agrees}
use dingo_sdk.IndexCache.Calls.{
  Call, gets, gets_by_key, removes, call, empty_cache, calls-Agrees, get_index_by_id_aborts,
}

decode_key-encode_key_example : decode_key (encode_key 300 (b'x' ∷ [])) ≡ (300, b'x' ∷ [])
decode_key-encode_key_example = decode_key-encode_key 300 (b'x' ∷ []) (omega arith)

-- The name of an index is the byte of its id.
abbrev names_of : ℕ → ℕ × List ℕ
names_of id = (2, id ∷ [])

same_name : (a b : ℕ) → names_of a ≡ names_of b → a ≡ b
same_name a b e = ground (arith, e)

abbrev directory : Directory
directory = record { names = names_of; bounded = λ id. omega arith; apart = same_name }

abbrev definition : Key → IndexDefinition
definition name = record {
  name = name;
  partitions =
      record { start_id = some 0; part_id = 5 } ∷ record { start_id = some 9; part_id = 6 } ∷ [];
  fields = (b'f' ∷ []) ∷ [];
  known = true;
}

abbrev reply : ℕ → Reply
reply id = success (
    some (record {
      index_id = some (record { entity_id = id; parent_entity_id = 2 });
      index_definition = some (definition (id ∷ []));
    }))

definition_made : (name : Key) → well_made (definition name) ≡ true
unfolding well_made apart fields_apart
definition_made name = refl

reply-Truthful : (id : ℕ) → Truthful directory (reply id)
reply-Truthful id e d h k = (ground (arith, h, k), cc (k, definition_made (id ∷ [])))

empty_cache-IsValid : IsValid empty_cache
unfolding find_id OrdMap.find
empty_cache-IsValid = record { sorted = tt; listed = λ i x h. cc; linked = λ k i h. cc }

empty_cache-Agrees : Agrees directory empty_cache
unfolding find_id
empty_cache-Agrees = record { valid = empty_cache-IsValid; named = λ i x h. cc }

abbrev calls : List Call
calls = gets 7 (reply 7) ∷ gets_by_key (encode_key 2 (7 ∷ [])) (reply 7) ∷ removes 7 ∷ []

calls-Agrees_example : Returns (for_each call calls empty_cache) (Agrees directory)
unfolding encode_key decode_key le_bytes of_le_bytes
calls-Agrees_example =
    calls-Agrees directory calls empty_cache
      (reply-Truthful 7, (((refl, refl), reply-Truthful 7), (tt, tt))) empty_cache-Agrees

no_id : find_id 7 empty_cache.id_to_index ≡ none
unfolding find_id
no_id = refl

no_key : OrdMap.find (encode_key 2 (7 ∷ [])) empty_cache.index_key_to_id ≡ none
unfolding OrdMap.find
no_key = refl

abbrev one_index : Cache
one_index = with_index empty_cache empty_cache-IsValid 7 2 (7 ∷ []) no_id no_key

get_index_by_id_aborts_example :
    get_index_by_id 8
      (success (
        some (record {
          index_id = some (record { entity_id = 8; parent_entity_id = 2 });
          index_definition = some (definition (7 ∷ []));
        })))
      one_index
    ≡ aborted
unfolding find_id
get_index_by_id_aborts_example =
    get_index_by_id_aborts one_index (record { addr = 0; id = 7; schema_id = 2; name = 7 ∷ [] }) 7 8
      (definition (7 ∷ []))
      (with_index-IsValid empty_cache empty_cache-IsValid 7 2 (7 ∷ []) no_id no_key) refl refl refl
      refl refl refl refl
