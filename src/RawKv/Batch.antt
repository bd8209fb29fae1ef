-- ===== src/RawKv/Batch.antt =====
-- src/sdk/rawkv: the tasks on several keys (raw_kv_batch_put_task.cc, raw_kv_batch_get_task.cc,
-- raw_kv_batch_delete_task.cc, raw_kv_batch_put_if_absent_task.cc and
-- raw_kv_batch_compare_and_set_task.cc): what they put into a request and take from its response.
-- Keyed.antt is what they have in common.
use dingo_sdk.Base.{
  ℕ, Bool, true, false, List, [], ◌∷◌, ◌++◌, map, length, Option, none, some, if◌then◌else◌, ◌==◌,
}
use dingo_sdk.Key.{Key, key_eqb, is_empty}
use dingo_sdk.Outcome.{Outcome, done, aborted, check, check_some, ◌>>=◌, ◌>>◌}
use dingo_sdk.Status.{Status, is_ok, ok, of_code, invalid_argument}
use dingo_sdk.Region.{RegionPtr}
use dingo_sdk.Keyed.{Group, Answer, Keyed, insert_all}
use dingo_sdk.RawKv.Scanner.{KvPair}
pub mod Runs
pub mod States

pub data BatchCall : Type 0 where
  batch_put batch_put_if_absent : List KvPair → BatchCall
  batch_compare_and_set : List KvPair → List Key → BatchCall
  batch_get batch_delete : List Key → BatchCall

-- The fields of a request, without its context.
pub data Request : Type 0 where
  kv_batch_put kv_batch_put_if_absent : List KvPair → Request
  kv_batch_compare_and_set : List (KvPair × Key) → Request
  kv_batch_get kv_batch_delete : List Key → Request

-- What the task keeps of the responses.
pub record Taken : Type 0 where
  pub tmp_out_kvs : List KvPair
  pub tmp_out_states : List (Key × Bool)

pub record Response : Type 0 where
  pub kvs : List KvPair
  pub key_states : List Bool

abbrev pub first_of : KvPair → Key
first_of kv = kv.0

-- The keys of the call. `Init` refuses a key that comes twice, and values that are not as many as keys.
abbrev pub keys_of : BatchCall → List Key
keys_of (batch_put kvs) = map first_of kvs
keys_of (batch_put_if_absent kvs) = map first_of kvs
keys_of (batch_compare_and_set kvs expected) = map first_of kvs
keys_of (batch_get keys) = keys
keys_of (batch_delete keys) = keys

unfoldable pub init : BatchCall → Status × List Key
init (batch_compare_and_set kvs expected) =
    if length kvs == length expected
    then insert_all (map first_of kvs) []
    else (of_code invalid_argument, [])
init call = insert_all (keys_of call) []

-- `std::find_if` and the map of contexts.
unfoldable pub find_kv : Key → List KvPair → Option KvPair
find_kv k [] = none
find_kv k (kv ∷ kvs) = if key_eqb kv.0 k then some kv else find_kv k kvs

unfoldable pub find_context : Key → List KvPair → List Key → Option (KvPair × Key)
find_context k (kv ∷ kvs) (v ∷ vs) = if key_eqb kv.0 k then some (kv, v) else find_context k kvs vs
find_context k [] vs = none
find_context k (kv ∷ kvs) [] = none

unfoldable pub find_each : {A : Type 0} → (Key → Option A) → List Key → Outcome (List A)
find_each f [] = done []
find_each f (k ∷ ks) = do a ← check_some (f k); rest ← find_each f ks; done (a ∷ rest)

-- The request for the keys of a region.
unfoldable pub request_of : BatchCall → List Key → Outcome Request
request_of (batch_put kvs) ks = do
  found ← find_each (λ k. find_kv k kvs) ks
  done (kv_batch_put found)
request_of (batch_put_if_absent kvs) ks = do
  found ← find_each (λ k. find_kv k kvs) ks
  done (kv_batch_put_if_absent found)
request_of (batch_compare_and_set kvs expected) ks = do
  found ← find_each (λ k. find_context k kvs expected) ks
  done (kv_batch_compare_and_set found)
request_of (batch_get keys) ks = done (kv_batch_get ks)
request_of (batch_delete keys) ks = done (kv_batch_delete ks)

abbrev pub keep_values : List KvPair → List KvPair
keep_values [] = []
keep_values (kv ∷ kvs) = if is_empty kv.1 then keep_values kvs else kv ∷ keep_values kvs

unfoldable pub states_of : List Key → List Bool → List (Key × Bool)
states_of (k ∷ ks) (b ∷ bs) = (k, b) ∷ states_of ks bs
states_of [] bs = []
states_of (k ∷ ks) [] = []

unfoldable pub take_states : Response → List Key → Taken → Outcome (List Key × Taken)
take_states r ks t = do
  check (length ks == length r.key_states)
  done (ks, record t { tmp_out_states = t.tmp_out_states ++ states_of ks r.key_states })

-- What the call backs do with an OK response: the keys that they erase, and what they keep. The keys of
-- a read are those of the response.
unfoldable pub take_response : BatchCall → Response → List Key → Taken → Outcome (List Key × Taken)
take_response (batch_put kvs) r ks t = done (ks, t)
take_response (batch_delete keys) r ks t = done (ks, t)
take_response (batch_put_if_absent kvs) r ks t = take_states r ks t
take_response (batch_compare_and_set kvs expected) r ks t = take_states r ks t
take_response (batch_get keys) r ks t =
    done (map first_of r.kvs, record t { tmp_out_kvs = t.tmp_out_kvs ++ keep_values r.kvs })

-- A request and its call back; `call` is the store controller's.
unfoldable pub send :
    {C : Type 0}
    → (RegionPtr → Request → C → Outcome ((Status × Response) × C))
    → BatchCall
    → Group
    → Taken
    → C
    → Outcome (Answer Taken × C)
send call b g t c = request_of b g.keys >>= λ q. call g.region q c >>= λ a. elim (is_ok a.0.0) [
  | true ↦ take_response b a.0.1 g.keys t >>= λ x.
      done (record { status = a.0.0; erased = x.0; own = x.1 }, a.1)
  | false ↦ done (record { status = a.0.0; erased = []; own = t }, a.1)
]

-- A task when it starts, with what the lookups and the requests read and change.
unfoldable pub start : {C : Type 0} → BatchCall → C → Status × (Keyed Taken × C)
start b c = (
  (init b).0,
  (
    record {
      next_keys = (init b).1;
      status = ok;
      own = record { tmp_out_kvs = []; tmp_out_states = [] };
    },
    c,
  ),
)
