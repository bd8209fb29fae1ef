-- ===== src/Tests/Batches.antt =====
-- A put-if-absent of two keys in two regions, one of which has moved at first, and the deletion of a range
-- that a store refuses.
use dingo_sdk.Base.{
  ℕ, suc, Bool, true, ◌&&◌, List, [], ◌∷◌, map, length, Option, none, some, if◌then◌else◌, ltb,
  ◌==◌, ◌≡◌, refl, arith,
}
use dingo_sdk.Key.{Key, key_ltb, key_eqb}
use dingo_sdk.Outcome.{Outcome, done, Returns}
use dingo_sdk.Status.{Status, Result, success, incomplete, of_code, invalid_argument, ok}
use dingo_sdk.Region.{RegionPtr, region_store}
use dingo_sdk.Rpc.{ErrorCode, is_retry_error_code}
use dingo_sdk.Keyed.{
  Group, Keyed, do_async, insert_all, has_key, insert_key, group_keys, push_key, send_groups,
  take_answer, erase_keys, erase_key,
}
use dingo_sdk.RawKv.{Task, run, async_run, need_retry}
use dingo_sdk.RawKv.Batch.{
  BatchCall, Taken, init, request_of, find_each, find_kv, take_response, take_states, states_of,
  kv_batch_put, kv_batch_get, kv_batch_delete, batch_put_if_absent, Request, kv_batch_put_if_absent,
  kv_batch_compare_and_set, Response, send, start,
}
use dingo_sdk.RawKv.Batch.States.{Served, size_of}
use dingo_sdk.RawKv.DeleteRange.{DeleteRange, DeleteRequest, DeleteReply, delete_next_range}
use dingo_sdk.RawKv.DeleteRange.Repeats.{Going, delete_next_range_repeats}
use dingo_sdk.RawKv.Batch.Runs.{OneEach, batch-OneEach}

abbrev pub one_number : ErrorCode → ℕ
one_number c = 0

abbrev pub region_at : ℕ → Key → Key → RegionPtr
region_at id from until = record {
  addr = id;
  info = record {
    region_id = id;
    start_key = from;
    end_key = until;
    epoch = record { version = 1; conf_version = 1 };
    region_type = region_store;
  };
}

-- The calls so far are counted.
abbrev look_up_in_two : Key → ℕ → Outcome (Result RegionPtr × ℕ)
look_up_in_two k n = done (
  success (
      if key_ltb k (b'b' ∷ [])
      then region_at 1 (b'a' ∷ []) (b'b' ∷ [])
      else region_at 2 (b'b' ∷ []) (b'c' ∷ [])),
  n,
)

abbrev states_for : Request → List Bool
states_for (kv_batch_put_if_absent kvs) = map (λ _. true) kvs
states_for (kv_batch_compare_and_set kvs) = map (λ _. true) kvs
states_for _ = []

abbrev moved_at_first : RegionPtr → Request → ℕ → Outcome ((Status × Response) × ℕ)
moved_at_first r q n = done (
  (
    if r.region_id == 2 && ltb n 2 then of_code incomplete else ok,
    record { kvs = []; key_states = states_for q },
  ),
  suc n,
)

abbrev pub same_order : List Group → List Group
same_order gs = gs

abbrev two_puts : BatchCall
two_puts = batch_put_if_absent ((b'a' ∷ [], b'x' ∷ []) ∷ (b'b' ∷ [], b'y' ∷ []) ∷ [])

trues-length : {A : Type 0} (xs : List A) → length xs ≡ length (map (λ _. true) xs)
trues-length [] = refl
trues-length (x ∷ xs) = omega (arith, trues-length xs)

states_for-size : (q : Request) → size_of q ≡ length (states_for q)
states_for-size (kv_batch_put_if_absent kvs) = trues-length kvs
states_for-size (kv_batch_compare_and_set kvs) = trues-length kvs
states_for-size (kv_batch_put kvs) = refl
states_for-size (kv_batch_get keys) = refl
states_for-size (kv_batch_delete keys) = refl

two_puts-Served : Served look_up_in_two moved_at_first same_order two_puts (λ _. Unit {0})
two_puts-Served = record {
  looks = λ k c i. (tt, tt);
  calls = λ r q c i. (tt, λ h. states_for-size q);
  shuffles = λ gs k. refl;
}

batch-OneEach_example :
    Returns
      (async_run one_number
        (do_async look_up_in_two (send moved_at_first two_puts) same_order)
        3
        3
        (start two_puts 0))
      (OneEach 3 two_puts)
batch-OneEach_example =
    batch-OneEach one_number look_up_in_two moved_at_first same_order two_puts (λ _. Unit {0})
      two_puts-Served tt 0 tt 3 3 (omega arith)

abbrev SecondRun : Option (Task (Keyed Taken × ℕ)) → Type 0
SecondRun none = ⊥
SecondRun (some t) =
    (t.inner.0.own.tmp_out_states ≡ (b'a' ∷ [], true) ∷ (b'b' ∷ [], true) ∷ [])
    × (t.inner.1 ≡ 3)
    × (t.retry_count ≡ 1)

-- The second run asks only for the key whose region had moved.
two_puts_run :
    Returns
      (async_run one_number
        (do_async look_up_in_two (send moved_at_first two_puts) same_order)
        3
        3
        (start two_puts 0))
      SecondRun
unfolding async_run start init insert_all has_key insert_key run do_async key_ltb key_eqb group_keys
    push_key send_groups take_answer erase_keys erase_key send request_of find_each find_kv
    take_response take_states states_of need_retry is_retry_error_code
two_puts_run = (refl, refl, refl)

abbrev from_a_to_c : DeleteRange
from_a_to_c = record {
  start_key = b'a' ∷ [];
  end_key = b'c' ∷ [];
  continuous = true;
  next_start_key = b'a' ∷ [];
  tmp_out_delete_count = 0;
}

-- No request is answered with an OK; the requests are kept.
abbrev always_refused :
    DeleteRequest → List DeleteRequest → Outcome (DeleteReply × List DeleteRequest)
always_refused q log =
    done (record { status = of_code invalid_argument; delete_count = 0 }, q ∷ log)

abbrev left_region : RegionPtr
left_region = region_at 1 (b'a' ∷ []) (b'b' ∷ [])

abbrev both_regions :
    Key → Key → List DeleteRequest → Outcome (Result (List RegionPtr) × List DeleteRequest)
both_regions from until log =
    done (success (left_region ∷ region_at 2 (b'b' ∷ []) (b'c' ∷ []) ∷ []), log)

abbrev first_region :
    Key → Key → List DeleteRequest → Outcome (Result RegionPtr × List DeleteRequest)
first_region from until log = done (success left_region, log)

abbrev same_log : List DeleteRequest → List DeleteRequest
same_log log = log

delete_next_range_repeats_example :
    Returns
      (delete_next_range both_regions first_region always_refused 100 from_a_to_c [])
      (Going both_regions first_region always_refused same_log from_a_to_c left_region 100 [])
unfolding key_ltb
delete_next_range_repeats_example =
    delete_next_range_repeats both_regions first_region always_refused same_log from_a_to_c
      left_region (λ c. (refl, refl)) (λ c. (refl, refl)) refl refl refl refl refl 100 []
