-- ===== src/Tests/Keys.antt =====
-- A commit of three keys in two regions, in requests of one key, where one region has moved at first.
use dingo_sdk.Base.{
  ℕ, suc, true, false, ◌&&◌, List, [], ◌∷◌, ◌++◌, Option, none, some, if◌then◌else◌, ltb, ◌==◌, ◌≡◌,
  refl, arith, Bool-cases, inl, inr,
}
use dingo_sdk.Key.{Key, key_ltb, key_eqb}
use dingo_sdk.Outcome.{Outcome, done, Returns}
use dingo_sdk.Status.{Status, Result, success, incomplete, of_code, ok, is_ok}
use dingo_sdk.Region.{RegionPtr}
use dingo_sdk.Rpc.{is_retry_error_code}
use dingo_sdk.Keyed.{
  Keyed, insert_all, has_key, insert_key, do_async, group_keys, push_key, send_groups, take_answer,
  erase_keys, erase_key,
}
use dingo_sdk.RawKv.{Task, need_retry}
use dingo_sdk.Txn.Task.{run, async_run}
use dingo_sdk.Txn.KeyTasks.{
  KeysTask, txn_commit, KeysRequest, KeysReply, init, status_of, process_txn_commit_response,
  split_keys, requests_to, split_groups, send, run_keys, run_task,
}
use dingo_sdk.Txn.KeyTasks.Answered.{View, Settled, Fair, EachOnce, run_task-EachOnce}
use dingo_sdk.Tests.Batches.{one_number, region_at, same_order}

-- The calls so far, and the keys of those that were answered.
abbrev Stores : Type 0
Stores = ℕ × List Key

abbrev find_store : Key → Stores → Outcome (Result RegionPtr × Stores)
find_store k c = done (
  success (
      if key_ltb k (b'b' ∷ [])
      then region_at 1 (b'a' ∷ []) (b'b' ∷ [])
      else region_at 2 (b'b' ∷ []) (b'z' ∷ [])),
  c,
)

abbrev reply_with : Status → KeysReply
reply_with s = record { status = s; txn_result = none; has_commit_ts_expired = false }

abbrev second_moves : RegionPtr → KeysRequest → Stores → Outcome (KeysReply × Stores)
second_moves r q (n, keys) =
    if r.region_id == 2 && ltb n 2
    then done (reply_with (of_code incomplete), (suc n, keys))
    else done (reply_with ok, (suc n, keys ++ q.keys))

abbrev a_commit : KeysTask
a_commit = txn_commit false 5 8

abbrev three_keys : List Key
three_keys = (b'a' ∷ []) ∷ (b'b' ∷ []) ∷ (b'c' ∷ []) ∷ []

abbrev stores_view : View Stores
stores_view = record { answered = λ c. c.1; Holds = λ c. Unit {0} }

second_moves-Settled :
    (r : RegionPtr) (ks : List Key) (c : Stores)
    → Returns
        (second_moves r (record { task = a_commit; keys = ks }) c)
        (Settled find_store second_moves same_order 1 a_commit stores_view r ks c)
second_moves-Settled r ks (n, keys) = elim (Bool-cases (r.region_id == 2 && ltb n 2)) [
  | inl y ↦ rw (y) (tt, inr (inl refl, refl))
  | inr z ↦ rw (z) (tt, inl (refl, refl))
]

stores-Fair : Fair find_store second_moves same_order 1 a_commit stores_view
stores-Fair = record {
  looks = λ k c i. (tt, refl, tt);
  calls = λ r ks c i. second_moves-Settled r ks c;
  shuffles = λ gs k. refl;
}

run_task-EachOnce_example :
    Returns
      (run_task find_store second_moves same_order 1 one_number 3 3 a_commit three_keys (0, []))
      (EachOnce 3 stores_view (0, []) three_keys)
run_task-EachOnce_example =
    run_task-EachOnce find_store second_moves same_order 1 stores_view one_number a_commit
      three_keys (0, []) 3 3 stores-Fair tt tt (omega arith)

abbrev AfterRetry : Option (Task (Keyed (Unit {0}) × Stores)) → Type 0
AfterRetry none = ⊥
AfterRetry (some t) =
    (is_ok t.status ≡ true)
    × (t.retry_count ≡ 1)
    × (t.inner.1 ≡ (4, (b'a' ∷ []) ∷ (b'c' ∷ []) ∷ (b'b' ∷ []) ∷ []))

-- The first run sends three requests, and the second the one that failed.
three_keys_run :
    Returns
      (run_task find_store second_moves same_order 1 one_number 3 3 a_commit three_keys (0, []))
      AfterRetry
unfolding run_task init insert_all has_key insert_key async_run run run_keys do_async group_keys
    push_key split_groups split_keys requests_to send_groups send status_of
    process_txn_commit_response take_answer erase_keys erase_key key_ltb key_eqb need_retry
    is_retry_error_code
three_keys_run = (refl, refl, refl)
