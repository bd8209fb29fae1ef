-- ===== src/RawKv/Batch/Runs.antt =====
-- Whole runs of the batch tasks that give out a state for each key.
use dingo_sdk.Base.{
  ℕ, ◌≤◌, max, Bool, true, false, List, [], map, length, Option, none, some, if◌then◌else◌, ◌==◌,
  ◌≡◌, Bool-cases, inl, inr, arith, ==_iff,
}
use dingo_sdk.Key.{Key}
use dingo_sdk.Outcome.{Outcome, Returns, Returns-map}
use dingo_sdk.Status.{Status, Result, is_ok, of_code, invalid_argument}
use dingo_sdk.Region.{RegionPtr}
use dingo_sdk.Rpc.{ErrorCode}
use dingo_sdk.Keyed.{Group, Keyed, do_async, insert_all}
use dingo_sdk.Keyed.Count.{count, count-insert_all}
use dingo_sdk.Keyed.Once.{Terms, Around, Accounts, Taken, do_async-Ran}
use dingo_sdk.RawKv.{Task, async_run}
use dingo_sdk.RawKv.Ends.{Ends, run-Ends}
use dingo_sdk.RawKv.Batch.{
  BatchCall, batch_put, batch_get, batch_delete, batch_put_if_absent, batch_compare_and_set,
  Request, Response, first_of, keys_of, init, send, start,
}
use dingo_sdk.RawKv.Batch
use dingo_sdk.RawKv.Batch.States.{GivesStates, key_of, terms, Served, look_up-LookedUp, send-Sent}

-- The call is one that gives out states.
abbrev pub AsksStates : BatchCall → Type 0
AsksStates (batch_put_if_absent kvs) = Unit
AsksStates (batch_compare_and_set kvs expected) = Unit
AsksStates _ = ⊥

refused :
    (tried : Status × List Key) (test : Bool)
    → test ≡ false
    → is_ok (if test then tried else (of_code invalid_argument, [])).0 ≡ true
    → ⊥
refused tried true n h = cc n
refused tried false n h = cc h

init-GivesStates : (b : BatchCall) → AsksStates b → is_ok (init b).0 ≡ true → GivesStates b
unfolding init
init-GivesStates (batch_put_if_absent kvs) a h = tt
init-GivesStates (batch_compare_and_set kvs vs) a h = elim (Bool-cases (length kvs == length vs)) [
  | inl y ↦ (==_iff (length kvs) (length vs)).0 y
  | inr n ↦ absurd (refused (insert_all (map first_of kvs) []) (length kvs == length vs) n h)
]
init-GivesStates (batch_put kvs) a h = absurd a
init-GivesStates (batch_get ks) a h = absurd a
init-GivesStates (batch_delete ks) a h = absurd a

init-count :
    (b : BatchCall)
    → GivesStates b
    → is_ok (init b).0 ≡ true
    → (k : Key) → count k (init b).1 ≡ count k (keys_of b)
unfolding init
init-count (batch_put_if_absent kvs) g h k =
    omega (arith, count-insert_all k (map first_of kvs) [] h)
init-count (batch_compare_and_set kvs vs) g h k =
    inserted (length kvs == length vs) ((==_iff (length kvs) (length vs)).1 g) h
  where
    inserted :
        (test : Bool)
        → test ≡ true
        → is_ok
            (if test then insert_all (map first_of kvs) [] else (of_code invalid_argument, [])).0
          ≡ true
        → count k
            (if test then insert_all (map first_of kvs) [] else (of_code invalid_argument, [])).1
          ≡ count k (map first_of kvs)
    inserted true y z = omega (arith, count-insert_all k (map first_of kvs) [] z)
    inserted false y z = cc y
init-count (batch_put kvs) g h k = absurd g
init-count (batch_get ks) g h k = absurd g
init-count (batch_delete ks) g h k = absurd g

-- The task has ended within its retries, and an OK comes with one state for each key of the call.
abbrev pub OneEach : {C : Type 0} → ℕ → BatchCall → Option (Task (Keyed Batch.Taken × C)) → Type 0
OneEach max_retry b none = ⊥
OneEach max_retry b (some t) =
    (t.retry_count ≤ max 1 max_retry)
    × (is_ok t.status ≡ true
        → (k : Key) → count k (map key_of t.inner.0.own.tmp_out_states) ≡ count k (keys_of b))

module _ {C : Type 0} (number : ErrorCode → ℕ) (look_up : Key → C → Outcome (Result RegionPtr × C))
    (call : RegionPtr → Request → C → Outcome ((Status × Response) × C))
    (order : List Group → List Group) (b : BatchCall) (Holds : C → Type 0) where
  abbrev our_terms : Terms C Batch.Taken
  our_terms = terms look_up call order b Holds

  module _ (w : Around look_up (send call b) order our_terms) where
    abbrev Kept : Keyed Batch.Taken × C → Type 0
    Kept = Accounts look_up (send call b) order our_terms w

    abbrev AllTaken : Keyed Batch.Taken × C → Type 0
    AllTaken = Taken look_up (send call b) order our_terms w

    Ends-OneEach :
        (max_retry : ℕ) (x : Option (Task (Keyed Batch.Taken × C)))
        → Ends number (do_async look_up (send call b) order) max_retry Kept AllTaken x
        → OneEach max_retry b x
    Ends-OneEach max_retry none e = e
    Ends-OneEach max_retry (some t) e = (e.bounded, e.result)

  -- A put-if-absent or compare-and-set of several keys ends after at most its retries, on fuel for one
  -- run for each, provided that the lookups, the calls and the order do as `Served` says. If the task ends
  -- with OK, the states that it gives out are one for each key of the call and no other, however many
  -- runs and requests it took.
  pub batch-OneEach :
      Served look_up call order b Holds
      → AsksStates b
      → (c : C) → Holds c
      → (max_retry fuel : ℕ) → max 1 max_retry ≤ fuel
      → Returns
          (async_run number (do_async look_up (send call b) order) max_retry fuel (start b c))
          (OneEach max_retry b)
  unfolding async_run start
  batch-OneEach v a c i max_retry fuel f = elim (Bool-cases (is_ok (init b).0)) [
    | inr n ↦ rw (n) (omega arith, λ y. cc (y, n))
    | inl y ↦
        let g = init-GivesStates b a y in
        let w : Around look_up (send call b) order our_terms = record {
          looks = look_up-LookedUp look_up call order b Holds v g;
          sends = send-Sent look_up call order b Holds v g;
          shuffles = v.shuffles;
        } in
        rw (y) (
          Returns-map
            (Ends number (do_async look_up (send call b) order) max_retry (Kept w) (AllTaken w))
            (OneEach max_retry b) _ (Ends-OneEach w max_retry)
            (run-Ends number (do_async look_up (send call b) order) max_retry (Kept w) (AllTaken w)
              (do_async-Ran look_up (send call b) order our_terms w) fuel _
              (i, λ k. omega (arith, init-count b g y k)) (omega arith) (omega (arith, f))))
  ]
