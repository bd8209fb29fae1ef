-- ===== src/Txn/KeyTasks/Answered.antt =====
-- A commit, a rollback or a resolution of locks that ends with OK: each of its keys is in one request that a
-- store has answered without an error.
use dingo_sdk.Base.{
  ℕ, ◌+◌, ◌≤◌, max, true, false, List, [], ◌++◌, length, Option, none, some, ◌≡◌, ◌⊎◌, refl, ◌∙◌,
  Bool-cases, inl, inr, arith, ==_iff,
}
use dingo_sdk.Key.{Key}
use dingo_sdk.Outcome.{Outcome, done, ◌>>=◌, Returns, Returns-map, Returns->>=}
use dingo_sdk.Status.{Status, Result, is_ok}
use dingo_sdk.Region.{RegionPtr}
use dingo_sdk.Rpc.{ErrorCode}
use dingo_sdk.Keyed.{Group, Keyed, Answer, insert_all}
use dingo_sdk.Keyed.Cached.{do_async_cached-Ran}
use dingo_sdk.Keyed.Count.{count, count-append, count-insert_all, keys_in}
use dingo_sdk.Keyed.Once.{Terms, Around, Fails, LookedUp, Sent, do_async-Ran}
use dingo_sdk.RawKv.{Task}
use dingo_sdk.RawKv
use dingo_sdk.RawKv.Ends.{Ends, run-Ends}
use dingo_sdk.Txn.KeyTasks.{
  KeysTask, txn_commit, txn_batch_rollback, txn_resolve_lock, KeysRequest, KeysReply, init,
  status_of, split_groups, send, run_keys, run_task,
}
use dingo_sdk.Txn.KeyTasks.Batches.{count-split_groups}
use dingo_sdk.Txn.KeyTasks.Errors.{clean_reply, IsRefused, clean_accepted, refused_fails}
use dingo_sdk.Txn.Task.Ends.{async_run-only_ends}

-- The commit of a primary key has one key.
abbrev pub CanStart : KeysTask → List Key → Type 0
CanStart (txn_commit true start_ts commit_ts) keys = length keys ≡ 1
CanStart task keys = Unit

-- What the lookups and the requests read and change: `answered` are the keys of the requests that were
-- answered without an error, and `Holds` is kept.
pub record View (C : Type 0) : Type 1 where
  pub answered : C → List Key
  pub Holds : C → Type 0

module _ {C : Type 0} (look_up : Key → C → Outcome (Result RegionPtr × C))
    (call : RegionPtr → KeysRequest → C → Outcome (KeysReply × C)) (order : List Group → List Group)
    (max_batch_count : ℕ) (task : KeysTask) (v : View C) where
  -- A request is answered without an error, or refused.
  abbrev pub Settled : RegionPtr → List Key → C → KeysReply × C → Type 0
  Settled r ks c a =
      v.Holds a.1
      × ((a.0 ≡ clean_reply) × (v.answered a.1 ≡ v.answered c ++ ks)
          ⊎ IsRefused task a.0 × (v.answered a.1 ≡ v.answered c))

  -- A lookup and a call return, and `order` only changes the order of the requests.
  pub record Fair : Type 0 where
    pub looks :
        (k : Key) (c : C)
        → v.Holds c
        → Returns (look_up k c) λ x. v.Holds x.1 × (v.answered x.1 ≡ v.answered c) × Fails x.0
    pub calls :
        (r : RegionPtr) (ks : List Key) (c : C)
        → v.Holds c
        → Returns (call r (record { task = task; keys = ks }) c) (Settled r ks c)
    pub shuffles : (gs : List Group) (k : Key) → count k (keys_in (order gs)) ≡ count k (keys_in gs)

  abbrev terms : (Key → ℕ) → Terms C (Unit {0})
  terms n = record { ledger = λ u c. v.answered c; Holds = v.Holds; total = n }

  module _ (f : Fair) (n : Key → ℕ) (o : List Group → List Group)
      (shuffles : (gs : List Group) (k : Key)
        → count k (keys_in (o gs)) ≡ count k (keys_in gs)) where
    abbrev sending : Group → Unit {0} → C → Outcome (Answer (Unit {0}) × C)
    sending = send look_up call order max_batch_count task

    settled-Sent :
        (g : Group) (u : Unit {0}) (c : C) (a : KeysReply × C)
        → Settled g.region g.keys c a
        → Returns
            (status_of task a.0 >>= λ s.
              done (record { status = s; erased = g.keys; own = u }, a.1))
            (Sent look_up sending o (terms n) g u c)
    settled-Sent g u c a (h, inl (q, e)) = rw (q) (
        rw (clean_accepted task)
          (h, λ y. (refl, λ k. rw (e) (count-append k (v.answered c) g.keys)), λ z. cc (z)))
    settled-Sent g u c a (h, inr (q, e)) =
        Returns->>= (λ s. is_ok s ≡ false) (Sent look_up sending o (terms n) g u c)
          (status_of task a.0) _ (refused_fails task a.0 q)
          λ s p. (h, λ y. cc (y, p), λ z k. rw (e) refl)

    send-Sent :
        (g : Group) (u : Unit {0}) (c : C)
        → v.Holds c
        → Returns (sending g u c) (Sent look_up sending o (terms n) g u c)
    unfolding send
    send-Sent g u c i =
        Returns->>= (Settled g.region g.keys c) (Sent look_up sending o (terms n) g u c)
          (call g.region (record { task = task; keys = g.keys }) c) _ (f.calls g.region g.keys c i)
          (settled-Sent g u c)

    around : Around look_up sending o (terms n)
    around = record {
      looks = λ k c i.
          Returns-map (λ x. v.Holds x.1 × (v.answered x.1 ≡ v.answered c) × Fails x.0)
            (LookedUp look_up sending o (terms n) c) (look_up k c)
            (λ x h. (h.0, λ s j. rw (h.1) refl, h.2)) (f.looks k c i);
      sends = λ g s c i fits. send-Sent g s c i;
      shuffles = shuffles;
    }

-- The task has ended within its retries, and an OK means that since `c` its keys were answered, each once.
abbrev pub EachOnce :
    {C : Type 0} → ℕ → View C → C → List Key → Option (Task (Keyed (Unit {0}) × C)) → Type 0
EachOnce max_retry v c keys none = ⊥
EachOnce max_retry v c keys (some t) =
    (t.retry_count ≤ max 1 max_retry)
    × (is_ok t.status ≡ true
        → (k : Key) → count k (v.answered t.inner.1) ≡ count k (v.answered c) + count k keys)

module _ {C : Type 0} (look_up : Key → C → Outcome (Result RegionPtr × C))
    (call : RegionPtr → KeysRequest → C → Outcome (KeysReply × C)) (order : List Group → List Group)
    (max_batch_count : ℕ) (v : View C) where
  abbrev Accounted : (Key → ℕ) → Keyed (Unit {0}) × C → Type 0
  Accounted n x = v.Holds x.1 × ((k : Key) → count k (v.answered x.1) + count k x.0.next_keys ≡ n k)

  abbrev AllAnswered : (Key → ℕ) → Keyed (Unit {0}) × C → Type 0
  AllAnswered n x = (k : Key) → count k (v.answered x.1) ≡ n k

  abbrev Went : (Key → ℕ) → Status × (Keyed (Unit {0}) × C) → Type 0
  Went n r = Accounted n r.1 × (is_ok r.0 ≡ true → AllAnswered n r.1)

  run_keys-Went :
      (task : KeysTask) (n : Key → ℕ) (x : Keyed (Unit {0}) × C)
      → Fair look_up call order max_batch_count task v
      → Accounted n x
      → Returns (run_keys look_up call order max_batch_count task x) (Went n)
  unfolding run_keys
  run_keys-Went (txn_commit p s c) n (t, d) f a =
      let o : List Group → List Group = λ gs. order (split_groups max_batch_count gs) in
      do_async-Ran look_up _ o _
        (around look_up call order max_batch_count (txn_commit p s c) v f n o λ gs k.
          f.shuffles (split_groups max_batch_count gs) k ∙ count-split_groups max_batch_count gs k)
        (t, d) a
  run_keys-Went (txn_batch_rollback s) n (t, d) f a =
      do_async_cached-Ran look_up _ order _
        (around look_up call order max_batch_count (txn_batch_rollback s) v f n order f.shuffles)
        (t, d) a
  run_keys-Went (txn_resolve_lock s c) n (t, d) f a =
      do_async_cached-Ran look_up _ order _
        (around look_up call order max_batch_count (txn_resolve_lock s c) v f n order f.shuffles)
        (t, d) a

  Ends-EachOnce :
      (max_retry : ℕ) (go : Keyed (Unit {0}) × C → Outcome (Status × (Keyed (Unit {0}) × C)))
      (number : ErrorCode → ℕ) (c : C) (keys : List Key) (x : Option (Task (Keyed (Unit {0}) × C)))
      → Ends number go max_retry
          (Accounted λ k. count k (v.answered c) + count k keys)
          (AllAnswered λ k. count k (v.answered c) + count k keys)
          x
      → EachOnce max_retry v c keys x
  Ends-EachOnce max_retry go number c keys none e = e
  Ends-EachOnce max_retry go number c keys (some t) e = (e.bounded, e.result)

  init_all :
      (task : KeysTask) (keys : List Key)
      → CanStart task keys
      → init task keys ≡ done (insert_all keys [])
  unfolding init
  init_all (txn_commit true s c) keys h = rw ((==_iff (length keys) 1).1 h) refl
  init_all (txn_commit false s c) keys h = refl
  init_all (txn_batch_rollback s) keys h = refl
  init_all (txn_resolve_lock s c) keys h = refl

  -- A commit, a rollback or a resolution of locks ends after at most its retries, on fuel for one run for
  -- each, when a commit of the primary key has one key, lookups return a region or an error, and each
  -- request is answered without an error, fails, or is answered with one error that the task is refused on:
  -- for a commit a write conflict, a mismatch of the primary key, or, for the primary key, an expired
  -- timestamp; for the other two a lock, a transaction that is not found, a write conflict or a mismatch. If
  -- it ends with OK, then the requests that were answered without an error in the meantime have each key of
  -- the task once and no other key, however many runs and requests it took, and in whatever order they went.
  pub run_task-EachOnce :
      (number : ErrorCode → ℕ) (task : KeysTask) (keys : List Key) (c : C) (max_retry fuel : ℕ)
      → Fair look_up call order max_batch_count task v
      → CanStart task keys
      → v.Holds c
      → max 1 max_retry ≤ fuel
      → Returns
          (run_task look_up call order max_batch_count number max_retry fuel task keys c)
          (EachOnce max_retry v c keys)
  unfolding run_task RawKv.async_run
  run_task-EachOnce number task keys c max_retry fuel f h i e =
      let n : Key → ℕ = λ k. count k (v.answered c) + count k keys in
      let go = run_keys look_up call order max_batch_count task in
      rw (init_all task keys h) (
        rw (async_run-only_ends number go max_retry fuel)
          (elim (Bool-cases (is_ok (insert_all keys []).0)) [
            | inr z ↦ rw (z) (omega arith, λ y. cc (y, z))
            | inl y ↦ rw (y) (
                Returns-map (Ends number go max_retry (Accounted n) (AllAnswered n))
                  (EachOnce max_retry v c keys) _ (Ends-EachOnce max_retry go number c keys)
                  (run-Ends number go max_retry (Accounted n) (AllAnswered n)
                    (λ x a. run_keys-Went task n x f a) fuel _
                    (i, λ k. omega (arith, count-insert_all k keys [] y)) (omega arith)
                    (omega (arith, e))))
          ]))
