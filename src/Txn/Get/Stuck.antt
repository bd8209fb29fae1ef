-- ===== src/Txn/Get/Stuck.antt =====
-- A read whose first request met a region that had changed is run again, and never succeeds.
use dingo_sdk.Base.{
  ℕ, zero, suc, ◌+◌, ◌<◌, ◌≤◌, true, false, Option, none, some, ltb, ◌≡◌, refl, Bool-cases, inl,
  inr, arith,
}
use dingo_sdk.Key.{Key}
use dingo_sdk.Outcome.{Outcome, done, Returns}
use dingo_sdk.Status.{Status, Code, incomplete, code_aborted, code_is_ok, Result, success, is_ok}
use dingo_sdk.Region.{RegionPtr}
use dingo_sdk.Rpc.{ErrorCode}
use dingo_sdk.RawKv.{Task, wants_retry, need_retry}
use dingo_sdk.Txn.Task.{LockInfo, ends, go_on, run}
use dingo_sdk.Txn.Get.{GetRequest, GetReply, GetTask, finish, txn_get_rpc_callback, do_async}

retried_fails :
    (number : ErrorCode → ℕ) (k : Code) (errno : ℕ)
    → wants_retry number (record { code = k; errno = errno }) ≡ true
    → code_is_ok k ≡ false
retried_fails number incomplete errno h = refl
retried_fails number k errno h = cc

module _ (number : ErrorCode → ℕ) {C : Type 0} (look_up : Key → C → Outcome (Result RegionPtr × C))
    (call : GetRequest → C → Outcome (GetReply × C))
    (resolve_lock : LockInfo → ℕ → C → Outcome (Status × C)) (max_retry : ℕ)
    (Settled : C → Type 0) where
  -- Once the regions are settled, a lookup finds a region, and a store answers with no error.
  abbrev pub Finds : Type 0
  Finds =
      (k : Key) (c : C)
      → Settled c
      → (r : RegionPtr) × (d : C) × (look_up k c ≡ done (success r, d)) × Settled d

  abbrev pub Serves : Type 0
  Serves =
      (q : GetRequest) (c : C)
      → Settled c
      → (a : GetReply) × (d : C) × (call q c ≡ done (a, d))
        × (is_ok a.status ≡ true)
        × (a.txn_result ≡ none)
        × Settled d

  -- The task gives up, and the value of the caller is as it was.
  abbrev pub GivesUp : Key → Option (Task (GetTask × C)) → Type 0
  GivesUp v none = ⊥
  GivesUp v (some t) = (t.status.code ≡ code_aborted) × (t.inner.0.value ≡ v)

  served_again :
      (t : GetTask) (c : C)
      → Finds
      → Serves
      → Settled c
      → is_ok t.status ≡ false
      → (d : C) × (do_async look_up call resolve_lock (t, c) ≡ done (ends t.status (t, d)))
        × Settled d
  unfolding do_async txn_get_rpc_callback finish
  served_again t c f s settled n =
      let (r, d, found, settled1) = f t.key c settled in
      let (a, e, called, y, none_given, settled2) =
        s
          (record {
            region = r;
            start_ts = t.start_ts;
            key = t.key;
            resolved_lock = t.resolved_lock;
          })
          d settled1 in
      (e, rw (do_async, found, called, y, none_given, n) refl, settled2)

  -- The task goes on from a run of `DoAsync` that failed.
  run_failed :
      (fuel : ℕ) (t : Task (GetTask × C)) (status : Status) (u : GetTask × C)
      → do_async look_up call resolve_lock t.inner ≡ done (ends status u)
      → is_ok status ≡ false
      → run number (do_async look_up call resolve_lock) max_retry (suc fuel) t
        ≡ go_on
            (run number (do_async look_up call resolve_lock) max_retry fuel)
            (need_retry number max_retry (record t { status = status; inner = u }))
  unfolding run
  run_failed fuel t status u e n = rw (run, e) (rw (n) refl)

  -- After a failure that is retried: the task is run again, or gives up.
  retries :
      (f : Task (GetTask × C) → Outcome (Option (Task (GetTask × C)))) (t : Task (GetTask × C))
      (v : Key)
      → wants_retry number t.status ≡ true
      → t.inner.0.value ≡ v
      → (t.retry_count + 1 < max_retry
          → Returns (f (record t { retry_count = suc t.retry_count })) (GivesUp v))
      → Returns (go_on f (need_retry number max_retry t)) (GivesUp v)
  unfolding need_retry
  retries f t v w e k = elim (Bool-cases (ltb (suc t.retry_count) max_retry)) [
    | inl m ↦ rw (need_retry, w) (rw (m) (k (ground (arith, m))))
    | inr m ↦ rw (need_retry, w) (rw (m) (refl, e))
  ]

  stays_failed :
      (fuel : ℕ) (t : Task (GetTask × C)) (v : Key)
      → Finds
      → Serves
      → Settled t.inner.1
      → wants_retry number t.inner.0.status ≡ true
      → t.inner.0.value ≡ v
      → t.retry_count < max_retry
      → max_retry ≤ fuel + t.retry_count
      → Returns (run number (do_async look_up call resolve_lock) max_retry fuel t) (GivesUp v)
  stays_failed zero t v f s settled w q b e = absurd (omega (arith, b, e))
  stays_failed (suc fuel) t v f s settled w q b e =
      let n = retried_fails number _ _ w in
      let (d, again, settled1) = served_again t.inner.0 t.inner.1 f s settled n in
      rw (run_failed fuel t t.inner.0.status (t.inner.0, d) again n) (
        retries (run number (do_async look_up call resolve_lock) max_retry fuel) _ v w q λ m.
          stays_failed fuel
            (record t {
              status = t.inner.0.status;
              inner = (t.inner.0, d);
              retry_count = suc t.retry_count;
            })
            v f s settled1 w q (omega (arith, m)) (omega (arith, e)))

  -- A read that finds its region, and whose first request ends with a status that is retried, as after a
  -- split of the region, is run again until its retries are used up: although the regions are settled
  -- from then on, each lookup finds one, and each store answers OK and with no error, the task ends with
  -- the status Aborted, on fuel for its retries, and the caller's value is as it was.
  pub get-GivesUp :
      (fuel : ℕ) (t : GetTask) (c d e : C) (r : RegionPtr) (a : GetReply)
      → Finds
      → Serves
      → look_up t.key c ≡ done (success r, d)
      → call
          (record {
            region = r;
            start_ts = t.start_ts;
            key = t.key;
            resolved_lock = t.resolved_lock;
          })
          d
        ≡ done (a, e)
      → Settled e
      → wants_retry number a.status ≡ true
      → 1 < max_retry
      → max_retry ≤ fuel
      → Returns
          (run number
            (do_async look_up call resolve_lock)
            max_retry
            (suc fuel)
            (record { inner = (t, c); status = t.status; retry_count = 0 }))
          (GivesUp t.value)
  unfolding do_async txn_get_rpc_callback finish
  get-GivesUp fuel t c d e r a f s found called settled w b h =
      let n = retried_fails number _ _ w in
      let start : Task (GetTask × C) = record {
        inner = (t, c);
        status = t.status;
        retry_count = 0;
      } in
      let first : do_async look_up call resolve_lock (t, c)
          ≡ done (ends a.status (record t { status = a.status }, e)) =
        rw (do_async, found, called) (rw (n) refl) in
      rw (run_failed fuel start a.status (record t { status = a.status }, e) first n) (
        retries (run number (do_async look_up call resolve_lock) max_retry fuel)
          (record {
            inner = (record t { status = a.status }, e);
            status = a.status;
            retry_count = 0;
          })
          t.value w refl
          λ m.
            stays_failed fuel
              (record {
                inner = (record t { status = a.status }, e);
                status = a.status;
                retry_count = 1;
              })
              t.value f s settled w refl b (omega (arith, h)))
