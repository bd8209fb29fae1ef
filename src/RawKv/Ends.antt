-- ===== src/RawKv/Ends.antt =====
-- A task ends, after a bounded number of runs of `DoAsync`, with what the last of them said.
use dingo_sdk.Base.{
  ℕ, zero, suc, ◌+◌, ◌<◌, ◌≤◌, max, true, false, Option, none, some, ltb, ◌≡◌, refl, Bool-cases,
  inl, inr, arith,
}
use dingo_sdk.Outcome.{Outcome, Returns, Returns->>=}
use dingo_sdk.Status.{Status, Code, code_ok, code_is_ok, is_ok}
use dingo_sdk.Rpc.{ErrorCode}
use dingo_sdk.RawKv.{Task, need_retry, wants_retry, run, go_on}

ok_settled :
    (number : ErrorCode → ℕ) (k : Code) (errno : ℕ)
    → code_is_ok k ≡ true
    → wants_retry number (record { code = k; errno = errno }) ≡ false
ok_settled number code_ok errno h = refl
ok_settled number k errno h = cc

module _ (number : ErrorCode → ℕ) {S : Type 0} (do_async : S → Outcome (Status × S)) (max_retry : ℕ)
    (I : S → Type 0) (Q : S → Type 0) where
  -- One run of `DoAsync` keeps `I`, and brings about `Q` if it is OK.
  abbrev pub Does : Status × S → Type 0
  Does r = I r.1 × (is_ok r.0 ≡ true → Q r.1)

  -- The task when its call back fires.
  pub record Ended (t : Task S) : Type 0 where
    pub kept : I t.inner
    pub settled : wants_retry number t.status ≡ false
    pub bounded : t.retry_count ≤ max 1 max_retry
    pub result : is_ok t.status ≡ true → Q t.inner

  abbrev pub Ends : Option (Task S) → Type 0
  Ends none = ⊥
  Ends (some t) = Ended t

  -- After a run that failed the task ends, or goes on with one more run.
  go_on-Ends :
      (f : Task S → Outcome (Option (Task S))) (t : Task S)
      → I t.inner
      → is_ok t.status ≡ false
      → t.retry_count < max 1 max_retry
      → ((u : Task S)
          → I u.inner
          → u.retry_count ≡ suc t.retry_count
          → u.retry_count < max 1 max_retry
          → Returns (f u) Ends)
      → Returns (go_on number do_async max_retry f (need_retry number max_retry t)) Ends
  unfolding need_retry
  go_on-Ends f t i n b k = elim (Bool-cases (wants_retry number t.status)) [
    | inl w ↦ rw (w) (elim (Bool-cases (ltb (suc t.retry_count) max_retry)) [
      | inl m ↦ rw (m) (k (record t { retry_count = suc t.retry_count }) i refl (ground (arith, m)))
      | inr m ↦
          rw (m) (record { kept = i; settled = refl; bounded = omega (arith, b); result = λ z. cc })
    ])
    | inr w ↦
        rw (w)
          (record { kept = i; settled = w; bounded = omega (arith, b); result = λ z. cc (n, z) })
  ]

  -- A task whose `DoAsync` always returns, keeps the invariant `I` and brings about `Q` when its status
  -- is OK, ends on fuel for one run more than the retries that are left: its status is not one that is
  -- retried, its retry count is at most the maximum, or one, and if its status is OK then `Q` holds.
  pub run-Ends :
      ((s : S) → I s → Returns (do_async s) Does)
      → (fuel : ℕ) (t : Task S) → I t.inner
      → t.retry_count < max 1 max_retry
      → max 1 max_retry ≤ fuel + t.retry_count
      → Returns (run number do_async max_retry fuel t) Ends
  unfolding run
  run-Ends each zero t i b f = absurd (ground (arith, b, f))
  run-Ends each (suc fuel) t i b f =
      Returns->>= Does Ends (do_async t.inner) _ (each t.inner i) λ r d.
        elim (Bool-cases (is_ok r.0)) [
          | inl y ↦ rw (y) (record {
            kept = d.0;
            settled = ok_settled number r.0.code r.0.errno y;
            bounded = omega (arith, b);
            result = λ z. d.1 y;
          })
          | inr n ↦ rw (n) (
              go_on-Ends (run number do_async max_retry fuel)
                (record t { status = r.0; inner = r.1 }) d.0 n b
                λ u j e m. run-Ends each fuel u j m (omega (arith, f, e)))
        ]
