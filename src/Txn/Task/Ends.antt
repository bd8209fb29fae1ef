-- ===== src/Txn/Task/Ends.antt =====
-- A task that never asks to be run again without a status runs as one without a transaction does.
use dingo_sdk.Base.{
  ℕ, zero, suc, Bool, true, false, Option, some, if◌then◌else◌, ◌≡◌, refl, Bool-cases, inl, inr,
}
use dingo_sdk.Outcome.{Outcome, done, aborted, ◌>>=◌}
use dingo_sdk.Status.{Status, is_ok}
use dingo_sdk.Rpc.{ErrorCode}
use dingo_sdk.RawKv.{Task, need_retry}
use dingo_sdk.RawKv
use dingo_sdk.Txn.Task.{Turn, ends, run, async_run, go_on}

module _ (number : ErrorCode → ℕ) {S : Type 0} (do_async : S → Outcome (Status × S))
    (max_retry : ℕ) where
  abbrev pub only_ends : S → Outcome (Turn S)
  only_ends x = do_async x >>= λ r. done (ends r.0 r.1)

  ends_after :
      (m : Outcome (Status × S)) (f : Turn S → Outcome (Option (Task S)))
      (g : Status × S → Outcome (Option (Task S)))
      → ((r : Status × S) → f (ends r.0 r.1) ≡ g r)
      → ((m >>= λ r. done (ends r.0 r.1)) >>= f) ≡ (m >>= g)
  ends_after (done r) f g h = h r
  ends_after aborted f g h = refl

  same_go_on :
      (f g : Task S → Outcome (Option (Task S)))
      → ((t : Task S) → f t ≡ g t)
      → (x : Bool × Task S) → go_on f x ≡ RawKv.go_on number do_async max_retry g x
  same_go_on f g h (true, t) = h t
  same_go_on f g h (false, t) = refl

  same_end :
      (f g : Task S → Outcome (Option (Task S))) (t : Task S)
      → ((u : Task S) → f u ≡ g u)
      → (if is_ok t.status then done (some t) else go_on f (need_retry number max_retry t)) ≡ (
          if is_ok t.status
          then done (some t)
          else RawKv.go_on number do_async max_retry g (need_retry number max_retry t))
  same_end f g t h = elim (Bool-cases (is_ok t.status)) [
    | inl y ↦ rw (y) refl
    | inr n ↦ rw (n) (same_go_on f g h (need_retry number max_retry t))
  ]

  run-only_ends :
      (fuel : ℕ) (t : Task S)
      → run number only_ends max_retry fuel t ≡ RawKv.run number do_async max_retry fuel t
  unfolding run RawKv.run
  run-only_ends zero t = refl
  run-only_ends (suc fuel) t = ends_after (do_async t.inner) _ _ λ r.
      same_end (run number only_ends max_retry fuel) (RawKv.run number do_async max_retry fuel)
        (record t { status = r.0; inner = r.1 }) (run-only_ends fuel)

  -- The whole task.
  pub async_run-only_ends :
      (fuel : ℕ) (init : Status × S)
      → async_run number only_ends max_retry fuel init
        ≡ RawKv.async_run number do_async max_retry fuel init
  unfolding async_run RawKv.async_run
  async_run-only_ends fuel init = rw (run-only_ends fuel) refl
