-- ===== src/Rpc/Store/Ends.antt =====
-- A request to a region ends, after a bounded number of sends, and keeps the cache of regions valid.
use dingo_sdk.Base.{
  ℕ, zero, suc, ◌+◌, ◌<◌, ◌≤◌, Bool, if◌then◌else◌, true, false, Option, none, some, ltb, ◌≡◌, refl,
  sym, subst, ◌∙◌, Bool-cases, inl, inr, arith,
}
use dingo_sdk.Outcome.{Outcome, Returns, Returns->>=, Returns-map}
use dingo_sdk.Status.{of_code, code_aborted}
use dingo_sdk.Region.{EndPoint}
use dingo_sdk.Rpc.{ErrorCode}
use dingo_sdk.Rpc.Store.{
  Reply, Controller, attempt, is_retried, resend, is_universal_need_retry_error,
  is_txn_need_retry_error, again, fires, retry_or_fire, go_on, do_async_call,
}
use dingo_sdk.Rpc.Store.Attempt.{Honest, Attempted, FairTo, attempt-Attempted}
use dingo_sdk.Rpc.Store.Sound.{Sound}

module _ (number : ErrorCode → ℕ) (net : ℕ → EndPoint → Reply) where
  -- The state when the caller gets the status.
  pub record Ended (max_retry : ℕ) (c d : Controller) : Type 0 where
    pub sound : Sound d.region d.cache
    pub region : d.region ≡ c.region
    pub sends : d.rpc.sent + c.rpc_retry_times ≤ c.rpc.sent + suc d.rpc_retry_times
    pub bounded : d.rpc_retry_times ≤ max_retry
    pub settled : c.is_prewrite ≡ false → is_retried d.status ≡ false
    pub honest : Honest number net d

  abbrev pub Ends : ℕ → Controller → Option Controller → Type 0
  Ends max_retry c none = ⊥
  Ends max_retry c (some d) = Ended max_retry c d

  module _ (max_retry : ℕ) (c d : Controller) (b : c.rpc_retry_times ≤ max_retry)
      (a : Attempted number net c d) where
    ended : (c.is_prewrite ≡ false → is_retried d.status ≡ false) → Ended max_retry c d
    ended s = record {
      sound = a.sound;
      region = a.region;
      sends = omega (arith, a.sent, a.retries);
      bounded = omega (arith, b, a.retries);
      settled = s;
      honest = a.honest;
    }

    Ends-resend : (o : Option Controller) → Ends max_retry (resend d) o → Ends max_retry c o
    Ends-resend none e = e
    Ends-resend (some x) e = record {
      sound = e.sound;
      region = e.region ∙ a.region;
      sends = omega (arith, a.sent, a.retries, e.sends);
      bounded = e.bounded;
      settled = λ p. e.settled (a.is_prewrite ∙ p);
      honest = e.honest;
    }

    of_prewrite :
        (p : Bool)
        → d.is_prewrite ≡ p
        → retry_or_fire max_retry d ≡ (
            if p
            then fires d
            else (if is_retried d.status
                then (if ltb d.rpc_retry_times max_retry
                    then again (resend d)
                    else fires (record d { status = of_code code_aborted }))
                else fires d))
    unfolding retry_or_fire
    of_prewrite p h = rw (sym h) refl

    -- After a request the call ends, or goes on with one more.
    go_on-Ends :
        (f : Controller → Outcome (Option Controller))
        → (d.rpc_retry_times < max_retry → Returns (f (resend d)) (Ends max_retry (resend d)))
        → Returns (go_on f (retry_or_fire max_retry d)) (Ends max_retry c)
    go_on-Ends f k = elim (Bool-cases d.is_prewrite) [
      | inl y ↦ rw (of_prewrite true y) (ended λ p. cc (a.is_prewrite, y, p))
      | inr n ↦ rw (of_prewrite false n) (elim (Bool-cases (is_retried d.status)) [
        | inl t ↦ rw (t) (elim (Bool-cases (ltb d.rpc_retry_times max_retry)) [
          | inl m ↦ rw (m) (
              Returns-map (Ends max_retry (resend d)) (Ends max_retry c) _ Ends-resend
                (k (ground (arith, m))))
          | inr m ↦ rw (m) (record {
            sound = a.sound;
            region = a.region;
            sends = omega (arith, a.sent, a.retries);
            bounded = omega (arith, b, a.retries);
            settled = λ p. unfold is_universal_need_retry_error is_txn_need_retry_error in refl;
            honest = λ z. cc;
          })
        ])
        | inr t ↦ rw (t) (ended λ p. t)
      ])
    ]

  -- A request to a region, with errors that name no place without a host and describe that region
  -- completely where they describe it, on a valid cache whose objects and the region's are older than
  -- the next one and with replicas at valid end points, ends on fuel for one attempt more than the
  -- retries that are left. It fails no CHECK and keeps the cache valid; it sends at most once more
  -- for each retry, of which there are at most the maximum; unless it is a prewrite, the status is not
  -- one that is to be retried; and a status that is OK is what the end point that the region now holds
  -- for its leader answered to the last request that was sent.
  pub do_async_call-Ends :
      (max_retry fuel : ℕ) (c : Controller)
      → FairTo number net c.region
      → Sound c.region c.cache
      → c.rpc_retry_times ≤ max_retry
      → max_retry < fuel + c.rpc_retry_times
      → Returns (do_async_call number net max_retry fuel c) (Ends max_retry c)
  unfolding do_async_call
  do_async_call-Ends max_retry zero c fair s b f = absurd (ground (arith, b, f))
  do_async_call-Ends max_retry (suc fuel) c fair s b f =
      elim (Bool-cases (c.cache.stale c.region.addr)) [
        | inl y ↦ rw (y) (record {
          sound = s;
          region = refl;
          sends = omega arith;
          bounded = b;
          settled = λ p. unfold is_universal_need_retry_error is_txn_need_retry_error in refl;
          honest = λ z. cc;
        })
        | inr n ↦ rw (n) (
            Returns->>= (Attempted number net c) _ (attempt number net c) _
              (attempt-Attempted number net c fair s)
              λ d a. go_on-Ends max_retry c d b a (do_async_call number net max_retry fuel) λ m.
                do_async_call-Ends max_retry fuel (resend d)
                  (subst (FairTo number net) (sym a.region) fair) a.sound m
                  (omega (arith, f, a.retries)))
      ]
