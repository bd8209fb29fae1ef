-- ===== src/Tso/Calls.antt =====
-- src/sdk/transaction/tso.cc: sequences of requests to a provider, and the retries of one.
use dingo_sdk.Base.{
  ℕ, zero, suc, ◌+◌, ◌≤◌, ◌<◌, Bool, true, false, not, ◌&&◌, List, [], ◌∷◌, ltb_yes, ◌≡◌, refl, sym,
  ap, subst, Bool-cases, inl, inr, arith,
}
use dingo_sdk.Outcome.{Outcome, done, ◌>>=◌, Returns, Returns->>=, Returns-both}
use dingo_sdk.Status.{Status, Result, success, failure, ok}
use dingo_sdk.Tso
use dingo_sdk.Tso.Order.{Ascending, Ready, From, Granted, gen_loop-Granted, fetch-Ready, grant_lem}

-- A request, with the time at which it comes.
pub data Call : Type 0 where
  want_ts want_physical : ℕ → ℕ → Call

abbrev pub count_of : Call → ℕ
count_of (want_ts count now_us) = count
count_of (want_physical count now_us) = count

abbrev granted : ℕ → Result ℕ → List (ℕ × ℕ) → List (ℕ × ℕ)
granted count (success ts) l = (ts, count) ∷ l
granted count (failure s) l = l

module _ (server : ℕ → Result Tso.Response) (flags : Tso.Flags) where
  -- The timestamps that a sequence of requests is given, each with its count.
  unfoldable pub grants : List Call → Tso.Provider → Outcome (List (ℕ × ℕ))
  grants [] p = done []
  grants (want_ts count now_us ∷ calls) p = do
    r ← Tso.gen_ts server flags now_us count p
    l ← grants calls r.1
    done (granted count r.0 l)
  grants (want_physical count now_us ∷ calls) p = do
    r ← Tso.gen_physical_ts server flags now_us count p
    grants calls r.1

-- Each timestamp is at least `b`, and not among those that came with one before it.
abbrev pub Ascends : ℕ → List (ℕ × ℕ) → Type 0
Ascends b [] = Unit {0}
Ascends b ((ts, count) ∷ l) = (b ≤ ts) × Ascends (ts + count) l

abbrev pub Asking : List Call → Type 0
Asking [] = Unit {0}
Asking (c ∷ calls) = (0 < count_of c) × Asking calls

abbrev pub IsSuccess : Result ℕ → Type 0
IsSuccess (success ts) = Unit {0}
IsSuccess (failure s) = ⊥

module _ (server : ℕ → Result Tso.Response) (sound : Ascending server) where
  touch-Ready :
      (flags : Tso.Flags) (now_us b : ℕ) (p : Tso.Provider)
      → Ready server b p
      → Ready server b (Tso.touch flags now_us p)
  unfolding Tso.touch
  touch-Ready flags now_us b p r = elim (Bool-cases (Tso.is_stale flags now_us p)) [
    | inl e ↦
        rw (e) (record { within = r.within; fresh = r.fresh; beyond = r.beyond; later = r.later })
    | inr e ↦ rw (e) r
  ]

  gen_ts-Granted :
      (flags : Tso.Flags) (now_us b count : ℕ) (p : Tso.Provider)
      → 0 < count
      → Ready server b p
      → Returns (Tso.gen_ts server flags now_us count p) (Granted server b count)
  unfolding Tso.gen_ts
  gen_ts-Granted flags now_us b count p h r =
      gen_loop-Granted server sound b count h _ _ ok _ (touch-Ready flags now_us b p r)

  grant_physical-Ready :
      (b count : ℕ) (p : Tso.Provider)
      → 0 < count
      → Ready server b p
      → Tso.enough server count p ≡ true
      → Returns (Tso.grant_physical server count p) (λ x. Ready server b x.1)
  unfolding Tso.enough Tso.grant_physical
  grant_physical-Ready b count p h r e =
      let f = r.fresh (ground (arith, e)) in
      rw (ltb_yes _ _ f.1) (record {
        within = ground (arith, e);
        fresh = λ lt. (ground (arith, f), f.1, f.2);
        beyond = λ lt. r.beyond (ground arith);
        later = r.later;
      })

  physical-Ready :
      (b count n : ℕ) (s : Status) (p : Tso.Provider)
      → 0 < count
      → Ready server b p
      → Returns (Tso.gen_physical_loop server n count s p) (λ x. Ready server b x.1)
  unfolding Tso.gen_physical_loop
  physical-Ready b count zero s p h r = r
  physical-Ready b count (suc n) s p h r =
      Returns->>= (λ x. Ready server b x.1) _ (Tso.fetch_tso server p) _
        (fetch-Ready server sound b p r)
        (λ x v. elim (Bool-cases (Tso.enough server count x.1)) [
          | inl e ↦ rw (e) (grant_physical-Ready b count x.1 h v e)
          | inr e ↦ rw (e) (physical-Ready b count n x.0 x.1 h v)
        ])

  refresh-Ready :
      (now_us b : ℕ) (p : Tso.Provider) → Ready server b p → Ready server b (Tso.refresh now_us p)
  unfolding Tso.refresh
  refresh-Ready now_us b p r = record {
    within = ground arith;
    fresh = λ lt. ground arith;
    beyond = λ lt. ground arith;
    later = r.later;
  }

  gen_physical_ts-Ready :
      (flags : Tso.Flags) (now_us b count : ℕ) (p : Tso.Provider)
      → 0 < count
      → Ready server b p
      → Returns (Tso.gen_physical_ts server flags now_us count p) (λ x. Ready server b x.1)
  unfolding Tso.gen_physical_ts
  gen_physical_ts-Ready flags now_us b count p h r =
      physical-Ready b count _ ok _ h (refresh-Ready now_us b p r)

  -- When the replies of the service go up, of requests for one timestamp or more, none fails a CHECK, and
  -- each timestamp that GenTs gives lies after all those given before, with the `count` of that request.
  pub grants-Ascends :
      (flags : Tso.Flags) (calls : List Call) (b : ℕ) (p : Tso.Provider)
      → Asking calls
      → Ready server b p
      → Returns (grants server flags calls p) (Ascends b)
  unfolding grants
  grants-Ascends flags [] b p a r = tt
  grants-Ascends flags (want_ts count now_us ∷ calls) b p a r =
      Returns->>= (Granted server b count) (Ascends b) _ _
        (gen_ts-Granted flags now_us b count p a.0 r)
        (λ x. next (λ b' p' v. grants-Ascends flags calls b' p' a.1 v) x.0 x.1)
    where
      next :
          ((b' : ℕ) (p' : Tso.Provider)
            → Ready server b' p'
            → Returns (grants server flags calls p') (Ascends b'))
          → (o : Result ℕ) (p' : Tso.Provider) → Granted server b count (o, p')
          → Returns (grants server flags calls p' >>= λ l. done (granted count o l)) (Ascends b)
      next rec (success ts) p' g =
          Returns->>= (Ascends (ts + count)) (Ascends b) _ _ (rec (ts + count) p' g.2)
            (λ l h. (g.0, h))
      next rec (failure s) p' g = Returns->>= (Ascends b) (Ascends b) _ _ (rec b p' g) (λ l h. h)
  grants-Ascends flags (want_physical count now_us ∷ calls) b p a r =
      Returns->>= (λ x. Ready server b x.1) (Ascends b) _ _
        (gen_physical_ts-Ready flags now_us b count p a.0 r)
        (λ x g. grants-Ascends flags calls b x.1 a.1 g)

pub new-Ready :
    (server : ℕ → Result Tso.Response)
    → Ascending server
    → (now_us : ℕ) → Ready server 0 (Tso.new now_us)
new-Ready server sound now_us = record {
  within = ground arith;
  fresh = λ lt. ground arith;
  beyond = λ lt. ground arith;
  later = λ n le. sound.each n;
}

module _ (server : ℕ → Result Tso.Response) (sound : Ascending server) (count : ℕ)
    (asked : 0 < count) where
  fetch-counted :
      (p : Tso.Provider)
      → Ready server 0 p
      → Returns (Tso.fetch_tso server p) (λ r. r.1.requests ≡ p.requests + 1)
  unfolding Tso.fetch_tso Tso.store
  fetch-counted p r = go (server p.requests) refl
    where
      ready_of :
          (y : Tso.Response)
          → server p.requests ≡ success y
          → From 0 (success y)
          → Returns (Tso.fetch_tso server p) (λ r. r.1.requests ≡ p.requests + 1)
      ready_of y e f = rw (e, f.1, Tso.fetch_tso) refl

      go :
          (x : Result Tso.Response)
          → server p.requests ≡ x
          → Returns (Tso.fetch_tso server p) (λ r. r.1.requests ≡ p.requests + 1)
      go (failure s) e = rw (e, Tso.fetch_tso) refl
      go (success y) e = ready_of y e (subst (From 0) e (r.later p.requests (ground arith)))

  fetch-enough :
      (p : Tso.Provider) (y : Tso.Response)
      → server p.requests ≡ success y
      → From 0 (success y)
      → count < y.count
      → Returns (Tso.fetch_tso server p) (λ r. Tso.enough server count r.1 ≡ true)
  unfolding Tso.fetch_tso Tso.store Tso.enough
  fetch-enough p y e f more = rw (e, f.1, Tso.fetch_tso) (ground arith)

  grant-succeeds :
      (p : Tso.Provider)
      → Ready server 0 p
      → Tso.enough server count p ≡ true
      → Returns (Tso.grant server count p) (λ r. IsSuccess r.0)
  grant-succeeds p r e = rw (grant_lem server sound 0 count asked p r e) tt

  Fetched : Tso.Provider → Status × Tso.Provider → Type 0
  Fetched p x = Ready server 0 x.1 × (x.1.requests ≡ p.requests + 1)

  gen_loop-succeeds :
      (n k : ℕ) (stale : Bool) (s : Status) (p : Tso.Provider) (y : Tso.Response)
      → Ready server 0 p
      → k + 1 < n
      → server (p.requests + k) ≡ success y
      → count < y.count
      → Returns (Tso.gen_loop server n count stale s p) (λ r. IsSuccess r.0)
  unfolding Tso.gen_loop Fetched
  gen_loop-succeeds zero k stale s p y r lt e more = ground arith
  gen_loop-succeeds (suc zero) zero stale s p y r lt e more = ground arith
  gen_loop-succeeds (suc (suc n)) zero stale s p y r lt e more =
      elim (Bool-cases (Tso.enough server count p && not stale)) [
        | inl g ↦ rw (g, Tso.gen_loop) (grant-succeeds p r (ground (arith, g)))
        | inr g ↦
            rw (g, Tso.gen_loop)
              (Returns->>= (λ x. Ready server 0 x.1 × (Tso.enough server count x.1 ≡ true)) _ _ _
                (Returns-both (λ x. Ready server 0 x.1) (λ x. Tso.enough server count x.1 ≡ true) _
                  (fetch-Ready server sound 0 p r)
                  (fetch-enough p y now (subst (From 0) now (sound.each p.requests)) more))
                (λ x v. rw (v.1, Tso.gen_loop) (grant-succeeds x.1 v.0 v.1)))
      ]
    where
      now : server p.requests ≡ success y
      now = subst (λ i. server i ≡ success y) (ground arith) e
  gen_loop-succeeds (suc n) (suc k) stale s p y r lt e more =
      elim (Bool-cases (Tso.enough server count p && not stale)) [
        | inl g ↦ rw (g, Tso.gen_loop) (grant-succeeds p r (ground (arith, g)))
        | inr g ↦
            rw (g, Tso.gen_loop)
              (Returns->>= (Fetched p) _ _ _
                (Returns-both (λ x. Ready server 0 x.1) (λ x. x.1.requests ≡ p.requests + 1) _
                  (fetch-Ready server sound 0 p r) (fetch-counted p r))
                (λ x v.
                  gen_loop-succeeds n k false x.0 x.1 y v.0 (ground arith)
                    (subst (λ i. server i ≡ success y) (ground (arith, v)) e) more))
      ]

touch-counted :
    (flags : Tso.Flags) (now_us : ℕ) (p : Tso.Provider)
    → (Tso.touch flags now_us p).requests ≡ p.requests
unfolding Tso.touch
touch-counted flags now_us p = elim (Bool-cases (Tso.is_stale flags now_us p)) [
  | inl e ↦ rw (e) refl
  | inr e ↦ rw (e) refl
]

-- When every reply of the service is an error or a batch of timestamps that is well formed and comes
-- after those of the replies before it, and the provider holds nothing that a later reply could contradict:
-- if one of the next FLAGS_txn_op_max_retry replies is OK and has more timestamps than GenTs is asked for,
-- which is one or more, GenTs succeeds.
pub gen_ts-succeeds :
    (server : ℕ → Result Tso.Response)
    → Ascending server
    → (flags : Tso.Flags) (now_us count k : ℕ) (p : Tso.Provider) (y : Tso.Response) → 0 < count
    → Ready server 0 p
    → k < flags.txn_op_max_retry
    → server (p.requests + k) ≡ success y
    → count < y.count
    → Returns (Tso.gen_ts server flags now_us count p) (λ r. IsSuccess r.0)
unfolding Tso.gen_ts
gen_ts-succeeds server sound flags now_us count k p y h r lt e more =
    gen_loop-succeeds server sound count h _ k _ ok _ y
      (touch-Ready server sound flags now_us 0 p r) (ground arith)
      (subst (λ i. server i ≡ success y) (sym (ap (λ i. i + k) (touch-counted flags now_us p))) e)
      more
