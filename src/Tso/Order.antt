-- ===== src/Tso/Order.antt =====
-- src/sdk/transaction/tso.cc: the timestamps that a provider grants go up, whatever requests of the
-- two kinds are mixed and whichever requests to the server fail.
use dingo_sdk.Base.{
  ℕ, zero, suc, ◌+◌, ◌*◌, ◌-◌, ◌^◌, ◌≤◌, ◌<◌, Bool, true, false, not, ◌&&◌, some, none, ltb_yes,
  ◌≡◌, refl, sym, subst, Bool-cases, inl, inr, arith,
}
use dingo_sdk.Outcome.{done, Returns, Returns->>=}
use dingo_sdk.Status.{Status, Result, success, failure}
use dingo_sdk.Tso

abbrev pub packed : ℕ → ℕ → ℕ
packed physical logical = physical * 2 ^ 18 + logical

-- A reply grants timestamps of a positive physical time, from `b` on, that fit in 63 bits.
abbrev pub From : ℕ → Result Tso.Response → Type 0
From b (failure s) = Unit {0}
From b (success r) =
    (t : Tso.TsoTimestamp) × (r.start_timestamp ≡ some t)
    × (b ≤ packed t.physical t.logical)
    × (0 < t.physical)
    × (0 < r.count)
    × (packed t.physical t.logical + r.count < 2 ^ 63)

-- The timestamp after the last one that a reply grants.
abbrev pub end_of : Result Tso.Response → ℕ
end_of (failure s) = 0
end_of (success r) = elim r.start_timestamp [
  | none ↦ 0
  | some t ↦ packed t.physical t.logical + r.count
]

-- What the service promises: a later reply grants later timestamps.
pub record Ascending (server : ℕ → Result Tso.Response) : Type 0 where
  pub each : (n : ℕ) → From 0 (server n)
  pub after : (n m : ℕ) → n < m → From (end_of (server n)) (server m)

-- The timestamps below `b` have been granted, and the provider will grant none of them.
pub record Ready (server : ℕ → Result Tso.Response) (b : ℕ) (p : Tso.Provider) : Type 0 where
  pub within : p.next_logical ≤ p.max_logical
  pub fresh :
      p.next_logical < p.max_logical
      → (b ≤ packed p.physical p.next_logical)
        × (0 < p.physical)
        × (packed p.physical p.max_logical < 2 ^ 63)
  pub beyond :
      p.next_logical < p.max_logical
      → (n : ℕ) → p.requests ≤ n
      → From (packed p.physical p.max_logical) (server n)
  pub later : (n : ℕ) → p.requests ≤ n → From b (server n)

pub From_le : (a b : ℕ) (r : Result Tso.Response) → a ≤ b → From b r → From a r
From_le a b (failure s) h f = f
From_le a b (success r) h f = (f.0, f.1, ground (arith, f.2), f.3, f.4, f.5)

tso2timestamp_lem :
    (physical logical : ℕ)
    → packed physical logical < 2 ^ 63
    → Tso.tso2timestamp (record { physical = physical; logical = logical })
      ≡ packed physical logical
unfolding Tso.tso2timestamp
tso2timestamp_lem physical logical h = omega arith

-- What a reply stores is ready.
store-Ready :
    (server : ℕ → Result Tso.Response) (sound : Ascending server) (b : ℕ) (p : Tso.Provider)
    → Ready server b p
    → (y : Tso.Response) → server p.requests ≡ success y
    → (t : Tso.TsoTimestamp) → y.start_timestamp ≡ some t
    → (b ≤ packed t.physical t.logical)
    → (0 < t.physical)
    → (0 < y.count)
    → (packed t.physical t.logical + y.count < 2 ^ 63)
    → Ready server b (record p {
      requests = p.requests + 1;
      physical = t.physical;
      next_logical = t.logical;
      max_logical = (t.logical + y.count) - 1;
    })
store-Ready server sound b p r y e t h low pos some_ fits = record {
  within = ground arith;
  fresh = λ lt. (low, pos, ground arith);
  beyond = λ lt n le.
      From_le _ (end_of (server p.requests)) (server n)
        (subst (λ x. packed t.physical ((t.logical + y.count) - 1) ≤ end_of x) (sym e)
          (rw (h) (ground arith)))
        (sound.after p.requests n (ground arith));
  later = λ n le. r.later n (ground arith);
}

module _ (server : ℕ → Result Tso.Response) (sound : Ascending server) (b : ℕ) where
  pub fetch-Ready :
      (p : Tso.Provider)
      → Ready server b p
      → Returns (Tso.fetch_tso server p) (λ r. Ready server b r.1)
  unfolding Tso.fetch_tso Tso.store
  fetch-Ready p r = go (server p.requests) refl
    where
      ready_of :
          (y : Tso.Response)
          → server p.requests ≡ success y
          → From b (success y)
          → Returns (Tso.fetch_tso server p) (λ r. Ready server b r.1)
      ready_of y e f =
          rw (e, f.1, Tso.fetch_tso) (store-Ready server sound b p r y e f.0 f.1 f.2 f.3 f.4 f.5)

      go :
          (x : Result Tso.Response)
          → server p.requests ≡ x
          → Returns (Tso.fetch_tso server p) (λ r. Ready server b r.1)
      go (failure s) e =
          rw (e, Tso.fetch_tso)
            (record {
              within = r.within;
              fresh = r.fresh;
              beyond = λ lt n le. r.beyond lt n (ground arith);
              later = λ n le. r.later n (ground arith);
            })
      go (success y) e = ready_of y e (subst (From b) e (r.later p.requests (ground arith)))

-- What a call gives: a timestamp after those granted before, with the next `count` its own.
abbrev pub Granted : (ℕ → Result Tso.Response) → ℕ → ℕ → Result ℕ × Tso.Provider → Type 0
Granted server b count (failure s, p) = Ready server b p
Granted server b count (success ts, p) = (b ≤ ts) × (0 < ts) × Ready server (ts + count) p

module _ (server : ℕ → Result Tso.Response) (sound : Ascending server) (b : ℕ) (count : ℕ)
    (asked : 0 < count) where
  -- With enough left, the grant is made.
  pub grant_lem :
      (p : Tso.Provider)
      → Ready server b p
      → Tso.enough server count p ≡ true
      → Tso.grant server count p
        ≡ done (
          success (packed p.physical p.next_logical),
          record p { next_logical = p.next_logical + count },
        )
  unfolding Tso.enough Tso.grant
  grant_lem p r e =
      let f = r.fresh (ground (arith, e)) in
      let above : 0 < packed p.physical p.next_logical = ground (arith, f) in
      let below : packed p.physical p.next_logical < 2 ^ 63 = ground (arith, e, f) in
      rw (tso2timestamp_lem p.physical p.next_logical below, ltb_yes _ _ above, ltb_yes _ _ below)
        refl

  grant-Granted :
      (p : Tso.Provider)
      → Ready server b p
      → Tso.enough server count p ≡ true
      → Returns (Tso.grant server count p) (Granted server b count)
  unfolding Tso.enough
  grant-Granted p r e =
      let top : p.next_logical + count ≤ p.max_logical = ground (arith, e) in
      let f = r.fresh (ground arith) in
      rw (grant_lem p r e) (
        f.0,
        ground (arith, f),
        record {
          within = top;
          fresh = λ lt. (ground arith, f.1, f.2);
          beyond = λ lt. r.beyond (ground arith);
          later = λ n le. From_le _ _ (server n) (ground arith) (r.beyond (ground arith) n le);
        },
      )

  pub gen_loop-Granted :
      (n : ℕ) (stale : Bool) (s : Status) (p : Tso.Provider)
      → Ready server b p
      → Returns (Tso.gen_loop server n count stale s p) (Granted server b count)
  unfolding Tso.gen_loop
  gen_loop-Granted zero stale s p r = r
  gen_loop-Granted (suc n) stale s p r =
      elim (Bool-cases (Tso.enough server count p && not stale)) [
        | inl e ↦ rw (e, Tso.gen_loop) (grant-Granted p r (ground (arith, e)))
        | inr e ↦
            rw (e, Tso.gen_loop)
              (Returns->>= (λ x. Ready server b x.1) _ (Tso.fetch_tso server p) _
                (fetch-Ready server sound b p r) (λ x v. gen_loop-Granted n false x.0 x.1 v))
      ]
