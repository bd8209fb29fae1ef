-- ===== src/Txn/Machine/Prewrites.antt =====
-- src/sdk/transaction/txn_impl.cc: what the prewrites of a transaction keep.
use dingo_sdk.Base.{
  ℕ, ◌<◌, max, Bool, true, false, List, some, ltb, ◌≡◌, ◌⊎◌, inl, inr, refl, sym, subst, ap, ◌∙◌,
  [], ◌∷◌, ◌+◌, map, keep, not, All, Bool-cases, arith,
}
use dingo_sdk.Key.{Key, key_eqb, is_empty}
use dingo_sdk.OrdMap
use dingo_sdk.Outcome.{done, Returns, Returns->>=}
use dingo_sdk.Status.{Status, is_ok}
use dingo_sdk.Txn.Buffer
use dingo_sdk.Txn.Buffer.{Buffer, Mutation, is_nil, values}
use dingo_sdk.Txn.Machine.{active, pre_committing, Env, Txn, Request, send, prewrite}
use dingo_sdk.Txn.Machine.PreCommit.{
  mutations, ordinary, take_async, update_async_commit_ts, pre_commit_1pc, pre_commit_2pc,
  pre_commit_2pc_concurrent, pre_commit_2pc_sequential, end_prewrite, downgrades,
}
use dingo_sdk.Txn.Machine.Ends.{Late, primary_lem}

-- A transaction that has writes and is to be committed.
pub record Written (t : Txn) : Type 0 where
  pub is_active : t.state ≡ active
  pub has_mutations : is_nil t.buffer.mutation_map ≡ false
  pub has_primary : is_empty t.buffer.primary_key ≡ false
  pub primary : Mutation
  pub primary_there : OrdMap.find t.buffer.primary_key t.buffer.mutation_map ≡ some primary
  pub untimed : t.commit_ts ≡ 0
  pub requests : All (Late t.start_ts) t.sent

-- The servers that accept an asynchronous commit name a timestamp after the start.
abbrev pub NamesLater : Env → Txn → Type 0
NamesLater env t =
    (n : ℕ) → (env.prewritten n).async_commit ≡ true → t.start_ts < (env.prewritten n).min_commit_ts

-- What holds of the transaction from the first prewrite on.
pub record Under (t u : Txn) : Type 0 where
  pub start : u.start_ts ≡ t.start_ts
  pub same_buffer : u.buffer ≡ t.buffer
  pub is_state : u.state ≡ pre_committing
  pub timed : (u.commit_ts ≡ 0) ⊎ (t.start_ts < u.commit_ts)
  pub requests : All (Late t.start_ts) u.sent

abbrev pub AsyncTimed : Txn → Txn → Type 0
AsyncTimed t u = u.use_async_commit ≡ true → t.start_ts < u.commit_ts

-- No request was sent between the two.
pub record SameSent (u w : Txn) : Type 0 where
  pub sent : w.sent ≡ u.sent
  pub calls : w.calls ≡ u.calls
  pub one_pc : w.is_one_pc ≡ u.is_one_pc

module _ (env : Env) (t : Txn) (names : NamesLater env t) where
  pub take_async-AsyncTimed :
      (n : ℕ) (u : Txn)
      → Under t u
      → Returns (take_async (env.prewritten n) u) (λ w. Under t w × AsyncTimed t w × SameSent u w)
  unfolding take_async update_async_commit_ts
  take_async-AsyncTimed n u v = elim (Bool-cases (env.prewritten n).async_commit) [
    | inl e ↦
        let later : t.start_ts < (env.prewritten n).min_commit_ts = names n e in
        let above : ltb 0 (env.prewritten n).min_commit_ts ≡ true = ground (arith, later) in
        let most : t.start_ts < max (env.prewritten n).min_commit_ts u.commit_ts =
          omega (arith, later) in
        rw (e, take_async, above)
          (
            record {
              start = v.start;
              same_buffer = v.same_buffer;
              is_state = v.is_state;
              timed = inr most;
              requests = v.requests;
            },
            λ x. most,
            record { sent = refl; calls = refl; one_pc = refl },
          )
    | inr e ↦
        rw (e, take_async)
          (
            record {
              start = v.start;
              same_buffer = v.same_buffer;
              is_state = v.is_state;
              timed = v.timed;
              requests = v.requests;
            },
            λ x. absurd (ground (arith, x)),
            record { sent = refl; calls = refl; one_pc = refl },
          )
  ]

abbrev pub PrewriteOk : Env → ℕ → Type 0
PrewriteOk env n = is_ok (env.prewritten n).status ≡ true

-- The last request is a prewrite in one phase of all mutations, and servers have committed it so.
pub record OneSent (env : Env) (t u : Txn) : Type 0 where
  pub call : ℕ
  pub before : List Request
  pub last_sent : u.sent ≡ prewrite t.buffer.primary_key (mutations t) [] true false ∷ before
  pub last_call : u.calls ≡ call + 1
  pub answer : PrewriteOk env call
  pub in_one : (env.prewritten call).one_pc ≡ true

-- All mutations are prewritten: in the last request, or in the last two of which the first is for the
-- primary key. Each was answered with OK.
pub data AllSent (env : Env) (t u : Txn) : Type 0 where
  together :
      (n : ℕ) (ks : List Key) (b : Bool) (before : List Request)
      → u.sent ≡ prewrite t.buffer.primary_key (mutations t) ks false b ∷ before
      → u.calls ≡ n + 1
      → PrewriteOk env n
      → AllSent env t u
  apart :
      (n : ℕ) (m : Mutation) (ks : List Key) (a b c : Bool) (before : List Request)
      → OrdMap.find t.buffer.primary_key t.buffer.mutation_map ≡ some m
      → u.sent
        ≡ prewrite t.buffer.primary_key (ordinary t.buffer.primary_key t) ks a b
          ∷ prewrite t.buffer.primary_key (m ∷ []) ks false c
          ∷ before
      → u.calls ≡ n + 2
      → PrewriteOk env n
      → PrewriteOk env (n + 1)
      → AllSent env t u

-- What prewrites that succeed leave: the transaction goes on in two phases, with a commit timestamp when
-- it commits asynchronously, or it is committed.
pub data Phase (env : Env) (t u : Txn) : Type 0 where
  in_two : u.is_one_pc ≡ false → AsyncTimed t u → AllSent env t u → Phase env t u
  in_one : u.is_one_pc ≡ true → OneSent env t u → Phase env t u

abbrev pub Sent : Env → Txn → Status × Txn → Type 0
Sent env t r = Under t r.1 × (is_ok r.0 ≡ true → Phase env t r.1)

relabel :
    (k : Key) (ms ns : List Mutation) (ks : List Key) (a b : Bool) (rest more : List Request)
    → ms ≡ ns
    → rest ≡ more
    → (prewrite k ms ks a b ∷ rest) ≡ (prewrite k ns ks a b ∷ more)
relabel k ms ns ks a b rest more h e = cc (h, e)

Under-send :
    (t u : Txn) (k : Key) (ms : List Mutation) (ks : List Key) (a b : Bool)
    → Under t u
    → Under t (send (prewrite k ms ks a b) u)
Under-send t u k ms ks a b v = record {
  start = v.start;
  same_buffer = v.same_buffer;
  is_state = v.is_state;
  timed = v.timed;
  requests = (tt, v.requests);
}

module _ (env : Env) (t : Txn) (names : NamesLater env t) (w : Written t) where
  primary_of : (u : Txn) → Under t u → Buffer.get_primary_key u.buffer ≡ done t.buffer.primary_key
  primary_of u v =
      subst (λ b. Buffer.get_primary_key b ≡ done t.buffer.primary_key) (sym v.same_buffer)
        (primary_lem t.buffer w.has_primary)

  found_in :
      (u : Txn)
      → Under t u
      → OrdMap.find t.buffer.primary_key u.buffer.mutation_map ≡ some w.primary
  found_in u v =
      subst (λ (b : Buffer). OrdMap.find t.buffer.primary_key b.mutation_map ≡ some w.primary)
        (sym v.same_buffer) w.primary_there

  same_mutations : (u : Txn) → Under t u → mutations u ≡ mutations t
  same_mutations u v = ap (λ (b : Buffer). values b.mutation_map) v.same_buffer

  same_ordinary :
      (u : Txn) → Under t u → ordinary t.buffer.primary_key u ≡ ordinary t.buffer.primary_key t
  unfolding ordinary
  same_ordinary u v =
      ap
        (λ (b : Buffer).
          map (λ (e : Key × Mutation). e.1)
            (keep (λ e. not (key_eqb e.0 t.buffer.primary_key)) b.mutation_map))
        v.same_buffer

  -- The end of a phase, when all is sent if the last request is answered with OK.
  end_prewrite-Sent :
      (n : ℕ) (u : Txn)
      → Under t u
      → u.is_one_pc ≡ false
      → (PrewriteOk env n → (x : Txn) → SameSent u x → AllSent env t x)
      → Returns (end_prewrite (env.prewritten n) u) (Sent env t)
  unfolding end_prewrite
  end_prewrite-Sent n u v o a = elim (Bool-cases (is_ok (env.prewritten n).status)) [
    | inl e ↦
        rw (e, end_prewrite)
          (Returns->>= (λ x. Under t x × AsyncTimed t x × SameSent u x) (Sent env t) _ _
            (take_async-AsyncTimed env t names n u v)
            λ x h. (h.0, λ y. in_two (h.2.one_pc ∙ o) h.1 (a e x h.2)))
    | inr e ↦ rw (e, end_prewrite) (v, λ y. absurd (ground (arith, y, e)))
  ]

  concurrent-Sent :
      (u : Txn)
      → u.is_one_pc ≡ false
      → Under t u
      → Returns (pre_commit_2pc_concurrent env u) (Sent env t)
  unfolding pre_commit_2pc_concurrent
  concurrent-Sent u o v =
      rw (primary_of u v, pre_commit_2pc_concurrent)
        (end_prewrite-Sent u.calls _ (Under-send t u _ _ _ _ _ v) o λ y x s.
          together u.calls _ _ u.sent (s.sent ∙ relabel _ _ _ _ _ _ _ _ (same_mutations u v) refl)
            s.calls y)

  sequential-Sent :
      (u : Txn)
      → u.is_one_pc ≡ false
      → Under t u
      → Returns (pre_commit_2pc_sequential env u) (Sent env t)
  unfolding pre_commit_2pc_sequential
  sequential-Sent u o v = elim (Bool-cases (is_ok (env.prewritten u.calls).status)) [
    | inl e ↦
        rw (primary_of u v, found_in u v, e, pre_commit_2pc_sequential)
          (Returns->>= (λ x. Under t x × AsyncTimed t x × SameSent _ x) (Sent env t) _ _
            (take_async-AsyncTimed env t names u.calls _ (Under-send t u _ _ _ _ _ v))
            (λ x h.
              end_prewrite-Sent x.calls _ (Under-send t x _ _ _ _ _ h.0) (h.2.one_pc ∙ o) λ y z s.
                apart u.calls w.primary _ _ _ _ u.sent w.primary_there
                  (s.sent ∙ relabel _ _ _ _ _ _ _ _ (same_ordinary u v) h.2.sent)
                  (omega (arith, s.calls, h.2.calls)) e (subst (PrewriteOk env) h.2.calls y)))
    | inr e ↦
        rw (primary_of u v, found_in u v, e, pre_commit_2pc_sequential)
          (Under-send t u _ _ _ _ _ v, λ a. absurd (ground (arith, a, e)))
  ]

  pub pre_commit_2pc-Sent :
      (u : Txn) → u.is_one_pc ≡ false → Under t u → Returns (pre_commit_2pc env u) (Sent env t)
  unfolding pre_commit_2pc
  pre_commit_2pc-Sent u o v = elim (Bool-cases u.use_concurrent_precommit) [
    | inl e ↦ rw (o, e, pre_commit_2pc) (concurrent-Sent u o v)
    | inr e ↦ rw (o, e, pre_commit_2pc) (sequential-Sent u o v)
  ]

  pub pre_commit_1pc-Sent :
      (u : Txn) → u.is_one_pc ≡ true → Under t u → Returns (pre_commit_1pc env u) (Sent env t)
  unfolding pre_commit_1pc
  pre_commit_1pc-Sent u o v = elim (Bool-cases (downgrades (env.prewritten u.calls))) [
    | inl e ↦
        rw (o, primary_of u v, e, pre_commit_1pc)
          (pre_commit_2pc-Sent _ refl (record {
            start = v.start;
            same_buffer = v.same_buffer;
            is_state = v.is_state;
            timed = v.timed;
            requests = (tt, v.requests);
          }))
    | inr e ↦
        rw (o, primary_of u v, e, pre_commit_1pc)
          (
            Under-send t u _ _ _ _ _ v,
            λ y. in_one o (record {
              call = u.calls;
              before = u.sent;
              last_sent =
                  ap (λ ms. prewrite t.buffer.primary_key ms [] true false ∷ u.sent)
                    (same_mutations u v);
              last_call = refl;
              answer = y;
              in_one = ground (arith, e, y);
            }),
          )
  ]
