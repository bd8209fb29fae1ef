-- ===== src/Txn/Machine/Ends.antt =====
-- src/sdk/transaction/txn_impl.cc: how `DoCommit` ends.
use dingo_sdk.Base.{
  ℕ, zero, suc, ◌+◌, ◌-◌, ◌<◌, true, false, not, ◌||◌, List, ◌∷◌, [], ltb, ltb_yes, ◌==◌, ◌≡◌, ◌⊎◌,
  inl, inr, refl, sym, ap, subst, ◌∙◌, All, Bool-cases, arith,
}
use dingo_sdk.Key.{Key, is_empty}
use dingo_sdk.Outcome.{done, Returns}
use dingo_sdk.Status.{Status, Code, code_ok, code_is_ok, Result, success, failure, ok, is_ok}
use dingo_sdk.Txn.Buffer
use dingo_sdk.Txn.Machine.{
  State, pre_committed, committing, committed, Env, Flags, Txn, Request, prewrite, commit,
  batch_rollback, finished, send, set_state, state_is,
}
use dingo_sdk.Txn.Buffer.{is_nil}
use dingo_sdk.Txn.Machine.Commit.{
  is_expired, Pass, ends, repeats, result, commit_pass, commit_loop, commit_primary_key,
  commit_ordinary_key, async_commit_keys, take_commit_ts, primary_sent, timed, commit_at,
  commit_phase, do_commit,
}

-- A commit is asked for at a timestamp after the start.
abbrev pub Late : ℕ → Request → Type 0
Late start_ts (prewrite p ms ks a b) = Unit {0}
Late start_ts (commit keys commit_ts primary) = start_ts < commit_ts
Late start_ts (batch_rollback keys) = Unit {0}

-- What the timestamps of a transaction keep, and the buffer that a commit does not change.
pub record Timely (t u : Txn) : Type 0 where
  pub start : u.start_ts ≡ t.start_ts
  pub later : t.start_ts < u.commit_ts
  pub requests : All (Late t.start_ts) u.sent
  pub same_buffer : u.buffer ≡ t.buffer

-- The timestamps of the provider come after the start of the transaction.
abbrev pub GivesLater : Env → Txn → Type 0
GivesLater env t = (n ts : ℕ) → env.gen_ts n ≡ success ts → t.start_ts < ts

-- What services give with a failure is not OK.
pub record FailsWell (env : Env) : Type 0 where
  pub times : (n : ℕ) (s : Status) → env.gen_ts n ≡ failure s → is_ok s ≡ false
  pub regions : (n : ℕ) (k : Key) (s : Status) → env.region_of n k ≡ failure s → is_ok s ≡ false

-- The last request is the commit of this key at the commit timestamp, and it was answered with OK.
pub record Accepted (env : Env) (primary : Key) (u : Txn) : Type 0 where
  pub call : ℕ
  pub before : List Request
  pub last_sent : u.sent ≡ commit (primary ∷ []) u.commit_ts true ∷ before
  pub last_call : u.calls ≡ call + 1
  pub answer : is_ok (env.committed_by call) ≡ true

abbrev pub after_pass : Pass → Txn
after_pass p = (result p).1

expired_code :
    (c : Code) (n : ℕ) → is_expired (record { code = c; errno = n }) ≡ true → code_is_ok c ≡ false
expired_code code_ok n h = cc
expired_code c n h = refl

expired_fails : (s : Status) → is_expired s ≡ true → is_ok s ≡ false
expired_fails s h = expired_code s.code s.errno h

-- A pass that ends with OK has sent a commit that was accepted, and a pass to be repeated has not.
abbrev PassTaken : Env → Key → Pass → Type 0
PassTaken env k (ends s u) = is_ok s ≡ true → Accepted env k u
PassTaken env k (repeats s u) = is_ok s ≡ false

module _ (env : Env) (w : FailsWell env) (k : Key) where
  commit_pass-PassTaken : (u : Txn) → PassTaken env k (commit_pass env (k ∷ []) u)
  unfolding commit_pass
  commit_pass-PassTaken u = elim (Bool-cases (is_expired (env.committed_by u.calls))) [
    | inl e ↦ renewed e (env.gen_ts (u.calls + 1)) refl
    | inr e ↦
        rw (e, commit_pass)
          λ h. record {
            call = u.calls;
            before = u.sent;
            last_sent = refl;
            last_call = refl;
            answer = h;
          }
  ]
    where
      renewed :
          is_expired (env.committed_by u.calls) ≡ true
          → (r : Result ℕ) → env.gen_ts (u.calls + 1) ≡ r
          → PassTaken env k (commit_pass env (k ∷ []) u)
      renewed e (failure s) h = rw (e, h, commit_pass) λ y. cc (y, w.times (u.calls + 1) s h)
      renewed e (success ts) h = rw (e, h, commit_pass) (expired_fails (env.committed_by u.calls) e)

  commit_loop-Accepted :
      (n : ℕ) (u : Txn)
      → is_ok (commit_loop env n (k ∷ []) u).0 ≡ true
      → Accepted env k (commit_loop env n (k ∷ []) u).1
  unfolding commit_loop
  commit_loop-Accepted zero u h = last (commit_pass env (k ∷ []) u) (commit_pass-PassTaken u) h
    where
      last :
          (p : Pass) → PassTaken env k p → is_ok (result p).0 ≡ true → Accepted env k (result p).1
      last (ends s x) t y = t y
      last (repeats s x) t y = cc (t, y)
  commit_loop-Accepted (suc n) u h =
      step (commit_pass env (k ∷ []) u) (commit_pass-PassTaken u) (commit_loop-Accepted n) h
    where
      step :
          (p : Pass)
          → PassTaken env k p
          → ((x : Txn)
              → is_ok (commit_loop env n (k ∷ []) x).0 ≡ true
              → Accepted env k (commit_loop env n (k ∷ []) x).1)
          → is_ok
              (elim p as (λ _. Status × Txn) [
                | ends s x ↦ (s, x)
                | repeats s x ↦ commit_loop env n (k ∷ []) x
              ]).0
            ≡ true
          → Accepted env k
              (elim p as (λ _. Status × Txn) [
                | ends s x ↦ (s, x)
                | repeats s x ↦ commit_loop env n (k ∷ []) x
              ]).1
      step (ends s x) t rec y = t y
      step (repeats s x) t rec y = rec x y

module _ (env : Env) (t : Txn) (gives : GivesLater env t) where
  sent_late :
      (keys : List Key) (u : Txn) → Timely t u → Timely t (send (commit keys u.commit_ts true) u)
  sent_late keys u v = record {
    start = v.start;
    later = v.later;
    requests = (v.later, v.requests);
    same_buffer = v.same_buffer;
  }

  commit_pass-Timely :
      (keys : List Key) (u : Txn) → Timely t u → Timely t (after_pass (commit_pass env keys u))
  unfolding commit_pass
  commit_pass-Timely keys u v = elim (Bool-cases (is_expired (env.committed_by u.calls))) [
    | inl e ↦ renewed e (env.gen_ts (u.calls + 1)) refl
    | inr e ↦ rw (e, commit_pass) (sent_late keys u v)
  ]
    where
      renewed :
          is_expired (env.committed_by u.calls) ≡ true
          → (r : Result ℕ) → env.gen_ts (u.calls + 1) ≡ r
          → Timely t (after_pass (commit_pass env keys u))
      renewed e (failure s) h =
          rw (e, h, commit_pass)
            (record {
              start = v.start;
              later = v.later;
              requests = (v.later, v.requests);
              same_buffer = v.same_buffer;
            })
      renewed e (success ts) h =
          rw (e, h, commit_pass)
            (record {
              start = v.start;
              later = gives (u.calls + 1) ts h;
              requests = (v.later, v.requests);
              same_buffer = v.same_buffer;
            })

  commit_loop-Timely :
      (n : ℕ) (keys : List Key) (u : Txn) → Timely t u → Timely t (commit_loop env n keys u).1
  unfolding commit_loop
  commit_loop-Timely zero keys u v = commit_pass-Timely keys u v
  commit_loop-Timely (suc n) keys u v =
      go (commit_pass env keys u) refl (commit_pass-Timely keys u v) (commit_loop-Timely n keys)
    where
      go :
          (p : Pass)
          → commit_pass env keys u ≡ p
          → Timely t (after_pass (commit_pass env keys u))
          → ((w : Txn) → Timely t w → Timely t (commit_loop env n keys w).1)
          → Timely t (commit_loop env (suc n) keys u).1
      go (ends s w) e h rec = rw (e, commit_loop) (subst (λ p. Timely t (after_pass p)) e h)
      go (repeats s w) e h rec =
          rw (e, commit_loop) (rec w (subst (λ p. Timely t (after_pass p)) e h))

-- How a call of `DoCommit` may end.
pub data Ended (env : Env) (t : Txn) : Status × Txn → Type 0 where
  -- The commit is decided: the prewrites were for an asynchronous commit, or the primary key has been
  -- committed.
  decides :
      (u : Txn)
      → u.state ≡ committed
      → Timely t u
      → (t.use_async_commit ≡ true) ⊎ Accepted env t.buffer.primary_key u
      → Ended env t (ok, u)
  -- The primary key was refused or its fate is not known: it may be tried or rolled back.
  keeps :
      (s : Status) (u : Txn)
      → is_ok s ≡ false
      → u.state ≡ pre_committed
      → Timely t u
      → Ended env t (s, u)
  -- There was no commit timestamp, and nothing was sent.
  sticks :
      (s : Status) (u : Txn)
      → is_ok s ≡ false
      → u.state ≡ committing
      → u.commit_ts ≡ 0
      → u.sent ≡ t.sent
      → Ended env t (s, u)

-- A transaction that has been prewritten.
pub record Prewritten (t : Txn) : Type 0 where
  pub is_pre_committed : t.state ≡ pre_committed
  pub has_mutations : is_nil t.buffer.mutation_map ≡ false
  pub has_primary : is_empty t.buffer.primary_key ≡ false
  pub timed : (t.commit_ts ≡ 0) ⊎ (t.start_ts < t.commit_ts)
  pub async_timed : t.use_async_commit ≡ true → t.start_ts < t.commit_ts
  pub requests : All (Late t.start_ts) t.sent

pub primary_lem :
    (b : Buffer.Buffer)
    → is_empty b.primary_key ≡ false
    → Buffer.get_primary_key b ≡ done b.primary_key
unfolding Buffer.get_primary_key
primary_lem b h = rw (h) refl

moved : (s : State) (t u : Txn) → Timely t u → Timely t (set_state s u)
moved s t u v = record {
  start = v.start;
  later = v.later;
  requests = v.requests;
  same_buffer = v.same_buffer;
}

module _ (env : Env) (flags : Flags) (t : Txn) (gives : GivesLater env t) (w : FailsWell env)
    (p : Prewritten t) where
  primary_of : (u : Txn) → Timely t u → Buffer.get_primary_key u.buffer ≡ done u.buffer.primary_key
  primary_of u v =
      primary_lem u.buffer
        (subst (λ b. is_empty b.primary_key ≡ false) (sym v.same_buffer) p.has_primary)

  primary_sent-Ended :
      (s : Status) (u : Txn)
      → Timely t u
      → (is_ok s ≡ true → Accepted env t.buffer.primary_key u)
      → Returns (primary_sent (s, u)) (Ended env t)
  unfolding primary_sent commit_ordinary_key
  primary_sent-Ended s u v a = elim (Bool-cases (is_ok s)) [
    | inl e ↦
        let d : Accepted env t.buffer.primary_key u = a e in
        rw (e, primary_sent, primary_of u v)
          (decides _ refl
            (record {
              start = v.start;
              later = v.later;
              requests = v.requests;
              same_buffer = v.same_buffer;
            })
            (inr (record {
              call = d.call;
              before = d.before;
              last_sent = d.last_sent;
              last_call = d.last_call;
              answer = d.answer;
            })))
    | inr e ↦ rw (e, primary_sent) (keeps s _ e refl (moved pre_committed t u v))
  ]

  commit_at-Ended :
      (u : Txn)
      → Timely t u
      → u.use_async_commit ≡ t.use_async_commit
      → Returns (commit_at env flags u) (Ended env t)
  unfolding commit_at async_commit_keys commit_primary_key
  commit_at-Ended u v a = elim (Bool-cases u.use_async_commit) [
    | inl e ↦
        rw (after, e, commit_at)
          (decides _ refl
            (record {
              start = v.start;
              later = v.later;
              requests = v.requests;
              same_buffer = v.same_buffer;
            })
            (inl (sym a ∙ e)))
    | inr e ↦
        rw (after, e, primary_of u v, commit_at)
          (primary_sent-Ended _ _ (commit_loop-Timely env t gives _ _ u v) λ y.
            subst
              (λ (b : Buffer.Buffer).
                Accepted env b.primary_key
                  (commit_loop env (flags.txn_op_max_retry - 1) (u.buffer.primary_key ∷ []) u).1)
              v.same_buffer (commit_loop-Accepted env w u.buffer.primary_key _ u y))
  ]
    where
      after : ltb u.start_ts u.commit_ts ≡ true
      after = ltb_yes _ _ (subst (λ n. n < u.commit_ts) (sym v.start) v.later)

  -- The transaction in `committing`, with its commit timestamp.
  ready : Txn
  ready = set_state committing t

  take_commit_ts-Ended : Returns (timed env flags (take_commit_ts env ready)) (Ended env t)
  unfolding timed take_commit_ts ready
  take_commit_ts-Ended = elim p.timed [
    | inl none_yet ↦ asked none_yet (env.gen_ts t.calls) refl
    | inr later ↦
        rw (known later, take_commit_ts)
          (commit_at-Ended ready
            (record { start = refl; later = later; requests = p.requests; same_buffer = refl })
            refl)
  ]
    where
      known : t.start_ts < t.commit_ts → (t.commit_ts == 0) ≡ false
      known h = ground arith

      unknown : t.commit_ts ≡ 0 → (t.commit_ts == 0) ≡ true
      unknown h = ground arith

      asked :
          t.commit_ts ≡ 0
          → (r : Result ℕ) → env.gen_ts t.calls ≡ r
          → Returns (timed env flags (take_commit_ts env ready)) (Ended env t)
      asked h (failure s) e =
          rw (unknown h, e, timed, take_commit_ts) (sticks s _ (w.times t.calls s e) refl h refl)
      asked h (success ts) e =
          rw (unknown h, e, timed, take_commit_ts)
            (commit_at-Ended _
              (record {
                start = refl;
                later = gives t.calls ts e;
                requests = p.requests;
                same_buffer = refl;
              })
              refl)

  -- DoCommit of a transaction that is prewritten, when the provider's timestamps come after its
  -- start and what services give with a failure is not OK: no CHECK fails and it ends in one of three
  -- ways. It returns OK in state `committed`, with a commit timestamp after the start, and then either the
  -- transaction was prewritten for an asynchronous commit, or the last request was the commit of its primary
  -- key at that timestamp and was answered with OK. Or it returns an error and the state is as before. Or it
  -- returns an error since no timestamp was to be had, and the state stays `committing` with nothing sent.
  -- Every commit request is for a timestamp after the start.
  pub do_commit-Ended : Returns (do_commit env flags t) (Ended env t)
  unfolding do_commit commit_phase ready
  do_commit-Ended =
      rw (undecided, here, p.has_mutations, allowed, do_commit, commit_phase) take_commit_ts-Ended
    where
      undecided : (state_is t.state committed || state_is t.state finished) ≡ false
      undecided = ap (λ s. state_is s committed || state_is s finished) p.is_pre_committed

      here : state_is t.state pre_committed ≡ true
      here = ap (λ s. state_is s pre_committed) p.is_pre_committed

      allowed : (not t.use_async_commit || ltb 0 t.commit_ts) ≡ true
      allowed = elim (Bool-cases t.use_async_commit) [
        | inl e ↦ ground (arith, p.async_timed e)
        | inr e ↦ ground (arith, e)
      ]
