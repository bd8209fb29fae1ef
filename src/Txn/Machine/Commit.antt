-- ===== src/Txn/Machine/Commit.antt =====
-- src/sdk/transaction/txn_impl.cc: the second phase of a commit, with the jobs that end it, and the
-- heartbeat.
use dingo_sdk.Base.{
  ℕ, zero, suc, ◌+◌, ◌-◌, Bool, true, false, not, ◌&&◌, ◌||◌, List, [], ◌∷◌, ltb, ◌==◌,
}
use dingo_sdk.Key.{Key}
use dingo_sdk.Outcome.{Outcome, done, check, ◌>>=◌, ◌>>◌}
use dingo_sdk.Status.{Status, Code, Result, success, failure, ok, of_code, is_ok, illegal_state}
use dingo_sdk.Txn.Buffer
use dingo_sdk.Txn.Buffer.{is_nil}
use dingo_sdk.Txn.Machine.{
  pre_committing, pre_committed, committing, committed, finished, state_is, Env, Flags, Txn, commit,
  commit_keys, heart_beat, send, called, schedule, set_state, cleanup,
}
use dingo_sdk.Txn.Machine.PreCommit.{mutations, ordinary, keys_of, do_pre_commit}

abbrev pub is_expired : Status → Bool
is_expired s = elim s.code [ Code.txn_commit_ts_expired ↦ true | _ ↦ false ]

-- What one pass of the loop of `CommitPrimaryKey` leaves: a result, or another pass to make.
pub data Pass : Type 0 where
  ends repeats : Status → Txn → Pass

abbrev pub result : Pass → Status × Txn
result (ends s t) = (s, t)
result (repeats s t) = (s, t)

-- While the commit timestamp is too old, the pass takes another.
unfoldable pub commit_pass : Env → List Key → Txn → Pass
commit_pass env keys t =
    let status = env.committed_by t.calls in
    let sent = send (commit keys t.commit_ts true) t in
    elim (is_expired status) [
      | false ↦ ends status sent
      | true ↦ elim (env.gen_ts sent.calls) [
        | failure s ↦ ends s (called sent)
        | success ts ↦ repeats status (record sent { calls = sent.calls + 1; commit_ts = ts })
      ]
    ]

-- The loop, with the number of passes left after the next one.
unfoldable pub commit_loop : Env → ℕ → List Key → Txn → Status × Txn
unfolding commit_pass
commit_loop env zero keys t = result (commit_pass env keys t)
commit_loop env (suc n) keys t = elim (commit_pass env keys t) [
  | ends s u ↦ (s, u)
  | repeats s u ↦ commit_loop env n keys u
]

unfoldable pub commit_primary_key : Env → Flags → Txn → Outcome (Status × Txn)
unfolding commit_loop
commit_primary_key env flags t = do
  primary ← Buffer.get_primary_key t.buffer
  done (commit_loop env (flags.txn_op_max_retry - 1) (primary ∷ []) t)

-- The status of these two is OK.
unfoldable pub commit_ordinary_key : Txn → Outcome Txn
commit_ordinary_key t = do
  primary ← Buffer.get_primary_key t.buffer
  done (schedule (commit_keys (keys_of (ordinary primary t))) t)

unfoldable pub async_commit_keys : Txn → Txn
async_commit_keys t = schedule (commit_keys (keys_of (mutations t))) t

-- `DoCommitKeys`: the job, and the callback of its task.
unfoldable pub do_commit_keys : List Key → Txn → Outcome Txn
do_commit_keys keys t = do
  check (state_is t.state committed)
  done (send (commit keys t.commit_ts false) t)

unfoldable pub keys_done : Txn → Outcome Txn
keys_done t = cleanup (set_state finished t)

-- The part of `DoCommit` after its tests: which commit timestamp it takes.
unfoldable pub take_commit_ts : Env → Txn → Result (Unit {0}) × Txn
take_commit_ts env t = elim (t.commit_ts == 0) [
  | false ↦ (success tt, t)
  | true ↦ elim (env.gen_ts t.calls) [
    | success ts ↦ (success tt, record t { calls = t.calls + 1; commit_ts = ts })
    | failure s ↦ (failure s, called t)
  ]
]

-- How `DoCommit` ends when the primary key has been sent.
unfoldable pub primary_sent : Status × Txn → Outcome (Status × Txn)
unfolding commit_ordinary_key
primary_sent (s, t) = elim (is_ok s) [
  | false ↦ done (s, set_state pre_committed t)
  | true ↦ do u ← commit_ordinary_key (set_state committed t); done (ok, u)
]

unfoldable pub commit_at : Env → Flags → Txn → Outcome (Status × Txn)
unfolding async_commit_keys commit_primary_key primary_sent
commit_at env flags t = do
  check (ltb t.start_ts t.commit_ts)
  elim t.use_async_commit [
    | true ↦ done (ok, async_commit_keys (set_state committed t))
    | false ↦ commit_primary_key env flags t >>= primary_sent
  ]

unfoldable pub timed : Env → Flags → Result (Unit {0}) × Txn → Outcome (Status × Txn)
unfolding commit_at
timed env flags (failure s, u) = done (s, u)
timed env flags (success x, u) = commit_at env flags u

unfoldable pub commit_phase : Env → Flags → Txn → Outcome (Status × Txn)
unfolding take_commit_ts timed
commit_phase env flags t = do
  check (not t.use_async_commit || ltb 0 t.commit_ts)
  timed env flags (take_commit_ts env t)

unfoldable pub do_commit : Env → Flags → Txn → Outcome (Status × Txn)
unfolding commit_phase
do_commit env flags t = elim (state_is t.state committed || state_is t.state finished) [
  | true ↦ done (ok, set_state finished t)
  | false ↦ elim (state_is t.state pre_committed) [
    | false ↦ done (of_code illegal_state, t)
    | true ↦ do
      check (not (is_nil t.buffer.mutation_map))
      commit_phase env flags (set_state committing t)
  ]
]

-- What `PreWriteAndCommit` does after the first phase.
unfoldable pub second_phase : Env → Flags → Status × Txn → Outcome (Status × Txn)
unfolding do_commit
second_phase env flags (s, t) = elim (is_ok s) [
  | false ↦ done (s, t)
  | true ↦ elim t.is_one_pc [ true ↦ done (ok, t) | false ↦ do_commit env flags t ]
]

unfoldable pub pre_write_and_commit : Env → Flags → Txn → Outcome (Status × Txn)
unfolding second_phase
pre_write_and_commit env flags t = do_pre_commit env flags t >>= second_phase env flags

-- `ScheduleHeartBeat`, and whether `DoHeartBeat` sends a heartbeat.
unfoldable pub schedule_heart_beat : Txn → Outcome Txn
schedule_heart_beat t = do
  primary ← Buffer.get_primary_key t.buffer
  done (schedule (heart_beat t.start_ts primary) t)

unfoldable pub beats : Txn → Bool
beats t =
    (state_is t.state pre_committing
      || (not t.use_async_commit
          && (state_is t.state pre_committed || state_is t.state committing)))
