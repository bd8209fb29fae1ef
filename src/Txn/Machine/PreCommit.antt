-- ===== src/Txn/Machine/PreCommit.antt =====
-- src/sdk/transaction/txn_impl.cc: the first phase of a commit.
use dingo_sdk.Base.{
  ℕ, Bool, true, false, not, ◌&&◌, ◌||◌, List, [], ◌∷◌, map, if◌then◌else◌, ltb, leb, ◌==◌, max,
  keep,
}
use dingo_sdk.Key.{Key, key_eqb}
use dingo_sdk.OrdMap
use dingo_sdk.Outcome.{Outcome, done, check, check_some, ◌>>=◌, ◌>>◌}
use dingo_sdk.Status.{Status, Code, Result, success, failure, ok, of_code, is_ok, illegal_state}
use dingo_sdk.Txn.Buffer
use dingo_sdk.Txn.Buffer.{Buffer, Mutation, is_nil}
use dingo_sdk.Txn.Machine.{
  active, pre_committing, pre_committed, finished, state_is, Env, Flags, Txn, Prewritten, prewrite,
  send, called, set_state, cleanup,
}

abbrev pub mutations : Txn → List Mutation
mutations t = Buffer.values t.buffer.mutation_map

abbrev pub keys_of : List Mutation → List Key
keys_of = map (λ m. m.key)

-- `buffer_->Mutations()` without the entry of the key.
unfoldable pub ordinary : Key → Txn → List Mutation
ordinary primary t = map (λ e. e.1) (keep (λ e. not (key_eqb e.0 primary)) t.buffer.mutation_map)

-- A prewrite task: the request is recorded, and the answer read.
abbrev pub run_prewrite :
    Env → Key → List Mutation → List Key → Bool → Bool → Txn → Prewritten × Txn
run_prewrite env primary ms others one_pc async_commit t =
    (env.prewritten t.calls, send (prewrite primary ms others one_pc async_commit) t)

unfoldable pub update_async_commit_ts : ℕ → Txn → Outcome Txn
update_async_commit_ts min_commit_ts t = do
  check (ltb 0 min_commit_ts)
  done (record t { commit_ts = max min_commit_ts t.commit_ts })

-- What follows a prewrite that succeeded.
unfoldable pub take_async : Prewritten → Txn → Outcome Txn
unfolding update_async_commit_ts
take_async p t = elim p.async_commit [
  | true ↦ update_async_commit_ts p.min_commit_ts t
  | false ↦ done (record t { use_async_commit = false })
]

-- How a phase of prewrites ends, after its last task.
unfoldable pub end_prewrite : Prewritten → Txn → Outcome (Status × Txn)
unfolding take_async
end_prewrite p t = elim (is_ok p.status) [
  | false ↦ done (p.status, t)
  | true ↦ take_async p t >>= λ u. done (ok, u)
]

unfoldable pub pre_commit_2pc_sequential : Env → Txn → Outcome (Status × Txn)
unfolding ordinary take_async end_prewrite
pre_commit_2pc_sequential env t = do
  primary ← Buffer.get_primary_key t.buffer
  m ← check_some (OrdMap.find primary t.buffer.mutation_map)
  let others = ordinary primary t
  let first = run_prewrite env primary (m ∷ []) (keys_of others) false t.use_async_commit t
  elim (is_ok first.0.status) [
    | false ↦ done (first.0.status, first.1)
    | true ↦ do
      t1 ← take_async first.0 first.1
      let second =
          run_prewrite env primary others (keys_of others) first.0.one_pc first.0.async_commit t1
      end_prewrite second.0 second.1
  ]

unfoldable pub pre_commit_2pc_concurrent : Env → Txn → Outcome (Status × Txn)
unfolding ordinary end_prewrite
pre_commit_2pc_concurrent env t = do
  primary ← Buffer.get_primary_key t.buffer
  let others = if t.use_async_commit then keys_of (ordinary primary t) else []
  let all = run_prewrite env primary (mutations t) others false t.use_async_commit t
  end_prewrite all.0 all.1

unfoldable pub pre_commit_2pc : Env → Txn → Outcome (Status × Txn)
unfolding pre_commit_2pc_sequential pre_commit_2pc_concurrent
pre_commit_2pc env t = do
  check (not t.is_one_pc)
  elim t.use_concurrent_precommit [
    | true ↦ pre_commit_2pc_concurrent env t
    | false ↦ pre_commit_2pc_sequential env t
  ]

abbrev pub is_invalid_argument : Status → Bool
is_invalid_argument s = elim s.code [ Code.invalid_argument ↦ true | _ ↦ false ]

-- Whether the servers did not commit in one phase.
abbrev pub downgrades : Prewritten → Bool
downgrades p = not p.one_pc && (is_ok p.status || is_invalid_argument p.status)

-- The servers may refuse to commit in one phase: it goes on in two then.
unfoldable pub pre_commit_1pc : Env → Txn → Outcome (Status × Txn)
unfolding pre_commit_2pc
pre_commit_1pc env t = do
  check t.is_one_pc
  primary ← Buffer.get_primary_key t.buffer
  let r = run_prewrite env primary (mutations t) [] true false t
  elim (downgrades r.0) [
    | true ↦ pre_commit_2pc env (record r.1 { is_one_pc = false; use_async_commit = false })
    | false ↦ done (r.0.status, r.1)
  ]

unfoldable pub add_region : ℕ → Result (List ℕ) → Result (List ℕ)
add_region region_id (success ids) = success (region_id ∷ ids)
add_region region_id (failure s) = failure s

-- The loop that looks up the region of each key.
unfoldable pub regions_of : Env → List Mutation → Txn → Result (List ℕ) × Txn
unfolding add_region
regions_of env [] t = (success [], t)
regions_of env (m ∷ ms) t =
    let rest = regions_of env ms (called t) in
    elim (env.region_of t.calls m.key) [
      | failure s ↦ (failure s, called t)
      | success region_id ↦ (add_region region_id rest.0, rest.1)
    ]

-- `region_ids.size() == 1` for the set of these.
unfoldable pub one_region : List ℕ → Bool
one_region [] = false
one_region (i ∷ []) = true
one_region (i ∷ j ∷ ids) = i == j && one_region (j ∷ ids)

-- The part of `DoPreCommit` after the lookups.
unfoldable pub choose : Flags → List ℕ → Txn → Txn
unfolding one_region
choose flags ids t =
    let size = Buffer.mutations_size t.buffer in
    record t {
      is_one_pc = one_region ids && leb size flags.txn_max_batch_count;
      use_async_commit = ltb size flags.txn_max_async_commit_count && flags.enable_txn_async_commit;
      use_concurrent_precommit = flags.enable_txn_concurrent_prewrite;
    }

-- What `DoPreCommit` does at its end.
unfoldable pub settle : Status × Txn → Outcome (Status × Txn)
settle (s, t) = elim (is_ok s) [
  | false ↦ done (s, t)
  | true ↦ elim t.is_one_pc [
    | true ↦ do u ← cleanup (set_state finished t); done (ok, u)
    | false ↦ done (ok, set_state pre_committed t)
  ]
]

unfoldable pub run_phase : Env → Txn → Outcome (Status × Txn)
unfolding pre_commit_1pc settle
run_phase env t = elim t.is_one_pc [
  | true ↦ pre_commit_1pc env t >>= settle
  | false ↦ pre_commit_2pc env t >>= settle
]

unfoldable pub looked_up : Env → Flags → Result (List ℕ) × Txn → Outcome (Status × Txn)
unfolding choose run_phase
looked_up env flags (failure s, t) = done (s, t)
looked_up env flags (success ids, t) = run_phase env (choose flags ids t)

unfoldable pub prewrite_all : Env → Flags → Txn → Outcome (Status × Txn)
unfolding regions_of looked_up
prewrite_all env flags t = looked_up env flags (regions_of env (mutations t) t)

unfoldable pub do_pre_commit : Env → Flags → Txn → Outcome (Status × Txn)
unfolding prewrite_all
do_pre_commit env flags t = elim (state_is t.state pre_committed) [
  | true ↦ done (ok, t)
  | false ↦ elim (state_is t.state active) [
    | false ↦ done (of_code illegal_state, t)
    | true ↦ elim (is_nil t.buffer.mutation_map) [
      | true ↦ do u ← cleanup (record t { state = finished; is_one_pc = true }); done (ok, u)
      | false ↦ do
        primary ← Buffer.get_primary_key t.buffer
        m ← check_some (OrdMap.find primary t.buffer.mutation_map)
        prewrite_all env flags (set_state pre_committing t)
    ]
  ]
]
