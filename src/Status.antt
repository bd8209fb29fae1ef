-- ===== src/Status.antt =====
-- include/dingosdk/status.h: the outcome of an operation, as a code and an error number.
-- The message text, which no code branches on, is left out.
use dingo_sdk.Base.{ℕ, Bool, true, false}
use dingo_sdk.Outcome.{Outcome, done, aborted, Returns}

pub data Code : Type 0 where
  code_ok not_found corruption not_supported invalid_argument io_error already_present : Code
  runtime_error network_error illegal_state not_authorized code_aborted remote_error : Code
  service_unavailable timed_out uninitialized configuration_error incomplete not_leader : Code
  txn_lock_conflict push_min_commit_ts txn_mem_lock_conflict txn_write_conflict : Code
  txn_not_found txn_primary_mismatch txn_rolled_back txn_commit_ts_expired no_leader : Code
  build_failed load_failed reset_failed raft_not_consistent_read raft_commit_log : Code

pub record Status : Type 0 where
  pub code : Code
  pub errno : ℕ

-- `Status::OK()`, and `Status::X(msg)` with no error number.
abbrev pub ok : Status
ok = record { code = code_ok; errno = 0 }

abbrev pub of_code : Code → Status
of_code c = record { code = c; errno = 0 }

-- `status.ok()` and `status.IsOK()`.
abbrev pub code_is_ok : Code → Bool
code_is_ok code_ok = true
code_is_ok _ = false

abbrev pub is_ok : Status → Bool
is_ok s = code_is_ok s.code

-- A function that returns a status, and fills its output arguments when the status is OK.
pub data Result {ℓ} (A : Type ℓ) : Type ℓ where
  success : A → Result A
  failure : Status → Result A

abbrev pub status_of {ℓ} : {A : Type ℓ} → Result A → Status
status_of (success a) = ok
status_of (failure s) = s

-- A call that changes a state `S`: what it returns, and the state afterwards.
abbrev pub Answer {ℓ κ} : Type ℓ → Type κ → Type (ℓ ⊔ κ)
Answer S A = Outcome (Result A × S)

-- `DINGO_RETURN_NOT_OK`: an error is returned at once.
abbrev pub and_then {ℓ κ} :
    {S : Type ℓ} {A B : Type κ} → Answer S A → (A → S → Answer S B) → Answer S B
and_then aborted f = aborted
and_then (done (failure s, state)) f = done (failure s, state)
and_then (done (success a, state)) f = f a state

abbrev pub HoldsOf {ℓ κ} :
    {S : Type ℓ} {A : Type κ} → (S → Type 0) → (A → S → Type 0) → Result A × S → Type 0
HoldsOf E P (failure s, state) = E state
HoldsOf E P (success a, state) = P a state

-- The rule for `and_then`: `E` holds of the state after an error.
pub Returns-and_then {ℓ κ} :
    {S : Type ℓ} {A B : Type κ} (E : S → Type 0) (P : A → S → Type 0) (Q : B → S → Type 0)
    (o : Answer S A) (f : A → S → Answer S B)
    → Returns o (HoldsOf E P)
    → ((a : A) (s : S) → P a s → Returns (f a s) (HoldsOf E Q))
    → Returns (and_then o f) (HoldsOf E Q)
Returns-and_then E P Q (done (success a, s)) f h k = k a s h
Returns-and_then E P Q (done (failure e, s)) f h k = h
Returns-and_then E P Q aborted f h k = h
