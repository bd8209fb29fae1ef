-- ===== src/Tso.antt =====
-- src/sdk/transaction/tso.h and tso.cc: the provider of timestamps, which hands out parts of the
-- batches that it fetches from the server. The replies of the server, by the number of the request,
-- and the times of the clock are arguments.
use dingo_sdk.Base.{
  ℕ, zero, suc, ◌+◌, ◌*◌, ◌-◌, ◌%◌, ◌^◌, Bool, true, false, not, ◌&&◌, Option, none, some,
  if◌then◌else◌, ltb, leb,
}
use dingo_sdk.Outcome.{Outcome, done, aborted, check, check_some, ◌>>=◌, ◌>>◌}
use dingo_sdk.Status.{Status, Result, success, failure, ok, is_ok, of_code, incomplete}
pub mod Order
pub mod Calls

pub record TsoTimestamp : Type 0 where
  pub physical : ℕ
  pub logical : ℕ

-- The fields of the reply that the code reads.
pub record Response : Type 0 where
  pub start_timestamp : Option TsoTimestamp
  pub count : ℕ

pub record Provider : Type 0 where
  pub physical : ℕ
  pub next_logical : ℕ
  pub max_logical : ℕ
  pub last_time_us : ℕ
  pub requests : ℕ

-- A new provider; `requests` counts what the server has been asked.
abbrev pub new : ℕ → Provider
new now_us = record {
  physical = 0;
  next_logical = 0;
  max_logical = 0;
  last_time_us = now_us;
  requests = 0;
}

-- FLAGS_txn_op_max_retry and FLAGS_stale_period_us.
pub record Flags : Type 0 where
  pub txn_op_max_retry : ℕ
  pub stale_period_us : ℕ

-- `Tso2Timestamp`: 64 bits, of which the first is the sign.
unfoldable pub tso2timestamp : TsoTimestamp → ℕ
tso2timestamp t = (t.physical * 2 ^ 18 + t.logical) % 2 ^ 64

-- `Refresh`.
unfoldable pub refresh : ℕ → Provider → Provider
refresh now_us p = record p {
  last_time_us = now_us;
  physical = 0;
  next_logical = 0;
  max_logical = 0;
}

-- `IsStale`.
unfoldable pub is_stale : Flags → ℕ → Provider → Bool
is_stale flags now_us p = ltb (p.last_time_us + flags.stale_period_us) now_us

unfoldable pub touch : Flags → ℕ → Provider → Provider
unfolding is_stale
touch flags now_us p = if is_stale flags now_us p then record p { last_time_us = now_us } else p

-- What `FetchTso` stores. A reply of no timestamps at logical 0 leaves -1 in `max_logical_` and 0
-- here, which the tests below do not tell apart when a caller asks for one or more.
unfoldable pub store : TsoTimestamp → ℕ → Provider → Provider
store tso ts_count p = record p {
  physical = tso.physical;
  next_logical = tso.logical;
  max_logical = (tso.logical + ts_count) - 1;
}

module _ (server : ℕ → Result Response) where
  -- `FetchTso`.
  unfoldable pub fetch_tso : Provider → Outcome (Status × Provider)
  unfolding store
  fetch_tso p =
      let asked = record p { requests = p.requests + 1 } in
      elim (server p.requests) [
        | failure s ↦ done (s, asked)
        | success response ↦ do
          tso ← check_some response.start_timestamp
          done (ok, store tso response.count asked)
      ]

  unfoldable pub enough : ℕ → Provider → Bool
  enough count p = leb (count + p.next_logical) p.max_logical

  -- The status of a call whose tries are used up.
  exhausted : Status → Status
  exhausted status = if is_ok status then of_code incomplete else status

  unfoldable pub grant : ℕ → Provider → Outcome (Result ℕ × Provider)
  grant count p = do
    let ts = tso2timestamp (record { physical = p.physical; logical = p.next_logical })
    check (ltb 0 ts && ltb ts (2 ^ 63))
    done (success ts, record p { next_logical = p.next_logical + count })

  -- The loop of `GenTs`, with the number of passes left.
  unfoldable pub gen_loop : ℕ → ℕ → Bool → Status → Provider → Outcome (Result ℕ × Provider)
  unfolding exhausted grant
  gen_loop zero count stale status p = done (failure (exhausted status), p)
  gen_loop (suc n) count stale status p = elim (enough count p && not stale) [
    | true ↦ grant count p
    | false ↦ fetch_tso p >>= λ r. gen_loop n count false r.0 r.1
  ]

  unfoldable pub gen_ts : Flags → ℕ → ℕ → Provider → Outcome (Result ℕ × Provider)
  gen_ts flags now_us count p =
      gen_loop (suc flags.txn_op_max_retry) count (is_stale flags now_us p) ok
        (touch flags now_us p)

  unfoldable pub grant_physical : ℕ → Provider → Outcome (Result ℕ × Provider)
  grant_physical count p = do
    check (ltb 0 p.physical)
    done (success p.physical, record p { next_logical = p.next_logical + count })

  -- The loop of `GenPhysicalTs`.
  unfoldable pub gen_physical_loop : ℕ → ℕ → Status → Provider → Outcome (Result ℕ × Provider)
  unfolding exhausted grant_physical
  gen_physical_loop zero count status p = done (failure (exhausted status), p)
  gen_physical_loop (suc n) count status p = do
    fetched ← fetch_tso p
    elim (enough count fetched.1) [
      | true ↦ grant_physical count fetched.1
      | false ↦ gen_physical_loop n count fetched.0 fetched.1
    ]

  unfoldable pub gen_physical_ts : Flags → ℕ → ℕ → Provider → Outcome (Result ℕ × Provider)
  gen_physical_ts flags now_us count p =
      gen_physical_loop (suc flags.txn_op_max_retry) count ok (refresh now_us p)
