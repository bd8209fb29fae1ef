-- ===== src/Rpc.antt =====
-- What the two RPC controllers have in common: src/sdk/rpc/rpc.h, the replies that come back, and the
-- error codes that the source names. The generated code gives the codes their numbers.
use dingo_sdk.Base.{ℕ, ◌%◌, ◌^◌, Bool, not, ◌||◌, Option, ◌==◌}
use dingo_sdk.Key.{Key, is_empty}
use dingo_sdk.Outcome.{Outcome, done, aborted, check, ◌>>=◌, ◌>>◌}
use dingo_sdk.Status.{Status}
use dingo_sdk.Region.{EndPoint}
pub mod Coordinator
pub mod Store

-- The names of `pb::error::Errno` that the source uses.
pub data ErrorCode : Type 0 where
  no_error raft_not_leader region_version region_not_found key_out_of_range : ErrorCode
  request_full txn_memory_lock_conflict raft_not_consistent_read raft_commit_log : ErrorCode
  index_not_found vector_index_not_ready raft_not_found region_standby region_new : ErrorCode

pub record Location : Type 0 where
  pub host : Key
  pub port : ℕ

-- The port of an end point has 16 bits.
unfoldable pub location_to_end_point : Location → Outcome EndPoint
location_to_end_point l = do
  check (not (is_empty l.host))
  done (record { host = l.host; port = l.port % 2 ^ 16 })

-- The parts of an `Rpc` that the controllers read and write. `sent` counts the requests that were sent
-- and `sleeps` is `sleep_count`.
pub record Rpc : Type 0 where
  pub end_point : EndPoint
  pub retry_times : ℕ
  pub sent : ℕ
  pub sleeps : ℕ

-- `IsRetryErrorCode`, on the number that a status carries.
unfoldable pub is_retry_error_code : (ErrorCode → ℕ) → ℕ → Bool
is_retry_error_code number errno =
    errno == number region_version
    || errno == number region_not_found
    || errno == number key_out_of_range
    || errno == number vector_index_not_ready
    || errno == number raft_not_found
    || errno == number region_standby
    || errno == number region_new
