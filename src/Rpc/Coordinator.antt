-- ===== src/Rpc/Coordinator.antt =====
-- src/sdk/rpc/coordinator_rpc_controller.cc and src/sdk/meta_member_info.cc: a request to the
-- coordinators, sent again until one of them answers.
use dingo_sdk.Base.{
  ℕ, zero, suc, ◌+◌, ◌%◌, ◌^◌, Bool, true, false, not, ◌&&◌, ◌||◌, List, [], ◌∷◌, ◌++◌, Option,
  none, some, if◌then◌else◌, ltb, ◌==◌, get_elem?, length,
}
use dingo_sdk.Outcome.{Outcome, done, aborted, check, check_some, ◌>>=◌, ◌>>◌}
use dingo_sdk.Status.{
  Status, Code, is_ok, ok, of_code, network_error, not_leader, no_leader, remote_error, not_found,
  incomplete, code_aborted, invalid_argument,
}
use dingo_sdk.Region.{EndPoint, no_end_point, is_valid, end_point_eqb}
use dingo_sdk.Rpc.{
  ErrorCode, no_error, raft_not_leader, region_not_found, index_not_found, Location,
  location_to_end_point, Rpc,
}
pub mod Members
pub mod Ends
pub mod Turns

-- `next_` has 64 bits, and no value is given to it before its first use.
pub record MetaMemberInfo : Type 0 where
  pub leader : EndPoint
  pub members : List EndPoint
  pub next : ℕ

-- The member whose turn it is; with no member the source divides by zero.
pub next_member : MetaMemberInfo → Outcome EndPoint
next_member i = do
  check (ltb 0 (length i.members))
  check_some (get_elem? i.members (i.next % length i.members))

unfoldable pub pick_next_leader : MetaMemberInfo → Outcome (EndPoint × MetaMemberInfo)
unfolding next_member
pick_next_leader i =
    if is_valid i.leader
    then done (i.leader, i)
    else (do e ← next_member i; done (e, record i { next = (i.next + 1) % 2 ^ 64 }))

unfoldable pub is_leader : EndPoint → MetaMemberInfo → Bool
is_leader e i = if is_valid i.leader then end_point_eqb i.leader e else false

pub is_member : EndPoint → List EndPoint → Bool
is_member e [] = false
is_member e (x ∷ xs) = if end_point_eqb x e then true else is_member e xs

pub with_member : EndPoint → List EndPoint → List EndPoint
unfolding is_member
with_member e xs = if is_member e xs then xs else xs ++ (e ∷ [])

unfoldable pub mark_leader : EndPoint → MetaMemberInfo → Outcome MetaMemberInfo
unfolding with_member
mark_leader e i = do
  check (is_valid e)
  done (if is_leader e i then i else record i { leader = e; members = with_member e i.members })

unfoldable pub mark_follower : EndPoint → MetaMemberInfo → Outcome MetaMemberInfo
unfolding with_member
mark_follower e i = do
  check (is_valid e)
  done (record i {
    leader = if end_point_eqb i.leader e then no_end_point else i.leader;
    members = with_member e i.members;
  })

-- What comes back: the status of the transport and the error of the response.
pub record Error : Type 0 where
  pub errcode : ℕ
  pub leader_location : Option Location

pub record Reply : Type 0 where
  pub status : Status
  pub error : Error

pub record Controller : Type 0 where
  pub meta_member_info : MetaMemberInfo
  pub status : Status

-- The controller and the request that it works on.
pub record Calling : Type 0 where
  pub controller : Controller
  pub open controller use *
  pub rpc : Rpc

-- `Open`.
unfoldable pub open_controller : List EndPoint → Controller → Status × Controller
open_controller [] c = (of_code invalid_argument, c)
open_controller (e ∷ es) c =
    (ok, record c { meta_member_info = record c.meta_member_info { members = e ∷ es } })

-- `IsNetworkError() || IsNotLeader()`.
abbrev pub is_retried : Code → Bool
is_retried network_error = true
is_retried not_leader = true
is_retried _ = false

abbrev is_no_leader : Code → Bool
is_no_leader no_leader = true
is_no_leader _ = false

abbrev is_remote_error : Code → Bool
is_remote_error remote_error = true
is_remote_error _ = false

unfoldable pub need_pick_leader : Calling → Bool
need_pick_leader c =
    not (is_valid c.rpc.end_point) || is_retried c.status.code || is_no_leader c.status.code

unfoldable pub prepare_rpc : Calling → Outcome Calling
prepare_rpc c =
    if need_pick_leader c
    then (do
      picked ← pick_next_leader c.meta_member_info
      check (is_valid picked.0)
      done (record c {
        controller = record c.controller { meta_member_info = picked.1 };
        rpc = record c.rpc { end_point = picked.0 };
      }))
    else done c

unfoldable pub need_delay : Calling → Bool
need_delay c =
    is_remote_error c.status.code || is_no_leader c.status.code || is_retried c.status.code

-- `SendCoordinatorRpc`, up to the call of the transport.
unfoldable pub send_coordinator_rpc : Calling → Calling
send_coordinator_rpc c = record c {
  rpc = record c.rpc {
    sent = suc c.rpc.sent;
    sleeps = if need_delay c then suc c.rpc.sleeps else c.rpc.sleeps;
  };
}

-- `meta_member_info_.MarkLeader` at the place that the error names, if it is valid.
unfoldable pub follow_location : Option Location → MetaMemberInfo → Outcome MetaMemberInfo
follow_location none i = done i
follow_location (some l) i = do
  e ← location_to_end_point l
  if is_valid e then mark_leader e i else done i

module _ (number : ErrorCode → ℕ) where
  -- `Status::X(error.errcode(), error.errmsg())` for an error other than OK and ERAFT_NOTLEADER.
  unfoldable pub status_for : ℕ → Status
  status_for e =
      if e == number region_not_found || e == number index_not_found
      then record { code = not_found; errno = e }
      else record { code = incomplete; errno = e }

  -- What the error in the end point's answer does; the end point was marked as the leader before.
  unfoldable pub on_error : Error → EndPoint → MetaMemberInfo → Outcome Controller
  on_error err e i =
      if err.errcode == number no_error
      then done (record { meta_member_info = i; status = ok })
      else (if err.errcode == number raft_not_leader
          then (do
            j ← mark_follower e i
            k ← follow_location err.leader_location j
            done (record {
              meta_member_info = k;
              status = record { code = not_leader; errno = err.errcode };
            }))
          else done (record { meta_member_info = i; status = status_for err.errcode }))

  -- `SendCoordinatorRpcCallBack`, up to its last call.
  unfoldable pub send_coordinator_rpc_call_back : Reply → Calling → Outcome Calling
  send_coordinator_rpc_call_back reply c =
      if is_ok reply.status
      then (do
        i ← mark_leader c.rpc.end_point c.meta_member_info
        k ← on_error reply.error c.rpc.end_point i
        done (record c { controller = k }))
      else (do
        i ← mark_follower c.rpc.end_point c.meta_member_info
        done (record c { controller = record { meta_member_info = i; status = reply.status } }))

  -- One request: `PrepareRpc`, `SendCoordinatorRpc` and the call back. `net` says what comes back
  -- from an end point for the n-th request.
  unfoldable pub attempt : (ℕ → EndPoint → Reply) → Calling → Outcome Calling
  attempt net c = do
    p ← prepare_rpc c
    let s = send_coordinator_rpc p
    send_coordinator_rpc_call_back (net p.rpc.sent p.rpc.end_point) s

-- What `RetrySendRpcOrFireCallback` does: send again, or give the status to the caller.
pub data Next : Type 0 where
  again fires : Calling → Next

-- `rpc.IncRetryTimes()`.
abbrev pub resend : Calling → Calling
resend c = record c { rpc = record c.rpc { retry_times = suc c.rpc.retry_times } }

unfoldable pub retry_or_fire : ℕ → Calling → Next
retry_or_fire max_retry c =
    if is_ok c.status
    then fires c
    else (if is_retried c.status.code
        then (if ltb c.rpc.retry_times max_retry
            then again (resend c)
            else fires
                (record c { controller = record c.controller { status = of_code code_aborted } }))
        else fires c)

abbrev pub go_on : (Calling → Outcome (Option Calling)) → Next → Outcome (Option Calling)
go_on f (again c) = f c
go_on f (fires c) = done (some c)

-- `DoAsyncCall`, on fuel: `none` is out of fuel.
unfoldable pub do_async_call :
    (ErrorCode → ℕ) → (ℕ → EndPoint → Reply) → ℕ → ℕ → Calling → Outcome (Option Calling)
do_async_call number net max_retry zero c = done none
do_async_call number net max_retry (suc fuel) c = attempt number net c >>= λ d.
    go_on (do_async_call number net max_retry fuel) (retry_or_fire max_retry d)
