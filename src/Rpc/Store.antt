-- ===== src/Rpc/Store.antt =====
-- src/sdk/rpc/store_rpc_controller.h and store_rpc_controller.cc: a request to the leader of a region,
-- sent again while the store or the region's leader does not take it.
use dingo_sdk.Base.{
  ℕ, zero, suc, Bool, true, false, not, ◌||◌, List, [], ◌∷◌, Option, none, some, if◌then◌else◌, ltb,
  ◌==◌, ◌&&◌,
}
use dingo_sdk.Key.{key_leb}
use dingo_sdk.Outcome.{Outcome, done, aborted, check, check_some, ◌>>=◌, ◌>>◌}
use dingo_sdk.Status.{
  Status, Code, is_ok, ok, of_code, network_error, not_leader, no_leader, remote_error, incomplete,
  code_aborted, txn_mem_lock_conflict, raft_not_consistent_read, raft_commit_log,
}
use dingo_sdk.Region.{
  EndPoint, is_valid, RegionPtr, Replica, follower, RegionType, region_none, region_store, Epoch,
  Roles, mark_leader, mark_follower, get_leader, update,
}
use dingo_sdk.MetaCache.{Cache, clear_region, maybe_add_region}
use dingo_sdk.MetaCache.Coordinator.{Range, create}
use dingo_sdk.Rpc
use dingo_sdk.Rpc.{ErrorCode, Location, location_to_end_point, Rpc}
pub mod Sound
pub mod Lookup
pub mod Attempt
pub mod Ends

pub record StoreRegionInfo : Type 0 where
  pub region_id : ℕ
  pub current_region_epoch : Option Epoch
  pub current_range : Option Range
  pub peers : List (Option Location)

pub record Error : Type 0 where
  pub errcode : ℕ
  pub leader_location : Option Location
  pub store_region_info : Option StoreRegionInfo

-- What comes back: the status of the transport and the error of the response.
pub record Reply : Type 0 where
  pub status : Status
  pub error : Error

-- The controller, its request, and the cache of regions that it shares. `is_prewrite` is the test of
-- the method's name.
pub record Controller : Type 0 where
  pub cache : Cache
  pub rpc : Rpc
  pub is_prewrite : Bool
  pub region : RegionPtr
  pub rpc_retry_times : ℕ
  pub status : Status

-- `ResetRegion`, whose test of the epochs only logs.
unfoldable pub reset_region : RegionPtr → Controller → Controller
reset_region r c = record c { region = r }

abbrev is_network_error : Code → Bool
is_network_error network_error = true
is_network_error _ = false

abbrev is_remote_error : Code → Bool
is_remote_error remote_error = true
is_remote_error _ = false

abbrev is_lost_leader : Code → Bool
is_lost_leader not_leader = true
is_lost_leader no_leader = true
is_lost_leader _ = false

abbrev is_raft_error : Code → Bool
is_raft_error raft_not_consistent_read = true
is_raft_error raft_commit_log = true
is_raft_error _ = false

unfoldable pub is_universal_need_retry_error : Code → Bool
is_universal_need_retry_error c =
    is_network_error c || is_remote_error c || is_lost_leader c || is_raft_error c

unfoldable pub is_txn_need_retry_error : Code → Bool
is_txn_need_retry_error txn_mem_lock_conflict = true
is_txn_need_retry_error _ = false

unfoldable pub need_delay : Code → Bool
need_delay c =
    is_remote_error c || is_txn_need_retry_error c || is_network_error c || is_lost_leader c

unfoldable pub need_pick_leader : Controller → Bool
need_pick_leader c =
    not (is_valid c.rpc.end_point) || is_network_error c.status.code || is_lost_leader c.status.code

abbrev pub roles_of : RegionPtr → Cache → Roles
roles_of r c = c.roles r.addr

unfoldable pub set_roles : RegionPtr → Roles → Cache → Cache
set_roles r x c = record c { memory = record c.memory { roles = update c.roles r.addr x } }

unfoldable pub prepare_rpc : Controller → Outcome Controller
prepare_rpc c =
    if need_pick_leader c
    then (do
      picked ← get_leader (roles_of c.region c.cache)
      check (is_valid picked.0)
      done (record c {
        cache = set_roles c.region picked.1 c.cache;
        rpc = record c.rpc { end_point = picked.0 };
      }))
    else done c

-- `SendStoreRpc`, up to the call of the transport.
unfoldable pub send_store_rpc : Controller → Controller
send_store_rpc c = record c {
  rpc = record c.rpc {
    sent = suc c.rpc.sent;
    sleeps = if need_delay c.status.code then suc c.rpc.sleeps else c.rpc.sleeps;
  };
}

-- The replicas of a region are followers at the places of its peers.
unfoldable pub replicas_at : List (Option Location) → Outcome (List Replica)
replicas_at [] = done []
replicas_at (p ∷ ps) = do
  l ← check_some p
  e ← location_to_end_point l
  check (is_valid e)
  rest ← replicas_at ps
  done (record { end_point = e; role = follower } ∷ rest)

-- The type after `RegionTypeToPBRegionType` and back.
region_type_again : RegionType → RegionType
region_type_again region_none = region_store
region_type_again t = t

unfoldable pub process_store_region_info :
    StoreRegionInfo → RegionPtr → Cache → Outcome (RegionPtr × Cache)
unfolding region_type_again
process_store_region_info info old c = do
  epoch ← check_some info.current_region_epoch
  range ← check_some info.current_range
  check (info.region_id == old.region_id)
  replicas ← replicas_at info.peers
  let made =
      create
        (record {
          region_id = info.region_id;
          start_key = range.start_key;
          end_key = range.end_key;
          epoch = epoch;
          region_type = region_type_again old.region_type;
        })
        replicas c
  picked ← get_leader (roles_of old made.1)
  let told = set_roles old picked.1 made.1
  done (made.0, set_roles made.0 (mark_leader picked.0 (roles_of made.0 told)) told)

-- The region that the error describes is put into the cache, unless its range is empty.
unfoldable pub learn_region : Option StoreRegionInfo → RegionPtr → Cache → Outcome Cache
learn_region none old c = done c
learn_region (some info) old c = do
  made ← process_store_region_info info old c
  let r = made.0
  if key_leb r.end_key r.start_key then done made.1 else maybe_add_region r made.1

unfoldable pub not_leader_at : ℕ → Option Location → RegionPtr → Cache → Outcome (Status × Cache)
not_leader_at errno none r c = done (record { code = no_leader; errno = errno }, c)
not_leader_at errno (some l) r c = do
  e ← location_to_end_point l
  done (
      if is_valid e
      then (
        record { code = not_leader; errno = errno },
        set_roles r (mark_leader e (roles_of r c)) c,
      )
      else (record { code = no_leader; errno = errno }, c))

module _ (number : ErrorCode → ℕ) where
  abbrev is_cleared : ℕ → Bool
  is_cleared errno = errno == number Rpc.region_not_found || errno == number Rpc.key_out_of_range

  -- The status of an error that leaves the cache as it is.
  unfoldable pub status_for : ℕ → Status
  status_for errno =
      if errno == number Rpc.request_full
      then record { code = remote_error; errno = errno }
      else (if errno == number Rpc.txn_memory_lock_conflict
          then record { code = txn_mem_lock_conflict; errno = errno }
          else (if errno == number Rpc.raft_not_consistent_read
              then record { code = raft_not_consistent_read; errno = errno }
              else (if errno == number Rpc.raft_commit_log
                  then record { code = raft_commit_log; errno = errno }
                  else record { code = incomplete; errno = errno })))

  -- What the error in the store's answer does; the store was marked as the leader before.
  unfoldable pub on_error : Error → EndPoint → RegionPtr → Cache → Outcome (Status × Cache)
  on_error err e r c =
      let errno = err.errcode in
      if errno == number Rpc.no_error
      then done (ok, c)
      else (if errno == number Rpc.raft_not_leader
          then not_leader_at errno err.leader_location r
              (set_roles r (mark_follower e (roles_of r c)) c)
          else (if errno == number Rpc.region_version
              then (do
                cleared ← clear_region r c
                learned ← learn_region err.store_region_info r cleared
                done (record { code = incomplete; errno = errno }, learned))
              else (if is_cleared errno
                  then (do
                    cleared ← clear_region r c
                    done (record { code = incomplete; errno = errno }, cleared))
                  else done (status_for errno, c))))

  -- `SendStoreRpcCallBack`, up to its last call.
  unfoldable pub send_store_rpc_call_back : Reply → Controller → Outcome Controller
  send_store_rpc_call_back reply c =
      let e = c.rpc.end_point in
      if is_ok reply.status
      then (do
        answered ←
            on_error reply.error e c.region
              (set_roles c.region (mark_leader e (roles_of c.region c.cache)) c.cache)
        done (record c { status = answered.0; cache = answered.1 }))
      else done (record c {
        status = reply.status;
        cache = set_roles c.region (mark_follower e (roles_of c.region c.cache)) c.cache;
      })

  -- One request: `PrepareRpc`, `SendStoreRpc` and the call back. `net` says what comes back from an end
  -- point for the n-th request.
  unfoldable pub attempt : (ℕ → EndPoint → Reply) → Controller → Outcome Controller
  attempt net c = do
    p ← prepare_rpc c
    let s = send_store_rpc p
    send_store_rpc_call_back (net p.rpc.sent p.rpc.end_point) s

-- What `RetrySendRpcOrFireCallback` does: send again, or give the status to the caller.
pub data Next : Type 0 where
  again fires : Controller → Next

abbrev pub resend : Controller → Controller
resend c = record c {
  rpc_retry_times = suc c.rpc_retry_times;
  rpc = record c.rpc { retry_times = suc c.rpc.retry_times };
}

abbrev pub is_retried : Status → Bool
is_retried s =
    not (is_ok s) && (is_universal_need_retry_error s.code || is_txn_need_retry_error s.code)

unfoldable pub retry_or_fire : ℕ → Controller → Next
retry_or_fire max_retry c =
    if c.is_prewrite
    then fires c
    else (if is_retried c.status
        then (if ltb c.rpc_retry_times max_retry
            then again (resend c)
            else fires (record c { status = of_code code_aborted }))
        else fires c)

abbrev pub go_on : (Controller → Outcome (Option Controller)) → Next → Outcome (Option Controller)
go_on f (again c) = f c
go_on f (fires c) = done (some c)

-- `PreCheck`: the status of a region that the cache has given up.
abbrev pub stale_region : (ErrorCode → ℕ) → Controller → Controller
stale_region number c = record c {
  status = record { code = incomplete; errno = number Rpc.region_version };
}

-- `DoAsyncCall`, on fuel: `none` is out of fuel.
unfoldable pub do_async_call :
    (ErrorCode → ℕ) → (ℕ → EndPoint → Reply) → ℕ → ℕ → Controller → Outcome (Option Controller)
do_async_call number net max_retry zero c = done none
do_async_call number net max_retry (suc fuel) c =
    if c.cache.stale c.region.addr
    then done (some (stale_region number c))
    else attempt number net c >>= λ d.
        go_on (do_async_call number net max_retry fuel) (retry_or_fire max_retry d)
