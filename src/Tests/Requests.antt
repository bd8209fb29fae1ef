-- ===== src/Tests/Requests.antt =====
-- Requests to two coordinators and to the region of a key, with servers that answer some of them.
use dingo_sdk.Base.{ℕ, zero, suc, true, false, [], ◌∷◌, none, some, refl, arith, if◌then◌else◌}
use dingo_sdk.Key.{key_ltb, key_eqb}
use dingo_sdk.Outcome.{Returns}
use dingo_sdk.Status.{success, ok, of_code, network_error}
use dingo_sdk.Region.{
  RegionPtr, region_store, EndPoint, no_end_point, is_valid, end_point_eqb, follower, new_roles,
  Roles,
}
use dingo_sdk.MetaCache.{Cache}
use dingo_sdk.MetaCache.Calls.{empty_cache, empty_cache-IsValid}
use dingo_sdk.MetaCache.Coordinator.{ScanRegionInfo, lookup_region_by_key, replicas_of}
use dingo_sdk.Rpc
use dingo_sdk.Rpc.{ErrorCode, Rpc}
use dingo_sdk.Rpc.Coordinator
use dingo_sdk.Rpc.Coordinator.Ends.{Settles, do_async_call-Settles}
use dingo_sdk.Rpc.Coordinator.Turns.{Seeks, Answered, do_async_call-Answered}
use dingo_sdk.Rpc.Store
use dingo_sdk.Rpc.Store.Sound.{Kept, Sound}
use dingo_sdk.Rpc.Store.Attempt.{FairTo}
use dingo_sdk.Rpc.Store.Ends.{Ends, do_async_call-Ends}
use dingo_sdk.Rpc.Store.Lookup.{Peers, Gives, lookup_region_by_key-Reachable}
use dingo_sdk.RawKv.Single.{Single, World, kv_put, run_single}
use dingo_sdk.RawKv.Single.Served.{Sane, Finished, run_single-Finished}

abbrev number : ErrorCode → ℕ
number Rpc.no_error = 0
number Rpc.raft_not_leader = 1
number Rpc.region_version = 2
number Rpc.region_not_found = 3
number Rpc.key_out_of_range = 4
number Rpc.request_full = 5
number Rpc.txn_memory_lock_conflict = 6
number Rpc.raft_not_consistent_read = 7
number Rpc.raft_commit_log = 8
number Rpc.index_not_found = 9
number Rpc.vector_index_not_ready = 10
number Rpc.raft_not_found = 11
number Rpc.region_standby = 12
number Rpc.region_new = 13

abbrev first_end_point : EndPoint
first_end_point = record { host = b'a' ∷ []; port = 1 }

abbrev second_end_point : EndPoint
second_end_point = record { host = b'b' ∷ []; port = 2 }

abbrev fresh_rpc : Rpc
fresh_rpc = record { end_point = no_end_point; retry_times = 0; sent = 0; sleeps = 0 }

-- The first coordinator cannot be reached, and the second answers.
abbrev coordinators : ℕ → EndPoint → Coordinator.Reply
coordinators n e = record {
  status = if end_point_eqb e second_end_point then ok else of_code network_error;
  error = record { errcode = 0; leader_location = none };
}

abbrev calling : Coordinator.Calling
calling = record {
  controller = record {
    meta_member_info = record {
      leader = no_end_point;
      members = first_end_point ∷ second_end_point ∷ [];
      next = 0;
    };
    status = ok;
  };
  rpc = fresh_rpc;
}

do_async_call-Settles_example :
    Returns
      (Coordinator.do_async_call number coordinators 3 4 calling)
      (Settles number coordinators 3 calling)
unfolding is_valid
do_async_call-Settles_example =
    do_async_call-Settles number coordinators 3 4 calling (λ n e. tt)
      (omega arith, (refl, (refl, tt))) (omega arith) (omega arith)

calling-Seeks : Seeks calling
unfolding is_valid Coordinator.need_pick_leader
calling-Seeks = record { members = (omega arith, (refl, (refl, tt))); unknown = refl; picks = refl }

do_async_call-Answered_example :
    Returns
      (Coordinator.do_async_call number coordinators 3 2 calling)
      (Answered number coordinators second_end_point 1 calling)
unfolding end_point_eqb key_eqb
do_async_call-Answered_example =
    do_async_call-Answered number coordinators second_end_point (λ n. refl) (λ n x h. rw (h) refl) 3
      1 calling calling-Seeks refl (omega arith) (omega arith)

-- The key a goes to the region [a, c), which has one replica; its store answers.
abbrev one_region : ScanRegionInfo
one_region = record {
  region_id = 1;
  range = some (record { start_key = b'a' ∷ []; end_key = b'c' ∷ [] });
  region_epoch = some (record { version = 1; conf_version = 1 });
  leader_location = none;
  voters = record { host = b'a' ∷ []; port = 1 } ∷ [];
  learners = [];
  region_type = region_store;
}

abbrev one_roles : Roles
one_roles = new_roles (record { end_point = first_end_point; role = follower } ∷ [])

abbrev no_cache : Cache
no_cache = empty_cache (record { next_addr = 1; stale = λ _. false; roles = λ _. one_roles })

no_cache-Kept : Kept no_cache
no_cache-Kept = record { valid = empty_cache-IsValid _; older = tt; stocked = tt }

abbrev region_of_a : RegionPtr
region_of_a = record {
  addr = 0;
  info = record {
    region_id = 1;
    start_key = b'a' ∷ [];
    end_key = b'c' ∷ [];
    epoch = record { version = 1; conf_version = 1 };
    region_type = region_store;
  };
}

region_of_a-Sound : Sound region_of_a no_cache
unfolding new_roles is_valid
region_of_a-Sound = record {
  kept = no_cache-Kept;
  made = omega arith;
  replicas = (omega arith, (refl, tt));
}

-- The store cannot be reached at first.
abbrev stores : RegionPtr → ℕ → EndPoint → Store.Reply
stores r zero e = record {
  status = of_code network_error;
  error = record { errcode = 0; leader_location = none; store_region_info = none };
}
stores r (suc n) e = record {
  status = ok;
  error = record { errcode = 0; leader_location = none; store_region_info = none };
}

stores-FairTo : (r : RegionPtr) → FairTo number (stores r) r
stores-FairTo r zero e = (tt, λ v info h. cc)
stores-FairTo r (suc n) e = (tt, λ v info h. cc)

abbrev controller : Store.Controller
controller = record {
  cache = no_cache;
  rpc = fresh_rpc;
  is_prewrite = false;
  region = region_of_a;
  rpc_retry_times = 0;
  status = ok;
}

do_async_call-Ends_example :
    Returns
      (Store.do_async_call number (stores region_of_a) 3 4 controller)
      (Ends number (stores region_of_a) 3 controller)
do_async_call-Ends_example =
    do_async_call-Ends number (stores region_of_a) 3 4 controller (stores-FairTo region_of_a)
      region_of_a-Sound (omega arith) (omega arith)

one_region-Peers : Peers (success (one_region ∷ []))
unfolding replicas_of is_valid
one_region-Peers = ((omega arith, (refl, tt)), tt)

lookup_region_by_key-Reachable_example :
    Returns
      (lookup_region_by_key (b'a' ∷ []) (success (one_region ∷ [])) no_cache)
      (Gives (b'a' ∷ []))
unfolding key_ltb
lookup_region_by_key-Reachable_example =
    lookup_region_by_key-Reachable (b'a' ∷ []) (success (one_region ∷ [])) no_cache refl
      (_, _, refl, refl, refl, refl) one_region-Peers no_cache-Kept

abbrev world : World
world = record {
  number = number;
  coordinator = λ n key. success (one_region ∷ []);
  net = stores;
  response = λ r n c. record { value = []; key_state = true };
  store_rpc_max_retry = 3;
  raw_kv_max_retry = 2;
}

world-Sane : Sane world (b'a' ∷ [])
unfolding key_ltb
world-Sane = record {
  answers = λ n. (_, _, refl, refl, refl, refl);
  peers = λ n. one_region-Peers;
  fair = stores-FairTo;
}

abbrev put_a : Single
put_a = record {
  call = kv_put (b'a' ∷ []) (b'v' ∷ []);
  controller = controller;
  lookups = 0;
  result = [];
  out_value = [];
  out_state = false;
}

run_single-Finished_example : Returns (run_single world put_a) (Finished world put_a.call)
run_single-Finished_example =
    run_single-Finished world put_a.call put_a world-Sane refl
      (record { same = refl; kept = no_cache-Kept; left = omega arith })
