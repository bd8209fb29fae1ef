-- ===== src/RawKv/Single.antt =====
-- src/sdk/rawkv: the tasks on one key (raw_kv_put_task.cc, raw_kv_get_task.cc, raw_kv_delete_task.cc,
-- raw_kv_put_if_absent_task.cc and raw_kv_compare_and_set_task.cc). They differ in the request that
-- they fill and in what they keep of the response: a task has a `call`, and the response of a region to
-- a request is an argument.
use dingo_sdk.Base.{
  ℕ, suc, ◌+◌, Bool, true, false, List, [], ◌∷◌, Option, none, some, if◌then◌else◌,
}
use dingo_sdk.Key.{Key, is_empty}
use dingo_sdk.Outcome.{Outcome, done, aborted, check_some, ◌>>=◌, ◌>>◌}
use dingo_sdk.Status.{Status, Result, success, failure, is_ok, ok}
use dingo_sdk.Region.{RegionPtr, EndPoint}
use dingo_sdk.MetaCache.{Cache}
use dingo_sdk.MetaCache.Coordinator.{ScanRegionInfo, lookup_region_by_key}
use dingo_sdk.Rpc.{ErrorCode}
use dingo_sdk.Rpc.Store.{Controller, Reply, reset_region, do_async_call}
use dingo_sdk.RawKv.{Task, async_run}
pub mod Served

-- The fields of the request, without its context.
pub data Call : Type 0 where
  kv_get kv_delete : Key → Call
  kv_put kv_put_if_absent : Key → Key → Call
  kv_compare_and_set : Key → Key → Key → Call

abbrev pub key_of : Call → Key
key_of (kv_get key) = key
key_of (kv_delete key) = key
key_of (kv_put key value) = key
key_of (kv_put_if_absent key value) = key
key_of (kv_compare_and_set key value expected) = key

-- What the response has beside its error.
pub record Response : Type 0 where
  pub value : Key
  pub key_state : Bool

-- The task's own state. `out_value` and `out_state` are the caller's variables, and `lookups` counts the
-- requests for the task's region.
pub record Single : Type 0 where
  pub call : Call
  pub controller : Controller
  pub lookups : ℕ
  pub result : Key
  pub out_value : Key
  pub out_state : Bool

-- What is around the client: the coordinator's reply to the n-th lookup; what comes back from an end
-- point for the n-th request to a region, and the rest of its response; and the numbers of the flags.
pub record World : Type 0 where
  pub number : ErrorCode → ℕ
  pub coordinator : ℕ → Key → Result (List ScanRegionInfo)
  pub net : RegionPtr → ℕ → EndPoint → Reply
  pub response : RegionPtr → ℕ → Call → Response
  pub store_rpc_max_retry : ℕ
  pub raw_kv_max_retry : ℕ

-- What the call back of a call takes from an OK response.
unfoldable pub take_response : Call → Response → Single → Single
take_response (kv_get key) r t = record t { result = r.value }
take_response (kv_delete key) r t = t
take_response (kv_put key value) r t = t
take_response (kv_put_if_absent key value) r t = record t { out_state = r.key_state }
take_response (kv_compare_and_set key value expected) r t = record t { out_state = r.key_state }

-- The call backs of the controller, up to `DoAsyncDone`.
unfoldable pub rpc_callback : World → Single → Outcome (Status × Single)
rpc_callback w t =
    let c = t.controller in
    done (
      c.status,
      if is_ok c.status then take_response t.call (w.response c.region c.rpc.sent t.call) t else t,
    )

-- `ResetRegion` and `AsyncCall`, on fuel for one attempt more than the retries.
unfoldable pub call_region : World → RegionPtr → Single → Outcome (Status × Single)
call_region w region t = do
  ended ←
      do_async_call w.number (w.net region) w.store_rpc_max_retry (suc w.store_rpc_max_retry)
        (reset_region region t.controller)
  c ← check_some ended
  rpc_callback w (record t { controller = c })

-- `DoAsync`.
unfoldable pub do_async : World → Single → Outcome (Status × Single)
do_async w t = do
  found ←
      lookup_region_by_key (key_of t.call) (w.coordinator t.lookups (key_of t.call))
        t.controller.cache
  let looked = record t {
    lookups = suc t.lookups;
    controller = record t.controller { cache = found.1 };
  }
  elim found.0 [ failure s ↦ done (s, looked) | success region ↦ call_region w region looked ]

-- `PostProcess`: only a value that is not empty reaches the caller.
unfoldable pub post_process : Single → Single
post_process t = if is_empty t.result then t else record t { out_value = t.result; result = [] }

-- `Run`.
abbrev pub finish : Option (Task Single) → Outcome (Status × Single)
finish o = do t ← check_some o; done (t.status, post_process t.inner)

unfoldable pub run_single : World → Single → Outcome (Status × Single)
run_single w t =
    async_run w.number (do_async w) w.raw_kv_max_retry (suc w.raw_kv_max_retry) (ok, t) >>= finish
