-- ===== src/Tests/Reads.antt =====
-- A read whose first request meets a region that has changed.
use dingo_sdk.Base.{ℕ, zero, suc, true, [], ◌∷◌, none, ◌≡◌, refl, arith}
use dingo_sdk.Key.{Key}
use dingo_sdk.Outcome.{Outcome, done, Returns}
use dingo_sdk.Status.{Status, Result, success, is_ok, ok, incomplete}
use dingo_sdk.Region.{RegionPtr, region_store}
use dingo_sdk.Rpc
use dingo_sdk.Rpc.{ErrorCode, is_retry_error_code}
use dingo_sdk.Txn.Task.{LockInfo, run}
use dingo_sdk.Txn.Get.{GetRequest, GetReply, GetTask, do_async}
use dingo_sdk.Txn.Get.Stuck.{GivesUp, get-GivesUp}

abbrev number : ErrorCode → ℕ
number Rpc.region_version = 2
number _ = 9

abbrev region : RegionPtr
region = record {
  addr = 0;
  info = record {
    region_id = 1;
    start_key = [];
    end_key = b'z' ∷ [];
    epoch = record { version = 1; conf_version = 1 };
    region_type = region_store;
  };
}

-- What is around the task counts the requests.
abbrev look_up : Key → ℕ → Outcome (Result RegionPtr × ℕ)
look_up k n = done (success region, n)

abbrev reply : Status → GetReply
reply s = record { status = s; txn_result = none; value = b'v' ∷ [] }

abbrev changed : Status
changed = record { code = incomplete; errno = 2 }

abbrev store : GetRequest → ℕ → Outcome (GetReply × ℕ)
store q zero = done (reply changed, 1)
store q (suc n) = done (reply ok, suc (suc n))

abbrev resolve_lock : LockInfo → ℕ → ℕ → Outcome (Status × ℕ)
resolve_lock l ts n = done (ok, n)

abbrev reading : GetTask
reading = record { start_ts = 7; key = b'k' ∷ []; value = []; resolved_lock = 0; status = ok }

abbrev Settled : ℕ → Type 0
Settled zero = ⊥
Settled (suc n) = Unit

finds :
    (k : Key) (c : ℕ)
    → Settled c
    → (r : RegionPtr) × (d : ℕ) × (look_up k c ≡ done (success r, d)) × Settled d
finds k c h = (region, c, refl, h)

serves :
    (q : GetRequest) (c : ℕ)
    → Settled c
    → (a : GetReply) × (d : ℕ) × (store q c ≡ done (a, d))
      × (is_ok a.status ≡ true)
      × (a.txn_result ≡ none)
      × Settled d
serves q zero h = absurd h
serves q (suc n) h = (reply ok, suc (suc n), refl, refl, refl, tt)

get-GivesUp_example :
    Returns
      (run number
        (do_async look_up store resolve_lock)
        3
        4
        (record { inner = (reading, 0); status = ok; retry_count = 0 }))
      (GivesUp number look_up store resolve_lock 3 Settled [])
unfolding is_retry_error_code
get-GivesUp_example =
    get-GivesUp number look_up store resolve_lock 3 Settled 3 reading 0 0 1 region (reply changed)
      finds serves refl refl tt refl (omega arith) (omega arith)
