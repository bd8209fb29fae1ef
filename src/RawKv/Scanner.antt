-- ===== src/RawKv/Scanner.antt =====
-- src/sdk/rawkv/raw_kv_region_scanner_impl.cc: a scanner of the rows of one region, which the store
-- keeps open between the requests. A `call` is the store controller's: the reply to a request when its
-- call back runs, and what the call changes in `C`, the caches and the servers.
use dingo_sdk.Base.{ℕ, Bool, true, false, not, List, [], ◌∷◌, if◌then◌else◌}
use dingo_sdk.Key.{Key, key_ltb, key_leb, is_empty}
use dingo_sdk.Outcome.{Outcome, done, check, ◌>>=◌, ◌>>◌}
use dingo_sdk.Status.{Status, is_ok}
use dingo_sdk.Region.{RegionPtr}

-- `KVPair`.
abbrev pub KvPair : Type 0
KvPair = Key × Key

-- The fields of the requests that the scanner sets, and the region of their context.
pub data Request : Type 0 where
  kv_scan_begin : RegionPtr → Key → Key → Request
  kv_scan_continue : RegionPtr → Key → ℕ → Request
  kv_scan_release : RegionPtr → Key → Request

pub record Reply : Type 0 where
  pub status : Status
  pub scan_id : Key
  pub kvs : List KvPair

pub record Scanner : Type 0 where
  pub region : RegionPtr
  pub start_key : Key
  pub end_key : Key
  pub scan_id : Key
  pub opened : Bool
  pub has_more : Bool
  pub batch_size : ℕ

abbrev pub no_rows : List KvPair → Bool
no_rows [] = true
no_rows (kv ∷ kvs) = false

-- `NewRegionScanner`, with the flag `scan_batch_size`.
unfoldable pub new_region_scanner : ℕ → RegionPtr → Key → Key → Outcome Scanner
new_region_scanner batch_size r start_key end_key = do
  check (key_ltb start_key end_key)
  check (key_leb r.start_key start_key)
  check (key_leb end_key r.end_key)
  done (record {
    region = r;
    start_key = start_key;
    end_key = end_key;
    scan_id = [];
    opened = false;
    has_more = false;
    batch_size = batch_size;
  })

-- The rows of a response up to the end key, and `has_more_`.
unfoldable pub take_rows : Key → Bool → List KvPair → List KvPair × Bool
take_rows end_key more [] = ([], more)
take_rows end_key more (kv ∷ kvs) = elim (key_ltb kv.0 end_key) [
  | true ↦ (let rest = take_rows end_key more kvs in (kv ∷ rest.0, rest.1))
  | false ↦ take_rows end_key false kvs
]

-- `AsyncOpenCallback`.
unfoldable pub async_open_callback : Reply → Scanner → Outcome (Status × Scanner)
async_open_callback r s =
    if is_ok r.status
    then (do
      check (no_rows r.kvs)
      done (r.status, record s { scan_id = r.scan_id; has_more = true; opened = true }))
    else done (r.status, s)

-- `KvScanContinueRpcCallback`, on the caller's `kvs`.
unfoldable pub kv_scan_continue_rpc_callback :
    Reply → List KvPair → Scanner → Status × List KvPair × Scanner
kv_scan_continue_rpc_callback r kvs s =
    if is_ok r.status
    then (let taken = if no_rows r.kvs then ([], false) else take_rows s.end_key s.has_more r.kvs in
        (r.status, taken.0, record s { has_more = taken.1 }))
    else (r.status, kvs, s)

module _ {C : Type 0} (call : Request → C → Outcome (Reply × C)) where
  unfoldable pub async_open : Scanner → C → Outcome ((Status × Scanner) × C)
  async_open s c = do
    check (not s.opened)
    r ← call (kv_scan_begin s.region s.start_key s.end_key) c
    called ← async_open_callback r.0 s
    done (called, r.1)

  -- The call back is not run when the scanner is not open.
  unfoldable pub async_close : Scanner → C → Outcome (Scanner × C)
  async_close s c =
      if s.opened
      then (do
        check (not (is_empty s.scan_id))
        r ← call (kv_scan_release s.region s.scan_id) c
        done (record s { opened = false }, r.1))
      else done (s, c)

  unfoldable pub async_next_batch :
      Scanner → List KvPair → C → Outcome ((Status × List KvPair × Scanner) × C)
  async_next_batch s kvs c = do
    check s.opened
    check (not (is_empty s.scan_id))
    r ← call (kv_scan_continue s.region s.scan_id s.batch_size) c
    done (kv_scan_continue_rpc_callback r.0 kvs s, r.1)
