-- ===== src/RawKv/Scan.antt =====
-- src/sdk/rawkv/raw_kv_scan_task.cc: the rows of a range of keys, region by region. What the client
-- finds around it is an argument: `look_up`, the cache's `LookupRegionBetweenRange`, and `call`, the
-- store controller's; `C` is what they read and change. `look_up_in` is the cache of the model.
use dingo_sdk.Base.{
  ℕ, zero, suc, Bool, true, false, not, ◌&&◌, ◌==◌, List, [], ◌∷◌, ◌++◌, Option, none, some,
  if◌then◌else◌, ltb, length, take,
}
use dingo_sdk.Key.{Key, key_ltb, key_leb, is_empty}
use dingo_sdk.Outcome.{Outcome, done, aborted, check, ◌>>=◌, ◌>>◌}
use dingo_sdk.Status.{Status, Code, Result, success, failure, is_ok, ok, not_found}
use dingo_sdk.Region.{RegionPtr}
use dingo_sdk.MetaCache.{Cache}
use dingo_sdk.MetaCache.Coordinator.{ScanRegionInfo, lookup_region_between_range}
use dingo_sdk.RawKv.Scanner.{
  KvPair, Request, Reply, Scanner, new_region_scanner, async_open, async_next_batch, no_rows,
}
pub mod Batches
pub mod Rows
pub mod Served

-- `tmp_scanner_scan_kvs_` is emptied before each use: it is an argument of the call backs.
pub record Scan : Type 0 where
  pub start_key : Key
  pub end_key : Key
  pub limit : ℕ
  pub next_start_key : Key
  pub tmp_out_kvs : List KvPair
  pub out_kvs : List KvPair

-- `LookupRegionBetweenRange` on the cache, with the coordinator's reply to it.
abbrev pub look_up_in :
    (Key → Key → Result (List ScanRegionInfo))
    → Key
    → Key
    → Cache
    → Outcome (Result RegionPtr × Cache)
look_up_in coordinator a b c = lookup_region_between_range a b (coordinator a b) c

abbrev pub is_not_found : Code → Bool
is_not_found not_found = true
is_not_found _ = false

unfoldable pub reach_limit : Scan → Bool
reach_limit t = not (t.limit == 0) && not (ltb (length t.tmp_out_kvs) t.limit)

-- The keys of a region's scanner, from `next_start_key_` and from `end_key_`.
unfoldable pub scanner_start_key : Key → RegionPtr → Key
scanner_start_key next r = if key_leb next r.start_key then r.start_key else next

unfoldable pub scanner_end_key : Key → RegionPtr → Key
scanner_end_key end_key r = if key_leb end_key r.end_key then end_key else r.end_key

-- How the task stands when a call back returns: its status, which reaches `DoAsyncDone`, or the
-- scanner that it goes on with.
abbrev pub Ended : Type 0 → Type 0
Ended C = Option ((Status × Scan) × C)

-- `NextBatchCallback`, up to its last call.
unfoldable pub next_batch_callback : List KvPair → Scanner → Scan → Outcome Scan
next_batch_callback kvs s t =
    if no_rows kvs
    then (do check (not s.has_more); done t)
    else done (record t { tmp_out_kvs = t.tmp_out_kvs ++ kvs })

-- `PostProcess`.
unfoldable pub post_process : Scan → Scan
post_process t = record t { out_kvs = t.tmp_out_kvs; tmp_out_kvs = [] }

module _ {C : Type 0} (look_up : Key → Key → C → Outcome (Result RegionPtr × C))
    (call : Request → C → Outcome (Reply × C)) (batch_size : ℕ) where
  unfoldable pub init : Scan → C → Outcome ((Status × Scan) × C)
  init t c = do
    found ← look_up t.start_key t.end_key c
    done (elim found.0 [
      | failure s ↦ ((s, t), found.1)
      | success r ↦ ((ok, record t { next_start_key = t.start_key }), found.1)
    ])

  -- `ScanNextWithScanner`, up to the end of the region, on fuel.
  unfoldable pub scan_next_with_scanner : ℕ → Scanner → Scan → C → Outcome (Ended C)
  scan_next_with_scanner zero s t c = done none
  scan_next_with_scanner (suc fuel) s t c = elim s.has_more [
    | false ↦ done (some ((ok, record t { next_start_key = s.region.end_key }), c))
    | true ↦ async_next_batch call s [] c >>= λ b. elim (is_ok b.0.0) [
      | false ↦ done (some ((b.0.0, t), b.1))
      | true ↦ next_batch_callback b.0.1 b.0.2 t >>= λ u. scan_next_with_scanner fuel b.0.2 u b.1
    ]
  ]

  -- `ScannerOpenCallback`.
  unfoldable pub scanner_open_callback : ℕ → Status → Scanner → Scan → C → Outcome (Ended C)
  scanner_open_callback fuel status s t c =
      if is_ok status
      then check s.has_more >> scan_next_with_scanner fuel s t c
      else done (some ((status, t), c))

  -- What `ScanNext` does with a region.
  unfoldable pub scan_region : ℕ → RegionPtr → Scan → C → Outcome (Ended C)
  scan_region fuel r t c = do
    s ←
        new_region_scanner batch_size r (scanner_start_key t.next_start_key r)
          (scanner_end_key t.end_key r)
    opened ← async_open call s c
    scanner_open_callback fuel opened.0.0 opened.0.1 t opened.1

  abbrev pub go_on : (Scan → C → Outcome (Ended C)) → Ended C → Outcome (Ended C)
  go_on f none = done none
  go_on f (some ((status, t), c)) = elim (is_ok status) [
    | true ↦ f t c
    | false ↦ done (some ((status, t), c))
  ]

  -- `ScanNext`, on fuel for the regions; each region has fuel for its batches.
  unfoldable pub scan_next : ℕ → ℕ → Scan → C → Outcome (Ended C)
  scan_next batches zero t c = done none
  scan_next batches (suc fuel) t c = elim (reach_limit t) [
    | true ↦ done (some ((ok, record t { tmp_out_kvs = take t.limit t.tmp_out_kvs }), c))
    | false ↦ elim (key_leb t.end_key t.next_start_key) [
      | true ↦ done (some ((ok, t), c))
      | false ↦ look_up t.next_start_key t.end_key c >>= λ found. elim found.0 [
        | failure s ↦ done (some ((if is_not_found s.code then ok else s, t), found.1))
        | success r ↦ scan_region batches r t found.1 >>= go_on (scan_next batches fuel)
      ]
    ]
  ]

  -- `DoAsync`.
  unfoldable pub do_async : ℕ → ℕ → Scan → C → Outcome (Ended C)
  do_async batches fuel t c = do
    check (not (is_empty t.next_start_key))
    check (key_ltb t.next_start_key t.end_key)
    scan_next batches fuel t c
