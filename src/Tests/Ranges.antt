-- ===== src/Tests/Ranges.antt =====
-- A scan of the range [b, c) over the region [a, c), whose store fails once, after a batch.
use dingo_sdk.Base.{ℕ, zero, suc, List, [], ◌∷◌, none, some, ◌≡◌, refl, arith, true}
use dingo_sdk.Key.{Key, key_ltb, key_eqb}
use dingo_sdk.Outcome.{Outcome, done, aborted, for_each, ◌>>=◌}
use dingo_sdk.Status.{Result, success, ok, of_code, incomplete}
use dingo_sdk.OrdMap
use dingo_sdk.Region.{RegionPtr, region_store, new_roles, make_region, epoch_compare}
use dingo_sdk.MetaCache.{
  Cache, fast_look_up_region_by_key, maybe_add_regions, maybe_add_region, maybe_add_region_unlocked,
  add_range_to_cache_unlocked, mark_stale, need_update_region, remove_region_unlocked,
}
use dingo_sdk.MetaCache.Ids.{find_id, erase_id}
use dingo_sdk.MetaCache.Calls.{empty_cache}
use dingo_sdk.MetaCache.Coordinator.{
  ScanRegionInfo, lookup_region_between_range, scan_regions_between_range, take_scan,
  process_scan_between_range_response, process_each, process_scan_region_info, with_range, create,
  replicas_of,
}
use dingo_sdk.RawKv.Scanner.{
  KvPair, Request, kv_scan_begin, kv_scan_continue, kv_scan_release, Reply,
}
use dingo_sdk.RawKv.Scan.{Scan, scanner_start_key, scanner_end_key, do_async, look_up_in}
use dingo_sdk.RawKv.Scan.Batches.{gives}
use dingo_sdk.RawKv.Scan.Rows.{Part, Starts, Serves}
use dingo_sdk.RawKv.Scan.Served.{do_async-rows, do_async_reads_again}

abbrev first_region : RegionPtr
first_region = record {
  addr = 0;
  info = record {
    region_id = 1;
    start_key = b'a' ∷ [];
    end_key = b'c' ∷ [];
    epoch = record { version = 1; conf_version = 1 };
    region_type = region_store;
  };
}

abbrev one_region : ScanRegionInfo
one_region = record {
  region_id = 1;
  range = some (record { start_key = b'a' ∷ []; end_key = b'c' ∷ [] });
  region_epoch = some (record { version = 1; conf_version = 1 });
  leader_location = none;
  voters = record { host = b'a' ∷ []; port = 1 } ∷ [];
  learners = [];
  region_type = region_store;
}

abbrev coordinator : Key → Key → Result (List ScanRegionInfo)
coordinator a b = success (one_region ∷ [])

abbrev no_cache : Cache
no_cache = empty_cache (record { next_addr = 0; stale = λ _. true; roles = λ _. new_roles [] })

abbrev cache_of : Outcome (Result RegionPtr × Cache) → Cache
cache_of (done a) = a.1
cache_of aborted = no_cache

-- The cache after the first lookup.
abbrev cached : Cache
cached = cache_of (look_up_in coordinator (b'b' ∷ []) (b'c' ∷ []) no_cache)

first_lookup :
    look_up_in coordinator (b'b' ∷ []) (b'c' ∷ []) no_cache ≡ done (success first_region, cached)
unfolding lookup_region_between_range fast_look_up_region_by_key OrdMap.up_to
    scan_regions_between_range take_scan process_scan_between_range_response process_each
    process_scan_region_info with_range key_ltb create make_region maybe_add_regions for_each
    maybe_add_region maybe_add_region_unlocked find_id add_range_to_cache_unlocked key_eqb
    replicas_of erase_id mark_stale need_update_region remove_region_unlocked OrdMap.before
    OrdMap.erase OrdMap.find OrdMap.from epoch_compare new_roles
first_lookup = refl

second_lookup :
    look_up_in coordinator (b'b' ∷ []) (b'c' ∷ []) cached ≡ done (success first_region, cached)
unfolding lookup_region_between_range fast_look_up_region_by_key OrdMap.up_to
    scan_regions_between_range take_scan process_scan_between_range_response process_each
    process_scan_region_info with_range key_ltb create make_region maybe_add_regions for_each
    maybe_add_region maybe_add_region_unlocked find_id add_range_to_cache_unlocked key_eqb
    replicas_of erase_id mark_stale need_update_region remove_region_unlocked OrdMap.before
    OrdMap.erase OrdMap.find OrdMap.from epoch_compare new_roles OrdMap.insert
second_lookup = refl

-- What is around the client: the cache, and the number of requests.
abbrev World : Type 0
World = Cache × ℕ

abbrev look_up : Key → Key → World → Outcome (Result RegionPtr × World)
look_up a b w = look_up_in coordinator a b w.0 >>= λ f. done (f.0, (f.1, w.1))

abbrev row : KvPair
row = (b'b' ∷ [], b'v' ∷ [])

abbrev begun : Reply
begun = record { status = ok; scan_id = b's' ∷ []; kvs = [] }

abbrev failed : Reply
failed = record { status = of_code incomplete; scan_id = []; kvs = [] }

-- What the scanner is told after this many requests: the third fails.
abbrev batch : ℕ → Reply
batch (suc zero) = gives (row ∷ [])
batch (suc (suc zero)) = failed
batch (suc (suc (suc (suc zero)))) = gives (row ∷ [])
batch n = gives []

abbrev store : Request → World → Outcome (Reply × World)
store (kv_scan_begin r a e) w = done (begun, (w.0, suc w.1))
store (kv_scan_continue r id size) w = done (batch w.1, (w.0, suc w.1))
store (kv_scan_release r id) w = done (begun, (w.0, suc w.1))

abbrev scan : Scan
scan = record {
  start_key = b'b' ∷ [];
  end_key = b'c' ∷ [];
  limit = 0;
  next_start_key = b'b' ∷ [];
  tmp_out_kvs = [];
  out_kvs = [];
}

abbrev broken_part : Part World
broken_part = record {
  region = first_region;
  scan_id = b's' ∷ [];
  looked = (cached, 0);
  begun = (cached, 1);
  batches = (row ∷ [], (cached, 2)) ∷ [];
  ended = (cached, 3);
}

abbrev whole_part : Part World
whole_part = record {
  region = first_region;
  scan_id = b's' ∷ [];
  looked = (cached, 3);
  begun = (cached, 4);
  batches = (row ∷ [], (cached, 5)) ∷ [];
  ended = (cached, 6);
}

broken_part-Starts : Starts look_up store 10 (b'c' ∷ []) (b'b' ∷ []) (no_cache, 0) broken_part
unfolding scanner_start_key scanner_end_key key_ltb
broken_part-Starts = record {
  before = refl;
  found = rw (first_lookup) refl;
  meets = refl;
  begins = refl;
  named = refl;
  reads = (refl, refl, (refl, tt), tt);
}

whole_part-Serves : Serves look_up store 10 (b'c' ∷ []) (b'b' ∷ []) (cached, 3) (whole_part ∷ [])
unfolding scanner_start_key scanner_end_key key_ltb
whole_part-Serves = (
  record {
    before = refl;
    found = rw (second_lookup) refl;
    meets = refl;
    begins = refl;
    named = refl;
    reads = (refl, refl, (refl, tt), tt);
  },
  refl,
  refl,
)

do_async-rows_example :
    do_async look_up store 10 3 2 scan (cached, 3)
    ≡ done (
        some
          ((ok, record scan { next_start_key = b'c' ∷ []; tmp_out_kvs = row ∷ [] }), (cached, 6)))
unfolding key_ltb
do_async-rows_example =
    do_async-rows look_up store 10 3 2 scan (whole_part ∷ []) (cached, 3) refl refl refl
      (omega arith, tt) (omega arith) whole_part-Serves

do_async_reads_again_example :
    (do_async look_up store 10 3 2 scan (no_cache, 0)
      ≡ done (some ((of_code incomplete, record scan { tmp_out_kvs = row ∷ [] }), (cached, 3))))
    × (do_async look_up store 10 3 2 (record scan { tmp_out_kvs = row ∷ [] }) (cached, 3)
        ≡ done (
            some (
              (ok, record scan { next_start_key = b'c' ∷ []; tmp_out_kvs = row ∷ row ∷ [] }),
              (cached, 6),
            )))
unfolding key_ltb
do_async_reads_again_example =
    do_async_reads_again look_up store 10 3 2 scan broken_part failed (whole_part ∷ [])
      (no_cache, 0) refl refl refl (omega arith, (omega arith, tt)) (omega arith) broken_part-Starts
      refl refl whole_part-Serves
