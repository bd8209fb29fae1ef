-- ===== src/MetaCache.antt =====
-- src/sdk/meta_cache.h and meta_cache.cc: the cache of regions, by id and by start key, under a lock
-- that each operation holds from its first read to its last write.
use dingo_sdk.Base.{
  ℕ, ◌+◌, Bool, true, false, not, ◌&&◌, ◌||◌, List, [], ◌∷◌, ◌++◌, map, Option, none, some,
  if◌then◌else◌, ltb, ◌==◌, last?, length,
}
use dingo_sdk.Key.{Key, key_ltb, key_leb, key_eqb, is_empty}
use dingo_sdk.OrdMap
use dingo_sdk.Outcome.{Outcome, done, aborted, check, check_some, ◌>>=◌, ◌>>◌, for_each}
use dingo_sdk.Status.{Status, Result, success, failure, of_code, not_found, illegal_state}
use dingo_sdk.Region.{
  RegionPtr, Info, Memory, Epoch, Comparison, newer, same, older, epoch_compare, update,
  make_region,
}
pub mod Ids
pub mod Invariant
pub mod Overlap
pub mod Remove
pub mod Add
pub mod Update
pub mod History
pub mod Calls
pub mod Lookup
pub mod Coordinator
pub mod Found
use Ids.{find_id, erase_id}

pub record Cache : Type 0 where
  pub memory : Memory
  pub open memory use *
  pub by_id : List (ℕ × RegionPtr)
  pub by_key : List (Key × RegionPtr)

unfoldable pub mark_stale : RegionPtr → Bool → Cache → Cache
mark_stale r flag c = record c { memory = record c.memory { stale = update c.stale r.addr flag } }

is_present : {A : Type 0} → Option A → Bool
is_present none = false
is_present (some a) = true

-- `RemoveRegionUnlocked`.
unfoldable pub remove_region_unlocked : ℕ → Cache → Outcome Cache
unfolding mark_stale is_present
remove_region_unlocked id c = do
  region ← check_some (find_id id c.by_id)
  let marked = mark_stale region true c
  check (is_present (OrdMap.find region.start_key c.by_key))
  done (record marked {
    by_id = erase_id id c.by_id;
    by_key = OrdMap.erase region.start_key c.by_key;
  })

-- The entry before the new range, if it reaches into it.
pub overlap_before : Key → Option (Key × RegionPtr) → Outcome (List RegionPtr)
overlap_before start none = done []
overlap_before start (some (k, r)) = do
  check (key_ltb r.start_key start)
  done (if key_ltb start r.end_key then r ∷ [] else [])

-- The entries that begin inside the new range.
pub overlap_from : Key → List (Key × RegionPtr) → List RegionPtr
overlap_from end [] = []
overlap_from end ((k, r) ∷ m) = elim (key_ltb r.start_key end) [
  | true ↦ r ∷ overlap_from end m
  | false ↦ []
]

pub remove_each : List RegionPtr → Cache → Outcome Cache
unfolding remove_region_unlocked
remove_each = for_each (λ r. remove_region_unlocked r.region_id)

-- The last part of `AddRangeToCacheUnlocked`: the two insertions.
pub store_region : RegionPtr → Cache → Outcome Cache
unfolding mark_stale is_present
store_region region c = do
  check (not (is_present (find_id region.region_id c.by_id)))
  check (not (is_present (OrdMap.find region.start_key c.by_key)))
  let added = record c {
    by_id = (region.region_id, region) ∷ c.by_id;
    by_key = OrdMap.insert region.start_key region c.by_key;
  }
  done (mark_stale region false added)

unfoldable pub add_range_to_cache_unlocked : RegionPtr → Cache → Outcome Cache
unfolding overlap_before overlap_from remove_each store_region
add_range_to_cache_unlocked region c = do
  first ← overlap_before region.start_key (last? (OrdMap.before region.start_key c.by_key))
  let to_removes = first ++ overlap_from region.end_key (OrdMap.from region.start_key c.by_key)
  removed ← remove_each to_removes c
  store_region region removed

is_newer : Comparison → Bool
is_newer newer = true
is_newer _ = false

unfoldable pub need_update_region : RegionPtr → RegionPtr → Bool
unfolding epoch_compare is_newer
need_update_region old new = is_newer (epoch_compare old.epoch new.epoch)

unfoldable pub need_clear_region : RegionPtr → RegionPtr → Bool
unfolding epoch_compare is_newer
need_clear_region old target = not (is_newer (epoch_compare old.epoch target.epoch))

-- `MaybeAddRegionUnlocked`.
unfoldable pub maybe_add_region_unlocked : RegionPtr → Cache → Outcome Cache
maybe_add_region_unlocked new c = elim (find_id new.region_id c.by_id) [
  | none ↦ add_range_to_cache_unlocked new c
  | some old ↦ elim (need_update_region old new) [
    | true ↦ remove_region_unlocked new.region_id c >>= add_range_to_cache_unlocked new
    | false ↦ done c
  ]
]

-- `MaybeAddRegion`, and the body of the loop of `MaybeAddRegions`.
unfoldable pub maybe_add_region : RegionPtr → Cache → Outcome Cache
maybe_add_region new c = do
  check (key_ltb new.start_key new.end_key)
  maybe_add_region_unlocked new c

unfoldable pub maybe_add_regions : List RegionPtr → Cache → Outcome Cache
maybe_add_regions = for_each maybe_add_region

-- `ClearRegion`.
unfoldable pub clear_region : RegionPtr → Cache → Outcome Cache
clear_region region c =
    if c.stale region.addr then done c else (elim (find_id region.region_id c.by_id) [
      | none ↦ done c
      | some held ↦ elim (need_clear_region region held) [
        | true ↦ remove_region_unlocked region.region_id c
        | false ↦ done c
      ]
    ])

-- `RemoveRegion`.
unfoldable pub remove_region : ℕ → Cache → Outcome Cache
unfolding is_present
remove_region id c = elim (is_present (find_id id c.by_id)) [
  | true ↦ remove_region_unlocked id c
  | false ↦ done c
]

unfoldable pub mark_all : List (ℕ × RegionPtr) → (ℕ → Bool) → ℕ → Bool
mark_all [] stale = stale
mark_all ((i, r) ∷ m) stale = mark_all m (update stale r.addr true)

-- `ClearCache`.
unfoldable pub clear_cache : Cache → Cache
unfolding mark_all
clear_cache c = record {
  memory = record c.memory { stale = mark_all c.by_id c.stale };
  by_id = [];
  by_key = [];
}

-- `FastLookUpRegionByKeyUnlocked`: what it does with the entry before `upper_bound(key)`.
pub look_at : Key → Cache → Option (Key × RegionPtr) → Outcome (Result RegionPtr)
look_at key c none = done (failure (of_code not_found))
look_at key c (some (k, found)) = do
  check (not (c.stale found.addr))
  check (key_leb found.start_key key)
  done (if key_leb found.end_key key then failure (of_code not_found) else success found)

unfoldable pub fast_look_up_region_by_key : Key → Cache → Outcome (Result RegionPtr)
unfolding look_at
fast_look_up_region_by_key key c = look_at key c (last? (OrdMap.up_to key c.by_key))

-- `FastLookUpRegionByRegionIdUnlocked`.
unfoldable pub fast_look_up_region_by_region_id : ℕ → Cache → Result RegionPtr
fast_look_up_region_by_region_id id c = elim (find_id id c.by_id) [
  | none ↦ failure (of_code not_found)
  | some r ↦ success r
]
