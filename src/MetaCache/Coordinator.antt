-- ===== src/MetaCache/Coordinator.antt =====
-- src/sdk/meta_cache.cc: the lookups that ask the coordinator when the cache does not have what they
-- look for. The reply of the coordinator is an argument; the fields read are those of the records
-- below. A lookup holds the lock twice, for the cache and for the reply: `slow_…` is the second part,
-- which may find a cache that has changed.
use dingo_sdk.Base.{
  ℕ, ◌%◌, ◌^◌, Bool, true, false, not, ◌&&◌, ◌||◌, List, [], ◌∷◌, ◌++◌, map, Option, none, some,
  if◌then◌else◌, ltb, ◌==◌, last?,
}
use dingo_sdk.Key.{Key, key_ltb, key_leb, key_eqb, is_empty}
use dingo_sdk.OrdMap
use dingo_sdk.Outcome.{Outcome, done, aborted, check, check_some, ◌>>=◌, ◌>>◌}
use dingo_sdk.Status.{Result, success, failure, of_code, not_found, illegal_state, Answer, and_then}
use dingo_sdk.Region.{
  RegionPtr, Info, RaftRole, leader, follower, Replica, EndPoint, Epoch, RegionType, make_region,
}
use dingo_sdk.MetaCache.{
  Cache, maybe_add_region, maybe_add_regions, fast_look_up_region_by_key,
  fast_look_up_region_by_region_id,
}

pub record Location : Type 0 where
  pub host : Key
  pub port : ℕ

pub record Range : Type 0 where
  pub start_key : Key
  pub end_key : Key

pub record ScanRegionInfo : Type 0 where
  pub region_id : ℕ
  pub range : Option Range
  pub region_epoch : Option Epoch
  pub leader_location : Option Location
  pub voters : List Location
  pub learners : List Location
  pub region_type : RegionType

pub record Peer : Type 0 where
  pub store_id : ℕ
  pub server_location : Location

pub record Definition : Type 0 where
  pub range : Range
  pub epoch : Epoch
  pub peers : List Peer

pub record QueryRegion : Type 0 where
  pub id : ℕ
  pub definition : Option Definition
  pub leader_store_id : ℕ
  pub region_type : RegionType

-- `LocationToEndPoint` of a location with a host; the port of an end point has 16 bits.
abbrev pub end_point_of : Location → EndPoint
end_point_of l = record { host = l.host; port = l.port % 2 ^ 16 }

abbrev pub named : RaftRole → List Location → List Replica
named role [] = []
named role (l ∷ ls) =
    if is_empty l.host || l.port == 0
    then named role ls
    else record { end_point = end_point_of l; role = role } ∷ named role ls

abbrev pub to_list {ℓ} : {A : Type ℓ} → Option A → List A
to_list none = []
to_list (some a) = a ∷ []

unfoldable pub replicas_of : ScanRegionInfo → List Replica
replicas_of info =
    named leader (to_list info.leader_location)
    ++ named follower info.voters
    ++ named follower info.learners

-- A new region object.
unfoldable pub create : Info → List Replica → Cache → RegionPtr × Cache
create info replicas c =
    let r = make_region info replicas c.memory in (r.0, record c { memory = r.1 })

unfoldable pub process_scan_region_info : ScanRegionInfo → Cache → Outcome (RegionPtr × Cache)
process_scan_region_info info c = do
  range ← check_some info.range
  epoch ← check_some info.region_epoch
  done (
      create
        (record {
          region_id = info.region_id;
          start_key = range.start_key;
          end_key = range.end_key;
          epoch = epoch;
          region_type = info.region_type;
        })
        (replicas_of info) c)

abbrev pub have_hosts : List Peer → Bool
have_hosts [] = true
have_hosts (peer ∷ peers) = not (is_empty peer.server_location.host) && have_hosts peers

unfoldable pub peer_replica : ℕ → Peer → Replica
peer_replica leader_store_id peer = record {
  end_point = end_point_of peer.server_location;
  role = if leader_store_id == peer.store_id then leader else follower;
}

-- `ProcesssQueryRegion`.
unfoldable pub process_query_region : QueryRegion → Cache → Outcome (RegionPtr × Cache)
process_query_region q c = do
  d ← check_some q.definition
  check (have_hosts d.peers)
  let range = d.range
  done (
      create
        (record {
          region_id = q.id;
          start_key = range.start_key;
          end_key = range.end_key;
          epoch = d.epoch;
          region_type = q.region_type;
        })
        (map (peer_replica q.leader_store_id) d.peers) c)

-- The test of a new region's range.
unfoldable pub with_range : RegionPtr × Cache → Answer Cache RegionPtr
with_range (r, c) = elim (key_leb r.end_key r.start_key) [
  | true ↦ done (failure (of_code illegal_state), c)
  | false ↦ done (success r, c)
]

unfoldable pub process_query_regions_response : Option QueryRegion → Cache → Answer Cache RegionPtr
process_query_regions_response none c = done (failure (of_code not_found), c)
process_query_regions_response (some q) c = process_query_region q c >>= with_range

unfoldable pub process_scan_by_key_response : List ScanRegionInfo → Cache → Answer Cache RegionPtr
process_scan_by_key_response [] c = done (failure (of_code not_found), c)
process_scan_by_key_response (info ∷ []) c = process_scan_region_info info c >>= with_range
process_scan_by_key_response (info ∷ other ∷ infos) c = aborted

-- The loop of `ProcessScanRegionsBetweenRangeResponse`.
unfoldable pub process_each : List ScanRegionInfo → Cache → Answer Cache (List RegionPtr)
process_each [] c = done (success [], c)
process_each (info ∷ infos) c =
    and_then (process_scan_region_info info c >>= with_range)
      (λ r c1. and_then (process_each infos c1) (λ rs c2. done (success (r ∷ rs), c2)))

unfoldable pub process_scan_between_range_response :
    List ScanRegionInfo → Cache → Answer Cache (List RegionPtr)
process_scan_between_range_response [] c = done (failure (of_code not_found), c)
process_scan_between_range_response (info ∷ infos) c = process_each (info ∷ infos) c

unfoldable pub slow_look_up_region_by_key :
    Result (List ScanRegionInfo) → Cache → Answer Cache RegionPtr
slow_look_up_region_by_key reply c = and_then (done (reply, c)) (λ infos c1.
    and_then (process_scan_by_key_response infos c1)
      (λ r c2. do c3 ← maybe_add_region r c2; done (success r, c3)))

unfoldable pub slow_look_up_region_by_region_id :
    Result (Option QueryRegion) → Cache → Answer Cache RegionPtr
slow_look_up_region_by_region_id reply c = and_then (done (reply, c)) (λ region c1.
    and_then (process_query_regions_response region c1)
      (λ r c2. do c3 ← maybe_add_region r c2; done (success r, c3)))

-- A cached answer, or what the coordinator says.
abbrev pub or_else : Result RegionPtr → Answer Cache RegionPtr → Cache → Answer Cache RegionPtr
or_else (success r) slow c = done (success r, c)
or_else (failure s) slow c = slow

unfoldable pub lookup_region_by_key :
    Key → Result (List ScanRegionInfo) → Cache → Answer Cache RegionPtr
lookup_region_by_key key reply c = do
  check (not (is_empty key))
  fast ← fast_look_up_region_by_key key c
  or_else fast (slow_look_up_region_by_key reply c) c

unfoldable pub lookup_region_by_region_id :
    ℕ → Result (Option QueryRegion) → Cache → Answer Cache RegionPtr
lookup_region_by_region_id region_id reply c = do
  check (ltb 0 region_id)
  or_else (fast_look_up_region_by_region_id region_id c) (slow_look_up_region_by_region_id reply c)
      c

-- What both scans do with a reply.
unfoldable pub take_scan :
    Key → Result (List ScanRegionInfo) → Cache → Answer Cache (List RegionPtr)
take_scan end_key reply c =
    and_then (done (reply, c))
      (λ infos c1. and_then (process_scan_between_range_response infos c1) (λ rs c2. add rs c2))
  where
    add : List RegionPtr → Cache → Answer Cache (List RegionPtr)
    add [] c2 = aborted
    add (r ∷ rs) c2 = do
      check (key_ltb r.start_key end_key)
      c3 ← maybe_add_regions (r ∷ rs) c2
      done (success (r ∷ rs), c3)

-- The reply is that of the coordinator for the range and a limit on the number of regions.
unfoldable pub scan_regions_between_range :
    Key → Key → Result (List ScanRegionInfo) → Cache → Answer Cache (List RegionPtr)
scan_regions_between_range start_key end_key reply c = do
  check (not (is_empty start_key))
  check (not (is_empty end_key))
  take_scan end_key reply c

abbrev pub first_of : List RegionPtr → Cache → Answer Cache RegionPtr
first_of [] c = aborted
first_of (r ∷ rs) c = done (success r, c)

-- `LookupRegionBetweenRange`, and `LookupRegionBetweenRangeNoPrefetch`, which asks for one region.
unfoldable pub lookup_region_between_range :
    Key → Key → Result (List ScanRegionInfo) → Cache → Answer Cache RegionPtr
lookup_region_between_range start_key end_key reply c = do
  check (not (is_empty start_key))
  check (not (is_empty end_key))
  fast ← fast_look_up_region_by_key start_key c
  found fast
  where
    found : Result RegionPtr → Answer Cache RegionPtr
    found (success r) = do check (key_ltb r.start_key end_key); done (success r, c)
    found (failure s) = and_then (scan_regions_between_range start_key end_key reply c) first_of

-- The walk from the entry at the start key to the last one before the end key. It never meets that
-- one, and runs off the end of the map, when the end key is not above the start key.
unfoldable pub walk : Key → Key → List (Key × RegionPtr) → Outcome (List RegionPtr)
walk start_key end_key m = do
  check (key_ltb start_key end_key)
  done (map (λ e. e.1) (OrdMap.before end_key (OrdMap.from start_key m)))

unfoldable pub starts_at : Key → List (Key × RegionPtr) → Bool
starts_at k [] = false
starts_at k ((j, r) ∷ m) = key_eqb j k

unfoldable pub ends_at : Key → Option (Key × RegionPtr) → Bool
ends_at k none = false
ends_at k (some (j, r)) = key_eqb r.end_key k

unfoldable pub continues : List RegionPtr → Bool
continues [] = true
continues (r ∷ []) = true
continues (r ∷ s ∷ rs) = key_eqb r.end_key s.start_key && continues (s ∷ rs)

-- The part of `ScanRegionsBetweenContinuousRange` before the call: what the cache has.
unfoldable pub cached_run : Key → Key → Cache → Outcome (Option (List RegionPtr))
unfolding walk starts_at ends_at continues
cached_run start_key end_key c =
    elim (starts_at start_key (OrdMap.from start_key c.by_key)
      && ends_at end_key (last? (OrdMap.before end_key c.by_key))) [
        | false ↦ done none
        | true ↦ walk start_key end_key c.by_key >>= judge
      ]
  where
    judge : List RegionPtr → Outcome (Option (List RegionPtr))
    judge [] = done none
    judge (r ∷ []) = do
      check (key_eqb r.start_key start_key)
      check (key_eqb r.end_key end_key)
      done (some (r ∷ []))
    judge (r ∷ s ∷ rs) = done (if continues (r ∷ s ∷ rs) then some (r ∷ s ∷ rs) else none)

unfoldable pub scan_regions_between_continuous_range :
    Key → Key → Result (List ScanRegionInfo) → Cache → Answer Cache (List RegionPtr)
scan_regions_between_continuous_range start_key end_key reply c = do
  run ← cached_run start_key end_key c
  answer run
  where
    answer : Option (List RegionPtr) → Answer Cache (List RegionPtr)
    answer (some rs) = done (success rs, c)
    answer none = take_scan end_key reply c
