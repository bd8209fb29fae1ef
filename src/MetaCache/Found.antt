-- ===== src/MetaCache/Found.antt =====
-- src/sdk/meta_cache.cc: `LookupRegionByKey`, with its call of the coordinator.
use dingo_sdk.Base.{
  ◌<◌, true, false, List, [], ◌∷◌, Option, none, some, ◌≡◌, refl, sym, subst, All, All-map,
  All-both, Bool-cases, inl, inr, arith,
}
use dingo_sdk.Key.{Key, key_ltb, is_empty}
use dingo_sdk.Key.Order.{◌<ₖ◌, ◌≤ₖ◌, lt_of_le_of_lt}
use dingo_sdk.Outcome.{done, ◌>>=◌, Returns, Returns->>=}
use dingo_sdk.Status.{Result, success, failure, and_then, HoldsOf}
use dingo_sdk.Region.{RegionPtr, Info, Replica, Epoch, make_region}
use dingo_sdk.MetaCache.{Cache, maybe_add_region}
use dingo_sdk.MetaCache.Invariant.{Entry, IsValid}
use dingo_sdk.MetaCache.Update.{
  SameObject, MaybeAdded, current, replaced, added, maybe_add_region-MaybeAdded,
}
use dingo_sdk.MetaCache.Lookup.{covers, covering, found, fast_look_up_region_by_key-covering}
use dingo_sdk.MetaCache.Coordinator.{
  ScanRegionInfo, Range, create, replicas_of, process_scan_region_info, with_range,
  process_scan_by_key_response, slow_look_up_region_by_key, lookup_region_by_key, or_else,
}

-- The reply for a key has the region that covers it, with all its parts; or no region.
abbrev pub Answers : Key → Result (List ScanRegionInfo) → Type 0
Answers key (failure s) = Unit {0}
Answers key (success []) = Unit {0}
Answers key (success (info ∷ [])) =
    (range : Range) × (epoch : Epoch) × (info.range ≡ some range)
    × (info.region_epoch ≡ some epoch)
    × (range.start_key ≤ₖ key)
    × (key <ₖ range.end_key)
Answers key (success (info ∷ other ∷ infos)) = ⊥

-- Objects are made at new addresses.
abbrev pub Older : Cache → Type 0
Older c = All (λ (e : Entry). e.1.addr < c.next_addr) c.by_key

-- What a lookup gives: the cache is valid still, and the region has the key.
abbrev pub HasKey : Key → RegionPtr → Cache → Type 0
HasKey key r c = IsValid c × (covers key r ≡ true)

covering-covers :
    (key : Key) (m : List Entry) (r : RegionPtr) → covering key m ≡ some r → covers key r ≡ true
unfolding covering
covering-covers key [] r h = cc
covering-covers key ((j, w) ∷ m) r h = elim (Bool-cases (covers key w)) [
  | inl e ↦ let q : w ≡ r = ground (arith, h, e) in subst (λ x. covers key x ≡ true) q e
  | inr e ↦ covering-covers key m r (ground (arith, h, e))
]

pub MaybeAdded-IsValid :
    (r : RegionPtr) (p : r.start_key <ₖ r.end_key) (c c' : Cache)
    → IsValid c
    → MaybeAdded r p c c'
    → IsValid c'
MaybeAdded-IsValid r p c c' v (current old held n e) = subst IsValid (sym e) v
MaybeAdded-IsValid r p c c' v (replaced old held n a) = a.valid
MaybeAdded-IsValid r p c c' v (added absent a) = a.valid

-- A new object leaves the cache valid, and none of the cache is at its address.
module _ (replicas : List Replica) (i : Info) (c : Cache) (v : IsValid c) (o : Older c) where
  abbrev made : RegionPtr × Cache
  made = create i replicas c

  pub create-IsValid : IsValid made.1
  unfolding create make_region
  create-IsValid = record {
    ranges = v.ranges;
    keyed = v.keyed;
    listed = v.listed;
    linked = v.linked;
    fresh = All-map (λ e h. ground (arith, h)) c.by_key (All-both _ _ c.by_key v.fresh o);
  }

  pub create-SameObject : SameObject made.0 made.1.by_key
  unfolding create make_region
  create-SameObject = All-map (λ e h q. ground (arith, h, q)) c.by_key o

  made_info : made.0.info ≡ i
  unfolding create make_region
  made_info = refl

  module _ (key : Key) (low : i.start_key ≤ₖ key) (high : key <ₖ i.end_key) where
    pub proper : made.0.start_key <ₖ made.0.end_key
    unfolding create make_region
    proper = lt_of_le_of_lt i.start_key key i.end_key low high

    pub made_covers : covers key made.0 ≡ true
    unfolding create make_region
    made_covers = ground (arith, low, high)

    pub with_range_lem : with_range made ≡ done (success made.0, made.1)
    unfolding with_range key_ltb create make_region
    with_range_lem = rw (proper) refl

    add_made :
        Returns
          (and_then
            (with_range made)
            (λ r c2. maybe_add_region r c2 >>= λ c3. done (success r, c3)))
          (HoldsOf IsValid (HasKey key))
    add_made = rw (with_range_lem) (
        Returns->>= (MaybeAdded made.0 proper made.1) (HoldsOf IsValid (HasKey key))
          (maybe_add_region made.0 made.1) _
          (maybe_add_region-MaybeAdded made.0 proper made.1 create-IsValid create-SameObject)
          (λ c3 m. (MaybeAdded-IsValid made.0 proper made.1 c3 create-IsValid m, made_covers)))

slow_look_up_region_by_key-HasKey :
    (key : Key) (reply : Result (List ScanRegionInfo)) (c : Cache)
    → Answers key reply
    → IsValid c
    → Older c
    → Returns (slow_look_up_region_by_key reply c) (HoldsOf IsValid (HasKey key))
unfolding slow_look_up_region_by_key process_scan_by_key_response process_scan_region_info
    replicas_of
slow_look_up_region_by_key-HasKey key (failure s) c a v o = v
slow_look_up_region_by_key-HasKey key (success []) c a v o = v
slow_look_up_region_by_key-HasKey key (success (info ∷ [])) c a v o =
    rw (a.2, a.3) (add_made (replicas_of info) _ c v o key a.4 a.5)
slow_look_up_region_by_key-HasKey key (success (info ∷ other ∷ infos)) c a v o = a

-- LookupRegionByKey of a key that is not empty, on a valid cache and with a reply that covers the
-- key or names no region: no CHECK fails, the cache is valid afterwards, and the region that is
-- returned, from the cache or from the reply, has the key.
pub lookup_region_by_key-HasKey :
    (key : Key) (reply : Result (List ScanRegionInfo)) (c : Cache)
    → is_empty key ≡ false
    → Answers key reply
    → IsValid c
    → Older c
    → Returns (lookup_region_by_key key reply c) (HoldsOf IsValid (HasKey key))
unfolding lookup_region_by_key
lookup_region_by_key-HasKey key reply c n a v o =
    rw (n, fast_look_up_region_by_key-covering key c v) (go (covering key c.by_key) refl)
  where
    go :
        (h : Option RegionPtr)
        → covering key c.by_key ≡ h
        → Returns
            (or_else (found h) (slow_look_up_region_by_key reply c) c)
            (HoldsOf IsValid (HasKey key))
    go none e = slow_look_up_region_by_key-HasKey key reply c a v o
    go (some r) e = (v, covering-covers key c.by_key r e)
