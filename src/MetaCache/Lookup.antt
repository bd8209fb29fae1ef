-- ===== src/MetaCache/Lookup.antt =====
-- `FastLookUpRegionByKeyUnlocked` finds the region that covers the key.
use dingo_sdk.Base.{
  Bool, false, ◌&&◌, List, [], ◌∷◌, Option, none, some, if◌then◌else◌, ◌≡◌, ◌≢◌, refl, ap, ◌∙◌, All,
  All-map, All-keep, Bool-cases, inl, inr, arith, keep, last?,
}
use dingo_sdk.Key.{Key, key_ltb, key_leb}
use dingo_sdk.Key.Order.{◌<ₖ◌, lt_of_lt_of_le, lt_of_le_of_lt, le_trans, le_of_lt, lt_trans}
use dingo_sdk.OrdMap
use dingo_sdk.Outcome.{done, Returns, Returns-map}
use dingo_sdk.Status.{Result, success, failure, of_code, not_found}
use dingo_sdk.Region.{RegionPtr}
use dingo_sdk.MetaCache.{Cache, fast_look_up_region_by_key, look_at, add_range_to_cache_unlocked}
use dingo_sdk.MetaCache.Ids.{find_id}
use dingo_sdk.MetaCache.Invariant.{Entry, Ranges, IsValid}
use dingo_sdk.MetaCache.Overlap.{overlaps}
use dingo_sdk.MetaCache.Remove.{others}
use dingo_sdk.MetaCache.Add.{Added, Clear, Clear-keep, add_range_to_cache_unlocked-Added}

-- The region's range has the key.
abbrev pub covers : Key → RegionPtr → Bool
covers key r = key_leb r.start_key key && key_ltb key r.end_key

-- The region that covers the key, by a search through all.
unfoldable pub covering : Key → List Entry → Option RegionPtr
covering key [] = none
covering key ((j, r) ∷ m) = if covers key r then some r else covering key m

abbrev pub found : Option RegionPtr → Result RegionPtr
found none = failure (of_code not_found)
found (some r) = success r

abbrev Keyed : List Entry → Type 0
Keyed = All (λ e. e.0 ≡ e.1.start_key)

covering_above :
    (key : Key) (m : List Entry) → Keyed m → All (λ e. key <ₖ e.0) m → covering key m ≡ none
unfolding covering
covering_above key [] k h = refl
covering_above key ((j, r) ∷ m) k h = ground (arith, covering_above key m k.1 h.1, k.0, h.0)

look_at-covering :
    (key : Key) (c : Cache) (m : List Entry)
    → Ranges m
    → Keyed m
    → All (λ e. c.stale e.1.addr ≡ false) m
    → look_at key c (last? (OrdMap.up_to key m)) ≡ done (found (covering key m))
unfolding look_at covering OrdMap.up_to
look_at-covering key c [] h k f = refl
look_at-covering key c ((j, r) ∷ []) h k f = ground (arith, k.0, f.0)
look_at-covering key c ((j, r) ∷ (i, w) ∷ m) h k f = elim (Bool-cases (key_ltb key i)) [
  | inl lt ↦
      let rest : covering key ((i, w) ∷ m) ≡ none = covering_above key ((i, w) ∷ m) k.1 (
        lt,
        All-map (λ e p. lt_trans key i e.0 lt (lt_of_lt_of_le i w.end_key e.0 h.2.0 p.0)) m h.2.1,
      ) in
      ground (arith, k.0, f.0, rest, lt)
  | inr ge ↦
      let above : key_ltb key j ≡ false =
        le_of_lt j key (lt_of_lt_of_le j i key (lt_of_lt_of_le j r.end_key i h.0 h.1.0.0) ge) in
      let past : key_ltb key r.end_key ≡ false = le_trans r.end_key i key h.1.0.0 ge in
      ground (arith, k.0, look_at-covering key c ((i, w) ∷ m) h.2 k.1 f.1, ge, above, past)
]

-- On a valid cache the lookup makes no CHECK fail and gives the region that covers the key, or
-- NotFound if there is none.
pub fast_look_up_region_by_key-covering :
    (key : Key) (c : Cache)
    → IsValid c
    → fast_look_up_region_by_key key c ≡ done (found (covering key c.by_key))
unfolding fast_look_up_region_by_key
fast_look_up_region_by_key-covering key c v =
    look_at-covering key c c.by_key v.ranges v.keyed v.fresh

-- Two ranges have a key in common.
abbrev pub meets : RegionPtr → RegionPtr → Bool
meets r w = key_ltb w.start_key r.end_key && key_ltb r.start_key w.end_key

abbrev pub unless_meets : RegionPtr → Option RegionPtr → Option RegionPtr
unless_meets r none = none
unless_meets r (some w) = if meets r w then none else some w

module _ (r : RegionPtr) (key : Key) where
  covering-insert :
      (m : List Entry)
      → Keyed m
      → Clear r m
      → covering key (OrdMap.insert r.start_key r m)
        ≡ (if covers key r then some r else covering key m)
  unfolding covering OrdMap.insert
  covering-insert [] k c = refl
  covering-insert ((j, w) ∷ m) k c = ground (
    arith,
    covering-insert m k.1 c.1,
    k.0,
    c.0.0,
    lt_of_le_of_lt j key r.end_key,
    lt_of_le_of_lt r.start_key key w.end_key,
  )

  covering-keep :
      (m : List Entry)
      → Ranges m
      → Keyed m
      → covering key (keep (others (overlaps r)) m) ≡ unless_meets r (covering key m)
  unfolding covering
  covering-keep [] h k = refl
  covering-keep ((j, w) ∷ m) h k = elim (Bool-cases (key_ltb key w.end_key)) [
    | inl lt ↦ ground (arith, covering-keep m h.2 k.1, k.0, lt, rest lt)
    | inr ge ↦ ground (arith, covering-keep m h.2 k.1, k.0, ge)
  ]
    where
      rest : key <ₖ w.end_key → covering key (keep (others (overlaps r)) m) ≡ none
      rest lt =
          covering_above key (keep (others (overlaps r)) m) (All-keep _ _ m k.1)
            (All-keep _ _ m (All-map (λ e p. lt_of_lt_of_le key w.end_key e.0 lt p.0) m h.1))

-- On a valid cache that holds neither the id nor the object of a region with a proper range, after
-- `AddRangeToCacheUnlocked` of it a key of the new range finds the new region; any other key finds
-- what it found before, unless that overlaps the new range and so was displaced.
pub look_up_after_add :
    (r : RegionPtr) (p : r.start_key <ₖ r.end_key) (c : Cache)
    → IsValid c
    → find_id r.region_id c.by_id ≡ none
    → All (λ e. e.1.addr ≢ r.addr) c.by_key
    → Returns (add_range_to_cache_unlocked r c) λ c'.
      (key : Key)
      → fast_look_up_region_by_key key c'
        ≡ done (found (if covers key r then some r else unless_meets r (covering key c.by_key)))
look_up_after_add r p c v absent other =
    Returns-map (Added r p c) _ (add_range_to_cache_unlocked r c)
      (λ c' a key.
        fast_look_up_region_by_key-covering key c' a.valid
        ∙ ap (λ o. done (found o))
            (ap (covering key) a.holds
              ∙ covering-insert r key (keep (others (overlaps r)) c.by_key)
                  (All-keep _ _ c.by_key v.keyed) (Clear-keep r p c.by_key other)
              ∙ ap (λ o. if covers key r then some r else o)
                  (covering-keep r key c.by_key v.ranges v.keyed)))
      (add_range_to_cache_unlocked-Added r p c v absent other)
