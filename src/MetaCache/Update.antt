-- ===== src/MetaCache/Update.antt =====
-- `MaybeAddRegion`, `ClearRegion`, `RemoveRegion` and `ClearCache` on a valid cache.
use dingo_sdk.Base.{
  true, false, List, Option, none, some, ◌≡◌, ◌≢◌, ◌⊎◌, ◌<◌, refl, ap, ◌∙◌, All, All-map, All-both,
  Bool-cases, inl, inr, arith,
}
use dingo_sdk.Key.Order.{◌<ₖ◌}
use dingo_sdk.OrdMap.Laws.{All-erase}
use dingo_sdk.Outcome.{done, ◌>>=◌, Returns, Returns-map}
use dingo_sdk.Region.{RegionPtr, Epoch}
use dingo_sdk.MetaCache.{
  Cache, maybe_add_region, maybe_add_region_unlocked, need_update_region, need_clear_region,
  clear_region, add_range_to_cache_unlocked, remove_region_unlocked,
}
use dingo_sdk.MetaCache.Ids.{find_id, find_id-erase_id}
use dingo_sdk.MetaCache.Invariant.{
  Entry, IsValid, without, without-IsValid, remove_region_unlocked-without,
}
use dingo_sdk.MetaCache.Add.{Added, add_range_to_cache_unlocked-Added}

-- An object of the cache at the region's address is the region itself.
abbrev pub SameObject : RegionPtr → List Entry → Type 0
SameObject r = All (λ e. e.1.addr ≡ r.addr → e.1 ≡ r)

pub other_objects :
    (r : RegionPtr) (c : Cache)
    → IsValid c
    → find_id r.region_id c.by_id ≡ none
    → SameObject r c.by_key
    → All (λ e. e.1.addr ≢ r.addr) c.by_key
other_objects r c v absent one =
    All-map (λ e p q. cc (p.0, absent, ap (λ (x : RegionPtr). find_id x.region_id c.by_id) (p.1 q)))
      c.by_key (All-both _ _ c.by_key v.listed one)

-- `b` comes after `a`: by its version, and at the same version by its configuration.
abbrev pub Newer : Epoch → Epoch → Type 0
Newer a b = (a.version < b.version) ⊎ ((a.version ≡ b.version) × (a.conf_version < b.conf_version))

need_update_region-Newer :
    (old new : RegionPtr) → need_update_region old new ≡ true → Newer old.epoch new.epoch
unfolding need_update_region
need_update_region-Newer old new h = ground (arith, h)

need_update_region_current :
    (old new : RegionPtr) → need_update_region old new ≡ false → ¬ Newer old.epoch new.epoch
unfolding need_update_region
need_update_region_current old new h n = ground (arith, h, n)

need_clear_region_current :
    (old target : RegionPtr) → need_clear_region old target ≡ true → ¬ Newer old.epoch target.epoch
unfolding need_clear_region
need_clear_region_current old target h n = ground (arith, h, n)

need_clear_region-Newer :
    (old target : RegionPtr) → need_clear_region old target ≡ false → Newer old.epoch target.epoch
unfolding need_clear_region
need_clear_region-Newer old target h = ground (arith, h)

-- What `MaybeAddRegion` leaves: the cache itself, where it holds a region of that id which is as
-- new; or the cache less the region of that id, if any, with the new region added.
pub data MaybeAdded (r : RegionPtr) (p : r.start_key <ₖ r.end_key) (c c' : Cache) : Type 0 where
  current :
      (old : RegionPtr)
      → find_id r.region_id c.by_id ≡ some old
      → ¬ Newer old.epoch r.epoch
      → c' ≡ c
      → MaybeAdded r p c c'
  replaced :
      (old : RegionPtr)
      → find_id r.region_id c.by_id ≡ some old
      → Newer old.epoch r.epoch
      → Added r p (without old c) c'
      → MaybeAdded r p c c'
  added : find_id r.region_id c.by_id ≡ none → Added r p c c' → MaybeAdded r p c c'

module _ (r : RegionPtr) (c : Cache) where
  add_absent :
      find_id r.region_id c.by_id ≡ none
      → maybe_add_region_unlocked r c ≡ add_range_to_cache_unlocked r c
  unfolding maybe_add_region_unlocked
  add_absent h = rw (h, maybe_add_region_unlocked)

  module _ (old : RegionPtr) (held : find_id r.region_id c.by_id ≡ some old) where
    add_newer :
        need_update_region old r ≡ true
        → maybe_add_region_unlocked r c
          ≡ (remove_region_unlocked r.region_id c >>= add_range_to_cache_unlocked r)
    unfolding maybe_add_region_unlocked
    add_newer h = rw (held, maybe_add_region_unlocked, h)

    add_current : need_update_region old r ≡ false → maybe_add_region_unlocked r c ≡ done c
    unfolding maybe_add_region_unlocked
    add_current h = rw (held, maybe_add_region_unlocked, h)

-- On a valid cache, with a region of a proper range at whose address the cache holds no other: when the
-- epoch of the region does not come after that of the cached one of its id, nothing changes; otherwise
-- the region replaces that one, if there is one, and what it overlaps. An epoch comes after another by its
-- version, and at the same version by its configuration. No CHECK fails.
pub maybe_add_region-MaybeAdded :
    (r : RegionPtr) (p : r.start_key <ₖ r.end_key) (c : Cache)
    → IsValid c
    → SameObject r c.by_key
    → Returns (maybe_add_region r c) (MaybeAdded r p c)
unfolding maybe_add_region
maybe_add_region-MaybeAdded r p c v one = rw p (go (find_id r.region_id c.by_id) refl)
  where
    same_id :
        (old : RegionPtr) → find_id r.region_id c.by_id ≡ some old → old.region_id ≡ r.region_id
    same_id old h = (v.linked r.region_id old h).0

    held_own :
        (old : RegionPtr)
        → find_id r.region_id c.by_id ≡ some old
        → find_id old.region_id c.by_id ≡ some old
    held_own old h = ap (λ i. find_id i c.by_id) (same_id old h) ∙ h

    add_to :
        (d : Cache)
        → IsValid d
        → find_id r.region_id d.by_id ≡ none
        → SameObject r d.by_key
        → ((c' : Cache) → Added r p d c' → MaybeAdded r p c c')
        → maybe_add_region_unlocked r c ≡ add_range_to_cache_unlocked r d
        → Returns (maybe_add_region_unlocked r c) (MaybeAdded r p c)
    add_to d w absent same f e = rw e (
        Returns-map (Added r p d) (MaybeAdded r p c) (add_range_to_cache_unlocked r d) f
          (add_range_to_cache_unlocked-Added r p d w absent (other_objects r d w absent same)))

    go :
        (o : Option RegionPtr)
        → find_id r.region_id c.by_id ≡ o
        → Returns (maybe_add_region_unlocked r c) (MaybeAdded r p c)
    go none h = add_to c v h one (λ c' a. added h a) (add_absent r c h)
    go (some old) h = elim (Bool-cases (need_update_region old r)) [
      | inl n ↦
          add_to (without old c) (without-IsValid c v old (held_own old h))
            (ground (arith, find_id-erase_id r.region_id old.region_id c.by_id, same_id old h))
            (All-erase _ old.start_key c.by_key one)
            (λ c' a. replaced old h (need_update_region-Newer old r n) a)
            (rw (add_newer r c old h n, remove_region_unlocked-without c v old r.region_id h))
      | inr n ↦
          rw (add_current r c old h n) (current old h (need_update_region_current old r n) refl)
    ]

-- What `ClearRegion` leaves.
pub data Cleared (r : RegionPtr) (c c' : Cache) : Type 0 where
  stale_already : c.stale r.addr ≡ true → c' ≡ c → Cleared r c c'
  not_cached : find_id r.region_id c.by_id ≡ none → c' ≡ c → Cleared r c c'
  outdated :
      (held : RegionPtr)
      → find_id r.region_id c.by_id ≡ some held
      → Newer r.epoch held.epoch
      → c' ≡ c
      → Cleared r c c'
  cleared :
      (held : RegionPtr)
      → c.stale r.addr ≡ false
      → find_id r.region_id c.by_id ≡ some held
      → ¬ Newer r.epoch held.epoch
      → c' ≡ without held c
      → find_id r.region_id c'.by_id ≡ none
      → c'.stale held.addr ≡ true
      → Cleared r c c'

-- `ClearRegion` on a valid cache: no CHECK fails. When the region's object is not stale and the epoch of
-- the cached region of its id does not come after its own, that one is removed from the cache and stale
-- afterwards, and no region of the id is found; otherwise nothing changes.
pub clear_region-Cleared :
    (r : RegionPtr) (c : Cache) → IsValid c → Returns (clear_region r c) (Cleared r c)
clear_region-Cleared r c v = elim (Bool-cases (c.stale r.addr)) [
  | inl s ↦ rw (stale_lem s) (stale_already s refl)
  | inr s ↦ go s (find_id r.region_id c.by_id) refl
]
  where
    stale_lem : c.stale r.addr ≡ true → clear_region r c ≡ done c
    stale_lem s = unfold clear_region in rw s

    gone :
        (held : RegionPtr)
        → find_id r.region_id c.by_id ≡ some held
        → find_id r.region_id (without held c).by_id ≡ none
    gone held h = ground (
      arith,
      find_id-erase_id r.region_id held.region_id c.by_id,
      (v.linked r.region_id held h).0,
    )

    go :
        c.stale r.addr ≡ false
        → (o : Option RegionPtr) → find_id r.region_id c.by_id ≡ o
        → Returns (clear_region r c) (Cleared r c)
    go s none h = unfold clear_region in rw (s, h, clear_region) (not_cached h refl)
    go s (some held) h = elim (Bool-cases (need_clear_region r held)) [
      | inl n ↦
          unfold clear_region in
          rw (s, h, clear_region, n, remove_region_unlocked-without c v held r.region_id h)
            (cleared held s h (need_clear_region_current r held n) refl (gone held h)
              (ground arith))
      | inr n ↦
          unfold clear_region in
          rw (s, h, clear_region, n) (outdated held h (need_clear_region-Newer r held n) refl)
    ]
