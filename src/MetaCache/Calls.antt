-- ===== src/MetaCache/Calls.antt =====
-- The operations that change the cache, one after another.
use dingo_sdk.Base.{
  ℕ, Bool, true, List, [], ◌∷◌, Option, none, some, ◌==◌, ◌≡◌, refl, ap, ◌∙◌, All, All-map,
  Bool-cases, inl, inr, arith,
}
use dingo_sdk.Key.Order.{◌<ₖ◌}
use dingo_sdk.OrdMap.Laws.{All-erase}
use dingo_sdk.Outcome.{Outcome, done, Returns, Returns-map, Returns->>=, for_each}
use dingo_sdk.Region.{RegionPtr, Memory, update}
use dingo_sdk.MetaCache.{
  Cache, maybe_add_region, clear_region, remove_region, clear_cache, mark_all,
}
use dingo_sdk.MetaCache.Ids.{find_id}
use dingo_sdk.MetaCache.Invariant.{
  IsValid, without, without-IsValid, remove_region_unlocked-without,
}
use dingo_sdk.MetaCache.Update.{
  maybe_add_region-MaybeAdded, Cleared, stale_already, not_cached, outdated, cleared,
  clear_region-Cleared,
}
use dingo_sdk.MetaCache.History.{
  Retired-same, Retired-without, Known, Known-SameObject, Follows, MaybeAdded-Follows,
}

pub data Call : Type 0 where
  adds clears : RegionPtr → Call
  removes : ℕ → Call
  clears_all : Call

unfoldable pub call : Call → Cache → Outcome Cache
call (adds r) = maybe_add_region r
call (clears r) = clear_region r
call (removes id) = remove_region id
call clears_all = λ c. done (clear_cache c)

abbrev pub empty_cache : Memory → Cache
empty_cache m = record { memory = m; by_id = []; by_key = [] }

pub empty_cache-IsValid : (m : Memory) → IsValid (empty_cache m)
unfolding find_id
empty_cache-IsValid m = record {
  ranges = tt;
  keyed = tt;
  listed = tt;
  linked = λ i r h. cc;
  fresh = tt;
}

mark_all-stale :
    (m : List (ℕ × RegionPtr)) (stale : ℕ → Bool) (a : ℕ)
    → stale a ≡ true
    → mark_all m stale a ≡ true
unfolding mark_all
mark_all-stale [] stale a h = h
mark_all-stale ((i, r) ∷ m) stale a h = mark_all-stale m (update stale r.addr true) a (ground arith)

mark_all-find :
    (m : List (ℕ × RegionPtr)) (stale : ℕ → Bool) (i : ℕ) (r : RegionPtr)
    → find_id i m ≡ some r
    → mark_all m stale r.addr ≡ true
unfolding mark_all find_id
mark_all-find [] stale i r h = cc
mark_all-find ((j, w) ∷ m) stale i r h = elim (Bool-cases (i == j)) [
  | inl hit ↦
      let q : w ≡ r = ground (arith, h) in
      mark_all-stale m (update stale w.addr true) r.addr
        (ground (arith, ap (λ (x : RegionPtr). x.addr) q))
  | inr miss ↦ mark_all-find m (update stale w.addr true) i r (ground (arith, h))
]

module _ (object : ℕ → RegionPtr) where
  -- What a caller may pass: a region whose range is not empty, and one object at each address.
  abbrev pub Allowed : Call → Type 0
  Allowed (adds r) = (r.start_key <ₖ r.end_key) × (r ≡ object r.addr)
  Allowed _ = Unit

  Follows-same : (c : Cache) → IsValid c → Known object c.by_key → Follows object c c
  Follows-same c v k = record { valid = v; known = k; retired = Retired-same c v }

  Follows-without :
      (c : Cache) (r : RegionPtr)
      → IsValid c
      → Known object c.by_key
      → find_id r.region_id c.by_id ≡ some r
      → Follows object c (without r c)
  Follows-without c r v k h = record {
    valid = without-IsValid c v r h;
    known = All-erase _ r.start_key c.by_key k;
    retired = Retired-without c r v h;
  }

  own_id :
      (id : ℕ) (c : Cache) (r : RegionPtr)
      → IsValid c
      → find_id id c.by_id ≡ some r
      → find_id r.region_id c.by_id ≡ some r
  own_id id c r v h = ap (λ i. find_id i c.by_id) (v.linked id r h).0 ∙ h

  Cleared-Follows :
      (r : RegionPtr) (c : Cache)
      → IsValid c
      → Known object c.by_key
      → (c' : Cache) → Cleared r c c'
      → Follows object c c'
  Cleared-Follows r c v k c' (stale_already s e) = rw e (Follows-same c v k)
  Cleared-Follows r c v k c' (not_cached h e) = rw e (Follows-same c v k)
  Cleared-Follows r c v k c' (outdated held h n e) = rw e (Follows-same c v k)
  Cleared-Follows r c v k c' (cleared held s h n e g q) =
      rw e (Follows-without c held v k (own_id r.region_id c held v h))

  remove_region-Follows :
      (id : ℕ) (c : Cache)
      → IsValid c
      → Known object c.by_key
      → Returns (remove_region id c) (Follows object c)
  unfolding remove_region
  remove_region-Follows id c v k = go (find_id id c.by_id) refl
    where
      go :
          (o : Option RegionPtr)
          → find_id id c.by_id ≡ o
          → Returns (remove_region id c) (Follows object c)
      go none h = rw (h, remove_region) (Follows-same c v k)
      go (some r) h =
          rw (h, remove_region, remove_region_unlocked-without c v r id h)
            (Follows-without c r v k (own_id id c r v h))

  -- A call that may add only a region with a proper range, and one object at each address: no CHECK
  -- of it fails on a valid cache; the cache stays valid, its regions disjoint, each
  -- found by its id and by its start key and not stale, and a region that it gives up is stale.
  pub call-Follows :
      (k : Call) (c : Cache)
      → Allowed k
      → IsValid c
      → Known object c.by_key
      → Returns (call k c) (Follows object c)
  unfolding call clear_cache
  call-Follows (adds r) c a v k =
      Returns-map _ (Follows object c) (maybe_add_region r c)
        (λ c' m. MaybeAdded-Follows object r a.0 c c' v k a.1 m)
        (maybe_add_region-MaybeAdded r a.0 c v (Known-SameObject object r c.by_key a.1 k))
  call-Follows (clears r) c a v k =
      Returns-map (Cleared r c) (Follows object c) (clear_region r c) (Cleared-Follows r c v k)
        (clear_region-Cleared r c v)
  call-Follows (removes id) c a v k = remove_region-Follows id c v k
  call-Follows clears_all c a v k = record {
    valid = record {
      ranges = tt;
      keyed = tt;
      listed = tt;
      linked = λ i r h. unfold find_id in cc;
      fresh = tt;
    };
    known = tt;
    retired =
        All-map (λ e p. inl (mark_all-find c.by_id c.stale e.1.region_id e.1 p)) c.by_key v.listed;
  }

  -- From a valid cache, a sequence of calls that change the cache, each adding only regions with a
  -- proper range and one object at each address, fails no CHECK and leaves the cache valid.
  pub run-IsValid :
      (ks : List Call) (c : Cache)
      → All Allowed ks
      → IsValid c
      → Known object c.by_key
      → Returns (for_each call ks c) (λ c'. IsValid c' × Known object c'.by_key)
  unfolding for_each
  run-IsValid [] c a v k = (v, k)
  run-IsValid (x ∷ xs) c a v k =
      Returns->>= (Follows object c) _ (call x c) (for_each call xs) (call-Follows x c a.0 v k)
        λ c' f. run-IsValid xs c' a.1 f.valid f.known
