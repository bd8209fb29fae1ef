-- ===== src/MetaCache/Add.antt =====
-- `AddRangeToCacheUnlocked`: the cache afterwards holds the new region and all that does not overlap
-- it.
use dingo_sdk.Base.{
  ℕ, false, ◌||◌, List, [], ◌∷◌, none, some, if◌then◌else◌, ◌==◌, ◌≡◌, ◌≢◌, refl, sym, ap, ◌∙◌,
  subst, All, All-map, All-both, Bool-cases, inl, inr, arith, keep,
}
use dingo_sdk.Key.{Key, key_ltb}
use dingo_sdk.Key.Order.{
  ◌<ₖ◌, ◌≤ₖ◌, eqb_refl, eqb_iff, lt_of_lt_of_le, lt_of_le_of_lt, le_trans, le_of_lt, lt_trans,
}
use dingo_sdk.OrdMap
use dingo_sdk.OrdMap.{IsSorted}
use dingo_sdk.OrdMap.Laws.{find-insert, All-insert}
use dingo_sdk.Outcome.{done, Returns, Returns->>=}
use dingo_sdk.Region.{RegionPtr, update}
use dingo_sdk.MetaCache.{Cache, remove_each, store_region, add_range_to_cache_unlocked}
use dingo_sdk.MetaCache.Ids.{find_id, find_id-cons}
use dingo_sdk.MetaCache.Invariant.{Entry, Ranges, IsValid}
use dingo_sdk.MetaCache.Overlap.{overlaps, regions, scan-keep}
use dingo_sdk.MetaCache.Remove.{Removed, at_addr, others, remove_each-Removed}

-- No entry overlaps the region, and none is the same object.
abbrev pub Clear : RegionPtr → List Entry → Type 0
Clear r = All (λ e. (overlaps r e ≡ false) × (e.1.addr ≢ r.addr))

module _ (r : RegionPtr) (proper : r.start_key <ₖ r.end_key) where
  ends_before :
      (j : Key) (w : RegionPtr)
      → r.start_key <ₖ j
      → j <ₖ w.end_key
      → overlaps r (j, w) ≡ false
      → r.end_key ≤ₖ j
  ends_before j w lt h o = ground (arith, lt_trans r.start_key j w.end_key lt h)

  begins_after :
      (j : Key) (w : RegionPtr)
      → j ≤ₖ r.start_key
      → overlaps r (j, w) ≡ false
      → w.end_key ≤ₖ r.start_key
  begins_after j w ge o = ground (arith, lt_of_le_of_lt j r.start_key r.end_key ge proper)

  pub insert-Ranges :
      (m : List Entry) → Ranges m → Clear r m → Ranges (OrdMap.insert r.start_key r m)
  unfolding OrdMap.insert
  insert-Ranges [] h c = (proper, tt, tt)
  insert-Ranges ((j, w) ∷ m) h c = elim (Bool-cases (key_ltb r.start_key j)) [
    | inl lt ↦ rw (lt, OrdMap.insert) (proper, above (ends_before j w lt h.0 c.0.0), h)
    | inr ge ↦
        rw (ge, OrdMap.insert)
          (
            h.0,
            All-insert _ r.start_key r m (begins_after j w ge c.0.0, c.0.1) h.1,
            insert-Ranges m h.2 c.1,
          )
  ]
    where
      above : r.end_key ≤ₖ j → All (λ e. (r.end_key ≤ₖ e.0) × (r.addr ≢ e.1.addr)) ((j, w) ∷ m)
      above le = (
        (le, λ p. c.0.1 (sym p)),
        All-map
            (λ e p. (
              le_trans r.end_key j e.0 le
                  (le_of_lt j e.0 (lt_of_lt_of_le j w.end_key e.0 h.0 p.0.0)),
              λ q. p.1.1 (sym q),
            ))
            m (All-both _ _ m h.1 c.1),
      )

  Clear-find : (m : List Entry) → Ranges m → Clear r m → OrdMap.find r.start_key m ≡ none
  unfolding OrdMap.find
  Clear-find [] h c = refl
  Clear-find ((j, w) ∷ m) h c =
      ground (arith, Clear-find m h.2 c.1, (eqb_iff r.start_key j).0, c.0.0, h.0, proper)

  stored : Cache → Cache
  stored c = record {
    memory = record c.memory { stale = update c.stale r.addr false };
    by_id = (r.region_id, r) ∷ c.by_id;
    by_key = OrdMap.insert r.start_key r c.by_key;
  }

  module _ (c : Cache) (v : IsValid c) (clear : Clear r c.by_key)
      (new_id : find_id r.region_id c.by_id ≡ none) where
    store_region-stored : store_region r c ≡ done (stored c)
    unfolding store_region stored
    store_region-stored = rw (new_id, Clear-find c.by_key v.ranges clear)

    found-stored :
        (q : RegionPtr)
        → OrdMap.find q.start_key c.by_key ≡ some q
        → OrdMap.find q.start_key (OrdMap.insert r.start_key r c.by_key) ≡ some q
    found-stored q f =
        find-insert r.start_key q.start_key r c.by_key (Clear-find c.by_key v.ranges clear)
        ∙ ground (arith, (eqb_iff q.start_key r.start_key).0, Clear-find c.by_key v.ranges clear)

    linked-stored :
        (i : ℕ) (q : RegionPtr)
        → find_id i ((r.region_id, r) ∷ c.by_id) ≡ some q
        → (q.region_id ≡ i)
          × (OrdMap.find q.start_key (OrdMap.insert r.start_key r c.by_key) ≡ some q)
    linked-stored i q e = elim (Bool-cases (i == r.region_id)) [
      | inl hit ↦
          let p : r ≡ q = ground (arith, find_id-cons i r.region_id r c.by_id) in
          subst
            (λ x.
              (x.region_id ≡ i)
              × (OrdMap.find x.start_key (OrdMap.insert r.start_key r c.by_key) ≡ some x))
            p
            (
              ground arith,
              find-insert r.start_key r.start_key r c.by_key (Clear-find c.by_key v.ranges clear)
                  ∙ ground (arith, eqb_refl r.start_key),
            )
      | inr miss ↦
          let (l, f) = v.linked i q (ground (arith, find_id-cons i r.region_id r c.by_id)) in
          (l, found-stored q f)
    ]

    stored-IsValid : IsValid (stored c)
    unfolding stored
    stored-IsValid = record {
      ranges = insert-Ranges c.by_key v.ranges clear;
      keyed = All-insert _ r.start_key r c.by_key refl v.keyed;
      listed =
          All-insert _ r.start_key r c.by_key
            (ground (arith, find_id-cons r.region_id r.region_id r c.by_id))
            (All-map (λ e p. ground (arith, find_id-cons e.1.region_id r.region_id r c.by_id))
              c.by_key v.listed);
      linked = linked-stored;
      fresh =
          All-insert _ r.start_key r c.by_key (ground arith)
            (All-map (λ e p. ground arith) c.by_key v.fresh);
    }

  -- The cache `c'` is `c` with the region `r`: it holds it and what does not overlap it; what it
  -- displaces is stale, and no other object changes.
  pub record Added (c c' : Cache) : Type 0 where
    pub valid : IsValid c'
    pub holds : c'.by_key ≡ OrdMap.insert r.start_key r (keep (others (overlaps r)) c.by_key)
    pub marked :
        (a : ℕ)
        → c'.stale a ≡ (
            if r.addr == a
            then false
            else at_addr a (regions (keep (overlaps r) c.by_key)) || c.stale a)
    pub same_roles : c'.roles ≡ c.roles
    pub same_next : c'.next_addr ≡ c.next_addr

  pub Clear-keep :
      (m : List Entry) → All (λ e. e.1.addr ≢ r.addr) m → Clear r (keep (others (overlaps r)) m)
  Clear-keep [] h = tt
  Clear-keep (e ∷ m) h = elim (Bool-cases (overlaps r e)) [
    | inl hit ↦ rw (hit, keep) (Clear-keep m h.1)
    | inr miss ↦ rw (miss, keep) ((miss, h.0), Clear-keep m h.1)
  ]

  store-Added :
      (c : Cache)
      → find_id r.region_id c.by_id ≡ none
      → All (λ e. e.1.addr ≢ r.addr) c.by_key
      → (d : Cache)
      → Removed c (regions (keep (overlaps r) c.by_key)) (keep (others (overlaps r)) c.by_key) d
      → Returns (store_region r d) (Added c)
  unfolding stored
  store-Added c new_id other d m =
      let clear : Clear r d.by_key = rw m.remains (Clear-keep c.by_key other) in
      let absent : find_id r.region_id d.by_id ≡ none = m.absent r.region_id new_id in
      rw (store_region-stored d m.valid clear absent) (record {
        valid = stored-IsValid d m.valid clear absent;
        holds = ap (OrdMap.insert r.start_key r) m.remains;
        marked = λ a. ground (arith, m.marked a);
        same_roles = m.same_roles;
        same_next = m.same_next;
      })

  -- On a valid cache that holds neither the region's id nor its object no CHECK fails.
  pub add_range_to_cache_unlocked-Added :
      (c : Cache)
      → IsValid c
      → find_id r.region_id c.by_id ≡ none
      → All (λ e. e.1.addr ≢ r.addr) c.by_key
      → Returns (add_range_to_cache_unlocked r c) (Added c)
  unfolding add_range_to_cache_unlocked
  add_range_to_cache_unlocked-Added c v new_id other =
      let (first, found, whole) = scan-keep r c.by_key proper v.ranges v.keyed in
      rw (found, whole)
        (Returns->>= _ (Added c) (remove_each (regions (keep (overlaps r) c.by_key)) c)
          (store_region r) (remove_each-Removed (overlaps r) [] c.by_key c v refl)
          (store-Added c new_id other))
