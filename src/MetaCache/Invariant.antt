-- ===== src/MetaCache/Invariant.antt =====
-- What the two maps of the cache have in common, and that removing a region keeps it.
use dingo_sdk.Base.{
  ℕ, true, false, List, [], ◌∷◌, some, ◌≡◌, ◌≢◌, sym, ap, ◌∙◌, subst, All, All-map, All-both,
  Bool-cases, inl, inr, arith,
}
use dingo_sdk.Key.{Key, key_eqb}
use dingo_sdk.Key.Order.{◌<ₖ◌, ◌≤ₖ◌, lt_of_lt_of_le, eqb_iff, eqb_refl}
use dingo_sdk.OrdMap
use dingo_sdk.OrdMap.{IsSorted}
use dingo_sdk.OrdMap.Laws.{find-erase, All-erase, All-find, erase-All-ne}
use dingo_sdk.Outcome.{done}
use dingo_sdk.Region.{RegionPtr, update}
use dingo_sdk.MetaCache.{Cache, remove_region_unlocked}
use dingo_sdk.MetaCache.Ids.{find_id, erase_id, find_id-erase_id}

abbrev pub Entry : Type 0
Entry = Key × RegionPtr

-- A region begins where an earlier one has ended, or later; and is another object.
abbrev pub Ranges : List Entry → Type 0
Ranges [] = Unit
Ranges ((k, r) ∷ m) =
    (k <ₖ r.end_key) × All (λ e. (r.end_key ≤ₖ e.0) × (r.addr ≢ e.1.addr)) m × Ranges m

pub record IsValid (c : Cache) : Type 0 where
  pub ranges : Ranges c.by_key
  pub keyed : All (λ e. e.0 ≡ e.1.start_key) c.by_key
  pub listed : All (λ e. find_id e.1.region_id c.by_id ≡ some e.1) c.by_key
  pub linked :
      (i : ℕ) (r : RegionPtr)
      → find_id i c.by_id ≡ some r
      → (r.region_id ≡ i) × (OrdMap.find r.start_key c.by_key ≡ some r)
  pub fresh : All (λ e. c.stale e.1.addr ≡ false) c.by_key

pub Ranges-IsSorted : (m : List Entry) → Ranges m → IsSorted m
Ranges-IsSorted [] h = tt
Ranges-IsSorted ((k, r) ∷ m) h =
    (All-map (λ e p. lt_of_lt_of_le k r.end_key e.0 h.0 p.0) m h.1, Ranges-IsSorted m h.2)

erase-Ranges : (k : Key) (m : List Entry) → Ranges m → Ranges (OrdMap.erase k m)
unfolding OrdMap.erase
erase-Ranges k [] h = tt
erase-Ranges k ((j, r) ∷ m) h = elim (Bool-cases (key_eqb k j)) [
  | inl same ↦ rw (same, OrdMap.erase) h.2
  | inr other ↦ rw (other, OrdMap.erase) (h.0, All-erase _ k m h.1, erase-Ranges k m h.2)
]

-- The other regions are other objects.
erase-addr :
    (k : Key) (r : RegionPtr) (m : List Entry)
    → Ranges m
    → OrdMap.find k m ≡ some r
    → All (λ e. r.addr ≢ e.1.addr) (OrdMap.erase k m)
unfolding OrdMap.find OrdMap.erase
erase-addr k r [] h f = tt
erase-addr k r ((j, w) ∷ m) h f = elim (Bool-cases (key_eqb k j)) [
  | inl same ↦
      let q : w ≡ r = ground (arith, f) in
      rw (same, OrdMap.erase)
        (subst (λ x. All (λ e. x.addr ≢ e.1.addr) m) q (All-map (λ e p. p.1) m h.1))
  | inr other ↦
      let g : OrdMap.find k m ≡ some r = ground (arith, f) in
      rw (other, OrdMap.erase) ((λ e. (All-find _ k r m h.1 g).1 (sym e)), erase-addr k r m h.2 g)
]

-- The cache without the region `r`, which is marked stale.
abbrev pub without : RegionPtr → Cache → Cache
without r c = record {
  memory = record c.memory { stale = update c.stale r.addr true };
  by_id = erase_id r.region_id c.by_id;
  by_key = OrdMap.erase r.start_key c.by_key;
}

module _ (c : Cache) (v : IsValid c) (r : RegionPtr) where
  pub remove_region_unlocked-without :
      (id : ℕ) → find_id id c.by_id ≡ some r → remove_region_unlocked id c ≡ done (without r c)
  unfolding remove_region_unlocked
  remove_region_unlocked-without id h =
      rw (h, (v.linked id r h).1)
        (ap (λ i. done (record (without r c) { by_id = erase_id i c.by_id }))
          (sym (v.linked id r h).0))

  module _ (h : find_id r.region_id c.by_id ≡ some r) where
    others :
        All
          (λ e.
            (find_id e.1.region_id c.by_id ≡ some e.1)
            × ((e.0 ≡ e.1.start_key) × (key_eqb r.start_key e.0 ≡ false)))
          (OrdMap.erase r.start_key c.by_key)
    others = All-both _ _ _ (All-erase _ r.start_key c.by_key v.listed) (
        All-both _ _ _ (All-erase _ r.start_key c.by_key v.keyed)
          (erase-All-ne r.start_key c.by_key (Ranges-IsSorted c.by_key v.ranges)))

    other_id :
        (e : Entry)
        → find_id e.1.region_id c.by_id ≡ some e.1
        → e.0 ≡ e.1.start_key
        → key_eqb r.start_key e.0 ≡ false
        → e.1.region_id ≢ r.region_id
    other_id e l k n same =
        let p : e.1 ≡ r = ground (arith, l, h) in
        cc (n, k, eqb_refl r.start_key, ap (λ (x : RegionPtr). x.start_key) p)

    pub without-IsValid : IsValid (without r c)
    without-IsValid = record {
      ranges = erase-Ranges r.start_key c.by_key v.ranges;
      keyed = All-erase _ r.start_key c.by_key v.keyed;
      listed =
          All-map
            (λ e p. ground (
              arith,
              find_id-erase_id e.1.region_id r.region_id c.by_id,
              other_id e p.0 p.1.0 p.1.1,
            ))
            _ others;
      linked = λ i q e.
          let (l, f) = v.linked i q (ground (arith, find_id-erase_id i r.region_id c.by_id)) in
          (
            l,
            find-erase r.start_key q.start_key c.by_key (Ranges-IsSorted c.by_key v.ranges)
                ∙ ground (
                  arith,
                  (eqb_iff q.start_key r.start_key).0,
                  (v.linked _ r h).1,
                  find_id-erase_id i r.region_id c.by_id,
                ),
          );
      fresh =
          All-map (λ e p. ground (arith, p.0, p.1)) _
            (All-both _ _ _ (All-erase _ r.start_key c.by_key v.fresh)
              (erase-addr r.start_key r c.by_key v.ranges (v.linked _ r h).1));
    }
