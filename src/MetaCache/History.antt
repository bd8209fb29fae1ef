-- ===== src/MetaCache/History.antt =====
-- Any sequence of calls that change the cache, from the empty cache on.
use dingo_sdk.Base.{
  ℕ, Bool, true, List, [], ◌∷◌, some, ◌==◌, ◌≡◌, ◌≢◌, ◌⊎◌, sym, ap, ◌∙◌, subst, All, All-map,
  All-both, All-keep, Bool-cases, inl, inr, arith, keep,
}
use dingo_sdk.Key.Order.{◌<ₖ◌}
use dingo_sdk.OrdMap.Laws.{All-erase, All-insert, All-find, All-of_insert}
use dingo_sdk.Region.{Epoch, RegionPtr, update}
use dingo_sdk.MetaCache.{Cache}
use dingo_sdk.MetaCache.Ids.{find_id, find_id-erase_id}
use dingo_sdk.MetaCache.Invariant.{Entry, IsValid, without, without-IsValid}
use dingo_sdk.MetaCache.Overlap.{overlaps, regions}
use dingo_sdk.MetaCache.Remove.{at_addr, others}
use dingo_sdk.MetaCache.Add.{Added}
use dingo_sdk.MetaCache.Update.{
  Newer, SameObject, other_objects, MaybeAdded, current, replaced, added,
}

-- The region of the entry is stale, or still cached.
abbrev pub Settled : Cache → Entry → Type 0
Settled c e = (c.stale e.1.addr ≡ true) ⊎ (find_id e.1.region_id c.by_id ≡ some e.1)

abbrev pub Retired : Cache → Cache → Type 0
Retired c c' = All (Settled c') c.by_key

pub Retired-same : (c : Cache) → IsValid c → Retired c c
Retired-same c v = All-map (λ e p. inr p) c.by_key v.listed

pub Retired-without :
    (c : Cache) (r : RegionPtr)
    → IsValid c
    → find_id r.region_id c.by_id ≡ some r
    → Retired c (without r c)
Retired-without c r v h = All-map settle c.by_key v.listed
  where
    settle : (e : Entry) → find_id e.1.region_id c.by_id ≡ some e.1 → Settled (without r c) e
    settle e p = elim (Bool-cases (e.1.region_id == r.region_id)) [
      | inl hit ↦
          let q : e.1 ≡ r = ground (arith, h, p) in
          inl (subst (λ x. update c.stale r.addr true x.addr ≡ true) (sym q) (ground arith))
      | inr miss ↦ inr (ground (arith, find_id-erase_id e.1.region_id r.region_id c.by_id, p))
    ]

at_addr-keep :
    (p : Entry → Bool) (m : List Entry)
    → All (λ e. p e ≡ true → at_addr e.1.addr (regions (keep p m)) ≡ true) m
at_addr-keep p [] = tt
at_addr-keep p (e ∷ m) =
    ((λ h. ground arith), All-map (λ x q h. ground (arith, q h)) m (at_addr-keep p m))

All-of_keep :
    (P : Entry → Type 0) (p : Entry → Bool) (m : List Entry)
    → All P (keep p m)
    → All (λ e. p e ≡ true → P e) m
All-of_keep P p [] h = tt
All-of_keep P p (e ∷ m) h = elim (Bool-cases (p e)) [
  | inl hit ↦
      let g : P e × All P (keep p m) = rw (hit, keep) at h in ((λ _. g.0), All-of_keep P p m g.1)
  | inr miss ↦ let g : All P (keep p m) = rw (miss, keep) at h in ((λ h. cc), All-of_keep P p m g)
]

Retired_added_lem :
    (r : RegionPtr) (p : r.start_key <ₖ r.end_key) (c c' : Cache)
    → All (λ e. e.1.addr ≢ r.addr) c.by_key
    → Added r p c c'
    → Retired c c'
Retired_added_lem r p c c' other a = All-map settle c.by_key (
    All-both _ _ c.by_key other (
      All-both _ _ c.by_key (at_addr-keep (overlaps r) c.by_key)
        (All-of_keep Held (others (overlaps r)) c.by_key kept)))
  where
    Held : Entry → Type 0
    Held e = find_id e.1.region_id c'.by_id ≡ some e.1

    kept : All Held (keep (others (overlaps r)) c.by_key)
    kept =
        (All-of_insert Held r.start_key r (keep (others (overlaps r)) c.by_key)
          (subst (All Held) a.holds a.valid.listed)).1

    settle :
        (e : Entry)
        → (e.1.addr ≢ r.addr)
          × ((overlaps r e ≡ true → at_addr e.1.addr (regions (keep (overlaps r) c.by_key)) ≡ true)
              × (others (overlaps r) e ≡ true → Held e))
        → Settled c' e
    settle e h = elim (Bool-cases (overlaps r e)) [
      | inl hit ↦ inl (ground (arith, a.marked e.1.addr, h.1.0 hit, h.0))
      | inr miss ↦ inr (h.1.1 (rw miss))
    ]

-- What `without` leaves settled stays so when a region is added at another address.
Retired-replaced :
    (r : RegionPtr) (p : r.start_key <ₖ r.end_key) (old : RegionPtr) (c c' : Cache)
    → IsValid c
    → find_id old.region_id c.by_id ≡ some old
    → All (λ e. e.1.addr ≢ r.addr) c.by_key
    → Added r p (without old c) c'
    → Retired c c'
Retired-replaced r p old c c' v held other a =
    All-map settle c.by_key (All-both _ _ c.by_key other (Retired-without c old v held))
  where
    d : Cache
    d = without old c

    after : Retired d c'
    after = Retired_added_lem r p d c' (All-erase _ old.start_key c.by_key other) a

    settle : (e : Entry) → (e.1.addr ≢ r.addr) × Settled d e → Settled c' e
    settle e (n, inl gone) = inl (ground (arith, a.marked e.1.addr, gone, n))
    settle e (n, inr found) =
        All-find (Settled c') e.1.start_key e.1 d.by_key after
          ((without-IsValid c v old held).linked e.1.region_id e.1 found).1

not-Newer_self : (e : Epoch) → ¬ Newer e e
not-Newer_self e n = ground (arith, n)

-- One object at each address: all that is ever added is `object` of its address.
module _ (object : ℕ → RegionPtr) where
  abbrev pub Known : List Entry → Type 0
  Known = All (λ e. e.1 ≡ object e.1.addr)

  pub Known-SameObject :
      (r : RegionPtr) (m : List Entry) → r ≡ object r.addr → Known m → SameObject r m
  Known-SameObject r m h = All-map (λ e k q. k ∙ (ap object q ∙ sym h)) m

  -- The cache is valid, and each region that it no longer holds is stale.
  pub record Follows (c c' : Cache) : Type 0 where
    pub valid : IsValid c'
    pub known : Known c'.by_key
    pub retired : Retired c c'

  Added-Known :
      (r : RegionPtr) (p : r.start_key <ₖ r.end_key) (c c' : Cache)
      → r ≡ object r.addr
      → Known c.by_key
      → Added r p c c'
      → Known c'.by_key
  Added-Known r p c c' h k a =
      rw a.holds (All-insert _ r.start_key r _ h (All-keep _ (others (overlaps r)) c.by_key k))

  pub MaybeAdded-Follows :
      (r : RegionPtr) (p : r.start_key <ₖ r.end_key) (c c' : Cache)
      → IsValid c
      → Known c.by_key
      → r ≡ object r.addr
      → MaybeAdded r p c c'
      → Follows c c'
  MaybeAdded-Follows r p c c' v k h (current old held n e) =
      rw e (record { valid = v; known = k; retired = Retired-same c v })
  MaybeAdded-Follows r p c c' v k h (added absent a) = record {
    valid = a.valid;
    known = Added-Known r p c c' h k a;
    retired =
        Retired_added_lem r p c c' (other_objects r c v absent (Known-SameObject r c.by_key h k)) a;
  }
  MaybeAdded-Follows r p c c' v k h (replaced old held n a) = record {
    valid = a.valid;
    known = Added-Known r p (without old c) c' h (All-erase _ old.start_key c.by_key k) a;
    retired = Retired-replaced r p old c c' v own other a;
  }
    where
      own : find_id old.region_id c.by_id ≡ some old
      own = ap (λ i. find_id i c.by_id) (v.linked r.region_id old held).0 ∙ held

      apart : (e : Entry) → find_id e.1.region_id c.by_id ≡ some e.1 → e.1 ≡ r → ⊥
      apart e l q =
          let same : r ≡ old =
            ground (arith, ap (λ (x : RegionPtr). find_id x.region_id c.by_id) q, l, held) in
          not-Newer_self r.epoch (subst (λ (x : RegionPtr). Newer x.epoch r.epoch) (sym same) n)

      other : All (λ e. e.1.addr ≢ r.addr) c.by_key
      other =
          All-map (λ e x q. apart e x.0 (x.1 q)) c.by_key
            (All-both _ _ c.by_key v.listed (Known-SameObject r c.by_key h k))
