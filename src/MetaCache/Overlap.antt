-- ===== src/MetaCache/Overlap.antt =====
-- Which regions a new range displaces: the scan of the source finds all that overlap it.
use dingo_sdk.Base.{
  Bool, false, ◌&&◌, List, [], ◌∷◌, ◌++◌, map, ◌≡◌, refl, sym, ap, ◌∙◌, All, All-map,
  All-append_left, All-append_right, Bool-cases, inl, inr, arith, keep, keep_no, keep_none,
  keep-append, last?,
}
use mathlib.Core.List.{map-append}
use mathlib.Core.Path.{◌≡⟨◌⟩◌, ◌∎}
use dingo_sdk.Key.{Key, key_ltb}
use dingo_sdk.Key.Order.{◌<ₖ◌, ◌≤ₖ◌, lt_of_lt_of_le, lt_of_le_of_lt, le_trans, le_of_lt, lt_trans}
use dingo_sdk.OrdMap
use dingo_sdk.OrdMap.Laws.{before-from}
use dingo_sdk.Outcome.{done}
use dingo_sdk.Region.{RegionPtr}
use dingo_sdk.MetaCache.{overlap_before, overlap_from}
use dingo_sdk.MetaCache.Invariant.{Entry, Ranges}

-- The range of the entry and that of the region `r` have a key in common.
abbrev pub overlaps : RegionPtr → Entry → Bool
overlaps r e = key_ltb e.0 r.end_key && key_ltb r.start_key e.1.end_key

abbrev pub regions : List Entry → List RegionPtr
regions = map (λ e. e.1)

abbrev Keyed : List Entry → Type 0
Keyed = All (λ e. e.0 ≡ e.1.start_key)

module _ (r : RegionPtr) (proper : r.start_key <ₖ r.end_key) where
  -- Of the regions that begin before the range only the last can reach into it.
  overlap_before-keep :
      (m : List Entry)
      → Ranges m
      → Keyed m
      → All (λ e. e.0 <ₖ r.start_key) m
      → overlap_before r.start_key (last? m) ≡ done (regions (keep (overlaps r) m))
  unfolding overlap_before
  overlap_before-keep [] h k b = refl
  overlap_before-keep ((j, w) ∷ []) h k b =
      ground (arith, lt_trans j r.start_key r.end_key b.0 proper, k.0, b.0)
  overlap_before-keep ((j, w) ∷ (i, x) ∷ m) h k b =
      overlap_before-keep ((i, x) ∷ m) h.2 k.1 b.1
      ∙ ap (λ l. done (regions l)) (sym (keep_no (overlaps r) (j, w) ((i, x) ∷ m) apart))
    where
      apart : overlaps r (j, w) ≡ false
      apart =
          ground (arith, le_trans w.end_key i r.start_key h.1.0.0 (le_of_lt i r.start_key b.1.0))

  -- Those that begin at or after its start overlap it as long as they begin before its end.
  overlap_from-keep :
      (m : List Entry)
      → Ranges m
      → Keyed m
      → All (λ e. r.start_key ≤ₖ e.0) m
      → overlap_from r.end_key m ≡ regions (keep (overlaps r) m)
  unfolding overlap_from
  overlap_from-keep [] h k b = refl
  overlap_from-keep ((j, w) ∷ m) h k b = elim (Bool-cases (key_ltb j r.end_key)) [
    | inl lt ↦ ground (
      arith,
      overlap_from-keep m h.2 k.1 b.1,
      k.0,
      lt_of_le_of_lt r.start_key j w.end_key b.0 h.0,
    )
    | inr ge ↦ ground (arith, k.0, keep_none (overlaps r) m (rest ge))
  ]
    where
      rest : r.end_key ≤ₖ j → All (λ e. overlaps r e ≡ false) m
      rest ge =
          All-map
            (λ e p. ground (
              arith,
              le_trans r.end_key j e.0 ge (le_of_lt j e.0 (lt_of_lt_of_le j w.end_key e.0 h.0 p.0)),
            ))
            m h.1

Ranges-append : (a b : List Entry) → Ranges (a ++ b) → Ranges a × Ranges b
Ranges-append [] b h = (tt, h)
Ranges-append ((j, w) ∷ a) b h =
    let (l, g) = Ranges-append a b h.2 in ((h.0, All-append_left _ a b h.1, l), g)

All-before : (s : Key) (m : List Entry) → All (λ e. e.0 <ₖ s) (OrdMap.before s m)
unfolding OrdMap.before
All-before s [] = tt
All-before s ((j, w) ∷ m) = elim (Bool-cases (key_ltb j s)) [
  | inl lt ↦ rw (lt, OrdMap.before) (lt, All-before s m)
  | inr ge ↦ rw (ge, OrdMap.before) tt
]

All-from : (s : Key) (m : List Entry) → Ranges m → All (λ e. s ≤ₖ e.0) (OrdMap.from s m)
unfolding OrdMap.from
All-from s [] h = tt
All-from s ((j, w) ∷ m) h = elim (Bool-cases (key_ltb j s)) [
  | inl lt ↦ rw (lt, OrdMap.from) (All-from s m h.2)
  | inr ge ↦
      rw (ge, OrdMap.from)
        (
          ge,
          All-map
              (λ e p. le_trans s j e.0 ge (le_of_lt j e.0 (lt_of_lt_of_le j w.end_key e.0 h.0 p.0)))
              m h.1,
        )
]

-- The scan of `AddRangeToCacheUnlocked` makes no CHECK fail and lists the overlapping regions.
pub scan-keep :
    (r : RegionPtr) (m : List Entry)
    → r.start_key <ₖ r.end_key
    → Ranges m
    → Keyed m
    → (first : List RegionPtr) × (overlap_before r.start_key (last? (OrdMap.before r.start_key m))
        ≡ done first)
      × (first ++ overlap_from r.end_key (OrdMap.from r.start_key m)
          ≡ regions (keep (overlaps r) m))
scan-keep r m p h k = (
  regions (keep (overlaps r) b),
  overlap_before-keep r p b parts.0 (All-append_left _ b a keyed) (All-before r.start_key m),
  whole,
)
  where
    b : List Entry
    b = OrdMap.before r.start_key m

    a : List Entry
    a = OrdMap.from r.start_key m

    parts : Ranges b × Ranges a
    parts = Ranges-append b a (rw (before-from r.start_key m) h)

    keyed : Keyed (b ++ a)
    keyed = rw (before-from r.start_key m) k

    whole :
        regions (keep (overlaps r) b) ++ overlap_from r.end_key a ≡ regions (keep (overlaps r) m)
    whole =
        regions (keep (overlaps r) b) ++ overlap_from r.end_key a
        ≡⟨ ap (◌++◌ (regions (keep (overlaps r) b))) (
            overlap_from-keep r p a parts.1 (All-append_right _ b a keyed)
              (All-from r.start_key m h)) ⟩
          regions (keep (overlaps r) b) ++ regions (keep (overlaps r) a)
        ≡⟨ sym (map-append (λ (e : Entry). e.1) (keep (overlaps r) b) (keep (overlaps r) a)) ⟩
          regions (keep (overlaps r) b ++ keep (overlaps r) a)
        ≡⟨ ap regions (sym (keep-append (overlaps r) b a)) ⟩ regions (keep (overlaps r) (b ++ a))
        ≡⟨ ap (λ (l : List Entry). regions (keep (overlaps r) l)) (before-from r.start_key m) ⟩
          regions (keep (overlaps r) m) ∎
