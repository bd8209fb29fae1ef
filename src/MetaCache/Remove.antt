-- ===== src/MetaCache/Remove.antt =====
-- The loop that removes the displaced regions one by one.
use dingo_sdk.Base.{
  ℕ, Bool, true, false, not, ◌||◌, List, [], ◌∷◌, ◌++◌, none, some, ◌==◌, ◌≡◌, refl, sym, ap, ◌∙◌,
  subst, All, All-append_right, Bool-cases, inl, inr, arith, keep, append_assoc,
}
use dingo_sdk.Key.{Key, key_ltb, key_eqb}
use dingo_sdk.Key.Order.{eqb_refl, eqb_iff, lt_irrefl}
use dingo_sdk.OrdMap
use dingo_sdk.OrdMap.{IsSorted}
use dingo_sdk.Outcome.{Returns, Returns-map, for_each}
use dingo_sdk.Region.{RegionPtr}
use dingo_sdk.MetaCache.{Cache, remove_each}
use dingo_sdk.MetaCache.Ids.{find_id, find_id-erase_id}
use dingo_sdk.MetaCache.Invariant.{
  Entry, IsValid, without, without-IsValid, remove_region_unlocked-without, Ranges-IsSorted,
}
use dingo_sdk.MetaCache.Overlap.{regions}

-- One of the regions is the object at the address.
abbrev pub at_addr : ℕ → List RegionPtr → Bool
at_addr a [] = false
at_addr a (r ∷ rs) = r.addr == a || at_addr a rs

-- `c'` is `c` less the regions `gone`, which are stale; `left` remains.
pub record Removed (c : Cache) (gone : List RegionPtr) (left : List Entry) (c' : Cache)
    : Type 0 where
  pub valid : IsValid c'
  pub remains : c'.by_key ≡ left
  pub marked : (a : ℕ) → c'.stale a ≡ (at_addr a gone || c.stale a)
  pub absent : (i : ℕ) → find_id i c.by_id ≡ none → find_id i c'.by_id ≡ none
  pub same_roles : c'.roles ≡ c.roles
  pub same_next : c'.next_addr ≡ c.next_addr

erase_middle :
    (k : Key) (r : RegionPtr) (pre t : List Entry)
    → IsSorted (pre ++ (k, r) ∷ t)
    → OrdMap.erase k (pre ++ (k, r) ∷ t) ≡ pre ++ t
unfolding OrdMap.erase
erase_middle k r [] t s = rw (eqb_refl k)
erase_middle k r ((j, w) ∷ pre) t s = elim (Bool-cases (key_eqb k j)) [
  | inl e ↦ absurd (clash e)
  | inr n ↦ rw (n, OrdMap.erase) (ap (◌∷◌ (j, w)) (erase_middle k r pre t s.1))
]
  where
    clash : key_eqb k j ≡ true → ⊥
    clash e =
        let h : key_ltb j k ≡ true = (All-append_right _ pre ((k, r) ∷ t) s.0).0 in
        cc ((eqb_iff k j).0 e, lt_irrefl k)

All-middle :
    (P : Entry → Type 0) (pre : List Entry) (x : Entry) (t l : List Entry)
    → l ≡ pre ++ x ∷ t
    → All P l
    → P x
All-middle P pre x t l e h = (All-append_right P pre (x ∷ t) (subst (All P) e h)).0

-- A removal, and then others.
Removed-without :
    (c : Cache) (w : RegionPtr) (gone : List RegionPtr) (left : List Entry) (c' : Cache)
    → Removed (without w c) gone left c'
    → Removed c (w ∷ gone) left c'
Removed-without c w gone left c' r = record {
  valid = r.valid;
  remains = r.remains;
  marked = λ a. ground (arith, r.marked a);
  absent = λ i h. r.absent i (ground (arith, find_id-erase_id i w.region_id c.by_id));
  same_roles = r.same_roles;
  same_next = r.same_next;
}

abbrev pub others : (Entry → Bool) → Entry → Bool
others p e = not (p e)

-- Removing each region of the suffix `rest` that passes the test leaves the rest of the map.
pub remove_each-Removed :
    (p : Entry → Bool) (pre rest : List Entry) (c : Cache)
    → IsValid c
    → c.by_key ≡ pre ++ rest
    → Returns
        (remove_each (regions (keep p rest)) c)
        (Removed c (regions (keep p rest)) (pre ++ keep (others p) rest))
unfolding remove_each for_each
remove_each-Removed p pre [] c v e = record {
  valid = v;
  remains = e;
  marked = λ a. refl;
  absent = λ i h. h;
  same_roles = refl;
  same_next = refl;
}
remove_each-Removed p pre ((k, w) ∷ t) c v e = elim (Bool-cases (p (k, w))) [
  | inl hit ↦
      rw (hit, keep, remove_region_unlocked-without c v w w.region_id held)
        (Returns-map _ _ _ (Removed-without c w _ _)
          (remove_each-Removed p pre t (without w c) (without-IsValid c v w held) erased))
  | inr miss ↦
      rw (miss, keep)
        (subst
          (λ l. Returns (remove_each (regions (keep p t)) c) (Removed c (regions (keep p t)) l))
          (append_assoc pre ((k, w) ∷ []) (keep (others p) t))
          (remove_each-Removed p (pre ++ (k, w) ∷ []) t c v
            (e ∙ sym (append_assoc pre ((k, w) ∷ []) t))))
]
  where
    held : find_id w.region_id c.by_id ≡ some w
    held = All-middle _ pre (k, w) t c.by_key e v.listed

    erased : OrdMap.erase w.start_key c.by_key ≡ pre ++ t
    erased =
        let key : k ≡ w.start_key = All-middle _ pre (k, w) t c.by_key e v.keyed in
        rw (← key, e)
          (erase_middle k w pre t (subst IsSorted e (Ranges-IsSorted c.by_key v.ranges)))
