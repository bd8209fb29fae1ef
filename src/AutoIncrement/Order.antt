-- ===== src/AutoIncrement/Order.antt =====
-- src/sdk/auto_increment_manager.cc: the ids that an incrementer hands out go up.
use dingo_sdk.Base.{
  ℕ, zero, suc, ◌+◌, ◌-◌, ◌≤◌, ◌<◌, List, [], ◌∷◌, ◌++◌, ltb, length, take, drop, ◌≡◌, refl, subst,
  Bool-cases, inl, inr, arith, length-append, ltb_yes,
}
use dingo_sdk.Outcome.{Returns}
use dingo_sdk.Status.{Result, success, failure, HoldsOf, Returns-and_then}
use dingo_sdk.AutoIncrement.{
  new, Reply, Incrementer, ids_from, refill_cache, fill_loop, get_next_ids,
}

-- The ids go up, from `b` on and below `t`.
abbrev pub Within : ℕ → ℕ → List ℕ → Type 0
Within b t [] = b ≤ t
Within b t (x ∷ xs) = (b ≤ x) × Within (x + 1) t xs

Within-le_of : (b t : ℕ) (xs : List ℕ) → Within b t xs → b ≤ t
Within-le_of b t [] h = h
Within-le_of b t (x ∷ xs) h = ground (arith, Within-le_of (x + 1) t xs h.1, h)

Within-lower : (a b t : ℕ) (xs : List ℕ) → a ≤ b → Within b t xs → Within a t xs
Within-lower a b t [] l h = ground arith
Within-lower a b t (x ∷ xs) l h = (ground (arith, h), h.1)

Within-append : (b m t : ℕ) (xs ys : List ℕ) → Within b m xs → Within m t ys → Within b t (xs ++ ys)
Within-append b m t [] ys h k = Within-lower b m t ys h k
Within-append b m t (x ∷ xs) ys h k = (h.0, Within-append (x + 1) m t xs ys h.1 k)

-- Where a list that goes up is cut.
Within-cut :
    (n b t : ℕ) (xs : List ℕ)
    → Within b t xs
    → (m : ℕ) × Within b m (take n xs) × Within m t (drop n xs)
Within-cut zero b t xs h = (b, ground arith, h)
Within-cut (suc n) b t [] h = (t, h, ground arith)
Within-cut (suc n) b t (x ∷ xs) h = let c = Within-cut n (x + 1) t xs h.1 in (c.0, (h.0, c.1), c.2)

ids_from-Within : (start n : ℕ) → Within start (start + n) (ids_from start n)
unfolding ids_from
ids_from-Within start zero = ground arith
ids_from-Within start (suc n) = (
  ground arith,
  subst (λ t. Within (start + 1) t (ids_from (start + 1) n)) (omega arith)
      (ids_from-Within (start + 1) n),
)

length-ids_from : (start n : ℕ) → length (ids_from start n) ≡ n
unfolding ids_from
length-ids_from start zero = refl
length-ids_from start (suc n) = omega (arith, length-ids_from (start + 1) n)

-- A reply grants one id or more, from `b` on.
abbrev pub From : ℕ → Result Reply → Type 0
From b (failure s) = Unit {0}
From b (success r) = (b ≤ r.start_id) × (r.start_id < r.end_id)

abbrev pub end_of : Result Reply → ℕ
end_of (failure s) = 0
end_of (success r) = r.end_id

-- What the service promises: a later reply grants later ids.
pub record Ascending (server : ℕ → Result Reply) : Type 0 where
  pub each : (n : ℕ) → From 0 (server n)
  pub after : (n m : ℕ) → n < m → From (end_of (server n)) (server m)

-- No id below `b` will be handed out.
pub record Stocked (server : ℕ → Result Reply) (b : ℕ) (i : Incrementer) : Type 0 where
  pub top : ℕ
  pub cached : Within b top i.id_cache
  pub later : (n : ℕ) → i.requests ≤ n → From top (server n)

pub new-Stocked : (server : ℕ → Result Reply) → Ascending server → Stocked server 0 new
new-Stocked server sound = record { top = 0; cached = ground arith; later = λ n le. sound.each n }

length-take_lem : (n : ℕ) (xs : List ℕ) → n ≤ length xs → length (take n xs) ≡ n
length-take_lem zero xs h = refl
length-take_lem (suc n) [] h = ground arith
length-take_lem (suc n) (x ∷ xs) h = ground (arith, length-take_lem n xs (ground arith))

module _ (server : ℕ → Result Reply) (sound : Ascending server) (b : ℕ) where
  abbrev pub Refilled : Incrementer → Incrementer → Type 0
  Refilled i j = Stocked server b j × (length i.id_cache < length j.id_cache)

  pub refill_cache-Refilled :
      (i : Incrementer)
      → Stocked server b i
      → Returns (refill_cache server i) (HoldsOf (Stocked server b) (λ u. Refilled i))
  unfolding refill_cache
  refill_cache-Refilled i s = go (server i.requests) refl (s.later i.requests (ground arith))
    where
      ids : Reply → List ℕ
      ids r = ids_from r.start_id (r.end_id - r.start_id)

      go :
          (x : Result Reply)
          → server i.requests ≡ x
          → From s.top (server i.requests)
          → Returns (refill_cache server i) (HoldsOf (Stocked server b) (λ u. Refilled i))
      go (failure e) h f =
          rw (h, refill_cache)
            (record { top = s.top; cached = s.cached; later = λ n le. s.later n (ground arith) })
      go (success r) h f =
          let g : From s.top (success r) = subst (From s.top) h f in
          rw (h, refill_cache, ltb_yes r.start_id r.end_id g.1)
            (
              record {
                top = r.end_id;
                cached = Within-append b s.top r.end_id i.id_cache (ids r) s.cached (
                    Within-lower s.top r.start_id r.end_id (ids r) g.0 (
                      subst (λ t. Within r.start_id t (ids r)) (ground (arith, g))
                        (ids_from-Within r.start_id (r.end_id - r.start_id))));
                later = λ n le.
                    subst (λ x. From (end_of x) (server n)) h
                      (sound.after i.requests n (ground arith));
              },
              ground (
                arith,
                g,
                length-append i.id_cache (ids r),
                length-ids_from r.start_id (r.end_id - r.start_id),
              ),
            )

-- What `GetNextIds` gives: as many ids as asked for, all from `b` on; the later ones are above them.
pub record Handed (server : ℕ → Result Reply) (b count : ℕ) (ids : List ℕ) (i : Incrementer)
    : Type 0 where
  pub counted : length ids ≡ count
  pub next : ℕ
  pub within : Within b next ids
  pub stocked : Stocked server next i

module _ (server : ℕ → Result Reply) (sound : Ascending server) (b : ℕ) where
  fill_loop-Handed :
      (n count : ℕ) (i : Incrementer)
      → 0 < n
      → count < n + length i.id_cache
      → Stocked server b i
      → Returns (fill_loop server n count i) (HoldsOf (Stocked server b) (Handed server b count))
  unfolding fill_loop
  fill_loop-Handed zero count i pos h s = ground arith
  fill_loop-Handed (suc n) count i pos h s = elim (Bool-cases (ltb (length i.id_cache) count)) [
    | inl e ↦
        rw (e, fill_loop)
          (Returns-and_then (Stocked server b) (λ u. Refilled server sound b i)
            (Handed server b count) _ _ (refill_cache-Refilled server sound b i s)
            (λ u j r. fill_loop-Handed n count j (ground (arith, e)) (ground (arith, r)) r.0))
    | inr e ↦
        let c = Within-cut count b s.top i.id_cache s.cached in
        rw (e, fill_loop)
          (record {
            counted = length-take_lem count i.id_cache (ground (arith, e));
            next = c.0;
            within = c.1;
            stocked = record { top = s.top; cached = c.2; later = s.later };
          })
  ]

-- When the replies of the service go up, GetNextIds for one id or more fails no CHECK and needs no more
-- passes than there is fuel. When it succeeds it gives as many ids as asked for, which go up from `b`,
-- and every id handed out later is above them; after an error the ids still to come are from `b` on as
-- before.
pub get_next_ids-Handed :
    (server : ℕ → Result Reply)
    → Ascending server
    → (b count : ℕ) (i : Incrementer) → 0 < count
    → Stocked server b i
    → Returns (get_next_ids server count i) (HoldsOf (Stocked server b) (Handed server b count))
unfolding get_next_ids
get_next_ids-Handed server sound b count i h s =
    rw (ltb_yes 0 count h)
      (fill_loop-Handed server sound b (count + 1) count i (ground arith) (ground arith) s)
