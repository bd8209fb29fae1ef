-- ===== src/Txn/Buffer/Writes.antt =====
-- Each write keeps the buffer valid and does to it what it does to a finite function.
use dingo_sdk.Base.{
  All, true, false, List, [], ◌∷◌, Option, none, some, if◌then◌else◌, ◌≡◌, refl, inl, inr, arith,
  ◌∙◌,
}
use dingo_sdk.Key.{Key, key_eqb, is_empty}
use dingo_sdk.Key.Order.{eqb_iff, eqb_refl}
use dingo_sdk.OrdMap
use dingo_sdk.OrdMap.{IsSorted}
use dingo_sdk.OrdMap.Laws.{find-insert, find-erase, erase-IsSorted, insert-IsSorted}
use dingo_sdk.Outcome.{done, Returns, Returns-map, Returns->>=, for_each}
use dingo_sdk.Txn.Buffer.{
  Buffer, Mutation, MutationType, none_mutation, delete_mutation, put_if_absent_mutation, new, put,
  put_if_absent, delete, emplace, erase, is_none, put_over,
}
use dingo_sdk.Txn.Buffer.View.{
  view, Write, puts, puts_if_absent, deletes, key_of, write, after, after_all, first_key, is_write,
  IsValid, Written,
}

emplace_lem :
    (key : Key) (m : Mutation) (b : Buffer)
    → OrdMap.find key b.mutation_map ≡ none
    → emplace key m b
      ≡ done (record {
        primary_key = if is_empty b.primary_key then key else b.primary_key;
        mutation_map = OrdMap.insert key m b.mutation_map;
      })
unfolding emplace
emplace_lem key m b h = rw (h, is_none)

-- A map that holds `m` at `key` and is the buffer's elsewhere makes a valid buffer.
stored-IsValid :
    (key : Key) (m : Mutation) (pk : Key) (mm : List (Key × Mutation)) (b : Buffer)
    → IsValid b
    → (m.key ≡ key) × (is_empty key ≡ false) × (is_write m.type ≡ true)
    → IsSorted mm
    → ((q : Key) → OrdMap.find q mm ≡ (if key_eqb q key then some m else view b q))
    → pk ≡ (if is_empty b.primary_key then key else b.primary_key)
    → IsValid (record { primary_key = pk; mutation_map = mm })
stored-IsValid key m pk mm b v fits s reads p = record {
  sorted = s;
  keyed = λ k n e. ground (arith, reads k, (eqb_iff k key).0, v.keyed k n);
  primary = elim v.primary [
    | inl (e, _) ↦
        let q : pk ≡ key = ground arith in
        inr (rw q fits.1, (m, rw q (reads key ∙ ground (arith, eqb_refl key))))
    | inr (e, (n, h)) ↦
        let q : pk ≡ b.primary_key = ground arith in
        inr (rw q e, (held n h, rw q (reads b.primary_key ∙ found n h)))
  ];
}
  where
    held : (n : Mutation) → view b b.primary_key ≡ some n → Mutation
    held n h = if key_eqb b.primary_key key then m else n

    found :
        (n : Mutation) (h : view b b.primary_key ≡ some n)
        → (if key_eqb b.primary_key key then some m else view b b.primary_key) ≡ some (held n h)
    found n h = ground arith

-- `Emplace` at a new key, and `Emplace` after `Erase`, store the mutation.
module _ (key : Key) (m : Mutation) (b : Buffer) (v : IsValid b)
    (fits : (m.key ≡ key) × (is_empty key ≡ false) × (is_write m.type ≡ true)) where
  abbrev Stored : Buffer → Type 0
  Stored b' =
      IsValid b'
      × ((q : Key) → view b' q ≡ (if key_eqb q key then some m else view b q))
      × (b'.primary_key ≡ (if is_empty b.primary_key then key else b.primary_key))

  emplace-Stored : view b key ≡ none → Returns (emplace key m b) Stored
  emplace-Stored h =
      let reads : (q : Key)
          → OrdMap.find q (OrdMap.insert key m b.mutation_map)
            ≡ (if key_eqb q key then some m else view b q) =
        λ q. find-insert key q m b.mutation_map h in
      rw (emplace_lem key m b h) (
        stored-IsValid key m _ _ b v fits (insert-IsSorted key m b.mutation_map h v.sorted) reads
            refl,
        reads,
        refl,
      )

  emplace-erase-Stored : Returns (emplace key m (erase key b)) Stored
  unfolding erase
  emplace-erase-Stored = rw (emplace_lem key m (erase key b) gone) (
    stored-IsValid key m _ _ b v fits
        (insert-IsSorted key m _ gone (erase-IsSorted key b.mutation_map v.sorted)) reads pk,
    reads,
    pk,
  )
    where
      gone : OrdMap.find key (OrdMap.erase key b.mutation_map) ≡ none
      gone = find-erase key key b.mutation_map v.sorted ∙ ground (arith, eqb_refl key)

      reads :
          (q : Key)
          → OrdMap.find q (OrdMap.insert key m (OrdMap.erase key b.mutation_map))
            ≡ (if key_eqb q key then some m else view b q)
      reads q =
          find-insert key q m (OrdMap.erase key b.mutation_map) gone
          ∙ ground (arith, find-erase key q b.mutation_map v.sorted)

      pk :
          (if is_empty (erase key b).primary_key then key else (erase key b).primary_key)
          ≡ (if is_empty b.primary_key then key else b.primary_key)
      pk = ground (arith, (eqb_iff key b.primary_key).0)

Written-of_Stored :
    (w : Write) (m : Mutation) (b b' : Buffer)
    → after w (view b (key_of w)) ≡ some m
    → IsValid b'
      × ((q : Key) → view b' q ≡ (if key_eqb q (key_of w) then some m else view b q))
      × (b'.primary_key ≡ (if is_empty b.primary_key then key_of w else b.primary_key))
    → Written w b b'
Written-of_Stored w m b b' e s = record { valid = s.0; reads = λ q. rw e (s.1 q); first = s.2 }

-- A write that finds something which it leaves alone.
unchanged-Written :
    (w : Write) (m : Mutation) (b : Buffer)
    → IsValid b
    → view b (key_of w) ≡ some m
    → after w (some m) ≡ some m
    → Written w b b
unfolding OrdMap.find
unchanged-Written w m b v e keep = record {
  valid = v;
  reads = λ q. rw e (ground (arith, (eqb_iff q (key_of w)).0));
  first = elim v.primary [ inl (p, none_there) ↦ ground arith | inr (p, _) ↦ rw p refl ];
}

put_if_absent-Written :
    (k x : Key) (b : Buffer)
    → IsValid b
    → is_empty k ≡ false
    → Returns (put_if_absent k x b) (Written (puts_if_absent k x) b)
unfolding put_if_absent
put_if_absent-Written k x b v h = over_entry (view b k) refl
  where
    op : Mutation
    op = record { type = put_if_absent_mutation; key = k; value = x }

    over_type :
        (m : Mutation) (t : MutationType)
        → view b k ≡ some m
        → m.type ≡ t
        → Returns (put_over t k op b) (Written (puts_if_absent k x) b)
    over_type m delete_mutation e p =
        Returns-map _ _ _ (λ b'. Written-of_Stored (puts_if_absent k x) op b b' (rw (e, p)))
          (emplace-erase-Stored k op b v (refl, h, refl))
    over_type m none_mutation e p = unchanged-Written (puts_if_absent k x) m b v e (rw p)
    over_type m _ e p = unchanged-Written (puts_if_absent k x) m b v e (rw p)

    over_entry :
        (o : Option Mutation)
        → view b k ≡ o
        → Returns (put_if_absent k x b) (Written (puts_if_absent k x) b)
    over_entry none e =
        rw (e, put_if_absent)
          (Returns-map _ _ _ (λ b'. Written-of_Stored (puts_if_absent k x) op b b' (rw e))
            (emplace-Stored k op b v (refl, h, refl) e))
    over_entry (some m) e = rw (e, put_if_absent) (over_type m m.type e refl)

-- No CHECK of a write fails on a valid buffer, and it does what `after` says.
pub write-Written :
    (w : Write) (b : Buffer)
    → IsValid b
    → is_empty (key_of w) ≡ false
    → Returns (write w b) (Written w b)
unfolding write put delete
write-Written (puts k x) b v h =
    Returns-map _ _ _ (λ b'. Written-of_Stored (puts k x) _ b b' refl)
      (emplace-erase-Stored k _ b v (refl, h, refl))
write-Written (deletes k) b v h =
    Returns-map _ _ _ (λ b'. Written-of_Stored (deletes k) _ b b' refl)
      (emplace-erase-Stored k _ b v (refl, h, refl))
write-Written (puts_if_absent k x) b v h = put_if_absent-Written k x b v h

-- The buffer holds the finite function `f`, and its primary key is `pk`.
pub record Holds (f : Key → Option Mutation) (pk : Key) (b : Buffer) : Type 0 where
  pub valid : IsValid b
  pub reads : (q : Key) → view b q ≡ f q
  pub first : b.primary_key ≡ pk

run-Holds :
    (ws : List Write) (f : Key → Option Mutation) (pk : Key) (b : Buffer)
    → All (λ w. is_empty (key_of w) ≡ false) ws
    → Holds f pk b
    → Returns (for_each write ws b) (Holds (after_all ws f) (first_key pk ws))
unfolding for_each
run-Holds [] f pk b h v = v
run-Holds (w ∷ ws) f pk b h v =
    Returns->>= (Written w b) _ (write w b) (for_each write ws) (write-Written w b v.valid h.0)
      λ b' r. run-Holds ws _ _ b' h.1 (record {
        valid = r.valid;
        reads = λ q. ground (arith, r.reads q, v.reads q, v.reads (key_of w));
        first = ground (arith, r.first, v.first);
      })

-- A fresh buffer, after any writes of keys that are not empty: no CHECK has failed, it reads as the
-- writes applied in order to the empty function, and its primary key is that of the first write.
pub run-new-Holds :
    (ws : List Write)
    → All (λ w. is_empty (key_of w) ≡ false) ws
    → Returns (for_each write ws new) (Holds (after_all ws (λ _. none)) (first_key [] ws))
unfolding OrdMap.find
run-new-Holds ws h = run-Holds ws _ _ new h (record {
  valid = record { sorted = tt; keyed = λ k m e. cc; primary = inl (refl, refl) };
  reads = λ q. refl;
  first = refl;
})
