-- ===== src/Keyed/Once.antt =====
-- A run of a task on several keys: each key is taken by a store once.
use dingo_sdk.Base.{
  ℕ, ◌+◌, ◌≤◌, true, false, List, [], ◌∷◌, if◌then◌else◌, ◌≡◌, refl, ◌∙◌, Bool-cases, inl, inr,
  arith,
}
use dingo_sdk.Key.{Key}
use dingo_sdk.Outcome.{Outcome, done, ◌>>=◌, Returns, Returns-map, Returns->>=}
use dingo_sdk.Status.{Status, Result, success, failure, is_ok, ok}
use dingo_sdk.Region.{RegionPtr}
use dingo_sdk.Keyed.{
  Group, push_key, Keyed, Answer, take_answer, erase_keys, group_keys, send_groups, after_groups,
  is_nil, do_async,
}
use dingo_sdk.Keyed.Count.{count, keys_in, count-append, count-push_key, count-erase_keys}

-- What a task counts on: `ledger` are the keys that the stores have taken, and
-- `Holds` is kept by the lookups and the requests. `total` counts the keys of the call.
pub record Terms (C S : Type 0) : Type 1 where
  pub ledger : S → C → List Key
  pub Holds : C → Type 0
  pub total : Key → ℕ

-- A failure has a status that is not OK.
abbrev pub Fails : {A : Type 0} → Result A → Type 0
Fails (success a) = Unit
Fails (failure e) = is_ok e ≡ false

module _ {C S : Type 0} (look_up : Key → C → Outcome (Result RegionPtr × C))
    (send : Group → S → C → Outcome (Answer S × C)) (order : List Group → List Group)
    (o : Terms C S) where
  -- A lookup takes no key.
  abbrev pub LookedUp : C → Result RegionPtr × C → Type 0
  LookedUp c (found, d) =
      o.Holds d
      × ((s : S) (k : Key) → count k (o.ledger s d) ≡ count k (o.ledger s c))
      × Fails found

  -- A request is answered: an OK answer takes its keys, and a failure none.
  abbrev pub Sent : Group → S → C → Answer S × C → Type 0
  Sent g s c a =
      o.Holds a.1
      × (is_ok a.0.status ≡ true
          → (a.0.erased ≡ g.keys)
            × ((k : Key)
                → count k (o.ledger a.0.own a.1) ≡ count k (o.ledger s c) + count k g.keys))
      × (is_ok a.0.status ≡ false
          → (k : Key) → count k (o.ledger a.0.own a.1) ≡ count k (o.ledger s c))

  pub record Around : Type 0 where
    pub looks : (k : Key) (c : C) → o.Holds c → Returns (look_up k c) (LookedUp c)
    pub sends :
        (g : Group) (s : S) (c : C)
        → o.Holds c
        → ((k : Key) → count k g.keys ≤ o.total k)
        → Returns (send g s c) (Sent g s c)
    pub shuffles : (gs : List Group) (k : Key) → count k (keys_in (order gs)) ≡ count k (keys_in gs)

  module _ (w : Around) where
    -- The keys that were taken and the keys that are left are those of the call.
    abbrev pub Accounts : Keyed S × C → Type 0
    Accounts (t, c) =
        o.Holds c × ((k : Key) → count k (o.ledger t.own c) + count k t.next_keys ≡ o.total k)

    abbrev pub Taken : Keyed S × C → Type 0
    Taken (t, c) = (k : Key) → count k (o.ledger t.own c) ≡ o.total k

    abbrev pub Counted : (Key → ℕ) → Result (List Group) → Type 0
    Counted n (success gs) = (k : Key) → count k (keys_in gs) ≡ n k
    Counted n (failure e) = Unit

    -- After the lookups, which began in `c`.
    abbrev pub Grouped : C → (Key → ℕ) → Result (List Group) × C → Type 0
    Grouped c n (found, d) =
        o.Holds d
        × ((s : S) (k : Key) → count k (o.ledger s d) ≡ count k (o.ledger s c))
        × Fails found
        × Counted n found

    later :
        (c d : C) (n : Key → ℕ) (x : Result (List Group) × C)
        → ((s : S) (k : Key) → count k (o.ledger s d) ≡ count k (o.ledger s c))
        → Grouped d n x
        → Grouped c n x
    later c d n x e (i, l, f, g) = (i, λ s k. l s k ∙ e s k, f, g)

    -- One lookup, and what is done after it.
    pub looked-Grouped :
        (x : Key) (c : C) (n : Key → ℕ) (next : RegionPtr → C → Outcome (Result (List Group) × C))
        → o.Holds c
        → ((r : RegionPtr) (d : C) → o.Holds d → Returns (next r d) (Grouped d n))
        → Returns
            (look_up x c >>= λ found. elim found.0 [
              | failure s ↦ done (failure s, found.1)
              | success r ↦ next r found.1
            ])
            (Grouped c n)
    looked-Grouped x c n next i h =
        Returns->>= (LookedUp c) (Grouped c n) (look_up x c) _ (w.looks x c i) step
      where
        step :
            (found : Result RegionPtr × C)
            → LookedUp c found
            → Returns
                (elim found.0 [
                  | failure s ↦ done (failure s, found.1)
                  | success r ↦ next r found.1
                ])
                (Grouped c n)
        step (failure s, d) (j, l, f) = (j, l, f, tt)
        step (success r, d) (j, l, f) =
            Returns-map (Grouped d n) (Grouped c n) (next r d) (λ x. later c d n x l) (h r d j)

    group_keys-Grouped :
        (ks : List Key) (gs : List Group) (c : C) (n : Key → ℕ)
        → o.Holds c
        → ((k : Key) → count k ks + count k (keys_in gs) ≡ n k)
        → Returns (group_keys look_up send order ks gs c) (Grouped c n)
    unfolding group_keys
    group_keys-Grouped [] gs c n i h = (i, λ s k. refl, tt, λ k. omega (arith, h k))
    group_keys-Grouped (x ∷ ks) gs c n i h =
        looked-Grouped x c n (λ r d. group_keys look_up send order ks (push_key r x gs) d) i
          λ r d j.
            group_keys-Grouped ks (push_key r x gs) d n j
              λ k. omega (arith, h k, count-push_key k r x gs)

    kept_fails : (s t : Status) → is_ok s ≡ false → is_ok (if is_ok t then s else t) ≡ false
    kept_fails s t n = elim (Bool-cases (is_ok t)) [ inl y ↦ rw (y) n | inr z ↦ rw (z) z ]

    -- While the requests `gs` are still to be answered.
    record Sending (t : Keyed S) (c : C) (gs : List Group) : Type 0 where
      accounted : (k : Key) → count k (o.ledger t.own c) + count k t.next_keys ≡ o.total k
      within : (k : Key) → count k (keys_in gs) ≤ count k t.next_keys
      exact : is_ok t.status ≡ true → (k : Key) → count k t.next_keys ≡ count k (keys_in gs)

    take_answer-Sending :
        (g : Group) (gs : List Group) (t : Keyed S) (c : C) (a : Answer S × C)
        → Sending t c (g ∷ gs)
        → Sent g t.own c a
        → Sending (take_answer a.0 t) a.1 gs
    unfolding take_answer
    take_answer-Sending g gs t c a s h = elim (Bool-cases (is_ok a.0.status)) [
      | inl y ↦
          let (erased, taken) = h.1 y in
          let fits : (k : Key) → count k g.keys ≤ count k t.next_keys =
            λ k. omega (arith, s.within k, count-append k g.keys (keys_in gs)) in
          let left : (k : Key)
              → count k (erase_keys g.keys t.next_keys) + count k g.keys ≡ count k t.next_keys =
            count-erase_keys g.keys t.next_keys fits in
          rw (take_answer, y, erased)
            (record {
              accounted = λ k. omega (arith, s.accounted k, taken k, left k);
              within = λ k. omega (arith, s.within k, left k, count-append k g.keys (keys_in gs));
              exact = λ b k. omega (arith, s.exact b k, left k, count-append k g.keys (keys_in gs));
            })
      | inr n ↦
          rw (take_answer, n)
            (record {
              accounted = λ k. omega (arith, s.accounted k, h.2 n k);
              within = λ k. omega (arith, s.within k, count-append k g.keys (keys_in gs));
              exact = λ b k. cc (b, kept_fails a.0.status t.status n);
            })
    ]

    send_groups-Sending :
        (gs : List Group) (t : Keyed S) (c : C)
        → o.Holds c
        → Sending t c gs
        → Returns (send_groups look_up send order gs (t, c)) λ x. o.Holds x.1 × Sending x.0 x.1 []
    unfolding send_groups
    send_groups-Sending [] t c i s = (i, s)
    send_groups-Sending (g ∷ gs) t c i s =
        Returns->>= (Sent g t.own c) (λ (x : Keyed S × C). o.Holds x.1 × Sending x.0 x.1 [])
          (send g t.own c) _
          (w.sends g t.own c i
            λ k. omega (arith, s.within k, s.accounted k, count-append k g.keys (keys_in gs)))
          λ a h.
            send_groups-Sending gs (take_answer a.0 t) a.1 h.0 (take_answer-Sending g gs t c a s h)

    pub nil_count :
        (xs : List Key) → is_nil look_up send order xs ≡ true → (k : Key) → count k xs ≡ 0
    nil_count [] h k = refl
    nil_count (x ∷ xs) h k = cc

    -- One run of `DoAsync`.
    abbrev pub Ran : Status × (Keyed S × C) → Type 0
    Ran r = Accounts r.1 × (is_ok r.0 ≡ true → Taken r.1)

    -- `DoAsync` after the lookups.
    pub after_groups-Ran :
        (t : Keyed S) (c : C)
        → Accounts (t, c)
        → (r : Result (List Group) × C) → Grouped c (λ k. count k t.next_keys) r
        → Returns (after_groups look_up send order (record t { status = ok }) r) Ran
    after_groups-Ran t c (i, h) (failure s, d) (j, l, f, g) =
        ((j, λ k. omega (arith, h k, l t.own k)), λ y. cc (y, f))
    after_groups-Ran t c (i, h) (success gs, d) (j, l, f, g) =
        Returns->>= (λ (x : Keyed S × C). o.Holds x.1 × Sending x.0 x.1 []) Ran _ _
          (send_groups-Sending (order gs) (record t { status = ok }) d j
            (record {
              accounted = λ k. omega (arith, h k, l t.own k);
              within = λ k. omega (arith, g k, w.shuffles gs k);
              exact = λ y k. omega (arith, g k, w.shuffles gs k);
            }))
          λ x p. ((p.0, p.1.accounted), λ y k. omega (arith, p.1.accounted k, p.1.exact y k))

    pub do_async-Ran : (x : Keyed S × C) → Accounts x → Returns (do_async look_up send order x) Ran
    unfolding do_async
    do_async-Ran (t, c) (i, h) = elim (Bool-cases (is_nil look_up send order t.next_keys)) [
      | inl y ↦ rw (do_async, y) ((i, h), λ z k. omega (arith, h k, nil_count t.next_keys y k))
      | inr n ↦
          rw (do_async, n)
            (Returns->>= (Grouped c (λ k. count k t.next_keys)) Ran
              (group_keys look_up send order t.next_keys [] c)
              (after_groups look_up send order (record t { status = ok }))
              (group_keys-Grouped t.next_keys [] c (λ k. count k t.next_keys) i λ k. omega arith)
              (after_groups-Ran t c (i, h)))
    ]
