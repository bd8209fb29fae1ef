-- ===== src/Keyed/Cached.antt =====
-- A run of a task that keeps the region of the key before.
use dingo_sdk.Base.{
  ℕ, ◌+◌, List, [], ◌∷◌, Option, none, some, ◌≡◌, refl, Bool-cases, inl, inr, arith,
}
use dingo_sdk.Key.{Key}
use dingo_sdk.Outcome.{Outcome, done, ◌>>=◌, Returns, Returns->>=}
use dingo_sdk.Status.{Result, success, failure, ok}
use dingo_sdk.Region.{RegionPtr}
use dingo_sdk.Keyed.{
  Group, push_key, Keyed, Answer, region_again, group_keys_cached, after_groups, is_nil,
  do_async_cached,
}
use dingo_sdk.Keyed.Count.{count, keys_in, count-push_key}
use dingo_sdk.Keyed.Once.{
  Terms, Around, Accounts, Grouped, looked-Grouped, nil_count, Ran, after_groups-Ran,
}

module _ {C S : Type 0} (look_up : Key → C → Outcome (Result RegionPtr × C))
    (send : Group → S → C → Outcome (Answer S × C)) (order : List Group → List Group)
    (o : Terms C S) (w : Around look_up send order o) where
  group_keys_cached-Grouped :
      (before : Option RegionPtr) (ks : List Key) (gs : List Group) (c : C) (n : Key → ℕ)
      → o.Holds c
      → ((k : Key) → count k ks + count k (keys_in gs) ≡ n k)
      → Returns
          (group_keys_cached look_up send order before ks gs c)
          (Grouped look_up send order o w c n)
  unfolding group_keys_cached
  group_keys_cached-Grouped before [] gs c n i h = (i, λ s k. refl, tt, λ k. omega (arith, h k))
  group_keys_cached-Grouped before (x ∷ ks) gs c n i h =
      again
        (λ b r d j.
          group_keys_cached-Grouped b ks (push_key r x gs) d n j
            λ k. omega (arith, h k, count-push_key k r x gs))
        (region_again before x)
    where
      again :
          ((b : Option RegionPtr) (r : RegionPtr) (d : C)
            → o.Holds d
            → Returns
                (group_keys_cached look_up send order b ks (push_key r x gs) d)
                (Grouped look_up send order o w d n))
          → (found : Option RegionPtr)
          → Returns
              (elim found as (λ _. Outcome (Result (List Group) × C)) [
                | some r ↦ group_keys_cached look_up send order before ks (push_key r x gs) c
                | none ↦ look_up x c >>= λ found. elim found.0 [
                  | failure s ↦ done (failure s, found.1)
                  | success r ↦
                      group_keys_cached look_up send order (some r) ks (push_key r x gs) found.1
                ]
              ])
              (Grouped look_up send order o w c n)
      again next (some r) = next before r c i
      again next none =
          looked-Grouped look_up send order o w x c n
            (λ r d. group_keys_cached look_up send order (some r) ks (push_key r x gs) d) i
            λ r d j. next (some r) r d j

  pub do_async_cached-Ran :
      (x : Keyed S × C)
      → Accounts look_up send order o w x
      → Returns (do_async_cached look_up send order x) (Ran look_up send order o w)
  unfolding do_async_cached
  do_async_cached-Ran (t, c) (i, h) = elim (Bool-cases (is_nil look_up send order t.next_keys)) [
    | inl y ↦
        rw (do_async_cached, y)
          ((i, h), λ z k. omega (arith, h k, nil_count look_up send order o w t.next_keys y k))
    | inr n ↦
        rw (do_async_cached, n)
          (Returns->>= (Grouped look_up send order o w c (λ k. count k t.next_keys))
            (Ran look_up send order o w)
            (group_keys_cached look_up send order none t.next_keys [] c)
            (after_groups look_up send order (record t { status = ok }))
            (group_keys_cached-Grouped none t.next_keys [] c (λ k. count k t.next_keys) i
              λ k. omega arith)
            (after_groups-Ran look_up send order o w t c (i, h)))
  ]
