-- ===== src/Txn/Scan/Rows.antt =====
-- What a scan makes of the rows of a batch.
use dingo_sdk.Base.{
  ℕ, zero, suc, ◌-◌, ◌<◌, ◌==◌, Bool, true, false, List, [], ◌∷◌, ◌++◌, map, take, drop,
  if◌then◌else◌, ◌≡◌, ◌⊎◌, inl, inr, refl, sym, subst, ap, ◌∙◌, All, All-map, append-nil,
  append_assoc, length, length-append, Bool-cases, arith,
}
use dingo_sdk.Key.{Key, key_eqb}
use dingo_sdk.Key.Order.{◌<ₖ◌, eqb_iff, eqb_refl, eqb-lt, lt_trans, lt_irrefl, le_of_lt}
use dingo_sdk.Outcome.{Outcome, done}
use dingo_sdk.Txn.Buffer.{Mutation, put_mutation, delete_mutation}
use dingo_sdk.Txn.Scan.{
  is_put_if_absent, Row, Scanned, unless_full, after_skip, on_same_key, skip, process,
  process_scan_state,
}

-- The row with the value that the transaction has put to its key, if any.
abbrev pub value_for : List Mutation → Row → Row
value_for [] kv = kv
value_for (m ∷ ms) kv = if key_eqb kv.0 m.key then (kv.0, m.value) else value_for ms kv

-- Keys ascend.
abbrev pub RowsAscend : List Row → Type 0
RowsAscend [] = Unit
RowsAscend (kv ∷ kvs) = All (λ (x : Row). kv.0 <ₖ x.0) kvs × RowsAscend kvs

abbrev pub MutationsAscend : List Mutation → Type 0
MutationsAscend [] = Unit
MutationsAscend (m ∷ ms) = All (λ (n : Mutation). m.key <ₖ n.key) ms × MutationsAscend ms

-- Each mutation is a put to the key of a row.
abbrev pub Overwrites : List Mutation → List Row → Type 0
Overwrites [] kvs = Unit
Overwrites (m ∷ ms) [] = ⊥
Overwrites (m ∷ ms) (kv ∷ kvs) =
    ((key_eqb kv.0 m.key ≡ true) × (m.type ≡ put_mutation) × Overwrites ms kvs)
    ⊎ ((kv.0 <ₖ m.key) × Overwrites (m ∷ ms) kvs)

value_for_below :
    (ms : List Mutation) (kv : Row)
    → All (λ (n : Mutation). kv.0 <ₖ n.key) ms
    → value_for ms kv ≡ kv
value_for_below [] kv h = refl
value_for_below (m ∷ ms) kv h = rw (eqb-lt kv.0 m.key h.0) (value_for_below ms kv h.1)

-- A mutation below the rows does not matter to them.
value_for_above :
    (m : Mutation) (ms : List Mutation) (kvs : List Row)
    → All (λ (x : Row). m.key <ₖ x.0) kvs
    → map (value_for (m ∷ ms)) kvs ≡ map (value_for ms) kvs
value_for_above m ms [] h = refl
value_for_above m ms (kv ∷ kvs) h = rw (above m.key kv.0 h.0, value_for_above m ms kvs h.1) refl
  where
    above : (j k : Key) → j <ₖ k → key_eqb k j ≡ false
    above j k p = elim (Bool-cases (key_eqb k j)) [
      | inl e ↦ cc (lt_irrefl j, p, (eqb_iff k j).0 e)
      | inr n ↦ n
    ]

drop_nil : (n : ℕ) → drop {A = Row} n [] ≡ []
drop_nil zero = refl
drop_nil (suc n) = refl

take_nil : (n : ℕ) → take {A = Row} n [] ≡ []
take_nil zero = refl
take_nil (suc n) = refl

module _ (limit : ℕ) (moved : Key) where
  -- The batch up to the limit, changed by `f`, and the rows that are left.
  abbrev pub filled : (Row → Row) → List Row → List Row → List Row × List Row
  filled f kvs out = (drop (limit - length out) kvs, out ++ take (limit - length out) (map f kvs))

  filled_nil : (f : Row → Row) (out : List Row) → filled f [] out ≡ ([], out)
  filled_nil f out =
      ap (λ x. (x, out ++ take {A = Row} (limit - length out) [])) (drop_nil (limit - length out))
      ∙ ap (λ x. ([], out ++ x)) (take_nil (limit - length out))
      ∙ ap (λ x. ([], x)) (append-nil out)

  -- A row is pushed, and the batch goes on unless the limit is reached.
  push-filled :
      (f : Row → Row) (x kv : Row) (kvs out : List Row) (rest : Outcome Scanned)
      → length out < limit
      → (length (out ++ (x ∷ [])) < limit → rest ≡ done (filled f kvs (out ++ (x ∷ []))))
      → unless_full limit moved kvs (out ++ (x ∷ [])) rest
        ≡ done
            (drop (limit - length out) (kv ∷ kvs), out ++ take (limit - length out) (x ∷ map f kvs))
  push-filled f x kv kvs out rest l k =
      let d : ℕ = limit - length (out ++ (x ∷ [])) in
      let e : limit - length out ≡ suc d = omega (arith, length-append out (x ∷ []), l) in
      elim (Bool-cases (length (out ++ (x ∷ [])) == limit)) [
        | inl full ↦ let z : d ≡ 0 = ground (arith, full) in rw (unless_full, full, e, z) refl
        | inr more ↦
            rw (unless_full, more, k (ground (arith, more, length-append out (x ∷ []), l)), e)
              (ap (λ y. done (drop d kvs, y)) (append_assoc out (x ∷ []) (take d (map f kvs))))
      ]

  process-filled :
      (ms : List Mutation) (kvs out : List Row)
      → Overwrites ms kvs
      → MutationsAscend ms
      → RowsAscend kvs
      → length out < limit
      → process limit moved ms kvs out ≡ done (filled (value_for ms) kvs out)
  unfolding process
  process-filled ms [] out o a r l = ap done (sym (filled_nil (value_for ms) out))
  process-filled [] (kv ∷ kvs) out o a r l =
      push-filled (value_for []) kv kv kvs out _ l
        λ m. process-filled [] kvs (out ++ (kv ∷ [])) tt tt r.1 m
  process-filled (m ∷ ms) (kv ∷ kvs) out (inl h) a r l =
      rw (h.0, process)
        (ap (λ t. on_same_key limit moved t (process limit moved (m ∷ ms) kvs out) (put h.0)) h.1
          ∙ push-filled (value_for ms) (kv.0, m.value) kv kvs out _ l
              (λ n. process-filled ms kvs (out ++ ((kv.0, m.value) ∷ [])) h.2 a.1 r.1 n)
          ∙ ap
              (λ y. done (
                drop (limit - length out) (kv ∷ kvs),
                out ++ take (limit - length out) ((kv.0, m.value) ∷ y),
              ))
              (sym (
                value_for_above m ms kvs
                  (All-map (λ x q. subst (λ j. j <ₖ x.0) ((eqb_iff kv.0 m.key).0 h.0) q) kvs r.0))))
    where
      put : key_eqb kv.0 m.key ≡ true → Outcome Scanned
      put e =
          unless_full limit moved kvs (out ++ ((kv.0, m.value) ∷ []))
            (process limit moved ms kvs (out ++ ((kv.0, m.value) ∷ [])))
  process-filled (m ∷ ms) (kv ∷ kvs) out (inr h) a r l =
      rw
        (
          eqb-lt kv.0 m.key h.0,
          h.0,
          process,
          value_for_below ms kv (All-map (λ n q. lt_trans kv.0 m.key n.key h.0 q) ms a.0),
        )
        (push-filled (value_for (m ∷ ms)) kv kv kvs out _ l
          λ n. process-filled (m ∷ ms) kvs (out ++ (kv ∷ [])) h.1 a r.1 n)

  -- With puts to keys of the batch's rows only, in the order of their keys as the rows are, and fewer
  -- rows out than the limit, ProcessScanState fails no CHECK and gives out the rows up to the limit,
  -- each with the value that the transaction has put to its key, if any; the rest stays pending.
  pub process_scan_state-filled :
      (ms : List Mutation) (kvs out : List Row)
      → Overwrites ms kvs
      → MutationsAscend ms
      → RowsAscend kvs
      → length out < limit
      → process_scan_state limit moved ms kvs out ≡ done (filled (value_for ms) kvs out)
  unfolding process_scan_state
  process_scan_state-filled = process-filled

  skip_nothing :
      (m : Mutation) (key : Key) (out : List Row)
      → is_put_if_absent m.type ≡ false
      → skip limit moved m key [] out ≡ ((length out == limit), [], out)
  unfolding skip
  skip_nothing m key out t = rw (t) refl

  -- The only mutation is below the row, and not a put if absent.
  passes :
      (m : Mutation) (next : Row) (kvs out : List Row)
      → is_put_if_absent m.type ≡ false
      → m.key <ₖ next.0
      → (length out == limit) ≡ false
      → process limit moved (m ∷ []) (next ∷ kvs) out ≡ process limit moved [] kvs out
  unfolding process
  passes m next kvs out t lt n =
      rw (differs, le_of_lt m.key next.0 lt, process)
        (ap (λ x. after_skip limit moved kvs x (λ ns y. process limit moved ns kvs y))
            (skip_nothing m next.0 out t)
          ∙ ap (λ b. after_skip limit moved kvs (b, [], out) (λ ns y. process limit moved ns kvs y))
              n
          ∙ ap (λ b. full b (done (kvs, out)) (process limit moved [] kvs out)) n)
    where
      full : Bool → Outcome Scanned → Outcome Scanned → Outcome Scanned
      full b x y = elim b [ true ↦ x | false ↦ y ]

      differs : key_eqb next.0 m.key ≡ false
      differs = elim (Bool-cases (key_eqb next.0 m.key)) [
        | inl e ↦ cc (lt_irrefl m.key, lt, (eqb_iff next.0 m.key).0 e)
        | inr d ↦ d
      ]

  -- While the limit is not reached, a row that follows one which the transaction deletes is dropped with
  -- it: of two rows, the first at the key of the transaction's only write in the range, a delete, and
  -- the second at a greater key, neither is given out.
  pub process_scan_state_drops_row :
      (m : Mutation) (v : Key) (next : Row) (kvs out : List Row)
      → m.type ≡ delete_mutation
      → m.key <ₖ next.0
      → (length out == limit) ≡ false
      → process_scan_state limit moved (m ∷ []) ((m.key, v) ∷ next ∷ kvs) out
        ≡ process_scan_state limit moved [] kvs out
  unfolding process_scan_state process is_put_if_absent
  process_scan_state_drops_row m v next kvs out t lt n =
      rw (eqb_refl m.key, process)
        (ap (λ k. on_same_key limit moved k (process limit moved (m ∷ []) (next ∷ kvs) out) put) t
          ∙ passes m next kvs out (ap is_put_if_absent t) lt n)
    where
      put : Outcome Scanned
      put =
          unless_full limit moved (next ∷ kvs) (out ++ ((m.key, m.value) ∷ []))
            (process limit moved [] (next ∷ kvs) (out ++ ((m.key, m.value) ∷ [])))

  -- While the limit is not reached, a put to a key that is below that of the next row gives out neither
  -- the put nor the row.
  pub process_scan_state_drops_put :
      (m : Mutation) (next : Row) (kvs out : List Row)
      → m.type ≡ put_mutation
      → m.key <ₖ next.0
      → (length out == limit) ≡ false
      → process_scan_state limit moved (m ∷ []) (next ∷ kvs) out
        ≡ process_scan_state limit moved [] kvs out
  unfolding process_scan_state is_put_if_absent
  process_scan_state_drops_put m next kvs out t lt n =
      passes m next kvs out (ap is_put_if_absent t) lt n
