-- ===== src/Txn/Scan.antt =====
-- src/sdk/transaction/txn_impl.cc: `ProcessScanState`, which merges a batch of rows from a region with
-- the transaction's own writes in the scanned range.
use dingo_sdk.Base.{
  ℕ, zero, suc, Bool, true, false, List, [], ◌∷◌, ◌++◌, if◌then◌else◌, ◌==◌, length,
}
use dingo_sdk.Key.{Key, key_ltb, key_eqb}
use dingo_sdk.Outcome.{Outcome, done, aborted}
use dingo_sdk.Txn.Buffer.{
  Mutation, MutationType, none_mutation, put_mutation, delete_mutation, put_if_absent_mutation,
}
pub mod Rows

-- `KVPair`.
abbrev pub Row : Type 0
Row = Key × Key

pub is_put_if_absent : MutationType → Bool
is_put_if_absent put_if_absent_mutation = true
is_put_if_absent _ = false

-- The rows that are left in `pending_kvs`, and `out_kvs`.
abbrev pub Scanned : Type 0
Scanned = List Row × List Row

-- What the inner loop leaves: whether the call returns, the mutations that are left, and `out_kvs`.
abbrev pub Skipped : Type 0
Skipped = Bool × List Mutation × List Row

-- `moved` is what a string holds after `std::move`, which the standard does not say.
module _ (limit : ℕ) (moved : Key) where
  -- The inner loop, for a row whose key is above that of the mutation `m`; `rest` are the mutations
  -- after the one at `mutations_offset`. The reference `mutation` stays at the first.
  unfoldable pub skip : Mutation → Key → List Mutation → List Row → Skipped
  unfolding is_put_if_absent
  skip m key [] out =
      let out1 = if is_put_if_absent m.type then out ++ ((key, m.value) ∷ []) else out in
      (length out1 == limit, [], out1)
  skip m key (n ∷ ns) out =
      let absent = is_put_if_absent m.type in
      let out1 = if absent then out ++ ((key, m.value) ∷ []) else out in
      let key1 = if absent then moved else key in
      elim (length out1 == limit) [
        | true ↦ (true, n ∷ ns, out1)
        | false ↦ elim (key_ltb n.key key1) [
          | true ↦ skip m key1 ns out1
          | false ↦ (false, n ∷ ns, out1)
        ]
      ]

  -- The test of the limit after a row, and the rest of the loop.
  abbrev pub unless_full : List Row → List Row → Outcome Scanned → Outcome Scanned
  unless_full kvs out rest = elim (length out == limit) [ true ↦ done (kvs, out) | false ↦ rest ]

  -- What follows the inner loop.
  abbrev pub after_skip :
      List Row → Skipped → (List Mutation → List Row → Outcome Scanned) → Outcome Scanned
  after_skip kvs skipped go = elim skipped.0 [
    | true ↦ done (kvs, skipped.2)
    | false ↦ unless_full kvs skipped.2 (go skipped.1 skipped.2)
  ]

  -- A row at the key of a mutation of this type: what a delete and a put go on with.
  abbrev pub on_same_key : MutationType → Outcome Scanned → Outcome Scanned → Outcome Scanned
  on_same_key delete_mutation deleted put = deleted
  on_same_key put_mutation deleted put = put
  on_same_key _ deleted put = aborted

  -- The loop over the rows, with the mutations from `mutations_offset` on.
  unfoldable pub process : List Mutation → List Row → List Row → Outcome Scanned
  process ms [] out = done ([], out)
  process [] (kv ∷ kvs) out = unless_full kvs (out ++ (kv ∷ [])) (process [] kvs (out ++ (kv ∷ [])))
  process (m ∷ ms) (kv ∷ kvs) out = elim (key_eqb kv.0 m.key) [
    | true ↦
        let out1 = out ++ ((kv.0, m.value) ∷ []) in
        on_same_key m.type (process (m ∷ ms) kvs out) (unless_full kvs out1 (process ms kvs out1))
    | false ↦ elim (key_ltb kv.0 m.key) [
      | true ↦ unless_full kvs (out ++ (kv ∷ [])) (process (m ∷ ms) kvs (out ++ (kv ∷ [])))
      | false ↦ after_skip kvs (skip m kv.0 ms out) (λ ns out1. process ns kvs out1)
    ]
  ]

  -- `ProcessScanState`: `mutations_offset` begins at 0 in each call.
  unfoldable pub process_scan_state : List Mutation → List Row → List Row → Outcome Scanned
  process_scan_state local_mutations pending out = process local_mutations pending out
