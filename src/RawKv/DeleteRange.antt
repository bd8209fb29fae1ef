-- ===== src/RawKv/DeleteRange.antt =====
-- src/sdk/rawkv/raw_kv_delete_range_task.cc: the deletion of a range of keys, region by region. The cache's
-- `ScanRegionsBetweenRange` and `LookupRegionBetweenRange` and the store controller's call are arguments,
-- and `C` is what they read and change.
use dingo_sdk.Base.{
  ℕ, zero, suc, ◌+◌, Bool, true, false, not, ◌&&◌, List, [], ◌∷◌, Option, none, some, if◌then◌else◌,
}
use dingo_sdk.Key.{Key, key_leb, key_eqb, is_empty}
use dingo_sdk.Outcome.{Outcome, done, aborted, check, ◌>>=◌, ◌>>◌}
use dingo_sdk.Status.{Status, Result, success, failure, is_ok, ok, of_code, code_aborted}
use dingo_sdk.Region.{RegionPtr}
use dingo_sdk.RawKv.Scan.{is_not_found}
pub mod Repeats

pub record DeleteRange : Type 0 where
  pub start_key : Key
  pub end_key : Key
  pub continuous : Bool
  pub next_start_key : Key
  pub tmp_out_delete_count : ℕ

-- The request, with the region of its context.
pub record DeleteRequest : Type 0 where
  pub region : RegionPtr
  pub start_key : Key
  pub end_key : Key

pub record DeleteReply : Type 0 where
  pub status : Status
  pub delete_count : ℕ

-- No gap between two regions.
unfoldable pub is_continuous : List RegionPtr → Bool
is_continuous [] = true
is_continuous (r ∷ []) = true
is_continuous (r ∷ s ∷ rs) = key_eqb r.end_key s.start_key && is_continuous (s ∷ rs)

abbrev pub found_any : List RegionPtr → Bool
found_any [] = false
found_any (r ∷ rs) = true

-- What is asked of a region.
unfoldable pub delete_request : DeleteRange → RegionPtr → DeleteRequest
delete_request t r = record {
  region = r;
  start_key = if key_leb r.start_key t.next_start_key then t.next_start_key else r.start_key;
  end_key = if key_leb r.end_key t.end_key then r.end_key else t.end_key;
}

-- `KvDeleteRangeRpcCallback`, up to its last test; after a failure the task stays where it is.
unfoldable pub kv_delete_range_rpc_callback :
    DeleteReply → DeleteRequest → DeleteRange → Outcome DeleteRange
kv_delete_range_rpc_callback a q t = elim (is_ok a.status) [
  | false ↦ done t
  | true ↦
      check (not (is_empty q.end_key))
      >> done (record t {
        tmp_out_delete_count = t.tmp_out_delete_count + a.delete_count;
        next_start_key = q.end_key;
      })
]

module _ {C : Type 0} (scan_regions : Key → Key → C → Outcome (Result (List RegionPtr) × C))
    (look_up : Key → Key → C → Outcome (Result RegionPtr × C))
    (call : DeleteRequest → C → Outcome (DeleteReply × C)) where
  unfoldable pub init : DeleteRange → C → Outcome ((Status × DeleteRange) × C)
  init t c = scan_regions t.start_key t.end_key c >>= λ found. elim found.0 [
    | failure s ↦ done ((s, t), found.1)
    | success rs ↦
        check (found_any rs)
        >> (if t.continuous && not (is_continuous rs)
            then done ((of_code code_aborted, t), found.1)
            else done ((ok, record t { next_start_key = t.start_key }), found.1))
  ]

  -- `DeleteNextRange`, which is `DoAsync`, until it reaches `DoAsyncDone` with a status, on fuel: `none` is
  -- out of fuel, with the task as it is then.
  unfoldable pub delete_next_range :
      ℕ → DeleteRange → C → Outcome (Option Status × (DeleteRange × C))
  delete_next_range zero t c = done (none, (t, c))
  delete_next_range (suc fuel) t c =
      check (not (is_empty t.next_start_key))
      >> check (key_leb t.next_start_key t.end_key)
      >> look_up t.next_start_key t.end_key c
      >>= λ found. elim found.0 [
        | failure s ↦ done (some (if is_not_found s.code then ok else s), (t, found.1))
        | success r ↦ call (delete_request t r) found.1 >>= λ a.
            kv_delete_range_rpc_callback a.0 (delete_request t r) t >>= λ u.
            elim (key_leb u.end_key u.next_start_key) [
              | true ↦ done (some ok, (u, a.1))
              | false ↦ delete_next_range fuel u a.1
            ]
      ]
