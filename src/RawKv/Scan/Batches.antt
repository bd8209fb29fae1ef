-- ===== src/RawKv/Scan/Batches.antt =====
-- The batches of rows that the store gives to the scanner of a region.
use dingo_sdk.Base.{
  ℕ, zero, suc, ◌+◌, ◌-◌, ◌≤◌, true, false, List, [], ◌∷◌, ◌++◌, length, some, ◌≡◌, refl,
  append-nil, append_assoc, All, arith,
}
use dingo_sdk.Key.{Key, key_ltb, is_empty}
use dingo_sdk.Outcome.{Outcome, done}
use dingo_sdk.Status.{Result, is_ok, ok}
use dingo_sdk.Region.{RegionPtr}
use dingo_sdk.RawKv.Scanner.{
  KvPair, Request, kv_scan_continue, Reply, Scanner, no_rows, take_rows, async_next_batch,
  kv_scan_continue_rpc_callback,
}
use dingo_sdk.RawKv.Scan.{Scan, next_batch_callback, scan_next_with_scanner}

-- The rows of a response are all below the end key.
abbrev pub Below : Key → List KvPair → Type 0
Below end_key kvs = All (λ (kv : KvPair). key_ltb kv.0 end_key ≡ true) kvs

take_rows-Below : (e : Key) (kvs : List KvPair) → Below e kvs → take_rows e true kvs ≡ (kvs, true)
unfolding take_rows
take_rows-Below e [] h = refl
take_rows-Below e (kv ∷ kvs) h = rw (h.0, take_rows, take_rows-Below e kvs h.1) refl

abbrev pub gives : List KvPair → Reply
gives kvs = record { status = ok; scan_id = []; kvs = kvs }

-- A batch of rows, and what is around the client after it.
abbrev pub Batch : Type 0 → Type 0
Batch C = List KvPair × C

abbrev pub rows_in : {C : Type 0} → List (Batch C) → List KvPair
rows_in [] = []
rows_in (b ∷ bs) = b.0 ++ rows_in bs

abbrev pub after : {C : Type 0} → C → List (Batch C) → C
after c [] = c
after c (b ∷ bs) = after b.1 bs

-- The rows are added to those that the task has.
abbrev pub with_rows : Scan → List KvPair → Scan
with_rows t kvs = record t { tmp_out_kvs = t.tmp_out_kvs ++ kvs }

module _ {C : Type 0} (look_up : Key → Key → C → Outcome (Result RegionPtr × C))
    (call : Request → C → Outcome (Reply × C)) (batch_size : ℕ) where
  -- The store gives these batches, which have rows and none at the end key or above it.
  abbrev pub Reads : RegionPtr → Key → Key → C → List (Batch C) → Type 0
  Reads r id e c [] = Unit
  Reads r id e c (b ∷ bs) =
      (call (kv_scan_continue r id batch_size) c ≡ done (gives b.0, b.1))
      × (no_rows b.0 ≡ false)
      × Below e b.0
      × Reads r id e b.1 bs

  -- The scanner of a region once it is open.
  abbrev pub open_scanner : RegionPtr → Key → Key → Key → Scanner
  open_scanner r a e id = record {
    region = r;
    start_key = a;
    end_key = e;
    scan_id = id;
    opened = true;
    has_more = true;
    batch_size = batch_size;
  }

  -- A batch is read.
  read_batch :
      (r : RegionPtr) (a e id : Key) (b : Batch C) (fuel : ℕ) (t : Scan) (c : C)
      → is_empty id ≡ false
      → call (kv_scan_continue r id batch_size) c ≡ done (gives b.0, b.1)
      → no_rows b.0 ≡ false
      → Below e b.0
      → scan_next_with_scanner look_up call batch_size (suc fuel) (open_scanner r a e id) t c
        ≡ scan_next_with_scanner look_up call batch_size fuel
            (open_scanner r a e id)
            (with_rows t b.0)
            b.1
  unfolding scan_next_with_scanner async_next_batch kv_scan_continue_rpc_callback
      next_batch_callback
  read_batch r a e id b fuel t c n g m l =
      rw (scan_next_with_scanner, async_next_batch, n, g, m, take_rows-Below e b.0 l) (rw (m) refl)

  -- The batches of a region are read one after another.
  read_batches :
      (r : RegionPtr) (a e id : Key) (bs : List (Batch C)) (total fuel : ℕ) (t : Scan) (c : C)
      → total ≡ length bs + fuel
      → is_empty id ≡ false
      → Reads r id e c bs
      → scan_next_with_scanner look_up call batch_size total (open_scanner r a e id) t c
        ≡ scan_next_with_scanner look_up call batch_size fuel
            (open_scanner r a e id)
            (with_rows t (rows_in bs))
            (after c bs)
  read_batches r a e id [] total fuel t c f n h =
      let same : total ≡ fuel = omega (arith, f) in rw (same, append-nil t.tmp_out_kvs) refl
  read_batches r a e id (b ∷ bs) zero fuel t c f n h = absurd (ground (arith, f))
  read_batches r a e id (b ∷ bs) (suc total) fuel t c f n h =
      rw
        (
          read_batch r a e id b total t c n h.0 h.1 h.2,
          read_batches r a e id bs total fuel (with_rows t b.0) b.1 (omega (arith, f)) n h.3,
          append_assoc t.tmp_out_kvs b.0 (rows_in bs),
        )
        refl

  -- A region is read to its end.
  pub read_region :
      (r : RegionPtr) (a e id : Key) (bs : List (Batch C)) (fuel : ℕ) (t : Scan) (c d : C)
      → length bs + 2 ≤ fuel
      → is_empty id ≡ false
      → Reads r id e c bs
      → call (kv_scan_continue r id batch_size) (after c bs) ≡ done (gives [], d)
      → scan_next_with_scanner look_up call batch_size fuel (open_scanner r a e id) t c
        ≡ done (some ((ok, record (with_rows t (rows_in bs)) { next_start_key = r.end_key }), d))
  unfolding scan_next_with_scanner async_next_batch kv_scan_continue_rpc_callback
      next_batch_callback
  read_region r a e id bs fuel t c d f n h g =
      let left : fuel ≡ length bs + suc (suc (fuel - length bs - 2)) = omega (arith, f) in
      rw
        (
          read_batches r a e id bs fuel _ t c left n h,
          scan_next_with_scanner,
          async_next_batch,
          n,
          g,
        )
        refl

  -- A region is read until a request for a batch fails.
  pub read_until_failure :
      (r : RegionPtr) (a e id : Key) (bs : List (Batch C)) (fuel : ℕ) (t : Scan) (c d : C)
      (failed : Reply)
      → length bs + 1 ≤ fuel
      → is_empty id ≡ false
      → Reads r id e c bs
      → is_ok failed.status ≡ false
      → call (kv_scan_continue r id batch_size) (after c bs) ≡ done (failed, d)
      → scan_next_with_scanner look_up call batch_size fuel (open_scanner r a e id) t c
        ≡ done (some ((failed.status, with_rows t (rows_in bs)), d))
  unfolding scan_next_with_scanner async_next_batch kv_scan_continue_rpc_callback
      next_batch_callback
  read_until_failure r a e id bs fuel t c d failed f n h q g =
      let left : fuel ≡ length bs + suc (fuel - length bs - 1) = omega (arith, f) in
      rw
        (
          read_batches r a e id bs fuel _ t c left n h,
          scan_next_with_scanner,
          async_next_batch,
          n,
          g,
          q,
        )
        (rw (q) refl)
