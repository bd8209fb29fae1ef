-- ===== src/RawKv/Scan/Rows.antt =====
-- What a region of a scan adds when its store answers, and what it leaves when the store fails.
use dingo_sdk.Base.{
  ℕ, ◌+◌, ◌≤◌, true, false, List, [], ◌∷◌, ◌++◌, length, some, ◌≡◌, refl, ◌∙◌, Bool-cases, inl, inr,
}
use dingo_sdk.Key.{Key, key_ltb, key_leb, is_empty}
use dingo_sdk.Key.Order.{lt_irrefl, le_of_lt}
use dingo_sdk.Outcome.{Outcome, done}
use dingo_sdk.Status.{Result, success, is_ok, ok}
use dingo_sdk.Region.{RegionPtr}
use dingo_sdk.RawKv.Scanner.{
  KvPair, Request, kv_scan_begin, kv_scan_continue, Reply, new_region_scanner, async_open,
  async_open_callback,
}
use dingo_sdk.RawKv.Scan.{
  Scan, scanner_start_key, scanner_end_key, scan_next_with_scanner, scanner_open_callback,
  scan_region,
}
use dingo_sdk.RawKv.Scan.Batches.{
  Batch, gives, rows_in, after, with_rows, Reads, open_scanner, read_region, read_until_failure,
}

-- One region of a scan, what is around the client after the lookup and after the scanner is opened,
-- the batches of rows and what is around after the answer that follows them.
pub record Part (C : Type 0) : Type 0 where
  pub region : RegionPtr
  pub scan_id : Key
  pub looked : C
  pub begun : C
  pub batches : List (Batch C)
  pub ended : C

abbrev pub read : {C : Type 0} → Part C → C
read p = after p.begun p.batches

abbrev pub rows_of : {C : Type 0} → List (Part C) → List KvPair
rows_of [] = []
rows_of (p ∷ ps) = rows_in p.batches ++ rows_of ps

abbrev pub last_key : {C : Type 0} → Key → List (Part C) → Key
last_key next [] = next
last_key next (p ∷ ps) = last_key p.region.end_key ps

abbrev pub last_of : {C : Type 0} → C → List (Part C) → C
last_of c [] = c
last_of c (p ∷ ps) = last_of p.ended ps

module _ {C : Type 0} (look_up : Key → Key → C → Outcome (Result RegionPtr × C))
    (call : Request → C → Outcome (Reply × C)) (batch_size : ℕ) where
  -- A region is found that meets the range, and its store opens a scanner and gives the batches.
  pub record Starts (e next : Key) (c : C) (p : Part C) : Type 0 where
    pub before : key_leb e next ≡ false
    pub found : look_up next e c ≡ done (success p.region, p.looked)
    pub meets : key_ltb (scanner_start_key next p.region) (scanner_end_key e p.region) ≡ true
    pub begins :
        call
          (kv_scan_begin p.region (scanner_start_key next p.region) (scanner_end_key e p.region))
          p.looked
        ≡ done (record { status = ok; scan_id = p.scan_id; kvs = [] }, p.begun)
    pub named : is_empty p.scan_id ≡ false
    pub reads :
        Reads look_up call batch_size p.region p.scan_id
          (scanner_end_key e p.region)
          p.begun
          p.batches

  -- The regions serve the range from `next` to `e`: after its batches each has no more rows.
  abbrev pub Serves : Key → Key → C → List (Part C) → Type 0
  Serves e next c [] = key_leb e next ≡ true
  Serves e next c (p ∷ ps) =
      Starts e next c p
      × (call (kv_scan_continue p.region p.scan_id batch_size) (read p) ≡ done (gives [], p.ended))
      × Serves e p.region.end_key p.ended ps

  start_in_region :
      (next : Key) (r : RegionPtr) → key_leb r.start_key (scanner_start_key next r) ≡ true
  unfolding scanner_start_key
  start_in_region next r = elim (Bool-cases (key_ltb r.start_key next)) [
    | inl y ↦ rw (y, le_of_lt r.start_key next y) refl
    | inr n ↦ rw (n, lt_irrefl r.start_key) refl
  ]

  end_in_region : (e : Key) (r : RegionPtr) → key_leb (scanner_end_key e r) r.end_key ≡ true
  unfolding scanner_end_key
  end_in_region e r = elim (Bool-cases (key_ltb r.end_key e)) [
    | inl y ↦ rw (y, lt_irrefl r.end_key) refl
    | inr n ↦ rw (n, n) refl
  ]

  -- The scanner of a region is opened, and its batches are asked for.
  open_region :
      (e next : Key) (c : C) (p : Part C) (fuel : ℕ) (t : Scan)
      → t.next_start_key ≡ next
      → t.end_key ≡ e
      → Starts e next c p
      → scan_region look_up call batch_size fuel p.region t p.looked
        ≡ scan_next_with_scanner look_up call batch_size fuel
            (open_scanner look_up call batch_size p.region
              (scanner_start_key next p.region)
              (scanner_end_key e p.region)
              p.scan_id)
            t
            p.begun
  unfolding scan_region new_region_scanner async_open async_open_callback scanner_open_callback
  open_region e next c p fuel t i j h =
      rw (i, j, h.meets, start_in_region next p.region, end_in_region e p.region, h.begins) refl

  -- A region that serves its part of the range adds its rows, and the scan goes on behind it.
  pub scan_region-reads :
      (e next : Key) (c : C) (p : Part C) (fuel : ℕ) (t : Scan)
      → t.next_start_key ≡ next
      → t.end_key ≡ e
      → length p.batches + 2 ≤ fuel
      → Starts e next c p
      → call (kv_scan_continue p.region p.scan_id batch_size) (read p) ≡ done (gives [], p.ended)
      → scan_region look_up call batch_size fuel p.region t p.looked
        ≡ done (
            some (
              (ok, record (with_rows t (rows_in p.batches)) { next_start_key = p.region.end_key }),
              p.ended,
            ))
  scan_region-reads e next c p fuel t i j f h g =
      open_region e next c p fuel t i j h
      ∙ read_region look_up call batch_size p.region _ _ p.scan_id p.batches fuel t p.begun p.ended
          f h.named h.reads g

  -- A region that fails after its batches leaves their rows with the task.
  pub scan_region-fails :
      (e next : Key) (c : C) (p : Part C) (fuel : ℕ) (t : Scan) (failed : Reply)
      → t.next_start_key ≡ next
      → t.end_key ≡ e
      → length p.batches + 1 ≤ fuel
      → Starts e next c p
      → is_ok failed.status ≡ false
      → call (kv_scan_continue p.region p.scan_id batch_size) (read p) ≡ done (failed, p.ended)
      → scan_region look_up call batch_size fuel p.region t p.looked
        ≡ done (some ((failed.status, with_rows t (rows_in p.batches)), p.ended))
  scan_region-fails e next c p fuel t failed i j f h q g =
      open_region e next c p fuel t i j h
      ∙ read_until_failure look_up call batch_size p.region _ _ p.scan_id p.batches fuel t p.begun
          p.ended failed f h.named h.reads q g
