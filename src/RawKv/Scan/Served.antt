-- ===== src/RawKv/Scan/Served.antt =====
-- A scan over the regions of a range, and a scan that is run again after a failure.
use dingo_sdk.Base.{
  ℕ, zero, suc, ◌+◌, ◌<◌, ◌≤◌, true, false, List, [], ◌∷◌, ◌++◌, length, some, ◌≡◌, refl,
  append-nil, append_assoc, All, arith,
}
use dingo_sdk.Key.{Key, key_ltb, is_empty}
use dingo_sdk.Outcome.{Outcome, done}
use dingo_sdk.Status.{Status, Result, is_ok, ok}
use dingo_sdk.Region.{RegionPtr}
use dingo_sdk.RawKv.Scanner.{Request, kv_scan_continue, Reply}
use dingo_sdk.RawKv.Scan.{Scan, reach_limit, go_on, Ended, scan_next, do_async}
use dingo_sdk.RawKv.Scan.Batches.{rows_in, with_rows}
use dingo_sdk.RawKv.Scan.Rows.{
  Part, rows_of, last_key, last_of, read, Starts, Serves, scan_region-reads, scan_region-fails,
}

no_limit : (t : Scan) → t.limit ≡ 0 → reach_limit t ≡ false
unfolding reach_limit
no_limit t z = rw (z) refl

module _ {C : Type 0} (look_up : Key → Key → C → Outcome (Result RegionPtr × C))
    (call : Request → C → Outcome (Reply × C)) (batch_size : ℕ) where
  -- A region has fuel for its batches, for the answer after them and for the end.
  abbrev pub Fueled : ℕ → List (Part C) → Type 0
  Fueled batches ps = All (λ (p : Part C). length p.batches + 2 ≤ batches) ps

  -- The scan, when its limit is 0, goes through the regions.
  scan_next-rows :
      (batches fuel : ℕ) (t : Scan) (ps : List (Part C)) (c : C)
      → t.limit ≡ 0
      → Fueled batches ps
      → length ps < fuel
      → Serves look_up call batch_size t.end_key t.next_start_key c ps
      → scan_next look_up call batch_size batches fuel t c
        ≡ done (
            some (
              (
                ok,
                record (with_rows t (rows_of ps)) { next_start_key = last_key t.next_start_key ps },
              ),
              last_of c ps,
            ))
  unfolding scan_next
  scan_next-rows batches zero t ps c z w f h = absurd (ground (arith, f))
  scan_next-rows batches (suc fuel) t [] c z w f h =
      rw (scan_next, no_limit t z, h, append-nil t.tmp_out_kvs) refl
  scan_next-rows batches (suc fuel) t (p ∷ ps) c z w f h =
      let same =
        scan_next-rows batches fuel
          (record (with_rows t (rows_in p.batches)) { next_start_key = p.region.end_key }) ps
          p.ended z w.1 (omega (arith, f)) h.2 in
      rw
        (
          scan_next,
          no_limit t z,
          h.0.before,
          h.0.found,
          scan_region-reads look_up call batch_size t.end_key t.next_start_key c p batches t refl
              refl w.0 h.0 h.1,
          same,
          append_assoc t.tmp_out_kvs (rows_in p.batches) (rows_of ps),
        )
        refl

  -- `DoAsync` of a scan with no limit, whose next start key is not empty and is below the end key: when
  -- regions that the cache finds one after another serve the range up to the end key, each with batches
  -- of rows below the end of its part and then an answer without rows, the task ends with the status OK
  -- on fuel for the regions and their batches, and it has added the rows of all batches, each once and
  -- in their order, to those that it had.
  pub do_async-rows :
      (batches fuel : ℕ) (t : Scan) (ps : List (Part C)) (c : C)
      → t.limit ≡ 0
      → is_empty t.next_start_key ≡ false
      → key_ltb t.next_start_key t.end_key ≡ true
      → Fueled batches ps
      → length ps < fuel
      → Serves look_up call batch_size t.end_key t.next_start_key c ps
      → do_async look_up call batch_size batches fuel t c
        ≡ done (
            some (
              (
                ok,
                record (with_rows t (rows_of ps)) { next_start_key = last_key t.next_start_key ps },
              ),
              last_of c ps,
            ))
  unfolding do_async
  do_async-rows batches fuel t ps c z n l w f h =
      rw (n, l, scan_next-rows batches fuel t ps c z w f h) refl

  -- A failure ends the scan.
  stops :
      (f : Scan → C → Outcome (Ended C)) (status : Status) (t : Scan) (c : C)
      → is_ok status ≡ false
      → go_on look_up call batch_size f (some ((status, t), c)) ≡ done (some ((status, t), c))
  stops f status t c h = rw (go_on, h) refl

  -- A scan with no limit, whose next start key is not empty and is below the end key, finds a region
  -- that gives batches of rows and then fails. `DoAsync` ends with the failure, keeps the rows of these
  -- batches and does not move the next start key. When it is run again and the regions serve the whole
  -- range from that key on, it ends with OK, and their rows come after those that were kept: the rows
  -- of the region's first batches are in the result twice.
  pub do_async_reads_again :
      (batches fuel : ℕ) (t : Scan) (p : Part C) (failed : Reply) (ps : List (Part C)) (c : C)
      → t.limit ≡ 0
      → is_empty t.next_start_key ≡ false
      → key_ltb t.next_start_key t.end_key ≡ true
      → Fueled batches (p ∷ ps)
      → length ps < fuel
      → Starts look_up call batch_size t.end_key t.next_start_key c p
      → is_ok failed.status ≡ false
      → call (kv_scan_continue p.region p.scan_id batch_size) (read p) ≡ done (failed, p.ended)
      → Serves look_up call batch_size t.end_key t.next_start_key p.ended ps
      → (do_async look_up call batch_size batches fuel t c
          ≡ done (some ((failed.status, with_rows t (rows_in p.batches)), p.ended)))
        × (do_async look_up call batch_size batches fuel (with_rows t (rows_in p.batches)) p.ended
            ≡ done (
                some (
                  (
                    ok,
                    record t {
                      next_start_key = last_key t.next_start_key ps;
                      tmp_out_kvs = (t.tmp_out_kvs ++ rows_in p.batches) ++ rows_of ps;
                    },
                  ),
                  last_of p.ended ps,
                )))
  unfolding do_async scan_next
  do_async_reads_again batches zero t p failed ps c z n l w f s q g h = absurd (ground (arith, f))
  do_async_reads_again batches (suc fuel) t p failed ps c z n l w f s q g h = (
    rw
        (
          n,
          l,
          scan_next,
          no_limit t z,
          s.before,
          s.found,
          scan_region-fails look_up call batch_size t.end_key t.next_start_key c p batches t failed
              refl refl (omega (arith, w.0)) s q g,
        )
        (stops (scan_next look_up call batch_size batches fuel) failed.status _ p.ended q),
    do_async-rows batches (suc fuel) (with_rows t (rows_in p.batches)) ps p.ended z n l w.1 f h,
  )
