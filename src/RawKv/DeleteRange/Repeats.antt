-- ===== src/RawKv/DeleteRange/Repeats.antt =====
-- A request of a range deletion that fails is repeated without end.
use dingo_sdk.Base.{
  ℕ, zero, suc, true, false, List, ◌∷◌, Option, none, some, if◌then◌else◌, ◌≡◌, refl, sym, ap, ◌∙◌,
  subst,
}
use dingo_sdk.Key.{Key, key_leb, is_empty}
use dingo_sdk.Outcome.{Outcome, done, ◌>>=◌, Returns, Returns-map, Returns->>=}
use dingo_sdk.Status.{Status, Result, success, failure, is_ok, ok}
use dingo_sdk.Region.{RegionPtr}
use dingo_sdk.RawKv.Scan.{is_not_found}
use dingo_sdk.RawKv.DeleteRange.{
  DeleteRange, DeleteRequest, DeleteReply, delete_request, kv_delete_range_rpc_callback,
  delete_next_range,
}

-- The request so many times, on top of those before.
abbrev pub sent_again : ℕ → DeleteRequest → List DeleteRequest → List DeleteRequest
sent_again zero q log = log
sent_again (suc n) q log = sent_again n q (q ∷ log)

module _ {C : Type 0} (scan_regions : Key → Key → C → Outcome (Result (List RegionPtr) × C))
    (look_up : Key → Key → C → Outcome (Result RegionPtr × C))
    (call : DeleteRequest → C → Outcome (DeleteReply × C)) (log : C → List DeleteRequest)
    (t : DeleteRange) (r : RegionPtr) where
  -- The region is found, and no request is sent by that.
  abbrev pub IsFound : C → Result RegionPtr × C → Type 0
  IsFound c x = (x.0 ≡ success r) × (log x.1 ≡ log c)

  -- A request is recorded, and fails.
  abbrev pub IsRefused : DeleteRequest → C → DeleteReply × C → Type 0
  IsRefused q c a = (is_ok a.0.status ≡ false) × (log a.1 ≡ q ∷ log c)

  -- The part of the range that lies in the region.
  abbrev pub same_request : DeleteRequest
  same_request = record { region = r; start_key = t.next_start_key; end_key = r.end_key }

  -- The task has no status to give out, stands where it stood, and has sent so many more requests.
  abbrev pub Going : ℕ → C → Option Status × (DeleteRange × C) → Type 0
  Going n c x = (x.0 ≡ none) × (x.1.0 ≡ t) × (log x.1.1 ≡ sent_again n same_request (log c))

  failure_stays :
      (a : DeleteReply) (q : DeleteRequest)
      → is_ok a.status ≡ false
      → kv_delete_range_rpc_callback a q t ≡ done t
  unfolding kv_delete_range_rpc_callback
  failure_stays a q h = rw (kv_delete_range_rpc_callback, h) refl

  request_lem :
      key_leb r.start_key t.next_start_key ≡ true
      → key_leb r.end_key t.end_key ≡ true
      → delete_request t r ≡ same_request
  unfolding delete_request
  request_lem a b = rw (delete_request, a, b) refl

  -- A range deletion before its end key, whose next key is in a region that ends within the range: while
  -- that region is found and every request fails, whatever its status, the task on fuel for `fuel` passes
  -- sends the same request, for the region's keys from the next key on, once for each pass. It stands
  -- where it stood, and gives out no status.
  pub delete_next_range_repeats :
      ((c : C) → Returns (look_up t.next_start_key t.end_key c) (IsFound c))
      → ((c : C) → Returns (call same_request c) (IsRefused same_request c))
      → is_empty t.next_start_key ≡ false
      → key_leb t.next_start_key t.end_key ≡ true
      → key_leb t.end_key t.next_start_key ≡ false
      → key_leb r.start_key t.next_start_key ≡ true
      → key_leb r.end_key t.end_key ≡ true
      → (fuel : ℕ) (c : C)
      → Returns (delete_next_range scan_regions look_up call fuel t c) (Going fuel c)
  unfolding delete_next_range
  delete_next_range_repeats l f n b e low high zero c = (refl, refl, refl)
  delete_next_range_repeats l f n b e low high (suc fuel) c =
      rw (n, b)
        (Returns->>= (IsFound c) (Going (suc fuel) c) (look_up t.next_start_key t.end_key c) _ (l c)
          (found (delete_next_range_repeats l f n b e low high fuel)))
    where
      after : C → DeleteRange → Outcome (Option Status × (DeleteRange × C))
      after d u = elim (key_leb u.end_key u.next_start_key) [
        | true ↦ done (some ok, (u, d))
        | false ↦ delete_next_range scan_regions look_up call fuel u d
      ]

      Rest : Type 0
      Rest = (d : C) → Returns (delete_next_range scan_regions look_up call fuel t d) (Going fuel d)

      again :
          Rest
          → (d : C) → log d ≡ log c
          → (a : DeleteReply × C) → IsRefused same_request d a
          → Returns
              (kv_delete_range_rpc_callback a.0 same_request t >>= after a.1)
              (Going (suc fuel) c)
      again rest d k a h =
          subst (λ m. Returns (m >>= after a.1) (Going (suc fuel) c))
            (sym (failure_stays a.0 same_request h.0))
            (subst
              (λ b.
                Returns
                  (elim b as (λ _. Outcome (Option Status × (DeleteRange × C))) [
                    | true ↦ done (some ok, (t, a.1))
                    | false ↦ delete_next_range scan_regions look_up call fuel t a.1
                  ])
                  (Going (suc fuel) c))
              (sym e)
              (Returns-map (Going fuel a.1) (Going (suc fuel) c) _
                (λ x p. (
                  p.0,
                  p.1,
                  p.2 ∙ ap (sent_again fuel same_request) (h.1 ∙ ap (λ ls. same_request ∷ ls) k),
                ))
                (rest a.1)))

      asked :
          Rest
          → (d : C) → log d ≡ log c
          → (q : DeleteRequest) → q ≡ same_request
          → Returns
              (call q d >>= λ a. kv_delete_range_rpc_callback a.0 q t >>= after a.1)
              (Going (suc fuel) c)
      asked rest d k q s =
          subst
            (λ q.
              Returns (call q d >>= λ a. kv_delete_range_rpc_callback a.0 q t >>= after a.1)
                (Going (suc fuel) c))
            (sym s)
            (Returns->>= (IsRefused same_request d) (Going (suc fuel) c) (call same_request d) _
              (f d) (again rest d k))

      found :
          Rest
          → (x : Result RegionPtr × C) → IsFound c x
          → Returns
              (elim x.0 as (λ _. Outcome (Option Status × (DeleteRange × C))) [
                | failure s ↦ done (some (if is_not_found s.code then ok else s), (t, x.1))
                | success g ↦ call (delete_request t g) x.1 >>= λ a.
                    kv_delete_range_rpc_callback a.0 (delete_request t g) t >>= after a.1
              ])
              (Going (suc fuel) c)
      found rest (failure s, d) h = cc (h.0)
      found rest (success g, d) h =
          let same : g ≡ r = cc (h.0) in
          subst
            (λ g.
              Returns
                (call (delete_request t g) d >>= λ a.
                  kv_delete_range_rpc_callback a.0 (delete_request t g) t >>= after a.1)
                (Going (suc fuel) c))
            (sym same) (asked rest d h.1 (delete_request t r) (request_lem low high))
