-- ===== src/Txn/ResolvedLocks.antt =====
-- The cache of src/sdk/transaction/txn_lock_resolver.cc: the transactions whose end is known, by the
-- timestamps of their locks, of which the one that was not used for longest is given up.
use dingo_sdk.Base.{
  ℕ, Bool, true, false, not, ◌||◌, List, [], ◌∷◌, length, last?, keep, Option, none, some,
  if◌then◌else◌, ltb, ◌==◌,
}
use dingo_sdk.Outcome.{Outcome, done, aborted, check_some, ◌>>=◌}
use dingo_sdk.MetaCache.Ids.{find_id, erase_id}
use dingo_sdk.Txn.CheckStatus.{TxnStatus, is_committed, is_rollbacked}
pub mod Keys
pub mod Valid

-- The cache: `resolved_lock_lru_queue_`, from the latest used, and `resolved_lock_cache_`.
pub record Resolver : Type 0 where
  pub lru_queue : List ℕ
  pub lock_cache : List (ℕ × TxnStatus)

abbrev pub other_than : ℕ → ℕ → Bool
other_than i j = not (i == j)

-- `splice` to the front, of a timestamp that is in the queue.
unfoldable pub promote : ℕ → Resolver → Resolver
promote ts r = record r { lru_queue = ts ∷ keep (other_than ts) r.lru_queue }

-- `pop_back`.
unfoldable pub pop_back : List ℕ → List ℕ
pop_back [] = []
pop_back (x ∷ []) = []
pop_back (x ∷ y ∷ ys) = x ∷ pop_back (y ∷ ys)

unfoldable pub evict : ℕ → Resolver → Outcome Resolver
evict max_cache_size r =
    if ltb max_cache_size (length r.lock_cache)
    then (do
      lru_lock_ts ← check_some (last? r.lru_queue)
      done (record {
        lru_queue = pop_back r.lru_queue;
        lock_cache = erase_id lru_lock_ts r.lock_cache;
      }))
    else done r

abbrev pub is_definitive : TxnStatus → Bool
is_definitive s = is_committed s || is_rollbacked s

-- The status of a check is saved.
unfoldable pub save : ℕ → ℕ → TxnStatus → Resolver → Outcome Resolver
save max_cache_size ts s r = elim (is_definitive s) [
  | false ↦ done r
  | true ↦ elim (find_id ts r.lock_cache) [
    | some x ↦ done r
    | none ↦
        evict max_cache_size
          (record { lru_queue = ts ∷ r.lru_queue; lock_cache = (ts, s) ∷ r.lock_cache })
  ]
]

-- The cached status, if it is there, and the cache afterwards.
unfoldable pub cached : ℕ → Resolver → Option TxnStatus × Resolver
cached ts r = elim (find_id ts r.lock_cache) [ none ↦ (none, r) | some s ↦ (some s, promote ts r) ]
