-- ===== src/AutoIncrement.antt =====
-- src/sdk/auto_increment_manager.h and auto_increment_manager.cc: ids for the rows of an index, from
-- a cache that is refilled in ranges by the server. `RunOperation` lets one operation run at a time,
-- in the order of arrival, so each is one step here. The replies of the server, by the number of the
-- request, are arguments.
use dingo_sdk.Base.{
  ℕ, zero, suc, ◌+◌, ◌-◌, Bool, true, false, List, [], ◌∷◌, ◌++◌, Option, none, some, ltb, ◌==◌,
  length, take, drop, if◌then◌else◌,
}
use dingo_sdk.Outcome.{Outcome, done, aborted, check, ◌>>=◌, ◌>>◌}
use dingo_sdk.Status.{Status, Result, success, failure, Answer, and_then}
pub mod Order
pub mod Peek
pub mod Manager

-- The ids from `start_id` to before `end_id`.
pub record Reply : Type 0 where
  pub start_id : ℕ
  pub end_id : ℕ

-- `requests` counts what the server has been asked.
pub record Incrementer : Type 0 where
  pub id_cache : List ℕ
  pub requests : ℕ

abbrev pub new : Incrementer
new = record { id_cache = []; requests = 0 }

unfoldable pub ids_from : ℕ → ℕ → List ℕ
ids_from start zero = []
ids_from start (suc n) = start ∷ ids_from (start + 1) n

unfoldable pub get_first : List ℕ → Outcome ℕ
get_first [] = aborted
get_first (x ∷ xs) = done x

module _ (server : ℕ → Result Reply) where
  unfoldable pub refill_cache : Incrementer → Answer Incrementer (Unit {0})
  refill_cache i =
      let asked = record i { requests = i.requests + 1 } in
      elim (server i.requests) [
        | failure s ↦ done (failure s, asked)
        | success reply ↦ do
          check (ltb reply.start_id reply.end_id)
          let ids = ids_from reply.start_id (reply.end_id - reply.start_id)
          done (success tt, record asked { id_cache = i.id_cache ++ ids })
      ]

  -- The loop of `GetNextIds`, which the source does not bound; here it ends the process when its
  -- fuel is used up. Each pass but the last adds an id to the cache, so the fuel is enough.
  unfoldable pub fill_loop : ℕ → ℕ → Incrementer → Answer Incrementer (List ℕ)
  fill_loop zero count i = aborted
  fill_loop (suc n) count i = elim (ltb (length i.id_cache) count) [
    | true ↦ and_then (refill_cache i) (λ u j. fill_loop n count j)
    | false ↦ done (success (take count i.id_cache), record i { id_cache = drop count i.id_cache })
  ]

  unfoldable pub get_next_ids : ℕ → Incrementer → Answer Incrementer (List ℕ)
  get_next_ids count i = do check (ltb 0 count); fill_loop (count + 1) count i

  unfoldable pub get_next_id : Incrementer → Answer Incrementer ℕ
  get_next_id i = and_then (get_next_ids 1 i) (λ ids j. do id ← get_first ids; done (success id, j))

  -- The loop of `GetAutoIncrementId`, for which two passes are enough.
  unfoldable pub peek_loop : ℕ → Incrementer → Answer Incrementer ℕ
  peek_loop zero i = aborted
  peek_loop (suc n) i = elim i.id_cache [
    | [] ↦ and_then (refill_cache i) (λ u j. peek_loop n j)
    | x ∷ xs ↦ done (success x, i)
  ]

  unfoldable pub get_auto_increment_id : Incrementer → Answer Incrementer ℕ
  get_auto_increment_id i = peek_loop 2 i

-- `UpdateAutoIncrementId`, with the outcome of the call of the server.
unfoldable pub update_auto_increment_id :
    ℕ → Result (Unit {0}) → Incrementer → Answer Incrementer (Unit {0})
update_auto_increment_id start_id reply i = do
  check (ltb 0 start_id)
  and_then (done (reply, i)) (λ u j. done (success tt, record j { id_cache = [] }))
