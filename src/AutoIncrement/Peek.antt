-- ===== src/AutoIncrement/Peek.antt =====
-- src/sdk/auto_increment_manager.cc: `GetAutoIncrementId` shows the id that `GetNextId` then takes.
use dingo_sdk.Base.{ℕ, List, ◌∷◌, ◌≡◌}
use dingo_sdk.Outcome.{done}
use dingo_sdk.Status.{Result, success}
use dingo_sdk.AutoIncrement.{Reply, Incrementer, get_next_id}

-- The next id is `x`, and the one call of `GetNextId` takes it from the cache.
pub record Shows (server : ℕ → Result Reply) (x : ℕ) (i : Incrementer) : Type 0 where
  pub rest : List ℕ
  pub front : i.id_cache ≡ x ∷ rest
  pub next : get_next_id server i ≡ done (success x, record i { id_cache = rest })
