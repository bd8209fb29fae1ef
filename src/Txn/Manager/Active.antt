-- ===== src/Txn/Manager/Active.antt =====
-- src/sdk/transaction/txn_manager.cc: which transactions the register has after a stop.
use dingo_sdk.Base.{
  ℕ, Bool, true, false, ◌||◌, List, [], ◌∷◌, Option, none, some, if◌then◌else◌, ◌==◌, ◌≡◌, refl, ap,
  ◌∙◌, arith, Bool-cases, inl, inr, ==_iff,
}
use dingo_sdk.Outcome.{Outcome, done, ◌>>=◌, Returns, Returns-map, Returns->>=}
use dingo_sdk.MetaCache.Ids.{find_id, find_id-erase_id}
use dingo_sdk.Txn.Machine.{Txn, check_finished}
use dingo_sdk.Txn.Manager
use dingo_sdk.Txn.Manager.{Manager}

-- What other threads ask of the manager.
pub data Call : Type 0 where
  -- A registration, with what it read of `stopped_` when it began.
  registers : ℕ → Bool → Call
  unregisters : ℕ → Call

unfoldable pub call : (ℕ → Txn) → Call → Manager → Outcome Manager
call txns (registers i was_stopped) m = Manager.register_txn i was_stopped m >>= λ r. done r.1
call txns (unregisters i) m = Manager.unregister_txn txns i m

unfoldable pub calls : (ℕ → Txn) → List Call → Manager → Outcome Manager
unfolding call
calls txns [] m = done m
calls txns (c ∷ cs) m = call txns c m >>= calls txns cs

-- Registrations begin after the stop, and only finished transactions ask to leave.
abbrev pub AfterStop : (ℕ → Txn) → List Call → Type 0
AfterStop txns [] = Unit {0}
AfterStop txns (registers i was_stopped ∷ cs) = (was_stopped ≡ true) × AfterStop txns cs
AfterStop txns (unregisters i ∷ cs) = (check_finished (txns i) ≡ true) × AfterStop txns cs

abbrev pub leaves : ℕ → List Call → Bool
leaves i [] = false
leaves i (registers j was_stopped ∷ cs) = leaves i cs
leaves i (unregisters j ∷ cs) = i == j || leaves i cs

-- The manager takes no new transaction, and keeps those it had but for those that asked to leave.
abbrev pub Drained : List Call → Manager → Manager → Type 0
Drained cs m m' =
    (m'.stopped ≡ true)
    × ((i : ℕ) → find_id i m'.active_txns ≡ (if leaves i cs then none else find_id i m.active_txns))

module _ (txns : ℕ → Txn) where
  unregister_txn-Drained :
      (i : ℕ) (m : Manager)
      → m.stopped ≡ true
      → check_finished (txns i) ≡ true
      → Returns (Manager.unregister_txn txns i m) (Drained (unregisters i ∷ []) m)
  unfolding Manager.unregister_txn
  unregister_txn-Drained i m h f = go (find_id i m.active_txns) refl
    where
      go :
          (o : Option (Unit {0}))
          → find_id i m.active_txns ≡ o
          → Returns (Manager.unregister_txn txns i m) (Drained (unregisters i ∷ []) m)
      go none e =
          rw (e, Manager.unregister_txn)
            (
              h,
              λ j. elim (Bool-cases (j == i)) [
                | inl y ↦ rw (y) (ap (λ k. find_id k m.active_txns) ((==_iff j i).0 y) ∙ e)
                | inr n ↦ rw (n) refl
              ],
            )
      go (some u) e =
          rw (e, f, Manager.unregister_txn)
            (h, λ j. ground (arith, find_id-erase_id j i m.active_txns))

  -- A manager that is stopped, whatever is asked of it afterwards, when registrations begin after the
  -- stop and only finished transactions ask to leave: no new transaction is registered, those that ask to
  -- leave are not registered afterwards, and all others are registered as before.
  pub calls-Drained :
      (cs : List Call) (m : Manager)
      → AfterStop txns cs
      → m.stopped ≡ true
      → Returns (calls txns cs m) (Drained cs m)
  unfolding calls call Manager.register_txn
  calls-Drained [] m f h = (h, λ i. refl)
  calls-Drained (registers i was_stopped ∷ cs) m f h = rw (f.0) (calls-Drained cs m f.1 h)
  calls-Drained (unregisters i ∷ cs) m f h =
      Returns->>= (Drained (unregisters i ∷ []) m) (Drained (unregisters i ∷ cs) m)
        (Manager.unregister_txn txns i m) (calls txns cs) (unregister_txn-Drained i m h f.0)
        (λ m1 s.
          Returns-map (Drained cs m1) (Drained (unregisters i ∷ cs) m) (calls txns cs m1)
            (λ c t. (t.0, λ j. ground (arith, s.1 j, t.1 j))) (calls-Drained cs m1 f.1 s.0))
