-- ===== src/Keyed.antt =====
-- What the tasks on several keys have in common (src/sdk/rawkv/raw_kv_batch_put_task.cc and its like,
-- src/sdk/transaction/txn_task/txn_resolve_lock_task.cc and its like): the keys are sent to their regions,
-- a request to each, and the keys of a request that failed are left for the next run. The lookup in the
-- cache of regions and `send`, which sends a request and says what its call back makes of the response,
-- are arguments, and `C` is what they read and change. The map from region ids to keys has no order, and
-- the call backs come in any order: `order` says which, and each call back holds the lock of the task.
use dingo_sdk.Base.{
  ℕ, zero, suc, ◌+◌, Bool, true, false, ◌&&◌, List, [], ◌∷◌, ◌++◌, Option, none, some,
  if◌then◌else◌, ◌==◌,
}
use dingo_sdk.Key.{Key, key_ltb, key_leb, key_eqb}
use dingo_sdk.Outcome.{Outcome, done, aborted, ◌>>=◌}
use dingo_sdk.Status.{Status, Result, success, failure, is_ok, ok, of_code, invalid_argument}
use dingo_sdk.Region.{RegionPtr}
pub mod Cached
pub mod Count
pub mod Once

-- The set of keys, which ascend.
unfoldable pub has_key : Key → List Key → Bool
has_key k [] = false
has_key k (x ∷ xs) = if key_eqb k x then true else has_key k xs

unfoldable pub insert_key : Key → List Key → List Key
insert_key k [] = k ∷ []
insert_key k (x ∷ xs) = if key_ltb k x then k ∷ x ∷ xs else x ∷ insert_key k xs

unfoldable pub erase_key : Key → List Key → List Key
erase_key k [] = []
erase_key k (x ∷ xs) = if key_eqb k x then xs else x ∷ erase_key k xs

unfoldable pub erase_keys : List Key → List Key → List Key
erase_keys [] next = next
erase_keys (k ∷ ks) next = erase_keys ks (erase_key k next)

-- `Init`: a key that comes twice is refused.
unfoldable pub insert_all : List Key → List Key → Status × List Key
insert_all [] next = (ok, next)
insert_all (k ∷ ks) next = elim (has_key k next) [
  | true ↦ (of_code invalid_argument, next)
  | false ↦ insert_all ks (insert_key k next)
]

-- A request: a region and its keys.
pub record Group : Type 0 where
  pub region : RegionPtr
  pub keys : List Key

-- A key is put to the keys of its region, by the region's id; the region is the first with the id.
unfoldable pub push_key : RegionPtr → Key → List Group → List Group
push_key r k [] = record { region = r; keys = k ∷ [] } ∷ []
push_key r k (g ∷ gs) =
    if r.region_id == g.region.region_id
    then record g { keys = g.keys ++ k ∷ [] } ∷ gs
    else g ∷ push_key r k gs

-- A task. `own` is what the task keeps of the responses.
pub record Keyed (S : Type 0) : Type 0 where
  pub next_keys : List Key
  pub status : Status
  pub own : S

-- What a call back makes of a response: its status, and the keys that are erased when it is OK.
pub record Answer (S : Type 0) : Type 0 where
  pub status : Status
  pub erased : List Key
  pub own : S

-- The part of a call back that holds the lock: only the first failure is kept.
unfoldable pub take_answer : {S : Type 0} → Answer S → Keyed S → Keyed S
take_answer a t =
    if is_ok a.status
    then record t { next_keys = erase_keys a.erased t.next_keys; own = a.own }
    else record t { status = if is_ok t.status then a.status else t.status; own = a.own }

abbrev pub in_range : RegionPtr → Key → Bool
in_range r k = key_leb r.start_key k && key_ltb k r.end_key

-- The region that was found for the key before, if it has this one too.
unfoldable pub region_again : Option RegionPtr → Key → Option RegionPtr
region_again none k = none
region_again (some r) k = if in_range r k then some r else none

module _ {C S : Type 0} (look_up : Key → C → Outcome (Result RegionPtr × C))
    (send : Group → S → C → Outcome (Answer S × C)) (order : List Group → List Group) where
  -- The requests for the keys.
  unfoldable pub group_keys : List Key → List Group → C → Outcome (Result (List Group) × C)
  group_keys [] gs c = done (success gs, c)
  group_keys (k ∷ ks) gs c = look_up k c >>= λ found. elim found.0 [
    | failure s ↦ done (failure s, found.1)
    | success r ↦ group_keys ks (push_key r k gs) found.1
  ]

  -- The tasks of a transaction keep the region of the key before (`cached_region`).
  unfoldable pub group_keys_cached :
      Option RegionPtr → List Key → List Group → C → Outcome (Result (List Group) × C)
  group_keys_cached before [] gs c = done (success gs, c)
  group_keys_cached before (k ∷ ks) gs c = elim (region_again before k) [
    | some r ↦ group_keys_cached before ks (push_key r k gs) c
    | none ↦ look_up k c >>= λ found. elim found.0 [
      | failure s ↦ done (failure s, found.1)
      | success r ↦ group_keys_cached (some r) ks (push_key r k gs) found.1
    ]
  ]

  unfoldable pub send_groups : List Group → Keyed S × C → Outcome (Keyed S × C)
  send_groups [] x = done x
  send_groups (g ∷ gs) (t, c) = send g t.own c >>= λ a. send_groups gs (take_answer a.0 t, a.1)

  abbrev pub after_groups : Keyed S → Result (List Group) × C → Outcome (Status × (Keyed S × C))
  after_groups t (failure s, c) = done (s, (t, c))
  after_groups t (success gs, c) = send_groups (order gs) (t, c) >>= λ x. done (x.0.status, x)

  abbrev pub is_nil : List Key → Bool
  is_nil [] = true
  is_nil (k ∷ ks) = false

  -- `DoAsync` of a task without a transaction, and of a task of one.
  unfoldable pub do_async : Keyed S × C → Outcome (Status × (Keyed S × C))
  do_async (t, c) =
      let reset = record t { status = ok } in
      if is_nil t.next_keys
      then done (ok, (reset, c))
      else (group_keys t.next_keys [] c >>= after_groups reset)

  unfoldable pub do_async_cached : Keyed S × C → Outcome (Status × (Keyed S × C))
  do_async_cached (t, c) =
      let reset = record t { status = ok } in
      if is_nil t.next_keys
      then done (ok, (reset, c))
      else (group_keys_cached none t.next_keys [] c >>= after_groups reset)
