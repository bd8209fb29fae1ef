-- ===== src/Txn/Buffer/View.antt =====
-- The buffer as a finite function from keys to mutations, and what a write means there.
use dingo_sdk.Base.{Bool, true, false, List, [], ◌∷◌, Option, none, some, if◌then◌else◌, ◌≡◌, ◌⊎◌}
use dingo_sdk.Key.{Key, key_eqb, is_empty}
use dingo_sdk.OrdMap
use dingo_sdk.OrdMap.{IsSorted}
use dingo_sdk.Outcome.{Outcome}
use dingo_sdk.Txn.Buffer.{
  Buffer, Mutation, MutationType, none_mutation, put_mutation, delete_mutation,
  put_if_absent_mutation, put, put_if_absent, delete,
}

abbrev pub view : Buffer → Key → Option Mutation
view b k = OrdMap.find k b.mutation_map

-- One write of the buffer's interface.
pub data Write : Type 0 where
  puts puts_if_absent : Key → Key → Write
  deletes : Key → Write

abbrev pub key_of : Write → Key
key_of (puts k v) = k
key_of (puts_if_absent k v) = k
key_of (deletes k) = k

unfoldable pub write : Write → Buffer → Outcome Buffer
write (puts k v) = put k v
write (puts_if_absent k v) = put_if_absent k v
write (deletes k) = delete k

-- What the written key holds afterwards, given what it held.
abbrev pub after_over : MutationType → Key → Key → Mutation → Mutation
after_over delete_mutation k v m = record { type = put_if_absent_mutation; key = k; value = v }
after_over _ k v m = m

abbrev pub after_absent : Key → Key → Option Mutation → Option Mutation
after_absent k v none = some (record { type = put_if_absent_mutation; key = k; value = v })
after_absent k v (some m) = some (after_over m.type k v m)

abbrev pub after : Write → Option Mutation → Option Mutation
after (puts k v) old = some (record { type = put_mutation; key = k; value = v })
after (puts_if_absent k v) old = after_absent k v old
after (deletes k) old = some (record { type = delete_mutation; key = k; value = [] })

-- The key of the first write of a sequence, unless a primary key is already there.
abbrev pub first_key : Key → List Write → Key
first_key pk [] = pk
first_key pk (w ∷ ws) = first_key (if is_empty pk then key_of w else pk) ws

-- A mutation that the buffer makes is a put, a delete or a put-if-absent.
abbrev pub is_write : MutationType → Bool
is_write none_mutation = false
is_write _ = true

-- The map is in order, its keys are those of its mutations and none is empty, and the primary key
-- is one of them, if there is any.
pub record IsValid (b : Buffer) : Type 0 where
  pub sorted : IsSorted b.mutation_map
  pub keyed :
      (k : Key) (m : Mutation)
      → view b k ≡ some m
      → (m.key ≡ k) × (is_empty k ≡ false) × (is_write m.type ≡ true)
  pub primary :
      ((b.primary_key ≡ []) × (b.mutation_map ≡ []))
      ⊎ ((is_empty b.primary_key ≡ false) × ((m : Mutation) × (view b b.primary_key ≡ some m)))

-- The buffer `b'` is `b` after the write `w`.
pub record Written (w : Write) (b b' : Buffer) : Type 0 where
  pub valid : IsValid b'
  pub reads :
      (q : Key)
      → view b' q ≡ (if key_eqb q (key_of w) then after w (view b (key_of w)) else view b q)
  pub first : b'.primary_key ≡ (if is_empty b.primary_key then key_of w else b.primary_key)

-- A sequence of writes to a finite function.
abbrev pub after_all : List Write → (Key → Option Mutation) → Key → Option Mutation
after_all [] f = f
after_all (w ∷ ws) f =
    after_all ws (λ q. if key_eqb q (key_of w) then after w (f (key_of w)) else f q)
