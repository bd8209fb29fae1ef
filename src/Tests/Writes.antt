-- ===== src/Tests/Writes.antt =====
-- The write buffer at concrete keys.
use dingo_sdk.Base.{List, [], ◌∷◌, none, if◌then◌else◌, ◌≡◌, refl, inl, keep, ◌&&◌, not}
use dingo_sdk.Key.{Key, key_ltb, key_eqb}
use dingo_sdk.OrdMap
use dingo_sdk.Outcome.{done, aborted, Returns, for_each, ◌>>=◌}
use dingo_sdk.Txn.Buffer.{
  Buffer, put_mutation, new, put, put_if_absent, delete, range, emplace, erase, values, is_nil,
}
use dingo_sdk.Txn.Buffer.View.{
  Write, puts, puts_if_absent, deletes, write, first_key, after_all, IsValid,
}
use dingo_sdk.Txn.Buffer.Writes.{Holds, run-new-Holds}
use dingo_sdk.Txn.Buffer.Range.{in_range, none_below, range-keep}

program : Unit {0}
unfolding key_ltb key_eqb OrdMap.find OrdMap.erase OrdMap.insert OrdMap.before OrdMap.from for_each
    put put_if_absent delete emplace erase write range
program = tt

abbrev a : Key
a = b'a' ∷ []

abbrev b : Key
b = b'b' ∷ []

abbrev c : Key
c = b'c' ∷ []

abbrev writes : List Write
writes = puts b a ∷ deletes c ∷ puts_if_absent c b ∷ puts b c ∷ []

-- The primary key is that of the first write, also after it is written again.
primary : for_each write writes new >>= (λ x. done x.primary_key) ≡ done b
unfolding program
primary = refl

run-new-Holds_example :
    Returns (for_each write writes new) (Holds (after_all writes (λ _. none)) (first_key [] writes))
run-new-Holds_example = run-new-Holds writes (refl, (refl, (refl, (refl, tt))))

abbrev one_put : Buffer
one_put = record {
  primary_key = b;
  mutation_map = (b, record { type = put_mutation; key = b; value = a }) ∷ [];
}

new-IsValid : IsValid new
unfolding OrdMap.find
new-IsValid = record { sorted = tt; keyed = λ k m e. cc; primary = inl (refl, refl) }

-- All that is buffered lies after [a, b): the process ends.
range-keep_example : range a b one_put ≡ (
    if not (is_nil one_put.mutation_map) && none_below b one_put.mutation_map
    then aborted
    else done (values (keep (in_range a b) one_put.mutation_map)))
range-keep_example = range-keep a b one_put (tt, tt) (unfold program in refl)

range_aborts : range a b one_put ≡ aborted
unfolding program
range_aborts = refl

range_finds : range a c one_put ≡ done (values one_put.mutation_map)
unfolding program
range_finds = refl
