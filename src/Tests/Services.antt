-- ===== src/Tests/Services.antt =====
-- The provider of timestamps and the incrementers with servers that answer a few requests.
use dingo_sdk.Base.{ℕ, zero, suc, ◌<◌, [], ◌∷◌, some, refl, arith}
use dingo_sdk.Outcome.{Returns}
use dingo_sdk.Status.{Result, success, failure, of_code, network_error, HoldsOf}
use dingo_sdk.Tso
use dingo_sdk.Tso.Order
use dingo_sdk.Tso.Calls.{
  want_ts, grants, Ascends, grants-Ascends, new-Ready, gen_ts-succeeds, IsSuccess,
}
use dingo_sdk.AutoIncrement
use dingo_sdk.AutoIncrement.{Reply, get_next_ids}
use dingo_sdk.AutoIncrement.Order.{Stocked, Handed, get_next_ids-Handed, new-Stocked}
use dingo_sdk.AutoIncrement.Manager.{
  Manager, get_or_create, vector_index, document_index, IsValid, Shared, get_or_create-Shared,
}
use dingo_sdk.MetaCache.Ids.{find_id}

-- The first request fails, the second gets 256 timestamps of the millisecond 5, and the rest fail.
abbrev tso_server : ℕ → Result Tso.Response
tso_server zero = failure (of_code network_error)
tso_server (suc zero) =
    success (record { start_timestamp = some (record { physical = 5; logical = 7 }); count = 256 })
tso_server (suc (suc n)) = failure (of_code network_error)

tso_server-Ascending : Tso.Order.Ascending tso_server
tso_server-Ascending = record { each = each; after = after }
  where
    each : (n : ℕ) → Tso.Order.From 0 (tso_server n)
    each zero = tt
    each (suc zero) = (_, refl, omega arith, omega arith, omega arith, omega arith)
    each (suc (suc n)) = tt

    after : (n m : ℕ) → n < m → Tso.Order.From (Tso.Order.end_of (tso_server n)) (tso_server m)
    after n zero h = tt
    after zero (suc zero) h = (_, refl, omega arith, omega arith, omega arith, omega arith)
    after (suc n) (suc zero) h = absurd (ground (arith, h))
    after n (suc (suc m)) h = tt

abbrev flags : Tso.Flags
flags = record { txn_op_max_retry = 20; stale_period_us = 1000 }

grants-Ascends_example :
    Returns (grants tso_server flags (want_ts 2 100 ∷ want_ts 3 200 ∷ []) (Tso.new 0)) (Ascends 0)
grants-Ascends_example =
    grants-Ascends tso_server tso_server-Ascending flags (want_ts 2 100 ∷ want_ts 3 200 ∷ []) 0
      (Tso.new 0) (omega arith, (omega arith, tt)) (new-Ready tso_server tso_server-Ascending 0)

gen_ts-succeeds_example :
    Returns (Tso.gen_ts tso_server flags 100 2 (Tso.new 0)) (λ r. IsSuccess r.0)
gen_ts-succeeds_example =
    gen_ts-succeeds tso_server tso_server-Ascending flags 100 2 1 (Tso.new 0) _ (omega arith)
      (new-Ready tso_server tso_server-Ascending 0) (omega arith) refl (omega arith)

-- The ids 1, 2 and 3, and then 4 to 9.
abbrev id_server : ℕ → Result Reply
id_server zero = success (record { start_id = 1; end_id = 4 })
id_server (suc zero) = success (record { start_id = 4; end_id = 10 })
id_server (suc (suc n)) = failure (of_code network_error)

id_server-Ascending : AutoIncrement.Order.Ascending id_server
id_server-Ascending = record { each = each; after = after }
  where
    each : (n : ℕ) → AutoIncrement.Order.From 0 (id_server n)
    each zero = (omega arith, omega arith)
    each (suc zero) = (omega arith, omega arith)
    each (suc (suc n)) = tt

    after :
        (n m : ℕ)
        → n < m
        → AutoIncrement.Order.From (AutoIncrement.Order.end_of (id_server n)) (id_server m)
    after n zero h = absurd (ground (arith, h))
    after zero (suc zero) h = (omega arith, omega arith)
    after (suc n) (suc zero) h = absurd (ground (arith, h))
    after n (suc (suc m)) h = tt

get_next_ids-Handed_example :
    Returns
      (get_next_ids id_server 5 AutoIncrement.new)
      (HoldsOf (Stocked id_server 0) (Handed id_server 0 5))
get_next_ids-Handed_example =
    get_next_ids-Handed id_server id_server-Ascending 0 5 AutoIncrement.new (omega arith)
      (new-Stocked id_server id_server-Ascending)

abbrev one_index : Manager
one_index = record {
  auto_incrementer_map = (7, record { addr = 0; kind = vector_index }) ∷ [];
  next_addr = 1;
}

one_index-IsValid : IsValid one_index
unfolding find_id
one_index-IsValid = record {
  older = λ i p h. ground (arith, h);
  apart = λ a b p q h k e. ground (arith, h, k);
}

get_or_create-Shared_example : Shared 8 one_index (get_or_create document_index 8 one_index)
get_or_create-Shared_example = get_or_create-Shared document_index 8 one_index one_index-IsValid
