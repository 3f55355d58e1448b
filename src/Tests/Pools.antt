-- ===== src/Tests/Pools.antt =====
-- server/tuple.c on a pool of two slots.
use x_grey.Prelude.{
  ℕ, ◌≡◌, refl, Bool, true, false, arith, Run, done, abort, Returns, compare, Ordering,
}
use x_grey.Order.{strcmp}
use x_grey.Order.Pair.{lex}
use x_grey.Tuple.{Tuple}
use x_grey.Tuple.Key.{tuple_key}
use x_grey.Pool.{
  Pool, counted, tuple_search, tuple_add, tuple_expire, tuple_allocate, update, expire_loop,
  free_loop, is_expired,
}
use x_grey.Pool.Search.{Sought, tuple_search-Sought}
use x_grey.Pool.Add.{IsAdded, tuple_add-IsAdded}
use x_grey.Tests.Base.{two_slots, from_host, one_tuple, from_host-IsTuple, one_tuple-IsPool}

tuple_search-Sought_example :
    Returns
      (tuple_search one_tuple (from_host 1))
      (λ r. (r.0 ≡ counted one_tuple) × Sought one_tuple (tuple_key (from_host 1)) (r.1, r.2))
tuple_search-Sought_example =
    tuple_search-Sought two_slots one_tuple (from_host 1) one_tuple-IsPool (from_host-IsTuple 1)

tuple_add-IsAdded_example :
    Returns
      (tuple_add two_slots (record one_tuple { pool = update one_tuple.pool 1 (from_host 2) }) 1 1)
      (IsAdded two_slots one_tuple (from_host 2) 1 1)
unfolding strcmp lex
tuple_add-IsAdded_example =
    tuple_add-IsAdded two_slots one_tuple one_tuple-IsPool (from_host 2) (from_host-IsTuple 2) 1 1
      (omega arith) refl (omega arith) (refl, tt) tt refl

abbrev is_abort {ℓ} : {A : Type ℓ} → Run A → Bool
is_abort (done x) = false
is_abort abort = true

-- With both slots in use, one expired entry is enough.
abbrev two_tuples : Pool
two_tuples = record one_tuple { pool = λ i. if_first i; poolnum = 2 }
  where
    if_first : ℕ → Tuple
    if_first i = elim (compare i 0) [
      | Ordering.eq ↦ from_host 1
      | _ ↦ record (from_host 2) { atime = 20000 }
    ]

full_pool_aborts : is_abort (tuple_expire two_slots 20000 two_tuples) ≡ true
unfolding tuple_expire expire_loop free_loop update is_expired
full_pool_aborts = refl

full_pool_allocates : is_abort (tuple_allocate two_slots 200 two_tuples) ≡ false
unfolding tuple_allocate tuple_expire expire_loop free_loop update is_expired
full_pool_allocates = refl
