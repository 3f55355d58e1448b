-- ===== src/Pool/Search.antt =====
-- `tuple_search` of server/tuple.c, on a pool in order.
use x_grey.Prelude.{
  ℕ, zero, suc, ◌+◌, ◌≤◌, ◌<◌, Ordering, ◌≡◌, refl, sym, ◌≢◌, Option, none, some, List, [], ◌∷◌,
  arith, All, length, get_elem?, take, drop, Run, Returns, ◌>>=◌, Option-cases, Ordering-cases, inl,
  inr, ◌/◌, ◌-◌, length-take, ◌∙◌,
}
use x_grey.Bisearch.{Item, bisearch, bisearch_loop}
use x_grey.Sorted.{look_key, IsAscending}
use x_grey.Sorted.Search.{Found, there, absent, bisearch-Found, get_elem?-take, get-lt-length}
use x_grey.Tuple.{Tuple, tuple_look_ift}
use x_grey.Tuple.Key.{IsTuple, TupleKey, tuple_key, key_cmp, tuple_look_ift-key_cmp}
use x_grey.Pool.{Config, Pool, counted, search_item, tuple_search}

abbrev pub slot_key : Pool → ℕ → TupleKey
slot_key s slot = tuple_key (s.pool slot)

-- The slots of the tuples in memory, in the order of the array.
abbrev pub live : Pool → List ℕ
live s = take s.poolnum s.tuplespace

-- No slot stands twice.
abbrev pub Distinct : List ℕ → Type 0
Distinct [] = Unit
Distinct (x ∷ xs) = All (λ y. x ≢ y) xs × Distinct xs

-- `g_tuplespace` names each slot once, and up to `g_poolnum` in ascending order.
pub record IsPool (c : Config) (s : Pool) : Type 0 where
  pub tuples : (i : ℕ) → IsTuple (s.pool i)
  pub full : length s.tuplespace ≡ c.poolmax
  pub bounded : s.poolnum ≤ c.poolmax
  pub ascending : IsAscending key_cmp (slot_key s) (live s)
  pub distinct : Distinct s.tuplespace
  pub slots : All (λ x. x < c.poolmax) s.tuplespace

-- `bisearch` sees of its key only the comparisons.
module _ {ℓ κ μ} {K : Type ℓ} {L : Type κ} {A : Type μ} (f : K → A → Ordering)
    (g : L → A → Ordering) (k : K) (l : L) (same : (a : A) → f k a ≡ g l a) (xs : List A) where
  bisearch_loop-congr :
      (n first len : ℕ) → bisearch_loop f k xs n first len ≡ bisearch_loop g l xs n first len
  unfolding bisearch_loop
  bisearch_loop-congr zero first zero = refl
  bisearch_loop-congr (suc n) first zero = refl
  bisearch_loop-congr zero first (suc m) = refl
  bisearch_loop-congr (suc n) first (suc m) =
      let middle : ℕ = first + (suc m / 2) in
      elim (Option-cases (get_elem? xs middle)) [
        | inl e ↦ rw (e, bisearch_loop)
        | inr (a, e) ↦
            rw (e, bisearch_loop, same a)
              (elim (Ordering-cases (g l a)) [
                | inl q ↦ rw (q, bisearch_loop) (bisearch_loop-congr n first (suc m / 2))
                | inr (inl q) ↦ rw (q, bisearch_loop)
                | inr (inr q) ↦
                    rw (q, bisearch_loop)
                      (bisearch_loop-congr n (middle + 1) (suc m - (suc m / 2) - 1))
              ])
      ]

  bisearch-congr : (n : ℕ) → bisearch f k xs n ≡ bisearch g l xs n
  unfolding bisearch
  bisearch-congr n = bisearch_loop-congr n 0 n

-- What a search returns: the slot of the tuple with the key, or the place for it.
pub data Sought (s : Pool) (key : TupleKey) : Option ℕ × ℕ → Type 0 where
  known :
      (i slot : ℕ)
      → get_elem? (live s) i ≡ some slot
      → slot_key s slot ≡ key
      → Sought s key (some slot, i)
  unknown :
      (i : ℕ)
      → i ≤ s.poolnum
      → All (λ x. look_key key_cmp (slot_key s) key x ≡ Ordering.gt) (take i (live s))
      → All (λ x. look_key key_cmp (slot_key s) key x ≡ Ordering.lt) (drop i (live s))
      → Sought s key (none, i)

module _ (c : Config) (s : Pool) (t : Tuple) (v : IsPool c s) (h : IsTuple t) where
  bisearch-live :
      Found key_cmp
        (slot_key s)
        (tuple_key t)
        (live s)
        (bisearch (λ k slot. tuple_look_ift k (s.pool slot)) t s.tuplespace s.poolnum)
  bisearch-live =
      rw
        (bisearch-congr (λ k slot. tuple_look_ift k (s.pool slot)) (look_key key_cmp (slot_key s)) t
          (tuple_key t) (λ slot. tuple_look_ift-key_cmp t (s.pool slot) h (v.tuples slot))
          s.tuplespace s.poolnum)
        (bisearch-Found key_cmp (slot_key s) (tuple_key t) s.poolnum s.tuplespace
          (omega (arith, v.full, v.bounded)) v.ascending)

  search_item-Sought :
      (r : Run Item)
      → Found key_cmp (slot_key s) (tuple_key t) (live s) r
      → Returns (r >>= search_item s) (λ r. (r.0 ≡ counted s) × Sought s (tuple_key t) (r.1, r.2))
  unfolding search_item
  search_item-Sought r (there i slot e q) =
      let inside : i < s.poolnum =
        omega (arith, get-lt-length (live s) i slot e, length-take s.poolnum s.tuplespace) in
      rw (sym (get_elem?-take s.poolnum i s.tuplespace inside) ∙ e, search_item)
        (refl, known i slot e q)
  search_item-Sought r (absent i k g b) =
      (refl, unknown i (omega (arith, length-take s.poolnum s.tuplespace)) g b)

  -- On a pool in order `tuple_search` returns, having only counted; it returns the slot of the tuple
  -- with the same address, sender and recipient, or the place in the order for such a tuple.
  pub tuple_search-Sought :
      Returns (tuple_search s t) (λ r. (r.0 ≡ counted s) × Sought s (tuple_key t) (r.1, r.2))
  unfolding tuple_search
  tuple_search-Sought = search_item-Sought _ bisearch-live
