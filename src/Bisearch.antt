-- ===== src/Bisearch.antt =====
-- common/bisearch.c: the binary search that every sorted array of the server is read with.
pub mod Search
use x_grey.Prelude.{
  ℕ, zero, suc, ◌+◌, ◌-◌, ◌/◌, Ordering, Option, none, some, List, get_elem?, Run, done, abort,
}

-- `bisearch__t`; the pointer to the element found is its position in the array.
pub record Item : Type 0 where
  pub datum : Option ℕ
  pub idx : ℕ

module _ {ℓ κ} {K : Type ℓ} {A : Type κ} (look : K → A → Ordering) (key : K) (base : List A) where
  -- The `while` loop. `len` falls in each round, so `nelem` rounds and the last test are enough.
  unfoldable pub bisearch_loop : ℕ → ℕ → ℕ → Run Item
  bisearch_loop fuel first zero = done (record { datum = none; idx = first })
  bisearch_loop zero first (suc l) = abort
  bisearch_loop (suc fuel) first (suc l) =
      let len = suc l in
      let half = len / 2 in
      let middle = first + half in
      elim (get_elem? base middle) [
        | none ↦ abort
        | some pivot ↦ elim (look key pivot) [
          | Ordering.gt ↦ bisearch_loop fuel (middle + 1) (len - half - 1)
          | Ordering.eq ↦ done (record { datum = some middle; idx = middle })
          | Ordering.lt ↦ bisearch_loop fuel first half
        ]
      ]

  unfoldable pub bisearch : ℕ → Run Item
  unfolding bisearch_loop
  bisearch nelem = bisearch_loop nelem 0 nelem
