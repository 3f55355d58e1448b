-- ===== src/Pool/Cells.antt =====
-- Reads and writes of the cells of an array, in order, as lists.
use x_grey.Prelude.{
  ℕ, zero, suc, ◌+◌, ◌≤◌, ◌<◌, ◌≡◌, refl, ap, some, List, [], ◌∷◌, ◌++◌, arith, length, get_elem?,
  set, take, drop,
}

module _ {ℓ} {A : Type ℓ} where
  pub drop-set : (xs : List A) (j k : ℕ) (v : A) → j < k → drop k (set xs j v) ≡ drop k xs
  drop-set [] j k v h = refl
  drop-set (x ∷ xs) j zero v h = absurd (omega arith)
  drop-set (x ∷ xs) zero (suc k) v h = refl
  drop-set (x ∷ xs) (suc j) (suc k) v h = drop-set xs j k v (omega arith)

  pub take-set :
      (xs : List A) (j : ℕ) (v : A)
      → j < length xs
      → take (suc j) (set xs j v) ≡ take j xs ++ (v ∷ [])
  take-set [] j v h = absurd (omega arith)
  take-set (x ∷ xs) zero v h = refl
  take-set (x ∷ xs) (suc j) v h = ap (λ (r : List A). x ∷ r) (take-set xs j v (omega arith))

  pub take-set_below : (xs : List A) (j k : ℕ) (v : A) → k ≤ j → take k (set xs j v) ≡ take k xs
  take-set_below [] j k v h = refl
  take-set_below (x ∷ xs) j zero v h = refl
  take-set_below (x ∷ xs) zero (suc k) v h = absurd (omega arith)
  take-set_below (x ∷ xs) (suc j) (suc k) v h =
      ap (λ (r : List A). x ∷ r) (take-set_below xs j k v (omega arith))

  -- The first of the cells that a walk still has to read.
  pub first_cell :
      (xs : List A) (i : ℕ) (x : A) (rest : List A)
      → take (suc (length rest)) (drop i xs) ≡ x ∷ rest
      → (get_elem? xs i ≡ some x) × (take (length rest) (drop (suc i) xs) ≡ rest) × (i < length xs)
  first_cell [] zero x rest h = ground arith
  first_cell [] (suc i) x rest h = ground arith
  first_cell (y ∷ xs) zero x rest h = (ground arith, ground arith, omega arith)
  first_cell (y ∷ xs) (suc i) x rest h =
      let r = first_cell xs i x rest h in (r.0, r.1, omega (arith, r.2))

  pub drop-drop : (m n k : ℕ) (xs : List A) → k ≡ n + m → drop m (drop n xs) ≡ drop k xs
  drop-drop m zero k xs e = ap (λ (i : ℕ). drop i xs) (omega arith)
  drop-drop m (suc n) zero xs e = absurd (omega arith)
  drop-drop zero (suc n) (suc k) [] e = refl
  drop-drop (suc m) (suc n) (suc k) [] e = refl
  drop-drop m (suc n) (suc k) (x ∷ xs) e = drop-drop m n k xs (omega arith)
