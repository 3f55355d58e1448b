-- ===== src/Sorted/Last.antt =====
-- An element that comes behind all others of a sorted array.
use x_grey.Prelude.{
  ℕ, zero, suc, ◌≤◌, Ordering, ◌≡◌, refl, ap, List, [], ◌∷◌, ◌++◌, All, drop, length, arith,
}
use x_grey.Order.{Compares}
use x_grey.Sorted.{look_key, insert_at}

module _ {ℓ κ} {K : Type ℓ} {A : Type κ} (c : Compares K) (key_of : A → K) where
  -- Every element has a key before `k`.
  abbrev pub AreBefore : K → List A → Type 0
  AreBefore k xs = All (λ a. c.cmp (key_of a) k ≡ Ordering.lt) xs

  pub last_place :
      (k : K) (i : ℕ) (xs : List A)
      → AreBefore k xs
      → All (λ a. look_key c key_of k a ≡ Ordering.lt) (drop i xs)
      → length xs ≤ i
  last_place k i [] h g = omega arith
  last_place k zero (x ∷ xs) h g = ground (arith, h.0, c.cmp_flop k (key_of x) g.0)
  last_place k (suc i) (x ∷ xs) h g = omega (arith, last_place k i xs h.1 g)

  pub AreBefore-last :
      (k : K) (xs : List A) (x : A)
      → AreBefore k xs
      → c.cmp (key_of x) k ≡ Ordering.lt
      → AreBefore k (xs ++ (x ∷ []))
  AreBefore-last k [] x h g = (g, tt)
  AreBefore-last k (y ∷ ys) x h g = (h.0, AreBefore-last k ys x h.1 g)

module _ {ℓ} {A : Type ℓ} where
  pub insert_at-end :
      (i : ℕ) (x : A) (xs : List A) → length xs ≤ i → insert_at i x xs ≡ xs ++ (x ∷ [])
  insert_at-end zero x [] h = refl
  insert_at-end (suc i) x [] h = refl
  insert_at-end zero x (y ∷ ys) h = absurd (omega arith)
  insert_at-end (suc i) x (y ∷ ys) h =
      ap (λ (r : List A). y ∷ r) (insert_at-end i x ys (omega arith))
