-- ===== src/Sorted/Search.antt =====
-- `bisearch` on an array whose first `n` elements ascend agrees with a walk over them.
use x_grey.Prelude.{
  ℕ, zero, suc, ◌≤◌, ◌<◌, Ordering, ◌≡◌, refl, sym, ◌∙◌, none, some, List, [], ◌∷◌, arith, All,
  All-get, length, length-take, get_elem?, take, drop, Run, done,
}
use x_grey.Order.{Compares}
use x_grey.Bisearch.{Item, bisearch}
use x_grey.Bisearch.Search.{IsSortedFor, Located, hit, miss, bisearch-Located}
use x_grey.Sorted.{look_key, IsAscending}

module _ {ℓ} {A : Type ℓ} where
  pub get_elem?-take : (n i : ℕ) (xs : List A) → i < n → get_elem? (take n xs) i ≡ get_elem? xs i
  get_elem?-take zero i xs h = absurd (omega arith)
  get_elem?-take (suc n) i [] h = refl
  get_elem?-take (suc n) zero (x ∷ xs) h = refl
  get_elem?-take (suc n) (suc i) (x ∷ xs) h = get_elem?-take n i xs (omega arith)

  pub get-lt-length : (xs : List A) (i : ℕ) (a : A) → get_elem? xs i ≡ some a → i < length xs
  get-lt-length [] i a e = ground arith
  get-lt-length (x ∷ xs) zero a e = omega arith
  get-lt-length (x ∷ xs) (suc i) a e = omega (arith, get-lt-length xs i a e)

module _ {ℓ κ} {K : Type ℓ} {A : Type κ} (c : Compares K) (key_of : A → K) where
  ascending_lt :
      (xs : List A) (i j : ℕ) (a b : A)
      → IsAscending c key_of xs
      → i < j
      → get_elem? xs i ≡ some a
      → get_elem? xs j ≡ some b
      → c.cmp (key_of a) (key_of b) ≡ Ordering.lt
  ascending_lt [] i j a b s h e f = ground arith
  ascending_lt (x ∷ xs) i zero a b s h e f = absurd (omega arith)
  ascending_lt (x ∷ xs) zero (suc j) a b s h e f =
      cc (All-get (λ y. c.cmp (key_of x) (key_of y) ≡ Ordering.lt) xs j b s.0 f)
  ascending_lt (x ∷ xs) (suc i) (suc j) a b s h e f = ascending_lt xs i j a b s.1 (omega arith) e f

  module _ (k : K) where
    -- What a search for `k` in the list `xs` may return.
    pub data Found (xs : List A) : Run Item → Type (ℓ ⊔ κ) where
      there :
          (i : ℕ) (a : A)
          → get_elem? xs i ≡ some a
          → key_of a ≡ k
          → Found xs (done (record { datum = some i; idx = i }))
      absent :
          (i : ℕ)
          → i ≤ length xs
          → All (λ a. look_key c key_of k a ≡ Ordering.gt) (take i xs)
          → All (λ a. look_key c key_of k a ≡ Ordering.lt) (drop i xs)
          → Found xs (done (record { datum = none; idx = i }))

    ascending-IsSortedFor :
        (n : ℕ) (xs : List A)
        → IsAscending c key_of (take n xs)
        → IsSortedFor (look_key c key_of) k xs n
    ascending-IsSortedFor n xs s = record {
      up = λ i j a b h m e f g.
          let q = ordered i j a b h m e f in
          c.cmp_flop (key_of a) k
            (c.cmp_trans (key_of a) (key_of b) k q (c.cmp_flip k (key_of b) g));
      down = λ i j a b h m e f g. c.cmp_trans k (key_of a) (key_of b) g (ordered i j a b h m e f);
    }
      where
        ordered :
            (i j : ℕ) (a b : A)
            → i < j
            → j < n
            → get_elem? xs i ≡ some a
            → get_elem? xs j ≡ some b
            → c.cmp (key_of a) (key_of b) ≡ Ordering.lt
        ordered i j a b h m e f =
            ascending_lt (take n xs) i j a b s h (get_elem?-take n i xs (omega arith) ∙ e)
              (get_elem?-take n j xs m ∙ f)

    take-All :
        (P : A → Type 0) (i : ℕ) (xs : List A)
        → ((j : ℕ) (a : A) → j < i → get_elem? xs j ≡ some a → P a)
        → All P (take i xs)
    take-All P zero xs h = tt
    take-All P (suc i) [] h = tt
    take-All P (suc i) (x ∷ xs) h =
        (h 0 x (omega arith) refl, take-All P i xs (λ j a q. h (suc j) a (omega arith)))

    drop-All :
        (P : A → Type 0) (i : ℕ) (xs : List A)
        → ((j : ℕ) (a : A) → i ≤ j → get_elem? xs j ≡ some a → P a)
        → All P (drop i xs)
    drop-All P zero [] h = tt
    drop-All P zero (x ∷ xs) h =
        (h 0 x (omega arith) refl, drop-All P zero xs (λ j a q. h (suc j) a (omega arith)))
    drop-All P (suc i) [] h = tt
    drop-All P (suc i) (x ∷ xs) h = drop-All P i xs (λ j a q. h (suc j) a (omega arith))

    Located-Found :
        (n : ℕ) (xs : List A) (r : Run Item)
        → n ≤ length xs
        → Located (look_key c key_of) k xs n r
        → Found (take n xs) r
    Located-Found n xs r fits (hit i a h e q) =
        there i a (get_elem?-take n i xs h ∙ e) (sym (c.cmp_eq k (key_of a) q))
    Located-Found n xs r fits (miss i h before behind) =
        absent i (omega (arith, length-take n xs))
          (take-All _ i (take n xs) (λ j a q e. before j a q (inside j a e)))
          (drop-All _ i (take n xs) (λ j a q e. behind j a q (bound j a e) (inside j a e)))
      where
        bound : (j : ℕ) (a : A) → get_elem? (take n xs) j ≡ some a → j < n
        bound j a e = omega (arith, length-take n xs, get-lt-length (take n xs) j a e)

        inside : (j : ℕ) (a : A) → get_elem? (take n xs) j ≡ some a → get_elem? xs j ≡ some a
        inside j a e = sym (get_elem?-take n j xs (bound j a e)) ∙ e

    -- On an array whose first `n` elements ascend, `bisearch` returns the element with the key, or
    -- the place where it would stand among them.
    pub bisearch-Found :
        (n : ℕ) (xs : List A)
        → n ≤ length xs
        → IsAscending c key_of (take n xs)
        → Found (take n xs) (bisearch (look_key c key_of) k xs n)
    bisearch-Found n xs fits s =
        Located-Found n xs _ fits
          (bisearch-Located (look_key c key_of) k xs n fits (ascending-IsSortedFor n xs s))
