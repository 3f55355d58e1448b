-- ===== src/Sorted/Change.antt =====
-- Inserting at the place that a search returned, removing and overwriting keep an array sorted,
-- and are the updates of a map from keys to elements.
use x_grey.Prelude.{
  ℕ, zero, suc, Ordering, ◌≡◌, refl, none, some, List, [], ◌∷◌, arith, All, All-get, get_elem?,
  take, drop, set,
}
use x_grey.Order.{Compares}
use x_grey.Sorted.{insert_at, remove_at, look_key, IsAscending, find_key, if_eq}

module _ {ℓ} {A : Type ℓ} (P : A → Type 0) where
  All-insert : (i : ℕ) (x : A) (xs : List A) → P x → All P xs → All P (insert_at i x xs)
  All-insert zero x xs p h = (p, h)
  All-insert (suc i) x [] p h = (p, tt)
  All-insert (suc i) x (y ∷ ys) p h = (h.0, All-insert i x ys p h.1)

  pub All-remove : (i : ℕ) (xs : List A) → All P xs → All P (remove_at i xs)
  All-remove i [] h = tt
  All-remove zero (x ∷ xs) h = h.1
  All-remove (suc i) (x ∷ xs) h = (h.0, All-remove i xs h.1)

  pub All-set : (xs : List A) (i : ℕ) (v : A) → P v → All P xs → All P (set xs i v)
  All-set [] i v p h = tt
  All-set (x ∷ xs) zero v p h = (p, h.1)
  All-set (x ∷ xs) (suc i) v p h = (h.0, All-set xs i v p h.1)

  All-impl : (Q : A → Type 0) (xs : List A) → ((a : A) → P a → Q a) → All P xs → All Q xs
  All-impl Q [] f h = tt
  All-impl Q (x ∷ xs) f h = (f x h.0, All-impl Q xs f h.1)

module _ {ℓ κ} {K : Type ℓ} {A : Type κ} (c : Compares K) (key_of : A → K) where
  pub insert-IsAscending :
      (k : K) (i : ℕ) (x : A) (xs : List A)
      → key_of x ≡ k
      → IsAscending c key_of xs
      → All (λ a. look_key c key_of k a ≡ Ordering.gt) (take i xs)
      → All (λ a. look_key c key_of k a ≡ Ordering.lt) (drop i xs)
      → IsAscending c key_of (insert_at i x xs)
  insert-IsAscending k zero x xs e s g l = (All-impl _ _ xs (λ a h. cc) l, s)
  insert-IsAscending k (suc i) x [] e s g l = (tt, tt)
  insert-IsAscending k (suc i) x (y ∷ ys) e s g l = (
    All-insert _ i x ys (cc (c.cmp_flip k (key_of y) g.0)) s.0,
    insert-IsAscending k i x ys e s.1 g.1 l,
  )

  pub remove-IsAscending :
      (i : ℕ) (xs : List A) → IsAscending c key_of xs → IsAscending c key_of (remove_at i xs)
  remove-IsAscending i [] s = tt
  remove-IsAscending zero (x ∷ xs) s = s.1
  remove-IsAscending (suc i) (x ∷ xs) s = (All-remove _ i xs s.0, remove-IsAscending i xs s.1)

  pub set-IsAscending :
      (i : ℕ) (xs : List A) (a v : A)
      → get_elem? xs i ≡ some a
      → key_of v ≡ key_of a
      → IsAscending c key_of xs
      → IsAscending c key_of (set xs i v)
  set-IsAscending i [] a v e q s = tt
  set-IsAscending zero (x ∷ xs) a v e q s =
      let same : x ≡ a = cc in (All-impl _ _ xs (λ y h. cc) s.0, s.1)
  set-IsAscending (suc i) (x ∷ xs) a v e q s =
      (All-set _ xs i v (cc (All-get _ xs i a s.0 e)) s.0, set-IsAscending i xs a v e q s.1)

  -- The map that a sorted array stands for, after each change, at every key.
  module _ (j : K) where
    pub find_key-insert :
        (k : K) (i : ℕ) (x : A) (xs : List A)
        → key_of x ≡ k
        → All (λ a. look_key c key_of k a ≡ Ordering.gt) (take i xs)
        → find_key c key_of j (insert_at i x xs)
          ≡ if_eq (c.cmp j k) (some x) (find_key c key_of j xs)
    unfolding if_eq
    find_key-insert k zero x xs e g = ground arith
    find_key-insert k (suc i) x [] e g = ground arith
    find_key-insert k (suc i) x (y ∷ ys) e g =
        ground (arith, find_key-insert k i x ys, c.cmp_eq j k, c.cmp_eq j (key_of y), c.cmp_refl k)

    find_key_above :
        (x : K) (xs : List A)
        → All (λ y. c.cmp x (key_of y) ≡ Ordering.lt) xs
        → c.cmp j x ≡ Ordering.eq
        → find_key c key_of j xs ≡ none
    find_key_above x [] h e = refl
    find_key_above x (y ∷ ys) h e = ground (arith, find_key_above x ys h.1, c.cmp_eq j x, h.0)

    pub find_key-remove :
        (i : ℕ) (xs : List A) (a : A)
        → get_elem? xs i ≡ some a
        → IsAscending c key_of xs
        → find_key c key_of j (remove_at i xs)
          ≡ if_eq (c.cmp j (key_of a)) (none) (find_key c key_of j xs)
    unfolding if_eq
    find_key-remove i [] a e s = ground arith
    find_key-remove zero (x ∷ xs) a e s = ground (arith, find_key_above (key_of x) xs)
    find_key-remove (suc i) (x ∷ xs) a e s = ground (
      arith,
      find_key-remove i xs a e s.1,
      All-get _ xs i a s.0 e,
      c.cmp_eq j (key_of a),
      c.cmp_eq j (key_of x),
      c.cmp_refl j,
    )

    pub find_key-set :
        (i : ℕ) (xs : List A) (a v : A)
        → get_elem? xs i ≡ some a
        → key_of v ≡ key_of a
        → IsAscending c key_of xs
        → find_key c key_of j (set xs i v)
          ≡ if_eq (c.cmp j (key_of a)) (some v) (find_key c key_of j xs)
    unfolding if_eq
    find_key-set i [] a v e q s = ground arith
    find_key-set zero (x ∷ xs) a v e q s = ground arith
    find_key-set (suc i) (x ∷ xs) a v e q s = ground (
      arith,
      find_key-set i xs a v e q s.1,
      All-get _ xs i a s.0 e,
      c.cmp_eq j (key_of a),
      c.cmp_eq j (key_of x),
      c.cmp_refl j,
    )

  pub find_key_there :
      (k : K) (i : ℕ) (xs : List A) (a : A)
      → get_elem? xs i ≡ some a
      → key_of a ≡ k
      → IsAscending c key_of xs
      → find_key c key_of k xs ≡ some a
  find_key_there k i [] a e q s = ground arith
  find_key_there k zero (x ∷ xs) a e q s = ground (arith, c.cmp_refl k)
  find_key_there k (suc i) (x ∷ xs) a e q s =
      ground
        (arith, find_key_there k i xs a e q s.1, All-get _ xs i a s.0 e, c.cmp_flop (key_of x) k)

  pub find_key_absent :
      (k : K) (i : ℕ) (xs : List A)
      → All (λ a. look_key c key_of k a ≡ Ordering.gt) (take i xs)
      → All (λ a. look_key c key_of k a ≡ Ordering.lt) (drop i xs)
      → find_key c key_of k xs ≡ none
  find_key_absent k zero [] g l = refl
  find_key_absent k zero (x ∷ xs) g l = ground (arith, find_key_absent k zero xs tt l.1)
  find_key_absent k (suc i) [] g l = refl
  find_key_absent k (suc i) (x ∷ xs) g l = ground (arith, find_key_absent k i xs g.1 l)
