-- ===== src/Bisearch/Search.antt =====
-- common/bisearch.c: on a sorted array `bisearch` ends, and its item is the element looked for, or
-- the place where it would stand.
use x_grey.Prelude.{
  ℕ, zero, suc, ◌+◌, ◌-◌, ◌/◌, ◌≤◌, ◌<◌, Ordering, ◌≡◌, none, some, List, arith, length, get_elem?,
  get_elem?_lt, Run, done, Ordering-cases, inl, inr,
}
use native.Mathlib.Decide.{dec_lt}
use x_grey.Bisearch.{Item, bisearch_loop, bisearch}

module _ {ℓ κ} {K : Type ℓ} {A : Type κ} (look : K → A → Ordering) (key : K) (base : List A) where
  -- The array is sorted as far as the key can tell.
  pub record IsSortedFor (n : ℕ) : Type κ where
    pub up :
        (i j : ℕ) (a b : A)
        → i < j
        → j < n
        → get_elem? base i ≡ some a
        → get_elem? base j ≡ some b
        → look key b ≡ Ordering.gt
        → look key a ≡ Ordering.gt
    pub down :
        (i j : ℕ) (a b : A)
        → i < j
        → j < n
        → get_elem? base i ≡ some a
        → get_elem? base j ≡ some b
        → look key a ≡ Ordering.lt
        → look key b ≡ Ordering.lt

  -- The key is greater than every element before `first`.
  abbrev pub Before : ℕ → Type κ
  Before first = (j : ℕ) (a : A) → j < first → get_elem? base j ≡ some a → look key a ≡ Ordering.gt

  -- The key is less than every element from `last` up to `n`.
  abbrev pub Behind : ℕ → ℕ → Type κ
  Behind n last =
      (j : ℕ) (a : A) → last ≤ j → j < n → get_elem? base j ≡ some a → look key a ≡ Ordering.lt

  pub data Located (n : ℕ) : Run Item → Type (ℓ ⊔ κ) where
    hit :
        (i : ℕ) (a : A)
        → i < n
        → get_elem? base i ≡ some a
        → look key a ≡ Ordering.eq
        → Located n (done (record { datum = some i; idx = i }))
    miss :
        (i : ℕ)
        → i ≤ n
        → Before i
        → Behind n i
        → Located n (done (record { datum = none; idx = i }))

  -- A pivot that is greater settles the array from it on, and one that is less up to it.
  module _ (n middle : ℕ) (a : A) (s : IsSortedFor n) (e : get_elem? base middle ≡ some a) where
    pivot-Behind : look key a ≡ Ordering.lt → Behind n middle
    pivot-Behind h j b p q g = elim (dec_lt middle j) [
      | yes r ↦ s.down middle j a b r q e g h
      | no r ↦ let same : j ≡ middle = omega arith in cc (e, g, h, same)
    ]

    pivot-Before : middle < n → look key a ≡ Ordering.gt → Before (middle + 1)
    pivot-Before m h j b p g = elim (dec_lt j middle) [
      | yes r ↦ s.up j middle b a r m g e h
      | no r ↦ let same : j ≡ middle = omega arith in cc (e, g, h, same)
    ]

  bisearch_loop-Located :
      (n fuel first len : ℕ)
      → IsSortedFor n
      → n ≤ length base
      → first + len ≤ n
      → len ≤ fuel
      → Before first
      → Behind n (first + len)
      → Located n (bisearch_loop look key base fuel first len)
  unfolding bisearch_loop
  bisearch_loop-Located n zero first zero s fits h f lo hi =
      miss first (omega arith) lo (λ j a q. hi j a (omega arith))
  bisearch_loop-Located n (suc fuel) first zero s fits h f lo hi =
      miss first (omega arith) lo (λ j a q. hi j a (omega arith))
  bisearch_loop-Located n zero first (suc l) s fits h f lo hi = absurd (omega arith)
  bisearch_loop-Located n (suc fuel) first (suc l) s fits h f lo hi =
      let middle : ℕ = first + (suc l / 2) in
      let (a, e) = get_elem?_lt base middle (omega arith) in
      rw (e, bisearch_loop)
        (elim (Ordering-cases (look key a)) [
          | inl lt ↦
              rw (lt, bisearch_loop)
                (bisearch_loop-Located n fuel first (suc l / 2) s fits (omega arith) (omega arith)
                  lo (λ j b p. pivot-Behind n middle a s e lt j b (omega arith)))
          | inr (inl eq) ↦ rw (eq, bisearch_loop) (hit middle a (omega arith) e eq)
          | inr (inr gt) ↦
              rw (gt, bisearch_loop)
                (bisearch_loop-Located n fuel (middle + 1) (suc l - (suc l / 2) - 1) s fits
                  (omega arith) (omega arith) (pivot-Before n middle a s e (omega arith) gt)
                  (λ j b p. hi j b (omega arith)))
        ])

  -- On an array of `n` elements that is sorted for the key the search ends, in range, and either
  -- returns an element equal to the key, or the place before which all are less and after which all
  -- are greater.
  pub bisearch-Located :
      (n : ℕ) → n ≤ length base → IsSortedFor n → Located n (bisearch look key base n)
  unfolding bisearch
  bisearch-Located n fits s =
      bisearch_loop-Located n n 0 n s fits (omega arith) (omega arith)
        (λ j a p. absurd (omega arith)) (λ j a p q. absurd (omega arith))
