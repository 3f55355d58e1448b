-- ===== src/Pool/Counting.antt =====
-- The flag `F_REMOVE` in server/tuple.c: how many slots have it, counted over the slots and over the
-- array that names each of them once.
use x_grey.Prelude.{
  ℕ, zero, suc, ◌+◌, ◌≤◌, ◌<◌, ◌≡◌, refl, sym, ap, ◌∙◌, ◌≢◌, inl, inr, List, [], ◌∷◌, ◌++◌, ◌⊎◌,
  arith, All, length, length-append, ◌==◌, ==_iff, if◌then◌else◌, Bool-cases,
}
use x_grey.Tuple.{Tuple}
use x_grey.Pool.{count_from}
use x_grey.Pool.Free.{flagged}
use x_grey.Pool.Search.{Distinct}
use x_grey.Pool.Gap.{All-move, Distinct-front}

-- The number of the slots of a list that have the flag.
unfoldable pub count_flagged : (ℕ → Tuple) → List ℕ → ℕ
count_flagged pool [] = 0
count_flagged pool (x ∷ xs) =
    let rest = count_flagged pool xs in if (pool x).f.remove then rest + 1 else rest

pub count_flagged-append :
    (pool : ℕ → Tuple) (xs ys : List ℕ)
    → count_flagged pool (xs ++ ys) ≡ count_flagged pool xs + count_flagged pool ys
unfolding count_flagged
count_flagged-append pool [] ys = omega arith
count_flagged-append pool (x ∷ xs) ys = ground (arith, count_flagged-append pool xs ys)

count_flagged-middle :
    (pool : ℕ → Tuple) (xs ys : List ℕ) (a : ℕ)
    → count_flagged pool (xs ++ (a ∷ ys)) ≡ count_flagged pool (a ∷ (xs ++ ys))
unfolding count_flagged
count_flagged-middle pool xs ys a =
    ground (arith, count_flagged-append pool xs (a ∷ ys), count_flagged-append pool xs ys)

count_flagged-cons :
    (pool : ℕ → Tuple) (x : ℕ) (xs : List ℕ)
    → count_flagged pool (x ∷ xs) ≡ count_flagged pool (x ∷ []) + count_flagged pool xs
unfolding count_flagged
count_flagged-cons pool x xs = ground arith

flagged_last :
    (pool : ℕ → Tuple) (n i : ℕ)
    → flagged pool i (suc n) ≡ count_flagged pool ((i + n) ∷ []) + flagged pool i n
unfolding flagged count_flagged
flagged_last pool zero i = ground arith
flagged_last pool (suc n) i =
    let e : i + 1 + n ≡ i + suc n = omega arith in
    let ih = rw e at (flagged_last pool n (i + 1)) in ground (arith, ih)

-- A number stands in the list, or not.
find_number :
    (a : ℕ) (xs : List ℕ)
    → ((ys : List ℕ) × (zs : List ℕ) × (xs ≡ ys ++ (a ∷ zs))) ⊎ All (λ x. a ≢ x) xs
find_number a [] = inr tt
find_number a (x ∷ xs) = elim (Bool-cases (a == x)) [
  | inl e ↦ inl ([], xs, ap (λ (y : ℕ). y ∷ xs) (sym ((==_iff a x).0 e)))
  | inr e ↦ elim (find_number a xs) [
    | inl (ys, zs, q) ↦ inl (x ∷ ys, zs, ap (λ (l : List ℕ). x ∷ l) q)
    | inr none_of ↦ inr ((λ q. ground (arith, (==_iff a x).1 q)), none_of)
  ]
]

below_next :
    (n : ℕ) (xs : List ℕ) → All (λ x. x < suc n) xs → All (λ x. n ≢ x) xs → All (λ x. x < n) xs
below_next n [] h k = tt
below_next n (x ∷ xs) h k = (lt x h.0 k.0, below_next n xs h.1 k.1)
  where
    lt : (x : ℕ) → x < suc n → n ≢ x → x < n
    lt x h k = omega arith

-- Different numbers below `n` are `n` at most; if there are `n`, each is among them.
pub count_below :
    (pool : ℕ → Tuple) (n : ℕ) (xs : List ℕ)
    → Distinct xs
    → All (λ x. x < n) xs
    → (length xs ≤ n) × (length xs ≡ n → count_flagged pool xs ≡ flagged pool 0 n)
count_below pool zero [] d h = (omega arith, λ e. unfold flagged count_flagged in refl)
count_below pool zero (x ∷ xs) d h = absurd (omega (arith, h.0))
count_below pool (suc n) xs d h = elim (find_number n xs) [
  | inr none_of ↦
      let ih = count_below pool n xs d (below_next n xs h none_of) in
      (omega (arith, ih.0), λ e. absurd (omega (arith, ih.0, e)))
  | inl (ys, zs, q) ↦
      let d' : Distinct (n ∷ (ys ++ zs)) = Distinct-front ys zs n (rw q at d) in
      let h' = All-move (λ x. x < suc n) ys zs n (rw q at h) in
      let ih = count_below pool n (ys ++ zs) d'.1 (below_next n (ys ++ zs) h'.1 d'.0) in
      let size = length-append ys zs in
      let size' = length-append ys (n ∷ zs) in
      let all = count_flagged-middle pool ys zs n in
      let parts = count_flagged-cons pool n (ys ++ zs) in
      let last = flagged_last pool n 0 in
      let none_before : 0 + n ≡ n = omega arith in
      rw q (
        omega (arith, ih.0, size, size'),
        λ e.
            all
            ∙ parts
            ∙ ap (λ (k : ℕ). count_flagged pool (n ∷ []) + k) (ih.1 (omega (arith, size, size', e)))
            ∙ sym (rw none_before at last),
      )
]

pub length-count_from : (i n : ℕ) → length (count_from i n) ≡ n
unfolding count_from
length-count_from i zero = refl
length-count_from i (suc n) = ap suc (length-count_from (i + 1) n)

-- The numbers are at least the first, and below the one behind the last.
count_from_low : (i j n : ℕ) → j < i → All (λ x. j ≢ x) (count_from i n)
unfolding count_from
count_from_low i j zero h = tt
count_from_low i j (suc n) h = (λ e. omega (arith, e), count_from_low (i + 1) j n (omega arith))

pub count_from_high : (i m n : ℕ) → i + n ≤ m → All (λ x. x < m) (count_from i n)
unfolding count_from
count_from_high i m zero h = tt
count_from_high i m (suc n) h = (omega arith, count_from_high (i + 1) m n (omega arith))

pub count_from-Distinct : (i n : ℕ) → Distinct (count_from i n)
unfolding count_from
count_from-Distinct i zero = tt
count_from-Distinct i (suc n) =
    (count_from_low (i + 1) i n (omega arith), count_from-Distinct (i + 1) n)
