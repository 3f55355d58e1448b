-- ===== src/Pool/Gap.antt =====
-- Opening a gap in `g_tuplespace` (`memmove` in `tuple_add` of server/tuple.c), as lists.
use x_grey.Prelude.{
  ℕ, zero, suc, ◌≤◌, ◌<◌, Ordering, ◌≡◌, refl, sym, ap, subst, ◌∙◌, ◌≢◌, some, List, [], ◌∷◌, ◌++◌,
  arith, All, length, length-append, length-take, length-drop, get_elem?, take, drop,
  take-append-drop,
}
use mathlib.Core.List.{append_assoc}
use x_grey.Order.{Compares}
use x_grey.Sorted.{insert_at, IsAscending}
use x_grey.Pool.{open_gap}
use x_grey.Pool.Search.{Distinct}

-- Keys that agree on a list sort it alike.
module _ {ℓ κ} {K : Type ℓ} {A : Type κ} (c : Compares K) (f g : A → K) where
  pub All-congr :
      (P : K → Type 0) (xs : List A)
      → All (λ x. f x ≡ g x) xs
      → All (λ x. P (f x)) xs
      → All (λ x. P (g x)) xs
  All-congr P [] e h = tt
  All-congr P (x ∷ xs) e h = (subst P e.0 h.0, All-congr P xs e.1 h.1)

  pub IsAscending-congr :
      (xs : List A) → All (λ x. f x ≡ g x) xs → IsAscending c f xs → IsAscending c g xs
  IsAscending-congr [] e h = tt
  IsAscending-congr (x ∷ xs) e h = (
    subst (λ (a : K). All (λ y. c.cmp a (g y) ≡ Ordering.lt) xs) e.0
        (All-congr (λ b. c.cmp (f x) b ≡ Ordering.lt) xs e.1 h.0),
    IsAscending-congr xs e.1 h.1,
  )

module _ {ℓ} {A : Type ℓ} where
  pub All-append : (P : A → Type 0) (xs ys : List A) → All P xs → All P ys → All P (xs ++ ys)
  All-append P [] ys h k = k
  All-append P (x ∷ xs) ys h k = (h.0, All-append P xs ys h.1 k)

  pub All-left : (P : A → Type 0) (xs ys : List A) → All P (xs ++ ys) → All P xs
  All-left P [] ys h = tt
  All-left P (x ∷ xs) ys h = (h.0, All-left P xs ys h.1)

  pub All-right : (P : A → Type 0) (xs ys : List A) → All P (xs ++ ys) → All P ys
  All-right P [] ys h = h
  All-right P (x ∷ xs) ys h = All-right P xs ys h.1

  -- An element moved to the front.
  pub All-move :
      (P : A → Type 0) (xs ys : List A) (a : A) → All P (xs ++ (a ∷ ys)) → All P (a ∷ (xs ++ ys))
  All-move P [] ys a h = h
  All-move P (x ∷ xs) ys a h = let r = All-move P xs ys a h.1 in (r.0, (h.0, r.1))

  insert_at-append : (i : ℕ) (a : A) (xs : List A) → insert_at i a xs ≡ take i xs ++ (a ∷ drop i xs)
  insert_at-append zero a xs = refl
  insert_at-append (suc i) a [] = refl
  insert_at-append (suc i) a (x ∷ xs) = ap (λ (r : List A). x ∷ r) (insert_at-append i a xs)

  pub drop_next :
      (i : ℕ) (xs : List A) (a : A) → get_elem? xs i ≡ some a → drop i xs ≡ a ∷ drop (suc i) xs
  drop_next i [] a e = ground arith
  drop_next zero (x ∷ xs) a e = ground arith
  drop_next (suc i) (x ∷ xs) a e = drop_next i xs a e

  pub take_append : (xs ys : List A) → take (length xs) (xs ++ ys) ≡ xs
  take_append [] ys = refl
  take_append (x ∷ xs) ys = ap (λ (r : List A). x ∷ r) (take_append xs ys)

  pub drop_append : (xs ys : List A) → drop (length xs) (xs ++ ys) ≡ ys
  drop_append [] ys = refl
  drop_append (x ∷ xs) ys = drop_append xs ys

pub Distinct-front :
    (xs ys : List ℕ) (a : ℕ) → Distinct (xs ++ (a ∷ ys)) → Distinct (a ∷ (xs ++ ys))
Distinct-front [] ys a h = h
Distinct-front (x ∷ xs) ys a h =
    let r = Distinct-front xs ys a h.1 in
    let m = All-move (λ y. x ≢ y) xs ys a h.0 in (((λ e. m.0 (sym e)), r.0), (m.1, r.1))

Distinct-move :
    (xs ys zs : List ℕ) (a : ℕ)
    → Distinct (xs ++ (ys ++ (a ∷ zs)))
    → Distinct (xs ++ (a ∷ (ys ++ zs)))
Distinct-move [] ys zs a h = Distinct-front ys zs a h
Distinct-move (x ∷ xs) ys zs a h = (
  All-append (λ y. x ≢ y) xs _ (All-left (λ y. x ≢ y) xs _ h.0)
      (All-move (λ y. x ≢ y) ys zs a (All-right (λ y. x ≢ y) xs _ h.0)),
  Distinct-move xs ys zs a h.1,
)

take-take : (i n : ℕ) (xs : List ℕ) → i ≤ n → take i (take n xs) ≡ take i xs
take-take zero n xs h = refl
take-take (suc i) zero xs h = absurd (omega arith)
take-take (suc i) (suc n) [] h = refl
take-take (suc i) (suc n) (x ∷ xs) h = ap (λ (r : List ℕ). x ∷ r) (take-take i n xs (omega arith))

length-get : (xs : List ℕ) (i a : ℕ) → get_elem? xs i ≡ some a → i < length xs
length-get [] i a e = ground arith
length-get (x ∷ xs) zero a e = omega arith
length-get (x ∷ xs) (suc i) a e = omega (arith, length-get xs i a e)

-- The gap at `index` in a space whose next free cell holds `rec`.
module _ (space : List ℕ) (n index rec : ℕ) (e : get_elem? space n ≡ some rec) where
  abbrev pub low : List ℕ
  low = take n space

  space_parts : space ≡ take index low ++ (drop index low ++ (rec ∷ drop (suc n) space))
  space_parts = sym (
      sym (append_assoc (take index low) (drop index low) _)
      ∙ rw (take-append-drop index low, sym (drop_next n space rec e)) (take-append-drop n space))

  module _ (fits : index ≤ n) where
    gap_parts :
        open_gap space n index rec
        ≡ take index low ++ (rec ∷ (drop index low ++ drop (suc n) space))
    unfolding open_gap
    gap_parts = rw (take-take index n space fits) refl

    pub gap-Distinct : Distinct space → Distinct (open_gap space n index rec)
    gap-Distinct d = subst Distinct (sym gap_parts) (
        Distinct-move (take index low) (drop index low) (drop (suc n) space) rec
          (subst Distinct space_parts d))

    pub gap-All : (P : ℕ → Type 0) → All P space → All P (open_gap space n index rec)
    gap-All P h =
        let h' = subst (All P) space_parts h in
        subst (All P) (sym gap_parts) (
          All-append P (take index low) _ (All-left P (take index low) _ h') (
            All-move P (drop index low) (drop (suc n) space) rec
              (All-right P (take index low) _ h')))

    low-length : length low ≡ n
    low-length = omega (arith, length-take n space, length-get space n rec e)

    front_length : length (take index low ++ (rec ∷ drop index low)) ≡ suc n
    front_length = omega (
      arith,
      length-append (take index low) (rec ∷ drop index low),
      length-take index low,
      length-drop index low,
      low-length,
    )

    gap_front :
        open_gap space n index rec
        ≡ (take index low ++ (rec ∷ drop index low)) ++ drop (suc n) space
    gap_front =
        gap_parts ∙ sym (append_assoc (take index low) (rec ∷ drop index low) (drop (suc n) space))

    pub gap_low : take (suc n) (open_gap space n index rec) ≡ insert_at index rec low
    gap_low =
        rw (gap_front, insert_at-append index rec low)
          (subst
            (λ (m : ℕ).
              take m ((take index low ++ (rec ∷ drop index low)) ++ drop (suc n) space)
              ≡ take index low ++ (rec ∷ drop index low))
            front_length
            (take_append (take index low ++ (rec ∷ drop index low)) (drop (suc n) space)))

    -- Behind the gap nothing has moved.
    pub gap_high : drop (suc n) (open_gap space n index rec) ≡ drop (suc n) space
    gap_high = rw gap_front (
        subst
          (λ (m : ℕ).
            drop m ((take index low ++ (rec ∷ drop index low)) ++ drop (suc n) space)
            ≡ drop (suc n) space)
          front_length
          (drop_append (take index low ++ (rec ∷ drop index low)) (drop (suc n) space)))

    pub gap_length : length (open_gap space n index rec) ≡ length space
    gap_length = omega (
      arith,
      ap length gap_parts,
      length-append (take index low) (rec ∷ (drop index low ++ drop (suc n) space)),
      length-append (drop index low) (drop (suc n) space),
      length-take index low,
      length-drop index low,
      length-drop (suc n) space,
      length-get space n rec e,
      low-length,
    )

    -- The free slot is none of those in use.
    pub fresh : Distinct space → All (λ y. rec ≢ y) low
    fresh d =
        All-left (λ y. rec ≢ y) low (drop (suc n) space)
          (Distinct-front low (drop (suc n) space) rec (
            subst Distinct (sym (rw (sym (drop_next n space rec e)) (take-append-drop n space)))
              d)).0
