-- ===== src/Pool/Spare.antt =====
-- server/tuple.c: the slots that hold no entry. Those behind the entries in memory are in two
-- runs: first those that an expiry has freed, which still have their flag, then those that no tuple
-- was ever written to.
use x_grey.Prelude.{
  ℕ, zero, suc, ◌+◌, ◌≤◌, ◌≡◌, refl, ap, ◌∙◌, ◌≢◌, inl, inr, true, false, List, [], ◌∷◌, arith, All,
  length, drop, Bool-cases,
}
use x_grey.Tuple.{Tuple}
use x_grey.Pool.{Config, Pool, mark}
use x_grey.Pool.Search.{Distinct}
use x_grey.Pool.Expire.{stays, keep, keep-All}
use x_grey.Pool.Counting.{count_flagged}

-- The slots that hold no entry.
abbrev pub spare : Pool → List ℕ
spare s = drop s.poolnum s.tuplespace

-- Of those, the ones that an expiry has freed.
abbrev pub freed : Pool → ℕ
freed s = count_flagged s.pool (spare s)

-- Behind the freed slots no slot has the flag.
abbrev pub IsTidy : Pool → Type 0
IsTidy s = All (λ x. (s.pool x).f.remove ≡ false) (drop (freed s) (spare s))

pub Distinct-drop : (n : ℕ) (xs : List ℕ) → Distinct xs → Distinct (drop n xs)
Distinct-drop zero xs h = h
Distinct-drop (suc n) [] h = tt
Distinct-drop (suc n) (x ∷ xs) h = Distinct-drop n xs h.1

pub All-swap :
    (xs ys : List ℕ) → All (λ x. All (λ y. x ≢ y) ys) xs → All (λ y. All (λ x. x ≢ y) xs) ys
All-swap xs [] h = tt
All-swap xs (y ∷ ys) h = (heads xs h, All-swap xs ys (tails xs h))
  where
    heads : (xs : List ℕ) → All (λ x. All (λ z. x ≢ z) (y ∷ ys)) xs → All (λ x. x ≢ y) xs
    heads [] h = tt
    heads (x ∷ xs) h = (h.0.0, heads xs h.1)

    tails :
        (xs : List ℕ) → All (λ x. All (λ z. x ≢ z) (y ∷ ys)) xs → All (λ x. All (λ z. x ≢ z) ys) xs
    tails [] h = tt
    tails (x ∷ xs) h = (h.0.1, tails xs h.1)

mark_unflagged :
    (c : Config) (now : ℕ) (t : Tuple) → (mark c now t).f.remove ≡ false → mark c now t ≡ t
unfolding mark
mark_unflagged c now t h = ground arith

-- A pool `q` that agrees with `p` on some slots.
module _ (p q : ℕ → Tuple) where
  pub count_flagged-congr :
      (xs : List ℕ) → All (λ x. q x ≡ p x) xs → count_flagged q xs ≡ count_flagged p xs
  unfolding count_flagged
  count_flagged-congr [] h = refl
  count_flagged-congr (x ∷ xs) h = rw (h.0, count_flagged-congr xs h.1) refl

  pub unflagged-congr :
      (xs : List ℕ)
      → All (λ x. q x ≡ p x) xs
      → All (λ x. (p x).f.remove ≡ false) xs
      → All (λ x. (q x).f.remove ≡ false) xs
  unflagged-congr [] e h = tt
  unflagged-congr (x ∷ xs) e h =
      (ap (λ (t : Tuple). t.f.remove) e.0 ∙ h.0, unflagged-congr xs e.1 h.1)

  pub outside :
      (xs ys : List ℕ)
      → ((y : ℕ) → All (λ x. x ≢ y) xs → q y ≡ p y)
      → All (λ y. All (λ x. x ≢ y) xs) ys
      → All (λ y. q y ≡ p y) ys
  outside xs [] f h = tt
  outside xs (y ∷ ys) f h = (f y h.0, outside xs ys f h.1)

  module _ (c : Config) (now : ℕ) where
    -- Of the entries that were marked, those without the flag are those that stay.
    pub count_gone :
        (xs : List ℕ)
        → All (λ x. q x ≡ mark c now (p x)) xs
        → count_flagged q xs + length (keep c now p xs) ≡ length xs
    unfolding count_flagged keep stays
    count_gone [] h = omega arith
    count_gone (x ∷ xs) h =
        let ih = count_gone xs h.1 in
        elim (Bool-cases (mark c now (p x)).f.remove) [
          | inl e ↦ rw (h.0, e) (omega (arith, ih))
          | inr e ↦ rw (h.0, e) (omega (arith, ih))
        ]

    pub kept_unflagged :
        (xs : List ℕ)
        → All (λ x. q x ≡ mark c now (p x)) xs
        → All (λ x. (q x).f.remove ≡ false) (keep c now p xs)
    unfolding keep stays
    kept_unflagged [] h = tt
    kept_unflagged (x ∷ xs) h = elim (Bool-cases (mark c now (p x)).f.remove) [
      | inl e ↦ rw e (kept_unflagged xs h.1)
      | inr e ↦ rw e (ap (λ (t : Tuple). t.f.remove) h.0 ∙ e, kept_unflagged xs h.1)
    ]

    -- An entry that stays is what it was.
    pub kept_same :
        (xs : List ℕ)
        → All (λ x. q x ≡ mark c now (p x)) xs
        → All (λ x. q x ≡ p x) (keep c now p xs)
    unfolding keep stays
    kept_same [] h = tt
    kept_same (x ∷ xs) h = elim (Bool-cases (mark c now (p x)).f.remove) [
      | inl e ↦ rw e (kept_same xs h.1)
      | inr e ↦ rw e (h.0 ∙ mark_unflagged c now (p x) e, kept_same xs h.1)
    ]

pub keep-Distinct :
    (c : Config) (now : ℕ) (p : ℕ → Tuple) (xs : List ℕ) → Distinct xs → Distinct (keep c now p xs)
unfolding keep
keep-Distinct c now p [] h = tt
keep-Distinct c now p (x ∷ xs) h = elim (Bool-cases (stays c now (p x))) [
  | inl e ↦ rw e (keep-All c now _ p xs h.0, keep-Distinct c now p xs h.1)
  | inr e ↦ rw e (keep-Distinct c now p xs h.1)
]

pub count_all :
    (p : ℕ → Tuple) (xs : List ℕ)
    → All (λ x. (p x).f.remove ≡ true) xs
    → count_flagged p xs ≡ length xs
unfolding count_flagged
count_all p [] h = refl
count_all p (x ∷ xs) h = rw h.0 (omega (arith, count_all p xs h.1))

pub count_none :
    (p : ℕ → Tuple) (xs : List ℕ) → All (λ x. (p x).f.remove ≡ false) xs → count_flagged p xs ≡ 0
unfolding count_flagged
count_none p [] h = refl
count_none p (x ∷ xs) h = rw h.0 (count_none p xs h.1)

pub count_le : (p : ℕ → Tuple) (xs : List ℕ) → count_flagged p xs ≤ length xs
unfolding count_flagged
count_le p [] = omega arith
count_le p (x ∷ xs) = ground (arith, count_le p xs)
