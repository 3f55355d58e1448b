-- ===== src/Text/Number/Printed.antt =====
-- What `%d` prints: its bytes, and how many they are at most.
use x_grey.Prelude.{
  ℕ, zero, suc, ◌≡◌, refl, true, [], ◌+◌, ◌/◌, ◌%◌, ◌≤◌, ◌<◌, ◌∷◌, List, All, length, arith, ltb,
  Bool-cases, inl, inr, ltb→lt,
}
use x_grey.Text.{is_space}
use x_grey.Text.Trimmed.{starts, ends}
use x_grey.Text.Number.{decimal, decimal_loop}
use x_grey.Text.Number.Round.{starts_digit, starts_digit-decimal}

module _ (P : ℕ → Type 0) (digits_too : (b : ℕ) → b'0' ≤ b → b ≤ b'9' → P b) where
  decimal_loop-All : (fuel n : ℕ) (rest : List ℕ) → All P rest → All P (decimal_loop fuel n rest)
  unfolding decimal_loop
  decimal_loop-All zero n rest h = h
  decimal_loop-All (suc fuel) n rest h = elim (Bool-cases (ltb n 10)) [
    | inl e ↦ rw e (digits_too (b'0' + n) (omega arith) (omega (arith, ltb→lt n 10 e)), h)
    | inr e ↦ rw e (
        decimal_loop-All fuel (n / 10) ((b'0' + n % 10) ∷ rest)
          (digits_too (b'0' + n % 10) (omega arith) (omega arith), h))
  ]

  pub decimal-All : (n : ℕ) (rest : List ℕ) → All P rest → All P (decimal n rest)
  unfolding decimal
  decimal-All n rest h = decimal_loop-All (suc n) n rest h

one_digit :
    (fuel n : ℕ) (rest : List ℕ) → n < 10 → length (decimal_loop fuel n rest) ≤ 1 + length rest
unfolding decimal_loop
one_digit zero n rest h = omega arith
one_digit (suc fuel) n rest h = ground arith

two_digits :
    (fuel n : ℕ) (rest : List ℕ) → n < 100 → length (decimal_loop fuel n rest) ≤ 2 + length rest
unfolding decimal_loop
two_digits zero n rest h = omega arith
two_digits (suc fuel) n rest h = ground (arith, one_digit fuel (n / 10) ((b'0' + n % 10) ∷ rest))

three_digits :
    (fuel n : ℕ) (rest : List ℕ) → n < 1000 → length (decimal_loop fuel n rest) ≤ 3 + length rest
unfolding decimal_loop
three_digits zero n rest h = omega arith
three_digits (suc fuel) n rest h = ground (arith, two_digits fuel (n / 10) ((b'0' + n % 10) ∷ rest))

pub decimal_two : (n : ℕ) (rest : List ℕ) → n < 100 → length (decimal n rest) ≤ 2 + length rest
unfolding decimal
decimal_two n rest h = two_digits (suc n) n rest h

pub decimal_three : (n : ℕ) (rest : List ℕ) → n < 1000 → length (decimal n rest) ≤ 3 + length rest
unfolding decimal
decimal_three n rest h = three_digits (suc n) n rest h

decimal_loop-ends :
    (fuel n b : ℕ) (rest : List ℕ) → ends (decimal_loop fuel n (b ∷ rest)) ≡ ends (b ∷ rest)
unfolding decimal_loop
decimal_loop-ends zero n b rest = refl
decimal_loop-ends (suc fuel) n b rest = elim (Bool-cases (ltb n 10)) [
  | inl e ↦ rw e refl
  | inr e ↦ rw e (decimal_loop-ends fuel (n / 10) (b'0' + n % 10) (b ∷ rest))
]

-- What stands behind a number ends the text.
pub decimal-ends : (n b : ℕ) (rest : List ℕ) → ends (decimal n (b ∷ rest)) ≡ ends (b ∷ rest)
unfolding decimal
decimal-ends n b rest = decimal_loop-ends (suc n) n b rest

digit_starts : (t : List ℕ) → starts_digit t ≡ true → starts t ≡ true
unfolding is_space
digit_starts [] h = h
digit_starts (b ∷ bs) h = ground arith

pub decimal-starts : (n : ℕ) (rest : List ℕ) → starts (decimal n rest) ≡ true
decimal-starts n rest = digit_starts (decimal n rest) (starts_digit-decimal n rest)
