-- ===== src/Text/Number/Round.antt =====
-- The decimal numbers: what is printed is read again.
use x_grey.Prelude.{
  ℕ, zero, suc, ◌+◌, ◌*◌, ◌/◌, ◌%◌, ◌^◌, ◌<◌, ◌≤◌, ◌≡◌, refl, ◌∙◌, true, false, List, [], ◌∷◌, ◌==◌,
  length, ltb, leb, arith, Bool-cases, ap, sym, Bool, ltb→lt, inl, inr,
}
use x_grey.Text.{skip_space, is_space}
use x_grey.Text.Number.{is_digit, digits, signed, after_space, strtoul, decimal_loop, decimal}

-- A text that no digit starts.
abbrev pub Ends : List ℕ → Type 0
Ends [] = Unit
Ends (b ∷ bs) = is_digit b ≡ false

digits-Ends : (n : ℕ) (rest : List ℕ) → Ends rest → digits n rest ≡ (n, rest)
unfolding digits
digits-Ends n [] h = refl
digits-Ends n (b ∷ bs) h = rw h refl

digits-digit :
    (n d : ℕ) (rest : List ℕ) → d < 10 → digits n ((b'0' + d) ∷ rest) ≡ digits (10 * n + d) rest
unfolding digits
digits-digit n d rest h = ground arith

digits-decimal_loop :
    (fuel n : ℕ) (rest : List ℕ) → n < fuel → digits 0 (decimal_loop fuel n rest) ≡ digits n rest
unfolding decimal_loop
digits-decimal_loop zero n rest h = absurd (omega arith)
digits-decimal_loop (suc fuel) n rest h = elim (Bool-cases (ltb n 10)) [
  | inl e ↦ rw e (digits-digit 0 n rest (ltb→lt n 10 e) ∙ ap (λ m. digits m rest) (plain n))
  | inr e ↦
      let tail : ℕ = n % 10 in
      let whole : 10 * (n / 10) + tail ≡ n = omega arith in
      let less : n / 10 < fuel = smaller n fuel h e in
      rw e (
        digits-decimal_loop fuel (n / 10) ((b'0' + tail) ∷ rest) less
        ∙ digits-digit (n / 10) tail rest (omega arith)
        ∙ ap (λ m. digits m rest) whole)
]
  where
    plain : (n : ℕ) → 10 * 0 + n ≡ n
    plain n = omega arith

    smaller : (n fuel : ℕ) → n < suc fuel → ltb n 10 ≡ false → n / 10 < fuel
    smaller n fuel h e = ground arith

-- What is printed starts with a digit.
record Starts (text : List ℕ) : Type 0 where
  digit : ℕ
  rest : List ℕ
  is_text : text ≡ digit ∷ rest
  low : b'0' ≤ digit
  high : digit ≤ b'9'

decimal_loop-Starts : (fuel n : ℕ) (rest : List ℕ) → n < fuel → Starts (decimal_loop fuel n rest)
unfolding decimal_loop
decimal_loop-Starts zero n rest h = absurd (omega arith)
decimal_loop-Starts (suc fuel) n rest h = elim (Bool-cases (ltb n 10)) [
  | inl e ↦ rw e (record {
    digit = b'0' + n;
    rest = rest;
    is_text = refl;
    low = omega arith;
    high = omega (arith, ltb→lt n 10 e);
  })
  | inr e ↦ rw e (decimal_loop-Starts fuel (n / 10) ((b'0' + n % 10) ∷ rest) (smaller n fuel h e))
]
  where
    smaller : (n fuel : ℕ) → n < suc fuel → ltb n 10 ≡ false → n / 10 < fuel
    smaller n fuel h e = ground arith

dark : (b : ℕ) → b'0' ≤ b → b ≤ b'9' → is_space b ≡ false
unfolding is_space
dark b low high = ground arith

-- A text that starts with a digit.
strtoul-digits :
    (b : ℕ) (bs : List ℕ) (n : ℕ) (rest : List ℕ)
    → b'0' ≤ b
    → b ≤ b'9'
    → digits 0 (b ∷ bs) ≡ (n, rest)
    → n < 2 ^ 64
    → strtoul (b ∷ bs) ≡ (n, rest)
unfolding strtoul skip_space after_space signed
strtoul-digits b bs n rest low high e h =
    rw (dark b low high, minus b low high, plus b low high, digit b low high, e, small n h) refl
  where
    minus : (b : ℕ) → b'0' ≤ b → b ≤ b'9' → (b == b'-') ≡ false
    minus b low high = ground arith

    plus : (b : ℕ) → b'0' ≤ b → b ≤ b'9' → (b == b'+') ≡ false
    plus b low high = ground arith

    digit : (b : ℕ) → b'0' ≤ b → b ≤ b'9' → is_digit b ≡ true
    digit b low high = ground arith

    small : (n : ℕ) → n < 2 ^ 64 → leb (2 ^ 64) n ≡ false
    small n h = ground arith

-- A number below 2^64 that `%d` prints before a text without a digit at its start is what `strtoul`
-- reads, and the text is what it leaves.
pub strtoul-decimal :
    (n : ℕ) (rest : List ℕ) → n < 2 ^ 64 → Ends rest → strtoul (decimal n rest) ≡ (n, rest)
unfolding decimal
strtoul-decimal n rest h ends =
    let s = decimal_loop-Starts (suc n) n rest (omega arith) in
    rw s.is_text (
      strtoul-digits s.digit s.rest n rest s.low s.high
        (ap (digits 0) (sym s.is_text)
          ∙ digits-decimal_loop (suc n) n rest (omega arith)
          ∙ digits-Ends n rest ends)
        h)

-- Whether a text starts with a digit.
abbrev pub starts_digit : List ℕ → Bool
starts_digit [] = false
starts_digit (b ∷ bs) = is_digit b

pub starts_digit-decimal : (n : ℕ) (rest : List ℕ) → starts_digit (decimal n rest) ≡ true
unfolding decimal
starts_digit-decimal n rest =
    let s = decimal_loop-Starts (suc n) n rest (omega arith) in
    ap starts_digit s.is_text ∙ digit_there s.digit s.low s.high
  where
    digit_there : (b : ℕ) → b'0' ≤ b → b ≤ b'9' → is_digit b ≡ true
    digit_there b low high = ground arith

-- What is printed is never empty.
pub decimal-cons : (n : ℕ) (rest : List ℕ) → (b : ℕ) × (bs : List ℕ) × (decimal n rest ≡ b ∷ bs)
unfolding decimal
decimal-cons n rest =
    let s = decimal_loop-Starts (suc n) n rest (omega arith) in (s.digit, s.rest, s.is_text)

pub digits-decimal : (n : ℕ) (rest : List ℕ) → Ends rest → digits 0 (decimal n rest) ≡ (n, rest)
unfolding decimal
digits-decimal n rest ends =
    digits-decimal_loop (suc n) n rest (omega arith) ∙ digits-Ends n rest ends

-- The digits come before the rest.
length-decimal_loop : (fuel n : ℕ) (rest : List ℕ) → length rest ≤ length (decimal_loop fuel n rest)
unfolding decimal_loop
length-decimal_loop zero n rest = omega arith
length-decimal_loop (suc fuel) n rest = elim (Bool-cases (ltb n 10)) [
  | inl e ↦ rw e (omega arith)
  | inr e ↦ rw e (omega (arith, length-decimal_loop fuel (n / 10) ((b'0' + n % 10) ∷ rest)))
]

pub length-decimal : (n : ℕ) (rest : List ℕ) → length rest ≤ length (decimal n rest)
unfolding decimal
length-decimal n rest = length-decimal_loop (suc n) n rest
