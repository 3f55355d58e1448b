-- ===== src/Text/Number.antt =====
-- The decimal numbers of the C library that the sources read and print: `strtoul` with base 10, for
-- an `unsigned long` of 64 bits, and the conversion `%d` of a number that is not negative.
pub mod Round
pub mod Printed
use x_grey.Prelude.{
  ℕ, zero, suc, ◌+◌, ◌-◌, ◌*◌, ◌/◌, ◌%◌, ◌^◌, Bool, true, false, ◌&&◌, List, [], ◌∷◌, ◌==◌, ltb,
  leb, if◌then◌else◌,
}
use x_grey.Text.{skip_space}

abbrev pub is_digit : ℕ → Bool
is_digit b = leb b'0' b && leb b b'9'

-- The number of the digits at the start of a text, after those that make `n`; and what follows.
unfoldable pub digits : ℕ → List ℕ → ℕ × List ℕ
digits n [] = (n, [])
digits n (b ∷ bs) =
    let more = digits (10 * n + (b - b'0')) bs in if is_digit b then more else (n, b ∷ bs)

-- A sign was read before `bs`, or none; `start` is the text as it was given, where the pointer stays
-- if there is no digit.
unfoldable pub signed : Bool → List ℕ → List ℕ → ℕ × List ℕ
signed minus start [] = (0, start)
signed minus start (b ∷ bs) =
    let (n, rest) = digits 0 (b ∷ bs) in
    if is_digit b
    then ((if leb (2 ^ 64) n then 2 ^ 64 - 1 else if minus then (2 ^ 64 - n) % 2 ^ 64 else n), rest)
    else (0, start)

-- The sign, if the text has one.
unfoldable pub after_space : List ℕ → List ℕ → ℕ × List ℕ
after_space start [] = (0, start)
after_space start (b ∷ bs) =
    if b == b'-'
    then signed true start bs
    else if b == b'+'
    then signed false start bs
    else signed false start (b ∷ bs)

-- The value, and the text at the pointer returned.
unfoldable pub strtoul : List ℕ → ℕ × List ℕ
strtoul text = after_space text (skip_space text)

-- The digits of `n` before `rest`; the first argument bounds their number.
unfoldable pub decimal_loop : ℕ → ℕ → List ℕ → List ℕ
decimal_loop zero n rest = rest
decimal_loop (suc fuel) n rest =
    let more = decimal_loop fuel (n / 10) ((b'0' + n % 10) ∷ rest) in
    if ltb n 10 then (b'0' + n) ∷ rest else more

unfoldable pub decimal : ℕ → List ℕ → List ℕ
decimal n rest = decimal_loop (suc n) n rest

-- `read_size` of common/util.c, on a `size_t`.
unfoldable pub read_size : List ℕ → ℕ
unfolding strtoul
read_size arg =
    let (value, rest) = strtoul arg in
    elim rest [
      | [] ↦ value
      | b ∷ bs ↦
          if b == b'k'
          then value * 1024 % 2 ^ 64
          else if b == b'm'
          then value * (1024 * 1024) % 2 ^ 64
          else if b == b'g'
          then value * (1024 * 1024 * 1024) % 2 ^ 64
          else value
    ]
