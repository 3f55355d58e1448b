-- ===== src/Tests/Settings.antt =====
-- Witnesses: lengths of time and options.
use x_grey.Prelude.{ℕ, ◌*◌, ◌≡◌, refl, some, ◌||◌, ◌==◌, true, false, List, [], ◌∷◌, arith}
use x_grey.Text.Number.{digits, decimal, is_digit}
use x_grey.Text.Number.Round.{digits-decimal}
use x_grey.Text.Times.{Strtod}
use x_grey.Options.{OptLib}
use x_grey.Options.Postfix.{defaults, parse_cmdline, dump_defaults}
use x_grey.Names.{CharsInt}
use x_grey.Options.Names.{c_facilities, c_levels}
use x_grey.Options.Round.{IsUpper, as_given, parse_cmdline-dump_defaults}

-- Digits only.
read_digits : List ℕ → ℕ × List ℕ
read_digits text = let (n, rest) = digits 0 text in (10000 * n, rest)

letter_ends :
    (b : ℕ)
    → ((b == b'y') || ((b == b'd') || ((b == b'h') || ((b == b'm') || (b == b's'))))) ≡ true
    → is_digit b ≡ false
letter_ends b h = ground arith

read_digits-decimal :
    (n b : ℕ) (rest : List ℕ)
    → ((b == b'y') || ((b == b'd') || ((b == b'h') || ((b == b'm') || (b == b's'))))) ≡ true
    → read_digits (decimal n (b ∷ rest)) ≡ (10000 * n, b ∷ rest)
unfolding read_digits
read_digits-decimal n b rest h = rw (digits-decimal n (b ∷ rest) (letter_ends b h)) refl

abbrev plain_clock : Strtod
plain_clock = record {
  strtod = read_digits;
  reads = λ n b rest small h. read_digits-decimal n b rest h;
}

abbrev echo : OptLib
echo = record { getopt = λ table argv. as_given argv; up_string = λ s. s }

all_same : (table : List CharsInt) → IsUpper echo table
all_same [] = tt
all_same (e ∷ es) = (refl, all_same es)

parse_cmdline-dump_defaults_example :
    parse_cmdline echo plain_clock (dump_defaults [] defaults) (record defaults { timeout = 9 })
    ≡ some defaults
parse_cmdline-dump_defaults_example =
    parse_cmdline-dump_defaults echo plain_clock [] (dump_defaults [] defaults) defaults
      (record defaults { timeout = 9 }) (all_same c_facilities) (all_same c_levels)
      (15, _, refl, refl) (4, _, refl, refl) (omega arith) (omega arith) refl
