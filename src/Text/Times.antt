-- ===== src/Text/Times.antt =====
-- common/util.c: lengths of time as texts, `read_dtime` and `report_delta`. A length is a number of
-- ten-thousandths of a second, in which a year of the sources is a whole number. `strtod` of the C
-- library is a parameter.
pub mod Round
use x_grey.Prelude.{
  ℕ, zero, suc, ◌+◌, ◌-◌, ◌*◌, ◌/◌, ◌%◌, ◌^◌, ◌<◌, ◌≡◌, Option, none, some, Bool, ◌&&◌, ◌||◌, true,
  List, [], ◌∷◌, ◌==◌, leb, length, if◌then◌else◌,
}
use x_grey.Text.Number.{decimal}

-- `strtod`: the number at the start of a text, and what follows it. On decimal digits of a number
-- that a double holds, and one of the letters of a length, it stops at the letter.
pub record Strtod : Type 0 where
  pub strtod : List ℕ → ℕ × List ℕ
  pub reads :
      (n b : ℕ) (rest : List ℕ)
      → n < 2 ^ 53
      → ((b == b'y') || ((b == b'd') || ((b == b'h') || ((b == b'm') || (b == b's'))))) ≡ true
      → strtod (decimal n (b ∷ rest)) ≡ (10000 * n, b ∷ rest)

-- SECSMIN, SECSHOUR, SECSDAY and SECSYEAR of common/util.h.
abbrev pub secsmin : ℕ
secsmin = 600000

abbrev pub secshour : ℕ
secshour = 36000000

abbrev pub secsday : ℕ
secsday = 864000000

abbrev pub secsyear : ℕ
secsyear = 315569259936

-- `toupper` in the locale "C".
unfoldable pub toupper : ℕ → ℕ
toupper b = if leb b'a' b && leb b b'z' then b - 32 else b

-- `val` after the switch on a letter.
unfoldable pub scaled : ℕ → ℕ → Option ℕ
unfolding toupper
scaled b val =
    let u = toupper b in
    if u == b'Y'
    then some (val * secsyear / 10000)
    else if u == b'D'
    then some (val * secsday / 10000)
    else if u == b'H'
    then some (val * secshour / 10000)
    else if u == b'M'
    then some (val * secsmin / 10000)
    else if u == b'S'
    then some val
    else none

module _ (lib : Strtod) where
  -- The loop, with at most `fuel` rounds; `none` is a bad letter. Each round but the last takes one
  -- letter at least.
  unfoldable pub read_times : ℕ → List ℕ → ℕ → Option ℕ
  unfolding scaled
  read_times zero text time = none
  read_times (suc fuel) text time =
      let (val, p) = lib.strtod text in
      elim p [
        | [] ↦ some (time + val)
        | b ∷ bs ↦ elim (scaled b val) [
          | none ↦ none
          | some v ↦ elim bs [ [] ↦ some (time + v) | d ∷ ds ↦ read_times fuel (d ∷ ds) (time + v) ]
        ]
      ]

  unfoldable pub read_dtime : List ℕ → ℕ → ℕ
  unfolding read_times
  read_dtime arg defaultval = elim (read_times (suc (length arg)) arg 0) [
    | none ↦ defaultval
    | some time ↦ time
  ]

-- `if (n) idx += sprintf(&buffer[idx],"%d<letter>",n)`, before what comes after it.
unfoldable pub part : ℕ → ℕ → List ℕ → List ℕ
unfolding decimal
part n letter rest = if n == 0 then rest else decimal n (letter ∷ rest)

-- What is printed into the buffer.
unfoldable pub delta_text : ℕ → List ℕ
unfolding part
delta_text diff =
    let year = diff / secsyear in
    let in_year = diff - year * secsyear in
    let day = in_year / secsday in
    let in_day = in_year - day * secsday in
    let hour = in_day / secshour in
    let in_hour = in_day - hour * secshour in
    let minute = in_hour / secsmin in
    let second = (in_hour - minute * secsmin) / 10000 in
    part year b'y' (part day b'd' (part hour b'h' (part minute b'm' (part second b's' []))))

-- The text of a buffer that held the text `stack`, which no NUL ended if nothing was printed.
unfoldable pub printed_over : List ℕ → List ℕ → List ℕ
printed_over stack [] = stack
printed_over stack (b ∷ bs) = b ∷ bs

unfoldable pub report_delta : List ℕ → ℕ → List ℕ
unfolding delta_text printed_over
report_delta stack diff = printed_over stack (delta_text diff)
