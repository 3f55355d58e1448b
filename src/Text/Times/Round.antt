-- ===== src/Text/Times/Round.antt =====
-- A length of time that is printed is read again, up to the part of a second that is not printed.
use x_grey.Prelude.{
  ℕ, zero, suc, ◌+◌, ◌-◌, ◌*◌, ◌/◌, ◌≡◌, ◌<◌, ◌≤◌, refl, sym, ap, ◌∙◌, Option, some, ◌||◌, true,
  List, [], ◌∷◌, ◌==◌, length, All, ◌^◌, arith, Bool-cases, inl, inr, ==_iff, if◌then◌else◌,
}
use x_grey.Text.Number.{decimal}
use x_grey.Text.Number.Round.{decimal-cons, length-decimal}
use x_grey.Text.Times.{
  Strtod, secsmin, secshour, secsday, secsyear, scaled, read_times, read_dtime, part, report_delta,
  delta_text, printed_over,
}

-- A number with its letter and what it counts, in ten-thousandths of a second.
abbrev Part : Type 0
Part = ℕ × ℕ × ℕ

-- A letter of a length.
abbrev IsLetter : ℕ → Type 0
IsLetter b = ((b == b'y') || ((b == b'd') || ((b == b'h') || ((b == b'm') || (b == b's'))))) ≡ true

abbrev IsPart : Part → Type 0
IsPart (n, b, u) = (n < 2 ^ 53) × IsLetter b × (scaled b (10000 * n) ≡ some (n * u))

-- The parts as they are printed, and what they are together.
render : List Part → List ℕ
render [] = []
render ((n, b, u) ∷ ps) = part n b (render ps)

total : List Part → ℕ
total [] = 0
total ((n, b, u) ∷ ps) = n * u + total ps

-- How many of them are printed.
printed : List Part → ℕ
printed [] = 0
printed ((n, b, u) ∷ ps) = let rest = printed ps in if n == 0 then rest else rest + 1

-- Each part printed takes a byte at least.
printed-le : (ps : List Part) → printed ps ≤ length (render ps)
unfolding printed render part
printed-le [] = omega arith
printed-le ((n, b, u) ∷ ps) = elim (Bool-cases (n == 0)) [
  | inl e ↦ rw e (printed-le ps)
  | inr e ↦ rw e (omega (arith, printed-le ps, length-decimal n (b ∷ render ps)))
]

module _ (lib : Strtod) where
  -- `while (*p)` behind a part.
  abbrev read_on : ℕ → List ℕ → ℕ → Option ℕ
  read_on fuel text time = elim text [ [] ↦ some time | d ∷ ds ↦ read_times lib fuel (d ∷ ds) time ]

  read_part :
      (fuel n b u time : ℕ) (rest : List ℕ)
      → IsPart (n, b, u)
      → read_times lib (suc fuel) (decimal n (b ∷ rest)) time ≡ read_on fuel rest (time + n * u)
  unfolding read_times
  read_part fuel n b u time rest h =
      rw (lib.reads n b rest h.0 h.1, read_times) (rw (lib.reads n b rest h.0 h.1) (rw h.2 refl))

  render-read :
      (ps : List Part) (k time : ℕ)
      → All IsPart ps
      → read_on (printed ps + k) (render ps) time ≡ some (time + total ps)
  unfolding render total part printed
  render-read [] k time h = ap some (omega arith)
  render-read ((n, b, u) ∷ ps) k time h = elim (Bool-cases (n == 0)) [
    | inl e ↦
        let none_of : n ≡ 0 = (==_iff n 0).0 e in
        rw e (render-read ps k time h.1 ∙ ap some (rw none_of (omega arith)))
    | inr e ↦
        let c = decimal-cons n (b ∷ render ps) in
        let next : printed ps + 1 + k ≡ suc (printed ps + k) = omega arith in
        rw (e, c.2, next)
          (ap (λ t. read_times lib (suc (printed ps + k)) t time) (sym c.2)
            ∙ read_part (printed ps + k) n b u time (render ps) h.0
            ∙ render-read ps k (time + n * u) h.1
            ∙ ap some (omega arith))
  ]

-- The parts that `report_delta` prints.
parts : ℕ → List Part
parts diff =
    let year = diff / secsyear in
    let in_year = diff - year * secsyear in
    let day = in_year / secsday in
    let in_day = in_year - day * secsday in
    let hour = in_day / secshour in
    let in_hour = in_day - hour * secshour in
    let minute = in_hour / secsmin in
    let second = (in_hour - minute * secsmin) / 10000 in
    (year, b'y', secsyear)
    ∷ (day, b'd', secsday)
    ∷ (hour, b'h', secshour)
    ∷ (minute, b'm', secsmin)
    ∷ (second, b's', 10000)
    ∷ []

parts-total : (diff : ℕ) → (total (parts diff) ≤ diff) × (diff < total (parts diff) + 10000)
unfolding parts total
parts-total diff = omega arith

parts-All : (diff : ℕ) → diff < 2 ^ 53 → All IsPart (parts diff)
unfolding parts scaled
parts-All diff h = (
  (omega arith, refl, ap some (years _)),
  (
    (omega arith, refl, ap some (days _)),
    (
      (omega arith, refl, ap some (hours _)),
      ((omega arith, refl, ap some (minutes _)), ((omega arith, refl, ap some (seconds _)), tt)),
    ),
  ),
)
  where
    years : (n : ℕ) → 10000 * n * secsyear / 10000 ≡ n * secsyear
    years n = omega arith

    days : (n : ℕ) → 10000 * n * secsday / 10000 ≡ n * secsday
    days n = omega arith

    hours : (n : ℕ) → 10000 * n * secshour / 10000 ≡ n * secshour
    hours n = omega arith

    minutes : (n : ℕ) → 10000 * n * secsmin / 10000 ≡ n * secsmin
    minutes n = omega arith

    seconds : (n : ℕ) → 10000 * n ≡ n * 10000
    seconds n = omega arith

none-total : (ps : List Part) → printed ps ≡ 0 → total ps ≡ 0
unfolding printed total
none-total [] h = refl
none-total ((n, b, u) ∷ ps) h = elim (Bool-cases (n == 0)) [
  | inl e ↦
      let none_of : n ≡ 0 = (==_iff n 0).0 e in
      rw none_of (omega (arith, none-total ps (rw e at h)))
  | inr e ↦ absurd (omega (arith, (rw e at h)))
]

delta_text-render : (diff : ℕ) → delta_text diff ≡ render (parts diff)
unfolding delta_text parts render
delta_text-render diff = refl

some_printed : (diff : ℕ) → 10000 ≤ diff → 0 < printed (parts diff)
some_printed diff h =
    positive (printed (parts diff))
      (λ e. omega (arith, parts-total diff, none-total (parts diff) e))
  where
    positive : (n : ℕ) → (n ≡ 0 → ⊥) → 0 < n
    positive zero f = absurd (f refl)
    positive (suc n) f = omega arith

printed_over-text : (stack text : List ℕ) → 0 < length text → printed_over stack text ≡ text
unfolding printed_over
printed_over-text stack [] h = absurd (omega arith)
printed_over-text stack (b ∷ bs) h = refl

-- If a second has passed, something is printed.
report-render :
    (stack : List ℕ) (diff : ℕ) → 10000 ≤ diff → report_delta stack diff ≡ render (parts diff)
unfolding report_delta
report-render stack diff h = rw (delta_text-render diff) (
    printed_over-text stack (render (parts diff))
      (omega (arith, printed-le (parts diff), some_printed diff h)))

read_first :
    (lib : Strtod) (fuel time : ℕ) (text : List ℕ)
    → 0 < length text
    → read_times lib fuel text time ≡ read_on lib fuel text time
read_first lib fuel time [] h = absurd (omega arith)
read_first lib fuel time (b ∷ bs) h = refl

-- What `read_dtime` makes of a text of parts.
read_dtime-render :
    (lib : Strtod) (ps : List Part) (default : ℕ)
    → All IsPart ps
    → 0 < length (render ps)
    → read_dtime lib (render ps) default ≡ total ps
unfolding read_dtime
read_dtime-render lib ps default h some_text =
    let k : ℕ = suc (length (render ps)) - printed ps in
    let enough : suc (length (render ps)) ≡ printed ps + k = omega (arith, printed-le ps) in
    let all = render-read lib ps k 0 h in
    rw
      (
        read_first lib (suc (length (render ps))) 0 (render ps) some_text
            ∙ ap (λ (n : ℕ). read_on lib n (render ps) 0) enough
            ∙ all,
        read_dtime,
      )
      (omega arith)

-- A length of a second or more, below 2^53 ten-thousandths, that `report_delta` prints is read by
-- `read_dtime` as itself up to the part of a second that is not printed, whatever the default and
-- the contents of the buffer are.
pub read_dtime-report_delta :
    (lib : Strtod) (stack : List ℕ) (diff default : ℕ)
    → 10000 ≤ diff
    → diff < 2 ^ 53
    → (read_dtime lib (report_delta stack diff) default ≤ diff)
      × (diff < read_dtime lib (report_delta stack diff) default + 10000)
read_dtime-report_delta lib stack diff default h small =
    let some_text : 0 < length (render (parts diff)) =
      omega (arith, printed-le (parts diff), some_printed diff h) in
    rw
      (
        report-render stack diff h,
        read_dtime-render lib (parts diff) default (parts-All diff small) some_text,
      )
      (parts-total diff)

parts-total_whole : (n : ℕ) → n < 31556925 → total (parts (10000 * n)) ≡ 10000 * n
unfolding parts total
parts-total_whole n h = omega arith

-- Whole seconds, of less than a year, are read exactly.
pub read_dtime-report_delta_whole :
    (lib : Strtod) (stack : List ℕ) (n default : ℕ)
    → 1 ≤ n
    → n < 31556925
    → read_dtime lib (report_delta stack (10000 * n)) default ≡ 10000 * n
read_dtime-report_delta_whole lib stack n default h small =
    let some_text : 0 < length (render (parts (10000 * n))) =
      omega (arith, printed-le (parts (10000 * n)), some_printed (10000 * n) (omega arith)) in
    rw
      (
        report-render stack (10000 * n) (omega arith),
        read_dtime-render lib (parts (10000 * n)) default (parts-All (10000 * n) (omega arith))
            some_text,
      )
      (parts-total_whole n small)
