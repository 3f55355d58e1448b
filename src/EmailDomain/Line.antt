-- ===== src/EmailDomain/Line.antt =====
-- A line that `tofrom_dump_stream` of server/emaildomain.c writes, as `tofrom_read_stream` takes it
-- apart.
use x_grey.Prelude.{
  ℕ, ◌-◌, ◌^◌, ◌≤◌, ◌<◌, ◌≡◌, ap, subst, sym, ◌∙◌, true, false, not, List, [], ◌∷◌, ◌++◌, All,
  All-impl, length, take, replicate, arith, done,
}
use mathlib.Core.List.{append_assoc}
use x_grey.Names.{ci_map_chars, c_ift}
use x_grey.Names.Printed.{verdict-IsName}
use x_grey.Text.{is_space, split}
use x_grey.Text.Words.{split_three}
use x_grey.Text.Trimmed.{starts, ends, take-whole, ends-append, ends-All}
use x_grey.Text.Number.{decimal}
use x_grey.Text.Number.Printed.{decimal-All}
use x_grey.Text.Number.Round.{decimal-cons}
use x_grey.EmailDomain.Dump.{at_right, entry_line}
use x_grey.EmailDomain.Reader.{Strings, starts_comment}

-- What the functions of the libraries do: `trim_space` takes off the spaces before a text and the end
-- of the line behind it, a line with a byte that is no space is not empty, and `strtoul` reads what
-- `%lu` prints.
pub record IsReading (lib : Strings) : Type 0 where
  pub trims :
      (n : ℕ) (t : List ℕ)
      → starts t ≡ true
      → ends t ≡ true
      → lib.trim_space (replicate n b' ' ++ (t ++ (10 ∷ []))) ≡ t
  pub has_text :
      (n : ℕ) (t : List ℕ)
      → starts t ≡ true
      → lib.empty_string (replicate n b' ' ++ (t ++ (10 ∷ []))) ≡ false
  pub numbers : (n : ℕ) → n < 2 ^ 64 → lib.strtoul (decimal n []) ≡ n

abbrev Dark : List ℕ → Type 0
Dark t = All (λ b. is_space b ≡ false) t

-- A digit is no space, and no mark of a comment.
abbrev IsInk : ℕ → Type 0
IsInk b = (b'0' ≤ b) × (b ≤ b'9')

ink : (b : ℕ) → b'0' ≤ b → b ≤ b'9' → is_space b ≡ false
unfolding is_space
ink b low high = ground arith

-- What the reader makes of a line: it is not blank, no comment, and has three fields.
pub record IsTaken (lib : Strings) (line w v t : List ℕ) : Type 0 where
  pub not_empty : lib.empty_string line ≡ false
  pub not_comment : starts_comment (lib.trim_space line) ≡ false
  pub fields : split (lib.trim_space line) ≡ done (w ∷ v ∷ t ∷ [])

module _ (lib : Strings) (reading : IsReading lib) where
  module _ (n k x : ℕ) (xs : List ℕ) (y : ℕ) (ys : List ℕ) (z : ℕ) (zs : List ℕ)
      (hx : Dark (x ∷ xs)) (hy : Dark (y ∷ ys)) (hz : Dark (z ∷ zs)) where
    abbrev body : List ℕ
    body = (x ∷ xs) ++ (b' ' ∷ (replicate k b' ' ++ ((y ∷ ys) ++ (b' ' ∷ (z ∷ zs)))))

    regrouped :
        (replicate n b' ' ++ (x ∷ xs))
          ++ (b' ' ∷ ((replicate k b' ' ++ (y ∷ ys)) ++ (b' ' ∷ ((z ∷ zs) ++ (10 ∷ [])))))
        ≡ replicate n b' ' ++ (body ++ (10 ∷ []))
    regrouped = simp append_assoc

    body_ends : ends body ≡ true
    body_ends =
        let parted : body
            ≡ ((x ∷ xs) ++ (b' ' ∷ (replicate k b' ' ++ (y ∷ ys)))) ++ (b' ' ∷ (z ∷ zs)) =
          simp append_assoc in
        ap ends parted
        ∙ ends-append ((x ∷ xs) ++ (b' ' ∷ (replicate k b' ' ++ (y ∷ ys)))) b' ' (z ∷ zs)
        ∙ ends-All z zs hz

    taken :
        (line : List ℕ)
        → starts_comment (x ∷ xs) ≡ false
        → line ≡ replicate n b' ' ++ (body ++ (10 ∷ []))
        → IsTaken lib line (x ∷ xs) (y ∷ ys) (z ∷ zs)
    unfolding starts_comment
    taken line c e =
        let begins : starts body ≡ true = ap not hx.0 in
        let trimmed : lib.trim_space line ≡ body =
          ap (λ (w : List ℕ). lib.trim_space w) e ∙ reading.trims n body begins body_ends in
        record {
          not_empty = ap (λ (w : List ℕ). lib.empty_string w) e ∙ reading.has_text n body begins;
          not_comment = ap starts_comment trimmed ∙ c;
          fields = ap split trimmed ∙ split_three x xs k y ys z zs hx hy hz;
        }

  abbrev printed : List ℕ → List ℕ → List ℕ → List ℕ
  printed w v t = at_right 10 w ++ (b' ' ∷ (at_right 8 (take 8 v) ++ (b' ' ∷ (t ++ (10 ∷ [])))))

  printed-IsTaken :
      (x : ℕ) (xs : List ℕ) (y : ℕ) (ys : List ℕ) (z : ℕ) (zs : List ℕ)
      → All IsInk (x ∷ xs)
      → Dark (y ∷ ys)
      → length (y ∷ ys) ≤ 8
      → Dark (z ∷ zs)
      → IsTaken lib (printed (x ∷ xs) (y ∷ ys) (z ∷ zs)) (x ∷ xs) (y ∷ ys) (z ∷ zs)
  unfolding at_right starts_comment
  printed-IsTaken x xs y ys z zs hx hy short hz =
      let n : ℕ = 10 - length (x ∷ xs) in
      let k : ℕ = 8 - length (y ∷ ys) in
      let dark : Dark (x ∷ xs) = All-impl _ _ (x ∷ xs) (λ b h. ink b h.0 h.1) hx in
      taken n k x xs y ys z zs dark hy hz _ (ground arith) (
        ap
          (λ (v : List ℕ).
            (replicate n b' ' ++ (x ∷ xs))
            ++ (b' ' ∷ ((replicate (8 - length v) b' ' ++ v) ++ (b' ' ∷ ((z ∷ zs) ++ (10 ∷ []))))))
          (take-whole 8 (y ∷ ys) short)
        ∙ regrouped n k x xs y ys z zs dark hy hz)

  -- The line of an entry with a verdict that can be given, and a text without spaces, is read as the
  -- count, the name of the verdict and the text.
  pub entry_line-IsTaken :
      (count cmd z : ℕ) (zs : List ℕ)
      → cmd < 3
      → Dark (z ∷ zs)
      → IsTaken lib
          (entry_line count cmd (z ∷ zs))
          (decimal count [])
          (ci_map_chars cmd c_ift)
          (z ∷ zs)
  unfolding entry_line
  entry_line-IsTaken count cmd z zs h hz =
      let (x, xs, e) = decimal-cons count [] in
      let m = verdict-IsName cmd h in
      let all : All IsInk (decimal count []) =
        decimal-All IsInk (λ b low high. (low, high)) count [] tt in
      subst
        (λ (w : List ℕ).
          IsTaken lib (printed w (ci_map_chars cmd c_ift) (z ∷ zs)) w (ci_map_chars cmd c_ift)
            (z ∷ zs))
        (sym e)
        (subst (λ (v : List ℕ). IsTaken lib (printed (x ∷ xs) v (z ∷ zs)) (x ∷ xs) v (z ∷ zs))
          (sym m.is_text)
          (printed-IsTaken x xs m.first m.rest z zs (subst (All IsInk) e all) m.dark_name
            m.short_name hz))
