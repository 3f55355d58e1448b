-- ===== src/IpTree/Line.antt =====
-- A line that `iplist_dump_stream` writes, as `iplist_read` takes it apart.
use x_grey.Prelude.{
  ℕ, ◌-◌, ◌≤◌, ◌<◌, ◌≡◌, refl, ap, subst, sym, ◌∙◌, true, false, not, List, [], ◌∷◌, ◌++◌, All,
  All-impl, length, take, replicate, arith, done,
}
use mathlib.Core.List.{append_assoc}
use x_grey.Names.{ci_map_chars, c_ift}
use x_grey.Names.Printed.{is_lower, IsName, verdict-IsName}
use x_grey.Text.{is_space, split}
use x_grey.Text.Words.{split_two}
use x_grey.Text.Trimmed.{starts, ends, take-whole, All-append, ends-append}
use x_grey.Text.Number.{decimal}
use x_grey.Text.Number.Printed.{decimal-All, decimal_two, decimal_three}
use x_grey.Text.Number.Round.{decimal-cons}
use x_grey.Text.Address.{ipv4}
use x_grey.EmailDomain.Dump.{at_right}
use x_grey.IpTree.Reader.{Trimming}

-- What the functions of cgilib6 do: `trim_space` takes off the spaces before a text and the end of
-- the line behind it, `up_string` leaves a text without small letters, and a text that starts with a byte that
-- is no space is not empty.
pub record IsTrimming (lib : Trimming) : Type 0 where
  pub trims :
      (n : ℕ) (t : List ℕ)
      → starts t ≡ true
      → ends t ≡ true
      → lib.trim_space (replicate n b' ' ++ (t ++ (10 ∷ []))) ≡ t
  pub uppers : (t : List ℕ) → All (λ b. is_lower b ≡ false) t → lib.up_string t ≡ t
  pub has_bytes : (b : ℕ) (bs : List ℕ) → is_space b ≡ false → lib.empty_string (b ∷ bs) ≡ false

-- The bytes of an address with its mask: digits, dots and the slash.
abbrev InAddress : ℕ → Type 0
InAddress b = (b'.' ≤ b) × (b ≤ b'9')

InAddress-digit : (b : ℕ) → b'0' ≤ b → b ≤ b'9' → InAddress b
InAddress-digit b low high = (omega arith, high)

dark : (b : ℕ) → InAddress b → is_space b ≡ false
unfolding is_space
dark b (low, high) = ground arith

large : (b : ℕ) → InAddress b → is_lower b ≡ false
large b (low, high) = ground arith

module _ (a b c d m : ℕ) where
  abbrev address : List ℕ
  address = ipv4 a b c d (b'/' ∷ decimal m [])

  part : (n : ℕ) (rest : List ℕ) → All InAddress rest → All InAddress (decimal n rest)
  part = decimal-All InAddress InAddress-digit

  address-All : All InAddress address
  unfolding ipv4
  address-All = part a _ (
    (omega arith, omega arith),
    part b _ (
      (omega arith, omega arith),
      part c _ ((omega arith, omega arith), part d _ ((omega arith, omega arith), part m [] tt)),
    ),
  )

  address-cons : (x : ℕ) × (xs : List ℕ) × (address ≡ x ∷ xs)
  unfolding ipv4
  address-cons = decimal-cons a _

  length-address : a < 256 → b < 256 → c < 256 → d < 256 → m ≤ 32 → length address ≤ 18
  unfolding ipv4
  length-address ha hb hc hd hm = omega (
    arith,
    decimal_three a (b'.' ∷ decimal b (b'.' ∷ decimal c (b'.' ∷ decimal d (b'/' ∷ decimal m [])))),
    decimal_three b (b'.' ∷ decimal c (b'.' ∷ decimal d (b'/' ∷ decimal m []))),
    decimal_three c (b'.' ∷ decimal d (b'/' ∷ decimal m [])),
    decimal_three d (b'/' ∷ decimal m []),
    decimal_two m [],
  )

module _ (lib : Trimming) (trimming : IsTrimming lib) where
  -- What the reader makes of a line: the fields, and that it is not empty.
  abbrev IsTaken : List ℕ → List ℕ → Type 0
  IsTaken w v =
      (line : List ℕ)
      → line ≡ at_right 18 (take 18 w) ++ (b' ' ∷ (v ++ (10 ∷ [])))
      → (lib.empty_string (lib.trim_space line) ≡ false)
        × (split (lib.up_string (lib.trim_space line)) ≡ done (w ∷ v ∷ []))

  module _ (x : ℕ) (xs : List ℕ) (y : ℕ) (ys : List ℕ) (all : All InAddress (x ∷ xs))
      (short : length (x ∷ xs) ≤ 18) where
    abbrev both : List ℕ
    both = (x ∷ xs) ++ (b' ' ∷ (y ∷ ys))

    as_padded :
        at_right 18 (take 18 (x ∷ xs)) ++ (b' ' ∷ ((y ∷ ys) ++ (10 ∷ [])))
        ≡ replicate (18 - length (x ∷ xs)) b' ' ++ (both ++ (10 ∷ []))
    unfolding at_right
    as_padded =
        ap
          (λ (w : List ℕ).
            (replicate (18 - length w) b' ' ++ w) ++ (b' ' ∷ ((y ∷ ys) ++ (10 ∷ []))))
          (take-whole 18 (x ∷ xs) short)
        ∙ append_assoc (replicate (18 - length (x ∷ xs)) b' ') (x ∷ xs) _
        ∙ ap (λ (w : List ℕ). replicate (18 - length (x ∷ xs)) b' ' ++ w)
            (sym (append_assoc (x ∷ xs) (b' ' ∷ (y ∷ ys)) (10 ∷ [])))

    trimmed :
        ends (y ∷ ys) ≡ true
        → lib.trim_space (at_right 18 (take 18 (x ∷ xs)) ++ (b' ' ∷ ((y ∷ ys) ++ (10 ∷ [])))) ≡ both
    trimmed e =
        ap (λ (w : List ℕ). lib.trim_space w) as_padded
        ∙ trimming.trims (18 - length (x ∷ xs)) both (ap not (dark x all.0))
            (ends-append (x ∷ xs) b' ' (y ∷ ys) ∙ e)

    taken :
        All (λ b. is_space b ≡ false) (y ∷ ys)
        → All (λ b. is_lower b ≡ false) (y ∷ ys)
        → ends (y ∷ ys) ≡ true
        → IsTaken (x ∷ xs) (y ∷ ys)
    taken h k e line is_line =
        let t = ap (λ (w : List ℕ). lib.trim_space w) is_line ∙ trimmed e in
        let u =
          trimming.uppers both
            (All-append _ (x ∷ xs) (b' ' ∷ (y ∷ ys)) (All-impl _ _ (x ∷ xs) large all) (refl, k)) in
        (
          ap (λ (w : List ℕ). lib.empty_string w) t ∙ trimming.has_bytes x _ (dark x all.0),
          ap (λ (w : List ℕ). split (lib.up_string w)) t
              ∙ ap split u
              ∙ split_two x xs y ys (All-impl _ _ (x ∷ xs) dark all) h,
        )

  -- The line of an address of four octets, with a mask, and of a verdict is read as these two.
  pub line-IsTaken :
      (a b c d m cmd : ℕ)
      → a < 256
      → b < 256
      → c < 256
      → d < 256
      → m ≤ 32
      → cmd < 3
      → IsTaken (ipv4 a b c d (b'/' ∷ decimal m [])) (ci_map_chars cmd c_ift)
  line-IsTaken a b c d m cmd ha hb hc hd hm hcmd =
      let (x, xs, e) = address-cons a b c d m in
      let n : IsName (ci_map_chars cmd c_ift) = verdict-IsName cmd hcmd in
      let all : All InAddress (ipv4 a b c d (b'/' ∷ decimal m [])) = address-All a b c d m in
      let short = length-address a b c d m ha hb hc hd hm in
      subst (λ (w : List ℕ). IsTaken w (ci_map_chars cmd c_ift)) (sym e)
        (subst (λ (v : List ℕ). IsTaken (x ∷ xs) v) (sym n.is_text)
          (taken x xs n.first n.rest (subst (All InAddress) e all)
            (subst (λ (w : List ℕ). length w ≤ 18) e short) n.dark_name n.large_name n.ends_name))
