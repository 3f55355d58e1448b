-- ===== src/Text/Strings.antt =====
-- The string at the start of an array, and literals of the sources.
use x_grey.Prelude.{ℕ, ◌≡◌, refl, some, false, List, [], ◌∷◌, ◌++◌, ◌==◌, All}
use Prim.Native.Char.{code}
use Prim.Native.String.{String}
use x_grey.Text.{cstring}

-- The bytes of a literal.
abbrev pub codes : String → List ℕ
codes String.[] = []
codes (String.◌∷◌ c s) = code c ∷ codes s

-- No byte of the text is `b`.
abbrev pub Lacks : ℕ → List ℕ → Type 0
Lacks b xs = All (λ x. (x == b) ≡ false) xs

pub cstring-append : (xs ys : List ℕ) → Lacks 0 xs → cstring (xs ++ (0 ∷ ys)) ≡ some xs
unfolding cstring
cstring-append [] ys h = refl
cstring-append (x ∷ xs) ys h = rw (h.0, cstring-append xs ys h.1) refl
