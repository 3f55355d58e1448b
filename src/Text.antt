-- ===== src/Text.antt =====
-- Texts as bytes: the strings of C, and `split` of common/util.c on the bytes before the NUL.
pub mod Split
pub mod Words
pub mod Trimmed
pub mod Strings
pub mod Number
pub mod Times
pub mod Address
use x_grey.Prelude.{
  Option, none, some, ℕ, zero, suc, Bool, true, false, ◌||◌, ◌&&◌, drop, List, [], ◌∷◌, ◌==◌, leb,
  if◌then◌else◌, length, Run, done, abort,
}

-- `isspace` in the locale "C".
unfoldable pub is_space : ℕ → Bool
is_space b = (b == 32) || (leb 9 b && leb b 13)

-- The first of the inner loops: `txt` moves on to what is no space.
unfoldable pub skip_space : List ℕ → List ℕ
skip_space [] = []
skip_space (b ∷ bs) = if is_space b then skip_space bs else b ∷ bs

-- The second: `p` moves on to a space or the end. Returned are the bytes passed and what is left.
unfoldable pub word : List ℕ → List ℕ × List ℕ
word [] = ([], [])
word (b ∷ bs) = let (w, rest) = word bs in if is_space b then ([], b ∷ bs) else (b ∷ w, rest)

unfoldable pub is_empty : List ℕ → Bool
is_empty [] = true
is_empty (b ∷ bs) = false

-- The loop of `split`, with at most `n` rounds. Its break at the end of the string is the round on
-- no bytes.
unfoldable pub split_loop : ℕ → List ℕ → List (List ℕ)
split_loop zero txt = []
split_loop (suc n) [] = []
split_loop (suc n) (b ∷ bs) =
    let (w, rest) = word (skip_space (b ∷ bs)) in
    let next = split_loop n (drop 1 rest) in if is_empty w then [] else w ∷ next

-- The line for the log reads the last field, so that a text without one is a fault.
unfoldable pub split : List ℕ → Run (List (List ℕ))
split txt = elim (split_loop (length txt) txt) [ [] ↦ abort | f ∷ fs ↦ done (f ∷ fs) ]

-- The string at the start of an array; `none` is a read behind the array.
unfoldable pub cstring : List ℕ → Option (List ℕ)
cstring [] = none
cstring (x ∷ xs) =
    let more = cstring xs in
    if x == 0 then some [] else elim more [ none ↦ none | some text ↦ some (x ∷ text) ]
