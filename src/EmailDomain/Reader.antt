-- ===== src/EmailDomain/Reader.antt =====
-- server/emaildomain.c: `tofrom_read_stream`, which reads a list from a file.
use x_grey.Prelude.{
  ℕ, none, some, Bool, true, false, List, [], ◌∷◌, ◌==◌, if◌then◌else◌, length, Run, done, assert,
  ◌>>=◌, ◌||◌,
}
use x_grey.Order.{strcmp}
use x_grey.Names.{ci_map_int, c_ift, is_eq}
use x_grey.Text.{split}
use x_grey.EmailDomain.{Entry, EList, edomain_search, edomain_add}

abbrev default_low : List ℕ
default_low = b'd' ∷ b'e' ∷ b'f' ∷ b'a' ∷ b'u' ∷ b'l' ∷ b't' ∷ []

abbrev default_up : List ℕ
default_up = b'D' ∷ b'E' ∷ b'F' ∷ b'A' ∷ b'U' ∷ b'L' ∷ b'T' ∷ []

-- `strcmp(text,"default") == 0 || strcmp(text,"DEFAULT") == 0`
unfoldable pub is_default : List ℕ → Bool
unfolding strcmp is_eq
is_default text = is_eq (strcmp text default_low) || is_eq (strcmp text default_up)

-- The library functions on strings that the reader calls.
pub record Strings : Type 0 where
  pub empty_string : List ℕ → Bool
  pub trim_space : List ℕ → List ℕ
  pub strtoul : List ℕ → ℕ

unfoldable pub starts_comment : List ℕ → Bool
starts_comment [] = false
starts_comment (b ∷ bs) = b == b'#'

-- The search for the entry read, which is added if there is none with its text.
unfoldable pub add_new : EList → Entry → Run EList
unfolding edomain_search edomain_add
add_new l ed = edomain_search ed.text l >>= λ item. elim item.datum [
  | some i ↦ done l
  | none ↦ edomain_add l ed item.idx
]

-- What a line with the fields `f0`, `f1` and `f2` does; `old` is `cf_oldcounts`.
unfoldable pub read_fields : Strings → Bool → List ℕ → List ℕ → List ℕ → EList → Run EList
unfolding is_default ci_map_int add_new
read_fields lib old count cmd text l =
    let n : ℕ = if old then lib.strtoul count else 0 in
    if is_default text
    then done (record l { def_cmd = ci_map_int cmd c_ift; def_count = n })
    else add_new l
        (record { text = text; tsize = length text; count = n; cmd = ci_map_int cmd c_ift })

unfoldable pub read_split : Strings → Bool → List (List ℕ) → EList → Run EList
unfolding read_fields
read_split lib old [] l = done l
read_split lib old (a ∷ []) l = done l
read_split lib old (a ∷ b ∷ []) l = done l
read_split lib old (a ∷ b ∷ t ∷ more) l = read_fields lib old a b t l

-- The loop, on the lines left. `owned` says that `fields` points to memory that is not yet freed;
-- to free it again is a fault. `open_end` says that the last line ends without a newline, so that
-- `feof` ends the loop before the next `free`.
unfoldable pub read_loop : Strings → Bool → Bool → Bool → List (List ℕ) → EList → Run EList
unfolding starts_comment split read_split
read_loop lib old open_end owned [] l = if open_end then done l else (assert owned >>= λ _. done l)
read_loop lib old open_end owned (line ∷ lines) l = assert owned >>= λ _.
    let skipped = read_loop lib old open_end false lines l in
    let text = lib.trim_space line in
    if lib.empty_string line
    then skipped
    else if starts_comment text
    then skipped
    else (split text >>= λ fields.
        read_split lib old fields l >>= λ l'. read_loop lib old open_end true lines l')

unfoldable pub tofrom_read_stream : Strings → Bool → Bool → List (List ℕ) → EList → Run EList
unfolding read_loop
tofrom_read_stream lib old open_end lines l = read_loop lib old open_end true lines l

-- The line starts with '#', or is blank.
unfoldable pub is_skipped : Strings → List ℕ → Bool
unfolding starts_comment
is_skipped lib line = if lib.empty_string line then true else starts_comment (lib.trim_space line)
