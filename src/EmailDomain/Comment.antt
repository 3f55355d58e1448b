-- ===== src/EmailDomain/Comment.antt =====
-- `tofrom_read_stream` of server/emaildomain.c on lines that it skips: it frees `fields` at the head
-- of the loop, and gives it new memory only where it splits a line.
use x_grey.Prelude.{ℕ, ◌≡◌, refl, Bool, true, false, List, [], ◌∷◌, abort, Bool-cases, inl, inr}
use x_grey.EmailDomain.{EList}
use x_grey.EmailDomain.Reader.{Strings, is_skipped, starts_comment, read_loop, tofrom_read_stream}

module _ (lib : Strings) (old : Bool) where
  twice_freed : (lines : List (List ℕ)) (l : EList) → read_loop lib old false false lines l ≡ abort
  unfolding read_loop
  twice_freed [] l = refl
  twice_freed (x ∷ xs) l = refl

  -- A file whose first line is blank or a comment, and ends with a newline, makes the reader free
  -- the same memory twice.
  pub tofrom_read_stream_comment :
      (line : List ℕ) (lines : List (List ℕ)) (l : EList)
      → is_skipped lib line ≡ true
      → tofrom_read_stream lib old false (line ∷ lines) l ≡ abort
  unfolding tofrom_read_stream read_loop is_skipped
  tofrom_read_stream_comment line lines l h = elim (Bool-cases (lib.empty_string line)) [
    | inl e ↦ rw e (twice_freed lines l)
    | inr e ↦
        let comment : starts_comment (lib.trim_space line) ≡ true = rw e at h in
        rw (e, comment) (twice_freed lines l)
  ]
