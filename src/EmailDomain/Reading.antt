-- ===== src/EmailDomain/Reading.antt =====
-- `tofrom_read_stream` of server/emaildomain.c on lines that it splits.
use x_grey.Prelude.{
  ℕ, ◌≡◌, ◌≢◌, refl, none, some, Bool, true, false, List, [], ◌∷◌, All, length, Run, done, Returns,
  Returns-bind, Bool-cases, inl, inr, arith, le→leb, ◌>>=◌,
}
use x_grey.Order.{bytes_cmp}
use x_grey.Bisearch.{Item}
use x_grey.Sorted.Search.{Found, there, absent}
use x_grey.Sorted.Change.{insert-IsAscending}
use x_grey.Text.{split}
use x_grey.Text.Split.{solid, split-IsSplit}
use x_grey.EmailDomain.{Entry, EList, edomain_add}
use x_grey.EmailDomain.Update.{IsSorted, text_of, edomain_search-Found, length-insert_at}
use x_grey.EmailDomain.Reader.{
  Strings, starts_comment, is_default, add_new, read_fields, read_split, read_loop,
  tofrom_read_stream,
}

Found-IsSorted :
    (l : EList) (ed : Entry) (r : Run Item)
    → IsSorted l
    → Found bytes_cmp text_of ed.text l.items r
    → Returns
        (r >>= λ item. elim item.datum [ some i ↦ done l | none ↦ edomain_add l ed item.idx ])
        IsSorted
unfolding edomain_add
Found-IsSorted l ed r s (there i a e q) = s
Found-IsSorted l ed r s (absent i h g b) = rw (le→leb i (length l.items) h) (record {
  ascending = insert-IsAscending bytes_cmp text_of ed.text i ed l.items refl s.ascending g b;
  roomy = ground (arith, length-insert_at i ed l.items, s.roomy);
})

pub add_new-IsSorted : (l : EList) (ed : Entry) → IsSorted l → Returns (add_new l ed) IsSorted
unfolding add_new
add_new-IsSorted l ed s = Found-IsSorted l ed _ s (edomain_search-Found ed.text l s)

module _ (lib : Strings) (old : Bool) where
  read_fields-IsSorted :
      (a b t : List ℕ) (l : EList) → IsSorted l → Returns (read_fields lib old a b t l) IsSorted
  unfolding read_fields
  read_fields-IsSorted a b t l s = elim (Bool-cases (is_default t)) [
    | inl e ↦ rw e (record { ascending = s.ascending; roomy = s.roomy })
    | inr e ↦ rw e (add_new-IsSorted l _ s)
  ]

  read_split-IsSorted :
      (fields : List (List ℕ)) (l : EList)
      → IsSorted l
      → Returns (read_split lib old fields l) IsSorted
  unfolding read_split
  read_split-IsSorted [] l s = s
  read_split-IsSorted (a ∷ []) l s = s
  read_split-IsSorted (a ∷ b ∷ []) l s = s
  read_split-IsSorted (a ∷ b ∷ t ∷ more) l s = read_fields-IsSorted a b t l s

  -- The line is split: it is no comment, not blank, and has a field.
  pub record IsRead (line : List ℕ) : Type 0 where
    pub not_empty : lib.empty_string line ≡ false
    pub not_comment : starts_comment (lib.trim_space line) ≡ false
    pub has_field : solid (lib.trim_space line) ≢ []

  read_loop-IsSorted :
      (open_end : Bool) (lines : List (List ℕ)) (l : EList)
      → All IsRead lines
      → IsSorted l
      → Returns (read_loop lib old open_end true lines l) IsSorted
  unfolding read_loop
  read_loop-IsSorted true [] l h s = s
  read_loop-IsSorted false [] l h s = s
  read_loop-IsSorted open_end (line ∷ lines) l h s =
      rw (h.0.not_empty, h.0.not_comment)
        (Returns-bind (split (lib.trim_space line)) _ _ _
          (split-IsSplit (lib.trim_space line) h.0.has_field)
          (λ fields w.
            Returns-bind (read_split lib old fields l) _ _ _ (read_split-IsSorted fields l s)
              (λ l' s'. read_loop-IsSorted open_end lines l' h.1 s')))

  -- A file in which every line is split is read to its end, whatever the fields are, and a list
  -- that was sorted is sorted afterwards.
  pub tofrom_read_stream-IsSorted :
      (open_end : Bool) (lines : List (List ℕ)) (l : EList)
      → All IsRead lines
      → IsSorted l
      → Returns (tofrom_read_stream lib old open_end lines l) IsSorted
  unfolding tofrom_read_stream
  tofrom_read_stream-IsSorted open_end lines l h s = read_loop-IsSorted open_end lines l h s
