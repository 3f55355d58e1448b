-- ===== src/EmailDomain/RoundTrip.antt =====
-- server/emaildomain.c: a whole list, written by `tofrom_dump_stream` and its caller and read again.
use x_grey.Prelude.{
  ℕ, ◌^◌, ◌<◌, ◌≡◌, refl, ap, sym, subst, ◌∙◌, Bool, true, false, List, [], ◌∷◌, ◌++◌, map, All,
  if◌then◌else◌, Run, Returns, ◌>>=◌,
}
use x_grey.Text.{is_space}
use x_grey.EmailDomain.{Entry, EList}
use x_grey.Order.{bytes_cmp}
use x_grey.Sorted.Last.{AreBefore}
use x_grey.EmailDomain.Update.{IsSorted, text_of}
use x_grey.EmailDomain.Dump.{entry_line, list_dump_stream, default_text}
use x_grey.EmailDomain.Line.{IsReading}
use x_grey.EmailDomain.Restore.{
  IsWord, IsEntry, again, told, read_split-fields, line-IsTaken, read_loop-fields, IsGrown,
  read_entries,
}
use x_grey.EmailDomain.Reader.{Strings, is_default, read_loop, tofrom_read_stream}

default_text-IsWord : IsWord default_text
unfolding is_space
default_text-IsWord = record {
  first = _;
  rest = _;
  is_text = refl;
  no_space = (refl, (refl, (refl, (refl, (refl, (refl, (refl, tt)))))));
}

-- A list that its file can tell: it is sorted, each entry has a line, and the default is a verdict.
pub record IsKept (l : EList) : Type 0 where
  pub sorted : IsSorted l
  pub entries : All IsEntry l.items
  pub def_verdict : l.def_cmd < 3
  pub def_small : l.def_count < 2 ^ 64

-- What the list has after its file was read: the same entries in the same order and the same
-- default, with the counts that they had or with none.
pub record IsReadAgain (old : Bool) (l l' : EList) : Type 0 where
  pub in_order : IsSorted l'
  pub items : l'.items ≡ map (again old) l.items
  pub def_verdict : l'.def_cmd ≡ l.def_cmd
  pub def_number : l'.def_count ≡ (if old then l.def_count else 0)

nothing_before :
    (s : EList) (es : List Entry)
    → s.items ≡ []
    → All (λ e. AreBefore bytes_cmp text_of e.text s.items) es
nothing_before s [] h = tt
nothing_before s (e ∷ es) h = (rw h tt, nothing_before s es h)

abbrev default_line : EList → List ℕ
default_line l = entry_line l.def_count l.def_cmd default_text

default_last :
    (lib : Strings) (reading : IsReading lib) (old : Bool) (l s l' : EList)
    → s.items ≡ []
    → IsGrown lib reading old s l.items l'
    → Returns
        (told lib reading old l.def_count l.def_cmd default_text l' >>= λ l''.
          read_loop lib old false true [] l'')
        (IsReadAgain old l)
unfolding read_loop is_default
default_last lib reading old l s l' h g = record {
  in_order = record { ascending = g.sorted.ascending; roomy = g.sorted.roomy };
  items = g.items ∙ ap (λ (xs : List Entry). xs ++ map (again old) l.items) h;
  def_verdict = refl;
  def_number = refl;
}

-- The file that is written for a list which its file can tell is read to its end into a list without
-- entries; the list then has the same entries in the same order, and the same default. The counts
-- are those of the file where `cf_oldcounts` is set, and 0 where it is not. The functions of the
-- libraries do what `IsReading` says.
pub tofrom_read_stream-list_dump_stream :
    (lib : Strings) (old : Bool) (l s : EList)
    → IsReading lib
    → IsKept l
    → IsSorted s
    → s.items ≡ []
    → Returns (tofrom_read_stream lib old false (list_dump_stream l) s) (IsReadAgain old l)
unfolding tofrom_read_stream list_dump_stream
tofrom_read_stream-list_dump_stream lib old l s reading kept sorted none_there =
    read_entries lib reading old l.items (default_line l ∷ []) s (IsReadAgain old l) kept.entries
      kept.sorted.ascending (nothing_before s l.items none_there) sorted
      (λ l' g.
        subst (λ (r : Run EList). Returns r (IsReadAgain old l))
          (sym (
            read_loop-fields lib reading old (default_line l) _ _ _ [] l' (
              line-IsTaken lib reading old l.def_count l.def_cmd default_text kept.def_verdict
                default_text-IsWord)))
          (subst
            (λ (r : Run EList).
              Returns (r >>= λ l'. read_loop lib old false true [] l') (IsReadAgain old l))
            (sym (
              read_split-fields lib reading old l.def_count l.def_cmd default_text l'
                kept.def_verdict kept.def_small))
            (default_last lib reading old l s l' none_there g)))
