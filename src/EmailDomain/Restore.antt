-- ===== src/EmailDomain/Restore.antt =====
-- server/emaildomain.c: the file of a list, as `tofrom_dump_stream` writes it, read again by
-- `tofrom_read_stream`.
use x_grey.Prelude.{
  ℕ, ◌^◌, ◌<◌, Ordering, ◌≡◌, refl, ap, sym, subst, ◌∙◌, some, none, Bool, true, false, List, [],
  ◌∷◌, ◌++◌, map, All, All-get, All-impl, All-and, length, if◌then◌else◌, arith, Run, done, Returns,
  Returns-bind, Returns-impl, Returns-and, ◌>>=◌, le→leb,
}
use mathlib.Core.List.{append_assoc, append-nil}
use x_grey.Order.{strcmp, bytes_cmp}
use x_grey.Bisearch.{Item}
use x_grey.Sorted.{IsAscending}
use x_grey.Sorted.Last.{AreBefore, last_place, insert_at-end, AreBefore-last}
use x_grey.Sorted.Search.{Found, there, absent}
use x_grey.Names.{ci_map_chars, ci_map_int, c_ift}
use x_grey.Names.Round.{ci_map_int-verdict}
use x_grey.Text.{is_space}
use x_grey.Text.Number.{decimal}
use x_grey.EmailDomain.{Entry, EList, edomain_add}
use x_grey.EmailDomain.Update.{IsSorted, text_of, edomain_search-Found}
use x_grey.EmailDomain.Reading.{add_new-IsSorted}
use x_grey.EmailDomain.Dump.{entry_line, tofrom_dump_stream}
use x_grey.EmailDomain.Line.{IsReading, IsTaken, entry_line-IsTaken}
use x_grey.EmailDomain.Reader.{Strings, is_default, add_new, read_split, read_loop}

-- A word: it is not empty, and has no space.
pub record IsWord (text : List ℕ) : Type 0 where
  pub first : ℕ
  pub rest : List ℕ
  pub is_text : text ≡ first ∷ rest
  pub no_space : All (λ b. is_space b ≡ false) (first ∷ rest)

-- An entry that its line tells: the verdict can be given, the text is a word and not the name of the
-- default, and the count fits its type.
pub record IsEntry (e : Entry) : Type 0 where
  pub verdict : e.cmd < 3
  pub is_word : IsWord e.text
  pub no_default : is_default e.text ≡ false
  pub small : e.count < 2 ^ 64

-- The entry that is read; `old` is `cf_oldcounts`.
unfoldable pub again : Bool → Entry → Entry
again old e = record {
  text = e.text;
  tsize = length e.text;
  count = if old then e.count else 0;
  cmd = e.cmd;
}

-- One entry more, at the end.
record IsLonger (l : EList) (ed : Entry) (l' : EList) : Type 0 where
  items : l'.items ≡ l.items ++ (ed ∷ [])
  sorted : IsSorted l'

Found-items :
    (l : EList) (ed : Entry) (r : Run Item)
    → AreBefore bytes_cmp text_of ed.text l.items
    → Found bytes_cmp text_of ed.text l.items r
    → Returns
        (r >>= λ item. elim item.datum [ some i ↦ done l | none ↦ edomain_add l ed item.idx ])
        (λ l'. l'.items ≡ l.items ++ (ed ∷ []))
unfolding edomain_add
Found-items l ed r h (there i a e q) =
    let before : strcmp a.text ed.text ≡ Ordering.lt =
      All-get (λ a. strcmp a.text ed.text ≡ Ordering.lt) l.items i a h e in
    absurd (ground (arith, before, q, bytes_cmp.cmp_refl ed.text))
Found-items l ed r h (absent i k g b) =
    rw (le→leb i (length l.items) k)
      (insert_at-end i ed l.items (last_place bytes_cmp text_of ed.text i l.items h b))

add_new-IsLonger :
    (l : EList) (ed : Entry)
    → IsSorted l
    → AreBefore bytes_cmp text_of ed.text l.items
    → Returns (add_new l ed) (IsLonger l ed)
unfolding add_new
add_new-IsLonger l ed s h =
    Returns-impl _ _ (IsLonger l ed) (λ l' k. record { items = k.0; sorted = k.1 })
      (Returns-and _ (λ l'. l'.items ≡ l.items ++ (ed ∷ [])) IsSorted
        (Found-items l ed _ h (edomain_search-Found ed.text l s)) (add_new-IsSorted l ed s))

module _ (lib : Strings) (reading : IsReading lib) (old : Bool) where
  -- What the fields of a line do, with the number and the verdict that they stand for.
  abbrev pub told : ℕ → ℕ → List ℕ → EList → Run EList
  told count cmd text l =
      if is_default text
      then done (record l { def_cmd = cmd; def_count = if old then count else 0 })
      else add_new l
          (record { text = text; tsize = length text; count = if old then count else 0; cmd = cmd })

  pub read_split-fields :
      (count cmd : ℕ) (text : List ℕ) (l : EList)
      → cmd < 3
      → count < 2 ^ 64
      → read_split lib old (decimal count [] ∷ ci_map_chars cmd c_ift ∷ text ∷ []) l
        ≡ told count cmd text l
  unfolding read_split
  read_split-fields count cmd text l h k =
      ap (λ (n : ℕ). told n (ci_map_int (ci_map_chars cmd c_ift) c_ift) text l)
        (reading.numbers count k)
      ∙ ap (λ (v : ℕ). told count v text l) (ci_map_int-verdict cmd (omega (arith, h)))

  read_split-IsEntry :
      (e : Entry) (l : EList)
      → IsEntry e
      → read_split lib old (decimal e.count [] ∷ ci_map_chars e.cmd c_ift ∷ e.text ∷ []) l
        ≡ add_new l (again old e)
  unfolding again
  read_split-IsEntry e l h =
      read_split-fields e.count e.cmd e.text l h.verdict h.small ∙ rw h.no_default refl

  pub line-IsTaken :
      (count cmd : ℕ) (text : List ℕ)
      → cmd < 3
      → IsWord text
      → IsTaken lib (entry_line count cmd text) (decimal count []) (ci_map_chars cmd c_ift) text
  line-IsTaken count cmd text h w =
      subst
        (λ (t : List ℕ).
          IsTaken lib (entry_line count cmd t) (decimal count []) (ci_map_chars cmd c_ift) t)
        (sym w.is_text) (entry_line-IsTaken lib reading count cmd w.first w.rest h w.no_space)

  -- A line of three fields, and what follows it.
  pub read_loop-fields :
      (line a b t : List ℕ) (lines : List (List ℕ)) (l : EList)
      → IsTaken lib line a b t
      → read_loop lib old false true (line ∷ lines) l
        ≡ (read_split lib old (a ∷ b ∷ t ∷ []) l >>= λ l'. read_loop lib old false true lines l')
  unfolding read_loop
  read_loop-fields line a b t lines l h = rw (h.not_empty, h.not_comment, h.fields) refl

  -- What a list has after the lines of some entries: these at its end, and its default as it was.
  pub record IsGrown (l : EList) (es : List Entry) (l' : EList) : Type 0 where
    pub items : l'.items ≡ l.items ++ map (again old) es
    pub sorted : IsSorted l'

  pub read_entries :
      (es : List Entry) (lines : List (List ℕ)) (l : EList) (Q : EList → Type 0)
      → All IsEntry es
      → IsAscending bytes_cmp text_of es
      → All (λ e. AreBefore bytes_cmp text_of e.text l.items) es
      → IsSorted l
      → ((l' : EList) → IsGrown l es l' → Returns (read_loop lib old false true lines l') Q)
      → Returns (read_loop lib old false true (tofrom_dump_stream es ++ lines) l) Q
  unfolding tofrom_dump_stream again
  read_entries [] lines l Q h a b s k =
      k l (record { items = sym (append-nil l.items); sorted = s })
  read_entries (e ∷ es) lines l Q (h, hs) (a, as') (b, bs) s k =
      subst (λ (r : Run EList). Returns r Q)
        (sym (
          read_loop-fields _ _ _ _ (tofrom_dump_stream es ++ lines) l
            (line-IsTaken e.count e.cmd e.text h.verdict h.is_word)))
        (subst
          (λ (r : Run EList).
            Returns (r >>= λ l'. read_loop lib old false true (tofrom_dump_stream es ++ lines) l')
              Q)
          (sym (read_split-IsEntry e l h))
          (Returns-bind (add_new l (again old e)) _ _ _ (add_new-IsLonger l (again old e) s b)
            (λ l' g.
              read_entries es lines l' Q hs as' (longer (again old e) es l l' g a bs) g.sorted
                (λ l'' m. k l'' (record {
                  items =
                      m.items
                      ∙ ap (λ (xs : List Entry). xs ++ map (again old) es) g.items
                      ∙ append_assoc l.items (again old e ∷ []) (map (again old) es);
                  sorted = m.sorted;
                })))))
    where
      longer :
          (ed : Entry) (es : List Entry) (l l' : EList)
          → IsLonger l ed l'
          → All (λ x. strcmp ed.text x.text ≡ Ordering.lt) es
          → All (λ x. AreBefore bytes_cmp text_of x.text l.items) es
          → All (λ x. AreBefore bytes_cmp text_of x.text l'.items) es
      longer ed es l l' g a b = rw g.items (
          All-impl _ _ es (λ x h. AreBefore-last bytes_cmp text_of x.text l.items ed h.1 h.0)
            (All-and _ _ es a b))
