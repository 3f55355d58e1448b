-- ===== src/EmailDomain/Lookup.antt =====
-- The look-ups of `type_greylist` in one list: the verdict is that of the entry with the text, or
-- the default, and only counters change.
use x_grey.Prelude.{
  ℕ, zero, suc, ◌+◌, ◌<◌, ◌≡◌, refl, subst, if◌then◌else◌, ◌==◌, Option, none, some, Bool, true,
  false, List, All, All-get, length-set, get_elem?, set, Run, done, Returns, arith, ◌>>=◌,
}
use x_grey.Order.{strcmp, bytes_cmp}
use x_grey.Bisearch.{Item}
use x_grey.Sorted.{find_key, if_eq}
use x_grey.Sorted.Search.{Found, there, absent}
use x_grey.Sorted.Change.{set-IsAscending, find_key-set, find_key_there, find_key_absent, All-set}
use x_grey.EmailDomain.{Entry, EList, Counts, count_cmd, edomain_search, consult_found, consult}
use x_grey.EmailDomain.Update.{text_of, IsSorted, lookup, edomain_search-Found}

-- Every verdict is one of IFT_GREYLIST, IFT_ACCEPT and IFT_REJECT, as the counters want.
pub record IsSane (l : EList) : Type 0 where
  pub default : l.def_cmd < 3
  pub entries : All (λ (e : Entry). e.cmd < 3) l.items

abbrev pub total : Counts → ℕ
total c = c.greylist + c.accept + c.reject

-- The verdict that the list has for a text.
abbrev pub or_default : Option Entry → ℕ → ℕ
or_default none d = d
or_default (some e) d = e.cmd

abbrev pub is_some : Option Entry → Bool
is_some none = false
is_some (some e) = true

-- The counters of the verdicts, one of which has grown.
abbrev pub IsCounted : Counts → ℕ → Counts → Type 0
IsCounted c cmd c' =
    (c'.greylist ≡ c.greylist + (if cmd == 0 then 1 else 0))
    × ((c'.accept ≡ c.accept + (if cmd == 1 then 1 else 0))
        × (c'.reject ≡ c.reject + (if cmd == 2 then 1 else 0)))

-- An entry that was found once more.
abbrev pub one_more : Option Entry → Option Entry
one_more none = none
one_more (some e) = some (record e { count = e.count + 1 })

pub record IsConsulted (l : EList) (key : List ℕ) (r : EList × Bool × ℕ) : Type 0 where
  pub sorted : IsSorted r.0
  pub sane : IsSane r.0
  pub verdict : r.2 ≡ or_default (lookup key l) l.def_cmd
  pub found : r.1 ≡ is_some (lookup key l)
  pub in_range : r.2 < 3
  pub counted : total r.0.cmdcnt ≡ total l.cmdcnt + 1
  pub by_verdict : IsCounted l.cmdcnt r.2 r.0.cmdcnt
  pub entries :
      (j : List ℕ) → lookup j r.0 ≡ if_eq (strcmp j key) (one_more (lookup key l)) (lookup j l)
  pub by_default :
      (r.0.def_cmd ≡ l.def_cmd) × (r.0.def_count ≡ l.def_count + (if r.1 then 0 else 1))
  pub verdicts :
      (j : List ℕ) → or_default (lookup j r.0) r.0.def_cmd ≡ or_default (lookup j l) l.def_cmd

pub total-count_cmd :
    (c : Counts) (cmd : ℕ)
    → cmd < 3
    → (c' : Counts) × (count_cmd c cmd ≡ done c') × (total c' ≡ total c + 1) × IsCounted c cmd c'
unfolding count_cmd
total-count_cmd c zero h = (
  record c { greylist = c.greylist + 1 },
  ground arith,
  omega arith,
  (ground arith, (ground arith, ground arith)),
)
total-count_cmd c (suc zero) h = (
  record c { accept = c.accept + 1 },
  ground arith,
  omega arith,
  (ground arith, (ground arith, ground arith)),
)
total-count_cmd c (suc (suc zero)) h = (
  record c { reject = c.reject + 1 },
  ground arith,
  omega arith,
  (ground arith, (ground arith, ground arith)),
)
total-count_cmd c (suc (suc (suc n))) h = absurd (omega arith)

module _ (l : EList) (key : List ℕ) (s : IsSorted l) (v : IsSane l) where
  hit-IsConsulted :
      (i : ℕ) (a : Entry) (c : Counts)
      → get_elem? l.items i ≡ some a
      → text_of a ≡ key
      → total c ≡ total l.cmdcnt + 1
      → IsCounted l.cmdcnt a.cmd c
      → IsConsulted l key (
        record l { items = set l.items i (record a { count = a.count + 1 }); cmdcnt = c },
        true,
        a.cmd,
      )
  unfolding if_eq
  hit-IsConsulted i a c e q t n =
      let b : Entry = record a { count = a.count + 1 } in
      record {
        sorted = record {
          ascending = set-IsAscending bytes_cmp text_of i l.items a b e refl s.ascending;
          roomy = omega (arith, s.roomy, length-set l.items i b);
        };
        sane = record {
          default = v.default;
          entries =
              All-set (λ (e : Entry). e.cmd < 3) l.items i b
                (All-get (λ (e : Entry). e.cmd < 3) l.items i a v.entries e) v.entries;
        };
        verdict = ground (arith, find_key_there bytes_cmp text_of key i l.items a e q s.ascending);
        found = ground (arith, find_key_there bytes_cmp text_of key i l.items a e q s.ascending);
        in_range = All-get (λ (e : Entry). e.cmd < 3) l.items i a v.entries e;
        counted = t;
        by_verdict = n;
        entries = λ j. rw (find_key_there bytes_cmp text_of key i l.items a e q s.ascending) (
            subst
              (λ (k : List ℕ).
                lookup j (record l { items = set l.items i b })
                ≡ if_eq (strcmp j k) (some b) (lookup j l))
              q (find_key-set bytes_cmp text_of j i l.items a b e refl s.ascending));
        by_default = (refl, omega arith);
        verdicts = λ j. ground (
          arith,
          find_key-set bytes_cmp text_of j i l.items a b e refl s.ascending,
          find_key_there bytes_cmp text_of key i l.items a e q s.ascending,
          bytes_cmp.cmp_eq j (text_of a),
          q,
        );
      }

  miss-IsConsulted :
      (i : ℕ) (c : Counts)
      → find_key bytes_cmp text_of key l.items ≡ none
      → total c ≡ total l.cmdcnt + 1
      → IsCounted l.cmdcnt l.def_cmd c
      → IsConsulted l key (record l { def_count = l.def_count + 1; cmdcnt = c }, false, l.def_cmd)
  unfolding if_eq
  miss-IsConsulted i c e t n = record {
    sorted = record { ascending = s.ascending; roomy = s.roomy };
    sane = record { default = v.default; entries = v.entries };
    verdict = ground (arith, e);
    found = ground (arith, e);
    in_range = v.default;
    counted = t;
    by_verdict = n;
    entries = λ j. rw e (ground (arith, bytes_cmp.cmp_eq j key, e));
    by_default = (refl, refl);
    verdicts = λ j. refl;
  }

  consult_found-IsConsulted :
      (r : Run Item)
      → Found bytes_cmp text_of key l.items r
      → Returns (r >>= consult_found l) (IsConsulted l key)
  unfolding consult_found
  consult_found-IsConsulted r (there i a e q) =
      let (c, d, t, n) =
        total-count_cmd l.cmdcnt a.cmd
          (All-get (λ (e : Entry). e.cmd < 3) l.items i a v.entries e) in
      rw (e, consult_found) (rw d (hit-IsConsulted i a c e q t n))
  consult_found-IsConsulted r (absent i h g b) =
      let (c, d, t, n) = total-count_cmd l.cmdcnt l.def_cmd v.default in
      rw d (miss-IsConsulted i c (find_key_absent bytes_cmp text_of key i l.items g b) t n)

-- On a sorted list of sane verdicts a look-up returns the verdict of the entry with the text, or
-- the default if there is none, and says which; it counts that once, for
-- the verdict and for the entry or the default, and changes no verdict, no other entry and no other
-- count.
pub consult-IsConsulted :
    (l : EList) (key : List ℕ) → IsSorted l → IsSane l → Returns (consult l key) (IsConsulted l key)
unfolding consult
consult-IsConsulted l key s v =
    consult_found-IsConsulted l key s v (edomain_search key l) (edomain_search-Found key l s)
