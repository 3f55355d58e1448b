-- ===== src/EmailDomain/Update.antt =====
-- `cmd_mcp_tofrom` of server/gld.c on one list: its entries, as a map from texts, and its default.
use x_grey.Prelude.{
  ℕ, ◌≤◌, ◌≡◌, refl, ap, subst, zero, suc, ◌>>=◌, Ordering, Option, none, some, Bool, true, false,
  List, [], ◌∷◌, ◌==◌, leb, if◌then◌else◌, length, take, get_elem?, set, Run, All, drop, length-set,
  le→leb, Returns, arith, Bool-cases, inl, inr,
}
use x_grey.Order.{strcmp, bytes_cmp}
use x_grey.Bisearch.{Item}
use x_grey.Sorted.{insert_at, remove_at, look_key, IsAscending, find_key, if_eq}
use x_grey.Sorted.Search.{get-lt-length, Found, there, absent, bisearch-Found}
use x_grey.Sorted.Change.{
  insert-IsAscending, remove-IsAscending, set-IsAscending, find_key-insert, find_key-remove,
  find_key-set, find_key_there, find_key_absent,
}
use x_grey.Protocol.{ift_remove}
use x_grey.EmailDomain.{
  Entry, EList, edomain_look, edomain_search, edomain_add, edomain_remove, update_list,
  update_found,
}

abbrev pub text_of : Entry → List ℕ
text_of e = e.text

-- Sorted by text, no text twice, and within its room.
pub record IsSorted (l : EList) : Type 0 where
  pub ascending : IsAscending bytes_cmp text_of l.items
  pub roomy : length l.items ≤ l.max

-- The entry that the list has for a text, by a walk.
abbrev pub lookup : List ℕ → EList → Option Entry
lookup key l = find_key bytes_cmp text_of key l.items

take_all : (xs : List Entry) → take (length xs) xs ≡ xs
take_all [] = refl
take_all (x ∷ xs) = ap (λ (r : List Entry). x ∷ r) (take_all xs)

pub edomain_search-Found :
    (key : List ℕ) (l : EList)
    → IsSorted l
    → Found bytes_cmp text_of key l.items (edomain_search key l)
unfolding edomain_search edomain_look
edomain_search-Found key l s = rw (take_all l.items) at (
    bisearch-Found bytes_cmp text_of key (length l.items) l.items (omega arith)
      (rw (take_all l.items) s.ascending))

-- The entry of the request's text afterwards: none after a removal, else the old one with the
-- verdict of the request and its count reset, or a new one.
unfoldable pub updated : Option Entry → Entry → Option Entry
updated old key =
    if key.cmd == ift_remove
    then none
    else some (elim old [ none ↦ key | some e ↦ record e { cmd = key.cmd; count = 0 } ])

pub record IsUpdated (l : EList) (key : Entry) (l' : EList) : Type 0 where
  pub sorted : IsSorted l'
  pub entries :
      (j : List ℕ)
      → lookup j l' ≡ if_eq (strcmp j key.text) (updated (lookup key.text l) key) (lookup j l)
  pub default : (l'.def_cmd ≡ l.def_cmd) × (l'.def_count ≡ l.def_count)

pub length-insert_at :
    (i : ℕ) (x : Entry) (xs : List Entry) → length (insert_at i x xs) ≡ suc (length xs)
length-insert_at zero x xs = refl
length-insert_at (suc i) x [] = refl
length-insert_at (suc i) x (y ∷ ys) = ap suc (length-insert_at i x ys)

length-remove_at : (i : ℕ) (xs : List Entry) → length (remove_at i xs) ≤ length xs
length-remove_at i [] = omega arith
length-remove_at zero (x ∷ xs) = omega arith
length-remove_at (suc i) (x ∷ xs) = omega (arith, length-remove_at i xs)

module _ (l : EList) (key : Entry) (s : IsSorted l) where
  module _ (i : ℕ) (a : Entry) (e : get_elem? l.items i ≡ some a) (q : text_of a ≡ key.text) where
    removed :
        (key.cmd == ift_remove) ≡ true → IsUpdated l key (record l { items = remove_at i l.items })
    unfolding updated
    removed b = record {
      sorted = record {
        ascending = remove-IsAscending bytes_cmp text_of i l.items s.ascending;
        roomy = omega (arith, s.roomy, length-remove_at i l.items);
      };
      entries = λ j. rw b (rw q at (find_key-remove bytes_cmp text_of j i l.items a e s.ascending));
      default = (refl, refl);
    }

    overwritten :
        (key.cmd == ift_remove) ≡ false
        → IsUpdated l key
            (record l { items = set l.items i (record a { cmd = key.cmd; count = 0 }) })
    unfolding updated
    overwritten b =
        let v : Entry = record a { cmd = key.cmd; count = 0 } in
        record {
          sorted = record {
            ascending = set-IsAscending bytes_cmp text_of i l.items a _ e refl s.ascending;
            roomy =
                omega
                  (arith, s.roomy, length-set l.items i (record a { cmd = key.cmd; count = 0 }));
          };
          entries = λ j.
              rw (b, find_key_there bytes_cmp text_of key.text i l.items a e q s.ascending)
                (subst
                  (λ (t : List ℕ).
                    lookup j (record l { items = set l.items i v })
                    ≡ if_eq (strcmp j t) (some v) (lookup j l))
                  q (find_key-set bytes_cmp text_of j i l.items a v e refl s.ascending));
          default = (refl, refl);
        }

    inside :
        (leb i (length l.items) ≡ true)
        × ((length l.items == 0) ≡ false)
        × ((length l.items == i) ≡ false)
    inside = ground (arith, get-lt-length l.items i a e)

  module _ (i : ℕ) (h : i ≤ length l.items)
      (g : All (λ a. look_key bytes_cmp text_of key.text a ≡ Ordering.gt) (take i l.items))
      (b : All (λ a. look_key bytes_cmp text_of key.text a ≡ Ordering.lt) (drop i l.items)) where
    untouched : (key.cmd == ift_remove) ≡ true → IsUpdated l key l
    unfolding updated if_eq
    untouched r = record {
      sorted = s;
      entries = λ j. rw r (
          ground (
            arith,
            bytes_cmp.cmp_eq j key.text,
            find_key_absent bytes_cmp text_of key.text i l.items g b,
          ));
      default = (refl, refl);
    }

    added :
        (key.cmd == ift_remove) ≡ false
        → (m : ℕ) → suc (length l.items) ≤ m
        → IsUpdated l key (record l { items = insert_at i key l.items; max = m })
    unfolding updated
    added r m p = record {
      sorted = record {
        ascending =
            insert-IsAscending bytes_cmp text_of key.text i key l.items refl s.ascending g b;
        roomy = omega (arith, length-insert_at i key l.items);
      };
      entries = λ j.
          rw (r, find_key_absent bytes_cmp text_of key.text i l.items g b)
            (find_key-insert bytes_cmp text_of j key.text i key l.items refl g);
      default = (refl, refl);
    }

  update_found-IsUpdated :
      (r : Run Item)
      → Found bytes_cmp text_of key.text l.items r
      → Returns (r >>= update_found l key) (IsUpdated l key)
  unfolding update_found edomain_add edomain_remove
  update_found-IsUpdated r (there i a e q) = elim (Bool-cases (key.cmd == ift_remove)) [
    | inl b ↦ rw (b, (inside i a e q).0, (inside i a e q).1, (inside i a e q).2) (removed i a e q b)
    | inr b ↦ rw (b, e) (overwritten i a e q b)
  ]
  update_found-IsUpdated r (absent i h g b) = elim (Bool-cases (key.cmd == ift_remove)) [
    | inl c ↦ rw c (untouched i h g b c)
    | inr c ↦ rw (c, le→leb i (length l.items) h) (added i h g b c _ (ground (arith, s.roomy)))
  ]

-- The default after a request that names it: a removal leaves it.
abbrev pub default_of : EList → Entry → ℕ × ℕ
default_of l key = if key.cmd == ift_remove then (l.def_cmd, l.def_count) else (key.cmd, key.count)

-- A request changes the entry of its text, or the default if its text names that.
abbrev pub IsRequested : EList → Bool → Entry → EList → Type 0
IsRequested l true key l' =
    IsSorted l' × ((l'.items ≡ l.items) × ((l'.def_cmd, l'.def_count) ≡ default_of l key))
IsRequested l false key l' = IsUpdated l key l'

-- A request on a sorted list returns a sorted list. If the flag says that its text names the default,
-- the entries stay, and the default takes the verdict and the count of the request, except that a
-- removal leaves it. If not, the entry of its text is taken away, given its verdict with the count
-- reset, or made, and every other text and the default keep what they had.
pub update_list-IsRequested :
    (l : EList) (def : Bool) (key : Entry)
    → IsSorted l
    → Returns (update_list l def key) (IsRequested l def key)
unfolding update_list
update_list-IsRequested l true key s = elim (Bool-cases (key.cmd == ift_remove)) [
  | inl e ↦ rw e (s, (refl, refl))
  | inr e ↦ rw e (record { ascending = s.ascending; roomy = s.roomy }, (refl, refl))
]
update_list-IsRequested l false key s =
    update_found-IsUpdated l key s (edomain_search key.text l) (edomain_search-Found key.text l s)
