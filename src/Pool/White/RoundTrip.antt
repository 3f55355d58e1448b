-- ===== src/Pool/White/RoundTrip.antt =====
-- server/tuple.c: the file of the triples that have passed, written by `whitelist_dump_stream` and
-- read again by `whitelist_load`.
use x_grey.Prelude.{
  ℕ, suc, ◌+◌, ◌≤◌, Ordering, ◌≡◌, refl, ap, sym, subst, ◌∙◌, some, Bool, true, false, List, [],
  ◌∷◌, ◌++◌, map, All, All-impl, All-and, length, length-take, take, arith, Returns, Returns-bind,
  Returns-impl, ◌>>=◌,
}
use mathlib.Core.List.{append_assoc, append-nil}
use x_grey.Sorted.{IsAscending}
use x_grey.Sorted.Last.{AreBefore, AreBefore-last}
use x_grey.Text.Trimmed.{starts, ends}
use x_grey.Tuple.{Tuple}
use x_grey.Tuple.Key.{IsTuple, tuple_key, key_cmp}
use x_grey.Pool.{Config, Pool}
use x_grey.Pool.Search.{IsPool, live}
use x_grey.Pool.White.{
  white_lines, white_entry, whitelist_dump_stream, load_lines, load_tuple, whitelist_load,
}
use x_grey.Pool.White.Told.{IsTold, reread}
use x_grey.Pool.White.Load.{entries, restored, IsLonger, before_slots, load_tuple-IsLonger}
use x_grey.Pool.White.Written.{
  passed_of, passed_of-All, passed_of-IsAscending, length-passed_of, AreLines, white_lines-AreLines,
}

module _ (empty_string : List ℕ → Bool) (trim_space : List ℕ → List ℕ) where
  -- What the two functions of cgilib6 do with a line that has no spaces before its text.
  pub record IsTrim : Type 0 where
    pub trims : (t : List ℕ) → starts t ≡ true → ends t ≡ true → trim_space (t ++ (10 ∷ [])) ≡ t
    pub has_text : (t : List ℕ) → starts t ≡ true → empty_string (t ++ (10 ∷ [])) ≡ false

  joined :
      (c : Config) (s s' r : Pool) (t : Tuple) (ts : List Tuple)
      → IsLonger c s (t ∷ []) s'
      → IsLonger c s' ts r
      → IsLonger c s (t ∷ ts) r
  joined c s s' r t ts g k = record {
    in_order = k.in_order;
    is_entries =
        k.is_entries
        ∙ ap (λ (us : List Tuple). us ++ ts) g.is_entries
        ∙ append_assoc (entries s) (t ∷ []) ts;
    number = omega (arith, k.number, g.number);
  }

  load_lines-IsLonger :
      (c : Config) (now clock : ℕ) (lines : List (List ℕ)) (ts : List Tuple) (s : Pool)
      → IsTrim
      → AreLines lines ts
      → IsPool c s
      → All IsTuple ts
      → IsAscending key_cmp tuple_key ts
      → All (λ t. AreBefore key_cmp tuple_key (tuple_key t) (entries s)) ts
      → s.poolnum + length ts ≤ c.poolmax
      → Returns
          (load_lines empty_string trim_space c now clock lines s)
          (IsLonger c s (map (restored now) ts))
  unfolding load_lines reread
  load_lines-IsLonger c now clock [] [] s trim taken v tuples up before room = record {
    in_order = v;
    is_entries = sym (append-nil (entries s));
    number = omega arith;
  }
  load_lines-IsLonger c now clock [] (t ∷ ts) s trim taken v tuples up before room = elim taken [ ]
  load_lines-IsLonger c now clock (l ∷ ls) [] s trim taken v tuples up before room = elim taken [ ]
  load_lines-IsLonger c now clock (l ∷ ls) (t ∷ ts) s trim (taken, more) v (tuple, tuples) (up, ups)
        (before, befores) room =
      let trimmed =
        ap trim_space taken.is_line ∙ trim.trims taken.body taken.begins taken.finishes in
      let there = ap empty_string taken.is_line ∙ trim.has_text taken.body taken.begins in
      let reads = ap (white_entry now) trimmed ∙ taken.reads now in
      rw (there, reads)
        (Returns-bind (load_tuple c now clock (reread now t) s) _ _ _
          (load_tuple-IsLonger c now clock t s v tuple (omega arith)
            (before_slots s.pool (tuple_key t) (live s) before))
          (λ s' g.
            Returns-impl _ _ _ (λ r k. joined c s s' r (restored now t) (map (restored now) ts) g k)
              (load_lines-IsLonger c now clock ls ts s' trim more g.in_order tuples ups
                (subst
                  (λ (us : List Tuple). All (λ x. AreBefore key_cmp tuple_key (tuple_key x) us) ts)
                  (sym g.is_entries)
                  (All-impl _ _ ts
                    (λ x m.
                      AreBefore-last key_cmp tuple_key (tuple_key x) (entries s) (restored now t)
                        m.1 (m.0))
                    (All-and _ _ ts up befores)))
                (omega (arith, g.number)))))

IsAscending-tuples :
    (pool : ℕ → Tuple) (xs : List ℕ)
    → IsAscending key_cmp (λ i. tuple_key (pool i)) xs
    → IsAscending key_cmp tuple_key (map pool xs)
IsAscending-tuples pool [] h = tt
IsAscending-tuples pool (x ∷ xs) h = (after xs h.0, IsAscending-tuples pool xs h.1)
  where
    after :
        (ys : List ℕ)
        → All (λ y. key_cmp.cmp (tuple_key (pool x)) (tuple_key (pool y)) ≡ Ordering.lt) ys
        → All (λ u. key_cmp.cmp (tuple_key (pool x)) (tuple_key u) ≡ Ordering.lt) (map pool ys)
    after [] k = tt
    after (y ∷ ys) k = (k.0, after ys k.1)

all_tuples :
    (pool : ℕ → Tuple) (xs : List ℕ) → ((i : ℕ) → IsTuple (pool i)) → All IsTuple (map pool xs)
all_tuples pool [] h = tt
all_tuples pool (x ∷ xs) h = (h x, all_tuples pool xs h)

length-map : (pool : ℕ → Tuple) (xs : List ℕ) → length (map pool xs) ≡ length xs
length-map pool [] = refl
length-map pool (x ∷ xs) = ap suc (length-map pool xs)

no_entries : (s : Pool) → s.poolnum ≡ 0 → entries s ≡ []
no_entries s h = ap (λ (n : ℕ). map s.pool (take n s.tuplespace)) h

nothing_before :
    (s : Pool) (ts : List Tuple)
    → entries s ≡ []
    → All (λ t. AreBefore key_cmp tuple_key (tuple_key t) (entries s)) ts
nothing_before s [] h = tt
nothing_before s (t ∷ ts) h =
    (subst (AreBefore key_cmp tuple_key (tuple_key t)) (sym h) tt, nothing_before s ts h)

-- A pool that has what was read of the tuples that have passed in another, and nothing else.
pub record IsReloaded (c : Config) (now : ℕ) (p r : Pool) : Type 0 where
  pub in_order : IsPool c r
  pub is_entries : entries r ≡ map (restored now) (passed_of (entries p))
  pub marks : (r.tuples_low ≡ r.poolnum) × (r.tuples_high ≡ r.poolnum)

-- Every tuple that has passed and stays is written to its file, with a line that tells it, and the
-- file is read to its end into a pool in order that has no tuple: that pool then has these tuples, in
-- their order, at the time of the reading, and no others, is in order, and both marks are their
-- number. The functions of cgilib6 do what `IsTrim` says.
pub whitelist_load-whitelist_dump_stream :
    (empty_string : List ℕ → Bool) (trim_space : List ℕ → List ℕ) (c : Config) (now clock : ℕ)
    (p s : Pool)
    → IsTrim empty_string trim_space
    → IsPool c p
    → All IsTold (passed_of (entries p))
    → IsPool c s
    → s.poolnum ≡ 0
    → Returns
        (whitelist_dump_stream p >>= λ lines.
          whitelist_load empty_string trim_space c now clock (some lines) s)
        (IsReloaded c now p)
unfolding whitelist_dump_stream whitelist_load
whitelist_load-whitelist_dump_stream empty_string trim_space c now clock p s trim v told vs empty =
    let us : List Tuple = passed_of (entries p) in
    let none_there = no_entries s empty in
    Returns-bind (white_lines p 0 p.poolnum) _ _ _
      (white_lines-AreLines p 0 p.poolnum (omega (arith, v.full, v.bounded)) told)
      (λ lines taken.
        Returns-bind (load_lines empty_string trim_space c now clock lines s) _ _ _
          (load_lines-IsLonger empty_string trim_space c now clock lines us s trim taken vs
            (passed_of-All IsTuple (entries p) (all_tuples p.pool (live p) v.tuples))
            (passed_of-IsAscending (entries p) (IsAscending-tuples p.pool (live p) v.ascending))
            (nothing_before s us none_there)
            (omega (
              arith,
              empty,
              length-passed_of (entries p),
              length-map p.pool (live p),
              length-take p.poolnum p.tuplespace,
              v.bounded,
            )))
          (λ r g. record {
            in_order = record {
              tuples = g.in_order.tuples;
              full = g.in_order.full;
              bounded = g.in_order.bounded;
              ascending = g.in_order.ascending;
              distinct = g.in_order.distinct;
              slots = g.in_order.slots;
            };
            is_entries =
                g.is_entries ∙ ap (λ (xs : List Tuple). xs ++ map (restored now) us) none_there;
            marks = (refl, refl);
          }))
