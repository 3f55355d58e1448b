-- ===== src/Pool/Add.antt =====
-- `tuple_add` of server/tuple.c after `memcpy` into the next free slot: the pool stays in order and
-- has one tuple more.
use x_grey.Prelude.{
  ℕ, suc, ◌+◌, ◌≤◌, ◌<◌, Ordering, ◌≡◌, refl, sym, ap, subst, ◌∙◌, ◌≢◌, some, List, [], ◌∷◌, arith,
  All, All-get, get_elem?, take, drop, Returns, ltb, ◌==◌, lt→ltb, le→leb, All-take, All-drop,
  if◌then◌else◌, Bool-cases, inl, inr, ==_iff,
}
use x_grey.Sorted.{insert_at, look_key, IsAscending}
use x_grey.Sorted.Change.{insert-IsAscending}
use x_grey.Tuple.{Tuple}
use x_grey.Tuple.Key.{IsTuple, tuple_key, key_cmp}
use x_grey.Pool.{Config, Pool, update, open_gap, tuple_add}
use x_grey.Pool.Search.{slot_key, live, IsPool}
use native.Mathlib.Numerals.{add-one}
use x_grey.Pool.Gap.{
  All-congr, IsAscending-congr, gap-Distinct, gap-All, gap_low, gap_high, gap_length, fresh,
}

update_self : (pool : ℕ → Tuple) (slot : ℕ) (t : Tuple) → update pool slot t slot ≡ t
unfolding update
update_self pool slot t = ground arith

pub update_ne :
    (pool : ℕ → Tuple) (slot i : ℕ) (t : Tuple) → slot ≢ i → update pool slot t i ≡ pool i
unfolding update
update_ne pool slot i t h = ground arith

update-IsTuple :
    (pool : ℕ → Tuple) (slot : ℕ) (t : Tuple) (i : ℕ)
    → IsTuple t
    → IsTuple (pool i)
    → IsTuple (update pool slot t i)
unfolding update
update-IsTuple pool slot t i h g = elim (Bool-cases (i == slot)) [ inl e ↦ rw e h | inr e ↦ rw e g ]

-- What `memcpy` into the free slot `rec` and `tuple_add` make of a pool.
pub record IsAdded (c : Config) (s : Pool) (t : Tuple) (rec index : ℕ) (p : Pool) : Type 0 where
  pub in_order : IsPool c p
  pub number : p.poolnum ≡ s.poolnum + 1
  pub order : live p ≡ insert_at index rec (live s)
  pub spare : drop p.poolnum p.tuplespace ≡ drop (suc s.poolnum) s.tuplespace
  pub content : (i : ℕ) → p.pool i ≡ update s.pool rec t i
  pub high : p.poolnum ≤ p.tuples_high

module _ (c : Config) (s : Pool) (v : IsPool c s) (t : Tuple) (h : IsTuple t) (rec index : ℕ)
    (room : s.poolnum < c.poolmax) (free : get_elem? s.tuplespace s.poolnum ≡ some rec)
    (fits : index ≤ s.poolnum)
    (before : All
      (λ x. look_key key_cmp (slot_key s) (tuple_key t) x ≡ Ordering.gt)
      (take index (live s)))
    (behind : All
      (λ x. look_key key_cmp (slot_key s) (tuple_key t) x ≡ Ordering.lt)
      (drop index (live s))) where
  abbrev pub written : Pool
  written = record s { pool = update s.pool rec t }

  same_keys :
      (xs : List ℕ)
      → All (λ y. rec ≢ y) xs
      → All (λ x. slot_key s x ≡ tuple_key (update s.pool rec t x)) xs
  same_keys [] h = tt
  same_keys (x ∷ xs) h = (ap tuple_key (sym (update_ne s.pool rec x t h.0)), same_keys xs h.1)

  added : Pool
  added = record written {
    tuples_write = s.tuples_write + 1;
    tuples_write_cucurrent = s.tuples_write_cucurrent + 1;
    tuplespace = open_gap s.tuplespace s.poolnum index rec;
    poolnum = s.poolnum + 1;
    tuples_high = if ltb s.tuples_high (s.poolnum + 1) then s.poolnum + 1 else s.tuples_high;
  }

  added_order : live added ≡ insert_at index rec (live s)
  unfolding added
  added_order = rw (add-one s.poolnum) (gap_low s.tuplespace s.poolnum index rec free fits)

  added-IsAscending : IsAscending key_cmp (slot_key added) (live added)
  unfolding added
  added-IsAscending = subst (IsAscending key_cmp (slot_key added)) (sym added_order) (
      insert-IsAscending key_cmp (slot_key added) (tuple_key t) index rec (live s)
        (ap tuple_key (update_self s.pool rec t))
        (IsAscending-congr key_cmp (slot_key s) (slot_key added) (live s) keys v.ascending)
        (All-congr key_cmp (slot_key s) (slot_key added)
          (λ b. key_cmp.cmp (tuple_key t) b ≡ Ordering.gt) (take index (live s))
          (All-take _ index (live s) keys) before)
        (All-congr key_cmp (slot_key s) (slot_key added)
          (λ b. key_cmp.cmp (tuple_key t) b ≡ Ordering.lt) (drop index (live s))
          (All-drop _ index (live s) keys) behind))
    where
      keys : All (λ x. slot_key s x ≡ slot_key added x) (live s)
      keys = same_keys (live s) (fresh s.tuplespace s.poolnum index rec free fits v.distinct)

  added-IsPool : IsPool c added
  unfolding added
  added-IsPool = record {
    tuples = λ i. update-IsTuple s.pool rec t i h (v.tuples i);
    full = gap_length s.tuplespace s.poolnum index rec free fits ∙ v.full;
    bounded = omega arith;
    ascending = added-IsAscending;
    distinct = gap-Distinct s.tuplespace s.poolnum index rec free fits v.distinct;
    slots = gap-All s.tuplespace s.poolnum index rec free fits (λ x. x < c.poolmax) v.slots;
  }

  -- With room in the pool, at the place that a search for the tuple returned, writing the tuple to the
  -- next free slot and adding it returns; the pool stays in order, the slot stands at its place among
  -- the others, and the other slots hold what they held.
  pub tuple_add-IsAdded :
      t.pad ≡ 0xDECAFBAD → Returns (tuple_add c written rec index) (IsAdded c s t rec index)
  unfolding tuple_add added
  tuple_add-IsAdded pad =
      rw
        (
          lt→ltb s.poolnum c.poolmax room,
          le→leb index s.poolnum fits,
          lt→ltb rec c.poolmax
              (All-get (λ x. x < c.poolmax) s.tuplespace s.poolnum rec v.slots free),
          (==_iff (update s.pool rec t rec).pad 0xDECAFBAD).1
              (ap (λ (u : Tuple). u.pad) (update_self s.pool rec t) ∙ pad),
        )
        (record {
          in_order = added-IsPool;
          number = refl;
          order = added_order;
          spare = rw (add-one s.poolnum) (gap_high s.tuplespace s.poolnum index rec free fits);
          content = λ i. refl;
          high = ground arith;
        })
