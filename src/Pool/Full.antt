-- ===== src/Pool/Full.antt =====
-- `tuple_allocate` of server/tuple.c once the pool is full.
use x_grey.Prelude.{
  ℕ, zero, suc, ◌+◌, ◌≤◌, ◌<◌, ◌≡◌, refl, ◌∙◌, some, false, arith, All, length, get_elem?, Run,
  done, abort, Returns, ◌>>=◌, ◌==◌, le→leb, if◌then◌else◌, Bool-cases, inl, inr, All-drop, ==_iff,
  Returns-bind, length-drop, Bool, true, ltb, ltb→lt,
}
use x_grey.Tuple.Key.{IsTuple}
use x_grey.Pool.{
  Config, Pool, tuple_allocate, tuple_expire, next_slot, count_from, expire_loop, free_loop,
  watermarks,
}
use x_grey.Pool.Search.{IsPool, live}
use x_grey.Pool.Expire.{keep, keep-length}
use x_grey.Pool.Free.{flagged}
use x_grey.Pool.Counting.{length-count_from, count_from_high, count_from-Distinct}
use x_grey.Pool.Left.{written, length-live, IsLeft, first_loop, kept_number, total}
use x_grey.Pool.Purge.{tuple_expire_full}
use x_grey.Pool.Spare.{spare, freed, IsTidy, count_le, count_none}

-- Nothing has the flag, so that the second loop does nothing.
free_loop_none :
    (c : Config) (n i j : ℕ) (s : Pool)
    → flagged s.pool i n ≡ 0
    → (free_loop c n i j s ≡ done s) × All (λ x. (s.pool x).f.remove ≡ false) (count_from i n)
unfolding free_loop flagged count_from
free_loop_none c zero i j s h = (refl, tt)
free_loop_none c (suc n) i j s h = elim (Bool-cases (s.pool i).f.remove) [
  | inl f ↦ absurd (omega (arith, (rw f at h)))
  | inr f ↦ let ih = free_loop_none c n (i + 1) j s (rw f at h) in (rw f ih.0, (f, ih.1))
]

first_slot : (n : ℕ) → 0 < n → get_elem? (count_from 0 n) 0 ≡ some 0
unfolding count_from
first_slot zero h = absurd (omega arith)
first_slot (suc n) h = refl

-- The pool starts over: no entry, and each slot unused.
pub record IsReset (c : Config) (r : Pool × ℕ) : Type 0 where
  pub in_order : IsPool c r.0
  pub tidy : IsTidy r.0
  pub empty : r.0.poolnum ≡ 0
  pub none_freed : freed r.0 ≡ 0
  pub slot : r.1 ≡ 0

-- What `tuple_allocate` does on a full pool, by whether an entry goes.
abbrev pub IsFullAnswer : Config → Bool → Run (Pool × ℕ) → Type 0
IsFullAnswer c true r = r ≡ abort
IsFullAnswer c false r = Returns r (IsReset c)

not_fewer : (a b : ℕ) → ltb a b ≡ false → a ≤ b → a ≡ b
not_fewer a b h k = ground arith

module _ (c : Config) (now : ℕ) (s : Pool) (v : IsPool c s) (full : s.poolnum ≡ c.poolmax) where
  none_spare : freed s ≡ 0
  none_spare = omega (arith, count_le s.pool (spare s), length-drop s.poolnum s.tuplespace, v.full)

  -- What follows the sweep.
  start_over : Pool → Run (Pool × ℕ)
  start_over r = next_slot (
      if r.poolnum == c.poolmax
      then record r { poolnum = 0; tuples_low = 0; tuplespace = count_from 0 c.poolmax }
      else r)

  sweep_first : tuple_allocate c now s ≡ (tuple_expire c now s >>= start_over)
  unfolding tuple_allocate start_over
  sweep_first = rw (le→leb s.poolnum c.poolmax v.bounded, (==_iff s.poolnum c.poolmax).1 full) refl

  -- If an entry goes, the sweep aborts.
  pub tuple_allocate_gone :
      length (keep c now s.pool (live s)) < s.poolnum → tuple_allocate c now s ≡ abort
  tuple_allocate_gone gone =
      sweep_first ∙ rw (tuple_expire_full c now s v (omega arith) (omega arith)) refl

  -- What a sweep leaves that finds nothing to remove.
  record IsIdle (r : Pool) : Type 0 where
    still_full : r.poolnum ≡ c.poolmax
    tuples : (x : ℕ) → IsTuple (r.pool x)
    unflagged : All (λ x. (r.pool x).f.remove ≡ false) (count_from 0 c.poolmax)

  module _ (all : length (keep c now s.pool (live s)) ≡ s.poolnum) where
    tuple_expire-IsIdle : Returns (tuple_expire c now s) IsIdle
    unfolding tuple_expire watermarks
    tuple_expire-IsIdle =
        Returns-bind (expire_loop c now s.poolnum 0 0 (written c now s v)) _ (IsLeft c now s v)
          IsIdle (first_loop c now s v)
          (λ r w.
            let sum = total c now s v r w in
            let number = kept_number c now s v r w in
            let t : Pool = record r.0 { poolnum = r.1 } in
            let rest = free_loop_none c c.poolmax 0 r.1 t (omega (arith, none_spare)) in
            rw rest.0 (record {
              still_full = omega arith;
              tuples = λ x. w.swept.tuples x (v.tuples x);
              unflagged = rest.1;
            }))

    start_over-IsReset : (r : Pool) → 0 < c.poolmax → IsIdle r → Returns (start_over r) (IsReset c)
    unfolding start_over next_slot
    start_over-IsReset r some_slot w = rw ((==_iff r.poolnum c.poolmax).1 w.still_full) (
        rw (first_slot c.poolmax some_slot, next_slot)
          (record {
            in_order = record {
              tuples = w.tuples;
              full = length-count_from 0 c.poolmax;
              bounded = omega arith;
              ascending = tt;
              distinct = count_from-Distinct 0 c.poolmax;
              slots = count_from_high 0 c.poolmax c.poolmax (omega arith);
            };
            tidy = All-drop _ _ _ w.unflagged;
            empty = refl;
            none_freed = count_none r.pool (count_from 0 c.poolmax) w.unflagged;
            slot = refl;
          }))

    -- If every entry stays, the pool starts over.
    pub tuple_allocate_stays : 0 < c.poolmax → Returns (tuple_allocate c now s) (IsReset c)
    tuple_allocate_stays some_slot = rw sweep_first (
        Returns-bind (tuple_expire c now s) start_over IsIdle (IsReset c) tuple_expire-IsIdle
          (λ r w. start_over-IsReset r some_slot w))

  -- With a full pool of at least one slot, `tuple_allocate` aborts if an entry has expired or was
  -- removed; if none has, it returns the first slot of a pool without entries, which is in order and
  -- has no freed slot.
  pub tuple_allocate_full :
      0 < c.poolmax
      → IsFullAnswer c
          (ltb (length (keep c now s.pool (live s))) s.poolnum)
          (tuple_allocate c now s)
  tuple_allocate_full some_slot =
      let kept = length (keep c now s.pool (live s)) in
      let most = keep-length c now s.pool (live s) in
      elim (Bool-cases (ltb kept s.poolnum)) [
        | inl fewer ↦ rw fewer (tuple_allocate_gone (ltb→lt kept s.poolnum fewer))
        | inr all ↦ rw all (
            tuple_allocate_stays
              (not_fewer kept s.poolnum all (omega (arith, most, length-live c now s v))) some_slot)
      ]
