-- ===== src/Pool/Left.antt =====
-- What the first loop of `tuple_expire` in server/tuple.c leaves to the second: the marks, the number
-- of the slots that have the flag, and the cells behind the entries that were in memory.
use x_grey.Prelude.{
  ℕ, ◌+◌, ◌≡◌, refl, sym, subst, ◌≢◌, List, arith, All, length, length-take, take, drop,
  take-append-drop, Returns, Returns-and, Returns-impl,
}
use x_grey.Pool.{Config, Pool, mark, expire_loop}
use x_grey.Pool.Search.{IsPool, Distinct, live}
use x_grey.Pool.Expire.{keep, IsSwept, expire_loop-IsSwept}
use x_grey.Pool.Free.{flagged}
use x_grey.Pool.Counting.{count_flagged-append, count_below}
use x_grey.Pool.Marks.{mark_all, mark_all_in, mark_all_out, expire_loop_marks}
use x_grey.Pool.Freed.{Distinct-parts}
use x_grey.Pool.Spare.{spare, freed, All-swap, count_flagged-congr, outside, count_gone}

module _ (c : Config) (now : ℕ) (s : Pool) (v : IsPool c s) where
  -- The state in which the first loop starts.
  abbrev pub written : Pool
  written = record s {
    tuples_write = s.tuples_write + 1;
    tuples_write_cucurrent = s.tuples_write_cucurrent + 1;
  }

  pub length-live : length (live s) ≡ s.poolnum
  length-live = omega (arith, length-take s.poolnum s.tuplespace, v.full, v.bounded)

  pub parts :
      Distinct (live s) × Distinct (spare s) × All (λ x. All (λ y. x ≢ y) (spare s)) (live s)
  parts =
      Distinct-parts (live s) (spare s)
        (subst Distinct (sym (take-append-drop s.poolnum s.tuplespace)) v.distinct)

  -- What the first loop leaves, from both of its lemmas.
  pub record IsLeft (r : Pool × ℕ) : Type 0 where
    pub swept : IsSwept c now written 0 (live s) r
    pub marked : All (λ x. r.0.pool x ≡ mark c now (s.pool x)) (live s)
    pub untouched : All (λ x. r.0.pool x ≡ s.pool x) (spare s)
    pub behind : drop s.poolnum r.0.tuplespace ≡ spare s

  pub first_loop : Returns (expire_loop c now s.poolnum 0 0 written) IsLeft
  first_loop =
      subst (λ (n : ℕ). Returns (expire_loop c now n 0 0 written) IsLeft) length-live
        (Returns-impl (expire_loop c now (length (live s)) 0 0 written) _ IsLeft
          (λ r (w, m). record {
            swept = w;
            marked = rw m.0 (mark_all_in c now s.pool (live s));
            untouched = rw m.0 (
                outside s.pool (mark_all c now s.pool (live s)) (live s) (spare s)
                  (mark_all_out c now s.pool (live s)) (All-swap (live s) (spare s) parts.2));
            behind = rw (none_before, length-live) at m.1;
          })
          (Returns-and (expire_loop c now (length (live s)) 0 0 written) _ _
            (expire_loop-IsSwept c now (live s) 0 0 written again (omega arith))
            (expire_loop_marks c now (live s) 0 0 written again (omega arith))))
    where
      again : take (length (live s)) s.tuplespace ≡ live s
      again = rw length-live refl

      none_before : 0 + length (live s) ≡ length (live s)
      none_before = omega arith

  module _ (r : Pool × ℕ) (w : IsLeft r) where
    abbrev kept : List ℕ
    kept = keep c now s.pool (live s)

    pub kept_number : r.1 ≡ length kept
    kept_number = omega (arith, w.swept.number)

    pub total : flagged r.0.pool 0 c.poolmax + length kept ≡ s.poolnum + freed s
    total =
        let all = (count_below r.0.pool c.poolmax s.tuplespace v.distinct v.slots).1 v.full in
        let split = count_flagged-append r.0.pool (live s) (spare s) in
        let gone = count_gone s.pool r.0.pool c now (live s) w.marked in
        let rest = count_flagged-congr s.pool r.0.pool (spare s) w.untouched in
        let whole = rw (take-append-drop s.poolnum s.tuplespace) at split in
        omega (arith, all, whole, gone, rest, length-live)
