-- ===== src/Pool/Free.antt =====
-- The second loop of `tuple_expire` in server/tuple.c, which gives the slots of the entries that go
-- to the end of `g_tuplespace`. Its assertion on `j` stands after the increment.
use x_grey.Prelude.{
  ℕ, zero, suc, ◌+◌, ◌≤◌, ◌<◌, ◌≡◌, refl, ◌∙◌, false, arith, length, length-set, set, take, abort,
  Returns, Returns-impl, if◌then◌else◌, Bool-cases, inl, inr, lt→ltb, ltb→lt, ltb,
}
use x_grey.Tuple.{Tuple}
use x_grey.Pool.{Config, Pool, free_loop}
use x_grey.Pool.Cells.{take-set_below}

-- The slots from `i` on, `n` of them, that have the flag `F_REMOVE`.
unfoldable pub flagged : (ℕ → Tuple) → ℕ → ℕ → ℕ
flagged pool i zero = 0
flagged pool i (suc n) =
    let rest = flagged pool (i + 1) n in if (pool i).f.remove then rest + 1 else rest

-- What the loop changes: the cells from `j` on.
pub record IsFreed (s : Pool) (j : ℕ) (r : Pool) : Type 0 where
  pub only_cells : r ≡ record s { tuplespace = r.tuplespace }
  pub front : (k : ℕ) → k ≤ j → take k r.tuplespace ≡ take k s.tuplespace
  pub size : length r.tuplespace ≡ length s.tuplespace

not_lt : (a b : ℕ) → b ≤ a → ltb a b ≡ false
not_lt a b h = ground arith

module _ (c : Config) where
  -- With a cell left after those that it writes, the loop returns, and changes nothing but cells
  -- from `j` on.
  pub free_loop-IsFreed :
      (n i j : ℕ) (s : Pool)
      → length s.tuplespace ≡ c.poolmax
      → j + flagged s.pool i n < c.poolmax
      → Returns (free_loop c n i j s) (IsFreed s j)
  unfolding free_loop flagged
  free_loop-IsFreed zero i j s e h = record { only_cells = refl; front = λ k g. refl; size = refl }
  free_loop-IsFreed (suc n) i j s e h = elim (Bool-cases (s.pool i).f.remove) [
    | inr f ↦ rw f (free_loop-IsFreed n (i + 1) j s e (rw f at h))
    | inl f ↦
        let h' : j + (flagged s.pool (i + 1) n + 1) < c.poolmax = rw f at h in
        let s' : Pool = record s { tuplespace = set s.tuplespace j i } in
        rw (f, lt→ltb j (length s.tuplespace) (omega arith), lt→ltb (j + 1) c.poolmax (omega arith))
          (Returns-impl (free_loop c n (i + 1) (j + 1) s') (IsFreed s' (j + 1)) (IsFreed s j)
            (λ r w. record {
              only_cells = w.only_cells;
              front = λ k g. w.front k (omega arith) ∙ take-set_below s.tuplespace j k i g;
              size = w.size ∙ length-set s.tuplespace j i;
            })
            (free_loop-IsFreed n (i + 1) (j + 1) s' (length-set s.tuplespace j i ∙ e)
              (omega arith)))
  ]

  -- With at least one flagged slot and no cell left after those to write, the loop aborts.
  pub free_loop_full :
      (n i j : ℕ) (s : Pool)
      → length s.tuplespace ≡ c.poolmax
      → 0 < flagged s.pool i n
      → c.poolmax ≤ j + flagged s.pool i n
      → free_loop c n i j s ≡ abort
  unfolding free_loop flagged
  free_loop_full zero i j s e h k = absurd (omega arith)
  free_loop_full (suc n) i j s e h k = elim (Bool-cases (s.pool i).f.remove) [
    | inr f ↦ rw f (free_loop_full n (i + 1) j s e (rw f at h) (rw f at k))
    | inl f ↦
        let k' : c.poolmax ≤ j + (flagged s.pool (i + 1) n + 1) = rw f at k in
        let s' : Pool = record s { tuplespace = set s.tuplespace j i } in
        rw f (elim (Bool-cases (ltb j (length s.tuplespace))) [
          | inr out ↦ rw out refl
          | inl a ↦ elim (Bool-cases (ltb (j + 1) c.poolmax)) [
            | inr out ↦ rw (a, out) refl
            | inl b ↦
                let more : j + 1 < c.poolmax = ltb→lt (j + 1) c.poolmax b in
                rw (a, b)
                  (free_loop_full n (i + 1) (j + 1) s' (length-set s.tuplespace j i ∙ e)
                    (omega arith) (omega arith))
          ]
        ])
  ]
