-- ===== src/Pool/Marks.antt =====
-- The first loop of `tuple_expire` in server/tuple.c: which slots it marks, and the cells that it
-- leaves alone.
use x_grey.Prelude.{
  ℕ, suc, ◌+◌, ◌≤◌, ◌≡◌, refl, sym, ◌∙◌, ◌≢◌, inl, inr, Bool, true, false, List, [], ◌∷◌, arith,
  All, length, set, take, drop, Returns, Returns-impl, Bool-cases, ◌==◌, ==_iff,
}
use native.Mathlib.Numerals.{add-one}
use x_grey.Tuple.{Tuple}
use x_grey.Pool.{Config, Pool, update, mark, is_expired, count_removed, expire_loop}
use x_grey.Pool.Room.{update_here}
use x_grey.Pool.Cells.{drop-set, first_cell}

module _ (c : Config) (now : ℕ) where
  -- The pool after the entries at some slots have been marked.
  unfoldable pub mark_all : (ℕ → Tuple) → List ℕ → ℕ → Tuple
  mark_all pool [] = pool
  mark_all pool (x ∷ xs) = mark_all (update pool x (mark c now (pool x))) xs

  mark-mark : (t : Tuple) → mark c now (mark c now t) ≡ mark c now t
  unfolding mark is_expired
  mark-mark t = ground arith

  mark-update :
      (pool : ℕ → Tuple) (x y : ℕ)
      → mark c now (update pool x (mark c now (pool x)) y) ≡ mark c now (pool y)
  unfolding update
  mark-update pool x y = elim (Bool-cases (y == x)) [
    | inl e ↦ let same : y ≡ x = (==_iff y x).0 e in rw (e, same) (mark-mark (pool x))
    | inr e ↦ rw e refl
  ]

  -- A mark at one slot changes none that has its mark.
  update_fixed :
      (pool : ℕ → Tuple) (x y : ℕ)
      → mark c now (pool y) ≡ pool y
      → update pool x (mark c now (pool x)) y ≡ pool y
  unfolding update
  update_fixed pool x y h = elim (Bool-cases (y == x)) [
    | inl e ↦ rw (e, sym ((==_iff y x).0 e)) h
    | inr e ↦ rw e refl
  ]

  mark_all_fixed :
      (pool : ℕ → Tuple) (xs : List ℕ) (y : ℕ)
      → mark c now (pool y) ≡ pool y
      → mark_all pool xs y ≡ pool y
  unfolding mark_all
  mark_all_fixed pool [] y h = refl
  mark_all_fixed pool (x ∷ xs) y h =
      let same = update_fixed pool x y h in
      mark_all_fixed (update pool x (mark c now (pool x))) xs y
        (mark-update pool x y ∙ h ∙ sym same)
      ∙ same

  All-marks :
      (p q r : ℕ → Tuple) (xs : List ℕ)
      → ((x : ℕ) → mark c now (q x) ≡ mark c now (r x))
      → All (λ x. p x ≡ mark c now (q x)) xs
      → All (λ x. p x ≡ mark c now (r x)) xs
  All-marks p q r [] e h = tt
  All-marks p q r (x ∷ xs) e h = (h.0 ∙ e x, All-marks p q r xs e h.1)

  -- An entry of the list is marked once, however often it is met.
  pub mark_all_in :
      (pool : ℕ → Tuple) (xs : List ℕ) → All (λ x. mark_all pool xs x ≡ mark c now (pool x)) xs
  unfolding mark_all
  mark_all_in pool [] = tt
  mark_all_in pool (x ∷ xs) =
      let pool' = update pool x (mark c now (pool x)) in
      let here : pool' x ≡ mark c now (pool x) = update_here pool x (mark c now (pool x)) in
      (
        mark_all_fixed pool' xs x (mark-update pool x x ∙ sym here) ∙ here,
        All-marks (mark_all pool' xs) pool' pool xs (mark-update pool x) (mark_all_in pool' xs),
      )

  pub mark_all_out :
      (pool : ℕ → Tuple) (xs : List ℕ) (y : ℕ) → All (λ x. x ≢ y) xs → mark_all pool xs y ≡ pool y
  unfolding mark_all update
  mark_all_out pool [] y h = refl
  mark_all_out pool (x ∷ xs) y h =
      mark_all_out (update pool x (mark c now (pool x))) xs y h.1 ∙ ground (arith, h.0, ==_iff y x)

  count_removed_rest :
      (s : Pool) (b : Bool)
      → ((count_removed s b).pool ≡ s.pool) × ((count_removed s b).tuplespace ≡ s.tuplespace)
  unfolding count_removed
  count_removed_rest s true = (refl, refl)
  count_removed_rest s false = (refl, refl)

  -- The pool and the cells behind those that were read.
  pub expire_loop_marks :
      (rest : List ℕ) (i j : ℕ) (s : Pool)
      → take (length rest) (drop i s.tuplespace) ≡ rest
      → j ≤ i
      → Returns (expire_loop c now (length rest) i j s) (λ r.
        (r.0.pool ≡ mark_all s.pool rest)
        × (drop (i + length rest) r.0.tuplespace ≡ drop (i + length rest) s.tuplespace))
  unfolding expire_loop mark_all
  expire_loop_marks [] i j s h le = (refl, refl)
  expire_loop_marks (x ∷ rest) i j s h le =
      let (e, h', inside) = first_cell s.tuplespace i x rest h in
      let marked : Pool = record s { pool = update s.pool x (mark c now (s.pool x)) } in
      let white : Bool = (mark c now (s.pool x)).f.whitelist in
      let all : i + suc (length rest) ≡ i + 1 + length rest = omega arith in
      rw (e, expire_loop, all)
        (elim (Bool-cases (mark c now (s.pool x)).f.remove) [
          | inl gone ↦ rw gone (
              let same = count_removed_rest marked white in
              Returns-impl (expire_loop c now (length rest) (i + 1) j (count_removed marked white))
                _ _ (λ r w. (w.0 ∙ rw same.0 refl, w.1 ∙ rw same.1 refl))
                (expire_loop_marks rest (i + 1) j (count_removed marked white)
                  (rw (same.1, add-one i) h') (omega arith)))
          | inr stay ↦ rw stay (
              let s' : Pool = record marked { tuplespace = set s.tuplespace j x } in
              Returns-impl (expire_loop c now (length rest) (i + 1) (j + 1) s') _ _
                (λ r w. (w.0, w.1 ∙ drop-set s.tuplespace j (i + 1 + length rest) x (omega arith)))
                (expire_loop_marks rest (i + 1) (j + 1) s'
                  (rw (add-one i, drop-set s.tuplespace j (suc i) x (omega arith)) h')
                  (omega arith)))
        ])
