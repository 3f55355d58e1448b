-- ===== src/Pool/White/Written.antt =====
-- server/tuple.c: the lines that `whitelist_dump_stream` writes, one for each triple that has passed.
use x_grey.Prelude.{
  ℕ, zero, suc, ◌+◌, ◌≤◌, ◌≡◌, ap, sym, subst, ◌∙◌, some, Bool, ◌&&◌, not, List, [], ◌∷◌, ◌++◌, map,
  if◌then◌else◌, All, length, get_elem?, get_elem?_lt, take, drop, arith, Run, done, Returns,
  Returns-bind, Bool-cases, inl, inr, ◌>>=◌,
}
use native.Mathlib.Numerals.{add-one}
use x_grey.Sorted.{IsAscending}
use x_grey.Tuple.{Tuple}
use x_grey.Tuple.Key.{tuple_key, key_cmp}
use x_grey.Pool.{Pool}
use x_grey.Pool.Gap.{drop_next}
use x_grey.Pool.White.{white_line, white_lines}
use x_grey.Pool.White.Told.{IsTold, IsLineOf, white_line-body_of, body-IsLineOf}

-- A tuple that has passed and stays.
abbrev pub is_passed : Tuple → Bool
is_passed t = t.f.whitelist && not t.f.remove

abbrev pub passed_of : List Tuple → List Tuple
passed_of [] = []
passed_of (t ∷ ts) = if is_passed t then t ∷ passed_of ts else passed_of ts

pub passed_of-All : (P : Tuple → Type 0) (ts : List Tuple) → All P ts → All P (passed_of ts)
passed_of-All P [] h = tt
passed_of-All P (t ∷ ts) h = elim (Bool-cases (is_passed t)) [
  | inl e ↦ rw e (h.0, passed_of-All P ts h.1)
  | inr e ↦ rw e (passed_of-All P ts h.1)
]

pub passed_of-IsAscending :
    (ts : List Tuple)
    → IsAscending key_cmp tuple_key ts
    → IsAscending key_cmp tuple_key (passed_of ts)
passed_of-IsAscending [] h = tt
passed_of-IsAscending (t ∷ ts) h = elim (Bool-cases (is_passed t)) [
  | inl e ↦ rw e (passed_of-All _ ts h.0, passed_of-IsAscending ts h.1)
  | inr e ↦ rw e (passed_of-IsAscending ts h.1)
]

pub length-passed_of : (ts : List Tuple) → length (passed_of ts) ≤ length ts
length-passed_of [] = omega arith
length-passed_of (t ∷ ts) = ground (arith, length-passed_of ts)

-- Lines that are taken for these tuples, one each.
abbrev pub AreLines : List (List ℕ) → List Tuple → Type 0
AreLines [] [] = Unit
AreLines [] (t ∷ ts) = ⊥
AreLines (line ∷ lines) [] = ⊥
AreLines (line ∷ lines) (t ∷ ts) = IsLineOf line t × AreLines lines ts

-- The tuples of `n` places from `i` on.
abbrev pub span : Pool → ℕ → ℕ → List Tuple
span s i n = map s.pool (take n (drop i s.tuplespace))

one_line :
    (t : Tuple) (ts : List Tuple) (rest : Run (List (List ℕ)))
    → IsTold t
    → Returns rest (λ lines. AreLines lines ts)
    → Returns
        (white_line t >>= λ line. rest >>= λ lines. done ((line ++ (10 ∷ [])) ∷ lines))
        (λ lines. AreLines lines (t ∷ ts))
one_line t ts rest h k =
    subst
      (λ (r : Run (List ℕ)).
        Returns (r >>= λ line. rest >>= λ lines. done ((line ++ (10 ∷ [])) ∷ lines))
          (λ lines. AreLines lines (t ∷ ts)))
      (sym (white_line-body_of t h)) (Returns-bind rest _ _ _ k (λ lines g. (body-IsLineOf t h, g)))

white_lines_step :
    (s : Pool) (i n slot : ℕ)
    → get_elem? s.tuplespace i ≡ some slot
    → (All IsTold (passed_of (span s (i + 1) n))
        → Returns
            (white_lines s (i + 1) n)
            (λ lines. AreLines lines (passed_of (span s (i + 1) n))))
    → All IsTold (passed_of (s.pool slot ∷ span s (i + 1) n))
    → Returns
        (white_lines s i (suc n))
        (λ lines. AreLines lines (passed_of (s.pool slot ∷ span s (i + 1) n)))
unfolding white_lines
white_lines_step s i n slot e rest told =
    rw (e, Returns, white_lines)
      (elim (Bool-cases (is_passed (s.pool slot))) [
        | inl p ↦
            let both : All IsTold (s.pool slot ∷ passed_of (span s (i + 1) n)) = rw p at told in
            rw p (
              one_line (s.pool slot) (passed_of (span s (i + 1) n)) (white_lines s (i + 1) n) both.0
                (rest both.1))
        | inr p ↦
            let others : All IsTold (passed_of (span s (i + 1) n)) = rw p at told in
            rw p (rest others)
      ])

pub white_lines-AreLines :
    (s : Pool) (i n : ℕ)
    → i + n ≤ length s.tuplespace
    → All IsTold (passed_of (span s i n))
    → Returns (white_lines s i n) (λ lines. AreLines lines (passed_of (span s i n)))
unfolding white_lines
white_lines-AreLines s i zero h told = tt
white_lines-AreLines s i (suc n) h told =
    let (slot, e) = get_elem?_lt s.tuplespace i (omega arith) in
    let spanned : span s i (suc n) ≡ s.pool slot ∷ span s (i + 1) n =
      ap (λ (xs : List ℕ). map s.pool (take (suc n) xs)) (drop_next i s.tuplespace slot e)
      ∙ ap (λ (k : ℕ). s.pool slot ∷ span s k n) (sym (add-one i)) in
    subst
      (λ (us : List Tuple).
        All IsTold (passed_of us)
        → Returns (white_lines s i (suc n)) (λ lines. AreLines lines (passed_of us)))
      (sym spanned) (white_lines_step s i n slot e (white_lines-AreLines s (i + 1) n (omega arith)))
      told
