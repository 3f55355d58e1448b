-- ===== src/Pool/Freed.antt =====
-- The second loop of `tuple_expire` in server/tuple.c: the array that it leaves, and lists of slots
-- that do not meet.
use x_grey.Prelude.{
  ℕ, zero, suc, ◌+◌, ◌≤◌, ◌<◌, ◌≡◌, refl, ◌∙◌, ◌≢◌, inl, inr, Bool, true, List, [], ◌∷◌, ◌++◌,
  arith, All, length, length-set, set, take, drop, take-append-drop, done, lt→ltb, if◌then◌else◌,
  Bool-cases,
}
use mathlib.Core.List.{append_assoc}
use native.Mathlib.Numerals.{add-one}
use x_grey.Tuple.{Tuple}
use x_grey.Pool.{Config, Pool, free_loop}
use x_grey.Pool.Cells.{drop-set, take-set}
use x_grey.Pool.Free.{flagged}
use x_grey.Pool.Search.{Distinct}
use x_grey.Pool.Gap.{All-append, All-left, All-right}

-- The slots from `i` on, `n` of them, that have the flag.
unfoldable pub flagged_slots : (ℕ → Tuple) → ℕ → ℕ → List ℕ
flagged_slots pool i zero = []
flagged_slots pool i (suc n) =
    let rest = flagged_slots pool (i + 1) n in if (pool i).f.remove then i ∷ rest else rest

pub length-flagged_slots :
    (pool : ℕ → Tuple) (i n : ℕ) → length (flagged_slots pool i n) ≡ flagged pool i n
unfolding flagged_slots flagged
length-flagged_slots pool i zero = refl
length-flagged_slots pool i (suc n) = ground (arith, length-flagged_slots pool (i + 1) n)

pub flagged_slots-All :
    (P : ℕ → Type 0) (pool : ℕ → Tuple) (i n : ℕ)
    → ((x : ℕ) → i ≤ x → x < i + n → (pool x).f.remove ≡ true → P x)
    → All P (flagged_slots pool i n)
unfolding flagged_slots
flagged_slots-All P pool i zero h = tt
flagged_slots-All P pool i (suc n) h =
    let ih = flagged_slots-All P pool (i + 1) n (λ x a b f. h x (omega arith) (omega arith) f) in
    elim (Bool-cases (pool i).f.remove) [
      | inl f ↦ rw f (h i (omega arith) (omega arith) f, ih)
      | inr f ↦ rw f ih
    ]

pub flagged_slots-Distinct : (pool : ℕ → Tuple) (i n : ℕ) → Distinct (flagged_slots pool i n)
unfolding flagged_slots
flagged_slots-Distinct pool i zero = tt
flagged_slots-Distinct pool i (suc n) =
    let ih = flagged_slots-Distinct pool (i + 1) n in
    elim (Bool-cases (pool i).f.remove) [
      | inl f ↦ rw f (flagged_slots-All _ pool (i + 1) n (λ x a b g e. omega (arith, e)), ih)
      | inr f ↦ rw f ih
    ]

-- With a cell left after those that it writes, the loop puts the flagged slots behind the first `j`.
pub free_loop-flagged_slots :
    (c : Config) (n i j : ℕ) (s : Pool)
    → length s.tuplespace ≡ c.poolmax
    → j + flagged s.pool i n < c.poolmax
    → free_loop c n i j s
      ≡ done (record s {
        tuplespace =
            take j s.tuplespace
            ++ (flagged_slots s.pool i n ++ drop (j + flagged s.pool i n) s.tuplespace);
      })
unfolding free_loop flagged flagged_slots
free_loop-flagged_slots c zero i j s e h =
    let at_end : j + 0 ≡ j = omega arith in rw (at_end, take-append-drop j s.tuplespace) refl
free_loop-flagged_slots c (suc n) i j s e h = elim (Bool-cases (s.pool i).f.remove) [
  | inr f ↦ rw f (free_loop-flagged_slots c n (i + 1) j s e (rw f at h))
  | inl f ↦
      let h' : j + (flagged s.pool (i + 1) n + 1) < c.poolmax = rw f at h in
      let s' : Pool = record s { tuplespace = set s.tuplespace j i } in
      let inside : j < length s.tuplespace = omega arith in
      let later : j + (flagged s.pool (i + 1) n + 1) ≡ j + 1 + flagged s.pool (i + 1) n =
        omega arith in
      rw (f, lt→ltb j (length s.tuplespace) inside, lt→ltb (j + 1) c.poolmax (omega arith))
        (free_loop-flagged_slots c n (i + 1) (j + 1) s' (length-set s.tuplespace j i ∙ e)
            (omega arith)
          ∙ rw
              (
                later,
                add-one j,
                take-set s.tuplespace j i inside,
                drop-set s.tuplespace j (suc j + flagged s.pool (i + 1) n) i (omega arith),
                append_assoc (take j s.tuplespace) (i ∷ []),
              )
              refl)
]

-- Lists that do not meet.
pub Distinct-append :
    (xs ys : List ℕ)
    → Distinct xs
    → Distinct ys
    → All (λ x. All (λ y. x ≢ y) ys) xs
    → Distinct (xs ++ ys)
Distinct-append [] ys h k apart = k
Distinct-append (x ∷ xs) ys h k apart =
    (All-append _ xs ys h.0 apart.0, Distinct-append xs ys h.1 k apart.1)

pub Distinct-parts :
    (xs ys : List ℕ)
    → Distinct (xs ++ ys)
    → Distinct xs × Distinct ys × All (λ x. All (λ y. x ≢ y) ys) xs
Distinct-parts [] ys h = (tt, h, tt)
Distinct-parts (x ∷ xs) ys h =
    let r = Distinct-parts xs ys h.1 in
    ((All-left _ xs ys h.0, r.0), r.1, (All-right _ xs ys h.0, r.2))

-- Two lists told apart by the flag.
pub flags_apart :
    (pool : ℕ → Tuple) (b : Bool) (xs ys : List ℕ)
    → All (λ x. (pool x).f.remove ≡ b) xs
    → All (λ y. (pool y).f.remove ≢ b) ys
    → All (λ x. All (λ y. x ≢ y) ys) xs
flags_apart pool b [] ys h k = tt
flags_apart pool b (x ∷ xs) ys h k = (one ys k, flags_apart pool b xs ys h.1 k)
  where
    one : (zs : List ℕ) → All (λ y. (pool y).f.remove ≢ b) zs → All (λ y. x ≢ y) zs
    one [] k = tt
    one (z ∷ zs) k = (λ e. k.0 (rw e at h.0), one zs k.1)
