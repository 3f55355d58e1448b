-- ===== src/Pool/Tidy.antt =====
-- server/tuple.c: the slots that hold no entry stay tidy when an entry is written to, and when one is
-- made.
use x_grey.Prelude.{
  ℕ, suc, ◌+◌, ◌≤◌, ◌≡◌, sym, ap, subst, ◌∙◌, ◌≢◌, some, false, List, [], ◌∷◌, All, All-get, drop,
  get_elem?, arith, All-drop, All-impl, take-append-drop, Bool-cases, inl, inr,
}
use x_grey.Tuple.{Tuple}
use x_grey.Pool.{Config, Pool, update}
use x_grey.Pool.Search.{IsPool, live, Distinct}
use x_grey.Pool.Cells.{drop-drop}
use x_grey.Pool.Gap.{drop_next}
use native.Mathlib.Numerals.{add-one}
use x_grey.Pool.Add.{IsAdded, update_ne}
use x_grey.Pool.Counting.{count_flagged}
use x_grey.Pool.Freed.{Distinct-parts}
use x_grey.Pool.Spare.{Distinct-drop, spare, freed, IsTidy, count_flagged-congr, unflagged-congr}

-- The slots in use and those freed are at most one more, and the free ones stay tidy.
pub record KeepsTidy (s p : Pool) : Type 0 where
  pub tidy : IsTidy p
  pub used : p.poolnum + freed p ≤ suc (s.poolnum + freed s)

update_others :
    (pool : ℕ → Tuple) (slot : ℕ) (u : Tuple) (xs : List ℕ)
    → All (λ y. slot ≢ y) xs
    → All (λ y. update pool slot u y ≡ pool y) xs
update_others pool slot u [] h = tt
update_others pool slot u (x ∷ xs) h =
    (update_ne pool slot x u h.0, update_others pool slot u xs h.1)

-- A write to a slot in use.
abbrev pub touched : Pool → ℕ → ℕ → Tuple → Pool
touched s slot n u = record s { pool = update s.pool slot u; whitelisted = n }

pub touched-IsTidy :
    (c : Config) (s : Pool) (place slot n : ℕ) (u : Tuple)
    → IsPool c s
    → get_elem? (live s) place ≡ some slot
    → IsTidy s
    → IsTidy (touched s slot n u) × (freed (touched s slot n u) ≡ freed s)
touched-IsTidy c s place slot n u v e tidy =
    let apart =
      (Distinct-parts (live s) (spare s)
        (subst Distinct (sym (take-append-drop s.poolnum s.tuplespace)) v.distinct)).2 in
    let others =
      update_others s.pool slot u (spare s)
        (All-get (λ x. All (λ y. x ≢ y) (spare s)) (live s) place slot apart e) in
    let same = count_flagged-congr s.pool (update s.pool slot u) (spare s) others in
    (
      rw same (
          unflagged-congr s.pool (update s.pool slot u) (drop (freed s) (spare s))
            (All-drop _ (freed s) (spare s) others) tidy),
      same,
    )

-- The first free slot is taken.
taken :
    (pool : ℕ → Tuple) (rec : ℕ) (rest : List ℕ)
    → All (λ x. (pool x).f.remove ≡ false) (drop (count_flagged pool (rec ∷ rest)) (rec ∷ rest))
    → All (λ x. (pool x).f.remove ≡ false) (drop (count_flagged pool rest) rest)
      × (count_flagged pool rest ≤ count_flagged pool (rec ∷ rest))
unfolding count_flagged
taken pool rec rest h = elim (Bool-cases (pool rec).f.remove) [
  | inl f ↦ (rw (f, add-one (count_flagged pool rest)) at h, rw f (omega arith))
  | inr f ↦ (
    subst (All _)
        (drop-drop 1 (count_flagged pool rest) (suc (count_flagged pool rest)) (rec ∷ rest)
          (omega arith))
        (All-drop _ 1 _ (rw f at h)),
    rw f (omega arith),
  )
]

pub added-KeepsTidy :
    (c : Config) (s p : Pool) (t : Tuple) (rec idx : ℕ)
    → IsPool c s
    → IsTidy s
    → get_elem? s.tuplespace s.poolnum ≡ some rec
    → IsAdded c s t rec idx p
    → KeepsTidy s p
added-KeepsTidy c s p t rec idx v tidy free a =
    let rest = drop (suc s.poolnum) s.tuplespace in
    let first : spare s ≡ rec ∷ rest = drop_next s.poolnum s.tuplespace rec free in
    let fresh : Distinct (rec ∷ rest) =
      subst Distinct first (Distinct-drop s.poolnum s.tuplespace v.distinct) in
    let others =
      All-impl _ (λ y. p.pool y ≡ s.pool y) rest (λ y e. a.content y ∙ e)
        (update_others s.pool rec t rest fresh.0) in
    let same : freed p ≡ count_flagged s.pool rest =
      ap (count_flagged p.pool) a.spare ∙ count_flagged-congr s.pool p.pool rest others in
    let left = taken s.pool rec rest (rw first at tidy) in
    record {
      tidy =
          rw (same, a.spare)
            (unflagged-congr s.pool p.pool (drop (count_flagged s.pool rest) rest)
              (All-drop _ (count_flagged s.pool rest) rest others) left.0);
      used = omega (arith, same, left.1, ap (count_flagged s.pool) first, a.number);
    }
