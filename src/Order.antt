-- ===== src/Order.antt =====
-- The comparison functions of the C library on bytes, and the laws of a total comparison that
-- `bisearch` (common/bisearch.c) relies on.
pub mod Pair
use x_grey.Prelude.{ℕ, compare, Ordering, ◌≡◌, refl, List, [], ◌∷◌, arith}

-- An interface: a three-way comparison whose laws are those of a total order.
pub record Compares {ℓ} (K : Type ℓ) : Type ℓ where
  pub cmp : K → K → Ordering
  pub cmp_refl : (a : K) → cmp a a ≡ Ordering.eq
  pub cmp_eq : (a b : K) → cmp a b ≡ Ordering.eq → a ≡ b
  pub cmp_flip : (a b : K) → cmp a b ≡ Ordering.gt → cmp b a ≡ Ordering.lt
  pub cmp_flop : (a b : K) → cmp a b ≡ Ordering.lt → cmp b a ≡ Ordering.gt
  pub cmp_trans :
      (a b c : K) → cmp a b ≡ Ordering.lt → cmp b c ≡ Ordering.lt → cmp a c ≡ Ordering.lt

-- The second comparison decides where the first finds no difference.
abbrev pub then_cmp : Ordering → Ordering → Ordering
then_cmp Ordering.lt _ = Ordering.lt
then_cmp Ordering.eq o = o
then_cmp Ordering.gt _ = Ordering.gt

-- `strcmp` on the bytes before the NUL: the first difference decides, a proper prefix is less.
unfoldable pub strcmp : List ℕ → List ℕ → Ordering
strcmp [] [] = Ordering.eq
strcmp [] (y ∷ ys) = Ordering.lt
strcmp (x ∷ xs) [] = Ordering.gt
strcmp (x ∷ xs) (y ∷ ys) = then_cmp (compare x y) (strcmp xs ys)

pub strcmp_refl : (a : List ℕ) → strcmp a a ≡ Ordering.eq
unfolding strcmp
strcmp_refl [] = refl
strcmp_refl (x ∷ xs) = ground (arith, strcmp_refl xs)

pub strcmp_eq : (a b : List ℕ) → strcmp a b ≡ Ordering.eq → a ≡ b
unfolding strcmp
strcmp_eq [] [] h = refl
strcmp_eq [] (y ∷ ys) h = ground arith
strcmp_eq (x ∷ xs) [] h = ground arith
strcmp_eq (x ∷ xs) (y ∷ ys) h = ground (arith, strcmp_eq xs ys)

pub strcmp_flip : (a b : List ℕ) → strcmp a b ≡ Ordering.gt → strcmp b a ≡ Ordering.lt
unfolding strcmp
strcmp_flip [] [] h = ground arith
strcmp_flip [] (y ∷ ys) h = ground arith
strcmp_flip (x ∷ xs) [] h = refl
strcmp_flip (x ∷ xs) (y ∷ ys) h = ground (arith, strcmp_flip xs ys)

pub strcmp_flop : (a b : List ℕ) → strcmp a b ≡ Ordering.lt → strcmp b a ≡ Ordering.gt
unfolding strcmp
strcmp_flop [] [] h = ground arith
strcmp_flop [] (y ∷ ys) h = refl
strcmp_flop (x ∷ xs) [] h = ground arith
strcmp_flop (x ∷ xs) (y ∷ ys) h = ground (arith, strcmp_flop xs ys)

pub strcmp_trans :
    (a b c : List ℕ)
    → strcmp a b ≡ Ordering.lt
    → strcmp b c ≡ Ordering.lt
    → strcmp a c ≡ Ordering.lt
unfolding strcmp
strcmp_trans [] [] c h k = ground arith
strcmp_trans [] (y ∷ ys) [] h k = ground arith
strcmp_trans [] (y ∷ ys) (z ∷ zs) h k = refl
strcmp_trans (x ∷ xs) [] c h k = ground arith
strcmp_trans (x ∷ xs) (y ∷ ys) [] h k = ground arith
strcmp_trans (x ∷ xs) (y ∷ ys) (z ∷ zs) h k = ground (arith, strcmp_trans xs ys zs)

abbrev pub bytes_cmp : Compares (List ℕ)
bytes_cmp = record {
  cmp = strcmp;
  cmp_refl = strcmp_refl;
  cmp_eq = strcmp_eq;
  cmp_flip = strcmp_flip;
  cmp_flop = strcmp_flop;
  cmp_trans = strcmp_trans;
}
