-- ===== src/Order/Pair.antt =====
-- The lexicographic order of pairs.
use x_grey.Prelude.{Ordering, ◌≡◌, arith}
use x_grey.Order.{Compares, then_cmp}

module _ {ℓ κ} {K : Type ℓ} {L : Type κ} (c : Compares K) (d : Compares L) where
  unfoldable pub lex : K × L → K × L → Ordering
  lex (a, x) (b, y) = then_cmp (c.cmp a b) (d.cmp x y)

  pub lex_refl : (p : K × L) → lex p p ≡ Ordering.eq
  unfolding lex
  lex_refl (a, x) = ground (arith, c.cmp_refl a, d.cmp_refl x)

  pub lex_eq : (p q : K × L) → lex p q ≡ Ordering.eq → p ≡ q
  unfolding lex
  lex_eq (a, x) (b, y) h = ground (arith, c.cmp_eq a b, d.cmp_eq x y)

  pub lex_flip : (p q : K × L) → lex p q ≡ Ordering.gt → lex q p ≡ Ordering.lt
  unfolding lex
  lex_flip (a, x) (b, y) h =
      ground (arith, c.cmp_flip a b, c.cmp_eq a b, c.cmp_refl a, d.cmp_flip x y)

  pub lex_flop : (p q : K × L) → lex p q ≡ Ordering.lt → lex q p ≡ Ordering.gt
  unfolding lex
  lex_flop (a, x) (b, y) h =
      ground (arith, c.cmp_flop a b, c.cmp_eq a b, c.cmp_refl a, d.cmp_flop x y)

  pub lex_trans :
      (p q r : K × L) → lex p q ≡ Ordering.lt → lex q r ≡ Ordering.lt → lex p r ≡ Ordering.lt
  unfolding lex
  lex_trans (a, x) (b, y) (e, z) h k =
      ground (arith, c.cmp_trans a b e, c.cmp_eq a b, c.cmp_eq b e, c.cmp_refl a, d.cmp_trans x y z)

  abbrev pub pair_cmp : Compares (K × L)
  pair_cmp = record {
    cmp = lex;
    cmp_refl = lex_refl;
    cmp_eq = lex_eq;
    cmp_flip = lex_flip;
    cmp_flop = lex_flop;
    cmp_trans = lex_trans;
  }
