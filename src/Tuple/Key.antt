-- ===== src/Tuple/Key.antt =====
-- `tuple_look_ift` of server/tuple.c is the lexicographic order of address, sender and recipient.
use Prim.Native.Nat.compare as compare_laws
use x_grey.Prelude.{
  ℕ, zero, suc, Ordering, ◌≡◌, refl, ap, ◌≤◌, List, [], ◌∷◌, compare, min, take, length, arith,
}
use x_grey.Order.{Compares, then_cmp, strcmp, bytes_cmp}
use x_grey.Order.Pair.{lex, pair_cmp}
use x_grey.Tuple.{Tuple, memcmp, tuple_look_ift}

-- The arrays have their sizes, and the texts leave room for a NUL.
pub record IsTuple (t : Tuple) : Type 0 where
  pub ip_length : length t.ip ≡ 16
  pub from_length : length t.from ≡ 108
  pub to_length : length t.to ≡ 108
  pub from_fits : t.fromsize ≤ 107
  pub to_fits : t.tosize ≤ 107

abbrev pub TupleKey : Type 0
TupleKey = List ℕ × (List ℕ × List ℕ)

abbrev pub tuple_key : Tuple → TupleKey
tuple_key t = (t.ip, (take t.fromsize t.from, take t.tosize t.to))

abbrev pub key_cmp : Compares TupleKey
key_cmp = pair_cmp bytes_cmp (pair_cmp bytes_cmp bytes_cmp)

min-suc : (n m : ℕ) → min (suc n) (suc m) ≡ suc (min n m)
min-suc n m = omega arith

then_cmp_assoc : (a b c d : Ordering) → then_cmp b c ≡ d → then_cmp (then_cmp a b) c ≡ then_cmp a d
then_cmp_assoc a b c d h = ground arith

memcmp-strcmp :
    (xs ys : List ℕ) (n m : ℕ)
    → n ≤ length xs
    → m ≤ length ys
    → then_cmp (memcmp xs ys (min n m)) (compare n m) ≡ strcmp (take n xs) (take m ys)
unfolding memcmp strcmp
memcmp-strcmp xs ys zero zero h k = refl
memcmp-strcmp xs [] zero (suc m) h k = absurd (omega arith)
memcmp-strcmp xs (y ∷ ys) zero (suc m) h k = ground arith
memcmp-strcmp [] ys (suc n) zero h k = absurd (omega arith)
memcmp-strcmp (x ∷ xs) ys (suc n) zero h k = ground arith
memcmp-strcmp [] ys (suc n) (suc m) h k = absurd (omega arith)
memcmp-strcmp (x ∷ xs) [] (suc n) (suc m) h k = absurd (omega arith)
memcmp-strcmp (x ∷ xs) (y ∷ ys) (suc n) (suc m) h k =
    rw (min-suc n m, compare_laws.suc-suc n m)
      (then_cmp_assoc (compare x y) _ _ _ (memcmp-strcmp xs ys n m (omega arith) (omega arith)))

memcmp-strcmp_all :
    (xs ys : List ℕ) (n : ℕ) → length xs ≡ n → length ys ≡ n → memcmp xs ys n ≡ strcmp xs ys
unfolding memcmp strcmp
memcmp-strcmp_all [] [] zero h k = refl
memcmp-strcmp_all [] [] (suc n) h k = absurd (omega arith)
memcmp-strcmp_all [] (y ∷ ys) n h k = absurd (omega arith)
memcmp-strcmp_all (x ∷ xs) [] n h k = absurd (omega arith)
memcmp-strcmp_all (x ∷ xs) (y ∷ ys) zero h k = absurd (omega arith)
memcmp-strcmp_all (x ∷ xs) (y ∷ ys) (suc n) h k =
    ap (then_cmp (compare x y)) (memcmp-strcmp_all xs ys n (omega arith) (omega arith))

-- On whole tuples the comparison of the code is the lexicographic order of the three texts, the
-- address first.
pub tuple_look_ift-key_cmp :
    (k v : Tuple)
    → IsTuple k
    → IsTuple v
    → tuple_look_ift k v ≡ key_cmp.cmp (tuple_key k) (tuple_key v)
unfolding tuple_look_ift lex
tuple_look_ift-key_cmp k v h g = ground (
  arith,
  memcmp-strcmp_all k.ip v.ip 16 h.ip_length g.ip_length,
  memcmp-strcmp k.from v.from k.fromsize v.fromsize (omega arith) (omega arith),
  memcmp-strcmp k.to v.to k.tosize v.tosize (omega arith) (omega arith),
)
