-- ===== src/Tuple.antt =====
-- server/server.h and server/tuple.c: a tuple, its flags, and the order `tuple_look_ift` in which
-- `g_tuplespace` is kept.
pub mod Key
use x_grey.Prelude.{ℕ, zero, suc, Ordering, Bool, false, List, [], ◌∷◌, compare, min, replicate}
use x_grey.Order.{then_cmp}

-- The word `f` by its five bits `F_...`.
pub record Flags : Type 0 where
  pub whitelist : Bool
  pub remove : Bool
  pub trunc_from : Bool
  pub trunc_to : Bool
  pub ipv6 : Bool

-- `struct tuple`; `ip`, `from` and `to` are whole arrays, of 16, 108 and 108 bytes.
pub record Tuple : Type 0 where
  pub ctime : ℕ
  pub atime : ℕ
  pub fromsize : ℕ
  pub tosize : ℕ
  pub pad : ℕ
  pub f : Flags
  pub ip : List ℕ
  pub from : List ℕ
  pub to : List ℕ

abbrev pub no_flags : Flags
no_flags = record {
  whitelist = false;
  remove = false;
  trunc_from = false;
  trunc_to = false;
  ipv6 = false;
}

abbrev pub ip_size : ℕ
ip_size = 16

abbrev pub text_size : ℕ
text_size = 108

-- What `calloc` and `memset` leave.
abbrev pub zero_tuple : Tuple
zero_tuple = record {
  ctime = 0;
  atime = 0;
  fromsize = 0;
  tosize = 0;
  pad = 0;
  f = no_flags;
  ip = replicate ip_size 0;
  from = replicate text_size 0;
  to = replicate text_size 0;
}

-- `memcmp`
unfoldable pub memcmp : List ℕ → List ℕ → ℕ → Ordering
memcmp xs ys zero = Ordering.eq
memcmp [] ys (suc n) = Ordering.eq
memcmp (x ∷ xs) [] (suc n) = Ordering.eq
memcmp (x ∷ xs) (y ∷ ys) (suc n) = then_cmp (compare x y) (memcmp xs ys n)

-- Each `return` before the last is a difference found.
unfoldable pub tuple_look_ift : Tuple → Tuple → Ordering
tuple_look_ift k v = then_cmp (memcmp k.ip v.ip ip_size) (
    then_cmp (memcmp k.from v.from (min k.fromsize v.fromsize)) (
      then_cmp (compare k.fromsize v.fromsize)
        (then_cmp (memcmp k.to v.to (min k.tosize v.tosize)) (compare k.tosize v.tosize))))
