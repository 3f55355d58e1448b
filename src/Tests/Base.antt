-- ===== src/Tests/Base.antt =====
-- A pool of two slots, and an empty list.
use x_grey.Tuple.Key.{IsTuple}
use x_grey.Pool.Search.{IsPool}
use x_grey.Prelude.{refl, arith, ℕ, [], ◌∷◌, replicate}
use x_grey.Tuple.{Tuple, zero_tuple}
use x_grey.Pool.{Config, Pool}
use x_grey.EmailDomain.{EList}

abbrev pub two_slots : Config
two_slots = record {
  poolmax = 2;
  timeout_embargo = 1500;
  timeout_grey = 14400;
  timeout_white = 3110400;
  time_savestate = 3600;
}

-- A tuple from 10.0.0.n.
abbrev pub from_host : ℕ → Tuple
from_host n = record zero_tuple {
  ctime = 100;
  atime = 100;
  fromsize = 1;
  tosize = 1;
  pad = 0xDECAFBAD;
  ip = 10 ∷ 0 ∷ 0 ∷ n ∷ replicate 12 0;
  from = b'a' ∷ replicate 107 0;
  to = b'b' ∷ replicate 107 0;
}

abbrev pub one_tuple : Pool
one_tuple = record {
  pool = λ i. from_host 1;
  tuplespace = 0 ∷ 1 ∷ [];
  poolnum = 1;
  tuples_read = 0;
  tuples_read_cucurrent = 0;
  tuples_write = 1;
  tuples_write_cucurrent = 1;
  tuples_low = 0;
  tuples_high = 1;
  whitelisted = 0;
  whitelist_expired = 0;
  greylist_expired = 0;
}

abbrev pub no_list : EList
no_list = record {
  items = [];
  max = 0;
  def_cmd = 0;
  def_count = 0;
  cmdcnt = record { greylist = 0; accept = 0; reject = 0 };
}

pub from_host-IsTuple : (n : ℕ) → IsTuple (from_host n)
from_host-IsTuple n = record {
  ip_length = refl;
  from_length = refl;
  to_length = refl;
  from_fits = omega arith;
  to_fits = omega arith;
}

pub one_tuple-IsPool : IsPool two_slots one_tuple
one_tuple-IsPool = record {
  tuples = λ i. from_host-IsTuple 1;
  full = refl;
  bounded = omega arith;
  ascending = (tt, tt);
  distinct = ((λ e. omega (arith, e), tt), (tt, tt));
  slots = (omega arith, (omega arith, tt));
}
