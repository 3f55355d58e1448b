-- ===== src/Names.antt =====
-- common/util.c and common/globals.c: the names of verdicts and reasons.
pub mod Round
pub mod Printed
use x_grey.Prelude.{ℕ, Ordering, Bool, true, false, List, [], ◌∷◌, ◌==◌, if◌then◌else◌}
use x_grey.Order.{strcmp}
use x_grey.Protocol.{
  ift_greylist, ift_accept, ift_reject, ift_remove, ift_expire, minus_one, Reason, ip, from,
  from_domain, to, to_domain, greylist, whitelist, no_reason, reason_code,
}

-- `struct chars_int`
pub record CharsInt : Type 0 where
  pub name : List ℕ
  pub value : ℕ

-- `strcmp` returned 0.
unfoldable pub is_eq : Ordering → Bool
is_eq Ordering.lt = false
is_eq Ordering.eq = true
is_eq Ordering.gt = false

-- The value of the first name that is the same; -1 is the number that it is as an unsigned.
unfoldable pub ci_map_int : List ℕ → List CharsInt → ℕ
unfolding strcmp is_eq
ci_map_int name [] = minus_one
ci_map_int name (e ∷ es) = if is_eq (strcmp name e.name) then e.value else ci_map_int name es

unfoldable pub ci_map_chars : ℕ → List CharsInt → List ℕ
ci_map_chars value [] = []
ci_map_chars value (e ∷ es) = if value == e.value then e.name else ci_map_chars value es

abbrev pub c_ift : List CharsInt
c_ift =
    record {
      name = b'G' ∷ b'R' ∷ b'E' ∷ b'Y' ∷ b'L' ∷ b'I' ∷ b'S' ∷ b'T' ∷ [];
      value = ift_greylist;
    }
    ∷ record {
      name = b'G' ∷ b'R' ∷ b'A' ∷ b'Y' ∷ b'L' ∷ b'I' ∷ b'S' ∷ b'T' ∷ [];
      value = ift_greylist;
    }
    ∷ record { name = b'A' ∷ b'C' ∷ b'C' ∷ b'E' ∷ b'P' ∷ b'T' ∷ []; value = ift_accept }
    ∷ record { name = b'R' ∷ b'E' ∷ b'J' ∷ b'E' ∷ b'C' ∷ b'T' ∷ []; value = ift_reject }
    ∷ record { name = b'R' ∷ b'E' ∷ b'M' ∷ b'O' ∷ b'V' ∷ b'E' ∷ []; value = ift_remove }
    ∷ record { name = b'E' ∷ b'X' ∷ b'P' ∷ b'I' ∷ b'R' ∷ b'E' ∷ []; value = ift_expire }
    ∷ []

unfoldable pub c_reason : List CharsInt
unfolding reason_code
c_reason =
    record { name = b'N' ∷ b'O' ∷ b'N' ∷ b'E' ∷ []; value = reason_code no_reason }
    ∷ record { name = b'I' ∷ b'P' ∷ []; value = reason_code ip }
    ∷ record { name = b'F' ∷ b'R' ∷ b'O' ∷ b'M' ∷ []; value = reason_code from }
    ∷ record {
      name = b'F' ∷ b'R' ∷ b'O' ∷ b'M' ∷ b'-' ∷ b'D' ∷ b'O' ∷ b'M' ∷ b'A' ∷ b'I' ∷ b'N' ∷ [];
      value = reason_code from_domain;
    }
    ∷ record { name = b'T' ∷ b'O' ∷ []; value = reason_code to }
    ∷ record {
      name = b'T' ∷ b'O' ∷ b'-' ∷ b'D' ∷ b'O' ∷ b'M' ∷ b'A' ∷ b'I' ∷ b'N' ∷ [];
      value = reason_code to_domain;
    }
    ∷ record {
      name = b'G' ∷ b'R' ∷ b'E' ∷ b'Y' ∷ b'L' ∷ b'I' ∷ b'S' ∷ b'T' ∷ [];
      value = reason_code greylist;
    }
    ∷ record {
      name = b'W' ∷ b'H' ∷ b'I' ∷ b'T' ∷ b'E' ∷ b'L' ∷ b'I' ∷ b'S' ∷ b'T' ∷ [];
      value = reason_code whitelist;
    }
    ∷ []
