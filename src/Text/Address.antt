-- ===== src/Text/Address.antt =====
-- common/util.c: `parse_ip` and `ipv4`, an address as a text.
pub mod Round
use x_grey.Prelude.{
  ℕ, zero, suc, ◌+◌, ◌%◌, ◌^◌, Option, none, some, Bool, ◌&&◌, not, List, [], ◌∷◌, ◌==◌, ltb,
  if◌then◌else◌, set,
}
use x_grey.Text.Number.{strtoul, decimal}

-- The loop, with `n` octets left from `i` on: the octets and the text at the pointer; `none` is
-- ERR_ERR.
unfoldable pub octets : ℕ → ℕ → List ℕ → List ℕ → Option (List ℕ × List ℕ)
octets zero i ip text = some (ip, text)
octets (suc n) i ip text =
    let (v, rest) = strtoul text in
    let read : List ℕ = set ip i (v % 256) in
    elim rest [
      | [] ↦ some (read, [])
      | b ∷ bs ↦
          let next = octets n (i + 1) read bs in
          if b == b'/' then some (read, b ∷ bs) else if not (b == b'.') then none else next
    ]

-- An `int` of 32 bits above 32.
unfoldable pub too_long : ℕ → Bool
too_long mask = ltb 32 mask && ltb mask (2 ^ 31)

-- What follows the octets; the mask is an `int`, as its 32-bit pattern.
unfoldable pub mask_of : List ℕ → Option ℕ
mask_of [] = some 32
mask_of (b ∷ bs) =
    if b == b'/'
    then (let mask : ℕ = (strtoul bs).0 % 2 ^ 32 in if too_long mask then none else some mask)
    else some 32

-- `ip` is the array before the call.
unfoldable pub parse_ip : List ℕ → List ℕ → Option (List ℕ × ℕ)
parse_ip ip text = elim (octets 4 0 ip text) [
  | none ↦ none
  | some (read, rest) ↦ elim (mask_of rest) [ none ↦ none | some mask ↦ some (read, mask) ]
]

-- The text of four octets, before `rest`.
unfoldable pub ipv4 : ℕ → ℕ → ℕ → ℕ → List ℕ → List ℕ
ipv4 a b c d rest = decimal a (b'.' ∷ decimal b (b'.' ∷ decimal c (b'.' ∷ decimal d rest)))
