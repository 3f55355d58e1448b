-- ===== src/Text/Address/Round.antt =====
-- An address that `ipv4` prints is what `parse_ip` reads, in common/util.c.
use x_grey.Prelude.{
  ℕ, suc, ◌+◌, ◌%◌, ◌^◌, ◌<◌, ◌≤◌, ◌≡◌, refl, ap, ◌∙◌, some, false, List, [], ◌∷◌, arith, ◌==◌, ltb,
  set,
}
use x_grey.Text.Number.{is_digit, decimal}
use x_grey.Text.Number.Round.{strtoul-decimal}
use x_grey.Text.Address.{octets, mask_of, too_long, parse_ip, ipv4}

byte : (v : ℕ) → v < 256 → v % 256 ≡ v
byte v h = omega arith

-- An octet and the dot behind it.
octets_dot :
    (n i v : ℕ) (ip rest : List ℕ)
    → v < 256
    → octets (suc n) i ip (decimal v (b'.' ∷ rest)) ≡ octets n (i + 1) (set ip i v) rest
unfolding octets
octets_dot n i v ip rest h =
    rw
      (
        strtoul-decimal v (b'.' ∷ rest) (omega arith) refl,
        octets,
        strtoul-decimal v (b'.' ∷ rest) (omega arith) refl,
        byte v h,
      )
      refl

-- What follows the last octet: nothing, or a slash.
abbrev Stops : List ℕ → Type 0
Stops [] = Unit
Stops (b ∷ bs) = b ≡ b'/'

octets_last :
    (n i v : ℕ) (ip rest : List ℕ)
    → v < 256
    → Stops rest
    → octets (suc n) i ip (decimal v rest) ≡ some (set ip i v, rest)
unfolding octets
octets_last n i v ip [] h s =
    rw
      (
        strtoul-decimal v [] (omega arith) tt,
        octets,
        strtoul-decimal v [] (omega arith) tt,
        byte v h,
      )
      refl
octets_last n i v ip (b ∷ bs) h s =
    rw
      (
        strtoul-decimal v (b ∷ bs) (omega arith) (ap is_digit s),
        octets,
        strtoul-decimal v (b ∷ bs) (omega arith) (ap is_digit s),
        byte v h,
        ap (λ x. x == b'/') s,
      )
      refl

-- Four octets, before an end or a slash.
pub octets_four :
    (a b c d w x y z : ℕ) (more rest : List ℕ)
    → a < 256
    → b < 256
    → c < 256
    → d < 256
    → Stops rest
    → octets 4 0 (w ∷ x ∷ y ∷ z ∷ more) (ipv4 a b c d rest) ≡ some (a ∷ b ∷ c ∷ d ∷ more, rest)
unfolding ipv4
octets_four a b c d w x y z more rest ha hb hc hd s =
    octets_dot 3 0 a (w ∷ x ∷ y ∷ z ∷ more) _ ha
    ∙ octets_dot 2 1 b (a ∷ x ∷ y ∷ z ∷ more) _ hb
    ∙ octets_dot 1 2 c (a ∷ b ∷ y ∷ z ∷ more) _ hc
    ∙ octets_last 0 3 d (a ∷ b ∷ c ∷ z ∷ more) rest hd s

pub mask_of-decimal : (m : ℕ) → m ≤ 32 → mask_of (b'/' ∷ decimal m []) ≡ some m
unfolding mask_of too_long
mask_of-decimal m h = rw (strtoul-decimal m [] (omega arith) tt, word m h, fits m h) refl
  where
    word : (m : ℕ) → m ≤ 32 → m % 2 ^ 32 ≡ m
    word m h = omega arith

    fits : (m : ℕ) → m ≤ 32 → ltb 32 m ≡ false
    fits m h = ground arith

-- Four octets, each below 256, that `ipv4` prints are read back by `parse_ip`, whatever the array
-- held, and so is a mask of at most 32 behind a slash; without one the mask is 32.
pub parse_ip-ipv4 :
    (a b c d m w x y z : ℕ) (more : List ℕ)
    → a < 256
    → b < 256
    → c < 256
    → d < 256
    → m ≤ 32
    → (parse_ip (w ∷ x ∷ y ∷ z ∷ more) (ipv4 a b c d []) ≡ some (a ∷ b ∷ c ∷ d ∷ more, 32))
      × (parse_ip (w ∷ x ∷ y ∷ z ∷ more) (ipv4 a b c d (b'/' ∷ decimal m []))
          ≡ some (a ∷ b ∷ c ∷ d ∷ more, m))
unfolding parse_ip mask_of
parse_ip-ipv4 a b c d m w x y z more ha hb hc hd hm = (
  rw (octets_four a b c d w x y z more [] ha hb hc hd tt, parse_ip) refl,
  rw (octets_four a b c d w x y z more (b'/' ∷ decimal m []) ha hb hc hd refl, parse_ip)
      (rw (mask_of-decimal m hm) refl),
)
