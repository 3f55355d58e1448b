-- ===== src/IpTree/Packing.antt =====
-- The octets that `ip_collect` of server/iplist.c leaves in an entry for a path of bits.
use x_grey.Prelude.{
  ℕ, zero, suc, ◌+◌, ◌*◌, ◌%◌, ◌≤◌, ◌<◌, ◌≡◌, refl, ap, sym, ◌∙◌, Bool, true, false, List, [], ◌∷◌,
  ◌++◌, ◌==◌, arith, length, take, All,
}
use mathlib.Core.List.{append_assoc}
use x_grey.IpTree.{byte_bits, address_bits}
use x_grey.Server.Answer.{length-address_bits}

-- The bit of a path that comes next, 0 behind its end.
abbrev first : List Bool → Bool
first [] = false
first (b ∷ bs) = b

abbrev rest : List Bool → List Bool
rest [] = []
rest (b ∷ bs) = bs

abbrev bit : Bool → ℕ
bit false = 0
bit true = 1

-- A byte whose bits 0x80, 0x40, ... 0x01 are these.
abbrev byte : (a b c d e f g h : Bool) → ℕ
byte a b c d e f g h =
    128 * bit a + 64 * bit b + 32 * bit c + 16 * bit d + 8 * bit e + 4 * bit f + 2 * bit g + bit h

abbrev rest_4 : List Bool → List Bool
rest_4 p = rest (rest (rest (rest p)))

-- `n` octets, each of the next eight bits of a path.
unfoldable pub packed : ℕ → List Bool → List ℕ
packed zero p = []
packed (suc n) p =
    byte (first p) (first (rest p)) (first (rest (rest p))) (first (rest (rest (rest p))))
      (first (rest_4 p)) (first (rest (rest_4 p))) (first (rest (rest (rest_4 p))))
      (first (rest (rest (rest (rest_4 p)))))
    ∷ packed n (rest_4 (rest_4 p))

bit_small : (b : Bool) → bit b ≤ 1
bit_small false = omega arith
bit_small true = omega arith

bit_read : (b : Bool) (hi q : ℕ) → q ≡ 2 * hi + bit b → (q % 2 == 1) ≡ b
bit_read false hi q h = ground arith
bit_read true hi q h = ground arith

cons-eq : {b c : Bool} {bs cs : List Bool} → b ≡ c → bs ≡ cs → b ∷ bs ≡ c ∷ cs
cons-eq h k = rw (h, k) refl

byte_bits-byte :
    (a b c d e f g h : Bool) → byte_bits (byte a b c d e f g h) ≡ a ∷ b ∷ c ∷ d ∷ e ∷ f ∷ g ∷ h ∷ []
unfolding byte_bits
byte_bits-byte a b c d e f g h =
    cons-eq
      (bit_read a 0 _ (
        omega (
          arith,
          bit_small b,
          bit_small c,
          bit_small d,
          bit_small e,
          bit_small f,
          bit_small g,
          bit_small h,
        )))
      (cons-eq
        (bit_read b (bit a) _ (
          omega
            (arith, bit_small c, bit_small d, bit_small e, bit_small f, bit_small g, bit_small h)))
        (cons-eq
          (bit_read c (2 * bit a + bit b) _
            (omega (arith, bit_small d, bit_small e, bit_small f, bit_small g, bit_small h)))
          (cons-eq
            (bit_read d (4 * bit a + 2 * bit b + bit c) _
              (omega (arith, bit_small e, bit_small f, bit_small g, bit_small h)))
            (cons-eq
              (bit_read e (8 * bit a + 4 * bit b + 2 * bit c + bit d) _
                (omega (arith, bit_small f, bit_small g, bit_small h)))
              (cons-eq
                (bit_read f (16 * bit a + 8 * bit b + 4 * bit c + 2 * bit d + bit e) _
                  (omega (arith, bit_small g, bit_small h)))
                (cons-eq
                  (bit_read g (32 * bit a + 16 * bit b + 8 * bit c + 4 * bit d + 2 * bit e + bit f)
                    _ (omega (arith, bit_small h)))
                  (cons-eq
                    (bit_read h
                      (64 * bit a
                        + 32 * bit b
                        + 16 * bit c
                        + 8 * bit d
                        + 4 * bit e
                        + 2 * bit f
                        + bit g)
                      _ (omega arith))
                    (refl))))))))

-- A path, filled up with 0.
unfoldable pub padded : ℕ → List Bool → List Bool
padded zero p = []
padded (suc n) p = first p ∷ padded n (rest p)

take-padded : (n : ℕ) (p : List Bool) → length p ≤ n → take (length p) (padded n p) ≡ p
unfolding padded
take-padded n [] h = refl
take-padded zero (b ∷ p) h = absurd (omega arith)
take-padded (suc n) (b ∷ p) h = ap (λ (r : List Bool). b ∷ r) (take-padded n p (omega arith))

-- Eight for each octet.
abbrev bits_of : ℕ → ℕ
bits_of zero = 0
bits_of (suc n) = suc (suc (suc (suc (suc (suc (suc (suc (bits_of n))))))))

address_bits-packed : (n : ℕ) (p : List Bool) → address_bits (packed n p) ≡ padded (bits_of n) p
unfolding address_bits packed padded
address_bits-packed zero p = refl
address_bits-packed (suc n) p =
    ap (λ (bs : List Bool). bs ++ address_bits (packed n (rest_4 (rest_4 p))))
      (byte_bits-byte (first p) (first (rest p)) (first (rest (rest p)))
        (first (rest (rest (rest p)))) (first (rest_4 p)) (first (rest (rest_4 p)))
        (first (rest (rest (rest_4 p)))) (first (rest (rest (rest (rest_4 p))))))
    ∙ ap
        (λ (r : List Bool).
          first p
          ∷ first (rest p)
          ∷ first (rest (rest p))
          ∷ first (rest (rest (rest p)))
          ∷ first (rest_4 p)
          ∷ first (rest (rest_4 p))
          ∷ first (rest (rest (rest_4 p)))
          ∷ first (rest (rest (rest (rest_4 p))))
          ∷ r)
        (address_bits-packed n (rest_4 (rest_4 p)))

-- Of 32 bits at most, all are in the octets.
take-packed : (p : List Bool) → length p ≤ 32 → take (length p) (address_bits (packed 4 p)) ≡ p
take-packed p h = ap (take (length p)) (address_bits-packed 4 p) ∙ take-padded 32 p h

small :
    (a b c d e f g h : ℕ)
    → a ≤ 1
    → b ≤ 1
    → c ≤ 1
    → d ≤ 1
    → e ≤ 1
    → f ≤ 1
    → g ≤ 1
    → h ≤ 1
    → 128 * a + 64 * b + 32 * c + 16 * d + 8 * e + 4 * f + 2 * g + h < 256
small a b c d e f g h ha hb hc hd he hf hg hh = omega arith

packed-All : (n : ℕ) (p : List Bool) → All (λ b. b < 256) (packed n p)
unfolding packed
packed-All zero p = tt
packed-All (suc n) p = (
  small _ _ _ _ _ _ _ _ (bit_small (first p)) (bit_small (first (rest p)))
      (bit_small (first (rest (rest p)))) (bit_small (first (rest (rest (rest p)))))
      (bit_small (first (rest_4 p))) (bit_small (first (rest (rest_4 p))))
      (bit_small (first (rest (rest (rest_4 p)))))
      (bit_small (first (rest (rest (rest (rest_4 p)))))),
  packed-All n (rest_4 (rest_4 p)),
)

-- The four octets of a path.
pub record Quad (p : List Bool) : Type 0 where
  pub a : ℕ
  pub b : ℕ
  pub c : ℕ
  pub d : ℕ
  pub is_packed : packed 4 p ≡ a ∷ b ∷ c ∷ d ∷ []
  pub octets : (a < 256) × ((b < 256) × ((c < 256) × (d < 256)))

Quad-packed :
    (p : List Bool) (a b c d : ℕ)
    → packed 4 p ≡ a ∷ b ∷ c ∷ d ∷ []
    → All (λ b. b < 256) (a ∷ b ∷ c ∷ d ∷ [])
    → Quad p
Quad-packed p a b c d e (ha, (hb, (hc, (hd, end)))) = record {
  a = a;
  b = b;
  c = c;
  d = d;
  is_packed = e;
  octets = (ha, (hb, (hc, hd)));
}

pub packed-Quad : (p : List Bool) → Quad p
unfolding packed
packed-Quad p = Quad-packed p _ _ _ _ refl (packed-All 4 p)

address_bits-append :
    (xs ys : List ℕ) → address_bits (xs ++ ys) ≡ address_bits xs ++ address_bits ys
unfolding address_bits
address_bits-append [] ys = refl
address_bits-append (x ∷ xs) ys =
    ap (λ (r : List Bool). byte_bits x ++ r) (address_bits-append xs ys)
    ∙ sym (append_assoc (byte_bits x) (address_bits xs) (address_bits ys))

take-append : (n : ℕ) (xs ys : List Bool) → n ≤ length xs → take n (xs ++ ys) ≡ take n xs
take-append zero xs ys h = refl
take-append (suc n) [] ys h = absurd (omega arith)
take-append (suc n) (x ∷ xs) ys h =
    ap (λ (r : List Bool). x ∷ r) (take-append n xs ys (omega arith))

-- The bits of a path are those that its octets start with, whatever stands behind the octets.
pub take-Quad :
    (p : List Bool) (q : Quad p) (more : List ℕ)
    → length p ≤ 32
    → take (length p) (address_bits (q.a ∷ q.b ∷ q.c ∷ q.d ∷ more)) ≡ p
take-Quad p q more h =
    ap (take (length p)) (address_bits-append (q.a ∷ q.b ∷ q.c ∷ q.d ∷ []) more)
    ∙ take-append (length p) (address_bits (q.a ∷ q.b ∷ q.c ∷ q.d ∷ [])) (address_bits more)
        (omega (arith, length-address_bits (q.a ∷ q.b ∷ q.c ∷ q.d ∷ []), h))
    ∙ ap (λ (os : List ℕ). take (length p) (address_bits os)) (sym q.is_packed)
    ∙ take-packed p h
