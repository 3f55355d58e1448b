-- ===== src/Text/Trimmed.antt =====
-- Texts without spaces around them, as trim_space of cgilib6 leaves them.
use x_grey.Prelude.{
  ℕ, zero, suc, ◌≤◌, ◌≡◌, refl, ap, Bool, true, false, not, List, [], ◌∷◌, ◌++◌, All, length, take,
  arith,
}
use x_grey.Text.{is_space}

abbrev pub starts : List ℕ → Bool
starts [] = false
starts (b ∷ bs) = not (is_space b)

abbrev pub ends : List ℕ → Bool
ends [] = false
ends (b ∷ []) = not (is_space b)
ends (b ∷ c ∷ bs) = ends (c ∷ bs)

pub take-whole : (n : ℕ) (xs : List ℕ) → length xs ≤ n → take n xs ≡ xs
take-whole zero [] h = refl
take-whole zero (x ∷ xs) h = absurd (omega arith)
take-whole (suc n) [] h = refl
take-whole (suc n) (x ∷ xs) h = ap (λ (r : List ℕ). x ∷ r) (take-whole n xs (omega arith))

pub All-append : (P : ℕ → Type 0) (xs ys : List ℕ) → All P xs → All P ys → All P (xs ++ ys)
All-append P [] ys h k = k
All-append P (x ∷ xs) ys h k = (h.0, All-append P xs ys h.1 k)

pub ends-append : (xs : List ℕ) (b : ℕ) (ys : List ℕ) → ends (xs ++ (b ∷ ys)) ≡ ends (b ∷ ys)
ends-append [] b ys = refl
ends-append (x ∷ []) b ys = refl
ends-append (x ∷ y ∷ xs) b ys = ends-append (y ∷ xs) b ys

pub ends-All : (b : ℕ) (bs : List ℕ) → All (λ x. is_space x ≡ false) (b ∷ bs) → ends (b ∷ bs) ≡ true
ends-All b [] h = ap not h.0
ends-All b (c ∷ bs) h = ends-All c bs h.1
