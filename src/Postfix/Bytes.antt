-- ===== src/Postfix/Bytes.antt =====
-- Bytes of the buffer of postfix/pfc.c: a byte that is found, written and cut off.
use mathlib.Core.List.{append_assoc}
use x_grey.Prelude.{
  ℕ, suc, ◌≡◌, refl, ap, ◌∙◌, some, true, List, [], ◌∷◌, ◌++◌, ◌==◌, ==_iff, All, length, take,
  drop, set,
}
use x_grey.Text.Strings.{Lacks}
use x_grey.Postfix.{memchr}

==_refl : (n : ℕ) → (n == n) ≡ true
==_refl n = (==_iff n n).1 refl

pub memchr-append :
    (b : ℕ) (xs ys : List ℕ) → Lacks b xs → memchr b (xs ++ (b ∷ ys)) ≡ some (length xs)
unfolding memchr
memchr-append b [] ys h = rw (==_refl b) refl
memchr-append b (x ∷ xs) ys h = rw (h.0, memchr-append b xs ys h.1) refl

set_here : (xs ys : List ℕ) (x y : ℕ) → set (xs ++ (x ∷ ys)) (length xs) y ≡ xs ++ (y ∷ ys)
set_here [] ys x y = refl
set_here (z ∷ xs) ys x y = ap (λ (r : List ℕ). z ∷ r) (set_here xs ys x y)

pub drop_past : (xs ys : List ℕ) → drop (length xs) (xs ++ ys) ≡ ys
drop_past [] ys = refl
drop_past (x ∷ xs) ys = drop_past xs ys

pub take_past : (xs ys : List ℕ) → take (length xs) (xs ++ ys) ≡ xs
take_past [] ys = refl
take_past (x ∷ xs) ys = ap (λ (r : List ℕ). x ∷ r) (take_past xs ys)

pub All-append : (P : ℕ → Type 0) (xs ys : List ℕ) → All P xs → All P ys → All P (xs ++ ys)
All-append P [] ys h k = k
All-append P (x ∷ xs) ys h k = (h.0, All-append P xs ys h.1 k)

-- The array with its two bytes set to NUL.
pub cut_bytes :
    (name value more : List ℕ) (a b : ℕ)
    → set
        (set ((name ++ (a ∷ value)) ++ (b ∷ more)) (length (name ++ (a ∷ value))) 0)
        (length name)
        0
      ≡ name ++ (0 ∷ (value ++ (0 ∷ more)))
cut_bytes name value more a b =
    ap (λ (xs : List ℕ). set xs (length name) 0)
      (set_here (name ++ (a ∷ value)) more b 0 ∙ append_assoc name (a ∷ value) (0 ∷ more))
    ∙ set_here name (value ++ (0 ∷ more)) a 0

pub drop_next : (xs ys : List ℕ) → drop (suc (length xs)) (xs ++ (0 ∷ ys)) ≡ ys
drop_next [] ys = refl
drop_next (x ∷ xs) ys = drop_next xs ys

-- What is behind the second of them.
pub cut_tail :
    (name value more : List ℕ)
    → drop (suc (length (name ++ (0 ∷ value)))) (name ++ (0 ∷ (value ++ (0 ∷ more)))) ≡ more
cut_tail [] value more = drop_next value more
cut_tail (x ∷ name) value more = cut_tail name value more
