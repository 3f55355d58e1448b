-- ===== src/Text/Split.antt =====
-- `split` of common/util.c against the words of a text.
use x_grey.Prelude.{
  ℕ, zero, suc, ◌≤◌, ◌≡◌, refl, true, false, List, [], ◌∷◌, ◌++◌, arith, All, length, Bool-cases,
  inl, inr, if◌then◌else◌, drop, length-drop, ap, sym, ◌∙◌, ◌≢◌, Returns, done, abort,
}
use x_grey.Text.{is_space, skip_space, word, is_empty, split_loop, split}

-- The bytes of a text that are no spaces.
unfoldable pub solid : List ℕ → List ℕ
solid [] = []
solid (b ∷ bs) = if is_space b then solid bs else b ∷ solid bs

unfoldable pub joined : List (List ℕ) → List ℕ
joined [] = []
joined (w ∷ ws) = w ++ joined ws

keeps : (b : ℕ) (bs : List ℕ) → is_space b ≡ false → skip_space (b ∷ bs) ≡ b ∷ bs
unfolding skip_space
keeps b bs e = rw e refl

has_word : (b : ℕ) (bs : List ℕ) → is_space b ≡ false → is_empty (word (b ∷ bs)).0 ≡ false
unfolding word is_empty
has_word b bs e = rw e refl

solid-skip_space : (t : List ℕ) → solid (skip_space t) ≡ solid t
unfolding solid skip_space
solid-skip_space [] = refl
solid-skip_space (b ∷ bs) = elim (Bool-cases (is_space b)) [
  | inl e ↦ rw e (solid-skip_space bs)
  | inr e ↦ ap solid (keeps b bs e)
]

word-solid : (t : List ℕ) → (word t).0 ++ solid (drop 1 (word t).1) ≡ solid t
unfolding solid word
word-solid [] = refl
word-solid (b ∷ bs) = elim (Bool-cases (is_space b)) [
  | inl e ↦ rw e refl
  | inr e ↦ rw e (ap (λ (r : List ℕ). b ∷ r) (word-solid bs))
]

length-skip_space : (t : List ℕ) → length (skip_space t) ≤ length t
unfolding skip_space
length-skip_space [] = omega arith
length-skip_space (b ∷ bs) = ground (arith, length-skip_space bs)

length-word : (t : List ℕ) → length (word t).1 ≤ length t
unfolding word
length-word [] = omega arith
length-word (b ∷ bs) = elim (Bool-cases (is_space b)) [
  | inl e ↦ rw e (omega arith)
  | inr e ↦ rw e (omega (arith, length-word bs))
]

no_word : (t : List ℕ) → is_empty (word (skip_space t)).0 ≡ true → solid t ≡ []
unfolding solid skip_space
no_word [] h = refl
no_word (b ∷ bs) h = elim (Bool-cases (is_space b)) [
  | inl e ↦ rw e (no_word bs (rw e at h))
  | inr e ↦
      absurd (ground (arith, ap (λ u. is_empty (word u).0) (keeps b bs e), has_word b bs e, h))
]

-- A field: it is not empty and has no space.
abbrev pub IsField : List ℕ → Type 0
IsField w = (is_empty w ≡ false) × All (λ b. is_space b ≡ false) w

word-All : (t : List ℕ) → All (λ b. is_space b ≡ false) (word t).0
unfolding word
word-All [] = tt
word-All (b ∷ bs) = elim (Bool-cases (is_space b)) [
  | inl e ↦ rw e tt
  | inr e ↦ rw e (e, word-All bs)
]

split_loop-IsField : (n : ℕ) (t : List ℕ) → All IsField (split_loop n t)
unfolding split_loop
split_loop-IsField zero t = tt
split_loop-IsField (suc n) [] = tt
split_loop-IsField (suc n) (b ∷ bs) =
    let u : List ℕ = skip_space (b ∷ bs) in
    elim (Bool-cases (is_empty (word u).0)) [
      | inl e ↦ rw e tt
      | inr e ↦ rw e ((e, word-All u), split_loop-IsField n (drop 1 (word u).1))
    ]

split_loop-joined : (n : ℕ) (t : List ℕ) → length t ≤ n → joined (split_loop n t) ≡ solid t
unfolding split_loop joined solid
split_loop-joined zero [] h = refl
split_loop-joined zero (b ∷ bs) h = absurd (omega arith)
split_loop-joined (suc n) [] h = refl
split_loop-joined (suc n) (b ∷ bs) h =
    let u : List ℕ = skip_space (b ∷ bs) in
    let short : length (drop 1 (word u).1) ≤ n =
      omega (arith, length-drop 1 (word u).1, length-word u, length-skip_space (b ∷ bs)) in
    elim (Bool-cases (is_empty (word u).0)) [
      | inl e ↦ rw e (sym (no_word (b ∷ bs) e))
      | inr e ↦
          rw (e, split_loop-joined n (drop 1 (word u).1) short)
            (word-solid u ∙ solid-skip_space (b ∷ bs))
    ]

-- What `split` returns: fields that are not empty and without spaces, and that together are the
-- bytes of the text that are no spaces, in their order.
pub record IsSplit (t : List ℕ) (fields : List (List ℕ)) : Type 0 where
  pub are_fields : All IsField fields
  pub whole : joined fields ≡ solid t

first_field :
    (t : List ℕ) (fields : List (List ℕ))
    → IsSplit t fields
    → solid t ≢ []
    → Returns (elim fields [ [] ↦ abort | f ∷ fs ↦ done (f ∷ fs) ]) (IsSplit t)
unfolding joined
first_field t [] w h = elim (h (sym w.whole)) [ ]
first_field t (f ∷ fs) w h = w

-- On a text that is not only spaces `split` returns.
pub split-IsSplit : (t : List ℕ) → solid t ≢ [] → Returns (split t) (IsSplit t)
unfolding split
split-IsSplit t h =
    first_field t (split_loop (length t) t)
      (record {
        are_fields = split_loop-IsField (length t) t;
        whole = split_loop-joined (length t) t (omega arith);
      })
      h
