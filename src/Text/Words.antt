-- ===== src/Text/Words.antt =====
-- common/util.c: `split` on words with spaces between them.
use x_grey.Prelude.{
  ℕ, zero, suc, ◌≡◌, refl, ap, ◌∙◌, false, List, [], ◌∷◌, ◌++◌, All, length, length-append,
  replicate, ◌-◌, arith, done, abort,
}
use x_grey.Text.{is_space, skip_space, word, is_empty, split_loop, split}

word-append :
    (xs ys : List ℕ) → All (λ b. is_space b ≡ false) xs → word (xs ++ (b' ' ∷ ys)) ≡ (xs, b' ' ∷ ys)
unfolding word is_space
word-append [] ys h = refl
word-append (x ∷ xs) ys (e, h) = rw (e, word-append xs ys h) refl

word-whole : (xs : List ℕ) → All (λ b. is_space b ≡ false) xs → word xs ≡ (xs, [])
unfolding word
word-whole [] h = refl
word-whole (x ∷ xs) (e, h) = rw (e, word-whole xs h) refl

split_loop-first :
    (n b : ℕ) (bs rest : List ℕ)
    → All (λ x. is_space x ≡ false) (b ∷ bs)
    → split_loop (suc n) ((b ∷ bs) ++ (b' ' ∷ rest)) ≡ (b ∷ bs) ∷ split_loop n rest
unfolding split_loop skip_space is_empty
split_loop-first n b bs rest h = rw (h.0, word-append (b ∷ bs) rest h) refl

split_loop-last :
    (n c : ℕ) (cs : List ℕ)
    → All (λ x. is_space x ≡ false) (c ∷ cs)
    → split_loop (suc n) (c ∷ cs) ≡ (c ∷ cs) ∷ []
unfolding split_loop skip_space is_empty
split_loop-last zero c cs h = rw (h.0, word-whole (c ∷ cs) h) refl
split_loop-last (suc n) c cs h = rw (h.0, word-whole (c ∷ cs) h) refl

length-behind : (bs rest : List ℕ) → (n : ℕ) × (length (bs ++ (b' ' ∷ rest)) ≡ suc n)
length-behind [] rest = (length rest, refl)
length-behind (b ∷ bs) rest = (length (bs ++ (b' ' ∷ rest)), refl)

-- Two words with a space between them.
pub split_two :
    (b : ℕ) (bs : List ℕ) (c : ℕ) (cs : List ℕ)
    → All (λ x. is_space x ≡ false) (b ∷ bs)
    → All (λ x. is_space x ≡ false) (c ∷ cs)
    → split ((b ∷ bs) ++ (b' ' ∷ (c ∷ cs))) ≡ done ((b ∷ bs) ∷ (c ∷ cs) ∷ [])
unfolding split
split_two b bs c cs h k =
    let (n, e) = length-behind bs (c ∷ cs) in
    ap (λ (r : List (List ℕ)). elim r [ [] ↦ abort | f ∷ fs ↦ done (f ∷ fs) ])
      (split_loop-first (length (bs ++ (b' ' ∷ (c ∷ cs)))) b bs (c ∷ cs) h
        ∙ ap (λ (l : ℕ). (b ∷ bs) ∷ split_loop l (c ∷ cs)) e
        ∙ ap (λ (r : List (List ℕ)). (b ∷ bs) ∷ r) (split_loop-last n c cs k))

split_loop-space :
    (n b : ℕ) (bs : List ℕ) → split_loop (suc n) (b' ' ∷ b ∷ bs) ≡ split_loop (suc n) (b ∷ bs)
unfolding split_loop skip_space is_space
split_loop-space n b bs = refl

-- A word behind any number of spaces.
split_loop-padded :
    (n k b : ℕ) (bs rest : List ℕ)
    → All (λ x. is_space x ≡ false) (b ∷ bs)
    → split_loop (suc n) (replicate k b' ' ++ ((b ∷ bs) ++ (b' ' ∷ rest)))
      ≡ (b ∷ bs) ∷ split_loop n rest
split_loop-padded n zero b bs rest h = split_loop-first n b bs rest h
split_loop-padded n (suc zero) b bs rest h =
    split_loop-space n b (bs ++ (b' ' ∷ rest)) ∙ split_loop-first n b bs rest h
split_loop-padded n (suc (suc k)) b bs rest h =
    split_loop-space n b' ' (replicate k b' ' ++ ((b ∷ bs) ++ (b' ' ∷ rest)))
    ∙ split_loop-padded n (suc k) b bs rest h

-- Three words, the second at the right of a field.
pub split_three :
    (b : ℕ) (bs : List ℕ) (k c : ℕ) (cs : List ℕ) (d : ℕ) (ds : List ℕ)
    → All (λ x. is_space x ≡ false) (b ∷ bs)
    → All (λ x. is_space x ≡ false) (c ∷ cs)
    → All (λ x. is_space x ≡ false) (d ∷ ds)
    → split ((b ∷ bs) ++ (b' ' ∷ (replicate k b' ' ++ ((c ∷ cs) ++ (b' ' ∷ (d ∷ ds))))))
      ≡ done ((b ∷ bs) ∷ (c ∷ cs) ∷ (d ∷ ds) ∷ [])
unfolding split
split_three b bs k c cs d ds h i j =
    let behind : List ℕ = (c ∷ cs) ++ (b' ' ∷ (d ∷ ds)) in
    let text : List ℕ = bs ++ (b' ' ∷ (replicate k b' ' ++ behind)) in
    let long : length text ≡ suc (suc (length text - 2)) = omega (
      arith,
      length-append bs (b' ' ∷ (replicate k b' ' ++ behind)),
      length-append (replicate k b' ') behind,
      length-append (c ∷ cs) (b' ' ∷ (d ∷ ds)),
    ) in
    ap (λ (r : List (List ℕ)). elim r [ [] ↦ abort | f ∷ fs ↦ done (f ∷ fs) ])
      (split_loop-first (length text) b bs (replicate k b' ' ++ behind) h
        ∙ ap (λ (l : ℕ). (b ∷ bs) ∷ split_loop l (replicate k b' ' ++ behind)) long
        ∙ ap (λ (r : List (List ℕ)). (b ∷ bs) ∷ r)
            (split_loop-padded (suc (length text - 2)) k c cs (d ∷ ds) i
              ∙ ap (λ (r : List (List ℕ)). (c ∷ cs) ∷ r)
                  (split_loop-last (length text - 2) d ds j)))
