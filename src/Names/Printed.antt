-- ===== src/Names/Printed.antt =====
-- The names of the verdicts as they are printed: no spaces, no small letters.
use x_grey.Prelude.{
  ℕ, zero, suc, ◌≤◌, ◌<◌, ◌≡◌, refl, Bool, true, false, ◌&&◌, List, ◌∷◌, All, length, leb, arith,
}
use x_grey.Names.{ci_map_chars, c_ift}
use x_grey.Text.{is_space}
use x_grey.Text.Trimmed.{ends}

abbrev pub is_lower : ℕ → Bool
is_lower b = leb b'a' b && leb b b'z'

-- The name of a verdict that is a rule.
pub record IsName (name : List ℕ) : Type 0 where
  pub first : ℕ
  pub rest : List ℕ
  pub is_text : name ≡ first ∷ rest
  pub dark_name : All (λ b. is_space b ≡ false) (first ∷ rest)
  pub large_name : All (λ b. is_lower b ≡ false) (first ∷ rest)
  pub ends_name : ends (first ∷ rest) ≡ true
  pub short_name : length (first ∷ rest) ≤ 8

pub verdict-IsName : (cmd : ℕ) → cmd < 3 → IsName (ci_map_chars cmd c_ift)
unfolding ci_map_chars is_space
verdict-IsName zero h = record {
  first = _;
  rest = _;
  is_text = refl;
  dark_name = (refl, (refl, (refl, (refl, (refl, (refl, (refl, (refl, tt))))))));
  large_name = (refl, (refl, (refl, (refl, (refl, (refl, (refl, (refl, tt))))))));
  ends_name = refl;
  short_name = omega arith;
}
verdict-IsName (suc zero) h = record {
  first = _;
  rest = _;
  is_text = refl;
  dark_name = (refl, (refl, (refl, (refl, (refl, (refl, tt))))));
  large_name = (refl, (refl, (refl, (refl, (refl, (refl, tt))))));
  ends_name = refl;
  short_name = omega arith;
}
verdict-IsName (suc (suc zero)) h = record {
  first = _;
  rest = _;
  is_text = refl;
  dark_name = (refl, (refl, (refl, (refl, (refl, (refl, tt))))));
  large_name = (refl, (refl, (refl, (refl, (refl, (refl, tt))))));
  ends_name = refl;
  short_name = omega arith;
}
verdict-IsName (suc (suc (suc cmd))) h = absurd (omega arith)
