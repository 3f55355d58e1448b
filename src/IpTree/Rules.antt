-- ===== src/IpTree/Rules.antt =====
-- The address list as its clients see it: a verdict for each prefix that has a rule.
use x_grey.Prelude.{
  ℕ, zero, suc, ◌+◌, ◌≡◌, refl, Bool, true, false, List, [], ◌∷◌, ◌==◌, if◌then◌else◌, arith,
}
use x_grey.Protocol.{ift_none}
use x_grey.IpTree.{Tree, null, node, match_of, descend, count_match}

-- The rule of a prefix; `ift_none` where there is none.
unfoldable pub rule : Tree → List Bool → ℕ
unfolding match_of descend
rule t path = match_of (descend t path)

pub rule-null : (path : List Bool) → rule null path ≡ ift_none
unfolding rule
rule-null [] = refl
rule-null (b ∷ path) = refl

-- A tree of at most `k` levels.
abbrev pub Fits : Tree → ℕ → Type 0
Fits null k = Unit
Fits (node n m z o) zero = ⊥
Fits (node n m z o) (suc k) = Fits z k × Fits o k

-- How many prefixes have a rule.
unfoldable pub count_rules : Tree → ℕ
count_rules null = 0
count_rules (node n m z o) = (if m == ift_none then 0 else 1) + count_rules z + count_rules o

pub rule-count_match : (t : Tree) (p q : List Bool) → rule (count_match t p) q ≡ rule t q
unfolding rule count_match
rule-count_match null p q = refl
rule-count_match (node n m z o) [] [] = refl
rule-count_match (node n m z o) [] (false ∷ q) = refl
rule-count_match (node n m z o) [] (true ∷ q) = refl
rule-count_match (node n m z o) (false ∷ p) [] = refl
rule-count_match (node n m z o) (true ∷ p) [] = refl
rule-count_match (node n m z o) (false ∷ p) (false ∷ q) = rule-count_match z p q
rule-count_match (node n m z o) (false ∷ p) (true ∷ q) = refl
rule-count_match (node n m z o) (true ∷ p) (false ∷ q) = refl
rule-count_match (node n m z o) (true ∷ p) (true ∷ q) = rule-count_match o p q

pub count_match-Fits : (t : Tree) (p : List Bool) (k : ℕ) → Fits t k → Fits (count_match t p) k
unfolding count_match
count_match-Fits null p k h = tt
count_match-Fits (node n m z o) p zero h = elim h [ ]
count_match-Fits (node n m z o) [] (suc k) h = h
count_match-Fits (node n m z o) (false ∷ p) (suc k) h = (count_match-Fits z p k h.0, h.1)
count_match-Fits (node n m z o) (true ∷ p) (suc k) h = (h.0, count_match-Fits o p k h.1)

pub count_rules-count_match :
    (t : Tree) (p : List Bool) → count_rules (count_match t p) ≡ count_rules t
unfolding count_match count_rules
count_rules-count_match null p = refl
count_rules-count_match (node n m z o) [] = refl
count_rules-count_match (node n m z o) (false ∷ p) = omega (arith, count_rules-count_match z p)
count_rules-count_match (node n m z o) (true ∷ p) = omega (arith, count_rules-count_match o p)
