-- ===== src/IpTree/Match.antt =====
-- `ip_match` of server/iplist.c returns the verdict of the longest prefix that has a rule.
use x_grey.Prelude.{
  Returns, sym, ◌∙◌, ℕ, zero, suc, ◌+◌, ◌≤◌, ◌<◌, ◌≡◌, refl, sym, ◌∙◌, ◌≢◌, ◌⊎◌, inl, inr, some,
  Bool, true, false, List, [], ◌∷◌, ◌==◌, if◌then◌else◌, take, length, arith, done, Bool-cases,
}
use x_grey.Protocol.{ift_none}
use x_grey.IpTree.{Tree, null, node, is_null, match_loop, count_match, ip_match, address_bits}
use x_grey.IpTree.Rules.{
  rule, Fits, rule-null, rule-count_match, count_rules, count_match-Fits, count_rules-count_match,
}

-- No prefix of `bits` longer than `d` has a rule.
abbrev pub NoneAbove : Tree → List Bool → ℕ → Type 0
NoneAbove t bits d = (i : ℕ) → d < i → rule t (take i bits) ≡ ift_none

-- What the loop returns, below a node at `depth` where `best` is the last node with a rule.
abbrev Longest : Tree → List Bool → (depth best d : ℕ) → Type 0
Longest t bits depth best d =
    ((d ≡ best) × (rule t [] ≡ ift_none) × NoneAbove t bits 0)
    ⊎ ((j : ℕ) × (d ≡ depth + j) × (rule t (take j bits) ≢ ift_none) × NoneAbove t bits j)

-- `match = p` where `p` has a rule.
abbrev best_at : Tree → (depth best : ℕ) → ℕ
best_at t depth best = if rule t [] == ift_none then best else depth

module _ (t c : Tree) (b : Bool) (bits : List Bool)
    (up : (q : List Bool) → rule t (b ∷ q) ≡ rule c q) where
  NoneAbove-lift : (j : ℕ) → NoneAbove c bits j → NoneAbove t (b ∷ bits) (suc j)
  NoneAbove-lift j h zero p = absurd (omega arith)
  NoneAbove-lift j h (suc i) p = up (take i bits) ∙ h i (omega arith)

  NoneAbove-first : rule c [] ≡ ift_none → NoneAbove c bits 0 → NoneAbove t (b ∷ bits) 0
  NoneAbove-first e h zero p = absurd (omega arith)
  NoneAbove-first e h (suc zero) p = up [] ∙ e
  NoneAbove-first e h (suc (suc i)) p = up (take (suc i) bits) ∙ h (suc i) (omega arith)

  Longest-lift :
      (depth best d : ℕ)
      → Longest c bits (suc depth) (best_at t depth best) d
      → Longest t (b ∷ bits) depth best d
  Longest-lift depth best d (inl (e, r, h)) = elim (Bool-cases (rule t [] == ift_none)) [
    | inl q ↦ inl (ground arith, ground arith, NoneAbove-first r h)
    | inr q ↦ inr (0, ground arith, ground arith, NoneAbove-first r h)
  ]
  Longest-lift depth best d (inr (j, e, r, h)) =
      inr (suc j, omega arith, (λ x. r (sym (up (take j bits)) ∙ x)), NoneAbove-lift j h)

null-Longest : (bits : List Bool) (depth best : ℕ) → Longest null bits depth best best
null-Longest bits depth best = inl (refl, rule-null [], λ i p. rule-null (take i bits))

match_loop-Longest :
    (t : Tree) (k depth best : ℕ) (bits : List Bool)
    → is_null t ≡ false
    → Fits t k
    → k ≤ length bits
    → (d : ℕ) × (match_loop t depth best bits ≡ done (some d)) × Longest t bits depth best d
unfolding match_loop rule is_null
match_loop-Longest null k depth best bits e f h = ground arith
match_loop-Longest (node n m z o) zero depth best bits e f h = elim f [ ]
match_loop-Longest (node n m z o) (suc k) depth best [] e f h = absurd (omega arith)
match_loop-Longest (node n m null o) (suc k) depth best (false ∷ bits) e f h =
    let t = node n m null o in
    let d : ℕ = best_at t depth best in
    (
      d,
      refl,
      Longest-lift t null false bits (λ q. refl) depth best d (null-Longest bits (suc depth) d),
    )
match_loop-Longest (node n m (node n' m' z' o') o) (suc k) depth best (false ∷ bits) e f h =
    let t = node n m (node n' m' z' o') o in
    let (d, r, l) =
      match_loop-Longest (node n' m' z' o') k (suc depth) (best_at t depth best) bits refl f.0
        (omega arith) in
    (d, r, Longest-lift t (node n' m' z' o') false bits (λ q. refl) depth best d l)
match_loop-Longest (node n m z null) (suc k) depth best (true ∷ bits) e f h =
    let t = node n m z null in
    let d : ℕ = best_at t depth best in
    (
      d,
      refl,
      Longest-lift t null true bits (λ q. refl) depth best d (null-Longest bits (suc depth) d),
    )
match_loop-Longest (node n m z (node n' m' z' o')) (suc k) depth best (true ∷ bits) e f h =
    let t = node n m z (node n' m' z' o') in
    let (d, r, l) =
      match_loop-Longest (node n' m' z' o') k (suc depth) (best_at t depth best) bits refl f.1
        (omega arith) in
    (d, r, Longest-lift t (node n' m' z' o') true bits (λ q. refl) depth best d l)

default_not_null : (t : Tree) → rule t [] ≢ ift_none → is_null t ≡ false
unfolding is_null
default_not_null null h = absurd (h (rule-null []))
default_not_null (node n m z o) h = refl

unequal : (m : ℕ) → m ≢ ift_none → (m == ift_none) ≡ false
unequal m h = ground arith

-- The list can answer: the default has a rule, and no path is longer than the address.
pub record IsAnswering (t : Tree) : Type 0 where
  pub default : rule t [] ≢ ift_none
  pub levels : Fits t 33

-- `found` is the verdict of the longest prefix of the address that has a rule.
pub record IsLongest (t : Tree) (bits : List Bool) (found : ℕ) : Type 0 where
  pub depth : ℕ
  pub is_rule : rule t (take depth bits) ≡ found
  pub is_some : found ≢ ift_none
  pub is_last : NoneAbove t bits depth

-- What `ip_match` returns: the verdict, and a tree with the same rules.
pub record IsMatched (t : Tree) (bits : List Bool) (u : Tree) (found : ℕ) : Type 0 where
  pub longest : IsLongest t bits found
  pub answering : IsAnswering u
  pub rules : (q : List Bool) → rule u q ≡ rule t q
  pub number : count_rules u ≡ count_rules t

-- With a default and an address of enough bits `ip_match` returns, and its verdict is that of the
-- longest prefix of the address with a rule; it changes no rule.
pub ip_match-IsMatched :
    (t : Tree) (ip : List ℕ)
    → IsAnswering t
    → 33 ≤ length (address_bits ip)
    → Returns (ip_match t ip) (λ r. IsMatched t (address_bits ip) r.0 r.1)
unfolding ip_match rule
ip_match-IsMatched t ip a h =
    answer (match_loop-Longest t 33 0 0 (address_bits ip) (default_not_null t a.default) a.levels h)
  where
    matched :
        (d : ℕ)
        → IsLongest t (address_bits ip) (rule t (take d (address_bits ip)))
        → IsMatched t
            (address_bits ip)
            (count_match t (take d (address_bits ip)))
            (rule t (take d (address_bits ip)))
    matched d w = record {
      longest = w;
      answering = record {
        default = λ e. a.default (sym (rule-count_match t (take d (address_bits ip)) []) ∙ e);
        levels = count_match-Fits t (take d (address_bits ip)) 33 a.levels;
      };
      rules = rule-count_match t (take d (address_bits ip));
      number = count_rules-count_match t (take d (address_bits ip));
    }

    answer :
        (d : ℕ) × (match_loop t 0 0 (address_bits ip) ≡ done (some d))
          × Longest t (address_bits ip) 0 0 d
        → Returns (ip_match t ip) (λ r. IsMatched t (address_bits ip) r.0 r.1)
    answer (d, e, inl (x, r, y)) = absurd (a.default r)
    answer (d, e, inr (j, x, r, y)) =
        let path = take d (address_bits ip) in
        let same : d ≡ j = omega arith in
        let r' : rule t path ≢ ift_none = rw same r in
        rw (e, unequal (rule t path) r')
          (matched d (record { depth = d; is_rule = refl; is_some = r'; is_last = rw same y }))
