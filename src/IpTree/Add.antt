-- ===== src/IpTree/Add.antt =====
-- `ip_add_sm` of server/iplist.c: the rule of one prefix changes, `g_ipcnt` stays the number of
-- rules, and no node goes below the 32 bits of an address.
use x_grey.Prelude.{
  ℕ, zero, suc, ◌+◌, ◌<◌, ◌≡◌, refl, ◌∙◌, ap, ◌≢◌, Bool, true, false, List, [], ◌∷◌, ◌==◌,
  if◌then◌else◌, length, arith,
}
use x_grey.Protocol.{ift_none}
use x_grey.IpTree.{Tree, null, node, make_path, set_match}
use x_grey.IpTree.Rules.{rule, Fits, rule-null, count_rules}

abbrev pub put : Tree → List Bool → ℕ → Tree
put t p cmd = set_match (make_path t p) p cmd

pub rule-make_path : (t : Tree) (p q : List Bool) → rule (make_path t p) q ≡ rule t q
unfolding rule make_path
rule-make_path null [] [] = refl
rule-make_path null [] (false ∷ q) = rule-null q
rule-make_path null [] (true ∷ q) = rule-null q
rule-make_path (node n m z o) [] q = refl
rule-make_path null (false ∷ p) [] = refl
rule-make_path null (true ∷ p) [] = refl
rule-make_path (node n m z o) (false ∷ p) [] = refl
rule-make_path (node n m z o) (true ∷ p) [] = refl
rule-make_path null (false ∷ p) (false ∷ q) = rule-make_path null p q ∙ rule-null q
rule-make_path null (false ∷ p) (true ∷ q) = rule-null q
rule-make_path null (true ∷ p) (false ∷ q) = rule-null q
rule-make_path null (true ∷ p) (true ∷ q) = rule-make_path null p q ∙ rule-null q
rule-make_path (node n m z o) (false ∷ p) (false ∷ q) = rule-make_path z p q
rule-make_path (node n m z o) (false ∷ p) (true ∷ q) = refl
rule-make_path (node n m z o) (true ∷ p) (false ∷ q) = refl
rule-make_path (node n m z o) (true ∷ p) (true ∷ q) = rule-make_path o p q

pub rule-put_self : (t : Tree) (p : List Bool) (cmd : ℕ) → rule (put t p cmd) p ≡ cmd
unfolding rule make_path set_match
rule-put_self null [] cmd = refl
rule-put_self (node n m z o) [] cmd = refl
rule-put_self null (false ∷ p) cmd = rule-put_self null p cmd
rule-put_self null (true ∷ p) cmd = rule-put_self null p cmd
rule-put_self (node n m z o) (false ∷ p) cmd = rule-put_self z p cmd
rule-put_self (node n m z o) (true ∷ p) cmd = rule-put_self o p cmd

pub rule-set_match_ne :
    (t : Tree) (p q : List Bool) (cmd : ℕ) → q ≢ p → rule (set_match t p cmd) q ≡ rule t q
unfolding rule set_match
rule-set_match_ne null p q cmd h = refl
rule-set_match_ne (node n m z o) [] [] cmd h = absurd (h refl)
rule-set_match_ne (node n m z o) [] (false ∷ q) cmd h = refl
rule-set_match_ne (node n m z o) [] (true ∷ q) cmd h = refl
rule-set_match_ne (node n m z o) (false ∷ p) [] cmd h = refl
rule-set_match_ne (node n m z o) (true ∷ p) [] cmd h = refl
rule-set_match_ne (node n m z o) (false ∷ p) (false ∷ q) cmd h =
    rule-set_match_ne z p q cmd (λ e. h (ap (λ (r : List Bool). false ∷ r) e))
rule-set_match_ne (node n m z o) (false ∷ p) (true ∷ q) cmd h = refl
rule-set_match_ne (node n m z o) (true ∷ p) (false ∷ q) cmd h = refl
rule-set_match_ne (node n m z o) (true ∷ p) (true ∷ q) cmd h =
    rule-set_match_ne o p q cmd (λ e. h (ap (λ (r : List Bool). true ∷ r) e))

-- One rule more or less.
abbrev pub has : ℕ → ℕ
has m = if m == ift_none then 0 else 1

pub count_rules-put :
    (t : Tree) (p : List Bool) (cmd : ℕ)
    → count_rules (put t p cmd) + has (rule t p) ≡ count_rules t + has cmd
unfolding rule make_path set_match count_rules
count_rules-put null [] cmd = omega arith
count_rules-put (node n m z o) [] cmd = omega arith
count_rules-put null (false ∷ p) cmd =
    omega (arith, rw rule-null at (count_rules-put null p cmd), ap has (rule-null p))
count_rules-put null (true ∷ p) cmd =
    omega (arith, rw rule-null at (count_rules-put null p cmd), ap has (rule-null p))
count_rules-put (node n m z o) (false ∷ p) cmd = omega (arith, count_rules-put z p cmd)
count_rules-put (node n m z o) (true ∷ p) cmd = omega (arith, count_rules-put o p cmd)

pub make_path-Fits :
    (t : Tree) (p : List Bool) (k : ℕ) → length p < k → Fits t k → Fits (make_path t p) k
unfolding make_path
make_path-Fits t p zero h f = absurd (omega arith)
make_path-Fits null [] (suc k) h f = (tt, tt)
make_path-Fits (node n m z o) [] (suc k) h f = f
make_path-Fits null (false ∷ p) (suc k) h f = (make_path-Fits null p k (omega arith) tt, tt)
make_path-Fits null (true ∷ p) (suc k) h f = (tt, make_path-Fits null p k (omega arith) tt)
make_path-Fits (node n m z o) (false ∷ p) (suc k) h f =
    (make_path-Fits z p k (omega arith) f.0, f.1)
make_path-Fits (node n m z o) (true ∷ p) (suc k) h f = (f.0, make_path-Fits o p k (omega arith) f.1)

pub set_match-Fits : (t : Tree) (p : List Bool) (cmd k : ℕ) → Fits t k → Fits (set_match t p cmd) k
unfolding set_match
set_match-Fits null p cmd k f = tt
set_match-Fits (node n m z o) p cmd zero f = elim f [ ]
set_match-Fits (node n m z o) [] cmd (suc k) f = f
set_match-Fits (node n m z o) (false ∷ p) cmd (suc k) f = (set_match-Fits z p cmd k f.0, f.1)
set_match-Fits (node n m z o) (true ∷ p) cmd (suc k) f = (f.0, set_match-Fits o p cmd k f.1)

pub count_rules-make_path : (t : Tree) (p : List Bool) → count_rules (make_path t p) ≡ count_rules t
unfolding make_path count_rules
count_rules-make_path null [] = refl
count_rules-make_path (node n m z o) [] = refl
count_rules-make_path null (false ∷ p) = omega (arith, count_rules-make_path null p)
count_rules-make_path null (true ∷ p) = omega (arith, count_rules-make_path null p)
count_rules-make_path (node n m z o) (false ∷ p) = omega (arith, count_rules-make_path z p)
count_rules-make_path (node n m z o) (true ∷ p) = omega (arith, count_rules-make_path o p)
