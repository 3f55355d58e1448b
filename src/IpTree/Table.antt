-- ===== src/IpTree/Table.antt =====
-- server/iplist.c: `ip_table` and `ip_collect`, the list of the rules of a tree.
use x_grey.Prelude.{
  ℕ, ◌+◌, ◌≡◌, refl, ◌∙◌, Bool, true, false, List, [], ◌∷◌, ◌++◌, ◌==◌, if◌then◌else◌, length,
  arith, All, sym, ◌≢◌, ==_iff, Bool-cases, inl, inr, length-append,
}
use x_grey.Protocol.{ift_none}
use mathlib.Core.List.{append_assoc, append-nil}
use x_grey.IpTree.{Tree, null, node, IpList}
use x_grey.IpTree.Rules.{rule, count_rules}
use x_grey.IpTree.Update.{IsListed}

-- `struct ipblock`; the address is the path of its bits, and `smask` their number.
pub record IpBlock : Type 0 where
  pub addr : List Bool
  pub smask : ℕ
  pub count : ℕ
  pub cmd : ℕ

-- The entries that `ip_collect` writes for the node at a path: below zero, below one, its own.
unfoldable pub ip_collect : List Bool → Tree → List IpBlock
ip_collect path null = []
ip_collect path (node n m z o) =
    ip_collect (path ++ (false ∷ [])) z
    ++ (ip_collect (path ++ (true ∷ [])) o
        ++ (if m == ift_none
            then []
            else record { addr = path; smask = length path; count = n; cmd = m } ∷ []))

-- The default first, whatever it is.
unfoldable pub ip_table : Tree → List IpBlock
unfolding ip_collect
ip_table null = []
ip_table (node n m z o) =
    record { addr = []; smask = 0; count = n; cmd = m }
    ∷ (ip_collect (false ∷ []) z ++ ip_collect (true ∷ []) o)

sizes :
    (low high own : List IpBlock) (a b : ℕ)
    → length low ≡ a
    → length high ≡ b
    → length (low ++ (high ++ own)) ≡ length own + a + b
sizes low high own a b h k = omega (arith, length-append low (high ++ own), length-append high own)

ip_collect-count_rules : (path : List Bool) (t : Tree) → length (ip_collect path t) ≡ count_rules t
unfolding ip_collect count_rules
ip_collect-count_rules path null = refl
ip_collect-count_rules path (node n m z o) =
    let h = ip_collect-count_rules (path ++ (false ∷ [])) z in
    let k = ip_collect-count_rules (path ++ (true ∷ [])) o in
    elim (Bool-cases (m == ift_none)) [
      | inl e ↦ rw e (sizes _ _ [] _ _ h k)
      | inr e ↦
          rw e (
            sizes _ _ (record { addr = path; smask = length path; count = n; cmd = m } ∷ []) _ _ h
              k)
    ]

length-ip_table : (l : IpList) → IsListed l → length (ip_table l.tree) ≡ l.ipcnt
unfolding ip_table rule count_rules
length-ip_table l v = sized l.tree v.answering.default ∙ sym v.counted
  where
    sized : (t : Tree) → rule t [] ≢ ift_none → length (ip_table t) ≡ count_rules t
    sized null h = elim (h refl) [ ]
    sized (node n m z o) h = elim (Bool-cases (m == ift_none)) [
      | inl e ↦ elim (h ((==_iff m ift_none).0 e)) [ ]
      | inr e ↦ rw e (
          omega (
            arith,
            length-append (ip_collect (false ∷ []) z) (ip_collect (true ∷ []) o),
            ip_collect-count_rules (false ∷ []) z,
            ip_collect-count_rules (true ∷ []) o,
          ))
    ]

pub snoc-append : (p q : List Bool) (b : Bool) → (p ++ (b ∷ [])) ++ q ≡ p ++ (b ∷ q)
snoc-append p q b = append_assoc p (b ∷ []) q

-- The entry tells the rule of the prefix that it names, below a path.
pub record IsTold (t : Tree) (path : List Bool) (e : IpBlock) : Type 0 where
  pub rest : List Bool
  pub address : e.addr ≡ path ++ rest
  pub length_told : e.smask ≡ length e.addr
  pub rule_told : rule t rest ≡ e.cmd

pub All-append :
    (P : IpBlock → Type 0) (xs ys : List IpBlock) → All P xs → All P ys → All P (xs ++ ys)
All-append P [] ys h k = k
All-append P (x ∷ xs) ys h k = (h.0, All-append P xs ys h.1 k)

All-map :
    (P Q : IpBlock → Type 0) (xs : List IpBlock) → ((x : IpBlock) → P x → Q x) → All P xs → All Q xs
All-map P Q [] f h = tt
All-map P Q (x ∷ xs) f h = (f x h.0, All-map P Q xs f h.1)

module _ (n m : ℕ) (z o : Tree) (path : List Bool) where
  IsTold-zero : (e : IpBlock) → IsTold z (path ++ (false ∷ [])) e → IsTold (node n m z o) path e
  unfolding rule
  IsTold-zero e h = record {
    rest = false ∷ h.rest;
    address = h.address ∙ snoc-append path h.rest false;
    length_told = h.length_told;
    rule_told = h.rule_told;
  }

  IsTold-one : (e : IpBlock) → IsTold o (path ++ (true ∷ [])) e → IsTold (node n m z o) path e
  unfolding rule
  IsTold-one e h = record {
    rest = true ∷ h.rest;
    address = h.address ∙ snoc-append path h.rest true;
    length_told = h.length_told;
    rule_told = h.rule_told;
  }

ip_collect-IsTold : (path : List Bool) (t : Tree) → All (IsTold t path) (ip_collect path t)
unfolding ip_collect
ip_collect-IsTold path null = tt
ip_collect-IsTold path (node n m z o) =
    All-append _ _ _
      (All-map _ _ _ (IsTold-zero n m z o path) (ip_collect-IsTold (path ++ (false ∷ [])) z))
      (All-append _ _ _
        (All-map _ _ _ (IsTold-one n m z o path) (ip_collect-IsTold (path ++ (true ∷ [])) o)) own)
  where
    own : All (IsTold (node n m z o) path) (
        if m == ift_none
        then []
        else record { addr = path; smask = length path; count = n; cmd = m } ∷ [])
    own = elim (Bool-cases (m == ift_none)) [
      | inl e ↦ rw e tt
      | inr e ↦ rw e (
        record {
          rest = [];
          address = sym (append-nil path);
          length_told = refl;
          rule_told = unfold rule in refl;
        },
        tt,
      )
    ]

tree-IsTold : (t : Tree) → All (IsTold t []) (ip_table t)
unfolding ip_table
tree-IsTold null = tt
tree-IsTold (node n m z o) = (
  record { rest = []; address = refl; length_told = refl; rule_told = unfold rule in refl },
  All-append _ _ _ (All-map _ _ _ (IsTold-zero n m z o []) (ip_collect-IsTold (false ∷ []) z))
      (All-map _ _ _ (IsTold-one n m z o []) (ip_collect-IsTold (true ∷ []) o)),
)

-- The table of a list that is in order has `g_ipcnt` entries, which is what `ip_table` allocates, and
-- every entry tells a prefix, its length, and the rule that it has.
pub ip_table-IsTold :
    (l : IpList)
    → IsListed l
    → (length (ip_table l.tree) ≡ l.ipcnt) × All (IsTold l.tree []) (ip_table l.tree)
ip_table-IsTold l v = (length-ip_table l v, tree-IsTold l.tree)
