-- ===== src/IpTree/RoundTrip.antt =====
-- server/iplist.c: the rules of a whole tree, written by `iplist_dump_stream` and read again.
use x_grey.Prelude.{
  ℕ, zero, suc, ◌+◌, ◌≤◌, ◌<◌, ◌≡◌, ◌≢◌, inl, inr, sym, subst, ◌∙◌, Bool, true, false, List, [],
  ◌∷◌, ◌++◌, ◌==◌, ==_iff, Bool-cases, if◌then◌else◌, All, All-and, All-impl, length, length-append,
  arith, Returns, Returns-impl,
}
use mathlib.Core.List.{append-nil}
use x_grey.Protocol.{ift_none}
use x_grey.IpTree.{Tree, null, node, IpList}
use x_grey.IpTree.Rules.{rule, rule-null, Fits}
use x_grey.IpTree.Update.{IsListed}
use x_grey.IpTree.Table.{IpBlock, ip_table, ip_collect, ip_table-IsTold, All-append, snoc-append}
use x_grey.IpTree.Dump.{iplist_dump_stream}
use x_grey.IpTree.Line.{IsTrimming}
use x_grey.IpTree.Restore.{IsEntry, IsRestored, restored}
use x_grey.IpTree.Reader.{Trimming, iplist_read}

abbrev IsShort : IpBlock → Type 0
IsShort e = length e.addr ≤ 32

-- The entries of a tree of at most `k` levels, below a path.
ip_collect-IsShort :
    (k : ℕ) (path : List Bool) (t : Tree)
    → Fits t k
    → length path + k ≤ 33
    → All IsShort (ip_collect path t)
unfolding ip_collect
ip_collect-IsShort k path null h s = tt
ip_collect-IsShort zero path (node n m z o) h s = elim h [ ]
ip_collect-IsShort (suc k) path (node n m z o) (hz, ho) s =
    All-append IsShort _ _
      (ip_collect-IsShort k (path ++ (false ∷ [])) z hz
        (omega (arith, length-append path (false ∷ []), s)))
      (All-append IsShort _ _
        (ip_collect-IsShort k (path ++ (true ∷ [])) o ho
          (omega (arith, length-append path (true ∷ []), s)))
        own)
  where
    own : All IsShort (
        if m == ift_none
        then []
        else record { addr = path; smask = length path; count = n; cmd = m } ∷ [])
    own = elim (Bool-cases (m == ift_none)) [
      | inl e ↦ rw e tt
      | inr e ↦ rw e (omega (arith, s), tt)
    ]

ip_table-IsShort : (t : Tree) → Fits t 33 → All IsShort (ip_table t)
unfolding ip_table
ip_table-IsShort null h = tt
ip_table-IsShort (node n m z o) (hz, ho) = (
  omega arith,
  All-append IsShort _ _ (ip_collect-IsShort 32 (false ∷ []) z hz (omega arith))
      (ip_collect-IsShort 32 (true ∷ []) o ho (omega arith)),
)

module _ (P : List Bool → Type 0) where
  abbrev AtAddress : IpBlock → Type 0
  AtAddress e = P e.addr

  left-All : (xs ys : List IpBlock) → All AtAddress (xs ++ ys) → All AtAddress xs
  left-All [] ys h = tt
  left-All (x ∷ xs) ys h = (h.0, left-All xs ys h.1)

  right-All : (xs ys : List IpBlock) → All AtAddress (xs ++ ys) → All AtAddress ys
  right-All [] ys h = h
  right-All (x ∷ xs) ys h = right-All xs ys h.1

  -- Every prefix that has a rule is in the table.
  ip_collect-All :
      (path : List Bool) (t : Tree)
      → All AtAddress (ip_collect path t)
      → (q : List Bool) → rule t q ≢ ift_none
      → P (path ++ q)
  unfolding ip_collect rule
  ip_collect-All path null h q k = elim (k (rule-null q)) [ ]
  ip_collect-All path (node n m z o) h [] k = elim (Bool-cases (m == ift_none)) [
    | inl e ↦ elim (k ((==_iff m ift_none).0 e)) [ ]
    | inr e ↦
        let own : All AtAddress (
            if m == ift_none
            then []
            else record { addr = path; smask = length path; count = n; cmd = m } ∷ []) =
          right-All (ip_collect (path ++ (true ∷ [])) o) _
            (right-All (ip_collect (path ++ (false ∷ [])) z) _ h) in
        let there : AtAddress (record { addr = path; smask = length path; count = n; cmd = m })
            × Unit =
          rw e at own in
        subst P (sym (append-nil path)) there.0
  ]
  ip_collect-All path (node n m z o) h (false ∷ q) k =
      subst P (snoc-append path q false)
        (ip_collect-All (path ++ (false ∷ [])) z (left-All _ _ h) q k)
  ip_collect-All path (node n m z o) h (true ∷ q) k = subst P (snoc-append path q true) (
      ip_collect-All (path ++ (true ∷ [])) o
        (left-All _ _ (right-All (ip_collect (path ++ (false ∷ [])) z) _ h)) q k)

  ip_table-All :
      (t : Tree) → All AtAddress (ip_table t) → (q : List Bool) → rule t q ≢ ift_none → P q
  unfolding ip_table rule
  ip_table-All null h q k = elim (k (rule-null q)) [ ]
  ip_table-All (node n m z o) h [] k = h.0
  ip_table-All (node n m z o) h (false ∷ q) k = ip_collect-All (false ∷ []) z (left-All _ _ h.1) q k
  ip_table-All (node n m z o) h (true ∷ q) k =
      ip_collect-All (true ∷ []) o (right-All (ip_collect (false ∷ []) z) _ h.1) q k

-- The verdicts of the rules are those that can be given.
abbrev pub AreVerdicts : Tree → Type 0
AreVerdicts t = All (λ e. e.cmd < 3) (ip_table t)

table-IsEntry : (l : IpList) → IsListed l → AreVerdicts l.tree → All IsEntry (ip_table l.tree)
table-IsEntry l v h =
    All-impl _ _ (ip_table l.tree)
      (λ e k. record { short = k.0; size = k.1.0.length_told; verdict = k.1.1 })
      (All-and _ _ (ip_table l.tree) (ip_table-IsShort l.tree v.answering.levels)
        (All-and _ _ (ip_table l.tree) (ip_table-IsTold l v).1 h))

table-rule : (l : IpList) → IsListed l → All (λ e. rule l.tree e.addr ≡ e.cmd) (ip_table l.tree)
table-rule l v =
    All-impl _ _ (ip_table l.tree)
      (λ e k. subst (λ (p : List Bool). rule l.tree p ≡ e.cmd) (sym k.address) k.rule_told)
      (ip_table-IsTold l v).1

-- What has been read from the file of a list, with whether the file was read to its end.
abbrev pub IsReadBack : IpList → IpList × Bool → Type 0
IsReadBack l r = IsListed r.0 × ((r.1 ≡ true) × ((p : List Bool) → rule r.0.tree p ≡ rule l.tree p))

-- With a list that is in order and whose verdicts are those that can be given, the file that
-- `iplist_dump_stream` writes is read to its end by `iplist_read` into a list in order that has a
-- default alone, whatever the array of the address held: the list is in order then, and every prefix
-- has the rule that it had when the file was written, or has none as it had none. The functions of
-- cgilib6 do what `IsTrimming` says.
pub iplist_read-iplist_dump_stream :
    (lib : Trimming) (l s : IpList) (w x y z : ℕ) (more : List ℕ)
    → IsTrimming lib
    → IsListed l
    → AreVerdicts l.tree
    → IsListed s
    → ((p : List Bool) → p ≢ [] → rule s.tree p ≡ ift_none)
    → Returns (iplist_read lib (w ∷ x ∷ y ∷ z ∷ more) (iplist_dump_stream l.tree) s) (IsReadBack l)
unfolding iplist_dump_stream
iplist_read-iplist_dump_stream lib l s w x y z more trimming v verdicts vs alone =
    Returns-impl _ _ (IsReadBack l) (λ r g. (g.listed, (g.ended, all_rules r g)))
      (restored lib trimming l.tree (ip_table l.tree) w x y z more s (table-IsEntry l v verdicts)
        (table-rule l v) vs)
  where
    all_rules :
        (r : IpList × Bool)
        → IsRestored lib trimming l.tree s (ip_table l.tree) r
        → (p : List Bool) → rule r.0.tree p ≡ rule l.tree p
    all_rules r g [] =
        ip_table-All (λ p. rule r.0.tree p ≡ rule l.tree p) l.tree g.found [] v.answering.default
    all_rules r g (b ∷ p) = elim (Bool-cases (rule l.tree (b ∷ p) == ift_none)) [
      | inl e ↦
          g.kept (b ∷ p) (alone (b ∷ p) (λ k. ground (arith, k)) ∙ sym ((==_iff _ ift_none).0 e))
      | inr e ↦
          ip_table-All (λ p. rule r.0.tree p ≡ rule l.tree p) l.tree g.found (b ∷ p)
            (λ k. ground (arith, k, e))
    ]
