-- ===== src/IpTree/Restore.antt =====
-- server/iplist.c: the file that `iplist_dump_stream` writes, read again by `iplist_read`.
use x_grey.Prelude.{
  ℕ, ◌≤◌, ◌<◌, ◌≡◌, ◌≢◌, ◌⊎◌, inl, inr, refl, ap, sym, subst, ◌∙◌, Bool, true, false, List, [], ◌∷◌,
  ◌++◌, map, All, length, take, arith, Returns, Returns-bind, Returns-impl,
}
use x_grey.Names.{ci_map_chars, ci_map_int, c_ift}
use x_grey.Names.Round.{ci_map_int-verdict}
use x_grey.Text.Number.{decimal}
use x_grey.Text.Address.{ipv4}
use x_grey.EmailDomain.Dump.{at_right}
use x_grey.Server.Answer.{length-address_bits}
use x_grey.IpTree.{Tree, IpList, ip_add_sm, address_bits}
use x_grey.IpTree.Rules.{rule}
use x_grey.IpTree.Update.{IsListed, IsUpdate, new_rule, ip_add_sm-IsUpdate}
use x_grey.IpTree.Table.{IpBlock}
use x_grey.IpTree.Packing.{Quad, packed-Quad, take-Quad}
use x_grey.IpTree.Dump.{rule_line, ipv4_of}
use x_grey.IpTree.Line.{IsTrimming, line-IsTaken}
use x_grey.IpTree.Reader.{Trimming, IsRule, rule_of-IsRule, iplist_read}

-- An entry of at most 32 bits, with a verdict that can be given.
pub record IsEntry (e : IpBlock) : Type 0 where
  pub short : length e.addr ≤ 32
  pub size : e.smask ≡ length e.addr
  pub verdict : e.cmd < 3

abbrev tail : List Bool → List Bool
tail [] = []
tail (b ∷ p) = p

path-cases : (p q : List Bool) → (q ≡ p) ⊎ (q ≢ p)
path-cases [] [] = inl refl
path-cases [] (c ∷ q) = inr (λ e. ground (arith, e))
path-cases (b ∷ p) [] = inr (λ e. ground (arith, e))
path-cases (false ∷ p) (true ∷ q) = inr (λ e. ground (arith, e))
path-cases (true ∷ p) (false ∷ q) = inr (λ e. ground (arith, e))
path-cases (false ∷ p) (false ∷ q) = elim (path-cases p q) [
  | inl e ↦ inl (ap (λ (r : List Bool). false ∷ r) e)
  | inr e ↦ inr (λ k. e (ap tail k))
]
path-cases (true ∷ p) (true ∷ q) = elim (path-cases p q) [
  | inl e ↦ inl (ap (λ (r : List Bool). true ∷ r) e)
  | inr e ↦ inr (λ k. e (ap tail k))
]

line_of-Quad :
    (e : IpBlock) (q : Quad e.addr)
    → rule_line e
      ≡ at_right 18 (take 18 (ipv4 q.a q.b q.c q.d (b'/' ∷ decimal e.smask [])))
        ++ (b' ' ∷ (ci_map_chars e.cmd c_ift ++ (10 ∷ [])))
unfolding rule_line ipv4_of
line_of-Quad e q =
    ap
      (λ (os : List ℕ).
        at_right 18 (take 18 (ipv4_of os (b'/' ∷ decimal e.smask [])))
        ++ (b' ' ∷ (ci_map_chars e.cmd c_ift ++ (10 ∷ []))))
      q.is_packed

module _ (lib : Trimming) (trimming : IsTrimming lib) where
  -- The rule that the reader finds on the line of an entry.
  abbrev rule_read : (e : IpBlock) → IsEntry e → Quad e.addr → IsRule lib (rule_line e)
  rule_read e h q =
      let (ha, (hb, (hc, hd))) = q.octets in
      let taken =
        line-IsTaken lib trimming q.a q.b q.c q.d e.smask e.cmd ha hb hc hd
          (omega (arith, h.short, h.size)) h.verdict (rule_line e) (line_of-Quad e q) in
      record {
        a = q.a;
        b = q.b;
        c = q.c;
        d = q.d;
        mask = e.smask;
        word = ci_map_chars e.cmd c_ift;
        rest = [];
        octets = q.octets;
        short = omega (arith, h.short, h.size);
        verdict = omega (arith, ci_map_int-verdict e.cmd (omega (arith, h.verdict)), h.verdict);
        there = taken.0;
        fields = taken.1;
      }

  module _ (t : Tree) where
    -- What the list holds after some lines: the rules of `t` that it had, and those on the lines.
    pub record IsRestored (l : IpList) (es : List IpBlock) (r : IpList × Bool) : Type 0 where
      pub listed : IsListed r.0
      pub ended : r.1 ≡ true
      pub kept : (p : List Bool) → rule l.tree p ≡ rule t p → rule r.0.tree p ≡ rule t p
      pub found : All (λ e. rule r.0.tree e.addr ≡ rule t e.addr) es

    -- One rule of `t` more.
    module _ (e : IpBlock) (h : IsEntry e) (same : rule t e.addr ≡ e.cmd) (l l' : IpList)
        (u : IsUpdate l l' e.smask e.addr e.cmd) where
      now_there : rule l'.tree e.addr ≡ rule t e.addr
      unfolding new_rule
      now_there = ground (arith, u.here, same, h.verdict)

      still_there : (p : List Bool) → rule l.tree p ≡ rule t p → rule l'.tree p ≡ rule t p
      still_there p k = elim (path-cases e.addr p) [
        | inl x ↦ subst (λ (q : List Bool). rule l'.tree q ≡ rule t q) (sym x) now_there
        | inr x ↦ u.others p x ∙ k
      ]

      one_more :
          (es : List IpBlock) (r : IpList × Bool) → IsRestored l' es r → IsRestored l (e ∷ es) r
      one_more es r g = record {
        listed = g.listed;
        ended = g.ended;
        kept = λ p k. g.kept p (still_there p k);
        found = (g.kept e.addr now_there, g.found);
      }

    pub restored :
        (es : List IpBlock) (w x y z : ℕ) (more : List ℕ) (l : IpList)
        → All IsEntry es
        → All (λ e. rule t e.addr ≡ e.cmd) es
        → IsListed l
        → Returns (iplist_read lib (w ∷ x ∷ y ∷ z ∷ more) (map rule_line es) l) (IsRestored l es)
    unfolding iplist_read
    restored [] w x y z more l h same v = record {
      listed = v;
      ended = refl;
      kept = λ p k. k;
      found = tt;
    }
    restored (e ∷ es) w x y z more l (h, hs) (same, sames) v =
        let q = packed-Quad e.addr in
        let r : IsRule lib (rule_line e) = rule_read e h q in
        let octets : List ℕ = q.a ∷ q.b ∷ q.c ∷ q.d ∷ more in
        let path =
          ap (λ (n : ℕ). take n (address_bits octets)) h.size ∙ take-Quad e.addr q more h.short in
        let cmd = ci_map_int-verdict e.cmd (omega (arith, h.verdict)) in
        rw (r.there, r.fields, rule_of-IsRule lib (rule_line e) w x y z more r)
          (Returns-bind (ip_add_sm l octets e.smask (ci_map_int (ci_map_chars e.cmd c_ift) c_ift)) _
            _ _
            (ip_add_sm-IsUpdate l octets e.smask (ci_map_int (ci_map_chars e.cmd c_ift) c_ift) v
              (omega (arith, h.short, h.size)) (λ k. omega (arith, k, cmd, h.verdict))
              (omega (arith, length-address_bits octets, h.short, h.size)))
            (λ l' u.
              let v' : IsUpdate l l' e.smask e.addr e.cmd = rw (path, cmd) at u in
              Returns-impl _ _ _ (one_more e h same l l' v' es)
                (restored es q.a q.b q.c q.d more l' hs sames v'.listed)))
