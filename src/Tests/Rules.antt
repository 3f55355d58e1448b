-- ===== src/Tests/Rules.antt =====
-- Witnesses: the file of the rules, written and read again.
use x_grey.Prelude.{
  ℕ, zero, suc, ◌≡◌, ◌≢◌, refl, ap, ◌∙◌, Bool, true, false, ◌&&◌, List, [], ◌∷◌, ◌++◌, replicate,
  if◌then◌else◌, arith, Returns, Bool-cases, inl, inr,
}
use x_grey.Text.{is_space, skip_space, is_empty}
use x_grey.IpTree.{IpList, node, null}
use x_grey.IpTree.Rules.{rule, rule-null, count_rules}
use x_grey.IpTree.Update.{IsListed}
use x_grey.IpTree.Dump.{iplist_dump_stream}
use x_grey.Text.Trimmed.{starts, ends}
use x_grey.IpTree.Line.{IsTrimming}
use x_grey.IpTree.RoundTrip.{IsReadBack, iplist_read-iplist_dump_stream}
use x_grey.IpTree.Reader.{Trimming, iplist_read}
use x_grey.Tests.Texts.{two_rules, two_rules-IsListed}

unfoldable pub trim_end : List ℕ → List ℕ
unfolding is_space is_empty
trim_end [] = []
trim_end (b ∷ bs) = let more = trim_end bs in if is_space b && is_empty more then [] else b ∷ more

abbrev trimming : Trimming
trimming = record {
  empty_string = λ s. is_empty s;
  trim_space = λ s. trim_end (skip_space s);
  up_string = λ s. s;
}

pub skip_space-replicate : (n : ℕ) (t : List ℕ) → skip_space (replicate n b' ' ++ t) ≡ skip_space t
unfolding skip_space is_space
skip_space-replicate zero t = refl
skip_space-replicate (suc n) t = skip_space-replicate n t

pub skip_space-starts : (t s : List ℕ) → starts t ≡ true → skip_space (t ++ s) ≡ t ++ s
unfolding skip_space
skip_space-starts [] s h = ground (arith, h)
skip_space-starts (b ∷ bs) s h = elim (Bool-cases (is_space b)) [
  | inl e ↦ ground (arith, h, e)
  | inr e ↦ rw e refl
]

trim_end-cons :
    (b : ℕ) (t : List ℕ) (c : ℕ) (cs : List ℕ) → trim_end t ≡ c ∷ cs → trim_end (b ∷ t) ≡ b ∷ c ∷ cs
unfolding trim_end is_empty
trim_end-cons b t c cs h = elim (Bool-cases (is_space b)) [
  | inl e ↦ rw (h, e) refl
  | inr e ↦ rw (h, e) refl
]

pub trim_end-ends : (t : List ℕ) → ends t ≡ true → trim_end (t ++ (10 ∷ [])) ≡ t
unfolding trim_end is_empty
trim_end-ends [] h = ground (arith, h)
trim_end-ends (b ∷ []) h = elim (Bool-cases (is_space b)) [
  | inl e ↦ ground (arith, h, e)
  | inr e ↦ rw e refl
]
trim_end-ends (b ∷ c ∷ bs) h =
    trim_end-cons b ((c ∷ bs) ++ (10 ∷ [])) c bs (trim_end-ends (c ∷ bs) h)

trimming-IsTrimming : IsTrimming trimming
unfolding is_empty
trimming-IsTrimming = record {
  trims = λ n t h k.
      ap trim_end (skip_space-replicate n (t ++ (10 ∷ [])) ∙ skip_space-starts t (10 ∷ []) h)
      ∙ trim_end-ends t k;
  uppers = λ t h. refl;
  has_bytes = λ b bs h. refl;
}

abbrev default_alone : IpList
default_alone = record { tree = node 0 0 null null; ipcnt = 1 }

default_alone-IsListed : IsListed default_alone
unfolding rule count_rules
default_alone-IsListed = record {
  answering = record { default = λ e. omega (arith, e); levels = (tt, tt) };
  counted = refl;
}

default_alone-rule : (p : List Bool) → p ≢ [] → rule default_alone.tree p ≡ 5
unfolding rule
default_alone-rule [] h = elim (h refl) [ ]
default_alone-rule (false ∷ p) h = rule-null p
default_alone-rule (true ∷ p) h = rule-null p

-- The default, and `0.0.0.0/1 ACCEPT`.
iplist_read-iplist_dump_stream_example :
    Returns
      (iplist_read trimming (7 ∷ 7 ∷ 7 ∷ 7 ∷ []) (iplist_dump_stream two_rules.tree) default_alone)
      (IsReadBack two_rules)
unfolding x_grey.IpTree.Table.ip_table
iplist_read-iplist_dump_stream_example =
    iplist_read-iplist_dump_stream trimming two_rules default_alone 7 7 7 7 [] trimming-IsTrimming
      two_rules-IsListed (omega arith, (omega arith, tt)) default_alone-IsListed default_alone-rule
