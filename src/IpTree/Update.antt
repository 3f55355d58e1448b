-- ===== src/IpTree/Update.antt =====
-- `ip_add_sm` of server/iplist.c as a whole: it returns on every mask up to 32, changes the rule of
-- one prefix alone, and keeps the list answering and counted.
use x_grey.Prelude.{
  ℕ, zero, suc, ◌+◌, ◌-◌, ◌≤◌, ◌<◌, ◌≡◌, refl, sym, ◌∙◌, ap, ◌≢◌, inl, inr, Bool, false, List, [],
  ◌==◌, if◌then◌else◌, take, length, length-take, arith, Returns, Bool-cases, lt→ltb,
}
use x_grey.Protocol.{ift_none, ift_remove}
use x_grey.IpTree.{
  Tree, null, node, make_path, set_match, IpList, write_match, ip_add_sm, address_bits,
}
use x_grey.IpTree.Rules.{rule, rule-null, count_rules}
use x_grey.IpTree.Match.{IsAnswering}
use x_grey.IpTree.Add.{
  put, has, count_rules-make_path, rule-make_path, rule-put_self, rule-set_match_ne,
  count_rules-put, make_path-Fits, set_match-Fits,
}

pub record IsListed (l : IpList) : Type 0 where
  pub answering : IsAnswering l.tree
  pub counted : l.ipcnt ≡ count_rules l.tree

-- What `ip_add_sm` does to the rule of its prefix: a removal takes it away, but not the default.
unfoldable pub new_rule : ℕ → ℕ → ℕ → ℕ
new_rule old mask cmd = if cmd == ift_remove then (if mask == 0 then old else ift_none) else cmd

pub record IsUpdate (l l' : IpList) (mask : ℕ) (path : List Bool) (cmd : ℕ) : Type 0 where
  pub listed : IsListed l'
  pub here : rule l'.tree path ≡ new_rule (rule l.tree path) mask cmd
  pub others : (q : List Bool) → q ≢ path → rule l'.tree q ≡ rule l.tree q

module _ (l : IpList) (v : IsListed l) (path : List Bool) (short : length path < 33) where
  -- Writing a verdict, when that does not take the default away.
  put-IsListed :
      (cnt cmd : ℕ)
      → rule (put l.tree path cmd) [] ≢ ift_none
      → cnt + has (rule l.tree path) ≡ l.ipcnt + has cmd
      → IsListed (record { tree = put l.tree path cmd; ipcnt = cnt })
  put-IsListed cnt cmd d e = record {
    answering = record {
      default = d;
      levels =
          set_match-Fits _ path cmd 33 (make_path-Fits l.tree path 33 short v.answering.levels);
    };
    counted = omega (arith, count_rules-put l.tree path cmd, v.counted);
  }

  put_others : (cmd : ℕ) (q : List Bool) → q ≢ path → rule (put l.tree path cmd) q ≡ rule l.tree q
  put_others cmd q h = rule-set_match_ne _ path q cmd h ∙ rule-make_path l.tree path q

  put_default : path ≢ [] → (m : ℕ) → rule (put l.tree path m) [] ≢ ift_none
  put_default ne m e = v.answering.default (sym (put_others m [] (λ p. ne (sym p))) ∙ e)

  module _ (mask cmd : ℕ) (sane : cmd ≢ ift_none) (deep : 0 < mask) (ne : path ≢ []) where
    -- The three ways out of the last tests of `ip_add_sm`, below the default.
    keep_path :
        rule l.tree path ≡ ift_none
        → cmd ≡ ift_remove
        → IsUpdate l (record l { tree = make_path l.tree path }) mask path cmd
    unfolding new_rule
    keep_path e r = record {
      listed = record {
        answering = record {
          default = λ x. v.answering.default (sym (rule-make_path l.tree path []) ∙ x);
          levels = make_path-Fits l.tree path 33 short v.answering.levels;
        };
        counted = v.counted ∙ sym (count_rules-make_path l.tree path);
      };
      here = rule-make_path l.tree path path ∙ ground arith;
      others = λ q h. rule-make_path l.tree path q;
    }

    remove_rule :
        rule l.tree path ≢ ift_none
        → cmd ≡ ift_remove
        → IsUpdate l (record { tree = put l.tree path ift_none; ipcnt = l.ipcnt - 1 }) mask path cmd
    unfolding new_rule
    remove_rule e r = record {
      listed =
          put-IsListed (l.ipcnt - 1) ift_none (put_default ne ift_none)
            (ground (arith, count_rules-put l.tree path ift_none, v.counted));
      here = rule-put_self l.tree path ift_none ∙ ground arith;
      others = put_others ift_none;
    }

    count_set :
        (cnt : ℕ)
        → cnt ≡ (if rule l.tree path == ift_none then l.ipcnt + 1 else l.ipcnt)
        → cnt + has (rule l.tree path) ≡ l.ipcnt + has cmd
    count_set cnt e = elim (Bool-cases (rule l.tree path == ift_none)) [
      | inl q ↦ ground arith
      | inr q ↦ ground arith
    ]

    set_rule :
        (cnt : ℕ)
        → cnt ≡ (if rule l.tree path == ift_none then l.ipcnt + 1 else l.ipcnt)
        → cmd ≢ ift_remove
        → IsUpdate l (record { tree = put l.tree path cmd; ipcnt = cnt }) mask path cmd
    unfolding new_rule
    set_rule cnt e r = record {
      listed = put-IsListed cnt cmd (put_default ne cmd) (count_set cnt e);
      here = rule-put_self l.tree path cmd ∙ ground arith;
      others = put_others cmd;
    }

    write_match-IsUpdate :
        (old : ℕ)
        → old ≡ rule l.tree path
        → IsUpdate l (write_match l (make_path l.tree path) path old cmd) mask path cmd
    unfolding write_match
    write_match-IsUpdate old e = elim (Bool-cases (old == ift_none)) [
      | inl a ↦ elim (Bool-cases (cmd == ift_remove)) [
        | inl b ↦ rw (a, b) (keep_path (ground arith) (ground arith))
        | inr b ↦ rw (a, b) (set_rule (l.ipcnt + 1) (ground arith) (ground arith))
      ]
      | inr a ↦ elim (Bool-cases (cmd == ift_remove)) [
        | inl b ↦ rw (a, b) (remove_rule (ground arith) (ground arith))
        | inr b ↦ rw (a, b) (set_rule l.ipcnt (ground arith) (ground arith))
      ]
    ]

set_match-root : (t : Tree) (cmd : ℕ) → rule t [] ≢ ift_none → set_match t [] cmd ≡ put t [] cmd
unfolding set_match make_path
set_match-root null cmd h = absurd (h (rule-null []))
set_match-root (node n m z o) cmd h = refl

default-set :
    (l : IpList) (cmd : ℕ)
    → IsListed l
    → cmd ≢ ift_none
    → cmd ≢ ift_remove
    → IsUpdate l (record l { tree = put l.tree [] cmd }) 0 [] cmd
unfolding new_rule
default-set l cmd v sane r = record {
  listed =
      put-IsListed l v [] (omega arith) l.ipcnt cmd
        (λ e. sane (sym (rule-put_self l.tree [] cmd) ∙ e)) (ground (arith, v.answering.default));
  here = rule-put_self l.tree [] cmd ∙ ground arith;
  others = put_others l v [] (omega arith) cmd;
}

-- `ip_add_sm` with mask 0: the default changes, or a removal is ignored.
default-IsUpdate :
    (l : IpList) (cmd : ℕ)
    → IsListed l
    → cmd ≢ ift_none
    → IsUpdate l
        (if cmd == ift_remove then l else record l { tree = set_match l.tree [] cmd })
        0
        []
        cmd
default-IsUpdate l cmd v sane = elim (Bool-cases (cmd == ift_remove)) [
  | inl b ↦
      rw b (record { listed = v; here = (unfold new_rule in ground arith); others = λ q h. refl })
  | inr b ↦
      rw (b, set_match-root l.tree cmd v.answering.default)
        (default-set l cmd v sane (ground arith))
]

suc-ne-zero : (m : ℕ) → (suc m == 0) ≡ false
suc-ne-zero m = ground arith

-- On every mask up to 32 `ip_add_sm` returns; it changes the rule of that prefix alone, to the verdict
-- given, to none for a removal, or not at all for a removal of the default; and a listed list stays
-- listed. The verdict is not `ift_none`.
pub ip_add_sm-IsUpdate :
    (l : IpList) (ip : List ℕ) (mask cmd : ℕ)
    → IsListed l
    → mask ≤ 32
    → cmd ≢ ift_none
    → mask ≤ length (address_bits ip)
    → Returns (ip_add_sm l ip mask cmd) (λ l'. IsUpdate l l' mask (take mask (address_bits ip)) cmd)
unfolding ip_add_sm rule
ip_add_sm-IsUpdate l ip zero cmd v h sane bits = default-IsUpdate l cmd v sane
ip_add_sm-IsUpdate l ip (suc m) cmd v h sane bits =
    rw (lt→ltb (suc m) 33 (omega arith), suc-ne-zero m)
      (write_match-IsUpdate l v path short (suc m) cmd sane (omega arith)
        (λ e. omega (arith, ap length e, length-take (suc m) (address_bits ip)))
        (rule (make_path l.tree path) path) (rule-make_path l.tree path path))
  where
    path : List Bool
    path = take (suc m) (address_bits ip)

    short : length path < 33
    short = omega (arith, length-take (suc m) (address_bits ip))
