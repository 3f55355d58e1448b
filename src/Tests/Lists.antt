-- ===== src/Tests/Lists.antt =====
-- server/emaildomain.c and server/iplist.c on two short lists.
use x_grey.Prelude.{ℕ, ◌≤◌, refl, Bool, List, [], ◌∷◌, arith, length, take, Returns, replicate}
use x_grey.Order.{strcmp, bytes_cmp}
use x_grey.Bisearch.{bisearch}
use x_grey.Sorted.{look_key}
use x_grey.Sorted.Search.{Found, bisearch-Found}
use x_grey.IpTree.{null, node, ip_match, ip_add_sm, IpList, address_bits}
use x_grey.IpTree.Rules.{rule, count_rules}
use x_grey.IpTree.Match.{IsMatched, ip_match-IsMatched}
use x_grey.IpTree.Update.{IsListed, IsUpdate, ip_add_sm-IsUpdate}
use x_grey.EmailDomain.{Entry, EList, update_list, consult}
use x_grey.EmailDomain.Update.{text_of, IsSorted, IsRequested, update_list-IsRequested}
use x_grey.EmailDomain.Lookup.{IsSane, IsConsulted, consult-IsConsulted}

abbrev two_entries : List Entry
two_entries =
    record { text = 97 ∷ []; tsize = 1; count = 5; cmd = 2 }
    ∷ record { text = 98 ∷ 99 ∷ []; tsize = 2; count = 0; cmd = 1 }
    ∷ []

abbrev two_list : EList
two_list = record {
  items = two_entries;
  max = 100;
  def_cmd = 0;
  def_count = 7;
  cmdcnt = record { greylist = 7; accept = 0; reject = 5 };
}

two_list-IsSorted : IsSorted two_list
unfolding strcmp
two_list-IsSorted = record { ascending = ((refl, tt), (tt, tt)); roomy = omega arith }

two_list-IsSane : IsSane two_list
two_list-IsSane = record { default = omega arith; entries = (omega arith, (omega arith, tt)) }

bisearch-Found_example :
    Found bytes_cmp text_of
      (98 ∷ 99 ∷ [])
      (take 2 two_entries)
      (bisearch (look_key bytes_cmp text_of) (98 ∷ 99 ∷ []) two_entries 2)
bisearch-Found_example =
    bisearch-Found bytes_cmp text_of (98 ∷ 99 ∷ []) 2 two_entries (omega arith)
      two_list-IsSorted.ascending

abbrev new_entry : Entry
new_entry = record { text = 97 ∷ 98 ∷ []; tsize = 2; count = 0; cmd = 2 }

update_list-IsRequested_example :
    Returns (update_list two_list Bool.false new_entry) (IsRequested two_list Bool.false new_entry)
update_list-IsRequested_example =
    update_list-IsRequested two_list Bool.false new_entry two_list-IsSorted

consult-IsConsulted_example : Returns (consult two_list (97 ∷ [])) (IsConsulted two_list (97 ∷ []))
consult-IsConsulted_example =
    consult-IsConsulted two_list (97 ∷ []) two_list-IsSorted two_list-IsSane

abbrev one_rule : IpList
one_rule = record { tree = node 0 1 null null; ipcnt = 1 }

abbrev address : List ℕ
address = 192 ∷ 168 ∷ 1 ∷ 7 ∷ replicate 12 0

address_long : 33 ≤ length (address_bits address)
unfolding address_bits
address_long = omega arith

one_rule-IsListed : IsListed one_rule
unfolding rule count_rules
one_rule-IsListed = record {
  answering = record { default = λ e. omega (arith, e); levels = (tt, tt) };
  counted = refl;
}

ip_match-IsMatched_example :
    Returns
      (ip_match one_rule.tree address)
      (λ r. IsMatched one_rule.tree (address_bits address) r.0 r.1)
ip_match-IsMatched_example =
    ip_match-IsMatched one_rule.tree address one_rule-IsListed.answering address_long

ip_add_sm-IsUpdate_example :
    Returns
      (ip_add_sm one_rule address 16 2)
      (λ l'. IsUpdate one_rule l' 16 (take 16 (address_bits address)) 2)
ip_add_sm-IsUpdate_example =
    ip_add_sm-IsUpdate one_rule address 16 2 one_rule-IsListed (omega arith) (λ e. omega (arith, e))
      (omega (arith, address_long))
