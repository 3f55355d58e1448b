-- ===== src/Server/Checks.antt =====
-- The checks of `type_greylist` in server/gld.c before the tuples: the address, the sender and the
-- recipient.
use x_grey.Prelude.{
  ℕ, zero, suc, ◌≤◌, ◌<◌, ◌≡◌, refl, sym, subst, ap, ◌∙◌, ◌≢◌, none, some, Bool, false, List, arith,
  length, done, Returns, Returns-impl, Returns-bind, Bool-cases, Option-cases, inl, inr, ◌==◌,
  if◌then◌else◌, ◌>>=◌,
}
use x_grey.Protocol.{Reason, ift_none, ift_greylist, ip, from, from_domain, to, to_domain}
use x_grey.Tuple.{Tuple}
use x_grey.IpTree.{Tree, IpList, ip_match, address_bits}
use x_grey.IpTree.Rules.{rule}
use x_grey.IpTree.Match.{IsMatched, ip_match-IsMatched}
use x_grey.IpTree.Update.{IsListed}
use x_grey.EmailDomain.{EList, count_cmd, consult}
use x_grey.EmailDomain.Update.{IsSorted}
use x_grey.EmailDomain.Lookup.{IsSane, IsConsulted, consult-IsConsulted, total-count_cmd}
use x_grey.Server.{
  Server, Verdict, after_at, check_domain, check_address, check_from, check_to, check_ip, c_str,
}

-- A list in order, with verdicts that have a counter.
pub record IsList (l : EList) : Type 0 where
  pub sorted : IsSorted l
  pub sane : IsSane l

-- The address list in order, with verdicts that have a counter.
pub record IsIpList (l : IpList) : Type 0 where
  pub listed : IsListed l
  pub sane : (q : List Bool) → rule l.tree q ≢ ift_none → rule l.tree q < 3

-- The lists of the daemon.
pub record HasLists (s : Server) : Type 0 where
  pub ips : IsIpList s.ips
  pub to_list : IsList s.to_list
  pub tod_list : IsList s.tod_list
  pub from_list : IsList s.from_list
  pub fromd_list : IsList s.fromd_list

-- A verdict that settles a request is none of the counters' outsiders, and not to put off.
abbrev pub IsSettled : Verdict → Type 0
IsSettled none = Unit
IsSettled (some (v, why)) = (v < 3) × (v ≢ ift_greylist)

suc_ne : (n : ℕ) → (suc n == ift_greylist) ≡ false
suc_ne n = ground arith

settled :
    (v : ℕ) (why : Reason) → v < 3 → IsSettled (if v == ift_greylist then none else some (v, why))
settled zero why h = tt
settled (suc n) why h = rw (suc_ne n) (h, λ e. omega (arith, e))

consult-IsList :
    (l : EList) (key : List ℕ) → IsList l → Returns (consult l key) (λ r. IsList r.0 × r.2 < 3)
consult-IsList l key v =
    Returns-impl (consult l key) (IsConsulted l key) _
      (λ r w. (record { sorted = w.sorted; sane = w.sane }, w.in_range))
      (consult-IsConsulted l key v.sorted v.sane)

check_domain-IsSettled :
    (dl : EList) (text : List ℕ) (why : Reason)
    → IsList dl
    → Returns (check_domain dl text why) (λ r. IsList r.0 × IsSettled r.1)
unfolding check_domain
check_domain-IsSettled dl text why v = elim (Option-cases (after_at text)) [
  | inl e ↦ rw (e, check_domain) (v, tt)
  | inr (domain, e) ↦
      rw (e, check_domain)
        (Returns-bind (consult dl domain) _ _ _ (consult-IsList dl domain v)
          (λ r w. (w.0, settled r.2 why w.1)))
]

check_address-IsSettled :
    (l dl : EList) (text : List ℕ) (why dwhy : Reason)
    → IsList l
    → IsList dl
    → Returns (check_address l dl text why dwhy) (λ r. IsList r.0 × IsList r.1 × IsSettled r.2)
unfolding check_address
check_address-IsSettled l dl text why dwhy v w =
    Returns-bind (consult l text) _ _ _ (consult-IsList l text v) (λ r g.
      elim (Bool-cases (r.2 == ift_greylist)) [
        | inr e ↦ rw e (g.0, w, (g.1, λ f. ground (arith, ap (λ n. n == ift_greylist) f, e)))
        | inl e ↦ rw e (elim (Bool-cases r.1) [
          | inl f ↦ rw f (g.0, w, tt)
          | inr f ↦ rw f (
              Returns-bind (check_domain dl text dwhy) _ _ _ (check_domain-IsSettled dl text dwhy w)
                (λ a h. (g.0, h.0, h.1)))
        ])
      ])

module _ (s : Server) (t : Tuple) (h : HasLists s) where
  -- What a check does besides: it leaves the tuples, and the lists in order.
  pub record IsChecked (r : Server × Verdict) : Type 0 where
    pub lists : HasLists r.0
    pub tuples : r.0.tuples ≡ s.tuples
    pub verdict : IsSettled r.1

  pub check_from-IsChecked : Returns (check_from s t) IsChecked
  unfolding check_from
  check_from-IsChecked =
      Returns-bind (check_address s.from_list s.fromd_list (c_str t.from) from from_domain) _ _ _
        (check_address-IsSettled s.from_list s.fromd_list (c_str t.from) from from_domain
          h.from_list h.fromd_list)
        (λ r w. record {
          lists = record {
            ips = h.ips;
            to_list = h.to_list;
            tod_list = h.tod_list;
            from_list = w.0;
            fromd_list = w.1;
          };
          tuples = refl;
          verdict = w.2;
        })

  pub check_to-IsChecked : Returns (check_to s t) IsChecked
  unfolding check_to
  check_to-IsChecked =
      Returns-bind (check_address s.to_list s.tod_list (c_str t.to) to to_domain) _ _ _
        (check_address-IsSettled s.to_list s.tod_list (c_str t.to) to to_domain h.to_list
          h.tod_list)
        (λ r w. record {
          lists = record {
            ips = h.ips;
            to_list = w.0;
            tod_list = w.1;
            from_list = h.from_list;
            fromd_list = h.fromd_list;
          };
          tuples = refl;
          verdict = w.2;
        })

  count_ip :
      (u : Tree) (v : ℕ)
      → IsMatched s.ips.tree (address_bits t.ip) u v
      → Returns
          (count_cmd s.ip_cmdcnt v >>= λ counts. done (
            record s { ips = record s.ips { tree = u }; ip_cmdcnt = counts },
            if v == ift_greylist then none else some (v, ip),
          ))
          IsChecked
  count_ip u v w =
      let small : v < 3 =
        subst (λ n. n < 3) w.longest.is_rule
          (h.ips.sane _ (λ e. w.longest.is_some (sym w.longest.is_rule ∙ e))) in
      let (c, e, k, n) = total-count_cmd s.ip_cmdcnt v small in
      rw e (record {
        lists = record {
          ips = record {
            listed = record {
              answering = w.answering;
              counted = h.ips.listed.counted ∙ sym w.number;
            };
            sane =
                λ q n. subst (λ m. m < 3) (sym (w.rules q)) (h.ips.sane q (λ e. n (w.rules q ∙ e)));
          };
          to_list = h.to_list;
          tod_list = h.tod_list;
          from_list = h.from_list;
          fromd_list = h.fromd_list;
        };
        tuples = refl;
        verdict = settled v ip small;
      })

  pub check_ip-IsChecked : 33 ≤ length (address_bits t.ip) → Returns (check_ip s t) IsChecked
  unfolding check_ip
  check_ip-IsChecked bits =
      Returns-bind (ip_match s.ips.tree t.ip) _ _ _
        (ip_match-IsMatched s.ips.tree t.ip h.ips.listed.answering bits) (λ r w. count_ip r.0 r.1 w)
