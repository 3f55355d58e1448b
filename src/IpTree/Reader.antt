-- ===== src/IpTree/Reader.antt =====
-- `iplist_read` of server/iplist.c, on the lines of the file.
use x_grey.Prelude.{
  ℕ, ◌<◌, ◌≤◌, ◌≡◌, refl, Option, none, some, Bool, true, false, not, List, [], ◌∷◌, ◌==◌, All,
  if◌then◌else◌, arith, Run, done, abort, Returns, Returns-bind, ◌>>=◌,
}
use x_grey.Protocol.{minus_one}
use x_grey.Names.{ci_map_int, c_ift}
use x_grey.Text.{split}
use x_grey.Text.Number.{decimal}
use x_grey.Text.Number.Round.{starts_digit, starts_digit-decimal}
use x_grey.Text.Address.{parse_ip, ipv4}
use x_grey.Text.Address.Round.{parse_ip-ipv4}
use x_grey.IpTree.{IpList, ip_add_sm}
use x_grey.Server.Answer.{length-address_bits}
use x_grey.IpTree.Update.{IsListed, ip_add_sm-IsUpdate}

-- What the reader uses of cgilib6.
pub record Trimming : Type 0 where
  pub empty_string : List ℕ → Bool
  pub trim_space : List ℕ → List ℕ
  pub up_string : List ℕ → List ℕ

-- A rule, from the fields of a line: the array of the address, which keeps what a short address does
-- not write, the mask and the verdict. `none` is a syntax error; a line of one field makes the code
-- read a field that is not there. The octets and the mask are read as `parse_ip` reads them.
unfoldable pub rule_of : List ℕ → List (List ℕ) → Run (Option (List ℕ × ℕ × ℕ))
unfolding parse_ip ci_map_int
rule_of ip [] = abort
rule_of ip (text ∷ words) = if not (starts_digit text) then done none else elim (parse_ip ip text) [
  | none ↦ done none
  | some (octets, mask) ↦ elim words [
    | [] ↦ abort
    | word ∷ more ↦
        let cmd = ci_map_int word c_ift in
        if cmd == minus_one then done none else done (some (octets, mask, cmd))
  ]
]

-- The loop on the lines: the rules then, and whether the file was read to its end.
unfoldable pub iplist_read : Trimming → List ℕ → List (List ℕ) → IpList → Run (IpList × Bool)
unfolding split rule_of ip_add_sm
iplist_read lib ip [] l = done (l, true)
iplist_read lib ip (line ∷ lines) l =
    if lib.empty_string (lib.trim_space line)
    then iplist_read lib ip lines l
    else (split (lib.up_string (lib.trim_space line)) >>= λ fields. rule_of ip fields >>= λ rule.
        elim rule [
          | none ↦ done (l, false)
          | some (octets, mask, cmd) ↦
              ip_add_sm l octets mask cmd >>= λ l'. iplist_read lib octets lines l'
        ])

-- A line of a rule: an address of four octets with a mask of at most 32, and a word for a verdict.
pub record IsRule (lib : Trimming) (line : List ℕ) : Type 0 where
  pub a : ℕ
  pub b : ℕ
  pub c : ℕ
  pub d : ℕ
  pub mask : ℕ
  pub word : List ℕ
  pub rest : List (List ℕ)
  pub octets : (a < 256) × ((b < 256) × ((c < 256) × (d < 256)))
  pub short : mask ≤ 32
  pub verdict : ci_map_int word c_ift < 5
  pub there : lib.empty_string (lib.trim_space line) ≡ false
  pub fields :
      split (lib.up_string (lib.trim_space line))
      ≡ done (ipv4 a b c d (b'/' ∷ decimal mask []) ∷ (word ∷ rest))

-- A line of a rule gives that rule, and the array then holds its octets.
pub rule_of-IsRule :
    (lib : Trimming) (line : List ℕ) (w x y z : ℕ) (more : List ℕ) (r : IsRule lib line)
    → rule_of
        (w ∷ x ∷ y ∷ z ∷ more)
        (ipv4 r.a r.b r.c r.d (b'/' ∷ decimal r.mask []) ∷ (r.word ∷ r.rest))
      ≡ done (some (r.a ∷ r.b ∷ r.c ∷ r.d ∷ more, r.mask, ci_map_int r.word c_ift))
unfolding rule_of ipv4
rule_of-IsRule lib line w x y z more r =
    let (ha, (hb, (hc, hd))) = r.octets in
    rw
      (
        starts_digit-decimal r.a (
            b'.'
            ∷ decimal r.b (b'.' ∷ decimal r.c (b'.' ∷ decimal r.d (b'/' ∷ decimal r.mask [])))),
        (parse_ip-ipv4 r.a r.b r.c r.d r.mask w x y z more ha hb hc hd r.short).1,
        plain (ci_map_int r.word c_ift) r.verdict,
      )
      refl
  where
    plain : (n : ℕ) → n < 5 → (n == minus_one) ≡ false
    plain n h = ground arith

-- A file of such lines is read to its end, and leaves the rules in order: the tree answers every
-- address, and `g_ipcnt` is the number of rules.
iplist_read-IsListed :
    (lib : Trimming) (lines : List (List ℕ)) (w x y z : ℕ) (more : List ℕ) (l : IpList)
    → All (IsRule lib) lines
    → IsListed l
    → Returns (iplist_read lib (w ∷ x ∷ y ∷ z ∷ more) lines l) (λ r. IsListed r.0 × (r.1 ≡ true))
unfolding iplist_read
iplist_read-IsListed lib [] w x y z more l h v = (v, refl)
iplist_read-IsListed lib (line ∷ lines) w x y z more l (r, h) v =
    let octets : List ℕ = r.a ∷ r.b ∷ r.c ∷ r.d ∷ more in
    rw (r.there, r.fields, rule_of-IsRule lib line w x y z more r)
      (Returns-bind (ip_add_sm l octets r.mask (ci_map_int r.word c_ift)) _ _ _
        (ip_add_sm-IsUpdate l octets r.mask (ci_map_int r.word c_ift) v r.short
          (λ e. omega (arith, e, r.verdict)) (omega (arith, length-address_bits octets, r.short)))
        (λ l' u. iplist_read-IsListed lib lines r.a r.b r.c r.d more l' h u.listed))
