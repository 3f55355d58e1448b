-- ===== src/Server/Ordered.antt =====
-- `cmd_mcp_tofrom` of server/gld.c on the four lists.
use x_grey.Prelude.{◌≡◌, refl, Bool, true, false, Returns, Returns-bind, ℕ, List, drop, some, done}
use x_grey.Protocol.{Command, mcp_to, mcp_to_domain, mcp_from, mcp_from_domain}
use x_grey.EmailDomain.{Entry, EList, update_list}
use x_grey.EmailDomain.Reader.{is_default}
use x_grey.EmailDomain.Update.{IsSorted, IsRequested, update_list-IsRequested}
use x_grey.Text.{cstring}
use x_grey.Server.{Server}
use x_grey.Server.Lists.{update_named, tofrom_key, tofrom_entry, cmd_mcp_tofrom}
use x_grey.Server.Packet.{Request}

-- The commands that `gld` calls it with.
pub data IsListCommand : Command → Type 0 where
  to_list : IsListCommand mcp_to
  tod_list : IsListCommand mcp_to_domain
  from_list : IsListCommand mcp_from
  fromd_list : IsListCommand mcp_from_domain

pub record IsOrdered (s : Server) : Type 0 where
  pub to_sorted : IsSorted s.to_list
  pub tod_sorted : IsSorted s.tod_list
  pub from_sorted : IsSorted s.from_list
  pub fromd_sorted : IsSorted s.fromd_list

requested-IsSorted :
    (l : EList) (def : Bool) (key : Entry) (l' : EList) → IsRequested l def key l' → IsSorted l'
requested-IsSorted l true key l' w = w.0
requested-IsSorted l false key l' w = w.sorted

-- The list that a command is for, and the three others.
abbrev pub IsNamed :
    (cmd : Command) → IsListCommand cmd → (EList → EList → Type 0) → Server → Server → Type 0
IsNamed _ to_list P s r =
    P s.to_list r.to_list
    × ((r.tod_list ≡ s.tod_list) × ((r.from_list ≡ s.from_list) × (r.fromd_list ≡ s.fromd_list)))
IsNamed _ tod_list P s r =
    P s.tod_list r.tod_list
    × ((r.to_list ≡ s.to_list) × ((r.from_list ≡ s.from_list) × (r.fromd_list ≡ s.fromd_list)))
IsNamed _ from_list P s r =
    P s.from_list r.from_list
    × ((r.to_list ≡ s.to_list) × ((r.tod_list ≡ s.tod_list) × (r.fromd_list ≡ s.fromd_list)))
IsNamed _ fromd_list P s r =
    P s.fromd_list r.fromd_list
    × ((r.to_list ≡ s.to_list) × ((r.tod_list ≡ s.tod_list) × (r.from_list ≡ s.from_list)))

-- The daemon after the request: its lists are sorted, the list of the command is as the request
-- asks, and the others and what is not a list are what they were.
pub record IsRelisted (cmd : Command) (k : IsListCommand cmd) (key : Entry) (s r : Server)
    : Type 0 where
  pub ordered : IsOrdered r
  pub named : IsNamed cmd k (λ l l'. IsRequested l (is_default key.text) key l') s r
  pub tuples : r.tuples ≡ s.tuples
  pub ips : r.ips ≡ s.ips

update_named-IsRelisted :
    (cmd : Command) (k : IsListCommand cmd) (key : Entry) (s : Server)
    → IsOrdered s
    → Returns (update_named cmd key s) (IsRelisted cmd k key s)
unfolding update_named
update_named-IsRelisted _ to_list key s v =
    Returns-bind (update_list s.to_list (is_default key.text) key) _ _ _
      (update_list-IsRequested s.to_list (is_default key.text) key v.to_sorted)
      (λ l w. record {
        ordered = record {
          to_sorted = requested-IsSorted s.to_list (is_default key.text) key l w;
          tod_sorted = v.tod_sorted;
          from_sorted = v.from_sorted;
          fromd_sorted = v.fromd_sorted;
        };
        named = (w, (refl, (refl, refl)));
        tuples = refl;
        ips = refl;
      })
update_named-IsRelisted _ tod_list key s v =
    Returns-bind (update_list s.tod_list (is_default key.text) key) _ _ _
      (update_list-IsRequested s.tod_list (is_default key.text) key v.tod_sorted)
      (λ l w. record {
        ordered = record {
          to_sorted = v.to_sorted;
          tod_sorted = requested-IsSorted s.tod_list (is_default key.text) key l w;
          from_sorted = v.from_sorted;
          fromd_sorted = v.fromd_sorted;
        };
        named = (w, (refl, (refl, refl)));
        tuples = refl;
        ips = refl;
      })
update_named-IsRelisted _ from_list key s v =
    Returns-bind (update_list s.from_list (is_default key.text) key) _ _ _
      (update_list-IsRequested s.from_list (is_default key.text) key v.from_sorted)
      (λ l w. record {
        ordered = record {
          to_sorted = v.to_sorted;
          tod_sorted = v.tod_sorted;
          from_sorted = requested-IsSorted s.from_list (is_default key.text) key l w;
          fromd_sorted = v.fromd_sorted;
        };
        named = (w, (refl, (refl, refl)));
        tuples = refl;
        ips = refl;
      })
update_named-IsRelisted _ fromd_list key s v =
    Returns-bind (update_list s.fromd_list (is_default key.text) key) _ _ _
      (update_list-IsRequested s.fromd_list (is_default key.text) key v.fromd_sorted)
      (λ l w. record {
        ordered = record {
          to_sorted = v.to_sorted;
          tod_sorted = v.tod_sorted;
          from_sorted = v.from_sorted;
          fromd_sorted = requested-IsSorted s.fromd_list (is_default key.text) key l w;
        };
        named = (w, (refl, (refl, refl)));
        tuples = refl;
        ips = refl;
      })

tofrom_entry-tofrom_key :
    (req : Request) (text : List ℕ)
    → cstring (drop 14 req.buffer) ≡ some text
    → tofrom_entry req ≡ done (tofrom_key req text)
unfolding tofrom_entry
tofrom_entry-tofrom_key req text e = rw (e, tofrom_entry) refl

-- With sorted lists, a request for any of the four lists whose text ends with a NUL in the buffer
-- returns: the list of the command is then as `update_list` is to make it of the verdict and the
-- text of the request, with the default if the text names that; all lists are sorted; and the other
-- lists, the tuples and the addresses are what they were.
pub cmd_mcp_tofrom-IsRelisted :
    (req : Request) (text : List ℕ) (cmd resp : Command) (s : Server) (k : IsListCommand cmd)
    → cstring (drop 14 req.buffer) ≡ some text
    → IsOrdered s
    → Returns (cmd_mcp_tofrom req cmd resp s) (λ r. IsRelisted cmd k (tofrom_key req text) s r.0)
unfolding cmd_mcp_tofrom
cmd_mcp_tofrom-IsRelisted req text cmd resp s k e v = rw (tofrom_entry-tofrom_key req text e) (
    Returns-bind (update_named cmd (tofrom_key req text) s) _ _ _
      (update_named-IsRelisted cmd k (tofrom_key req text) s v) (λ r w. w))
