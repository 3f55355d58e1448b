-- ===== src/Server/Saved.antt =====
-- server/signals.c and server/globals.c: the states that their files can tell, and what a daemon that
-- reads the files has of them: the lists and the rules.
use x_grey.Prelude.{
  ℕ, ◌≡◌, ◌≢◌, ap, sym, subst, Option, Bool, true, false, List, [], ◌∷◌, ◌++◌, All, replicate,
  Returns, Returns-bind,
}
use x_grey.Protocol.{ift_none}
use x_grey.Names.Printed.{is_lower}
use x_grey.Text.{is_space}
use x_grey.Text.Trimmed.{starts, ends}
use x_grey.Text.Number.Round.{strtoul-decimal}
use x_grey.IpTree.{IpList}
use x_grey.IpTree.Rules.{rule}
use x_grey.IpTree.Update.{IsListed}
use x_grey.IpTree.Dump.{iplist_dump_stream}
use x_grey.IpTree.Line.{IsTrimming}
use x_grey.IpTree.RoundTrip.{AreVerdicts, iplist_read-iplist_dump_stream}
use x_grey.IpTree.Reader.{Trimming, iplist_read}
use x_grey.EmailDomain.{EList}
use x_grey.EmailDomain.Dump.{list_dump_stream}
use x_grey.EmailDomain.Update.{IsSorted}
use x_grey.EmailDomain.Line.{IsReading}
use x_grey.EmailDomain.RoundTrip.{IsKept, IsReadAgain, tofrom_read_stream-list_dump_stream}
use x_grey.Pool.{Config}
use x_grey.Pool.Search.{IsPool}
use x_grey.Pool.White.Told.{IsTold}
use x_grey.Pool.White.Load.{entries}
use x_grey.Pool.White.RoundTrip.{IsTrim, IsReloaded}
use x_grey.Pool.White.Written.{passed_of}
use x_grey.Server.{Server}
use x_grey.Server.Files.{TextFile, written, strings, read_rules, tofrom_read}

-- What the functions of cgilib6 do: `trim_space` takes off the spaces before a text and the end of
-- the line behind it, `up_string` leaves a text without small letters, and a text with a byte that is
-- no space is not empty.
pub record IsStringLibrary (lib : Trimming) : Type 0 where
  pub trims :
      (n : ℕ) (t : List ℕ)
      → starts t ≡ true
      → ends t ≡ true
      → lib.trim_space (replicate n b' ' ++ (t ++ (10 ∷ []))) ≡ t
  pub uppers : (t : List ℕ) → All (λ b. is_lower b ≡ false) t → lib.up_string t ≡ t
  pub has_text :
      (n : ℕ) (t : List ℕ)
      → starts t ≡ true
      → lib.empty_string (replicate n b' ' ++ (t ++ (10 ∷ []))) ≡ false
  pub has_bytes : (b : ℕ) (bs : List ℕ) → is_space b ≡ false → lib.empty_string (b ∷ bs) ≡ false

-- A daemon whose files can tell its state.
pub record IsSavable (c : Config) (s : Server) : Type 0 where
  pub tuples : IsPool c s.tuples
  pub told : All IsTold (passed_of (entries s.tuples))
  pub rules : IsListed s.ips
  pub verdicts : AreVerdicts s.ips.tree
  pub to_list : IsKept s.to_list
  pub tod_list : IsKept s.tod_list
  pub from_list : IsKept s.from_list
  pub fromd_list : IsKept s.fromd_list

-- What the next daemon has of it.
pub record IsRestarted (c : Config) (old : Bool) (now : ℕ) (s r : Server) : Type 0 where
  pub tuples : IsReloaded c now s.tuples r.tuples
  pub listed : IsListed r.ips
  pub rules : (p : List Bool) → rule r.ips.tree p ≡ rule s.ips.tree p
  pub to_list : IsReadAgain old s.to_list r.to_list
  pub tod_list : IsReadAgain old s.tod_list r.tod_list
  pub from_list : IsReadAgain old s.from_list r.from_list
  pub fromd_list : IsReadAgain old s.fromd_list r.fromd_list

-- A daemon that has no tuple, no rule but the default, and no entries in its lists.
pub record IsBare (c : Config) (t : Server) : Type 0 where
  pub tuples : IsPool c t.tuples
  pub no_tuples : t.tuples.poolnum ≡ 0
  pub listed : IsListed t.ips
  pub alone : (p : List Bool) → p ≢ [] → rule t.ips.tree p ≡ ift_none
  pub to_list : IsSorted t.to_list × (t.to_list.items ≡ [])
  pub tod_list : IsSorted t.tod_list × (t.tod_list.items ≡ [])
  pub from_list : IsSorted t.from_list × (t.from_list.items ≡ [])
  pub fromd_list : IsSorted t.fromd_list × (t.fromd_list.items ≡ [])

module _ (lib : Trimming) (h : IsStringLibrary lib) where
  library-IsTrimming : IsTrimming lib
  library-IsTrimming = record { trims = h.trims; uppers = h.uppers; has_bytes = h.has_bytes }

  pub library-IsReading : IsReading (strings lib)
  library-IsReading = record {
    trims = h.trims;
    has_text = h.has_text;
    numbers = λ n k. ap (λ (r : ℕ × List ℕ). r.0) (strtoul-decimal n [] k tt);
  }

  pub library-IsTrim : IsTrim lib.empty_string lib.trim_space
  library-IsTrim = record { trims = λ t. h.trims 0 t; has_text = λ t. h.has_text 0 t }

  -- One list, read into a list without entries.
  pub list_again :
      (old : Bool) (l s : EList) (file : Option TextFile)
      → IsKept l
      → IsSorted s
      → s.items ≡ []
      → file ≡ written (list_dump_stream l)
      → Returns (tofrom_read lib old file s) (IsReadAgain old l)
  unfolding tofrom_read
  list_again old l s file k sorted none_there e =
      subst (λ (f : Option TextFile). Returns (tofrom_read lib old f s) (IsReadAgain old l)) (sym e)
        (tofrom_read_stream-list_dump_stream (strings lib) old l s library-IsReading k sorted
          none_there)

  pub rules_again :
      (l s : IpList) (w x y z : ℕ) (more : List ℕ)
      → IsListed l
      → AreVerdicts l.tree
      → IsListed s
      → ((p : List Bool) → p ≢ [] → rule s.tree p ≡ ift_none)
      → Returns
          (read_rules lib (w ∷ x ∷ y ∷ z ∷ more) (written (iplist_dump_stream l.tree)) s)
          (λ r. IsListed r × ((p : List Bool) → rule r.tree p ≡ rule l.tree p))
  unfolding read_rules
  rules_again l s w x y z more v verdicts vs alone =
      Returns-bind (iplist_read lib (w ∷ x ∷ y ∷ z ∷ more) (iplist_dump_stream l.tree) s) _ _ _
        (iplist_read-iplist_dump_stream lib l s w x y z more library-IsTrimming v verdicts vs alone)
        (λ r k. (k.0, k.1.1))
