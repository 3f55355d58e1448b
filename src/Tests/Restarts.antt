-- ===== src/Tests/Restarts.antt =====
-- Witnesses: the files of a daemon, and the daemon that starts with them.
use x_grey.Prelude.{
  ◌<◌, ◌≢◌, Bool, ℕ, ◌≡◌, refl, ap, ◌∙◌, true, false, List, [], ◌∷◌, ◌++◌, replicate, none, some,
  arith, Returns, ◌>>=◌,
}
use x_grey.Text.{is_space, skip_space, is_empty}
use x_grey.Text.Trimmed.{starts}
use x_grey.IpTree.Reader.{Trimming}
use x_grey.EmailDomain.{EList}
use x_grey.EmailDomain.Reader.{is_default, tofrom_read_stream}
use x_grey.EmailDomain.Dump.{list_dump_stream}
use x_grey.EmailDomain.RoundTrip.{IsKept, IsReadAgain, tofrom_read_stream-list_dump_stream}
use x_grey.Pool.{Pool}
use x_grey.Pool.Search.{IsPool}
use x_grey.Pool.White.{passed, whitelist_dump_stream, whitelist_load}
use x_grey.Pool.White.Told.{IsTold}
use x_grey.Pool.White.RoundTrip.{IsReloaded, whitelist_load-whitelist_dump_stream}
use x_grey.Postfix.{same_text}
use x_grey.Server.{Server}
use x_grey.Server.Start.{start, start_pool, start-IsPool}
use x_grey.Server.Files.{StateFiles, save_state, strings, read_files}
use x_grey.Server.Saved.{IsStringLibrary, IsSavable, IsRestarted, library-IsTrim, library-IsReading}
use x_grey.IpTree.Rules.{rule, rule-null}
use x_grey.Protocol.{ift_none}
use x_grey.Server.Checks.{IsList, HasLists}
use x_grey.Server.Alarm.{Signals, term}
use x_grey.Server.Children.{exited, no_child, child, polled, last_wait}
use x_grey.Server.Stop.{quiet, check_signals}
use x_grey.Server.Stopped.{IsStopped, check_signals-IsStopped}
use x_grey.Server.Restart.{save_state-read_files}
use x_grey.Tests.Base.{two_slots, from_host, one_tuple, one_tuple-IsPool, no_list}
use x_grey.Tests.Texts.{two_rules, two_rules-IsListed}
use x_grey.Tests.Rules.{trim_end, skip_space-replicate, skip_space-starts, trim_end-ends}

abbrev library : Trimming
library = record {
  empty_string = λ s. is_empty (skip_space s);
  trim_space = λ s. trim_end (skip_space s);
  up_string = λ s. s;
}

empty_starts : (b : ℕ) (bs : List ℕ) → is_space b ≡ false → is_empty (skip_space (b ∷ bs)) ≡ false
unfolding skip_space is_empty
empty_starts b bs h = rw h refl

has_start :
    (n : ℕ) (t : List ℕ)
    → starts t ≡ true
    → is_empty (skip_space (replicate n b' ' ++ (t ++ (10 ∷ [])))) ≡ false
unfolding is_empty
has_start n [] h = ground (arith, h)
has_start n (b ∷ bs) h =
    ap (λ (s : List ℕ). is_empty s)
      (skip_space-replicate n (b ∷ (bs ++ (10 ∷ []))) ∙ skip_space-starts (b ∷ bs) (10 ∷ []) h)

library-IsStringLibrary : IsStringLibrary library
library-IsStringLibrary = record {
  trims = λ n t h k.
      ap trim_end (skip_space-replicate n (t ++ (10 ∷ [])) ∙ skip_space-starts t (10 ∷ []) h)
      ∙ trim_end-ends t k;
  uppers = λ t h. refl;
  has_text = has_start;
  has_bytes = empty_starts;
}

-- `x`, to be refused, with 7 requests.
abbrev one_entry : EList
one_entry = record no_list {
  items = record { text = b'x' ∷ []; tsize = 1; count = 7; cmd = 2 } ∷ [];
  max = 16;
}

one_entry-IsKept : IsKept one_entry
unfolding is_default is_space
one_entry-IsKept = record {
  sorted = record { ascending = (tt, tt); roomy = omega arith };
  entries = (
    record {
      verdict = omega arith;
      is_word = record { first = b'x'; rest = []; is_text = refl; no_space = (refl, tt) };
      no_default = refl;
      small = omega arith;
    },
    tt,
  );
  def_verdict = omega arith;
  def_small = omega arith;
}

no_list-IsKept : IsKept no_list
no_list-IsKept = record {
  sorted = record { ascending = tt; roomy = omega arith };
  entries = tt;
  def_verdict = omega arith;
  def_small = omega arith;
}

tofrom_read_stream-list_dump_stream_example :
    Returns
      (tofrom_read_stream (strings library) true false (list_dump_stream one_entry) no_list)
      (IsReadAgain true one_entry)
tofrom_read_stream-list_dump_stream_example =
    tofrom_read_stream-list_dump_stream (strings library) true one_entry no_list
      (library-IsReading library library-IsStringLibrary) one_entry-IsKept no_list-IsKept.sorted
      refl

-- A pool with one triple, which has passed.
abbrev one_passed : Pool
one_passed = record one_tuple { pool = λ i. passed (from_host 1) }

one_passed-IsPool : IsPool two_slots one_passed
one_passed-IsPool =
    let v = one_tuple-IsPool in
    record {
      tuples = λ i. record {
        ip_length = refl;
        from_length = refl;
        to_length = refl;
        from_fits = omega arith;
        to_fits = omega arith;
      };
      full = v.full;
      bounded = v.bounded;
      ascending = (tt, tt);
      distinct = v.distinct;
      slots = v.slots;
    }

from_host-IsTold : IsTold (passed (from_host 1))
unfolding is_space same_text
from_host-IsTold = record {
  a = 10;
  b = 0;
  c = 0;
  d = 1;
  from = b'a' ∷ [];
  to = b'b' ∷ [];
  octets = (omega arith, (omega arith, (omega arith, omega arith)));
  ip = refl;
  fromsize = refl;
  from_array = refl;
  tosize = refl;
  to_array = refl;
  from_plain = record {
    fits = omega arith;
    no_blank = (refl, tt);
    no_nul = (refl, tt);
    no_dash = refl;
  };
  to_plain = record {
    fits = omega arith;
    no_blank = (refl, tt);
    no_nul = (refl, tt);
    no_dash = refl;
  };
  to_dark = (refl, tt);
}

whitelist_load-whitelist_dump_stream_example :
    Returns
      (whitelist_dump_stream one_passed >>= λ lines.
        whitelist_load library.empty_string library.trim_space two_slots 500 500
          (some lines)
          (start_pool two_slots))
      (IsReloaded two_slots 500 one_passed)
unfolding start_pool
whitelist_load-whitelist_dump_stream_example =
    whitelist_load-whitelist_dump_stream library.empty_string library.trim_space two_slots 500 500
      one_passed (start_pool two_slots) (library-IsTrim library library-IsStringLibrary)
      one_passed-IsPool (from_host-IsTold, tt) (unfold start in (start-IsPool two_slots 0).0) refl

abbrev saved : Server
saved = record (start two_slots 0) {
  tuples = one_passed;
  ips = two_rules;
  to_list = one_entry;
  tod_list = no_list;
  from_list = one_entry;
  fromd_list = no_list;
}

saved-IsSavable : IsSavable two_slots saved
unfolding x_grey.IpTree.Table.ip_table
saved-IsSavable = record {
  tuples = one_passed-IsPool;
  told = (from_host-IsTold, tt);
  rules = two_rules-IsListed;
  verdicts = (omega arith, (omega arith, tt));
  to_list = one_entry-IsKept;
  tod_list = no_list-IsKept;
  from_list = one_entry-IsKept;
  fromd_list = no_list-IsKept;
}

-- None of the files is there before.
abbrev no_files : StateFiles
no_files = record {
  white = none;
  iplist = none;
  to_list = none;
  tod_list = none;
  from_list = none;
  fromd_list = none;
}

save_state-read_files_example :
    Returns
      (save_state (λ name. true) saved no_files >>= λ gs.
        read_files library two_slots true (7 ∷ 7 ∷ 7 ∷ 7 ∷ []) 500 500 gs (start two_slots 400))
      (IsRestarted two_slots true 500 saved)
save_state-read_files_example =
    save_state-read_files library two_slots true 500 500 400 saved no_files 7 7 7 7 []
      library-IsStringLibrary saved-IsSavable

two_rules_sane : (q : List Bool) → rule two_rules.tree q ≢ ift_none → rule two_rules.tree q < 3
unfolding rule
two_rules_sane [] h = omega arith
two_rules_sane (false ∷ []) h = omega arith
two_rules_sane (false ∷ false ∷ q) h = elim (h (rule-null q)) [ ]
two_rules_sane (false ∷ true ∷ q) h = elim (h (rule-null q)) [ ]
two_rules_sane (true ∷ q) h = elim (h (rule-null q)) [ ]

one_entry-IsList : IsList one_entry
one_entry-IsList = record {
  sorted = one_entry-IsKept.sorted;
  sane = record { default = omega arith; entries = (omega arith, tt) };
}

no_list-IsList : IsList no_list
no_list-IsList = record {
  sorted = no_list-IsKept.sorted;
  sane = record { default = omega arith; entries = tt };
}

saved-HasLists : HasLists saved
saved-HasLists = record {
  ips = record { listed = two_rules-IsListed; sane = two_rules_sane };
  to_list = one_entry-IsList;
  tod_list = no_list-IsList;
  from_list = one_entry-IsList;
  fromd_list = no_list-IsList;
}

-- A child has ended, the alarm has come before a save is due, and SIGTERM.
abbrev flags : Signals
flags = record quiet { sigchld = true; sigalrm = true; sigterm = true }

check_signals-IsStopped_example :
    Returns
      (check_signals
        (λ name. true)
        true
        two_slots
        (child 7 (exited 0) ∷ no_child ∷ [])
        500
        flags
        saved
        no_files)
      (IsStopped library two_slots true 600 600 600 500 7 7 7 7 [] term true saved)
unfolding x_grey.Pool.Counting.count_flagged polled last_wait start
check_signals-IsStopped_example =
    check_signals-IsStopped library two_slots true 600 600 600 500 7 7 7 7 [] true
      library-IsStringLibrary saved saved-IsSavable (refl, tt) (omega arith) saved-HasLists
      (some (7, exited 0) ∷ []) none term flags no_files (refl, (refl, refl)) refl
