-- ===== src/Options/Postfix.antt =====
-- postfix/globals.c: the settings of the Postfix client, from the command line. The names in
-- conf.h stand in `defaults`.
use x_grey.Prelude.{
  ℕ, zero, suc, Option, none, some, Bool, true, false, List, [], ◌∷◌, ◌*◌, ◌/◌, length,
  if◌then◌else◌,
}
use x_grey.Names.{ci_map_int, ci_map_chars}
use x_grey.Client.{htons}
use x_grey.Text.Strings.{codes}
use x_grey.Text.Times.{Strtod, read_dtime, report_delta}
use x_grey.Options.{
  OptCode, opt_none, opt_help, opt_version, opt_debug, opt_log_facility, opt_log_level, opt_log_id,
  opt_host, opt_port, opt_rhost, opt_rport, opt_secret, opt_user, LongOption, Given, given, unknown,
  OptLib, parse_loop, int_of,
}
use x_grey.Options.Names.{c_facilities, c_levels, log_mail, log_info}

pub record Settings : Type 0 where
  pub host : List ℕ
  pub port : ℕ
  pub rhost : List ℕ
  pub rport : ℕ
  pub timeout : ℕ
  pub log_facility : ℕ
  pub log_level : ℕ
  pub log_id : List ℕ
  pub debug : Bool
  pub secret : List ℕ
  pub secretsize : ℕ

abbrev pub defaults : Settings
defaults = record {
  host = codes "0.0.0.0";
  port = 0;
  rhost = codes "localhost";
  rport = 9990;
  timeout = 5;
  log_facility = log_mail;
  log_level = log_info;
  log_id = codes "gld-pfc";
  debug = false;
  secret = codes "decafbad";
  secretsize = 8;
}

-- OPT_TIMEOUT
abbrev pub opt_timeout : OptCode
opt_timeout = opt_user 0

abbrev pub mc_options : List LongOption
mc_options =
    record { name = codes "host"; has_arg = true; val = opt_host }
    ∷ record { name = codes "port"; has_arg = true; val = opt_port }
    ∷ record { name = codes "server"; has_arg = true; val = opt_rhost }
    ∷ record { name = codes "server-port"; has_arg = true; val = opt_rport }
    ∷ record { name = codes "timeout"; has_arg = true; val = opt_timeout }
    ∷ record { name = codes "log-facility"; has_arg = true; val = opt_log_facility }
    ∷ record { name = codes "log-level"; has_arg = true; val = opt_log_level }
    ∷ record { name = codes "log-id"; has_arg = true; val = opt_log_id }
    ∷ record { name = codes "secret"; has_arg = true; val = opt_secret }
    ∷ record { name = codes "debug"; has_arg = false; val = opt_debug }
    ∷ record { name = codes "version"; has_arg = false; val = opt_version }
    ∷ record { name = codes "help"; has_arg = false; val = opt_help }
    ∷ []

module _ (lib : OptLib) (clock : Strtod) where
  -- One pass of the switch; `none` is exit(EXIT_FAILURE).
  unfoldable pub choose : Given → Settings → Option Settings
  unfolding int_of read_dtime ci_map_int
  choose unknown s = none
  choose (given i opt_none arg) s = some s
  choose (given i opt_host arg) s = some (record s { host = arg })
  choose (given i opt_port arg) s = some (record s { port = int_of arg })
  choose (given i opt_rhost arg) s = some (record s { rhost = arg })
  choose (given i opt_rport arg) s = some (record s { rport = int_of arg })
  choose (given i (opt_user zero) arg) s =
      some (record s { timeout = read_dtime clock arg (10000 * s.timeout) / 10000 })
  choose (given i (opt_user (suc n)) arg) s = none
  choose (given i opt_log_facility arg) s =
      some (record s { log_facility = ci_map_int (lib.up_string arg) c_facilities })
  choose (given i opt_log_level arg) s =
      some (record s { log_level = ci_map_int (lib.up_string arg) c_levels })
  choose (given i opt_log_id arg) s = some (record s { log_id = arg })
  choose (given i opt_secret arg) s = some (record s { secret = arg; secretsize = length arg })
  choose (given i opt_debug arg) s = some (record s { debug = true })
  choose (given i opt_version arg) s = none
  choose (given i opt_help arg) s = none

  unfoldable pub parse_cmdline : List (List ℕ) → Settings → Option Settings
  unfolding choose parse_loop
  parse_cmdline argv s = parse_loop choose (lib.getopt mc_options argv) s

-- The texts that `dump_defaults` prints behind the options; `stack` is what the buffer of
-- `report_delta` holds.
unfoldable pub dump_defaults : List ℕ → Settings → List (List ℕ)
unfolding report_delta ci_map_chars
dump_defaults stack s =
    report_delta stack (10000 * s.timeout)
    ∷ ci_map_chars s.log_facility c_facilities
    ∷ ci_map_chars s.log_level c_levels
    ∷ s.log_id
    ∷ (if s.debug then codes "true" else codes "false")
    ∷ []

-- How the client is set up: it ends in `parse_cmdline`, the name of the server is not known, or it
-- has the server's address and port, as they stand in memory.
pub data Init : Type 0 where
  exits unresolved : Init
  ready : Settings → List ℕ → List ℕ → Init

-- `GlobalsInit`; `resolve` is gethostbyname.
unfoldable pub globals_init :
    OptLib → Strtod → (List ℕ → Option (List ℕ)) → List (List ℕ) → Settings → Init
unfolding parse_cmdline htons
globals_init lib clock resolve argv s = elim (parse_cmdline lib clock argv s) [
  | none ↦ exits
  | some t ↦ elim (resolve t.rhost) [
    | none ↦ unresolved
    | some address ↦ ready t address (htons t.rport)
  ]
]
