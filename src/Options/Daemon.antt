-- ===== src/Options/Daemon.antt =====
-- server/globals.c: the settings of the daemon, from the command line. The names in conf.h stand in
-- `defaults` and `default_config`; a length of time is a number of seconds.
use x_grey.Prelude.{
  ℕ, zero, suc, Option, none, some, Bool, true, false, List, [], ◌∷◌, ◌*◌, if◌then◌else◌,
}
use x_grey.Text.Strings.{codes}
use x_grey.Text.Number.{decimal}
use x_grey.Pool.{Config}
use x_grey.Options.{
  OptCode, opt_none, opt_help, opt_version, opt_debug, opt_log_facility, opt_log_level, opt_log_id,
  opt_host, opt_port, opt_rhost, opt_rport, opt_secret, opt_user, LongOption, Given, given, unknown,
  OptLib, parse_loop, int_of,
}
use x_grey.Options.Names.{log_info, log_debug}

-- What an option can change.
pub record Settings : Type 0 where
  pub host : List ℕ
  pub port : ℕ
  pub log_level : ℕ
  pub debug : Bool
  pub foreground : Bool
  pub nomonitor : Bool

abbrev pub defaults : Settings
defaults = record {
  host = codes "localhost";
  port = 9990;
  log_level = log_info;
  debug = false;
  foreground = false;
  nomonitor = false;
}

-- What no option changes: `c_poolmax` and the timeouts.
abbrev pub default_config : Config
default_config = record {
  poolmax = 65536;
  timeout_embargo = 60 * 25;
  timeout_grey = 3600 * 6;
  timeout_white = 3600 * 24 * 36;
  time_savestate = 3600;
}

-- The enum of the file.
abbrev pub opt_foreground : OptCode
opt_foreground = opt_user 0

abbrev pub opt_nomonitor : OptCode
opt_nomonitor = opt_user 1

abbrev pub mc_options : List LongOption
mc_options =
    record { name = codes "host"; has_arg = true; val = opt_host }
    ∷ record { name = codes "port"; has_arg = true; val = opt_port }
    ∷ record { name = codes "debug"; has_arg = false; val = opt_debug }
    ∷ record { name = codes "foreground"; has_arg = false; val = opt_foreground }
    ∷ record { name = codes "nomonitor"; has_arg = false; val = opt_nomonitor }
    ∷ record { name = codes "version"; has_arg = false; val = opt_version }
    ∷ record { name = codes "help"; has_arg = false; val = opt_help }
    ∷ []

-- One pass of the switch; `none` is exit(EXIT_FAILURE).
unfoldable pub choose : Given → Settings → Option Settings
unfolding int_of
choose unknown s = none
choose (given i opt_none arg) s = some s
choose (given i opt_host arg) s = some (record s { host = arg })
choose (given i opt_port arg) s = some (record s { port = int_of arg })
choose (given i opt_debug arg) s = some (record s { debug = true; log_level = log_debug })
choose (given i (opt_user zero) arg) s = some (record s { foreground = true })
choose (given i (opt_user (suc zero)) arg) s = some (record s { nomonitor = true })
choose (given i (opt_user (suc (suc n))) arg) s = none
choose (given i opt_version arg) s = none
choose (given i opt_help arg) s = none
choose (given i opt_rhost arg) s = none
choose (given i opt_rport arg) s = none
choose (given i opt_log_facility arg) s = none
choose (given i opt_log_level arg) s = none
choose (given i opt_log_id arg) s = none
choose (given i opt_secret arg) s = none

unfoldable pub parse_cmdline : OptLib → List (List ℕ) → Settings → Option Settings
unfolding choose parse_loop
parse_cmdline lib argv s = parse_loop choose (lib.getopt mc_options argv) s

abbrev truth : Bool → List ℕ
truth b = if b then codes "true" else codes "false"

-- The texts that `dump_defaults` prints behind the options.
unfoldable pub dump_defaults : Settings → List (List ℕ)
unfolding decimal
dump_defaults s =
    s.host ∷ decimal s.port [] ∷ truth s.debug ∷ truth s.foreground ∷ truth s.nomonitor ∷ []
