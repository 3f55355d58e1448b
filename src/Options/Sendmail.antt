-- ===== src/Options/Sendmail.antt =====
-- sendmail/globals.c: the settings of the Sendmail client, from the command line. The names in
-- conf.h stand in `defaults`; the channel is set by the build.
use x_grey.Prelude.{
  ℕ, zero, suc, Option, none, some, Bool, true, false, List, [], ◌∷◌, ◌*◌, ◌/◌, length, drop, ltb,
  leb, ◌&&◌, Run, done, abort, ◌>>=◌, if◌then◌else◌,
}
use x_grey.Names.{ci_map_int, ci_map_chars}
use x_grey.Client.{htons}
use x_grey.Text.Strings.{codes}
use x_grey.Text.Number.{strtoul, decimal}
use x_grey.Text.Times.{Strtod, read_dtime, report_delta}
use x_grey.Options.{
  OptCode, opt_none, opt_help, opt_version, opt_debug, opt_log_facility, opt_log_level, opt_log_id,
  opt_host, opt_port, opt_rhost, opt_rport, opt_secret, opt_user, LongOption, Given, given, unknown,
  OptLib, parse_loop, int_of,
}
use x_grey.Options.Names.{c_facilities, c_levels, log_mail, log_info}

pub record Settings : Type 0 where
  pub host : List ℕ
  pub port : ℕ
  pub rhost : List ℕ
  pub rport : ℕ
  pub timeout : ℕ
  pub log_facility : ℕ
  pub log_level : ℕ
  pub log_id : List ℕ
  pub debug : Bool
  pub secret : List ℕ
  pub secretsize : ℕ
  pub filterchannel : List ℕ
  pub foreground : Bool
  pub maxstack : ℕ

abbrev pub defaults : List ℕ → Settings
defaults channel = record {
  host = codes "0.0.0.0";
  port = 0;
  rhost = codes "localhost";
  rport = 9990;
  timeout = 5;
  log_facility = log_mail;
  log_level = log_info;
  log_id = codes "gld-smc";
  debug = false;
  secret = codes "decafbad";
  secretsize = 8;
  filterchannel = channel;
  foreground = false;
  maxstack = 64 * 1024;
}

-- The enum of the file.
abbrev pub opt_timeout : OptCode
opt_timeout = opt_user 0

abbrev pub opt_channel : OptCode
opt_channel = opt_user 1

abbrev pub opt_foreground : OptCode
opt_foreground = opt_user 2

abbrev pub opt_maxstack : OptCode
opt_maxstack = opt_user 3

abbrev pub mc_options : List LongOption
mc_options =
    record { name = codes "host"; has_arg = true; val = opt_host }
    ∷ record { name = codes "port"; has_arg = true; val = opt_port }
    ∷ record { name = codes "server"; has_arg = true; val = opt_rhost }
    ∷ record { name = codes "server-port"; has_arg = true; val = opt_rport }
    ∷ record { name = codes "timeout"; has_arg = true; val = opt_timeout }
    ∷ record { name = codes "foreground"; has_arg = false; val = opt_foreground }
    ∷ record { name = codes "max-stack"; has_arg = true; val = opt_maxstack }
    ∷ record { name = codes "log-facility"; has_arg = true; val = opt_log_facility }
    ∷ record { name = codes "log-level"; has_arg = true; val = opt_log_level }
    ∷ record { name = codes "log-id"; has_arg = true; val = opt_log_id }
    ∷ record { name = codes "channel"; has_arg = true; val = opt_channel }
    ∷ record { name = codes "secret"; has_arg = true; val = opt_secret }
    ∷ record { name = codes "debug"; has_arg = false; val = opt_debug }
    ∷ record { name = codes "version"; has_arg = false; val = opt_version }
    ∷ record { name = codes "help"; has_arg = false; val = opt_help }
    ∷ []

module _ (lib : OptLib) (clock : Strtod) where
  -- One pass of the switch; `none` is exit(EXIT_FAILURE).
  unfoldable pub choose : Given → Settings → Option Settings
  unfolding int_of read_dtime ci_map_int strtoul
  choose unknown s = none
  choose (given i opt_none arg) s = some s
  choose (given i opt_host arg) s = some (record s { host = arg })
  choose (given i opt_port arg) s = some (record s { port = int_of arg })
  choose (given i opt_rhost arg) s = some (record s { rhost = arg })
  choose (given i opt_rport arg) s = some (record s { rport = int_of arg })
  choose (given i (opt_user zero) arg) s =
      some (record s { timeout = read_dtime clock arg (10000 * s.timeout) / 10000 })
  choose (given i (opt_user (suc zero)) arg) s = some (record s { filterchannel = arg })
  choose (given i (opt_user (suc (suc zero))) arg) s = some (record s { foreground = true })
  choose (given i (opt_user (suc (suc (suc zero)))) arg) s =
      some (record s { maxstack = (strtoul arg).0 })
  choose (given i (opt_user (suc (suc (suc (suc n))))) arg) s = none
  choose (given i opt_log_facility arg) s =
      some (record s { log_facility = ci_map_int (lib.up_string arg) c_facilities })
  choose (given i opt_log_level arg) s =
      some (record s { log_level = ci_map_int (lib.up_string arg) c_levels })
  choose (given i opt_log_id arg) s = some (record s { log_id = arg })
  choose (given i opt_secret arg) s = some (record s { secret = arg; secretsize = length arg })
  choose (given i opt_debug arg) s = some (record s { debug = true })
  choose (given i opt_version arg) s = none
  choose (given i opt_help arg) s = none

  unfoldable pub parse_cmdline : List (List ℕ) → Settings → Option Settings
  unfolding choose parse_loop
  parse_cmdline argv s = parse_loop choose (lib.getopt mc_options argv) s

abbrev truth : Bool → List ℕ
truth b = if b then codes "true" else codes "false"

-- The texts that `dump_defaults` prints behind the options; `stack` is what the buffer of
-- `report_delta` holds.
unfoldable pub dump_defaults : List ℕ → Settings → List (List ℕ)
unfolding report_delta ci_map_chars decimal
dump_defaults stack s =
    s.host
    ∷ decimal s.port []
    ∷ s.rhost
    ∷ decimal s.rport []
    ∷ truth s.foreground
    ∷ decimal s.maxstack []
    ∷ s.secret
    ∷ report_delta stack (10000 * s.timeout)
    ∷ ci_map_chars s.log_facility c_facilities
    ∷ ci_map_chars s.log_level c_levels
    ∷ s.log_id
    ∷ s.filterchannel
    ∷ truth s.debug
    ∷ []

-- How the client is set up: it ends in `parse_cmdline`, it starts again with a smaller stack, the name
-- of the server is not known, or it has the server's address and port, as they stand in memory, and
-- has removed a file.
pub data Init : Type 0 where
  exits again unresolved : Init
  ready : Settings → List ℕ → List ℕ → List ℕ → Init

-- `&c_filterchannel[5]`
unfoldable pub channel_path : List ℕ → Run (List ℕ)
channel_path channel = if leb 5 (length channel) then done (drop 5 channel) else abort

-- `GlobalsInit`; `resolve` is gethostbyname, `limit` what getrlimit tells of the largest stack, and
-- `set` whether setrlimit succeeds. execve does not return.
unfoldable pub globals_init :
    OptLib
    → Strtod
    → (List ℕ → Option (List ℕ))
    → Option ℕ
    → Bool
    → List (List ℕ)
    → Settings
    → Run Init
unfolding parse_cmdline htons channel_path
globals_init lib clock resolve limit set argv s = elim (parse_cmdline lib clock argv s) [
  | none ↦ done exits
  | some t ↦
      let resolved : Run Init = elim (resolve t.rhost) [
        | none ↦ done unresolved
        | some address ↦
            channel_path t.filterchannel >>= λ path. done (ready t address (htons t.rport) path)
      ] in
      elim limit [
        | none ↦ resolved
        | some rlim_max ↦ if ltb t.maxstack rlim_max && set then done again else resolved
      ]
]
