-- ===== src/Options.antt =====
-- The options of the command line and the settings that they change: what the four files globals.c
-- share. `getopt_long_only` of the C library is a parameter; what it returns, call after call until
-- EOF, is a list.
pub mod Names
pub mod Postfix
pub mod Sendmail
pub mod Control
pub mod Daemon
pub mod Round
use x_grey.Prelude.{ℕ, Option, none, some, Bool, List, [], ◌∷◌, ◌%◌, ◌^◌}
use x_grey.Text.Number.{strtoul}

-- The enum in common/greylist.h; `user n` is OPT_USER + n.
pub data OptCode : Type 0 where
  opt_none opt_help opt_version opt_debug opt_log_facility opt_log_level opt_log_id : OptCode
  opt_host opt_port opt_rhost opt_rport opt_secret : OptCode
  opt_user : ℕ → OptCode

-- `struct option`, whose flag is NULL throughout.
pub record LongOption : Type 0 where
  pub name : List ℕ
  pub has_arg : Bool
  pub val : OptCode

-- What a call returns: an option with its place in the table and `optarg`, or the mark of one that is
-- not in the table.
pub data Given : Type 0 where
  given : ℕ → OptCode → List ℕ → Given
  unknown : Given

-- `getopt_long_only` over the arguments after the program's name, and `up_string` of cgilib6.
pub record OptLib : Type 0 where
  pub getopt : List LongOption → List (List ℕ) → List Given
  pub up_string : List ℕ → List ℕ

-- The loop of `parse_cmdline`; `none` is a call of exit.
module _ {S : Type 0} (choose : Given → S → Option S) where
  unfoldable pub parse_loop : List Given → S → Option S
  parse_loop [] s = some s
  parse_loop (g ∷ gs) s = elim (choose g s) [ none ↦ none | some t ↦ parse_loop gs t ]

-- `strtoul(optarg,NULL,10)`, as an int.
unfoldable pub int_of : List ℕ → ℕ
unfolding strtoul
int_of arg = (strtoul arg).0 % 2 ^ 32
