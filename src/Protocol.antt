-- ===== src/Protocol.antt =====
-- common/greylist.h: the numbers of the protocol. An `int` that may be negative is its 32-bit
-- pattern, so -1 is `minus_one`.
use x_grey.Prelude.{ℕ, ◌≡◌, refl, Option, some, List, [], ◌∷◌, get_elem?, ◌^◌, ◌-◌}

abbrev pub version : ℕ
version = 0x0101

abbrev pub minus_one : ℕ
minus_one = 2 ^ 32 - 1

-- Verdicts and list commands, `IFT_...`.
abbrev pub ift_greylist : ℕ
ift_greylist = 0

abbrev pub ift_accept : ℕ
ift_accept = 1

abbrev pub ift_reject : ℕ
ift_reject = 2

abbrev pub ift_remove : ℕ
ift_remove = 3

abbrev pub ift_expire : ℕ
ift_expire = 4

abbrev pub ift_none : ℕ
ift_none = 5

-- `GLERR_...`
pub data GlErr : Type 0 where
  okay version_not_supported mta_not_supported type_not_supported : GlErr
  bad_data cant_generate_report ipaddr_not_supported : GlErr

unfoldable pub err_code : GlErr → ℕ
err_code okay = 0
err_code version_not_supported = 1
err_code mta_not_supported = 2
err_code type_not_supported = 3
err_code bad_data = 4
err_code cant_generate_report = 5
err_code ipaddr_not_supported = 6

-- `REASON_...`
pub data Reason : Type 0 where
  no_reason ip from from_domain to to_domain greylist whitelist : Reason

unfoldable pub reason_code : Reason → ℕ
reason_code no_reason = 0
reason_code ip = 1
reason_code from = 2
reason_code from_domain = 3
reason_code to = 4
reason_code to_domain = 5
reason_code greylist = 6
reason_code whitelist = 7

-- `CMD_...`: each request and the response to it.
pub data Command : Type 0 where
  cmd_none cmd_none_resp cmd_greylist cmd_greylist_resp : Command
  cmd_whitelist cmd_whitelist_resp cmd_tuple_remove cmd_tuple_remove_resp : Command
  mcp_show_stats mcp_show_stats_resp mcp_show_config mcp_show_config_resp : Command
  mcp_show_iplist mcp_show_iplist_resp mcp_show_tuple mcp_show_tuple_resp : Command
  mcp_show_tuple_all mcp_show_tuple_all_resp : Command
  mcp_show_whitelist mcp_show_whitelist_resp : Command
  mcp_show_to mcp_show_to_resp mcp_show_to_domain mcp_show_to_domain_resp : Command
  mcp_show_from mcp_show_from_resp mcp_show_from_domain mcp_show_from_domain_resp : Command
  mcp_iplist mcp_iplist_resp : Command
  mcp_to mcp_to_resp mcp_to_domain mcp_to_domain_resp : Command
  mcp_from mcp_from_resp mcp_from_domain mcp_from_domain_resp : Command

unfoldable pub command_code : Command → ℕ
command_code cmd_none = 0
command_code cmd_none_resp = 1
command_code cmd_greylist = 2
command_code cmd_greylist_resp = 3
command_code cmd_whitelist = 4
command_code cmd_whitelist_resp = 5
command_code cmd_tuple_remove = 6
command_code cmd_tuple_remove_resp = 7
command_code mcp_show_stats = 8
command_code mcp_show_stats_resp = 9
command_code mcp_show_config = 10
command_code mcp_show_config_resp = 11
command_code mcp_show_iplist = 12
command_code mcp_show_iplist_resp = 13
command_code mcp_show_tuple = 14
command_code mcp_show_tuple_resp = 15
command_code mcp_show_tuple_all = 16
command_code mcp_show_tuple_all_resp = 17
command_code mcp_show_whitelist = 18
command_code mcp_show_whitelist_resp = 19
command_code mcp_show_to = 20
command_code mcp_show_to_resp = 21
command_code mcp_show_to_domain = 22
command_code mcp_show_to_domain_resp = 23
command_code mcp_show_from = 24
command_code mcp_show_from_resp = 25
command_code mcp_show_from_domain = 26
command_code mcp_show_from_domain_resp = 27
command_code mcp_iplist = 28
command_code mcp_iplist_resp = 29
command_code mcp_to = 30
command_code mcp_to_resp = 31
command_code mcp_to_domain = 32
command_code mcp_to_domain_resp = 33
command_code mcp_from = 34
command_code mcp_from_resp = 35
command_code mcp_from_domain = 36
command_code mcp_from_domain_resp = 37

-- The enumerators in their order.
abbrev commands : List Command
commands =
    cmd_none ∷ cmd_none_resp ∷ cmd_greylist ∷ cmd_greylist_resp ∷ cmd_whitelist ∷ cmd_whitelist_resp
    ∷ cmd_tuple_remove ∷ cmd_tuple_remove_resp ∷ mcp_show_stats ∷ mcp_show_stats_resp
    ∷ mcp_show_config ∷ mcp_show_config_resp ∷ mcp_show_iplist ∷ mcp_show_iplist_resp
    ∷ mcp_show_tuple ∷ mcp_show_tuple_resp ∷ mcp_show_tuple_all ∷ mcp_show_tuple_all_resp
    ∷ mcp_show_whitelist ∷ mcp_show_whitelist_resp ∷ mcp_show_to ∷ mcp_show_to_resp
    ∷ mcp_show_to_domain ∷ mcp_show_to_domain_resp ∷ mcp_show_from ∷ mcp_show_from_resp
    ∷ mcp_show_from_domain ∷ mcp_show_from_domain_resp ∷ mcp_iplist ∷ mcp_iplist_resp ∷ mcp_to
    ∷ mcp_to_resp ∷ mcp_to_domain ∷ mcp_to_domain_resp ∷ mcp_from ∷ mcp_from_resp ∷ mcp_from_domain
    ∷ mcp_from_domain_resp ∷ []

-- The enumerator that a `type` field names, if any.
unfoldable pub command_of : ℕ → Option Command
command_of n = get_elem? commands n

abbrev pub cmd_max : ℕ
cmd_max = 38

-- The numbering is one to one.
pub command_of-command_code : (c : Command) → command_of (command_code c) ≡ some c
unfolding command_of command_code
command_of-command_code cmd_none = refl
command_of-command_code cmd_none_resp = refl
command_of-command_code cmd_greylist = refl
command_of-command_code cmd_greylist_resp = refl
command_of-command_code cmd_whitelist = refl
command_of-command_code cmd_whitelist_resp = refl
command_of-command_code cmd_tuple_remove = refl
command_of-command_code cmd_tuple_remove_resp = refl
command_of-command_code mcp_show_stats = refl
command_of-command_code mcp_show_stats_resp = refl
command_of-command_code mcp_show_config = refl
command_of-command_code mcp_show_config_resp = refl
command_of-command_code mcp_show_iplist = refl
command_of-command_code mcp_show_iplist_resp = refl
command_of-command_code mcp_show_tuple = refl
command_of-command_code mcp_show_tuple_resp = refl
command_of-command_code mcp_show_tuple_all = refl
command_of-command_code mcp_show_tuple_all_resp = refl
command_of-command_code mcp_show_whitelist = refl
command_of-command_code mcp_show_whitelist_resp = refl
command_of-command_code mcp_show_to = refl
command_of-command_code mcp_show_to_resp = refl
command_of-command_code mcp_show_to_domain = refl
command_of-command_code mcp_show_to_domain_resp = refl
command_of-command_code mcp_show_from = refl
command_of-command_code mcp_show_from_resp = refl
command_of-command_code mcp_show_from_domain = refl
command_of-command_code mcp_show_from_domain_resp = refl
command_of-command_code mcp_iplist = refl
command_of-command_code mcp_iplist_resp = refl
command_of-command_code mcp_to = refl
command_of-command_code mcp_to_resp = refl
command_of-command_code mcp_to_domain = refl
command_of-command_code mcp_to_domain_resp = refl
command_of-command_code mcp_from = refl
command_of-command_code mcp_from_resp = refl
command_of-command_code mcp_from_domain = refl
command_of-command_code mcp_from_domain_resp = refl
