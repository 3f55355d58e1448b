-- ===== src/Daemon.antt =====
-- server/gld.c: the main loop of `gld`, one datagram at a time.
pub mod Short
use x_grey.Prelude.{
  ℕ, zero, suc, ◌+◌, ◌-◌, ◌*◌, ◌/◌, ◌%◌, ◌^◌, Option, none, some, Bool, true, false, not, List,
  ◌==◌, ltb, if◌then◌else◌, length, take, drop, Run, done, ◌>>=◌,
}
use x_grey.Crc.{packet_crc, ntohl}
use x_grey.Protocol
use x_grey.Protocol.{
  version_not_supported, type_not_supported, cant_generate_report, ipaddr_not_supported, okay,
  err_code, GlErr, Command, command_of, no_reason,
}
use x_grey.IpTree.{ip_add_sm}
use x_grey.Pool.{Config}
use x_grey.Server.{Server, type_greylist, type_tuple_remove}
use x_grey.Server.Lists.{cmd_mcp_tofrom}
use x_grey.Server.Packet.{Request, Reply, byte_at, ntohs_at, version_of, type_of}

-- The globals `c_...` that stay as they were read at the start.
pub record Setup : Type 0 where
  pub config : Config
  pub secret : List ℕ
  pub starttime : ℕ
  pub time_cleanup : ℕ

-- Whether the system gives a socket and a process for a report.
pub record Host : Type 0 where
  pub has_socket : Bool
  pub has_process : Bool

-- `struct glmcp_response_show_stats`
pub record Stats : Type 0 where
  pub starttime : ℕ
  pub nowtime : ℕ
  pub tuples : ℕ
  pub ips : ℕ
  pub ip_greylist : ℕ
  pub ip_accept : ℕ
  pub ip_reject : ℕ
  pub greylisted : ℕ
  pub whitelisted : ℕ
  pub greylist_expired : ℕ
  pub whitelist_expired : ℕ
  pub requests : ℕ
  pub requests_cu : ℕ
  pub requests_cu_max : ℕ
  pub requests_cu_ave : ℕ
  pub tuples_read : ℕ
  pub tuples_read_cu : ℕ
  pub tuples_read_cu_max : ℕ
  pub tuples_read_cu_ave : ℕ
  pub tuples_write : ℕ
  pub tuples_write_cu : ℕ
  pub tuples_write_cu_max : ℕ
  pub tuples_write_cu_ave : ℕ
  pub tuples_low : ℕ
  pub tuples_high : ℕ
  pub from : ℕ
  pub from_greylist : ℕ
  pub from_accept : ℕ
  pub from_reject : ℕ
  pub fromd : ℕ
  pub fromd_greylist : ℕ
  pub fromd_accept : ℕ
  pub fromd_reject : ℕ
  pub to : ℕ
  pub to_greylist : ℕ
  pub to_accept : ℕ
  pub to_reject : ℕ
  pub tod : ℕ
  pub tod_greylist : ℕ
  pub tod_accept : ℕ
  pub tod_reject : ℕ

-- `struct glmcp_response_show_config`
pub record ShowConfig : Type 0 where
  pub max_tuples : ℕ
  pub timeout_cleanup : ℕ
  pub timeout_embargo : ℕ
  pub timeout_grey : ℕ
  pub timeout_white : ℕ

-- What is sent: nothing, a `struct greylist_response`, one of the two structures above, or the reply
-- of a child that goes on to write the report of that name to a connection.
pub data Answer : Type 0 where
  silent : Answer
  replied : Reply → Answer
  stats : Stats → Answer
  config : ShowConfig → Answer
  report : Command → Answer

-- Requests per clean-up, rounded to the nearest; the code takes doubles for it.
unfoldable pub average : Server → ℕ
average s = elim s.cleanup_count [
  | zero ↦ 0
  | suc n ↦ (2 * (s.requests - s.req_cucurrent) + suc n) / (2 * suc n)
]

-- The case CMD_MCP_SHOW_STATS; every field is a `uint32_t`.
unfoldable pub show_stats : Setup → Request → Server → Stats
unfolding average
show_stats g req s = record {
  starttime = (g.starttime) % 2 ^ 32;
  nowtime = (req.now) % 2 ^ 32;
  tuples = (s.tuples.poolnum) % 2 ^ 32;
  ips = (s.ips.ipcnt) % 2 ^ 32;
  ip_greylist = (s.ip_cmdcnt.greylist) % 2 ^ 32;
  ip_accept = (s.ip_cmdcnt.accept) % 2 ^ 32;
  ip_reject = (s.ip_cmdcnt.reject) % 2 ^ 32;
  greylisted = (s.greylisted) % 2 ^ 32;
  whitelisted = (s.tuples.whitelisted) % 2 ^ 32;
  greylist_expired = (s.tuples.greylist_expired) % 2 ^ 32;
  whitelist_expired = (s.tuples.whitelist_expired) % 2 ^ 32;
  requests = (s.requests) % 2 ^ 32;
  requests_cu = (s.req_cu) % 2 ^ 32;
  requests_cu_max = (s.req_cumax) % 2 ^ 32;
  requests_cu_ave = (average s) % 2 ^ 32;
  tuples_read = (s.tuples.tuples_read) % 2 ^ 32;
  tuples_read_cu = (s.tuples_read_cu) % 2 ^ 32;
  tuples_read_cu_max = (s.tuples_read_cumax) % 2 ^ 32;
  tuples_read_cu_ave = 0;
  tuples_write = (s.tuples.tuples_write) % 2 ^ 32;
  tuples_write_cu = (s.tuples_write_cu) % 2 ^ 32;
  tuples_write_cu_max = (s.tuples_write_cumax) % 2 ^ 32;
  tuples_write_cu_ave = 0;
  tuples_low = (s.tuples.tuples_low) % 2 ^ 32;
  tuples_high = (s.tuples.tuples_high) % 2 ^ 32;
  from = (length s.from_list.items + 1) % 2 ^ 32;
  from_greylist = (s.from_list.cmdcnt.greylist) % 2 ^ 32;
  from_accept = (s.from_list.cmdcnt.accept) % 2 ^ 32;
  from_reject = (s.from_list.cmdcnt.reject) % 2 ^ 32;
  fromd = (length s.fromd_list.items + 1) % 2 ^ 32;
  fromd_greylist = (s.fromd_list.cmdcnt.greylist) % 2 ^ 32;
  fromd_accept = (s.fromd_list.cmdcnt.accept) % 2 ^ 32;
  fromd_reject = (s.fromd_list.cmdcnt.reject) % 2 ^ 32;
  to = (length s.to_list.items + 1) % 2 ^ 32;
  to_greylist = (s.to_list.cmdcnt.greylist) % 2 ^ 32;
  to_accept = (s.to_list.cmdcnt.accept) % 2 ^ 32;
  to_reject = (s.to_list.cmdcnt.reject) % 2 ^ 32;
  tod = (length s.tod_list.items + 1) % 2 ^ 32;
  tod_greylist = (s.tod_list.cmdcnt.greylist) % 2 ^ 32;
  tod_accept = (s.tod_list.cmdcnt.accept) % 2 ^ 32;
  tod_reject = (s.tod_list.cmdcnt.reject) % 2 ^ 32;
}

-- The case CMD_MCP_SHOW_CONFIG.
unfoldable pub show_config : Setup → ShowConfig
show_config g = record {
  max_tuples = g.config.poolmax % 2 ^ 32;
  timeout_cleanup = g.time_cleanup % 2 ^ 32;
  timeout_embargo = g.config.timeout_embargo % 2 ^ 32;
  timeout_grey = g.config.timeout_grey % 2 ^ 32;
  timeout_white = g.config.timeout_white % 2 ^ 32;
}

unfoldable pub no_answer : GlErr → Answer
unfolding err_code
no_answer e =
    replied (record { type = Protocol.cmd_none_resp; response = err_code e; why = no_reason })

-- `cmd_mcp_report`, as the parent and the reply of the child.
unfoldable pub cmd_mcp_report : Host → Command → Answer
unfolding no_answer
cmd_mcp_report h resp =
    if not h.has_socket
    then no_answer cant_generate_report
    else if not h.has_process
    then no_answer cant_generate_report
    else report resp

-- The case CMD_MCP_IPLIST, on `struct glmcp_request_iplist`.
unfoldable pub cmd_mcp_iplist : Request → Server → Run (Server × Answer)
unfolding ip_add_sm no_answer ntohs_at
cmd_mcp_iplist req s =
    if not (ntohs_at req.buffer 12 == 4)
    then done (s, no_answer ipaddr_not_supported)
    else (ip_add_sm s.ips (take 16 (drop 16 req.buffer)) (ntohs_at req.buffer 14)
          (ntohs_at req.buffer 10)
        >>= λ l. done (
          record s { ips = l },
          replied (record { type = Protocol.mcp_iplist_resp; response = 0; why = no_reason }),
        ))

abbrev with_reply : Server × Reply → Run (Server × Answer)
with_reply (s, r) = done (s, replied r)

-- The switch on the type of the request.
unfoldable pub dispatch : Setup → Host → Request → Option Command → Server → Run (Server × Answer)
unfolding type_greylist type_tuple_remove cmd_mcp_tofrom cmd_mcp_iplist cmd_mcp_report show_stats
    show_config no_answer
dispatch g h req none s = done (s, no_answer type_not_supported)
dispatch g h req (some Protocol.cmd_none) s = done (s, no_answer okay)
dispatch g h req (some Protocol.cmd_greylist) s =
    type_greylist g.config req false Protocol.cmd_greylist_resp s >>= with_reply
dispatch g h req (some Protocol.cmd_whitelist) s =
    type_greylist g.config req true Protocol.cmd_whitelist_resp s >>= with_reply
dispatch g h req (some Protocol.cmd_tuple_remove) s = type_tuple_remove req s >>= with_reply
dispatch g h req (some Protocol.mcp_show_stats) s = done (s, stats (show_stats g req s))
dispatch g h req (some Protocol.mcp_show_config) s = done (s, config (show_config g))
dispatch g h req (some Protocol.mcp_show_iplist) s =
    done (s, cmd_mcp_report h Protocol.mcp_show_iplist_resp)
dispatch g h req (some Protocol.mcp_show_tuple) s =
    done (s, cmd_mcp_report h Protocol.mcp_show_tuple_resp)
dispatch g h req (some Protocol.mcp_show_tuple_all) s =
    done (s, cmd_mcp_report h Protocol.mcp_show_tuple_all_resp)
dispatch g h req (some Protocol.mcp_show_whitelist) s =
    done (s, cmd_mcp_report h Protocol.mcp_show_whitelist_resp)
dispatch g h req (some Protocol.mcp_show_to) s =
    done (s, cmd_mcp_report h Protocol.mcp_show_to_resp)
dispatch g h req (some Protocol.mcp_show_to_domain) s =
    done (s, cmd_mcp_report h Protocol.mcp_show_to_domain_resp)
dispatch g h req (some Protocol.mcp_show_from) s =
    done (s, cmd_mcp_report h Protocol.mcp_show_from_resp)
dispatch g h req (some Protocol.mcp_show_from_domain) s =
    done (s, cmd_mcp_report h Protocol.mcp_show_from_domain_resp)
dispatch g h req (some Protocol.mcp_iplist) s = cmd_mcp_iplist req s
dispatch g h req (some Protocol.mcp_to) s =
    cmd_mcp_tofrom req Protocol.mcp_to Protocol.mcp_to_resp s >>= with_reply
dispatch g h req (some Protocol.mcp_to_domain) s =
    cmd_mcp_tofrom req Protocol.mcp_to_domain Protocol.mcp_to_domain_resp s >>= with_reply
dispatch g h req (some Protocol.mcp_from) s =
    cmd_mcp_tofrom req Protocol.mcp_from Protocol.mcp_from_resp s >>= with_reply
dispatch g h req (some Protocol.mcp_from_domain) s =
    cmd_mcp_tofrom req Protocol.mcp_from_domain Protocol.mcp_from_domain_resp s >>= with_reply
dispatch g h req (some _) s = done (s, no_answer type_not_supported)

-- A pass of the loop on a datagram that came in: the signature, the version, the type.
unfoldable pub handle_packet : Setup → Host → Request → Server → Run (Server × Answer)
unfolding packet_crc ntohl dispatch no_answer ntohs_at
handle_packet g h req s = packet_crc g.secret req.buffer req.size >>= λ crc.
    if not (crc == ntohl req.buffer)
    then done (s, silent)
    else if ltb Protocol.version (version_of req)
    then done (s, no_answer version_not_supported)
    else dispatch g h req (command_of (type_of req)) s
