-- ===== src/Control/Replies.antt =====
-- control/gld-mcp.c: the replies of numbers, `struct glmcp_response_show_stats` and
-- `struct glmcp_response_show_config`, as the daemon writes them and the program reads them.
pub mod Numbers
use x_grey.Prelude.{ℕ, ◌+◌, List, [], ◌∷◌, ◌++◌, drop}
use x_grey.Crc.{htonl, ntohl}
use x_grey.Protocol.{version, command_code, mcp_show_stats_resp, mcp_show_config_resp}
use x_grey.Client.{htons}
use x_grey.Daemon.{Stats, ShowConfig}

-- The numbers that follow the head of a reply, each four bytes.
unfoldable pub words_body : List ℕ → List ℕ
unfolding htonl
words_body [] = []
words_body (n ∷ ns) = htonl n ++ words_body ns

-- The case CMD_MCP_SHOW_STATS of server/gld.c, behind the field `crc`; `mta` is copied from the
-- request. The fields stand in the order of the structure.
unfoldable pub stats_body : List ℕ → Stats → List ℕ
unfolding htons words_body command_code
stats_body mta s =
    htons version
    ++ (mta
        ++ (htons (command_code mcp_show_stats_resp)
            ++ (0
                ∷ 0
                ∷ words_body (
                    s.starttime ∷ s.nowtime ∷ s.tuples ∷ s.ips ∷ s.ip_greylist ∷ s.ip_accept
                    ∷ s.ip_reject ∷ s.greylisted ∷ s.whitelisted ∷ s.greylist_expired
                    ∷ s.whitelist_expired ∷ s.requests ∷ s.requests_cu ∷ s.requests_cu_max
                    ∷ s.requests_cu_ave ∷ s.from ∷ s.from_greylist ∷ s.from_accept ∷ s.from_reject
                    ∷ s.fromd ∷ s.fromd_greylist ∷ s.fromd_accept ∷ s.fromd_reject ∷ s.to
                    ∷ s.to_greylist ∷ s.to_accept ∷ s.to_reject ∷ s.tod ∷ s.tod_greylist
                    ∷ s.tod_accept ∷ s.tod_reject ∷ s.tuples_read ∷ s.tuples_read_cu
                    ∷ s.tuples_read_cu_max ∷ s.tuples_read_cu_ave ∷ s.tuples_write
                    ∷ s.tuples_write_cu ∷ s.tuples_write_cu_max ∷ s.tuples_write_cu_ave
                    ∷ s.tuples_low ∷ s.tuples_high ∷ []))))

-- The case CMD_MCP_SHOW_CONFIG of server/gld.c, behind the field `crc`.
unfoldable pub config_body : List ℕ → ShowConfig → List ℕ
unfolding htons words_body command_code
config_body mta c =
    htons version
    ++ (mta
        ++ (htons (command_code mcp_show_config_resp)
            ++ (0
                ∷ 0
                ∷ words_body (
                    c.max_tuples ∷ c.timeout_cleanup ∷ c.timeout_embargo ∷ c.timeout_grey
                    ∷ c.timeout_white ∷ []))))

-- `ntohl` of the field at an offset.
unfoldable pub ntohl_at : List ℕ → ℕ → ℕ
unfolding ntohl
ntohl_at bytes i = ntohl (drop i bytes)

-- `show_stats`: the numbers printed. Some go through `htonl` in place of `ntohl`, which does the same.
unfoldable pub read_stats : List ℕ → Stats
unfolding ntohl_at
read_stats b = record {
  starttime = ntohl_at b 12;
  nowtime = ntohl_at b 16;
  tuples = ntohl_at b 20;
  ips = ntohl_at b 24;
  ip_greylist = ntohl_at b 28;
  ip_accept = ntohl_at b 32;
  ip_reject = ntohl_at b 36;
  greylisted = ntohl_at b 40;
  whitelisted = ntohl_at b 44;
  greylist_expired = ntohl_at b 48;
  whitelist_expired = ntohl_at b 52;
  requests = ntohl_at b 56;
  requests_cu = ntohl_at b 60;
  requests_cu_max = ntohl_at b 64;
  requests_cu_ave = ntohl_at b 68;
  from = ntohl_at b 72;
  from_greylist = ntohl_at b 76;
  from_accept = ntohl_at b 80;
  from_reject = ntohl_at b 84;
  fromd = ntohl_at b 88;
  fromd_greylist = ntohl_at b 92;
  fromd_accept = ntohl_at b 96;
  fromd_reject = ntohl_at b 100;
  to = ntohl_at b 104;
  to_greylist = ntohl_at b 108;
  to_accept = ntohl_at b 112;
  to_reject = ntohl_at b 116;
  tod = ntohl_at b 120;
  tod_greylist = ntohl_at b 124;
  tod_accept = ntohl_at b 128;
  tod_reject = ntohl_at b 132;
  tuples_read = ntohl_at b 136;
  tuples_read_cu = ntohl_at b 140;
  tuples_read_cu_max = ntohl_at b 144;
  tuples_read_cu_ave = ntohl_at b 148;
  tuples_write = ntohl_at b 152;
  tuples_write_cu = ntohl_at b 156;
  tuples_write_cu_max = ntohl_at b 160;
  tuples_write_cu_ave = ntohl_at b 164;
  tuples_low = ntohl_at b 168;
  tuples_high = ntohl_at b 172;
}

-- `show_config`: the numbers printed.
unfoldable pub read_config : List ℕ → ShowConfig
unfolding ntohl_at
read_config b = record {
  max_tuples = ntohl_at b 12;
  timeout_cleanup = ntohl_at b 16;
  timeout_embargo = ntohl_at b 20;
  timeout_grey = ntohl_at b 24;
  timeout_white = ntohl_at b 28;
}
