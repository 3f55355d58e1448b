-- ===== src/Control/Replies/Numbers.antt =====
-- The numbers that control/gld-mcp.c prints are those of server/gld.c.
use x_grey.Prelude.{ℕ, length, ◌+◌, ◌*◌, ◌/◌, ◌%◌, ◌^◌, ◌≡◌, List, [], ◌∷◌, ◌++◌, arith}
use x_grey.Server.{Server}
use x_grey.Server.Packet.{Request}
use x_grey.Daemon.{Setup, average, show_stats, show_config}
use x_grey.Control.Replies.{stats_body, config_body, read_stats, read_config}

-- A number of 32 bits and its four bytes.
word :
    (x : ℕ)
    → (x % 2 ^ 32) / 2 ^ 24 % 256 * 2 ^ 24
        + (x % 2 ^ 32) / 2 ^ 16 % 256 * 2 ^ 16
        + (x % 2 ^ 32) / 2 ^ 8 % 256 * 2 ^ 8
        + x % 2 ^ 32 % 256
      ≡ x % 2 ^ 32
word x = omega arith

-- Of a reply with the counters of the daemon, whatever its signature and what follows it are, the
-- control program prints each counter under its own name; of a reply with the settings, each setting.
pub read_stats-stats_body :
    (g : Setup) (req : Request) (s : Server) (a b c d m n : ℕ) (rest : List ℕ)
    → (read_stats ((a ∷ b ∷ c ∷ d ∷ stats_body (m ∷ n ∷ []) (show_stats g req s)) ++ rest)
        ≡ show_stats g req s)
      × (read_config ((a ∷ b ∷ c ∷ d ∷ config_body (m ∷ n ∷ []) (show_config g)) ++ rest)
          ≡ show_config g)
unfolding read_stats stats_body read_config config_body show_stats show_config
read_stats-stats_body g req s a b c d m n rest = (
  (λ i. record {
    starttime = word (g.starttime) i;
    nowtime = word (req.now) i;
    tuples = word (s.tuples.poolnum) i;
    ips = word (s.ips.ipcnt) i;
    ip_greylist = word (s.ip_cmdcnt.greylist) i;
    ip_accept = word (s.ip_cmdcnt.accept) i;
    ip_reject = word (s.ip_cmdcnt.reject) i;
    greylisted = word (s.greylisted) i;
    whitelisted = word (s.tuples.whitelisted) i;
    greylist_expired = word (s.tuples.greylist_expired) i;
    whitelist_expired = word (s.tuples.whitelist_expired) i;
    requests = word (s.requests) i;
    requests_cu = word (s.req_cu) i;
    requests_cu_max = word (s.req_cumax) i;
    requests_cu_ave = word (average s) i;
    from = word (length s.from_list.items + 1) i;
    from_greylist = word (s.from_list.cmdcnt.greylist) i;
    from_accept = word (s.from_list.cmdcnt.accept) i;
    from_reject = word (s.from_list.cmdcnt.reject) i;
    fromd = word (length s.fromd_list.items + 1) i;
    fromd_greylist = word (s.fromd_list.cmdcnt.greylist) i;
    fromd_accept = word (s.fromd_list.cmdcnt.accept) i;
    fromd_reject = word (s.fromd_list.cmdcnt.reject) i;
    to = word (length s.to_list.items + 1) i;
    to_greylist = word (s.to_list.cmdcnt.greylist) i;
    to_accept = word (s.to_list.cmdcnt.accept) i;
    to_reject = word (s.to_list.cmdcnt.reject) i;
    tod = word (length s.tod_list.items + 1) i;
    tod_greylist = word (s.tod_list.cmdcnt.greylist) i;
    tod_accept = word (s.tod_list.cmdcnt.accept) i;
    tod_reject = word (s.tod_list.cmdcnt.reject) i;
    tuples_read = word (s.tuples.tuples_read) i;
    tuples_read_cu = word (s.tuples_read_cu) i;
    tuples_read_cu_max = word (s.tuples_read_cumax) i;
    tuples_read_cu_ave = 0;
    tuples_write = word (s.tuples.tuples_write) i;
    tuples_write_cu = word (s.tuples_write_cu) i;
    tuples_write_cu_max = word (s.tuples_write_cumax) i;
    tuples_write_cu_ave = 0;
    tuples_low = word (s.tuples.tuples_low) i;
    tuples_high = word (s.tuples.tuples_high) i;
  }),
  (λ i. record {
    max_tuples = word (g.config.poolmax) i;
    timeout_cleanup = word (g.time_cleanup) i;
    timeout_embargo = word (g.config.timeout_embargo) i;
    timeout_grey = word (g.config.timeout_grey) i;
    timeout_white = word (g.config.timeout_white) i;
  }),
)
