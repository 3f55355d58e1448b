-- ===== src/Tests/Daemons.antt =====
-- The daemon of server/gld.c with empty lists.
use x_grey.Prelude.{
  ◌++◌, ◌≡◌, ◌≢◌, ◌<◌, refl, Bool, true, false, List, [], ◌∷◌, arith, replicate, abort, Returns,
}
use x_grey.Protocol.{ift_none, cmd_greylist_resp, mcp_from, mcp_from_resp}
use x_grey.Text.{cstring}
use x_grey.Server.Lists.{tofrom_key, cmd_mcp_tofrom}
use x_grey.Monitor.{waits, monitor}
use x_grey.Monitor.Window.{crashes, monitor-crashes}
use x_grey.Server.Ordered.{IsListCommand, IsOrdered, IsRelisted, cmd_mcp_tofrom-IsRelisted}
use x_grey.IpTree.Rules.{rule, rule-null, count_rules}
use x_grey.Tuple.Key.{tuple_key}
use x_grey.Server.Checks.{IsList, HasLists}
use x_grey.Server.Sanitize.{OnSome, IsWhole, greylist_sanitize_req-IsWhole}
use x_grey.Server.Remember.{IsRemembered, check_tuple-IsRemembered}
use x_grey.Server.Retry.{ask_again, ask_again-check_tuple}
use x_grey.Server.Answer.{IsJudged, judge-IsJudged, IsReplied, type_greylist-IsReplied}
use x_grey.Server.Embargo.{IsDecided, old_tuple-IsDecided}
use x_grey.IpTree.{node, null}
use x_grey.Server.{Server, old_tuple, check_tuple, judge, type_greylist}
use x_grey.Server.Packet.{Request, greylist_sanitize_req}
use x_grey.Daemon.{Setup, handle_packet}
use x_grey.Daemon.Short.{handle_packet_short}
use x_grey.Tests.Base.{
  two_slots, one_tuple, no_list, from_host, from_host-IsTuple, one_tuple-IsPool,
}

abbrev pub daemon : Server
daemon = record {
  tuples = one_tuple;
  ips = record { tree = node 0 0 null null; ipcnt = 1 };
  ip_cmdcnt = record { greylist = 0; accept = 0; reject = 0 };
  to_list = no_list;
  tod_list = no_list;
  from_list = no_list;
  fromd_list = no_list;
  requests = 0;
  req_cu = 0;
  req_cucurrent = 0;
  req_cumax = 0;
  cleanup_count = 0;
  greylisted = 0;
  tuples_read_cu = 0;
  tuples_read_cumax = 0;
  tuples_write_cu = 0;
  tuples_write_cumax = 0;
  time_savestate = 0;
}

abbrev pub setup : Setup
setup = record { config = two_slots; secret = b's' ∷ []; starttime = 0; time_cleanup = 60 }

abbrev four_bytes : Request
four_bytes = record { now = 100; clock = 100; buffer = replicate 1500 0; size = 4 }

handle_packet_short_example :
    handle_packet setup (record { has_socket = true; has_process = true }) four_bytes daemon ≡ abort
handle_packet_short_example =
    handle_packet_short setup (record { has_socket = true; has_process = true }) four_bytes daemon
      (omega arith) (omega arith)

no_list-IsList : IsList no_list
no_list-IsList = record {
  sorted = record { ascending = tt; roomy = omega arith };
  sane = record { default = omega arith; entries = tt };
}

-- The tree has the default alone.
default_sane : (q : List Bool) → rule daemon.ips.tree q ≢ ift_none → rule daemon.ips.tree q < 3
unfolding rule
default_sane [] h = omega arith
default_sane (false ∷ q) h = elim (h (rule-null q)) [ ]
default_sane (true ∷ q) h = elim (h (rule-null q)) [ ]

pub daemon-HasLists : HasLists daemon
unfolding rule count_rules
daemon-HasLists = record {
  ips = record {
    listed = record {
      answering = record { default = λ e. omega (arith, e); levels = (tt, tt) };
      counted = refl;
    };
    sane = default_sane;
  };
  to_list = no_list-IsList;
  tod_list = no_list-IsList;
  from_list = no_list-IsList;
  fromd_list = no_list-IsList;
}

-- A request for a verdict on 10.0.0.9, a@b and c@d.
abbrev pub three_texts : Request
three_texts = record {
  now = 100;
  clock = 100;
  buffer =
      0
      ∷ 0
      ∷ 0
      ∷ 0
      ∷ 1
      ∷ 1
      ∷ 0
      ∷ 0
      ∷ 0
      ∷ 2
      ∷ 0
      ∷ 4
      ∷ 0
      ∷ 3
      ∷ 0
      ∷ 3
      ∷ 10
      ∷ 0
      ∷ 0
      ∷ 9
      ∷ b'a'
      ∷ b'@'
      ∷ b'b'
      ∷ b'c'
      ∷ b'@'
      ∷ b'd'
      ∷ replicate 1474 0;
  size = 26;
}

greylist_sanitize_req-IsWhole_example : OnSome IsWhole (greylist_sanitize_req three_texts)
greylist_sanitize_req-IsWhole_example = greylist_sanitize_req-IsWhole three_texts (omega arith)

type_greylist-IsReplied_example :
    Returns
      (type_greylist two_slots three_texts false cmd_greylist_resp daemon)
      (IsReplied two_slots)
type_greylist-IsReplied_example =
    type_greylist-IsReplied two_slots three_texts false cmd_greylist_resp daemon (omega arith)
      one_tuple-IsPool daemon-HasLists (omega arith)

judge-IsJudged_example :
    Returns
      (judge two_slots three_texts false (from_host 2) daemon)
      (IsJudged two_slots (tuple_key (from_host 2)))
judge-IsJudged_example =
    judge-IsJudged two_slots (from_host 2) (from_host-IsTuple 2) three_texts false refl daemon
      one_tuple-IsPool daemon-HasLists (omega arith)

check_tuple-IsRemembered_example :
    Returns
      (check_tuple two_slots three_texts false (from_host 2) daemon)
      (IsRemembered two_slots (tuple_key (from_host 2)))
check_tuple-IsRemembered_example =
    check_tuple-IsRemembered two_slots daemon (from_host 2) one_tuple-IsPool daemon-HasLists
      (from_host-IsTuple 2) three_texts false (omega arith) refl

old_tuple-IsDecided_example :
    IsDecided two_slots 2000 0 false daemon (old_tuple two_slots 2000 false 0 daemon)
old_tuple-IsDecided_example = old_tuple-IsDecided two_slots 2000 0 false daemon

daemon-IsOrdered : IsOrdered daemon
daemon-IsOrdered = record {
  to_sorted = no_list-IsList.sorted;
  tod_sorted = no_list-IsList.sorted;
  from_sorted = no_list-IsList.sorted;
  fromd_sorted = no_list-IsList.sorted;
}

-- A request to refuse the sender `x`.
abbrev relist : Request
relist = record three_texts { buffer = replicate 10 0 ++ (0 ∷ 2 ∷ 0 ∷ 1 ∷ b'x' ∷ replicate 1485 0) }

cmd_mcp_tofrom-IsRelisted_example :
    Returns
      (cmd_mcp_tofrom relist mcp_from mcp_from_resp daemon)
      (λ r. IsRelisted mcp_from IsListCommand.from_list (tofrom_key relist (b'x' ∷ [])) daemon r.0)
unfolding cstring
cmd_mcp_tofrom-IsRelisted_example =
    cmd_mcp_tofrom-IsRelisted relist (b'x' ∷ []) mcp_from mcp_from_resp daemon
      IsListCommand.from_list refl daemon-IsOrdered

-- Two crashes just after the start.
monitor-crashes_example :
    monitor (crashes (101 ∷ 102 ∷ [])) (record { abend_last = 100; abend_count = 0 })
    ≡ waits (record { abend_last = 100; abend_count = 2 })
monitor-crashes_example =
    monitor-crashes (record { abend_last = 100; abend_count = 0 }) (101 ∷ 102 ∷ []) (omega arith)
      (omega arith, (omega arith, tt))

-- The same triple 1500 seconds after it was put off.
ask_again-check_tuple_example :
    Returns
      (ask_again two_slots three_texts
        (from_host 2)
        (record three_texts { now = 1600 })
        (from_host 2)
        daemon)
      (λ r. r ≡ (0, 1))
unfolding x_grey.Order.Pair.lex x_grey.Order.strcmp
ask_again-check_tuple_example =
    ask_again-check_tuple two_slots three_texts (record three_texts { now = 1600 }) (from_host 2)
      (from_host 2) daemon one_tuple-IsPool (omega arith) refl (from_host-IsTuple 2)
      (from_host-IsTuple 2) refl refl refl
