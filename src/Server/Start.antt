-- ===== src/Server/Start.antt =====
-- `GlobalsInit` of server/globals.c up to the reading of the files: the state that the daemon starts
-- with.
use x_grey.Prelude.{ℕ, ◌<◌, ◌≢◌, refl, Bool, true, false, List, [], ◌∷◌, arith}
use x_grey.Protocol.{ift_none, ift_greylist}
use x_grey.IpTree.{node, null}
use x_grey.IpTree.Rules.{rule, rule-null, count_rules}
use x_grey.EmailDomain.{EList, Counts}
use x_grey.Tuple.{zero_tuple}
use x_grey.Pool.{Config, Pool, count_from}
use x_grey.Pool.Search.{IsPool}
use x_grey.Pool.Counting.{length-count_from, count_from_high, count_from-Distinct}
use x_grey.Server.{Server}
use x_grey.Server.Checks.{IsList, HasLists}

abbrev pub no_counts : Counts
no_counts = record { greylist = 0; accept = 0; reject = 0 }

-- A list before its file is read; `g_def...` is IFT_GREYLIST.
abbrev pub empty_list : EList
empty_list = record {
  items = [];
  max = 0;
  def_cmd = ift_greylist;
  def_count = 0;
  cmdcnt = no_counts;
}

-- The arrays of `calloc`: every tuple is zero, and the pointers stand in order.
unfoldable pub start_pool : Config → Pool
unfolding count_from
start_pool c = record {
  pool = λ i. zero_tuple;
  tuplespace = count_from 0 c.poolmax;
  poolnum = 0;
  tuples_read = 0;
  tuples_read_cucurrent = 0;
  tuples_write = 0;
  tuples_write_cucurrent = 0;
  tuples_low = 0;
  tuples_high = 0;
  whitelisted = 0;
  whitelist_expired = 0;
  greylist_expired = 0;
}

unfoldable pub start : Config → ℕ → Server
unfolding start_pool
start c now = record {
  tuples = start_pool c;
  ips = record { tree = node 0 ift_greylist null null; ipcnt = 1 };
  ip_cmdcnt = no_counts;
  to_list = empty_list;
  tod_list = empty_list;
  from_list = empty_list;
  fromd_list = empty_list;
  requests = 0;
  req_cu = 0;
  req_cucurrent = 0;
  req_cumax = 0;
  cleanup_count = 0;
  greylisted = 0;
  tuples_read_cu = 0;
  tuples_read_cumax = 0;
  tuples_write_cu = 0;
  tuples_write_cumax = 0;
  time_savestate = now;
}

empty_list-IsList : IsList empty_list
empty_list-IsList = record {
  sorted = record { ascending = tt; roomy = omega arith };
  sane = record { default = omega arith; entries = tt };
}

-- The tree has the default alone.
default_sane :
    (q : List Bool)
    → rule (node 0 ift_greylist null null) q ≢ ift_none
    → rule (node 0 ift_greylist null null) q < 3
unfolding rule
default_sane [] h = omega arith
default_sane (false ∷ q) h = elim (h (rule-null q)) [ ]
default_sane (true ∷ q) h = elim (h (rule-null q)) [ ]

-- The state that the daemon starts with is in order, whatever the configuration is: each pointer
-- stands once in the pool, the tree answers every address, and every list is sorted and answers with
-- one of the three verdicts.
pub start-IsPool : (c : Config) (now : ℕ) → IsPool c (start c now).tuples × HasLists (start c now)
unfolding start start_pool rule count_rules
start-IsPool c now = (
  record {
    tuples = λ i. record {
      ip_length = refl;
      from_length = refl;
      to_length = refl;
      from_fits = omega arith;
      to_fits = omega arith;
    };
    full = length-count_from 0 c.poolmax;
    bounded = omega arith;
    ascending = tt;
    distinct = count_from-Distinct 0 c.poolmax;
    slots = count_from_high 0 c.poolmax c.poolmax (omega arith);
  },
  record {
    ips = record {
      listed = record {
        answering = record { default = λ e. omega (arith, e); levels = (tt, tt) };
        counted = refl;
      };
      sane = default_sane;
    };
    to_list = empty_list-IsList;
    tod_list = empty_list-IsList;
    from_list = empty_list-IsList;
    fromd_list = empty_list-IsList;
  },
)
