-- ===== src/Server/Alarm.antt =====
-- server/signals.c: what SIGALRM does to the state, and the flags that the main loop asks for.
use x_grey.Prelude.{ℕ, ◌+◌, Bool, true, false, ltb, leb, if◌then◌else◌, Run, done, ◌>>=◌}
use x_grey.Pool
use x_grey.Pool.{Config, Pool}
use x_grey.Server.{Server}

-- The counters of the period that ends are moved, and kept where they are the largest so far.
unfoldable pub turn_counters : Server → Server
turn_counters s = record s {
  cleanup_count = s.cleanup_count + 1;
  req_cu = s.req_cucurrent;
  req_cucurrent = 0;
  req_cumax = if ltb s.req_cumax s.req_cucurrent then s.req_cucurrent else s.req_cumax;
  tuples_read_cu = s.tuples.tuples_read_cucurrent;
  tuples_read_cumax =
      if ltb s.tuples_read_cumax s.tuples.tuples_read_cucurrent
      then s.tuples.tuples_read_cucurrent
      else s.tuples_read_cumax;
  tuples_write_cu = s.tuples.tuples_write_cucurrent;
  tuples_write_cumax =
      if ltb s.tuples_write_cumax s.tuples.tuples_write_cucurrent
      then s.tuples.tuples_write_cucurrent
      else s.tuples_write_cumax;
  tuples = record s.tuples { tuples_read_cucurrent = 0; tuples_write_cucurrent = 0 };
}

-- The state afterwards, and whether a child is to save it. `now` is what `time(NULL)` returns.
unfoldable pub handle_sigalrm : Config → ℕ → Server → Run (Server × Bool)
unfolding turn_counters
handle_sigalrm c now s =
    let t : Server = turn_counters s in
    Pool.tuple_expire c now t.tuples >>= λ p.
    let u : Server = record t { tuples = p } in
    done (
      if leb (t.time_savestate + c.time_savestate) now
      then (record u { time_savestate = now }, true)
      else (u, false))

-- `handle_sigusr2`
unfoldable pub handle_sigusr2 : Config → ℕ → Server → Run Server
handle_sigusr2 c now s = Pool.tuple_expire c now s.tuples >>= λ p. done (record s { tuples = p })

-- The flags `mf_sig...` that the handlers set.
pub record Signals : Type 0 where
  pub sigchld : Bool
  pub sigalrm : Bool
  pub sigint : Bool
  pub sigquit : Bool
  pub sigterm : Bool
  pub sigpipe : Bool
  pub sigusr1 : Bool
  pub sigusr2 : Bool
  pub sighup : Bool
  pub stupid : Bool

-- The signal numbers that `sighandler_sigs` tells apart.
pub data Signal : Type 0 where
  chld alrm int quit term pipe usr1 usr2 hup other : Signal

unfoldable pub sighandler_sigs : Signal → Signals → Signals
sighandler_sigs chld f = record f { sigchld = true }
sighandler_sigs int f = record f { sigint = true }
sighandler_sigs quit f = record f { sigquit = true }
sighandler_sigs term f = record f { sigterm = true }
sighandler_sigs pipe f = record f { sigpipe = true }
sighandler_sigs alrm f = record f { sigalrm = true }
sighandler_sigs usr1 f = record f { sigusr1 = true }
sighandler_sigs usr2 f = record f { sigusr2 = true }
sighandler_sigs hup f = record f { sighup = true }
sighandler_sigs other f = record f { stupid = true }
