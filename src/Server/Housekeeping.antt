-- ===== src/Server/Housekeeping.antt =====
-- server/signals.c: what the alarm does to a daemon in order.
use x_grey.Prelude.{
  ℕ, ◌+◌, ◌≤◌, ◌≡◌, ◌↔◌, refl, ◌<◌, Bool, true, false, arith, leb, ltb, max, if◌then◌else◌, Returns,
  Returns-bind,
}
use x_grey.Pool
use x_grey.Pool.{Config, Pool}
use x_grey.Pool.Search.{IsPool}
use x_grey.Pool.Spare.{freed, IsTidy}
use x_grey.Pool.Counters.{Whenever, HasCounters, Returns-Whenever, tuple_expire-HasCounters}
use x_grey.Pool.Purge.{IsPurged, tuple_expire-IsPurged}
use x_grey.Server.{Server}
use x_grey.Server.Checks.{HasLists}
use x_grey.Server.Alarm.{turn_counters, handle_sigalrm}

-- The daemon after an alarm at `now`, and whether a child saves its state.
pub record IsCleaned (c : Config) (now : ℕ) (s : Server) (r : Server × Bool) : Type 0 where
  pub purged : IsPurged c now s.tuples r.0.tuples
  pub lists : HasLists r.0
  pub requests : (r.0.req_cu ≡ s.req_cucurrent) × (r.0.req_cumax ≡ max s.req_cumax s.req_cucurrent)
  pub reads :
      (r.0.tuples_read_cu ≡ s.tuples.tuples_read_cucurrent)
      × (r.0.tuples_read_cumax ≡ max s.tuples_read_cumax s.tuples.tuples_read_cucurrent)
  pub writes :
      (r.0.tuples_write_cu ≡ s.tuples.tuples_write_cucurrent)
      × (r.0.tuples_write_cumax ≡ max s.tuples_write_cumax s.tuples.tuples_write_cucurrent)
  pub next_period : r.0.req_cucurrent ≡ 0
  pub counters : HasCounters s.tuples.tuples_read 0 (s.tuples.tuples_write + 1) 1 r.0.tuples
  pub totals :
      (r.0.cleanup_count ≡ s.cleanup_count + 1)
      × ((r.0.requests ≡ s.requests) × (r.0.greylisted ≡ s.greylisted))
  pub saves : (r.1 ≡ true) ↔ (s.time_savestate + c.time_savestate ≤ now)
  pub rules : r.0.ips ≡ s.ips
  pub same_lists :
      ((r.0.to_list ≡ s.to_list) × (r.0.tod_list ≡ s.tod_list))
      × ((r.0.from_list ≡ s.from_list) × (r.0.fromd_list ≡ s.fromd_list))
  pub next_save : r.0.time_savestate ≡ (if r.1 then now else s.time_savestate)

larger : (m n : ℕ) → (if ltb m n then n else m) ≡ max m n
larger m n = ground arith

module _ (c : Config) (now : ℕ) (s : Server) where
  turned-IsPool : IsPool c s.tuples → IsPool c (turn_counters s).tuples
  unfolding turn_counters
  turned-IsPool v = record {
    tuples = v.tuples;
    full = v.full;
    bounded = v.bounded;
    ascending = v.ascending;
    distinct = v.distinct;
    slots = v.slots;
  }

  turned-IsPurged :
      (p : Pool) → IsPurged c now (turn_counters s).tuples p → IsPurged c now s.tuples p
  unfolding turn_counters
  turned-IsPurged p w = record {
    in_order = w.in_order;
    tidy = w.tidy;
    survivors = w.survivors;
    conserved = w.conserved;
    contents = w.contents;
    keys = w.keys;
    accounts = w.accounts;
  }

  turned-HasLists :
      (p : Pool) (at : ℕ)
      → HasLists s
      → HasLists (record (turn_counters s) { tuples = p; time_savestate = at })
  unfolding turn_counters
  turned-HasLists p at l = record {
    ips = l.ips;
    to_list = l.to_list;
    tod_list = l.tod_list;
    from_list = l.from_list;
    fromd_list = l.fromd_list;
  }

  turned_counters :
      Whenever
        (Pool.tuple_expire c now (turn_counters s).tuples)
        (HasCounters s.tuples.tuples_read 0 (s.tuples.tuples_write + 1) 1)
  unfolding turn_counters
  turned_counters = tuple_expire-HasCounters c now (turn_counters s).tuples

  module _ (p : Pool) (w : IsPurged c now (turn_counters s).tuples p)
      (n : HasCounters s.tuples.tuples_read 0 (s.tuples.tuples_write + 1) 1 p)
      (l : HasLists s) where
    cleaned :
        (b : Bool)
        → leb (s.time_savestate + c.time_savestate) now ≡ b
        → IsCleaned c now s (
            let u : Server = record (turn_counters s) { tuples = p } in
            if b then (record u { time_savestate = now }, true) else (u, false))
    unfolding turn_counters
    cleaned true due = record {
      purged = turned-IsPurged p w;
      lists = turned-HasLists p now l;
      requests = (refl, larger s.req_cumax s.req_cucurrent);
      reads = (refl, larger s.tuples_read_cumax s.tuples.tuples_read_cucurrent);
      writes = (refl, larger s.tuples_write_cumax s.tuples.tuples_write_cucurrent);
      next_period = refl;
      counters = n;
      totals = (refl, (refl, refl));
      saves = ((λ e. ground arith), λ h. refl);
      rules = refl;
      same_lists = ((refl, refl), (refl, refl));
      next_save = refl;
    }
    cleaned false due = record {
      purged = turned-IsPurged p w;
      lists = turned-HasLists p s.time_savestate l;
      requests = (refl, larger s.req_cumax s.req_cucurrent);
      reads = (refl, larger s.tuples_read_cumax s.tuples.tuples_read_cucurrent);
      writes = (refl, larger s.tuples_write_cumax s.tuples.tuples_write_cucurrent);
      next_period = refl;
      counters = n;
      totals = (refl, (refl, refl));
      saves = ((λ e. cc), λ h. ground arith);
      rules = refl;
      same_lists = ((refl, refl), (refl, refl));
      next_save = refl;
    }

  -- With the pool and the lists in order, the slots freed before first among those without an entry,
  -- and a slot that was never used, the alarm returns; it expires the tuples and leaves all that in
  -- order, and the rules and lists as they were. The requests, the reads and the writes of the period
  -- are taken over as those of the last period, and the largest of each is the larger of the two;
  -- their counts start again at 0, but for the one write that the sweep is. One cleanup more is
  -- counted. A child is to save the state exactly if `time_savestate` has passed since it last was
  -- saved, which is then noted.
  pub handle_sigalrm-IsCleaned :
      IsPool c s.tuples
      → IsTidy s.tuples
      → s.tuples.poolnum + freed s.tuples < c.poolmax
      → HasLists s
      → Returns (handle_sigalrm c now s) (IsCleaned c now s)
  unfolding handle_sigalrm
  handle_sigalrm-IsCleaned v tidy room l =
      Returns-bind (Pool.tuple_expire c now (turn_counters s).tuples) _ _ _
        (Returns-Whenever (Pool.tuple_expire c now (turn_counters s).tuples) _ _
          (tuple_expire-IsPurged c now (turn_counters s).tuples (turned-IsPool v) tidy room)
          turned_counters)
        (λ p w. cleaned p w.0 w.1 l (leb (s.time_savestate + c.time_savestate) now) refl)
