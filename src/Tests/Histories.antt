-- ===== src/Tests/Histories.antt =====
-- Witnesses: expiry, a full pool, and a daemon over time.
use x_grey.Prelude.{
  true, false, ◌∷◌, [], List, ◌≡◌, none, some, refl, arith, done, Returns, length, ltb,
}
use x_grey.Pool.{Config, Pool, tuple_expire, tuple_allocate}
use x_grey.Pool.Search.{IsPool, live}
use x_grey.Pool.Expire.{keep}
use x_grey.Pool.Purge.{IsPurged, tuple_expire-IsPurged}
use x_grey.Pool.Full.{IsFullAnswer, tuple_allocate_full}
use x_grey.Protocol.{cmd_greylist_resp}
use x_grey.Server.Alarm.{Signals, handle_sigalrm}
use x_grey.Server.Children.{
  exited, signaled, child, running, interrupted, no_child, process_ended, process_returned,
  process_terminated, note, polled, notes_of, last_wait, last_note, repeat, handle_sigchld,
  handle_sigchld-notes_of,
}
use x_grey.Server.Fresh.{start-IsReady}
use x_grey.Server.History.{Event, asks, removes, alarms, live_through, live_through-IsReady}
use x_grey.Server.Housekeeping.{IsCleaned, handle_sigalrm-IsCleaned}
use x_grey.Server.Removal.{IsReady}
use x_grey.Server.Start.{start}
use x_grey.Tests.Base.{two_slots, one_tuple, one_tuple-IsPool, from_host-IsTuple}
use x_grey.Tests.Daemons.{daemon, daemon-HasLists, three_texts}

tuple_expire-IsPurged_example :
    Returns (tuple_expire two_slots 20000 one_tuple) (IsPurged two_slots 20000 one_tuple)
unfolding x_grey.Pool.Counting.count_flagged
tuple_expire-IsPurged_example =
    tuple_expire-IsPurged two_slots 20000 one_tuple one_tuple-IsPool (refl, tt) (omega arith)

abbrev one_slot : Config
one_slot = record two_slots { poolmax = 1 }

abbrev full_pool : Pool
full_pool = record one_tuple { tuplespace = 0 ∷ [] }

full_pool-IsPool : IsPool one_slot full_pool
full_pool-IsPool = record {
  tuples = λ i. from_host-IsTuple 1;
  full = refl;
  bounded = omega arith;
  ascending = (tt, tt);
  distinct = (tt, tt);
  slots = (omega arith, tt);
}

tuple_allocate_full_example :
    IsFullAnswer one_slot
      (ltb (length (keep one_slot 20000 full_pool.pool (live full_pool))) full_pool.poolnum)
      (tuple_allocate one_slot 20000 full_pool)
tuple_allocate_full_example =
    tuple_allocate_full one_slot 20000 full_pool full_pool-IsPool refl (omega arith)

handle_sigalrm-IsCleaned_example :
    Returns (handle_sigalrm two_slots 20000 daemon) (IsCleaned two_slots 20000 daemon)
unfolding x_grey.Pool.Counting.count_flagged
handle_sigalrm-IsCleaned_example =
    handle_sigalrm-IsCleaned two_slots 20000 daemon one_tuple-IsPool (refl, tt) (omega arith)
      daemon-HasLists

abbrev day : List Event
day = asks three_texts true cmd_greylist_resp ∷ alarms 200 ∷ removes three_texts ∷ alarms 300 ∷ []

live_through-IsReady_example :
    Returns (live_through two_slots day (start two_slots 100)) (IsReady two_slots 0)
unfolding x_grey.Server.History.questions
live_through-IsReady_example =
    live_through-IsReady two_slots day (start two_slots 100)
      (omega arith, (tt, (omega arith, (tt, tt)))) (start-IsReady two_slots 100 1 (omega arith))

abbrev no_signals : Signals
no_signals = record {
  sigchld = false;
  sigalrm = false;
  sigint = false;
  sigquit = false;
  sigterm = false;
  sigpipe = false;
  sigusr1 = false;
  sigusr2 = false;
  sighup = false;
  stupid = false;
}

-- A saver that ends while a dump runs on.
handle_sigchld-notes_of_example :
    (handle_sigchld (interrupted ∷ child 7 (exited 0) ∷ no_child ∷ []) no_signals
      ≡ done (no_signals, true, process_ended ∷ process_returned 0 ∷ []))
    × (handle_sigchld
          (interrupted ∷ child 7 (exited 0) ∷ child 8 (signaled 9) ∷ running ∷ [])
          no_signals
        ≡ done (
          no_signals,
          false,
          process_ended ∷ process_returned 0 ∷ process_terminated 8 9 ∷ process_terminated 0 9 ∷ [],
        ))
unfolding polled notes_of note last_wait last_note repeat
handle_sigchld-notes_of_example =
    handle_sigchld-notes_of (none ∷ some (7, exited 0) ∷ []) none 8 (signaled 9) 1 no_signals
