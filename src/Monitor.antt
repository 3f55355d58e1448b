-- ===== src/Monitor.antt =====
-- server/gld.c: the monitor in `main`, which starts the daemon again when a signal ends it.
pub mod Window
use x_grey.Prelude.{ℕ, ◌+◌, Bool, true, false, List, [], ◌∷◌, ltb, if◌then◌else◌}

-- `abend_last` and `abend_count`.
pub record Monitor : Type 0 where
  pub abend_last : ℕ
  pub abend_count : ℕ

-- What a call of `waitpid` tells of the child: an error or another process, an exit with a status,
-- an end by SIGTERM, SIGQUIT or SIGINT, an end by another signal, that the child is stopped, or
-- that it goes on.
pub data Status : Type 0 where
  unknown : Status
  exited : ℕ → Status
  shut_down : Status
  crashed : Status
  stopped : Status
  continued : Status

-- What the monitor does then: it waits on, starts the child again, or returns.
pub data Next : Type 0 where
  waits : Monitor → Next
  restarts : Monitor → Next
  returns : ℕ → Next

-- The count of crashes; `now` is `abend_now`.
unfoldable pub count_abend : ℕ → Monitor → Monitor
count_abend now m =
    if ltb now (m.abend_last + 5)
    then record m { abend_count = m.abend_count + 1 }
    else record { abend_last = now; abend_count = 0 }

unfoldable pub on_status : ℕ → Status → Monitor → Next
unfolding count_abend
on_status now unknown m = waits m
on_status now (exited n) m = returns n
on_status now shut_down m = returns 0
on_status now crashed m =
    let m' = count_abend now m in if ltb 20 m'.abend_count then returns 1 else restarts m'
on_status now stopped m = waits m
on_status now continued m = waits m

-- The loops of `main`, over what the calls of `waitpid` tell, each with the time.
unfoldable pub monitor : List (ℕ × Status) → Monitor → Next
unfolding on_status
monitor [] m = waits m
monitor ((now, st) ∷ rest) m = elim (on_status now st m) [
  | waits m' ↦ monitor rest m'
  | restarts m' ↦ monitor rest m'
  | returns n ↦ returns n
]
