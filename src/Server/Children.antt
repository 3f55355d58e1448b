-- ===== src/Server/Children.antt =====
-- server/signals.c: what `handle_sigchld` makes of the answers of waitpid.
use x_grey.Prelude.{
  ℕ, zero, suc, ◌≡◌, refl, Option, none, some, Bool, true, false, List, [], ◌∷◌, ◌++◌, map, Run,
  done, abort, ◌>>=◌,
}
use mathlib.Core.List.{append_assoc}
use x_grey.Server.Alarm.{Signals}

-- The status of a child, as WIFEXITED, WIFSIGNALED and WIFSTOPPED tell it apart.
pub data Status : Type 0 where
  exited signaled stopped : ℕ → Status
  other_status : Status

-- What `waitpid(-1, &status, WNOHANG)` returns: the number of a child and its status, 0 while all that are left
-- run on, or -1 with EINTR, with ECHILD or with another error.
pub data Wait : Type 0 where
  child : ℕ → Status → Wait
  running interrupted no_child : Wait
  fails : ℕ → Wait

-- The lines that `handle_sigchld` logs.
pub data Note : Type 0 where
  process_ended : Note
  process_returned wait_failed : ℕ → Note
  process_terminated process_stopped : ℕ → ℕ → Note

unfoldable pub note : ℕ → Status → List Note
note pid (exited n) = process_returned n ∷ []
note pid (signaled n) = process_terminated pid n ∷ []
note pid (stopped n) = process_stopped pid n ∷ []
note pid other_status = []

-- Whether the loop ended with these answers, and what it logged; `status` is the variable of that
-- name, which nothing has stored to at first.
unfoldable pub reap : List Wait → Option Status → Run (Bool × List Note)
unfolding note
reap [] status = done (false, [])
reap (no_child ∷ waits) status = done (true, [])
reap (fails n ∷ waits) status = done (true, wait_failed n ∷ [])
reap (interrupted ∷ waits) status = reap waits status
reap (child pid s ∷ waits) status =
    reap waits (some s) >>= λ (ended, notes). done (ended, note pid s ++ notes)
reap (running ∷ waits) none = abort
reap (running ∷ waits) (some s) =
    reap waits (some s) >>= λ (ended, notes). done (ended, note 0 s ++ notes)

unfoldable pub handle_sigchld : List Wait → Signals → Run (Signals × Bool × List Note)
unfolding reap
handle_sigchld waits f = reap waits none >>= λ (ended, notes).
    done (record f { sigchld = false }, ended, process_ended ∷ notes)

-- An answer that is a child, or that a signal came in between.
unfoldable pub polled : Option (ℕ × Status) → Wait
polled none = interrupted
polled (some (pid, s)) = child pid s

-- What is logged of such answers.
unfoldable pub notes_of : List (Option (ℕ × Status)) → List Note
unfolding note
notes_of [] = []
notes_of (none ∷ answers) = notes_of answers
notes_of (some (pid, s) ∷ answers) = note pid s ++ notes_of answers

-- The last two errors of waitpid, with what is logged.
unfoldable pub last_wait : Option ℕ → Wait
last_wait none = no_child
last_wait (some n) = fails n

unfoldable pub last_note : Option ℕ → List Note
last_note none = []
last_note (some n) = wait_failed n ∷ []

unfoldable pub repeat {ℓ} : {A : Type ℓ} → ℕ → List A → List A
repeat zero xs = []
repeat (suc n) xs = xs ++ repeat n xs

reap_ends :
    (answers : List (Option (ℕ × Status))) (e : Option ℕ) (status : Option Status)
    → reap (map polled answers ++ (last_wait e ∷ [])) status
      ≡ done (true, notes_of answers ++ last_note e)
unfolding reap polled notes_of last_wait last_note
reap_ends [] none status = refl
reap_ends [] (some n) status = refl
reap_ends (none ∷ answers) e status = reap_ends answers e status
reap_ends (some (pid, s) ∷ answers) e status =
    rw (reap_ends answers e (some s))
      (rw (append_assoc (note pid s) (notes_of answers) (last_note e)) refl)

-- A child that runs on, and what was logged last.
reap_running :
    (n : ℕ) (s : Status)
    → reap (repeat n (running ∷ [])) (some s) ≡ done (false, repeat n (note 0 s))
unfolding reap repeat
reap_running zero s = refl
reap_running (suc n) s = rw (reap_running n s) refl

reap_goes_on :
    (answers : List (Option (ℕ × Status))) (pid : ℕ) (s : Status) (n : ℕ) (status : Option Status)
    → reap (map polled answers ++ (child pid s ∷ repeat n (running ∷ []))) status
      ≡ done (false, notes_of answers ++ (note pid s ++ repeat n (note 0 s)))
unfolding reap polled notes_of repeat
reap_goes_on [] pid s n status = rw (reap_running n s) refl
reap_goes_on (none ∷ answers) pid s n status = reap_goes_on answers pid s n status
reap_goes_on (some (child_pid, t) ∷ answers) pid s n status =
    rw (reap_goes_on answers pid s n (some t)) (
      rw (append_assoc (note child_pid t) (notes_of answers) (note pid s ++ repeat n (note 0 s)))
        refl)

-- After answers that are children, or EINTR, the handler returns as soon as waitpid answers with
-- ECHILD or another error; it has logged one line for each child that exited or that a signal ended
-- or stopped, in order, and a line for the other error. If instead a child ended and waitpid then
-- answers n times with 0, since another child runs on, the handler is still in its loop and has
-- logged the last child's status n times more, for process 0. The flag is cleared in both cases.
pub handle_sigchld-notes_of :
    (answers : List (Option (ℕ × Status))) (e : Option ℕ) (pid : ℕ) (s : Status) (n : ℕ)
    (f : Signals)
    → (handle_sigchld (map polled answers ++ (last_wait e ∷ [])) f
        ≡ done
            (record f { sigchld = false }, true, process_ended ∷ (notes_of answers ++ last_note e)))
      × (handle_sigchld (map polled answers ++ (child pid s ∷ repeat n (running ∷ []))) f
          ≡ done (
            record f { sigchld = false },
            false,
            process_ended ∷ (notes_of answers ++ (note pid s ++ repeat n (note 0 s))),
          ))
unfolding handle_sigchld
handle_sigchld-notes_of answers e pid s n f =
    (rw (reap_ends answers e none) refl, rw (reap_goes_on answers pid s n none) refl)
