-- ===== src/Server/Stop.antt =====
-- server/signals.c: a pass of `check_signals`, and the handlers that end the process.
use x_grey.Prelude.{
  ℕ, Option, none, some, ◌&&◌, Bool, true, false, List, [], if◌then◌else◌, Run, done, ◌>>=◌,
}
use x_grey.Pool.{Config}
use x_grey.Server.{Server}
use x_grey.Server.Alarm.{Signals, Signal, int, quit, term, handle_sigalrm, handle_sigusr2}
use x_grey.Server.Children.{Wait, handle_sigchld}
use x_grey.Server.Files.{FileName, StateFiles, save_state}

-- A pass either goes on, with the flags and the state it leaves and whether the tuples are dumped in
-- a child; or ends the process by a signal, with the files that its own `save_state` leaves; or stays
-- in the loop of `handle_sigchld`. In the first two there may be a child that `handle_sigalrm` made:
-- it has the state that is given, and saves that to the same files while the process goes on or ends.
pub data Checked : Type 0 where
  goes_on : Signals → Server → Option Server → Bool → Checked
  killed : Signal → Option Server → StateFiles → Checked
  stays_on : Checked

-- All flags are cleared by a pass that goes on.
abbrev pub quiet : Signals
quiet = record {
  sigchld = false;
  sigalrm = false;
  sigint = false;
  sigquit = false;
  sigterm = false;
  sigpipe = false;
  sigusr1 = false;
  sigusr2 = false;
  sighup = false;
  stupid = false;
}

-- `opens` says which files can be opened for writing.
module _ (opens : FileName → Bool) where
  unfoldable pub handle_sigint : Option Server → Server → StateFiles → Run Checked
  unfolding save_state
  handle_sigint child s fs = save_state opens s fs >>= λ gs. done (killed int child gs)

  unfoldable pub handle_sigquit : Option Server → Server → StateFiles → Run Checked
  unfolding save_state
  handle_sigquit child s fs = save_state opens s fs >>= λ gs. done (killed quit child gs)

  unfoldable pub handle_sigterm : Option Server → Server → StateFiles → Run Checked
  unfolding save_state
  handle_sigterm child s fs = save_state opens s fs >>= λ gs. done (killed term child gs)

  -- `forks` says whether `gld_fork` gives a child. The handlers that follow the alarm's, in their
  -- order.
  unfoldable pub after_alarm :
      Bool → Config → ℕ → Signals → Option Server → Server → StateFiles → Run Checked
  unfolding handle_sigusr2 handle_sigint handle_sigquit handle_sigterm
  after_alarm forks c now f child s fs =
      if f.sigint
      then handle_sigint child s fs
      else if f.sigquit
      then handle_sigquit child s fs
      else if f.sigterm
      then handle_sigterm child s fs
      else ((if f.sigusr2 then handle_sigusr2 c now s else done s) >>= λ s'.
          done (goes_on quiet s' child (f.sigusr1 && forks)))

  -- `waits` is what waitpid answers. All handlers of one pass read the same clock.
  unfoldable pub check_signals :
      Bool → Config → List Wait → ℕ → Signals → Server → StateFiles → Run Checked
  unfolding after_alarm handle_sigalrm handle_sigchld
  check_signals forks c waits now f s fs =
      (if f.sigchld then handle_sigchld waits f else done (f, true, [])) >>= λ (g, ended, notes).
      if ended
      then ((if g.sigalrm then handle_sigalrm c now s else done (s, false)) >>= λ (s', saves).
          after_alarm forks c now g (if saves && forks then some s' else none) s' fs)
      else done stays_on
