-- ===== src/Server/Stopped.antt =====
-- server/signals.c: the daemon that a signal ends, and the one that starts with its files.
use x_grey.Prelude.{
  ℕ, ◌+◌, ◌<◌, ◌≡◌, ◌≤◌, ◌↔◌, ◌&&◌, leb, arith, refl, ap, sym, subst, ◌∙◌, Option, none, some, Bool,
  true, false, List, [], ◌∷◌, ◌++◌, map, All, if◌then◌else◌, done, Returns, Returns-bind,
  Returns-parts, ◌>>=◌, Bool-cases, inl, inr,
}
use x_grey.IpTree.{IpList}
use x_grey.IpTree.Update.{IsListed}
use x_grey.IpTree.RoundTrip.{AreVerdicts}
use x_grey.IpTree.Reader.{Trimming}
use x_grey.EmailDomain.RoundTrip.{IsKept}
use x_grey.Tuple.{Tuple}
use x_grey.Pool.{Config}
use x_grey.Pool.Expire.{stays, keep}
use x_grey.Pool.Search.{live}
use x_grey.Pool.Spare.{freed, IsTidy}
use x_grey.Pool.White.Told.{IsTold}
use x_grey.Pool.White.Load.{entries}
use x_grey.Pool.White.Written.{is_passed, passed_of}
use x_grey.Server.{Server}
use x_grey.Server.Checks.{HasLists}
use x_grey.Server.Start.{start}
use x_grey.Server.Alarm.{Signals, Signal, int, quit, term, handle_sigalrm}
use x_grey.Server.Housekeeping.{IsCleaned, handle_sigalrm-IsCleaned}
use x_grey.Server.Children.{Status, other_status, polled, last_wait, handle_sigchld-notes_of}
use x_grey.Server.Files.{StateFiles, save_state, read_files}
use x_grey.Server.Saved.{IsStringLibrary, IsSavable, IsRestarted}
use x_grey.Server.Restart.{save_state-read_files}
use x_grey.Server.Stop.{
  Checked, killed, handle_sigint, handle_sigquit, handle_sigterm, after_alarm, check_signals,
}

-- The flags of the three signals, and the one that ends the process.
abbrev pub Stops : Bool → Bool → Bool → Signal → Type 0
Stops i q t int = i ≡ true
Stops i q t quit = (i ≡ false) × (q ≡ true)
Stops i q t term = (i ≡ false) × ((q ≡ false) × (t ≡ true))
Stops i q t _ = ⊥

-- The state at the end, after the alarm if there was one.
abbrev pub IsAfter : Config → ℕ → Bool → Server → Server → Type 0
IsAfter c now true s t = (due : Bool) × IsCleaned c now s (t, due)
IsAfter c now false s t = t ≡ s

map-same : (p q : ℕ → Tuple) (xs : List ℕ) → All (λ x. p x ≡ q x) xs → map p xs ≡ map q xs
map-same p q [] h = refl
map-same p q (x ∷ xs) h = rw (h.0, map-same p q xs h.1) refl

module _ (c : Config) (now : ℕ) where
  keep-told :
      (pool : ℕ → Tuple) (xs : List ℕ)
      → All IsTold (passed_of (map pool xs))
      → All IsTold (passed_of (map pool (keep c now pool xs)))
  unfolding keep
  keep-told pool [] h = tt
  keep-told pool (x ∷ xs) h = elim (Bool-cases (is_passed (pool x))) [
    | inl e ↦
        let both : IsTold (pool x) × All IsTold (passed_of (map pool xs)) = rw e at h in
        elim (Bool-cases (stays c now (pool x))) [
          | inl k ↦ rw (k, passed_of, e) (both.0, keep-told pool xs both.1)
          | inr k ↦ rw k (keep-told pool xs both.1)
        ]
    | inr e ↦
        let others : All IsTold (passed_of (map pool xs)) = rw e at h in
        elim (Bool-cases (stays c now (pool x))) [
          | inl k ↦ rw (k, passed_of, e) (keep-told pool xs others)
          | inr k ↦ rw k (keep-told pool xs others)
        ]
  ]

  -- What the alarm leaves can be saved if what it found could.
  cleaned-IsSavable :
      (s t : Server) (due : Bool) → IsSavable c s → IsCleaned c now s (t, due) → IsSavable c t
  cleaned-IsSavable s t due k w =
      let left : entries t.tuples ≡ map s.tuples.pool (keep c now s.tuples.pool (live s.tuples)) =
        map-same t.tuples.pool s.tuples.pool (live t.tuples) w.purged.contents
        ∙ ap (λ (xs : List ℕ). map s.tuples.pool xs) w.purged.survivors in
      let ((e_to, e_tod), (e_from, e_fromd)) = w.same_lists in
      record {
        tuples = w.purged.in_order;
        told =
            subst (λ (ts : List Tuple). All IsTold (passed_of ts)) (sym left)
              (keep-told s.tuples.pool (live s.tuples) k.told);
        rules = subst IsListed (sym w.rules) k.rules;
        verdicts = subst (λ (i : IpList). AreVerdicts i.tree) (sym w.rules) k.verdicts;
        to_list = subst IsKept (sym e_to) k.to_list;
        tod_list = subst IsKept (sym e_tod) k.tod_list;
        from_list = subst IsKept (sym e_from) k.from_list;
        fromd_list = subst IsKept (sym e_fromd) k.fromd_list;
      }

module _ (lib : Trimming) (c : Config) (old : Bool) (later clock begun now : ℕ) (w x y z : ℕ)
    (more : List ℕ) where
  -- The process ends by the signal `q`, and no child of it writes; the next daemon reads its files.
  pub record IsStopped (q : Signal) (alarm : Bool) (s : Server) (r : Checked) : Type 0 where
    pub last : Server
    pub is_after : IsAfter c now alarm s last
    pub files : StateFiles
    pub is_killed : r ≡ killed q none files
    pub restarts :
        Returns
          (read_files lib c old (w ∷ x ∷ y ∷ z ∷ more) later clock files (start c begun))
          (IsRestarted c old later last)

  module _ (forks : Bool) (h : IsStringLibrary lib) where
    ended :
        (q : Signal) (alarm : Bool) (s t : Server) (fs : StateFiles)
        → IsSavable c t
        → IsAfter c now alarm s t
        → Returns
            (save_state (λ name. true) t fs >>= λ gs. done (killed q none gs))
            (IsStopped q alarm s)
    ended q alarm s t fs k a =
        Returns-bind (save_state (λ name. true) t fs) _ _ _
          (Returns-parts (save_state (λ name. true) t fs) _ (IsRestarted c old later t)
            (save_state-read_files lib c old later clock begun t fs w x y z more h k))
          (λ gs g. record { last = t; is_after = a; files = gs; is_killed = refl; restarts = g })

    after_alarm-IsStopped :
        (q : Signal) (alarm : Bool) (f : Signals) (s t : Server) (fs : StateFiles)
        → Stops f.sigint f.sigquit f.sigterm q
        → IsSavable c t
        → IsAfter c now alarm s t
        → Returns (after_alarm (λ name. true) forks c now f none t fs) (IsStopped q alarm s)
    unfolding after_alarm handle_sigint handle_sigquit handle_sigterm
    after_alarm-IsStopped int alarm f s t fs e k a = rw e (ended int alarm s t fs k a)
    after_alarm-IsStopped quit alarm f s t fs (e, g) k a = rw (e, g) (ended quit alarm s t fs k a)
    after_alarm-IsStopped term alarm f s t fs (e, (g, i)) k a =
        rw (e, g, i) (ended term alarm s t fs k a)
    after_alarm-IsStopped _ alarm f s t fs e k a = elim e [ ]

    module _ (s : Server) (k : IsSavable c s) (tidy : IsTidy s.tuples)
        (room : s.tuples.poolnum + freed s.tuples < c.poolmax) (l : HasLists s) where
      -- No child is made: none can be, or no save is due.
      no_fork :
          (due : Bool)
          → (forks && leb (s.time_savestate + c.time_savestate) now) ≡ false
          → ((due ≡ true) ↔ (s.time_savestate + c.time_savestate ≤ now))
          → (due && forks) ≡ false
      no_fork true free saves = ground (arith, free, saves.0 refl)
      no_fork false free saves = refl

      after_clean :
          (q : Signal) (f : Signals) (t : Server) (due : Bool) (fs : StateFiles)
          → Stops f.sigint f.sigquit f.sigterm q
          → (forks && leb (s.time_savestate + c.time_savestate) now) ≡ false
          → IsCleaned c now s (t, due)
          → Returns
              (after_alarm
                (λ name. true)
                forks
                c
                now
                f
                (if due && forks then some t else none)
                t
                fs)
              (IsStopped q true s)
      after_clean q f t due fs e free g =
          subst
            (λ (b : Bool).
              Returns (after_alarm (λ name. true) forks c now f (if b then some t else none) t fs)
                (IsStopped q true s))
            (sym (no_fork due free g.saves))
            (after_alarm-IsStopped q true f s t fs e (cleaned-IsSavable c now s t due k g) (due, g))

      alarm-IsStopped :
          (q : Signal) (f : Signals) (fs : StateFiles)
          → Stops f.sigint f.sigquit f.sigterm q
          → (forks && (f.sigalrm && leb (s.time_savestate + c.time_savestate) now)) ≡ false
          → Returns
              ((if f.sigalrm then handle_sigalrm c now s else done (s, false)) >>= λ (s', saves).
                after_alarm
                  (λ name. true)
                  forks
                  c
                  now
                  f
                  (if saves && forks then some s' else none)
                  s'
                  fs)
              (IsStopped q f.sigalrm s)
      unfolding after_alarm
      alarm-IsStopped q f fs e free = elim (Bool-cases f.sigalrm) [
        | inl a ↦
            let free' : (forks && leb (s.time_savestate + c.time_savestate) now) ≡ false =
              rw a at free in
            rw a (
              Returns-bind (handle_sigalrm c now s) _ _ _
                (handle_sigalrm-IsCleaned c now s k.tuples tidy room l)
                (λ (t, due) g. after_clean q f t due fs e free' g))
        | inr a ↦ rw a (after_alarm-IsStopped q false f s s fs e k refl)
      ]

      -- A pass of `check_signals` with one of the flags of SIGINT, SIGQUIT and SIGTERM set, in which
      -- no child is made to save the state (there is no alarm, or no save is due, or `gld_fork`
      -- fails), ends the process by the first of these signals. Its files are then such that the
      -- next daemon restores the state: that of before, or if there was an alarm too, that which its
      -- cleaning left. Restored are the tuples that had passed, the answers of the rules, and the
      -- lists. The children that waitpid tells of end with an error of waitpid; no child of an
      -- earlier pass writes the files; the state is one that they can tell, in order, with room for
      -- the cleaning; every file can be opened; and the functions of cgilib6 do what
      -- `IsStringLibrary` says.
      pub check_signals-IsStopped :
          (answers : List (Option (ℕ × Status))) (e : Option ℕ) (q : Signal) (f : Signals)
          (fs : StateFiles)
          → Stops f.sigint f.sigquit f.sigterm q
          → (forks && (f.sigalrm && leb (s.time_savestate + c.time_savestate) now)) ≡ false
          → Returns
              (check_signals
                (λ name. true)
                forks
                c
                (map polled answers ++ (last_wait e ∷ []))
                now
                f
                s
                fs)
              (IsStopped q f.sigalrm s)
      unfolding check_signals
      check_signals-IsStopped answers e q f fs stops free = elim (Bool-cases f.sigchld) [
        | inl a ↦
            rw (a, (handle_sigchld-notes_of answers e 0 other_status 0 f).0)
              (alarm-IsStopped q (record f { sigchld = false }) fs stops free)
        | inr a ↦ rw a (alarm-IsStopped q f fs stops free)
      ]
