-- ===== src/Monitor/Window.antt =====
-- The monitor of server/gld.c while the child keeps crashing.
use x_grey.Prelude.{
  ℕ, ◌+◌, ◌≤◌, ◌<◌, ◌≡◌, refl, ap, ◌∙◌, false, List, [], ◌∷◌, All, length, arith, ltb, lt→ltb,
  if◌then◌else◌, inl, inr, ◌⊎◌, Bool-cases, ltb→lt,
}
use x_grey.Monitor.{
  Monitor, Status, crashed, waits, restarts, returns, count_abend, on_status, monitor,
}

-- The child crashes at each of the times.
abbrev pub crashes : List ℕ → List (ℕ × Status)
crashes [] = []
crashes (t ∷ ts) = (t, crashed) ∷ crashes ts

not_lt : (a b : ℕ) → b ≤ a → ltb a b ≡ false
not_lt a b h = ground arith

module _ (m : Monitor) where
  abbrev pub counted : ℕ → Monitor
  counted n = record m { abend_count = n }

  crash_less :
      (now n : ℕ)
      → now < m.abend_last + 5
      → n < 20
      → on_status now crashed (counted n) ≡ restarts (counted (n + 1))
  unfolding on_status count_abend
  crash_less now n h k = rw (lt→ltb now (m.abend_last + 5) h, not_lt 20 (n + 1) (omega arith)) refl

  crash_last :
      (now n : ℕ) → now < m.abend_last + 5 → 20 ≤ n → on_status now crashed (counted n) ≡ returns 1
  unfolding on_status count_abend
  crash_last now n h k = rw (lt→ltb now (m.abend_last + 5) h, lt→ltb 20 (n + 1) (omega arith)) refl

  counts :
      (ts : List ℕ) (n : ℕ)
      → n + length ts ≤ 20
      → All (λ t. t < m.abend_last + 5) ts
      → monitor (crashes ts) (counted n) ≡ waits (counted (n + length ts))
  unfolding monitor
  counts [] n h k = ap (λ i. waits (counted i)) (omega arith)
  counts (t ∷ ts) n h k =
      rw (crash_less t n k.0 (omega arith), monitor)
        (counts ts (n + 1) (omega arith) k.1 ∙ ap (λ i. waits (counted i)) (omega arith))

  ends :
      (ts : List ℕ) (n : ℕ)
      → n ≤ 20
      → 20 < n + length ts
      → All (λ t. t < m.abend_last + 5) ts
      → monitor (crashes ts) (counted n) ≡ returns 1
  unfolding monitor
  ends [] n h l k = absurd (omega arith)
  ends (t ∷ ts) n h l k = elim (full n h) [
    | inl e ↦ rw (crash_last t n k.0 (omega arith), monitor) refl
    | inr e ↦ rw (crash_less t n k.0 e, monitor) (ends ts (n + 1) (omega arith) (omega arith) k.1)
  ]
    where
      full : (n : ℕ) → n ≤ 20 → (n ≡ 20) ⊎ (n < 20)
      full n h = ground arith

  -- Crashes of the child that all come within five seconds of `abend_last`: as long as their count
  -- is at most 20 the monitor goes on, with the count so far and the same `abend_last`; from the
  -- 21st on it has returned the failure.
  pub monitor-crashes :
      (ts : List ℕ)
      → m.abend_count ≤ 20
      → All (λ t. t < m.abend_last + 5) ts
      → monitor (crashes ts) m ≡ (
          if ltb 20 (m.abend_count + length ts)
          then returns 1
          else waits (counted (m.abend_count + length ts)))
  monitor-crashes ts h k = elim (Bool-cases (ltb 20 (m.abend_count + length ts))) [
    | inl e ↦ rw e (ends ts m.abend_count h (ltb→lt 20 (m.abend_count + length ts) e) k)
    | inr e ↦ rw e (counts ts m.abend_count (ground (arith, e)) k)
  ]
