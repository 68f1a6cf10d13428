-- ===== src/CircuitBreaker/Goroutines/Spacing.antt =====
-- circuitbreaker/circuitbreaker.go: how far apart the trials of several goroutines are.
use cuirass.Prelude.{ℕ, ◌≡◌, refl, Bool, true, false, List, [], ◌∷◌, arith}
use cuirass.CircuitBreaker.Goroutines.{Shared, Pc, stamping, is_rested, Move, System, set_pc}

-- A goroutine that is about to store the time at which it has opened the circuit.
abbrev pub is_stamping : Pc → Bool
is_stamping (stamping k t) = true
is_stamping _ = false

-- Runs in which no goroutine makes that store.
pub data ReachUnstamped (sleep_window : ℕ) (s : System) : System → Type 0 where
  here : ReachUnstamped sleep_window s s
  next_pick :
      {t : System} (i : ℕ) {m : Shared} {p : Pc}
      → ReachUnstamped sleep_window s t
      → is_stamping (t.pc i) ≡ false
      → Move sleep_window t.mem (t.pc i) m p
      → ReachUnstamped sleep_window s (record { mem = m; pc = set_pc t.pc i p })
  next_tick :
      {t : System} (now : ℕ)
      → ReachUnstamped sleep_window s t
      → ReachUnstamped sleep_window s (record t { mem = record t.mem { clock = now } })

-- Each of the times is more than a sleep window after the one before it, and the first after `start`.
abbrev pub Spaced : ℕ → ℕ → List ℕ → Type 0
Spaced sleep_window start [] = Unit {0}
Spaced sleep_window start (t ∷ []) = is_rested sleep_window start t ≡ true
Spaced sleep_window start (t ∷ u ∷ ts) =
    (is_rested sleep_window u t ≡ true) × Spaced sleep_window start (u ∷ ts)

abbrev latest : ℕ → List ℕ → ℕ
latest start [] = start
latest start (t ∷ ts) = t

Spaced-cons :
    (sleep_window start t : ℕ) (ts : List ℕ)
    → is_rested sleep_window (latest start ts) t ≡ true
    → Spaced sleep_window start ts
    → Spaced sleep_window start (t ∷ ts)
Spaced-cons sleep_window start t [] r h = r
Spaced-cons sleep_window start t (u ∷ ts) r h = (r, h)

-- The last trial's time is the last one stored.
record IsSpaced (sleep_window start : ℕ) (m : Shared) : Type 0 where
  spaced : Spaced sleep_window start m.trials
  stored : m.last_trial_time ≡ latest start m.trials

Move-IsSpaced :
    {sleep_window start : ℕ} {m m' : Shared} {p p' : Pc}
    → Move sleep_window m p m' p'
    → is_stamping p ≡ false
    → IsSpaced sleep_window start m
    → IsSpaced sleep_window start m'
Move-IsSpaced Move.observe h s = s
Move-IsSpaced Move.load_last h s = s
Move-IsSpaced Move.read_clock h s = s
Move-IsSpaced (Move.load_open e) h s = s
Move-IsSpaced (Move.find_healthy e) h s = s
Move-IsSpaced (Move.find_failing e) h s = s
Move-IsSpaced (Move.cas_open e) h s = record { spaced = s.spaced; stored = s.stored }
Move-IsSpaced (Move.cas_open_lost e) h s = s
Move-IsSpaced Move.read_opening h s = s
Move-IsSpaced Move.store_opening h s = cc h
Move-IsSpaced (Move.no_trial r) h s = s
Move-IsSpaced {sleep_window} {start} {m} (Move.cas_trial {l} {t} r e) h s = record {
  spaced = Spaced-cons sleep_window start t m.trials (ground (arith, s.stored)) s.spaced;
  stored = refl;
}
Move-IsSpaced (Move.cas_trial_lost r e) h s = s
Move-IsSpaced (Move.run_function r) h s = s
Move-IsSpaced (Move.fail_fast r) h s = s
Move-IsSpaced Move.observed h s = s
Move-IsSpaced Move.function_ends h s = s
Move-IsSpaced (Move.succeed e) h s = s
Move-IsSpaced Move.close h s = record { spaced = s.spaced; stored = s.stored }

reach-IsSpaced :
    {sleep_window start : ℕ} {s t : System}
    → ReachUnstamped sleep_window s t
    → IsSpaced sleep_window start s.mem
    → IsSpaced sleep_window start t.mem
reach-IsSpaced here h = h
reach-IsSpaced (next_pick i r q mv) h = Move-IsSpaced mv q (reach-IsSpaced r h)
reach-IsSpaced (next_tick now r) h =
    let h' = reach-IsSpaced r h in record { spaced = h'.spaced; stored = h'.stored }

-- However many goroutines call the breaker and however their atomic steps interleave: from a state
-- with no trials so far, and while none of them stores the time of an opening, the trials that are
-- allowed are more than a sleep window apart, each from the one before and the first from the time
-- of the last trial at the start. So no two goroutines get a trial in one sleep window.
pub trials-Spaced :
    (sleep_window : ℕ) (s t : System)
    → s.mem.trials ≡ []
    → ReachUnstamped sleep_window s t
    → Spaced sleep_window s.mem.last_trial_time t.mem.trials
trials-Spaced sleep_window s t e r =
    IsSpaced.spaced (reach-IsSpaced r (record { spaced = rw e tt; stored = rw e refl }))
