-- ===== src/CircuitBreaker/Goroutines/Race.antt =====
-- circuitbreaker/circuitbreaker.go: the time between the two writes by which `IsOpen` opens a circuit.
use cuirass.Prelude.{ℕ, ◌≡◌, refl, true, [], ◌∷◌, arith}
use cuirass.CircuitBreaker.{int_true}
use cuirass.CircuitBreaker.Goroutines.{
  stamping, running, trial_check, is_rested, Move, System, pick, Reach, here, next, fresh,
}

-- Between the compare-and-swap that opens the circuit and the store of the time at which it was
-- opened, another goroutine still finds the time 0: on a new breaker whose first failures are found at
-- a time past one sleep window (from 0 on), the circuit can be opened at `now`, and a trial runs at
-- that same `now`, with the store of the opening still to come.
pub trial_at_opening :
    (sleep_window now : ℕ)
    → is_rested sleep_window 0 now ≡ true
    → (s : System) × Reach sleep_window (fresh now) s
      × (s.mem.circuit_open ≡ int_true)
      × (s.mem.trials ≡ now ∷ [])
      × (s.pc 0 ≡ stamping (trial_check 0 now) now)
      × (s.pc 1 ≡ running true)
trial_at_opening sleep_window now r = (
  _,
  next
      (next
        (next
          (next
            (next
              (next
                (next
                  (next
                    (next (next (next here (pick 0 Move.load_last)) (pick 0 Move.read_clock))
                      (pick 0 (Move.find_failing (omega arith))))
                    (pick 0 (Move.cas_open refl)))
                  (pick 1 Move.load_last))
                (pick 1 Move.read_clock))
              (pick 1 (Move.load_open refl)))
            (pick 1 (Move.cas_trial r refl)))
          (pick 1 (Move.load_open refl)))
        (pick 1 (Move.run_function refl)))
      (pick 0 Move.read_opening),
  refl,
  refl,
  refl,
  refl,
)
