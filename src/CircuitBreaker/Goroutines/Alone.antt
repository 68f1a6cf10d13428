-- ===== src/CircuitBreaker/Goroutines/Alone.antt =====
-- circuitbreaker/circuitbreaker.go: one goroutine alone beside the functions of CircuitBreaker.
use cuirass.Prelude.{ℕ, ◌≡◌, refl, Bool, [], if◌then◌else◌, Bool-cases, inl, inr}
use cuirass.Util.Clock.{Clock}
use cuirass.CircuitBreaker.{CircuitBreaker, is_request_allowed}
use cuirass.CircuitBreaker.FailFast.{IsOpenCircuit, request_rested, request_resting}
use cuirass.CircuitBreaker.Goroutines.{
  idle, running, is_rested, Move, System, pick, Reach, here, next,
}

-- The words of the breaker at the time `t`, and no goroutine under way.
abbrev pub alone : CircuitBreaker → ℕ → System
alone cb t = record {
  mem = record {
    circuit_open = cb.circuit_open;
    last_trial_time = cb.last_trial_time;
    clock = t;
    trials = [];
  };
  pc = λ _. idle;
}

-- The goroutine 0 stands where the answer of `isRequestAllowed` sends it, and the words are those of
-- the breaker that was returned.
pub record Agrees (r : Bool × Bool × CircuitBreaker × Clock) (s : System) : Type 0 where
  pub same_flag : s.mem.circuit_open ≡ r.2.circuit_open
  pub same_time : s.mem.last_trial_time ≡ r.2.last_trial_time
  pub same_place : s.pc 0 ≡ (if r.0 then running r.1 else idle)

-- On an open circuit, and with a clock that stands still, the function `is_request_allowed` is a run of
-- the atomic steps of one goroutine: it ends with the same words, and runs its function, as a trial or
-- not, or fails fast, as the function answers.
pub reach-is_request_allowed :
    (cb : CircuitBreaker) (t : ℕ)
    → IsOpenCircuit cb
    → (s : System) × Reach cb.props.sleep_window (alone cb t) s
      × Agrees (is_request_allowed (λ _. t) cb) s
reach-is_request_allowed cb t h =
    elim (Bool-cases (is_rested cb.props.sleep_window cb.last_trial_time t)) [
      | inl r ↦ (
        _,
        next
            (next
              (next
                (next (next (next here (pick 0 Move.load_last)) (pick 0 Move.read_clock))
                  (pick 0 (Move.load_open h.flag)))
                (pick 0 (Move.cas_trial r refl)))
              (pick 0 (Move.load_open h.flag)))
            (pick 0 (Move.run_function refl)),
        rw (request_rested (λ _. t) cb h r)
            (record { same_flag = refl; same_time = refl; same_place = refl }),
      )
      | inr r ↦ (
        _,
        next
            (next
              (next
                (next (next (next here (pick 0 Move.load_last)) (pick 0 Move.read_clock))
                  (pick 0 (Move.load_open h.flag)))
                (pick 0 (Move.no_trial r)))
              (pick 0 (Move.load_open h.flag)))
            (pick 0 (Move.fail_fast refl)),
        rw (request_resting (λ _. t) cb h r)
            (record { same_flag = refl; same_time = refl; same_place = refl }),
      )
    ]
