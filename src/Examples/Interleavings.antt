-- ===== src/Examples/Interleavings.antt =====
-- Runs of several goroutines.
use cuirass.Prelude.{◌≡◌, refl, true, false, none, some, [], ◌∷◌, arith}
use cuirass.Util.Errors.{deadline_exceeded, other}
use cuirass.Util.ContextUtil.{
  Wait, ended, draining, finished, Reach, here, next, begin, f_returns, context_done, select_done,
  call_cancel, drain,
}
use cuirass.Util.ContextUtil.Waiting.{Returned, reach-Returned, Advances, reach-Advances}
use cuirass.CircuitBreaker.{CircuitBreaker, int_true, is_request_allowed}
use cuirass.CircuitBreaker.HealthCounters.{zero_health}
use cuirass.CircuitBreaker.Goroutines
use cuirass.CircuitBreaker.Goroutines.{
  Move, System, Pc, idle, loaded, checking, trial_check, request_check, answered, stamping, running,
  fresh, set_pc,
}
use cuirass.CircuitBreaker.Goroutines.Spacing
use cuirass.CircuitBreaker.Goroutines.Spacing.{ReachUnstamped, Spaced, trials-Spaced}
use cuirass.CircuitBreaker.Goroutines.Race.{trial_at_opening}
use cuirass.CircuitBreaker.Goroutines.Alone.{alone, Agrees, reach-is_request_allowed}
use cuirass.Examples.Values.{breaker_properties}

-- Open since 100, at the time 700.
abbrev open_system : System
open_system = record {
  mem = record { circuit_open = 1; last_trial_time = 100; clock = 700; trials = [] };
  pc = λ _. idle;
}

-- Two goroutines have loaded the time, and both have read the clock.
abbrev both_timed : System
both_timed = record open_system {
  pc =
      set_pc
        (set_pc (set_pc (set_pc open_system.pc 0 (loaded 100)) 1 (loaded 100)) 0
          (checking (trial_check 100 700)))
        1 (checking (trial_check 100 700));
}

both_timed-ReachUnstamped : ReachUnstamped 500 open_system both_timed
both_timed-ReachUnstamped =
    Spacing.next_pick 1
      (Spacing.next_pick 0
        (Spacing.next_pick 1 (Spacing.next_pick 0 Spacing.here refl Move.load_last) refl
          Move.load_last)
        refl Move.read_clock)
      refl Move.read_clock

-- The first of them gets the trial.
abbrev one_allowed : System
one_allowed = record {
  mem = record both_timed.mem { last_trial_time = 700; trials = 700 ∷ [] };
  pc =
      set_pc (set_pc both_timed.pc 0 (answered (trial_check 100 700) true)) 0
        (checking (request_check true));
}

-- The other one finds another time and gets none.
abbrev one_refused : System
one_refused = record one_allowed {
  pc =
      set_pc (set_pc one_allowed.pc 1 (answered (trial_check 100 700) true)) 1
        (checking (request_check false));
}

one_refused-ReachUnstamped : ReachUnstamped 500 open_system one_refused
one_refused-ReachUnstamped =
    Spacing.next_pick 1
      (Spacing.next_pick 1
        (Spacing.next_pick 0
          (Spacing.next_pick 0 both_timed-ReachUnstamped refl (Move.load_open refl)) refl
          (Move.cas_trial refl refl))
        refl (Move.load_open refl))
      refl (Move.cas_trial_lost refl (omega arith))

trials-Spaced_example : Spaced 500 100 (700 ∷ [])
trials-Spaced_example = trials-Spaced 500 open_system one_refused refl one_refused-ReachUnstamped

trial_at_opening_example :
    (s : System) × Goroutines.Reach 5000 (fresh 9000) s
    × (s.mem.circuit_open ≡ int_true)
    × (s.mem.trials ≡ 9000 ∷ [])
    × (s.pc 0 ≡ stamping (trial_check 0 9000) 9000)
    × (s.pc 1 ≡ running true)
trial_at_opening_example = trial_at_opening 5000 9000 refl

abbrev open_breaker : CircuitBreaker
open_breaker = record {
  props = breaker_properties;
  circuit_open = 1;
  last_trial_time = 100;
  health_of = record {
    health_snapshot_interval = 500;
    error_counter = record {
      bucket_size = 10;
      current_bucket = 0;
      current_bucket_time = 0;
      buckets = 3 ∷ [];
    };
    request_counter = record {
      bucket_size = 10;
      current_bucket = 0;
      current_bucket_time = 0;
      buckets = 3 ∷ [];
    };
    health_snapshot = zero_health;
    snapshot_time = 0;
  };
}

reach-is_request_allowed_example :
    (s : System) × Goroutines.Reach 5000 (alone open_breaker 9000) s
    × Agrees (is_request_allowed (λ _. 9000) open_breaker) s
reach-is_request_allowed_example =
    reach-is_request_allowed open_breaker 9000
      (record { enabled = refl; not_forced_open = refl; not_forced_closed = refl; flag = refl })

-- The context is done first, then `f` returns an error.
abbrev waiting : Wait
waiting = record {
  caller = draining;
  worker = ended (some (other "late"));
  channel = some (some (other "late"));
  ctx_err = some deadline_exceeded;
  cancels = 1;
}

waiting-Reach : Reach (begin none) waiting
waiting-Reach =
    next
      (next (next (next here (context_done deadline_exceeded refl)) (select_done refl refl))
        (call_cancel refl))
      (f_returns (some (other "late")) refl refl)

abbrev over : Wait
over = record waiting { caller = finished (some deadline_exceeded); channel = none }

reach-Returned_example : Returned over (some deadline_exceeded)
reach-Returned_example =
    reach-Returned none over (some deadline_exceeded) (next waiting-Reach (drain refl refl)) refl

reach-Advances_example : Advances waiting
reach-Advances_example = reach-Advances none waiting (some (other "late")) waiting-Reach refl refl
