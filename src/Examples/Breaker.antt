-- ===== src/Examples/Breaker.antt =====
-- Runs of a circuit breaker.
use cuirass.Prelude.{
  ℕ, suc, ◌+◌, ◌*◌, ◌≡◌, refl, true, false, if◌then◌else◌, some, List, [], ◌∷◌, arith, replicate,
}
use cuirass.Util.Clock.{Clock, later}
use cuirass.Util.Errors.{circuit_open_error, other, returned}
use cuirass.Num.RollingNumber.{RollingNumber, new_rolling_number}
use cuirass.CircuitBreaker.HealthCounters.{zero_health}
use cuirass.CircuitBreaker.{
  CircuitBreaker, int_true, int_false, is_open, allowed, rejected, Function, do_call,
  new_circuit_breaker,
}
use cuirass.CircuitBreaker.Forced.{PassesOn, do_call-PassesOn}
use cuirass.CircuitBreaker.Invariant.{IsSound}
use cuirass.CircuitBreaker.FailFast.{IsOpenCircuit}
use cuirass.CircuitBreaker.Trials.{
  do_all, fail_fast, TrialEnd, do_call_trial, admit_all, single_trial,
}
use cuirass.CircuitBreaker.Opening.{
  Reachable, start, Reachable-IsSound, IsClosedCircuit, is_open_between_snapshots, requests_at,
  errors_at, IsMeasured, opens, is_open_measured,
}
use cuirass.Examples.Values.{breaker_properties, ticks}

abbrev counter : List ℕ → RollingNumber
counter counts = record {
  bucket_size = 1000000000;
  current_bucket = 0;
  current_bucket_time = 0;
  buckets = counts;
}

-- Four requests, three of them errors.
abbrev failing : CircuitBreaker
failing = record {
  props = breaker_properties;
  circuit_open = 0;
  last_trial_time = 0;
  health_of = record {
    health_snapshot_interval = 500;
    error_counter = counter (3 ∷ 0 ∷ []);
    request_counter = counter (4 ∷ 0 ∷ []);
    health_snapshot = zero_health;
    snapshot_time = 0;
  };
}

failing-IsSound : IsSound breaker_properties failing
failing-IsSound = record {
  health_sound = record {
    errors_valid = record { size_pos = omega arith; current_in = omega arith };
    requests_valid = record { size_pos = omega arith; current_in = omega arith };
    snapshot_initial = refl;
  };
  open_flag = omega arith;
  same_props = refl;
}

failing-IsClosedCircuit : IsClosedCircuit failing
failing-IsClosedCircuit = record { not_forced_open = refl; not_forced_closed = refl; flag = refl }

-- The times behind the interval of the snapshots.
abbrev busy : Clock
busy i = 1000 * suc i

failing-IsMeasured : IsMeasured busy failing
failing-IsMeasured = record {
  due = refl;
  volume_pos = omega arith;
  volume_int = omega arith;
  percentage_exact = omega arith;
  requests_exact = omega arith;
  errors_exact = omega arith;
}

is_open_measured_example :
    let should_open =
      opens breaker_properties (requests_at busy failing) (errors_at busy failing) in
    ((is_open busy failing).0 ≡ should_open)
    × ((is_open busy failing).1.circuit_open ≡ (if should_open then int_true else int_false))
    × ((is_open busy failing).1.last_trial_time ≡ (if should_open then 4000 else 0))
is_open_measured_example =
    is_open_measured breaker_properties busy failing failing-IsSound failing-IsClosedCircuit
      failing-IsMeasured

-- As `New` makes it.
abbrev idle : CircuitBreaker
idle = record failing {
  health_of = record failing.health_of {
    health_snapshot_interval = 5000;
    error_counter = counter (replicate 10 0);
    request_counter = record (counter (replicate 10 0)) { current_bucket_time = 1000 };
  };
}

idle-Reachable : Reachable breaker_properties 5000 idle
unfolding new_circuit_breaker new_rolling_number
idle-Reachable = start ticks (later (later ticks)) idle refl

Reachable-IsSound_example : IsSound breaker_properties idle
Reachable-IsSound_example = Reachable-IsSound idle-Reachable

is_open_between_snapshots_example : is_open busy idle ≡ (false, idle, later busy)
is_open_between_snapshots_example =
    is_open_between_snapshots breaker_properties 5000 idle busy idle-Reachable
      (record { not_forced_open = refl; not_forced_closed = refl; flag = refl }) refl refl

-- Open since the time 0.
abbrev tripped : CircuitBreaker
tripped = record failing { circuit_open = 1 }

tripped-IsOpenCircuit : IsOpenCircuit tripped
tripped-IsOpenCircuit = record {
  enabled = refl;
  not_forced_open = refl;
  not_forced_closed = refl;
  flag = refl;
}

-- It fails, and counts its calls in the world.
abbrev fails : Function ℕ
fails c w = (returned (some (other "down")), w + 1, c)

-- A clock that stands still.
abbrev early : Clock
early i = 4000

fail_fast_example :
    let (rs, w', cb', c') = do_all (fails ∷ fails ∷ []) 0 tripped early in
    (rs ≡ replicate 2 (returned (some circuit_open_error)))
    × (w' ≡ 0)
    × IsOpenCircuit cb'
    × (cb'.last_trial_time ≡ 0)
fail_fast_example =
    fail_fast (fails ∷ fails ∷ []) 0 tripped early tripped-IsOpenCircuit (λ i h. refl)

abbrev late : Clock
late i = 6000 + i

do_call_trial_example :
    TrialEnd 6001 (returned (some (other "down"))) (do_call fails 0 tripped late)
    × ((do_call fails 0 tripped late).world ≡ 1)
do_call_trial_example = do_call_trial fails 0 tripped late tripped-IsOpenCircuit refl

single_trial_example :
    (admit_all (late ∷ late ∷ late ∷ []) tripped).0 ≡ allowed true ∷ rejected ∷ rejected ∷ []
single_trial_example =
    single_trial late (late ∷ late ∷ []) tripped tripped-IsOpenCircuit refl (refl, (refl, tt))

-- Open, but forced to be closed.
abbrev forced_closed_breaker : CircuitBreaker
forced_closed_breaker = record tripped { props = record breaker_properties { force_closed = true } }

do_call-PassesOn_example :
    PassesOn forced_closed_breaker
      (fails (λ i. 4000) 0)
      (do_call fails 0 forced_closed_breaker early)
do_call-PassesOn_example =
    do_call-PassesOn fails 0 forced_closed_breaker early
      (record { enabled = refl; not_forced_open = refl; forced_closed = refl })
