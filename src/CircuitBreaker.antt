-- ===== src/CircuitBreaker.antt =====
-- circuitbreaker/circuitbreaker.go. Each method takes the breaker and the clock, and returns what
-- the source returns, the breaker as it leaves it and the clock after its readings. Timestamps and
-- counts are int64 patterns. The compare-and-swaps are written out; between them no other goroutine
-- runs in these definitions.
pub mod HealthCounters
pub mod Percentages
pub mod Invariant
pub mod FailFast
pub mod Trials
pub mod Opening
pub mod Forced
pub mod Goroutines
use cuirass.Prelude.{
  ℕ, ◌*◌, Bool, true, false, not, ◌&&◌, ◌||◌, Option, none, some, List, ltb, ◌==◌, if◌then◌else◌,
}
use cuirass.Prelude.Words.{add_int64, ltb_int64}
use cuirass.Prelude.Options.{◌>>=◌}
use cuirass.Util.Clock.{Clock, now, later}
use cuirass.Util.Errors.{GoError, circuit_open_error, Call, returned, panicked}
use cuirass.Num.BucketSize.{default_window_size, default_window_buckets}
use cuirass.Num.RollingNumber.{new_rolling_number}
use cuirass.CircuitBreaker.HealthCounters.{
  BreakerHealth, Health, zero_health, inc_request, inc_error, reset, health, exceeds,
}

abbrev pub int_true : ℕ
int_true = 1

abbrev pub int_false : ℕ
int_false = 0

-- What the properties hold while a call reads them.
pub record CircuitBreakerProperties : Type 0 where
  pub enabled : Bool
  pub request_volume_threshold : ℕ
  pub sleep_window : ℕ
  pub error_threshold_percentage : ℕ
  pub force_open : Bool
  pub force_closed : Bool

pub record CircuitBreaker : Type 0 where
  pub props : CircuitBreakerProperties
  pub circuit_open : ℕ
  pub last_trial_time : ℕ
  pub health_of : BreakerHealth

-- `none` is a panic of `NewRollingNumber`. The two counters read the clock in turn.
unfoldable pub new_circuit_breaker :
    CircuitBreakerProperties → ℕ → Clock → Option (CircuitBreaker × Clock)
new_circuit_breaker props health_snapshot_interval c = do
  error_counter ← new_rolling_number default_window_size default_window_buckets (now c)
  request_counter ← new_rolling_number default_window_size default_window_buckets (now (later c))
  some (
    record {
      props = props;
      circuit_open = int_false;
      last_trial_time = 0;
      health_of = record {
        health_snapshot_interval = health_snapshot_interval;
        error_counter = error_counter;
        request_counter = request_counter;
        health_snapshot = zero_health;
        snapshot_time = 0;
      };
    },
    later (later c),
  )

-- The end of `IsOpen`, where the error rate is too high: the first to open the circuit sets the
-- time of the last trial.
unfoldable pub trip : Clock → CircuitBreaker → CircuitBreaker × Clock
trip c cb =
    if cb.circuit_open == int_false
    then (record cb { circuit_open = int_true; last_trial_time = now c }, later c)
    else (cb, c)

-- The part of `IsOpen` behind the load of the health.
unfoldable pub judge : Clock → CircuitBreaker → Health → Bool × CircuitBreaker × Clock
judge c cb h =
    if ltb_int64 h.num_requests cb.props.request_volume_threshold
    then (false, cb, c)
    else (if exceeds h.error_percentage cb.props.error_threshold_percentage
        then (let (cb', c') = trip c cb in (true, cb', c'))
        else (false, cb, c))

unfoldable pub is_open : Clock → CircuitBreaker → Bool × CircuitBreaker × Clock
is_open c cb =
    if cb.props.force_closed
    then (false, cb, c)
    else (if cb.props.force_open
        then (true, cb, c)
        else (if cb.circuit_open == int_true
            then (true, cb, c)
            else (let (h, hs, c') = health c cb.health_of in
                judge c' (record cb { health_of = hs }) h)))

-- Whether the trial call is allowed: the circuit is open, the sleep window is over, and the
-- compare-and-swap still finds the time that was loaded before `IsOpen` was called.
unfoldable pub is_trial_call_allowed : Clock → CircuitBreaker → Bool × CircuitBreaker × Clock
is_trial_call_allowed c cb =
    let last = cb.last_trial_time in
    let timestamp = now c in
    let (open_now, cb', c') = is_open (later c) cb in
    if open_now && ltb_int64 (add_int64 last cb.props.sleep_window) timestamp
    then (if cb'.last_trial_time == last
        then (true, record cb' { last_trial_time = timestamp }, c')
        else (false, cb', c'))
    else (false, cb', c')

-- Whether the request is allowed, and whether it is a trial.
unfoldable pub is_request_allowed : Clock → CircuitBreaker → Bool × Bool × CircuitBreaker × Clock
is_request_allowed c cb =
    let (trial_call, cb', c') = is_trial_call_allowed c cb in
    let (open_now, cb'', c'') = is_open c' cb' in
    if cb'.props.force_closed
    then (true, trial_call, cb'', c'')
    else (not open_now || trial_call, trial_call, cb'', c'')

-- What `Do` decides before it calls the function: not to guard it, to refuse it at once, to run
-- it (as a trial or not), or to refuse it and count the refusal as an error.
pub data Verdict : Type 0 where
  unguarded forced : Verdict
  allowed : Bool → Verdict
  rejected : Verdict

unfoldable pub admit : Clock → CircuitBreaker → Verdict × CircuitBreaker × Clock
admit c cb =
    if not cb.props.enabled
    then (unguarded, cb, c)
    else (if cb.props.force_open
        then (forced, cb, c)
        else (let (hs, c') = inc_request c cb.health_of in
            let (is_allowed, trial, cb', c'') =
              is_request_allowed c' (record cb { health_of = hs }) in
            (if is_allowed then allowed trial else rejected, cb', c'')))

-- What `Do` does with the error of a function that has returned.
unfoldable pub settle :
    Bool → Option GoError → Clock → CircuitBreaker → Option GoError × CircuitBreaker × Clock
settle trial (some e) c cb =
    let (hs, c') = inc_error c cb.health_of in
    (if trial then some circuit_open_error else some e, record cb { health_of = hs }, c')
settle true none c cb =
    let (hs, c') = reset c cb.health_of in
    (none, record cb { circuit_open = int_false; health_of = hs }, c')
settle false none c cb = (none, cb, c)

-- How a call ends: its result or its panic, the breaker, the world and the clock.
pub record Outcome (W : Type 0) : Type 0 where
  pub result : Call (Option GoError)
  pub breaker : CircuitBreaker
  pub world : W
  pub clock : Clock

-- The function that `Do` is given reads and changes a world, and reads the clock.
abbrev pub Function : Type 0 → Type 0
Function W = Clock → W → Call (Option GoError) × W × Clock

module _ {W : Type 0} where
  -- A panic passes through `Do`, which counts nothing then.
  unfoldable pub conclude : Bool → CircuitBreaker → Call (Option GoError) × W × Clock → Outcome W
  conclude trial cb (panicked v, w, c) = record {
    result = panicked v;
    breaker = cb;
    world = w;
    clock = c;
  }
  conclude trial cb (returned e, w, c) =
      let (e', cb', c') = settle trial e c cb in
      record { result = returned e'; breaker = cb'; world = w; clock = c' }

  unfoldable pub proceed : Verdict → Function W → W → CircuitBreaker → Clock → Outcome W
  proceed unguarded f w cb c =
      let (r, w', c') = f c w in record { result = r; breaker = cb; world = w'; clock = c' }
  proceed forced f w cb c = record {
    result = returned (some circuit_open_error);
    breaker = cb;
    world = w;
    clock = c;
  }
  proceed (allowed trial) f w cb c = conclude trial cb (f c w)
  proceed rejected f w cb c =
      let (hs, c') = inc_error c cb.health_of in
      record {
        result = returned (some circuit_open_error);
        breaker = record cb { health_of = hs };
        world = w;
        clock = c';
      }

  -- `Do`.
  unfoldable pub do_call : Function W → W → CircuitBreaker → Clock → Outcome W
  do_call f w cb c = let (v, cb', c') = admit c cb in proceed v f w cb' c'
