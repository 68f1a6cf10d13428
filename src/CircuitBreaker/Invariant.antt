-- ===== src/CircuitBreaker/Invariant.antt =====
-- circuitbreaker/circuitbreaker.go: an invariant of a breaker.
use cuirass.Prelude.{
  ℕ, ◌≤◌, ◌≡◌, refl, Bool, true, false, Option, none, some, arith, ◌==◌, not, if_both,
}
use cuirass.Prelude.Words.{add_int64, ltb_int64}
use cuirass.Util.Clock.{Clock, now, later}
use cuirass.Util.Errors.{GoError, Call, returned, panicked}
use cuirass.Num.RollingNumber.{new_rolling_number}
use cuirass.Num.RollingNumber.Validity
use cuirass.Num.RollingNumber.Validity.{
  increment-IsValid, sum-IsValid, reset-IsValid, new_rolling_number-IsValid,
}
use cuirass.CircuitBreaker.HealthCounters.{
  BreakerHealth, Health, zero_health, inc_request, inc_error, reset, take_snapshot, health, exceeds,
}
use cuirass.CircuitBreaker.{
  CircuitBreaker, CircuitBreakerProperties, int_true, int_false, new_circuit_breaker, trip, judge,
  is_open, is_trial_call_allowed, is_request_allowed, admit, settle, Function, conclude, proceed,
  do_call, Verdict, unguarded, forced, allowed, rejected,
}

-- The counters are valid, and the stored snapshot is the initial one.
pub record IsSoundHealth (h : BreakerHealth) : Type 0 where
  pub errors_valid : Validity.IsValid h.error_counter
  pub requests_valid : Validity.IsValid h.request_counter
  pub snapshot_initial : h.health_snapshot ≡ zero_health

pub inc_request-IsSoundHealth :
    (c : Clock) (h : BreakerHealth) → IsSoundHealth h → IsSoundHealth (inc_request c h).0
unfolding inc_request
inc_request-IsSoundHealth c h v = record {
  errors_valid = v.errors_valid;
  requests_valid = increment-IsValid (now c) h.request_counter v.requests_valid;
  snapshot_initial = v.snapshot_initial;
}

pub inc_error-IsSoundHealth :
    (c : Clock) (h : BreakerHealth) → IsSoundHealth h → IsSoundHealth (inc_error c h).0
unfolding inc_error
inc_error-IsSoundHealth c h v = record {
  errors_valid = increment-IsValid (now c) h.error_counter v.errors_valid;
  requests_valid = v.requests_valid;
  snapshot_initial = v.snapshot_initial;
}

pub reset-IsSoundHealth :
    (c : Clock) (h : BreakerHealth) → IsSoundHealth h → IsSoundHealth (reset c h).0
unfolding reset
reset-IsSoundHealth c h v = record {
  errors_valid = reset-IsValid (now c) h.error_counter v.errors_valid;
  requests_valid = reset-IsValid (now (later c)) h.request_counter v.requests_valid;
  snapshot_initial = v.snapshot_initial;
}

pub take_snapshot-IsSoundHealth :
    (c : Clock) (h : BreakerHealth) → IsSoundHealth h → IsSoundHealth (take_snapshot c h).1
unfolding take_snapshot
take_snapshot-IsSoundHealth c h v = record {
  errors_valid = sum-IsValid (now (later c)) h.error_counter v.errors_valid;
  requests_valid = sum-IsValid (now c) h.request_counter v.requests_valid;
  snapshot_initial = v.snapshot_initial;
}

pub health-IsSoundHealth :
    (c : Clock) (h : BreakerHealth) → IsSoundHealth h → IsSoundHealth (health c h).1
unfolding health
health-IsSoundHealth c h v =
    if_both (λ (r : Health × BreakerHealth × Clock). IsSoundHealth r.1)
      (ltb_int64 (add_int64 h.snapshot_time h.health_snapshot_interval) (now c))
      (take_snapshot-IsSoundHealth (later c) (record h { snapshot_time = now c })
        (record {
          errors_valid = v.errors_valid;
          requests_valid = v.requests_valid;
          snapshot_initial = v.snapshot_initial;
        }))
      v

-- Besides the health: the flag is 0 or 1, and the properties are those given to `New`.
pub record IsSound (props : CircuitBreakerProperties) (cb : CircuitBreaker) : Type 0 where
  pub health_sound : IsSoundHealth cb.health_of
  pub open_flag : cb.circuit_open ≤ 1
  pub same_props : cb.props ≡ props

abbrev Keeps : CircuitBreakerProperties → Bool × CircuitBreaker × Clock → Type 0
Keeps props r = IsSound props r.1

module _ {props : CircuitBreakerProperties} where
  -- Changing the counters alone keeps the rest.
  with_health :
      (cb : CircuitBreaker) (h : BreakerHealth)
      → IsSound props cb
      → IsSoundHealth h
      → IsSound props (record cb { health_of = h })
  with_health cb h v s = record {
    health_sound = s;
    open_flag = v.open_flag;
    same_props = v.same_props;
  }

  trip-IsSound : (c : Clock) (cb : CircuitBreaker) → IsSound props cb → IsSound props (trip c cb).0
  unfolding trip
  trip-IsSound c cb v =
      if_both (λ (r : CircuitBreaker × Clock). IsSound props r.0) (cb.circuit_open == int_false)
        (record {
          health_sound = v.health_sound;
          open_flag = omega arith;
          same_props = v.same_props;
        })
        v

  judge-IsSound :
      (c : Clock) (cb : CircuitBreaker) (h : Health)
      → IsSound props cb
      → IsSound props (judge c cb h).1
  unfolding judge
  judge-IsSound c cb h v =
      if_both (Keeps props) (ltb_int64 h.num_requests cb.props.request_volume_threshold) v (
        if_both (Keeps props) (exceeds h.error_percentage cb.props.error_threshold_percentage)
          (trip-IsSound c cb v) v)

  -- `IsOpen` keeps a breaker sound.
  pub is_open-IsSound :
      (c : Clock) (cb : CircuitBreaker) → IsSound props cb → IsSound props (is_open c cb).1
  unfolding is_open
  is_open-IsSound c cb v = if_both (Keeps props) cb.props.force_closed v (
      if_both (Keeps props) cb.props.force_open v (
        if_both (Keeps props) (cb.circuit_open == int_true) v (
          judge-IsSound _ _ (health c cb.health_of).0
            (with_health cb _ v (health-IsSoundHealth c cb.health_of v.health_sound)))))

  trial-IsSound :
      (c : Clock) (cb : CircuitBreaker)
      → IsSound props cb
      → IsSound props (is_trial_call_allowed c cb).1
  unfolding is_trial_call_allowed
  trial-IsSound c cb v = ground (arith, is_open-IsSound (later c) cb v)

  request-IsSound :
      (c : Clock) (cb : CircuitBreaker)
      → IsSound props cb
      → IsSound props (is_request_allowed c cb).2
  unfolding is_request_allowed
  request-IsSound c cb v =
      let (trial, cb', c') = is_trial_call_allowed c cb in
      if_both (λ (r : Bool × Bool × CircuitBreaker × Clock). IsSound props r.2)
        cb'.props.force_closed (is_open-IsSound c' cb' (trial-IsSound c cb v))
        (is_open-IsSound c' cb' (trial-IsSound c cb v))

  -- The part of `Do` before the call keeps a breaker sound.
  pub admit-IsSound :
      (c : Clock) (cb : CircuitBreaker) → IsSound props cb → IsSound props (admit c cb).1
  unfolding admit
  admit-IsSound c cb v =
      if_both (λ (r : Verdict × CircuitBreaker × Clock). IsSound props r.1) (not cb.props.enabled) v
        (if_both (λ (r : Verdict × CircuitBreaker × Clock). IsSound props r.1) cb.props.force_open v
          (request-IsSound _ _
            (with_health cb _ v (inc_request-IsSoundHealth c cb.health_of v.health_sound))))

  pub settle-IsSound :
      (trial : Bool) (e : Option GoError) (c : Clock) (cb : CircuitBreaker)
      → IsSound props cb
      → IsSound props (settle trial e c cb).1
  unfolding settle
  settle-IsSound trial (some e) c cb v =
      with_health cb _ v (inc_error-IsSoundHealth c cb.health_of v.health_sound)
  settle-IsSound true none c cb v = record {
    health_sound = reset-IsSoundHealth c cb.health_of v.health_sound;
    open_flag = omega arith;
    same_props = v.same_props;
  }
  settle-IsSound false none c cb v = v

  conclude-IsSound :
      {W : Type 0} (trial : Bool) (cb : CircuitBreaker) (r : Call (Option GoError) × W × Clock)
      → IsSound props cb
      → IsSound props (conclude trial cb r).breaker
  unfolding conclude
  conclude-IsSound trial cb (panicked e, w, c) v = v
  conclude-IsSound trial cb (returned e, w, c) v = settle-IsSound trial e c cb v

  proceed-IsSound :
      {W : Type 0} (verdict : Verdict) (f : Function W) (w : W) (cb : CircuitBreaker) (c : Clock)
      → IsSound props cb
      → IsSound props (proceed verdict f w cb c).breaker
  unfolding proceed
  proceed-IsSound unguarded f w cb c v = v
  proceed-IsSound forced f w cb c v = v
  proceed-IsSound (allowed trial) f w cb c v = conclude-IsSound trial cb (f c w) v
  proceed-IsSound rejected f w cb c v =
      with_health cb _ v (inc_error-IsSoundHealth c cb.health_of v.health_sound)

  -- `Do` keeps a breaker sound, whatever the function does.
  pub do_call-IsSound :
      {W : Type 0} (f : Function W) (w : W) (cb : CircuitBreaker) (c : Clock)
      → IsSound props cb
      → IsSound props (do_call f w cb c).breaker
  unfolding do_call
  do_call-IsSound f w cb c v = proceed-IsSound _ f w _ _ (admit-IsSound c cb v)

  -- `New` makes a sound breaker.
  pub new-IsSound :
      (interval : ℕ) (c c' : Clock) (cb : CircuitBreaker)
      → new_circuit_breaker props interval c ≡ some (cb, c')
      → IsSound props cb
  unfolding new_circuit_breaker new_rolling_number
  new-IsSound interval c c' cb e = ground arith

-- With the default sizes of the counters `New` never panics.
pub new_circuit_breaker_total :
    (props : CircuitBreakerProperties) (interval : ℕ) (c : Clock)
    → (r : CircuitBreaker × Clock) × (new_circuit_breaker props interval c ≡ some r)
unfolding new_circuit_breaker new_rolling_number
new_circuit_breaker_total props interval c = (_, refl)
