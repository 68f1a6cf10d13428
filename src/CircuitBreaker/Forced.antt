-- ===== src/CircuitBreaker/Forced.antt =====
-- circuitbreaker/circuitbreaker.go: calls of `Do` while a property decides in place of the state.
use cuirass.Prelude.{suc, ◌≡◌, refl, true, false, Option, none, some}
use cuirass.Util.Clock.{Clock, later}
use cuirass.Util.Errors.{GoError, Call, returned, panicked}
use cuirass.CircuitBreaker.HealthCounters.{inc_request}
use cuirass.CircuitBreaker.{
  CircuitBreaker, is_open, is_trial_call_allowed, is_request_allowed, allowed, admit, settle,
  Function, Outcome, conclude, proceed, do_call,
}

-- The breaker is in use, and forced to be closed.
pub record IsForcedClosed (cb : CircuitBreaker) : Type 0 where
  pub enabled : cb.props.enabled ≡ true
  pub not_forced_open : cb.props.force_open ≡ false
  pub forced_closed : cb.props.force_closed ≡ true

is_open-IsForcedClosed :
    (c : Clock) (cb : CircuitBreaker) → cb.props.force_closed ≡ true → is_open c cb ≡ (false, cb, c)
unfolding is_open
is_open-IsForcedClosed c cb h = rw h refl

trial-IsForcedClosed :
    (c : Clock) (cb : CircuitBreaker)
    → cb.props.force_closed ≡ true
    → is_trial_call_allowed c cb ≡ (false, cb, later c)
unfolding is_trial_call_allowed
trial-IsForcedClosed c cb h = rw (is_open-IsForcedClosed (later c) cb h) refl

request-IsForcedClosed :
    (c : Clock) (cb : CircuitBreaker)
    → cb.props.force_closed ≡ true
    → is_request_allowed c cb ≡ (true, false, cb, later c)
unfolding is_request_allowed
request-IsForcedClosed c cb h =
    rw (trial-IsForcedClosed c cb h, is_open-IsForcedClosed (later c) cb h, h) refl

abbrev requested : Clock → CircuitBreaker → CircuitBreaker
requested c cb = record cb { health_of = (inc_request c cb.health_of).0 }

admit-IsForcedClosed :
    (c : Clock) (cb : CircuitBreaker)
    → IsForcedClosed cb
    → admit c cb ≡ (allowed false, requested c cb, λ i. c (suc (suc i)))
unfolding admit inc_request
admit-IsForcedClosed c cb h =
    rw
      (
        request-IsForcedClosed (later c) (requested c cb) h.forced_closed,
        h.enabled,
        h.not_forced_open,
      )
      refl

module _ {W : Type 0} where
  -- What a call leaves alone, of the breaker `cb`, that ended as the function did.
  pub record PassesOn (cb : CircuitBreaker) (r : Call (Option GoError) × W × Clock) (o : Outcome W)
      : Type 0 where
    pub same_result : o.result ≡ r.0
    pub same_world : o.world ≡ r.1
    pub same_flag : o.breaker.circuit_open ≡ cb.circuit_open
    pub same_trial : o.breaker.last_trial_time ≡ cb.last_trial_time

  conclude-PassesOn :
      (cb : CircuitBreaker) (r : Call (Option GoError) × W × Clock)
      → PassesOn cb r (conclude false cb r)
  unfolding conclude settle
  conclude-PassesOn cb (returned none, w, c) = record {
    same_result = refl;
    same_world = refl;
    same_flag = refl;
    same_trial = refl;
  }
  conclude-PassesOn cb (returned (some e), w, c) = record {
    same_result = refl;
    same_world = refl;
    same_flag = refl;
    same_trial = refl;
  }
  conclude-PassesOn cb (panicked v, w, c) = record {
    same_result = refl;
    same_world = refl;
    same_flag = refl;
    same_trial = refl;
  }

  -- While a breaker that is in use is forced to be closed, and not forced to be open, every call
  -- runs the function once, whatever the state of the circuit and the error rate are, and ends as
  -- the function does; the state of the circuit and the time of its last trial stay as they are.
  pub do_call-PassesOn :
      (f : Function W) (w : W) (cb : CircuitBreaker) (c : Clock)
      → IsForcedClosed cb
      → PassesOn cb (f (λ i. c (suc (suc i))) w) (do_call f w cb c)
  unfolding do_call proceed
  do_call-PassesOn f w cb c h =
      rw (admit-IsForcedClosed c cb h)
        (weaken (conclude-PassesOn (requested c cb) (f (λ i. c (suc (suc i))) w)))
    where
      weaken :
          {r : Call (Option GoError) × W × Clock} {o : Outcome W}
          → PassesOn (requested c cb) r o
          → PassesOn cb r o
      weaken p = record {
        same_result = p.same_result;
        same_world = p.same_world;
        same_flag = p.same_flag;
        same_trial = p.same_trial;
      }
