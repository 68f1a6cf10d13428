-- ===== src/CircuitBreaker/FailFast.antt =====
-- circuitbreaker/circuitbreaker.go: what `Do` decides while the circuit is open.
use cuirass.Prelude.{ℕ, ◌≡◌, refl, Bool, true, false, arith}
use cuirass.Prelude.Words.{add_int64, ltb_int64}
use cuirass.Util.Clock.{Clock, now, later}
use cuirass.CircuitBreaker.HealthCounters.{inc_request}
use cuirass.CircuitBreaker.{
  CircuitBreaker, int_true, is_open, is_trial_call_allowed, is_request_allowed, admit, allowed,
  rejected,
}

-- The circuit is open, and no property decides otherwise.
pub record IsOpenCircuit (cb : CircuitBreaker) : Type 0 where
  pub enabled : cb.props.enabled ≡ true
  pub not_forced_open : cb.props.force_open ≡ false
  pub not_forced_closed : cb.props.force_closed ≡ false
  pub flag : cb.circuit_open ≡ int_true

-- The sleep window that began with the last trial is over at `time`.
abbrev pub is_rested : CircuitBreaker → ℕ → Bool
is_rested cb time = ltb_int64 (add_int64 cb.last_trial_time cb.props.sleep_window) time

-- `IsOpen` reads nothing more then.
pub is_open-IsOpenCircuit :
    (c : Clock) (cb : CircuitBreaker) → IsOpenCircuit cb → is_open c cb ≡ (true, cb, c)
unfolding is_open
is_open-IsOpenCircuit c cb h = rw (h.not_forced_closed, h.not_forced_open, h.flag)

-- The breaker with the time of its last trial set.
abbrev pub tried : ℕ → CircuitBreaker → CircuitBreaker
tried time cb = record cb { last_trial_time = time }

pub tried-IsOpenCircuit :
    (time : ℕ) (cb : CircuitBreaker) → IsOpenCircuit cb → IsOpenCircuit (tried time cb)
tried-IsOpenCircuit time cb h = record {
  enabled = h.enabled;
  not_forced_open = h.not_forced_open;
  not_forced_closed = h.not_forced_closed;
  flag = h.flag;
}

module _ (c : Clock) (cb : CircuitBreaker) (h : IsOpenCircuit cb) where
  trial_rested :
      is_rested cb (now c) ≡ true → is_trial_call_allowed c cb ≡ (true, tried (now c) cb, later c)
  unfolding is_trial_call_allowed
  trial_rested r = rw (is_open-IsOpenCircuit (later c) cb h, r) (ground arith)

  trial_resting : is_rested cb (now c) ≡ false → is_trial_call_allowed c cb ≡ (false, cb, later c)
  unfolding is_trial_call_allowed
  trial_resting r = rw (is_open-IsOpenCircuit (later c) cb h, r) refl

  pub request_rested :
      is_rested cb (now c) ≡ true
      → is_request_allowed c cb ≡ (true, true, tried (now c) cb, later c)
  unfolding is_request_allowed
  request_rested r =
      rw
        (
          trial_rested r,
          is_open-IsOpenCircuit (later c) (tried (now c) cb) (tried-IsOpenCircuit (now c) cb h),
          h.not_forced_closed,
        )
        refl

  pub request_resting :
      is_rested cb (now c) ≡ false → is_request_allowed c cb ≡ (false, false, cb, later c)
  unfolding is_request_allowed
  request_resting r =
      rw (trial_resting r, is_open-IsOpenCircuit (later c) cb h, h.not_forced_closed) refl

-- The breaker after `Do` has counted the request.
abbrev pub counted : Clock → CircuitBreaker → CircuitBreaker
counted c cb = record cb { health_of = (inc_request c cb.health_of).0 }

later-inc_request : (c : Clock) (cb : CircuitBreaker) → (inc_request c cb.health_of).1 ≡ later c
unfolding inc_request
later-inc_request c cb = refl

module _ (c : Clock) (cb : CircuitBreaker) (h : IsOpenCircuit cb) where
  pub counted-IsOpenCircuit : IsOpenCircuit (counted c cb)
  counted-IsOpenCircuit = record {
    enabled = h.enabled;
    not_forced_open = h.not_forced_open;
    not_forced_closed = h.not_forced_closed;
    flag = h.flag;
  }

  pub admit_rested :
      is_rested cb (now (later c)) ≡ true
      → admit c cb ≡ (allowed true, tried (now (later c)) (counted c cb), later (later c))
  unfolding admit
  admit_rested r =
      rw
        (
          later-inc_request c cb,
          request_rested (later c) (counted c cb) counted-IsOpenCircuit r,
          h.enabled,
          h.not_forced_open,
        )
        refl

  pub admit_resting :
      is_rested cb (now (later c)) ≡ false → admit c cb ≡ (rejected, counted c cb, later (later c))
  unfolding admit
  admit_resting r =
      rw
        (
          later-inc_request c cb,
          request_resting (later c) (counted c cb) counted-IsOpenCircuit r,
          h.enabled,
          h.not_forced_open,
        )
        refl
