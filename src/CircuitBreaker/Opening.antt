-- ===== src/CircuitBreaker/Opening.antt =====
-- circuitbreaker/circuitbreaker.go: when a closed circuit opens.
use mathlib.Core.Path.{ap₂}
use cuirass.Prelude.{
  Bool-cases, inl, inr, ℕ, suc, ◌*◌, ◌^◌, ◌<◌, ◌≡◌, refl, ap, ◌∙◌, Bool, true, false, ◌&&◌, some,
  arith, ltb, leb, if◌then◌else◌,
}
use cuirass.Prelude.Words.{add_int64, ltb_int64}
use cuirass.Util.Clock.{Clock, now, later}
use cuirass.Num.Window.{sum_counts}
use cuirass.Num.RollingNumber.Refinement.{view, sum-eq-sum_counts}
use cuirass.CircuitBreaker.HealthCounters.{Health, zero_health, health, take_snapshot}
use cuirass.CircuitBreaker.Percentages.{exceeds-ltb}
use cuirass.CircuitBreaker.{
  CircuitBreaker, CircuitBreakerProperties, int_true, int_false, new_circuit_breaker, trip, judge,
  is_open, Function, do_call,
}
use cuirass.CircuitBreaker.Invariant.{
  IsSound, IsSoundHealth, new-IsSound, do_call-IsSound, is_open-IsSound,
}

-- A breaker as calls of `Do` and `IsOpen` leave it, from `New` on.
pub data Reachable (props : CircuitBreakerProperties) (interval : ℕ) : CircuitBreaker → Type 1 where
  start :
      (c c' : Clock) (cb : CircuitBreaker)
      → new_circuit_breaker props interval c ≡ some (cb, c')
      → Reachable props interval cb
  after_do :
      {cb : CircuitBreaker} (W : Type 0) (f : Function W) (w : W) (c : Clock)
      → Reachable props interval cb
      → Reachable props interval (do_call f w cb c).breaker
  after_is_open :
      {cb : CircuitBreaker} (c : Clock)
      → Reachable props interval cb
      → Reachable props interval (is_open c cb).1

-- Every breaker that is reached has valid counters, a flag of 0 or 1, the properties that it was
-- made with, and still the snapshot that it was made with, which counts nothing.
pub Reachable-IsSound :
    {props : CircuitBreakerProperties} {interval : ℕ} {cb : CircuitBreaker}
    → Reachable props interval cb
    → IsSound props cb
Reachable-IsSound {interval = interval} (start c c' cb e) = new-IsSound interval c c' cb e
Reachable-IsSound (after_do W f w c r) = do_call-IsSound f w _ c (Reachable-IsSound r)
Reachable-IsSound (after_is_open c r) = is_open-IsSound c _ (Reachable-IsSound r)

-- The circuit is closed, and no property decides otherwise.
pub record IsClosedCircuit (cb : CircuitBreaker) : Type 0 where
  pub not_forced_open : cb.props.force_open ≡ false
  pub not_forced_closed : cb.props.force_closed ≡ false
  pub flag : cb.circuit_open ≡ int_false

-- The interval since the last snapshot is over at `time`.
abbrev pub is_due : CircuitBreaker → ℕ → Bool
is_due cb time =
    ltb_int64 (add_int64 cb.health_of.snapshot_time cb.health_of.health_snapshot_interval) time

-- `IsOpen` goes by the health then.
is_open-IsClosedCircuit :
    (c : Clock) (cb : CircuitBreaker)
    → IsClosedCircuit cb
    → is_open c cb
      ≡ (let (h, hs, c') = health c cb.health_of in judge c' (record cb { health_of = hs }) h)
unfolding is_open
is_open-IsClosedCircuit c cb h = ground arith

health_resting :
    (c : Clock) (cb : CircuitBreaker)
    → is_due cb (now c) ≡ false
    → health c cb.health_of ≡ (cb.health_of.health_snapshot, cb.health_of, later c)
unfolding health
health_resting c cb d = rw d refl

judge-zero :
    (c : Clock) (cb : CircuitBreaker) (h : Health)
    → h ≡ zero_health
    → ltb_int64 0 cb.props.request_volume_threshold ≡ true
    → judge c cb h ≡ (false, cb, c)
unfolding judge
judge-zero c cb h e t = rw (ap (λ (k : Health). k.num_requests) e, t) refl

-- On a breaker that is reached from `New`, and with a volume threshold above 0, `IsOpen` finds a
-- closed circuit closed and changes nothing until the interval since the last snapshot is over,
-- however many of the requests have failed: the health that it reads then is the one that the
-- breaker was made with, since no snapshot is ever stored.
pub is_open_between_snapshots :
    (props : CircuitBreakerProperties) (interval : ℕ) (cb : CircuitBreaker) (c : Clock)
    → Reachable props interval cb
    → IsClosedCircuit cb
    → ltb_int64 0 cb.props.request_volume_threshold ≡ true
    → is_due cb (now c) ≡ false
    → is_open c cb ≡ (false, cb, later c)
is_open_between_snapshots props interval cb c r h t d =
    is_open-IsClosedCircuit c cb h
    ∙ rw (health_resting c cb d) (
        judge-zero (later c) cb cb.health_of.health_snapshot
          (Reachable-IsSound r).health_sound.snapshot_initial t)

-- The requests and the errors that a snapshot sees, which is taken behind the first reading.
abbrev pub requests_at : Clock → CircuitBreaker → ℕ
requests_at c cb = sum_counts (c 1) (view cb.health_of.request_counter)

abbrev pub errors_at : Clock → CircuitBreaker → ℕ
errors_at c cb = sum_counts (c 2) (view cb.health_of.error_counter)

-- A snapshot is due, and the numbers that it is judged by are whole numbers of a float64.
pub record IsMeasured (c : Clock) (cb : CircuitBreaker) : Type 0 where
  pub due : is_due cb (now c) ≡ true
  pub volume_pos : 0 < cb.props.request_volume_threshold
  pub volume_int : cb.props.request_volume_threshold < 2 ^ 63
  pub percentage_exact : cb.props.error_threshold_percentage < 2 ^ 53
  pub requests_exact : requests_at c cb < 2 ^ 53
  pub errors_exact : errors_at c cb * 100 < 2 ^ 53

health_due :
    (c : Clock) (cb : CircuitBreaker)
    → is_due cb (now c) ≡ true
    → health c cb.health_of
      ≡ take_snapshot (later c) (record cb.health_of { snapshot_time = now c })
unfolding health
health_due c cb d = rw d refl

abbrev measure : ℕ → ℕ → Health
measure requests errors = record {
  num_requests = requests;
  error_percentage = record { errors = errors; requests = requests };
}

snapshot_measures :
    (c : Clock) (cb : CircuitBreaker)
    → IsSoundHealth cb.health_of
    → (take_snapshot (later c) (record cb.health_of { snapshot_time = now c })).0
      ≡ measure (requests_at c cb) (errors_at c cb)
unfolding take_snapshot
snapshot_measures c cb s =
    ap₂ measure (sum-eq-sum_counts (c 1) cb.health_of.request_counter s.requests_valid)
      (sum-eq-sum_counts (c 2) cb.health_of.error_counter s.errors_valid)

snapshot_clock :
    (c : Clock) (cb : CircuitBreaker)
    → (take_snapshot (later c) (record cb.health_of { snapshot_time = now c })).2
      ≡ (λ i. c (suc (suc (suc i))))
unfolding take_snapshot
snapshot_clock c cb = refl

-- The test of `IsOpen` over whole numbers.
abbrev pub opens : CircuitBreakerProperties → ℕ → ℕ → Bool
opens p requests errors =
    leb p.request_volume_threshold requests
    && ltb (p.error_threshold_percentage * requests) (errors * 100)

judge-measure :
    (c : Clock) (cb : CircuitBreaker) (requests errors : ℕ)
    → cb.circuit_open ≡ int_false
    → 0 < cb.props.request_volume_threshold
    → cb.props.request_volume_threshold < 2 ^ 63
    → cb.props.error_threshold_percentage < 2 ^ 53
    → requests < 2 ^ 53
    → errors * 100 < 2 ^ 53
    → judge c cb (measure requests errors) ≡ (
        if opens cb.props requests errors
        then (true, record cb { circuit_open = int_true; last_trial_time = now c }, later c)
        else (false, cb, c))
unfolding judge trip
judge-measure c cb requests errors f v0 v1 t r e =
    elim (Bool-cases (leb cb.props.request_volume_threshold requests)) [
      | inl l ↦
          let exact =
            exceeds-ltb requests errors cb.props.error_threshold_percentage (ground arith) r e t in
          ground arith
      | inr l ↦ ground arith
    ]

-- The breaker with the counters as a snapshot leaves them.
abbrev snapped : Clock → CircuitBreaker → CircuitBreaker
snapped c cb = record cb {
  health_of = (take_snapshot (later c) (record cb.health_of { snapshot_time = now c })).1;
}

is_open-judged :
    (props : CircuitBreakerProperties) (c : Clock) (cb : CircuitBreaker)
    → IsSound props cb
    → IsClosedCircuit cb
    → IsMeasured c cb
    → is_open c cb ≡ (
        if opens cb.props (requests_at c cb) (errors_at c cb)
        then (
          true,
          record (snapped c cb) { circuit_open = int_true; last_trial_time = c 3 },
          later (λ i. c (suc (suc (suc i)))),
        )
        else (false, snapped c cb, λ i. c (suc (suc (suc i)))))
is_open-judged props c cb s h m =
    is_open-IsClosedCircuit c cb h
    ∙ rw (health_due c cb m.due, snapshot_measures c cb s.health_sound, snapshot_clock c cb)
        (judge-measure (λ i. c (suc (suc (suc i)))) (snapped c cb) (requests_at c cb)
          (errors_at c cb) h.flag m.volume_pos m.volume_int m.percentage_exact m.requests_exact
          m.errors_exact)

-- Once the interval since the last snapshot is over, `IsOpen` opens a sound, closed circuit exactly
-- when the requests in the window reach the volume threshold and the errors in it, in percent of
-- those, exceed the error threshold; it then returns true and starts the sleep window, and
-- otherwise returns false and leaves the circuit closed and the time of the last trial alone. That
-- the percentage is a rounded float64 makes no difference. The volume threshold is above 0 and an int64;
-- the requests, the error threshold and 100 times the errors are below 2 ^ 53.
pub is_open_measured :
    (props : CircuitBreakerProperties) (c : Clock) (cb : CircuitBreaker)
    → IsSound props cb
    → IsClosedCircuit cb
    → IsMeasured c cb
    → let should_open = opens cb.props (requests_at c cb) (errors_at c cb) in
      ((is_open c cb).0 ≡ should_open)
      × ((is_open c cb).1.circuit_open ≡ (if should_open then int_true else int_false))
      × ((is_open c cb).1.last_trial_time ≡ (if should_open then c 3 else cb.last_trial_time))
is_open_measured props c cb s h m =
    rw (is_open-judged props c cb s h m)
      (by_cases (opens cb.props (requests_at c cb) (errors_at c cb)))
  where
    by_cases :
        (b : Bool)
        → let r : Bool × CircuitBreaker × Clock =
            (if b
              then (
                true,
                record (snapped c cb) { circuit_open = int_true; last_trial_time = c 3 },
                later (λ i. c (suc (suc (suc i)))),
              )
              else (false, snapped c cb, λ i. c (suc (suc (suc i))))) in
          (r.0 ≡ b)
          × (r.1.circuit_open ≡ (if b then int_true else int_false))
          × (r.1.last_trial_time ≡ (if b then c 3 else cb.last_trial_time))
    by_cases true = (refl, refl, refl)
    by_cases false = (refl, h.flag, refl)
