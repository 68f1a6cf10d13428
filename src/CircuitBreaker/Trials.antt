-- ===== src/CircuitBreaker/Trials.antt =====
-- circuitbreaker/circuitbreaker.go: an open circuit over calls of `Do`, and its trials.
use cuirass.Prelude.{
  ℕ, suc, ◌*◌, ◌<◌, ◌≡◌, refl, ap, ◌∙◌, true, false, Option, none, some, List, [], ◌∷◌, arith,
  length, replicate,
}
use cuirass.Prelude.Words.{add_int64, ltb_int64}
use cuirass.Util.Clock.{Clock, later}
use cuirass.Util.Errors.{GoError, circuit_open_error, Call, returned, panicked}
use cuirass.CircuitBreaker.HealthCounters.{inc_error}
use cuirass.CircuitBreaker.{
  CircuitBreaker, CircuitBreakerProperties, int_false, admit, settle, Function, Outcome, conclude,
  proceed, do_call, Verdict, allowed, rejected,
}
use cuirass.CircuitBreaker.FailFast.{
  IsOpenCircuit, is_rested, tried, counted, admit_rested, admit_resting, tried-IsOpenCircuit,
  counted-IsOpenCircuit,
}

-- Changing the counters leaves the circuit open.
with_health-IsOpenCircuit :
    {cb cb' : CircuitBreaker}
    → cb'.props ≡ cb.props
    → cb'.circuit_open ≡ cb.circuit_open
    → IsOpenCircuit cb
    → IsOpenCircuit cb'
with_health-IsOpenCircuit p o h = record {
  enabled = ap (λ (q : CircuitBreakerProperties). q.enabled) p ∙ h.enabled;
  not_forced_open = ap (λ (q : CircuitBreakerProperties). q.force_open) p ∙ h.not_forced_open;
  not_forced_closed = ap (λ (q : CircuitBreakerProperties). q.force_closed) p ∙ h.not_forced_closed;
  flag = o ∙ h.flag;
}

module _ {W : Type 0} where
  -- Calls of `Do` one after the other: their results, the world, the breaker and the clock.
  pub do_all :
      List (Function W)
      → W
      → CircuitBreaker
      → Clock
      → List (Call (Option GoError)) × W × CircuitBreaker × Clock
  do_all [] w cb c = ([], w, cb, c)
  do_all (f ∷ fs) w cb c =
      let o = do_call f w cb c in
      let (rs, w', cb', c') = do_all fs o.world o.breaker o.clock in (o.result ∷ rs, w', cb', c')

  do_call_resting :
      (f : Function W) (w : W) (cb : CircuitBreaker) (c : Clock)
      → IsOpenCircuit cb
      → is_rested cb (c 1) ≡ false
      → do_call f w cb c ≡ record {
        result = returned (some circuit_open_error);
        breaker = record cb {
          health_of = (inc_error (later (later c)) (counted c cb).health_of).0;
        };
        world = w;
        clock = λ i. c (suc (suc (suc i)));
      }
  unfolding do_call proceed inc_error
  do_call_resting f w cb c h r = rw (admit_resting c cb h r) refl

  -- While the clock reads times in the sleep window, an open circuit refuses every call: none of
  -- the functions runs, each call returns the error, and the circuit stays open.
  pub fail_fast :
      (fs : List (Function W)) (w : W) (cb : CircuitBreaker) (c : Clock)
      → IsOpenCircuit cb
      → ((i : ℕ) → i < 3 * length fs → is_rested cb (c i) ≡ false)
      → let (rs, w', cb', c') = do_all fs w cb c in
        (rs ≡ replicate (length fs) (returned (some circuit_open_error)))
        × (w' ≡ w)
        × IsOpenCircuit cb'
        × (cb'.last_trial_time ≡ cb.last_trial_time)
  unfolding do_all
  fail_fast [] w cb c h r = (refl, refl, h, refl)
  fail_fast (f ∷ fs) w cb c h r =
      let cb' = record cb {
        health_of = (inc_error (later (later c)) (counted c cb).health_of).0;
      } in
      let ih =
        fail_fast fs w cb' (λ i. c (suc (suc (suc i))))
          (with_health-IsOpenCircuit {cb = cb} refl refl h)
          (λ i hi. r (suc (suc (suc i))) (omega arith)) in
      rw (do_call_resting f w cb c h (r 1 (omega arith)))
        (ap (λ rs. returned (some circuit_open_error) ∷ rs) ih.0, ih.1, ih.2, ih.3)

  -- What `Do` has made of the end of a trial that began at `time`.
  abbrev pub TrialEnd : ℕ → Call (Option GoError) → Outcome W → Type 0
  TrialEnd time (returned none) o =
      (o.result ≡ returned none) × (o.breaker.circuit_open ≡ int_false)
  TrialEnd time (returned (some e)) o =
      (o.result ≡ returned (some circuit_open_error))
      × IsOpenCircuit o.breaker
      × (o.breaker.last_trial_time ≡ time)
  TrialEnd time (panicked v) o =
      (o.result ≡ panicked v) × IsOpenCircuit o.breaker × (o.breaker.last_trial_time ≡ time)

  conclude-TrialEnd :
      (cb : CircuitBreaker) (r : Call (Option GoError) × W × Clock)
      → IsOpenCircuit cb
      → TrialEnd cb.last_trial_time r.0 (conclude true cb r) × ((conclude true cb r).world ≡ r.1)
  unfolding conclude settle
  conclude-TrialEnd cb (returned none, w, c) h = ((refl, refl), refl)
  conclude-TrialEnd cb (returned (some e), w, c) h =
      ((refl, with_health-IsOpenCircuit {cb = cb} refl refl h, refl), refl)
  conclude-TrialEnd cb (panicked v, w, c) h = ((refl, h, refl), refl)

  -- Behind the sleep window an open circuit lets a trial through, which runs the function once. If
  -- it succeeds the circuit is closed; if it fails the error of the open circuit is returned in
  -- place of its own, and if it panics the panic, and then the circuit is open for another window.
  pub do_call_trial :
      (f : Function W) (w : W) (cb : CircuitBreaker) (c : Clock)
      → IsOpenCircuit cb
      → is_rested cb (c 1) ≡ true
      → TrialEnd (c 1) (f (λ i. c (suc (suc i))) w).0 (do_call f w cb c)
        × ((do_call f w cb c).world ≡ (f (λ i. c (suc (suc i))) w).1)
  unfolding do_call proceed
  do_call_trial f w cb c h r = rw (admit_rested c cb h r) (
      conclude-TrialEnd (tried (c 1) (counted c cb)) (f (later (later c)) w)
        (tried-IsOpenCircuit (c 1) (counted c cb) (counted-IsOpenCircuit c cb h)))

-- The verdicts on callers that arrive one after the other, each with its readings of the clock,
-- while none of them has come back.
pub admit_all : List Clock → CircuitBreaker → List Verdict × CircuitBreaker
admit_all [] cb = ([], cb)
admit_all (c ∷ cs) cb =
    let (v, cb', c') = admit c cb in let (vs, cb'') = admit_all cs cb' in (v ∷ vs, cb'')

-- Each of the callers reads its time in the sleep window that began at `last`.
abbrev pub AllResting : ℕ → ℕ → List Clock → Type 0
AllResting last sleep_window [] = Unit {0}
AllResting last sleep_window (c ∷ cs) =
    (ltb_int64 (add_int64 last sleep_window) (c 1) ≡ false) × AllResting last sleep_window cs

admit_all_resting :
    (cs : List Clock) (cb : CircuitBreaker)
    → IsOpenCircuit cb
    → AllResting cb.last_trial_time cb.props.sleep_window cs
    → (admit_all cs cb).0 ≡ replicate (length cs) rejected
unfolding admit_all
admit_all_resting [] cb h r = refl
admit_all_resting (c ∷ cs) cb h r = rw (admit_resting c cb h r.0) (
    ap (λ vs. rejected ∷ vs)
      (admit_all_resting cs (counted c cb) (counted-IsOpenCircuit c cb h) r.1))

-- A trial that is under way is the only one: from the reading that let it through, and until the
-- sleep window after that is over, every other caller is rejected, however many there are.
pub single_trial :
    (c : Clock) (cs : List Clock) (cb : CircuitBreaker)
    → IsOpenCircuit cb
    → is_rested cb (c 1) ≡ true
    → AllResting (c 1) cb.props.sleep_window cs
    → (admit_all (c ∷ cs) cb).0 ≡ allowed true ∷ replicate (length cs) rejected
unfolding admit_all
single_trial c cs cb h t r = rw (admit_rested c cb h t) (
    ap (λ vs. allowed true ∷ vs)
      (admit_all_resting cs (tried (c 1) (counted c cb))
        (tried-IsOpenCircuit (c 1) (counted c cb) (counted-IsOpenCircuit c cb h)) r))
