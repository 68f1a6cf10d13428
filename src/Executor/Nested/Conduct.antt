-- ===== src/Executor/Nested/Conduct.antt =====
-- executor.go, with nested calls: the breaker around the function, and the end of `Exec`.
use Prim.Native.String.{String}
use cuirass.Prelude.{ℕ, ◌≡◌, refl, ap, Bool, true, false, Option, none, some}
use cuirass.Prelude.Maps.{string_eq}
use cuirass.Util.Clock.{Clock}
use cuirass.Util.Errors.{GoError, returned, panicked}
use cuirass.CircuitBreaker.{
  CircuitBreaker, Verdict, unguarded, forced, allowed, rejected, admit, settle,
}
use cuirass.RequestCache.{ExecutedCommand, CacheKey, key_eq}
use cuirass.Executor.{State}
use cuirass.Executor.Nested.{Ending, breaker_of, put_breaker, conclude_in, proceed_in, do_in}
use cuirass.Executor.Nested.Keeping.{IsReady, Keeps, Ends, Keeps-trans, same-Keeps}

settle-fine :
    (trial : Bool) (e : Option GoError) (c : Clock) (cb : CircuitBreaker)
    → (settle trial e c cb).0 ≡ none
    → e ≡ none
unfolding settle
settle-fine true none c cb h = refl
settle-fine false none c cb h = refl
settle-fine true (some e) c cb h = cc h
settle-fine false (some e) c cb h = cc h

module _ {V W : Type 0} (max : String → ℕ) (T : String → Option V → Type 0) (G : W → Type 0)
    (Pins : CacheKey → ExecutedCommand V → Type 0) (K : CacheKey → Type 0) (name : String) where
  -- A step that changes a breaker and the clock.
  breaker-Keeps :
      (s : State V W) (cb : CircuitBreaker) (c : Clock)
      → IsReady max T G Pins s
      → Keeps max T G Pins K s (record (put_breaker name cb s) { clock = c })
  breaker-Keeps s cb c r = same-Keeps max T G Pins K s _ r r.metrics_valid refl refl refl (λ q. q)

  conclude_in-Ends :
      (trial : Bool) (cb : CircuitBreaker) (s : State V W) (e : Ending V W)
      → Ends max T G Pins K name s e
      → Ends max T G Pins K name s (conclude_in name trial cb e)
  unfolding conclude_in
  conclude_in-Ends trial cb s (panicked p, v, t) h = h
  conclude_in-Ends trial cb s (returned e, v, t) h = (
    Keeps-trans max T G Pins K s t _ h.0 (breaker-Keeps t _ _ h.0.ready),
    λ q. h.1 (ap returned (settle-fine trial e t.clock (breaker_of name cb t) (cc q))),
  )

  proceed_in-Ends :
      (v : Verdict) (f : State V W → Ending V W) (cb : CircuitBreaker) (s : State V W)
      → IsReady max T G Pins s
      → Ends max T G Pins K name s (f s)
      → Ends max T G Pins K name s (proceed_in name v f cb s)
  unfolding proceed_in
  proceed_in-Ends unguarded f cb s r h = h
  proceed_in-Ends forced f cb s r h =
      (same-Keeps max T G Pins K s s r r.metrics_valid refl refl refl (λ q. q), λ q. cc q)
  proceed_in-Ends (allowed trial) f cb s r h = conclude_in-Ends trial cb s (f s) h
  proceed_in-Ends rejected f cb s r h = (breaker-Keeps s _ _ r, λ q. cc q)

  -- `Do` adds nothing to what the function does.
  pub do_in-Ends :
      (f : State V W → Ending V W) (cb : CircuitBreaker) (s : State V W)
      → ((t : State V W) → IsReady max T G Pins t → Ends max T G Pins K name t (f t))
      → IsReady max T G Pins s
      → Ends max T G Pins K name s (do_in name f cb s)
  unfolding do_in
  do_in-Ends f cb s h r =
      let k = breaker-Keeps s (admit s.clock cb).1 (admit s.clock cb).2 r in
      let e = proceed_in-Ends (admit s.clock cb).0 f (admit s.clock cb).1 _ k.ready (h _ k.ready) in
      (Keeps-trans max T G Pins K s _ _ k e.0, e.1)
