-- ===== src/Executor/Answers.antt =====
-- executor.go: what a call of `Exec` replies and what it logs, by how the breaker's `Do` ended.
use Prim.Native.String.{String}
use mathlib.Core.Path.{subst}
use cuirass.Prelude.{
  ℕ, ◌≡◌, refl, ap, ◌∙◌, Bool, true, false, Option, none, some, List, [], ◌∷◌, if◌then◌else◌,
  Bool-cases, inl, inr,
}
use cuirass.Prelude.Options.{◌>>=◌, Returns, returns, >>=-Returns}
use cuirass.Util.Errors.{
  GoError, fallback_not_implemented, PanicValue, error_value, text_value, any_value, Call, returned,
  panicked,
}
use cuirass.RequestLog.{
  ExecutionEvent, success, failure, fallback_success, fallback_failure, ExecutionInfo,
  new_execution_info,
}
use cuirass.RequestCache.{RequestCache}
use cuirass.Metrics.Totality
use cuirass.Command.{GoContext, CommandProperties, Command}
use cuirass.Executor.{
  State, Reply, to_execution_info, remember_in, remember, exec_fallback, exec_fallback_with,
  recovered, recovered_with, finish,
}
use cuirass.Executor.Panics.{event_of_panic, panic_to_error, events_of_fallback, fallback_events}
use cuirass.Executor.Logging.{new_log, log_stats_total}

-- The event that tells of a failure, by its panic value: a timeout, an open circuit and a refused permit
-- have events of their own.
abbrev pub cause_of : PanicValue → ExecutionEvent
cause_of (error_value GoError.deadline_exceeded) = ExecutionEvent.timeout
cause_of (error_value GoError.circuit_open_error) = ExecutionEvent.short_circuited
cause_of (error_value GoError.semaphore_rejected) = ExecutionEvent.semaphore_rejected
cause_of (error_value fallback_not_implemented) = failure
cause_of (error_value GoError.unknown_panic) = failure
cause_of (error_value (GoError.other s)) = failure
cause_of (text_value s) = failure
cause_of (any_value n) = failure

-- The error that a failure is told by: an error itself, a new error with the text of a string, and for
-- a value of another type the error of an unknown panic.
abbrev pub error_told : PanicValue → GoError
error_told (error_value e) = e
error_told (text_value s) = GoError.other s
error_told (any_value n) = GoError.unknown_panic

event_of_panic-eq-cause_of : (p : PanicValue) → event_of_panic p ≡ cause_of p
unfolding event_of_panic
event_of_panic-eq-cause_of (error_value GoError.deadline_exceeded) = refl
event_of_panic-eq-cause_of (error_value GoError.circuit_open_error) = refl
event_of_panic-eq-cause_of (error_value GoError.semaphore_rejected) = refl
event_of_panic-eq-cause_of (error_value fallback_not_implemented) = refl
event_of_panic-eq-cause_of (error_value GoError.unknown_panic) = refl
event_of_panic-eq-cause_of (error_value (GoError.other s)) = refl
event_of_panic-eq-cause_of (text_value s) = refl
event_of_panic-eq-cause_of (any_value n) = refl

panic_to_error-eq-error_told : (p : PanicValue) → panic_to_error p ≡ error_told p
unfolding panic_to_error
panic_to_error-eq-error_told (error_value e) = refl
panic_to_error-eq-error_told (text_value s) = refl
panic_to_error-eq-error_told (any_value n) = refl

module _ {V : Type 0} where
  -- The reply and the events of a failure with the panic value `p`, by how its fallback ended.
  abbrev pub with_fallback :
      PanicValue → Call (Option V × Option GoError) → Reply V × List ExecutionEvent
  with_fallback p (returned (v, none)) = ((v, none), cause_of p ∷ fallback_success ∷ [])
  with_fallback p (returned (v, some fallback_not_implemented)) =
      ((v, some (error_told p)), cause_of p ∷ [])
  with_fallback p (returned (v, some e)) =
      ((v, some (error_told p)), cause_of p ∷ fallback_failure ∷ [])
  with_fallback p (panicked q) = ((none, some (error_told q)), cause_of p ∷ fallback_failure ∷ [])

  -- The reply and the events of a call, by whether the fallback is enabled, the named result, how
  -- `Do` ended, and how the fallback would end.
  abbrev pub expected :
      Bool
      → Option V
      → Call (Option GoError)
      → Call (Option V × Option GoError)
      → Reply V × List ExecutionEvent
  expected on v (returned none) fallback = ((v, none), success ∷ [])
  expected true v (returned (some e)) fallback = with_fallback (error_value e) fallback
  expected true v (panicked p) fallback = with_fallback p fallback
  expected false v (returned (some e)) fallback = ((v, some e), failure ∷ [])
  expected false v (panicked p) fallback = ((v, none), failure ∷ [])

  with_fallback_lem :
      (p : PanicValue) (out : Call (Option V × Option GoError))
      → ((events_of_fallback p out).0, event_of_panic p ∷ (events_of_fallback p out).1)
        ≡ with_fallback p out
  unfolding events_of_fallback fallback_events
  with_fallback_lem p (returned (v, none)) = rw (event_of_panic-eq-cause_of p) refl
  with_fallback_lem p (returned (v, some GoError.deadline_exceeded)) =
      rw (event_of_panic-eq-cause_of p, panic_to_error-eq-error_told p) refl
  with_fallback_lem p (returned (v, some GoError.circuit_open_error)) =
      rw (event_of_panic-eq-cause_of p, panic_to_error-eq-error_told p) refl
  with_fallback_lem p (returned (v, some GoError.semaphore_rejected)) =
      rw (event_of_panic-eq-cause_of p, panic_to_error-eq-error_told p) refl
  with_fallback_lem p (returned (v, some fallback_not_implemented)) =
      rw (event_of_panic-eq-cause_of p, panic_to_error-eq-error_told p) refl
  with_fallback_lem p (returned (v, some GoError.unknown_panic)) =
      rw (event_of_panic-eq-cause_of p, panic_to_error-eq-error_told p) refl
  with_fallback_lem p (returned (v, some (GoError.other s))) =
      rw (event_of_panic-eq-cause_of p, panic_to_error-eq-error_told p) refl
  with_fallback_lem p (panicked q) =
      rw (event_of_panic-eq-cause_of p, panic_to_error-eq-error_told q) refl

module _ (g : GoContext) (properties : String → String → CommandProperties) {V W : Type 0}
    (cmd : Command g.Context V W) where
  -- The reply is as expected, and one entry, of the command and with the events expected, is logged
  -- if logging is on and the context has a log.
  pub record Answered (s : State V W) (e : Reply V × List ExecutionEvent) (r : Reply V × State V W)
      : Type 0 where
    pub is_reply : r.0 ≡ e.0
    pub entry : ExecutionInfo
    pub of_command : entry.command_name ≡ cmd.name
    pub of_events : entry.events ≡ e.1
    pub is_logged : r.1.request_log ≡ new_log g properties cmd entry s.request_log

  remember_in_same :
      (start : ℕ) (events : List ExecutionEvent) (reply : Reply V) (s : State V W)
      (o : Option (RequestCache V))
      → ((remember_in g properties start events cmd reply s o).0 ≡ reply)
        × ((remember_in g properties start events cmd reply s o).1.request_log ≡ s.request_log)
  unfolding remember_in to_execution_info
  remember_in_same start events reply s none = (refl, refl)
  remember_in_same start events reply s (some cache) = (refl, refl)

  remember_same :
      (start : ℕ) (events : List ExecutionEvent) (reply : Reply V) (s : State V W)
      → ((remember g properties start events cmd reply s).0 ≡ reply)
        × ((remember g properties start events cmd reply s).1.request_log ≡ s.request_log)
  unfolding remember
  remember_same start events reply s = remember_in_same start events reply s _

  -- From the log behind `log_stats` to that of the end, for a state `s0` with the log of `s`.
  answered :
      (start : ℕ) (events : List ExecutionEvent) (reply : Reply V) (s0 s s' : State V W)
      (r : Reply V × State V W)
      → s.request_log ≡ s0.request_log
      → s'.request_log
        ≡ new_log g properties cmd
            (to_execution_info g properties start events cmd s).0
            s.request_log
      → (r.0 ≡ reply) × (r.1.request_log ≡ s'.request_log)
      → Answered s0 (reply, events) r
  unfolding to_execution_info new_execution_info
  answered start events reply s0 s s' r same l e =
      let entry = (to_execution_info g properties start events cmd s).0 in
      record {
        is_reply = e.0;
        entry = entry;
        of_command = refl;
        of_events = refl;
        is_logged = e.1 ∙ l ∙ ap (new_log g properties cmd entry) same;
      }

  fallback-Answered :
      (ctx : g.Context) (start : ℕ) (p : PanicValue) (s : State V W)
      → Totality.IsValid s.metrics
      → Returns (Answered s (with_fallback p (cmd.fallback ctx s.clock s.world).0)) (do
        (reply', s') ← exec_fallback g properties ctx cmd start p s
        some (remember g properties start [] cmd reply' s'))
  unfolding exec_fallback
  fallback-Answered ctx start p s v =
      let (out, w', c') = cmd.fallback ctx s.clock s.world in
      let s1 : State V W = record s { world = w'; clock = c' } in
      let (reply, events) = events_of_fallback p out in
      let all = event_of_panic p ∷ events in
      >>=-Returns
        {P = λ (r : Reply V × State V W).
          (r.0 ≡ reply)
          × (r.1.request_log
              ≡ new_log g properties cmd (to_execution_info g properties start all cmd s1).0
                  s1.request_log)}
        (>>=-Returns (log_stats_total g properties cmd start all s1 v)
          (λ s' l. returns _ (refl, l.1)))
        (λ (reply', s') l. returns _ (
          subst (λ e. Answered s e (remember g properties start [] cmd reply' s'))
            (with_fallback_lem p out)
            (answered start all reply s s1 s' (remember g properties start [] cmd reply' s') refl
              l.1
              ((remember_same start [] reply' s').0 ∙ l.0, (remember_same start [] reply' s').1))))

  recovered-Answered :
      (ctx : g.Context) (start : ℕ) (p : PanicValue) (reply : Reply V) (s : State V W)
      → Totality.IsValid s.metrics
      → Returns
          (Answered s (
            if (properties cmd.name cmd.group).fallback_enabled
            then with_fallback p (cmd.fallback ctx s.clock s.world).0
            else (reply, failure ∷ [])))
          (recovered g properties ctx cmd start p reply s)
  unfolding recovered exec_fallback exec_fallback_with
  recovered-Answered ctx start p reply s v =
      elim (Bool-cases (properties cmd.name cmd.group).fallback_enabled) [
        | inl on ↦ rw on (fallback-Answered ctx start p s v)
        | inr off ↦ rw off (
            >>=-Returns (log_stats_total g properties cmd start (failure ∷ []) s v) (λ s' l.
              returns _
                (answered start (failure ∷ []) reply s s s' (reply, s') refl l.1 (refl, refl))))
      ]

  expected_error :
      (b : Bool) (v : Option V) (e : GoError) (fallback : Call (Option V × Option GoError))
      → (if b then with_fallback (error_value e) fallback else ((v, some e), failure ∷ []))
        ≡ expected b v (returned (some e)) fallback
  expected_error true v e fallback = refl
  expected_error false v e fallback = refl

  expected_panic :
      (b : Bool) (v : Option V) (p : PanicValue) (fallback : Call (Option V × Option GoError))
      → (if b then with_fallback p fallback else ((v, none), failure ∷ []))
        ≡ expected b v (panicked p) fallback
  expected_panic true v p fallback = refl
  expected_panic false v p fallback = refl

  -- On valid metrics the deferred function of `Exec` returns. A success replies with the named result
  -- and no error. With the fallback enabled, a failure replies with the fallback's value, and with no
  -- error if the fallback returned none, or the failure's own error if it returned one; where the
  -- fallback panics, the reply is the error of that panic. With the fallback disabled, the reply to an
  -- error is the named result and that error, and the reply to a panic the named result and no error.
  -- In each case one entry, of the command and with the events that tell of these ends, is logged, if
  -- logging is enabled and the context has a log.
  pub finish-Answered :
      (ctx : g.Context) (start : ℕ) (v : Option V) (r : Call (Option GoError)) (s : State V W)
      → Totality.IsValid s.metrics
      → Returns
          (Answered s (
            expected
              (properties cmd.name cmd.group).fallback_enabled
              v
              r
              (cmd.fallback ctx s.clock s.world).0))
          (finish g properties ctx cmd start v r s)
  unfolding finish recovered recovered_with
  finish-Answered ctx start v (returned none) s ok =
      >>=-Returns (log_stats_total g properties cmd start (success ∷ []) s ok) (λ s' l. returns _ (
        answered start (success ∷ []) (v, none) s s s'
          (remember g properties start (success ∷ []) cmd (v, none) s') refl l.1
          (remember_same start (success ∷ []) (v, none) s')))
  finish-Answered ctx start v (returned (some e)) s ok =
      rw
        (← expected_error (properties cmd.name cmd.group).fallback_enabled v e
          (cmd.fallback ctx s.clock s.world).0)
        (recovered-Answered ctx start (error_value e) (v, some e) s ok)
  finish-Answered ctx start v (panicked p) s ok =
      rw
        (← expected_panic (properties cmd.name cmd.group).fallback_enabled v p
          (cmd.fallback ctx s.clock s.world).0)
        (recovered-Answered ctx start p (v, none) s ok)
