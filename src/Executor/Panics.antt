-- ===== src/Executor/Panics.antt =====
-- executor.go: addEventForRequest, panicToError, and what a fallback's end makes of a failure.
use cuirass.Prelude.{Option, none, some, List, [], ◌∷◌}
use cuirass.Util.Errors.{
  GoError, deadline_exceeded, circuit_open_error, semaphore_rejected, fallback_not_implemented,
  unknown_panic, other, PanicValue, error_value, text_value, any_value, Call, returned, panicked,
}
use cuirass.RequestLog.{
  ExecutionEvent, failure, timeout, short_circuited, fallback_success, fallback_failure,
}

-- `addEventForRequest`.
unfoldable pub event_of_panic : PanicValue → ExecutionEvent
event_of_panic (error_value deadline_exceeded) = timeout
event_of_panic (error_value circuit_open_error) = short_circuited
event_of_panic (error_value semaphore_rejected) = ExecutionEvent.semaphore_rejected
event_of_panic _ = failure

unfoldable pub panic_to_error : PanicValue → GoError
panic_to_error (error_value e) = e
panic_to_error (text_value s) = other s
panic_to_error (any_value n) = unknown_panic

-- The event of a fallback that returned the error `e`.
unfoldable pub fallback_events : GoError → List ExecutionEvent
fallback_events fallback_not_implemented = []
fallback_events _ = fallback_failure ∷ []

-- The named results of `execFallback` and the events that it adds, by the end of the fallback. One
-- that returns an error makes it panic with the first panic value again.
unfoldable pub events_of_fallback :
    {V : Type 0}
    → PanicValue
    → Call (Option V × Option GoError)
    → (Option V × Option GoError) × List ExecutionEvent
events_of_fallback r (returned (v, none)) = ((v, none), fallback_success ∷ [])
events_of_fallback r (returned (v, some e)) = ((v, some (panic_to_error r)), fallback_events e)
events_of_fallback r (panicked p) = ((none, some (panic_to_error p)), fallback_failure ∷ [])
