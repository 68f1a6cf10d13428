-- ===== src/Lib.antt =====
-- Cuirass is a library for calls to services that may fail. An `Executor` runs a command in a circuit
-- breaker, with a semaphore around it, a fallback behind it, and the request's cache and log and the
-- metrics beside it. This development models these parts.
--
-- The files, and the code that they are about:
--
--   * Prelude: the shared names; Boolean tests, lists and maps; `Returns P o`, that a computation that
--     may panic does not, with a result in `P`; the 64-bit words.
--   * Util/Clock, Util/Semaphore, Util/Errors: util/clock.go, util/semaphore.go, and the errors and
--     panic values of executor.go, command.go and circuitbreaker/circuitbreaker.go.
--   * Util/ContextUtil: util/contextutil/execute.go, with the caller, its goroutine and the context in
--     atomic steps.
--   * Num/BucketSize, Num/RollingNumber: num/rollingnumber.go. Num/Window is what a rolling number
--     stands for, a window of counts, and RollingNumber/Refinement relates the two. Window/Recent,
--     Window/History, Window/Retention and RollingNumber/Retention are about the ages of the increments
--     that a window counts. Num/Ring is about the indices of a ring.
--   * Num/RollingPercentile: num/rollingpercentile.go; Num/Float is the float64 that it uses, whose
--     order and rounding up are the hypotheses RankLaws, for numbers that are not NaN.
--     Bucket and Latest are about the values that a bucket keeps.
--   * CircuitBreaker: circuitbreaker/circuitbreaker.go, with breakerHealth in HealthCounters. The
--     methods are `new_circuit_breaker` (New), `do_call` (Do), `is_request_allowed`,
--     `is_trial_call_allowed`, `is_open` and `health`. `do_call` is made of `admit`, the part before
--     the function is called, and `proceed`. Its child modules FailFast, Trials,
--     Percentages, Opening, Forced and Invariant are about these, where one call runs alone.
--   * CircuitBreaker/Goroutines: the same methods where several goroutines run them at once. Each load,
--     store and compare-and-swap is a `Move`; Alone relates a goroutine that nobody interrupts to
--     `is_request_allowed`.
--   * RequestLog: requestlog/log.go, the log and its string. RequestCache: requestcache/cache.go.
--   * RequestContext: requestcache/context.go and requestlog/context.go.
--   * Properties: commandproperties.go and propertiescache.go. `read_properties` is
--     newCommandProperties, `get_all` reads one property after the other through the cache.
--   * Metrics: metrics/commandmetrics.go. MetricsStream: metricsstream/handler.go, the objects that the
--     handler writes to the stream, which it takes from the metrics.
--   * Command: command.go and the values of commandproperties.go. SemaphoreFactory: semaphorefactory.go.
--   * Executor: executor.go. `exec` is Exec, whose parts stand in the order of the code: `answer` (the
--     lookup in the cache), `attempt` (behind it), `guarded` (what the breaker is given), `finish` (the
--     deferred function), `recovered` and `exec_fallback` (behind a panic), `remember` (cache.Add).
--     Executor/Answers, Endings, Logging, Outcomes, Permits and Remembering are about these,
--     Executor/Panics has the events and errors of panics. Executor/Sessions runs one call after the
--     other on a new executor. Executor/Callers has
--     getCircuitBreakerForCommand, run by several goroutines at once.
--   * Executor/Nested: executor.go again, for commands whose functions call the executor: they act on
--     its state. `exec_in` is Exec there, with `do_in` for the breaker's Do and `guarded_in` for what
--     the breaker is given; the cache, the fallback and the log are those of Executor (`answer_with`,
--     `finish_with`). Nested/Keeping says what a call keeps; Releasing, Guarding, Conduct, Finishing,
--     Replying and Execs follow a call from its function outwards. Plain and Agreement relate `exec_in`
--     to `exec`.
--   * Demo: examples/. Accounts, Payments, Orders and CreditCards are the files of examples/commands,
--     Requests and Reports examples/main.go: `simulate_request`, `handle_payment` (the handler of
--     /payment) and `monitor_round` (a round of monitorMetrics). The commands take the executor as a
--     parameter, `Exec`; Conduct, Soundness, Typing, Consistency, Serving and Configured put `exec_in`
--     there.
--   * Examples: the theorems on concrete inputs.
--
-- State is passed on: a method takes what it reads and returns what it changed. A clock is the sequence
-- of its readings to come, in nanoseconds, and a method returns the clock behind its own readings, so
-- the order of the readings is that of the code. `Option` is a result or a panic; a function that the
-- user gives ends in a `Call`, by a return or a panic. int64 and int are patterns of 64 bits, and their
-- sums wrap around; counters and sizes of slices are whole numbers. Each loop recurs on the list or on the
-- number of rounds that it has. The one fuel is that of the rounding in Num/Rounding, 128 doublings or
-- halvings: the quotients of a breaker lie between 2 ^ -64 and 2 ^ 71, and are scaled to 2 ^ 52.
--
-- Parameters are what is not in the repository: the values that a configuration has for a property
-- (vaquita), the derived contexts and the values of contexts (golang.org/x/net/context), strconv, sort
-- and float64; for the examples also math/rand, time.Sleep and what a select finds.
-- The error percentage of a breaker is no parameter: Num/Rounding has the rounded float64 arithmetic for
-- it. Rounding/Exact and CircuitBreaker/Percentages are about where the rounding makes no difference,
-- Rounding/Mantissa is about the rounds that it takes.
--
-- Not modelled: goroutines that run at the same time, but for the words of a breaker, the map of the
-- breakers and util/contextutil (elsewhere each method runs alone, and the locks are written as they
-- behave then; the goroutine of a command of the examples ends before its select); the encoding of the
-- stream's objects as JSON, its response and its endless loop; the server of net/http and the timer in
-- examples/main.go. Of several goroutines at a breaker also the mutexes of the rolling numbers are left
-- out, and the compare-and-swap on the time of the snapshot. A negative or too large size or capacity,
-- with which `make` panics, is left out, too (the buckets of a rolling percentile, the channel of a
-- semaphore). A panic of logRequest behind a response of the cache leaves `answer_with`, where Exec would
-- recover it.
pub mod Prelude
pub mod Util
pub mod Num
pub mod CircuitBreaker
pub mod RequestLog
pub mod RequestCache
pub mod RequestContext
pub mod Metrics
pub mod Command
pub mod Properties
pub mod SemaphoreFactory
pub mod Executor
pub mod Demo
pub mod MetricsStream
mod Examples
