-- ===== src/Executor.antt =====
-- executor.go. `exec` is one call of `Exec`, from its first statement through its deferred function.
-- The world `W` is what the functions of commands act on; they do not reach the executor itself (those
-- that do are in Nested).
-- `none` is a panic that leaves `Exec`: one of the bookkeeping of the metrics.
pub mod Panics
pub mod Logging
pub mod Permits
pub mod Endings
pub mod Remembering
pub mod Outcomes
pub mod Answers
pub mod Sessions
pub mod Callers
pub mod Nested
use Prim.Native.String.{String}
use cuirass.Prelude.{
  ℕ, Bool, true, false, ◌&&◌, Option, none, some, List, [], ◌∷◌, ◌++◌, ◌==◌, if◌then◌else◌,
}
use mathlib.Core.Option
use cuirass.Prelude.Options.{◌>>=◌}
use cuirass.Prelude.Words.{sub_int64}
use cuirass.Prelude.Maps.{string_eq, lookup, insert}
use cuirass.Util.Clock.{Clock, now, later}
use cuirass.Util.Errors.{
  GoError, semaphore_rejected, PanicValue, error_value, text_value, Call, returned, panicked,
}
use cuirass.Util.Semaphore.{Semaphore, try_acquire, release}
use cuirass.CircuitBreaker.{CircuitBreaker, new_circuit_breaker, is_open, Outcome, do_call}
use cuirass.RequestLog.{
  ExecutionEvent, success, failure, fallback_success, fallback_failure, ExecutionInfo,
  new_execution_info, execution_time, RequestLog, add_execution_info,
}
use cuirass.RequestCache
use cuirass.RequestCache.{RequestCache, ExecutedCommand}
use cuirass.Metrics.{
  ExecutionMetrics, new_execution_metrics, new_metrics_properties, update_command,
}
use cuirass.Properties.{PropertyFactory}
use cuirass.Command.{GoContext, CommandProperties, Command, is_cacheable}
use cuirass.SemaphoreFactory.{Semaphores, new_semaphore_factory, get_semaphore}
use cuirass.Executor.Panics.{event_of_panic, panic_to_error, events_of_fallback}

-- `cbMap`, whose lock makes `get` and `set` atomic.
abbrev pub CbMap : Type 0
CbMap = List (String × CircuitBreaker)

abbrev pub new_cb_map : CbMap
new_cb_map = []

abbrev pub get_breaker : String → CbMap → Option CircuitBreaker
get_breaker name m = lookup name m

abbrev pub set_breaker : String → CircuitBreaker → CbMap → CbMap
set_breaker name cb m = insert name cb m

-- The executor, what the context of the request holds, the two clocks (that of the executor, and
-- time.Now), and the world.
pub record State (V W : Type 0) : Type 0 where
  pub circuit_breakers : CbMap
  pub semaphores : Semaphores
  pub metrics : ExecutionMetrics
  pub request_cache : Option (RequestCache V)
  pub request_log : Option RequestLog
  pub clock : Clock
  pub wall : Clock
  pub world : W

-- What the function that is given to the breaker changes: the named result of `Exec`, the
-- semaphores and the world.
pub record Env (V W : Type 0) : Type 0 where
  pub response : Option V
  pub semaphores : Semaphores
  pub world : W

-- `NewExecutorWithClock`, with what the configuration reads and the clock; beside it the request and
-- the world in which it will run.
unfoldable pub new_executor_with_clock :
    {V W : Type 0}
    → PropertyFactory
    → Clock
    → Clock
    → Option (RequestCache V)
    → Option RequestLog
    → W
    → State V W
new_executor_with_clock cfg clock wall cache log world = record {
  circuit_breakers = new_cb_map;
  semaphores = new_semaphore_factory;
  metrics = new_execution_metrics (new_metrics_properties cfg);
  request_cache = cache;
  request_log = log;
  clock = clock;
  wall = wall;
  world = world;
}

-- `IsCircuitBreakerOpen`.
unfoldable pub is_circuit_breaker_open : {V W : Type 0} → String → State V W → Bool × State V W
is_circuit_breaker_open name s = elim (get_breaker name s.circuit_breakers) [
  | some cb ↦
      (let (b, cb', c') = is_open s.clock cb in
        (b, record s { circuit_breakers = set_breaker name cb' s.circuit_breakers; clock = c' }))
  | none ↦ (false, s)
]

-- What `Exec` returns: a value or nil, and an error or nil.
abbrev pub Reply : Type 0 → Type 0
Reply V = Option V × Option GoError

-- The context library, and the properties of a command by its name and group.
module _ (g : GoContext) (properties : String → String → CommandProperties) {V U : Type 0} where
  open g use {Context}

  -- The cache of the context, if the command may use it.
  unfoldable pub usable_cache :
      Command Context V U → Option (RequestCache V) → Option (RequestCache V)
  usable_cache cmd none = none
  usable_cache cmd (some cache) =
      if is_cacheable cmd && (properties cmd.name cmd.group).request_cache_enabled
      then some cache
      else none

-- A command is given as one whose functions act on any `U`: these do not call them.
module _ (g : GoContext) (properties : String → String → CommandProperties) {V U W : Type 0} where
  open g use {Context}

  unfoldable pub get_request_cache : Command Context V U → State V W → Option (RequestCache V)
  unfolding usable_cache
  get_request_cache cmd s = usable_cache g properties cmd s.request_cache

  -- `toExecutionInfo`, which reads the time.
  unfoldable pub to_execution_info :
      ℕ → List ExecutionEvent → Command Context V U → State V W → ExecutionInfo × State V W
  to_execution_info start events cmd s = (
    new_execution_info cmd.name (sub_int64 (now s.wall) start) events,
    record s { wall = later s.wall },
  )

  unfoldable pub log_request : ExecutionInfo → Command Context V U → State V W → Option (State V W)
  log_request info cmd s = do
    (metrics', clock') ←
        update_command info.command_name (execution_time info) info.events s.metrics s.clock
    let log' =
        (if (properties cmd.name cmd.group).request_log_enabled
          then Option.map (add_execution_info info) s.request_log
          else s.request_log)
    some (record s { metrics = metrics'; clock = clock'; request_log = log' })

  -- `e.logRequest(ctx, stats.toExecutionInfo(...), ...)`.
  unfoldable pub log_stats :
      ℕ → List ExecutionEvent → Command Context V U → State V W → Option (State V W)
  log_stats start events cmd s =
      let (info, s') = to_execution_info start events cmd s in log_request info cmd s'

  -- By what the map of the breakers holds.
  unfoldable pub breaker_or_new :
      Command Context V U → State V W → Option CircuitBreaker → Option (CircuitBreaker × State V W)
  breaker_or_new cmd s (some cb) = some (cb, s)
  breaker_or_new cmd s none = do
    (cb, c') ←
        new_circuit_breaker (properties cmd.name cmd.group).circuit_breaker
          s.metrics.props.health_snapshot_interval s.clock
    some
        (cb, record s { circuit_breakers = set_breaker cmd.name cb s.circuit_breakers; clock = c' })

  unfoldable pub get_circuit_breaker_for_command :
      Command Context V U → State V W → Option (CircuitBreaker × State V W)
  get_circuit_breaker_for_command cmd s =
      breaker_or_new cmd s (get_breaker cmd.name s.circuit_breakers)

  -- `cache.Add` at the end of the deferred function, where there is a cache.
  unfoldable pub remember_in :
      ℕ
      → List ExecutionEvent
      → Command Context V U
      → Reply V
      → State V W
      → Option (RequestCache V)
      → Reply V × State V W
  remember_in start events cmd reply s none = (reply, s)
  remember_in start events cmd reply s (some cache) =
      let (info, s') = to_execution_info start events cmd s in
      (
        reply,
        record s' {
          request_cache = some (RequestCache.add cmd.name cmd.cache_key info reply.0 reply.1 cache);
        },
      )

  unfoldable pub remember :
      ℕ → List ExecutionEvent → Command Context V U → Reply V → State V W → Reply V × State V W
  remember start events cmd reply s = remember_in start events cmd reply s (get_request_cache cmd s)

  -- `execFallback`, for the panic value `r`. Its `stats` are a copy, in which no events are yet. The
  -- fallback of the command is given beside it, as what it makes of the state.
  unfoldable pub exec_fallback_with :
      (State V W → Call (Option V × Option GoError) × State V W)
      → Command Context V U
      → ℕ
      → PanicValue
      → State V W
      → Option (Reply V × State V W)
  exec_fallback_with fallback cmd start r s = do
    let (out, s1) = fallback s
    let (reply, events) = events_of_fallback r out
    s' ← log_stats start (event_of_panic r ∷ events) cmd s1
    some (reply, s')

  -- The deferred function where it has recovered `r`, with the named results as they are then.
  unfoldable pub recovered_with :
      (State V W → Call (Option V × Option GoError) × State V W)
      → Command Context V U
      → ℕ
      → PanicValue
      → Reply V
      → State V W
      → Option (Reply V × State V W)
  recovered_with fallback cmd start r reply s =
      if (properties cmd.name cmd.group).fallback_enabled
      then (do
        (reply', s') ← exec_fallback_with fallback cmd start r s
        some (remember start [] cmd reply' s'))
      else (do s' ← log_stats start (failure ∷ []) cmd s; some (reply, s'))

  -- The end of `Exec`, by how the breaker's `Do` has ended; `v` is the named result.
  unfoldable pub finish_with :
      (State V W → Call (Option V × Option GoError) × State V W)
      → Command Context V U
      → ℕ
      → Option V
      → Call (Option GoError)
      → State V W
      → Option (Reply V × State V W)
  finish_with fallback cmd start v (returned none) s = do
    s' ← log_stats start (success ∷ []) cmd s
    some (remember start (success ∷ []) cmd (v, none) s')
  finish_with fallback cmd start v (returned (some e)) s =
      recovered_with fallback cmd start (error_value e) (v, some e) s
  finish_with fallback cmd start v (panicked p) s = recovered_with fallback cmd start p (v, none) s

  -- `Exec` behind its lookup in the cache, which is done before any statement with an effect. What is
  -- behind it is given as a function of the starting time and the state. A panic of `logRequest` on a cached
  -- response leaves the model of `Exec`; the deferred function, which would recover it, is left out there.
  unfoldable pub answer_with :
      (ℕ → State V W → Option (Reply V × State V W))
      → Command Context V U
      → ℕ
      → State V W
      → Option (ExecutedCommand V)
      → Option (Reply V × State V W)
  answer_with attempt cmd start s none = attempt start s
  answer_with attempt cmd start s (some ec) = do
    s' ← log_request ec.info cmd s
    some ((ec.response, ec.err), s')

module _ (g : GoContext) (properties : String → String → CommandProperties) {V W : Type 0} where
  open g use {Context, with_timeout, cancelled}

  -- The deferred release, of the semaphore that is held.
  unfoldable pub release_after :
      String
      → Semaphore
      → Call (Option GoError) × Env V W × Clock
      → Call (Option GoError) × Env V W × Clock
  release_after key sem (r, env, c) = elim (release sem) [
    | some sem' ↦ (r, record env { semaphores = insert key sem' env.semaphores }, c)
    | none ↦ (panicked (text_value "releasing on empty semaphore"), env, c)
  ]

  -- How the function given to the breaker goes on when `Run` has ended.
  unfoldable pub take_result :
      Env V W
      → Call (Option V × Option GoError) × W × Clock
      → Call (Option GoError) × Env V W × Clock
  take_result env (returned (v, e), w, c) = (returned e, record env { response = v; world = w }, c)
  take_result env (panicked p, w, c) = (panicked p, record env { world = w }, c)

  -- The function that `Exec` gives to the breaker.
  unfoldable pub guarded :
      Command Context V W → Context → Clock → Env V W → Call (Option GoError) × Env V W × Clock
  guarded cmd ctx c env =
      let (sem, sems) =
        get_semaphore cmd.group (properties cmd.name cmd.group).execution_max_concurrent_requests
          env.semaphores in
      let (acquired, held) = try_acquire sem in
      let env' : Env V W = record env { semaphores = insert cmd.group held sems } in
      if acquired
      then release_after cmd.group held (take_result env' (cmd.run ctx c env.world))
      else (returned (some semaphore_rejected), record env { semaphores = sems }, c)

  -- The fallback of a command that acts on the world alone.
  abbrev pub run_fallback :
      Context → Command Context V W → State V W → Call (Option V × Option GoError) × State V W
  run_fallback ctx cmd s =
      let (out, w', c') = cmd.fallback ctx s.clock s.world in
      (out, record s { world = w'; clock = c' })

  unfoldable pub exec_fallback :
      Context → Command Context V W → ℕ → PanicValue → State V W → Option (Reply V × State V W)
  unfolding exec_fallback_with
  exec_fallback ctx cmd = exec_fallback_with g properties (run_fallback ctx cmd) cmd

  unfoldable pub recovered :
      Context
      → Command Context V W
      → ℕ
      → PanicValue
      → Reply V
      → State V W
      → Option (Reply V × State V W)
  unfolding recovered_with
  recovered ctx cmd = recovered_with g properties (run_fallback ctx cmd) cmd

  unfoldable pub finish :
      Context
      → Command Context V W
      → ℕ
      → Option V
      → Call (Option GoError)
      → State V W
      → Option (Reply V × State V W)
  unfolding finish_with
  finish ctx cmd = finish_with g properties (run_fallback ctx cmd) cmd

  -- The part of `Exec` behind the lookup in the cache.
  unfoldable pub attempt :
      Context → Command Context V W → ℕ → State V W → Option (Reply V × State V W)
  attempt ctx cmd start s = do
    let timeout = (properties cmd.name cmd.group).execution_timeout
    let ctx' = if timeout == 0 then ctx else with_timeout ctx timeout
    let ctx'' = if timeout == 0 then ctx else cancelled ctx'
    (cb, s1) ← get_circuit_breaker_for_command g properties cmd s
    let env : Env V W = record { response = none; semaphores = s1.semaphores; world = s1.world }
    let o = do_call (guarded cmd ctx') env cb s1.clock
    finish ctx'' cmd start o.world.response o.result (record s1 {
      circuit_breakers = set_breaker cmd.name o.breaker s1.circuit_breakers;
      semaphores = o.world.semaphores;
      world = o.world.world;
      clock = o.clock;
    })

  unfoldable pub answer :
      Context
      → Command Context V W
      → ℕ
      → State V W
      → Option (ExecutedCommand V)
      → Option (Reply V × State V W)
  unfolding answer_with
  answer ctx cmd = answer_with g properties (attempt ctx cmd) cmd

  -- `Exec`.
  unfoldable pub exec : Context → Command Context V W → State V W → Option (Reply V × State V W)
  exec ctx cmd s =
      answer ctx cmd (now s.wall) (record s { wall = later s.wall })
        (get_request_cache g properties cmd s >>= RequestCache.get cmd.name cmd.cache_key)
