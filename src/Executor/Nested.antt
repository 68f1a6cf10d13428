-- ===== src/Executor/Nested.antt =====
-- executor.go, for commands whose functions may call the executor again: they act on its state, and
-- read its clock there. A semaphore and a breaker are shared, so the state holds them while the function
-- runs. The number of requests of a group is one for all its commands, as it is read by the group:
-- so no call replaces a semaphore that another holds.
pub mod Keeping
pub mod Releasing
pub mod Guarding
pub mod Conduct
pub mod Finishing
pub mod Replying
pub mod Execs
pub mod Plain
pub mod Agreement
use Prim.Native.String.{String}
use cuirass.Prelude.{ℕ, Bool, true, false, Option, none, some, ◌==◌, if◌then◌else◌}
use cuirass.Prelude.Options.{◌>>=◌}
use cuirass.Prelude.Maps.{string_eq, lookup, insert}
use cuirass.Util.Clock.{now, later}
use cuirass.Util.Errors.{
  GoError, circuit_open_error, semaphore_rejected, text_value, Call, returned, panicked,
}
use cuirass.Util.Semaphore.{Semaphore, try_acquire, release}
use cuirass.CircuitBreaker.{
  CircuitBreaker, Verdict, unguarded, forced, allowed, rejected, admit, settle,
}
use cuirass.CircuitBreaker.HealthCounters.{inc_error}
use cuirass.RequestCache
use cuirass.Command.{GoContext, CommandProperties, Command, CommandFunc}
use cuirass.SemaphoreFactory.{get_semaphore}
use cuirass.Executor.{
  State, Reply, get_breaker, set_breaker, get_request_cache, get_circuit_breaker_for_command,
  finish_with, answer_with,
}

-- The clock that the function is given is that of the state, and the one that it returns is put there.
abbrev pub call_function :
    {C V W : Type 0}
    → CommandFunc C V (State V W)
    → C
    → State V W
    → Call (Option V × Option GoError) × State V W
call_function f ctx s = let (r, s', c') = f ctx s.clock s in (r, record s' { clock = c' })

-- How the function that is given to the breaker ends, the named result of `Exec` with it.
abbrev pub Ending : Type 0 → Type 0 → Type 0
Ending V W = Call (Option GoError) × Option V × State V W

module _ {V W : Type 0} where
  -- By what the release of the semaphore gives back; `none` is its panic.
  unfoldable pub put_released : String → Ending V W → Option Semaphore → Ending V W
  put_released group (r, v, s) (some sem) =
      (r, v, record s { semaphores = insert group sem s.semaphores })
  put_released group (r, v, s) none = (panicked (text_value "releasing on empty semaphore"), v, s)

  -- By the semaphore that the group has. One that was acquired is there.
  unfoldable pub release_found : String → Ending V W → Option Semaphore → Ending V W
  release_found group e (some sem) = put_released group e (release sem)
  release_found group e none = e

  -- The deferred release of the permit of a group.
  unfoldable pub release_in : String → Ending V W → Ending V W
  release_in group (r, v, s) = release_found group (r, v, s) (lookup group s.semaphores)

  unfoldable pub end_of : Call (Option V × Option GoError) × State V W → Ending V W
  end_of (returned (v, e), s) = (returned e, v, s)
  end_of (panicked p, s) = (panicked p, none, s)

  -- The breaker as it is now; `cb` if there were none.
  unfoldable pub breaker_of : String → CircuitBreaker → State V W → CircuitBreaker
  breaker_of name cb s = elim (get_breaker name s.circuit_breakers) [ some cb' ↦ cb' | none ↦ cb ]

  abbrev pub put_breaker : String → CircuitBreaker → State V W → State V W
  put_breaker name cb s = record s { circuit_breakers = set_breaker name cb s.circuit_breakers }

  -- The part of `Do` behind the call of the function.
  unfoldable pub conclude_in : String → Bool → CircuitBreaker → Ending V W → Ending V W
  conclude_in name trial cb (panicked p, v, s) = (panicked p, v, s)
  conclude_in name trial cb (returned e, v, s) =
      let (e', cb', c') = settle trial e s.clock (breaker_of name cb s) in
      (returned e', v, record (put_breaker name cb' s) { clock = c' })

  unfoldable pub proceed_in :
      String → Verdict → (State V W → Ending V W) → CircuitBreaker → State V W → Ending V W
  proceed_in name unguarded f cb s = f s
  proceed_in name forced f cb s = (returned (some circuit_open_error), none, s)
  proceed_in name (allowed trial) f cb s = conclude_in name trial cb (f s)
  proceed_in name rejected f cb s =
      let (hs, c') = inc_error s.clock cb.health_of in
      (
        returned (some circuit_open_error),
        none,
        record (put_breaker name (record cb { health_of = hs }) s) { clock = c' },
      )

  -- `Do` of the breaker of a command.
  unfoldable pub do_in : String → (State V W → Ending V W) → CircuitBreaker → State V W → Ending V W
  do_in name f cb s =
      let (v, cb', c') = admit s.clock cb in
      proceed_in name v f cb' (record (put_breaker name cb' s) { clock = c' })

module _ (g : GoContext) (properties : String → String → CommandProperties) {V W : Type 0} where
  open g use {Context, with_timeout, cancelled}

  -- The function that `Exec` gives to the breaker.
  unfoldable pub guarded_in : Command Context V (State V W) → Context → State V W → Ending V W
  guarded_in cmd ctx s =
      let (sem, sems) =
        get_semaphore cmd.group (properties cmd.name cmd.group).execution_max_concurrent_requests
          s.semaphores in
      let (acquired, held) = try_acquire sem in
      let s' : State V W = record s { semaphores = insert cmd.group held sems } in
      if acquired
      then release_in cmd.group (end_of (call_function cmd.run ctx s'))
      else (returned (some semaphore_rejected), none, record s { semaphores = sems })

  -- The part of `Exec` behind the lookup in the cache.
  unfoldable pub attempt_in :
      Context → Command Context V (State V W) → ℕ → State V W → Option (Reply V × State V W)
  attempt_in ctx cmd start s = do
    let timeout = (properties cmd.name cmd.group).execution_timeout
    let ctx' = if timeout == 0 then ctx else with_timeout ctx timeout
    let ctx'' = if timeout == 0 then ctx else cancelled ctx'
    (cb, s1) ← get_circuit_breaker_for_command g properties cmd s
    let (r, v, s2) = do_in cmd.name (guarded_in cmd ctx') cb s1
    finish_with g properties (call_function cmd.fallback ctx'') cmd start v r s2

  -- `Exec`.
  unfoldable pub exec_in :
      Context → Command Context V (State V W) → State V W → Option (Reply V × State V W)
  exec_in ctx cmd s =
      answer_with g properties (attempt_in ctx cmd) cmd (now s.wall)
        (record s { wall = later s.wall })
        (get_request_cache g properties cmd s >>= RequestCache.get cmd.name cmd.cache_key)
