-- ===== src/Executor/Nested/Agreement.antt =====
-- executor.go: a command that does not call the executor, in both models of `Exec`.
use Prim.Native.String.{String}
use mathlib.Core.Path.{ap₂}
use cuirass.Prelude.{ℕ, ◌≡◌, refl, ap, ◌∙◌, Option, none, some, List, [], ◌∷◌, ◌==◌, if◌then◌else◌}
use cuirass.Prelude.Options.{◌>>=◌}
use cuirass.Prelude.Maps.{string_eq}
use cuirass.Util.Clock.{now, later}
use cuirass.Util.Errors.{GoError, PanicValue, error_value, Call, returned, panicked}
use cuirass.CircuitBreaker.{CircuitBreaker}
use cuirass.RequestLog.{ExecutionEvent, success, failure}
use cuirass.RequestCache
use cuirass.RequestCache.{RequestCache, ExecutedCommand}
use cuirass.Command.{GoContext, CommandProperties, Command, is_cacheable}
use cuirass.Executor.{
  State, Reply, get_breaker, usable_cache, get_request_cache, to_execution_info, log_request,
  log_stats, breaker_or_new, get_circuit_breaker_for_command, remember_in, remember,
  exec_fallback_with, recovered_with, finish_with, answer_with, guarded, exec_fallback, recovered,
  finish, attempt, answer, exec,
}
use cuirass.Executor.Nested.{call_function, do_in, guarded_in, attempt_in, exec_in}
use cuirass.Executor.Nested.Plain.{plain, guarded_in-plain, do_in-do_call}

module _ (g : GoContext) (properties : String → String → CommandProperties) {V W : Type 0}
    (cmd : Command g.Context V W) where
  bind_congr :
      {A B : Type 0} {f f' : A → Option B} (o : Option A)
      → ((a : A) → f a ≡ f' a)
      → (o >>= f) ≡ (o >>= f')
  bind_congr none h = refl
  bind_congr (some a) h = h a

  log_stats-plain :
      (start : ℕ) (events : List ExecutionEvent) (s : State V W)
      → log_stats g properties start events (plain cmd) s
        ≡ log_stats g properties start events cmd s
  unfolding log_stats to_execution_info log_request
  log_stats-plain start events s = refl

  usable_cache-plain :
      (o : Option (RequestCache V))
      → usable_cache g properties (plain cmd) o ≡ usable_cache g properties cmd o
  unfolding usable_cache is_cacheable
  usable_cache-plain none = refl
  usable_cache-plain (some cache) = refl

  remember-plain :
      (start : ℕ) (events : List ExecutionEvent) (reply : Reply V) (s : State V W)
      → remember g properties start events (plain cmd) reply s
        ≡ remember g properties start events cmd reply s
  unfolding remember get_request_cache
  remember-plain start events reply s =
      rw (usable_cache-plain s.request_cache)
        (by_cache (usable_cache g properties cmd s.request_cache))
    where
      by_cache :
          (o : Option (RequestCache V))
          → remember_in g properties start events (plain cmd) reply s o
            ≡ remember_in g properties start events cmd reply s o
      by_cache none = unfold remember_in in refl
      by_cache (some cache) = unfold remember_in to_execution_info in refl

  exec_fallback-plain :
      (ctx : g.Context) (start : ℕ) (p : PanicValue) (s : State V W)
      → exec_fallback_with g properties
          (call_function (plain cmd).fallback ctx)
          (plain cmd)
          start
          p
          s
        ≡ exec_fallback g properties ctx cmd start p s
  unfolding exec_fallback exec_fallback_with log_stats to_execution_info log_request
  exec_fallback-plain ctx start p s = refl

  recovered-plain :
      (ctx : g.Context) (start : ℕ) (p : PanicValue) (reply : Reply V) (s : State V W)
      → recovered_with g properties
          (call_function (plain cmd).fallback ctx)
          (plain cmd)
          start
          p
          reply
          s
        ≡ recovered g properties ctx cmd start p reply s
  unfolding recovered recovered_with exec_fallback_with exec_fallback
  recovered-plain ctx start p reply s =
      ap₂ (if◌then◌else◌ (properties cmd.name cmd.group).fallback_enabled)
        (ap
            (λ o.
              o >>= (λ (reply', s'). some (remember g properties start [] (plain cmd) reply' s')))
            (exec_fallback-plain ctx start p s)
          ∙ bind_congr (exec_fallback g properties ctx cmd start p s)
              (λ (reply', s'). ap some (remember-plain start [] reply' s')))
        (ap (λ o. o >>= (λ s'. some (reply, s'))) (log_stats-plain start (failure ∷ []) s))

  finish-plain :
      (ctx : g.Context) (start : ℕ) (v : Option V) (r : Call (Option GoError)) (s : State V W)
      → finish_with g properties (call_function (plain cmd).fallback ctx) (plain cmd) start v r s
        ≡ finish g properties ctx cmd start v r s
  unfolding finish finish_with
  finish-plain ctx start v (returned none) s =
      ap
        (λ o.
          o >>= (λ s'. some (remember g properties start (success ∷ []) (plain cmd) (v, none) s')))
        (log_stats-plain start (success ∷ []) s)
      ∙ bind_congr (log_stats g properties start (success ∷ []) cmd s)
          (λ s'. ap some (remember-plain start (success ∷ []) (v, none) s'))
  finish-plain ctx start v (returned (some e)) s =
      unfold recovered in recovered-plain ctx start (error_value e) (v, some e) s
  finish-plain ctx start v (panicked p) s =
      unfold recovered in recovered-plain ctx start p (v, none) s

  attempt_in-plain :
      (ctx : g.Context) (start : ℕ) (s : State V W)
      → attempt_in g properties ctx (plain cmd) start s ≡ attempt g properties ctx cmd start s
  unfolding attempt_in attempt get_circuit_breaker_for_command
  attempt_in-plain ctx start s =
      let timeout = (properties cmd.name cmd.group).execution_timeout in
      let ctx' = if timeout == 0 then ctx else g.with_timeout ctx timeout in
      let ctx'' = if timeout == 0 then ctx else g.cancelled ctx' in
      ap
        (λ o. o >>= (λ (cb, s1).
          let (r, v, s2) = do_in cmd.name (guarded_in g properties (plain cmd) ctx') cb s1 in
          finish_with g properties (call_function (plain cmd).fallback ctx'') (plain cmd) start v r
            s2))
        (same_breaker (get_breaker cmd.name s.circuit_breakers))
      ∙ bind_congr (breaker_or_new g properties cmd s (get_breaker cmd.name s.circuit_breakers))
          (λ (cb, s1).
            ap
              (λ e.
                finish_with g properties (call_function (plain cmd).fallback ctx'') (plain cmd)
                  start e.1 e.0 e.2)
              (do_in-do_call cmd.name (guarded g properties cmd ctx')
                (guarded_in g properties (plain cmd) ctx') cb s1
                (guarded_in-plain g properties cmd ctx'))
            ∙ finish-plain ctx'' start _ _ _)
    where
      same_breaker :
          (o : Option CircuitBreaker)
          → breaker_or_new g properties (plain cmd) s o ≡ breaker_or_new g properties cmd s o
      same_breaker none = unfold breaker_or_new in refl
      same_breaker (some cb) = unfold breaker_or_new in refl

  answer_in-plain :
      (ctx : g.Context) (start : ℕ) (s : State V W) (o : Option (ExecutedCommand V))
      → answer_with g properties (attempt_in g properties ctx (plain cmd)) (plain cmd) start s o
        ≡ answer g properties ctx cmd start s o
  unfolding answer answer_with log_request
  answer_in-plain ctx start s none = attempt_in-plain ctx start s
  answer_in-plain ctx start s (some ec) = refl

  -- For a command that acts on the world of the executor's state alone, both models of `Exec` are the
  -- same: from every state, the same reply and the same state, or the same panic.
  pub exec_in-exec :
      (ctx : g.Context) (s : State V W)
      → exec_in g properties ctx (plain cmd) s ≡ exec g properties ctx cmd s
  unfolding exec_in exec get_request_cache
  exec_in-exec ctx s =
      ap
        (λ o.
          answer_with g properties (attempt_in g properties ctx (plain cmd)) (plain cmd)
            (now s.wall) (record s { wall = later s.wall })
            (o >>= RequestCache.get cmd.name cmd.cache_key))
        (usable_cache-plain s.request_cache)
      ∙ answer_in-plain ctx (now s.wall) (record s { wall = later s.wall })
          (usable_cache g properties cmd s.request_cache
            >>= RequestCache.get cmd.name cmd.cache_key)
