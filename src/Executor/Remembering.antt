-- ===== src/Executor/Remembering.antt =====
-- executor.go: the events that the cache holds of a call of `Exec`.
use Prim.Native.String.{String}
use cuirass.Prelude.{ℕ, ◌≡◌, refl, ◌∙◌, true, Option, none, some, List, [], ◌∷◌, ◌++◌}
use cuirass.Prelude.Options.{Returns, returns, >>=-Returns}
use cuirass.Util.Clock.{later}
use cuirass.Util.Errors.{GoError, PanicValue, error_value, Call, returned, panicked}
use cuirass.RequestLog.{ExecutionEvent, success, response_from_cache, new_execution_info}
use cuirass.RequestCache
use cuirass.RequestCache.{RequestCache, ExecutedCommand}
use cuirass.Metrics.Totality
use cuirass.Command.{GoContext, CommandProperties, Command}
use cuirass.Executor.{
  State, Reply, to_execution_info, remember_in, remember, exec_fallback, recovered, recovered_with,
  finish,
}
use cuirass.Executor.Panics.{event_of_panic, events_of_fallback}
use cuirass.Executor.Logging.{Logged, log_stats_total}
use cuirass.Executor.Endings.{Caches, stored, stored-add, get_request_cache-some}

-- The events that `Exec` itself has added when it caches, by how the breaker's `Do` ended.
abbrev pub own_events : Call (Option GoError) → List ExecutionEvent
own_events (returned none) = success ∷ []
own_events (returned (some e)) = []
own_events (panicked p) = []

module _ (g : GoContext) (properties : String → String → CommandProperties) {V W : Type 0}
    (cmd : Command g.Context V W) where
  -- The cache holds the reply, with these events and that of a cached response behind them.
  pub record Stores (events : List ExecutionEvent) (r : Reply V × State V W) : Type 0 where
    pub found : ExecutedCommand V
    pub is_stored : stored g properties cmd r.1 ≡ some found
    pub same_reply : (found.response, found.err) ≡ r.0
    pub of_events : found.info.events ≡ events ++ (response_from_cache ∷ [])
    pub of_command : found.info.command_name ≡ cmd.name

  remember-Stores :
      (start : ℕ) (events : List ExecutionEvent) (reply : Reply V) (s : State V W)
      → Caches g properties cmd s
      → Stores events (remember g properties start events cmd reply s)
  unfolding remember remember_in to_execution_info new_execution_info
  remember-Stores start events reply s c =
      rw (get_request_cache-some g properties cmd s c.cache c.allowed_cache c.in_context) (
        let info = (to_execution_info g properties start events cmd s).0 in
        record {
          found = RequestCache.cached info reply.0 reply.1;
          is_stored =
              stored-add g properties cmd info reply (record s { wall = later s.wall }) c.cache
                c.allowed_cache;
          same_reply = refl;
          of_events = refl;
          of_command = refl;
        })

  Logged-Stores :
      (start : ℕ) (events : List ExecutionEvent) (reply : Reply V) (s s' : State V W)
      → Caches g properties cmd s
      → Logged s s'
      → Stores events (remember g properties start events cmd reply s')
  Logged-Stores start events reply s s' c l = remember-Stores start events reply s' (record {
    allowed_cache = c.allowed_cache;
    cache = c.cache;
    in_context = l.same_cache ∙ c.in_context;
  })

  recovered-Stores :
      (ctx : g.Context) (start : ℕ) (p : PanicValue) (reply : Reply V) (s : State V W)
      → Totality.IsValid s.metrics
      → (properties cmd.name cmd.group).fallback_enabled ≡ true
      → Caches g properties cmd s
      → Returns (Stores []) (recovered g properties ctx cmd start p reply s)
  unfolding recovered exec_fallback
  recovered-Stores ctx start p reply s v on c =
      let (out, w', c') = cmd.fallback ctx s.clock s.world in
      let s1 : State V W = record s { world = w'; clock = c' } in
      let (reply', events) = events_of_fallback p out in
      rw on (
        >>=-Returns {P = λ (r : Reply V × State V W). Logged s1 r.1}
          (>>=-Returns (log_stats_total g properties cmd start (event_of_panic p ∷ events) s1 v)
            (λ s' l. returns _ l.0))
          (λ (reply'', s') l. returns _ (
            Logged-Stores start [] reply'' s1 s'
              (record {
                allowed_cache = c.allowed_cache;
                cache = c.cache;
                in_context = c.in_context;
              })
              l)))

  -- Where the fallback is enabled and the response may be cached, the deferred function of `Exec`
  -- returns on valid metrics, and the cache gives back the reply. The events that it holds are those
  -- of a success and of a cached response where `Do` returned no error. For every failure they are
  -- that of a cached response alone, whatever the failure was and however the fallback ended.
  pub finish-Stores :
      (ctx : g.Context) (start : ℕ) (v : Option V) (r : Call (Option GoError)) (s : State V W)
      → Totality.IsValid s.metrics
      → (properties cmd.name cmd.group).fallback_enabled ≡ true
      → Caches g properties cmd s
      → Returns (Stores (own_events r)) (finish g properties ctx cmd start v r s)
  unfolding finish recovered recovered_with
  finish-Stores ctx start v (returned none) s ok on c =
      >>=-Returns (log_stats_total g properties cmd start (success ∷ []) s ok)
        (λ s' l. returns _ (Logged-Stores start (success ∷ []) (v, none) s s' c l.0))
  finish-Stores ctx start v (returned (some e)) s ok on c =
      recovered-Stores ctx start (error_value e) (v, some e) s ok on c
  finish-Stores ctx start v (panicked p) s ok on c =
      recovered-Stores ctx start p (v, none) s ok on c
