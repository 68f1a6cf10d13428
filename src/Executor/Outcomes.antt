-- ===== src/Executor/Outcomes.antt =====
-- executor.go: one call of `Exec`, what it leaves of the semaphores and what it caches.
use Prim.Native.String.{String}
use mathlib.Core.Path.{subst, ap₂}
use cuirass.Prelude.{ℕ, ◌≡◌, refl, sym, ap, ◌∙◌, true, Option, none, some, ◌==◌, if◌then◌else◌, inl}
use cuirass.Prelude.Options.{◌>>=◌, Returns, returns, >>=-Returns, Returns-map}
use cuirass.Prelude.Maps.{string_eq, lookup, insert}
use cuirass.Util.Clock.{now, later}
use cuirass.CircuitBreaker.{CircuitBreaker, do_call}
use cuirass.CircuitBreaker.Invariant.{new_circuit_breaker_total}
use cuirass.RequestCache
use cuirass.RequestCache.{RequestCache, ExecutedCommand, get-add, new_cache_key, same_key_iff}
use cuirass.Metrics.Totality
use cuirass.Command.{GoContext, CommandProperties, Command}
use cuirass.Executor.{
  State, Env, Reply, usable_cache, get_request_cache, get_circuit_breaker_for_command, guarded,
  breaker_or_new, answer, attempt, exec,
}
use cuirass.Executor.Logging.{log_request_total}
use cuirass.Executor.Permits.{Kept, guarded-Kept, do_call_world}
use cuirass.Executor.Endings.{max_requests, stored, Caches, Done, finish-Ended}

module _ (g : GoContext) (properties : String → String → CommandProperties) {V U W : Type 0}
    (cmd : Command g.Context V U) where
  -- The breaker of the command is there or is made.
  pub breaker_total :
      (s : State V W)
      → Returns
          (λ (r : CircuitBreaker × State V W).
            (r.1.semaphores ≡ s.semaphores)
            × (r.1.request_cache ≡ s.request_cache)
            × (r.1.metrics ≡ s.metrics)
            × (r.1.world ≡ s.world)
            × (r.1.request_log ≡ s.request_log))
          (get_circuit_breaker_for_command g properties cmd s)
  unfolding get_circuit_breaker_for_command breaker_or_new
  breaker_total s = by_lookup (lookup cmd.name s.circuit_breakers)
    where
      by_lookup :
          (o : Option CircuitBreaker)
          → Returns
              (λ (r : CircuitBreaker × State V W).
                (r.1.semaphores ≡ s.semaphores)
                × (r.1.request_cache ≡ s.request_cache)
                × (r.1.metrics ≡ s.metrics)
                × (r.1.world ≡ s.world)
                × (r.1.request_log ≡ s.request_log))
              (breaker_or_new g properties cmd s o)
      by_lookup (some cb) = returns _ (refl, refl, refl, refl, refl)
      by_lookup none =
          rw
            (new_circuit_breaker_total (properties cmd.name cmd.group).circuit_breaker
              s.metrics.props.health_snapshot_interval s.clock).1
            (returns _ (refl, refl, refl, refl, refl))

module _ (g : GoContext) (properties : String → String → CommandProperties) {V W : Type 0}
    (cmd : Command g.Context V W) where
  attempt-Done :
      (ctx : g.Context) (start : ℕ) (s : State V W)
      → Totality.IsValid s.metrics
      → Returns (Done g properties cmd s) (attempt g properties ctx cmd start s)
  unfolding attempt
  attempt-Done ctx start s v =
      let timeout = (properties cmd.name cmd.group).execution_timeout in
      let ctx' = if timeout == 0 then ctx else g.with_timeout ctx timeout in
      let ctx'' = if timeout == 0 then ctx else g.cancelled ctx' in
      >>=-Returns (breaker_total g properties cmd s)
        (λ (cb, s1) (same_semaphores, same_cache, same_metrics, same_world, same_log).
          let env : Env V W = record {
            response = none;
            semaphores = s1.semaphores;
            world = s1.world;
          } in
          let o = do_call (guarded g properties cmd ctx') env cb s1.clock in
          let s2 : State V W = record s1 {
            circuit_breakers = insert cmd.name o.breaker s1.circuit_breakers;
            semaphores = o.world.semaphores;
            world = o.world.world;
            clock = o.clock;
          } in
          Returns-map
            (finish-Ended g properties cmd ctx'' start o.world.response o.result s2
              (subst Totality.IsValid (sym same_metrics) v))
            (λ r e. record {
              metrics_valid = e.valid;
              permits_kept =
                  subst (λ m. Kept cmd.group (max_requests g properties cmd) s.semaphores m)
                    (sym e.semaphores_same)
                    (subst
                      (λ m. Kept cmd.group (max_requests g properties cmd) m o.world.semaphores)
                      same_semaphores
                      (do_call_world
                        (λ (w : Env V W).
                          Kept cmd.group (max_requests g properties cmd) s1.semaphores w.semaphores)
                        (guarded g properties cmd ctx') env cb s1.clock (inl refl)
                        (λ c'. guarded-Kept g properties cmd ctx' c' env)));
              replays = λ on c. e.replays_reply on (record {
                allowed_cache = c.allowed_cache;
                cache = c.cache;
                in_context = same_cache ∙ c.in_context;
              });
            }))

  -- The parts of the state that a reply from the cache leaves alone.
  pub record Untouched (s s' : State V W) : Type 0 where
    pub world_same : s'.world ≡ s.world
    pub breakers_same : s'.circuit_breakers ≡ s.circuit_breakers
    pub semaphores_same : s'.semaphores ≡ s.semaphores
    pub cache_same : s'.request_cache ≡ s.request_cache

  stored-same :
      (s s' : State V W)
      → s'.request_cache ≡ s.request_cache
      → stored g properties cmd s' ≡ stored g properties cmd s
  unfolding get_request_cache
  stored-same s s' e =
      ap (λ o. usable_cache g properties cmd o >>= RequestCache.get cmd.name cmd.cache_key) e

  answer_hit :
      (ctx : g.Context) (start : ℕ) (s : State V W) (ec : ExecutedCommand V)
      → Totality.IsValid s.metrics
      → Returns
          (λ r. (r.0 ≡ (ec.response, ec.err)) × Untouched s r.1 × Totality.IsValid r.1.metrics)
          (answer g properties ctx cmd start s (some ec))
  unfolding answer
  answer_hit ctx start s ec v =
      >>=-Returns (log_request_total g properties cmd ec.info s v) (λ s' l. returns _ (
        refl,
        record {
          world_same = l.0.same_world;
          breakers_same = l.0.same_breakers;
          semaphores_same = l.0.same_semaphores;
          cache_same = l.0.same_cache;
        },
        l.0.metrics_valid,
      ))

  -- On valid metrics `Exec` replies with the response and the error that it finds in the cache, and
  -- nothing runs for it: the world, the breakers, the semaphores and the cache stay as they are, and
  -- the metrics stay valid.
  pub exec_hit :
      (ctx : g.Context) (s : State V W) (ec : ExecutedCommand V)
      → Totality.IsValid s.metrics
      → stored g properties cmd s ≡ some ec
      → Returns
          (λ r. (r.0 ≡ (ec.response, ec.err)) × Untouched s r.1 × Totality.IsValid r.1.metrics)
          (exec g properties ctx cmd s)
  unfolding exec
  exec_hit ctx s ec v e =
      let s0 : State V W = record s { wall = later s.wall } in
      subst
        (λ o.
          Returns
            (λ r. (r.0 ≡ (ec.response, ec.err)) × Untouched s r.1 × Totality.IsValid r.1.metrics)
            (answer g properties ctx cmd (now s.wall) s0 o))
        (sym e)
        (Returns-map (answer_hit ctx (now s.wall) s0 ec v) (λ r p. (
          p.0,
          record {
            world_same = p.1.world_same;
            breakers_same = p.1.breakers_same;
            semaphores_same = p.1.semaphores_same;
            cache_same = p.1.cache_same;
          },
          p.2,
        )))

  answer-Done :
      (ctx : g.Context) (start : ℕ) (s : State V W) (o : Option (ExecutedCommand V))
      → Totality.IsValid s.metrics
      → stored g properties cmd s ≡ o
      → Returns (Done g properties cmd s) (answer g properties ctx cmd start s o)
  answer-Done ctx start s none v e = unfold answer in attempt-Done ctx start s v
  answer-Done ctx start s (some ec) v e = Returns-map (answer_hit ctx start s ec v) (λ r p. record {
    metrics_valid = p.2;
    permits_kept = inl p.1.semaphores_same;
    replays = λ on c. record {
      found = ec;
      is_stored = stored-same s r.1 p.1.cache_same ∙ e;
      same_response = sym (ap (λ (q : Reply V). q.0) p.0);
      same_err = sym (ap (λ (q : Reply V). q.1) p.0);
    };
  })

  pub exec-Done :
      (ctx : g.Context) (s : State V W)
      → Totality.IsValid s.metrics
      → Returns (Done g properties cmd s) (exec g properties ctx cmd s)
  unfolding exec
  exec-Done ctx s v =
      let s0 : State V W = record s { wall = later s.wall } in
      Returns-map
        (answer-Done ctx (now s.wall) s0 (stored g properties cmd s) v (stored-same s s0 refl))
        (λ r d. record {
          metrics_valid = d.metrics_valid;
          permits_kept = d.permits_kept;
          replays = λ on c. d.replays on (record {
            allowed_cache = c.allowed_cache;
            cache = c.cache;
            in_context = c.in_context;
          });
        })

  -- On valid metrics no panic leaves `Exec`, whatever the functions of the command do: return a
  -- value, return an error or panic. It leaves valid metrics, and holds no permit that was not held
  -- before.
  pub exec-Returns :
      (ctx : g.Context) (s : State V W)
      → Totality.IsValid s.metrics
      → Returns
          (λ (reply, s').
            Totality.IsValid s'.metrics
            × Kept cmd.group (max_requests g properties cmd) s.semaphores s'.semaphores)
          (exec g properties ctx cmd s)
  exec-Returns ctx s v = Returns-map (exec-Done ctx s v) (λ r d. (d.metrics_valid, d.permits_kept))

  -- Executing a command again in the same request runs nothing: where the metrics are valid, the
  -- context has a cache, the response may be cached and failures have a fallback, the first call
  -- returns, and the second, under any context, returns the reply of the first and leaves the
  -- world, the breakers, the semaphores and the cache alone.
  pub exec_twice :
      (ctx ctx' : g.Context) (s : State V W)
      → Totality.IsValid s.metrics
      → (properties cmd.name cmd.group).fallback_enabled ≡ true
      → Caches g properties cmd s
      → Returns
          (λ (reply, s').
            Returns
              (λ (reply', s''). (reply' ≡ reply) × Untouched s' s'')
              (exec g properties ctx' cmd s'))
          (exec g properties ctx cmd s)
  exec_twice ctx ctx' s v on c = Returns-map (exec-Done ctx s v) (λ (reply, s') d.
      let r = d.replays on c in
      Returns-map (exec_hit ctx' s' r.found d.metrics_valid r.is_stored)
        (λ q p. (p.0 ∙ ap₂ (λ a b. (a, b)) r.same_response r.same_err, p.1)))
