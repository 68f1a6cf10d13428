-- ===== src/Executor/Nested/Execs.antt =====
-- executor.go, with nested calls: one whole call of `Exec`.
use Prim.Native.String.{String}
use mathlib.Core.Path.{subst}
use cuirass.Prelude.{
  ℕ, ◌≡◌, refl, sym, ap, ◌∙◌, Bool, true, false, Option, none, some, ◌==◌, if◌then◌else◌,
}
use cuirass.Prelude.Options.{◌>>=◌, Returns, returns, >>=-Returns, Returns-map}
use cuirass.Prelude.Maps.{string_eq}
use cuirass.Util.Clock.{now, later}
use cuirass.RequestCache
use cuirass.RequestCache.{RequestCache, ExecutedCommand, CacheKey, key_eq, new_cache_key}
use cuirass.Metrics.Totality
use cuirass.Command.{GoContext, CommandProperties, Command}
use cuirass.Executor.{State, Reply, usable_cache, get_request_cache, answer_with}
use cuirass.Executor.Logging.{log_request_total}
use cuirass.Executor.Endings.{may_cache}
use cuirass.Executor.Outcomes.{breaker_total}
use cuirass.Executor.Nested.{call_function, guarded_in, do_in, attempt_in, exec_in}
use cuirass.Executor.Nested.Keeping.{
  Keeps, IsReady, Careful, Fine, Keeps-trans, same-Keeps, Logged-Keeps, held_under,
}
use cuirass.Executor.Nested.Guarding.{guarded_in-Ends}
use cuirass.Executor.Nested.Conduct.{do_in-Ends}
use cuirass.Executor.Nested.Finishing.{Others, Unpinned, Replies}
use cuirass.Executor.Nested.Replying.{Anything, Anything-Keeps, finish-Replies}

module _ (g : GoContext) (properties : String → String → CommandProperties) {V W : Type 0}
    (max : String → ℕ) (T : String → Option V → Type 0) (G : W → Type 0)
    (Pins : CacheKey → ExecutedCommand V → Type 0) (cmd : Command g.Context V (State V W)) where
  -- What `Exec` relies on of a command: its properties have a fallback and the number of requests of
  -- its group, and its functions are careful.
  pub record IsSound : Type 0 where
    pub fallback_on : (properties cmd.name cmd.group).fallback_enabled ≡ true
    pub same_max : (properties cmd.name cmd.group).execution_max_concurrent_requests ≡ max cmd.group
    pub careful_run :
        (ctx : g.Context)
        → Careful max T G Pins Anything cmd.name (call_function {W = W} cmd.run ctx)
    pub careful_fallback :
        (ctx : g.Context)
        → Careful max T G Pins Anything cmd.name (call_function {W = W} cmd.fallback ctx)

  -- What a call of `Exec` finds in the cache.
  abbrev pub stored_in : State V W → Option (ExecutedCommand V)
  stored_in s = get_request_cache g properties cmd s >>= RequestCache.get cmd.name cmd.cache_key

  -- It is what is under the key of the command, if its responses may be cached.
  pub stored_in_lem :
      (s : State V W)
      → stored_in s ≡ (
          if may_cache g properties cmd
          then held_under (new_cache_key cmd.name cmd.cache_key) s.request_cache
          else none)
  unfolding get_request_cache usable_cache RequestCache.get
  stored_in_lem s = by_cache s.request_cache (may_cache g properties cmd) refl
    where
      by_cache :
          (o : Option (RequestCache V)) (b : Bool)
          → may_cache g properties cmd ≡ b
          → (usable_cache g properties cmd o >>= RequestCache.get cmd.name cmd.cache_key)
            ≡ (if b then held_under (new_cache_key cmd.name cmd.cache_key) o else none)
      by_cache none true m = refl
      by_cache none false m = refl
      by_cache (some cache) true m = rw m refl
      by_cache (some cache) false m = rw m refl

  -- What is found has a fine response.
  stored_in-Fine :
      (s : State V W) (ec : ExecutedCommand V)
      → IsReady max T G Pins s
      → stored_in s ≡ some ec
      → Fine T cmd.name ec.response ec.err
  stored_in-Fine s ec r e = by_may (may_cache g properties cmd) (sym (stored_in_lem s) ∙ e)
    where
      by_may :
          (b : Bool)
          → (if b then held_under (new_cache_key cmd.name cmd.cache_key) s.request_cache else none)
            ≡ some ec
          → Fine T cmd.name ec.response ec.err
      by_may true h = r.cached_fine (new_cache_key cmd.name cmd.cache_key) ec h
      by_may false h = cc h

  -- Where the command's own key had nothing, it is one of the keys that are kept.
  Others-Anything :
      (s : State V W) (r : Reply V × State V W)
      → stored_in s ≡ none
      → Replies g properties max T G Pins cmd (Others g properties max T G Pins cmd) s r
      → Replies g properties max T G Pins cmd Anything s r
  Others-Anything s r absent k = (
    record {
      ready = k.0.ready;
      same_held = k.0.same_held;
      log_stays = k.0.log_stays;
      still_cached = λ key ec a e.
          k.0.still_cached key ec
            (λ m same.
              cc (e, ap (λ j. held_under j s.request_cache) same, stored_in_lem s, m, absent))
            e;
    },
    k.1,
  )

  -- Nothing is pinned where nothing is found.
  absent-Unpinned :
      (s : State V W)
      → IsReady max T G Pins s
      → stored_in s ≡ none
      → Unpinned g properties max T G Pins cmd
  absent-Unpinned s r absent m ec p =
      cc (r.pinned (new_cache_key cmd.name cmd.cache_key) ec p, stored_in_lem s, m, absent)

  attempt_in-Replies :
      (ctx : g.Context) (start : ℕ) (s : State V W)
      → IsSound
      → IsReady max T G Pins s
      → Unpinned g properties max T G Pins cmd
      → Returns
          (Replies g properties max T G Pins cmd (Others g properties max T G Pins cmd) s)
          (attempt_in g properties ctx cmd start s)
  unfolding attempt_in
  attempt_in-Replies ctx start s sound r own =
      let timeout = (properties cmd.name cmd.group).execution_timeout in
      let ctx' = if timeout == 0 then ctx else g.with_timeout ctx timeout in
      let ctx'' = if timeout == 0 then ctx else g.cancelled ctx' in
      >>=-Returns (breaker_total g properties cmd s)
        (λ (cb, s1) (semaphores, cache, metrics, world, log).
          let made =
            same-Keeps max T G Pins Anything s s1 r
              (subst Totality.IsValid (sym metrics) r.metrics_valid) semaphores cache world
              (λ q e. q (sym log ∙ e)) in
          let e = do_in cmd.name (guarded_in g properties cmd ctx') cb s1 in
          let ends =
            do_in-Ends max T G Pins Anything cmd.name (guarded_in g properties cmd ctx') cb s1
              (λ t ready.
                guarded_in-Ends g properties max T G Pins Anything cmd ctx' t sound.same_max
                  (sound.careful_run ctx') ready)
              made.ready in
          let k = Keeps-trans max T G Pins Anything s s1 e.2 made ends.0 in
          Returns-map
            (finish-Replies g properties max T G Pins cmd sound.fallback_on
              (call_function cmd.fallback ctx'') (sound.careful_fallback ctx'') own start e.1 e.0
              e.2 k.ready ends.1)
            (λ x done. (
              Keeps-trans max T G Pins _ s e.2 x.1 (Anything-Keeps max T G Pins _ s e.2 k) done.0,
              done.1,
            )))

  -- What is left by a call that finds `ec` in the cache.
  abbrev pub Replayed : ExecutedCommand V → State V W → Reply V × State V W → Type 0
  Replayed ec s (reply, s') =
      Keeps max T G Pins Anything s s'
      × (reply ≡ (ec.response, ec.err))
      × (s'.world ≡ s.world)
      × (s'.circuit_breakers ≡ s.circuit_breakers)

  answer_in-Replayed :
      (ctx : g.Context) (start : ℕ) (s : State V W) (ec : ExecutedCommand V)
      → IsReady max T G Pins s
      → Returns
          (Replayed ec s)
          (answer_with g properties (attempt_in g properties ctx cmd) cmd start s (some ec))
  unfolding answer_with
  answer_in-Replayed ctx start s ec r =
      >>=-Returns (log_request_total g properties cmd ec.info s r.metrics_valid) (λ t l.
        returns _
          (Logged-Keeps max T G Pins Anything s t r l.0, refl, l.0.same_world, l.0.same_breakers))

  answer_in-Replies :
      (ctx : g.Context) (start : ℕ) (s : State V W) (o : Option (ExecutedCommand V))
      → IsSound
      → IsReady max T G Pins s
      → stored_in s ≡ o
      → Returns
          (Replies g properties max T G Pins cmd Anything s)
          (answer_with g properties (attempt_in g properties ctx cmd) cmd start s o)
  unfolding answer_with
  answer_in-Replies ctx start s none sound r e =
      Returns-map (attempt_in-Replies ctx start s sound r (absent-Unpinned s r e))
        (λ x k. Others-Anything s x e k)
  answer_in-Replies ctx start s (some ec) sound r e =
      Returns-map (answer_in-Replayed ctx start s ec r) (λ (reply, t) k.
        (k.0, subst (λ (x : Reply V). Fine T cmd.name x.0 x.1) (sym k.1) (stored_in-Fine s ec r e)))

  -- On a ready state, no panic leaves `Exec` of a sound command, whatever it calls. It gives every
  -- permit back, the cache keeps all that it held, the state stays ready, and a reply with no
  -- error has a value as the command's.
  pub exec_in-Replies :
      (ctx : g.Context) (s : State V W)
      → IsSound
      → IsReady max T G Pins s
      → Returns (Replies g properties max T G Pins cmd Anything s) (exec_in g properties ctx cmd s)
  unfolding exec_in get_request_cache
  exec_in-Replies ctx s sound r =
      let s0 : State V W = record s { wall = later s.wall } in
      let k = same-Keeps max T G Pins Anything s s0 r r.metrics_valid refl refl refl (λ q. q) in
      Returns-map (answer_in-Replies ctx (now s.wall) s0 (stored_in s) sound k.ready refl)
        (λ x done. (Keeps-trans max T G Pins Anything s s0 x.1 k done.0, done.1))

  -- On a ready state, a call that finds an entry in the cache replies with it, and runs nothing: the
  -- world and the breakers stay as they are. It does not matter what the command's functions do.
  pub exec_in-Replayed :
      (ctx : g.Context) (s : State V W) (ec : ExecutedCommand V)
      → IsReady max T G Pins s
      → stored_in s ≡ some ec
      → Returns (Replayed ec s) (exec_in g properties ctx cmd s)
  unfolding exec_in get_request_cache
  exec_in-Replayed ctx s ec r e =
      let s0 : State V W = record s { wall = later s.wall } in
      let k = same-Keeps max T G Pins Anything s s0 r r.metrics_valid refl refl refl (λ q. q) in
      subst
        (λ o.
          Returns (Replayed ec s)
            (answer_with g properties (attempt_in g properties ctx cmd) cmd (now s.wall) s0 o))
        (sym e)
        (Returns-map (answer_in-Replayed ctx (now s.wall) s0 ec k.ready)
          (λ x p. (Keeps-trans max T G Pins Anything s s0 x.1 k p.0, p.1, p.2, p.3)))
