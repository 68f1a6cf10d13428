-- ===== src/Executor/Endings.antt =====
-- executor.go: what the deferred function of `Exec` leaves, and what it caches.
use Prim.Native.String.{String}
use mathlib.Core.Path.{subst}
use cuirass.Prelude.{
  ℕ, ◌≡◌, refl, sym, ap, ◌∙◌, Bool, true, ◌&&◌, Option, none, some, List, [], ◌∷◌, if◌then◌else◌,
  Bool-cases, inl, inr,
}
use cuirass.Prelude.Options.{◌>>=◌, Returns, returns, >>=-Returns}
use cuirass.Prelude.Maps.{string_eq}
use cuirass.Util.Clock.{later}
use cuirass.Util.Errors.{GoError, PanicValue, error_value, Call, returned, panicked}
use cuirass.RequestLog.{ExecutionEvent, ExecutionInfo, success, failure}
use cuirass.RequestCache
use cuirass.RequestCache.{RequestCache, ExecutedCommand, get-add, new_cache_key, same_key_iff}
use cuirass.Metrics.Totality
use cuirass.Command.{GoContext, CommandProperties, Command, is_cacheable}
use cuirass.Executor.{
  State, Reply, usable_cache, get_request_cache, to_execution_info, remember_in, remember,
  exec_fallback, exec_fallback_with, recovered, recovered_with, finish,
}
use cuirass.Executor.Panics.{event_of_panic, events_of_fallback}
use cuirass.Executor.Logging.{Logged, log_stats_total}
use cuirass.Executor.Permits.{Kept}

module _ (g : GoContext) (properties : String → String → CommandProperties) {V W : Type 0}
    (cmd : Command g.Context V W) where
  -- The responses of the command may be cached.
  abbrev pub may_cache : Bool
  may_cache = is_cacheable cmd && (properties cmd.name cmd.group).request_cache_enabled

  abbrev pub max_requests : ℕ
  max_requests = (properties cmd.name cmd.group).execution_max_concurrent_requests

  -- What a call of `Exec` finds in the cache.
  abbrev pub stored : State V W → Option (ExecutedCommand V)
  stored s = get_request_cache g properties cmd s >>= RequestCache.get cmd.name cmd.cache_key

  -- What the cache gives back for the command is the reply.
  pub record Replays (s : State V W) (reply : Reply V) : Type 0 where
    pub found : ExecutedCommand V
    pub is_stored : stored s ≡ some found
    pub same_response : found.response ≡ reply.0
    pub same_err : found.err ≡ reply.1

  -- A cache that is in the context and may be used is used.
  pub get_request_cache-some :
      (s : State V W) (cache : RequestCache V)
      → may_cache ≡ true
      → s.request_cache ≡ some cache
      → get_request_cache g properties cmd s ≡ some cache
  unfolding get_request_cache
  get_request_cache-some s cache m e = ap (usable_cache g properties cmd) e ∙ rw m refl

  -- What was added under the name and the key of the command is what is found.
  pub stored-add :
      (info : ExecutionInfo) (reply : Reply V) (s : State V W) (cache : RequestCache V)
      → may_cache ≡ true
      → stored (record s {
        request_cache = some (RequestCache.add cmd.name cmd.cache_key info reply.0 reply.1 cache);
      })
        ≡ some (RequestCache.cached info reply.0 reply.1)
  stored-add info reply s cache m =
      let cache' = RequestCache.add cmd.name cmd.cache_key info reply.0 reply.1 cache in
      let found = RequestCache.cached info reply.0 reply.1 in
      ap (λ o. o >>= RequestCache.get cmd.name cmd.cache_key)
        (get_request_cache-some (record s { request_cache = some cache' }) cache' m refl)
      ∙ get-add cmd.name cmd.cache_key cmd.name cmd.cache_key info reply.0 reply.1 cache
      ∙ ap (λ (b : Bool). if b then some found else RequestCache.get cmd.name cmd.cache_key cache)
          ((same_key_iff (new_cache_key cmd.name cmd.cache_key)
              (new_cache_key cmd.name cmd.cache_key)).1
            refl)

  -- The cache is in the context, and the response may go into it.
  pub record Caches (s : State V W) : Type 0 where
    pub allowed_cache : may_cache ≡ true
    pub cache : RequestCache V
    pub in_context : s.request_cache ≡ some cache

  -- What the deferred function's last part leaves.
  pub record Remembered (s : State V W) (reply : Reply V) (r : Reply V × State V W) : Type 0 where
    same_reply : r.0 ≡ reply
    same_metrics : r.1.metrics ≡ s.metrics
    same_semaphores : r.1.semaphores ≡ s.semaphores
    replays : Caches s → Replays r.1 reply

  remember_in-Remembered :
      (start : ℕ) (events : List ExecutionEvent) (reply : Reply V) (s : State V W)
      (o : Option (RequestCache V))
      → get_request_cache g properties cmd s ≡ o
      → Remembered s reply (remember_in g properties start events cmd reply s o)
  unfolding remember_in to_execution_info
  remember_in-Remembered start events reply s none e = record {
    same_reply = refl;
    same_metrics = refl;
    same_semaphores = refl;
    replays = λ c. cc (e, get_request_cache-some s c.cache c.allowed_cache c.in_context);
  }
  remember_in-Remembered start events reply s (some cache) e =
      let info = (to_execution_info g properties start events cmd s).0 in
      record {
        same_reply = refl;
        same_metrics = refl;
        same_semaphores = refl;
        replays = λ c. record {
          found = RequestCache.cached info reply.0 reply.1;
          is_stored =
              stored-add info reply (record s { wall = later s.wall }) cache c.allowed_cache;
          same_response = refl;
          same_err = refl;
        };
      }

  remember-Remembered :
      (start : ℕ) (events : List ExecutionEvent) (reply : Reply V) (s : State V W)
      → Remembered s reply (remember g properties start events cmd reply s)
  unfolding remember
  remember-Remembered start events reply s =
      remember_in-Remembered start events reply s (get_request_cache g properties cmd s) refl

  -- What one call of `Exec` leaves. The permits are those held before; and where the fallback is
  -- not switched off, a response that may be cached is the one that the cache gives back.
  pub record Done (s : State V W) (r : Reply V × State V W) : Type 0 where
    pub metrics_valid : Totality.IsValid r.1.metrics
    pub permits_kept : Kept cmd.group max_requests s.semaphores r.1.semaphores
    pub replays :
        (properties cmd.name cmd.group).fallback_enabled ≡ true → Caches s → Replays r.1 r.0

  -- The same, from a state in which the semaphores are those of the end.
  pub record Ended (s : State V W) (r : Reply V × State V W) : Type 0 where
    pub valid : Totality.IsValid r.1.metrics
    pub semaphores_same : r.1.semaphores ≡ s.semaphores
    pub replays_reply :
        (properties cmd.name cmd.group).fallback_enabled ≡ true → Caches s → Replays r.1 r.0

  after-Ended :
      (start : ℕ) (events : List ExecutionEvent) (reply : Reply V) (s s' : State V W)
      → Logged s s'
      → Ended s (remember g properties start events cmd reply s')
  after-Ended start events reply s s' l =
      let r = remember-Remembered start events reply s' in
      record {
        valid = subst Totality.IsValid (sym r.same_metrics) l.metrics_valid;
        semaphores_same = r.same_semaphores ∙ l.same_semaphores;
        replays_reply = λ on c. subst (Replays _) (sym r.same_reply) (
            r.replays (record {
              allowed_cache = c.allowed_cache;
              cache = c.cache;
              in_context = l.same_cache ∙ c.in_context;
            }));
      }

  -- From a state with the same semaphores and cache.
  from-Ended :
      (s s1 : State V W) (r : Reply V × State V W)
      → s1.semaphores ≡ s.semaphores
      → s1.request_cache ≡ s.request_cache
      → Ended s1 r
      → Ended s r
  from-Ended s s1 r same same' e = record {
    valid = e.valid;
    semaphores_same = e.semaphores_same ∙ same;
    replays_reply = λ on c. e.replays_reply on (record {
      allowed_cache = c.allowed_cache;
      cache = c.cache;
      in_context = same' ∙ c.in_context;
    });
  }

  fallback-Ended :
      (ctx : g.Context) (start : ℕ) (p : PanicValue) (s : State V W)
      → Totality.IsValid s.metrics
      → Returns (Ended s) (do
        (reply', s') ← exec_fallback g properties ctx cmd start p s
        some (remember g properties start [] cmd reply' s'))
  unfolding exec_fallback
  fallback-Ended ctx start p s v =
      let (out, w', c') = cmd.fallback ctx s.clock s.world in
      let s1 : State V W = record s { world = w'; clock = c' } in
      let (reply', events) = events_of_fallback p out in
      >>=-Returns {P = λ (r : Reply V × State V W). Logged s1 r.1}
        (>>=-Returns (log_stats_total g properties cmd start (event_of_panic p ∷ events) s1 v)
          (λ s' l. returns _ l.0))
        (λ (reply'', s') l.
          returns _ (from-Ended s s1 _ refl refl (after-Ended start [] reply'' s1 s' l)))

  recovered-Ended :
      (ctx : g.Context) (start : ℕ) (p : PanicValue) (reply : Reply V) (s : State V W)
      → Totality.IsValid s.metrics
      → Returns (Ended s) (recovered g properties ctx cmd start p reply s)
  unfolding recovered exec_fallback exec_fallback_with
  recovered-Ended ctx start p reply s v =
      elim (Bool-cases (properties cmd.name cmd.group).fallback_enabled) [
        | inl on ↦ rw on (fallback-Ended ctx start p s v)
        | inr off ↦ rw off (
            >>=-Returns (log_stats_total g properties cmd start (failure ∷ []) s v) (λ s' l.
              returns _ (record {
                valid = l.0.metrics_valid;
                semaphores_same = l.0.same_semaphores;
                replays_reply = λ on c. cc (on, off);
              })))
      ]

  pub finish-Ended :
      (ctx : g.Context) (start : ℕ) (v : Option V) (r : Call (Option GoError)) (s : State V W)
      → Totality.IsValid s.metrics
      → Returns (Ended s) (finish g properties ctx cmd start v r s)
  unfolding finish recovered recovered_with
  finish-Ended ctx start v (returned none) s ok =
      >>=-Returns (log_stats_total g properties cmd start (success ∷ []) s ok)
        (λ s' l. returns _ (after-Ended start (success ∷ []) (v, none) s s' l.0))
  finish-Ended ctx start v (returned (some e)) s ok =
      recovered-Ended ctx start (error_value e) (v, some e) s ok
  finish-Ended ctx start v (panicked p) s ok = recovered-Ended ctx start p (v, none) s ok
