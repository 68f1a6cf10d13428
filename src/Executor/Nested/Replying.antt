-- ===== src/Executor/Nested/Replying.antt =====
-- executor.go, with nested calls: what `Exec` replies behind the breaker.
use Prim.Native.String.{String}
use cuirass.Prelude.{ℕ, ◌≡◌, refl, true, Option, none, some, [], ◌∷◌}
use cuirass.Prelude.Options.{Returns, returns, >>=-Returns}
use cuirass.Util.Errors.{GoError, PanicValue, error_value, Call, returned, panicked}
use cuirass.RequestLog.{success}
use cuirass.RequestCache.{ExecutedCommand, CacheKey}
use cuirass.Command.{GoContext, CommandProperties, Command}
use cuirass.Executor.{State, Reply, exec_fallback_with, recovered_with, finish_with}
use cuirass.Executor.Panics.{event_of_panic, events_of_fallback}
use cuirass.Executor.Logging.{log_stats_total}
use cuirass.Executor.Nested.Keeping.{
  IsReady, Keeps, Careful, Fine, FineCall, Keeps-trans, Logged-Keeps,
}
use cuirass.Executor.Nested.Finishing.{Others, Unpinned, Replies, remembered-Replies}

-- Every key.
abbrev pub Anything : CacheKey → Type 0
Anything k = Unit {0}

-- A reply of a fallback that is fine.
events_of_fallback-Fine :
    {V : Type 0} (T : String → Option V → Type 0) (name : String) (p : PanicValue)
    (out : Call (Option V × Option GoError))
    → FineCall T name out
    → Fine T name (events_of_fallback p out).0.0 (events_of_fallback p out).0.1
unfolding events_of_fallback
events_of_fallback-Fine T name p (returned (v, none)) f = f
events_of_fallback-Fine T name p (returned (v, some e)) f = λ q. cc q
events_of_fallback-Fine T name p (panicked q) f = λ q. cc q

module _ {V W : Type 0} (max : String → ℕ) (T : String → Option V → Type 0) (G : W → Type 0)
    (Pins : CacheKey → ExecutedCommand V → Type 0) where
  pub Anything-Keeps :
      (K : CacheKey → Type 0) (s t : State V W)
      → Keeps max T G Pins Anything s t
      → Keeps max T G Pins K s t
  Anything-Keeps K s t k = record {
    ready = k.ready;
    same_held = k.same_held;
    log_stays = k.log_stays;
    still_cached = λ key ec h e. k.still_cached key ec tt e;
  }

module _ (g : GoContext) (properties : String → String → CommandProperties) {V W : Type 0}
    (max : String → ℕ) (T : String → Option V → Type 0) (G : W → Type 0)
    (Pins : CacheKey → ExecutedCommand V → Type 0) (cmd : Command g.Context V (State V W))
    (on : (properties cmd.name cmd.group).fallback_enabled ≡ true)
    (f : State V W → Call (Option V × Option GoError) × State V W)
    (careful : Careful max T G Pins Anything cmd.name f)
    (own : Unpinned g properties max T G Pins cmd) where
  exec_fallback-Replies :
      (start : ℕ) (p : PanicValue) (s : State V W)
      → IsReady max T G Pins s
      → Returns
          (Replies g properties max T G Pins cmd Anything s)
          (exec_fallback_with g properties f cmd start p s)
  unfolding exec_fallback_with
  exec_fallback-Replies start p s r =
      let done = careful s r in
      let t = (f s).1 in
      let events = (events_of_fallback p (f s).0).1 in
      >>=-Returns
        (log_stats_total g properties cmd start (event_of_panic p ∷ events) t
          done.0.ready.metrics_valid)
        (λ t' l. returns _ (
          Keeps-trans max T G Pins Anything s t t' done.0
              (Logged-Keeps max T G Pins Anything t t' done.0.ready l.0),
          events_of_fallback-Fine T cmd.name p (f s).0 done.1,
        ))

  recovered-Replies :
      (start : ℕ) (p : PanicValue) (reply : Reply V) (s : State V W)
      → IsReady max T G Pins s
      → Returns
          (Replies g properties max T G Pins cmd (Others g properties max T G Pins cmd) s)
          (recovered_with g properties f cmd start p reply s)
  unfolding recovered_with
  recovered-Replies start p reply s r = rw on (
      >>=-Returns (exec_fallback-Replies start p s r) (λ (reply', t) k. returns _ (
        remembered-Replies g properties max T G Pins cmd start [] reply' s t
          (Anything-Keeps max T G Pins _ s t k.0) k.1 own)))

  -- By how `Do` ended: no error comes with a value that is fine.
  pub finish-Replies :
      (start : ℕ) (v : Option V) (out : Call (Option GoError)) (s : State V W)
      → IsReady max T G Pins s
      → (out ≡ returned none → T cmd.name v)
      → Returns
          (Replies g properties max T G Pins cmd (Others g properties max T G Pins cmd) s)
          (finish_with g properties f cmd start v out s)
  unfolding finish_with
  finish-Replies start v (returned none) s r fine =
      >>=-Returns (log_stats_total g properties cmd start (success ∷ []) s r.metrics_valid) (λ t l.
        returns _ (
          remembered-Replies g properties max T G Pins cmd start (success ∷ []) (v, none) s t
            (Logged-Keeps max T G Pins _ s t r l.0) (λ q. fine refl) own))
  finish-Replies start v (returned (some e)) s r fine =
      recovered-Replies start (error_value e) (v, some e) s r
  finish-Replies start v (panicked p) s r fine = recovered-Replies start p (v, none) s r
