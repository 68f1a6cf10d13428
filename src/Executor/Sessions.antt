-- ===== src/Executor/Sessions.antt =====
-- executor.go: calls of `Exec` one after the other, from `NewExecutorWithClock` on.
use Prim.Native.String.{String}
use mathlib.Core.Path.{subst}
use mathlib.Core.Option.{some-injective}
use cuirass.Prelude.{
  ℕ, suc, ◌<◌, ◌≡◌, refl, sym, ap, ◌∙◌, Bool, true, false, Option, none, some, List, [], ◌∷◌, arith,
  if◌then◌else◌, length, inl, inr,
}
use cuirass.Prelude.Options.{◌>>=◌, Returns, returns, >>=-Returns}
use cuirass.Prelude.Maps.{string_eq, lookup}
use cuirass.Util.Clock.{Clock}
use cuirass.Util.Semaphore.{Semaphore, new_semaphore}
use cuirass.RequestLog.{RequestLog}
use cuirass.RequestCache.{RequestCache}
use cuirass.Metrics.{new_metrics_properties, new_execution_metrics}
use cuirass.Metrics.Totality
use cuirass.Command.{GoContext, CommandProperties, Command}
use cuirass.SemaphoreFactory.{Semaphores, get_semaphore, reuse}
use cuirass.Properties.{PropertyFactory}
use cuirass.Executor.{State, Reply, exec, new_executor_with_clock}
use cuirass.Executor.Permits.{Kept}
use cuirass.Executor.Outcomes.{exec-Returns}

-- No permit of any semaphore is held.
abbrev pub AllFree : Semaphores → Type 0
AllFree m = (k : String) (s : Semaphore) → lookup k m ≡ some s → s.held ≡ 0

held-reuse :
    (key : String) (max : ℕ) (m : Semaphores) (o : Option Semaphore)
    → ((s : Semaphore) → o ≡ some s → s.held ≡ 0)
    → (reuse key max m o).0.held ≡ 0
unfolding reuse new_semaphore
held-reuse key max m none h = refl
held-reuse key max m (some s) h = ground (arith, h s refl)

held-get_semaphore :
    (key : String) (max : ℕ) (m : Semaphores) → AllFree m → (get_semaphore key max m).0.held ≡ 0
unfolding get_semaphore
held-get_semaphore key max m free = held-reuse key max m (lookup key m) (free key)

Kept-AllFree :
    (key : String) (max : ℕ) (m m' : Semaphores) → Kept key max m m' → AllFree m → AllFree m'
Kept-AllFree key max m m' (inl same) free = subst AllFree (sym same) free
Kept-AllFree key max m m' (inr now) free =
    λ k s e. by_key k s (string_eq.beq key k) (sym (now k) ∙ e)
  where
    by_key :
        (k : String) (s : Semaphore) (b : Bool)
        → (if b then some (get_semaphore key max m).0 else lookup k m) ≡ some s
        → s.held ≡ 0
    by_key k s true e =
        subst (λ (x : Semaphore). x.held ≡ 0) (some-injective (get_semaphore key max m).0 s e)
          (held-get_semaphore key max m free)
    by_key k s false e = free k s e

module _ (g : GoContext) (properties : String → String → CommandProperties) {V W : Type 0} where
  open g use {Context}

  -- Calls in order, each with its context and command, and their replies. `none` is a panic that
  -- left one of them.
  pub exec_all :
      List (Context × Command Context V W) → State V W → Option (List (Reply V) × State V W)
  exec_all [] s = some ([], s)
  exec_all ((ctx, cmd) ∷ calls) s = do
    (reply, s') ← exec g properties ctx cmd s
    (replies, s'') ← exec_all calls s'
    some (reply ∷ replies, s'')

  exec_all-Returns :
      (calls : List (Context × Command Context V W)) (s : State V W)
      → Totality.IsValid s.metrics
      → AllFree s.semaphores
      → Returns
          (λ (replies, s'). (length replies ≡ length calls) × AllFree s'.semaphores)
          (exec_all calls s)
  unfolding exec_all
  exec_all-Returns [] s v free = returns _ (refl, free)
  exec_all-Returns ((ctx, cmd) ∷ calls) s v free =
      >>=-Returns (exec-Returns g properties cmd ctx s v) (λ (reply, s') (v', kept).
        >>=-Returns
          (exec_all-Returns calls s' v' (
            Kept-AllFree cmd.group (properties cmd.name cmd.group).execution_max_concurrent_requests
              s.semaphores s'.semaphores kept free))
          (λ (replies, s'') (same, free'). returns _ (ap suc same, free')))

  new_executor-IsValid :
      (cfg : PropertyFactory) (clock wall : Clock) (cache : Option (RequestCache V))
      (log : Option RequestLog) (world : W)
      → 0 < (new_metrics_properties cfg).rolling_percentile_bucket_size
      → Totality.IsValid (new_executor_with_clock cfg clock wall cache log world).metrics
  unfolding new_executor_with_clock new_execution_metrics lookup
  new_executor-IsValid cfg clock wall cache log world pos = record {
    room = pos;
    ready = λ name m e. cc e;
  }

  -- A new executor whose percentile buckets have room answers any commands one after the other, under
  -- any contexts and whatever their functions do: no panic leaves a call, there is a reply to each,
  -- and after them no permit of any semaphore is held.
  pub exec_all-new :
      (cfg : PropertyFactory) (clock wall : Clock) (cache : Option (RequestCache V))
      (log : Option RequestLog) (world : W) (calls : List (Context × Command Context V W))
      → 0 < (new_metrics_properties cfg).rolling_percentile_bucket_size
      → Returns
          (λ (replies, s'). (length replies ≡ length calls) × AllFree s'.semaphores)
          (exec_all calls (new_executor_with_clock cfg clock wall cache log world))
  unfolding new_executor_with_clock lookup
  exec_all-new cfg clock wall cache log world calls pos =
      exec_all-Returns calls (new_executor_with_clock cfg clock wall cache log world)
        (new_executor-IsValid cfg clock wall cache log world pos) (λ k s e. cc e)
