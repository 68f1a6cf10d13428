-- ===== src/Executor/Logging.antt =====
-- executor.go: logRequest, what it changes.
use Prim.Native.String.{String}
use mathlib.Core.Option
use cuirass.Prelude.{ℕ, ◌≡◌, ◌≢◌, refl, Bool, true, false, Option, none, some, List, if◌then◌else◌}
use cuirass.Prelude.Options.{Returns, returns, >>=-Returns}
use cuirass.Util.Clock.{later}
use cuirass.RequestLog.{
  ExecutionEvent, ExecutionInfo, execution_time, RequestLog, add_execution_info,
}
use cuirass.Metrics.Totality
use cuirass.Metrics.Totality.{update_command_total}
use cuirass.Command.{GoContext, CommandProperties, Command}
use cuirass.Executor.{State, log_request, log_stats, to_execution_info}

module _ {V W : Type 0} where
  -- The state after a request was logged. The log has one more entry, or is as it was.
  pub record Logged (s s' : State V W) : Type 0 where
    pub metrics_valid : Totality.IsValid s'.metrics
    pub same_breakers : s'.circuit_breakers ≡ s.circuit_breakers
    pub same_semaphores : s'.semaphores ≡ s.semaphores
    pub same_cache : s'.request_cache ≡ s.request_cache
    pub same_world : s'.world ≡ s.world
    pub log_stays : s.request_log ≢ none → s'.request_log ≢ none

module _ (g : GoContext) (properties : String → String → CommandProperties) {V U : Type 0}
    (cmd : Command g.Context V U) where
  -- The log after `logRequest`.
  abbrev pub new_log : ExecutionInfo → Option RequestLog → Option RequestLog
  new_log info log =
      if (properties cmd.name cmd.group).request_log_enabled
      then Option.map (add_execution_info info) log
      else log

  new_log_stays :
      (info : ExecutionInfo) (log : Option RequestLog) → log ≢ none → new_log info log ≢ none
  new_log_stays info log h = by_enabled (properties cmd.name cmd.group).request_log_enabled log h
    where
      by_enabled :
          (b : Bool) (o : Option RequestLog)
          → o ≢ none
          → (if b then Option.map (add_execution_info info) o else o) ≢ none
      by_enabled true none h = absurd (h refl)
      by_enabled true (some l) h = λ q. cc q
      by_enabled false o h = h

module _ (g : GoContext) (properties : String → String → CommandProperties) {V U W : Type 0}
    (cmd : Command g.Context V U) where
  pub log_request_total :
      (info : ExecutionInfo) (s : State V W)
      → Totality.IsValid s.metrics
      → Returns
          (λ s'. Logged s s' × (s'.request_log ≡ new_log g properties cmd info s.request_log))
          (log_request g properties info cmd s)
  unfolding log_request
  log_request_total info s v =
      >>=-Returns
        (update_command_total info.command_name (execution_time info) info.events s.metrics s.clock
          v)
        (λ (metrics', clock') valid. returns _ (
          record {
            metrics_valid = valid.0;
            same_breakers = refl;
            same_semaphores = refl;
            same_cache = refl;
            same_world = refl;
            log_stays = new_log_stays g properties cmd info s.request_log;
          },
          refl,
        ))

  pub log_stats_total :
      (start : ℕ) (events : List ExecutionEvent) (s : State V W)
      → Totality.IsValid s.metrics
      → Returns
          (λ s'.
            Logged s s'
            × (s'.request_log
                ≡ new_log g properties cmd
                    (to_execution_info g properties start events cmd s).0
                    s.request_log))
          (log_stats g properties start events cmd s)
  unfolding log_stats to_execution_info
  log_stats_total start events s v =
      let (info, s1) = to_execution_info g properties start events cmd s in
      again info (log_request_total info s1 v)
    where
      again :
          {o : Option (State V W)} (info : ExecutionInfo)
          → Returns
              (λ s'.
                Logged (record s { wall = later s.wall }) s'
                × (s'.request_log ≡ new_log g properties cmd info s.request_log))
              o
          → Returns
              (λ s'. Logged s s' × (s'.request_log ≡ new_log g properties cmd info s.request_log))
              o
      again info (returns s' (l, e)) = returns s' (
        record {
          metrics_valid = l.metrics_valid;
          same_breakers = l.same_breakers;
          same_semaphores = l.same_semaphores;
          same_cache = l.same_cache;
          same_world = l.same_world;
          log_stays = l.log_stays;
        },
        e,
      )
