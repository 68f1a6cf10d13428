-- ===== src/Examples/Reporting.antt =====
-- Runs of the metrics and of what is reported of them.
use cuirass.Prelude.{ℕ, ◌≤◌, length, true, ◌+◌, ◌%◌, ◌^◌, ◌≡◌, refl, [], ◌∷◌, arith}
use cuirass.Num.RollingPercentile.{all_values, get}
use cuirass.Num.RollingPercentile.Range.{Anything, get-Returns}
use cuirass.MetricsStream.{StreamEntry, stream_entry, serve_round}
use cuirass.MetricsStream.Rounds.{names, serve_round-names}
use cuirass.Executor.{State}
use cuirass.MetricsStream.Fields.{Reports, stream_entry-Reports}
use cuirass.Examples.Values.{whole, whole-RankLaws, fresh_state, metrics}
use cuirass.Prelude.Options.{Returns}
use cuirass.Prelude.Maps.{lookup}
use cuirass.Util.Clock.{Clock}
use cuirass.RequestLog.{success, failure, fallback_success}
use cuirass.Metrics.{CommandMetrics, update, total_requests, error_count, all_metrics}
use cuirass.Metrics.Totality.{IsReady}
use cuirass.Metrics.Counts.{still, event_count, CountersValid}
use cuirass.Metrics.Tallies.{CountedAll, counted_events}
use cuirass.Metrics.Updates.{update-CountedAll}
use cuirass.Metrics.Sums.{errors_of, total_requests-error_count}

abbrev command_metrics : CommandMetrics
command_metrics = record {
  name = "a";
  event_counters = [];
  execution_time = record {
    bucket_size = 10;
    max_bucket_items = 2;
    current_bucket = 0;
    current_bucket_time = 5;
    buckets = record { current_position = 0; vals = []; capacity = 2 } ∷ [];
  };
}

command_metrics-IsReady : IsReady command_metrics
command_metrics-IsReady = record {
  items_pos = omega arith;
  current_in = omega arith;
  all_valid = (record { fits = omega arith; position_in = omega arith }, tt);
}

command_metrics-CountersValid : CountersValid command_metrics
unfolding lookup
command_metrics-CountersValid = λ e n q. cc q

update-CountedAll_example :
    Returns
      (λ (r : CommandMetrics × Clock).
        CountedAll 7 (counted_events (failure ∷ fallback_success ∷ [])) command_metrics r.0)
      (update 30 (failure ∷ fallback_success ∷ []) command_metrics (still 7))
update-CountedAll_example =
    update-CountedAll 7 30 (failure ∷ fallback_success ∷ []) command_metrics
      command_metrics-CountersValid command_metrics-IsReady

total_requests-error_count_example :
    ((total_requests command_metrics (still 7)).0
      ≡ (event_count 7 success command_metrics + errors_of 7 command_metrics) % 2 ^ 64)
    × ((error_count command_metrics (still 7)).0 ≡ errors_of 7 command_metrics % 2 ^ 64)
total_requests-error_count_example =
    total_requests-error_count 7 command_metrics command_metrics-CountersValid

get-Returns_example :
    Returns Anything (get whole (λ vs. vs) 7 50 command_metrics.execution_time).0
    × (length (all_values (get whole (λ vs. vs) 7 50 command_metrics.execution_time).1.buckets) ≤ 0)
unfolding all_values
get-Returns_example =
    get-Returns whole (λ vs. vs) 7 50 command_metrics.execution_time whole-RankLaws refl
      (λ vs. refl) (omega arith)

stream_entry-Reports_example :
    Returns
      (λ (x : StreamEntry × CommandMetrics × Clock). Reports 7 command_metrics whole x.0)
      (stream_entry whole (λ vs. vs) 99 true "a" command_metrics (still 7))
unfolding all_values
stream_entry-Reports_example =
    stream_entry-Reports whole (λ vs. vs) 7 99 true "a" command_metrics whole-RankLaws (λ vs. refl)
      command_metrics-CountersValid (omega arith)

abbrev pub busy_state : State ℕ ℕ
busy_state = record fresh_state {
  metrics = record metrics { command_metrics = ("a", command_metrics) ∷ [] };
}

serve_round-names_example :
    Returns (λ r. names r.0 ≡ ("a" ∷ [])) (serve_round whole (λ vs. vs) true busy_state)
unfolding all_values all_metrics
serve_round-names_example =
    serve_round-names whole (λ vs. vs) whole-RankLaws (λ vs. refl) busy_state (omega arith, tt)
