-- ===== src/MetricsStream.antt =====
-- metricsstream/handler.go: what one round of the stream's loop writes. encoding/json turns an entry
-- into text, with a field for each of its own; float64 and the order of sort.Sort are parameters.
pub mod Readings
pub mod Times
pub mod Fields
pub mod Safety
pub mod Rounds
use Prim.Native.String.{String}
use cuirass.Prelude.{
  ℕ, ◌*◌, ◌/◌, Bool, true, false, Option, none, some, List, [], ◌∷◌, ◌++◌, ◌==◌, if◌then◌else◌,
  length,
}
use cuirass.Prelude.Maps.{string_eq, insert}
use cuirass.Prelude.Words.{div_int64}
use cuirass.Util.Clock.{Clock, now, later}
use cuirass.Num.BucketSize.{millisecond}
use cuirass.Num.Float.{Float64}
use cuirass.RequestLog.{
  ExecutionEvent, success, failure, timeout, short_circuited, semaphore_rejected,
  response_from_cache, fallback_success, fallback_failure,
}
use cuirass.Metrics.{
  CommandMetrics, rolling_sum, total_requests, error_count, error_percentage, execution_time_mean,
  execution_time_percentile, all_metrics,
}
use cuirass.Executor.{State, is_circuit_breaker_open}

-- The value that is encoded, with its fields in the order of the source.
pub record StreamEntry : Type 0 where
  pub type_name : String
  pub name : String
  pub group : String
  pub current_time : ℕ
  pub is_circuit_breaker_open : Bool
  pub error_percentage : ℕ
  pub error_count : ℕ
  pub request_count : ℕ
  pub rolling_count_collapsed_requests : ℕ
  pub rolling_count_exceptions_thrown : ℕ
  pub rolling_count_failure : ℕ
  pub rolling_count_fallback_failure : ℕ
  pub rolling_count_fallback_rejection : ℕ
  pub rolling_count_fallback_success : ℕ
  pub rolling_count_response_from_cache : ℕ
  pub rolling_count_semaphore_rejected : ℕ
  pub rolling_count_short_circuited : ℕ
  pub rolling_count_success : ℕ
  pub rolling_count_thread_pool_rejected : ℕ
  pub rolling_count_timeout : ℕ
  pub current_concurrent_execution_count : ℕ
  pub latency_execute_mean : ℕ
  pub latency_execute : List (String × ℕ)
  pub latency_total_mean : ℕ
  pub latency_total : List (String × ℕ)
  pub property_circuit_breaker_request_volume_threshold : ℕ
  pub property_circuit_breaker_sleep_window_in_milliseconds : ℕ
  pub property_circuit_breaker_error_threshold_percentage : ℕ
  pub property_circuit_breaker_force_open : Bool
  pub property_circuit_breaker_force_closed : Bool
  pub property_execution_isolation_strategy : String
  pub property_execution_isolation_thread_timeout_in_milliseconds : ℕ
  pub property_execution_isolation_thread_interrupt_on_timeout : Bool
  pub property_execution_isolation_semaphore_max_concurrent_requests : ℕ
  pub property_fallback_isolation_semaphore_max_concurrent_requests : ℕ
  pub property_request_cache_enabled : Bool
  pub property_request_log_enabled : Bool
  pub property_metrics_rolling_statistical_window_in_milliseconds : ℕ
  pub reporting_hosts : ℕ

-- Reading the metrics of a command moves them on, and the clock. `none` is a panic.
abbrev pub Reading : Type 0 → Type 0
Reading A = CommandMetrics → Clock → Option (A × CommandMetrics × Clock)

infixl 5 ◌>>=◌
unfoldable pub ◌>>=◌ : {A B : Type 0} → Reading A → (A → Reading B) → Reading B
◌>>=◌ r f m c = elim (r m c) [ none ↦ none | some (a, m', c') ↦ f a m' c' ]

unfoldable pub pure : {A : Type 0} → A → Reading A
pure a m c = some (a, m, c)

-- A reading that does not panic.
unfoldable pub always :
    {A : Type 0} → (CommandMetrics → Clock → A × CommandMetrics × Clock) → Reading A
always r m c = some (r m c)

abbrev pub to_milliseconds : ℕ → ℕ
to_milliseconds d = div_int64 d millisecond

-- What is written to the response.
pub data Chunk : Type 0 where
  text : String → Chunk
  json : StreamEntry → Chunk
  flushed : Chunk

module _ (f : Float64) (sort : List ℕ → List ℕ) where
  unfoldable pub percentile_milliseconds : f.Float → Reading ℕ
  percentile_milliseconds p = do d ← execution_time_percentile f sort p; pure (to_milliseconds d)

  unfoldable pub collect_execution_percentiles : Reading (List (String × ℕ))
  collect_execution_percentiles = do
    p0 ← percentile_milliseconds (f.of_int 0)
    p25 ← percentile_milliseconds (f.of_int 25)
    p50 ← percentile_milliseconds (f.of_int 50)
    p75 ← percentile_milliseconds (f.of_int 75)
    p90 ← percentile_milliseconds (f.of_int 90)
    p95 ← percentile_milliseconds (f.of_int 95)
    p99 ← percentile_milliseconds (f.of_int 99)
    p99_5 ← percentile_milliseconds (f.div (f.of_int 995) (f.of_int 10))
    p100 ← percentile_milliseconds (f.of_int 100)
    pure (
        ("0", p0)
        ∷ ("25", p25)
        ∷ ("50", p50)
        ∷ ("75", p75)
        ∷ ("90", p90)
        ∷ ("95", p95)
        ∷ ("99", p99)
        ∷ ("99.5", p99_5)
        ∷ ("100", p100)
        ∷ [])

  -- The struct of `writeMetrics`, at the time `time` of the wall and with the breaker open or not.
  unfoldable pub stream_entry : ℕ → Bool → String → Reading StreamEntry
  stream_entry time is_open command_name = do
    percentage ← always (error_percentage f)
    errors ← always error_count
    requests ← always total_requests
    failures ← always (rolling_sum failure)
    fallback_failures ← always (rolling_sum fallback_failure)
    fallback_successes ← always (rolling_sum fallback_success)
    from_cache ← always (rolling_sum response_from_cache)
    short_circuits ← always (rolling_sum short_circuited)
    successes ← always (rolling_sum success)
    rejections ← always (rolling_sum semaphore_rejected)
    timeouts ← always (rolling_sum timeout)
    execute_mean ← always execution_time_mean
    execute_percentiles ← collect_execution_percentiles
    total_mean ← always execution_time_mean
    total_percentiles ← collect_execution_percentiles
    pure (record {
      type_name = "HystrixCommand";
      name = command_name;
      group = command_name;
      current_time = time / 1000000;
      is_circuit_breaker_open = is_open;
      error_percentage = percentage;
      error_count = errors;
      request_count = requests;
      rolling_count_collapsed_requests = 0;
      rolling_count_exceptions_thrown = 0;
      rolling_count_failure = failures;
      rolling_count_fallback_failure = fallback_failures;
      rolling_count_fallback_rejection = 0;
      rolling_count_fallback_success = fallback_successes;
      rolling_count_response_from_cache = from_cache;
      rolling_count_semaphore_rejected = 0;
      rolling_count_short_circuited = short_circuits;
      rolling_count_success = successes;
      rolling_count_thread_pool_rejected = rejections;
      rolling_count_timeout = timeouts;
      current_concurrent_execution_count = 0;
      latency_execute_mean = to_milliseconds execute_mean;
      latency_execute = execute_percentiles;
      latency_total_mean = to_milliseconds total_mean;
      latency_total = total_percentiles;
      property_circuit_breaker_request_volume_threshold = 20;
      property_circuit_breaker_sleep_window_in_milliseconds = 5000;
      property_circuit_breaker_error_threshold_percentage = 50;
      property_circuit_breaker_force_open = false;
      property_circuit_breaker_force_closed = false;
      property_execution_isolation_strategy = "THREAD";
      property_execution_isolation_thread_timeout_in_milliseconds = 1000;
      property_execution_isolation_thread_interrupt_on_timeout = true;
      property_execution_isolation_semaphore_max_concurrent_requests = 10;
      property_fallback_isolation_semaphore_max_concurrent_requests = 10;
      property_request_cache_enabled = true;
      property_request_log_enabled = true;
      property_metrics_rolling_statistical_window_in_milliseconds = 10000;
      reporting_hosts = 1;
    })

  -- `writeMetrics`: the entry, and the executor with the metrics of the command as they were left.
  unfoldable pub write_metrics :
      {V W : Type 0} → CommandMetrics → State V W → Option (StreamEntry × State V W)
  write_metrics m s =
      let time = now s.wall in
      let (is_open, s') = is_circuit_breaker_open m.name (record s { wall = later s.wall }) in
      elim (stream_entry time is_open m.name m s'.clock) [
        | none ↦ none
        | some (entry, m', c') ↦ some (
          entry,
          record s' {
            metrics = record s'.metrics {
              command_metrics = insert m.name m' s'.metrics.command_metrics;
            };
            clock = c';
          },
        )
      ]

  -- The loop over the metrics.
  unfoldable pub write_all_metrics :
      {V W : Type 0} → List CommandMetrics → State V W → Option (List Chunk × State V W)
  write_all_metrics [] s = some ([], s)
  write_all_metrics (m ∷ ms) s = elim (write_metrics m s) [
    | none ↦ none
    | some (entry, s') ↦ elim (write_all_metrics ms s') [
      | none ↦ none
      | some (chunks, s'') ↦ some (text "data: " ∷ json entry ∷ text "\n" ∷ chunks, s'')
    ]
  ]

  -- One round of `ServeHTTP`, up to its sleep. `none` is a panic, as for a response that cannot be
  -- flushed.
  unfoldable pub serve_round : {V W : Type 0} → Bool → State V W → Option (List Chunk × State V W)
  serve_round is_flusher s =
      let metrics = all_metrics s.metrics in
      let written =
        (if length metrics == 0
          then some (text "ping: \n" ∷ [], s)
          else write_all_metrics metrics s) in
      elim written [
        | none ↦ none
        | some (chunks, s') ↦ if is_flusher then some (chunks ++ (flushed ∷ []), s') else none
      ]
