-- ===== src/Metrics.antt =====
-- metrics/commandmetrics.go. Each counter that is updated reads the clock once; a method returns
-- the metrics and the clock as it leaves them. `none` is a panic. The locks leave no trace here.
pub mod Events
pub mod Totality
pub mod Counts
pub mod Tallies
pub mod Updates
pub mod Sums
use Prim.Native.String.{String}
use cuirass.Prelude.{
  ℕ, ◌*◌, ◌+◌, ◌%◌, ◌^◌, Bool, true, false, not, ◌&&◌, Option, none, some, List, [], ◌∷◌, ◌==◌,
  if◌then◌else◌, map,
}
use cuirass.Prelude.Options.{◌>>=◌}
use cuirass.Prelude.Words.{add_int64}
use cuirass.Prelude.Maps.{Eq, string_eq, lookup, insert}
use cuirass.Util.Clock.{Clock, now, later}
use cuirass.Num.BucketSize.{default_window_size, default_window_buckets, millisecond}
use cuirass.Num.Float.{Float64}
use cuirass.Num.RollingNumber.{RollingNumber, new_rolling_number, increment, sum}
use cuirass.Num.RollingPercentile.{RollingPercentile, new_rolling_percentile, add, mean, get}
use cuirass.RequestLog.{
  ExecutionEvent, success, failure, timeout, short_circuited, semaphore_rejected,
  response_from_cache, code,
}
use cuirass.Properties.{PropertyFactory}
use cuirass.Metrics.Events.{event_eq}

abbrev pub rolling_percentile_bucket_size_default : ℕ
rolling_percentile_bucket_size_default = 100

abbrev pub health_snapshot_interval_default : ℕ
health_snapshot_interval_default = 500 * millisecond

-- The values of the properties.
pub record MetricsProperties : Type 0 where
  pub rolling_percentile_bucket_size : ℕ
  pub health_snapshot_interval : ℕ

unfoldable pub new_metrics_properties : PropertyFactory → MetricsProperties
new_metrics_properties f = record {
  rolling_percentile_bucket_size =
      f.get_int "metrics.rollingPercentile.bucketSize" rolling_percentile_bucket_size_default;
  health_snapshot_interval =
      f.get_duration "metrics.healthSnapshot.intervalInMilliseconds" millisecond
        health_snapshot_interval_default;
}

pub record CommandMetrics : Type 0 where
  pub name : String
  pub event_counters : List (ExecutionEvent × RollingNumber)
  pub execution_time : RollingPercentile

unfoldable pub new_command_metrics :
    MetricsProperties → Clock → String → Option (CommandMetrics × Clock)
new_command_metrics props c name = do
  execution_time ←
      new_rolling_percentile default_window_size default_window_buckets
        props.rolling_percentile_bucket_size (now c)
  some (record { name = name; event_counters = []; execution_time = execution_time }, later c)

unfoldable pub has_event : List ExecutionEvent → ExecutionEvent → Bool
has_event [] e = false
has_event (x ∷ xs) e = if event_eq.beq x e then true else has_event xs e

-- The counter of an event, and the counters with it, new if there was none.
unfoldable pub find_event_counter :
    ExecutionEvent → CommandMetrics → Clock → Option (RollingNumber × CommandMetrics × Clock)
find_event_counter e m c = elim (lookup e m.event_counters) [
  | some n ↦ some (n, m, c)
  | none ↦ do
    n ← new_rolling_number default_window_size default_window_buckets (now c)
    some (n, record m { event_counters = insert e n m.event_counters }, later c)
]

-- `m.findEventCounter(e).Increment()`.
unfoldable pub count_event :
    ExecutionEvent → CommandMetrics → Clock → Option (CommandMetrics × Clock)
count_event e m c = do
  (n, m', c') ← find_event_counter e m c
  some (record m' { event_counters = insert e (increment (now c') n) m'.event_counters }, later c')

unfoldable pub count_events :
    List ExecutionEvent → CommandMetrics → Clock → Option (CommandMetrics × Clock)
count_events [] m c = some (m, c)
count_events (e ∷ es) m c = do (m', c') ← count_event e m c; count_events es m' c'

-- `update`, with the duration as an int.
unfoldable pub update :
    ℕ → List ExecutionEvent → CommandMetrics → Clock → Option (CommandMetrics × Clock)
update execution_time events m c =
    if has_event events response_from_cache then count_event response_from_cache m c else do
      (m', c') ← count_events events m c
      if not (has_event events short_circuited) && not (has_event events semaphore_rejected)
          then (do
            t ← add (now c') execution_time m'.execution_time
            some (record m' { execution_time = t }, later c'))
          else some (m', c')

unfoldable pub rolling_sum : ExecutionEvent → CommandMetrics → Clock → ℕ × CommandMetrics × Clock
rolling_sum e m c = elim (lookup e m.event_counters) [
  | some n ↦
      (let (s, n') = sum (now c) n in
        (s, record m { event_counters = insert e n' m.event_counters }, later c))
  | none ↦ (0, m, c)
]

unfoldable pub total_requests : CommandMetrics → Clock → ℕ × CommandMetrics × Clock
total_requests m c =
    let (success_count, m1, c1) = rolling_sum success m c in
    let (failure_count, m2, c2) = rolling_sum failure m1 c1 in
    let (timeout_count, m3, c3) = rolling_sum timeout m2 c2 in
    let (short_circuited_count, m4, c4) = rolling_sum short_circuited m3 c3 in
    let (semaphore_rejected_count, m5, c5) = rolling_sum semaphore_rejected m4 c4 in
    (
      add_int64
          (add_int64 (add_int64 (add_int64 success_count failure_count) short_circuited_count)
            timeout_count)
          semaphore_rejected_count,
      m5,
      c5,
    )

unfoldable pub error_count : CommandMetrics → Clock → ℕ × CommandMetrics × Clock
error_count m c =
    let (failure_count, m1, c1) = rolling_sum failure m c in
    let (timeout_count, m2, c2) = rolling_sum timeout m1 c1 in
    let (short_circuited_count, m3, c3) = rolling_sum short_circuited m2 c2 in
    let (semaphore_rejected_count, m4, c4) = rolling_sum semaphore_rejected m3 c3 in
    (
      add_int64 (add_int64 (add_int64 failure_count short_circuited_count) timeout_count)
          semaphore_rejected_count,
      m4,
      c4,
    )

unfoldable pub error_percentage : Float64 → CommandMetrics → Clock → ℕ × CommandMetrics × Clock
error_percentage f m c =
    let (total, m1, c1) = total_requests m c in
    let (errors, m2, c2) = error_count m1 c1 in
    if total == 0
    then (0, m1, c1)
    else (f.to_int (f.mul (f.div (f.of_int errors) (f.of_int total)) (f.of_int 100)), m2, c2)

unfoldable pub execution_time_mean : CommandMetrics → Clock → ℕ × CommandMetrics × Clock
execution_time_mean m c =
    let (v, p) = mean (now c) m.execution_time in (v, record m { execution_time = p }, later c)

-- `none` is a panic of `Get`.
unfoldable pub execution_time_percentile :
    (f : Float64)
    → (List ℕ → List ℕ)
    → f.Float
    → CommandMetrics
    → Clock
    → Option (ℕ × CommandMetrics × Clock)
execution_time_percentile f sort percentile m c =
    let (o, p) = get f sort (now c) percentile m.execution_time in
    elim o [ none ↦ none | some v ↦ some (v, record m { execution_time = p }, later c) ]

pub record ExecutionMetrics : Type 0 where
  pub props : MetricsProperties
  pub command_metrics : List (String × CommandMetrics)

unfoldable pub new_execution_metrics : MetricsProperties → ExecutionMetrics
new_execution_metrics props = record { props = props; command_metrics = [] }

-- The metrics of a command, and all metrics with them, new if there were none.
unfoldable pub fetch_metrics :
    String → ExecutionMetrics → Clock → Option (CommandMetrics × ExecutionMetrics × Clock)
fetch_metrics name em c = elim (lookup name em.command_metrics) [
  | some m ↦ some (m, em, c)
  | none ↦ do
    (m, c') ← new_command_metrics em.props c name
    some (m, record em { command_metrics = insert name m em.command_metrics }, c')
]

-- `Update`.
unfoldable pub update_command :
    String → ℕ → List ExecutionEvent → ExecutionMetrics → Clock → Option (ExecutionMetrics × Clock)
update_command name execution_time events em c = do
  (m, em', c') ← fetch_metrics name em c
  (m', c'') ← update execution_time events m c'
  some (record em' { command_metrics = insert name m' em'.command_metrics }, c'')

unfoldable pub for_command :
    String → ExecutionMetrics → Clock → Option (CommandMetrics × ExecutionMetrics × Clock)
for_command name em c = fetch_metrics name em c

-- `All`, in the order of the map's entries, which Go leaves open.
unfoldable pub all_metrics : ExecutionMetrics → List CommandMetrics
all_metrics em = map (λ (e : String × CommandMetrics). e.1) em.command_metrics
