-- ===== src/Examples/Counting.antt =====
-- Runs of the rolling numbers, the semaphore, the log, the cache and the metrics.
use cuirass.Prelude.{some, take, ◌%◌, ◌*◌, ◌≤◌, ap, ◌≡◌, refl, [], ◌∷◌, arith, map, List}
use cuirass.Prelude.Options.{Returns}
use cuirass.Prelude.Maps.{lookup, string_eq}
use cuirass.Num.Window
use cuirass.Num.Window.{Op, increment_op, sum_op, reset_op}
use cuirass.Num.Window.Recent.{recent}
use cuirass.Num.Window.Retention.{increments}
use cuirass.Num.BucketSize.{default_window_size, default_window_buckets}
use cuirass.Num.RollingNumber.Values.{fresh_number, new_rolling_number-fresh_number}
use cuirass.Num.RollingNumber.Retention.{after, sum-recent}
use cuirass.Num.RollingNumber.{RollingNumber, run, sum}
use cuirass.Num.RollingNumber.Refinement.{view, run_refines}
use cuirass.Num.RollingPercentile.Idle.{get-find_idle}
use cuirass.Num.RollingPercentile.{
  get as get_percentile, mean, buckets_behind, RollingPercentile, reset_bucket, zero_bucket,
}
use cuirass.Num.RollingPercentile.Latest.{latest, add_values, add_values-reset_bucket}
use cuirass.RequestLog.{RequestLog, success, failure, aggregate, write_command, log_string}
use cuirass.RequestLog.Aggregation.{lookup-aggregate, found, occurrences, time_spent}
use cuirass.RequestLog.Order.{distinct}
use cuirass.RequestLog.Text.{joined, piece, log_string_lem}
use cuirass.Examples.Values.{whole}

abbrev two_buckets : RollingNumber
two_buckets = record {
  bucket_size = 10;
  current_bucket = 1;
  current_bucket_time = 5;
  buckets = 3 ∷ 4 ∷ [];
}

abbrev calls : List Op
calls = increment_op 7 ∷ sum_op 16 ∷ increment_op 17 ∷ sum_op 27 ∷ reset_op 28 ∷ sum_op 90 ∷ []

run_refines_example : run two_buckets calls ≡ Window.run (view two_buckets) calls
run_refines_example =
    run_refines calls two_buckets (record { size_pos = omega arith; current_in = omega arith })

abbrev log : RequestLog
log =
    record { command_name = "a"; raw_time = 2000000; events = success ∷ [] }
    ∷ record { command_name = "b"; raw_time = 1000000; events = failure ∷ [] }
    ∷ record { command_name = "a"; raw_time = 3000000; events = success ∷ [] }
    ∷ []

lookup-aggregate_example :
    lookup "a[SUCCESS]" (aggregate log).commands
    ≡ found (occurrences "a[SUCCESS]" log) (time_spent "a[SUCCESS]" log)
lookup-aggregate_example =
    lookup-aggregate "a[SUCCESS]" log (omega arith, (omega arith, (omega arith, tt)))

log_string_lem_example :
    log_string (λ n. "n") log
    ≡ some (joined (map (piece (λ n. "n") log) (distinct [] (map write_command log))))
log_string_lem_example =
    log_string_lem (λ n. "n") log (omega arith, (omega arith, (omega arith, tt)))

abbrev idle_percentile : RollingPercentile
idle_percentile = record {
  bucket_size = 10;
  max_bucket_items = 2;
  current_bucket = 1;
  current_bucket_time = 5;
  buckets =
      record { current_position = 1; vals = 4 ∷ []; capacity = 2 }
      ∷ record { current_position = 0; vals = 8 ∷ 9 ∷ []; capacity = 2 }
      ∷ [];
}

idle_behind : buckets_behind 27 idle_percentile ≡ 2
unfolding buckets_behind
idle_behind = refl

get-find_idle_example :
    ((mean 27 idle_percentile).0 ≡ (mean 5 idle_percentile).0)
    × ((get_percentile whole (λ vs. vs) 27 100 idle_percentile).0
        ≡ (get_percentile whole (λ vs. vs) 5 100 idle_percentile).0)
get-find_idle_example =
    get-find_idle whole (λ vs. vs) 27 100 idle_percentile (omega (arith, idle_behind))
      (ap (λ n. n % 2) idle_behind)

-- Two increments with a sum between them, the first of which is 9.5 seconds old at the end.
abbrev some_calls : List Op
some_calls = increment_op 1500000000 ∷ sum_op 3000000000 ∷ increment_op 7200000000 ∷ []

sum-recent_example :
    (recent (9 * 1000000000) 11000000000 (increments [] some_calls)
      ≤ (sum 11000000000 (after (fresh_number 1000000000) some_calls)).0)
    × ((sum 11000000000 (after (fresh_number 1000000000) some_calls)).0
        ≤ recent (19 * 1000000000) 11000000000 (increments [] some_calls))
sum-recent_example =
    sum-recent default_window_size default_window_buckets 1000000000 11000000000 some_calls
      (new_rolling_number-fresh_number 1000000000)
      (omega arith, (omega arith, (omega arith, omega arith))) (omega arith)

-- Three values in a bucket for two.
add_values-reset_bucket_example :
    Returns
      (λ b. latest b ≡ take 2 (7 ∷ 6 ∷ 5 ∷ []))
      (add_values (5 ∷ 6 ∷ 7 ∷ []) (reset_bucket 2 zero_bucket))
add_values-reset_bucket_example =
    add_values-reset_bucket 2 (5 ∷ 6 ∷ 7 ∷ []) zero_bucket (omega arith)
      (λ e. absurd (omega (arith, e)))
