-- ===== src/MetricsStream/Fields.antt =====
-- metricsstream/handler.go: which counts the fields of an entry report, under a clock that stands
-- still at a time.
use Prim.Native.String.{String}
use cuirass.Prelude.{ℕ, ◌+◌, ◌%◌, ◌^◌, ◌<◌, ◌≡◌, refl, Bool, List, length}
use cuirass.Prelude.Options.{Returns, Returns-map}
use cuirass.Util.Clock.{Clock}
use cuirass.Num.Float.{Float64}
use cuirass.Num.RollingPercentile.{all_values}
use cuirass.Num.RollingPercentile.Range.{RankLaws}
use cuirass.RequestLog.{
  success, failure, timeout, short_circuited, semaphore_rejected, response_from_cache,
  fallback_success, fallback_failure,
}
use cuirass.Metrics.{CommandMetrics}
use cuirass.Metrics.Counts.{still, event_count, CountersValid}
use cuirass.Metrics.Sums.{errors_of}
use cuirass.MetricsStream.{StreamEntry, stream_entry}
use cuirass.MetricsStream.Readings.{
  Reads, Reads-bind, Reads-pure, rolling_sum-Reads, error_count-Reads, total_requests-Reads,
}
use cuirass.MetricsStream.Times.{
  IsPercentage, error_percentage-Reads, execution_time_mean-Reads,
  collect_execution_percentiles-Reads,
}

module _ (t : ℕ) (m : CommandMetrics) where
  -- Each count of the entry is that of the event of its name at time `t`, but two: the rejections by
  -- the semaphore stand as those of a thread pool, and the field of the semaphore is 0.
  pub record Reports (f : Float64) (entry : StreamEntry) : Type 0 where
    pub percentage : IsPercentage t m f entry.error_percentage
    pub error_count_lem : entry.error_count ≡ errors_of t m % 2 ^ 64
    pub request_count_lem : entry.request_count ≡ (event_count t success m + errors_of t m) % 2 ^ 64
    pub failures : entry.rolling_count_failure ≡ event_count t failure m
    pub fallback_failures : entry.rolling_count_fallback_failure ≡ event_count t fallback_failure m
    pub fallback_successes : entry.rolling_count_fallback_success ≡ event_count t fallback_success m
    pub from_cache : entry.rolling_count_response_from_cache ≡ event_count t response_from_cache m
    pub short_circuits : entry.rolling_count_short_circuited ≡ event_count t short_circuited m
    pub successes : entry.rolling_count_success ≡ event_count t success m
    pub timeouts : entry.rolling_count_timeout ≡ event_count t timeout m
    pub rejections : entry.rolling_count_thread_pool_rejected ≡ event_count t semaphore_rejected m
    pub no_rejections : entry.rolling_count_semaphore_rejected ≡ 0

  module _ (f : Float64) (sort : List ℕ → List ℕ) (laws : RankLaws f)
      (same_length : (vs : List ℕ) → length (sort vs) ≡ length vs) where
    entry-Reads :
        (time : ℕ) (is_open : Bool) (name : String)
        → Reads t m (Reports f) (stream_entry f sort time is_open name)
    unfolding stream_entry
    entry-Reads time is_open name =
        Reads-bind t m _ (Reports f) _ _ (error_percentage-Reads t m f) (λ percentage e0.
          Reads-bind t m _ (Reports f) _ _ (error_count-Reads t m) (λ errors e1.
            Reads-bind t m _ (Reports f) _ _ (total_requests-Reads t m) (λ requests e2.
              Reads-bind t m _ (Reports f) _ _ (rolling_sum-Reads t m failure) (λ failures e3.
                Reads-bind t m _ (Reports f) _ _ (rolling_sum-Reads t m fallback_failure) (λ ff e4.
                  Reads-bind t m _ (Reports f) _ _ (rolling_sum-Reads t m fallback_success)
                    (λ fs e5.
                      Reads-bind t m _ (Reports f) _ _ (rolling_sum-Reads t m response_from_cache)
                        (λ fc e6.
                          Reads-bind t m _ (Reports f) _ _ (rolling_sum-Reads t m short_circuited)
                            (λ sc e7.
                              Reads-bind t m _ (Reports f) _ _ (rolling_sum-Reads t m success)
                                (λ su e8.
                                  Reads-bind t m _ (Reports f) _ _
                                    (rolling_sum-Reads t m semaphore_rejected)
                                    (λ sr e9.
                                      Reads-bind t m _ (Reports f) _ _
                                        (rolling_sum-Reads t m timeout)
                                        (λ to e10.
                                          Reads-bind t m _ (Reports f) _ _
                                            (execution_time_mean-Reads t m f sort laws same_length)
                                            (λ em _.
                                              Reads-bind t m _ (Reports f) _ _
                                                (collect_execution_percentiles-Reads t m f sort laws
                                                  same_length)
                                                (λ ep _.
                                                  Reads-bind t m _ (Reports f) _ _
                                                    (execution_time_mean-Reads t m f sort laws
                                                      same_length)
                                                    (λ tm _.
                                                      Reads-bind t m _ (Reports f) _ _
                                                        (collect_execution_percentiles-Reads t m f
                                                          sort laws same_length)
                                                        (λ tp _.
                                                          Reads-pure t m (Reports f) _ (record {
                                                            percentage = e0;
                                                            error_count_lem = e1;
                                                            request_count_lem = e2;
                                                            failures = e3;
                                                            fallback_failures = e4;
                                                            fallback_successes = e5;
                                                            from_cache = e6;
                                                            short_circuits = e7;
                                                            successes = e8;
                                                            timeouts = e10;
                                                            rejections = e9;
                                                            no_rejections = refl;
                                                          }))))))))))))))))

-- Under a clock that stands still at `t`, the entry of a command with valid counters is written
-- without a panic, and reports the counts of its events, the errors, the requests and their percentage at that time. The
-- rejections by the semaphore are reported as those of a thread pool, though, and the field for the
-- semaphore is always 0. The float64 ranks are as IEEE 754 has them, sorting keeps the number of the
-- values, and there are fewer than 2 ^ 62 of them.
pub stream_entry-Reports :
    (f : Float64) (sort : List ℕ → List ℕ) (t time : ℕ) (is_open : Bool) (name : String)
    (m : CommandMetrics)
    → RankLaws f
    → ((vs : List ℕ) → length (sort vs) ≡ length vs)
    → CountersValid m
    → length (all_values m.execution_time.buckets) < 2 ^ 62
    → Returns
        (λ (x : StreamEntry × CommandMetrics × Clock). Reports t m f x.0)
        (stream_entry f sort time is_open name m (still t))
stream_entry-Reports f sort t time is_open name m laws same v few =
    Returns-map
      (entry-Reads t m f sort laws same time is_open name m (still t) (record {
        continues = record { same_counts = λ k. refl; valid = v; same_clock = refl };
        few = few;
      }))
      (λ x p. p.0)
