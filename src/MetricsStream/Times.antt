-- ===== src/MetricsStream/Times.antt =====
-- metricsstream/handler.go: the readings of the percentage of errors and of the execution times.
use mathlib.Core.Path.{ap₂}
use cuirass.Prelude.{
  ℕ, ◌+◌, ◌%◌, ◌^◌, ◌≤◌, ◌≡◌, refl, ap, true, Option, none, some, List, arith, ◌==◌, if◌then◌else◌,
  length, Bool-cases, inl, inr,
}
use cuirass.Prelude.Options.{Returns, returns, Returns-at}
use cuirass.Util.Clock.{Clock, now, later}
use cuirass.Num.Float.{Float64}
use cuirass.Num.RollingPercentile.{RollingPercentile, all_values, mean, get}
use cuirass.Num.RollingPercentile.Range.{
  RankLaws, is_number, Anything, get-Returns, length-values_find,
}
use cuirass.RequestLog.{success}
use cuirass.Metrics.{
  CommandMetrics, error_percentage, execution_time_mean, execution_time_percentile,
}
use cuirass.Metrics.Counts.{event_count}
use cuirass.Metrics.Sums.{Continues, errors_of}
use cuirass.MetricsStream.{
  always, to_milliseconds, percentile_milliseconds, collect_execution_percentiles,
}
use cuirass.MetricsStream.Readings.{
  Steady, Reads, Reads-bind, Reads-pure, error_count-Reads, total_requests-Reads,
}

module _ (t : ℕ) (m : CommandMetrics) where
  module _ (f : Float64) where
    -- The errors in percent of the requests.
    abbrev pub percentage_of : ℕ → ℕ → ℕ
    percentage_of total errors =
        if total == 0
        then 0
        else f.to_int (f.mul (f.div (f.of_int errors) (f.of_int total)) (f.of_int 100))

    abbrev pub IsPercentage : ℕ → Type 0
    IsPercentage v =
        v
        ≡ percentage_of ((event_count t success m + errors_of t m) % 2 ^ 64)
            (errors_of t m % 2 ^ 64)

    percentage_lem :
        (total errors : ℕ) (m1 m2 : CommandMetrics) (c1 c2 : Clock)
        → IsPercentage (percentage_of total errors)
        → Steady t m m1 c1
        → Steady t m m2 c2
        → Returns
            (λ (x : ℕ × CommandMetrics × Clock). IsPercentage x.0 × Steady t m x.1 x.2)
            (some (
              if total == 0 then (0, m1, c1) else (
                f.to_int (f.mul (f.div (f.of_int errors) (f.of_int total)) (f.of_int 100)),
                m2,
                c2,
              )))
    percentage_lem total errors m1 m2 c1 c2 p s1 s2 = elim (Bool-cases (total == 0)) [
      | inl none_yet ↦ rw none_yet (returns _ (rw none_yet at p, s1))
      | inr some_yet ↦ rw some_yet (returns _ (rw some_yet at p, s2))
    ]

    pub error_percentage-Reads : Reads t m IsPercentage (always (error_percentage f))
    unfolding error_percentage always
    error_percentage-Reads m' c s =
        let a = Returns-at (total_requests-Reads t m m' c s) _ refl in
        let b = Returns-at (error_count-Reads t m _ _ a.1) _ refl in
        percentage_lem _ _ _ _ _ _ (ap₂ percentage_of a.0 b.0) a.1 b.1

    module _ (sort : List ℕ → List ℕ) (laws : RankLaws f)
        (same_length : (vs : List ℕ) → length (sort vs) ≡ length vs) where
      later-Continues :
          (m' : CommandMetrics) (c : Clock) → Continues t m m' c → Continues t m m' (later c)
      later-Continues m' c k = record {
        same_counts = k.same_counts;
        valid = k.valid;
        same_clock = ap later k.same_clock;
      }

      pub execution_time_mean-Reads : Reads t m Anything (always execution_time_mean)
      unfolding execution_time_mean mean always
      execution_time_mean-Reads m' c s =
          let k = later-Continues m' c s.continues in
          returns _ (
            tt,
            record {
              continues = record {
                same_counts = k.same_counts;
                valid = k.valid;
                same_clock = k.same_clock;
              };
              few = omega (arith, length-values_find (now c) m'.execution_time, s.few);
            },
          )

      found-Reads :
          (m' : CommandMetrics) (c : Clock) (p : RollingPercentile) (o : Option ℕ)
          → Steady t m m' c
          → length (all_values p.buckets) ≤ length (all_values m'.execution_time.buckets)
          → Returns Anything o
          → Returns
              (λ (x : ℕ × CommandMetrics × Clock). Anything x.0 × Steady t m x.1 x.2)
              (elim o [
                | none ↦ none
                | some v ↦ some (v, record m' { execution_time = p }, later c)
              ])
      found-Reads m' c p o s fewer (returns v h) =
          let k = later-Continues m' c s.continues in
          returns _ (
            tt,
            record {
              continues = record {
                same_counts = k.same_counts;
                valid = k.valid;
                same_clock = k.same_clock;
              };
              few = omega (arith, fewer, s.few);
            },
          )

      time-Reads :
          (p : f.Float)
          → is_number f p ≡ true
          → Reads t m Anything (execution_time_percentile f sort p)
      unfolding execution_time_percentile
      time-Reads p number m' c s =
          let g = get-Returns f sort (now c) p m'.execution_time laws number same_length s.few in
          found-Reads m' c (get f sort (now c) p m'.execution_time).1
            (get f sort (now c) p m'.execution_time).0 s g.1 g.0

      percentile-Reads :
          (p : f.Float)
          → is_number f p ≡ true
          → Reads t m Anything (percentile_milliseconds f sort p)
      unfolding percentile_milliseconds
      percentile-Reads p number =
          Reads-bind t m Anything Anything _ _ (time-Reads p number)
            (λ d _. Reads-pure t m Anything (to_milliseconds d) tt)

      pub collect_execution_percentiles-Reads :
          Reads t m Anything (collect_execution_percentiles f sort)
      unfolding collect_execution_percentiles
      collect_execution_percentiles-Reads =
          Reads-bind t m Anything Anything _ _ (percentile-Reads _ (laws.whole_number _)) (λ p0 _.
            Reads-bind t m Anything Anything _ _ (percentile-Reads _ (laws.whole_number _))
              (λ p25 _.
                Reads-bind t m Anything Anything _ _ (percentile-Reads _ (laws.whole_number _))
                  (λ p50 _.
                    Reads-bind t m Anything Anything _ _ (percentile-Reads _ (laws.whole_number _))
                      (λ p75 _.
                        Reads-bind t m Anything Anything _ _
                          (percentile-Reads _ (laws.whole_number _))
                          (λ p90 _.
                            Reads-bind t m Anything Anything _ _
                              (percentile-Reads _ (laws.whole_number _))
                              (λ p95 _.
                                Reads-bind t m Anything Anything _ _
                                  (percentile-Reads _ (laws.whole_number _))
                                  (λ p99 _.
                                    Reads-bind t m Anything Anything _ _
                                      (percentile-Reads _ laws.half_number)
                                      (λ p99_5 _.
                                        Reads-bind t m Anything Anything _ _
                                          (percentile-Reads _ (laws.whole_number _))
                                          (λ p100 _. Reads-pure t m Anything _ tt)))))))))
