-- ===== src/Demo/Reports.antt =====
-- examples/main.go: what a round of the monitor prints of the metrics. The timer that starts the rounds
-- is not in it.
use Prim.Native.String.{String, ◌++◌ as ◌<>◌}
use cuirass.Prelude.{ℕ, ◌≡◌, refl, Option, some, List, [], ◌∷◌, length}
use cuirass.Prelude.Options.{◌>>=◌ as ◌>>>◌, Returns, returns, >>=-Returns}
use cuirass.Prelude.Words.{div_int64}
use cuirass.Prelude.Maps.{string_eq, insert}
use cuirass.Num.BucketSize.{millisecond}
use cuirass.Num.Float.{Float64}
use cuirass.Num.RollingPercentile.Range.{RankLaws}
use cuirass.Metrics.{
  CommandMetrics, total_requests, error_count, error_percentage, execution_time_mean,
  execution_time_percentile, all_metrics,
}
use cuirass.Executor.{State}
use cuirass.MetricsStream.{Reading, ◌>>=◌, pure, always}
use cuirass.MetricsStream.Safety.{
  Few, Safe, Safe-bind, Safe-pure, total_requests-Safe, error_count-Safe, error_percentage-Safe,
  execution_time_mean-Safe, execution_time_percentile-Safe,
}
use cuirass.MetricsStream.Rounds.{AllFew}

unfoldable pub in_milliseconds : ℕ → ℕ
in_milliseconds d = div_int64 d millisecond

-- float64 and the order of sort.Sort, and strconv.Itoa.
module _ (f : Float64) (sort : List ℕ → List ℕ) (itoa : ℕ → String) where
  unfoldable pub command_metrics_as_string : Reading String
  command_metrics_as_string = do
    total ← always total_requests
    errors ← always error_count
    percentage ← always (error_percentage f)
    mean ← always execution_time_mean
    p75 ← execution_time_percentile f sort (f.of_int 75)
    p90 ← execution_time_percentile f sort (f.of_int 90)
    p99 ← execution_time_percentile f sort (f.of_int 99)
    pure (
        "Requests: "
        <> (itoa total
            <> (" Errors: "
                <> (itoa errors
                    <> (" ("
                        <> (itoa percentage
                            <> ("%)"
                                <> (" Mean: "
                                    <> (itoa (in_milliseconds mean)
                                        <> (" 75th: "
                                            <> (itoa (in_milliseconds p75)
                                                <> (" 90th: "
                                                    <> (itoa (in_milliseconds p90)
                                                        <> (" 99th: "
                                                            <> itoa
                                                            (in_milliseconds p99)))))))))))))))

  -- The line of a command, and the executor with its metrics as they were left.
  unfoldable pub metrics_line :
      {V W : Type 0} → CommandMetrics → State V W → Option (String × State V W)
  metrics_line m s = command_metrics_as_string m s.clock >>> (λ (text, m', c'). some (
    "# " <> (m.name <> (": " <> (text <> "\n"))),
    record s {
      metrics = record s.metrics { command_metrics = insert m.name m' s.metrics.command_metrics };
      clock = c';
    },
  ))

  unfoldable pub metrics_lines :
      {V W : Type 0} → List CommandMetrics → State V W → Option (List String × State V W)
  metrics_lines [] s = some ([], s)
  metrics_lines (m ∷ ms) s =
      metrics_line m s
      >>> (λ (line, s'). metrics_lines ms s' >>> (λ (lines, s''). some (line ∷ lines, s'')))

  -- A round of `monitorMetrics`, as the list of the strings that are written for the commands.
  unfoldable pub monitor_round : {V W : Type 0} → State V W → Option (List String × State V W)
  monitor_round s = metrics_lines (all_metrics s.metrics) s

-- What is printed of a command: its name, and seven numbers of its metrics, the last four of which are
-- times, each behind its label.
pub record IsLine (itoa : ℕ → String) (name line : String) : Type 0 where
  pub requests : ℕ
  pub errors : ℕ
  pub percentage : ℕ
  pub mean : ℕ
  pub p75 : ℕ
  pub p90 : ℕ
  pub p99 : ℕ
  pub written :
      line
      ≡ "# "
        <> (name
            <> (": "
                <> (("Requests: "
                      <> (itoa requests
                          <> (" Errors: "
                              <> (itoa errors
                                  <> (" ("
                                      <> (itoa percentage
                                          <> ("%)"
                                              <> (" Mean: "
                                                  <> (itoa mean
                                                      <> (" 75th: "
                                                          <> (itoa p75
                                                            <> (" 90th: "
                                                            <> (itoa p90
                                                            <> (" 99th: " <> itoa p99))))))))))))))
                    <> "\n")))

-- Each line is that of the command in its place.
abbrev pub AreLines : (ℕ → String) → List CommandMetrics → List String → Type 0
AreLines itoa [] [] = Unit {0}
AreLines itoa (m ∷ ms) (line ∷ lines) = IsLine itoa m.name line × AreLines itoa ms lines
AreLines itoa [] (line ∷ lines) = ⊥
AreLines itoa (m ∷ ms) [] = ⊥

module _ (f : Float64) (sort : List ℕ → List ℕ) (itoa : ℕ → String) (laws : RankLaws f)
    (same_length : (vs : List ℕ) → length (sort vs) ≡ length vs) where
  -- The text of a command, by the line that it makes.
  abbrev IsText : String → Type 0
  IsText text = (name : String) → IsLine itoa name ("# " <> (name <> (": " <> (text <> "\n"))))

  command_metrics_as_string-Safe : Safe IsText (command_metrics_as_string f sort itoa)
  unfolding command_metrics_as_string
  command_metrics_as_string-Safe =
      let percentile = λ (n : ℕ).
        execution_time_percentile-Safe f sort laws same_length (f.of_int n) (laws.whole_number n) in
      Safe-bind _ _ _ total_requests-Safe (λ total. Safe-bind _ _ _ error_count-Safe (λ errors.
        Safe-bind _ _ _ (error_percentage-Safe f sort laws same_length) (λ percentage.
          Safe-bind _ _ _ (execution_time_mean-Safe f sort laws same_length) (λ mean.
            Safe-bind _ _ _ (percentile 75) (λ p75. Safe-bind _ _ _ (percentile 90) (λ p90.
              Safe-bind _ _ _ (percentile 99) (λ p99. Safe-pure IsText _ (λ name. record {
                requests = total;
                errors = errors;
                percentage = percentage;
                mean = in_milliseconds mean;
                p75 = in_milliseconds p75;
                p90 = in_milliseconds p90;
                p99 = in_milliseconds p99;
                written = refl;
              }))))))))

  metrics_line-Returns :
      {V W : Type 0} (m : CommandMetrics) (s : State V W)
      → Few m
      → Returns (λ (line, s'). IsLine itoa m.name line) (metrics_line f sort itoa m s)
  unfolding metrics_line
  metrics_line-Returns m s few =
      >>=-Returns (command_metrics_as_string-Safe m s.clock few) (λ x k. returns _ (k.0 m.name))

  metrics_lines-Returns :
      {V W : Type 0} (ms : List CommandMetrics) (s : State V W)
      → AllFew ms
      → Returns (λ (lines, s'). AreLines itoa ms lines) (metrics_lines f sort itoa ms s)
  unfolding metrics_lines
  metrics_lines-Returns [] s few = returns _ tt
  metrics_lines-Returns (m ∷ ms) s few =
      >>=-Returns (metrics_line-Returns m s few.0) (λ (line, s') u.
        >>=-Returns (metrics_lines-Returns ms s' few.1) (λ (lines, s'') n. returns _ (u, n)))

  -- A round of the monitor prints a line for each command that has metrics, in their order: the
  -- command's name and behind it seven numbers, each behind its label. It does not panic at any
  -- readings of the clock. Which the numbers are is not stated. The float64 ranks are as IEEE 754 has them, sorting keeps the number of the
  -- values, and no command has as many as 2 ^ 62 of them.
  pub monitor_round-Returns :
      {V W : Type 0} (s : State V W)
      → AllFew (all_metrics s.metrics)
      → Returns
          (λ (lines, s'). AreLines itoa (all_metrics s.metrics) lines)
          (monitor_round f sort itoa s)
  unfolding monitor_round
  monitor_round-Returns s few = metrics_lines-Returns (all_metrics s.metrics) s few
