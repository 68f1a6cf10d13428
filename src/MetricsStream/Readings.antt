-- ===== src/MetricsStream/Readings.antt =====
-- metricsstream/handler.go: the readings that an entry is made of, under a clock that stands still.

use cuirass.Prelude.{ℕ, ◌+◌, ◌%◌, ◌^◌, ◌<◌, ◌≡◌, Option, none, some, arith, length}
use cuirass.Prelude.Options.{Returns, returns}
use cuirass.Prelude.Words.{add_int64}
use cuirass.Util.Clock.{Clock}
use cuirass.Num.RollingPercentile.{all_values}
use cuirass.RequestLog.{
  ExecutionEvent, success, failure, timeout, short_circuited, semaphore_rejected,
}
use cuirass.Metrics.{CommandMetrics, rolling_sum, total_requests, error_count}
use cuirass.Metrics.Counts.{event_count}
use cuirass.Metrics.Sums.{Continues, sum_next, rolling_sum-Summed, errors_of}
use cuirass.MetricsStream.{Reading, ◌>>=◌, pure, always}

-- The metrics `m'` and the clock while the metrics `m` are read at time `t`.
pub record Steady (t : ℕ) (m m' : CommandMetrics) (c : Clock) : Type 0 where
  pub continues : Continues t m m' c
  pub few : length (all_values m'.execution_time.buckets) < 2 ^ 62

module _ (t : ℕ) (m : CommandMetrics) where
  -- The reading does not panic, finds what `P` says and leaves the counts as they are.
  abbrev pub Reads : {A : Type 0} → (A → Type 0) → Reading A → Type 0
  Reads {A} P r =
      (m' : CommandMetrics) (c : Clock)
      → Steady t m m' c
      → Returns (λ (x : A × CommandMetrics × Clock). P x.0 × Steady t m x.1 x.2) (r m' c)

  pub Reads-bind :
      {A B : Type 0} (P : A → Type 0) (Q : B → Type 0) (r : Reading A) (f : A → Reading B)
      → Reads P r
      → ((a : A) → P a → Reads Q (f a))
      → Reads Q (r >>= f)
  unfolding ◌>>=◌
  Reads-bind {A} {B} P Q r f h k m' c s = step (r m' c) (h m' c s)
    where
      step :
          (o : Option (A × CommandMetrics × Clock))
          → Returns (λ (x : A × CommandMetrics × Clock). P x.0 × Steady t m x.1 x.2) o
          → Returns
              (λ (x : B × CommandMetrics × Clock). Q x.0 × Steady t m x.1 x.2)
              (elim o [ none ↦ none | some (a, m', c') ↦ f a m' c' ])
      step o (returns (a, m'', c'') p) = k a p.0 m'' c'' p.1

  pub Reads-pure : {A : Type 0} (P : A → Type 0) (a : A) → P a → Reads P (pure a)
  unfolding pure
  Reads-pure P a p m' c s = returns _ (p, s)

  pub rolling_sum-Reads :
      (e : ExecutionEvent) → Reads (λ v. v ≡ event_count t e m) (always (rolling_sum e))
  unfolding always
  rolling_sum-Reads e m' c s =
      let n = sum_next t e m m' c s.continues in
      let same =
        (rolling_sum-Summed t e m' c s.continues.same_clock s.continues.valid).same_times in
      returns _ (n.0, record { continues = n.1; few = rw same s.few })

  pub error_count-Reads : Reads (λ v. v ≡ errors_of t m % 2 ^ 64) (always error_count)
  unfolding error_count always pure ◌>>=◌
  error_count-Reads = Reads-bind _ _ _ _ (rolling_sum-Reads failure) (λ a pa.
      Reads-bind _ _ _ _ (rolling_sum-Reads timeout) (λ b pb.
        Reads-bind _ _ _ _ (rolling_sum-Reads short_circuited) (λ d pd.
          Reads-bind _ _ _ _ (rolling_sum-Reads semaphore_rejected) (λ e pe.
            Reads-pure _ (add_int64 (add_int64 (add_int64 a d) b) e)
              (omega (arith, pa, pb, pd, pe))))))

  pub total_requests-Reads :
      Reads (λ v. v ≡ (event_count t success m + errors_of t m) % 2 ^ 64) (always total_requests)
  unfolding total_requests always pure ◌>>=◌
  total_requests-Reads = Reads-bind _ _ _ _ (rolling_sum-Reads success) (λ x px.
      Reads-bind _ _ _ _ (rolling_sum-Reads failure) (λ a pa.
        Reads-bind _ _ _ _ (rolling_sum-Reads timeout) (λ b pb.
          Reads-bind _ _ _ _ (rolling_sum-Reads short_circuited) (λ d pd.
            Reads-bind _ _ _ _ (rolling_sum-Reads semaphore_rejected) (λ e pe.
              Reads-pure _ (add_int64 (add_int64 (add_int64 (add_int64 x a) d) b) e)
                (omega (arith, px, pa, pb, pd, pe)))))))
