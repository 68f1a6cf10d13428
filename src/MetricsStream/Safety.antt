-- ===== src/MetricsStream/Safety.antt =====
-- metricsstream/handler.go: that the readings of an entry do not panic, at any readings of the clock.
use Prim.Native.String.{String}
use cuirass.Prelude.{
  ℕ, ◌^◌, ◌≤◌, ◌<◌, ◌≡◌, refl, Bool, true, Option, none, some, List, arith, ◌==◌, length,
  Option-cases, if_both, inl, inr,
}
use cuirass.Prelude.Options.{Returns, returns, Returns-at}
use cuirass.Prelude.Words.{add_int64}
use cuirass.Prelude.Maps.{lookup, string_eq}
use cuirass.Util.Clock.{Clock, now, later}
use cuirass.Num.Float.{Float64}
use cuirass.Num.RollingPercentile.{RollingPercentile, all_values, mean, get}
use cuirass.Num.RollingPercentile.Range.{
  RankLaws, is_number, Anything, get-Returns, length-values_find,
}
use cuirass.RequestLog.{
  ExecutionEvent, success, failure, timeout, short_circuited, semaphore_rejected,
  response_from_cache, fallback_success, fallback_failure,
}
use cuirass.Metrics.{
  CommandMetrics, rolling_sum, total_requests, error_count, error_percentage, execution_time_mean,
  execution_time_percentile,
}
use cuirass.Metrics.Events.{event_eq}
use cuirass.MetricsStream.{
  StreamEntry, Reading, ◌>>=◌, pure, always, to_milliseconds, percentile_milliseconds,
  collect_execution_percentiles, stream_entry,
}

abbrev pub Few : CommandMetrics → Type 0
Few m = length (all_values m.execution_time.buckets) < 2 ^ 62

-- The reading does not panic, finds what `P` says and keeps the values few.
abbrev pub Safe : {A : Type 0} → (A → Type 0) → Reading A → Type 0
Safe {A} P r =
    (m : CommandMetrics) (c : Clock)
    → Few m
    → Returns (λ (x : A × CommandMetrics × Clock). P x.0 × Few x.1) (r m c)

pub Safe-bind :
    {A B : Type 0} (P : B → Type 0) (r : Reading A) (f : A → Reading B)
    → Safe Anything r
    → ((a : A) → Safe P (f a))
    → Safe P (r >>= f)
unfolding ◌>>=◌
Safe-bind {A} {B} P r f h k m c few = step (r m c) (h m c few)
  where
    step :
        (o : Option (A × CommandMetrics × Clock))
        → Returns (λ (x : A × CommandMetrics × Clock). Anything x.0 × Few x.1) o
        → Returns
            (λ (x : B × CommandMetrics × Clock). P x.0 × Few x.1)
            (elim o [ none ↦ none | some (a, m', c') ↦ f a m' c' ])
    step o (returns (a, m', c') p) = k a m' c' p.1

pub Safe-pure : {A : Type 0} (P : A → Type 0) (a : A) → P a → Safe P (pure a)
unfolding pure
Safe-pure P a p m c few = returns _ (p, few)

rolling_sum-Safe : (e : ExecutionEvent) → Safe Anything (always (rolling_sum e))
unfolding always rolling_sum
rolling_sum-Safe e m c few = elim (Option-cases (lookup e m.event_counters)) [
  | inl none_yet ↦ rw (always, rolling_sum, none_yet) (returns _ (tt, few))
  | inr (n, found) ↦ rw (always, rolling_sum, found) (returns _ (tt, few))
]

pub error_count-Safe : Safe Anything (always error_count)
unfolding error_count always pure ◌>>=◌
error_count-Safe = Safe-bind _ _ _ (rolling_sum-Safe failure) (λ a.
    Safe-bind _ _ _ (rolling_sum-Safe timeout) (λ b.
      Safe-bind _ _ _ (rolling_sum-Safe short_circuited) (λ d.
        Safe-bind _ _ _ (rolling_sum-Safe semaphore_rejected)
          (λ e. Safe-pure Anything (add_int64 (add_int64 (add_int64 a d) b) e) tt))))

pub total_requests-Safe : Safe Anything (always total_requests)
unfolding total_requests always pure ◌>>=◌
total_requests-Safe = Safe-bind _ _ _ (rolling_sum-Safe success) (λ x.
    Safe-bind _ _ _ (rolling_sum-Safe failure) (λ a.
      Safe-bind _ _ _ (rolling_sum-Safe timeout) (λ b.
        Safe-bind _ _ _ (rolling_sum-Safe short_circuited) (λ d.
          Safe-bind _ _ _ (rolling_sum-Safe semaphore_rejected) (λ e.
            Safe-pure Anything (add_int64 (add_int64 (add_int64 (add_int64 x a) d) b) e) tt)))))

module _ (f : Float64) (sort : List ℕ → List ℕ) (laws : RankLaws f)
    (same_length : (vs : List ℕ) → length (sort vs) ≡ length vs) where
  pub error_percentage-Safe : Safe Anything (always (error_percentage f))
  unfolding error_percentage always
  error_percentage-Safe m c few =
      let a = Returns-at (total_requests-Safe m c few) _ refl in
      let b = Returns-at (error_count-Safe _ _ a.1) _ refl in
      returns _ (
        tt,
        if_both (λ (x : ℕ × CommandMetrics × Clock). Few x.1) ((total_requests m c).0 == 0) a.1 b.1,
      )

  pub execution_time_mean-Safe : Safe Anything (always execution_time_mean)
  unfolding execution_time_mean mean always
  execution_time_mean-Safe m c few =
      returns _ (tt, omega (arith, length-values_find (now c) m.execution_time, few))

  found-Safe :
      (m : CommandMetrics) (c : Clock) (p : RollingPercentile) (o : Option ℕ)
      → Few m
      → length (all_values p.buckets) ≤ length (all_values m.execution_time.buckets)
      → Returns Anything o
      → Returns
          (λ (x : ℕ × CommandMetrics × Clock). Anything x.0 × Few x.1)
          (elim o [ none ↦ none | some v ↦ some (v, record m { execution_time = p }, later c) ])
  found-Safe m c p o few fewer (returns v h) = returns _ (tt, omega (arith, fewer, few))

  pub execution_time_percentile-Safe :
      (p : f.Float) → is_number f p ≡ true → Safe Anything (execution_time_percentile f sort p)
  unfolding execution_time_percentile
  execution_time_percentile-Safe p number m c few =
      let g = get-Returns f sort (now c) p m.execution_time laws number same_length few in
      found-Safe m c (get f sort (now c) p m.execution_time).1
        (get f sort (now c) p m.execution_time).0 few g.1 g.0

  percentile-Safe :
      (p : f.Float) → is_number f p ≡ true → Safe Anything (percentile_milliseconds f sort p)
  unfolding percentile_milliseconds
  percentile-Safe p number =
      Safe-bind Anything _ _ (execution_time_percentile-Safe p number)
        (λ d. Safe-pure Anything (to_milliseconds d) tt)

  percentiles-Safe : Safe Anything (collect_execution_percentiles f sort)
  unfolding collect_execution_percentiles
  percentiles-Safe = Safe-bind _ _ _ (percentile-Safe _ (laws.whole_number _)) (λ p0.
      Safe-bind _ _ _ (percentile-Safe _ (laws.whole_number _)) (λ p25.
        Safe-bind _ _ _ (percentile-Safe _ (laws.whole_number _)) (λ p50.
          Safe-bind _ _ _ (percentile-Safe _ (laws.whole_number _)) (λ p75.
            Safe-bind _ _ _ (percentile-Safe _ (laws.whole_number _)) (λ p90.
              Safe-bind _ _ _ (percentile-Safe _ (laws.whole_number _)) (λ p95.
                Safe-bind _ _ _ (percentile-Safe _ (laws.whole_number _)) (λ p99.
                  Safe-bind _ _ _ (percentile-Safe _ laws.half_number) (λ p99_5.
                    Safe-bind _ _ _ (percentile-Safe _ (laws.whole_number _))
                      (λ p100. Safe-pure Anything _ tt)))))))))

  pub entry-Safe :
      (time : ℕ) (is_open : Bool) (name : String)
      → Safe (λ entry. entry.name ≡ name) (stream_entry f sort time is_open name)
  unfolding stream_entry
  entry-Safe time is_open name = Safe-bind _ _ _ error_percentage-Safe (λ percentage.
      Safe-bind _ _ _ error_count-Safe (λ errors. Safe-bind _ _ _ total_requests-Safe (λ requests.
        Safe-bind _ _ _ (rolling_sum-Safe failure) (λ failures.
          Safe-bind _ _ _ (rolling_sum-Safe fallback_failure) (λ ff.
            Safe-bind _ _ _ (rolling_sum-Safe fallback_success) (λ fs.
              Safe-bind _ _ _ (rolling_sum-Safe response_from_cache) (λ fc.
                Safe-bind _ _ _ (rolling_sum-Safe short_circuited) (λ sc.
                  Safe-bind _ _ _ (rolling_sum-Safe success) (λ su.
                    Safe-bind _ _ _ (rolling_sum-Safe semaphore_rejected) (λ sr.
                      Safe-bind _ _ _ (rolling_sum-Safe timeout) (λ to.
                        Safe-bind _ _ _ execution_time_mean-Safe (λ em.
                          Safe-bind _ _ _ percentiles-Safe (λ ep.
                            Safe-bind _ _ _ execution_time_mean-Safe (λ tm.
                              Safe-bind _ _ _ percentiles-Safe (λ tp.
                                Safe-pure (λ (entry : StreamEntry). entry.name ≡ name) _
                                  refl)))))))))))))))
