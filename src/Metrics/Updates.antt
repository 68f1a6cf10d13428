-- ===== src/Metrics/Updates.antt =====
-- metrics/commandmetrics.go: what one update of the metrics counts.
use cuirass.Prelude.{sym, ◌∙◌, ℕ, not, ◌&&◌, List, Bool-cases, inl, inr}
use cuirass.Prelude.Options.{Returns, returns, >>=-Returns, Returns-if, Returns-map, Returns-both}
use cuirass.Util.Clock.{Clock, now}
use cuirass.RequestLog.{ExecutionEvent, response_from_cache, short_circuited, semaphore_rejected}
use cuirass.Metrics.{CommandMetrics, has_event, update}
use cuirass.Metrics.Totality.{IsReady, count_events_total, same-IsReady, add-Returns}
use cuirass.Metrics.Counts.{still, CountersValid, count_event-Counted}
use cuirass.Metrics.Tallies.{
  CountedAll, Counted-CountedAll_one, count_events-CountedAll, counted_events, has_event-times,
}

-- At a time `t`, and with valid counters and execution times, an update returns, and counts the
-- events as often as they stand in its list; but a response from the cache is counted alone, once,
-- whatever stands beside it. The counters stay valid, and those of other events stay as they are.
pub update-CountedAll :
    (t execution_time : ℕ) (es : List ExecutionEvent) (m : CommandMetrics)
    → CountersValid m
    → IsReady m
    → Returns
        (λ (r : CommandMetrics × Clock). CountedAll t (counted_events es) m r.0)
        (update execution_time es m (still t))
unfolding update
update-CountedAll t execution_time es m v ready =
    elim (Bool-cases (has_event es response_from_cache)) [
      | inl cached ↦
          rw (cached, sym (has_event-times response_from_cache es) ∙ cached)
            (Returns-map (count_event-Counted t response_from_cache m v)
              (λ r c. Counted-CountedAll_one t response_from_cache m r.0 c.0))
      | inr run ↦
          rw (run, sym (has_event-times response_from_cache es) ∙ run)
            (>>=-Returns
              (Returns-both (count_events-CountedAll t es m v) (count_events_total es m (still t)))
              (λ (m', c') (a, same).
                Returns-if
                  (not (has_event es short_circuited) && not (has_event es semaphore_rejected))
                  (>>=-Returns
                    (add-Returns (now c') execution_time m'.execution_time
                      (same-IsReady m m' same ready))
                    (λ p valid. returns _ (record { valid = a.0.valid; counts = a.0.counts })))
                  (returns _ a.0)))
    ]
