-- ===== src/Metrics/Tallies.antt =====
-- metrics/commandmetrics.go: how a list of events changes the counts, under a clock that stands still.

use cuirass.Prelude.{
  ℕ, ◌+◌, ◌%◌, ◌^◌, ◌<◌, ◌≡◌, refl, ap, ◌∙◌, Bool, true, false, Option, none, some, List, [], ◌∷◌,
  arith, if◌then◌else◌, ltb,
}
use cuirass.Prelude.Options.{Returns, returns, >>=-Returns, Returns-map}
use cuirass.Prelude.Maps.{lookup}
use cuirass.Util.Clock.{Clock}
use cuirass.Num.RollingNumber.{RollingNumber}
use cuirass.RequestLog.{ExecutionEvent, response_from_cache}
use cuirass.Metrics.{CommandMetrics, count_events, has_event}
use cuirass.Metrics.Events.{same_event, event_eq}
use cuirass.Metrics.Counts.{
  still, count_at, event_count, CountersValid, Counted, count_event-Counted,
}

-- How often an event stands in a list.
abbrev pub times : ExecutionEvent → List ExecutionEvent → ℕ
times k [] = 0
times k (e ∷ es) = (if same_event e k then 1 else 0) + times k es

-- Each event has been counted as often as it stands in the list.
pub record CountedAll (t : ℕ) (es : List ExecutionEvent) (m m' : CommandMetrics) : Type 0 where
  pub valid : CountersValid m'
  pub counts : (k : ExecutionEvent) → event_count t k m' ≡ (event_count t k m + times k es) % 2 ^ 64

event_count-lt : (t : ℕ) (k : ExecutionEvent) (m : CommandMetrics) → event_count t k m < 2 ^ 64
event_count-lt t k m = below (lookup k m.event_counters)
  where
    below : (o : Option RollingNumber) → count_at t o < 2 ^ 64
    below none = omega arith
    below (some n) = omega arith

Counted-CountedAll :
    (t : ℕ) (e : ExecutionEvent) (es : List ExecutionEvent) (m m' m'' : CommandMetrics)
    → Counted t e m m'
    → CountedAll t es m' m''
    → CountedAll t (e ∷ es) m m''
Counted-CountedAll t e es m m' m'' c a = record {
  valid = a.valid;
  counts = λ k.
      a.counts k
      ∙ ap (λ (x : ℕ). (x + times k es) % 2 ^ 64) (c.counts k)
      ∙ by_test (event_count t k m) (times k es) (same_event e k);
}
  where
    by_test :
        (x y : ℕ) (b : Bool)
        → ((if b then (x + 1) % 2 ^ 64 else x) + y) % 2 ^ 64
          ≡ (x + ((if b then 1 else 0) + y)) % 2 ^ 64
    by_test x y true = omega arith
    by_test x y false = omega arith

pub Counted-CountedAll_one :
    (t : ℕ) (e : ExecutionEvent) (m m' : CommandMetrics)
    → Counted t e m m'
    → CountedAll t (e ∷ []) m m'
Counted-CountedAll_one t e m m' c =
    Counted-CountedAll t e [] m m' m' c
      (record { valid = c.valid; counts = λ k. omega (arith, event_count-lt t k m') })

pub count_events-CountedAll :
    (t : ℕ) (es : List ExecutionEvent) (m : CommandMetrics)
    → CountersValid m
    → Returns
        (λ (r : CommandMetrics × Clock). CountedAll t es m r.0 × (r.1 ≡ still t))
        (count_events es m (still t))
unfolding count_events
count_events-CountedAll t [] m v =
    returns _ (record { valid = v; counts = λ k. omega (arith, event_count-lt t k m) }, refl)
count_events-CountedAll t (e ∷ es) m v =
    >>=-Returns (count_event-Counted t e m v) (λ (m', c') (c, q). rw q (
      Returns-map (count_events-CountedAll t es m' c.valid)
        (λ r a. (Counted-CountedAll t e es m m' r.0 c a.0, a.1))))

-- A test for an event finds it where it stands in the list at least once.
pub has_event-times :
    (k : ExecutionEvent) (es : List ExecutionEvent) → has_event es k ≡ ltb 0 (times k es)
unfolding has_event
has_event-times k [] = refl
has_event-times k (e ∷ es) = by_test (same_event e k) (has_event-times k es)
  where
    by_test :
        (b : Bool)
        → has_event es k ≡ ltb 0 (times k es)
        → (if b then true else has_event es k) ≡ ltb 0 ((if b then 1 else 0) + times k es)
    by_test true h = ground arith
    by_test false h = h ∙ ap (ltb 0) (omega arith)

-- The events that an update counts: where a response from the cache stands in the list, that one alone.
abbrev pub counted_events : List ExecutionEvent → List ExecutionEvent
counted_events es = if ltb 0 (times response_from_cache es) then response_from_cache ∷ [] else es
