-- ===== src/Metrics/Totality.antt =====
-- metrics/commandmetrics.go: panics in the updates of the metrics.
use Prim.Native.String.{String}
use mathlib.Core.Path.{subst}
use mathlib.Core.Option.{some-injective}
use cuirass.Prelude.{
  ℕ, ◌<◌, ◌≡◌, refl, sym, ◌∙◌, Bool, true, false, not, ◌&&◌, Option, none, some, List, [], ◌∷◌,
  arith, if◌then◌else◌,
}
use cuirass.Prelude.Options.{◌>>=◌, Returns, returns, >>=-Returns, Returns-if}
use cuirass.Prelude.Maps.{string_eq, lookup, insert, lookup-insert}
use cuirass.Util.Clock.{Clock, now, later}
use cuirass.Num.BucketSize.{default_window_size, default_window_buckets}
use cuirass.Num.RollingNumber.{RollingNumber, new_rolling_number}
use cuirass.Num.RollingPercentile.{RollingPercentile, add}
use cuirass.Num.RollingPercentile.Bucket
use cuirass.Num.RollingPercentile.Bucket.{add-IsValid, new_rolling_percentile-IsValid}
use cuirass.RequestLog.{ExecutionEvent, response_from_cache, short_circuited, semaphore_rejected}
use cuirass.Metrics.{
  CommandMetrics, new_command_metrics, has_event, find_event_counter, count_event, count_events,
  update, ExecutionMetrics, fetch_metrics, update_command,
}
use cuirass.Metrics.Events.{event_eq}

-- A counter with the default sizes is always made.
new_counter :
    (t : ℕ)
    → (n : RollingNumber) × (new_rolling_number default_window_size default_window_buckets t
        ≡ some n)
unfolding new_rolling_number
new_counter t = (_, refl)

pub add-Returns :
    (now v : ℕ) (p : RollingPercentile) → Bucket.IsValid p → Returns Bucket.IsValid (add now v p)
add-Returns now v p h = let (p', e, w) = add-IsValid now v p h in rw e (returns p' w)

abbrev pub KeepsTime : CommandMetrics → CommandMetrics → Type 0
KeepsTime m m' = m'.execution_time ≡ m.execution_time

find_event_counter_total :
    (e : ExecutionEvent) (m : CommandMetrics) (c : Clock)
    → Returns
        (λ (r : RollingNumber × CommandMetrics × Clock). KeepsTime m r.1)
        (find_event_counter e m c)
unfolding find_event_counter
find_event_counter_total e m c = by_lookup (lookup e m.event_counters)
  where
    by_lookup :
        (o : Option RollingNumber)
        → Returns
            (λ (r : RollingNumber × CommandMetrics × Clock). KeepsTime m r.1)
            (elim o [
              | some n ↦ some (n, m, c)
              | none ↦ do
                n ← new_rolling_number default_window_size default_window_buckets (now c)
                some (n, record m { event_counters = insert e n m.event_counters }, later c)
            ])
    by_lookup (some n) = returns _ refl
    by_lookup none = rw (new_counter (now c)).1 (returns _ refl)

-- Counting an event never panics, and leaves the execution times alone.
count_event_total :
    (e : ExecutionEvent) (m : CommandMetrics) (c : Clock)
    → Returns (λ (r : CommandMetrics × Clock). KeepsTime m r.0) (count_event e m c)
unfolding count_event
count_event_total e m c =
    >>=-Returns (find_event_counter_total e m c) (λ (n, m', c') same. returns _ same)

pub count_events_total :
    (es : List ExecutionEvent) (m : CommandMetrics) (c : Clock)
    → Returns (λ (r : CommandMetrics × Clock). KeepsTime m r.0) (count_events es m c)
unfolding count_events
count_events_total [] m c = returns _ refl
count_events_total (e ∷ es) m c =
    >>=-Returns (count_event_total e m c)
      (λ (m', c') same. rw (← same) (count_events_total es m' c'))

abbrev pub IsReady : CommandMetrics → Type 0
IsReady m = Bucket.IsValid m.execution_time

pub same-IsReady : (m m' : CommandMetrics) → KeepsTime m m' → IsReady m → IsReady m'
same-IsReady m m' e v = subst Bucket.IsValid (sym e) v

update_total :
    (t : ℕ) (es : List ExecutionEvent) (m : CommandMetrics) (c : Clock)
    → IsReady m
    → Returns (λ (r : CommandMetrics × Clock). IsReady r.0) (update t es m c)
unfolding update
update_total t es m c v =
    Returns-if (has_event es response_from_cache)
      (weaken (count_event_total response_from_cache m c))
      (>>=-Returns (count_events_total es m c) (λ (m', c') same.
        Returns-if (not (has_event es short_circuited) && not (has_event es semaphore_rejected))
          (>>=-Returns (add-Returns (now c') t m'.execution_time (same-IsReady m m' same v))
            (λ p valid. returns _ valid))
          (returns _ (same-IsReady m m' same v))))
  where
    weaken :
        {o : Option (CommandMetrics × Clock)}
        → Returns (λ (r : CommandMetrics × Clock). KeepsTime m r.0) o
        → Returns (λ (r : CommandMetrics × Clock). IsReady r.0) o
    weaken (returns r same) = returns r (same-IsReady m r.0 same v)

-- The buckets have room for items, and so does each of the percentiles.
pub record IsValid (em : ExecutionMetrics) : Type 0 where
  pub room : 0 < em.props.rolling_percentile_bucket_size
  pub ready :
      (name : String) (m : CommandMetrics) → lookup name em.command_metrics ≡ some m → IsReady m

with_metrics :
    (em : ExecutionMetrics) (name : String) (m : CommandMetrics)
    → IsValid em
    → IsReady m
    → IsValid (record em { command_metrics = insert name m em.command_metrics })
with_metrics em name m v r = record {
  room = v.room;
  ready = λ k m' e.
      by_key k m' (string_eq.beq name k) (sym (lookup-insert name k m em.command_metrics) ∙ e);
}
  where
    by_key :
        (k : String) (m' : CommandMetrics) (b : Bool)
        → (if b then some m else lookup k em.command_metrics) ≡ some m'
        → IsReady m'
    by_key k m' true e = subst IsReady (some-injective m m' e) r
    by_key k m' false e = v.ready k m' e

fetch_metrics_total :
    (name : String) (em : ExecutionMetrics) (c : Clock)
    → IsValid em
    → Returns
        (λ (r : CommandMetrics × ExecutionMetrics × Clock).
          IsReady r.0 × IsValid r.1 × (r.1.props ≡ em.props))
        (fetch_metrics name em c)
unfolding fetch_metrics new_command_metrics
fetch_metrics_total name em c v = by_lookup (lookup name em.command_metrics) refl
  where
    by_lookup :
        (o : Option CommandMetrics)
        → lookup name em.command_metrics ≡ o
        → Returns
            (λ (r : CommandMetrics × ExecutionMetrics × Clock).
              IsReady r.0 × IsValid r.1 × (r.1.props ≡ em.props))
            (elim o [
              | some m ↦ some (m, em, c)
              | none ↦ do
                (m, c') ← new_command_metrics em.props c name
                some (m, record em { command_metrics = insert name m em.command_metrics }, c')
            ])
    by_lookup (some m) e = returns _ (v.ready name m e, v, refl)
    by_lookup none e =
        let (p, made, valid) =
          new_rolling_percentile-IsValid default_window_size default_window_buckets
            em.props.rolling_percentile_bucket_size (now c) (omega arith) v.room in
        rw made (returns _ (valid, with_metrics em name _ v valid, refl))

-- `Update` never panics on valid metrics, whatever the command, the time and the events, and it
-- leaves valid metrics with the same properties.
pub update_command_total :
    (name : String) (t : ℕ) (es : List ExecutionEvent) (em : ExecutionMetrics) (c : Clock)
    → IsValid em
    → Returns
        (λ (r : ExecutionMetrics × Clock). IsValid r.0 × (r.0.props ≡ em.props))
        (update_command name t es em c)
unfolding update_command
update_command_total name t es em c v =
    >>=-Returns (fetch_metrics_total name em c v) (λ (m, em', c') (ready, valid, same).
      >>=-Returns (update_total t es m c' ready)
        (λ (m', c'') ready'. returns _ (with_metrics em' name m' valid ready', same)))
