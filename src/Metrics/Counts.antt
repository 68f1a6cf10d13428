-- ===== src/Metrics/Counts.antt =====
-- metrics/commandmetrics.go: how updates change the counts of the events, under a clock that stands
-- still at a time.
use mathlib.Core.Path.{subst}
use mathlib.Core.Option.{some-injective}
use cuirass.Prelude.{
  ℕ, ◌+◌, ◌%◌, ◌^◌, ◌≡◌, refl, sym, ap, ◌∙◌, Bool, true, false, Option, none, some, if◌then◌else◌,
}
use cuirass.Prelude.Options.{◌>>=◌, Returns, returns, >>=-Returns}
use cuirass.Prelude.Maps.{lookup, insert, lookup-insert}
use cuirass.Util.Clock.{Clock, now, later}
use cuirass.Num.BucketSize.{default_window_size, default_window_buckets}
use cuirass.Num.RollingNumber.{RollingNumber, new_rolling_number, increment}
use cuirass.Num.RollingNumber.Validity
use cuirass.Num.RollingNumber.Validity.{increment-IsValid}
use cuirass.Num.RollingNumber.Values.{
  value, value-increment, fresh_number, new_rolling_number-fresh_number, fresh_number-IsValid,
  value-fresh_number,
}
use cuirass.RequestLog.{ExecutionEvent}
use cuirass.Metrics.{CommandMetrics, find_event_counter, count_event}
use cuirass.Metrics.Events.{same_event, same_event_iff, event_eq}

abbrev pub still : ℕ → Clock
still t = λ i. t

abbrev pub count_at : ℕ → Option RollingNumber → ℕ
count_at t none = 0
count_at t (some n) = value t n

-- What the counter of an event is worth at time `t`: 0 where there is none.
abbrev pub event_count : ℕ → ExecutionEvent → CommandMetrics → ℕ
event_count t e m = count_at t (lookup e m.event_counters)

-- Every counter is valid.
abbrev pub CountersValid : CommandMetrics → Type 0
CountersValid m =
    (e : ExecutionEvent) (n : RollingNumber)
    → lookup e m.event_counters ≡ some n
    → Validity.IsValid n

-- The event `e` has been counted once.
pub record Counted (t : ℕ) (e : ExecutionEvent) (m m' : CommandMetrics) : Type 0 where
  pub valid : CountersValid m'
  pub counts :
      (k : ExecutionEvent)
      → event_count t k m'
        ≡ (if same_event e k then (event_count t k m + 1) % 2 ^ 64 else event_count t k m)

-- The counters of `m'` are those of `m`, but for that of `e`, which is `n`.
abbrev HasCounter : ExecutionEvent → RollingNumber → CommandMetrics → CommandMetrics → Type 0
HasCounter e n m m' =
    (k : ExecutionEvent)
    → lookup k m'.event_counters ≡ (if same_event e k then some n else lookup k m.event_counters)

insert-HasCounter :
    (e : ExecutionEvent) (n n' : RollingNumber) (m m' : CommandMetrics)
    → HasCounter e n m m'
    → HasCounter e n' m (record m' { event_counters = insert e n' m'.event_counters })
insert-HasCounter e n n' m m' h k =
    lookup-insert e k n' m'.event_counters ∙ by_test (same_event e k) (h k)
  where
    by_test :
        (b : Bool)
        → lookup k m'.event_counters ≡ (if b then some n else lookup k m.event_counters)
        → (if b then some n' else lookup k m'.event_counters)
          ≡ (if b then some n' else lookup k m.event_counters)
    by_test true q = refl
    by_test false q = q

HasCounter-Counted :
    (t : ℕ) (e : ExecutionEvent) (n : RollingNumber) (m m' : CommandMetrics)
    → CountersValid m
    → Validity.IsValid n
    → value t n ≡ event_count t e m
    → HasCounter e (increment t n) m m'
    → Counted t e m m'
HasCounter-Counted t e n m m' v w c h = record {
  valid = λ k n' q. valid_by k n' (same_event e k) (sym (h k) ∙ q);
  counts = λ k. ap (count_at t) (h k) ∙ count_by k (same_event e k) (same_event_iff e k).0;
}
  where
    valid_by :
        (k : ExecutionEvent) (n' : RollingNumber) (b : Bool)
        → (if b then some (increment t n) else lookup k m.event_counters) ≡ some n'
        → Validity.IsValid n'
    valid_by k n' true q =
        subst Validity.IsValid (some-injective (increment t n) n' q) (increment-IsValid t n w)
    valid_by k n' false q = v k n' q

    count_by :
        (k : ExecutionEvent) (b : Bool)
        → (b ≡ true → e ≡ k)
        → count_at t (if b then some (increment t n) else lookup k m.event_counters)
          ≡ (if b then (event_count t k m + 1) % 2 ^ 64 else event_count t k m)
    count_by k true q =
        value-increment t n w
        ∙ ap (λ (x : ℕ). (x + 1) % 2 ^ 64) (c ∙ ap (λ j. event_count t j m) (q refl))
    count_by k false q = refl

-- What finding the counter of an event leaves.
record Found (t : ℕ) (e : ExecutionEvent) (m : CommandMetrics)
    (r : RollingNumber × CommandMetrics × Clock) : Type 0 where
  number_valid : Validity.IsValid r.0
  number_value : value t r.0 ≡ event_count t e m
  has_counter : HasCounter e r.0 m r.1
  same_clock : r.2 ≡ still t

find_event_counter-Found :
    (t : ℕ) (e : ExecutionEvent) (m : CommandMetrics)
    → CountersValid m
    → Returns (Found t e m) (find_event_counter e m (still t))
unfolding find_event_counter
find_event_counter-Found t e m v = by_lookup (lookup e m.event_counters) refl
  where
    found : (n : RollingNumber) → lookup e m.event_counters ≡ some n → HasCounter e n m m
    found n q k = by_test (same_event e k) (same_event_iff e k).0
      where
        by_test :
            (b : Bool)
            → (b ≡ true → e ≡ k)
            → lookup k m.event_counters ≡ (if b then some n else lookup k m.event_counters)
        by_test true p = ap (λ j. lookup j m.event_counters) (sym (p refl)) ∙ q
        by_test false p = refl

    by_lookup :
        (o : Option RollingNumber)
        → lookup e m.event_counters ≡ o
        → Returns (Found t e m) (elim o [
          | some n ↦ some (n, m, still t)
          | none ↦ do
            n ← new_rolling_number default_window_size default_window_buckets t
            some (n, record m { event_counters = insert e n m.event_counters }, still t)
        ])
    by_lookup (some n) q = returns _ (record {
      number_valid = v e n q;
      number_value = sym (ap (count_at t) q);
      has_counter = found n q;
      same_clock = refl;
    })
    by_lookup none q = rw (new_rolling_number-fresh_number t) (
        returns _ (record {
          number_valid = fresh_number-IsValid t;
          number_value = value-fresh_number t t ∙ sym (ap (count_at t) q);
          has_counter = λ k. lookup-insert e k (fresh_number t) m.event_counters;
          same_clock = refl;
        }))

pub count_event-Counted :
    (t : ℕ) (e : ExecutionEvent) (m : CommandMetrics)
    → CountersValid m
    → Returns
        (λ (r : CommandMetrics × Clock). Counted t e m r.0 × (r.1 ≡ still t))
        (count_event e m (still t))
unfolding count_event
count_event-Counted t e m v = >>=-Returns (find_event_counter-Found t e m v) (λ (n, m', c') f.
    returns _ (
      subst
          (λ x.
            Counted t e m
              (record m' { event_counters = insert e (increment x n) m'.event_counters }))
          (sym (ap now f.same_clock))
          (HasCounter-Counted t e n m
            (record m' { event_counters = insert e (increment t n) m'.event_counters }) v
            f.number_valid f.number_value
            (insert-HasCounter e n (increment t n) m m' f.has_counter)),
      ap later f.same_clock,
    ))
