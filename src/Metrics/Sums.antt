-- ===== src/Metrics/Sums.antt =====
-- metrics/commandmetrics.go: the sums that are reported, under a clock that stands still at a time.
use mathlib.Core.Path.{subst}
use mathlib.Core.Option.{some-injective}
use cuirass.Prelude.{
  ℕ, ◌+◌, ◌%◌, ◌^◌, ◌≡◌, refl, sym, ap, ◌∙◌, Bool, true, false, Option, none, some, arith,
  if◌then◌else◌,
}
use cuirass.Prelude.Maps.{lookup, insert, lookup-insert}
use cuirass.Util.Clock.{Clock, now, later}
use cuirass.Num.RollingNumber.{RollingNumber, sum}
use cuirass.Num.RollingNumber.Validity
use cuirass.Num.RollingNumber.Validity.{sum-IsValid}
use cuirass.Num.RollingNumber.Refinement.{sum-eq-sum_counts}
use cuirass.Num.RollingNumber.Values.{value-sum}
use cuirass.RequestLog.{
  ExecutionEvent, success, failure, timeout, short_circuited, semaphore_rejected,
}
use cuirass.Metrics.{CommandMetrics, rolling_sum, total_requests, error_count}
use cuirass.Metrics.Events.{same_event, same_event_iff, event_eq}
use cuirass.Metrics.Counts.{still, count_at, event_count, CountersValid}

-- The sum is the event's count, and no event's count is another afterwards.
pub record Summed (t : ℕ) (e : ExecutionEvent) (m : CommandMetrics) (r : ℕ × CommandMetrics × Clock)
    : Type 0 where
  pub is_count : r.0 ≡ event_count t e m
  pub same_counts : (k : ExecutionEvent) → event_count t k r.1 ≡ event_count t k m
  pub valid : CountersValid r.1
  pub same_clock : r.2 ≡ still t
  pub same_times : r.1.execution_time ≡ m.execution_time

Summed-number :
    (t : ℕ) (e : ExecutionEvent) (m : CommandMetrics) (n : RollingNumber)
    → CountersValid m
    → lookup e m.event_counters ≡ some n
    → Summed t e m
        ((sum t n).0, record m { event_counters = insert e (sum t n).1 m.event_counters }, still t)
Summed-number t e m n v q = record {
  is_count = sum-eq-sum_counts t n w ∙ sym (ap (count_at t) q);
  same_counts = λ k.
      ap (count_at t) (lookup-insert e k n' m.event_counters)
      ∙ count_by k (same_event e k) (same_event_iff e k).0;
  valid = λ k x p. valid_by k x (same_event e k) (sym (lookup-insert e k n' m.event_counters) ∙ p);
  same_clock = refl;
  same_times = refl;
}
  where
    w : Validity.IsValid n
    w = v e n q

    n' : RollingNumber
    n' = (sum t n).1

    count_by :
        (k : ExecutionEvent) (b : Bool)
        → (b ≡ true → e ≡ k)
        → count_at t (if b then some n' else lookup k m.event_counters) ≡ event_count t k m
    count_by k true p =
        value-sum t n w ∙ sym (ap (count_at t) q) ∙ ap (λ j. event_count t j m) (p refl)
    count_by k false p = refl

    valid_by :
        (k : ExecutionEvent) (x : RollingNumber) (b : Bool)
        → (if b then some n' else lookup k m.event_counters) ≡ some x
        → Validity.IsValid x
    valid_by k x true p = subst Validity.IsValid (some-injective n' x p) (sum-IsValid t n w)
    valid_by k x false p = v k x p

rolling_sum-Summed-still :
    (t : ℕ) (e : ExecutionEvent) (m : CommandMetrics)
    → CountersValid m
    → Summed t e m (rolling_sum e m (still t))
unfolding rolling_sum
rolling_sum-Summed-still t e m v = by_lookup (lookup e m.event_counters) refl
  where
    by_lookup :
        (o : Option RollingNumber)
        → lookup e m.event_counters ≡ o
        → Summed t e m (elim o [
          | some n ↦
              (let (s, n') = sum (now (still t)) n in
                (s, record m { event_counters = insert e n' m.event_counters }, later (still t)))
          | none ↦ (0, m, still t)
        ])
    by_lookup (some n) q = Summed-number t e m n v q
    by_lookup none q = record {
      is_count = sym (ap (count_at t) q);
      same_counts = λ k. refl;
      valid = v;
      same_clock = refl;
      same_times = refl;
    }

-- From a clock that is known to stand still.
pub rolling_sum-Summed :
    (t : ℕ) (e : ExecutionEvent) (m : CommandMetrics) (c : Clock)
    → c ≡ still t
    → CountersValid m
    → Summed t e m (rolling_sum e m c)
rolling_sum-Summed t e m c q v =
    subst (λ x. Summed t e m (rolling_sum e m x)) (sym q) (rolling_sum-Summed-still t e m v)

-- One more sum behind others that left the counts of `m` as they are.
pub record Continues (t : ℕ) (m m' : CommandMetrics) (c : Clock) : Type 0 where
  pub same_counts : (k : ExecutionEvent) → event_count t k m' ≡ event_count t k m
  pub valid : CountersValid m'
  pub same_clock : c ≡ still t

pub sum_next :
    (t : ℕ) (e : ExecutionEvent) (m m' : CommandMetrics) (c : Clock)
    → Continues t m m' c
    → ((rolling_sum e m' c).0 ≡ event_count t e m)
      × Continues t m (rolling_sum e m' c).1 (rolling_sum e m' c).2
sum_next t e m m' c k =
    let s = rolling_sum-Summed t e m' c k.same_clock k.valid in
    (
      s.is_count ∙ k.same_counts e,
      record {
        same_counts = λ j. s.same_counts j ∙ k.same_counts j;
        valid = s.valid;
        same_clock = s.same_clock;
      },
    )

-- The two totals at time `t`, by the counts of the events.
abbrev pub errors_of : ℕ → CommandMetrics → ℕ
errors_of t m =
    event_count t failure m
    + event_count t timeout m
    + event_count t short_circuited m
    + event_count t semaphore_rejected m

error_count-Continues :
    (t : ℕ) (m m' : CommandMetrics) (c : Clock)
    → Continues t m m' c
    → (error_count m' c).0 ≡ errors_of t m % 2 ^ 64
unfolding error_count
error_count-Continues t m m' c k =
    let a = sum_next t failure m m' c k in
    let b = sum_next t timeout m _ _ a.1 in
    let d = sum_next t short_circuited m _ _ b.1 in
    let e = sum_next t semaphore_rejected m _ _ d.1 in omega (arith, a.0, b.0, d.0, e.0)

total_requests-Continues :
    (t : ℕ) (m m' : CommandMetrics) (c : Clock)
    → Continues t m m' c
    → (total_requests m' c).0 ≡ (event_count t success m + errors_of t m) % 2 ^ 64
unfolding total_requests
total_requests-Continues t m m' c k =
    let s = sum_next t success m m' c k in
    let a = sum_next t failure m _ _ s.1 in
    let b = sum_next t timeout m _ _ a.1 in
    let d = sum_next t short_circuited m _ _ b.1 in
    let e = sum_next t semaphore_rejected m _ _ d.1 in omega (arith, s.0, a.0, b.0, d.0, e.0)

-- At a time `t`, and with valid counters, the number of requests is that of the successes and the
-- errors, and the number of errors that of the failures, the timeouts, the short circuits and the
-- rejections by the semaphore, as int64s. Events of fallbacks and of the cache are in neither.
pub total_requests-error_count :
    (t : ℕ) (m : CommandMetrics)
    → CountersValid m
    → ((total_requests m (still t)).0 ≡ (event_count t success m + errors_of t m) % 2 ^ 64)
      × ((error_count m (still t)).0 ≡ errors_of t m % 2 ^ 64)
total_requests-error_count t m v =
    let start : Continues t m m (still t) = record {
      same_counts = λ k. refl;
      valid = v;
      same_clock = refl;
    } in
    (total_requests-Continues t m m (still t) start, error_count-Continues t m m (still t) start)
