-- ===== src/Num/RollingNumber/Values.antt =====
-- num/rollingnumber.go: what a number is worth at one time, and how calls at that time change it.
use native.Mathlib.Nat.{zero-div}
use cuirass.Prelude.{
  ℕ, zero, suc, ◌+◌, ◌-◌, ◌/◌, ◌%◌, ◌^◌, ◌≤◌, ◌<◌, ◌≡◌, refl, ap, ◌∙◌, false, some, List, [], ◌∷◌,
  ◌++◌, ltb, arith, length, replicate, Bool-cases, inl, inr,
}
use cuirass.Num.BucketSize.{calculate_bucket_size, default_window_size, default_window_buckets}
use cuirass.Num.Window.{Window, forget, total, bump, slots_behind, refresh, count, sum_counts}
use cuirass.Num.Window.Recent.{length-refresh, total-take-le}
use cuirass.Num.Ring.{length-window}
use cuirass.Num.RollingNumber.{RollingNumber, new_rolling_number, increment, sum}
use cuirass.Num.RollingNumber.Validity.{IsValid}
use cuirass.Num.RollingNumber.Contents.{contents}
use cuirass.Num.RollingNumber.Refinement.{view, view-increment, view-sum}

slots_behind-refresh : (t : ℕ) (w : Window) → slots_behind t (refresh t w) ≡ 0
slots_behind-refresh t w = elim (Bool-cases (ltb 0 (slots_behind t w))) [
  | inl moved ↦ rw moved (ap (λ d. d / w.slot) (sub_self t) ∙ zero-div w.slot)
  | inr still ↦ rw still (none_behind (slots_behind t w) still)
]
  where
    sub_self : (a : ℕ) → a - a ≡ 0
    sub_self a = omega arith

    none_behind : (k : ℕ) → ltb 0 k ≡ false → k ≡ 0
    none_behind k h = ground arith

-- A second reading of the clock at the same time changes nothing.
pub refresh-refresh : (t : ℕ) (w : Window) → refresh t (refresh t w) ≡ refresh t w
refresh-refresh t w = rw (slots_behind-refresh t w) refl

total-bump :
    (counts : List ℕ)
    → 0 < length counts
    → total (bump counts) % 2 ^ 64 ≡ (total counts + 1) % 2 ^ 64
total-bump [] h = elim h [ ]
total-bump (v ∷ vs) h = omega arith

-- The value at time `t`.
abbrev pub value : ℕ → RollingNumber → ℕ
value t n = sum_counts t (view n)

sum_counts-count :
    (t : ℕ) (w : Window)
    → 0 < length w.counts
    → sum_counts t (count t w) ≡ (sum_counts t w + 1) % 2 ^ 64
sum_counts-count t w h =
    rw (slots_behind-refresh t w)
      (total-bump (refresh t w).counts (omega (arith, length-refresh t w)) ∙ omega arith)

contents_pos : (n : RollingNumber) → IsValid n → 0 < length (contents n)
contents_pos n v = omega (
  arith,
  v.current_in,
  length-window 0 (length n.buckets) n.buckets n.current_bucket (length n.buckets),
)

-- An increment adds one, as an int64.
pub value-increment :
    (t : ℕ) (n : RollingNumber) → IsValid n → value t (increment t n) ≡ (value t n + 1) % 2 ^ 64
value-increment t n v =
    ap (sum_counts t) (view-increment t n v) ∙ sum_counts-count t (view n) (contents_pos n v)

-- A sum changes nothing.
pub value-sum : (t : ℕ) (n : RollingNumber) → IsValid n → value t (sum t n).1 ≡ value t n
value-sum t n v =
    ap (sum_counts t) (view-sum t n v)
    ∙ ap (λ (w : Window). total w.counts % 2 ^ 64) (refresh-refresh t (view n))

total-zeros : (k : ℕ) → total (replicate k 0) ≡ 0
total-zeros zero = refl
total-zeros (suc k) = omega (arith, total-zeros k)

total-append : (vs ws : List ℕ) → total (vs ++ ws) ≡ total vs + total ws
total-append [] ws = omega arith
total-append (v ∷ vs) ws = omega (arith, total-append vs ws)

total-forget-le : (k : ℕ) (counts : List ℕ) → total (forget k counts) ≤ total counts
total-forget-le k counts = omega (
  arith,
  total-take-le (length counts) (replicate k 0 ++ counts),
  total-append (replicate k 0) counts,
  total-zeros k,
)

total-refresh-le : (t : ℕ) (w : Window) → total (refresh t w).counts ≤ total w.counts
total-refresh-le t w = elim (Bool-cases (ltb 0 (slots_behind t w))) [
  | inl moved ↦ rw moved (total-forget-le (slots_behind t w) w.counts)
  | inr still ↦ rw still (omega arith)
]

-- A number with the default sizes, made at `now`.
abbrev pub fresh_number : ℕ → RollingNumber
fresh_number now = record {
  bucket_size = 1000000000;
  current_bucket = 0;
  current_bucket_time = now;
  buckets = replicate 10 0;
}

pub new_rolling_number-fresh_number :
    (now : ℕ)
    → new_rolling_number default_window_size default_window_buckets now ≡ some (fresh_number now)
unfolding new_rolling_number calculate_bucket_size
new_rolling_number-fresh_number now = refl

pub fresh_number-IsValid : (now : ℕ) → IsValid (fresh_number now)
fresh_number-IsValid now = record { size_pos = omega arith; current_in = omega arith }

pub value-fresh_number : (t now : ℕ) → value t (fresh_number now) ≡ 0
value-fresh_number t now = omega (arith, total-refresh-le t (view (fresh_number now)))
