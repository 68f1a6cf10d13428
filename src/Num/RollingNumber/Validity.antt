-- ===== src/Num/RollingNumber/Validity.antt =====
-- num/rollingnumber.go: the representation invariant, for its divisions and indices.
use cuirass.Prelude.{
  ℕ, zero, suc, ◌+◌, ◌-◌, ◌/◌, ◌%◌, ◌<◌, ◌≡◌, refl, some, List, arith, length, get_or, set,
  length-set, length-map, length-replicate, ◌∙◌,
}
use native.Mathlib.Nat.{mod-lt}
use cuirass.Prelude.Words.{add_int64}
use cuirass.Num.RollingNumber.{
  RollingNumber, new_rolling_number, clear_behind, move_on, find_current_bucket, increment, sum,
  reset,
}

pub record IsValid (n : RollingNumber) : Type 0 where
  pub size_pos : 0 < n.bucket_size
  pub current_in : n.current_bucket < length n.buckets

pub length-clear_behind :
    (rounds i current num_buckets : ℕ) (buckets : List ℕ)
    → length (clear_behind rounds i current num_buckets buckets) ≡ length buckets
unfolding clear_behind
length-clear_behind zero i current num_buckets buckets = refl
length-clear_behind (suc rounds) i current num_buckets buckets =
    length-clear_behind rounds (i + 1) current num_buckets
      (set buckets ((current + i) % num_buckets) 0)
    ∙ length-set buckets ((current + i) % num_buckets) 0

pub move_on-IsValid :
    (now behind : ℕ) (n : RollingNumber)
    → IsValid n
    → IsValid (move_on now behind n) × (length (move_on now behind n).buckets ≡ length n.buckets)
unfolding move_on
move_on-IsValid now behind n v = ground (
  arith,
  length-clear_behind behind 1 n.current_bucket (length n.buckets) n.buckets,
  mod-lt (n.current_bucket + behind) {m = length n.buckets} (omega arith),
)

-- Making the current bucket current keeps the number valid and its buckets as many, and the index
-- returned is in range.
pub find_current_bucket-IsValid :
    (now : ℕ) (n : RollingNumber)
    → IsValid n
    → IsValid (find_current_bucket now n).1
      × ((find_current_bucket now n).0 < length n.buckets)
      × (length (find_current_bucket now n).1.buckets ≡ length n.buckets)
unfolding find_current_bucket
find_current_bucket-IsValid now n v =
    ground (arith, move_on-IsValid now ((now - n.current_bucket_time) / n.bucket_size) n v)

-- A number with at least one bucket starts valid.
pub new_rolling_number-IsValid :
    (window_size window_buckets now : ℕ) {n : RollingNumber}
    → new_rolling_number window_size window_buckets now ≡ some n
    → IsValid n
unfolding new_rolling_number
new_rolling_number-IsValid window_size window_buckets now h =
    ground (arith, length-replicate {A = ℕ} window_buckets 0)

-- `Increment` keeps the number valid.
pub increment-IsValid : (now : ℕ) (n : RollingNumber) → IsValid n → IsValid (increment now n)
unfolding increment
increment-IsValid now n v =
    let (i, n') = find_current_bucket now n in
    ground (
      arith,
      find_current_bucket-IsValid now n v,
      length-set n'.buckets i (add_int64 (get_or n'.buckets i 0) 1),
    )

-- `Sum` keeps the number valid.
pub sum-IsValid : (now : ℕ) (n : RollingNumber) → IsValid n → IsValid (sum now n).1
unfolding sum
sum-IsValid now n v = (find_current_bucket-IsValid now n v).0

-- `Reset` keeps the number valid.
pub reset-IsValid : (now : ℕ) (n : RollingNumber) → IsValid n → IsValid (reset now n)
unfolding reset
reset-IsValid now n v = ground (arith, length-map n.buckets (λ (_ : ℕ). zero))
