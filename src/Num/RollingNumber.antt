-- ===== src/Num/RollingNumber.antt =====
-- num/rollingnumber.go. Times are nanoseconds; each method reads the clock once, and is given that
-- reading as `now`. A method that changes the number returns the new one beside its result. The
-- lock makes each method atomic, so it leaves no trace here. `now.Sub(currentBucketTime)` is the
-- truncated difference: a clock that went back gives a quotient that is not positive, and then
-- nothing changes in the source either.
pub mod Validity
pub mod Contents
pub mod Total
pub mod Refinement
pub mod Values
pub mod Retention
use cuirass.Prelude.{
  ℕ, zero, suc, ◌+◌, ◌-◌, ◌/◌, ◌%◌, List, [], ◌∷◌, Option, ltb, if◌then◌else◌, length, get_or, set,
  replicate, map,
}
use mathlib.Core.Option
use cuirass.Prelude.Words.{add_int64}
use cuirass.Num.Window.{Op, increment_op, sum_op, reset_op}
use cuirass.Num.BucketSize.{calculate_bucket_size}

pub record RollingNumber : Type 0 where
  pub bucket_size : ℕ
  pub current_bucket : ℕ
  pub current_bucket_time : ℕ
  pub buckets : List ℕ

-- `none` is a panic.
unfoldable pub new_rolling_number : ℕ → ℕ → ℕ → Option RollingNumber
unfolding calculate_bucket_size
new_rolling_number window_size window_buckets now =
    Option.map make (calculate_bucket_size window_size window_buckets)
  where
    make : ℕ → RollingNumber
    make size = record {
      bucket_size = size;
      current_bucket = 0;
      current_bucket_time = now;
      buckets = replicate window_buckets 0;
    }

-- The loop of `findCurrentBucket`, with `rounds` left and the counter at `i`.
pub clear_behind : ℕ → ℕ → ℕ → ℕ → List ℕ → List ℕ
clear_behind zero i current num_buckets buckets = buckets
clear_behind (suc rounds) i current num_buckets buckets =
    clear_behind rounds (i + 1) current num_buckets (set buckets ((current + i) % num_buckets) 0)

-- The assignments of `findCurrentBucket`, for `behind` buckets behind the clock.
pub move_on : ℕ → ℕ → RollingNumber → RollingNumber
unfolding clear_behind
move_on now behind n =
    if ltb 0 behind
    then record n {
      current_bucket = (n.current_bucket + behind) % length n.buckets;
      current_bucket_time = now;
      buckets = clear_behind behind 1 n.current_bucket (length n.buckets) n.buckets;
    }
    else n

-- The index that is returned, and the number as the method leaves it.
unfoldable pub find_current_bucket : ℕ → RollingNumber → ℕ × RollingNumber
unfolding move_on
find_current_bucket now n =
    let n' = move_on now ((now - n.current_bucket_time) / n.bucket_size) n in
    (n'.current_bucket, n')

unfoldable pub increment : ℕ → RollingNumber → RollingNumber
increment now n =
    let (i, n') = find_current_bucket now n in
    record n' { buckets = set n'.buckets i (add_int64 (get_or n'.buckets i 0) 1) }

-- The loop of `Sum`.
unfoldable pub sum_from : ℕ → List ℕ → ℕ
sum_from acc [] = acc
sum_from acc (v ∷ vs) = sum_from (add_int64 acc v) vs

unfoldable pub sum : ℕ → RollingNumber → ℕ × RollingNumber
sum now n = let (_, n') = find_current_bucket now n in (sum_from 0 n'.buckets, n')

unfoldable pub reset : ℕ → RollingNumber → RollingNumber
reset now n = record n {
  current_bucket = 0;
  current_bucket_time = now;
  buckets = map (λ _. 0) n.buckets;
}

-- A client's calls in order, each with its reading of the clock, and what its sums return.
pub run : RollingNumber → List Op → List ℕ
run n [] = []
run n (increment_op now ∷ ops) = run (increment now n) ops
run n (sum_op now ∷ ops) = let (total, n') = sum now n in total ∷ run n' ops
run n (reset_op now ∷ ops) = run (reset now n) ops
