-- ===== src/Num/RollingPercentile.antt =====
-- num/rollingpercentile.go. As for the rolling number, a method is given its one reading of the
-- clock. Values are int64 patterns; `none` is a panic.
pub mod Bucket
pub mod Idle
pub mod Latest
pub mod Range
use cuirass.Prelude.{
  ℕ, zero, suc, ◌+◌, ◌-◌, ◌*◌, ◌/◌, ◌%◌, ◌^◌, Bool, Option, none, some, List, [], ◌∷◌, ◌++◌, ltb,
  leb, ◌==◌, if◌then◌else◌, length, get_elem?, get_or, set, replicate,
}
use cuirass.Prelude.Options.{◌>>=◌}
use cuirass.Prelude.Words.{add_int64, sub_int64, ltb_int64, div_int64}
use cuirass.Num.BucketSize.{calculate_bucket_size}
use cuirass.Num.Float.{Float64}

-- `vals` is a slice: its elements and its capacity.
pub record PercentileBucket : Type 0 where
  pub current_position : ℕ
  pub vals : List ℕ
  pub capacity : ℕ

-- The zero value, with a nil slice.
abbrev pub zero_bucket : PercentileBucket
zero_bucket = record { current_position = 0; vals = []; capacity = 0 }

-- `percentileBucket.add`.
unfoldable pub add_value : ℕ → PercentileBucket → Option PercentileBucket
add_value v b =
    let position = (b.current_position + 1) % b.capacity in
    if ltb (length b.vals) b.capacity
    then some (record b { vals = b.vals ++ (v ∷ []); current_position = position })
    else (if ltb b.current_position (length b.vals)
        then some (record b { vals = set b.vals b.current_position v; current_position = position })
        else none)

-- `percentileBucket.reset`. A nil slice has no elements and no capacity, so for it both branches
-- give the same. `make` panics for a negative or too large size, which is left out.
unfoldable pub reset_bucket : ℕ → PercentileBucket → PercentileBucket
reset_bucket size b =
    if length b.vals == size
    then record b { vals = []; current_position = 0 }
    else record { vals = []; capacity = size; current_position = 0 }

pub record RollingPercentile : Type 0 where
  pub bucket_size : ℕ
  pub max_bucket_items : ℕ
  pub current_bucket : ℕ
  pub current_bucket_time : ℕ
  pub buckets : List PercentileBucket

unfoldable pub new_rolling_percentile : ℕ → ℕ → ℕ → ℕ → Option RollingPercentile
new_rolling_percentile window_size window_buckets max_bucket_items now = do
  size ← calculate_bucket_size window_size window_buckets
  some (record {
    bucket_size = size;
    max_bucket_items = max_bucket_items;
    current_bucket = 0;
    current_bucket_time = now;
    buckets = replicate window_buckets (reset_bucket max_bucket_items zero_bucket);
  })

-- The conversion of a quotient that may be negative to a uint.
unfoldable pub buckets_behind : ℕ → RollingPercentile → ℕ
buckets_behind now p =
    if ltb now p.current_bucket_time
    then (2 ^ 64 - (p.current_bucket_time - now) / p.bucket_size) % 2 ^ 64
    else (now - p.current_bucket_time) / p.bucket_size

-- The loop of `findCurrentBucket`, with `rounds` left and the counter at `i`.
unfoldable pub reset_behind : ℕ → ℕ → ℕ → ℕ → ℕ → List PercentileBucket → List PercentileBucket
reset_behind zero i current num_buckets items buckets = buckets
reset_behind (suc rounds) i current num_buckets items buckets =
    let k = (current + i) % num_buckets in
    reset_behind rounds (i + 1) current num_buckets items
      (set buckets k (reset_bucket items (get_or buckets k zero_bucket)))

-- The percentile as `findCurrentBucket` leaves it; the bucket returned is the current one.
unfoldable pub find_current_bucket : ℕ → RollingPercentile → RollingPercentile
find_current_bucket now p =
    let behind = buckets_behind now p in
    let num_buckets = length p.buckets in
    if ltb 0 behind
    then record p {
      current_bucket = (p.current_bucket + behind) % 2 ^ 64 % num_buckets;
      current_bucket_time = now;
      buckets =
          reset_behind (behind % num_buckets) 1 p.current_bucket num_buckets p.max_bucket_items
            p.buckets;
    }
    else p

unfoldable pub add : ℕ → ℕ → RollingPercentile → Option RollingPercentile
add now v p =
    let p' = find_current_bucket now p in
    do
      b ← get_elem? p'.buckets p'.current_bucket
      b' ← add_value v b
      some (record p' { buckets = set p'.buckets p'.current_bucket b' })

-- The values of all buckets, in the order of the array.
unfoldable pub all_values : List PercentileBucket → List ℕ
all_values [] = []
all_values (b ∷ bs) = b.vals ++ all_values bs

-- The loops of `Mean`.
unfoldable pub sum_values : ℕ → List ℕ → ℕ
sum_values acc [] = acc
sum_values acc (v ∷ vs) = sum_values (add_int64 acc v) vs

unfoldable pub mean : ℕ → RollingPercentile → ℕ × RollingPercentile
mean now p =
    let p' = find_current_bucket now p in
    let values = all_values p'.buckets in
    (if length values == 0 then 0 else div_int64 (sum_values 0 values) (length values), p')

-- float64 arithmetic, and sort.Sort on ints.
module _ (f : Float64) (sort : List ℕ → List ℕ) where
  open f use {Float, of_int, sub, mul, div, floor, ceil, to_int, leb as leb_float}

  unfoldable pub calculate_percentile : Float → List ℕ → Option ℕ
  calculate_percentile p [] = some 0
  calculate_percentile p (v ∷ vs) =
      let values = v ∷ vs in
      let rank = mul (div p (of_int 100)) (of_int (length values)) in
      let low_index = to_int (floor rank) in
      let high_index = to_int (ceil rank) in
      if leb_float p (of_int 0)
      then get_elem? values 0
      else (if leb_float (of_int 100) p
          then get_elem? values (length values - 1)
          else (if ltb_int64 high_index (length values)
              then (if low_index == high_index then get_elem? values low_index else do
                low ← get_elem? values low_index
                high ← get_elem? values high_index
                some (
                    add_int64 low
                      (to_int (mul (sub rank (of_int low_index)) (of_int (sub_int64 high low))))))
              else get_elem? values (length values - 1)))

  unfoldable pub get : ℕ → Float → RollingPercentile → Option ℕ × RollingPercentile
  get now percentile p =
      let p' = find_current_bucket now p in
      (calculate_percentile percentile (sort (all_values p'.buckets)), p')
