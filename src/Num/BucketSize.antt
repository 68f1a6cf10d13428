-- ===== src/Num/BucketSize.antt =====
-- num/rollingnumber.go: the width of a bucket.
use cuirass.Prelude.{ℕ, ◌*◌, ◌/◌, ◌==◌, Option, none, some, ltb, if◌then◌else◌}

-- time.Millisecond, in nanoseconds.
abbrev pub millisecond : ℕ
millisecond = 1000000

-- DefaultWindowSize and DefaultWindowBuckets.
abbrev pub default_window_size : ℕ
default_window_size = 10000 * millisecond

abbrev pub default_window_buckets : ℕ
default_window_buckets = 10

-- `none` is the panic of a division by zero.
unfoldable pub calculate_bucket_size : ℕ → ℕ → Option ℕ
calculate_bucket_size window_size window_buckets =
    if window_buckets == 0
    then none
    else (let bucket_size = window_size / window_buckets in
        if ltb bucket_size millisecond then some millisecond else some bucket_size)
