-- ===== src/Num/RollingPercentile/Idle.antt =====
-- num/rollingpercentile.go: the buckets after a time without calls.
use native.Mathlib.Nat.{zero-div}
use cuirass.Prelude.{ℕ, ◌%◌, ◌<◌, ◌≡◌, refl, List, arith, length}
use cuirass.Num.Float.{Float64}
use cuirass.Num.RollingPercentile.{
  RollingPercentile, buckets_behind, reset_behind, find_current_bucket, mean, get,
}

buckets-find_idle :
    (now : ℕ) (p : RollingPercentile)
    → 0 < buckets_behind now p
    → buckets_behind now p % length p.buckets ≡ 0
    → (find_current_bucket now p).buckets ≡ p.buckets
unfolding find_current_bucket reset_behind
buckets-find_idle now p h e = ground arith

buckets_behind-now : (p : RollingPercentile) → buckets_behind p.current_bucket_time p ≡ 0
unfolding buckets_behind
buckets_behind-now p = ground (arith, zero-div p.bucket_size)

buckets-find_now :
    (p : RollingPercentile) → (find_current_bucket p.current_bucket_time p).buckets ≡ p.buckets
unfolding find_current_bucket
buckets-find_now p = rw (buckets_behind-now p) refl

mean-buckets :
    (now : ℕ) (p : RollingPercentile)
    → (find_current_bucket now p).buckets ≡ p.buckets
    → (mean now p).0 ≡ (mean p.current_bucket_time p).0
unfolding mean
mean-buckets now p e = rw (e, buckets-find_now p) refl

get-buckets :
    (f : Float64) (sort : List ℕ → List ℕ) (now : ℕ) (percentile : f.Float) (p : RollingPercentile)
    → (find_current_bucket now p).buckets ≡ p.buckets
    → (get f sort now percentile p).0 ≡ (get f sort p.current_bucket_time percentile p).0
unfolding get
get-buckets f sort now percentile p e = rw (e, buckets-find_now p) refl

-- Where the number of buckets behind the clock is a positive multiple of the number of buckets, so
-- that no call was made for one whole window or several, the mean and every percentile are still
-- those that were reported at the time of the current bucket.
pub get-find_idle :
    (f : Float64) (sort : List ℕ → List ℕ) (now : ℕ) (percentile : f.Float) (p : RollingPercentile)
    → 0 < buckets_behind now p
    → buckets_behind now p % length p.buckets ≡ 0
    → ((mean now p).0 ≡ (mean p.current_bucket_time p).0)
      × ((get f sort now percentile p).0 ≡ (get f sort p.current_bucket_time percentile p).0)
get-find_idle f sort now percentile p h e =
    let same = buckets-find_idle now p h e in
    (mean-buckets now p same, get-buckets f sort now percentile p same)
