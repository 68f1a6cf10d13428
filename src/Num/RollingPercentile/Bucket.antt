-- ===== src/Num/RollingPercentile/Bucket.antt =====
-- num/rollingpercentile.go: the buckets of a rolling percentile, for its divisions and indices.
use native.Mathlib.Nat.{mod-lt}
use cuirass.Prelude.{
  ℕ, zero, suc, ◌+◌, ◌/◌, ◌%◌, ◌≤◌, ◌<◌, ◌≡◌, refl, ◌∙◌, some, List, [], ◌∷◌, ◌++◌, ltb, arith,
  length, get_elem?, get_or, set, replicate, length-set, length-append, Bool-cases, inl, inr,
}
use cuirass.Num.BucketSize.{calculate_bucket_size, millisecond}
use cuirass.Num.RollingPercentile.{
  PercentileBucket, zero_bucket, add_value, reset_bucket, RollingPercentile, new_rolling_percentile,
  buckets_behind, reset_behind, find_current_bucket, add,
}

pub record IsValidBucket (b : PercentileBucket) : Type 0 where
  pub fits : length b.vals ≤ b.capacity
  pub position_in : b.current_position < b.capacity

-- A valid bucket takes every value, and stays valid.
pub add_value-IsValidBucket :
    (v : ℕ) (b : PercentileBucket)
    → IsValidBucket b
    → (b' : PercentileBucket) × (add_value v b ≡ some b') × IsValidBucket b'
unfolding add_value
add_value-IsValidBucket v b h = elim (Bool-cases (ltb (length b.vals) b.capacity)) [
  | inl room ↦ (
    record b {
      vals = b.vals ++ (v ∷ []);
      current_position = (b.current_position + 1) % b.capacity;
    },
    rw room refl,
    record {
      fits = ground (arith, length-append b.vals (v ∷ []));
      position_in = mod-lt (b.current_position + 1) (ground arith);
    },
  )
  | inr full ↦ (
    record b {
      vals = set b.vals b.current_position v;
      current_position = (b.current_position + 1) % b.capacity;
    },
    rw full (ground arith),
    record {
      fits = ground (arith, length-set b.vals b.current_position v);
      position_in = mod-lt (b.current_position + 1) (ground arith);
    },
  )
]

-- A bucket that is reset for a positive number of items is valid.
pub reset_bucket-IsValidBucket :
    (size : ℕ) (b : PercentileBucket)
    → 0 < size
    → length b.vals ≤ b.capacity
    → IsValidBucket (reset_bucket size b)
unfolding reset_bucket
reset_bucket-IsValidBucket size b h l = ground arith

abbrev pub AllValid : List PercentileBucket → Type 0
AllValid [] = Unit {0}
AllValid (b ∷ bs) = IsValidBucket b × AllValid bs

pub record IsValid (p : RollingPercentile) : Type 0 where
  pub items_pos : 0 < p.max_bucket_items
  pub current_in : p.current_bucket < length p.buckets
  pub all_valid : AllValid p.buckets

get_or-fits :
    (bs : List PercentileBucket) (i : ℕ)
    → AllValid bs
    → let b = get_or bs i zero_bucket in length b.vals ≤ b.capacity
get_or-fits [] i h = omega arith
get_or-fits (b ∷ bs) zero h = h.0.fits
get_or-fits (b ∷ bs) (suc i) h = get_or-fits bs i h.1

set-AllValid :
    (bs : List PercentileBucket) (i : ℕ) (b : PercentileBucket)
    → AllValid bs
    → IsValidBucket b
    → AllValid (set bs i b)
set-AllValid [] i b h v = h
set-AllValid (x ∷ bs) zero b h v = (v, h.1)
set-AllValid (x ∷ bs) (suc i) b h v = (h.0, set-AllValid bs i b h.1 v)

reset_behind-AllValid :
    (rounds i current n items : ℕ) (bs : List PercentileBucket)
    → 0 < items
    → AllValid bs
    → AllValid (reset_behind rounds i current n items bs)
      × (length (reset_behind rounds i current n items bs) ≡ length bs)
unfolding reset_behind
reset_behind-AllValid zero i current n items bs h v = (v, refl)
reset_behind-AllValid (suc rounds) i current n items bs h v =
    let k = (current + i) % n in
    let b = reset_bucket items (get_or bs k zero_bucket) in
    let ih = reset_behind-AllValid rounds (i + 1) current n items (set bs k b) h (
      set-AllValid bs k b v
        (reset_bucket-IsValidBucket items (get_or bs k zero_bucket) h (get_or-fits bs k v))) in
    (ih.0, ih.1 ∙ length-set bs k b)

pub find_current_bucket-IsValid :
    (now : ℕ) (p : RollingPercentile) → IsValid p → IsValid (find_current_bucket now p)
unfolding find_current_bucket
find_current_bucket-IsValid now p v = elim (Bool-cases (ltb 0 (buckets_behind now p))) [
  | inl moved ↦ rw moved (record {
    items_pos = v.items_pos;
    current_in = rw after.1 (mod-lt _ (omega (arith, v.current_in)));
    all_valid = after.0;
  })
  | inr still ↦ rw still v
]
  where
    after :
        AllValid (
          reset_behind
            (buckets_behind now p % length p.buckets)
            1
            p.current_bucket
            (length p.buckets)
            p.max_bucket_items
            p.buckets)
        × (length (
              reset_behind
                (buckets_behind now p % length p.buckets)
                1
                p.current_bucket
                (length p.buckets)
                p.max_bucket_items
                p.buckets)
            ≡ length p.buckets)
    after =
        reset_behind-AllValid (buckets_behind now p % length p.buckets) 1 p.current_bucket
          (length p.buckets) p.max_bucket_items p.buckets v.items_pos v.all_valid

get_elem?-AllValid :
    (bs : List PercentileBucket) (i : ℕ)
    → i < length bs
    → AllValid bs
    → (b : PercentileBucket) × (get_elem? bs i ≡ some b) × IsValidBucket b
get_elem?-AllValid [] i h v = elim h [ ]
get_elem?-AllValid (b ∷ bs) zero h v = (b, refl, v.0)
get_elem?-AllValid (b ∷ bs) (suc i) h v = get_elem?-AllValid bs i (omega arith) v.1

-- A valid percentile takes every value at every time, without a panic, and stays valid.
pub add-IsValid :
    (now v : ℕ) (p : RollingPercentile)
    → IsValid p
    → (p' : RollingPercentile) × (add now v p ≡ some p') × IsValid p'
unfolding add
add-IsValid now v p h =
    let p' = find_current_bucket now p in
    let h' = find_current_bucket-IsValid now p h in
    let (b, e, w) = get_elem?-AllValid p'.buckets p'.current_bucket h'.current_in h'.all_valid in
    let (b', e', w') = add_value-IsValidBucket v b w in
    (
      record p' { buckets = set p'.buckets p'.current_bucket b' },
      rw (e, e') refl,
      record {
        items_pos = h'.items_pos;
        current_in = rw (length-set p'.buckets p'.current_bucket b') h'.current_in;
        all_valid = set-AllValid p'.buckets p'.current_bucket b' h'.all_valid w';
      },
    )

replicate-AllValid : (n : ℕ) (b : PercentileBucket) → IsValidBucket b → AllValid (replicate n b)
replicate-AllValid zero b v = tt
replicate-AllValid (suc n) b v = (v, replicate-AllValid n b v)

-- A percentile with room for items and at least one bucket is made valid.
pub new_rolling_percentile-IsValid :
    (window_size window_buckets items now : ℕ)
    → 0 < window_buckets
    → 0 < items
    → (p : RollingPercentile) × (new_rolling_percentile window_size window_buckets items now
        ≡ some p)
      × IsValid p
unfolding new_rolling_percentile calculate_bucket_size
new_rolling_percentile-IsValid window_size zero items now h k = elim h [ ]
new_rolling_percentile-IsValid window_size (suc n) items now h k =
    elim (Bool-cases (ltb (window_size / suc n) millisecond)) [
      | inl small ↦ (fresh millisecond, rw small (ground arith), valid millisecond)
      | inr wide ↦
          (fresh (window_size / suc n), rw wide (ground arith), valid (window_size / suc n))
    ]
  where
    bucket : PercentileBucket
    bucket = reset_bucket items zero_bucket

    fresh : ℕ → RollingPercentile
    fresh size = record {
      bucket_size = size;
      max_bucket_items = items;
      current_bucket = 0;
      current_bucket_time = now;
      buckets = replicate (suc n) bucket;
    }

    valid : (size : ℕ) → IsValid (fresh size)
    valid size = record {
      items_pos = k;
      current_in = omega arith;
      all_valid =
          replicate-AllValid (suc n) bucket
            (reset_bucket-IsValidBucket items zero_bucket k (omega arith));
    }
