-- ===== src/Num/RollingPercentile/Range.antt =====
-- num/rollingpercentile.go: the indices of a percentile.
use cuirass.Prelude.{
  ℕ, zero, suc, Bool, ◌+◌, ◌-◌, ◌%◌, ◌^◌, ◌≤◌, ◌<◌, ◌≡◌, true, false, some, List, [], ◌∷◌, arith,
  ltb, ◌==◌, if◌then◌else◌, length, get_elem?, get_or, set, length-append, Bool-cases, inl, inr,
}
use cuirass.Prelude.Options.{◌>>=◌, Returns, returns, >>=-Returns, Returns-if}
use cuirass.Prelude.Words.{ltb_int64, add_int64, sub_int64}
use cuirass.Num.Float.{Float64}
use cuirass.Num.RollingPercentile.{
  PercentileBucket, zero_bucket, reset_bucket, RollingPercentile, buckets_behind, reset_behind,
  find_current_bucket, all_values, calculate_percentile, get,
}

abbrev rank : (f : Float64) → f.Float → ℕ → f.Float
rank f p n = f.mul (f.div p (f.of_int 100)) (f.of_int n)

-- A float64 that is not NaN: it is at most itself.
abbrev pub is_number : (f : Float64) → f.Float → Bool
is_number f p = f.leb p p

-- What IEEE 754 says of the rank of a percentile between 0 and 100, which is not NaN, among `n` values:
-- it is neither negative nor above `n` but for rounding, and its floor is not above its ceiling. The
-- float64 of an int is a number, and so is 99.5.
pub record RankLaws (f : Float64) : Type 0 where
  pub floor_le_ceil :
      (p : f.Float) (n : ℕ)
      → n < 2 ^ 62
      → is_number f p ≡ true
      → f.leb p (f.of_int 0) ≡ false
      → f.leb (f.of_int 100) p ≡ false
      → f.to_int (f.floor (rank f p n)) ≤ f.to_int (f.ceil (rank f p n))
  pub ceil_lt :
      (p : f.Float) (n : ℕ)
      → n < 2 ^ 62
      → is_number f p ≡ true
      → f.leb p (f.of_int 0) ≡ false
      → f.leb (f.of_int 100) p ≡ false
      → f.to_int (f.ceil (rank f p n)) < 2 ^ 63
  pub whole_number : (n : ℕ) → is_number f (f.of_int n) ≡ true
  pub half_number : is_number f (f.div (f.of_int 995) (f.of_int 10)) ≡ true

abbrev pub Anything : {A : Type 0} → A → Type 0
Anything v = Unit {0}

get_elem?-Returns : (vs : List ℕ) (i : ℕ) → i < length vs → Returns Anything (get_elem? vs i)
get_elem?-Returns [] i h = elim h [ ]
get_elem?-Returns (v ∷ vs) zero h = returns v tt
get_elem?-Returns (v ∷ vs) (suc i) h = get_elem?-Returns vs i (omega arith)

-- The value between the two of the rank.
abbrev interpolation : (f : Float64) → f.Float → ℕ → ℕ → ℕ → ℕ
interpolation f p n low high = add_int64 low (
    f.to_int (
      f.mul (f.sub (rank f p n) (f.of_int (f.to_int (f.floor (rank f p n)))))
        (f.of_int (sub_int64 high low))))

in_range : (a b : ℕ) → a < 2 ^ 63 → b < 2 ^ 62 → ltb_int64 a b ≡ true → a < b
in_range a b ha hb t = ground arith

interpolated-Returns :
    (vs : List ℕ) (low high : ℕ) (k : ℕ → ℕ → ℕ)
    → 0 < length vs
    → length vs < 2 ^ 62
    → low ≤ high
    → high < 2 ^ 63
    → Returns Anything (
        if ltb_int64 high (length vs)
        then (if low == high
            then get_elem? vs low
            else do l ← get_elem? vs low; h ← get_elem? vs high; some (k l h))
        else get_elem? vs (length vs - 1))
interpolated-Returns vs low high k pos small order fits =
    elim (Bool-cases (ltb_int64 high (length vs))) [
      | inl inside ↦
          let below = in_range high (length vs) fits small inside in
          rw inside (
            Returns-if (low == high) (get_elem?-Returns vs low (omega arith)) (
              >>=-Returns (get_elem?-Returns vs low (omega arith))
                (λ l _. >>=-Returns (get_elem?-Returns vs high below) (λ h _. returns (k l h) tt))))
      | inr outside ↦ rw outside (get_elem?-Returns vs (length vs - 1) (omega arith))
    ]

-- Where rank behaves, no percentile that is a number, of fewer than 2 ^ 62 values indexes out of range.
pub calculate_percentile-Returns :
    (f : Float64) (sort : List ℕ → List ℕ) (p : f.Float) (values : List ℕ)
    → RankLaws f
    → is_number f p ≡ true
    → length values < 2 ^ 62
    → Returns Anything (calculate_percentile f sort p values)
unfolding calculate_percentile
calculate_percentile-Returns f sort p [] laws number h = returns 0 tt
calculate_percentile-Returns f sort p (v ∷ vs) laws number h =
    elim (Bool-cases (f.leb p (f.of_int 0))) [
      | inl low ↦ rw low (returns v tt)
      | inr above ↦ elim (Bool-cases (f.leb (f.of_int 100) p)) [
        | inl high ↦
            rw (above, high) (get_elem?-Returns (v ∷ vs) (length (v ∷ vs) - 1) (omega arith))
        | inr below ↦
            rw (above, below)
              (interpolated-Returns (v ∷ vs) (f.to_int (f.floor (rank f p (length (v ∷ vs)))))
                (f.to_int (f.ceil (rank f p (length (v ∷ vs)))))
                (interpolation f p (length (v ∷ vs))) (omega arith) h
                (laws.floor_le_ceil p (length (v ∷ vs)) h number above below)
                (laws.ceil_lt p (length (v ∷ vs)) h number above below))
      ]
    ]

length-values_set :
    (bs : List PercentileBucket) (k : ℕ) (b : PercentileBucket)
    → length b.vals ≡ 0
    → length (all_values (set bs k b)) ≤ length (all_values bs)
unfolding all_values
length-values_set [] k b h = omega arith
length-values_set (x ∷ bs) zero b h =
    omega (arith, length-append b.vals (all_values bs), length-append x.vals (all_values bs))
length-values_set (x ∷ bs) (suc k) b h = omega (
  arith,
  length-append x.vals (all_values bs),
  length-append x.vals (all_values (set bs k b)),
  length-values_set bs k b h,
)

length-reset_bucket : (size : ℕ) (b : PercentileBucket) → length (reset_bucket size b).vals ≡ 0
unfolding reset_bucket
length-reset_bucket size b = ground arith

length-reset_behind :
    (rounds i current n items : ℕ) (bs : List PercentileBucket)
    → length (all_values (reset_behind rounds i current n items bs)) ≤ length (all_values bs)
unfolding reset_behind
length-reset_behind zero i current n items bs = omega arith
length-reset_behind (suc rounds) i current n items bs =
    let k = (current + i) % n in
    let b = reset_bucket items (get_or bs k zero_bucket) in
    omega (
      arith,
      length-reset_behind rounds (i + 1) current n items (set bs k b),
      length-values_set bs k b (length-reset_bucket items (get_or bs k zero_bucket)),
    )

-- Moving on in time adds no values.
pub length-values_find :
    (now : ℕ) (p : RollingPercentile)
    → length (all_values (find_current_bucket now p).buckets) ≤ length (all_values p.buckets)
unfolding find_current_bucket
length-values_find now p = elim (Bool-cases (ltb 0 (buckets_behind now p))) [
  | inl moved ↦ rw moved (
      length-reset_behind (buckets_behind now p % length p.buckets) 1 p.current_bucket
        (length p.buckets) p.max_bucket_items p.buckets)
  | inr still ↦ rw still (omega arith)
]

-- Every percentile that is not NaN, of fewer than 2 ^ 62 values, is found without an index out of range,
-- at any time, and no more values than before are kept. The float64 ranks are as IEEE 754 has them, and sorting
-- keeps the number of the values.
pub get-Returns :
    (f : Float64) (sort : List ℕ → List ℕ) (now : ℕ) (percentile : f.Float) (p : RollingPercentile)
    → RankLaws f
    → is_number f percentile ≡ true
    → ((vs : List ℕ) → length (sort vs) ≡ length vs)
    → length (all_values p.buckets) < 2 ^ 62
    → Returns Anything (get f sort now percentile p).0
      × (length (all_values (get f sort now percentile p).1.buckets)
          ≤ length (all_values p.buckets))
unfolding get
get-Returns f sort now percentile p laws number same small =
    let values = all_values (find_current_bucket now p).buckets in
    (
      calculate_percentile-Returns f sort percentile (sort values) laws number
          (omega (arith, same values, length-values_find now p)),
      length-values_find now p,
    )
