-- ===== src/Num/RollingNumber/Retention.antt =====
-- num/rollingnumber.go: which increments the value of a rolling number stands for.
use cuirass.Prelude.{
  ℕ, zero, suc, ◌-◌, ◌*◌, ◌^◌, ◌≤◌, ◌<◌, ◌≡◌, refl, sym, ap, ◌∙◌, some, List, [], ◌∷◌, arith,
  length, get_or, replicate, length-replicate,
}
use cuirass.Num.Window.{Op, increment_op, sum_op, reset_op, sum_counts}
use cuirass.Num.Window.Recent.{recent}
use cuirass.Num.Window.History.{Dated-zeros}
use cuirass.Num.Window.Retention
use cuirass.Num.Window.Retention.{
  InOrder, increments, Follows, after-Follows, length-increments, Follows-sum_counts,
}
use cuirass.Num.Ring.{window, prev, length-window}
use cuirass.Num.RollingNumber.{RollingNumber, new_rolling_number, increment, sum, reset}
use cuirass.Num.RollingNumber.Validity.{
  IsValid, increment-IsValid, sum-IsValid, reset-IsValid, new_rolling_number-IsValid,
}
use cuirass.Num.RollingNumber.Contents.{contents}
use cuirass.Num.RollingNumber.Refinement.{
  view, view-increment, view-sum, view-reset, sum-eq-sum_counts,
}

-- The number behind some calls.
abbrev pub after : RollingNumber → List Op → RollingNumber
after n [] = n
after n (increment_op now ∷ ops) = after (increment now n) ops
after n (sum_op now ∷ ops) = after (sum now n).1 ops
after n (reset_op now ∷ ops) = after (reset now n) ops

view-after :
    (ops : List Op) (n : RollingNumber)
    → IsValid n
    → IsValid (after n ops) × (view (after n ops) ≡ Retention.after (view n) ops)
view-after [] n v = (v, refl)
view-after (increment_op now ∷ ops) n v =
    rw (sym (view-increment now n v)) (view-after ops (increment now n) (increment-IsValid now n v))
view-after (sum_op now ∷ ops) n v =
    rw (sym (view-sum now n v)) (view-after ops (sum now n).1 (sum-IsValid now n v))
view-after (reset_op now ∷ ops) n v =
    rw (sym (view-reset now n)) (view-after ops (reset now n) (reset-IsValid now n v))

contents_new : (n k c j : ℕ) → window {A = ℕ} 0 n (replicate j 0) c k ≡ replicate k 0
contents_new n zero c j = refl
contents_new n (suc k) c j =
    rw (get_or_new j c) (ap (λ (w : List ℕ). 0 ∷ w) (contents_new n k (prev n c) j))
  where
    get_or_new : (j i : ℕ) → ◌≡◌ {A = ℕ} (get_or (replicate j 0) i 0) 0
    get_or_new zero i = refl
    get_or_new (suc j) zero = refl
    get_or_new (suc j) (suc i) = get_or_new j i

-- What `NewRollingNumber` returns.
new_rolling_number_lem :
    (window_size window_buckets now : ℕ) {n : RollingNumber}
    → new_rolling_number window_size window_buckets now ≡ some n
    → (n.current_bucket_time ≡ now) × (n.buckets ≡ replicate window_buckets 0)
unfolding new_rolling_number
new_rolling_number_lem window_size window_buckets now h = ground arith

new-Follows :
    (window_size window_buckets now : ℕ) {n : RollingNumber}
    → new_rolling_number window_size window_buckets now ≡ some n
    → Follows n.bucket_size window_buckets now [] (view n)
new-Follows window_size window_buckets now {n = n} h =
    let l = new_rolling_number_lem window_size window_buckets now h in
    let len : length (contents n) ≡ window_buckets =
      length-window 0 (length n.buckets) n.buckets n.current_bucket (length n.buckets)
      ∙ ap length l.1
      ∙ length-replicate window_buckets 0 in
    record {
      same_slot = refl;
      same_length = len;
      started = omega (arith, l.0);
      dated = Dated-zeros (view n) (rw len (zeros n.buckets l.1 n.current_bucket));
    }
  where
    zeros :
        (bs : List ℕ)
        → bs ≡ replicate window_buckets 0
        → (c : ℕ) → window 0 (length bs) bs c (length bs) ≡ replicate window_buckets 0
    zeros bs q c = rw q (
        contents_new (length (replicate {A = ℕ} window_buckets 0)) _ c window_buckets
        ∙ ap (λ k. replicate k 0) (length-replicate {A = ℕ} window_buckets 0))

-- After any increments, sums and resets of a new number, in the order of the clock, the sum at time
-- `t` counts each increment since the last reset that is at most all buckets but one old, and none
-- that is older than twice all buckets, less one. The calls are fewer than 2 ^ 64.
pub sum-recent :
    (window_size window_buckets now t : ℕ) (ops : List Op) {n : RollingNumber}
    → new_rolling_number window_size window_buckets now ≡ some n
    → InOrder now ops t
    → length ops < 2 ^ 64
    → (recent ((window_buckets - 1) * n.bucket_size) t (increments [] ops)
        ≤ (sum t (after n ops)).0)
      × ((sum t (after n ops)).0
          ≤ recent ((2 * window_buckets - 1) * n.bucket_size) t (increments [] ops))
sum-recent window_size window_buckets now t ops {n = n} made order few =
    let v = new_rolling_number-IsValid window_size window_buckets now made in
    let a = view-after ops n v in
    let f = new-Follows window_size window_buckets now made in
    let few' : length (increments [] ops) < 2 ^ 64 = omega (arith, length-increments [] ops, few) in
    rw (sum-eq-sum_counts t (after n ops) a.0 ∙ ap (sum_counts t) a.1) (
      Follows-sum_counts n.bucket_size window_buckets t (increments [] ops)
        (Retention.after (view n) ops) v.size_pos
        (some_bucket n v (new_rolling_number_lem window_size window_buckets now made).1) few'
        (after-Follows n.bucket_size window_buckets v.size_pos ops now t [] (view n)
          (omega (arith, few)) order f))
  where
    some_bucket :
        (n : RollingNumber)
        → IsValid n
        → n.buckets ≡ replicate window_buckets 0
        → 0 < window_buckets
    some_bucket n v q =
        omega (arith, v.current_in, ap length q, length-replicate {A = ℕ} window_buckets 0)
