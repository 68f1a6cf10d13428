-- ===== src/Num/RollingNumber/Refinement.antt =====
-- num/rollingnumber.go: a rolling number beside the window of its contents.
use native.Mathlib.Nat.{zero-add}
use mathlib.Core.Path.{ap₂}
use cuirass.Prelude.{
  ℕ, zero, suc, ◌-◌, ◌/◌, ◌%◌, ◌^◌, ◌≤◌, ◌<◌, ◌≡◌, refl, ap, ◌∙◌, sym, List, [], ◌∷◌, arith, ltb,
  if◌then◌else◌, length, get_or, set, map, replicate, lt→ltb, length-set, length-map,
}
use cuirass.Prelude.Words.{add_int64}
use cuirass.Num.Ring.{window, window-set_current, length-window, prev}
use cuirass.Num.Window.{
  Window, Op, increment_op, sum_op, reset_op, bump, refresh, count, clear, sum_counts, forget,
  total,
}
use cuirass.Num.Window
use cuirass.Num.RollingNumber.{
  RollingNumber, move_on, find_current_bucket, increment, sum, reset, run,
}
use cuirass.Num.RollingNumber.Validity.{
  IsValid, increment-IsValid, sum-IsValid, reset-IsValid, find_current_bucket-IsValid,
}
use cuirass.Num.RollingNumber.Contents.{cells, contents, contents-move_on}
use cuirass.Num.RollingNumber.Total.{total-cells, sum_from-eq-total}

abbrev pub view : RollingNumber → Window
view n = record { slot = n.bucket_size; start = n.current_bucket_time; counts = contents n }

view-move_on :
    (now behind : ℕ) (n : RollingNumber)
    → IsValid n
    → view (move_on now behind n) ≡ (
        if ltb 0 behind
        then record { slot = n.bucket_size; start = now; counts = forget behind (contents n) }
        else view n)
unfolding move_on
view-move_on now zero n v = refl
view-move_on now (suc behind) n v = rw (lt→ltb 0 (suc behind) (omega arith)) (
    ap (λ (c : List ℕ). record { slot = n.bucket_size; start = now; counts = c })
      (rw (lt→ltb 0 (suc behind) (omega arith)) at (contents-move_on now (suc behind) n v)))

-- Making the current bucket current forgets the slots that fell out of the window.
pub view-find_current_bucket :
    (now : ℕ) (n : RollingNumber)
    → IsValid n
    → view (find_current_bucket now n).1 ≡ refresh now (view n)
unfolding find_current_bucket
view-find_current_bucket now n v =
    view-move_on now ((now - n.current_bucket_time) / n.bucket_size) n v

cells-bump_at :
    (l c : ℕ) (bs : List ℕ)
    → length bs ≡ suc l
    → c ≤ l
    → window 0 (suc l) (set bs c (add_int64 (get_or bs c 0) 1)) c (suc l)
      ≡ bump (window 0 (suc l) bs c (suc l))
cells-bump_at l c bs hl hc =
    window-set_current 0 (suc l) (add_int64 (get_or bs c 0) 1) bs c l (omega arith) (omega arith)
      (omega arith)

cells-bump :
    (bs : List ℕ) (c : ℕ)
    → c < length bs
    → cells (set bs c (add_int64 (get_or bs c 0) 1)) c ≡ bump (cells bs c)
cells-bump [] c h = elim h [ ]
cells-bump (x ∷ xs) c h =
    rw (length-set (x ∷ xs) c (add_int64 (get_or (x ∷ xs) c 0) 1))
      (cells-bump_at (length xs) c (x ∷ xs) refl (omega arith))

-- `Increment` counts in the youngest slot of the refreshed window.
pub view-increment :
    (now : ℕ) (n : RollingNumber) → IsValid n → view (increment now n) ≡ count now (view n)
unfolding increment find_current_bucket
view-increment now n v =
    let n' = (find_current_bucket now n).1 in
    ap (λ c. record { slot = n'.bucket_size; start = n'.current_bucket_time; counts = c })
      (cells-bump n'.buckets n'.current_bucket (find_current_bucket-IsValid now n v).0.current_in)
    ∙ ap (λ (w : Window). record w { counts = bump w.counts }) (view-find_current_bucket now n v)

-- `Sum` returns the sum over the refreshed window, as an int64.
pub sum-eq-sum_counts :
    (now : ℕ) (n : RollingNumber) → IsValid n → (sum now n).0 ≡ sum_counts now (view n)
unfolding sum
sum-eq-sum_counts now n v =
    let n' = (find_current_bucket now n).1 in
    sum_from-eq-total 0 n'.buckets (omega arith)
    ∙ ap (λ t. t % 2 ^ 64)
        (zero-add (total n'.buckets)
          ∙ sym (
              total-cells n'.buckets n'.current_bucket
                (find_current_bucket-IsValid now n v).0.current_in)
          ∙ ap (λ (w : Window). total w.counts) (view-find_current_bucket now n v))

pub view-sum : (now : ℕ) (n : RollingNumber) → IsValid n → view (sum now n).1 ≡ refresh now (view n)
unfolding sum
view-sum now n v = view-find_current_bucket now n v

window-zeros : (n k c : ℕ) (bs : List ℕ) → window {A = ℕ} 0 n (map (λ _. 0) bs) c k ≡ replicate k 0
window-zeros n zero c bs = refl
window-zeros n (suc k) c bs =
    rw (get_or-zeros bs c) (ap (λ w. 0 ∷ w) (window-zeros n k (prev n c) bs))
  where
    get_or-zeros : (xs : List ℕ) (i : ℕ) → ◌≡◌ {A = ℕ} (get_or (map (λ (_ : ℕ). 0) xs) i 0) 0
    get_or-zeros [] i = refl
    get_or-zeros (x ∷ xs) zero = refl
    get_or-zeros (x ∷ xs) (suc i) = get_or-zeros xs i

-- `Reset` leaves no counts.
pub view-reset : (now : ℕ) (n : RollingNumber) → view (reset now n) ≡ clear now (view n)
unfolding reset
view-reset now n = rw (length-map n.buckets (λ (_ : ℕ). zero)) (
    ap (λ (c : List ℕ). record { slot = n.bucket_size; start = now; counts = c })
      (window-zeros (length n.buckets) (length n.buckets) 0 n.buckets
        ∙ ap (λ k. replicate k 0)
            (sym
              (length-window 0 (length n.buckets) n.buckets n.current_bucket (length n.buckets)))))

-- A valid rolling number and the window of its contents cannot be told apart: every sequence of
-- increments, sums and resets, at any readings of the clock, returns the same sums from both.
pub run_refines :
    (ops : List Op) (n : RollingNumber) → IsValid n → run n ops ≡ Window.run (view n) ops
unfolding run
run_refines [] n v = refl
run_refines (increment_op now ∷ ops) n v =
    run_refines ops (increment now n) (increment-IsValid now n v)
    ∙ ap (λ w. Window.run w ops) (view-increment now n v)
run_refines (sum_op now ∷ ops) n v = ap₂ ◌∷◌ (sum-eq-sum_counts now n v) (
    run_refines ops (sum now n).1 (sum-IsValid now n v)
    ∙ ap (λ w. Window.run w ops) (view-sum now n v))
run_refines (reset_op now ∷ ops) n v =
    run_refines ops (reset now n) (reset-IsValid now n v)
    ∙ ap (λ w. Window.run w ops) (view-reset now n)
