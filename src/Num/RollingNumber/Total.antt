-- ===== src/Num/RollingNumber/Total.antt =====
-- num/rollingnumber.go: the sum over the array and over the buckets in the order of their age.
use native.Mathlib.Nat.{sub-zero, zero-add}
use cuirass.Prelude.{
  ℕ, zero, suc, ◌+◌, ◌-◌, ◌%◌, ◌^◌, ◌≤◌, ◌<◌, ◌≡◌, refl, ap, ◌∙◌, List, [], ◌∷◌, arith, length,
  get_or, take,
}
use cuirass.Num.Ring.{prev, window}
use cuirass.Num.Window.{total}
use cuirass.Num.RollingNumber.{sum_from}
use cuirass.Num.RollingNumber.Contents.{cells, take_all}

total-take-suc :
    (bs : List ℕ) (c : ℕ)
    → c < length bs
    → total (take (suc c) bs) ≡ total (take c bs) + get_or bs c 0
total-take-suc [] c h = elim h [ ]
total-take-suc (x ∷ xs) zero h = omega arith
total-take-suc (x ∷ xs) (suc c) h = omega (arith, total-take-suc xs c)

sub_suc : (a b : ℕ) → suc a - suc b ≡ a - b
sub_suc a b = omega arith

prev_zero : (n : ℕ) → prev n 0 ≡ n - 1
prev_zero n = ground arith

prev-suc : (n c : ℕ) → prev n (suc c) ≡ c
prev-suc n c = ground arith

-- The `m` cells down from cell `c`, and those below them.
total-window_down :
    (n : ℕ) (bs : List ℕ) (c m : ℕ)
    → c < length bs
    → m ≤ suc c
    → total (window 0 n bs c m) + total (take (suc c - m) bs) ≡ total (take (suc c) bs)
total-window_down n bs c zero h hm = omega (arith, ap (λ k. total (take k bs)) (sub-zero (suc c)))
total-window_down n bs zero (suc zero) h hm = omega (arith, total-take-suc bs zero h)
total-window_down n bs zero (suc (suc m)) h hm = absurd (omega arith)
total-window_down n bs (suc c) (suc m) h hm = omega (
  arith,
  ap (λ k. total (window 0 n bs k m)) (prev-suc n c),
  total-window_down n bs c m (omega arith) (omega arith),
  ap (λ t. total (take t bs)) (sub_suc (suc c) m),
  total-take-suc bs (suc c),
)

-- Past cell 0 the walk goes on from the last cell.
total-window_round :
    (n : ℕ) (bs : List ℕ) (c m k : ℕ)
    → k ≡ c + m
    → total (window 0 n bs c (suc k))
      ≡ total (window 0 n bs c (suc c)) + total (window 0 n bs (n - 1) m)
total-window_round n bs zero m k e = omega (
  arith,
  ap (λ t. total (window 0 n bs t k)) (prev_zero n),
  ap (λ t. total (window 0 n bs (n - 1) t)) (e ∙ zero-add m),
)
total-window_round n bs (suc c) m zero e = absurd (omega arith)
total-window_round n bs (suc c) m (suc k) e = omega (
  arith,
  ap (λ t. total (window 0 n bs t (suc k))) (prev-suc n c),
  ap (λ t. total (window 0 n bs t (suc c))) (prev-suc n c),
  total-window_round n bs c m k (omega arith),
)

total-cells_at :
    (l c : ℕ) (bs : List ℕ)
    → length bs ≡ suc l
    → c ≤ l
    → total (window 0 (suc l) bs c (suc l)) ≡ total bs
total-cells_at l c bs hl hc = omega (
  arith,
  total-window_round (suc l) bs c (l - c) l (omega arith),
  total-window_down (suc l) bs c (suc c) (omega arith) (omega arith),
  ap (λ t. total (take t bs)) subtracted,
  total-window_down (suc l) bs l (l - c) (omega arith) (omega arith),
  ap (λ t. total (window 0 (suc l) bs t (l - c))) last,
  ap (λ t. total (take t bs)) rest,
  ap total (take_all bs (suc l) hl),
)
  where
    subtracted : suc c - suc c ≡ 0
    subtracted = omega arith

    last : suc l - 1 ≡ l
    last = omega arith

    rest : suc l - (l - c) ≡ suc c
    rest = omega arith

pub total-cells : (bs : List ℕ) (c : ℕ) → c < length bs → total (cells bs c) ≡ total bs
total-cells [] c h = elim h [ ]
total-cells (x ∷ xs) c h = total-cells_at (length xs) c (x ∷ xs) refl (omega arith)

-- The loop of `Sum` adds modulo 2 ^ 64.
pub sum_from-eq-total :
    (acc : ℕ) (bs : List ℕ) → acc < 2 ^ 64 → sum_from acc bs ≡ (acc + total bs) % 2 ^ 64
unfolding sum_from
sum_from-eq-total acc [] h = omega arith
sum_from-eq-total acc (v ∷ vs) h = omega (arith, sum_from-eq-total ((acc + v) % 2 ^ 64) vs)
