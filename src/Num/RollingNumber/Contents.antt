-- ===== src/Num/RollingNumber/Contents.antt =====
-- num/rollingnumber.go: the buckets of a rolling number in the order of their age, and how moving on shifts them.
use native.Mathlib.Nat.{mod-add-mod, mod-eq_of_lt, add-zero, add_assoc}
use cuirass.Prelude.{
  ℕ, zero, suc, ◌+◌, ◌-◌, ◌%◌, ◌≤◌, ◌<◌, ◌≡◌, refl, ap, ◌∙◌, sym, List, [], ◌∷◌, ◌++◌, arith,
  length, set, take, replicate, lt→ltb, length-set, length-take,
}
use cuirass.Num.Ring.{next, window, next-lt, length-window, window-set-next}
use cuirass.Num.Window.{forget}
use cuirass.Num.RollingNumber.{RollingNumber, clear_behind, move_on}
use cuirass.Num.RollingNumber.Validity.{IsValid, length-clear_behind}

abbrev pub cells : List ℕ → ℕ → List ℕ
cells bs current = window 0 (length bs) bs current (length bs)

abbrev pub contents : RollingNumber → List ℕ
contents n = cells n.buckets n.current_bucket

next-eq-mod : (n c : ℕ) → c < n → next n c ≡ (c + 1) % n
next-eq-mod n c h = grind arith

-- One round of the loop: an empty youngest bucket, and the oldest one gone.
abbrev shift : List ℕ → List ℕ
shift w = 0 ∷ take (length w - 1) w

abbrev shift_by : ℕ → List ℕ → List ℕ
shift_by zero w = w
shift_by (suc m) w = shift_by m (shift w)

take-append_take : (r w : List ℕ) (l k : ℕ) → l ≤ k → take l (r ++ take k w) ≡ take l (r ++ w)
take-append_take r w zero k h = refl
take-append_take [] [] (suc l) zero h = elim h [ ]
take-append_take [] (x ∷ w) (suc l) zero h = elim h [ ]
take-append_take [] [] (suc l) (suc k) h = refl
take-append_take [] (x ∷ w) (suc l) (suc k) h =
    ap (λ v. x ∷ v) (take-append_take [] w l k (omega arith))
take-append_take (y ∷ r) w (suc l) k h = ap (λ v. y ∷ v) (take-append_take r w l k (omega arith))

replicate-append_cons : (m v : ℕ) (w : List ℕ) → replicate m v ++ v ∷ w ≡ v ∷ replicate m v ++ w
replicate-append_cons zero v w = refl
replicate-append_cons (suc m) v w = ap (λ u. v ∷ u) (replicate-append_cons m v w)

pub take_all : (w : List ℕ) (n : ℕ) → length w ≡ n → take n w ≡ w
take_all [] zero h = refl
take_all [] (suc n) h = refl
take_all (x ∷ w) zero h = absurd (omega arith)
take_all (x ∷ w) (suc n) h = ap (λ v. x ∷ v) (take_all w n (omega arith))

length-shift : (w : List ℕ) (l : ℕ) → length w ≡ suc l → length (shift w) ≡ suc l
length-shift w l h = omega (arith, length-take (length w - 1) w)

-- `m` rounds forget the `m` oldest buckets.
shift_by-eq-forget : (m l : ℕ) (w : List ℕ) → length w ≡ suc l → shift_by m w ≡ forget m w
shift_by-eq-forget zero l w h = sym (take_all w (length w) refl)
shift_by-eq-forget (suc m) l w h =
    shift_by-eq-forget m l (shift w) (length-shift w l h)
    ∙ rw (length-shift w l h, replicate-append_cons m 0 (take (length w - 1) w), h)
        (ap (λ u. 0 ∷ u) (take-append_take (replicate m 0) w l (suc l - 1) (omega arith)))

abbrev nexts : ℕ → ℕ → ℕ → ℕ
nexts n zero c = c
nexts n (suc k) c = nexts n k (next n c)

nexts-eq-mod : (n k c : ℕ) → c < n → nexts n k c ≡ (c + k) % n
nexts-eq-mod n zero c h = rw (add-zero, mod-eq_of_lt h)
nexts-eq-mod n (suc k) c h =
    nexts-eq-mod n k (next n c) (next-lt n c h)
    ∙ rw (next-eq-mod n c h, mod-add-mod (c + 1) n k) (ap (λ t. t % n) (omega arith))

next-next : (n c a : ℕ) → c < n → next n c ≡ a % n → next n (next n c) ≡ (a + 1) % n
next-next n c a h e = next-eq-mod n (next n c) (next-lt n c h) ∙ rw (e, mod-add-mod a n 1)

-- One round, which overwrites the next cell.
window-set-shift :
    (l c j : ℕ) (bs : List ℕ)
    → c < suc l
    → length bs ≡ suc l
    → j ≡ next (suc l) c
    → window 0 (suc l) (set bs j 0) (next (suc l) c) (suc l) ≡ shift (window 0 (suc l) bs c (suc l))
window-set-shift l c j bs hc hl e =
    ap (λ v. window 0 (suc l) (set bs v 0) (next (suc l) c) (suc l)) e
    ∙ (window-set-next 0 (suc l) 0 bs c l hc (omega arith) refl
        ∙ ap (λ k. 0 ∷ take k (window 0 (suc l) bs c (suc l))) len)
  where
    len : l ≡ length (window 0 (suc l) bs c (suc l)) - 1
    len = omega (arith, length-window 0 (suc l) bs c (suc l))

-- The loop of `findCurrentBucket` from cell `c` on shifts the buckets once a round.
window-clear_behind :
    (rounds i current l c : ℕ) (bs : List ℕ)
    → c < suc l
    → length bs ≡ suc l
    → next (suc l) c ≡ (current + i) % suc l
    → window 0 (suc l) (clear_behind rounds i current (suc l) bs) (nexts (suc l) rounds c) (suc l)
      ≡ shift_by rounds (window 0 (suc l) bs c (suc l))
unfolding clear_behind
window-clear_behind zero i current l c bs hc hl e = refl
window-clear_behind (suc rounds) i current l c bs hc hl e =
    window-clear_behind rounds (i + 1) current l (next (suc l) c) (set bs ((current + i) % suc l) 0)
      (next-lt (suc l) c hc) (length-set bs ((current + i) % suc l) 0 ∙ hl)
      (rw (← add_assoc current i 1) (next-next (suc l) c (current + i) hc e))
    ∙ ap (shift_by rounds) (window-set-shift l c ((current + i) % suc l) bs hc hl (sym e))

cells-clear_behind :
    (behind current : ℕ) (bs : List ℕ)
    → current < length bs
    → cells (clear_behind behind 1 current (length bs) bs) ((current + behind) % length bs)
      ≡ forget behind (cells bs current)
cells-clear_behind behind current [] h = elim h [ ]
cells-clear_behind behind current (x ∷ xs) h =
    rw
      (
        length-clear_behind behind 1 current (suc (length xs)) (x ∷ xs),
        ← nexts-eq-mod (suc (length xs)) behind current h,
      )
      (window-clear_behind behind 1 current (length xs) current (x ∷ xs) h refl
          (next-eq-mod (suc (length xs)) current h)
        ∙ shift_by-eq-forget behind (length xs) (cells (x ∷ xs) current)
            (length-window 0 (suc (length xs)) (x ∷ xs) current (suc (length xs))))

-- Moving on by `behind` buckets forgets the `behind` oldest ones.
pub contents-move_on :
    (now behind : ℕ) (n : RollingNumber)
    → IsValid n
    → contents (move_on now behind n) ≡ forget behind (contents n)
unfolding move_on
contents-move_on now zero n v = sym (take_all (contents n) (length (contents n)) refl)
contents-move_on now (suc behind) n v =
    rw (lt→ltb 0 (suc behind) (omega arith))
      (cells-clear_behind (suc behind) n.current_bucket n.buckets v.current_in)
