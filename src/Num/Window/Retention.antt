-- ===== src/Num/Window/Retention.antt =====
-- Which increments the sum over a window stands for, after any calls in the order of their times.
use native.Mathlib.Nat.{le_trans, mod-eq_of_lt}
use cuirass.Prelude.{
  ℕ, suc, ◌+◌, ◌-◌, ◌*◌, ◌^◌, ◌≤◌, ◌<◌, ◌≡◌, ap, ◌∙◌, List, [], ◌∷◌, arith, length, take,
  length-replicate,
}
use cuirass.Num.Window.{
  Window, total, refresh, count, clear, sum_counts, Op, increment_op, sum_op, reset_op,
}
use cuirass.Num.Window.Recent.{recent, recent_le, length-refresh, length-bump, take-length}
use cuirass.Num.Window.History.{
  Dated, start-refresh, Dated-refresh, Dated-total-le, Dated-bump, Dated-clear,
}

-- The window behind some calls.
abbrev pub after : Window → List Op → Window
after w [] = w
after w (increment_op now ∷ ops) = after (count now w) ops
after w (sum_op now ∷ ops) = after (refresh now w) ops
after w (reset_op now ∷ ops) = after (clear now w) ops

-- The times of the increments since the last reset, the latest first.
abbrev pub increments : List ℕ → List Op → List ℕ
increments us [] = us
increments us (increment_op now ∷ ops) = increments (now ∷ us) ops
increments us (sum_op now ∷ ops) = increments us ops
increments us (reset_op now ∷ ops) = increments [] ops

abbrev pub time_of : Op → ℕ
time_of (increment_op now) = now
time_of (sum_op now) = now
time_of (reset_op now) = now

-- The clock does not go back, from `s` on through the calls and up to `t`.
abbrev pub InOrder : ℕ → List Op → ℕ → Type 0
InOrder s [] t = s ≤ t
InOrder s (op ∷ ops) t = (s ≤ time_of op) × InOrder (time_of op) ops t

pub length-increments :
    (us : List ℕ) (ops : List Op) → length (increments us ops) ≤ length us + length ops
length-increments us [] = omega arith
length-increments us (increment_op now ∷ ops) = omega (arith, length-increments (now ∷ us) ops)
length-increments us (sum_op now ∷ ops) = omega (arith, length-increments us ops)
length-increments us (reset_op now ∷ ops) = omega (arith, length-increments [] ops)

-- What holds of a window at time `t`, with the increments `us`, made of `slots` slots of size `slot`.
pub record Follows (slot slots t : ℕ) (us : List ℕ) (w : Window) : Type 0 where
  pub same_slot : w.slot ≡ slot
  pub same_length : length w.counts ≡ slots
  pub started : w.start ≤ t
  pub dated : Dated us w

module _ (slot slots : ℕ) (pos : 0 < slot) where
  Follows-refresh :
      (s t : ℕ) (us : List ℕ) (w : Window)
      → s ≤ t
      → Follows slot slots s us w
      → Follows slot slots t us (refresh t w)
  Follows-refresh s t us w h f =
      let w_pos : 0 < w.slot = rw f.same_slot pos in
      let r = start-refresh t w w_pos (omega (arith, h, f.started)) in
      record {
        same_slot = r.2 ∙ f.same_slot;
        same_length = length-refresh t w ∙ f.same_length;
        started = r.0;
        dated = Dated-refresh us t w w_pos f.dated;
      }

  Follows-count :
      (s t : ℕ) (us : List ℕ) (w : Window)
      → s ≤ t
      → length us + 1 < 2 ^ 64
      → Follows slot slots s us w
      → Follows slot slots t (t ∷ us) (count t w)
  Follows-count s t us w h few f =
      let g = Follows-refresh s t us w h f in
      let w_pos : 0 < w.slot = rw f.same_slot pos in
      let r = start-refresh t w w_pos (omega (arith, h, f.started)) in
      record {
        same_slot = g.same_slot;
        same_length = length-bump (refresh t w).counts ∙ g.same_length;
        started = r.0;
        dated = Dated-bump us t (refresh t w) r.0 r.1 few g.dated;
      }

  -- Calls in the order of their times.
  pub after-Follows :
      (ops : List Op) (s t : ℕ) (us : List ℕ) (w : Window)
      → length us + length ops < 2 ^ 64
      → InOrder s ops t
      → Follows slot slots s us w
      → Follows slot slots t (increments us ops) (after w ops)
  after-Follows [] s t us w few h f = record {
    same_slot = f.same_slot;
    same_length = f.same_length;
    started = le_trans f.started h;
    dated = f.dated;
  }
  after-Follows (increment_op now ∷ ops) s t us w few h f =
      after-Follows ops now t (now ∷ us) (count now w) (omega (arith, few)) h.1
        (Follows-count s now us w h.0 (omega (arith, few)) f)
  after-Follows (sum_op now ∷ ops) s t us w few h f =
      after-Follows ops now t us (refresh now w) (omega (arith, few)) h.1
        (Follows-refresh s now us w h.0 f)
  after-Follows (reset_op now ∷ ops) s t us w few h f =
      after-Follows ops now t [] (clear now w) (omega (arith, few)) h.1 (record {
        same_slot = f.same_slot;
        same_length = length-replicate (length w.counts) 0 ∙ f.same_length;
        started = omega arith;
        dated = Dated-clear now w;
      })

-- The sum at `t` is at least the number of the increments of at most all slots but one before `t`,
-- and at most the number of those of at most twice all slots but one before.
pub Follows-sum_counts :
    (slot slots t : ℕ) (us : List ℕ) (w : Window)
    → 0 < slot
    → 0 < slots
    → length us < 2 ^ 64
    → Follows slot slots t us w
    → (recent ((slots - 1) * slot) t us ≤ sum_counts t w)
      × (sum_counts t w ≤ recent ((2 * slots - 1) * slot) t us)
Follows-sum_counts slot slots t us w pos some few f = rw few_counts (
  le_trans
      (recent_le ((slots - 1) * slot) ((slots - 1) * r.slot) t r.start us
        (λ u h. rw g.same_slot (omega (arith, g.started, h))))
      (rw all at (g.dated.at_least (slots - 1) last)),
  le_trans (rw all at (g.dated.at_most (slots - 1) last)) (
      recent_le ((slots - 1 + (slots - 1)) * r.slot) ((2 * slots - 1) * slot) r.start t us
        (λ u h. below u (rw g.same_slot at h))),
)
  where
    r : Window
    r = refresh t w

    g : Follows slot slots t us r
    g = Follows-refresh slot slots pos t t us w (omega arith) f

    last : slots - 1 < length r.counts
    last = omega (arith, g.same_length, some)

    all : total (take (suc (slots - 1)) r.counts) ≡ total r.counts
    all = ap (λ n. total (take n r.counts)) (the_length g.same_length) ∙ take-length r.counts
      where
        the_length : length r.counts ≡ slots → suc (slots - 1) ≡ length r.counts
        the_length q = omega (arith, some)

    few_counts : sum_counts t w ≡ total r.counts
    few_counts = mod-eq_of_lt (omega (arith, Dated-total-le us r g.dated, few))

    near : t < r.start + slot
    near = rw g.same_slot at (start-refresh t w (rw f.same_slot pos) f.started).1

    below :
        (u : ℕ) → r.start ≤ u + (slots - 1 + (slots - 1)) * slot → t ≤ u + (2 * slots - 1) * slot
    below u h = by_slots (slots - 1) (suc_pred some) h
      where
        suc_pred : 0 < slots → slots ≡ suc (slots - 1)
        suc_pred p = omega arith

        by_slots :
            (k : ℕ) → slots ≡ suc k → r.start ≤ u + (k + k) * slot → t ≤ u + (2 * slots - 1) * slot
        by_slots k q h = rw (q, odd k) (omega (arith, near, h))
          where
            odd : (k : ℕ) → 2 * suc k - 1 ≡ k + k + 1
            odd k = omega arith
