-- ===== src/Num/Window/History.antt =====
-- A window beside the times of the increments that it has counted: how old the times are that the
-- slots stand for.
use native.Mathlib.Nat.{le_trans, le_of_eq, div-le_self, div-add-mod}
use cuirass.Prelude.{
  ℕ, zero, suc, sym, length-replicate, ◌+◌, ◌-◌, ◌*◌, ◌/◌, ◌^◌, ◌≤◌, ◌<◌, ◌≡◌, refl, List, [], ◌∷◌,
  ltb, arith, length, take, replicate, ltb→lt, ◌++◌, ap, ◌∙◌, false, Bool-cases, inl, inr,
}
use cuirass.Num.Window.{Window, total, bump, forget, slots_behind, refresh, clear}
use cuirass.Num.Window.Recent.{
  recent, AllBefore, AllBefore-later, recent_le, recent-le-length, recent_none, recent_now,
  take-take, take-zeros, take-length, length-forget, length-bump, take-bump,
}

-- The youngest slots, `k` of them and one, count every time of at most `k` slots before the start of
-- the youngest, and no time of more than twice that.
pub record Dated (us : List ℕ) (w : Window) : Type 0 where
  pub before : AllBefore (w.start + w.slot) us
  pub at_least :
      (k : ℕ) → k < length w.counts → recent (k * w.slot) w.start us ≤ total (take (suc k) w.counts)
  pub at_most :
      (k : ℕ)
      → k < length w.counts
      → total (take (suc k) w.counts) ≤ recent ((k + k) * w.slot) w.start us

none_left : (k b : ℕ) → k < b → suc k - b ≡ 0
none_left k b h = omega arith

split : (k b : ℕ) → ltb k b ≡ false → k ≡ k - b + b
split k b h = ground arith

left : (j b : ℕ) → suc (j + b) - b ≡ suc j
left j b = omega arith

module _ (us : List ℕ) (slot start now : ℕ) (counts : List ℕ) (pos : 0 < slot) where
  -- The `b` new slots are behind those that were there.
  module _ (b : ℕ) (b_pos : 0 < b) (low : start + b * slot ≤ now)
      (high : now < start + (b + 1) * slot)
      (d : Dated us (record { slot = slot; start = start; counts = counts })) where
    total-forget :
        (k : ℕ)
        → k < length counts
        → total (take (suc k) (forget b counts)) ≡ total (take (suc k - b) counts)
    total-forget k h =
        take-take (suc k) (length counts) (replicate b 0 ++ counts) (omega (arith, h))
        ∙ take-zeros (suc k) b counts

    at_least-forget :
        (k : ℕ) → k < length counts → recent (k * slot) now us ≤ total (take (suc k - b) counts)
    at_least-forget k h = elim (Bool-cases (ltb k b)) [
      | inl fresh ↦
          rw
            (
              ap (λ n. total (take n counts)) (none_left k b (ltb→lt k b fresh)),
              recent_none (k * slot) (start + slot) now us (within (ltb→lt k b fresh)) d.before,
            )
            (omega arith)
      | inr old ↦ kept (k - b) (split k b old)
    ]
      where
        within : k < b → start + slot + k * slot ≤ now
        within l = grind arith

        kept : (j : ℕ) → k ≡ j + b → recent (k * slot) now us ≤ total (take (suc k - b) counts)
        kept j e =
            rw (e, left j b)
              (le_trans
                (recent_le ((j + b) * slot) (j * slot) now start us (λ u l. omega (arith, low)))
                (d.at_least j (omega arith)))

    at_most-forget :
        (k : ℕ)
        → k < length counts
        → total (take (suc k - b) counts) ≤ recent ((k + k) * slot) now us
    at_most-forget k h = elim (Bool-cases (ltb k b)) [
      | inl fresh ↦
          rw (ap (λ n. total (take n counts)) (none_left k b (ltb→lt k b fresh))) (omega arith)
      | inr old ↦ kept (k - b) (split k b old)
    ]
      where
        one_slot : slot ≤ b * slot
        one_slot = grind arith

        kept :
            (j : ℕ) → k ≡ j + b → total (take (suc k - b) counts) ≤ recent ((k + k) * slot) now us
        kept j e =
            rw (e, left j b)
              (le_trans (d.at_most j (omega arith)) (
                recent_le ((j + j) * slot) ((j + b + (j + b)) * slot) start now us
                  (λ u l. omega (arith, high, one_slot))))

below_next : (start now slot : ℕ) → 0 < slot → now < start + slot + (now - start) / slot * slot
below_next start now slot h = omega arith

past_slots :
    (start now slot : ℕ) → 0 < (now - start) / slot → start + (now - start) / slot * slot ≤ now
past_slots start now slot h =
    omega (arith, div-le_self (now - start) slot, whole_slots (now - start))
  where
    whole_slots : (d : ℕ) → d / slot * slot ≤ d
    whole_slots d = omega (arith, div-add-mod d slot)

-- What `refresh` makes of the start.
pub start-refresh :
    (now : ℕ) (w : Window)
    → 0 < w.slot
    → w.start ≤ now
    → ((refresh now w).start ≤ now)
      × (now < (refresh now w).start + (refresh now w).slot)
      × ((refresh now w).slot ≡ w.slot)
start-refresh now w pos h = elim (Bool-cases (ltb 0 (slots_behind now w))) [
  | inl moved ↦ rw moved (omega arith, omega arith, refl)
  | inr still ↦ rw still (h, within (ground (arith, still)), refl)
]
  where
    within : slots_behind now w ≡ 0 → now < w.start + w.slot
    within q =
        let below : now < w.start + w.slot + 0 * w.slot =
          rw q at (below_next w.start now w.slot pos) in
        omega (arith, below)

pub Dated-refresh :
    (us : List ℕ) (now : ℕ) (w : Window) → 0 < w.slot → Dated us w → Dated us (refresh now w)
Dated-refresh us now w pos d = elim (Bool-cases (ltb 0 (slots_behind now w))) [
  | inl moved ↦ rw moved (moved_on (ltb→lt 0 _ moved))
  | inr still ↦ rw still d
]
  where
    moved_on :
        0 < slots_behind now w
        → Dated us (record w { start = now; counts = forget (slots_behind now w) w.counts })
    moved_on b_pos =
        let b = slots_behind now w in
        let low : w.start + slots_behind now w * w.slot ≤ now =
          past_slots w.start now w.slot b_pos in
        let high : now < w.start + (slots_behind now w + 1) * w.slot =
          omega (arith, below_next w.start now w.slot pos) in
        record {
          before =
              AllBefore-later (w.start + w.slot) (now + w.slot) us (omega (arith, low)) d.before;
          at_least = λ k h.
              let h' = rw (length-forget b w.counts) at h in
              rw (total-forget us w.slot w.start now w.counts pos b b_pos low high d k h')
                (at_least-forget us w.slot w.start now w.counts pos b b_pos low high d k h');
          at_most = λ k h.
              let h' = rw (length-forget b w.counts) at h in
              rw (total-forget us w.slot w.start now w.counts pos b b_pos low high d k h')
                (at_most-forget us w.slot w.start now w.counts pos b b_pos low high d k h');
        }

-- The sum of all slots is at most the number of times.
pub Dated-total-le : (us : List ℕ) (w : Window) → Dated us w → total w.counts ≤ length us
Dated-total-le us w d =
    by_counts w.counts
      (λ k h. le_trans (d.at_most k h) (recent-le-length ((k + k) * w.slot) w.start us))
  where
    by_counts :
        (vs : List ℕ)
        → ((k : ℕ) → k < length vs → total (take (suc k) vs) ≤ length us)
        → total vs ≤ length us
    by_counts [] h = omega arith
    by_counts (v ∷ vs) h = rw (take-length (v ∷ vs)) at (h (length vs) (omega arith))

pub Dated-bump :
    (us : List ℕ) (now : ℕ) (w : Window)
    → w.start ≤ now
    → now < w.start + w.slot
    → length us + 1 < 2 ^ 64
    → Dated us w
    → Dated (now ∷ us) (record w { counts = bump w.counts })
Dated-bump us now w h l few d = record {
  before = (l, d.before);
  at_least = λ k m.
      let m' = rw (length-bump w.counts) at m in
      omega (arith, bumped k m', recent_now (k * w.slot) w.start now us h, d.at_least k m');
  at_most = λ k m.
      let m' = rw (length-bump w.counts) at m in
      omega (arith, bumped k m', recent_now ((k + k) * w.slot) w.start now us h, d.at_most k m');
}
  where
    bumped :
        (k : ℕ)
        → k < length w.counts
        → total (take (suc k) (bump w.counts)) ≡ total (take (suc k) w.counts) + 1
    bumped k m = take-bump w.counts k m (omega (arith, Dated-total-le us w d, few))

-- Before the first increment.
pub Dated-zeros : (w : Window) → w.counts ≡ replicate (length w.counts) 0 → Dated [] w
Dated-zeros w zeros = record {
  before = tt;
  at_least = λ k h. omega arith;
  at_most = λ k h.
      le_of_eq (ap (λ vs. total (take (suc k) vs)) zeros ∙ none_counted (suc k) (length w.counts));
}
  where
    none_counted : (k n : ℕ) → total (take k (replicate n 0)) ≡ 0
    none_counted zero n = refl
    none_counted (suc k) zero = refl
    none_counted (suc k) (suc n) = omega (arith, none_counted k n)

pub Dated-clear : (now : ℕ) (w : Window) → Dated [] (clear now w)
Dated-clear now w =
    Dated-zeros (clear now w)
      (sym (ap (λ n. replicate n 0) (length-replicate {A = ℕ} (length w.counts) 0)))
