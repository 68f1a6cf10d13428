-- ===== src/Num/Window/Recent.antt =====
-- How many times of a list are recent, and the sums over the youngest slots of a window.
use native.Mathlib.Nat.{zero-add}
use cuirass.Prelude.{
  ltb, Bool-cases, inl, inr, ℕ, zero, suc, ◌+◌, ◌-◌, ◌≤◌, ◌<◌, ◌^◌, ◌≡◌, refl, ap, ◌∙◌, List, [],
  ◌∷◌, ◌++◌, leb, arith, if◌then◌else◌, length, take, replicate, min, length-take, length-append,
  length-replicate,
}
use cuirass.Num.Window.{Window, total, bump, forget, slots_behind, refresh}

-- The times that lie at most `age` before `t`.
abbrev pub recent : ℕ → ℕ → List ℕ → ℕ
recent age t [] = 0
recent age t (u ∷ us) = (if leb t (u + age) then 1 else 0) + recent age t us

abbrev pub AllBefore : ℕ → List ℕ → Type 0
AllBefore t [] = Unit {0}
AllBefore t (u ∷ us) = (u < t) × AllBefore t us

pub AllBefore-later : (s t : ℕ) (us : List ℕ) → s ≤ t → AllBefore s us → AllBefore t us
AllBefore-later s t [] h b = tt
AllBefore-later s t (u ∷ us) h b = (omega (arith, h, b.0), AllBefore-later s t us h b.1)

pub recent_le :
    (a b s t : ℕ) (us : List ℕ) → ((u : ℕ) → s ≤ u + a → t ≤ u + b) → recent a s us ≤ recent b t us
recent_le a b s t [] h = omega arith
recent_le a b s t (u ∷ us) h = ground (arith, h u, recent_le a b s t us h)

pub recent-le-length : (a t : ℕ) (us : List ℕ) → recent a t us ≤ length us
recent-le-length a t [] = omega arith
recent-le-length a t (u ∷ us) = ground (arith, recent-le-length a t us)

-- No time that is too far back is recent.
pub recent_none : (a s t : ℕ) (us : List ℕ) → s + a ≤ t → AllBefore s us → recent a t us ≡ 0
recent_none a s t [] h b = refl
recent_none a s t (u ∷ us) h b = ground (arith, b, recent_none a s t us h b.1)

pub recent_now : (a s t : ℕ) (us : List ℕ) → s ≤ t → recent a s (t ∷ us) ≡ 1 + recent a s us
recent_now a s t us h = ground arith

pub take-take : (k n : ℕ) (vs : List ℕ) → k ≤ n → total (take k (take n vs)) ≡ total (take k vs)
take-take zero n vs h = refl
take-take (suc k) zero vs h = absurd (not_below k h)
  where
    not_below : (j : ℕ) → ¬ (suc j ≤ 0)
    not_below j h = omega arith
take-take (suc k) (suc n) [] h = refl
take-take (suc k) (suc n) (v ∷ vs) h = omega (arith, take-take k n vs (omega arith))

pub take-zeros :
    (k b : ℕ) (vs : List ℕ) → total (take k (replicate b 0 ++ vs)) ≡ total (take (k - b) vs)
take-zeros k zero vs = ap (λ n. total (take n vs)) (omega arith)
take-zeros zero (suc b) vs = ap (λ n. total (take n vs)) none
  where
    none : 0 ≡ 0 - suc b
    none = omega arith
take-zeros (suc k) (suc b) vs = zero-add _ ∙ take-zeros k b vs ∙ ap (λ n. total (take n vs)) same
  where
    same : k - b ≡ suc k - suc b
    same = omega arith

pub total-take-le : (k : ℕ) (vs : List ℕ) → total (take k vs) ≤ total vs
total-take-le zero vs = omega arith
total-take-le (suc k) [] = omega arith
total-take-le (suc k) (v ∷ vs) = omega (arith, total-take-le k vs)

pub take-length : (vs : List ℕ) → total (take (length vs) vs) ≡ total vs
take-length [] = refl
take-length (v ∷ vs) = ap (λ (t : ℕ). v + t) (take-length vs)

pub length-forget : (k : ℕ) (counts : List ℕ) → length (forget k counts) ≡ length counts
length-forget k counts =
    length-take (length counts) (replicate k 0 ++ counts)
    ∙ least (length counts) _
        (omega (arith, length-append (replicate k 0) counts, length-replicate {A = ℕ} k 0))
  where
    least : (a b : ℕ) → a ≤ b → min a b ≡ a
    least a b h = ground arith

pub length-bump : (vs : List ℕ) → length (bump vs) ≡ length vs
length-bump [] = refl
length-bump (v ∷ vs) = refl

pub take-bump :
    (vs : List ℕ) (k : ℕ)
    → k < length vs
    → total vs + 1 < 2 ^ 64
    → total (take (suc k) (bump vs)) ≡ total (take (suc k) vs) + 1
take-bump [] k h few = elim h [ ]
take-bump (v ∷ vs) k h few = omega arith

pub length-refresh : (t : ℕ) (w : Window) → length (refresh t w).counts ≡ length w.counts
length-refresh t w = elim (Bool-cases (ltb 0 (slots_behind t w))) [
  | inl moved ↦ rw moved (length-forget (slots_behind t w) w.counts)
  | inr still ↦ rw still refl
]
