-- ===== src/Num/Rounding/Exact.antt =====
-- circuitbreaker/circuitbreaker.go: where the rounding of float64 makes no difference.
use native.Mathlib.Nat.{
  div-add-mod', mod-lt, add-mul, mul-le-mul_right, lt_of_mul-lt-mul_right, mul_right_comm,
  mul-lt-mul_of_pos_right, mul-mod_left, le-mul_of_pos_right,
}
use cuirass.Prelude.{
  ◌⊎◌, inl, inr, ◌≢◌, Bool-cases, ap, ◌∙◌, ℕ, suc, zero, ◌+◌, ◌-◌, ◌*◌, ◌/◌, ◌%◌, ◌^◌, ◌<◌, ◌≤◌,
  ◌≡◌, refl, Bool, true, false, ◌&&◌, ltb, ◌==◌, if◌then◌else◌, arith,
}
use cuirass.Num.Rounding.{
  Fraction, nearest, Scale, up, down, fits, scale, scaled_num, scaled_den, unscaled, round_from,
  round,
}

-- The fraction is `p / q` but for a share of 2 ^ -53 of it.
abbrev IsClose : ℕ → ℕ → Fraction → Type 0
IsClose p q f =
    (2 ^ 53 * (f.num * q) ≤ (2 ^ 53 + 1) * (p * f.den))
    × ((2 ^ 53 - 1) * (p * f.den) ≤ 2 ^ 53 * (f.num * q))

nearest_cases :
    (p q : ℕ)
    → ((nearest p q ≡ p / q) × (2 * (p % q) ≤ q)) ⊎ ((nearest p q ≡ p / q + 1) × (q ≤ 2 * (p % q)))
unfolding nearest
nearest_cases p q = ground arith

-- The distance to the nearest whole number is at most a half.
pub nearest_half :
    (p q : ℕ) → 0 < q → (2 * (nearest p q * q) ≤ 2 * p + q) × (2 * p ≤ 2 * (nearest p q * q) + q)
nearest_half p q h =
    let parts = div-add-mod' p q in
    let below = mod-lt p h in
    elim (nearest_cases p q) [
      | inl (e, r) ↦ rw e (omega arith, omega arith)
      | inr (e, r) ↦ rw (e, add-mul (p / q) 1 q) (omega arith, omega arith)
    ]

nearest-IsClose :
    (p q : ℕ) → 0 < q → 2 ^ 52 * q ≤ p → IsClose p q (record { num = nearest p q; den = 1 })
nearest-IsClose p q h l = let (above, below) = nearest_half p q h in (omega arith, omega arith)

scale-fits : (p q : ℕ) → scale p q ≡ fits → 2 ^ 52 * q ≤ p
unfolding scale
scale-fits p q e = ground arith

unscaled-IsClose :
    (p q : ℕ) (s : Scale) (f : Fraction)
    → 0 < q
    → scale p q ≡ s
    → IsClose (scaled_num s p) (scaled_den s q) f
    → IsClose p q (unscaled s p q f)
unscaled-IsClose p q up f h e c = (omega arith, omega arith)
unscaled-IsClose p q down f h e c = (omega arith, omega arith)
unscaled-IsClose p q fits f h e c = nearest-IsClose p q h (scale-fits p q e)

scaled_den-pos : (s : Scale) (q : ℕ) → 0 < q → 0 < scaled_den s q
scaled_den-pos up q h = h
scaled_den-pos down q h = omega arith
scaled_den-pos fits q h = h

round_from-IsClose : (rounds p q : ℕ) → 0 < q → IsClose p q (round_from rounds p q)
unfolding round_from
round_from-IsClose zero p q h = (omega arith, omega arith)
round_from-IsClose (suc rounds) p q h =
    let s = scale p q in
    unscaled-IsClose p q s _ h refl
      (round_from-IsClose rounds (scaled_num s p) (scaled_den s q) (scaled_den-pos s q h))

abbrev pub exceeds_whole : ℕ → Fraction → Bool
exceeds_whole t f = ltb (t * f.den) f.num

den-round_from : (rounds p q : ℕ) → 0 < q → 0 < (round_from rounds p q).den
unfolding round_from
den-round_from zero p q h = h
den-round_from (suc rounds) p q h =
    let s = scale p q in
    by_scale s (round_from rounds (scaled_num s p) (scaled_den s q))
      (den-round_from rounds (scaled_num s p) (scaled_den s q) (scaled_den-pos s q h))
  where
    by_scale : (s : Scale) (f : Fraction) → 0 < f.den → 0 < (unscaled s p q f).den
    by_scale up f k = omega arith
    by_scale down f k = k
    by_scale fits f k = omega arith

-- A number `p / q`, where `p` is below 2 ^ 53, stays on its side of each other whole number.
close-above :
    (p q t : ℕ) (f : Fraction)
    → p < 2 ^ 53
    → 0 < f.den
    → IsClose p q f
    → t * q < p
    → t * f.den < f.num
close-above p q t f hp hd c l =
    let few = mul-le-mul_right {m = p} {n = 2 ^ 53 - 1} f.den (omega arith) in
    let apart = mul-le-mul_right {m = t * q + 1} {n = p} f.den (omega arith) in
    let parts = add-mul (t * q) 1 f.den in
    lt_of_mul-lt-mul_right q (rw (mul_right_comm t f.den q) (omega arith))

close-below :
    (p q t : ℕ) (f : Fraction)
    → p < 2 ^ 53
    → 0 < f.den
    → IsClose p q f
    → p < t * q
    → f.num < t * f.den
close-below p q t f hp hd c l =
    let few = mul-le-mul_right {m = p} {n = 2 ^ 53 - 1} f.den (omega arith) in
    let apart = mul-le-mul_right {m = p + 1} {n = t * q} f.den (omega arith) in
    let parts = add-mul p 1 f.den in
    lt_of_mul-lt-mul_right q (rw (mul_right_comm t f.den q) (omega arith))

close-exceeds :
    (p q t : ℕ) (f : Fraction)
    → p < 2 ^ 53
    → 0 < f.den
    → IsClose p q f
    → p ≢ t * q
    → exceeds_whole t f ≡ ltb (t * q) p
close-exceeds p q t f hp hd c n = by_test (Bool-cases (ltb (t * q) p))
  where
    by_test : ((ltb (t * q) p ≡ true) ⊎ (ltb (t * q) p ≡ false)) → exceeds_whole t f ≡ ltb (t * q) p
    by_test (inl e) = let above = close-above p q t f hp hd c (ground arith) in ground arith
    by_test (inr e) = let below = close-below p q t f hp hd c (ground arith) in ground arith

whole-exceeds :
    (p q t : ℕ)
    → 0 < q
    → p % q ≡ 0
    → exceeds_whole t (record { num = p / q; den = 1 }) ≡ ltb (t * q) p
whole-exceeds p q t h e =
    let parts = div-add-mod' p q in
    elim (Bool-cases (ltb t (p / q))) [
      | inl l ↦
          let more = mul-lt-mul_of_pos_right {m = t} {n = p / q} {k = q} (ground arith) h in
          ground arith
      | inr l ↦ let fewer = mul-le-mul_right {m = p / q} {n = t} q (ground arith) in ground arith
    ]

-- Rounding `p / q`, where `p` is below 2 ^ 53, keeps the order with the whole numbers.
pub round-exceeds : (p q t : ℕ) → p < 2 ^ 53 → 0 < q → exceeds_whole t (round p q) ≡ ltb (t * q) p
unfolding round
round-exceeds p q t hp h = by_test (Bool-cases (p % q == 0 && ltb (p / q) (2 ^ 53)))
  where
    by_test :
        ((p % q == 0 && ltb (p / q) (2 ^ 53)) ≡ true)
          ⊎ ((p % q == 0 && ltb (p / q) (2 ^ 53)) ≡ false)
        → exceeds_whole t (
            if p % q == 0 && ltb (p / q) (2 ^ 53)
            then record { num = p / q; den = 1 }
            else round_from 128 p q)
          ≡ ltb (t * q) p
    by_test (inl e) = rw e (whole-exceeds p q t h (ground arith))
    by_test (inr e) = rw e (
        close-exceeds p q t (round_from 128 p q) hp (den-round_from 128 p q h)
          (round_from-IsClose 128 p q h)
          (λ w.
            let whole = ap (λ k. k % q) w ∙ mul-mod_left t q in
            let parts = div-add-mod' p q in
            let size = le-mul_of_pos_right (p / q) h in ground arith))

-- Whole numbers below 2 ^ 53 are float64.
pub round-whole : (n : ℕ) → n < 2 ^ 53 → round n 1 ≡ record { num = n; den = 1 }
unfolding round
round-whole n h = by_parts (n % 1) (n / 1) (round_from 128 n 1) (omega arith) (omega arith)
  where
    by_small :
        (b : Bool) (f : Fraction)
        → b ≡ true
        → (if b then record { num = n; den = 1 } else f) ≡ record { num = n; den = 1 }
    by_small b f e = rw e refl

    by_parts :
        (rest whole : ℕ) (f : Fraction)
        → rest ≡ 0
        → whole ≡ n
        → (if rest == 0 && ltb whole (2 ^ 53) then record { num = whole; den = 1 } else f)
          ≡ record { num = n; den = 1 }
    by_parts rest whole f a b = rw (a, b) (by_small (ltb n (2 ^ 53)) f (ground arith))
