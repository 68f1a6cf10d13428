-- ===== src/Num/Rounding/Mantissa.antt =====
-- circuitbreaker/circuitbreaker.go: the rounding of the error percentage ends in a float64.
use native.Mathlib.Nat.{
  pow-suc, pow-succ', mul_assoc, div-add-mod', mul-le-mul_right, lt_of_mul-lt-mul_right,
  le-mul_of_pos_right,
}
use cuirass.Prelude.{
  sym, ◌≢◌, ap, ◌∙◌, ℕ, suc, zero, ◌+◌, ◌*◌, ◌/◌, ◌%◌, ◌^◌, ◌<◌, ◌≤◌, ◌≡◌, refl, Bool, true, false,
  ◌&&◌, ltb, ◌==◌, if◌then◌else◌, arith,
}
use cuirass.Num.Rounding.{
  Fraction, nearest, Scale, up, down, fits, scale, unscaled, round_from, round,
}
use cuirass.Num.Rounding.Exact.{nearest_half}

-- A number that a float64 has: a whole number of at most 53 bits (or 2 ^ 53) by a power of 2.
record IsFloat64 (f : Fraction) : Type 0 where
  exponent : ℕ
  den_eq : f.den ≡ 2 ^ exponent
  num_le : f.num ≤ 2 ^ 53

nearest-le : (p q : ℕ) → 0 < q → p < 2 ^ 53 * q → nearest p q ≤ 2 ^ 53
nearest-le p q h l =
    let half = nearest_half p q h in
    let less : nearest p q < 2 ^ 53 + 1 = lt_of_mul-lt-mul_right q (omega arith) in omega arith

scale-up : (p q : ℕ) → scale p q ≡ up → p < 2 ^ 52 * q
unfolding scale
scale-up p q e = ground arith

scale-not_down : (p q : ℕ) → p < 2 ^ 53 * q → scale p q ≢ down
unfolding scale
scale-not_down p q h e = ground arith

unscaled-IsFloat64 :
    (p q : ℕ) (s : Scale) (f : Fraction)
    → 0 < q
    → p < 2 ^ 53 * q
    → scale p q ≡ s
    → (s ≡ up → IsFloat64 f)
    → IsFloat64 (unscaled s p q f)
unscaled-IsFloat64 p q up f h l e k =
    let float = k refl in
    record {
      exponent = suc float.exponent;
      den_eq = ap (λ d. 2 * d) float.den_eq ∙ sym (pow-succ' 2 float.exponent);
      num_le = float.num_le;
    }
unscaled-IsFloat64 p q down f h l e k = absurd (scale-not_down p q l e)
unscaled-IsFloat64 p q fits f h l e k = record {
  exponent = 0;
  den_eq = refl;
  num_le = nearest-le p q h l;
}

round_from-IsFloat64 :
    (rounds p q : ℕ)
    → 0 < q
    → p < 2 ^ 53 * q
    → 2 ^ 52 * q ≤ 2 ^ rounds * p
    → IsFloat64 (round_from (suc rounds) p q)
unfolding round_from
round_from-IsFloat64 zero p q h l e =
    unscaled-IsFloat64 p q (scale p q) _ h l refl
      (λ u. let less = scale-up p q u in absurd (too_small less))
  where
    too_small : p < 2 ^ 52 * q → ⊥
    too_small less = omega arith
round_from-IsFloat64 (suc rounds) p q h l e = unscaled-IsFloat64 p q (scale p q) _ h l refl (λ u.
    let less = scale-up p q u in
    rw u (
      round_from-IsFloat64 rounds (2 * p) q h (omega arith)
        (rw (pow-suc 2 rounds, mul_assoc (2 ^ rounds) 2 p) at e)))

-- The 128 rounds are enough for a percentage, whose numerator is below 2 ^ 53 and whose denominator is an
-- int64: it is rounded to a number of a float64.
round-IsFloat64 : (p q : ℕ) → 0 < p → p < 2 ^ 53 → 0 < q → q < 2 ^ 64 → IsFloat64 (round p q)
unfolding round
round-IsFloat64 p q hp lp hq lq =
    let large = mul-le-mul_right {m = 1} {n = q} (2 ^ 53) (omega arith) in
    let whole = le-mul_of_pos_right (p / q) hq in
    let parts = div-add-mod' p q in
    by_test (p % q == 0 && ltb (p / q) (2 ^ 53))
      (record { exponent = 0; den_eq = refl; num_le = omega arith })
      (round_from-IsFloat64 127 p q hq (omega arith) (omega arith))
  where
    by_test :
        {f f' : Fraction} (b : Bool) → IsFloat64 f → IsFloat64 f' → IsFloat64 (if b then f else f')
    by_test true k k' = k
    by_test false k k' = k'
