-- ===== src/Num/Rounding.antt =====
-- The float64 arithmetic on whole numbers of circuitbreaker/circuitbreaker.go, rounded to nearest, ties
-- to even. A number is a fraction of whole numbers, but for its sign.
pub mod Exact
pub mod Mantissa
use cuirass.Prelude.{
  ℕ, suc, zero, ◌+◌, ◌-◌, ◌*◌, ◌/◌, ◌%◌, ◌^◌, ◌<◌, ◌≤◌, ◌≡◌, refl, Bool, true, false, ◌&&◌, ltb,
  leb, ◌==◌, if◌then◌else◌, arith,
}

pub record Fraction : Type 0 where
  pub num : ℕ
  pub den : ℕ

-- The whole number nearest to `p / q`, the even one of two.
unfoldable pub nearest : ℕ → ℕ → ℕ
nearest p q =
    let whole = p / q in
    let rest = p % q in
    if ltb (2 * rest) q
    then whole
    else (if ltb q (2 * rest) then whole + 1 else (if whole % 2 == 0 then whole else whole + 1))

-- Whether a number has to be doubled or halved to lie between 2 ^ 52 and 2 ^ 53.
pub data Scale : Type 0 where
  up down fits : Scale

unfoldable pub scale : ℕ → ℕ → Scale
scale p q = if ltb p (2 ^ 52 * q) then up else (if leb (2 ^ 53 * q) p then down else fits)

abbrev pub scaled_num : Scale → ℕ → ℕ
scaled_num up p = 2 * p
scaled_num down p = p
scaled_num fits p = p

abbrev pub scaled_den : Scale → ℕ → ℕ
scaled_den up q = q
scaled_den down q = 2 * q
scaled_den fits q = q

-- The number, by its double or its half.
abbrev pub unscaled : Scale → ℕ → ℕ → Fraction → Fraction
unscaled up p q f = record { num = f.num; den = 2 * f.den }
unscaled down p q f = record { num = 2 * f.num; den = f.den }
unscaled fits p q f = record { num = nearest p q; den = 1 }

-- `p / q` with a mantissa of 53 bits.
unfoldable pub round_from : ℕ → ℕ → ℕ → Fraction
unfolding scale nearest
round_from zero p q = record { num = p; den = q }
round_from (suc rounds) p q =
    let s = scale p q in unscaled s p q (round_from rounds (scaled_num s p) (scaled_den s q))

-- The float64 of `p / q`, where `q` is not 0. Whole numbers below 2 ^ 53 are their own.
unfoldable pub round : ℕ → ℕ → Fraction
unfolding round_from
round p q =
    if p % q == 0 && ltb (p / q) (2 ^ 53)
    then record { num = p / q; den = 1 }
    else round_from 128 p q
