-- ===== src/Num/RollingPercentile/Latest.antt =====
-- num/rollingpercentile.go: a bucket of values beside the list of the latest of them.
use native.Mathlib.Nat.{mod-lt, mod-eq_of_lt, mod_self}
use cuirass.Prelude.{
  ℕ, zero, suc, true, false, ltb→lt, ◌+◌, ◌%◌, ◌≤◌, ◌<◌, ◌≡◌, refl, sym, ap, ◌∙◌, Option, some,
  List, [], ◌∷◌, ◌++◌, ltb, ◌==◌, ==_iff, arith, length, get_or, set, take, Bool-cases, inl, inr,
  length-append, length-set,
}
use cuirass.Prelude.Options.{◌>>=◌, Returns, returns, >>=-Returns}
use cuirass.Num.Ring.{window, prev, next, prev-next, take-window, window-set_current, length-window}
use cuirass.Num.RollingPercentile.{PercentileBucket, add_value, reset_bucket}

-- The values of a bucket, the latest first.
abbrev pub latest : PercentileBucket → List ℕ
latest b = window 0 b.capacity b.vals (prev b.capacity b.current_position) (length b.vals)

-- The position is that of the next value: behind the values, or on the oldest of them.
pub record IsRing (b : PercentileBucket) : Type 0 where
  pub fits : length b.vals ≤ b.capacity
  pub position_in : b.current_position < b.capacity
  pub position_behind : length b.vals < b.capacity → b.current_position ≡ length b.vals

get_or-append : (xs ys : List ℕ) (i : ℕ) → i < length xs → get_or (xs ++ ys) i 0 ≡ get_or xs i 0
get_or-append [] ys i h = elim h [ ]
get_or-append (x ∷ xs) ys zero h = refl
get_or-append (x ∷ xs) ys (suc i) h = get_or-append xs ys i (omega arith)

get_or-append_last : (xs : List ℕ) (v : ℕ) → get_or (xs ++ (v ∷ [])) (length xs) 0 ≡ v
get_or-append_last [] v = refl
get_or-append_last (x ∷ xs) v = get_or-append_last xs v

-- Cells that are read backwards down to the first do not see what was put behind.
window-append :
    (n : ℕ) (xs ys : List ℕ) (c k : ℕ)
    → k ≤ suc c
    → c < length xs
    → window 0 n (xs ++ ys) c k ≡ window 0 n xs c k
window-append n xs ys c zero h l = refl
window-append n xs ys c (suc zero) h l = rw (get_or-append xs ys c l) refl
window-append n xs ys c (suc (suc k)) h l = rw (get_or-append xs ys c l) (
    ap (λ (w : List ℕ). get_or xs c 0 ∷ w)
      (window-append n xs ys (prev n c) (suc k) (ground arith) (ground arith)))

take-all : (n : ℕ) (xs : List ℕ) → length xs ≤ n → take n xs ≡ xs
take-all zero [] h = refl
take-all zero (x ∷ xs) h = absurd (omega (arith, h))
take-all (suc n) [] h = refl
take-all (suc n) (x ∷ xs) h = ap (λ (w : List ℕ). x ∷ w) (take-all n xs (omega arith))

take_once : (n : ℕ) (xs : List ℕ) → take n (take (suc n) xs) ≡ take n xs
take_once zero xs = refl
take_once (suc n) [] = refl
take_once (suc n) (x ∷ xs) = ap (λ (w : List ℕ). x ∷ w) (take_once n xs)

take-cons : (n v : ℕ) (xs : List ℕ) → take n (v ∷ take n xs) ≡ take n (v ∷ xs)
take-cons zero v xs = refl
take-cons (suc n) v xs = ap (λ (w : List ℕ). v ∷ w) (take_once n xs)

next_lem : (n c : ℕ) → c < n → (c + 1) % n ≡ next n c
next_lem n c h = elim (Bool-cases (c + 1 == n)) [
  | inl last ↦ rw last (ap (λ (m : ℕ). m % n) (is_last last) ∙ mod_self n)
  | inr inner ↦ rw inner (mod-eq_of_lt (is_inner inner))
]
  where
    is_last : (c + 1 == n) ≡ true → c + 1 ≡ n
    is_last q = ground arith

    is_inner : (c + 1 == n) ≡ false → c + 1 < n
    is_inner q = ground arith

-- A value behind the others, where there is room.
latest-append :
    (n : ℕ) (xs : List ℕ) (v : ℕ)
    → length xs < n
    → window 0 n (xs ++ (v ∷ [])) (prev n ((length xs + 1) % n)) (length (xs ++ (v ∷ [])))
      ≡ take n (v ∷ window 0 n xs (prev n (length xs)) (length xs))
latest-append n xs v h =
    rw (next_lem n (length xs) h, prev-next n (length xs) h, one_more, get_or-append_last xs v)
      (ap (λ (w : List ℕ). v ∷ w) (rest (length xs) refl)
        ∙ sym (
            take-all n (v ∷ window 0 n xs (prev n (length xs)) (length xs))
              (omega (arith, h, length-window 0 n xs (prev n (length xs)) (length xs)))))
  where
    one_more : length (xs ++ (v ∷ [])) ≡ suc (length xs)
    one_more = omega (arith, length-append xs (v ∷ []))

    rest :
        (l : ℕ)
        → l ≡ length xs
        → window 0 n (xs ++ (v ∷ [])) (prev n l) l ≡ window 0 n xs (prev n l) l
    rest zero q = refl
    rest (suc l) q =
        window-append n xs (v ∷ []) (prev n (suc l)) (suc l) (ground arith) (ground (arith, q))

-- A value in the place of the oldest.
latest-set :
    (n : ℕ) (xs : List ℕ) (v p : ℕ)
    → length xs ≡ n
    → p < n
    → window 0 n (set xs p v) (prev n ((p + 1) % n)) (length (set xs p v))
      ≡ take n (v ∷ window 0 n xs (prev n p) (length xs))
latest-set zero xs v p q h = absurd (omega (arith, h))
latest-set (suc k) xs v p q h =
    rw (next_lem (suc k) p h, prev-next (suc k) p h, length-set xs p v, q)
      (window-set_current 0 (suc k) v xs p k h (omega (arith, q)) (omega arith)
        ∙ ap (λ (w : List ℕ). v ∷ w) (sym (take-window 0 (suc k) xs (prev (suc k) p) k)))

-- A bucket with room for a value takes every value. It then holds that one before the others, up to
-- its capacity.
add_value-latest :
    (v : ℕ) (b : PercentileBucket)
    → IsRing b
    → Returns
        (λ b'.
          IsRing b' × (b'.capacity ≡ b.capacity) × (latest b' ≡ take b.capacity (v ∷ latest b)))
        (add_value v b)
unfolding add_value
add_value-latest v b r = elim (Bool-cases (ltb (length b.vals) b.capacity)) [
  | inl room ↦
      (let behind = r.position_behind (ltb→lt (length b.vals) b.capacity room) in
        let h : length b.vals < b.capacity = ltb→lt (length b.vals) b.capacity room in
        rw room (
          returns _ (
            record {
              fits = omega (arith, h, length-append b.vals (v ∷ []));
              position_in = mod-lt (b.current_position + 1) (omega (arith, h));
              position_behind = λ more.
                  mod-eq_of_lt (omega (arith, more, behind, length-append b.vals (v ∷ [])))
                  ∙ omega (arith, behind, length-append b.vals (v ∷ []));
            },
            refl,
            rw behind (latest-append b.capacity b.vals v h),
          )))
  | inr full ↦
      (let h : length b.vals ≡ b.capacity = ground (arith, full, r.fits) in
        let inside : ltb b.current_position (length b.vals) ≡ true =
          ground (arith, h, r.position_in) in
        rw (full, inside)
          (returns _ (
            record {
              fits = omega (arith, h, length-set b.vals b.current_position v);
              position_in = mod-lt (b.current_position + 1) (omega (arith, r.position_in));
              position_behind =
                  λ more. absurd (omega (arith, more, h, length-set b.vals b.current_position v));
            },
            refl,
            latest-set b.capacity b.vals v b.current_position h r.position_in,
          )))
]

-- Values that are added one after the other.
abbrev pub add_values : List ℕ → PercentileBucket → Option PercentileBucket
add_values [] b = some b
add_values (v ∷ vs) b = add_value v b >>= add_values vs

-- The latest first.
abbrev pub reversed_onto : List ℕ → List ℕ → List ℕ
reversed_onto [] ws = ws
reversed_onto (v ∷ vs) ws = reversed_onto vs (v ∷ ws)

add_values-latest :
    (vs ws : List ℕ) (size : ℕ) (b : PercentileBucket)
    → IsRing b
    → b.capacity ≡ size
    → latest b ≡ take size ws
    → Returns (λ b'. latest b' ≡ take size (reversed_onto vs ws)) (add_values vs b)
add_values-latest [] ws size b r c e = returns b e
add_values-latest (v ∷ vs) ws size b r c e = >>=-Returns (add_value-latest v b r) (λ b' q.
    add_values-latest vs (v ∷ ws) size b' q.0 (q.1 ∙ c) (
      q.2
      ∙ ap (λ n. take n (v ∷ latest b)) c
      ∙ ap (λ l. take size (v ∷ l)) e
      ∙ take-cons size v ws))

-- A bucket that is reset for a positive number of items, and has that capacity if it has as many
-- values, takes any values without a panic. It then holds the latest of them, up to that number, in
-- the order in which they came.
pub add_values-reset_bucket :
    (size : ℕ) (vs : List ℕ) (b : PercentileBucket)
    → 0 < size
    → (length b.vals ≡ size → b.capacity ≡ size)
    → Returns
        (λ b'. latest b' ≡ take size (reversed_onto vs []))
        (add_values vs (reset_bucket size b))
unfolding reset_bucket
add_values-reset_bucket size vs b h same = elim (Bool-cases (length b.vals == size)) [
  | inl full ↦
      (let c : b.capacity ≡ size = same ((==_iff (length b.vals) size).0 full) in
        rw full (
          add_values-latest vs [] size (record b { vals = []; current_position = 0 })
            (record {
              fits = omega arith;
              position_in = omega (arith, h, c);
              position_behind = λ more. refl;
            })
            c (take-nil size)))
  | inr other ↦ rw other (
      add_values-latest vs [] size (record { vals = []; capacity = size; current_position = 0 })
        (record { fits = omega arith; position_in = h; position_behind = λ more. refl }) refl
        (take-nil size))
]
  where
    take-nil : (n : ℕ) → [] ≡ take {A = ℕ} n []
    take-nil zero = refl
    take-nil (suc n) = refl
