-- ===== src/Num/Ring.antt =====
-- A circular array read backwards from its current cell: the cells in the order of their age.
use cuirass.Prelude.{
  ℕ, zero, suc, ◌+◌, ◌-◌, ◌≤◌, ◌<◌, ◌≡◌, refl, ap, ◌≢◌, List, [], ◌∷◌, ◌==◌, leb, arith,
  if◌then◌else◌, length, get_or, set, take,
}

-- The cell before cell `c`, and the one after it, of `n` cells.
abbrev pub prev : ℕ → ℕ → ℕ
prev n c = if c == 0 then n - 1 else c - 1

abbrev pub next : ℕ → ℕ → ℕ
next n c = if c + 1 == n then 0 else c + 1

pub next-lt : (n c : ℕ) → c < n → next n c < n
next-lt n c h = ground arith

pub prev-next : (n c : ℕ) → c < n → prev n (next n c) ≡ c
prev-next n c h = ground arith

-- How many steps back lead from `c` to `j`.
abbrev back : ℕ → ℕ → ℕ → ℕ
back n c j = if leb j c then c - j else c + n - j

module _ {ℓ} {A : Type ℓ} where
  pub get_or-set_self :
      (xs : List A) (i : ℕ) (v d : A) → i < length xs → get_or (set xs i v) i d ≡ v
  get_or-set_self [] i v d h = elim h [ ]
  get_or-set_self (x ∷ xs) zero v d h = refl
  get_or-set_self (x ∷ xs) (suc i) v d h = get_or-set_self xs i v d (omega arith)

  pub get_or-set_ne :
      (xs : List A) (i j : ℕ) (v d : A) → i ≢ j → get_or (set xs i v) j d ≡ get_or xs j d
  get_or-set_ne [] i j v d h = refl
  get_or-set_ne (x ∷ xs) zero zero v d h = absurd (h refl)
  get_or-set_ne (x ∷ xs) zero (suc j) v d h = refl
  get_or-set_ne (x ∷ xs) (suc i) zero v d h = refl
  get_or-set_ne (x ∷ xs) (suc i) (suc j) v d h = get_or-set_ne xs i j v d (λ e. h (ap suc e))

module _ {ℓ} {A : Type ℓ} (d : A) (n : ℕ) where
  -- The `k` youngest cells of the array `bs` of `n` cells, the current cell `c` first.
  abbrev pub window : List A → ℕ → ℕ → List A
  window bs c zero = []
  window bs c (suc k) = get_or bs c d ∷ window bs (prev n c) k

  pub length-window : (bs : List A) (c k : ℕ) → length (window bs c k) ≡ k
  length-window bs c zero = refl
  length-window bs c (suc k) = ap suc (length-window bs (prev n c) k)

  -- All but the oldest of the cells.
  pub take-window : (bs : List A) (c k : ℕ) → take k (window bs c (suc k)) ≡ window bs c k
  take-window bs c zero = refl
  take-window bs c (suc k) = ap (λ w. get_or bs c d ∷ w) (take-window bs (prev n c) k)

  -- A write to a cell that the walk back does not reach is not seen.
  window-set_unseen :
      (v : A) (bs : List A) (j c k : ℕ)
      → c < n
      → j < n
      → k ≤ back n c j
      → window (set bs j v) c k ≡ window bs c k
  window-set_unseen v bs j c zero hc hj h = refl
  window-set_unseen v bs j c (suc k) hc hj h = rw (get_or-set_ne bs j c v d (ground arith)) (
      ap (λ w. get_or bs c d ∷ w)
        (window-set_unseen v bs j (prev n c) k (ground arith) hj (ground arith)))

  -- Moving on to the next cell and overwriting it puts a youngest cell before the others, and
  -- drops the oldest one.
  pub window-set-next :
      (v : A) (bs : List A) (c k : ℕ)
      → c < n
      → n ≤ length bs
      → suc k ≡ n
      → window (set bs (next n c) v) (next n c) (suc k) ≡ v ∷ take k (window bs c (suc k))
  window-set-next v bs c k hc hl hk = rw (
    get_or-set_self bs (next n c) v d (ground arith),
    prev-next n c hc,
    take-window bs c k,
    window-set_unseen v bs (next n c) c k hc (next-lt n c hc) (ground arith),
  )

  -- A write to the current cell changes the youngest cell alone.
  pub window-set_current :
      (v : A) (bs : List A) (c k : ℕ)
      → c < n
      → n ≤ length bs
      → suc k ≤ n
      → window (set bs c v) c (suc k) ≡ v ∷ window bs (prev n c) k
  window-set_current v bs c k hc hl hk = rw (
    get_or-set_self bs c v d (omega arith),
    window-set_unseen v bs c (prev n c) k (ground arith) hc (ground arith),
  )
