-- ===== src/Executor/Callers.antt =====
-- executor.go: getCircuitBreakerForCommand for one command, run by several goroutines at once. `get`
-- and `set` take the lock of the map one after the other, so each is a step of its own.
use mathlib.Core.Path.{subst}
use cuirass.Prelude.{
  ℕ, ◌+◌, ◌≡◌, ◌≢◌, refl, sym, Bool, true, false, Option, none, some, ◌==◌, ==_iff, arith,
  if◌then◌else◌, ◌⊎◌, inl, inr,
}

-- Where a goroutine stands. Breakers are numbered in the order in which they are put into the map.
pub data Pc : Type 0 where
  idle : Pc
  missed : Pc  -- behind a `get` that found no breaker
  holding : ℕ → Pc  -- with the breaker that it was given

-- What the map has for the command, how many breakers were put there, and the goroutines.
pub record System : Type 0 where
  pub breaker : Option ℕ
  pub made : ℕ
  pub pc : ℕ → Pc

abbrev pub set_pc : (ℕ → Pc) → ℕ → Pc → ℕ → Pc
set_pc pc i p j = if i == j then p else pc j

pub data Step (s : System) : System → Type 0 where
  get_found :
      (i : ℕ) {b : ℕ}
      → s.pc i ≡ idle
      → s.breaker ≡ some b
      → Step s (record s { pc = set_pc s.pc i (holding b) })
  get_missed :
      (i : ℕ) → s.pc i ≡ idle → s.breaker ≡ none → Step s (record s { pc = set_pc s.pc i missed })
  set_new :
      (i : ℕ)
      → s.pc i ≡ missed
      → Step s
          (record { breaker = some s.made; made = s.made + 1; pc = set_pc s.pc i (holding s.made) })
  end_call : (i : ℕ) {b : ℕ} → s.pc i ≡ holding b → Step s (record s { pc = set_pc s.pc i idle })

pub data Reach (s : System) : System → Type 0 where
  here : Reach s s
  next : {t u : System} → Reach s t → Step t u → Reach s u

-- The map has the breaker `b`, nobody is about to put another one there, and whoever holds a breaker
-- holds `b`, or still the one that he held in `s`.
pub record Settled (s : System) (b : ℕ) (t : System) : Type 0 where
  pub in_map : t.breaker ≡ some b
  pub none_missed : (i : ℕ) → t.pc i ≢ missed
  pub holders : (i c : ℕ) → t.pc i ≡ holding c → (c ≡ b) ⊎ (s.pc i ≡ holding c)

-- What holds of where each goroutine stands, when one of them moves.
set_pc_all :
    (P : ℕ → Pc → Type 0) (pc : ℕ → Pc) (i : ℕ) (p : Pc)
    → P i p
    → ((j : ℕ) → P j (pc j))
    → (j : ℕ) → P j (set_pc pc i p j)
set_pc_all P pc i p at_i others j = by_test (i == j) (==_iff i j).0
  where
    by_test : (b : Bool) → (b ≡ true → i ≡ j) → P j (if b then p else pc j)
    by_test true q = subst (λ k. P k p) (q refl) at_i
    by_test false q = others j

Step-Settled : (s t u : System) (b : ℕ) → Settled s b t → Step t u → Settled s b u
Step-Settled s t u b h (get_found i {b = c} stands found) = record {
  in_map = h.in_map;
  none_missed = set_pc_all (λ j p. p ≢ missed) t.pc i (holding c) (λ q. cc q) h.none_missed;
  holders = λ j k.
      set_pc_all (λ j p. p ≡ holding k → (k ≡ b) ⊎ (s.pc j ≡ holding k)) t.pc i (holding c)
        (λ q. inl (cc (q, found, h.in_map))) (λ j. h.holders j k) j;
}
Step-Settled s t u b h (get_missed i stands found) = cc (found, h.in_map)
Step-Settled s t u b h (set_new i stands) = absurd (h.none_missed i stands)
Step-Settled s t u b h (end_call i {b = c} stands) = record {
  in_map = h.in_map;
  none_missed = set_pc_all (λ j p. p ≢ missed) t.pc i idle (λ q. cc q) h.none_missed;
  holders = λ j k.
      set_pc_all (λ j p. p ≡ holding k → (k ≡ b) ⊎ (s.pc j ≡ holding k)) t.pc i idle (λ q. cc q)
        (λ j. h.holders j k) j;
}

-- Once the map has a breaker for the command and no goroutine is between a `get` that found none and
-- its `set`, the map keeps that breaker, and every call that gets a breaker from then on, in whatever
-- order the goroutines run, gets that one.
pub reach-Settled :
    (s t : System) (b : ℕ)
    → s.breaker ≡ some b
    → ((i : ℕ) → s.pc i ≢ missed)
    → Reach s t
    → Settled s b t
reach-Settled s t b found nobody here = record {
  in_map = found;
  none_missed = nobody;
  holders = λ i c q. inr q;
}
reach-Settled s t b found nobody (next {t = u} r step) =
    Step-Settled s u t b (reach-Settled s u b found nobody r) step

beq_ne : (a b : ℕ) → a ≢ b → (a == b) ≡ false
beq_ne a b ne = ground (arith, ne)

beq_same : (a : ℕ) → (a == a) ≡ true
beq_same a = ground arith

-- Two goroutines that have both found no breaker make two: they can come to hold different ones, of
-- which only the second is in the map.
pub two_breakers :
    (s : System) (i j : ℕ)
    → i ≢ j
    → s.pc i ≡ missed
    → s.pc j ≡ missed
    → (t : System) × Reach s t
      × (a : ℕ) × (b : ℕ) × (t.pc i ≡ holding a)
      × (t.pc j ≡ holding b)
      × (a ≢ b)
      × (t.breaker ≡ some b)
two_breakers s i j different first second = (
  _,
  next (next here (set_new i first)) (set_new j (rw (beq_ne i j different) second)),
  s.made,
  s.made + 1,
  rw (beq_ne j i (λ q. different (sym q)), beq_same i) refl,
  rw (beq_same j) refl,
  (λ q. omega (arith, q)),
  refl,
)
