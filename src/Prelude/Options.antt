-- ===== src/Prelude/Options.antt =====
-- A chain of steps that may panic: `none` is the panic.
use mathlib.Core.Path.{◌≡◌, refl, subst}
use mathlib.Core.Option.{some-injective}
use mathlib.Core.Bool.{Bool, true, false}
use mathlib.Core.Option.{Option, none, some}
use cuirass.Prelude.Tests.{if◌then◌else◌}

infixl 5 ◌>>=◌
abbrev pub ◌>>=◌ {ℓ κ} : {A : Type ℓ} {B : Type κ} → Option A → (A → Option B) → Option B
none >>= f = none
some a >>= f = f a

-- A step that does not panic and whose result satisfies `P`.
pub data Returns {ℓ κ} {A : Type ℓ} (P : A → Type κ) : Option A → Type (ℓ ⊔ κ) where
  returns : (a : A) → P a → Returns P (some a)

pub >>=-Returns {ℓ κ ι μ} :
    {A : Type ℓ} {B : Type κ} {P : A → Type ι} {Q : B → Type μ} {m : Option A} {f : A → Option B}
    → Returns P m
    → ((a : A) → P a → Returns Q (f a))
    → Returns Q (m >>= f)
>>=-Returns (returns a p) h = h a p

pub Returns-if {ℓ κ} :
    {A : Type ℓ} {P : A → Type κ} (b : Bool) {x y : Option A}
    → Returns P x
    → Returns P y
    → Returns P (if b then x else y)
Returns-if true p q = p
Returns-if false p q = q

-- The result itself.
pub result_of {ℓ κ} :
    {A : Type ℓ} {P : A → Type κ} {m : Option A} → Returns P m → (a : A) × (m ≡ some a) × P a
result_of (returns a p) = (a, refl, p)

pub Returns-map {ℓ κ ι} :
    {A : Type ℓ} {P : A → Type κ} {Q : A → Type ι} {m : Option A}
    → Returns P m
    → ((a : A) → P a → Q a)
    → Returns Q m
Returns-map (returns a p) h = returns a (h a p)

-- What holds of a result that is known.
pub Returns-at {ℓ κ} :
    {A : Type ℓ} {P : A → Type κ} {o : Option A} → Returns P o → (a : A) → o ≡ some a → P a
Returns-at {P = P} (returns b r) a e = subst P (some-injective b a e) r

pub Returns-both {ℓ κ ι} :
    {A : Type ℓ} {P : A → Type κ} {Q : A → Type ι} {o : Option A}
    → Returns P o
    → Returns Q o
    → Returns (λ a. P a × Q a) o
Returns-both (returns a p) q = returns a (p, Returns-at q a refl)
