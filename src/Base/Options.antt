-- ===== src/Base/Options.antt =====
-- Chains of fallible steps, `if err != nil { return nil, err }`: an error is `none`.
use mathlib.Core.Path.{◌≡◌, refl}
use mathlib.Core.Bool.{Bool, true, false}
use mathlib.Core.Option.{Option, none, some}
use native.Mathlib.Omega.{arith}
use disco.Base.Tests.{if◌then◌else◌}

infixl 5 ◌>>=◌ ◌>>◌
abbrev pub ◌>>=◌ {ℓ κ} : {A : Type ℓ} {B : Type κ} → Option A → (A → Option B) → Option B
none >>= f = none
some a >>= f = f a

-- A step that gives nothing.
abbrev pub ◌>>◌ {κ} : {B : Type κ} → Option (Unit {0}) → Option B → Option B
o >> rest = o >>= λ _. rest

abbrev pub require : Bool → Option (Unit {0})
require b = if b then some tt else none

-- A chain that gives a value went through its first step.
pub >>=-some {ℓ κ} :
    {A : Type ℓ} {B : Type κ} (o : Option A) (f : A → Option B) {b : B}
    → (o >>= f) ≡ some b
    → (a : A) × (o ≡ some a) × (f a ≡ some b)
>>=-some none f h = absurd (ground arith)
>>=-some (some a) f h = (a, refl, h)

pub require-some : (b : Bool) {u : Unit {0}} → require b ≡ some u → b ≡ true
require-some true h = refl
require-some false h = absurd (ground arith)

pub some_eq {ℓ} : {A : Type ℓ} {a b : A} → some a ≡ some b → a ≡ b
some_eq h = ground arith
