-- ===== src/Prelude/Results.antt =====
-- Thrown errors as values. `Result E A` is the outcome of code that returns an `A` or throws an
-- `E`; `Exec S E A` is code that also changes a state `S`, whose changes stay behind a throw.
use mathlib.Core.Path.{◌≡◌, refl}
use mathlib.Core.Bool.{Bool, true, false}
use mathlib.Core.Option.{Option, none, some}
use benchhand.Prelude.Tests.{if◌then◌else◌}

pub data Result (E A : Type 0) : Type 0 where
  err : E → Result E A
  ok : A → Result E A

module _ {E : Type 0} where
  infixl 5 ◌>>=◌
  infixl 5 ◌>>◌
  -- `if (bad) throw e;`
  abbrev pub throw_if : Bool → E → Result E (Unit {0})
  throw_if false e = ok tt
  throw_if true e = err e

  abbrev pub or_throw : {A : Type 0} → Option A → E → Result E A
  or_throw (some a) e = ok a
  or_throw none e = err e

  -- A throw skips what comes after it.
  abbrev pub ◌>>=◌ : {A B : Type 0} → Result E A → (A → Result E B) → Result E B
  err thrown >>= later = err thrown
  ok value >>= later = later value

  abbrev pub ◌>>◌ : {B : Type 0} → Result E (Unit {0}) → Result E B → Result E B
  first >> later = first >>= (λ _. later)

abbrev pub Exec : Type 0 → Type 0 → Type 0 → Type 0
Exec S E A = S → Result E A × S

-- What returns in the end has returned at each step.
pub >>=-eq-ok :
    {E A B : Type 0} (first : Result E A) (later : A → Result E B) {last : B}
    → first >>= later ≡ ok last
    → (mid : A) × (first ≡ ok mid) × (later mid ≡ ok last)
>>=-eq-ok (err thrown) later returns = cc
>>=-eq-ok (ok mid) later returns = (mid, refl, returns)

pub ok-injective : {E A : Type 0} {a b : A} → ◌≡◌ {A = Result E A} (ok a) (ok b) → a ≡ b
ok-injective h = cc

pub throw_if-eq-ok :
    {E A : Type 0} (b : Bool) (e : E) (m : Result E A) {a : A}
    → (if b then err e else m) ≡ ok a
    → (b ≡ false) × (m ≡ ok a)
throw_if-eq-ok true e m h = cc
throw_if-eq-ok false e m h = (refl, h)

pub guard-ok :
    {E A : Type 0} (bad : Bool) (thrown : E) (rest : Result E A) {value : A}
    → throw_if bad thrown >> rest ≡ ok value
    → (bad ≡ false) × (rest ≡ ok value)
guard-ok true thrown rest h = cc
guard-ok false thrown rest h = (refl, h)
