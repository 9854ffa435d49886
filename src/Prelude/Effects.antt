-- ===== src/Prelude/Effects.antt =====
-- A method call in Python: it reads and writes an object, and returns or raises. What was written
-- before a raise stays written.
use mathlib.Core.Bool.{Bool, true, false}
use mathlib.Core.Option.{Option, none, some}

pub data Result {ℓ κ} (E : Type ℓ) (A : Type κ) : Type (ℓ ⊔ κ) where
  ok : A → Result E A
  raised : E → Result E A

abbrev pub Method : Type 0 → Type 0 → Type 0 → Type 0
Method S E A = S → Result E A × S

module _ {S E : Type 0} where
  abbrev pub pure : {A : Type 0} → A → Method S E A
  pure a s = (ok a, s)

  abbrev pub raise : {A : Type 0} → E → Method S E A
  raise e s = (raised e, s)

  abbrev pub gets : {A : Type 0} → (S → A) → Method S E A
  gets f s = (ok (f s), s)

  abbrev pub modify : (S → S) → Method S E (Unit {0})
  modify f s = (ok tt, f s)

  abbrev pub or_raise : {A : Type 0} → Option A → E → Method S E A
  or_raise none e s = (raised e, s)
  or_raise (some a) e s = (ok a, s)

  abbrev pub raise_if : Bool → E → Method S E (Unit {0})
  raise_if true e s = (raised e, s)
  raise_if false e s = (ok tt, s)

  infixl 5 ◌>>=◌ ◌>>◌
  abbrev pub ◌>>=◌ : {A B : Type 0} → Method S E A → (A → Method S E B) → Method S E B
  ◌>>=◌ m f s = let (r, s') = m s in elim r [ ok a ↦ f a s' | raised e ↦ (raised e, s') ]

  abbrev pub ◌>>◌ : {A B : Type 0} → Method S E A → Method S E B → Method S E B
  m >> k = m >>= λ _. k
