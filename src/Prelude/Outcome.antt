-- ===== src/Prelude/Outcome.antt =====
-- A Python function that returns or raises and writes nothing: the binds of its `do` blocks, and what
-- a block that returned has passed.
use mathlib.Core.Path.{◌≡◌, refl}
use mathlib.Core.Logic.{◌⊎◌, inl, inr}
use mathlib.Core.Bool.{Bool, true, false}
use stability_toys.Prelude.Effects.{Result, ok, raised}

module _ {ℓ κ} {E : Type ℓ} {A B : Type κ} where
  infixl 5 ◌>>=◌
  abbrev pub ◌>>=◌ : Result E A → (A → Result E B) → Result E B
  ok a >>= f = f a
  raised e >>= f = raised e

  pub returned :
      (m : Result E A) (f : A → Result E B) {b : B}
      → (m >>= f) ≡ ok b
      → (a : A) × (m ≡ ok a) × (f a ≡ ok b)
  returned (ok a) f h = (a, refl, h)
  returned (raised e) f h = cc

pub Result-cases {ℓ κ} :
    {E : Type ℓ} {A : Type κ} (r : Result E A) → ((e : E) × (r ≡ raised e)) ⊎ ((a : A) × (r ≡ ok a))
Result-cases (ok a) = inr (a, refl)
Result-cases (raised e) = inl (e, refl)

-- `if test: raise e`
abbrev pub refuse : {E : Type 0} → Bool → E → Result E (Unit {0})
refuse true e = raised e
refuse false e = ok tt

module _ {E B : Type 0} where
  infixl 5 ◌>>◌
  abbrev pub ◌>>◌ : Result E (Unit {0}) → Result E B → Result E B
  m >> k = m >>= λ _. k

  pub passed :
      (test : Bool) (e : E) (k : Result E B) {b : B}
      → (refuse test e >> k) ≡ ok b
      → (test ≡ false) × (k ≡ ok b)
  passed true e k h = cc
  passed false e k h = (refl, h)

pub ok_inj {ℓ κ} :
    {E : Type ℓ} {A : Type κ} {a b : A} (r : Result E A) → r ≡ ok a → r ≡ ok b → a ≡ b
ok_inj r h k = cc

pub ok-eq {ℓ κ} : {E : Type ℓ} {A : Type κ} {a b : A} → ◌≡◌ {A = Result E A} (ok a) (ok b) → a ≡ b
ok-eq h = cc
