-- ===== src/Prelude/Steps.antt =====
-- Chains of steps that may fail, and what holds of the result when there is one.
use mathlib.Core.Path.{◌≡◌, refl, subst}
use mathlib.Core.Option.{Option, none, some}
use mathlib.Core.Bool.{Bool, true, false}
use minimoni.Prelude.Tests.{if◌then◌else◌}

infixl 1 ◌>>=◌
abbrev pub ◌>>=◌ {ℓ κ} : {A : Type ℓ} {B : Type κ} → Option A → (A → Option B) → Option B
none >>= f = none
some a >>= f = f a

abbrev pub refuse {ℓ} : {A : Type ℓ} → Bool → A → Option A
refuse bad a = if bad then none else some a

module _ {ℓ} {A : Type ℓ} where
  -- P of the result, if there is one
  abbrev pub OnSome {κ} : (A → Type κ) → Option A → Type κ
  OnSome P none = Unit
  OnSome P (some a) = P a

  pub OnSome-of {κ} : (P : A → Type κ) (o : Option A) {a : A} → OnSome P o → o ≡ some a → P a
  OnSome-of P o h e = subst (OnSome P) e h

  pub OnSome-mono {κ υ} :
      (P : A → Type κ) (Q : A → Type υ) (o : Option A)
      → OnSome P o
      → ((a : A) → P a → Q a)
      → OnSome Q o
  OnSome-mono P Q none h k = tt
  OnSome-mono P Q (some a) h k = k a h

  pub OnSome-if {κ} :
      (P : A → Type κ) (b : Bool) (x y : Option A)
      → (b ≡ true → OnSome P x)
      → (b ≡ false → OnSome P y)
      → OnSome P (if b then x else y)
  OnSome-if P true x y hx hy = hx refl
  OnSome-if P false x y hx hy = hy refl

module _ {ℓ κ} {A : Type ℓ} {B : Type κ} where
  pub OnSome-bind {ι υ} :
      (Q : A → Type ι) (P : B → Type υ) (o : Option A) (f : A → Option B)
      → OnSome Q o
      → ((a : A) → Q a → OnSome P (f a))
      → OnSome P (o >>= f)
  OnSome-bind Q P none f h k = tt
  OnSome-bind Q P (some a) f h k = k a h

  pub OnSome-then {υ} :
      (P : B → Type υ) (o : Option A) (f : A → Option B)
      → ((a : A) → OnSome P (f a))
      → OnSome P (o >>= f)
  OnSome-then P none f k = tt
  OnSome-then P (some a) f k = k a
