-- ===== src/Base/Tests.antt =====
-- Boolean tests on numbers and texts, the conditional, and the result of code that may raise.
use Prim.Native.Nat.{ℕ, compare, Ordering}
use Prim.Native.String.{String}
use mathlib.Core.Path.{◌≡◌, refl, subst}
use mathlib.Core.Logic.{◌↔◌, ◌⊎◌, inl, inr}
use mathlib.Core.Bool.{Bool, true, false}
use mathlib.Core.Option.{Option, none, some}
use text.Mathlib.Text.{◌==◌ as str_eq}
use text.Mathlib.TextEquality.{eq_iff}

abbrev pub ltb : ℕ → ℕ → Bool
ltb a b = elim (compare a b) [ Ordering.lt ↦ true | _ ↦ false ]

abbrev pub leb : ℕ → ℕ → Bool
leb a b = elim (compare a b) [ Ordering.gt ↦ false | _ ↦ true ]

abbrev pub nat_eq : ℕ → ℕ → Bool
nat_eq a b = elim (compare a b) [ Ordering.eq ↦ true | _ ↦ false ]

infix 1 if◌then◌else◌
abbrev pub if◌then◌else◌ {ℓ} : {A : Type ℓ} → Bool → A → A → A
if true then x else y = x
if false then x else y = y

-- A type whose values the program compares by `==`.
pub record Testable {ℓ} (A : Type ℓ) : Type ℓ where
  pub same : A → A → Bool
  pub same_iff : (x y : A) → (same x y ≡ true) ↔ (x ≡ y)

module _ {ℓ} {A : Type ℓ} ⦃t : Testable A⦄ where
  infix 50 ◌==◌
  abbrev pub ◌==◌ : A → A → Bool
  x == y = t.same x y

  pub same_refl : (x : A) → (x == x) ≡ true
  same_refl x = (t.same_iff x x).1 refl

-- Whole texts.
instance abbrev pub string_eq : Testable String
string_eq = record { same = str_eq; same_iff = eq_iff }

pub Bool-cases : (b : Bool) → (b ≡ true) ⊎ (b ≡ false)
Bool-cases true = inl refl
Bool-cases false = inr refl

pub Option-cases {ℓ} : {A : Type ℓ} (o : Option A) → (o ≡ none) ⊎ ((a : A) × (o ≡ some a))
Option-cases none = inl refl
Option-cases (some a) = inr (a, refl)

-- A call that returns, or raises an exception of type `E`.
pub data Result (E A : Type 0) : Type 0 where
  ok : A → Result E A
  err : E → Result E A

infixl 5 ◌>>=◌
abbrev pub ◌>>=◌ : {E A B : Type 0} → Result E A → (A → Result E B) → Result E B
ok a >>= f = f a
err e >>= f = err e

-- What holds of the value, if the call returns one.
abbrev pub OnOk : {E A : Type 0} → (A → Type 0) → Result E A → Type 0
OnOk P (ok a) = P a
OnOk P (err e) = Unit

pub OnOk-at : {E A : Type 0} (P : A → Type 0) (r : Result E A) {a : A} → OnOk P r → r ≡ ok a → P a
OnOk-at P r h e = subst (OnOk P) e h

pub OnOk-bind :
    {E A B : Type 0} (P : B → Type 0) (m : Result E A) (f : A → Result E B)
    → ((a : A) → OnOk P (f a))
    → OnOk P (m >>= f)
OnOk-bind P (ok a) f h = h a
OnOk-bind P (err e) f h = tt

pub err-ok_absurd : {E A : Type 0} {e : E} {a : A} → Result.err e ≡ ok a → ⊥
err-ok_absurd h = cc

-- A guard that raises has let a call go on that returns.
pub guard-ok :
    {E A : Type 0} (b : Bool) (e : E) (next : Result E A) {a : A}
    → (if b then err e else next) ≡ ok a
    → (b ≡ false) × (next ≡ ok a)
guard-ok true e next h = absurd (err-ok_absurd h)
guard-ok false e next h = (refl, h)
