-- ===== src/Base/Tests.antt =====
-- Boolean tests on the native numbers, and the conditional.
use Prim.Native.Nat.{ℕ, compare, Ordering}
use mathlib.Core.Path.{◌≡◌, refl}
use mathlib.Core.Logic.{◌↔◌, ◌⊎◌, inl, inr}
use mathlib.Core.Bool.{Bool, true, false, not, ◌&&◌, ◌||◌}
use mathlib.Core.Option.{Option, none, some}
use native.Mathlib.Omega.{arith}

abbrev pub ltb : ℕ → ℕ → Bool
ltb a b = elim (compare a b) [ Ordering.lt ↦ true | _ ↦ false ]

abbrev pub leb : ℕ → ℕ → Bool
leb a b = elim (compare a b) [ Ordering.gt ↦ false | _ ↦ true ]

infix 50 ◌==◌
abbrev pub ◌==◌ : ℕ → ℕ → Bool
a == b = elim (compare a b) [ Ordering.eq ↦ true | _ ↦ false ]

infix 1 if◌then◌else◌
abbrev pub if◌then◌else◌ {ℓ} : {A : Type ℓ} → Bool → A → A → A
if true then x else y = x
if false then x else y = y

pub Bool-cases : (b : Bool) → (b ≡ true) ⊎ (b ≡ false)
Bool-cases true = inl refl
Bool-cases false = inr refl

pub Option-cases {ℓ} : {A : Type ℓ} (o : Option A) → (o ≡ none) ⊎ ((a : A) × (o ≡ some a))
Option-cases none = inl refl
Option-cases (some a) = inr (a, refl)

pub ==_iff : (a b : ℕ) → ((a == b) ≡ true) ↔ (a ≡ b)
==_iff a b = ground arith

-- A Boolean test as a proposition.
abbrev pub Holds : Bool → Type 0
Holds b = b ≡ true

-- What holds of both branches, each under its test, holds of the whole.
pub if-both {ℓ κ} :
    {A : Type ℓ} (P : A → Type κ) (b : Bool) {x y : A}
    → (b ≡ true → P x)
    → (b ≡ false → P y)
    → P (if b then x else y)
if-both P true p q = p refl
if-both P false p q = q refl

pub not-false : (b : Bool) → not b ≡ false → b ≡ true
not-false true e = refl
not-false false e = absurd (cc e)

pub or-false_left : (a b : Bool) → (a || b) ≡ false → a ≡ false
or-false_left true b e = e
or-false_left false b e = refl

pub or-false_right : (a b : Bool) → (a || b) ≡ false → b ≡ false
or-false_right true b e = absurd (cc e)
or-false_right false b e = e

pub ==-not-false : (a b : ℕ) → not (a == b) ≡ false → a ≡ b
==-not-false a b e = ground (arith, e)

pub and-true_right : (a b : Bool) → (a && b) ≡ true → b ≡ true
and-true_right true b e = e
and-true_right false b e = absurd (cc e)

pub and-true_left : (a b : Bool) → (a && b) ≡ true → a ≡ true
and-true_left true b e = refl
and-true_left false b e = absurd (cc e)
