-- ===== src/Machine/Runs.antt =====
-- What holds behind an action, wherever it started.
use shiroha_quiz.Base.{◌≡◌, refl, Bool, true, false, if-both, if◌then◌else◌}
use shiroha_quiz.Machine.{
  Handle, Call, Environment, Lease, Place, close_if, change_lease, pure, Context, Locals, Result,
  done, raised, Action, continue, ◌>>=◌, get_lease, get_locals, change_locals, attempt,
}
use shiroha_quiz.Machine.Keeps.{Keeps}

-- `m` never fails.
pub record IsTotal {ℓ} {A : Type ℓ} (m : Action A) : Type ℓ where
  pub returns : (c : Context) → (a : A) × ((m c).0 ≡ done a)

-- `P` holds behind `m`, however it ends.
pub record Reaches {ℓ} {A : Type ℓ} (P : Context → Type 0) (m : Action A) : Type ℓ where
  pub at : (c : Context) → P (m c).1

pub IsTotal-change_locals : (f : Locals → Locals) → IsTotal (change_locals f)
unfolding change_locals
IsTotal-change_locals f = record { returns = λ c. (tt, refl) }

pub IsTotal-get_lease : IsTotal get_lease
unfolding get_lease
IsTotal-get_lease = record { returns = λ c. (c.lease, refl) }

pub IsTotal-get_locals : IsTotal get_locals
unfolding get_locals
IsTotal-get_locals = record { returns = λ c. (c.locals, refl) }

pub IsTotal-attempt {ℓ} : {A : Type ℓ} (m : Action A) → IsTotal (attempt m)
unfolding attempt
IsTotal-attempt m = record { returns = λ c. ((m c).0, refl) }

module _ {P : Context → Type 0} where
  continue-Reaches {ℓ κ} :
      {A : Type ℓ} {B : Type κ} (r : Result A) (f : A → Action B) (c : Context) (a : A)
      → r ≡ done a
      → ((a : A) → Reaches P (f a))
      → P (continue r f c).1
  continue-Reaches r f c a e h = rw e ((h a).at c)

  -- Behind a step that never fails, the rest decides.
  pub Reaches-after {ℓ κ} :
      {A : Type ℓ} {B : Type κ} {m : Action A} {f : A → Action B}
      → IsTotal m
      → ((a : A) → Reaches P (f a))
      → Reaches P (m >>= f)
  unfolding ◌>>=◌
  Reaches-after {m = m} {f = f} total h = record {
    at = λ c. let (a, e) = total.returns c in continue-Reaches (m c).0 f (m c).1 a e h;
  }

  continue-Keeps {ℓ κ} :
      {A : Type ℓ} {B : Type κ} (r : Result A) (f : A → Action B) (c : Context)
      → P c
      → ((a : A) → Keeps P (f a))
      → P (continue r f c).1
  continue-Keeps (done a) f c h k = (k a).at c h
  continue-Keeps (raised e) f c h k = h

  -- What a step reaches, the rest may keep.
  pub Reaches-keep {ℓ κ} :
      {A : Type ℓ} {B : Type κ} {m : Action A} {f : A → Action B}
      → Reaches P m
      → ((a : A) → Keeps P (f a))
      → Reaches P (m >>= f)
  unfolding ◌>>=◌
  Reaches-keep {m = m} {f = f} h k = record {
    at = λ c. continue-Keeps (m c).0 f (m c).1 (h.at c) k;
  }

pub IsTotal-pure {ℓ} : {A : Type ℓ} (a : A) → IsTotal (pure a)
unfolding pure
IsTotal-pure a = record { returns = λ c. (a, refl) }

pub IsTotal-change_lease : (f : Lease → Lease) → IsTotal (change_lease f)
unfolding change_lease
IsTotal-change_lease f = record { returns = λ c. (tt, refl) }

pub IsTotal-close_if :
    (env : Environment) (test : Handle → Bool) (call : Handle → Call) (p : Place)
    → IsTotal (close_if env test call p)
unfolding close_if
IsTotal-close_if env test call p = record {
  returns = λ c.
      if-both (λ (r : Result Bool × Context). (b : Bool) × (r.0 ≡ done b)) (test (p.held c))
        (λ e. (_, refl)) (λ e. (_, refl));
}

pub IsTotal-if {ℓ} :
    {A : Type ℓ} (b : Bool) (m k : Action A) → IsTotal m → IsTotal k → IsTotal (if b then m else k)
IsTotal-if true m k h g = h
IsTotal-if false m k h g = g

continue-IsTotal {ℓ κ} :
    {A : Type ℓ} {B : Type κ} (r : Result A) (f : A → Action B) (c : Context) (a : A)
    → r ≡ done a
    → ((a : A) → IsTotal (f a))
    → (b : B) × ((continue r f c).0 ≡ done b)
continue-IsTotal r f c a e k = rw e ((k a).returns c)

pub IsTotal-bind {ℓ κ} :
    {A : Type ℓ} {B : Type κ} {m : Action A} {f : A → Action B}
    → IsTotal m
    → ((a : A) → IsTotal (f a))
    → IsTotal (m >>= f)
unfolding ◌>>=◌
IsTotal-bind {m = m} {f = f} h k = record {
  returns = λ c. let (a, e) = h.returns c in continue-IsTotal (m c).0 f (m c).1 a e k;
}
