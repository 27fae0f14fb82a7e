-- ===== src/Machine/Leads.antt =====
-- Triples: what holds behind an action that starts where something else holds.
use shiroha_quiz.Base.{◌≡◌, refl}
use shiroha_quiz.Machine.{
  Context, Locals, Result, done, raised, Action, continue, ◌>>=◌, attempt, pure, get_locals,
}
use shiroha_quiz.Machine.Keeps.{Keeps}
use shiroha_quiz.Machine.Runs.{IsTotal}

-- From `P`, `m` ends in `Q`, however it ends.
pub record Leads {ℓ} {A : Type ℓ} (P Q : Context → Type 0) (m : Action A) : Type ℓ where
  pub at : (c : Context) → P c → Q (m c).1

continue-Leads {ℓ κ} :
    {A : Type ℓ} {B : Type κ} {Q : Context → Type 0} (r : Result A) (f : A → Action B) (c : Context)
    → Q c
    → ((a : A) → Keeps Q (f a))
    → Q (continue r f c).1
continue-Leads (done a) f c q k = (k a).at c q
continue-Leads (raised r) f c q k = q

module _ {P Q : Context → Type 0} where
  pub Leads-attempt {ℓ} : {A : Type ℓ} (m : Action A) → Leads P Q m → Leads P Q (attempt m)
  unfolding attempt
  Leads-attempt m h = record { at = λ c p. h.at c p }

  -- What the first step leads to, the rest keeps.
  pub Leads-keep {ℓ κ} :
      {A : Type ℓ} {B : Type κ} {m : Action A} {f : A → Action B}
      → Leads P Q m
      → ((a : A) → Keeps Q (f a))
      → Leads P Q (m >>= f)
  unfolding ◌>>=◌
  Leads-keep {m = m} {f = f} h k = record {
    at = λ c p. continue-Leads (m c).0 f (m c).1 (h.at c p) k;
  }

continue-total {ℓ κ} :
    {A : Type ℓ} {B : Type κ} {P Q : Context → Type 0} (r : Result A) (f : A → Action B)
    (c : Context) (a : A)
    → r ≡ done a
    → P c
    → ((a : A) → Leads P Q (f a))
    → Q (continue r f c).1
continue-total r f c a e p k = rw e ((k a).at c p)

-- A step that never fails is followed by the rest.
pub Leads-after {ℓ κ} :
    {A : Type ℓ} {B : Type κ} {P R Q : Context → Type 0} {m : Action A} {f : A → Action B}
    → IsTotal m
    → Leads P R m
    → ((a : A) → Leads R Q (f a))
    → Leads P Q (m >>= f)
unfolding ◌>>=◌
Leads-after {m = m} {f = f} total h k = record {
  at = λ c p. let (a, e) = total.returns c in continue-total (m c).0 f (m c).1 a e (h.at c p) k;
}

-- What is kept is led to.
pub Leads-kept {ℓ} : {A : Type ℓ} {P : Context → Type 0} {m : Action A} → Keeps P m → Leads P P m
Leads-kept h = record { at = h.at }

-- From `P`, `m` returns a value in `S`.
pub record Returns {ℓ} {A : Type ℓ} (P : Context → Type 0) (S : A → Type 0) (m : Action A)
    : Type ℓ where
  pub at : (c : Context) → P c → (a : A) × ((m c).0 ≡ done a) × S a

continue-Returns {ℓ κ} :
    {A : Type ℓ} {B : Type κ} {P : Context → Type 0} {S : B → Type 0} (r : Result A)
    (f : A → Action B) (c : Context) (a : A)
    → r ≡ done a
    → P c
    → ((a : A) → Returns P S (f a))
    → (b : B) × ((continue r f c).0 ≡ done b) × S b
continue-Returns r f c a e p k = rw e ((k a).at c p)

-- A step that never fails is followed by the rest.
pub Returns-after {ℓ κ} :
    {A : Type ℓ} {B : Type κ} {P R : Context → Type 0} {S : B → Type 0} {m : Action A}
    {f : A → Action B}
    → IsTotal m
    → Leads P R m
    → ((a : A) → Returns R S (f a))
    → Returns P S (m >>= f)
unfolding ◌>>=◌
Returns-after {m = m} {f = f} total h k = record {
  at = λ c p. let (a, e) = total.returns c in continue-Returns (m c).0 f (m c).1 a e (h.at c p) k;
}

pub Returns-pure {ℓ} :
    {A : Type ℓ} {P : Context → Type 0} {S : A → Type 0} (a : A) → S a → Returns P S (pure a)
unfolding pure
Returns-pure a s = record { at = λ c p. (a, refl, s) }

-- The local variables as they are.
pub Returns-locals {κ} :
    {B : Type κ} {P : Context → Type 0} {S : B → Type 0} (f : Locals → Action B)
    → ((c : Context) → P c → Returns P S (f c.locals))
    → Returns P S (get_locals >>= f)
unfolding ◌>>=◌ get_locals
Returns-locals f h = record { at = λ c p. (h c p).at c p }

-- From `P`, `m` ends as `S` says of its result and of the state behind it.
pub record Ends {ℓ} {A : Type ℓ} (P : Context → Type 0) (S : Result A → Context → Type 0)
    (m : Action A) : Type ℓ where
  pub at : (c : Context) → P c → S (m c).0 (m c).1

continue-Ends {ℓ κ} :
    {A : Type ℓ} {B : Type κ} {P : Context → Type 0} {S : Result B → Context → Type 0}
    (r : Result A) (f : A → Action B) (c : Context) (a : A)
    → r ≡ done a
    → P c
    → ((a : A) → Ends P S (f a))
    → S (continue r f c).0 (continue r f c).1
continue-Ends r f c a e p k = rw e ((k a).at c p)

-- A step that never fails is followed by the rest.
pub Ends-after {ℓ κ} :
    {A : Type ℓ} {B : Type κ} {P R : Context → Type 0} {S : Result B → Context → Type 0}
    {m : Action A} {f : A → Action B}
    → IsTotal m
    → Leads P R m
    → ((a : A) → Ends R S (f a))
    → Ends P S (m >>= f)
unfolding ◌>>=◌
Ends-after {m = m} {f = f} total h k = record {
  at = λ c p. let (a, e) = total.returns c in continue-Ends (m c).0 f (m c).1 a e (h.at c p) k;
}
