-- ===== src/Machine/Keeps.antt =====
-- Invariants of actions: one rule for each way to build an action.
use shiroha_quiz.Base.{Bool, true, false, ◌∷◌, if◌then◌else◌}
use shiroha_quiz.Status.{Status}
use shiroha_quiz.Memory.{Memory}
use shiroha_quiz.Machine.{
  Call, Outcome, returned, throws_alloc, throws, Environment, Lease, Locals, Context, Raised,
  Result, done, raised, Action, pure, raise, continue, ◌>>=◌, require, get_lease, get_locals,
  change_lease, change_locals, change_memory, settle, attempt, Place, held_at, ask,
}

-- `m` keeps `P`, however it ends.
pub record Keeps {ℓ} {A : Type ℓ} (P : Context → Type 0) (m : Action A) : Type ℓ where
  pub at : (c : Context) → P c → P (m c).1

module _ {P : Context → Type 0} where
  pub Keeps-pure {ℓ} : {A : Type ℓ} (a : A) → Keeps P (pure a)
  unfolding pure
  Keeps-pure a = record { at = λ c h. h }

  pub Keeps-raise {ℓ} : {A : Type ℓ} (r : Raised) → Keeps P (raise {A = A} r)
  unfolding raise
  Keeps-raise r = record { at = λ c h. h }

  pub Keeps-require : (t : Bool) (s : Status) → Keeps P (require t s)
  unfolding require
  Keeps-require true s = record { at = λ c h. h }
  Keeps-require false s = record { at = λ c h. h }

  pub Keeps-get_lease : Keeps P get_lease
  unfolding get_lease
  Keeps-get_lease = record { at = λ c h. h }

  pub Keeps-get_locals : Keeps P get_locals
  unfolding get_locals
  Keeps-get_locals = record { at = λ c h. h }

  pub Keeps-held_at : (p : Place) → Keeps P (held_at p)
  unfolding held_at
  Keeps-held_at p = record { at = λ c h. h }

  pub Keeps-settle : (o : Outcome) → Keeps P (settle o)
  unfolding settle require
  Keeps-settle (returned s) = Keeps-require _ _
  Keeps-settle throws_alloc = Keeps-raise _
  Keeps-settle throws = Keeps-raise _

  pub Keeps-if {ℓ} :
      {A : Type ℓ} (b : Bool) (m k : Action A)
      → Keeps P m
      → Keeps P k
      → Keeps P (if b then m else k)
  Keeps-if true m k km kk = km
  Keeps-if false m k km kk = kk

  pub Keeps-attempt {ℓ} : {A : Type ℓ} (m : Action A) → Keeps P m → Keeps P (attempt m)
  unfolding attempt
  Keeps-attempt m km = record { at = λ c h. km.at c h }

  Keeps-continue {ℓ κ} :
      {A : Type ℓ} {B : Type κ} (r : Result A) (f : A → Action B) (c : Context)
      → P c
      → ((a : A) → Keeps P (f a))
      → P (continue r f c).1
  Keeps-continue (done a) f c h kf = (kf a).at c h
  Keeps-continue (raised r) f c h kf = h

  pub Keeps-bind {ℓ κ} :
      {A : Type ℓ} {B : Type κ} (m : Action A) (f : A → Action B)
      → Keeps P m
      → ((a : A) → Keeps P (f a))
      → Keeps P (m >>= f)
  unfolding ◌>>=◌
  Keeps-bind m f km kf = record { at = λ c h. Keeps-continue (m c).0 f (m c).1 (km.at c h) kf }

  -- The same, read from left to right.
  infixr 2 ◌▹◌
  pub ◌▹◌ {ℓ κ} :
      {A : Type ℓ} {B : Type κ} {m : Action A} {f : A → Action B}
      → Keeps P m
      → ((a : A) → Keeps P (f a))
      → Keeps P (m >>= f)
  km ▹ kf = Keeps-bind _ _ km kf

  pub Keeps-change_lease :
      (f : Lease → Lease)
      → ((c : Context) → P c → P (record c { lease = f c.lease }))
      → Keeps P (change_lease f)
  unfolding change_lease
  Keeps-change_lease f k = record { at = k }

  pub Keeps-change_locals :
      (f : Locals → Locals)
      → ((c : Context) → P c → P (record c { locals = f c.locals }))
      → Keeps P (change_locals f)
  unfolding change_locals
  Keeps-change_locals f k = record { at = k }

  pub Keeps-change_memory :
      (f : Memory → Memory)
      → ((c : Context) → P c → P (record c { memory = f c.memory }))
      → Keeps P (change_memory f)
  unfolding change_memory
  Keeps-change_memory f k = record { at = k }

  pub Keeps-ask :
      (env : Environment) (call : Call)
      → ((c : Context)
          → P c
          → P (record c {
            history = record { call = call; answer = env c.history call } ∷ c.history;
          }))
      → Keeps P (ask env call)
  unfolding ask
  Keeps-ask env call k = record { at = k }

pub ruleset keeps_rules = (
  Keeps-pure, Keeps-raise, Keeps-require, Keeps-get_lease, Keeps-get_locals, Keeps-held_at,
  Keeps-settle, Keeps-if, Keeps-attempt, Keeps-bind,
)
