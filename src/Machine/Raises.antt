-- ===== src/Machine/Raises.antt =====
-- What an action may raise: one rule for each way to build an action.
use shiroha_quiz.Base.{◌≡◌, Bool, true, false, if-both, if◌then◌else◌}
use shiroha_quiz.Status.{Status, is_ok}
use shiroha_quiz.Machine.{
  Handle, Call, Outcome, returned, throws_alloc, throws, Environment, Lease, Locals, Context,
  Raised, failed, bad_alloc, exception, Result, done, raised, Action, pure, raise, continue, ◌>>=◌,
  require, get_lease, get_locals, change_lease, change_locals, settle, attempt, Place, held_at, ask,
  open_at, close_if,
}

abbrev pub Holds {ℓ} : {A : Type ℓ} → (Raised → Type 0) → Result A → Type 0
Holds R (done a) = Unit
Holds R (raised r) = R r

-- Whatever `m` raises is in `R`.
pub record Raises {ℓ} {A : Type ℓ} (R : Raised → Type 0) (m : Action A) : Type ℓ where
  pub at : (c : Context) → Holds R (m c).0

module _ {R : Raised → Type 0} where
  pub Raises-pure {ℓ} : {A : Type ℓ} (a : A) → Raises R (pure a)
  unfolding pure
  Raises-pure a = record { at = λ c. tt }

  pub Raises-raise {ℓ} : {A : Type ℓ} (r : Raised) → R r → Raises R (raise {A = A} r)
  unfolding raise
  Raises-raise r h = record { at = λ c. h }

  pub Raises-require : (t : Bool) (s : Status) → R (failed s) → Raises R (require t s)
  unfolding require
  Raises-require true s h = record { at = λ c. tt }
  Raises-require false s h = record { at = λ c. h }

  pub Raises-get_lease : Raises R get_lease
  unfolding get_lease
  Raises-get_lease = record { at = λ c. tt }

  pub Raises-get_locals : Raises R get_locals
  unfolding get_locals
  Raises-get_locals = record { at = λ c. tt }

  pub Raises-held_at : (p : Place) → Raises R (held_at p)
  unfolding held_at
  Raises-held_at p = record { at = λ c. tt }

  pub Raises-change_lease : (f : Lease → Lease) → Raises R (change_lease f)
  unfolding change_lease
  Raises-change_lease f = record { at = λ c. tt }

  pub Raises-change_locals : (f : Locals → Locals) → Raises R (change_locals f)
  unfolding change_locals
  Raises-change_locals f = record { at = λ c. tt }

  pub Raises-attempt {ℓ} : {A : Type ℓ} (m : Action A) → Raises R (attempt m)
  unfolding attempt
  Raises-attempt m = record { at = λ c. tt }

  pub Raises-ask : (env : Environment) (call : Call) → Raises R (ask env call)
  unfolding ask
  Raises-ask env call = record { at = λ c. tt }

  pub Raises-open_at : (env : Environment) (p : Place) (call : Call) → Raises R (open_at env p call)
  unfolding open_at
  Raises-open_at env p call = record { at = λ c. tt }

  pub Raises-close_if :
      (env : Environment) (test : Handle → Bool) (call : Handle → Call) (p : Place)
      → Raises R (close_if env test call p)
  unfolding close_if
  Raises-close_if env test call p = record {
    at = λ c.
        if-both (λ (r : Result Bool × Context). Holds R r.0) (test (p.held c)) (λ e. tt) (λ e. tt);
  }

  pub Raises-if {ℓ} :
      {A : Type ℓ} (b : Bool) (m k : Action A)
      → Raises R m
      → Raises R k
      → Raises R (if b then m else k)
  Raises-if true m k h g = h
  Raises-if false m k h g = g

  Holds-continue {ℓ κ} :
      {A : Type ℓ} {B : Type κ} (r : Result A) (f : A → Action B) (c : Context)
      → Holds R r
      → ((a : A) → Raises R (f a))
      → Holds R (continue r f c).0
  Holds-continue (done a) f c h k = (k a).at c
  Holds-continue (raised r) f c h k = h

  pub Raises-bind {ℓ κ} :
      {A : Type ℓ} {B : Type κ} (m : Action A) (f : A → Action B)
      → Raises R m
      → ((a : A) → Raises R (f a))
      → Raises R (m >>= f)
  unfolding ◌>>=◌
  Raises-bind m f h k = record { at = λ c. Holds-continue (m c).0 f (m c).1 (h.at c) k }

  -- The same, read from left to right.
  infixr 2 ◌▸◌
  pub ◌▸◌ {ℓ κ} :
      {A : Type ℓ} {B : Type κ} {m : Action A} {f : A → Action B}
      → Raises R m
      → ((a : A) → Raises R (f a))
      → Raises R (m >>= f)
  h ▸ k = Raises-bind _ _ h k

  Holds-caught {ℓ κ} :
      {A : Type ℓ} {B : Type κ} (m : Action A) (f : Result A → Action B)
      → Raises R m
      → ((r : Result A) → Holds R r → Raises R (f r))
      → (c : Context) → Holds R ((attempt m >>= f) c).0
  unfolding attempt ◌>>=◌
  Holds-caught m f h k c = (k (m c).0 (h.at c)).at (m c).1

  -- What is caught is in `R` too, if it is an exception.
  pub Raises-caught {ℓ κ} :
      {A : Type ℓ} {B : Type κ} {m : Action A} {f : Result A → Action B}
      → Raises R m
      → ((r : Result A) → Holds R r → Raises R (f r))
      → Raises R (attempt m >>= f)
  Raises-caught {m = m} {f = f} h k = record { at = Holds-caught m f h k }

-- Nothing that is raised is a success.
abbrev pub IsError : Raised → Type 0
IsError (failed s) = is_ok s ≡ false
IsError bad_alloc = Unit
IsError exception = Unit

pub settle-IsError : (o : Outcome) → Raises IsError (settle o)
unfolding settle pure raise
settle-IsError (returned s) = record {
  at = λ c. if-both (λ (m : Action (Unit {0})). Holds IsError (m c).0) (is_ok s) (λ e. tt) (λ e. e);
}
settle-IsError throws_alloc = Raises-raise _ tt
settle-IsError throws = Raises-raise _ tt
