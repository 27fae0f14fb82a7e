-- ===== src/Leases/Stable.antt =====
-- Which changes of the state an invariant has to withstand. A traversal of an operation is made once,
-- for any invariant that does.
use shiroha_quiz.Base.{ℕ, ◌+◌, ◌≤◌, ◌≡◌, ap, Bool, true, false, List}
use shiroha_quiz.Memory.{Memory}
use shiroha_quiz.Machine.{
  Handle, null, Call, Environment, History, Pin, Lease, Locals, Context, change_lease,
  change_locals, change_memory, Place, ask, open_at, close_if,
}
use shiroha_quiz.Machine.Keeps.{Keeps}
use shiroha_quiz.Leases.Accounts.{
  weigh, opens, closing, commits, lease_weight, locals_weight, held_weight,
}

-- A place of the state that holds one handle.
pub record IsPlace (p : Place) : Type 0 where
  pub exchange_weight :
      (n : ℕ) (h : Handle) (c : Context)
      → held_weight n (p.put h c) + weigh n (p.held c) ≤ held_weight n c + weigh n h
  pub same_held : (c : Context) (es : History) → p.held (record c { history = es }) ≡ p.held c
  pub same_history : (h : Handle) (c : Context) → (p.put h c).history ≡ c.history
  pub same_pins : (h : Handle) (c : Context) → (p.put h c).lease.pins ≡ c.lease.pins
  pub same_quarantine :
      (h : Handle) (c : Context) → (p.put h c).lease.quarantined ≡ c.lease.quarantined
  pub same_token : (h : Handle) (c : Context) → (p.put h c).lease.token ≡ c.lease.token
  pub same_role : (h : Handle) (c : Context) → (p.put h c).lease.role ≡ c.lease.role
  pub same_next : (h : Handle) (c : Context) → (p.put h c).next_ticket ≡ c.next_ticket
  pub same_replacing :
      (h : Handle) (c : Context) → (p.put h c).locals.replacing ≡ c.locals.replacing

-- What no handle that is written changes.
pub record Frame : Type 0 where
  pub history : History
  pub pins : List Pin
  pub quarantined : Bool
  pub token : ℕ
  pub role : ℕ
  pub next : ℕ
  pub replacing : Bool

abbrev pub frame : Context → Frame
frame c = record {
  history = c.history;
  pins = c.lease.pins;
  quarantined = c.lease.quarantined;
  token = c.lease.token;
  role = c.lease.role;
  next = c.next_ticket;
  replacing = c.locals.replacing;
}

pub frame-IsPlace :
    (p : Place)
    → ((n : ℕ) (h : Handle) (c : Context)
        → held_weight n (p.put h c) + weigh n (p.held c) ≤ held_weight n c + weigh n h)
    → ((c : Context) (es : History) → p.held (record c { history = es }) ≡ p.held c)
    → ((h : Handle) (c : Context) → frame (p.put h c) ≡ frame c)
    → IsPlace p
frame-IsPlace p weight held same = record {
  exchange_weight = weight;
  same_held = held;
  same_history = λ h c. ap (λ f. f.history) (same h c);
  same_pins = λ h c. ap (λ f. f.pins) (same h c);
  same_quarantine = λ h c. ap (λ f. f.quarantined) (same h c);
  same_token = λ h c. ap (λ f. f.token) (same h c);
  same_role = λ h c. ap (λ f. f.role) (same h c);
  same_next = λ h c. ap (λ f. f.next) (same h c);
  same_replacing = λ h c. ap (λ f. f.replacing) (same h c);
}

-- A change of the lease that keeps what identifies it and its pins, that lifts no quarantine and makes
-- up no handle.
pub record IsTame (f : Lease → Lease) : Type 0 where
  pub same_token : (l : Lease) → (f l).token ≡ l.token
  pub same_role : (l : Lease) → (f l).role ≡ l.role
  pub same_pins : (l : Lease) → (f l).pins ≡ l.pins
  pub latched : (l : Lease) → l.quarantined ≡ true → (f l).quarantined ≡ true
  pub lighter : (n : ℕ) (l : Lease) → lease_weight n (f l) ≤ lease_weight n l

-- A change of the local variables that makes up no handle and does not mark the effect.
pub record IsTameLocals (f : Locals → Locals) : Type 0 where
  pub lighter : (n : ℕ) (v : Locals) → locals_weight n (f v) ≤ locals_weight n v
  pub same_replacing : (v : Locals) → (f v).replacing ≡ v.replacing

-- A change of the whole state by no call, such as a pin that moves from a variable to the lease.
pub record IsMove (f : Context → Context) : Type 0 where
  pub same_history : (c : Context) → (f c).history ≡ c.history
  pub same_token : (c : Context) → (f c).lease.token ≡ c.lease.token
  pub same_role : (c : Context) → (f c).lease.role ≡ c.lease.role
  pub same_pins : (c : Context) → (f c).lease.pins ≡ c.lease.pins
  pub same_quarantine : (c : Context) → (f c).lease.quarantined ≡ c.lease.quarantined
  pub lighter : (n : ℕ) (c : Context) → held_weight n (f c) ≤ held_weight n c
  pub later : (c : Context) → c.next_ticket ≤ (f c).next_ticket
  pub same_replacing : (c : Context) → (f c).locals.replacing ≡ c.locals.replacing

-- `P` withstands every change but those of a call that commits.
pub record IsCalm (env : Environment) (P : Context → Type 0) : Type 0 where
  pub quiet :
      (call : Call)
      → opens call ≡ false
      → closing call ≡ null
      → commits call ≡ false
      → Keeps P (ask env call)
  pub open_call :
      (p : Place) (call : Call)
      → IsPlace p
      → opens call ≡ true
      → closing call ≡ null
      → commits call ≡ false
      → Keeps P (open_at env p call)
  pub close_call :
      (test : Handle → Bool) (call : Handle → Call) (p : Place)
      → IsPlace p
      → ((h : Handle) → closing (call h) ≡ h)
      → ((h : Handle) → opens (call h) ≡ false)
      → ((h : Handle) → commits (call h) ≡ false)
      → Keeps P (close_if env test call p)
  pub lease_change : (f : Lease → Lease) → IsTame f → Keeps P (change_lease f)
  pub locals_change : (f : Locals → Locals) → IsTameLocals f → Keeps P (change_locals f)
  pub memory_change : (f : Memory → Memory) → Keeps P (change_memory f)
  pub move : (f : Context → Context) → IsMove f → (c : Context) → P c → P (f c)

-- `P` withstands every change.
pub record IsStable (env : Environment) (P : Context → Type 0) : Type 0 where
  pub calm : IsCalm env P
  pub commit_call : (call : Call) → commits call ≡ true → Keeps P (ask env call)
  pub mark : Keeps P (change_locals (λ v. record v { replacing = true }))
