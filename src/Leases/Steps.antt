-- ===== src/Leases/Steps.antt =====
-- The shared steps keep every invariant that withstands their changes.
use shiroha_quiz.Base.{
  Bytes, ℕ, zero, suc, ◌+◌, ◌≡◌, refl, ap, Bool, true, false, List, [], ◌∷◌, arith,
}
use shiroha_quiz.Machine.{
  Handle, null, Call, close, exchange_unlock, Environment, Pin, ExchangeRead, ExchangeReceipt,
  Lease, Locals, Context, Outcome, returned, Result, done, raised, failed, bad_alloc, exception,
  observe, current_sid, perform, change_lease, change_locals, close_if, CommitDiagnostic,
  Observation, Place,
}
use shiroha_quiz.Status.{ok, missing}
use shiroha_quiz.Objects.{Sid, ObjectInfo}
use shiroha_quiz.Machine.Keeps.{
  Keeps, Keeps-bind, Keeps-require, Keeps-pure, Keeps-raise, Keeps-settle, Keeps-attempt,
  Keeps-get_lease, ◌▹◌, keeps_rules,
}
use shiroha_quiz.Leases.{
  inspect_each, inspect_pins, check, finish, target_current, quarantine_unless, retire_read,
  read_at, receipt_at, set_read, set_receipt, close_reads, close_receipts, release_places,
  open_target, target_call, observe_target, current_result,
}
use shiroha_quiz.Leases.Accounts.{
  weigh, receipts_weight-set, reads_weight-set, opens, closing, commits,
}
use shiroha_quiz.Leases.Stable.{IsPlace, IsCalm, IsStable}
use shiroha_quiz.Leases.Covered.{
  target-IsPlace, temporary-IsPlace, observed-IsPlace, exchange-IsPlace, discovery-IsPlace,
  read-IsPlace, receipt-IsPlace,
}

opens-target_call : (l : Lease) (sid : Sid) → opens (target_call l sid) ≡ true
opens-target_call l sid = ground arith

closing-target_call : (l : Lease) (sid : Sid) → closing (target_call l sid) ≡ null
closing-target_call l sid = ground arith

commits-target_call : (l : Lease) (sid : Sid) → commits (target_call l sid) ≡ false
commits-target_call l sid = ground arith

module _ {P : Context → Type 0} (env : Environment) (stable : IsCalm env P) where
  open stable use {quiet, open_call, close_call, lease_change, locals_change, memory_change}

  -- A place whose handle is closed where it is usable.
  pub close_at :
      (test : Handle → Bool) (p : Place) → IsPlace p → Keeps P (close_if env test close p)
  close_at test p place = close_call test close p place (λ h. refl) (λ h. refl) (λ h. refl)

  pub unlock_at :
      (test : Handle → Bool) (p : Place) → IsPlace p → Keeps P (close_if env test exchange_unlock p)
  unlock_at test p place =
      close_call test exchange_unlock p place (λ h. refl) (λ h. refl) (λ h. refl)

  pub Keeps-observe : (h : Handle) → Keeps P (observe env h)
  unfolding observe
  Keeps-observe h = search (keeps_rules, quiet)

  pub Keeps-inspect_each : (sid : Sid) (ps : List Pin) → Keeps P (inspect_each env sid ps)
  unfolding inspect_each
  Keeps-inspect_each sid [] = Keeps-pure tt
  Keeps-inspect_each sid (p ∷ ps) =
      Keeps-observe p.handle ▹ λ current. Keeps-require _ _ ▹ λ u. Keeps-inspect_each sid ps

  pub Keeps-inspect_pins : (sid : Sid) → Keeps P (inspect_pins env sid)
  unfolding inspect_pins
  Keeps-inspect_pins sid = search (keeps_rules, Keeps-inspect_each)

  pub Keeps-perform :
      (call : Call)
      → opens call ≡ false
      → closing call ≡ null
      → commits call ≡ false
      → Keeps P (perform env call)
  unfolding perform
  Keeps-perform call o e k = search (keeps_rules, quiet)

  pub Keeps-current_sid : Keeps P (current_sid env)
  unfolding current_sid
  Keeps-current_sid = search (keeps_rules, quiet)

  -- A change of what is no handle, no pin and no quarantine.
  pub Keeps-update :
      (kind ticket : Lease → ℕ) (denied gone : Lease → Bool)
      (target exchange discovery : Lease → ObjectInfo) (runtime : Lease → Bytes)
      → Keeps P (
          change_lease (λ l. record l {
            kind = kind l;
            ticket = ticket l;
            denied = denied l;
            missing = gone l;
            target_identity = target l;
            runtime_id = runtime l;
            exchange = record (l.exchange) { identity = exchange l };
            discovery = record (l.discovery) { identity = discovery l };
          }))
  Keeps-update kind ticket denied gone target exchange discovery runtime = lease_change _ (record {
    same_token = λ l. refl;
    same_role = λ l. refl;
    same_pins = λ l. refl;
    latched = λ l e. e;
    lighter = λ n l. omega arith;
  })

  pub Keeps-update_locals :
      (detail : Locals → CommitDiagnostic) (observation : Locals → Observation)
      (bytes : Locals → Bytes)
      → Keeps P (
          change_locals
            (λ v. record v { detail = detail v; observation = observation v; bytes = bytes v }))
  Keeps-update_locals detail observation bytes =
      locals_change _ (record { lighter = λ n v. omega arith; same_replacing = λ v. refl })

  pub Keeps-quarantine_unless : (closed : Bool) → Keeps P (change_lease (quarantine_unless closed))
  Keeps-quarantine_unless true = Keeps-update _ _ _ _ _ _ _ _
  Keeps-quarantine_unless false = lease_change _ (record {
    same_token = λ l. refl;
    same_role = λ l. refl;
    same_pins = λ l. refl;
    latched = λ l e. refl;
    lighter = λ n l. omega arith;
  })

  pub Keeps-check : Keeps P (check env)
  unfolding check
  Keeps-check = Keeps-get_lease ▹ λ l. Keeps-require _ _ ▹ λ u. Keeps-update _ _ _ _ _ _ _ _ ▹ λ u.
      Keeps-current_sid ▹ λ sid.
      Keeps-inspect_pins sid ▹ λ u. Keeps-update _ _ _ _ _ _ _ _ ▹ λ u. Keeps-pure _

  pub Keeps-finish : Keeps P (finish env)
  unfolding finish
  Keeps-finish = close_at _ _ temporary-IsPlace ▹ λ a. close_at _ _ target-IsPlace ▹ λ b.
      Keeps-update _ _ _ _ _ _ _ _ ▹ λ u. Keeps-quarantine_unless _ ▹ λ u. Keeps-pure _

  pub Keeps-open_target : (p : Place) (sid : Sid) → IsPlace p → Keeps P (open_target env p sid)
  unfolding open_target
  Keeps-open_target p sid place = Keeps-get_lease ▹ λ l.
      open_call p _ place (opens-target_call l sid) (closing-target_call l sid)
        (commits-target_call l sid)

  Keeps-observe_target : (sid : Sid) (o : Outcome) → Keeps P (observe_target env sid o)
  unfolding observe_target
  Keeps-observe_target sid (returned missing) = search keeps_rules
  Keeps-observe_target sid (returned ok) = search (keeps_rules, Keeps-observe) depth 20
  Keeps-observe_target sid o = Keeps-settle _

  Keeps-current_result :
      (r : Result (Unit {0})) (closed : Bool) → Keeps P (current_result env r closed)
  unfolding current_result
  Keeps-current_result (raised bad_alloc) b = Keeps-raise _
  Keeps-current_result (raised exception) b = Keeps-raise _
  Keeps-current_result (raised (failed s)) b = Keeps-raise _
  Keeps-current_result (done u) b = Keeps-require _ _

  pub Keeps-target_current : (sid : Sid) → Keeps P (target_current env sid)
  unfolding target_current
  Keeps-target_current sid = Keeps-get_lease ▹ λ l. Keeps-require _ _ ▹ λ u.
      locals_change _ (record { lighter = λ n v. omega arith; same_replacing = λ v. refl }) ▹ λ u.
      Keeps-bind _ _
        (Keeps-attempt _
          (Keeps-open_target _ sid observed-IsPlace ▹ λ o. Keeps-observe_target sid o))
        λ r. close_at _ _ observed-IsPlace ▹ λ closed.
          Keeps-quarantine_unless closed ▹ λ u. Keeps-current_result r closed

  -- A change of a slot that keeps its pin.
  pub Keeps-set_read :
      (i : ℕ) (f : ExchangeRead → ExchangeRead)
      → ((r : ExchangeRead) → (f r).pin ≡ r.pin)
      → Keeps P (change_lease (λ l. set_read i (f (read_at i l)) l))
  Keeps-set_read i f same_pin = lease_change _ (record {
    same_token = λ l. refl;
    same_role = λ l. refl;
    same_pins = λ l. refl;
    latched = λ l e. e;
    lighter = λ n l. omega (
      arith,
      reads_weight-set n i (f (read_at i l)) l.exchange_reads,
      ap (weigh n) (same_pin (read_at i l)),
    );
  })

  pub Keeps-set_receipt :
      (i : ℕ) (f : ExchangeReceipt → ExchangeReceipt)
      → ((r : ExchangeReceipt) → (f r).pin ≡ r.pin)
      → Keeps P (change_lease (λ l. set_receipt i (f (receipt_at i l)) l))
  Keeps-set_receipt i f same_pin = lease_change _ (record {
    same_token = λ l. refl;
    same_role = λ l. refl;
    same_pins = λ l. refl;
    latched = λ l e. e;
    lighter = λ n l. omega (
      arith,
      receipts_weight-set n i (f (receipt_at i l)) l.exchange_receipts,
      ap (weigh n) (same_pin (receipt_at i l)),
    );
  })

  Keeps-close_reads : (m i : ℕ) → Keeps P (close_reads env m i)
  unfolding close_reads
  Keeps-close_reads zero i = Keeps-pure _
  Keeps-close_reads (suc m) i = close_at _ _ (read-IsPlace i) ▹ λ a.
      Keeps-set_read i retire_read (λ r. refl) ▹ λ u.
      Keeps-close_reads m (i + 1) ▹ λ b. Keeps-pure _

  Keeps-close_receipts : (m i : ℕ) → Keeps P (close_receipts env m i)
  unfolding close_receipts
  Keeps-close_receipts zero i = Keeps-pure _
  Keeps-close_receipts (suc m) i = close_at _ _ (receipt-IsPlace i) ▹ λ a.
      Keeps-set_receipt i (λ r. record r { token = 0 }) (λ r. refl) ▹ λ u.
      Keeps-close_receipts m (i + 1) ▹ λ b. Keeps-pure _

  pub Keeps-release_places : Keeps P (release_places env)
  unfolding release_places
  Keeps-release_places = Keeps-finish ▹ λ a. Keeps-close_reads 32 0 ▹ λ b.
      Keeps-close_receipts 32 0 ▹ λ d.
      close_at _ _ exchange-IsPlace ▹ λ e. close_at _ _ discovery-IsPlace ▹ λ f. Keeps-pure _

-- A call that commits, of which only the status counts.
pub Keeps-commit_call :
    {P : Context → Type 0} (env : Environment) (stable : IsStable env P) (call : Call)
    → commits call ≡ true
    → Keeps P (perform env call)
unfolding perform
Keeps-commit_call env stable call k = stable.commit_call call k ▹ λ answer. Keeps-settle _
