-- ===== src/Transactions/Steps.antt =====
-- `begin`, `commit` and `abort` keep every invariant that withstands the changes of the state.
use shiroha_quiz.Base.{ℕ, ◌+◌, ◌≡◌, refl, Bool, true, arith, Bytes}
use shiroha_quiz.Status.{Status, ok, missing}
use shiroha_quiz.Objects.{Sid, ObjectInfo}
use shiroha_quiz.Machine.{
  Environment, Lease, Context, Outcome, returned, CommitStage, Result, done, raised, failed,
  bad_alloc, exception,
}
use shiroha_quiz.Machine.Keeps.{
  Keeps, ◌▹◌, Keeps-require, Keeps-pure, Keeps-raise, Keeps-settle, Keeps-attempt, Keeps-if,
  Keeps-get_lease, Keeps-get_locals,
}
use shiroha_quiz.Leases.Accounts.{commits}
use shiroha_quiz.Leases.Progress.{renames}
use shiroha_quiz.Leases.Stable.{IsCalm, IsStable}
use shiroha_quiz.Leases.Covered.{target-IsPlace, temporary-IsPlace}
use shiroha_quiz.Leases.Steps.{
  Keeps-perform, Keeps-commit_call, Keeps-observe, Keeps-update, Keeps-update_locals,
  Keeps-quarantine_unless, Keeps-check, Keeps-finish, Keeps-open_target, Keeps-target_current,
  close_at,
}
use shiroha_quiz.Transactions.{
  set_stage, take_ticket, begin_present, begin_opened, begin_try, begin_failed, begin_settle,
  begin_lease, temporary_name, write_temporary, close_target, replace_call, or_unknown, publish,
  validate_published, commit_try, commit_settle, commit_lease, abort_lease,
}

pub commits-replace_call : (env : Environment) (l : Lease) → commits (replace_call env l) ≡ true
commits-replace_call env l = ground arith

pub renames-replace_call : (env : Environment) (l : Lease) → renames (replace_call env l) ≡ true
renames-replace_call env l = ground arith

module _ {P : Context → Type 0} (env : Environment) (stable : IsCalm env P) where
  open stable use {quiet, open_call, close_call, memory_change, move}

  pub Keeps-take_ticket : Keeps P take_ticket
  unfolding take_ticket
  Keeps-take_ticket = record {
    at = λ c h.
        move (λ c. record c { next_ticket = c.next_ticket + 1 })
          (record {
            same_history = λ c. refl;
            same_token = λ c. refl;
            same_role = λ c. refl;
            same_pins = λ c. refl;
            same_quarantine = λ c. refl;
            lighter = λ n c. omega arith;
            later = λ c. omega arith;
            same_replacing = λ c. refl;
          })
          c h;
  }

  Keeps-begin_present :
      (output capacity written : ℕ) (sid : Sid)
      → Keeps P (begin_present env output capacity written sid)
  unfolding begin_present
  Keeps-begin_present output capacity written sid = Keeps-get_lease ▹ λ l. Keeps-require _ _ ▹ λ u.
      quiet _ refl refl refl ▹ λ answer. Keeps-update env stable _ _ _ _ _ _ _ _ ▹ λ u.
      Keeps-settle _ ▹ λ u. Keeps-require _ _ ▹ λ u. quiet _ refl refl refl ▹ λ content.
      Keeps-settle _ ▹ λ u.
      Keeps-require _ _ ▹ λ u. Keeps-require _ _ ▹ λ u. memory_change _ ▹ λ u. Keeps-pure _

  Keeps-begin_opened :
      (output capacity written : ℕ) (sid : Sid) (o : Outcome)
      → Keeps P (begin_opened env output capacity written sid o)
  unfolding begin_opened
  Keeps-begin_opened output capacity written sid (returned missing) =
      Keeps-update env stable _ _ _ _ _ _ _ _ ▹ λ u.
      Keeps-get_lease ▹ λ l. Keeps-require _ _ ▹ λ u. Keeps-pure _
  Keeps-begin_opened output capacity written sid (returned ok) =
      Keeps-update env stable _ _ _ _ _ _ _ _ ▹ λ u. Keeps-begin_present output capacity written sid
  Keeps-begin_opened output capacity written sid (returned s) =
      Keeps-update env stable _ _ _ _ _ _ _ _ ▹ λ u. Keeps-raise _
  Keeps-begin_opened output capacity written sid o = Keeps-settle _ ▹ λ u. Keeps-raise _

  Keeps-begin_try :
      (output capacity written ticket : ℕ) → Keeps P (begin_try env output capacity written ticket)
  unfolding begin_try
  Keeps-begin_try output capacity written ticket = Keeps-check env stable ▹ λ sid.
      Keeps-get_lease ▹ λ l. Keeps-require _ _ ▹ λ u.
      Keeps-open_target env stable _ sid target-IsPlace ▹ λ o.
      Keeps-begin_opened output capacity written sid o ▹ λ original. Keeps-check env stable ▹ λ sid.
      Keeps-target_current env stable sid ▹ λ u. Keeps-get_lease ▹ λ l.
      Keeps-update_locals env stable _ _ _ ▹ λ u. Keeps-take_ticket ▹ λ issued.
      Keeps-update env stable _ _ _ _ _ _ _ _ ▹ λ u. memory_change _ ▹ λ u. Keeps-pure _

  Keeps-begin_settle :
      (output capacity written : ℕ) (r : Result Status)
      → Keeps P (begin_settle env output capacity written r)
  unfolding begin_settle begin_failed
  Keeps-begin_settle output capacity written (done s) = Keeps-pure _
  Keeps-begin_settle output capacity written (raised r) =
      Keeps-finish env stable ▹ λ b. memory_change _ ▹ λ u. Keeps-pure _

  pub Keeps-begin_lease :
      (kind output capacity written ticket : ℕ)
      → Keeps P (begin_lease env kind output capacity written ticket)
  unfolding begin_lease
  Keeps-begin_lease kind output capacity written ticket =
      Keeps-update env stable _ _ _ _ _ _ _ _ ▹ λ u.
      Keeps-attempt _ (Keeps-begin_try output capacity written ticket) ▹ λ r.
      Keeps-begin_settle output capacity written r

  pub Keeps-set_stage : (s : CommitStage) → Keeps P (set_stage s)
  Keeps-set_stage s = Keeps-update_locals env stable _ _ _

  pub Keeps-temporary_name : Keeps P (temporary_name env)
  unfolding temporary_name
  Keeps-temporary_name = Keeps-get_lease ▹ λ l. quiet _ refl refl refl ▹ λ a. Keeps-settle _ ▹ λ u.
      Keeps-require _ _ ▹ λ u. quiet _ refl refl refl ▹ λ a. Keeps-settle _ ▹ λ u.
      Keeps-require _ _ ▹ λ u.
      Keeps-update env stable _ _ _ _ _ _ _ _ ▹ λ u. Keeps-get_lease ▹ λ l. Keeps-pure _

  pub Keeps-write_temporary : (input : Bytes) (sid : Sid) → Keeps P (write_temporary env input sid)
  unfolding write_temporary
  Keeps-write_temporary input sid = Keeps-get_lease ▹ λ l. Keeps-require _ _ ▹ λ u.
      Keeps-observe env stable _ ▹ λ temp. Keeps-require _ _ ▹ λ u.
      Keeps-perform env stable _ refl refl refl ▹ λ u.
      Keeps-perform env stable _ refl refl refl ▹ λ u. Keeps-pure _

  pub Keeps-close_target : Keeps P (close_target env)
  unfolding close_target
  Keeps-close_target = Keeps-get_lease ▹ λ l.
      Keeps-if _ _ _ (Keeps-set_stage _) (Keeps-pure _) ▹ λ u.
      close_at env stable _ _ target-IsPlace ▹ λ closed.
      Keeps-quarantine_unless env stable closed ▹ λ u. Keeps-require _ _

  pub Keeps-or_unknown {ℓ} : {A : Type ℓ} (r : Result A) → Keeps P (or_unknown env r)
  Keeps-or_unknown (done a) = Keeps-pure _
  Keeps-or_unknown (raised (failed s)) = Keeps-raise _
  Keeps-or_unknown (raised bad_alloc) = Keeps-raise _
  Keeps-or_unknown (raised exception) = Keeps-raise _

  pub Keeps-validate_published : (temp : ObjectInfo) → Keeps P (validate_published env temp)
  unfolding validate_published
  Keeps-validate_published temp = Keeps-set_stage _ ▹ λ u.
      close_at env stable _ _ temporary-IsPlace ▹ λ closed.
      Keeps-quarantine_unless env stable closed ▹ λ u. Keeps-require _ _ ▹ λ u.
      Keeps-set_stage _ ▹ λ u. Keeps-update env stable _ _ _ _ _ _ _ _ ▹ λ u.
      Keeps-attempt _ (Keeps-check env stable ▹ λ sid. Keeps-target_current env stable sid) ▹ λ r.
      Keeps-or_unknown r

  pub Keeps-commit_settle :
      (credential : Bool) (r : Result (Unit {0})) → Keeps P (commit_settle env credential r)
  unfolding commit_settle
  Keeps-commit_settle credential r = Keeps-update_locals env stable _ _ _ ▹ λ u.
      Keeps-get_locals ▹ λ v. Keeps-finish env stable ▹ λ b.
      Keeps-update_locals env stable _ _ _ ▹ λ u. Keeps-get_lease ▹ λ l.
      Keeps-if _ _ _ (Keeps-update_locals env stable _ _ _) (Keeps-pure _) ▹ λ u. Keeps-pure _

  pub Keeps-abort_lease : Keeps P (abort_lease env)
  unfolding abort_lease
  Keeps-abort_lease = Keeps-finish env stable ▹ λ b. Keeps-pure _

module _ {P : Context → Type 0} (env : Environment) (stable : IsStable env P) where
  open stable use {calm, mark}
  open calm use {open_call}

  Keeps-publish : Keeps P (publish env)
  unfolding publish
  Keeps-publish = mark ▹ λ u. Keeps-set_stage env calm _ ▹ λ u. Keeps-get_lease ▹ λ l.
      Keeps-attempt _ (Keeps-commit_call env stable _ (commits-replace_call env l)) ▹ λ r.
      Keeps-or_unknown env calm r

  Keeps-commit_try : (input : Bytes) → Keeps P (commit_try env input)
  unfolding commit_try
  Keeps-commit_try input = Keeps-set_stage env calm _ ▹ λ u. Keeps-check env calm ▹ λ sid.
      Keeps-target_current env calm sid ▹ λ u. Keeps-temporary_name env calm ▹ λ name.
      Keeps-check env calm ▹ λ sid. Keeps-get_lease ▹ λ l.
      open_call _ _ temporary-IsPlace refl refl refl ▹ λ o. Keeps-settle _ ▹ λ u.
      Keeps-write_temporary env calm input sid ▹ λ temp. Keeps-check env calm ▹ λ last.
      Keeps-target_current env calm last ▹ λ u. Keeps-get_lease ▹ λ held.
      Keeps-observe env calm _ ▹ λ current. Keeps-require _ _ ▹ λ u.
      Keeps-close_target env calm ▹ λ u. Keeps-publish ▹ λ u. Keeps-validate_published env calm temp

  pub Keeps-commit_lease :
      (credential : Bool) (input : Bytes) → Keeps P (commit_lease env credential input)
  unfolding commit_lease
  Keeps-commit_lease credential input =
      Keeps-attempt _ (Keeps-commit_try input) ▹ λ r. Keeps-commit_settle env calm credential r
