-- ===== src/Leases/Errors.antt =====
-- What the shared steps of an operation on a lease raise.
use shiroha_quiz.Base.{◌≡◌, refl, Bool, true, false, List, [], ◌∷◌, if◌then◌else◌}
use shiroha_quiz.Status.{Status, ok, missing, is_ok, unavailable}
use shiroha_quiz.Objects.{Sid}
use shiroha_quiz.Machine.{
  Handle, Call, Environment, Pin, Outcome, returned, failed, bad_alloc, exception, Result, done,
  raised, observe, current_sid, perform,
}
use shiroha_quiz.Machine.Raises.{
  Raises, Holds, IsError, settle-IsError, ◌▸◌, Raises-pure, Raises-raise, Raises-require,
  Raises-get_lease, Raises-get_locals, Raises-change_lease, Raises-change_locals, Raises-ask,
  Raises-open_at, Raises-close_if, Raises-caught,
}
use shiroha_quiz.Leases.{
  inspect_each, inspect_pins, check, observe_target, current_result, open_target, target_current,
}

module _ (env : Environment) where
  pub observe-IsError : (h : Handle) → Raises IsError (observe env h)
  unfolding observe
  observe-IsError h = Raises-ask _ _ ▸ λ a. settle-IsError _ ▸ λ u. Raises-pure _

  pub perform-IsError : (call : Call) → Raises IsError (perform env call)
  unfolding perform
  perform-IsError call = Raises-ask _ _ ▸ λ a. settle-IsError _

  inspect_each-IsError : (sid : Sid) (ps : List Pin) → Raises IsError (inspect_each env sid ps)
  unfolding inspect_each
  inspect_each-IsError sid [] = Raises-pure _
  inspect_each-IsError sid (p ∷ ps) =
      observe-IsError _ ▸ λ current. Raises-require _ _ refl ▸ λ u. inspect_each-IsError sid ps

  pub check-IsError : Raises IsError (check env)
  unfolding check inspect_pins current_sid
  check-IsError = Raises-get_lease ▸ λ l. Raises-require _ _ refl ▸ λ u.
      Raises-change_lease _ ▸ λ u.
      (Raises-ask _ _ ▸ λ a. settle-IsError _ ▸ λ u. Raises-pure _) ▸ λ sid.
      (Raises-get_lease ▸ λ l. inspect_each-IsError sid _) ▸ λ u.
      Raises-change_lease _ ▸ λ u. Raises-pure _

  observe_target-IsError : (sid : Sid) (o : Outcome) → Raises IsError (observe_target env sid o)
  unfolding observe_target
  observe_target-IsError sid (returned missing) = Raises-get_lease ▸ λ l. Raises-require _ _ refl
  observe_target-IsError sid (returned ok) = Raises-get_locals ▸ λ v. Raises-require _ _ refl ▸ λ u.
      observe-IsError _ ▸ λ info. Raises-get_lease ▸ λ l. Raises-require _ _ refl
  observe_target-IsError sid o = settle-IsError _

  raised_as :
      (closed : Bool) (s : Status)
      → is_ok s ≡ false
      → IsError (failed (if closed then s else unavailable))
  raised_as true s h = h
  raised_as false s h = refl

  current_result-IsError :
      (r : Result (Unit {0})) (closed : Bool)
      → Holds IsError r
      → Raises IsError (current_result env r closed)
  unfolding current_result
  current_result-IsError (raised bad_alloc) b h = Raises-raise _ tt
  current_result-IsError (raised exception) b h = Raises-raise _ tt
  current_result-IsError (raised (failed s)) b h = Raises-raise _ (raised_as b s h)
  current_result-IsError (done u) b h = Raises-require _ _ refl

  pub target_current-IsError : (sid : Sid) → Raises IsError (target_current env sid)
  unfolding target_current open_target
  target_current-IsError sid = Raises-get_lease ▸ λ l. Raises-require _ _ refl ▸ λ u.
      Raises-change_locals _ ▸ λ u.
      Raises-caught
        ((Raises-get_lease ▸ λ l. Raises-open_at _ _ _) ▸ λ o. observe_target-IsError sid o)
        λ r h. Raises-close_if _ _ _ _ ▸ λ closed.
          Raises-change_lease _ ▸ λ u. current_result-IsError r closed h
