-- ===== src/Transactions/Decided.antt =====
-- What the status of `commit` says of the rename.
mod Tried
unfoldable pub use Tried.*
use mathlib.Core.Path.{subst}
use shiroha_quiz.Base.{
  ℕ, suc, ◌+◌, ◌≤◌, ◌≡◌, refl, ap, ◌∙◌, sym, Bool, true, false, not, some, arith, Bytes, if-both,
  if◌then◌else◌, ◌⊎◌, inl, inr,
}
use shiroha_quiz.Status.{Status, ok, is_ok, commit_unknown, unavailable}
use shiroha_quiz.Objects.{Sid, ObjectInfo}
use shiroha_quiz.Machine.{
  Environment, History, Lease, Context, Raised, failed, bad_alloc, exception, Result, done, raised,
  CommitDiagnostic, Action, ◌>>=◌, attempt, ask, perform, change_locals, continue,
}
use shiroha_quiz.Machine.Keeps.{Keeps, Keeps-require, Keeps-settle, Keeps-get_lease}
use shiroha_quiz.Machine.Runs.{
  IsTotal, IsTotal-change_locals, IsTotal-get_lease, IsTotal-pure, IsTotal-if, IsTotal-bind,
  IsTotal-change_lease, IsTotal-close_if,
}
use shiroha_quiz.Machine.Leads.{
  Leads, Leads-attempt, Leads-keep, Leads-after, Leads-kept, Returns, Returns-after, Returns-pure,
  Returns-locals,
}
use shiroha_quiz.Machine.Raises.{
  Raises, Holds, IsError, settle-IsError, ◌▸◌, Raises-pure, Raises-raise, Raises-require, Raises-if,
  Raises-get_lease, Raises-change_lease, Raises-change_locals, Raises-ask, Raises-open_at,
  Raises-close_if, Raises-attempt,
}
use shiroha_quiz.Leases.{finish}
use shiroha_quiz.Leases.Covered.{temporary-IsPlace}
use shiroha_quiz.Leases.Steps.{Keeps-check, Keeps-target_current, Keeps-observe}
use shiroha_quiz.Leases.Errors.{
  check-IsError, target_current-IsError, observe-IsError, perform-IsError,
}
use shiroha_quiz.Leases.Progress.{renames, renames-IsCommitting, renamed, IsAt, At-IsCalm}
use shiroha_quiz.Owners.{World, enter, returned_status}
use shiroha_quiz.Transactions.{
  replace_call, or_unknown, publish, validate_published, close_target, write_temporary,
  temporary_name, commit_try, commit_settle, commit_lease, commit_found, ticket_matches,
  commit_status,
}
use shiroha_quiz.Transactions.Steps.{
  Keeps-set_stage, Keeps-or_unknown, Keeps-validate_published, Keeps-temporary_name,
  Keeps-write_temporary, Keeps-close_target, Keeps-commit_settle,
}

-- What a status says of the calls that rename, of which `n` were made before.
pub record IsDecided (n : ℕ) (s : Status) (h : History) : Type 0 where
  pub succeeded : s ≡ ok → renamed h ≡ n + 1
  pub untouched : is_ok s ≡ false → is_unknown s ≡ false → renamed h ≡ n
  pub at_most_one : renamed h ≤ n + 1

-- The status that the catch clauses and the closes leave.
abbrev settled : Environment → Bool → Bool → Result (Unit {0}) → Status
settled env finished replacing r =
    if finished
    then commit_status env replacing r
    else if replacing
    then commit_unknown
    else unavailable

settled-IsDecided :
    (env : Environment) (n : ℕ) (finished : Bool) (r : Result (Unit {0})) (c c' : Context)
    → IsTried n r c
    → renamed c'.history ≡ renamed c.history
    → IsDecided n (settled env finished c.locals.replacing r) c'.history
settled-IsDecided env n finished (done u) c c' h e = record {
  succeeded = λ s. omega (arith, h.made, e);
  untouched = λ s t. absurd (ground (arith, s, t, h.marked refl));
  at_most_one = omega (arith, h.made, e);
}
settled-IsDecided env n finished (raised (failed s)) c c' (inl (err, h)) e = record {
  succeeded = λ s. ground (arith, s, err);
  untouched = λ s t. omega (arith, h.made, e);
  at_most_one = omega (arith, h.made, e);
}
settled-IsDecided env n finished (raised bad_alloc) c c' (inl (err, h)) e = record {
  succeeded = λ s. ground (arith, s);
  untouched = λ s t. omega (arith, h.made, e);
  at_most_one = omega (arith, h.made, e);
}
settled-IsDecided env n finished (raised exception) c c' (inl (err, h)) e = record {
  succeeded = λ s. ground (arith, s);
  untouched = λ s t. omega (arith, h.made, e);
  at_most_one = omega (arith, h.made, e);
}
settled-IsDecided env n finished (raised (failed s)) c c' (inr (u, h)) e = record {
  succeeded = λ s. omega (arith, h.made, e);
  untouched = λ s t. absurd (ground (arith, s, t, u, h.marked refl));
  at_most_one = omega (arith, h.made, e);
}
settled-IsDecided env n finished (raised bad_alloc) c c' (inr (u, h)) e = record {
  succeeded = λ s. omega (arith, h.made, e);
  untouched = λ s t. absurd (ground (arith, s, t, h.marked refl));
  at_most_one = omega (arith, h.made, e);
}
settled-IsDecided env n finished (raised exception) c c' (inr (u, h)) e = record {
  succeeded = λ s. omega (arith, h.made, e);
  untouched = λ s t. absurd (ground (arith, s, t, h.marked refl));
  at_most_one = omega (arith, h.made, e);
}

module _ (env : Environment) where
  IsTotal-finish : IsTotal (finish env)
  unfolding finish
  IsTotal-finish = IsTotal-bind (IsTotal-close_if _ _ _ _) λ a.
      IsTotal-bind (IsTotal-close_if _ _ _ _) λ b.
        IsTotal-bind (IsTotal-change_lease _)
          λ u. IsTotal-bind (IsTotal-change_lease _) λ u. IsTotal-pure _

  -- Where `replacing` was set, `commit` returns the status of the catch clauses, or of a close that
  -- failed.
  commit_settle-Returns :
      (credential : Bool) (r : Result (Unit {0})) (replacing : Bool)
      → Returns
          (λ c. c.locals.replacing ≡ replacing)
          (λ s. (b : Bool) × (s ≡ settled env b replacing r))
          (commit_settle env credential r)
  unfolding commit_settle change_locals
  commit_settle-Returns credential r replacing =
      Returns-after (IsTotal-change_locals _) (record { at = λ c h. h })
        λ u. Returns-locals _ λ c h.
          Returns-after {R = λ c. Unit} IsTotal-finish (record { at = λ c h. tt })
            λ finished.
              Returns-after {R = λ c. Unit} (IsTotal-change_locals _) (record { at = λ c h. tt })
                λ u.
                  Returns-after {R = λ c. Unit} IsTotal-get_lease (record { at = λ c h. tt })
                    λ l.
                      Returns-after {R = λ c. Unit}
                        (IsTotal-if _ _ _ (IsTotal-change_locals _) (IsTotal-pure _))
                        (record { at = λ c h. tt })
                        λ u. Returns-pure _ (finished, ap (λ t. settled env finished t r) h)

  -- No rename is called behind the try block.
  commit_settle-renamed :
      (n : ℕ) (entered credential : Bool) (r : Result (Unit {0})) (c : Context)
      → IsAt renames n entered c
      → renamed (commit_settle env credential r c).1.history ≡ n
  commit_settle-renamed n entered credential r c h =
      ((Keeps-commit_settle env (At-IsCalm env renames-IsCommitting n entered) credential r).at c
        h).made

  same-renamed :
      (n : ℕ) (credential : Bool) (r : Result (Unit {0})) (c : Context)
      → IsTried n r c
      → renamed (commit_settle env credential r c).1.history ≡ renamed c.history
  same-renamed n credential (done u) c h =
      commit_settle-renamed _ true credential _ c h ∙ sym h.made
  same-renamed n credential (raised e) c (inl (x, h)) =
      commit_settle-renamed _ false credential _ c h ∙ sym h.made
  same-renamed n credential (raised e) c (inr (x, h)) =
      commit_settle-renamed _ true credential _ c h ∙ sym h.made

  commit_lease-IsDecided :
      (credential : Bool) (input : Bytes) (c : Context)
      → c.locals.replacing ≡ false
      → let r = commit_lease env credential input c in
        IsDecided (renamed c.history) (returned_status r.0) r.1.history
  unfolding commit_lease attempt ◌>>=◌
  commit_lease-IsDecided credential input c h =
      let n = renamed c.history in
      let r = (commit_try env input c).0 in
      let c1 = (commit_try env input c).1 in
      let c2 = (commit_settle env credential r c1).1 in
      let tried = (commit_try-Tries env n input).at c (record { made = refl; marked = λ e. cc }) in
      let (s, e, q) = (commit_settle-Returns credential r c1.locals.replacing).at c1 refl in
      let decided =
        settled-IsDecided env n q.0 r c1 c2 tried (same-renamed n credential r c1 tried) in
      subst (λ s. IsDecided n s c2.history) (sym (ap returned_status e ∙ q.1)) decided

-- A `commit` whose ticket matches, whatever the operating system does: if it returns ok, exactly one
-- call that renames was made, deletions not counted; if it returns neither ok nor COMMIT_UNKNOWN, none
-- was; and never more than one was.
pub commit_found-IsDecided :
    (env : Environment) (ticket : ℕ) (credential : Bool) (input : Bytes) (slot : ℕ) (l : Lease)
    (w : World)
    → ticket_matches env ticket credential l ≡ true
    → let r = commit_found env ticket credential input (some (slot, l)) w in
      IsDecided (renamed w.history) r.0 r.2.history
unfolding commit_found
commit_found-IsDecided env ticket credential input slot l w =
    let n = renamed w.history in
    let Goal = λ (r : Status × CommitDiagnostic × World).
      ticket_matches env ticket credential l ≡ true → IsDecided n r.0 r.2.history in
    if-both Goal (not (ticket_matches env ticket credential l))
      (λ e h. absurd (ground (arith, e, h)))
      (λ e h. commit_lease-IsDecided env credential input (enter w l) refl)
