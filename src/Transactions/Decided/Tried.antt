-- ===== src/Transactions/Decided/Tried.antt =====
-- How often the operations before and behind the rename of a commit make the call that renames.
use shiroha_quiz.Base.{ℕ, suc, ◌≡◌, refl, Bool, true, false, arith, Bytes, ◌⊎◌, inl, inr}
use shiroha_quiz.Status.{Status, commit_unknown}
use shiroha_quiz.Objects.{Sid, ObjectInfo}
use shiroha_quiz.Machine.{
  Environment, Lease, Context, Raised, failed, bad_alloc, exception, Result, done, raised, Action,
  ◌>>=◌, ask, perform, change_locals, continue,
}
use shiroha_quiz.Machine.Keeps.{Keeps, Keeps-require, Keeps-settle, Keeps-get_lease}
use shiroha_quiz.Machine.Runs.{IsTotal-change_locals, IsTotal-get_lease}
use shiroha_quiz.Machine.Leads.{Leads, Leads-attempt, Leads-keep, Leads-after, Leads-kept}
use shiroha_quiz.Machine.Raises.{
  Raises, Holds, IsError, settle-IsError, ◌▸◌, Raises-pure, Raises-raise, Raises-require, Raises-if,
  Raises-get_lease, Raises-change_lease, Raises-change_locals, Raises-ask, Raises-open_at,
  Raises-close_if, Raises-attempt,
}
use shiroha_quiz.Leases.Covered.{temporary-IsPlace}
use shiroha_quiz.Leases.Steps.{Keeps-check, Keeps-target_current, Keeps-observe}
use shiroha_quiz.Leases.Errors.{
  check-IsError, target_current-IsError, observe-IsError, perform-IsError,
}
use shiroha_quiz.Leases.Progress.{count_calls, renames, renames-IsCommitting, IsAt, At-IsCalm}
use shiroha_quiz.Transactions.{
  replace_call, or_unknown, publish, validate_published, close_target, write_temporary,
  temporary_name, commit_try,
}
use shiroha_quiz.Transactions.Steps.{
  renames-replace_call, Keeps-set_stage, Keeps-or_unknown, Keeps-validate_published,
  Keeps-temporary_name, Keeps-write_temporary, Keeps-close_target,
}

abbrev pub is_unknown : Status → Bool
is_unknown commit_unknown = true
is_unknown s = false

-- Behind the rename only COMMIT_UNKNOWN and exceptions are raised.
abbrev IsUnclear : Raised → Type 0
IsUnclear (failed s) = s ≡ commit_unknown
IsUnclear bad_alloc = Unit
IsUnclear exception = Unit

module _ (env : Environment) where
  or_unknown-IsUnclear {ℓ} : {A : Type ℓ} (r : Result A) → Raises IsUnclear (or_unknown env r)
  or_unknown-IsUnclear (done a) = Raises-pure _
  or_unknown-IsUnclear (raised (failed s)) = Raises-raise _ refl
  or_unknown-IsUnclear (raised bad_alloc) = Raises-raise _ tt
  or_unknown-IsUnclear (raised exception) = Raises-raise _ tt

  publish-IsUnclear : Raises IsUnclear (publish env)
  unfolding publish
  publish-IsUnclear = Raises-change_locals _ ▸ λ u. Raises-change_locals _ ▸ λ u.
      Raises-get_lease ▸ λ l. Raises-attempt _ ▸ λ r. or_unknown-IsUnclear r

  validate_published-IsUnclear :
      (temp : ObjectInfo) → Raises IsUnclear (validate_published env temp)
  unfolding validate_published
  validate_published-IsUnclear temp = Raises-change_locals _ ▸ λ u.
      Raises-close_if _ _ _ _ ▸ λ closed. Raises-change_lease _ ▸ λ u.
      Raises-require _ _ refl ▸ λ u. Raises-change_locals _ ▸ λ u.
      Raises-change_lease _ ▸ λ u. Raises-attempt _ ▸ λ r. or_unknown-IsUnclear r

  temporary_name-IsError : Raises IsError (temporary_name env)
  unfolding temporary_name
  temporary_name-IsError = Raises-get_lease ▸ λ l. Raises-ask _ _ ▸ λ a. settle-IsError _ ▸ λ u.
      Raises-require _ _ refl ▸ λ u. Raises-ask _ _ ▸ λ a. settle-IsError _ ▸ λ u.
      Raises-require _ _ refl ▸ λ u.
      Raises-change_lease _ ▸ λ u. Raises-get_lease ▸ λ l. Raises-pure _

  write_temporary-IsError :
      (input : Bytes) (sid : Sid) → Raises IsError (write_temporary env input sid)
  unfolding write_temporary
  write_temporary-IsError input sid = Raises-get_lease ▸ λ l. Raises-require _ _ refl ▸ λ u.
      observe-IsError env _ ▸ λ temp. Raises-require _ _ refl ▸ λ u.
      perform-IsError env _ ▸ λ u. perform-IsError env _ ▸ λ u. Raises-pure _

  close_target-IsError : Raises IsError (close_target env)
  unfolding close_target
  close_target-IsError = Raises-get_lease ▸ λ l.
      Raises-if _ _ _ (Raises-change_locals _) (Raises-pure _) ▸ λ u.
      Raises-close_if _ _ _ _ ▸ λ closed. Raises-change_lease _ ▸ λ u. Raises-require _ _ refl

-- The end of the try block of `commit`: it ends well behind one rename; or it raises an error before
-- any; or it raises behind one, which makes the outcome unknown.
abbrev pub IsTried {ℓ} : {A : Type ℓ} → ℕ → Result A → Context → Type 0
IsTried n (done a) c = IsAt renames (suc n) true c
IsTried n (raised e) c =
    (IsError e × IsAt renames n false c) ⊎ (IsUnclear e × IsAt renames (suc n) true c)

IsTried-entered {ℓ} :
    {A : Type ℓ} (n : ℕ) (r : Result A) (c : Context)
    → Holds IsUnclear r
    → IsAt renames (suc n) true c
    → IsTried n r c
IsTried-entered n (done a) c u h = h
IsTried-entered n (raised e) c u h = inr (u, h)

pub record Tries {ℓ} {A : Type ℓ} (n : ℕ) (m : Action A) : Type ℓ where
  pub at : (c : Context) → IsAt renames n false c → IsTried n (m c).0 (m c).1

module _ {n : ℕ} where
  continue-IsTried {ℓ κ} :
      {A : Type ℓ} {B : Type κ} (r : Result A) (f : A → Action B) (c : Context)
      → IsAt renames n false c
      → Holds IsError r
      → ((a : A) → Tries n (f a))
      → IsTried n (continue r f c).0 (continue r f c).1
  continue-IsTried (done a) f c h e k = (k a).at c h
  continue-IsTried (raised r) f c h e k = inl (e, h)

  -- A step before the rename.
  Tries-step {ℓ κ} :
      {A : Type ℓ} {B : Type κ} {m : Action A} {f : A → Action B}
      → Keeps (IsAt renames n false) m
      → Raises IsError m
      → ((a : A) → Tries n (f a))
      → Tries n (m >>= f)
  unfolding ◌>>=◌
  Tries-step {m = m} {f = f} keeps raises k = record {
    at = λ c h. continue-IsTried (m c).0 f (m c).1 (keeps.at c h) (raises.at c) k;
  }

module _ (env : Environment) (n : ℕ) where
  mark-Leads :
      Leads
        (IsAt renames n false)
        (IsAt renames n true)
        (change_locals (λ v. record v { replacing = true }))
  unfolding change_locals
  mark-Leads = record { at = λ c h. record { made = h.made; marked = λ e. refl } }

  ask-Leads :
      (l : Lease)
      → Leads (IsAt renames n true) (IsAt renames (suc n) true) (ask env (replace_call env l))
  unfolding ask count_calls
  ask-Leads l = record {
    at = λ c h. record {
      made = rw (renames-replace_call env l) (omega (arith, h.made));
      marked = h.marked;
    };
  }

  rename-Leads :
      (l : Lease)
      → Leads (IsAt renames n true) (IsAt renames (suc n) true) (perform env (replace_call env l))
  unfolding perform
  rename-Leads l = Leads-keep (ask-Leads l) λ a. Keeps-settle _

  publish-Leads : Leads (IsAt renames n false) (IsAt renames (suc n) true) (publish env)
  unfolding publish
  publish-Leads = Leads-after (IsTotal-change_locals _) mark-Leads λ u.
      Leads-after (IsTotal-change_locals _)
        (Leads-kept (Keeps-set_stage env (At-IsCalm env renames-IsCommitting n true) _))
        λ u. Leads-after IsTotal-get_lease (Leads-kept Keeps-get_lease) λ l.
          Leads-keep (Leads-attempt _ (rename-Leads l))
            λ r. Keeps-or_unknown env (At-IsCalm env renames-IsCommitting (suc n) true) r

  publish-Tries : (temp : ObjectInfo) → Tries n (publish env >>= λ u. validate_published env temp)
  publish-Tries temp = record {
    at = λ c h.
        let m = publish env >>= λ u. validate_published env temp in
        IsTried-entered n (m c).0 (m c).1
          ((publish-IsUnclear env ▸ λ u. validate_published-IsUnclear env temp).at c)
          ((Leads-keep publish-Leads λ u.
              Keeps-validate_published env (At-IsCalm env renames-IsCommitting (suc n) true)
                temp).at
            c h);
  }

  pub commit_try-Tries : (input : Bytes) → Tries n (commit_try env input)
  unfolding commit_try
  commit_try-Tries input =
      let calm = At-IsCalm env renames-IsCommitting n false in
      Tries-step (Keeps-set_stage env calm _) (Raises-change_locals _) λ u.
        Tries-step (Keeps-check env calm) (check-IsError env) λ first.
          Tries-step (Keeps-target_current env calm first) (target_current-IsError env first) λ u.
            Tries-step (Keeps-temporary_name env calm) (temporary_name-IsError env) λ name.
              Tries-step (Keeps-check env calm) (check-IsError env) λ sid.
                Tries-step Keeps-get_lease Raises-get_lease λ l.
                  Tries-step (calm.open_call _ _ temporary-IsPlace refl refl refl)
                    (Raises-open_at _ _ _)
                    λ o. Tries-step (Keeps-settle _) (settle-IsError _) λ u.
                      Tries-step (Keeps-write_temporary env calm input sid)
                        (write_temporary-IsError env input sid)
                        λ temp. Tries-step (Keeps-check env calm) (check-IsError env) λ last.
                          Tries-step (Keeps-target_current env calm last)
                            (target_current-IsError env last)
                            λ u. Tries-step Keeps-get_lease Raises-get_lease λ held.
                              Tries-step (Keeps-observe env calm _) (observe-IsError env _)
                                λ current.
                                  Tries-step (Keeps-require _ _) (Raises-require _ _ refl) λ u.
                                    Tries-step (Keeps-close_target env calm)
                                      (close_target-IsError env) λ u. publish-Tries temp
