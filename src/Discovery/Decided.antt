-- ===== src/Discovery/Decided.antt =====
-- What a failed discovery operation says of the rename.
use shiroha_quiz.Base.{
  ℕ, ◌≡◌, refl, ◌∙◌, Bool, true, false, not, ◌&&◌, arith, Bytes, if-both, if◌then◌else◌, ◌⊎◌, inl,
  inr, length,
}
use shiroha_quiz.Status.{Status, is_ok, commit_unknown}
use shiroha_quiz.Memory.{store, copy}
use shiroha_quiz.Machine.{
  ◌>>◌, Environment, Lease, Context, Result, Action, perform, pure, ◌>>=◌, get_locals,
  change_locals, change_memory, change_lease, Place,
}
use shiroha_quiz.Machine.Keeps.{
  Keeps, ◌▹◌, Keeps-held_at, Keeps-get_lease, Keeps-settle, Keeps-attempt, Keeps-ask,
}
use shiroha_quiz.Machine.Runs.{
  IsTotal, IsTotal-attempt, IsTotal-bind, IsTotal-pure, IsTotal-close_if, IsTotal-change_lease,
  IsTotal-change_locals,
}
use shiroha_quiz.Machine.Leads.{Leads, Leads-kept, Leads-after, Ends, Ends-after}
use shiroha_quiz.Leases.Accounts.{commits}
use shiroha_quiz.Leases.Stable.{IsCalm}
use shiroha_quiz.Leases.Progress.{commits-IsCommitting, committed, IsAt, At-IsCalm}
use shiroha_quiz.Owners.{World, enter, returned_status}
use shiroha_quiz.Discovery.{Found, rename_scratch, close_local, close_locals, discovery_lease}
use shiroha_quiz.Discovery.Steps.{Keeps-discovery_try, Keeps-close_locals}

-- As long as `replacing` is not set, no call that renames was made since there were `n`.
record IsHonest (n : ℕ) (c : Context) : Type 0 where
  pub untouched : c.locals.replacing ≡ false → committed c.history ≡ n

-- Whatever keeps both counts as they are keeps it.
IsHonest-after :
    (n : ℕ) (c c' : Context) (b : Bool)
    → c.locals.replacing ≡ b
    → IsHonest n c
    → IsAt commits (committed c.history) b c'
    → IsHonest n c'
IsHonest-after n c c' true e h a = record { untouched = λ f. absurd (cc (f, a.marked refl)) }
IsHonest-after n c c' false e h a = record { untouched = λ f. a.made ∙ h.untouched e }

Honest-of {ℓ} :
    {A : Type ℓ} (n : ℕ) (m : Action A)
    → ((k : ℕ) (b : Bool) → Keeps (IsAt commits k b) m)
    → Keeps (IsHonest n) m
Honest-of n m keeps = record {
  at = λ c h. IsHonest-after n c (m c).1 c.locals.replacing refl h (
      (keeps (committed c.history) c.locals.replacing).at c
        (record { made = refl; marked = λ e. e }));
}

module _ (env : Environment) (n : ℕ) where
  Honest-IsCalm : IsCalm env (IsHonest n)
  Honest-IsCalm =
      let base = λ (k : ℕ) (b : Bool). At-IsCalm env commits-IsCommitting k b in
      record {
        quiet = λ call o e x. Honest-of n _ λ k b. (base k b).quiet call o e x;
        open_call =
            λ p call place o e x. Honest-of n _ λ k b. (base k b).open_call p call place o e x;
        close_call =
            λ t call p place e o x. Honest-of n _ λ k b. (base k b).close_call t call p place e o x;
        lease_change = λ f tame. Honest-of n _ λ k b. (base k b).lease_change f tame;
        locals_change = λ f tame. Honest-of n _ λ k b. (base k b).locals_change f tame;
        memory_change = λ f. Honest-of n _ λ k b. (base k b).memory_change f;
        move = λ f m c h. IsHonest-after n c (f c) c.locals.replacing refl h (
            (base (committed c.history) c.locals.replacing).move f m c
              (record { made = refl; marked = λ e. e }));
      }

  rename_scratch-marks :
      (f : Found) (kind : ℕ)
      → Leads (IsHonest n) (λ c. c.locals.replacing ≡ true) (rename_scratch env f kind)
  unfolding rename_scratch change_locals perform
  rename_scratch-marks f kind =
      Leads-after (IsTotal-change_locals _) (record { at = λ c h. refl })
        λ u. Leads-kept (
          Keeps-held_at _ ▹ λ h.
          Keeps-get_lease ▹ λ l. (Keeps-ask _ _ λ c h. h) ▹ λ a. Keeps-settle _)

  -- `replacing` is set before the call that renames.
  rename_scratch-IsHonest : (f : Found) (kind : ℕ) → Keeps (IsHonest n) (rename_scratch env f kind)
  rename_scratch-IsHonest f kind = record {
    at = λ c h. record { untouched = λ e. absurd (cc (e, (rename_scratch-marks f kind).at c h)) };
  }

  -- What a result other than ok says, of `n` calls that rename before.
  abbrev IsCertain : Result Status → Context → Type 0
  IsCertain r c =
      is_ok (returned_status r) ≡ false
      → (committed c.history ≡ n) ⊎ ((returned_status r ≡ commit_unknown) × (c.lease.denied ≡ true))

  IsTotal-close_local : (p : Place) → IsTotal (close_local env p)
  unfolding close_local
  IsTotal-close_local p =
      IsTotal-bind (IsTotal-close_if _ _ _ _)
        λ closed. IsTotal-bind (IsTotal-change_lease _) λ u. IsTotal-pure _

  IsTotal-close_locals : (s : Status) → IsTotal (close_locals env s)
  unfolding close_locals
  IsTotal-close_locals s = IsTotal-bind (IsTotal-close_local _) λ a.
      IsTotal-bind (IsTotal-close_local _)
        λ b. IsTotal-bind (IsTotal-close_local _) λ d. IsTotal-pure _

  -- The end of the operation, with the status of the closes.
  discovery_end :
      (output written : ℕ) (publish : Bool) (s : Status)
      → Ends (IsHonest n) IsCertain (do
        locals ← get_locals
        (if locals.replacing && not (is_ok s)
            then (do change_lease (λ l. record l { denied = true }); pure commit_unknown)
            else (do
              (if not publish && is_ok s
                  then change_memory
                      (λ m. store written (length locals.bytes) (copy output locals.bytes m))
                  else pure tt)
              pure s)))
  unfolding ◌>>=◌ get_locals change_lease change_memory pure
  discovery_end output written publish s = record {
    at = λ c h.
        if-both (λ (m : Action Status). IsCertain (m c).0 (m c).1)
          (c.locals.replacing && not (is_ok s)) (λ e f. inr (refl, refl))
          (λ e.
            if-both
              (λ (m : Action (Unit {0})).
                IsCertain ((m >>= λ u. pure s) c).0 ((m >>= λ u. pure s) c).1)
              (not publish && is_ok s) (λ t f. inl (h.untouched (ground (arith, e, f))))
              (λ t f. inl (h.untouched (ground (arith, e, f)))));
  }

  discovery_lease-IsCertain :
      (kind : ℕ) (input : Bytes) (output written : ℕ) (publish : Bool)
      → Ends (IsHonest n) IsCertain (discovery_lease env kind input output written publish)
  unfolding discovery_lease
  discovery_lease-IsCertain kind input output written publish =
      Ends-after (IsTotal-attempt _)
        (Leads-kept (
          Keeps-attempt _
            (Keeps-discovery_try env Honest-IsCalm rename_scratch-IsHonest kind input publish)))
        λ r.
          Ends-after (IsTotal-close_locals _) (Leads-kept (Keeps-close_locals env Honest-IsCalm _))
            λ s. discovery_end output written publish s

-- A discovery call whose status is not ok, whatever the operating system does: no call that renames was
-- made, or the status is COMMIT_UNKNOWN and the lease that is left is denied.
pub discovery_lease-unknown :
    (env : Environment) (kind : ℕ) (input : Bytes) (output written : ℕ) (publish : Bool) (w : World)
    (l : Lease)
    → is_ok (returned_status (discovery_lease env kind input output written publish (enter w l)).0)
      ≡ false
    → let (r, c) = discovery_lease env kind input output written publish (enter w l) in
      (committed c.history ≡ committed w.history)
      ⊎ ((returned_status r ≡ commit_unknown) × (c.lease.denied ≡ true))
discovery_lease-unknown env kind input output written publish w l e =
    (discovery_lease-IsCertain env (committed w.history) kind input output written publish).at
      (enter w l) (record { untouched = λ f. refl }) e
