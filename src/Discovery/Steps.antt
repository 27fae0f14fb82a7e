-- ===== src/Discovery/Steps.antt =====
-- The discovery operation keeps every invariant that withstands the changes of the state.
use shiroha_quiz.Base.{ℕ, refl, Bool, true, false, arith, Bytes}
use shiroha_quiz.Status.{Status, missing}
use shiroha_quiz.Objects.{Sid, ObjectInfo}
use shiroha_quiz.Machine.{
  Environment, Context, Outcome, returned, Result, done, raised, failed, bad_alloc, exception,
  Place,
}
use shiroha_quiz.Machine.Keeps.{
  Keeps, ◌▹◌, Keeps-require, Keeps-pure, Keeps-raise, Keeps-settle, Keeps-attempt, Keeps-if,
  Keeps-get_lease, Keeps-get_locals, Keeps-held_at,
}
use shiroha_quiz.Leases.Stable.{IsPlace, frame-IsPlace, IsCalm, IsStable}
use shiroha_quiz.Leases.Covered.{discovery-IsPlace, observed-IsPlace}
use shiroha_quiz.Leases.Steps.{
  Keeps-perform, Keeps-commit_call, Keeps-observe, Keeps-update, Keeps-update_locals,
  Keeps-quarantine_unless, Keeps-check, close_at,
}
use shiroha_quiz.Exchange.{file_place}
use shiroha_quiz.Exchange.Steps.{file-IsPlace, Keeps-deny_failed}
use shiroha_quiz.Discovery.{
  scratch_place, Found, present, absent, rethrow, settle_closed, pin_discovery, inspect_discovery,
  discovery_directory, close_local, inspect_file, open_discovery, inspect_same, require_content,
  read_present, find_present, find_file, write_scratch, recheck_absent, recheck_name,
  prepare_rename, close_file, rename_scratch, publish_file, publish_found, discovery_try,
  close_locals, discovery_lease,
}

scratch-IsPlace : IsPlace scratch_place
scratch-IsPlace = frame-IsPlace scratch_place (λ n h c. omega arith) (λ c es. refl) (λ h c. refl)

module _ {P : Context → Type 0} (env : Environment) (stable : IsCalm env P) where
  open stable use {quiet, open_call, memory_change}

  Keeps-rethrow {ℓ} : {A : Type ℓ} (r : Result A) → Keeps P (rethrow r)
  Keeps-rethrow (done a) = Keeps-pure _
  Keeps-rethrow (raised (failed s)) = Keeps-pure _
  Keeps-rethrow (raised bad_alloc) = Keeps-raise _
  Keeps-rethrow (raised exception) = Keeps-raise _

  Keeps-settle_closed {ℓ} :
      {A : Type ℓ} (closed : Bool) (r : Result A) → Keeps P (settle_closed closed r)
  Keeps-settle_closed false r = Keeps-raise _
  Keeps-settle_closed true (done a) = Keeps-pure _
  Keeps-settle_closed true (raised r) = Keeps-raise _

  Keeps-pin_discovery : (sid : Sid) → Keeps P (pin_discovery env sid)
  unfolding pin_discovery
  Keeps-pin_discovery sid = Keeps-get_lease ▹ λ l.
      open_call _ _ discovery-IsPlace refl refl refl ▹ λ o. Keeps-settle _ ▹ λ u.
      Keeps-get_lease ▹ λ l. Keeps-require _ _ ▹ λ u. quiet _ refl refl refl ▹ λ answer.
      Keeps-update env stable _ _ _ _ _ _ _ _ ▹ λ u. Keeps-settle _

  Keeps-inspect_discovery : (sid : Sid) → Keeps P (inspect_discovery env sid)
  unfolding inspect_discovery
  Keeps-inspect_discovery sid = Keeps-get_lease ▹ λ l.
      Keeps-if _ _ _ (Keeps-pin_discovery sid) (Keeps-pure _) ▹ λ u.
      Keeps-get_lease ▹ λ l. Keeps-observe env stable _ ▹ λ current. Keeps-require _ _

  Keeps-discovery_directory : Keeps P (discovery_directory env)
  unfolding discovery_directory
  Keeps-discovery_directory = Keeps-check env stable ▹ λ sid.
      Keeps-attempt _ (Keeps-inspect_discovery sid) ▹ λ r.
      Keeps-deny_failed env stable r ▹ λ u. Keeps-pure _

  Keeps-close_local : (p : Place) → IsPlace p → Keeps P (close_local env p)
  unfolding close_local
  Keeps-close_local p place = close_at env stable _ p place ▹ λ closed.
      Keeps-quarantine_unless env stable _ ▹ λ u. Keeps-pure _

  Keeps-inspect_file : (sid : Sid) (p : Place) → Keeps P (inspect_file env sid p)
  unfolding inspect_file
  Keeps-inspect_file sid p = Keeps-held_at p ▹ λ h. Keeps-require _ _ ▹ λ u.
      Keeps-observe env stable _ ▹ λ info.
      Keeps-get_lease ▹ λ l. Keeps-require _ _ ▹ λ u. Keeps-pure _

  Keeps-open_discovery : (p : Place) (kind : ℕ) → IsPlace p → Keeps P (open_discovery env p kind)
  unfolding open_discovery
  Keeps-open_discovery p kind place = Keeps-get_lease ▹ λ l. open_call p _ place refl refl refl

  Keeps-inspect_same :
      (sid : Sid) (p : Place) (identity : ObjectInfo) → Keeps P (inspect_same env sid p identity)
  unfolding inspect_same
  Keeps-inspect_same sid p identity = Keeps-inspect_file sid p ▹ λ info. Keeps-require _ _

  Keeps-read_present :
      (kind : ℕ) (input : Bytes) (publish : Bool) (sid : Sid)
      → Keeps P (read_present env kind input publish sid)
  unfolding read_present require_content
  Keeps-read_present kind input publish sid = Keeps-inspect_file sid file_place ▹ λ identity.
      Keeps-held_at _ ▹ λ file. quiet _ refl refl refl ▹ λ answer.
      Keeps-update_locals env stable _ _ _ ▹ λ u. Keeps-settle _ ▹ λ u. Keeps-require _ _ ▹ λ u.
      Keeps-inspect_same sid _ identity ▹ λ u. Keeps-require _ _ ▹ λ u.
      Keeps-open_discovery _ kind observed-IsPlace ▹ λ o.
      Keeps-settle _ ▹ λ u. Keeps-inspect_same sid _ identity ▹ λ u. Keeps-pure _

  Keeps-find_present :
      (kind : ℕ) (input : Bytes) (publish : Bool) (r : Result Sid)
      → Keeps P (find_present env kind input publish r)
  unfolding find_present
  Keeps-find_present kind input publish (done sid) =
      Keeps-read_present kind input publish sid ▹ λ identity. Keeps-pure _
  Keeps-find_present kind input publish (raised (failed missing)) =
      Keeps-held_at _ ▹ λ file. Keeps-require _ _ ▹ λ u. Keeps-pure _
  Keeps-find_present kind input publish (raised r) = Keeps-raise _

  Keeps-find_file :
      (kind : ℕ) (input : Bytes) (publish : Bool) → Keeps P (find_file env kind input publish)
  unfolding find_file
  Keeps-find_file kind input publish =
      Keeps-attempt _ (
        Keeps-discovery_directory ▹ λ sid.
        Keeps-open_discovery _ kind file-IsPlace ▹ λ o. Keeps-settle _ ▹ λ u. Keeps-pure _)
      ▹ λ r. Keeps-find_present kind input publish r

  Keeps-write_scratch : (input : Bytes) → Keeps P (write_scratch env input)
  unfolding write_scratch
  Keeps-write_scratch input = Keeps-discovery_directory ▹ λ sid. Keeps-get_lease ▹ λ l.
      quiet _ refl refl refl ▹ λ a. Keeps-settle _ ▹ λ u. Keeps-require _ _ ▹ λ u.
      quiet _ refl refl refl ▹ λ a. Keeps-settle _ ▹ λ u. Keeps-require _ _ ▹ λ u.
      Keeps-update env stable _ _ _ _ _ _ _ _ ▹ λ u. Keeps-get_lease ▹ λ l.
      open_call _ _ scratch-IsPlace refl refl refl ▹ λ o. Keeps-settle _ ▹ λ u.
      Keeps-inspect_file sid _ ▹ λ temp. Keeps-held_at _ ▹ λ h.
      Keeps-perform env stable _ refl refl refl ▹ λ u.
      Keeps-perform env stable _ refl refl refl ▹ λ u.
      Keeps-inspect_same sid _ temp ▹ λ u. Keeps-pure _

  Keeps-recheck_absent : (o : Outcome) → Keeps P (recheck_absent env o)
  unfolding recheck_absent
  Keeps-recheck_absent (returned missing) = Keeps-held_at _ ▹ λ h. Keeps-require _ _
  Keeps-recheck_absent (returned s) = Keeps-raise _
  Keeps-recheck_absent o = Keeps-settle _

  Keeps-recheck_name : (f : Found) (kind : ℕ) (sid : Sid) → Keeps P (recheck_name env f kind sid)
  unfolding recheck_name
  Keeps-recheck_name absent kind sid =
      Keeps-open_discovery _ kind observed-IsPlace ▹ λ o. Keeps-recheck_absent o
  Keeps-recheck_name (present identity) kind sid =
      Keeps-open_discovery _ kind observed-IsPlace ▹ λ o.
      Keeps-settle _ ▹ λ u. Keeps-inspect_same sid _ identity

  Keeps-prepare_rename :
      (f : Found) (kind : ℕ) (input : Bytes) → Keeps P (prepare_rename env f kind input)
  unfolding prepare_rename
  Keeps-prepare_rename f kind input = Keeps-write_scratch input ▹ λ temp.
      Keeps-discovery_directory ▹ λ sid. Keeps-recheck_name f kind sid ▹ λ u. Keeps-pure _

  Keeps-close_file : (closed : Bool) → Keeps P (close_file env closed)
  unfolding close_file
  Keeps-close_file closed = Keeps-if _ _ _ (Keeps-close_local _ file-IsPlace) (Keeps-pure _)

  pub Keeps-close_locals : (s : Status) → Keeps P (close_locals env s)
  unfolding close_locals
  Keeps-close_locals s = Keeps-close_local _ observed-IsPlace ▹ λ a.
      Keeps-close_local _ file-IsPlace ▹ λ b.
      Keeps-close_local _ scratch-IsPlace ▹ λ d. Keeps-pure _

module _ {P : Context → Type 0} (env : Environment) (stable : IsStable env P) where
  open stable use {mark}

  pub Keeps-rename_scratch : (f : Found) (kind : ℕ) → Keeps P (rename_scratch env f kind)
  unfolding rename_scratch
  Keeps-rename_scratch f kind =
      mark ▹ λ u. Keeps-held_at _ ▹ λ h. Keeps-get_lease ▹ λ l. Keeps-commit_call env stable _ refl

-- Whatever withstands the rename withstands all of it.
module _ {P : Context → Type 0} (env : Environment) (calm : IsCalm env P)
    (rename : (f : Found) (kind : ℕ) → Keeps P (rename_scratch env f kind)) where
  open calm use {memory_change}

  Keeps-publish_file :
      (f : Found) (kind : ℕ) (input : Bytes) → Keeps P (publish_file env f kind input)
  unfolding publish_file
  Keeps-publish_file f kind input =
      Keeps-attempt _ (Keeps-prepare_rename env calm f kind input) ▹ λ tried.
      Keeps-rethrow env calm tried ▹ λ prepared.
      Keeps-close_local env calm _ observed-IsPlace ▹ λ a. Keeps-close_file env calm a ▹ λ b.
      Keeps-attempt _ (Keeps-settle_closed env calm _ _ ▹ λ p. rename f kind ▹ λ u. Keeps-pure _)
      ▹ λ renaming. Keeps-rethrow env calm renaming ▹ λ renamed.
          Keeps-close_local env calm _ scratch-IsPlace ▹ λ d.
          Keeps-settle_closed env calm _ _ ▹ λ p.
          Keeps-open_discovery env calm _ kind file-IsPlace ▹ λ o.
          Keeps-settle _ ▹ λ u. Keeps-inspect_same env calm _ _ _

  Keeps-publish_found :
      (f : Found) (kind : ℕ) (input : Bytes) (publish : Bool)
      → Keeps P (publish_found env f kind input publish)
  unfolding publish_found
  Keeps-publish_found absent kind input publish =
      Keeps-if _ _ _ (Keeps-publish_file absent kind input) (Keeps-raise _)
  Keeps-publish_found (present identity) kind input publish =
      Keeps-if _ _ _ (Keeps-publish_file (present identity) kind input) (Keeps-pure _)

  pub Keeps-discovery_try :
      (kind : ℕ) (input : Bytes) (publish : Bool) → Keeps P (discovery_try env kind input publish)
  unfolding discovery_try
  Keeps-discovery_try kind input publish =
      Keeps-attempt _ (Keeps-find_file env calm kind input publish) ▹ λ tried.
      Keeps-rethrow env calm tried ▹ λ looked.
      Keeps-close_local env calm _ observed-IsPlace ▹ λ closed.
      Keeps-settle_closed env calm _ _ ▹ λ found.
      Keeps-publish_found found kind input publish ▹ λ u.
      Keeps-discovery_directory env calm ▹ λ last. Keeps-pure _

  pub Keeps-discovery_lease :
      (kind : ℕ) (input : Bytes) (output written : ℕ) (publish : Bool)
      → Keeps P (discovery_lease env kind input output written publish)
  unfolding discovery_lease
  Keeps-discovery_lease kind input output written publish =
      Keeps-attempt _ (Keeps-discovery_try kind input publish) ▹ λ r.
      Keeps-close_locals env calm _ ▹ λ s. Keeps-get_locals ▹ λ v.
      Keeps-if _ _ _ (Keeps-update env calm _ _ _ _ _ _ _ _ ▹ λ u. Keeps-pure _)
        (Keeps-if _ _ _ (memory_change _) (Keeps-pure _) ▹ λ u. Keeps-pure _)
