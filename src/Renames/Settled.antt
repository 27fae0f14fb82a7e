-- ===== src/Renames/Settled.antt =====
-- When a rename counts as done.
use shiroha_quiz.Base.{
  ℕ, ◌≡◌, refl, Bool, false, not, ◌&&◌, ◌||◌, ◌==◌, Option, none, some, if-both, arith, Bytes,
}
use shiroha_quiz.Status.{is_ok}
use shiroha_quiz.Machine.{Handle, usable}
use shiroha_quiz.Renames.{
  RenameInformation, Completion, Rename, completion_status, rename_association, rename_named,
  rename_credential, rename_discovery, discovery_name, credential_name,
}

-- The call left its status block as it was.
abbrev pub Untouched : Rename → Type 0
Untouched call = (h : Handle) (info : RenameInformation) → (call h info).written ≡ none

completion_status-untouched :
    (c : Completion) → c.written ≡ none → is_ok (completion_status c) ≡ false
unfolding completion_status
completion_status-untouched c h = ground (arith, h)

module _ (call : Rename) (untouched : Untouched call) (present : Bool)
    (temporary directory : Handle) where
  named-untouched :
      (replace : Bool) (units size : ℕ) (name : Option Bytes)
      → is_ok (rename_named present call temporary directory replace units size name) ≡ false
  unfolding rename_named
  named-untouched replace units size none = refl
  named-untouched replace units size (some name) =
      if-both (λ s. is_ok s ≡ false)
        (not present || (not (usable temporary) || not (usable directory))) (λ e. refl)
        (λ e. completion_status-untouched _ (untouched _ _))

  -- Where the system call leaves its status block as it was, none of the three renames is a success,
  -- whatever status the call returns.
  pub rename-untouched :
      (kind : ℕ) (existing : Bool)
      → (is_ok (rename_association present call temporary directory existing) ≡ false)
        × (is_ok (rename_credential present call temporary directory kind existing) ≡ false)
        × (is_ok (rename_discovery present call temporary directory kind existing) ≡ false)
  unfolding rename_association rename_credential rename_discovery
  rename-untouched kind existing = (
    if-both (λ s. is_ok s ≡ false)
        (not present || (not (usable temporary) || not (usable directory))) (λ e. refl)
        (λ e. completion_status-untouched _ (untouched _ _)),
    named-untouched existing 11 48 (credential_name kind),
    if-both (λ s. is_ok s ≡ false) (not (kind == 1) && existing) (λ e. refl)
        (λ e. named-untouched existing 16 56 (discovery_name kind)),
  )
