-- ===== src/Diagnostics/Grants.antt =====
-- windows/external_native/diagnostics/l1_crypto_admission.h, the target of a grant and the cell that
-- holds it. A text is its bytes; the times are of 64 bits.
mod Identity
pub mod Issued
pub mod Once
pub mod Refined
use shiroha_quiz.Base.{
  ℕ, ◌-◌, Bool, true, false, not, ◌&&◌, ◌||◌, List, [], ◌∷◌, ltb, leb, ◌==◌, if◌then◌else◌, all,
  is_empty, length, codes, Bytes, bytes_eq, replicate,
}
use shiroha_quiz.Diagnostics.Native.{inc}
use shiroha_quiz.Diagnostics.Budget.{abi_limits}

abbrev between : ℕ → ℕ → ℕ → Bool
between low high c = leb low c && leb c high

abbrev safe_char : ℕ → Bool
safe_char c =
    between 97 122 c || (between 65 90 c || (between 48 57 c || (c == 45 || (c == 95 || c == 46))))

unfoldable pub safe_id : Bytes → Bool
safe_id value = not (is_empty value || ltb 80 (length value)) && all safe_char value

unfoldable pub hex_digest : Bytes → ℕ → Bool
hex_digest value size = length value == size && all (λ c. between 48 57 c || between 97 102 c) value

pub record GrantTarget : Type 0 where
  pub batch_id : Bytes
  pub device_id : Bytes
  pub account_identity_sha256 : Bytes
  pub source_sha : Bytes
  pub base_sha : Bytes
  pub exe_sha256 : Bytes
  pub dependency_manifest_sha256 : Bytes
  pub compiler_id : Bytes
  pub os_id : Bytes
  pub toolchain_manifest_sha256 : Bytes
  pub stop_owner : Bytes
  pub recovery_owner : Bytes
  pub evidence_owner : Bytes
  pub evidence_scope_id : Bytes
  pub reviewer_id : Bytes
  pub verifier_id : Bytes
  pub review_sha256 : Bytes
  pub verification_sha256 : Bytes
  pub user_approval_id : Bytes
  pub user_scope : Bytes
  pub non_elevated : Bool
  pub reviewer_approved : Bool
  pub verifier_approved : Bool
  pub evidence_output_approved : Bool
  pub user_approved : Bool
  pub working_set_bytes : ℕ
  pub commit_bytes : ℕ
  pub handles : ℕ
  pub window_start_ms : ℕ
  pub window_end_ms : ℕ
  pub max_execution_ms : ℕ
  pub granted : List ℕ

-- A new target; `granted` is the field `abi_limits`.
abbrev pub new_target : GrantTarget
new_target = record {
  batch_id = [];
  device_id = [];
  account_identity_sha256 = [];
  source_sha = [];
  base_sha = [];
  exe_sha256 = [];
  dependency_manifest_sha256 = [];
  compiler_id = [];
  os_id = [];
  toolchain_manifest_sha256 = [];
  stop_owner = [];
  recovery_owner = [];
  evidence_owner = [];
  evidence_scope_id = [];
  reviewer_id = [];
  verifier_id = [];
  review_sha256 = [];
  verification_sha256 = [];
  user_approval_id = [];
  user_scope = [];
  non_elevated = false;
  reviewer_approved = false;
  verifier_approved = false;
  evidence_output_approved = false;
  user_approved = false;
  working_set_bytes = 0;
  commit_bytes = 0;
  handles = 0;
  window_start_ms = 0;
  window_end_ms = 0;
  max_execution_ms = 30000;
  granted = abi_limits;
}

abbrev pub texts : GrantTarget → List Bytes
texts t =
    t.batch_id ∷ t.device_id ∷ t.account_identity_sha256 ∷ t.source_sha ∷ t.base_sha ∷ t.exe_sha256
    ∷ t.dependency_manifest_sha256 ∷ t.compiler_id ∷ t.os_id ∷ t.toolchain_manifest_sha256
    ∷ t.stop_owner ∷ t.recovery_owner ∷ t.evidence_owner ∷ t.evidence_scope_id ∷ t.reviewer_id
    ∷ t.verifier_id ∷ t.review_sha256 ∷ t.verification_sha256 ∷ t.user_approval_id ∷ t.user_scope
    ∷ []

abbrev pub flag : Bool → ℕ
flag b = if b then 1 else 0

abbrev pub numbers : GrantTarget → List ℕ
numbers t =
    flag t.non_elevated
    ∷ flag t.reviewer_approved
    ∷ flag t.verifier_approved
    ∷ flag t.evidence_output_approved
    ∷ flag t.user_approved
    ∷ t.working_set_bytes
    ∷ t.commit_bytes
    ∷ t.handles
    ∷ t.window_start_ms
    ∷ t.window_end_ms
    ∷ t.max_execution_ms
    ∷ t.granted

unfoldable pub all_eq : List Bytes → List Bytes → Bool
all_eq [] [] = true
all_eq [] (y ∷ ys) = false
all_eq (x ∷ xs) [] = false
all_eq (x ∷ xs) (y ∷ ys) = bytes_eq x y && all_eq xs ys

-- The comparison of two values of `identity`.
unfoldable pub same_identity : GrantTarget → GrantTarget → Bool
unfolding all_eq
same_identity t u = all_eq (texts t) (texts u) && bytes_eq (numbers t) (numbers u)

unfoldable pub is_admission_only : GrantTarget → Bool
is_admission_only t =
    bytes_eq t.user_scope (codes "L1-ADMISSION") && bytes_eq t.granted (replicate 7 0)

abbrev ids : GrantTarget → List Bytes
ids t =
    t.batch_id ∷ t.device_id ∷ t.compiler_id ∷ t.os_id ∷ t.stop_owner ∷ t.recovery_owner
    ∷ t.evidence_owner ∷ t.evidence_scope_id ∷ t.reviewer_id ∷ t.verifier_id ∷ t.user_approval_id
    ∷ []

abbrev digests : GrantTarget → List Bytes
digests t =
    t.account_identity_sha256 ∷ t.exe_sha256 ∷ t.dependency_manifest_sha256
    ∷ t.toolchain_manifest_sha256 ∷ t.review_sha256 ∷ t.verification_sha256 ∷ []

abbrev valid_scope : GrantTarget → Bool
valid_scope t =
    (bytes_eq t.user_scope (codes "L1-CRYPTO") && bytes_eq t.granted abi_limits)
    || is_admission_only t

unfoldable pub structure_complete : GrantTarget → Bool
unfolding safe_id hex_digest is_admission_only
structure_complete t =
    all safe_id (ids t)
    && (all (λ d. hex_digest d 64) (digests t)
        && (hex_digest t.source_sha 40
            && (hex_digest t.base_sha 40
                && (valid_scope t
                    && (t.non_elevated
                        && (t.evidence_output_approved
                            && (not (t.working_set_bytes == 0)
                                && (not (t.commit_bytes == 0)
                                    && (not (t.handles == 0)
                                        && (t.max_execution_ms == 30000
                                            && (ltb t.window_start_ms t.window_end_ms
                                                && leb t.max_execution_ms
                                                    (t.window_end_ms - t.window_start_ms))))))))))))

unfoldable pub valid_pre_approval : GrantTarget → Bool
unfolding structure_complete
valid_pre_approval t = structure_complete t && (t.reviewer_approved && t.verifier_approved)

unfoldable pub valid : GrantTarget → Bool
unfolding valid_pre_approval
valid t = valid_pre_approval t && t.user_approved

-- Whether a run that starts at `now` may take its time within the window of the target.
abbrev pub out_of_window : GrantTarget → ℕ → Bool
out_of_window t now =
    ltb now t.window_start_ms
    || (leb t.window_end_ms now || ltb (t.window_end_ms - now) t.max_execution_ms)

pub data GrantState : Type 0 where
  unissued issued consumed expired mismatch unknown rejected : GrantState

-- `FakeGrantCell`.
pub record Cell : Type 0 where
  pub state : GrantState
  pub attempts : ℕ
  pub target : GrantTarget

abbrev pub new_cell : Cell
new_cell = record { state = unissued; attempts = 0; target = new_target }

abbrev pub is_unissued : GrantState → Bool
is_unissued unissued = true
is_unissued s = false

abbrev pub is_issued : GrantState → Bool
is_issued issued = true
is_issued s = false

unfoldable pub issue : GrantTarget → Cell → Bool × Cell
unfolding valid
issue t c =
    if not (is_unissued c.state)
    then (false, c)
    else if not (valid t)
    then (false, record c { state = rejected })
    else (true, record c { target = t; state = issued })

-- The argument `uncertain` stands for `simulate_unknown_write`.
unfoldable pub consume : GrantTarget → ℕ → Bool → Cell → Bool × Cell
unfolding valid same_identity
consume observed now uncertain c =
    if not (is_issued c.state)
    then (false, c)
    else (let c' = record c { attempts = inc c.attempts; state = consumed } in
        if uncertain
        then (false, record c' { state = unknown })
        else if not (valid observed) || not (same_identity observed c.target)
        then (false, record c' { state = mismatch })
        else if out_of_window c.target now
        then (false, record c' { state = expired })
        else (true, c'))
