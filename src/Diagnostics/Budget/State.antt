-- ===== src/Diagnostics/Budget/State.antt =====
-- windows/external_native/diagnostics/l1_crypto_probe.h, the fields of `L1CryptoLedger`, its stop and its
-- budget of calls.
use shiroha_quiz.Base.{
  ℕ, ◌-◌, ◌^◌, Bool, true, false, ◌||◌, List, [], ◌∷◌, leb, if◌then◌else◌, get_or, set, replicate,
  codes, Bytes, bytes_eq,
}
use shiroha_quiz.Diagnostics.Native.{inc, CallCounts, no_counts}

abbrev pub minus_one : ℕ
minus_one = 2 ^ 32 - 1

-- The statuses of the native core that the ledger names.
abbrev pub native_ok : ℕ
native_ok = 0

abbrev pub verification_rejected : ℕ
verification_rejected = 8

abbrev pub step_names : List Bytes
step_names =
    codes "abi"
    ∷ codes "gen_issuer"
    ∷ codes "gen_server"
    ∷ codes "gen_client"
    ∷ codes "sign_issuer_cert"
    ∷ codes "sign_server_cert"
    ∷ codes "sign_client_cert"
    ∷ codes "verify_issuer_valid"
    ∷ codes "verify_server_valid"
    ∷ codes "verify_client_valid"
    ∷ codes "verify_issuer_tampered"
    ∷ codes "verify_server_tampered"
    ∷ codes "verify_client_tampered"
    ∷ codes "policy_server_valid"
    ∷ codes "policy_client_valid"
    ∷ codes "policy_role_mismatch"
    ∷ []

pub data PrimitiveCategory : Type 0 where
  abi_category generate_key_category encode_sign_category : PrimitiveCategory
  verify_positive verify_negative policy_positive policy_negative : PrimitiveCategory

pub record Ledger : Type 0 where
  pub attempted_steps : ℕ
  pub returned_steps : ℕ
  pub completed_steps : ℕ
  pub attempted : ℕ
  pub returned : ℕ
  pub completed : ℕ
  pub successful : ℕ
  pub accepted : ℕ
  pub abi_reserved : ℕ
  pub generate_reserved : ℕ
  pub encode_sign_reserved : ℕ
  pub verify_reserved : ℕ
  pub verify_positive_reserved : ℕ
  pub verify_negative_reserved : ℕ
  pub policy_reserved : ℕ
  pub budget_rejections : ℕ
  pub abi_calls : List CallCounts
  pub abi_attempted_total : ℕ
  pub allowed_symbol_resolutions : ℕ
  pub forbidden_symbol_attempts : ℕ
  pub buffers_allocated : ℕ
  pub buffers_live : ℕ
  pub releases_attempted : ℕ
  pub releases_succeeded : ℕ
  pub releases_unknown : ℕ
  pub duplicate_release_attempts : ℕ
  pub observation_attempts : ℕ
  pub observation_failures : ℕ
  pub samples : ℕ
  pub peak_working_set : ℕ
  pub peak_commit : ℕ
  pub handles_first : ℕ
  pub handles_last : ℕ
  pub handles_max_sampled : ℕ
  pub working_set_limit_bytes : ℕ
  pub commit_limit_bytes : ℕ
  pub handle_limit : ℕ
  pub max_elapsed_ms : ℕ
  pub clock_initialized : Bool
  pub start_ms : ℕ
  pub last_ms : ℕ
  pub elapsed_ms : ℕ
  pub stopped : Bool
  pub settlement_unknown : Bool
  pub first_failure : Bytes
  pub failure_code : Bytes
  pub first_status : ℕ

abbrev pub new_ledger : Ledger
new_ledger = record {
  attempted_steps = 0;
  returned_steps = 0;
  completed_steps = 0;
  attempted = 0;
  returned = 0;
  completed = 0;
  successful = 0;
  accepted = 0;
  abi_reserved = 0;
  generate_reserved = 0;
  encode_sign_reserved = 0;
  verify_reserved = 0;
  verify_positive_reserved = 0;
  verify_negative_reserved = 0;
  policy_reserved = 0;
  budget_rejections = 0;
  abi_calls = replicate 7 no_counts;
  abi_attempted_total = 0;
  allowed_symbol_resolutions = 0;
  forbidden_symbol_attempts = 0;
  buffers_allocated = 0;
  buffers_live = 0;
  releases_attempted = 0;
  releases_succeeded = 0;
  releases_unknown = 0;
  duplicate_release_attempts = 0;
  observation_attempts = 0;
  observation_failures = 0;
  samples = 0;
  peak_working_set = 0;
  peak_commit = 0;
  handles_first = 0;
  handles_last = 0;
  handles_max_sampled = 0;
  working_set_limit_bytes = 0;
  commit_limit_bytes = 0;
  handle_limit = 0;
  max_elapsed_ms = 30000;
  clock_initialized = false;
  start_ms = 0;
  last_ms = 0;
  elapsed_ms = 0;
  stopped = false;
  settlement_unknown = false;
  first_failure = codes "none";
  failure_code = codes "NONE";
  first_status = 0;
}

abbrev pub calls_at : ℕ → Ledger → CallCounts
calls_at i l = get_or l.abi_calls i no_counts

abbrev pub count_abi : ℕ → (CallCounts → CallCounts) → Ledger → Ledger
count_abi i f l = record l { abi_calls = set l.abi_calls i (f (calls_at i l)) }

-- `stop`: the first failure is kept. No caller passes a null text.
unfoldable pub stop : Bytes → ℕ → Bytes → Ledger → Ledger
stop step status code l = record l {
  first_failure = if l.stopped then l.first_failure else step;
  first_status = if l.stopped then l.first_status else status;
  failure_code = if l.stopped then l.failure_code else code;
  settlement_unknown = l.settlement_unknown || bytes_eq code (codes "SETTLEMENT_UNKNOWN");
  stopped = true;
}

-- `reserve_abi`: an attempt is counted before it is made, and never given back.
unfoldable pub reserve_abi : ℕ → ℕ → Ledger → Bool × Ledger
unfolding stop
reserve_abi index limit l =
    if leb 106 l.abi_attempted_total || leb limit (calls_at index l).attempted
    then (
      false,
      stop (codes "abi_call_budget_exceeded") minus_one (codes "BUDGET_EXCEEDED")
          (record l { budget_rejections = inc l.budget_rejections }),
    )
    else (
      true,
      count_abi index (λ c. record c { attempted = inc c.attempted })
          (record l { abi_attempted_total = inc l.abi_attempted_total }),
    )
