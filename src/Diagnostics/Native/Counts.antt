-- ===== src/Diagnostics/Native/Counts.antt =====
-- windows/external_native/diagnostics/l1_native_observation.h, the counts of `NativeObservation` and when they
-- are complete.
use shiroha_quiz.Base.{
  ℕ, ◌+◌, ◌-◌, ◌%◌, ◌^◌, Bool, true, false, not, ◌&&◌, ◌||◌, List, [], ◌∷◌, ◌==◌, if◌then◌else◌,
  get_or, set, replicate, codes, Bytes,
}

-- `++n` and `--n`
abbrev pub inc : ℕ → ℕ
inc n = (n + 1) % 2 ^ 32

abbrev pub dec : ℕ → ℕ
dec n = (n + (2 ^ 32 - 1)) % 2 ^ 32

-- The index of an operation in `NativeOp`, in its order.
pub data NativeOp : Type 0 where
  open_op generate_op finalize_op export_op import_op sign_op verify_op : NativeOp
  close_op destroy_op cert_create_op cert_free_op decode_op local_free_op time_op : NativeOp

abbrev pub op_index : NativeOp → ℕ
op_index open_op = 0
op_index generate_op = 1
op_index finalize_op = 2
op_index export_op = 3
op_index import_op = 4
op_index sign_op = 5
op_index verify_op = 6
op_index close_op = 7
op_index destroy_op = 8
op_index cert_create_op = 9
op_index cert_free_op = 10
op_index decode_op = 11
op_index local_free_op = 12
op_index time_op = 13

abbrev pub native_limits : List ℕ
native_limits = 12 ∷ 3 ∷ 3 ∷ 3 ∷ 9 ∷ 3 ∷ 6 ∷ 12 ∷ 12 ∷ 3 ∷ 3 ∷ 20 ∷ 20 ∷ 3 ∷ []

abbrev pub native_names : List Bytes
native_names =
    codes "provider_open"
    ∷ codes "key_generate"
    ∷ codes "key_finalize"
    ∷ codes "key_export"
    ∷ codes "key_import"
    ∷ codes "sign"
    ∷ codes "verify"
    ∷ codes "provider_close"
    ∷ codes "key_destroy"
    ∷ codes "certificate_create"
    ∷ codes "certificate_free"
    ∷ codes "decode"
    ∷ codes "local_free"
    ∷ codes "time"
    ∷ []

pub record CallCounts : Type 0 where
  pub attempted : ℕ
  pub returned : ℕ
  pub accepted : ℕ
  pub settled : ℕ
  pub unknown : ℕ
  pub returned_failure : ℕ

abbrev pub no_counts : CallCounts
no_counts = record {
  attempted = 0;
  returned = 0;
  accepted = 0;
  settled = 0;
  unknown = 0;
  returned_failure = 0;
}

-- A `const char*` is the text that it points to.
pub record NativeObservation : Type 0 where
  pub calls : List CallCounts
  pub acquired : ℕ
  pub released : ℕ
  pub still_owned : ℕ
  pub quarantined : ℕ
  pub stopped : Bool
  pub unknown : Bool
  pub first_failure_unknown : Bool
  pub first_failure : Bytes

abbrev pub no_observation : NativeObservation
no_observation = record {
  calls = replicate 14 no_counts;
  acquired = 0;
  released = 0;
  still_owned = 0;
  quarantined = 0;
  stopped = false;
  unknown = false;
  first_failure_unknown = false;
  first_failure = codes "none";
}

abbrev pub counts_of : NativeOp → NativeObservation → CallCounts
counts_of op o = get_or o.calls (op_index op) no_counts

abbrev pub count_call : NativeOp → (CallCounts → CallCounts) → NativeObservation → NativeObservation
count_call op f o = record o { calls = set o.calls (op_index op) (f (counts_of op o)) }

abbrev pub limit_of : NativeOp → ℕ
limit_of op = get_or native_limits (op_index op) 0

-- The first failure is kept.
unfoldable pub fail : Bytes → Bool → NativeObservation → NativeObservation
fail stage uncertain o = record o {
  first_failure = if o.stopped then o.first_failure else stage;
  first_failure_unknown = if o.stopped then o.first_failure_unknown else uncertain;
  stopped = true;
  unknown = o.unknown || uncertain;
}

abbrev counts_complete : ℕ → CallCounts → Bool
counts_complete limit c =
    c.attempted == limit
    && (c.returned == c.attempted
        && (c.accepted == c.attempted && (c.settled == c.attempted && c.unknown == 0)))

-- The loop over `calls`, beside the limits.
unfoldable pub all_complete : List ℕ → List CallCounts → Bool
all_complete limits [] = true
all_complete [] (c ∷ cs) = false
all_complete (n ∷ ns) (c ∷ cs) = counts_complete n c && all_complete ns cs

-- `complete`
unfoldable pub native_complete : NativeObservation → Bool
native_complete o =
    not (
      o.stopped
      || (o.unknown
          || (not (o.still_owned == 0)
              || (not (o.quarantined == 0)
                  || (not (o.acquired == 47) || not (o.acquired == o.released))))))
    && all_complete native_limits o.calls
