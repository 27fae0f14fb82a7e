-- ===== src/Diagnostics/Sequence/Tests.antt =====
-- A run of the probe on an API that behaves.
use shiroha_quiz.Base.{
  ℕ, ◌+◌, ◌*◌, ◌≡◌, refl, inl, arith, true, false, none, [], ◌∷◌, ltb, if◌then◌else◌, replicate,
}
use shiroha_quiz.Memory.{Memory, load, read, copy, store}
use shiroha_quiz.Diagnostics.Native.{Outcome, returns}
use shiroha_quiz.Diagnostics.Budget.{new_ledger, now_ms, reading, Last}
use shiroha_quiz.Diagnostics.Budget.Limits.{new_ledger-IsWithin}
use shiroha_quiz.Diagnostics.Buffers.{Pool}
use shiroha_quiz.Diagnostics.Buffers.Kept.{IsKept}
use shiroha_quiz.Diagnostics.Certificates.{
  build_x509_tbs, assemble_x509_certificate, scalar_in_range, extract_x509_tbs_and_raw_signature,
  encode_int,
}
use shiroha_quiz.Diagnostics.Sequence.{Env, run_l1_crypto_sequence}
use shiroha_quiz.Diagnostics.Sequence.Finished.{IsFinished, run_l1_crypto_sequence-IsFinished}

abbrev at_once : Last
at_once = record { clock = now_ms 120; sample = reading 1000 1000 10 }

-- A key of ten bytes and an uncompressed point.
abbrev generated : ℕ → ℕ → ℕ → ℕ → Memory → Outcome ℕ × Memory
generated i key point counts m = (
  returns 0,
  store (counts + 8) 65
      (store counts 10 (copy point (4 ∷ replicate 64 (i + 1)) (copy key (replicate 10 7) m))),
)

abbrev signed : ℕ → ℕ → ℕ → ℕ → ℕ → ℕ → ℕ → Memory → Outcome ℕ × Memory
signed i key length point digest sig count m =
    (returns 0, store count 64 (copy sig (replicate 64 (i + 1)) m))

abbrev behaving : Env
behaving = record {
  available = true;
  allocations = λ slot. returns (65536 * (slot + 1));
  allocation_clock = λ slot. now_ms 110;
  frees = λ slot. returns tt;
  abi = returns 3;
  generate_key = generated;
  sign_digest = signed;
  verify_digest = λ n point digest sig m. returns (if ltb n 3 then 0 else 8);
  peer_certificate_policy = λ n der length role m. returns (if ltb n 2 then 0 else 8);
  before = λ n. now_ms 110;
  after = λ n. now_ms 110;
  last = λ n. record { clock = now_ms 110; sample = reading 1000 1000 10 };
  native = λ n. none;
  first = record { clock = now_ms 100; sample = reading 1000 1000 10 };
  final = at_once;
  observing = false;
  final_native = none;
}

abbrev fresh : Pool
fresh = record { slots = []; ledger = new_ledger; memory = λ a. 0 }

-- The run of an API that behaves returns 0: its certificates are built, signed, read back and verified.
behaving_passes : (run_l1_crypto_sequence behaving fresh).0 ≡ 0
unfolding run_l1_crypto_sequence load store build_x509_tbs read assemble_x509_certificate
    scalar_in_range extract_x509_tbs_and_raw_signature encode_int
behaving_passes = refl

fresh-IsKept : IsKept fresh
fresh-IsKept = record {
  within = new_ledger-IsWithin;
  sound = tt;
  allocated = refl;
  allocations = omega arith;
  live = refl;
  few = omega arith;
  succeeded = refl;
  uncertain = refl;
  releases = refl;
  settles = (omega arith, omega arith);
  latched = inl refl;
}

run_l1_crypto_sequence-IsFinished_example :
    let r = run_l1_crypto_sequence behaving fresh in IsFinished r.0 r.1
run_l1_crypto_sequence-IsFinished_example =
    run_l1_crypto_sequence-IsFinished behaving fresh refl fresh-IsKept
