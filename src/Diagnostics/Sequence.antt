-- ===== src/Diagnostics/Sequence.antt =====
-- windows/external_native/diagnostics/l1_crypto_probe.h, `run_l1_crypto_sequence`: keys, certificates,
-- verifications and policies over the pool of buffers and its ledger. The keys of the probe are values
-- here, so that the wiping of its own copies is not seen.
mod Steps
mod Latched
mod Keeps
pub mod Finished
mod Tests
unfoldable pub use Steps.*
use Prim.Native.Nat.{bit_xor}
use shiroha_quiz.Base.{
  ℕ, zero, suc, ◌+◌, ◌*◌, ◌%◌, Bool, true, false, not, ◌&&◌, ◌||◌, Option, none, some, List, [],
  ◌∷◌, ltb, leb, ◌==◌, if◌then◌else◌, length, codes, Bytes,
}
use mathlib.Core.Option.{get_or}
use shiroha_quiz.Status.{abi_version}
use shiroha_quiz.Signatures.{max_pkcs8, point_bytes, digest_bytes, raw_bytes}
use shiroha_quiz.Memory.{Memory, read, load}
use shiroha_quiz.Diagnostics.Native.{Outcome}
use shiroha_quiz.Diagnostics.Budget.{
  native_ok, verification_rejected, PrimitiveCategory, abi_category, generate_key_category,
  encode_sign_category, verify_positive, verify_negative, policy_positive, policy_negative, observe,
  Verdict, pass, verdict, Ledger,
}
use shiroha_quiz.Diagnostics.Buffers.{Pool, with_ledger, release_all_remaining}
use shiroha_quiz.Diagnostics.Certificates.{
  CertificateRole, issuer, server, client, build_x509_tbs, assemble_x509_certificate,
  extract_x509_tbs_and_raw_signature,
}
use shiroha_quiz.Diagnostics.Certificates.Digests.{sha256_digest}

-- The steps of one kind, by their index in the loop.
abbrev gen_step : ℕ → Bytes
gen_step zero = codes "gen_issuer"
gen_step (suc zero) = codes "gen_server"
gen_step (suc (suc i)) = codes "gen_client"

abbrev sign_step : ℕ → Bytes
sign_step zero = codes "sign_issuer_cert"
sign_step (suc zero) = codes "sign_server_cert"
sign_step (suc (suc i)) = codes "sign_client_cert"

abbrev verify_step : Bool → ℕ → Bytes
verify_step false zero = codes "verify_issuer_valid"
verify_step false (suc zero) = codes "verify_server_valid"
verify_step false (suc (suc i)) = codes "verify_client_valid"
verify_step true zero = codes "verify_issuer_tampered"
verify_step true (suc zero) = codes "verify_server_tampered"
verify_step true (suc (suc i)) = codes "verify_client_tampered"

-- `keys[i]`
pub record Key : Type 0 where
  pub pkcs8 : Bytes
  pub point : Bytes

abbrev call_abi : Env → Step (Unit {0})
call_abi env = do
  ok ←
      invoke env 0 abi_category (codes "abi") abi_version (λ m. (env.abi, m))
        (λ m status. status == abi_version)
  require ok

abbrev key_shape : ℕ → ℕ → ℕ → Memory → ℕ → Bool
key_shape key point counts m status =
    status == native_ok
    && (leb 1 (load counts m)
        && (leb (load counts m) max_pkcs8
            && (load (counts + 8) m == point_bytes && m point == 0x04)))

-- One round of the loop over the keys; `i` is its index.
unfoldable pub generate_key_at : Env → ℕ → Step Key
unfolding take_buffer release_buffer invoke memory_now give require ◌>>=◌
generate_key_at env i = do
  (key, key_slot) ← take_buffer env max_pkcs8
  (point, point_slot) ← take_buffer env point_bytes
  (counts, counts_slot) ← take_buffer env 16
  ok ←
      invoke env (1 + i) generate_key_category (gen_step i) native_ok
        (env.generate_key i key point counts) (key_shape key point counts)
  m ← memory_now
  r3 ← release_buffer env counts_slot
  r2 ← release_buffer env point_slot
  r1 ← release_buffer env key_slot
  require (ok && (r1 && (r2 && r3)))
  give (record { pkcs8 = read key (load counts m) m; point = read point point_bytes m })

-- `serial16`, with `static_cast<uint8_t>((i + 1) * 17 + b)` at `b`.
abbrev serial_from : ℕ → ℕ → ℕ → Bytes
serial_from zero b i = []
serial_from (suc n) b i = ((i + 1) * 17 + b) % 256 ∷ serial_from n (b + 1) i

abbrev role_at : ℕ → CertificateRole
role_at zero = issuer
role_at (suc zero) = server
role_at (suc (suc i)) = client

abbrev is_some : Option Bytes → Bool
is_some none = false
is_some (some bytes) = true

-- `assemble_x509_certificate(tbs, sig_buf, certs[i])`: an empty certificate where it fails.
abbrev certificate_of : Bytes → ℕ → Memory → Bytes
certificate_of tbs sig m = get_or (assemble_x509_certificate tbs (read sig raw_bytes m)) []

-- One round of the loop over the certificates.
unfoldable pub sign_certificate_at : Env → ℕ → Key → Key → Step Bytes
unfolding take_buffer release_buffer write_bytes invoke memory_now give require stop_with ◌>>=◌
sign_certificate_at env i signer subject = do
  tbs ← stop_with (sign_step i) (build_x509_tbs (role_at i) (serial_from 16 0 i) subject.point)
  (key, key_slot) ← take_buffer env (length signer.pkcs8)
  (point, point_slot) ← take_buffer env point_bytes
  (digest, digest_slot) ← take_buffer env digest_bytes
  (sig, sig_slot) ← take_buffer env raw_bytes
  (count, count_slot) ← take_buffer env 8
  write_bytes key signer.pkcs8
  write_bytes point signer.point
  write_bytes digest (sha256_digest tbs)
  ok ←
      invoke env (4 + i) encode_sign_category (sign_step i) native_ok
        (env.sign_digest i key (length signer.pkcs8) point digest sig count)
        (λ m status.
          status == native_ok
          && (load count m == raw_bytes
              && is_some (assemble_x509_certificate tbs (read sig raw_bytes m))))
  m ← memory_now
  r5 ← release_buffer env count_slot
  r4 ← release_buffer env sig_slot
  r3 ← release_buffer env digest_slot
  r2 ← release_buffer env point_slot
  r1 ← release_buffer env key_slot
  require (ok && (r1 && (r2 && (r3 && (r4 && r5)))))
  give (certificate_of tbs sig m)

-- `raw_sig[0] ^= 0x01u`
abbrev flip_first : Bytes → Bytes
flip_first [] = []
flip_first (b ∷ bs) = bit_xor b 1 ∷ bs

-- One round of the loops over the verifications; the second pass tampers.
unfoldable pub verify_certificate_at : Env → Bool → ℕ → Key → Bytes → Step (Unit {0})
unfolding take_buffer release_buffer write_bytes invoke require stop_with ◌>>=◌
verify_certificate_at env tampered i signer cert = do
  (tbs, raw) ← stop_with (verify_step tampered i) (extract_x509_tbs_and_raw_signature cert)
  (point, point_slot) ← take_buffer env point_bytes
  (digest, digest_slot) ← take_buffer env digest_bytes
  (sig, sig_slot) ← take_buffer env raw_bytes
  write_bytes point signer.point
  write_bytes digest (sha256_digest tbs)
  write_bytes sig (if tampered then flip_first raw else raw)
  ok ←
      invoke env (if tampered then 10 + i else 7 + i)
        (if tampered then verify_negative else verify_positive) (verify_step tampered i)
        (if tampered then verification_rejected else native_ok)
        (λ m. (env.verify_digest (if tampered then 3 + i else i) point digest sig m, m))
        (λ m status. true)
  r3 ← release_buffer env sig_slot
  r2 ← release_buffer env digest_slot
  r1 ← release_buffer env point_slot
  require (ok && (r1 && (r2 && r3)))

-- One of the policy cases; `n` is its index.
unfoldable pub check_policy : Env → ℕ → Bytes → Bytes → ℕ → PrimitiveCategory → ℕ → Step (Unit {0})
unfolding take_buffer release_buffer write_bytes invoke require ◌>>=◌
check_policy env n step der role cat expected = do
  (buffer, slot) ← take_buffer env (length der)
  write_bytes buffer der
  ok ←
      invoke env (13 + n) cat step expected
        (λ m. (env.peer_certificate_policy n buffer (length der) role m, m)) (λ m status. true)
  r1 ← release_buffer env slot
  require (ok && r1)

-- What `run_l1_crypto_sequence` does between its two observations.
unfoldable pub sequence_of_calls : Env → Step (Unit {0})
unfolding generate_key_at sign_certificate_at verify_certificate_at check_policy ◌>>=◌
sequence_of_calls env = do
  call_abi env
  issuer_key ← generate_key_at env 0
  server_key ← generate_key_at env 1
  client_key ← generate_key_at env 2
  issuer_cert ← sign_certificate_at env 0 issuer_key issuer_key
  server_cert ← sign_certificate_at env 1 issuer_key server_key
  client_cert ← sign_certificate_at env 2 issuer_key client_key
  verify_certificate_at env false 0 issuer_key issuer_cert
  verify_certificate_at env false 1 issuer_key server_cert
  verify_certificate_at env false 2 issuer_key client_cert
  verify_certificate_at env true 0 issuer_key issuer_cert
  verify_certificate_at env true 1 issuer_key server_cert
  verify_certificate_at env true 2 issuer_key client_cert
  check_policy env 0 (codes "policy_server_valid") server_cert 1 policy_positive native_ok
  check_policy env 1 (codes "policy_client_valid") client_cert 2 policy_positive native_ok
  check_policy env 2 (codes "policy_role_mismatch") server_cert 2 policy_negative
      verification_rejected

abbrev exit_status : Verdict → ℕ
exit_status pass = 0
exit_status v = 10

-- The end of the run, behind what the steps gave.
unfoldable pub finish_sequence : Env → Option (Unit {0}) × Pool → ℕ × Pool
unfolding observe verdict release_all_remaining
finish_sequence env (none, p) = (10, release_all_remaining env.frees p)
finish_sequence env (some u, p) =
    let p' = release_all_remaining env.frees p in
    let (seen, l) =
      observe env.final.clock env.final.sample (codes "after_final_settlement") p'.ledger in
    (if seen then exit_status (verdict env.observing env.final_native l) else 10, with_ledger p' l)

-- `run_l1_crypto_sequence` on a pool that has no buffer yet. Every return behind its first observation
-- releases what remains.
unfoldable pub run_l1_crypto_sequence : Env → Pool → ℕ × Pool
unfolding observe sequence_of_calls finish_sequence
run_l1_crypto_sequence env p =
    let (seen, l) = observe env.first.clock env.first.sample (codes "before_work") p.ledger in
    if seen
    then finish_sequence env (sequence_of_calls env (with_ledger p l))
    else (10, with_ledger p l)
