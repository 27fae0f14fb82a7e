-- ===== src/Diagnostics/Certificates/RoundTrip.antt =====
-- windows/external_native/diagnostics/l1_crypto_probe.h: a certificate that is built, signed, and read back.
use mathlib.Core.List.{append-nil}
use shiroha_quiz.Base.{
  ℕ, suc, ◌+◌, ◌≤◌, ◌<◌, ◌≡◌, refl, true, false, some, [], ◌∷◌, ◌++◌, arith, leb, length, get_or,
  is_empty, Bytes, length-append,
}
use shiroha_quiz.P256.{◌>>=◌, any_nonzero}
use shiroha_quiz.Diagnostics.Certificates.{
  der_wrap, CertificateRole, issuer, server, client, tbs_body, public_key_info, key_algorithm,
  version, subject_name, validity, unsigned_body, extensions, build_x509_tbs, signature_algorithm,
  raw_signature_to_der, der_signature_to_raw, assemble_x509_certificate,
  extract_x509_tbs_and_raw_signature, read_node,
}
use shiroha_quiz.Diagnostics.Certificates.Signatures.{IsSignature, signature-IsDer}
use shiroha_quiz.Diagnostics.Certificates.Integers.{unsigned_body_le}
use shiroha_quiz.Diagnostics.Certificates.Nodes.{whole_node, read_node-der_wrap, length-der_wrap}

-- What is behind the first node.
abbrev signed : Bytes → Bytes
signed der = signature_algorithm ++ der_wrap 0x03 (0x00 ∷ der)

read_last :
    (tag : ℕ) (body : Bytes)
    → length body < 65536
    → read_node tag (der_wrap tag body) ≡ some (whole_node tag body [])
read_last tag body h = rw (append-nil (der_wrap tag body)) at (read_node-der_wrap tag body [] h)

extract_whole :
    (body der raw : Bytes)
    → length body < 65000
    → 1 ≤ length der
    → length der ≤ 72
    → der_signature_to_raw der ≡ some raw
    → extract_x509_tbs_and_raw_signature (der_wrap 0x30 (der_wrap 0x30 body ++ signed der))
      ≡ some (der_wrap 0x30 body, raw)
unfolding extract_x509_tbs_and_raw_signature ◌>>=◌
extract_whole body der raw h l u e =
    let tbs = der_wrap 0x30 body in
    let bits : Bytes = 0x00 ∷ der in
    let oid : Bytes = 0x2a ∷ 0x86 ∷ 0x48 ∷ 0xce ∷ 0x3d ∷ 0x04 ∷ 0x03 ∷ 0x02 ∷ [] in
    let size = length-append tbs (signed der) in
    let tail = length-append signature_algorithm (der_wrap 0x03 bits) in
    let alg = length-der_wrap 0x30 (der_wrap 0x06 oid) in
    let alg' = length-der_wrap 0x06 oid in
    rw
      (
        read_last 0x30 (tbs ++ signed der) (
            omega (
              arith,
              size,
              tail,
              alg,
              alg',
              h,
              u,
              length-der_wrap 0x30 body,
              length-der_wrap 0x03 bits,
            )),
        read_node-der_wrap 0x30 body (signed der) (omega (arith, h)),
        read_node-der_wrap 0x30 (der_wrap 0x06 oid) (der_wrap 0x03 bits) (omega (arith, alg')),
        read_last 0x03 bits (omega (arith, u)),
        e,
      )
      (let two : leb 2 (suc (length der)) ≡ true = ground (arith, l) in rw two refl)

-- A bound of a size, kept by concatenations and nodes.
record Fits (n : ℕ) (xs : Bytes) : Type 0 where
  at_most : length xs ≤ n

append-Fits : {a b : ℕ} {xs ys : Bytes} → Fits a xs → Fits b ys → Fits (a + b) (xs ++ ys)
append-Fits {a} {b} {xs} {ys} h k = record {
  at_most = omega (arith, length-append xs ys, h.at_most, k.at_most);
}

wrap-Fits : {n : ℕ} {body : Bytes} (tag : ℕ) → Fits n body → Fits (n + 4) (der_wrap tag body)
wrap-Fits {n} {body} tag h = record { at_most = omega (arith, length-der_wrap tag body, h.at_most) }

extensions-Fits : (role : CertificateRole) → Fits 100 (extensions role)
unfolding der_wrap
extensions-Fits issuer = record { at_most = omega arith }
extensions-Fits server = record { at_most = omega arith }
extensions-Fits client = record { at_most = omega arith }

subject_name-Fits : (role : CertificateRole) → Fits 100 (subject_name role)
unfolding der_wrap
subject_name-Fits issuer = record { at_most = omega arith }
subject_name-Fits server = record { at_most = omega arith }
subject_name-Fits client = record { at_most = omega arith }

validity-Fits : (role : CertificateRole) → Fits 100 (validity role)
unfolding der_wrap
validity-Fits issuer = record { at_most = omega arith }
validity-Fits server = record { at_most = omega arith }
validity-Fits client = record { at_most = omega arith }

key_algorithm-Fits : Fits 30 key_algorithm
unfolding der_wrap
key_algorithm-Fits = record { at_most = omega arith }

version-Fits : Fits 10 version
unfolding der_wrap
version-Fits = record { at_most = omega arith }

signature_algorithm-Fits : Fits 20 signature_algorithm
unfolding der_wrap
signature_algorithm-Fits = record { at_most = omega arith }

public_key_info-Fits : (point : Bytes) → length point ≡ 65 → Fits 108 (public_key_info point)
public_key_info-Fits point h =
    let bits : Fits 70 (0x00 ∷ point) = record { at_most = omega (arith, h) } in
    wrap-Fits 0x30 (append-Fits key_algorithm-Fits (wrap-Fits 0x03 bits))

tbs_body-Fits :
    (role : CertificateRole) (serial point : Bytes)
    → length serial ≡ 16
    → length point ≡ 65
    → Fits 568 (tbs_body role serial point)
unfolding tbs_body
tbs_body-Fits role serial point hs hp =
    let number : Fits 26 (unsigned_body 15 serial) = record {
      at_most = omega (arith, unsigned_body_le 15 serial, hs);
    } in
    append-Fits version-Fits (
      append-Fits (wrap-Fits 0x02 number) (
        append-Fits signature_algorithm-Fits (
          append-Fits (subject_name-Fits issuer) (
            append-Fits (validity-Fits role) (
              append-Fits (subject_name-Fits role)
                (append-Fits (public_key_info-Fits point hp) (extensions-Fits role)))))))

-- What `build_x509_tbs` and `assemble_x509_certificate` take.
pub record IsRequest (serial point raw : Bytes) : Type 0 where
  pub serial_size : length serial ≡ 16
  pub serial_nonzero : any_nonzero serial ≡ true
  pub point_size : length point ≡ 65
  pub uncompressed : get_or point 0 0 ≡ 4
  pub signature : IsSignature raw

-- The certificate of a request, which is read back.
pub record IsIssued (role : CertificateRole) (serial point raw : Bytes) : Type 0 where
  pub tbs : Bytes
  pub cert : Bytes
  pub built : build_x509_tbs role serial point ≡ some tbs
  pub assembled : assemble_x509_certificate tbs raw ≡ some cert
  pub extracted : extract_x509_tbs_and_raw_signature cert ≡ some (tbs, raw)

assembled_of :
    (body der raw : Bytes)
    → raw_signature_to_der raw ≡ some der
    → assemble_x509_certificate (der_wrap 0x30 body) raw
      ≡ some (der_wrap 0x30 (der_wrap 0x30 body ++ signed der))
unfolding assemble_x509_certificate ◌>>=◌
assembled_of body der raw e =
    let filled : is_empty (der_wrap 0x30 body) ≡ false = unfold der_wrap in refl in
    rw (filled, e) refl

-- For every role, a non-zero serial number of 16 bytes, an uncompressed point of 65 bytes and a raw
-- signature of two scalars in range, the certificate is built and assembled, and from it the very node that
-- was signed and the very signature are read back.
pub certificate-IsIssued :
    (role : CertificateRole) (serial point raw : Bytes)
    → IsRequest serial point raw
    → IsIssued role serial point raw
unfolding build_x509_tbs
certificate-IsIssued role serial point raw h =
    let body = tbs_body role serial point in
    let (der, d) = signature-IsDer raw h.signature in
    let small : length body < 65000 =
      let l = (tbs_body-Fits role serial point h.serial_size h.point_size).at_most in
      omega (arith, l) in
    record {
      tbs = der_wrap 0x30 body;
      cert = der_wrap 0x30 (der_wrap 0x30 body ++ signed der);
      built = rw (h.uncompressed, h.serial_nonzero) refl;
      assembled = assembled_of body der raw d.written;
      extracted = extract_whole body der raw small d.some_byte d.at_most d.read;
    }
