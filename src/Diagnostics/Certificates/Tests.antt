-- ===== src/Diagnostics/Certificates/Tests.antt =====
-- Concrete inputs of the theorems on the certificates of the probe.
use shiroha_quiz.Base.{◌≡◌, ◌↔◌, ◌++◌, refl, some, [], ◌∷◌, replicate, Bytes}
use shiroha_quiz.Diagnostics.Certificates.{
  server, der_wrap, encode_int, scalar_in_range, raw_signature_to_der, der_signature_to_raw,
}
use shiroha_quiz.Diagnostics.Certificates.Signatures.{raw_signature_to_der_iff}
use shiroha_quiz.Diagnostics.Certificates.RoundTrip.{IsRequest, IsIssued, certificate-IsIssued}
use shiroha_quiz.Diagnostics.Certificates.Digests.{sha256_digest}

-- r begins with a byte that has a high bit, s with 31 zeros.
abbrev raw : Bytes
raw = 0x80 ∷ (replicate 31 1 ++ (replicate 31 0 ++ 0x7f ∷ []))

abbrev der : Bytes
der = 0x30 ∷ 38 ∷ 0x02 ∷ 33 ∷ 0x00 ∷ 0x80 ∷ (replicate 31 1 ++ 0x02 ∷ 1 ∷ 0x7f ∷ [])

raw_signature_to_der_iff_example :
    (raw_signature_to_der raw ≡ some der) ↔ (der_signature_to_raw der ≡ some raw)
raw_signature_to_der_iff_example = raw_signature_to_der_iff raw der

raw_is_written : raw_signature_to_der raw ≡ some der
unfolding raw_signature_to_der scalar_in_range der_wrap encode_int
raw_is_written = refl

abbrev serial : Bytes
serial = 0 ∷ 0xf1 ∷ replicate 14 5

abbrev point : Bytes
point = 4 ∷ replicate 64 9

request : IsRequest serial point raw
unfolding scalar_in_range
request = record {
  serial_size = refl;
  serial_nonzero = refl;
  point_size = refl;
  uncompressed = refl;
  signature = record { size = refl; first = refl; second = refl };
}

certificate-IsIssued_example : IsIssued server serial point raw
certificate-IsIssued_example = certificate-IsIssued server serial point raw request

-- The digest of "abc" that FIPS 180-4 gives.
abc_digest :
    sha256_digest (0x61 ∷ 0x62 ∷ 0x63 ∷ [])
    ≡ 0xba ∷ 0x78 ∷ 0x16 ∷ 0xbf ∷ 0x8f ∷ 0x01 ∷ 0xcf ∷ 0xea ∷ 0x41 ∷ 0x41 ∷ 0x40 ∷ 0xde ∷ 0x5d
      ∷ 0xae ∷ 0x22 ∷ 0x23 ∷ 0xb0 ∷ 0x03 ∷ 0x61 ∷ 0xa3 ∷ 0x96 ∷ 0x17 ∷ 0x7a ∷ 0x9c ∷ 0xb4 ∷ 0x10
      ∷ 0xff ∷ 0x61 ∷ 0xf2 ∷ 0x00 ∷ 0x15 ∷ 0xad ∷ []
unfolding sha256_digest
abc_digest = refl
