-- ===== src/Diagnostics/Certificates.antt =====
-- windows/external_native/diagnostics/l1_crypto_probe.h, the certificates that the probe makes: DER forms,
-- signatures as pairs of integers, and nodes of DER read back. A pointer with its remaining length is the
-- list of the bytes that it spans; a byte is a number below 256, so that its high bit is `128 ≤ b`.
mod Forms
pub mod Integers
mod Parts
pub mod Signatures
pub mod Nodes
pub mod RoundTrip
pub mod Digests
mod Tests
unfoldable pub use Forms.*
use shiroha_quiz.Base.{
  ℕ, zero, suc, ◌+◌, ◌-◌, ◌*◌, ◌/◌, ◌%◌, Bool, true, false, not, ◌&&◌, ◌||◌, Option, none, some, [],
  ◌∷◌, ◌++◌, ltb, leb, ◌==◌, if◌then◌else◌, length, take, drop, get_or, is_empty, replicate, Bytes,
  bytes_lt,
}
use shiroha_quiz.P256.{◌>>=◌, ◌>>◌, guard, any_nonzero}

-- `kP256Order`
abbrev pub group_order : Bytes
group_order =
    0xff ∷ 0xff ∷ 0xff ∷ 0xff ∷ 0x00 ∷ 0x00 ∷ 0x00 ∷ 0x00 ∷ 0xff ∷ 0xff ∷ 0xff ∷ 0xff ∷ 0xff ∷ 0xff
    ∷ 0xff ∷ 0xff ∷ 0xbc ∷ 0xe6 ∷ 0xfa ∷ 0xad ∷ 0xa7 ∷ 0x17 ∷ 0x9e ∷ 0x84 ∷ 0xf3 ∷ 0xb9 ∷ 0xca
    ∷ 0xc2 ∷ 0xfc ∷ 0x63 ∷ 0x25 ∷ 0x51 ∷ []

-- Over the 32 bytes that the caller's pointer spans.
unfoldable pub scalar_in_range : Bytes → Bool
scalar_in_range s = any_nonzero s && bytes_lt s group_order

-- `encode_int` of `raw_signature_to_der`.
unfoldable pub encode_int : Bytes → Bytes
encode_int scalar = der_wrap 0x02 (unsigned_body 31 scalar)

-- `raw_signature_to_der`: `der_out`, where the call returns true.
unfoldable pub raw_signature_to_der : Bytes → Option Bytes
raw_signature_to_der raw =
    if not (length raw == 64)
      || (not (scalar_in_range (take 32 raw)) || not (scalar_in_range (drop 32 raw)))
    then none
    else some (der_wrap 0x30 (encode_int (take 32 raw) ++ encode_int (drop 32 raw)))

-- `int_len > 1 && bytes[0] == 0`, with what `mag` then points to.
abbrev pub magnitude : Bytes → Bytes
magnitude [] = []
magnitude (b ∷ []) = b ∷ []
magnitude (b ∷ c ∷ bs) = if b == 0 then c ∷ bs else b ∷ c ∷ bs

-- A zero before a byte without a high bit.
abbrev pub superfluous : Bytes → Bool
superfluous [] = false
superfluous (b ∷ []) = false
superfluous (b ∷ c ∷ bs) = b == 0 && ltb c 128

-- `scalar + (32 - mag_len)` is the place of the magnitude.
abbrev pub padded : Bytes → Bytes
padded mag = replicate (32 - length mag) 0 ++ mag

-- The `int_len` bytes of one part of `der_signature_to_raw`.
unfoldable pub scalar_of : Bytes → Option Bytes
scalar_of bytes =
    if leb 128 (get_or bytes 0 0) || superfluous bytes
    then none
    else if length (magnitude bytes) == 0 || ltb 32 (length (magnitude bytes))
    then none
    else if not (scalar_in_range (padded (magnitude bytes)))
    then none
    else some (padded (magnitude bytes))

-- One part of `der_signature_to_raw`, at its offset: the scalar, and what is behind it.
unfoldable pub read_int : Bytes → Option (Bytes × Bytes)
unfolding scalar_of ◌>>=◌
read_int [] = none
read_int (tag ∷ []) = none
read_int (tag ∷ int_len ∷ rest) =
    if not (tag == 0x02) || (int_len == 0 || (ltb 33 int_len || ltb (length rest) int_len))
    then none
    else (do scalar ← scalar_of (take int_len rest); some (scalar, drop int_len rest))

-- Both parts, with nothing behind them.
unfoldable pub read_parts : Bytes → Option Bytes
unfolding read_int ◌>>=◌
read_parts p = do
  (r, after_r) ← read_int p
  (s, after_s) ← read_int after_r
  guard (is_empty after_s)
  some (r ++ s)

-- `der_signature_to_raw`: `raw_out`, where the call returns true.
unfoldable pub der_signature_to_raw : Bytes → Option Bytes
unfolding read_parts
der_signature_to_raw [] = none
der_signature_to_raw (tag ∷ []) = none
der_signature_to_raw (tag ∷ seq_len ∷ p) =
    if ltb (2 + length p) 8 || ltb 72 (2 + length p)
    then none
    else if not (tag == 0x30) || (leb 128 seq_len || not (2 + seq_len == 2 + length p))
    then none
    else read_parts p

-- `assemble_x509_certificate`: `cert_out`, where the call returns true.
unfoldable pub assemble_x509_certificate : Bytes → Bytes → Option Bytes
unfolding raw_signature_to_der ◌>>=◌
assemble_x509_certificate tbs raw_sig = if is_empty tbs then none else (do
  der_sig ← raw_signature_to_der raw_sig
  some (der_wrap 0x30 (tbs ++ (signature_algorithm ++ der_wrap 0x03 (0x00 ∷ der_sig)))))

-- `extract_x509_tbs_and_raw_signature`: `tbs_out` and `raw_sig_out`, where the call returns true.
unfoldable pub extract_x509_tbs_and_raw_signature : Bytes → Option (Bytes × Bytes)
unfolding read_node der_signature_to_raw ◌>>=◌
extract_x509_tbs_and_raw_signature cert = do
  outer ← read_node 0x30 cert
  guard (is_empty outer.rest)
  tbs ← read_node 0x30 outer.body
  alg ← read_node 0x30 tbs.rest
  sig ← read_node 0x03 alg.rest
  guard (is_empty sig.rest && (leb 2 (length sig.body) && get_or sig.body 0 1 == 0))
  raw ← der_signature_to_raw (drop 1 sig.body)
  some (tbs.node, raw)
