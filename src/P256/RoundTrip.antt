-- ===== src/P256/RoundTrip.antt =====
-- The PKCS#8 forms that the codec reads and writes, and the round trip between them.
use shiroha_quiz.Base.{
  ℕ, ◌<◌, ◌≤◌, ◌≡◌, refl, Bool, true, false, some, [], ◌∷◌, ◌++◌, arith, if◌then◌else◌, length,
  length-append, get_or, Bytes, bytes_eq_refl,
}
use mathlib.Core.List.{append-nil}
use shiroha_quiz.P256.{
  ◌>>=◌, algorithm, curve, version0, version1, p256_scalar_valid, encode_p256_pkcs8,
  decode_p256_pkcs8, decode_key, decode_parameters, decode_public, field, literal,
}
use shiroha_quiz.P256.Der.{tlv, literal-append, field-tlv, length-tlv, tlv_at}

abbrev pub parameters_field : Bool → Bytes
parameters_field has = if has then tlv 0xa0 curve else []

abbrev pub public_field : Bool → Bytes → Bytes
public_field has point = if has then tlv 0xa1 (tlv 0x03 (0 ∷ point)) else []

abbrev pub key_body : Bool → Bool → Bytes → Bytes → Bytes
key_body parameters public scalar point =
    version1 ++ (tlv 0x04 scalar ++ (parameters_field parameters ++ public_field public point))

-- RFC 5208 around RFC 5915, with the two optional fields present or not.
abbrev pub pkcs8 : Bool → Bool → Bytes → Bytes → Bytes
pkcs8 parameters public scalar point =
    tlv 0x30
      (version0 ++ (algorithm ++ tlv 0x04 (tlv 0x30 (key_body parameters public scalar point))))

pub record IsKey (scalar point : Bytes) : Type 0 where
  pub scalar_length : length scalar ≡ 32
  pub scalar_valid : p256_scalar_valid scalar ≡ true
  pub point_length : length point ≡ 65
  pub uncompressed : get_or point 0 0 ≡ 4

length-parameters_field : (a : Bool) → length (parameters_field a) ≤ 12
unfolding tlv
length-parameters_field true = omega arith
length-parameters_field false = omega arith

length-public_field :
    (b : Bool) (point : Bytes) → length point ≡ 65 → length (public_field b point) ≤ 72
length-public_field true point e =
    omega (arith, length-tlv 0xa1 (tlv 0x03 (0 ∷ point)), length-tlv 0x03 (0 ∷ point))
length-public_field false point e = omega arith

length-key_body :
    (a b : Bool) (scalar point : Bytes)
    → IsKey scalar point
    → length (key_body a b scalar point) < 123
length-key_body a b scalar point k = omega (
  arith,
  length-append (tlv 0x04 scalar) (parameters_field a ++ public_field b point),
  length-append (parameters_field a) (public_field b point),
  length-tlv 0x04 scalar,
  length-parameters_field a,
  length-public_field b point k.point_length,
)

field_last :
    (tag : ℕ) (body : Bytes) → length body < 256 → field tag (tlv tag body) ≡ some (body, [])
field_last tag body h = rw (append-nil (tlv tag body)) at (field-tlv tag body [] h)

decode_parameters-field :
    (a b : Bool) (point : Bytes)
    → decode_parameters (parameters_field a ++ public_field b point) ≡ some (public_field b point)
unfolding decode_parameters literal tlv ◌>>=◌
decode_parameters-field true b point =
    rw (field-tlv 0xa0 curve (public_field b point) (omega arith)) refl
decode_parameters-field false true point = refl
decode_parameters-field false false point = refl

decode_public-field :
    (b : Bool) (point : Bytes)
    → length point ≡ 65
    → decode_public point (public_field b point) ≡ some []
unfolding decode_public tlv ◌>>=◌
decode_public-field true point e =
    let bits : Bytes = 0 ∷ point in
    rw
      (
        field_last 0xa1 (tlv 0x03 bits) (omega (arith, length-tlv 0x03 bits)),
        field_last 0x03 bits (omega arith),
      )
      (ground (arith, bytes_eq_refl point))
decode_public-field false point e = refl

decode_key-pkcs8 :
    (a b : Bool) (scalar point : Bytes)
    → IsKey scalar point
    → decode_key (pkcs8 a b scalar point)
      ≡ some (scalar, parameters_field a ++ public_field b point)
unfolding decode_key ◌>>=◌
decode_key-pkcs8 a b scalar point k =
    let key : Bytes = key_body a b scalar point in
    let octets : Bytes = tlv 0x30 key in
    rw
      (
        field_last 0x30 (version0 ++ (algorithm ++ tlv 0x04 octets)) (
            omega (
              arith,
              length-tlv 0x04 octets,
              length-tlv 0x30 key,
              length-key_body a b scalar point k,
            )),
        literal-append version0 (algorithm ++ tlv 0x04 octets),
        literal-append algorithm (tlv 0x04 octets),
        field_last 0x04 octets
            (omega (arith, length-tlv 0x30 key, length-key_body a b scalar point k)),
        field_last 0x30 key (omega (arith, length-key_body a b scalar point k)),
        literal-append version1 (tlv 0x04 scalar ++ (parameters_field a ++ public_field b point)),
        field-tlv 0x04 scalar (parameters_field a ++ public_field b point)
            (omega (arith, k.scalar_length)),
      )
      (ground (arith, k.scalar_length, k.scalar_valid))

length-pkcs8 :
    (a b : Bool) (scalar point : Bytes) → IsKey scalar point → length (pkcs8 a b scalar point) ≤ 256
length-pkcs8 a b scalar point k =
    let key : Bytes = key_body a b scalar point in
    let octets : Bytes = tlv 0x30 key in
    omega (
      arith,
      length-tlv 0x30 (version0 ++ (algorithm ++ tlv 0x04 octets)),
      length-tlv 0x04 octets,
      length-tlv 0x30 key,
      length-key_body a b scalar point k,
    )

-- Every one of the four forms (parameters present or not, public key present or not) of a valid key, with
-- a scalar of 32 bytes in range and an uncompressed point of 65 bytes, decodes to its scalar.
pub decode-pkcs8 :
    (a b : Bool) (scalar point : Bytes)
    → IsKey scalar point
    → decode_p256_pkcs8 (pkcs8 a b scalar point) point ≡ some scalar
unfolding decode_p256_pkcs8 ◌>>=◌
decode-pkcs8 a b scalar point k = ground (
  arith,
  length-pkcs8 a b scalar point k,
  decode_key-pkcs8 a b scalar point k,
  decode_parameters-field a b point,
  decode_public-field b point k.point_length,
)

-- For a valid key, and a capacity of at least 138, the encoder writes the form without parameters and
-- with the public key.
pub encode-eq-pkcs8 :
    (scalar point : Bytes) (capacity : ℕ)
    → IsKey scalar point
    → 138 ≤ capacity
    → encode_p256_pkcs8 scalar point capacity ≡ some (pkcs8 false true scalar point)
unfolding encode_p256_pkcs8
encode-eq-pkcs8 scalar point capacity k h =
    let bits : Bytes = 0x03 ∷ 66 ∷ 0 ∷ point in
    let key : Bytes = version1 ++ (0x04 ∷ 32 ∷ (scalar ++ (0xa1 ∷ 68 ∷ bits))) in
    let size = length-append scalar (0xa1 ∷ 68 ∷ bits) in
    rw
      (
        tlv_at 0x04 32 scalar k.scalar_length,
        tlv_at 0x03 66 (0 ∷ point) (omega (arith, k.point_length)),
        tlv_at 0xa1 68 bits (omega (arith, k.point_length)),
        tlv_at 0x30 107 key (omega (arith, size, k.scalar_length, k.point_length)),
        tlv_at 0x04 109 (0x30 ∷ 107 ∷ key) (omega (arith, size, k.scalar_length, k.point_length)),
        tlv_at 0x30 135 (version0 ++ (algorithm ++ (0x04 ∷ 109 ∷ 0x30 ∷ 107 ∷ key)))
            (omega (arith, size, k.scalar_length, k.point_length)),
      )
      (ground (arith, k.uncompressed, k.scalar_valid))
