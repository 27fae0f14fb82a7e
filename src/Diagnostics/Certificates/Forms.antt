-- ===== src/Diagnostics/Certificates/Forms.antt =====
-- windows/external_native/diagnostics/l1_crypto_probe.h: DER nodes written and read, and what a certificate
-- of each role says.
use shiroha_quiz.Base.{
  ℕ, zero, suc, ◌+◌, ◌*◌, ◌/◌, ◌%◌, Bool, true, false, not, ◌||◌, Option, none, some, [], ◌∷◌, ◌++◌,
  ltb, leb, ◌==◌, if◌then◌else◌, length, take, drop, get_or, codes, Bytes,
}
use shiroha_quiz.P256.{any_nonzero}

-- The size in the header of a node; the vectors of the probe hold fewer than 2 ^ 16 bytes.
abbrev pub size_octets : ℕ → Bytes
size_octets n =
    if ltb n 128
    then n ∷ []
    else if ltb n 256
    then 0x81 ∷ n ∷ []
    else 0x82 ∷ n / 256 % 256 ∷ n % 256 ∷ []

unfoldable pub der_wrap : ℕ → Bytes → Bytes
der_wrap tag body = tag ∷ (size_octets (length body) ++ body)

-- `while (start < limit && bs[start] == 0) ++start`: what is left from there.
abbrev pub skip_zeros : ℕ → Bytes → Bytes
skip_zeros zero bs = bs
skip_zeros (suc limit) [] = []
skip_zeros (suc limit) (b ∷ bs) = if b == 0 then skip_zeros limit bs else b ∷ bs

-- The body of an unsigned integer.
abbrev pub unsigned_body : ℕ → Bytes → Bytes
unsigned_body limit bs =
    let left = skip_zeros limit bs in if leb 128 (get_or left 0 0) then 0x00 ∷ left else left

pub data CertificateRole : Type 0 where
  issuer server client : CertificateRole

abbrev is_issuer : CertificateRole → Bool
is_issuer issuer = true
is_issuer role = false

abbrev is_server : CertificateRole → Bool
is_server server = true
is_server role = false

abbrev make_name : Bytes → Bytes
make_name cn =
    der_wrap 0x30
      (der_wrap 0x31 (der_wrap 0x30 (der_wrap 0x06 (0x55 ∷ 0x04 ∷ 0x03 ∷ []) ++ der_wrap 0x0c cn)))

abbrev issuer_name : Bytes
issuer_name = make_name (codes "Shiroha External Installation Issuer")

abbrev pub subject_name : CertificateRole → Bytes
subject_name issuer = issuer_name
subject_name server = make_name (codes "Shiroha External Host")
subject_name client = make_name (codes "Shiroha External Bridge")

abbrev pub validity : CertificateRole → Bytes
validity role = der_wrap 0x30 (
    der_wrap 0x17 (codes "250101000000Z")
    ++ der_wrap 0x17 (if is_issuer role then codes "350101000000Z" else codes "270101000000Z"))

abbrev pub key_algorithm : Bytes
key_algorithm = der_wrap 0x30 (
    der_wrap 0x06 (0x2a ∷ 0x86 ∷ 0x48 ∷ 0xce ∷ 0x3d ∷ 0x02 ∷ 0x01 ∷ [])
    ++ der_wrap 0x06 (0x2a ∷ 0x86 ∷ 0x48 ∷ 0xce ∷ 0x3d ∷ 0x03 ∷ 0x01 ∷ 0x07 ∷ []))

abbrev pub public_key_info : Bytes → Bytes
public_key_info point = der_wrap 0x30 (key_algorithm ++ der_wrap 0x03 (0x00 ∷ point))

abbrev make_ext : Bytes → Bool → Bytes → Bytes
make_ext oid critical val =
    der_wrap 0x30 (
      der_wrap 0x06 oid
      ++ ((if critical then 0x01 ∷ 0x01 ∷ 0xff ∷ [] else []) ++ der_wrap 0x04 val))

abbrev basic_constraints : CertificateRole → Bytes
basic_constraints role =
    make_ext (0x55 ∷ 0x1d ∷ 0x13 ∷ []) true
      (der_wrap 0x30 (if is_issuer role then 0x01 ∷ 0x01 ∷ 0xff ∷ 0x02 ∷ 0x01 ∷ 0x00 ∷ [] else []))

abbrev key_usage : CertificateRole → Bytes
key_usage role =
    make_ext (0x55 ∷ 0x1d ∷ 0x0f ∷ []) true
      (der_wrap 0x03 (if is_issuer role then 0x02 ∷ 0x04 ∷ [] else 0x07 ∷ 0x80 ∷ []))

abbrev extended_key_usage : CertificateRole → Bytes
extended_key_usage role =
    if is_issuer role
    then []
    else make_ext (0x55 ∷ 0x1d ∷ 0x25 ∷ []) false (
        der_wrap 0x30 (
          der_wrap 0x06 (
            0x2b
            ∷ 0x06
            ∷ 0x01
            ∷ 0x05
            ∷ 0x05
            ∷ 0x07
            ∷ 0x03
            ∷ (if is_server role then 0x01 else 0x02)
            ∷ [])))

abbrev alternative_name : CertificateRole → Bytes
alternative_name role =
    if is_server role
    then make_ext (0x55 ∷ 0x1d ∷ 0x11 ∷ []) true
        (der_wrap 0x30 (0x87 ∷ 0x04 ∷ 127 ∷ 0 ∷ 0 ∷ 1 ∷ []))
    else []

abbrev pub extensions : CertificateRole → Bytes
extensions role = der_wrap 0xa3 (
    der_wrap 0x30 (
      basic_constraints role
      ++ (key_usage role ++ (extended_key_usage role ++ alternative_name role))))

abbrev pub version : Bytes
version = der_wrap 0xa0 (der_wrap 0x02 (0x02 ∷ []))

-- `sig_alg`: ecdsa-with-SHA256.
abbrev pub signature_algorithm : Bytes
signature_algorithm =
    der_wrap 0x30 (der_wrap 0x06 (0x2a ∷ 0x86 ∷ 0x48 ∷ 0xce ∷ 0x3d ∷ 0x04 ∷ 0x03 ∷ 0x02 ∷ []))

-- The body of the certificate's first node, from its eight parts.
unfoldable pub tbs_body : CertificateRole → Bytes → Bytes → Bytes
unfolding der_wrap
tbs_body role serial16 point =
    version
    ++ (der_wrap 0x02 (unsigned_body 15 serial16)
        ++ (signature_algorithm
            ++ (issuer_name
                ++ (validity role
                    ++ (subject_name role ++ (public_key_info point ++ extensions role))))))

-- `build_x509_tbs`, over the 16 and 65 bytes that its pointers span: `tbs_out`, where the call returns
-- true.
unfoldable pub build_x509_tbs : CertificateRole → Bytes → Bytes → Option Bytes
unfolding tbs_body der_wrap
build_x509_tbs role serial16 public_point =
    if not (get_or public_point 0 0 == 0x04) || not (any_nonzero serial16)
    then none
    else some (der_wrap 0x30 (tbs_body role serial16 public_point))

-- What `read_node` finds: the whole node, its body, and what is behind it.
pub record Node : Type 0 where
  pub node : Bytes
  pub body : Bytes
  pub rest : Bytes

-- The end of `read_node`, behind a header that has been read.
unfoldable pub split_node : Bytes → ℕ → Bytes → Option Node
split_node header body_len p =
    if ltb (length p) body_len
    then none
    else some (record {
      node = header ++ take body_len p;
      body = take body_len p;
      rest = drop body_len p;
    })

-- The forms with one and two octets behind 0x81 and 0x82.
unfoldable pub long_node : ℕ → ℕ → Bytes → Option Node
unfolding split_node
long_node tag l0 [] = none
long_node tag l0 (a ∷ []) =
    if not (l0 == 0x81) || ltb a 128 then none else split_node (tag ∷ l0 ∷ a ∷ []) a []
long_node tag l0 (a ∷ b ∷ p) =
    if l0 == 0x81
    then (if ltb a 128 then none else split_node (tag ∷ l0 ∷ a ∷ []) a (b ∷ p))
    else if l0 == 0x82
    then (if ltb (a * 256 + b) 256
        then none
        else split_node (tag ∷ l0 ∷ a ∷ b ∷ []) (a * 256 + b) p)
    else none

-- `read_node`, at its position.
unfoldable pub read_node : ℕ → Bytes → Option Node
unfolding split_node long_node
read_node expected_tag [] = none
read_node expected_tag (tag ∷ []) = none
read_node expected_tag (tag ∷ l0 ∷ p) =
    if not (tag == expected_tag)
    then none
    else if ltb l0 128
    then split_node (tag ∷ l0 ∷ []) l0 p
    else long_node tag l0 p
