-- ===== src/P256.antt =====
-- windows/external_native/p256_key_codec.cpp: the PKCS#8 form of a P-256 key. A pointer with its
-- remaining length is the list of the bytes that it spans; a byte is a number below 256.
pub mod Scalar
pub mod Der
pub mod RoundTrip
pub mod Canonical
use shiroha_quiz.Base.{
  ℕ, ◌+◌, ◌-◌, Bool, true, false, not, ◌&&◌, ◌||◌, Option, none, some, List, [], ◌∷◌, ◌++◌, ltb,
  leb, ◌==◌, if◌then◌else◌, length, take, drop, get_or, is_empty, Bytes, bytes_eq, bytes_lt,
}

infixl 5 ◌>>=◌ ◌>>◌
unfoldable pub ◌>>=◌ {ℓ κ} : {A : Type ℓ} {B : Type κ} → Option A → (A → Option B) → Option B
none >>= f = none
some a >>= f = f a

abbrev pub ◌>>◌ {ℓ} : {B : Type ℓ} → Option (Unit {0}) → Option B → Option B
m >> k = m >>= λ _. k

abbrev pub guard : Bool → Option (Unit {0})
guard true = some tt
guard false = none

abbrev pub algorithm : Bytes
algorithm =
    0x30 ∷ 0x13 ∷ 0x06 ∷ 0x07 ∷ 0x2a ∷ 0x86 ∷ 0x48 ∷ 0xce ∷ 0x3d ∷ 0x02 ∷ 0x01 ∷ 0x06 ∷ 0x08 ∷ 0x2a
    ∷ 0x86 ∷ 0x48 ∷ 0xce ∷ 0x3d ∷ 0x03 ∷ 0x01 ∷ 0x07 ∷ []

abbrev pub curve : Bytes
curve = 0x06 ∷ 0x08 ∷ 0x2a ∷ 0x86 ∷ 0x48 ∷ 0xce ∷ 0x3d ∷ 0x03 ∷ 0x01 ∷ 0x07 ∷ []

abbrev pub order : Bytes
order =
    0xff ∷ 0xff ∷ 0xff ∷ 0xff ∷ 0x00 ∷ 0x00 ∷ 0x00 ∷ 0x00 ∷ 0xff ∷ 0xff ∷ 0xff ∷ 0xff ∷ 0xff ∷ 0xff
    ∷ 0xff ∷ 0xff ∷ 0xbc ∷ 0xe6 ∷ 0xfa ∷ 0xad ∷ 0xa7 ∷ 0x17 ∷ 0x9e ∷ 0x84 ∷ 0xf3 ∷ 0xb9 ∷ 0xca
    ∷ 0xc2 ∷ 0xfc ∷ 0x63 ∷ 0x25 ∷ 0x51 ∷ []

-- `Reader::literal`: the rest behind the expected bytes.
pub literal : Bytes → Bytes → Option Bytes
literal bytes p =
    if ltb (length p) (length bytes) || not (bytes_eq (take (length bytes) p) bytes)
    then none
    else some (drop (length bytes) p)

-- The end of `Reader::field`, behind a header that has been read: the child and the rest.
split_field : ℕ → Bytes → Option (Bytes × Bytes)
split_field n rest = if ltb (length rest) n then none else some (take n rest, drop n rest)

-- The long form: `length & 0x80` is set, so the only length octet stands in `p[2]`.
long_field : ℕ → Bytes → Option (Bytes × Bytes)
unfolding split_field
long_field n [] = none
long_field n (l ∷ rest) = if not (n == 0x81) || ltb l 128 then none else split_field l rest

-- `Reader::field`
pub field : ℕ → Bytes → Option (Bytes × Bytes)
unfolding split_field long_field
field tag [] = none
field tag (t ∷ []) = none
field tag (t ∷ n ∷ rest) =
    if not (t == tag) then none else if leb 128 n then long_field n rest else split_field n rest

abbrev pub any_nonzero : Bytes → Bool
any_nonzero [] = false
any_nonzero (b ∷ bs) = not (b == 0) || any_nonzero bs

-- Over the 32 bytes that the caller's pointer spans.
unfoldable pub p256_scalar_valid : Bytes → Bool
p256_scalar_valid scalar = any_nonzero scalar && bytes_lt scalar order

abbrev pub version0 : Bytes
version0 = 0x02 ∷ 0x01 ∷ 0x00 ∷ []

abbrev pub version1 : Bytes
version1 = 0x02 ∷ 0x01 ∷ 0x01 ∷ []

abbrev outer_header : Bytes
outer_header = 0x30 ∷ 0x81 ∷ 0x87 ∷ 0x02 ∷ 0x01 ∷ 0x00 ∷ []

abbrev inner_header : Bytes
inner_header = 0x04 ∷ 0x6d ∷ 0x30 ∷ 0x6b ∷ 0x02 ∷ 0x01 ∷ 0x01 ∷ 0x04 ∷ 0x20 ∷ []

abbrev public_header : Bytes
public_header = 0xa1 ∷ 0x44 ∷ 0x03 ∷ 0x42 ∷ 0x00 ∷ []

-- What is written at `output`; `*written` is its length, and 0 where there is none.
pub encode_p256_pkcs8 : Bytes → Bytes → ℕ → Option Bytes
encode_p256_pkcs8 scalar point capacity =
    if ltb capacity 138 || not (get_or point 0 0 == 4) || not (p256_scalar_valid scalar)
    then none
    else some
        (outer_header ++ (algorithm ++ (inner_header ++ (scalar ++ (public_header ++ point)))))

abbrev starts : ℕ → Bytes → Bool
starts tag [] = false
starts tag (b ∷ bs) = b == tag

-- The optional SEC1 parameters: what of the key is left behind them.
decode_parameters : Bytes → Option Bytes
decode_parameters key =
    if starts 0xa0 key
    then (do
      (parameters, rest) ← field 0xa0 key
      left ← literal curve parameters
      guard (is_empty left)
      some rest)
    else some key

-- The optional SEC1 public key, which must be the caller's point.
decode_public : Bytes → Bytes → Option Bytes
decode_public point key =
    if starts 0xa1 key
    then (do
      (public_field, rest) ← field 0xa1 key
      (bits, left) ← field 0x03 public_field
      guard (is_empty left && length bits == 66 && get_or bits 0 1 == 0)
      guard (bytes_eq (drop 1 bits) point)
      some rest)
    else some key

-- The key inside the octet string, up to its private scalar.
decode_key : Bytes → Option (Bytes × Bytes)
decode_key input = do
  (outer, top) ← field 0x30 input
  guard (is_empty top)
  body ← literal version0 outer
  tail ← literal algorithm body
  (key_octets, outer_rest) ← field 0x04 tail
  guard (is_empty outer_rest)
  (key, octets_rest) ← field 0x30 key_octets
  guard (is_empty octets_rest)
  fields ← literal version1 key
  (value, key_rest) ← field 0x04 fields
  guard (length value == 32 && p256_scalar_valid value)
  some (value, key_rest)

-- The scalar, where the call returns true. `input` is not null.
pub decode_p256_pkcs8 : Bytes → Bytes → Option Bytes
unfolding decode_key decode_parameters decode_public
decode_p256_pkcs8 input point =
    if ltb 256 (length input) || not (get_or point 0 0 == 4) then none else (do
      (value, key) ← decode_key input
      after_parameters ← decode_parameters key
      after_public ← decode_public point after_parameters
      guard (is_empty after_public)
      some value)
