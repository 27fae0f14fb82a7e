-- ===== src/Diagnostics/Certificates/Signatures.antt =====
-- windows/external_native/diagnostics/l1_crypto_probe.h, `raw_signature_to_der` and `der_signature_to_raw`.
use mathlib.Core.List.{append-nil}
use mathlib.Core.Path.{subst}
use shiroha_quiz.Base.{
  ℕ, ◌+◌, ◌≤◌, ◌<◌, ◌≡◌, refl, sym, ap, ◌↔◌, true, false, ◌||◌, not, some, [], ◌∷◌, ◌++◌, arith,
  ltb, leb, ◌==◌, length, take, drop, Bytes, length-append, length-take, take-append, drop-append,
}
use shiroha_quiz.P256.{◌>>=◌}
use shiroha_quiz.P256.Der.{take-append-drop}
use shiroha_quiz.P256.Canonical.{Ends, Ends-some, Ends-bind, Ends-guard, nil_of_is_empty}
use shiroha_quiz.Diagnostics.Certificates.{
  der_wrap, unsigned_body, scalar_in_range, encode_int, read_parts, raw_signature_to_der,
  der_signature_to_raw,
}
use shiroha_quiz.Diagnostics.Certificates.Integers.{IsScalar, length-unsigned_body}
use shiroha_quiz.Diagnostics.Certificates.Parts.{read_int-encode_int, encode_int-read_int}

-- The two scalars of a signature that `raw_signature_to_der` takes.
pub record IsSignature (raw : Bytes) : Type 0 where
  pub size : length raw ≡ 64
  pub first : scalar_in_range (take 32 raw) ≡ true
  pub second : scalar_in_range (drop 32 raw) ≡ true

short_wrap :
    (tag : ℕ) (body : Bytes) → length body < 128 → der_wrap tag body ≡ tag ∷ length body ∷ body
unfolding der_wrap
short_wrap tag body h =
    let short : ltb (length body) 128 ≡ true = ground (arith, h) in rw short refl

length-encode_int :
    (s : Bytes) → IsScalar s → (3 ≤ length (encode_int s)) × (length (encode_int s) ≤ 35)
unfolding encode_int
length-encode_int s h =
    let size = length-unsigned_body s h in
    let small : length (unsigned_body 31 s) < 128 = omega (arith, size.1) in
    rw (short_wrap 2 (unsigned_body 31 s) small) (omega (arith, size.0), omega (arith, size.1))

pair : Bytes → Bytes → Bytes
pair r s = encode_int r ++ encode_int s

length-pair :
    (r s : Bytes) → IsScalar r → IsScalar s → (6 ≤ length (pair r s)) × (length (pair r s) ≤ 70)
unfolding pair
length-pair r s hr hs =
    let sum = length-append (encode_int r) (encode_int s) in
    let a = length-encode_int r hr in
    let b = length-encode_int s hs in (omega (arith, sum, a.0, b.0), omega (arith, sum, a.1, b.1))

read_parts-pair : (r s : Bytes) → IsScalar r → IsScalar s → read_parts (pair r s) ≡ some (r ++ s)
unfolding read_parts pair ◌>>=◌
read_parts-pair r s hr hs =
    let last = rw (append-nil (encode_int s)) at (read_int-encode_int s [] hs) in
    rw (read_int-encode_int r (encode_int s) hr, last) refl

der_guards :
    (n : ℕ)
    → 6 ≤ n
    → n ≤ 70
    → ((ltb (2 + n) 8 || ltb 72 (2 + n)) ≡ false) × ((leb 128 n || not (2 + n == 2 + n)) ≡ false)
der_guards n h k = (ground arith, ground arith)

raw_of_pair :
    (r s : Bytes)
    → IsScalar r
    → IsScalar s
    → der_signature_to_raw (der_wrap 0x30 (pair r s)) ≡ some (r ++ s)
unfolding der_signature_to_raw
raw_of_pair r s hr hs =
    let size = length-pair r s hr hs in
    let (within, same) = der_guards (length (pair r s)) size.0 size.1 in
    rw (short_wrap 0x30 (pair r s) (omega (arith, size.1)))
      (rw (within, same, read_parts-pair r s hr hs) refl)

der_of_pair :
    (r s : Bytes)
    → IsScalar r
    → IsScalar s
    → raw_signature_to_der (r ++ s) ≡ some (der_wrap 0x30 (pair r s))
unfolding raw_signature_to_der pair
der_of_pair r s hr hs =
    let front = rw hr.size at (take-append r s) in
    let back = rw hr.size at (drop-append r s) in
    let size : length (r ++ s) ≡ 64 = omega (arith, length-append r s, hr.size, hs.size) in
    rw (front, back, size, hr.in_range, hs.in_range) refl

-- A raw signature and its DER form, by their scalars.
record IsPair (raw der : Bytes) : Type 0 where
  r : Bytes
  s : Bytes
  r_scalar : IsScalar r
  s_scalar : IsScalar s
  is_raw : raw ≡ r ++ s
  is_der : der ≡ der_wrap 0x30 (pair r s)

length_of_drop : (raw : Bytes) → length raw ≡ 64 → length (drop 32 raw) ≡ 32
length_of_drop raw size =
    let sum = rw (take-append-drop 32 raw) at (length-append (take 32 raw) (drop 32 raw)) in
    omega (arith, size, sum, length-take 32 raw (omega (arith, size)))

raw-IsPair : (raw der : Bytes) → raw_signature_to_der raw ≡ some der → IsPair raw der
unfolding raw_signature_to_der pair
raw-IsPair raw der e =
    let size : length raw ≡ 64 = ground (arith, e) in
    let whole = take-append-drop 32 raw in
    record {
      r = take 32 raw;
      s = drop 32 raw;
      r_scalar = record {
        size = length-take 32 raw (omega (arith, size));
        in_range = ground (arith, e);
      };
      s_scalar = record { size = length_of_drop raw size; in_range = ground (arith, e) };
      is_raw = sym whole;
      is_der = ground (arith, e);
    }

read_parts-Ends : (p : Bytes) → Ends (λ raw. IsPair raw (der_wrap 0x30 p)) (read_parts p)
unfolding read_parts pair
read_parts-Ends p = Ends-bind _ _ λ a ea. Ends-bind _ _ λ b eb. Ends-guard _ _ λ g.
    let (r_scalar, r_form) = encode_int-read_int p a.0 a.1 ea in
    let (s_scalar, s_form) = encode_int-read_int a.1 b.0 b.1 eb in
    Ends-some (a.0 ++ b.0) (record {
      r = a.0;
      s = b.0;
      r_scalar = r_scalar;
      s_scalar = s_scalar;
      is_raw = refl;
      is_der =
          ap (der_wrap 0x30)
            (cc (r_form, s_form, nil_of_is_empty b.1 g, append-nil (encode_int b.0)));
    })

der-IsPair : (raw der : Bytes) → der_signature_to_raw der ≡ some raw → IsPair raw der
unfolding der_signature_to_raw
der-IsPair raw [] e = absurd (cc e)
der-IsPair raw (t ∷ []) e = absurd (cc e)
der-IsPair raw (t ∷ n ∷ p) e =
    let form : t ∷ n ∷ p ≡ der_wrap 0x30 p =
      (let tag : t ≡ 0x30 = ground (arith, e) in
        let size : n ≡ length p = ground (arith, e) in
        let small : length p < 128 = ground (arith, e) in
        rw (short_wrap 0x30 p small, tag, size) refl) in
    let parts : read_parts p ≡ some raw = ground (arith, e) in
    subst (IsPair raw) (sym form) ((read_parts-Ends p).at raw parts)

-- The two directions accept exactly the same pairs: what the encoder writes for a raw signature decodes to
-- it, and whatever the decoder accepts is the one form that the encoder writes for its result.
pub raw_signature_to_der_iff :
    (raw der : Bytes)
    → (raw_signature_to_der raw ≡ some der) ↔ (der_signature_to_raw der ≡ some raw)
raw_signature_to_der_iff raw der = (
  λ e.
      let k = raw-IsPair raw der e in
      cc (k.is_raw, k.is_der, raw_of_pair k.r k.s k.r_scalar k.s_scalar),
  λ e.
      let k = der-IsPair raw der e in
      cc (k.is_raw, k.is_der, der_of_pair k.r k.s k.r_scalar k.s_scalar),
)

-- The DER form of a raw signature.
pub record IsDer (raw der : Bytes) : Type 0 where
  pub written : raw_signature_to_der raw ≡ some der
  pub read : der_signature_to_raw der ≡ some raw
  pub some_byte : 1 ≤ length der
  pub at_most : length der ≤ 72

pub signature-IsDer : (raw : Bytes) → IsSignature raw → (der : Bytes) × IsDer raw der
signature-IsDer raw h =
    let r = take 32 raw in
    let s = drop 32 raw in
    let whole = take-append-drop 32 raw in
    let rest_size : length s ≡ 32 = length_of_drop raw h.size in
    let hr : IsScalar r = record {
      size = length-take 32 raw (omega (arith, h.size));
      in_range = h.first;
    } in
    let hs : IsScalar s = record { size = rest_size; in_range = h.second } in
    let size = length-pair r s hr hs in
    let written = der_of_pair r s hr hs in
    let read = raw_of_pair r s hr hs in
    let form = short_wrap 0x30 (pair r s) (omega (arith, size.1)) in
    (
      der_wrap 0x30 (pair r s),
      record {
        written = rw whole at written;
        read = rw whole at read;
        some_byte = rw form (omega (arith, size.0));
        at_most = rw form (omega (arith, size.1));
      },
    )
