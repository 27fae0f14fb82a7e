-- ===== src/P256/Canonical.antt =====
-- What the PKCS#8 decoder accepts, read backwards from its result.
use shiroha_quiz.Base.{
  ℕ, ◌≡◌, refl, ap, ◌∙◌, Bool, true, false, Option, none, some, [], ◌∷◌, ◌++◌, arith, length,
  get_or, Bytes, is_empty, ◌==◌, bytes_eq, drop, not, ◌||◌, ltb, eq_of_bytes_eq, Bool-cases, inl,
  inr,
}
use mathlib.Core.List.{append-nil}
use mathlib.Core.Path.{subst}
use mathlib.Core.Option.{get_or as value_or}
use shiroha_quiz.P256.{
  ◌>>=◌, ◌>>◌, guard, algorithm, curve, version0, version1, p256_scalar_valid, decode_p256_pkcs8,
  decode_key, decode_parameters, decode_public, field, starts,
}
use shiroha_quiz.P256.Der.{tlv, append_of_literal, tlv_of_field}
use shiroha_quiz.P256.RoundTrip.{parameters_field, public_field, pkcs8}

-- Every result of `m` meets `P`.
pub record Ends {ℓ} {A : Type ℓ} (P : A → Type 0) (m : Option A) : Type ℓ where
  pub at : (a : A) → m ≡ some a → P a

module _ {A : Type 0} {P : A → Type 0} where
  pub Ends-some : (a : A) → P a → Ends P (some a)
  Ends-some a h = record { at = λ b e. subst P (ap (λ o. value_or o a) e) h }

  pub Ends-bind {κ} :
      {B : Type κ} (m : Option B) (f : B → Option A)
      → ((b : B) → m ≡ some b → Ends P (f b))
      → Ends P (m >>= f)
  unfolding ◌>>=◌
  Ends-bind none f k = record { at = λ a e. cc }
  Ends-bind (some b) f k = k b refl

  pub Ends-guard : (t : Bool) (m : Option A) → (t ≡ true → Ends P m) → Ends P (guard t >> m)
  unfolding ◌>>=◌
  Ends-guard true m k = k refl
  Ends-guard false m k = record { at = λ a e. cc }

pub nil_of_is_empty : (xs : Bytes) → is_empty xs ≡ true → xs ≡ []
nil_of_is_empty [] h = refl
nil_of_is_empty (x ∷ xs) h = cc

-- The only field of its parent.
only_field :
    (tag : ℕ) (p body rest : Bytes)
    → field tag p ≡ some (body, rest)
    → is_empty rest ≡ true
    → p ≡ tlv tag body
only_field tag p body rest h e =
    tlv_of_field tag p body rest h ∙ rw (nil_of_is_empty rest e) (append-nil (tlv tag body))

pub record IsKeyBody (input value rest : Bytes) : Type 0 where
  pub scalar_length : length value ≡ 32
  pub scalar_valid : p256_scalar_valid value ≡ true
  pub form :
      input
      ≡ tlv 0x30
          (version0 ++ (algorithm ++ tlv 0x04 (tlv 0x30 (version1 ++ (tlv 0x04 value ++ rest)))))

decode_key-Ends : (input : Bytes) → Ends (λ r. IsKeyBody input r.0 r.1) (decode_key input)
unfolding decode_key
decode_key-Ends input = Ends-bind _ _ λ a ea. Ends-guard _ _ λ ga. Ends-bind _ _ λ b eb.
    Ends-bind _ _ λ c ec. Ends-bind _ _ λ d ed. Ends-guard _ _ λ gd. Ends-bind _ _ λ k ek.
      Ends-guard _ _ λ gk. Ends-bind _ _ λ l el. Ends-bind _ _ λ v ev. Ends-guard _ _ λ gv.
        Ends-some _ (record {
          scalar_length = ground (arith, gv);
          scalar_valid = ground (arith, gv);
          form = cc (
            only_field 0x30 input a.0 a.1 ea ga,
            append_of_literal version0 a.0 b eb,
            append_of_literal algorithm b c ec,
            only_field 0x04 c d.0 d.1 ed gd,
            only_field 0x30 d.0 k.0 k.1 ek gk,
            append_of_literal version1 k.0 l el,
            tlv_of_field 0x04 l v.0 v.1 ev,
          );
        })

parameters-Ends :
    (key : Bytes)
    → Ends (λ rest. (a : Bool) × (key ≡ parameters_field a ++ rest)) (decode_parameters key)
unfolding decode_parameters
parameters-Ends key = elim (Bool-cases (starts 0xa0 key)) [
  | inl e ↦ rw e (
      Ends-bind _ _ λ f ef. Ends-bind _ _ λ l el. Ends-guard _ _ λ g. Ends-some _ (
        true,
        cc (
          tlv_of_field 0xa0 key f.0 f.1 ef,
          append_of_literal curve f.0 l el,
          nil_of_is_empty l g,
          append-nil curve,
        ),
      ))
  | inr e ↦ rw e (Ends-some key (false, refl))
]

bits_form :
    (bits point : Bytes)
    → length bits ≡ 66
    → get_or bits 0 1 ≡ 0
    → bytes_eq (drop 1 bits) point ≡ true
    → bits ≡ 0 ∷ point
bits_form [] point h z e = absurd (omega arith)
bits_form (b ∷ bits) point h z e = cc (z, eq_of_bytes_eq bits point e)

public-Ends :
    (point key : Bytes)
    → Ends (λ rest. (b : Bool) × (key ≡ public_field b point ++ rest)) (decode_public point key)
unfolding decode_public
public-Ends point key = elim (Bool-cases (starts 0xa1 key)) [
  | inl e ↦ rw e (
      Ends-bind _ _ λ f ef. Ends-bind _ _ λ s es. Ends-guard _ _ λ g. Ends-guard _ _ λ m.
        Ends-some _ (
          true,
          cc (
            tlv_of_field 0xa1 key f.0 f.1 ef,
            only_field 0x03 f.0 s.0 s.1 es (ground (arith, g)),
            bits_form s.0 point (ground (arith, g)) (ground (arith, g)) m,
          ),
        ))
  | inr e ↦ rw e (Ends-some key (false, refl))
]

pub record IsAccepted (input point scalar : Bytes) : Type 0 where
  pub parameters : Bool
  pub public : Bool
  pub form : input ≡ pkcs8 parameters public scalar point
  pub scalar_length : length scalar ≡ 32
  pub scalar_valid : p256_scalar_valid scalar ≡ true

decode-Ends : (input point : Bytes) → Ends (IsAccepted input point) (decode_p256_pkcs8 input point)
unfolding decode_p256_pkcs8
decode-Ends input point =
    elim (Bool-cases (ltb 256 (length input) || not (get_or point 0 0 == 4))) [
      | inl e ↦ rw e (record { at = λ a h. cc })
      | inr e ↦ rw e (
          Ends-bind _ _ λ k ek. Ends-bind _ _ λ p ep. Ends-bind _ _ λ q eq. Ends-guard _ _ λ g.
            Ends-some _ (
              let body = (decode_key-Ends input).at k ek in
              let (a, ea) = (parameters-Ends k.1).at p ep in
              let (b, eb) = (public-Ends point p).at q eq in
              record {
                parameters = a;
                public = b;
                form =
                    cc (body.form, ea, eb, nil_of_is_empty q g, append-nil (public_field b point));
                scalar_length = body.scalar_length;
                scalar_valid = body.scalar_valid;
              }))
    ]

-- Whatever the decoder accepts is one of the four canonical forms of the scalar that it returns, with
-- the caller's point as its public key where it has one, and the scalar is valid.
pub decode_canonical :
    (input point scalar : Bytes)
    → decode_p256_pkcs8 input point ≡ some scalar
    → IsAccepted input point scalar
decode_canonical input point scalar h = (decode-Ends input point).at scalar h
