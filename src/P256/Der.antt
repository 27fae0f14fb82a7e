-- ===== src/P256/Der.antt =====
-- The DER tag-length-value form that `Reader::field` reads: read exactly what it writes.
use shiroha_quiz.Base.{
  ℕ, zero, suc, ◌+◌, ◌≤◌, ◌<◌, ◌≡◌, refl, ap, some, [], ◌∷◌, ◌++◌, arith, leb, if◌then◌else◌,
  Bool-cases, inl, inr, length, take, drop, length-append, length-take, take-append, drop-append,
  Bytes, bytes_eq_refl, eq_of_bytes_eq,
}
use shiroha_quiz.P256.{literal, field, split_field, long_field}

-- The length octets of a body of fewer than 256 bytes, in DER's one form.
abbrev pub length_octets : ℕ → Bytes
length_octets n = if leb 128 n then 0x81 ∷ n ∷ [] else n ∷ []

unfoldable pub tlv : ℕ → Bytes → Bytes
tlv tag body = tag ∷ (length_octets (length body) ++ body)

pub literal-append : (bytes rest : Bytes) → literal bytes (bytes ++ rest) ≡ some rest
unfolding literal
literal-append bytes rest =
    rw
      (
        take-append bytes rest,
        drop-append bytes rest,
        bytes_eq_refl bytes,
        length-append bytes rest,
      )
      (ground arith)

pub take-append-drop : (n : ℕ) (xs : Bytes) → take n xs ++ drop n xs ≡ xs
take-append-drop zero xs = refl
take-append-drop (suc n) [] = refl
take-append-drop (suc n) (x ∷ xs) = ap (◌∷◌ x) (take-append-drop n xs)

-- Whatever `literal` accepts begins with the expected bytes.
pub append_of_literal : (bytes p rest : Bytes) → literal bytes p ≡ some rest → p ≡ bytes ++ rest
unfolding literal
append_of_literal bytes p rest h =
    ground (arith, eq_of_bytes_eq (take (length bytes) p) bytes, take-append-drop (length bytes) p)

split_field-append :
    (n : ℕ) (body rest : Bytes) → length body ≡ n → split_field n (body ++ rest) ≡ some (body, rest)
unfolding split_field
split_field-append n body rest e =
    rw (← e)
      (rw (take-append body rest, drop-append body rest, length-append body rest) (ground arith))

-- `field` reads back what `tlv` writes, for every body of fewer than 256 bytes.
pub field-tlv :
    (tag : ℕ) (body rest : Bytes)
    → length body < 256
    → field tag (tlv tag body ++ rest) ≡ some (body, rest)
unfolding field long_field tlv
field-tlv tag body rest h = elim (Bool-cases (leb 128 (length body))) [
  | inl e ↦ rw e (ground (arith, split_field-append (length body) body rest))
  | inr e ↦ rw e (ground (arith, split_field-append (length body) body rest))
]

split_field_inv :
    (n : ℕ) (p body rest : Bytes)
    → split_field n p ≡ some (body, rest)
    → (p ≡ body ++ rest) × (length body ≡ n)
unfolding split_field
split_field_inv n p body rest h = ground (arith, take-append-drop n p, length-take n p)

-- Whatever `field` accepts is the one DER form of the child, with the rest behind it.
pub tlv_of_field :
    (tag : ℕ) (p body rest : Bytes) → field tag p ≡ some (body, rest) → p ≡ tlv tag body ++ rest
unfolding field long_field tlv
tlv_of_field tag [] body rest h = cc
tlv_of_field tag (t ∷ []) body rest h = cc
tlv_of_field tag (t ∷ n ∷ []) body rest h = ground (arith, split_field_inv n [] body rest)
tlv_of_field tag (t ∷ n ∷ l ∷ p) body rest h =
    ground (arith, split_field_inv l p body rest, split_field_inv n (l ∷ p) body rest)

pub length-tlv : (tag : ℕ) (body : Bytes) → length (tlv tag body) ≤ length body + 3
unfolding tlv
length-tlv tag body = ground (arith, length-append (length_octets (length body)) body)

pub tlv_at :
    (tag n : ℕ) (body : Bytes) → length body ≡ n → tlv tag body ≡ tag ∷ (length_octets n ++ body)
unfolding tlv
tlv_at tag n body e = rw e
