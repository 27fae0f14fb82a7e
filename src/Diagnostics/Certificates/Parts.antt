-- ===== src/Diagnostics/Certificates/Parts.antt =====
-- windows/external_native/diagnostics/l1_crypto_probe.h, one integer of a signature at its place: `read_int`
-- against `encode_int`.
use shiroha_quiz.Base.{
  ℕ, ◌+◌, ◌≤◌, ◌≡◌, refl, true, false, ◌||◌, some, [], ◌∷◌, ◌++◌, arith, ltb, ◌==◌, length, take,
  drop, Bytes, length-append, length-take, take-append, drop-append,
}
use shiroha_quiz.P256.{◌>>=◌}
use shiroha_quiz.P256.Der.{take-append-drop}
use shiroha_quiz.Diagnostics.Certificates.{der_wrap, unsigned_body, encode_int, scalar_of, read_int}
use shiroha_quiz.Diagnostics.Certificates.Integers.{
  IsScalar, scalar_of-encode, encode-scalar_of, length-unsigned_body,
}

int_guards : (n r : ℕ) → 1 ≤ n → n ≤ 33 → (n == 0 || (ltb 33 n || ltb (n + r) n)) ≡ false
int_guards n r h k = ground arith

-- `read_int` reads back what `encode_int` writes.
pub read_int-encode_int :
    (s rest : Bytes) → IsScalar s → read_int (encode_int s ++ rest) ≡ some (s, rest)
unfolding read_int encode_int der_wrap ◌>>=◌
read_int-encode_int s rest h =
    let body = unsigned_body 31 s in
    let size = length-unsigned_body s h in
    let short : ltb (length body) 128 ≡ true = ground (arith, size) in
    rw short (
      rw
        (
          take-append body rest,
          drop-append body rest,
          scalar_of-encode s h,
          length-append body rest,
          int_guards (length body) (length rest) size.0 size.1,
        )
        refl)

record IsPart (t n : ℕ) (p s rest : Bytes) : Type 0 where
  tag : t ≡ 2
  enough : n ≤ length p
  at_most : n ≤ 33
  scalar : scalar_of (take n p) ≡ some s
  behind : drop n p ≡ rest

read_int-IsPart :
    (t n : ℕ) (p s rest : Bytes) → read_int (t ∷ n ∷ p) ≡ some (s, rest) → IsPart t n p s rest
unfolding read_int ◌>>=◌
read_int-IsPart t n p s rest e = record {
  tag = ground (arith, e);
  enough = ground (arith, e);
  at_most = ground (arith, e);
  scalar = ground (arith, e);
  behind = ground (arith, e);
}

-- Whatever `read_int` accepts is what `encode_int` writes for the scalar that it returns.
pub encode_int-read_int :
    (p s rest : Bytes) → read_int p ≡ some (s, rest) → IsScalar s × (p ≡ encode_int s ++ rest)
unfolding read_int encode_int der_wrap
encode_int-read_int [] s rest e = absurd (cc e)
encode_int-read_int (t ∷ []) s rest e = absurd (cc e)
encode_int-read_int (t ∷ n ∷ p) s rest e =
    let h = read_int-IsPart t n p s rest e in
    let back = encode-scalar_of (take n p) s h.scalar in
    let size = length-take n p h.enough in
    let short : ltb n 128 ≡ true = let m = h.at_most in ground (arith, m) in
    let whole = take-append-drop n p in
    (back.0, rw (back.1, size, short, h.tag, ← h.behind, whole) refl)
