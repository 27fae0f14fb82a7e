-- ===== src/Diagnostics/Certificates/Integers.antt =====
-- windows/external_native/diagnostics/l1_crypto_probe.h, the integers of a signature: what is written for a
-- scalar is what is read as it.
use shiroha_quiz.Base.{
  ℕ, zero, suc, ◌-◌, ◌≤◌, ◌≡◌, refl, true, false, some, [], ◌∷◌, ◌++◌, arith, ltb, leb, ◌==◌,
  if◌then◌else◌, length, get_or, replicate, Bytes, length-append, length-replicate, Bool-cases, inl,
  inr, and-true_left, bytes_lt,
}
use shiroha_quiz.P256.{any_nonzero}
use shiroha_quiz.Diagnostics.Certificates.{
  skip_zeros, unsigned_body, scalar_in_range, magnitude, superfluous, padded, scalar_of,
  group_order,
}

length-skip_zeros : (k : ℕ) (bs : Bytes) → length (skip_zeros k bs) ≤ length bs
length-skip_zeros zero bs = omega arith
length-skip_zeros (suc k) [] = omega arith
length-skip_zeros (suc k) (b ∷ bs) = ground (arith, length-skip_zeros k bs)

-- The zeros that are skipped, put back.
zeros-skip_zeros :
    (k : ℕ) (bs : Bytes)
    → replicate (length bs - length (skip_zeros k bs)) 0 ++ skip_zeros k bs ≡ bs
zeros-skip_zeros zero bs =
    let none_left : length bs - length bs ≡ 0 = omega arith in rw none_left refl
zeros-skip_zeros (suc k) [] = refl
zeros-skip_zeros (suc k) (b ∷ bs) = elim (Bool-cases (b == 0)) [
  | inl e ↦ rw e (
      let more : length (b ∷ bs) - length (skip_zeros k bs)
          ≡ suc (length bs - length (skip_zeros k bs)) =
        omega (arith, length-skip_zeros k bs) in
      rw more (ground (arith, e, zeros-skip_zeros k bs)))
  | inr e ↦
      rw e
        (let none_left : length (b ∷ bs) - length (b ∷ bs) ≡ 0 = omega arith in rw none_left refl)
]

skip_zeros-head :
    (k : ℕ) (bs : Bytes)
    → any_nonzero bs ≡ true
    → length bs ≤ suc k
    → ¬ (get_or (skip_zeros k bs) 0 0 ≡ 0)
skip_zeros-head zero [] nz h = cc
skip_zeros-head zero (b ∷ []) nz h = λ e. ground (arith, e)
skip_zeros-head zero (b ∷ c ∷ bs) nz h = absurd (omega (arith, h))
skip_zeros-head (suc k) [] nz h = cc
skip_zeros-head (suc k) (b ∷ bs) nz h = ground (arith, skip_zeros-head k bs)

-- Zeros that are put before a body are skipped again.
skip_zeros-zeros :
    (n k : ℕ) (mag : Bytes)
    → n ≤ k
    → ¬ (get_or mag 0 0 ≡ 0)
    → skip_zeros k (replicate n 0 ++ mag) ≡ mag
skip_zeros-zeros zero zero mag h nz = refl
skip_zeros-zeros zero (suc k) [] h nz = refl
skip_zeros-zeros zero (suc k) (b ∷ bs) h nz = ground arith
skip_zeros-zeros (suc n) zero mag h nz = absurd (omega (arith, h))
skip_zeros-zeros (suc n) (suc k) mag h nz = skip_zeros-zeros n k mag (omega (arith, h)) nz

-- A magnitude as the body of an integer.
signed : Bytes → Bytes
signed mag = if leb 128 (get_or mag 0 0) then 0x00 ∷ mag else mag

magnitude-signed : (mag : Bytes) → ¬ (get_or mag 0 0 ≡ 0) → magnitude (signed mag) ≡ mag
unfolding signed
magnitude-signed [] nz = refl
magnitude-signed (b ∷ []) nz = ground arith
magnitude-signed (b ∷ c ∷ bs) nz = ground arith

superfluous-signed : (mag : Bytes) → ¬ (get_or mag 0 0 ≡ 0) → superfluous (signed mag) ≡ false
unfolding signed
superfluous-signed [] nz = refl
superfluous-signed (b ∷ []) nz = ground arith
superfluous-signed (b ∷ c ∷ bs) nz = ground arith

signed-magnitude :
    (bs : Bytes)
    → leb 128 (get_or bs 0 0) ≡ false
    → superfluous bs ≡ false
    → signed (magnitude bs) ≡ bs
unfolding signed
signed-magnitude [] h s = refl
signed-magnitude (b ∷ []) h s = ground arith
signed-magnitude (b ∷ c ∷ bs) h s = ground (arith, h, s)

-- The scalar that `read_int` reads, of 32 bytes and in range.
pub record IsScalar (s : Bytes) : Type 0 where
  pub size : length s ≡ 32
  pub in_range : scalar_in_range s ≡ true

head-signed : (mag : Bytes) → leb 128 (get_or (signed mag) 0 0) ≡ false
unfolding signed
head-signed mag = elim (Bool-cases (leb 128 (get_or mag 0 0))) [
  | inl e ↦ rw e refl
  | inr e ↦ rw (e, e) refl
]

not_empty : (mag : Bytes) → ¬ (get_or mag 0 0 ≡ 0) → (length mag == 0) ≡ false
not_empty [] nz = absurd (nz refl)
not_empty (b ∷ bs) nz = ground arith

scalar_of-signed :
    (mag : Bytes)
    → ¬ (get_or mag 0 0 ≡ 0)
    → length mag ≤ 32
    → scalar_in_range (padded mag) ≡ true
    → scalar_of (signed mag) ≡ some (padded mag)
unfolding scalar_of
scalar_of-signed mag nz h r =
    let fits : ltb 32 (length mag) ≡ false = ground arith in
    rw
      (
        head-signed mag,
        superfluous-signed mag nz,
        magnitude-signed mag nz,
        not_empty mag nz,
        fits,
        r,
      )
      refl

nonzero_of_in_range : (s : Bytes) → scalar_in_range s ≡ true → any_nonzero s ≡ true
unfolding scalar_in_range
nonzero_of_in_range s h = and-true_left (any_nonzero s) (bytes_lt s group_order) h

pub scalar_of-encode : (s : Bytes) → IsScalar s → scalar_of (unsigned_body 31 s) ≡ some s
unfolding signed
scalar_of-encode s h =
    let back : padded (skip_zeros 31 s) ≡ s = rw h.size at (zeros-skip_zeros 31 s) in
    let e =
      scalar_of-signed (skip_zeros 31 s)
        (skip_zeros-head 31 s (nonzero_of_in_range s h.in_range) (omega (arith, h.size)))
        (omega (arith, length-skip_zeros 31 s, h.size)) (rw back h.in_range) in
    rw back at e

-- What `scalar_of` has checked.
record IsRead (bytes s : Bytes) : Type 0 where
  plain : leb 128 (get_or bytes 0 0) ≡ false
  minimal : superfluous bytes ≡ false
  some_byte : ¬ (length (magnitude bytes) ≡ 0)
  fits : length (magnitude bytes) ≤ 32
  in_range : scalar_in_range (padded (magnitude bytes)) ≡ true
  is_padded : padded (magnitude bytes) ≡ s

scalar_of-IsRead : (bytes s : Bytes) → scalar_of bytes ≡ some s → IsRead bytes s
unfolding scalar_of
scalar_of-IsRead bytes s e = record {
  plain = ground (arith, e);
  minimal = ground (arith, e);
  some_byte = ground (arith, e);
  fits = ground (arith, e);
  in_range = ground (arith, e);
  is_padded = ground (arith, e);
}

magnitude-head : (bytes s : Bytes) → IsRead bytes s → ¬ (get_or (magnitude bytes) 0 0 ≡ 0)
magnitude-head [] s h = absurd (h.some_byte refl)
magnitude-head (b ∷ []) s h =
    let nz = nonzero_of_in_range (padded (b ∷ [])) h.in_range in ground (arith, nz)
magnitude-head (b ∷ c ∷ bs) s h = ground (arith, h.minimal, h.plain)

pub encode-scalar_of :
    (bytes s : Bytes) → scalar_of bytes ≡ some s → IsScalar s × (unsigned_body 31 s ≡ bytes)
unfolding signed
encode-scalar_of bytes s e =
    let h = scalar_of-IsRead bytes s e in
    let mag = magnitude bytes in
    let zeros = 32 - length mag in
    let skipped =
      skip_zeros-zeros zeros 31 mag (omega (arith, h.some_byte)) (magnitude-head bytes s h) in
    rw (← h.is_padded) (
      record {
        size = omega (
          arith,
          length-append (replicate {A = ℕ} zeros 0) mag,
          length-replicate {A = ℕ} zeros 0,
          h.fits,
        );
        in_range = h.in_range;
      },
      rw skipped (signed-magnitude bytes h.plain h.minimal),
    )

length-signed :
    (mag : Bytes) → (length mag ≤ length (signed mag)) × (length (signed mag) ≤ suc (length mag))
unfolding signed
length-signed mag = elim (Bool-cases (leb 128 (get_or mag 0 0))) [
  | inl e ↦ rw e (omega arith, omega arith)
  | inr e ↦ rw e (omega arith, omega arith)
]

-- An integer takes one byte more at most than it has.
pub unsigned_body_le : (limit : ℕ) (bs : Bytes) → length (unsigned_body limit bs) ≤ suc (length bs)
unfolding signed
unsigned_body_le limit bs =
    omega (arith, length-skip_zeros limit bs, (length-signed (skip_zeros limit bs)).1)

pub length-unsigned_body :
    (s : Bytes)
    → IsScalar s
    → (1 ≤ length (unsigned_body 31 s)) × (length (unsigned_body 31 s) ≤ 33)
unfolding signed
length-unsigned_body s h =
    let mag = skip_zeros 31 s in
    let nz = skip_zeros-head 31 s (nonzero_of_in_range s h.in_range) (omega (arith, h.size)) in
    let some_byte = not_empty mag nz in
    let at_most = length-skip_zeros 31 s in
    let both = length-signed mag in
    (ground (arith, some_byte, both), omega (arith, at_most, both.1, h.size))
