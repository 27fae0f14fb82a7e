-- ===== src/P256/Scalar.antt =====
-- `p256_scalar_valid` as arithmetic: the byte order of `memcmp` is that of the numbers.
use native.Mathlib.Nat.{pow-suc}
use shiroha_quiz.Base.{
  ℕ, ◌+◌, ◌*◌, ◌^◌, ◌<◌, ◌≡◌, ◌↔◌, Bool, true, [], ◌∷◌, ◌&&◌, ◌||◌, not, arith, ltb, ◌==◌, length,
  Bytes, bytes_lt, AreBytes,
}
use shiroha_quiz.P256.{order, p256_scalar_valid, any_nonzero}

-- The number that a big-endian byte string stands for.
pub big_endian : Bytes → ℕ
big_endian [] = 0
big_endian (b ∷ bs) = b * 256 ^ length bs + big_endian bs

big_endian-lt : (bs : Bytes) → AreBytes bs → big_endian bs < 256 ^ length bs
unfolding big_endian
big_endian-lt [] h = omega arith
big_endian-lt (b ∷ bs) h = grind (arith, big_endian-lt bs h.1, pow-suc 256 (length bs))

-- Two numbers with a high digit and a smaller remainder.
digit_lt : (p x y r s : ℕ) → r < p → s < p → x < y → x * p + r < y * p + s
digit_lt p x y r s hr hs h = grind arith

lex_iff :
    (p x y r s : ℕ) (t : Bool)
    → r < p
    → s < p
    → (t ≡ true) ↔ (r < s)
    → ((ltb x y || (x == y && t)) ≡ true) ↔ (x * p + r < y * p + s)
lex_iff p x y r s t hr hs h = (
  λ e. ground (arith, digit_lt p x y r s hr hs, h.0),
  λ l. ground (arith, digit_lt p y x s r hs hr, h.1),
)

bytes_lt_iff :
    (xs ys : Bytes)
    → length xs ≡ length ys
    → AreBytes xs
    → AreBytes ys
    → (bytes_lt xs ys ≡ true) ↔ (big_endian xs < big_endian ys)
unfolding big_endian
bytes_lt_iff [] [] e hx hy = (λ h. cc, λ h. absurd (omega arith))
bytes_lt_iff [] (y ∷ ys) e hx hy = absurd (omega arith)
bytes_lt_iff (x ∷ xs) [] e hx hy = absurd (omega arith)
bytes_lt_iff (x ∷ xs) (y ∷ ys) e hx hy =
    let same : length xs ≡ length ys = omega arith in
    rw (← same) (
      lex_iff (256 ^ length xs) x y (big_endian xs) (big_endian ys) (bytes_lt xs ys)
        (big_endian-lt xs hx.1) (rw (← same) at (big_endian-lt ys hy.1))
        (bytes_lt_iff xs ys same hx.1 hy.1))

digit_pos : (p x r : ℕ) → 0 < p → 0 < x → 0 < x * p + r
digit_pos p x r h k = grind arith

head_iff :
    (p x r : ℕ) (t : Bool)
    → 0 < p
    → (t ≡ true) ↔ (0 < r)
    → ((not (x == 0) || t) ≡ true) ↔ (0 < x * p + r)
head_iff p x r t hp h = (λ e. ground (arith, digit_pos p x r hp, h.0), λ l. ground (arith, h.1))

any_nonzero_iff : (xs : Bytes) → AreBytes xs → (any_nonzero xs ≡ true) ↔ (0 < big_endian xs)
unfolding big_endian
any_nonzero_iff [] h = (λ e. cc, λ l. absurd (omega arith))
any_nonzero_iff (x ∷ xs) h =
    head_iff (256 ^ length xs) x (big_endian xs) (any_nonzero xs)
      (omega (arith, big_endian-lt xs h.1)) (any_nonzero_iff xs h.1)

-- On 32 bytes the test is exactly 0 < d < n, for their number d and the group order n.
pub p256_scalar_valid_iff :
    (scalar : Bytes)
    → length scalar ≡ 32
    → AreBytes scalar
    → (p256_scalar_valid scalar ≡ true)
      ↔ ((0 < big_endian scalar) × (big_endian scalar < big_endian order))
unfolding p256_scalar_valid
p256_scalar_valid_iff scalar e h =
    let nonzero = any_nonzero_iff scalar h in
    let below = bytes_lt_iff scalar order e h (omega arith) in
    (λ v. ground (arith, nonzero.0, below.0), λ v. ground (arith, nonzero.1, below.1))
