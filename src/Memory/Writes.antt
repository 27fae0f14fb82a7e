-- ===== src/Memory/Writes.antt =====
-- Reads after writes.
use native.Mathlib.Nat.{add-zero, add_assoc, add_comm}
use native.Mathlib.Numerals.{add-one}
use shiroha_quiz.Base.{
  ℕ, zero, suc, ◌+◌, ◌-◌, ◌*◌, ◌/◌, ◌%◌, ◌^◌, ◌≤◌, ◌<◌, ◌≡◌, ◌⊎◌, refl, [], ◌∷◌, arith, length,
  replicate, Bytes, get_or,
}
use shiroha_quiz.Memory.{Memory, clear, copy, store, read, load, little_endian}

-- An address outside a span.
abbrev pub Outside : ℕ → ℕ → ℕ → Type 0
Outside p n a = (a < p) ⊎ (p + n ≤ a)

pub clear-Outside : (p n a : ℕ) (m : Memory) → Outside p n a → clear p n m a ≡ m a
unfolding clear
clear-Outside p n a m h = ground arith

pub copy-Outside :
    (p a : ℕ) (bytes : Bytes) (m : Memory) → Outside p (length bytes) a → copy p bytes m a ≡ m a
unfolding copy
copy-Outside p a bytes m h = ground arith

pub store-Outside : (p v a : ℕ) (m : Memory) → Outside p 8 a → store p v m a ≡ m a
unfolding store
store-Outside p v a m h = ground arith

copy_at :
    (p i : ℕ) (bytes : Bytes) (m : Memory)
    → i < length bytes
    → copy p bytes m (p + i) ≡ get_or bytes i 0
unfolding copy
copy_at p i bytes m h = let back : p + i - p ≡ i = omega arith in rw back (ground arith)

copy_first :
    (p : ℕ) (bytes : Bytes) (m : Memory) → 0 < length bytes → copy p bytes m p ≡ get_or bytes 0 0
unfolding copy
copy_first p bytes m h = let back : p - p ≡ 0 = omega arith in rw back (ground arith)

from_digits :
    (v : ℕ)
    → v < 2 ^ 64
    → ◌≡◌
        (v % 256
          + 256
            * (v / 256 % 256
                + 256
                  * (v / 256 / 256 % 256
                      + 256
                        * (v / 256 / 256 / 256 % 256
                            + 256
                              * (v / 256 / 256 / 256 / 256 % 256
                                  + 256
                                    * (v / 256 / 256 / 256 / 256 / 256 % 256
                                        + 256
                                          * (v / 256 / 256 / 256 / 256 / 256 / 256 % 256
                                              + 256
                                                * (v / 256 / 256 / 256 / 256 / 256 / 256 / 256
                                                    % 256))))))))
        v
from_digits v h = omega arith

pub load-store : (p v : ℕ) (m : Memory) → v < 2 ^ 64 → load p (store p v m) ≡ v
unfolding load store
load-store p v m h =
    let ds : Bytes = little_endian 8 v in
    rw
      (
        copy_first p ds m (omega arith),
        copy_at p 1 ds m (omega arith),
        copy_at p 2 ds m (omega arith),
        copy_at p 3 ds m (omega arith),
        copy_at p 4 ds m (omega arith),
        copy_at p 5 ds m (omega arith),
        copy_at p 6 ds m (omega arith),
        copy_at p 7 ds m (omega arith),
      )
      (from_digits v h)

-- What `read` finds is decided address by address.
pub read_cong :
    (n p : ℕ) (m k : Memory) → ((a : ℕ) → p ≤ a → a < p + n → m a ≡ k a) → read p n m ≡ read p n k
unfolding read
read_cong zero p m k h = refl
read_cong (suc n) p m k h = rw (
  h p (omega arith) (omega arith),
  read_cong n (p + 1) m k (λ a l r. h a (omega arith) (omega arith)),
)

-- A span that was cleared reads as zeros.
pub read-clear_within :
    (p n q k : ℕ) (m : Memory) → p ≤ q → q + k ≤ p + n → read q k (clear p n m) ≡ replicate k 0
unfolding read clear
read-clear_within p n q zero m l r = refl
read-clear_within p n q (suc k) m l r =
    rw (read-clear_within p n (q + 1) k m (omega arith) (omega arith)) (ground arith)

read_of_digits :
    (bytes : Bytes) (p : ℕ) (m : Memory)
    → ((i : ℕ) → i < length bytes → m (p + i) ≡ get_or bytes i 0)
    → read p (length bytes) m ≡ bytes
unfolding read
read_of_digits [] p m h = refl
read_of_digits (b ∷ bytes) p m h =
    let first : m p ≡ b = rw (add-zero p) at (h 0 (omega arith)) in
    rw (
      first,
      read_of_digits bytes (p + 1) m
          (λ i l. rw add_assoc (rw (add_comm 1 i) (rw (add-one i) (h (suc i) (omega arith))))),
    )

-- Copied bytes are read back.
pub read-copy :
    (p : ℕ) (bytes : Bytes) (m : Memory) → read p (length bytes) (copy p bytes m) ≡ bytes
read-copy p bytes m = read_of_digits bytes p (copy p bytes m) (λ i l. copy_at p i bytes m l)
