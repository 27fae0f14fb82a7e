-- ===== src/Memory.antt =====
-- The flat memory behind the C interface, and the checks of its spans: `span`, `count` and `overlap`
-- of windows/external_native/association_files.cpp, which native_core.cpp, native_crypto.cpp,
-- discovery_files.cpp and exchange_files.cpp repeat. A pointer is its address; 0 is null.
pub mod Spans
pub mod Writes
use shiroha_quiz.Base.{
  ℕ, zero, suc, ◌+◌, ◌-◌, ◌*◌, ◌/◌, ◌%◌, ◌^◌, Bool, ◌&&◌, not, List, [], ◌∷◌, ltb, leb, ◌==◌,
  if◌then◌else◌, length, get_or, Bytes,
}
use shiroha_quiz.Status.{max_bytes, uintptr_max}

abbrev pub Memory : Type 0
Memory = ℕ → ℕ

-- A borrowed span is usable: not null, of 1 to 65536 bytes, and its end does not wrap.
unfoldable pub span : ℕ → ℕ → Bool
span p n = not (p == 0) && (ltb 0 n && (leb n max_bytes && leb p (uintptr_max - n)))

-- A usable, aligned uint64_t.
unfoldable pub count : ℕ → Bool
unfolding span
count p = span p 8 && p % 8 == 0

-- The additions are on uintptr_t, and wrap.
unfoldable pub overlap : ℕ → ℕ → ℕ → ℕ → Bool
overlap x n y m = ltb x ((y + m) % 2 ^ 64) && ltb y ((x + n) % 2 ^ 64)

-- `SecureZeroMemory(p, n)`
unfoldable pub clear : ℕ → ℕ → Memory → Memory
clear p n m a = if leb p a && ltb a (p + n) then 0 else m a

-- `memcpy(p, bytes, size)`
unfoldable pub copy : ℕ → Bytes → Memory → Memory
copy p bytes m a = if leb p a && ltb a (p + length bytes) then get_or bytes (a - p) 0 else m a

-- The bytes of a number, the lowest first.
pub little_endian : ℕ → ℕ → Bytes
little_endian zero v = []
little_endian (suc n) v = v % 256 ∷ little_endian n (v / 256)

-- `*p = v` at a uint64_t.
unfoldable pub store : ℕ → ℕ → Memory → Memory
unfolding copy little_endian
store p v m = copy p (little_endian 8 v) m

-- The bytes that a span holds.
unfoldable pub read : ℕ → ℕ → Memory → Bytes
read p zero m = []
read p (suc n) m = m p ∷ read (p + 1) n m

-- The value at a uint64_t.
unfoldable pub load : ℕ → Memory → ℕ
load p m =
    m p
    + 256
      * (m (p + 1)
          + 256
            * (m (p + 2)
                + 256
                  * (m (p + 3)
                      + 256
                        * (m (p + 4) + 256 * (m (p + 5) + 256 * (m (p + 6) + 256 * m (p + 7)))))))
