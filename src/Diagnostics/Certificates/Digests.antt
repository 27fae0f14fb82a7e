-- ===== src/Diagnostics/Certificates/Digests.antt =====
-- windows/external_native/diagnostics/l1_crypto_probe.h, `sha256_digest`. A word is a number below 2 ^ 32;
-- its sums wrap, and what a shift to the left pushes out is lost.
use Prim.Native.Nat.{bit_and, bit_or, bit_xor}
use shiroha_quiz.Base.{
  ℕ, zero, suc, ◌+◌, ◌-◌, ◌*◌, ◌/◌, ◌%◌, ◌^◌, List, [], ◌∷◌, ◌++◌, length, drop, get_or, replicate,
  Bytes,
}

abbrev round_constants : List ℕ
round_constants =
    0x428a2f98 ∷ 0x71374491 ∷ 0xb5c0fbcf ∷ 0xe9b5dba5 ∷ 0x3956c25b ∷ 0x59f111f1 ∷ 0x923f82a4
    ∷ 0xab1c5ed5 ∷ 0xd807aa98 ∷ 0x12835b01 ∷ 0x243185be ∷ 0x550c7dc3 ∷ 0x72be5d74 ∷ 0x80deb1fe
    ∷ 0x9bdc06a7 ∷ 0xc19bf174 ∷ 0xe49b69c1 ∷ 0xefbe4786 ∷ 0x0fc19dc6 ∷ 0x240ca1cc ∷ 0x2de92c6f
    ∷ 0x4a7484aa ∷ 0x5cb0a9dc ∷ 0x76f988da ∷ 0x983e5152 ∷ 0xa831c66d ∷ 0xb00327c8 ∷ 0xbf597fc7
    ∷ 0xc6e00bf3 ∷ 0xd5a79147 ∷ 0x06ca6351 ∷ 0x14292967 ∷ 0x27b70a85 ∷ 0x2e1b2138 ∷ 0x4d2c6dfc
    ∷ 0x53380d13 ∷ 0x650a7354 ∷ 0x766a0abb ∷ 0x81c2c92e ∷ 0x92722c85 ∷ 0xa2bfe8a1 ∷ 0xa81a664b
    ∷ 0xc24b8b70 ∷ 0xc76c51a3 ∷ 0xd192e819 ∷ 0xd6990624 ∷ 0xf40e3585 ∷ 0x106aa070 ∷ 0x19a4c116
    ∷ 0x1e376c08 ∷ 0x2748774c ∷ 0x34b0bcb5 ∷ 0x391c0cb3 ∷ 0x4ed8aa4a ∷ 0x5b9cca4f ∷ 0x682e6ff3
    ∷ 0x748f82ee ∷ 0x78a5636f ∷ 0x84c87814 ∷ 0x8cc70208 ∷ 0x90befffa ∷ 0xa4506ceb ∷ 0xbef9a3f7
    ∷ 0xc67178f2 ∷ []

abbrev rotr : ℕ → ℕ → ℕ
rotr x n = bit_or (x / 2 ^ n) (x * 2 ^ (32 - n) % 2 ^ 32)

abbrev xor3 : ℕ → ℕ → ℕ → ℕ
xor3 a b c = bit_xor (bit_xor a b) c

-- The eight words `h[0]` to `h[7]`, or `a` to `hh` inside a chunk.
pub record Words : Type 0 where
  pub a : ℕ
  pub b : ℕ
  pub c : ℕ
  pub d : ℕ
  pub e : ℕ
  pub f : ℕ
  pub g : ℕ
  pub h : ℕ

abbrev initial_words : Words
initial_words = record {
  a = 0x6a09e667;
  b = 0xbb67ae85;
  c = 0x3c6ef372;
  d = 0xa54ff53a;
  e = 0x510e527f;
  f = 0x9b05688c;
  g = 0x1f83d9ab;
  h = 0x5be0cd19;
}

-- The `n` low bytes of `v`, the highest first.
abbrev pub low_bytes : ℕ → ℕ → Bytes
low_bytes zero v = []
low_bytes (suc n) v = v / 256 ^ n % 256 ∷ low_bytes n v

abbrev total_length : ℕ → ℕ
total_length len = (len + 9 + 63) / 64 * 64

-- `padded`: the data, a bit, zeros, and the number of bits in the last eight bytes.
abbrev pub padded_data : Bytes → Bytes
padded_data data_bytes =
    data_bytes
    ++ (0x80
        ∷ (replicate (total_length (length data_bytes) - (length data_bytes + 9)) 0
            ++ low_bytes 8 (length data_bytes * 8 % 2 ^ 64)))

-- The first words of a chunk, from its bytes.
abbrev chunk_words : ℕ → Bytes → List ℕ
chunk_words zero p = []
chunk_words (suc n) p =
    (get_or p 0 0 * 2 ^ 24 + get_or p 1 0 * 2 ^ 16 + get_or p 2 0 * 2 ^ 8 + get_or p 3 0)
    ∷ chunk_words n (drop 4 p)

-- `w[i]` from the words before it.
abbrev next_word : ℕ → List ℕ → ℕ
next_word i w =
    let w15 = get_or w (i - 15) 0 in
    let w2 = get_or w (i - 2) 0 in
    let s0 = xor3 (rotr w15 7) (rotr w15 18) (w15 / 2 ^ 3) in
    let s1 = xor3 (rotr w2 17) (rotr w2 19) (w2 / 2 ^ 10) in
    (get_or w (i - 16) 0 + s0 + get_or w (i - 7) 0 + s1) % 2 ^ 32

abbrev extend : ℕ → ℕ → List ℕ → List ℕ
extend zero i w = w
extend (suc n) i w = extend n (i + 1) (w ++ next_word i w ∷ [])

-- One round, over `k[i]` and `w[i]`.
abbrev one_round : ℕ → ℕ → Words → Words
one_round k w s =
    let s1 = xor3 (rotr s.e 6) (rotr s.e 11) (rotr s.e 25) in
    let ch = bit_xor (bit_and s.e s.f) (bit_and (2 ^ 32 - 1 - s.e) s.g) in
    let temp1 = (s.h + s1 + ch + k + w) % 2 ^ 32 in
    let s0 = xor3 (rotr s.a 2) (rotr s.a 13) (rotr s.a 22) in
    let maj = xor3 (bit_and s.a s.b) (bit_and s.a s.c) (bit_and s.b s.c) in
    let temp2 = (s0 + maj) % 2 ^ 32 in
    record {
      a = (temp1 + temp2) % 2 ^ 32;
      b = s.a;
      c = s.b;
      d = s.c;
      e = (s.d + temp1) % 2 ^ 32;
      f = s.e;
      g = s.f;
      h = s.g;
    }

abbrev rounds : List ℕ → List ℕ → Words → Words
rounds [] ws s = s
rounds (k ∷ ks) [] s = s
rounds (k ∷ ks) (w ∷ ws) s = rounds ks ws (one_round k w s)

abbrev add_words : Words → Words → Words
add_words s t = record {
  a = (s.a + t.a) % 2 ^ 32;
  b = (s.b + t.b) % 2 ^ 32;
  c = (s.c + t.c) % 2 ^ 32;
  d = (s.d + t.d) % 2 ^ 32;
  e = (s.e + t.e) % 2 ^ 32;
  f = (s.f + t.f) % 2 ^ 32;
  g = (s.g + t.g) % 2 ^ 32;
  h = (s.h + t.h) % 2 ^ 32;
}

-- The chunks of 64 bytes, one after the other.
abbrev hash_chunks : ℕ → Bytes → Words → Words
hash_chunks zero p s = s
hash_chunks (suc n) p s =
    hash_chunks n (drop 64 p)
      (add_words s (rounds round_constants (extend 48 16 (chunk_words 16 p)) s))

abbrev word_bytes : Words → Bytes
word_bytes s =
    low_bytes 4 s.a
    ++ (low_bytes 4 s.b
        ++ (low_bytes 4 s.c
            ++ (low_bytes 4 s.d
                ++ (low_bytes 4 s.e ++ (low_bytes 4 s.f ++ (low_bytes 4 s.g ++ low_bytes 4 s.h))))))

unfoldable pub sha256_digest : Bytes → Bytes
sha256_digest data_bytes =
    word_bytes
      (hash_chunks (total_length (length data_bytes) / 64) (padded_data data_bytes) initial_words)
