-- ===== src/Diagnostics/Certificates/Nodes.antt =====
-- windows/external_native/diagnostics/l1_crypto_probe.h, `read_node`: it reads the nodes of `der_wrap`.
use shiroha_quiz.Base.{
  ℕ, ◌+◌, ◌*◌, ◌/◌, ◌%◌, ◌≤◌, ◌<◌, ◌≡◌, refl, true, false, some, [], ◌∷◌, ◌++◌, arith, ltb, ◌==◌,
  length, Bytes, length-append, take-append, drop-append, Bool-cases, inl, inr,
}
use shiroha_quiz.Diagnostics.Certificates.{
  der_wrap, size_octets, Node, split_node, long_node, read_node,
}

abbrev pub whole_node : ℕ → Bytes → Bytes → Node
whole_node tag body rest = record { node = der_wrap tag body; body = body; rest = rest }

split_node-append :
    (header body rest : Bytes)
    → split_node header (length body) (body ++ rest)
      ≡ some (record { node = header ++ body; body = body; rest = rest })
unfolding split_node
split_node-append header body rest =
    let fits : ltb (length body + length rest) (length body) ≡ false = ground arith in
    rw (take-append body rest, drop-append body rest, length-append body rest, fits) refl

long_node-one :
    (tag a : ℕ) (p : Bytes)
    → ltb a 128 ≡ false
    → long_node tag 0x81 (a ∷ p) ≡ split_node (tag ∷ 0x81 ∷ a ∷ []) a p
unfolding long_node
long_node-one tag a [] h = rw h refl
long_node-one tag a (b ∷ p) h = rw h refl

long_node-two :
    (tag a b n : ℕ) (p : Bytes)
    → a * 256 + b ≡ n
    → ltb n 256 ≡ false
    → long_node tag 0x82 (a ∷ b ∷ p) ≡ split_node (tag ∷ 0x82 ∷ a ∷ b ∷ []) n p
unfolding long_node
long_node-two tag a b n p e h = rw (e, h) refl

-- `read_node` reads back what `der_wrap` writes, for every body of fewer than 2 ^ 16 bytes.
pub read_node-der_wrap :
    (tag : ℕ) (body rest : Bytes)
    → length body < 65536
    → read_node tag (der_wrap tag body ++ rest) ≡ some (whole_node tag body rest)
unfolding read_node der_wrap
read_node-der_wrap tag body rest h =
    let n = length body in
    let same : (tag == tag) ≡ true = ground arith in
    elim (Bool-cases (ltb n 128)) [
      | inl e ↦ rw e (rw (same, e, split_node-append (tag ∷ n ∷ []) body rest) refl)
      | inr e ↦ elim (Bool-cases (ltb n 256)) [
        | inl f ↦
            rw (e, f)
              (rw
                (
                  same,
                  long_node-one tag n (body ++ rest) e,
                  split_node-append (tag ∷ 0x81 ∷ n ∷ []) body rest,
                )
                refl)
        | inr f ↦
            rw (e, f)
              (let sum : n / 256 % 256 * 256 + n % 256 ≡ n = omega (arith, h) in
                rw
                  (
                    same,
                    long_node-two tag (n / 256 % 256) (n % 256) n (body ++ rest) sum f,
                    split_node-append (tag ∷ 0x82 ∷ n / 256 % 256 ∷ n % 256 ∷ []) body rest,
                  )
                  refl)
      ]
    ]

-- A header has four bytes at most.
pub length-der_wrap : (tag : ℕ) (body : Bytes) → length (der_wrap tag body) ≤ length body + 4
unfolding der_wrap
length-der_wrap tag body = ground (arith, length-append (size_octets (length body)) body)
