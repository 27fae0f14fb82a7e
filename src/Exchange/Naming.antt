-- ===== src/Exchange/Naming.antt =====
-- The file names of the exchange directory.
use mathlib.Core.Path.{subst}
use shiroha_quiz.Base.{
  ℕ, ◌/◌, ◌%◌, ◌<◌, ◌≤◌, ◌≡◌, refl, sym, ap, ◌∙◌, Bool-cases, inl, inr, [], ◌∷◌, ◌++◌, arith, ◌==◌,
  if◌then◌else◌, Bytes, length, AreBytes, drop, drop-append,
}
use shiroha_quiz.Exchange.{hex_id, hex_digit, filename, prefix, suffix}

hex_digit_lem : (x y : ℕ) → x < 16 → y < 16 → hex_digit x ≡ hex_digit y → x ≡ y
hex_digit_lem x y hx hy h = ground arith

abbrev first : Bytes → ℕ
first [] = 0
first (b ∷ bs) = b

abbrev rest : Bytes → Bytes
rest [] = []
rest (b ∷ bs) = bs

hex_id_lem :
    (a b x y : Bytes)
    → AreBytes a
    → AreBytes b
    → length a ≡ length b
    → hex_id a ++ x ≡ hex_id b ++ y
    → a ≡ b
unfolding hex_id
hex_id_lem [] [] x y ha hb l h = refl
hex_id_lem [] (c ∷ b) x y ha hb l h = absurd (omega (arith, l))
hex_id_lem (c ∷ a) [] x y ha hb l h = absurd (omega (arith, l))
hex_id_lem (c ∷ a) (d ∷ b) x y (hc, ha) (hd, hb) l h =
    let high = hex_digit_lem (c / 16) (d / 16) (omega arith) (omega arith) (ap first h) in
    let low =
      hex_digit_lem (c % 16) (d % 16) (omega arith) (omega arith) (ap (λ bs. first (rest bs)) h) in
    let tail = hex_id_lem a b x y ha hb (omega (arith, l)) (ap (λ bs. rest (rest bs)) h) in
    let head : c ≡ d = omega (arith, high, low) in cc (head, tail)

-- The kinds are 1, 2 and 3.
abbrev pub IsKind : ℕ → Type 0
IsKind k = (1 ≤ k) × (k ≤ 3)

-- The second unit of a name tells the kind.
abbrev second_of : ℕ → ℕ
second_of kind = if kind == 1 then 0x75 else if kind == 2 then 0x61 else 0x72

second-filename : (kind : ℕ) (id : Bytes) → first (rest (filename kind id)) ≡ second_of kind
unfolding filename
second-filename kind id = elim (Bool-cases (kind == 1)) [
  | inl e ↦ rw e refl
  | inr e ↦ rw e (elim (Bool-cases (kind == 2)) [ inl d ↦ rw d refl | inr d ↦ rw d refl ])
]

same-filename :
    (kind : ℕ) (id id' : Bytes)
    → AreBytes id
    → AreBytes id'
    → length id ≡ length id'
    → filename kind id ≡ filename kind id'
    → id ≡ id'
unfolding filename
same-filename kind id id' hid hid' l h = hex_id_lem id id' (suffix kind) (suffix kind) hid hid' l (
    sym (drop-append (prefix kind) _)
    ∙ (ap (drop (length (prefix kind))) h ∙ drop-append (prefix kind) _))

-- Two files have the same name only where both the kind and the id of 16 bytes are the same.
pub filename_lem :
    (kind kind' : ℕ) (id id' : Bytes)
    → IsKind kind
    → IsKind kind'
    → AreBytes id
    → AreBytes id'
    → length id ≡ 16
    → length id' ≡ 16
    → filename kind id ≡ filename kind' id'
    → (kind ≡ kind') × (id ≡ id')
filename_lem kind kind' id id' hk hk' hid hid' l l' h =
    let second = ap (λ name. first (rest name)) h in
    let one = second-filename kind id in
    let other = second-filename kind' id' in
    let same : kind ≡ kind' = ground (arith, sym one ∙ (second ∙ other)) in
    (
      same,
      same-filename kind id id' hid hid' (omega (arith, l, l'))
          (subst (λ k. filename kind id ≡ filename k id') (sym same) h),
    )
