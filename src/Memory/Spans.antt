-- ===== src/Memory/Spans.antt =====
-- What the span checks mean: intervals of addresses, with no wrap-around.
use shiroha_quiz.Base.{
  ℕ, ◌+◌, ◌^◌, ◌≤◌, ◌<◌, ◌≡◌, ◌↔◌, arith, ltb, if◌then◌else◌, Holds, false, ◌⊎◌,
}
use shiroha_quiz.Status.{max_bytes}
use shiroha_quiz.Memory.{span, overlap}

pub span_bounds :
    (p n : ℕ) → Holds (span p n) → (0 < p) × (0 < n) × (n ≤ max_bytes) × (p + n < 2 ^ 64)
unfolding span
span_bounds p n h = ground arith

-- The least address that two overlapping spans share.
abbrev later : ℕ → ℕ → ℕ
later x y = if ltb x y then y else x

-- On usable spans `overlap` decides whether some address lies in both.
pub overlap_iff :
    (x n y m : ℕ)
    → Holds (span x n)
    → Holds (span y m)
    → Holds (overlap x n y m) ↔ ((a : ℕ) × (x ≤ a) × (a < x + n) × (y ≤ a) × (a < y + m))
unfolding overlap
overlap_iff x n y m hx hy =
    let bx = span_bounds x n hx in
    let by = span_bounds y m hy in
    (
      λ h. (later x y, ground arith, ground (arith, bx, by), ground arith, ground (arith, bx, by)),
      λ (a, l, r, s, t). ground (arith, bx, by),
    )

-- An address of a usable span is outside a usable span that does not overlap it.
pub outside_of :
    (x n y m a : ℕ)
    → Holds (span x n)
    → Holds (span y m)
    → overlap x n y m ≡ false
    → x ≤ a
    → a < x + n
    → (a < y) ⊎ (y + m ≤ a)
unfolding overlap
outside_of x n y m a hx hy h l r =
    let bx = span_bounds x n hx in let by = span_bounds y m hy in ground (arith, bx, by)
