-- ===== src/Objects/Names.antt =====
-- Paths with a component of dots.
use shiroha_quiz.Base.{
  ℕ, ◌≡◌, refl, Bool, false, not, ◌&&◌, ◌||◌, Option, none, [], ◌∷◌, ◌++◌, arith, ltb, ◌==◌,
  if-both, Bytes, length, is_empty, codes, ◌⊎◌, inl, inr,
}
use shiroha_quiz.Objects.{components_valid, component_valid, local_nt_name, units_valid, is_letter}

-- `\.` and `\..`, with what is behind.
abbrev pub step : Bytes → Bytes → Bytes
step name after = 0x5c ∷ name ++ after

-- A component ends at a backslash, or with the path.
abbrev pub IsEnd : Bytes → Type 0
IsEnd [] = Unit {0}
IsEnd (c ∷ after) = c ≡ 0x5c

abbrev pub IsDots : Bytes → Type 0
IsDots name = (name ≡ codes ".") ⊎ (name ≡ codes "..")

-- A component of dots is not valid where it stands, and what is before it does not make it so.
parent-components_valid :
    (dots : Bytes)
    → is_empty dots ≡ false
    → (after : Bytes) → components_valid [] (dots ++ after) ≡ false
    → (name before : Bytes) → components_valid name (before ++ step dots after) ≡ false
unfolding components_valid component_valid
parent-components_valid [] full after bad name before = absurd (cc full)
parent-components_valid (x ∷ xs) full after bad name [] = ground (arith, bad)
parent-components_valid (x ∷ xs) full after bad name (c ∷ []) = ground (
  arith,
  parent-components_valid (x ∷ xs) full after bad [] [],
  parent-components_valid (x ∷ xs) full after bad (name ++ c ∷ []) [],
)
parent-components_valid (x ∷ xs) full after bad name (c ∷ d ∷ before) = ground (
  arith,
  parent-components_valid (x ∷ xs) full after bad [] (d ∷ before),
  parent-components_valid (x ∷ xs) full after bad (name ++ c ∷ []) (d ∷ before),
)

dot-components_valid : (after : Bytes) → IsEnd after → components_valid [] (0x2e ∷ after) ≡ false
unfolding components_valid component_valid
dot-components_valid [] h = refl
dot-components_valid (c ∷ []) h = rw h refl
dot-components_valid (c ∷ d ∷ after) h = rw h refl

dots-components_valid :
    (after : Bytes) → IsEnd after → components_valid [] (0x2e ∷ 0x2e ∷ after) ≡ false
unfolding components_valid component_valid
dots-components_valid [] h = refl
dots-components_valid (c ∷ []) h = rw h refl
dots-components_valid (c ∷ d ∷ after) h = rw h refl

-- A path whose components are not valid is refused.
tail-local_nt_name :
    (x y c : ℕ) (tail : Bytes)
    → is_empty tail ≡ false
    → components_valid [] tail ≡ false
    → local_nt_name (x ∷ y ∷ c ∷ tail) ≡ none
unfolding local_nt_name
tail-local_nt_name x y c tail full bad =
    let Goal = λ (o : Option Bytes). o ≡ none in
    let path : Bytes = x ∷ y ∷ c ∷ tail in
    if-both Goal
      (ltb (length path) 3
        || (ltb 32762 (length path) || (not (is_letter x) || (not (y == 0x3a) || not (c == 0x5c)))))
      (λ e. refl)
      λ e.
        if-both Goal (not (units_valid (c ∷ tail))) (λ e. refl)
          λ e.
            if-both Goal (not (is_empty tail) && not (components_valid [] tail)) (λ e. refl)
              λ e. absurd (refuted (is_empty tail) (components_valid [] tail) full bad e)
  where
    refuted : (p q : Bool) → p ≡ false → q ≡ false → (not p && not q) ≡ false → ⊥
    refuted p q hp hq h = ground (arith, hp, hq, h)

step-full : (name before after : Bytes) → is_empty (before ++ step name after) ≡ false
step-full name [] after = refl
step-full name (c ∷ before) after = refl

full_append : (name after : Bytes) → is_empty name ≡ false → is_empty (name ++ after) ≡ false
full_append [] after h = absurd (cc h)
full_append (c ∷ name) after h = refl

step-local_nt_name :
    (x y : ℕ) (name before after : Bytes)
    → is_empty name ≡ false
    → components_valid [] (name ++ after) ≡ false
    → local_nt_name (x ∷ y ∷ before ++ step name after) ≡ none
step-local_nt_name x y name [] after full bad =
    tail-local_nt_name x y 0x5c (name ++ after) (full_append name after full) bad
step-local_nt_name x y name (c ∷ before) after full bad =
    tail-local_nt_name x y c (before ++ step name after) (step-full name before after)
      (parent-components_valid name full after bad [] before)

-- `local_nt_name` refuses every path that has a component `.` or `..`: a backslash behind the first two
-- units, the dots, and then a backslash or the end of the path, whatever is before and behind them.
pub local_nt_name-parent :
    (x y : ℕ) (name before after : Bytes)
    → IsDots name
    → IsEnd after
    → local_nt_name (x ∷ y ∷ before ++ step name after) ≡ none
local_nt_name-parent x y name before after (inl e) end =
    rw e (step-local_nt_name x y (codes ".") before after refl (dot-components_valid after end))
local_nt_name-parent x y name before after (inr e) end =
    rw e (step-local_nt_name x y (codes "..") before after refl (dots-components_valid after end))
