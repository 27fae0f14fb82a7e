-- ===== src/Diagnostics/Budget/Limits/Settled.antt =====
-- The counts of the categories between calls, each within its limit.
use shiroha_quiz.Base.{
  ℕ, zero, suc, ◌+◌, ◌≤◌, ◌<◌, ◌≡◌, refl, ap, List, [], ◌∷◌, get_or, set, length, arith,
  get-set_same, set-set, All,
}
use shiroha_quiz.Diagnostics.Native.{CallCounts, no_counts}
use shiroha_quiz.Diagnostics.Budget.{abi_limits}

-- What holds of the counts of a category between calls, with its limit.
pub record IsSettled (limit : ℕ) (c : CallCounts) : Type 0 where
  pub within : c.attempted ≤ limit
  pub came_back : c.returned ≤ c.attempted
  pub judged : c.accepted ≤ c.returned
  pub known : c.settled + c.unknown ≡ c.attempted

-- Category by category.
abbrev pub AllSettled : List ℕ → List CallCounts → Type 0
AllSettled [] [] = Unit
AllSettled [] (c ∷ cs) = ⊥
AllSettled (n ∷ ns) [] = ⊥
AllSettled (n ∷ ns) (c ∷ cs) = IsSettled n c × AllSettled ns cs

abbrev pub attempts : List CallCounts → ℕ
attempts [] = 0
attempts (c ∷ cs) = c.attempted + attempts cs

pub IsSettled-get :
    (ns : List ℕ) (cs : List CallCounts) (k : ℕ)
    → AllSettled ns cs
    → IsSettled (get_or ns k 0) (get_or cs k no_counts)
IsSettled-get [] [] k h = record {
  within = omega arith;
  came_back = omega arith;
  judged = omega arith;
  known = refl;
}
IsSettled-get [] (c ∷ cs) k h = absurd h
IsSettled-get (n ∷ ns) [] k h = absurd h
IsSettled-get (n ∷ ns) (c ∷ cs) zero h = h.0
IsSettled-get (n ∷ ns) (c ∷ cs) (suc k) h = IsSettled-get ns cs k h.1

pub AllSettled-set :
    (ns : List ℕ) (cs : List CallCounts) (k : ℕ) (c : CallCounts)
    → AllSettled ns cs
    → IsSettled (get_or ns k 0) c
    → AllSettled ns (set cs k c)
AllSettled-set [] [] k c h g = tt
AllSettled-set [] (x ∷ cs) k c h g = absurd h
AllSettled-set (n ∷ ns) [] k c h g = absurd h
AllSettled-set (n ∷ ns) (x ∷ cs) zero c h g = (g, h.1)
AllSettled-set (n ∷ ns) (x ∷ cs) (suc k) c h g = (h.0, AllSettled-set ns cs k c h.1 g)

pub AllSettled-length :
    (ns : List ℕ) (cs : List CallCounts) → AllSettled ns cs → length cs ≡ length ns
AllSettled-length [] [] h = refl
AllSettled-length [] (c ∷ cs) h = absurd h
AllSettled-length (n ∷ ns) [] h = absurd h
AllSettled-length (n ∷ ns) (c ∷ cs) h = ap suc (AllSettled-length ns cs h.1)

pub attempts-set :
    (cs : List CallCounts) (k : ℕ) (c : CallCounts)
    → k < length cs
    → attempts (set cs k c) + (get_or cs k no_counts).attempted ≡ attempts cs + c.attempted
attempts-set [] k c h = absurd (omega (arith, h))
attempts-set (x ∷ cs) zero c h = omega arith
attempts-set (x ∷ cs) (suc k) c h = omega (arith, attempts-set cs k c (omega (arith, h)))

unfoldable pub sum : List ℕ → ℕ
sum [] = 0
sum (n ∷ ns) = n + sum ns

pub attempts-le : (ns : List ℕ) (cs : List CallCounts) → AllSettled ns cs → attempts cs ≤ sum ns
unfolding sum
attempts-le [] [] h = omega arith
attempts-le [] (c ∷ cs) h = absurd h
attempts-le (n ∷ ns) [] h = absurd h
attempts-le (n ∷ ns) (c ∷ cs) h = omega (arith, h.0.within, attempts-le ns cs h.1)

-- A further change of the counts of the same category.
pub change-set :
    (k : ℕ) (f : CallCounts → CallCounts) (v : CallCounts) (cs ds : List CallCounts)
    → k < length cs
    → ds ≡ set cs k v
    → set ds k (f (get_or ds k no_counts)) ≡ set cs k (f v)
change-set k f v cs ds h e = rw (e, get-set_same cs k v no_counts h, set-set cs k v (f v)) refl

-- Every limit is small, so that no counter wraps.
pub abi_limits-le : (k : ℕ) → get_or abi_limits k 0 ≤ 45
abi_limits-le k = if-all 45 abi_limits k (
  omega arith,
  (omega arith, (omega arith, (omega arith, (omega arith, (omega arith, (omega arith, tt)))))),
)
  where
    if-all : (n : ℕ) (ns : List ℕ) (k : ℕ) → All (λ x. x ≤ n) ns → get_or ns k 0 ≤ n
    if-all n [] k h = omega arith
    if-all n (x ∷ ns) zero h = h.0
    if-all n (x ∷ ns) (suc k) h = if-all n ns k h.1
