-- ===== src/Owners/Balance/Table.antt =====
-- The table of owners: what its leases hold, and what an operation on one of them leaves of it.
use shiroha_quiz.Base.{
  ℕ, zero, suc, ◌+◌, ◌≤◌, ◌≡◌, refl, ap, ◌∙◌, ◌⊎◌, Bool, true, false, Option, none, some, List, [],
  ◌∷◌, arith, if◌then◌else◌, get_or, set, ◌==◌, Option-cases, inl, inr,
}
use shiroha_quiz.Status.{Status}
use shiroha_quiz.Memory.{Memory}
use shiroha_quiz.Machine.{Environment, Lease, Context, Action}
use shiroha_quiz.Machine.Keeps.{Keeps}
use shiroha_quiz.Leases.Accounts.{IsCovered, opened, closed, pins_weight}
use shiroha_quiz.Leases.Stable.{IsStable}
use shiroha_quiz.Leases.Covered.{Covered-IsStable}
use shiroha_quiz.Leases.Release.{total_weight}
use shiroha_quiz.Owners.{World, enter, leave, find_from, find, run_in}
use shiroha_quiz.Leases.Marked.{IsMarked, Marked-IsStable}
use shiroha_quiz.Owners.Acquire.{IsHeld}
use shiroha_quiz.Owners.Numbers.{IsNumbered, IsAllowed, set-IsNumbered, same-IsAllowed}

abbrev pub slot_weight : ℕ → Option Lease → ℕ
slot_weight n none = 0
slot_weight n (some l) = total_weight n l

unfoldable pub owners_weight : ℕ → List (Option Lease) → ℕ
owners_weight n [] = 0
owners_weight n (l ∷ owners) = slot_weight n l + owners_weight n owners

-- No handle is held, and to be closed, more often than it was given out and is not closed yet.
pub record IsSound (gone : ℕ → Type 0) (w : World) : Type 0 where
  pub balanced : (n : ℕ) → closed n w.history + owners_weight n w.owners ≤ opened n w.history
  pub numbered : IsNumbered gone w.owners w.next_token
  pub started : 1 ≤ w.next_token

-- What the table holds does not depend on the memory.
pub memory-IsSound :
    {gone : ℕ → Type 0} {w : World} (m : Memory)
    → IsSound gone w
    → IsSound gone (record w { memory = m })
memory-IsSound m h = record { balanced = h.balanced; numbered = h.numbered; started = h.started }

-- The slots but one.
abbrev pub others : ℕ → List (Option Lease) → ℕ → ℕ
others slot owners n = owners_weight n (set owners slot none)

pub owners_weight-set :
    (n i : ℕ) (x : Option Lease) (owners : List (Option Lease))
    → owners_weight n (set owners i x) ≤ others i owners n + slot_weight n x
unfolding owners_weight
owners_weight-set n i x [] = omega arith
owners_weight-set n zero x (y ∷ owners) = omega arith
owners_weight-set n (suc i) x (y ∷ owners) = omega (arith, owners_weight-set n i x owners)

pub owners_weight-split :
    (n i : ℕ) (owners : List (Option Lease))
    → others i owners n + slot_weight n (get_or owners i none) ≤ owners_weight n owners
unfolding owners_weight
owners_weight-split n i [] = omega arith
owners_weight-split n zero (y ∷ owners) = omega arith
owners_weight-split n (suc i) (y ∷ owners) = omega (arith, owners_weight-split n i owners)

-- A lease stands in a slot.
abbrev pub StandsAt : World → ℕ → Lease → Type 0
StandsAt w slot l = get_or w.owners slot none ≡ some l

pub if-cases {ℓ} :
    {A : Type ℓ} (b : Bool) (x y z : A)
    → (if b then x else y) ≡ z
    → ((b ≡ true) × (x ≡ z)) ⊎ ((b ≡ false) × (y ≡ z))
if-cases true x y z e = inl (refl, e)
if-cases false x y z e = inr (refl, e)

abbrev pub found_slot : Option (ℕ × Lease) → ℕ
found_slot none = 0
found_slot (some (slot, l)) = slot

abbrev pub found_token : Option (ℕ × Lease) → ℕ
found_token none = 0
found_token (some (slot, l)) = l.token

pub find_from_lem :
    (token i : ℕ) (owners : List (Option Lease)) (slot : ℕ) (l : Lease)
    → find_from i token owners ≡ some (slot, l)
    → (j : ℕ) × (i + j ≡ slot) × (get_or owners j none ≡ some l) × (l.token ≡ token)
unfolding find_from
find_from_lem token i [] slot l e = cc e
find_from_lem token i (none ∷ owners) slot l e =
    let (j, p, q, r) = find_from_lem token (i + 1) owners slot l e in (suc j, omega arith, q, r)
find_from_lem token i (some l' ∷ owners) slot l e = elim (if-cases (l'.token == token) _ _ _ e) [
  | inl (t, p) ↦ (0, omega (arith, ap found_slot p), cc p, ground (arith, t, ap found_token p))
  | inr (t, p) ↦
      let (j, q, r, u) = find_from_lem token (i + 1) owners slot l p in
      (suc j, omega (arith, q), r, u)
]

-- `find` returns the slot in which a lease with the token stands.
pub find_lem :
    (token : ℕ) (w : World) (slot : ℕ) (l : Lease)
    → find token w.owners ≡ some (slot, l)
    → StandsAt w slot l × (l.token ≡ token)
unfolding find
find_lem token w slot l e =
    let (j, p, q, r) = find_from_lem token 0 w.owners slot l e in
    let same : slot ≡ j = omega (arith, p) in (ap (λ i. get_or w.owners i none) same ∙ q, r)

-- An operation that keeps whatever withstands the changes of the state.
abbrev pub IsOrderly {ℓ} : {A : Type ℓ} → Environment → Action A → Type (ℓ ⊔ 1)
IsOrderly env m = (P : Context → Type 0) → IsStable env P → Keeps P m

pub enter-IsHeld :
    {gone : ℕ → Type 0} (w : World) (slot : ℕ) (l : Lease) (n : ℕ)
    → StandsAt w slot l
    → IsSound gone w
    → closed n w.history + total_weight n l + others slot w.owners n ≤ opened n w.history
enter-IsHeld w slot l n at_slot h =
    omega (arith, h.balanced n, owners_weight-split n slot w.owners, ap (slot_weight n) at_slot)

-- An orderly operation on a lease keeps what the lease holds covered.
pub orderly-IsHeld {ℓ} :
    {A : Type ℓ} (env : Environment) (m : Action A) (n k : ℕ) (q : Bool) (c : Context)
    → IsOrderly env m
    → c.lease.quarantined ≡ q
    → IsHeld n k c
    → IsHeld n k (m c).1
orderly-IsHeld env m n k true c orderly e h =
    let after =
      (orderly (IsCovered n k c.lease.pins true) (Covered-IsStable env n k c.lease.pins true)).at c
        (record { covered = ground (arith, h.covered, e); same_pins = refl; latched = λ l. e }) in
    let l = after.latched refl in record { covered = ground (arith, after.covered, l) }
orderly-IsHeld env m n k false c orderly e h =
    let k' = pins_weight n c.lease.pins + k in
    let after =
      (orderly (IsCovered n k' c.lease.pins false)
          (Covered-IsStable env n k' c.lease.pins false)).at
        c
        (record {
          covered = ground (arith, h.covered, e);
          same_pins = refl;
          latched = λ l. cc l;
        }) in
    let pins = ap (pins_weight n) after.same_pins in
    record { covered = ground (arith, after.covered, pins) }

-- The world behind an operation is balanced where the lease is covered.
pub leave-IsSound :
    {gone : ℕ → Type 0} (w : World) (slot : ℕ) (x : Option Lease) (c : Context)
    → IsSound gone w
    → IsAllowed gone w.owners w.next_token slot x
    → ((n : ℕ) → closed n c.history + slot_weight n x + others slot w.owners n ≤ opened n c.history)
    → IsSound gone (leave w slot x c)
leave-IsSound w slot x c sound allowed h = record {
  numbered = set-IsNumbered slot x sound.numbered allowed;
  started = sound.started;
  balanced = λ n. omega (arith, h n, owners_weight-set n slot x w.owners);
}

pub enter-IsMarked : (w : World) (l : Lease) → IsMarked l.token l.role w.next_ticket (enter w l)
enter-IsMarked w l = record { same_token = refl; same_role = refl; later = omega arith }

pub orderly-IsSound {ℓ} :
    {A : Type ℓ} {gone : ℕ → Type 0} (env : Environment) (m : Action A) (w : World) (slot : ℕ)
    (l : Lease)
    → IsOrderly env m
    → StandsAt w slot l
    → IsSound gone w
    → let c = (m (enter w l)).1 in IsSound gone (leave w slot (some c.lease) c)
orderly-IsSound env m w slot l orderly at_slot h =
    let c = (m (enter w l)).1 in
    let marked =
      (orderly (IsMarked l.token l.role w.next_ticket)
          (Marked-IsStable env l.token l.role w.next_ticket)).at
        (enter w l) (enter-IsMarked w l) in
    leave-IsSound w slot (some c.lease) c h
      (same-IsAllowed slot l c.lease h.numbered at_slot marked.same_token)
      λ n.
        let start : IsHeld n (others slot w.owners n) (enter w l) = record {
          covered = omega (arith, enter-IsHeld w slot l n at_slot h);
        } in
        let after =
          orderly-IsHeld env m n (others slot w.owners n) l.quarantined (enter w l) orderly refl
            start in
        omega (arith, after.covered)

-- A call ends, whatever it returns, in a balanced world.
pub record Leaves {ℓ} {A : Type ℓ} (gone : ℕ → Type 0) (project : A → World) (r : A) : Type ℓ where
  pub world : IsSound gone (project r)

module _ {ℓ} {A : Type ℓ} {gone : ℕ → Type 0} {project : A → World} where
  pub Leaves-if :
      {x y : A} (b : Bool)
      → (b ≡ true → Leaves gone project x)
      → (b ≡ false → Leaves gone project y)
      → Leaves gone project (if b then x else y)
  Leaves-if true p q = p refl
  Leaves-if false p q = q refl

  -- An operation on the lease that `find` returns.
  pub Leaves-find :
      (token : ℕ) (w : World) (f : Option (ℕ × Lease) → A)
      → Leaves gone project (f none)
      → ((slot : ℕ) (l : Lease) → StandsAt w slot l → Leaves gone project (f (some (slot, l))))
      → Leaves gone project (f (find token w.owners))
  Leaves-find token w f h k = elim (Option-cases (find token w.owners)) [
    | inl e ↦ rw e h
    | inr ((slot, l), e) ↦ rw e (k slot l (find_lem token w slot l e).0)
  ]

-- The world behind a status.
abbrev pub behind : Status × World → World
behind r = r.1

pub run_in-Leaves :
    {gone : ℕ → Type 0} (env : Environment) (m : Action Status) (w : World) (slot : ℕ) (l : Lease)
    → IsOrderly env m
    → StandsAt w slot l
    → IsSound gone w
    → Leaves gone behind (run_in m slot l w)
run_in-Leaves env m w slot l orderly at_slot h = record {
  world = orderly-IsSound env m w slot l orderly at_slot h;
}
