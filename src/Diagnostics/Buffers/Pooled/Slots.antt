-- ===== src/Diagnostics/Buffers/Pooled/Slots.antt =====
-- The slots of the pool of native buffers, and how many of them are in a state.
use shiroha_quiz.Base.{
  ℕ, zero, suc, ◌+◌, ◌≤◌, ◌<◌, ◌≡◌, Bool, true, false, List, [], ◌∷◌, ◌++◌, get_or, set, length,
  arith, All,
}
use shiroha_quiz.Diagnostics.Buffers.{Slot, no_slot}

-- A slot is in use, given back, or lost in its one release.
pub data IsSlot (s : Slot) : Type 0 where
  in_use :
      s.allocated_ever ≡ true
      → s.active ≡ true
      → s.release_attempted ≡ false
      → s.release_succeeded ≡ false
      → s.release_unknown ≡ false
      → IsSlot s
  given_back :
      s.allocated_ever ≡ true
      → s.active ≡ false
      → s.release_attempted ≡ true
      → s.release_succeeded ≡ true
      → s.release_unknown ≡ false
      → IsSlot s
  lost :
      s.allocated_ever ≡ true
      → s.active ≡ true
      → s.release_attempted ≡ true
      → s.release_succeeded ≡ false
      → s.release_unknown ≡ true
      → IsSlot s

abbrev pub bit : Bool → ℕ
bit true = 1
bit false = 0

bit-le : (b : Bool) → bit b ≤ 1
bit-le true = omega arith
bit-le false = omega arith

abbrev pub lost_slot : Slot → Slot
lost_slot s = record s { release_attempted = true; release_unknown = true }

abbrev pub back_slot : Slot → Slot
back_slot s = record s {
  ptr = 0;
  active = false;
  release_attempted = true;
  release_succeeded = true;
}

-- A slot whose release was not attempted is in use.
pub pending :
    (s : Slot)
    → IsSlot s
    → s.release_attempted ≡ false
    → (s.allocated_ever ≡ true)
      × ((s.active ≡ true) × ((s.release_succeeded ≡ false) × (s.release_unknown ≡ false)))
pending s (in_use ever active attempted succeeded unknown) e =
    (ever, (active, (succeeded, unknown)))
pending s (given_back ever active attempted succeeded unknown) e = absurd (cc (attempted, e))
pending s (lost ever active attempted succeeded unknown) e = absurd (cc (attempted, e))

-- How many slots have a flag.
abbrev pub count : (Slot → Bool) → List Slot → ℕ
count f [] = 0
count f (s ∷ ss) = bit (f s) + count f ss

pub count-set :
    (f : Slot → Bool) (ss : List Slot) (i : ℕ) (s : Slot)
    → i < length ss
    → count f (set ss i s) + bit (f (get_or ss i no_slot)) ≡ count f ss + bit (f s)
count-set f [] i s h = absurd (omega (arith, h))
count-set f (x ∷ ss) zero s h = omega arith
count-set f (x ∷ ss) (suc i) s h = omega (arith, count-set f ss i s (omega (arith, h)))

pub count-append :
    (f : Slot → Bool) (ss : List Slot) (s : Slot) → count f (ss ++ s ∷ []) ≡ count f ss + bit (f s)
count-append f [] s = omega arith
count-append f (x ∷ ss) s = omega (arith, count-append f ss s)

pub count-le : (f : Slot → Bool) (ss : List Slot) → count f ss ≤ length ss
count-le f [] = omega arith
count-le f (x ∷ ss) = omega (arith, bit-le (f x), count-le f ss)

pub All-append : (ss : List Slot) (s : Slot) → All IsSlot ss → IsSlot s → All IsSlot (ss ++ s ∷ [])
All-append [] s h g = (g, tt)
All-append (x ∷ ss) s h g = (h.0, All-append ss s h.1 g)

pub All-set :
    (ss : List Slot) (i : ℕ) (s : Slot) → All IsSlot ss → IsSlot s → All IsSlot (set ss i s)
All-set [] i s h g = tt
All-set (x ∷ ss) zero s h g = (g, h.1)
All-set (x ∷ ss) (suc i) s h g = (h.0, All-set ss i s h.1 g)

pub All-get :
    (ss : List Slot) (i : ℕ) → i < length ss → All IsSlot ss → IsSlot (get_or ss i no_slot)
All-get [] i lt h = absurd (omega (arith, lt))
All-get (x ∷ ss) zero lt h = h.0
All-get (x ∷ ss) (suc i) lt h = All-get ss i (omega (arith, lt)) h.1
