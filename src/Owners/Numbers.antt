-- ===== src/Owners/Numbers.antt =====
-- The tokens in the table of owners, and those that were issued.
use mathlib.Core.Path.{subst}
use shiroha_quiz.Base.{
  ℕ, zero, suc, ◌+◌, ◌≤◌, ◌<◌, ◌≡◌, refl, sym, ap, ◌∙◌, ◌⊎◌, inl, inr, Option, none, some, List, [],
  ◌∷◌, arith, get_or, set,
}
use shiroha_quiz.Machine.{Lease}

-- `gone` is any set of tokens that no lease has and that were issued before.
pub record IsNumbered (gone : ℕ → Type 0) (owners : List (Option Lease)) (next : ℕ) : Type 0 where
  pub issued :
      (i : ℕ) (l : Lease) → get_or owners i none ≡ some l → (1 ≤ l.token) × (l.token < next)
  pub one_slot :
      (i j : ℕ) (l k : Lease)
      → get_or owners i none ≡ some l
      → get_or owners j none ≡ some k
      → l.token ≡ k.token
      → i ≡ j
  pub absent : (i : ℕ) (l : Lease) → get_or owners i none ≡ some l → ¬ gone l.token
  pub passed : (t : ℕ) → gone t → (1 ≤ t) × (t < next)

-- What may be put in a slot: no lease, or one whose token is no other lease's.
pub record IsAllowed (gone : ℕ → Type 0) (owners : List (Option Lease)) (next slot : ℕ)
    (x : Option Lease) : Type 0 where
  pub issued : (l : Lease) → x ≡ some l → (1 ≤ l.token) × (l.token < next)
  pub alone :
      (j : ℕ) (l k : Lease)
      → x ≡ some l
      → get_or owners j none ≡ some k
      → l.token ≡ k.token
      → slot ≡ j
  pub absent : (l : Lease) → x ≡ some l → ¬ gone l.token

pub get-set_cases :
    (owners : List (Option Lease)) (slot i : ℕ) (x : Option Lease) (l : Lease)
    → get_or (set owners slot x) i none ≡ some l
    → ((slot ≡ i) × (x ≡ some l)) ⊎ (¬ (slot ≡ i) × (get_or owners i none ≡ some l))
get-set_cases [] slot i x l e = absurd (cc e)
get-set_cases (y ∷ owners) zero zero x l e = inl (refl, e)
get-set_cases (y ∷ owners) zero (suc i) x l e = inr ((λ p. omega (arith, p)), e)
get-set_cases (y ∷ owners) (suc slot) zero x l e = inr ((λ p. omega (arith, p)), e)
get-set_cases (y ∷ owners) (suc slot) (suc i) x l e = elim (get-set_cases owners slot i x l e) [
  | inl (p, q) ↦ inl (ap suc p, q)
  | inr (p, q) ↦ inr ((λ r. p (omega (arith, r))), q)
]

-- The token in a slot, 0 where it is empty.
abbrev token_of : Option Lease → ℕ
token_of none = 0
token_of (some l) = l.token

module _ {gone : ℕ → Type 0} {owners : List (Option Lease)} {next : ℕ} where
  pub set-IsNumbered :
      (slot : ℕ) (x : Option Lease)
      → IsNumbered gone owners next
      → IsAllowed gone owners next slot x
      → IsNumbered gone (set owners slot x) next
  set-IsNumbered slot x h a = record {
    issued = λ i l e. elim (get-set_cases owners slot i x l e) [
      | inl (p, q) ↦ a.issued l q
      | inr (p, q) ↦ h.issued i l q
    ];
    one_slot = λ i j l k e d t. elim (get-set_cases owners slot i x l e) [
      | inl (p, q) ↦ elim (get-set_cases owners slot j x k d) [
        | inl (r, s) ↦ sym p ∙ r
        | inr (r, s) ↦ absurd (r (a.alone j l k q s t))
      ]
      | inr (p, q) ↦ elim (get-set_cases owners slot j x k d) [
        | inl (r, s) ↦ absurd (p (a.alone i k l s q (sym t)))
        | inr (r, s) ↦ h.one_slot i j l k q s t
      ]
    ];
    absent = λ i l e. elim (get-set_cases owners slot i x l e) [
      | inl (p, q) ↦ a.absent l q
      | inr (p, q) ↦ h.absent i l q
    ];
    passed = h.passed;
  }

  -- A slot may be emptied.
  pub none-IsAllowed : (slot : ℕ) → IsAllowed gone owners next slot none
  none-IsAllowed slot = record {
    issued = λ l e. absurd cc;
    alone = λ j l k e. absurd cc;
    absent = λ l e. absurd cc;
  }

  -- A lease may be put back with its token.
  pub same-IsAllowed :
      (slot : ℕ) (l l' : Lease)
      → IsNumbered gone owners next
      → get_or owners slot none ≡ some l
      → l'.token ≡ l.token
      → IsAllowed gone owners next slot (some l')
  same-IsAllowed slot l l' h at_slot same = record {
    issued = λ k e.
        let (p, q) = h.issued slot l at_slot in
        (omega (arith, p, same, ap token_of e), omega (arith, q, same, ap token_of e));
    alone = λ j k m e d t. h.one_slot slot j l m at_slot d (omega (arith, same, ap token_of e, t));
    absent = λ k e g.
        let there : k.token ≡ l.token = omega (arith, same, ap token_of e) in
        h.absent slot l at_slot (subst gone there g);
  }

  -- The next token is nobody's.
  pub next-IsAllowed :
      (slot : ℕ) (l : Lease)
      → IsNumbered gone owners next
      → 1 ≤ next
      → l.token ≡ next
      → IsAllowed gone owners (next + 1) slot (some l)
  next-IsAllowed slot l h positive fresh = record {
    issued =
        λ k e. (omega (arith, positive, fresh, ap token_of e), omega (arith, fresh, ap token_of e));
    alone = λ j k m e d t.
        absurd (let (p, q) = h.issued j m d in omega (arith, q, fresh, ap token_of e, t));
    absent = λ k e g. let (p, q) = h.passed k.token g in omega (arith, q, fresh, ap token_of e);
  }

  pub later-IsNumbered : IsNumbered gone owners next → IsNumbered gone owners (next + 1)
  later-IsNumbered h = record {
    issued = λ i l e. let (p, q) = h.issued i l e in (p, omega arith);
    one_slot = h.one_slot;
    absent = h.absent;
    passed = λ t g. let (p, q) = h.passed t g in (p, omega arith);
  }
