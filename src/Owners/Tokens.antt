-- ===== src/Owners/Tokens.antt =====
-- What becomes of a token that was closed.
use mathlib.Core.Path.{subst}
use shiroha_quiz.Base.{
  ℕ, ◌≡◌, refl, sym, Bool, true, false, not, ◌==◌, Option, none, some, List, arith, get_or, set,
  Option-cases, if-both, inl, inr,
}
use shiroha_quiz.Status.{Status, ok, invalid_input}
use shiroha_quiz.Machine.{Environment, Lease, Context, Result, done, raised}
use shiroha_quiz.Leases.{release}
use shiroha_quiz.Owners.{
  World, enter, find, validate, validate_found, close, close_found, settle_release, owner_version,
}
use shiroha_quiz.Owners.Numbers.{IsNumbered, get-set_cases, set-IsNumbered, none-IsAllowed}
use shiroha_quiz.Owners.Balance.{StandsAt, find_lem}

abbrev pub IsToken : ℕ → ℕ → Type 0
IsToken t u = u ≡ t

-- Where a slot is emptied, its token has gone.
emptied-IsNumbered :
    (owners : List (Option Lease)) (next slot : ℕ) (l : Lease)
    → IsNumbered (λ t. ⊥) owners next
    → get_or owners slot none ≡ some l
    → IsNumbered (IsToken l.token) (set owners slot none) next
emptied-IsNumbered owners next slot l h at_slot =
    let left = set-IsNumbered slot none h (none-IsAllowed slot) in
    record {
      issued = left.issued;
      one_slot = left.one_slot;
      absent = λ i k e same. elim (get-set_cases owners slot i none k e) [
        | inl (p, q) ↦ cc q
        | inr (p, q) ↦ p (h.one_slot slot i l k at_slot q (sym same))
      ];
      passed = λ t same.
          let (p, q) = h.issued slot l at_slot in (omega (arith, p, same), omega (arith, q, same));
    }

module _ (env : Environment) where
  -- Only a lease that released every handle is closed with success.
  settle_release-ok :
      (w : World) (slot : ℕ) (l : Lease) (r : Result Bool) (c : Context)
      → IsNumbered (λ t. ⊥) w.owners w.next_token
      → StandsAt w slot l
      → (settle_release env slot (r, c) w).0 ≡ ok
      → let w' = (settle_release env slot (r, c) w).1 in
        IsNumbered (IsToken l.token) w'.owners w'.next_token
  unfolding settle_release
  settle_release-ok w slot l (done true) c h at_slot e =
      emptied-IsNumbered w.owners w.next_token slot l h at_slot
  settle_release-ok w slot l (done false) c h at_slot e = absurd (cc e)
  settle_release-ok w slot l (raised r) c h at_slot e = absurd (cc e)

  close_found-ok :
      (t : ℕ) (w : World) (f : Option (ℕ × Lease))
      → IsNumbered (λ t. ⊥) w.owners w.next_token
      → ((slot : ℕ) (l : Lease) → f ≡ some (slot, l) → StandsAt w slot l × (l.token ≡ t))
      → (close_found env f w).0 ≡ ok
      → let w' = (close_found env f w).1 in IsNumbered (IsToken t) w'.owners w'.next_token
  unfolding close_found
  close_found-ok t w none h found = λ e. absurd (cc e)
  close_found-ok t w (some (slot, l)) h found =
      let (at_slot, same) = found slot l refl in
      if-both (λ (r : Status × World). r.0 ≡ ok → IsNumbered (IsToken t) r.1.owners r.1.next_token)
        l.quarantined (λ q e. absurd (cc e))
        (λ q e.
          subst
            (λ u.
              IsNumbered (IsToken u) (settle_release env slot (release env (enter w l)) w).1.owners
                (settle_release env slot (release env (enter w l)) w).1.next_token)
            same
            (settle_release-ok w slot l (release env (enter w l)).0 (release env (enter w l)).1 h
              at_slot e))

  pub close-ok :
      (version t : ℕ) (w : World)
      → IsNumbered (λ t. ⊥) w.owners w.next_token
      → (close env version t w).0 ≡ ok
      → let w' = (close env version t w).1 in IsNumbered (IsToken t) w'.owners w'.next_token
  unfolding close
  close-ok version t w h =
      if-both (λ (r : Status × World). r.0 ≡ ok → IsNumbered (IsToken t) r.1.owners r.1.next_token)
        (not (owner_version version)) (λ e. λ a. absurd (cc a))
        λ e.
          if-both
            (λ (r : Status × World). r.0 ≡ ok → IsNumbered (IsToken t) r.1.owners r.1.next_token)
            (t == 0) (λ d. λ a. absurd (cc a))
            λ d. close_found-ok t w (find t w.owners) h (λ slot l. find_lem t w slot l)

  -- A token that no lease has is found nowhere.
  gone-find :
      (t : ℕ) (w : World) → IsNumbered (IsToken t) w.owners w.next_token → find t w.owners ≡ none
  gone-find t w h = elim (Option-cases (find t w.owners)) [
    | inl e ↦ e
    | inr ((slot, l), e) ↦
        let (at_slot, same) = find_lem t w slot l e in absurd (h.absent slot l at_slot same)
  ]

  pub gone-validate :
      (t : ℕ) (w : World)
      → IsNumbered (IsToken t) w.owners w.next_token
      → validate env 3 t w ≡ (invalid_input, w)
  unfolding validate validate_found
  gone-validate t w h =
      if-both (λ x. x ≡ (invalid_input, w)) (t == 0) (λ e. refl) λ e. rw (gone-find t w h) refl
