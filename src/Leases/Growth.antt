-- ===== src/Leases/Growth.antt =====
-- Invariants of an acquisition, in which the lease takes on pins.
use shiroha_quiz.Base.{ℕ, ◌+◌, ◌≤◌, ◌≡◌, refl, ap, Bool, true, false, List, [], ◌∷◌, arith, Bytes}
use shiroha_quiz.Objects.{Sid, ObjectInfo, no_info}
use shiroha_quiz.Machine.{
  Handle, null, Call, Environment, Pin, Context, Action, change_lease, open_at,
}
use shiroha_quiz.Machine.Keeps.{
  Keeps, ◌▹◌, Keeps-require, Keeps-pure, Keeps-settle, Keeps-get_lease, Keeps-change_lease,
}
use shiroha_quiz.Leases.{add, inspect_last, new_pin_place, set_last_identity}
use shiroha_quiz.Leases.Accounts.{
  IsCovered, weigh, opens, closing, opened, closed, pins_weight, held_weight,
}
use shiroha_quiz.Leases.Stable.{IsCalm}
use shiroha_quiz.Leases.Covered.{Covered-IsStable}
use shiroha_quiz.Leases.Steps.{Keeps-inspect_pins}
use shiroha_quiz.Leases.Release.{pins_weight-append}

-- An invariant that also withstands a new pin, and the identity that is recorded for it.
pub record IsGrowing (env : Environment) (P : Context → Type 0) : Type 0 where
  pub stable : IsCalm env P
  pub new_pin :
      (owner dacl : Bool) (call : Call)
      → opens call ≡ true
      → closing call ≡ null
      → Keeps P (open_at env (new_pin_place owner dacl) call)
  pub identify :
      (info : ObjectInfo)
      → Keeps P (change_lease (λ l. record l { pins = set_last_identity info l.pins }))

module _ {P : Context → Type 0} (env : Environment) (growing : IsGrowing env P) where
  open growing use {stable, new_pin, identify}

  pub Keeps-inspect_last : Keeps P (inspect_last env)
  unfolding inspect_last
  Keeps-inspect_last = Keeps-get_lease ▹ λ l.
      stable.quiet _ refl refl refl ▹ λ answer. identify _ ▹ λ u. Keeps-settle _ ▹ λ u. Keeps-pure _

  pub Keeps-add :
      (initialize : Bool) (parent : Handle) (name : Bytes) (directory : Bool) (sid : Sid)
      (dacl create : Bool)
      → Keeps P (add env initialize parent name directory sid dacl create)
  unfolding add
  Keeps-add initialize parent name directory sid dacl create = Keeps-require _ _ ▹ λ u.
      Keeps-inspect_pins env stable sid ▹ λ u. new_pin _ _ _ refl refl ▹ λ o. Keeps-settle _ ▹ λ u.
      Keeps-get_lease ▹ λ l. Keeps-require _ _ ▹ λ u. Keeps-inspect_last ▹ λ info. Keeps-require _ _

-- The handles that the lease holds, all its pins included, are covered.
pub record IsPinned (n k : ℕ) (c : Context) : Type 0 where
  pub covered :
      closed n c.history + held_weight n c + pins_weight n c.lease.pins + k ≤ opened n c.history

-- Whatever keeps the count with the pins fixed keeps it.
module _ {n k : ℕ} where
  start-IsPinned :
      (c : Context)
      → IsPinned n k c
      → IsCovered n (pins_weight n c.lease.pins + k) c.lease.pins false c
  start-IsPinned c h = record {
    covered = omega (arith, h.covered);
    same_pins = refl;
    latched = λ e. cc;
  }

  end-IsPinned :
      (ps : List Pin) (c : Context) → IsCovered n (pins_weight n ps + k) ps false c → IsPinned n k c
  end-IsPinned ps c h = record {
    covered = omega (arith, h.covered, ap (pins_weight n) h.same_pins);
  }

  Pinned-of {ℓ} :
      {A : Type ℓ} (m : Action A)
      → ((ps : List Pin) → Keeps (IsCovered n (pins_weight n ps + k) ps false) m)
      → Keeps (IsPinned n k) m
  Pinned-of m keeps = record {
    at = λ c h. end-IsPinned c.lease.pins (m c).1 ((keeps c.lease.pins).at c (start-IsPinned c h));
  }

set_last_identity-weight :
    (n : ℕ) (info : ObjectInfo) (ps : List Pin)
    → pins_weight n (set_last_identity info ps) ≡ pins_weight n ps
unfolding pins_weight
set_last_identity-weight n info [] = refl
set_last_identity-weight n info (p ∷ []) = refl
set_last_identity-weight n info (p ∷ q ∷ ps) =
    ap (λ x. weigh n p.handle + x) (set_last_identity-weight n info (q ∷ ps))

module _ (env : Environment) (n k : ℕ) where
  Pinned-new_pin :
      (owner dacl : Bool) (call : Call)
      → opens call ≡ true
      → closing call ≡ null
      → Keeps (IsPinned n k) (open_at env (new_pin_place owner dacl) call)
  unfolding open_at opened closed pins_weight
  Pinned-new_pin owner dacl call o e = record {
    at = λ c h. record {
      covered =
          rw (o, e)
            (omega (
              arith,
              h.covered,
              pins_weight-append n c.lease.pins (
                  record {
                    handle = (env c.history call).handle;
                    identity = no_info;
                    owner = owner;
                    dacl = dacl;
                  }
                  ∷ []),
            ));
    };
  }

  pub Pinned-IsGrowing : IsGrowing env (IsPinned n k)
  Pinned-IsGrowing =
      let base = λ (ps : List Pin). (Covered-IsStable env n (pins_weight n ps + k) ps false).calm in
      record {
        stable = record {
          quiet = λ call o e k. Pinned-of _ λ ps. (base ps).quiet call o e k;
          open_call =
              λ p call place o e x. Pinned-of _ λ ps. (base ps).open_call p call place o e x;
          close_call =
              λ t call p place c o x. Pinned-of _ λ ps. (base ps).close_call t call p place c o x;
          lease_change = λ f tame. Pinned-of _ λ ps. (base ps).lease_change f tame;
          locals_change = λ f tame. Pinned-of _ λ ps. (base ps).locals_change f tame;
          memory_change = λ f. Pinned-of _ λ ps. (base ps).memory_change f;
          move = λ f m c h.
              end-IsPinned c.lease.pins (f c) ((base c.lease.pins).move f m c (start-IsPinned c h));
        };
        new_pin = Pinned-new_pin;
        identify = λ info. Keeps-change_lease _ λ c h. record {
          covered = omega (arith, h.covered, set_last_identity-weight n info c.lease.pins);
        };
      }
