-- ===== src/Leases/Marked.antt =====
-- The token, the role and the tickets of a lease over the operations on it.
use shiroha_quiz.Base.{ℕ, ◌≤◌, ◌≡◌, ◌∙◌, Bool, arith, if-both}
use shiroha_quiz.Machine.{
  Handle, null, History, Environment, Context, ◌>>=◌, continue, Result, done, raised, Place,
  open_at, close_if,
}
use shiroha_quiz.Machine.Keeps.{
  Keeps, Keeps-ask, Keeps-change_lease, Keeps-change_locals, Keeps-change_memory,
}
use shiroha_quiz.Leases.{release_places, release_pins, release}
use shiroha_quiz.Leases.Stable.{IsPlace, IsStable}
use shiroha_quiz.Leases.Steps.{Keeps-release_places}
use shiroha_quiz.Leases.Growth.{IsGrowing}

pub record IsMarked (token role next : ℕ) (c : Context) : Type 0 where
  pub same_token : c.lease.token ≡ token
  pub same_role : c.lease.role ≡ role
  pub later : next ≤ c.next_ticket

-- A place that is written, with a call before it or without.
IsMarked-put :
    (token role next : ℕ) (p : Place) (h : Handle) (c : Context)
    → IsPlace p
    → IsMarked token role next c
    → IsMarked token role next (p.put h c)
IsMarked-put token role next p h c place m = record {
  same_token = place.same_token h c ∙ m.same_token;
  same_role = place.same_role h c ∙ m.same_role;
  later = omega (arith, m.later, place.same_next h c);
}

IsMarked-call :
    (token role next : ℕ) (c : Context) (es : History)
    → IsMarked token role next c
    → IsMarked token role next (record c { history = es })
IsMarked-call token role next c es m = record {
  same_token = m.same_token;
  same_role = m.same_role;
  later = m.later;
}

module _ (env : Environment) (token role next : ℕ) where
  pub Marked-IsStable : IsStable env (IsMarked token role next)
  unfolding open_at close_if
  Marked-IsStable = record {
    calm = record {
      quiet = λ call o e k.
          Keeps-ask env call
            λ c h. record { same_token = h.same_token; same_role = h.same_role; later = h.later };
      open_call = λ p call place o e k. record {
        at = λ c h. IsMarked-put token role next p _ _ place (IsMarked-call token role next c _ h);
      };
      close_call = λ test call p place e o k. record {
        at = λ c h.
            if-both (λ (r : Result Bool × Context). IsMarked token role next r.1) (test (p.held c))
              (λ t.
                IsMarked-put token role next p null _ place (IsMarked-call token role next c _ h))
              (λ t. IsMarked-put token role next p null c place h);
      };
      lease_change = λ f tame. Keeps-change_lease f λ c h. record {
        same_token = tame.same_token c.lease ∙ h.same_token;
        same_role = tame.same_role c.lease ∙ h.same_role;
        later = h.later;
      };
      locals_change = λ f tame.
          Keeps-change_locals f
            λ c h. record { same_token = h.same_token; same_role = h.same_role; later = h.later };
      memory_change = λ f.
          Keeps-change_memory f
            λ c h. record { same_token = h.same_token; same_role = h.same_role; later = h.later };
      move = λ f m c h. record {
        same_token = m.same_token c ∙ h.same_token;
        same_role = m.same_role c ∙ h.same_role;
        later = omega (arith, h.later, m.later c);
      };
    };
    commit_call = λ call k.
        Keeps-ask env call
          λ c h. record { same_token = h.same_token; same_role = h.same_role; later = h.later };
    mark =
        Keeps-change_locals _
          λ c h. record { same_token = h.same_token; same_role = h.same_role; later = h.later };
  }

  pub Marked-IsGrowing : IsGrowing env (IsMarked token role next)
  unfolding open_at
  Marked-IsGrowing = record {
    stable = Marked-IsStable.calm;
    new_pin = λ owner dacl call o e. record {
      at = λ c h. record { same_token = h.same_token; same_role = h.same_role; later = h.later };
    };
    identify = λ info.
        Keeps-change_lease _
          λ c h. record { same_token = h.same_token; same_role = h.same_role; later = h.later };
  }

  release_pins-IsMarked :
      (r : Result Bool) (c : Context)
      → IsMarked token role next c
      → IsMarked token role next (continue r (release_pins env) c).1
  unfolding release_pins
  release_pins-IsMarked (done b) c h = record {
    same_token = h.same_token;
    same_role = h.same_role;
    later = h.later;
  }
  release_pins-IsMarked (raised r) c h = h

  pub Keeps-release : Keeps (IsMarked token role next) (release env)
  unfolding release ◌>>=◌
  Keeps-release = record {
    at = λ c h.
        release_pins-IsMarked (release_places env c).0 (release_places env c).1
          ((Keeps-release_places env Marked-IsStable.calm).at c h);
  }
