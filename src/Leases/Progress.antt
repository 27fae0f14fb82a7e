-- ===== src/Leases/Progress.antt =====
-- How many calls of one sort were made, those that commit or those that rename, and whether `replacing` is
-- set.
use shiroha_quiz.Base.{ℕ, ◌+◌, ◌≡◌, ◌∙◌, Bool, true, false, [], ◌∷◌, arith, if-both, if◌then◌else◌}
use shiroha_quiz.Machine.{
  Handle, Call, replace_file, credential_replace, discovery_replace, History, Event, Environment,
  Context, Result, Place, open_at, close_if, null,
}
use shiroha_quiz.Machine.Keeps.{
  Keeps-ask, Keeps-change_lease, Keeps-change_locals, Keeps-change_memory,
}
use shiroha_quiz.Leases.Accounts.{commits}
use shiroha_quiz.Leases.Stable.{IsPlace, IsCalm}

-- How many calls pass a test.
unfoldable pub count_calls : (Call → Bool) → History → ℕ
count_calls test [] = 0
count_calls test (e ∷ es) = (if test e.call then 1 else 0) + count_calls test es

abbrev pub committed : History → ℕ
committed h = count_calls commits h

-- The calls that rename a file. A deletion commits, and does not rename.
abbrev pub renames : Call → Bool
renames (replace_file h d replace) = true
renames (credential_replace h d k replace) = true
renames (discovery_replace h d k replace) = true
renames c = false

abbrev pub renamed : History → ℕ
renamed h = count_calls renames h

-- What passes the test commits.
abbrev pub IsCommitting : (Call → Bool) → Type 0
IsCommitting test = (call : Call) → commits call ≡ false → test call ≡ false

pub commits-IsCommitting : IsCommitting commits
commits-IsCommitting call k = k

pub renames-IsCommitting : IsCommitting renames
renames-IsCommitting call k = ground (arith, k)

-- `n` calls that pass the test were made; where `entered` holds, `replacing` is set.
pub record IsAt (test : Call → Bool) (n : ℕ) (entered : Bool) (c : Context) : Type 0 where
  pub made : count_calls test c.history ≡ n
  pub marked : entered ≡ true → c.locals.replacing ≡ true

module _ (env : Environment) {test : Call → Bool} (tame : IsCommitting test) (n : ℕ)
    (entered : Bool) where
  put-IsAt :
      (p : Place) (c : Context) (event : Event) (h : Handle)
      → IsPlace p
      → test event.call ≡ false
      → IsAt test n entered c
      → IsAt test n entered (p.put h (record c { history = event ∷ c.history }))
  unfolding count_calls
  put-IsAt p c event h place k at =
      let c' = record c { history = event ∷ c.history } in
      record {
        made = rw (place.same_history h c', k) (omega (arith, at.made));
        marked = λ e. place.same_replacing h c' ∙ at.marked e;
      }

  -- Every step but a call that commits leaves both as they are.
  pub At-IsCalm : IsCalm env (IsAt test n entered)
  unfolding count_calls open_at close_if
  At-IsCalm = record {
    quiet = λ call o e k.
        Keeps-ask env call
          λ c h. record { made = rw (tame call k) (omega (arith, h.made)); marked = h.marked };
    open_call = λ p call place o e k. record {
      at = λ c h.
          let answer = env c.history call in
          put-IsAt p c (record { call = call; answer = answer }) answer.handle place (tame call k)
            h;
    };
    close_call = λ live call p place e o k. record {
      at = λ c h.
          if-both (λ (r : Result Bool × Context). IsAt test n entered r.1) (live (p.held c))
            (λ t.
              let shut = call (p.held c) in
              put-IsAt p c (record { call = shut; answer = env c.history shut }) null place
                (tame shut (k (p.held c))) h)
            (λ t. record {
              made = rw (place.same_history null c) h.made;
              marked = λ e. place.same_replacing null c ∙ h.marked e;
            });
    };
    lease_change =
        λ f keeping. Keeps-change_lease f λ c h. record { made = h.made; marked = h.marked };
    locals_change = λ f keeping.
        Keeps-change_locals f λ c h. record {
          made = h.made;
          marked = λ e. keeping.same_replacing c.locals ∙ h.marked e;
        };
    memory_change = λ f. Keeps-change_memory f λ c h. record { made = h.made; marked = h.marked };
    move = λ f m c h. record {
      made = rw (m.same_history c) h.made;
      marked = λ e. m.same_replacing c ∙ h.marked e;
    };
  }
