-- ===== src/Diagnostics/Supervisor/Quiet/Steady.antt =====
-- How little an event of the supervisor may change, and that a stop changes no more.
use shiroha_quiz.Base.{ℕ, ◌≡◌, refl, ap, ◌∙◌, Bool, true, false, ◌||◌, if-both}
use shiroha_quiz.Diagnostics.Supervisor.{
  SupervisorState, supervisor_terminal, StopReason, no_reason, admission, launch, deadline,
  measurement, budget, worker, settlement, Supervisor, is_admitted, none_yet, first_of, stop,
}

-- What an operation that neither samples nor settles leaves: the verdict, the samples, and the first
-- failure where there is one.
pub record IsQuiet (s s' : Supervisor) : Type 0 where
  pub verdict : s'.evidence.verdict ≡ s.evidence.verdict
  pub samples : s'.evidence.samples ≡ s.evidence.samples
  pub latched :
      none_yet s.evidence.first_failure ≡ false
      → s'.evidence.first_failure ≡ s.evidence.first_failure

pub IsQuiet-refl : (s : Supervisor) → IsQuiet s s
IsQuiet-refl s = record { verdict = refl; samples = refl; latched = λ e. refl }

-- Whether the run may be launched, or was.
abbrev pub opened : Supervisor → Bool
opened s = s.started || is_admitted s.state

-- An operation that does not admit keeps the target, and opens nothing.
pub record IsBound (s s' : Supervisor) : Type 0 where
  pub target : s'.target ≡ s.target
  pub shut : opened s' ≡ true → opened s ≡ true

pub IsBound-refl : (s : Supervisor) → IsBound s s
IsBound-refl s = record { target = refl; shut = λ e. e }

pub IsBound-trans : (r s t : Supervisor) → IsBound r s → IsBound s t → IsBound r t
IsBound-trans r s t g h = record { target = h.target ∙ g.target; shut = λ e. g.shut (h.shut e) }

-- Both.
pub record IsSteady (s s' : Supervisor) : Type 0 where
  pub quiet : IsQuiet s s'
  pub bound : IsBound s s'

pub IsSteady-refl : (s : Supervisor) → IsSteady s s
IsSteady-refl s = record { quiet = IsQuiet-refl s; bound = IsBound-refl s }

pub IsSteady-trans : (r s t : Supervisor) → IsSteady r s → IsSteady s t → IsSteady r t
IsSteady-trans r s t g h = record {
  quiet = record {
    verdict = h.quiet.verdict ∙ g.quiet.verdict;
    samples = h.quiet.samples ∙ g.quiet.samples;
    latched = λ e. h.quiet.latched (ap none_yet (g.quiet.latched e) ∙ e) ∙ g.quiet.latched e;
  };
  bound = IsBound-trans r s t g.bound h.bound;
}

-- A state that is not `admitted` opens nothing, whatever it follows.
pub closes : (b c d : Bool) → d ≡ false → (b || d) ≡ true → (b || c) ≡ true
closes true c d e h = refl
closes false c d e h = absurd (cc (e, h))

first_of-latched : (r why : StopReason) → none_yet r ≡ false → first_of r why ≡ r
first_of-latched no_reason why e = absurd (cc e)
first_of-latched admission why e = refl
first_of-latched launch why e = refl
first_of-latched deadline why e = refl
first_of-latched measurement why e = refl
first_of-latched budget why e = refl
first_of-latched worker why e = refl
first_of-latched settlement why e = refl

pub stop-IsSteady :
    (why : StopReason) (st : SupervisorState) (s : Supervisor)
    → is_admitted st ≡ false
    → IsSteady s (stop why st s)
unfolding stop
stop-IsSteady why st s e =
    if-both (IsSteady s) (supervisor_terminal s.state) (λ f. IsSteady-refl s)
      (λ f. record {
        quiet = record {
          verdict = refl;
          samples = refl;
          latched = first_of-latched s.evidence.first_failure why;
        };
        bound = record {
          target = refl;
          shut = closes s.started (is_admitted s.state) (is_admitted st) e;
        };
      })

-- A change of what is neither judged nor bound.
abbrev seen_at : ℕ → Supervisor → Supervisor
seen_at now s = record s { last_ms = now }

pub seen_at-IsSteady : (now : ℕ) (s : Supervisor) → IsSteady s (seen_at now s)
seen_at-IsSteady now s = record {
  quiet = record { verdict = refl; samples = refl; latched = λ e. refl };
  bound = record { target = refl; shut = λ e. e };
}
