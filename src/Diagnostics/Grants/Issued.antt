-- ===== src/Diagnostics/Grants/Issued.antt =====
-- What a consumption that succeeds was preceded by.
use shiroha_quiz.Base.{
  ℕ, ◌+◌, ◌≤◌, ◌<◌, not-false, or-false_left, or-false_right, ◌≡◌, Bool, true, false, not, ◌||◌,
  List, if-both, arith,
}
use mathlib.Core.List.{Memᴰ}
use shiroha_quiz.Diagnostics.Grants.{
  GrantTarget, Cell, is_issued, valid, same_identity, out_of_window, consume,
}
use shiroha_quiz.Diagnostics.Grants.Identity.{same_identity_iff}
use shiroha_quiz.Diagnostics.Grants.Once.{Request, issues}

-- The time of a run that starts at `now` lies in the window of its target.
pub record IsTimely (t : GrantTarget) (now : ℕ) : Type 0 where
  pub from_start : t.window_start_ms ≤ now
  pub before_end : now < t.window_end_ms
  pub to_end : now + t.max_execution_ms ≤ t.window_end_ms

in_window : (t : GrantTarget) (now : ℕ) → out_of_window t now ≡ false → IsTimely t now
in_window t now e = record {
  from_start = ground (arith, e);
  before_end = ground (arith, e);
  to_end = ground (arith, e);
}

-- A consumption that succeeds found the issued target itself.
pub consume-true :
    (observed : GrantTarget) (now : ℕ) (uncertain : Bool) (c : Cell)
    → (consume observed now uncertain c).0 ≡ true
    → (is_issued c.state ≡ true)
      × ((valid observed ≡ true) × ((observed ≡ c.target) × IsTimely c.target now))
unfolding consume
consume-true observed now uncertain c =
    let Goal = λ (r : Bool × Cell).
      r.0 ≡ true
      → (is_issued c.state ≡ true)
        × ((valid observed ≡ true) × ((observed ≡ c.target) × IsTimely c.target now)) in
    if-both Goal (not (is_issued c.state)) (λ a e. absurd (cc e))
      λ a.
        if-both Goal uncertain (λ b e. absurd (cc e))
          λ b.
            if-both Goal (not (valid observed) || not (same_identity observed c.target))
              (λ f e. absurd (cc e))
              λ f.
                if-both Goal (out_of_window c.target now) (λ i e. absurd (cc e))
                  λ i e.
                    let bad = not (valid observed) in
                    let other = not (same_identity observed c.target) in
                    (
                      not-false _ a,
                      (
                        not-false _ (or-false_left bad other f),
                        (
                          (same_identity_iff observed c.target).0
                              (not-false _ (or-false_right bad other f)),
                          in_window c.target now i,
                        ),
                      ),
                    )

-- A cell that is issued holds a target whose issue is among the requests.
record IsAsked (all : List Request) (c : Cell) : Type 0 where
  asked : is_issued c.state ≡ true → Memᴰ (issues c.target) all
