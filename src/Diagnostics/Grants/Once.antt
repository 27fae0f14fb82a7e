-- ===== src/Diagnostics/Grants/Once.antt =====
-- A cell that is asked for grants and consumptions in any order, and what is counted of them.
use shiroha_quiz.Base.{
  ℕ, ◌+◌, ◌%◌, ◌^◌, ◌≡◌, refl, Bool, true, false, not, ◌||◌, List, [], ◌∷◌, if-both, arith,
}
use shiroha_quiz.Diagnostics.Grants.{
  GrantTarget, GrantState, unissued, issued, consumed, expired, mismatch, unknown, rejected, Cell,
  new_cell, valid, same_identity, out_of_window, issue, consume,
}

pub data Request : Type 0 where
  issues : GrantTarget → Request
  consumes : GrantTarget → ℕ → Bool → Request

-- A cell with the number of consumptions that succeeded, and with the last of them.
pub record Trial : Type 0 where
  pub cell : Cell
  pub grants : ℕ
  pub issues_done : ℕ

abbrev pub new_trial : Trial
new_trial = record { cell = new_cell; grants = 0; issues_done = 0 }

abbrev counted : Bool → ℕ → ℕ
counted true n = 1 + n
counted false n = n

unfoldable pub ask : Request → Trial → Trial
ask (issues t) r =
    let (done, c) = issue t r.cell in
    record r { cell = c; issues_done = counted done r.issues_done }
ask (consumes t now uncertain) r =
    let (done, c) = consume t now uncertain r.cell in
    record r { cell = c; grants = counted done r.grants }

unfoldable pub ask_all : List Request → Trial → Trial
ask_all [] r = r
ask_all (q ∷ qs) r = ask_all qs (ask q r)

-- How many attempts a state has behind it.
abbrev Spent : GrantState → ℕ → Type 0
Spent unissued n = n ≡ 0
Spent issued n = n ≡ 0
Spent rejected n = n ≡ 0
Spent consumed n = n ≡ 1
Spent expired n = n ≡ 1
Spent mismatch n = n ≡ 1
Spent unknown n = n ≡ 1

abbrev Granted : GrantState → ℕ → Type 0
Granted consumed n = n ≡ 1
Granted s n = n ≡ 0

abbrev Issued : GrantState → ℕ → Type 0
Issued unissued n = n ≡ 0
Issued rejected n = n ≡ 0
Issued s n = n ≡ 1

-- The counts that belong to the state of the cell.
pub record IsOnce (r : Trial) : Type 0 where
  pub spent : Spent r.cell.state r.cell.attempts
  pub granted : Granted r.cell.state r.grants
  pub issued_once : Issued r.cell.state r.issues_done

abbrev trial : GrantState → ℕ → GrantTarget → ℕ → ℕ → Trial
trial s n u g d = record {
  cell = record { state = s; attempts = n; target = u };
  grants = g;
  issues_done = d;
}

-- `IsOnce` of a trial that is given by its parts.
abbrev IsOnceAt : (s : GrantState) (n : ℕ) (u : GrantTarget) (g d : ℕ) → Type 0
IsOnceAt s n u g d = IsOnce (trial s n u g d)

issues-IsOnce :
    (t : GrantTarget) (s : GrantState) (n : ℕ) (u : GrantTarget) (g d : ℕ)
    → IsOnceAt s n u g d
    → IsOnce (ask (issues t) (trial s n u g d))
unfolding ask issue
issues-IsOnce t unissued n u g d h =
    if-both
      (λ (r : Bool × Cell). IsOnce (record { cell = r.1; grants = g; issues_done = counted r.0 d }))
      (not (valid t))
      (λ e. record {
        spent = h.spent;
        granted = h.granted;
        issued_once = omega (arith, h.issued_once);
      })
      (λ e. record {
        spent = h.spent;
        granted = h.granted;
        issued_once = omega (arith, h.issued_once);
      })
issues-IsOnce t issued n u g d h = h
issues-IsOnce t consumed n u g d h = h
issues-IsOnce t expired n u g d h = h
issues-IsOnce t mismatch n u g d h = h
issues-IsOnce t unknown n u g d h = h
issues-IsOnce t rejected n u g d h = h

consumes-IsOnce :
    (t : GrantTarget) (now : ℕ) (uncertain : Bool) (s : GrantState) (n : ℕ) (u : GrantTarget)
    (g d : ℕ)
    → IsOnceAt s n u g d
    → IsOnce (ask (consumes t now uncertain) (trial s n u g d))
unfolding ask consume
consumes-IsOnce t now uncertain unissued n u g d h = h
consumes-IsOnce t now uncertain issued n u g d h =
    let Goal = λ (r : Bool × Cell).
      IsOnce (record { cell = r.1; grants = counted r.0 g; issues_done = d }) in
    let one : (n + 1) % 2 ^ 32 ≡ 1 = omega (arith, h.spent) in
    if-both Goal uncertain
      (λ e. record { spent = one; granted = h.granted; issued_once = h.issued_once })
      λ e.
        if-both Goal (not (valid t) || not (same_identity t u))
          (λ f. record { spent = one; granted = h.granted; issued_once = h.issued_once })
          λ f.
            if-both Goal (out_of_window u now)
              (λ i. record { spent = one; granted = h.granted; issued_once = h.issued_once })
              (λ i. record {
                spent = one;
                granted = omega (arith, h.granted);
                issued_once = h.issued_once;
              })
consumes-IsOnce t now uncertain consumed n u g d h = h
consumes-IsOnce t now uncertain expired n u g d h = h
consumes-IsOnce t now uncertain mismatch n u g d h = h
consumes-IsOnce t now uncertain unknown n u g d h = h
consumes-IsOnce t now uncertain rejected n u g d h = h

ask-IsOnce : (q : Request) (r : Trial) → IsOnce r → IsOnce (ask q r)
ask-IsOnce (issues t) r h =
    issues-IsOnce t r.cell.state r.cell.attempts r.cell.target r.grants r.issues_done h
ask-IsOnce (consumes t now uncertain) r h =
    consumes-IsOnce t now uncertain r.cell.state r.cell.attempts r.cell.target r.grants
      r.issues_done h

ask_all-IsOnce : (qs : List Request) (r : Trial) → IsOnce r → IsOnce (ask_all qs r)
unfolding ask_all
ask_all-IsOnce [] r h = h
ask_all-IsOnce (q ∷ qs) r h = ask_all-IsOnce qs (ask q r) (ask-IsOnce q r h)

-- Whatever a new cell is asked, in any order, the grant is issued at most once, and its consumption is
-- attempted at most once; where the one attempt succeeded the cell is consumed and stays so, else
-- nothing was granted.
pub new_trial-IsOnce : (qs : List Request) → IsOnce (ask_all qs new_trial)
new_trial-IsOnce qs =
    ask_all-IsOnce qs new_trial (record { spent = refl; granted = refl; issued_once = refl })
