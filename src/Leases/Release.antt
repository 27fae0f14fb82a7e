-- ===== src/Leases/Release.antt =====
-- What `release` closes, and what it leaves of a lease.
use mathlib.Core.List.{reverse-cons}
use shiroha_quiz.Base.{
  ℕ, ◌+◌, ◌≤◌, ◌≡◌, refl, ap, ◌∙◌, ◌&&◌, not, ◌++◌, reverse, Bool, true, false, List, [], ◌∷◌,
  arith, if◌then◌else◌,
}
use shiroha_quiz.Machine.{
  ◌>>=◌, continue, Environment, History, Pin, Lease, Context, Result, done, raised,
}
use shiroha_quiz.Leases.{close_pin, close_pins, release_places, release_pins, release}
use shiroha_quiz.Leases.Accounts.{
  IsCovered, opened, closed, pins_weight, weigh, lease_weight, held_weight, locals_weight,
}
use shiroha_quiz.Leases.Covered.{Covered-IsStable}
use shiroha_quiz.Leases.Steps.{Keeps-release_places}

-- The pins are closed once each, and where every close succeeds none holds a handle.
pub record ClosesPins (n : ℕ) (ps : List Pin) (h : History) (r : List Pin × Bool × History)
    : Type 0 where
  pub closed_once : closed n r.2 ≡ closed n h + pins_weight n ps
  pub nothing_opened : opened n r.2 ≡ opened n h
  pub emptied : r.1 ≡ true → pins_weight n r.0 ≡ 0

close_pin_lem :
    (env : Environment) (n : ℕ) (p : Pin) (h : History)
    → let (p', success, h') = close_pin env p h in
      (closed n h' ≡ closed n h + weigh n p.handle)
      × (opened n h' ≡ opened n h)
      × (success ≡ true → weigh n p'.handle ≡ 0)
unfolding close_pin closed opened
close_pin_lem env n p h = (ground arith, ground arith, λ e. ground arith)

close_pins_lem :
    (env : Environment) (n : ℕ) (ps : List Pin) (h : History)
    → ClosesPins n ps h (close_pins env ps h)
unfolding close_pins pins_weight
close_pins_lem env n [] h = record {
  closed_once = omega arith;
  nothing_opened = refl;
  emptied = λ e. refl;
}
close_pins_lem env n (p ∷ ps) h =
    let (p', success, h') = close_pin env p h in
    let head = close_pin_lem env n p h in
    let rest = close_pins_lem env n ps h' in
    record {
      closed_once = omega (arith, rest.closed_once, head.0);
      nothing_opened = rest.nothing_opened ∙ head.1;
      emptied = λ e. ground (arith, head.2, rest.emptied);
    }

pub pins_weight-append :
    (n : ℕ) (ps qs : List Pin) → pins_weight n (ps ++ qs) ≡ pins_weight n ps + pins_weight n qs
unfolding pins_weight
pins_weight-append n [] qs = omega arith
pins_weight-append n (p ∷ ps) qs = omega (arith, pins_weight-append n ps qs)

pub pins_weight-reverse : (n : ℕ) (ps : List Pin) → pins_weight n (reverse ps) ≡ pins_weight n ps
unfolding pins_weight
pins_weight-reverse n [] = refl
pins_weight-reverse n (p ∷ ps) = omega (
  arith,
  ap (pins_weight n) (reverse-cons p ps),
  pins_weight-append n (reverse ps) (p ∷ []),
  pins_weight-reverse n ps,
)

-- What a lease answers for: its pins too, unless it is quarantined.
abbrev pub total_weight : ℕ → Lease → ℕ
total_weight n l = lease_weight n l + (if l.quarantined then 0 else pins_weight n l.pins)

settle_pins :
    (n k : ℕ) (before success : Bool) (lease locals left ps h h' o o' : ℕ)
    → h + (lease + locals) + (ps + k) ≤ o
    → h' ≡ h + ps
    → o' ≡ o
    → (success ≡ true → left ≡ 0)
    → h' + (lease + (if not (before && success) then 0 else left) + locals) + k ≤ o'
settle_pins n k before success lease locals left ps h h' o o' c once same empty =
    ground (arith, empty)

release_pins-covered :
    (env : Environment) (n k : ℕ) (before : Bool) (c : Context) (ps : List Pin)
    → IsCovered n (pins_weight n ps + k) ps false c
    → let c' = (release_pins env before c).1 in
      closed n c'.history + (total_weight n c'.lease + locals_weight n c'.locals) + k
      ≤ opened n c'.history
unfolding release_pins
release_pins-covered env n k before c ps h =
    let pins = close_pins_lem env n (reverse c.lease.pins) c.history in
    let left : List Pin = (close_pins env (reverse c.lease.pins) c.history).0 in
    settle_pins n k before (close_pins env (reverse c.lease.pins) c.history).1
      (lease_weight n c.lease) (locals_weight n c.locals) (pins_weight n (reverse left))
      (pins_weight n ps) _ _ _ _ h.covered
      (pins.closed_once
        ∙ ap (λ x. closed n c.history + x)
            (pins_weight-reverse n c.lease.pins ∙ ap (pins_weight n) h.same_pins))
      pins.nothing_opened (λ e. pins_weight-reverse n left ∙ pins.emptied e)

release_result-covered :
    (env : Environment) (n k : ℕ) (r : Result Bool) (c : Context) (ps : List Pin)
    → IsCovered n (pins_weight n ps + k) ps false c
    → let c' = (continue r (release_pins env) c).1 in
      closed n c'.history + (total_weight n c'.lease + locals_weight n c'.locals) + k
      ≤ opened n c'.history
release_result-covered env n k (done before) c ps h = release_pins-covered env n k before c ps h
release_result-covered env n k (raised r) c ps h =
    ground (arith, h.covered, ap (pins_weight n) h.same_pins)

-- `release`, from a lease all of whose pins are open: nothing is closed that was not given out, and
-- what is left to close is covered.
pub release-covered :
    (env : Environment) (n k : ℕ) (c : Context)
    → closed n c.history + held_weight n c + pins_weight n c.lease.pins + k ≤ opened n c.history
    → let c' = (release env c).1 in
      closed n c'.history + (total_weight n c'.lease + locals_weight n c'.locals) + k
      ≤ opened n c'.history
unfolding release ◌>>=◌
release-covered env n k c h =
    let start : IsCovered n (pins_weight n c.lease.pins + k) c.lease.pins false c = record {
      covered = omega (arith, h);
      same_pins = refl;
      latched = λ e. cc;
    } in
    release_result-covered env n k (release_places env c).0 (release_places env c).1 c.lease.pins (
      (Keeps-release_places env
          (Covered-IsStable env n (pins_weight n c.lease.pins + k) c.lease.pins false).calm).at
        c start)
