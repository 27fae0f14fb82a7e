-- ===== src/Ledger/Stopped.antt =====
-- windows/external_native/diagnostics/probe_ledger.h: what the uses of a ledger leave of a probe that has
-- stopped.
use shiroha_quiz.Base.{
  ◌⊎◌, inl, inr, not-false, ℕ, ◌≡◌, refl, ◌∙◌, Bool, true, false, not, ◌||◌, Option, none, some,
  List, [], ◌∷◌, arith, if◌then◌else◌, if-both, ◌==◌,
}
use shiroha_quiz.Ledger.{
  Step, Failure, Ledger, next, Sample, unset, unread, reading, stop, resources, sampled, counted,
  judged, observe, invoke, record_result, closed, release, Use, invokes, records, releases,
  observes, use_ledger, use_all,
}

-- What a stop freezes.
pub record IsFrozen (l l' : Ledger) : Type 0 where
  pub still_stopped : l'.stopped ≡ true
  pub same_failure : l'.first_failure ≡ l.first_failure
  pub same_status : l'.first_status ≡ l.first_status
  pub same_calls :
      (l'.abi ≡ l.abi)
      × (l'.acquires ≡ l.acquires)
      × (l'.protects ≡ l.protects)
      × (l'.begins ≡ l.begins)
      × (l'.commits ≡ l.commits)
      × (l'.aborts ≡ l.aborts)
  pub one_close : (l'.closes ≡ l.closes) ⊎ ((l.closes ≡ 0) × (l'.closes ≡ 1))

closes_trans :
    (a b c : ℕ)
    → (b ≡ a) ⊎ ((a ≡ 0) × (b ≡ 1))
    → (c ≡ b) ⊎ ((b ≡ 0) × (c ≡ 1))
    → (c ≡ a) ⊎ ((a ≡ 0) × (c ≡ 1))
closes_trans a b c (inl e) (inl f) = inl (f ∙ e)
closes_trans a b c (inl e) (inr f) = inr (omega (arith, e, f), f.1)
closes_trans a b c (inr e) (inl f) = inr (e.0, f ∙ e.1)
closes_trans a b c (inr e) (inr f) = absurd (omega (arith, e.1, f.0))

IsFrozen-trans : {l k m : Ledger} → IsFrozen l k → IsFrozen k m → IsFrozen l m
IsFrozen-trans {l} {k} {m} a b =
    let (a0, a1, a2, a3, a4, a5) = a.same_calls in
    let (b0, b1, b2, b3, b4, b5) = b.same_calls in
    record {
      still_stopped = b.still_stopped;
      same_failure = b.same_failure ∙ a.same_failure;
      same_status = b.same_status ∙ a.same_status;
      same_calls = (b0 ∙ a0, b1 ∙ a1, b2 ∙ a2, b3 ∙ a3, b4 ∙ a4, b5 ∙ a5);
      one_close = closes_trans l.closes k.closes m.closes a.one_close b.one_close;
    }

-- The fields that a stop freezes are as they were.
same-IsFrozen :
    (l l' : Ledger)
    → l.stopped ≡ true
    → l'.stopped ≡ l.stopped
    → l'.first_failure ≡ l.first_failure
    → l'.first_status ≡ l.first_status
    → (l'.abi ≡ l.abi)
      × (l'.acquires ≡ l.acquires)
      × (l'.protects ≡ l.protects)
      × (l'.begins ≡ l.begins)
      × (l'.commits ≡ l.commits)
      × (l'.aborts ≡ l.aborts)
    → l'.closes ≡ l.closes
    → IsFrozen l l'
same-IsFrozen l l' h s f t c o = record {
  still_stopped = s ∙ h;
  same_failure = f;
  same_status = t;
  same_calls = c;
  one_close = inl o;
}

stop-IsFrozen : (f : Failure) (n : ℕ) (l : Ledger) → l.stopped ≡ true → IsFrozen l (stop f n l)
unfolding stop
stop-IsFrozen f n l h = record {
  still_stopped = refl;
  same_failure = ground (arith, h);
  same_status = ground (arith, h);
  same_calls = (refl, refl, refl, refl, refl, refl);
  one_close = inl refl;
}

sampled-IsFrozen : (s : Sample) (l : Ledger) → l.stopped ≡ true → IsFrozen l (sampled s l).1
unfolding sampled resources
sampled-IsFrozen unset l h =
    same-IsFrozen l _ h refl refl refl (refl, refl, refl, refl, refl, refl) refl
sampled-IsFrozen unread l h =
    same-IsFrozen l _ h refl refl refl (refl, refl, refl, refl, refl, refl) refl
sampled-IsFrozen (reading a b c) l h =
    same-IsFrozen l _ h refl refl refl (refl, refl, refl, refl, refl, refl) refl

judged-IsFrozen : (b : Bool) (l l' : Ledger) → IsFrozen l l' → IsFrozen l (judged b l')
unfolding judged
judged-IsFrozen true l l' h = h
judged-IsFrozen false l l' h = IsFrozen-trans h (
    IsFrozen-trans
      (same-IsFrozen l' _ h.still_stopped refl refl refl (refl, refl, refl, refl, refl, refl) refl)
      (stop-IsFrozen _ _ _ h.still_stopped))

watched-IsFrozen :
    (s : Sample) (l : Ledger)
    → l.stopped ≡ true
    → let (within, l') = sampled s (counted l) in IsFrozen l (judged within l')
watched-IsFrozen s l h = judged-IsFrozen (sampled s (counted l)).0 l (sampled s (counted l)).1 (
    IsFrozen-trans
      (same-IsFrozen l (counted l) h refl refl refl (refl, refl, refl, refl, refl, refl) refl)
      (sampled-IsFrozen s (counted l) h))

observe-IsFrozen : (s : Sample) (l : Ledger) → l.stopped ≡ true → IsFrozen l (observe s l).1
unfolding observe
observe-IsFrozen unset l h =
    same-IsFrozen l l h refl refl refl (refl, refl, refl, refl, refl, refl) refl
observe-IsFrozen unread l h = watched-IsFrozen unread l h
observe-IsFrozen (reading a b c) l h = watched-IsFrozen (reading a b c) l h

stop_unless-IsFrozen :
    (b : Bool) (f : Failure) (n : ℕ) (l l' : Ledger)
    → IsFrozen l l'
    → IsFrozen l (if b then stop f n l' else l')
stop_unless-IsFrozen true f n l l' h = IsFrozen-trans h (stop-IsFrozen f n l' h.still_stopped)
stop_unless-IsFrozen false f n l l' h = h

then_observed : (s : Sample) (l l' : Ledger) → IsFrozen l l' → IsFrozen l (observe s l').1
then_observed s l l' h = IsFrozen-trans h (observe-IsFrozen s l' h.still_stopped)

invoke-IsFrozen :
    (step : Step) (call : Option ℕ) (s : Sample) (l : Ledger)
    → l.stopped ≡ true
    → IsFrozen l (invoke step call s l).1
unfolding invoke
invoke-IsFrozen step call s l h =
    if-both (λ (r : Option ℕ × Ledger). IsFrozen l r.1) l.stopped
      (λ e. same-IsFrozen l l h refl refl refl (refl, refl, refl, refl, refl, refl) refl)
      (λ e. absurd (ground (arith, e, h)))

closed-IsFrozen : (call : Option ℕ) (l : Ledger) → l.stopped ≡ true → IsFrozen l (closed call l)
unfolding closed
closed-IsFrozen none l h = stop-IsFrozen _ _ l h
closed-IsFrozen (some status) l h =
    stop_unless-IsFrozen (not (status == 0)) _ _ l _
      (same-IsFrozen l _ h refl refl refl (refl, refl, refl, refl, refl, refl) refl)

-- The first close is counted.
closing-IsFrozen :
    (l : Ledger)
    → l.stopped ≡ true
    → (l.closes == 0) ≡ true
    → IsFrozen l (record l { closes = next l.closes })
closing-IsFrozen l h e = record {
  still_stopped = h;
  same_failure = refl;
  same_status = refl;
  same_calls = (refl, refl, refl, refl, refl, refl);
  one_close = inr (ground (arith, e), ground (arith, e));
}

release-IsFrozen :
    (call : Option ℕ) (s : Sample) (l : Ledger) → l.stopped ≡ true → IsFrozen l (release call s l).1
unfolding release
release-IsFrozen call s l h =
    if-both (λ (r : Bool × Ledger). IsFrozen l r.1) (not (l.closes == 0))
      (λ e. stop-IsFrozen _ _ l h)
      (λ e. then_observed s l _ (
        IsFrozen-trans (closing-IsFrozen l h (not-false (l.closes == 0) e))
          (closed-IsFrozen call _ h)))

record_result-IsFrozen :
    (step : Step) (status expected : ℕ) (valid : Bool) (s : Sample) (l : Ledger)
    → l.stopped ≡ true
    → IsFrozen l (record_result step status expected valid s l).1
unfolding record_result
record_result-IsFrozen step status expected valid s l h = then_observed s l _ (
    stop_unless-IsFrozen (not (status == expected) || not valid) _ _ l _
      (same-IsFrozen l _ h refl refl refl (refl, refl, refl, refl, refl, refl) refl))

use-IsFrozen : (u : Use) (l : Ledger) → l.stopped ≡ true → IsFrozen l (use_ledger u l)
unfolding use_ledger
use-IsFrozen (invokes step call s) l h = invoke-IsFrozen step call s l h
use-IsFrozen (records step status expected valid s) l h =
    record_result-IsFrozen step status expected valid s l h
use-IsFrozen (releases call s) l h = release-IsFrozen call s l h
use-IsFrozen (observes s) l h = observe-IsFrozen s l h

-- Once a probe has stopped, no use of the ledger counts a business call any more or changes the first
-- failure and its status, and the probe stays stopped; the count of closes of the owner stays too, or goes
-- from 0 to 1.
pub use_all-IsFrozen : (us : List Use) (l : Ledger) → l.stopped ≡ true → IsFrozen l (use_all us l)
unfolding use_all
use_all-IsFrozen [] l h =
    same-IsFrozen l l h refl refl refl (refl, refl, refl, refl, refl, refl) refl
use_all-IsFrozen (u ∷ us) l h =
    let first = use-IsFrozen u l h in
    IsFrozen-trans first (use_all-IsFrozen us (use_ledger u l) first.still_stopped)
