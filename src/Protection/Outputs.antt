-- ===== src/Protection/Outputs.antt =====
-- What `transform` leaves in the memory of its caller.
use shiroha_quiz.Base
use shiroha_quiz.Base.{
  ℕ, ◌+◌, ◌≤◌, ◌<◌, ◌≡◌, refl, sym, ap, ◌∙◌, ◌^◌, Bool, true, false, not, ◌&&◌, ◌||◌, ◌==◌, Option,
  none, some, Bytes, replicate, arith, if-both, ltb, Holds, if◌then◌else◌,
}
use shiroha_quiz.Status.{Status, is_ok, abi_version}
use shiroha_quiz.Memory.{Memory, span, count, overlap, clear, store, read}
use shiroha_quiz.Memory.Spans.{outside_of}
use shiroha_quiz.Memory.Writes.{clear-Outside, store-Outside, copy-Outside}
use shiroha_quiz.Protection.{
  Blob, Outcome, prepare, refuse, refused, deliver, deliver_data, transform,
}

-- The counter of a call is a usable span.
count-span : (p : ℕ) → Holds (count p) → Holds (span p 8)
unfolding count
count-span p h = ground arith

module _ (input length output capacity written a : ℕ) (m : Memory) where
  module _ (hi : Holds (span input length)) (l : input ≤ a) (r : a < input + length) where
    abbrev Kept : Memory → Type 0
    Kept k = k a ≡ m a

    store-Kept :
        (k : Memory)
        → Holds (span written 8)
        → overlap input length written 8 ≡ false
        → k a ≡ m a
        → store written 0 k a ≡ m a
    store-Kept k hw h e =
        store-Outside written 0 a k (outside_of input length written 8 a hi hw h l r) ∙ e

    clear-Kept :
        (k : Memory)
        → Holds (span output capacity)
        → overlap input length output capacity ≡ false
        → k a ≡ m a
        → clear output capacity k a ≡ m a
    clear-Kept k ho h e =
        clear-Outside output capacity a k (outside_of input length output capacity a hi ho h l r)
        ∙ e

    pub refuse-Kept : refuse input length output capacity written m a ≡ m a
    unfolding refuse
    refuse-Kept =
        let first =
          if-both Kept
            (count written
              && (not (span input length && (count written && overlap input length written 8))
                  && not (
                      span output capacity
                      && (count written && overlap output capacity written 8))))
            (λ e.
              store-Kept m (count-span written (ground (arith, e))) (ground (arith, e, hi)) refl)
            (λ e. refl) in
        if-both Kept
          (span output capacity
            && (not (span output capacity && (count written && overlap output capacity written 8))
                && (not (span input length) || not (overlap input length output capacity))))
          (λ e. clear-Kept _ (ground (arith, e)) (ground (arith, e, hi)) first) (λ e. first)

    -- The spans of a call that is not refused are disjoint from the input.
    module _ (kept : refused input length output capacity written ≡ false) where
      apart_output : Holds (span output capacity) → overlap input length output capacity ≡ false
      apart_output h = ground (arith, kept, h, hi)

      apart_written : Holds (span written 8) → overlap input length written 8 ≡ false
      apart_written h = ground (arith, kept, h, hi)

      pub prepare-Kept : (version : ℕ) → Kept (prepare version output capacity written m).1
      unfolding prepare
      prepare-Kept version =
          let counted = λ (hw : Holds (span written 8)). store-Kept m hw (apart_written hw) refl in
          if-both (λ (x : Status × Memory). Kept x.1) (not (count written)) (λ e. refl)
            λ e.
              let hw = count-span written (ground (arith, e)) in
              if-both (λ (x : Status × Memory). Kept x.1)
                (span output capacity && overlap output capacity written 8) (λ d. refl)
                λ d.
                  if-both (λ (x : Status × Memory). Kept x.1) (not (span output capacity))
                    (λ c. counted hw)
                    λ c.
                      let ho : Holds (span output capacity) = ground (arith, c) in
                      if-both (λ (x : Status × Memory). Kept x.1)
                        (not (version == 1) && (not (version == 2) && not (version == abi_version)))
                        (λ b. clear-Kept _ ho (apart_output ho) (counted hw))
                        (λ b. clear-Kept _ ho (apart_output ho) (counted hw))

-- Where `prepare` returns `ok`, both outputs are usable spans.
pub ready_spans :
    (version output capacity written : ℕ) (m : Memory)
    → is_ok (prepare version output capacity written m).0 ≡ true
    → Holds (span output capacity) × Holds (span written 8)
unfolding prepare
ready_spans version output capacity written m =
    let Ready = λ (x : Status × Memory).
      is_ok x.0 ≡ true → Holds (span output capacity) × Holds (span written 8) in
    if-both Ready (not (count written)) (λ e r. absurd (cc r))
      λ e.
        if-both Ready (span output capacity && overlap output capacity written 8)
          (λ d r. absurd (cc r))
          λ d.
            if-both Ready (not (span output capacity)) (λ c r. absurd (cc r))
              λ c. λ r. (ground (arith, c), count-span written (ground (arith, e)))

module _ (input length output capacity written a : ℕ) (m k : Memory) where
  module _ (hi : Holds (span input length)) (l : input ≤ a) (r : a < input + length)
      (kept : refused input length output capacity written ≡ false)
      (ho : Holds (span output capacity)) (hw : Holds (span written 8)) (e : k a ≡ m a) where
    deliver_data-kept : (o : Option Bytes) → (deliver_data output capacity written o k).1 a ≡ m a
    unfolding deliver_data
    deliver_data-kept none = e
    deliver_data-kept (some bytes) =
        if-both (λ (x : Status × Memory). x.1 a ≡ m a) (Base.length bytes == 0) (λ d. e)
          λ d.
            if-both (λ (x : Status × Memory). x.1 a ≡ m a) (ltb capacity (Base.length bytes))
              (λ c. e)
              λ c.
                let far_output =
                  outside_of input length output capacity a hi ho
                    (apart_output input length output capacity written a m hi l r kept ho) l r in
                let far_written =
                  outside_of input length written 8 a hi hw
                    (apart_written input length output capacity written a m hi l r kept hw) l r in
                store-Outside written _ a _ far_written
                ∙ (copy-Outside output a bytes k (ground (arith, far_output, c)) ∙ e)

    deliver-kept :
        (decrypt : Bool) (blob : Blob) → (deliver decrypt output capacity written blob k).1 a ≡ m a
    unfolding deliver
    deliver-kept decrypt blob =
        if-both (λ (x : Status × Memory). x.1 a ≡ m a) (not blob.success) (λ d. e)
          (λ d. deliver_data-kept blob.pb_data)

-- Where the input is a usable span, of 1 to 65536 bytes, `transform` changes no byte of it, whatever it
-- returns, also where the spans overlap and where the operation fails: the memory is as before at each
-- address in the input.
pub transform-input :
    (operate : Bool → Bytes → Blob) (version input length output capacity written : ℕ)
    (decrypt : Bool) (m : Memory) (a : ℕ)
    → Holds (span input length)
    → input ≤ a
    → a < input + length
    → (transform operate version input length output capacity written decrypt m).memory a ≡ m a
unfolding transform
transform-input operate version input length output capacity written decrypt m a hi l r =
    let Keeps = λ (o : Outcome). o.memory a ≡ m a in
    let prepared = (prepare version output capacity written m).1 in
    if-both Keeps (refused input length output capacity written)
      (λ e. refuse-Kept input length output capacity written a m hi l r)
      λ e.
        let kept = prepare-Kept input length output capacity written a m hi l r e version in
        if-both Keeps (not (is_ok (prepare version output capacity written m).0)) (λ d. kept)
          λ d.
            let (ho, hw) = ready_spans version output capacity written m (ground (arith, d)) in
            deliver-kept input length output capacity written a m prepared hi l r e ho hw kept
              decrypt (operate decrypt (read input length prepared))
