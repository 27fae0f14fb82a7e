-- ===== src/Protection/Delivery.antt =====
-- What a successful `transform` delivers.
use shiroha_quiz.Base
use shiroha_quiz.Base.{
  ℕ, ◌+◌, ◌^◌, ◌≤◌, ◌<◌, ◌≡◌, refl, sym, ap, ◌∙◌, Bool, true, false, not, ◌&&◌, ◌||◌, ◌==◌, Option,
  none, some, Bytes, arith, if-both, ltb, Holds, if◌then◌else◌,
}
use shiroha_quiz.Status.{Status, is_ok}
use shiroha_quiz.Memory.{Memory, span, count, overlap, copy, store, read, load}
use shiroha_quiz.Memory.Spans.{outside_of, span_bounds}
use shiroha_quiz.Memory.Writes.{store-Outside, load-store, read_cong, read-copy}
use shiroha_quiz.Protection.{Blob, Outcome, prepare, refused, deliver, deliver_data, transform}
use shiroha_quiz.Protection.Outputs.{ready_spans, prepare-Kept}

-- The result of the operation stands in the output, and its length in the count.
pub record IsDelivered (blob : Blob) (output capacity written : ℕ) (m : Memory) : Type 0 where
  pub bytes : Bytes
  pub result : blob.pb_data ≡ some bytes
  pub succeeded : blob.success ≡ true
  pub fits : Base.length bytes ≤ capacity
  pub counted : load written m ≡ Base.length bytes
  pub copied : read output (Base.length bytes) m ≡ bytes

-- Where `prepare` returns `ok`, the outputs are apart.
ready_apart :
    (version output capacity written : ℕ) (m : Memory)
    → is_ok (prepare version output capacity written m).0 ≡ true
    → overlap output capacity written 8 ≡ false
unfolding prepare
ready_apart version output capacity written m =
    let Goal =
      λ (x : Status × Memory). is_ok x.0 ≡ true → overlap output capacity written 8 ≡ false in
    if-both Goal (not (count written)) (λ e r. absurd (cc r))
      λ e.
        if-both Goal (span output capacity && overlap output capacity written 8)
          (λ d r. absurd (cc r))
          λ d.
            if-both Goal (not (span output capacity)) (λ c r. absurd (cc r))
              λ c. λ r. ground (arith, c, d)

module _ (output capacity written : ℕ) (ho : Holds (span output capacity))
    (hw : Holds (span written 8)) (apart : overlap output capacity written 8 ≡ false)
    (k : Memory) where
  written-IsDelivered :
      (bytes : Bytes)
      → Base.length bytes ≤ capacity
      → IsDelivered
          (record { success = true; pb_data = some bytes })
          output
          capacity
          written
          (store written (Base.length bytes) (copy output bytes k))
  written-IsDelivered bytes h =
      let (positive, full, bound, room) = span_bounds output capacity ho in
      record {
        bytes = bytes;
        result = refl;
        succeeded = refl;
        fits = h;
        counted = load-store written (Base.length bytes) _ (omega (arith, bound, h));
        copied =
            read_cong (Base.length bytes) output _ _ (λ a l r.
              store-Outside written _ a _
                (outside_of output capacity written 8 a ho hw apart l (omega (arith, r, h))))
            ∙ read-copy output bytes k;
      }

  data-IsDelivered :
      (o : Option Bytes)
      → let (s, m) = deliver_data output capacity written o k in
        is_ok s ≡ true
        → IsDelivered (record { success = true; pb_data = o }) output capacity written m
  unfolding deliver_data
  data-IsDelivered none = λ e. absurd (cc e)
  data-IsDelivered (some bytes) =
      let Goal = λ (x : Status × Memory).
        is_ok x.0 ≡ true
        → IsDelivered (record { success = true; pb_data = some bytes }) output capacity written
            x.1 in
      if-both Goal (Base.length bytes == 0) (λ d e. absurd (cc e))
        λ d.
          if-both Goal (ltb capacity (Base.length bytes)) (λ c e. absurd (cc e))
            λ c. λ e. written-IsDelivered bytes (ground (arith, c))

  deliver-IsDelivered :
      (decrypt b : Bool) (o : Option Bytes)
      → let (s, m) =
          deliver decrypt output capacity written (record { success = b; pb_data = o }) k in
        is_ok s ≡ true → IsDelivered (record { success = b; pb_data = o }) output capacity written m
  unfolding deliver
  deliver-IsDelivered true true o = data-IsDelivered o
  deliver-IsDelivered false true o = data-IsDelivered o
  deliver-IsDelivered true false o = λ e. absurd (cc e)
  deliver-IsDelivered false false o = λ e. absurd (cc e)

-- Where `transform` returns `ok`, the output holds the whole result of the operation on the bytes that
-- the input held when the call began, and the count its length, which is at most the capacity.
pub transform-delivers :
    (operate : Bool → Bytes → Blob) (version input length output capacity written : ℕ)
    (decrypt : Bool) (m : Memory)
    → let o = transform operate version input length output capacity written decrypt m in
      is_ok o.status ≡ true
      → IsDelivered (operate decrypt (read input length m)) output capacity written o.memory
unfolding transform
transform-delivers operate version input length output capacity written decrypt m =
    let (ready, prepared) = prepare version output capacity written m in
    let Goal = λ (o : Outcome).
      is_ok o.status ≡ true
      → IsDelivered (operate decrypt (read input length m)) output capacity written o.memory in
    if-both Goal (refused input length output capacity written) (λ e f. absurd (cc f))
      λ e.
        if-both Goal (not (is_ok ready)) (λ d f. absurd (ground (arith, d, f)))
          λ d.
            let r : is_ok ready ≡ true = ground (arith, d) in
            let (ho, hw) = ready_spans version output capacity written m r in
            let same : read input length prepared ≡ read input length m =
              read_cong length input prepared m (λ a l r.
                prepare-Kept input length output capacity written a m (ground (arith, e)) l r e
                  version) in
            rw same (
              deliver-IsDelivered output capacity written ho hw
                (ready_apart version output capacity written m r) prepared decrypt _ _)
