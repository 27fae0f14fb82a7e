-- ===== src/Signatures.antt =====
-- windows/external_native/native_crypto.h and native_crypto.cpp: key generation, signing and verifying.
-- The operations of `CryptoOperations` are parameters, with what they write.
pub mod Outputs
use shiroha_quiz.Base.{
  ℕ, Bool, true, false, not, ◌&&◌, ◌||◌, ltb, leb, ◌==◌, if◌then◌else◌, Bytes, length,
}
use shiroha_quiz.Status.{
  Status, ok, is_ok, invalid_input, abi_mismatch, resource_limit, unavailable, data_corrupt,
  missing, commit_unknown, verification_rejected, other, abi_version,
}
use shiroha_quiz.Memory.{Memory, span, count, overlap, clear, copy, store, read}

abbrev pub max_pkcs8 : ℕ
max_pkcs8 = 256

abbrev pub point_bytes : ℕ
point_bytes = 65

abbrev pub digest_bytes : ℕ
digest_bytes = 32

abbrev pub raw_bytes : ℕ
raw_bytes = 64

-- What `generate` does: its status, the length that it reports, and what it writes to its two buffers.
pub record Generated : Type 0 where
  pub status : Status
  pub length : ℕ
  pub pkcs8 : Bytes
  pub point : Bytes

-- What `sign` does.
pub record Signed : Type 0 where
  pub status : Status
  pub raw : Bytes

-- Two usable spans overlap.
unfoldable pub aliases : ℕ → ℕ → ℕ → ℕ → Bool
aliases a n b m = span a n && (span b m && overlap a n b m)

module _ (key capacity key_written point point_capacity point_written : ℕ) where
  abbrev pub key_valid : Bool
  key_valid = span key capacity && leb capacity max_pkcs8

  abbrev pub point_valid : Bool
  point_valid = span point point_capacity && point_capacity == point_bytes

  abbrev pub key_count_alias : Bool
  key_count_alias =
      count key_written
      && (span key capacity && overlap key_written 8 key capacity
          || (span point point_capacity && overlap key_written 8 point point_capacity
              || count point_written && overlap key_written 8 point_written 8))

  abbrev pub point_count_alias : Bool
  point_count_alias =
      count point_written
      && (span key capacity && overlap point_written 8 key capacity
          || (span point point_capacity && overlap point_written 8 point point_capacity
              || count key_written && overlap point_written 8 key_written 8))

  abbrev pub outputs_alias : Bool
  outputs_alias = key_valid && (point_valid && overlap key capacity point point_capacity)

  -- The outputs that can be cleared before any check returns.
  unfoldable pub reset_outputs : Memory → Memory
  reset_outputs m =
      let m1 = if count key_written && not key_count_alias then store key_written 0 m else m in
      let m2 =
        if count point_written && not point_count_alias then store point_written 0 m1 else m1 in
      let disjoint = not outputs_alias && (not key_count_alias && not point_count_alias) in
      let m3 = if key_valid && disjoint then clear key capacity m2 else m2 in
      if point_valid && disjoint then clear point point_capacity m3 else m3

  abbrev pub generate_refused : Bool
  generate_refused =
      not key_valid
      || (not point_valid
          || (not (count key_written)
              || (not (count point_written)
                  || (key_count_alias || (point_count_alias || outputs_alias)))))

  -- Behind `generate`: no failure leaves a part of the private key.
  unfoldable pub keep_key : Generated → Memory → Status × Memory
  keep_key g m =
      let made = copy point g.point (copy key g.pkcs8 m) in
      if not (is_ok g.status) || (g.length == 0 || ltb capacity g.length)
      then (
        if is_ok g.status then data_corrupt else g.status,
        clear point point_capacity (clear key capacity made),
      )
      else (ok, store point_written point_bytes (store key_written g.length made))

  unfoldable pub generate_key : Generated → ℕ → Memory → Status × Memory
  unfolding reset_outputs keep_key
  generate_key g version m =
      let reset = reset_outputs m in
      if generate_refused
      then (invalid_input, reset)
      else if not (version == abi_version)
      then (abi_mismatch, reset)
      else keep_key g (clear point point_capacity (clear key capacity reset))

module _ (key key_length point point_length digest digest_length out capacity written : ℕ) where
  abbrev pub count_alias : Bool
  count_alias =
      count written
      && (aliases written 8 key key_length
          || (aliases written 8 point point_length
              || (aliases written 8 digest digest_length || aliases written 8 out capacity)))

  abbrev pub output_alias : Bool
  output_alias =
      aliases out capacity key key_length
      || (aliases out capacity point point_length
          || (aliases out capacity digest digest_length || count_alias))

  abbrev pub output_valid : Bool
  output_valid = span out capacity && capacity == raw_bytes

  unfoldable pub reset_signature : Memory → Memory
  reset_signature m =
      let counted = if count written && not count_alias then store written 0 m else m in
      if output_valid && not output_alias then clear out capacity counted else counted

  abbrev pub sign_refused : Bool
  sign_refused =
      not (span key key_length && leb key_length max_pkcs8)
      || (not (span point point_length && point_length == point_bytes)
          || (not (span digest digest_length && digest_length == digest_bytes)
              || (not output_valid
                  || (not (count written)
                      || (count_alias
                          || (output_alias
                              || (aliases key key_length point point_length
                                  || (aliases key key_length digest digest_length
                                      || aliases point point_length digest digest_length))))))))

  unfoldable pub keep_signature : Signed → Memory → Status × Memory
  keep_signature s m =
      let made = copy out s.raw m in
      if not (is_ok s.status)
      then (s.status, clear out capacity made)
      else (ok, store written raw_bytes made)

  -- `operate` is `ops.sign` of the private key, the point and the digest.
  unfoldable pub sign_digest : (Bytes → Bytes → Bytes → Signed) → ℕ → Memory → Status × Memory
  unfolding reset_signature keep_signature
  sign_digest operate version m =
      let reset = reset_signature m in
      if sign_refused
      then (invalid_input, reset)
      else if not (version == abi_version)
      then (abi_mismatch, reset)
      else keep_signature
          (operate (read key key_length reset) (read point point_bytes reset)
            (read digest digest_bytes reset))
          reset

-- A status that `verify` may return is passed on, any other is corrupt data.
abbrev pub verified : Status → Status
verified ok = ok
verified verification_rejected = verification_rejected
verified data_corrupt = data_corrupt
verified unavailable = unavailable
verified s = data_corrupt

module _ (point point_length digest digest_length raw raw_length : ℕ) where
  unfoldable pub verify_digest : (Bytes → Bytes → Bytes → Status) → ℕ → Memory → Status
  verify_digest operate version m =
      if not (version == abi_version)
      then abi_mismatch
      else if not (span point point_length)
          || (not (point_length == point_bytes)
              || (not (span digest digest_length)
                  || (not (digest_length == digest_bytes)
                      || (not (span raw raw_length) || not (raw_length == raw_bytes)))))
      then invalid_input
      else if overlap point point_length digest digest_length
          || (overlap point point_length raw raw_length
              || overlap digest digest_length raw raw_length)
      then invalid_input
      else verified
          (operate (read point point_length m) (read digest digest_bytes m) (read raw raw_bytes m))
