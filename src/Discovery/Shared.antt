-- ===== src/Discovery/Shared.antt =====
-- windows/external_native/discovery_files.cpp, what the operations of the discovery directory share.
use shiroha_quiz.Base.{ℕ, Bool, true, false, ◌==◌, if◌then◌else◌}
use shiroha_quiz.Status.{unavailable}
use shiroha_quiz.Objects.{ObjectInfo}
use shiroha_quiz.Machine.{
  bad_alloc, exception, Result, done, raised, Action, pure, raise, fail, Place,
}

abbrev pub cap : ℕ → ℕ
cap kind = if kind == 1 then 185 else if kind == 2 then 1024 else if kind == 3 then 36 else 0

abbrev pub scratch_place : Place
scratch_place = record {
  held = λ c. c.locals.scratch;
  put = λ h c. record c { locals = record (c.locals) { scratch = h } };
}

-- What the name held: a file, or none.
pub data Found : Type 0 where
  present : ObjectInfo → Found
  absent : Found

-- An exception leaves the block at once, a status does not.
abbrev pub rethrow {ℓ} : {A : Type ℓ} → Result A → Action (Result A)
rethrow (raised bad_alloc) = raise bad_alloc
rethrow (raised exception) = raise exception
rethrow r = pure r

-- `if (!close(…)) status = SHIROHA_NATIVE_UNAVAILABLE;` over the status so far.
abbrev pub settle_closed {ℓ} : {A : Type ℓ} → Bool → Result A → Action A
settle_closed false r = fail unavailable
settle_closed true (done a) = pure a
settle_closed true (raised r) = raise r
