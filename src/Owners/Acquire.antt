-- ===== src/Owners/Acquire.antt =====
-- Invariants over an acquisition, and the handles that it holds.
use shiroha_quiz.Base.{ℕ, ◌+◌, ◌≤◌, refl, Bool, true, false, arith, if◌then◌else◌}
use shiroha_quiz.Status.{is_ok}
use shiroha_quiz.Objects.{Sid}
use shiroha_quiz.Machine.{
  Handle, Environment, Context, Result, done, raised, ◌>>=◌, pure, continue, attempt, status_of,
}
use shiroha_quiz.Machine.Keeps.{
  Keeps, ◌▹◌, Keeps-require, Keeps-pure, Keeps-settle, Keeps-get_lease, Keeps-if,
}
use shiroha_quiz.Leases.{release}
use shiroha_quiz.Leases.Accounts.{closed, opened, locals_weight}
use shiroha_quiz.Leases.Steps.{Keeps-current_sid, Keeps-inspect_pins}
use shiroha_quiz.Leases.Release.{total_weight, release-covered}
use shiroha_quiz.Leases.Growth.{
  IsGrowing, IsPinned, Keeps-add, Keeps-inspect_last, Pinned-IsGrowing,
}
use shiroha_quiz.Leases.Marked.{IsMarked, Marked-IsGrowing, Keeps-release}
use shiroha_quiz.Owners.{
  last_handle, acquire_root, acquire_bridge, acquire_stores, acquire_pins, acquire_lease,
}

module _ {P : Context → Type 0} (env : Environment) (growing : IsGrowing env P) where
  open growing use {stable, new_pin}

  Keeps-last_handle : Keeps P (last_handle env)
  unfolding last_handle
  Keeps-last_handle = Keeps-get_lease ▹ λ l. Keeps-pure _

  Keeps-acquire_root : (sid : Sid) → Keeps P (acquire_root env sid)
  unfolding acquire_root
  Keeps-acquire_root sid = new_pin _ _ _ refl refl ▹ λ o. Keeps-settle _ ▹ λ u.
      Keeps-last_handle ▹ λ h.
      Keeps-require _ _ ▹ λ u. Keeps-inspect_last env growing ▹ λ info. Keeps-require _ _

  Keeps-acquire_bridge :
      (initialize : Bool) (role : ℕ) (external : Handle) (sid : Sid)
      → Keeps P (acquire_bridge env initialize role external sid)
  unfolding acquire_bridge
  Keeps-acquire_bridge initialize role external sid =
      Keeps-if _ _ _ (Keeps-add env growing _ _ _ _ _ _ _) (Keeps-pure _)

  Keeps-acquire_stores :
      (initialize : Bool) (role : ℕ) (external : Handle) (sid : Sid)
      → Keeps P (acquire_stores env initialize role external sid)
  unfolding acquire_stores
  Keeps-acquire_stores initialize role external sid =
      Keeps-if _ _ _
        (Keeps-add env growing _ _ _ _ _ _ _ ▹ λ u. Keeps-last_handle ▹ λ store.
          Keeps-add env growing _ _ _ _ _ _ _ ▹ λ u. Keeps-add env growing _ _ _ _ _ _ _ ▹ λ u.
          Keeps-add env growing _ _ _ _ _ _ _ ▹ λ u. Keeps-add env growing _ _ _ _ _ _ _)
        (Keeps-pure _)

  pub Keeps-acquire_pins :
      (initialize : Bool) (role : ℕ) → Keeps P (acquire_pins env initialize role)
  unfolding acquire_pins
  Keeps-acquire_pins initialize role = Keeps-current_sid env stable ▹ λ sid.
      Keeps-require _ _ ▹ λ u. Keeps-acquire_root sid ▹ λ u. Keeps-last_handle ▹ λ root.
      Keeps-add env growing _ _ _ _ _ _ _ ▹ λ u. Keeps-last_handle ▹ λ shiroha.
      Keeps-add env growing _ _ _ _ _ _ _ ▹ λ u. Keeps-last_handle ▹ λ external.
      Keeps-acquire_bridge initialize role external sid ▹ λ u. Keeps-last_handle ▹ λ parent.
      Keeps-add env growing _ _ _ _ _ _ _ ▹ λ u.
      Keeps-acquire_stores initialize role external sid ▹ λ u. Keeps-inspect_pins env stable sid

-- What the lease and the variables hold behind an operation, and `k` handles elsewhere, are covered.
pub record IsHeld (n k : ℕ) (c : Context) : Type 0 where
  pub covered :
      closed n c.history + (total_weight n c.lease + locals_weight n c.locals) + k
      ≤ opened n c.history

pub pinned-IsHeld : (n k : ℕ) (c : Context) → IsPinned n k c → IsHeld n k c
pinned-IsHeld n k c h = record { covered = ground (arith, h.covered) }

release_unless : (env : Environment) → Bool → Context → Result Bool × Context
release_unless env success = if success then pure false else release env

release_unless-IsHeld :
    (env : Environment) (n k : ℕ) (success : Bool) (c : Context)
    → IsPinned n k c
    → IsHeld n k (release_unless env success c).1
unfolding release_unless pure
release_unless-IsHeld env n k true c h = pinned-IsHeld n k c h
release_unless-IsHeld env n k false c h = record {
  covered = release-covered env n k c (omega (arith, h.covered));
}

settle_status-IsHeld :
    {A : Type 0} (n k : ℕ) (r : Result Bool) (c : Context) (f : Bool → A)
    → IsHeld n k c
    → IsHeld n k (continue r (λ closed. pure (f closed)) c).1
unfolding pure
settle_status-IsHeld n k (done a) c f h = h
settle_status-IsHeld n k (raised r) c f h = h

-- Whether it succeeds or is released again, an acquisition keeps the handles covered.
pub acquire_lease-IsHeld :
    (env : Environment) (n k : ℕ) (initialize : Bool) (role : ℕ) (c : Context)
    → IsPinned n k c
    → IsHeld n k (acquire_lease env initialize role c).1
unfolding acquire_lease ◌>>=◌ attempt release_unless
acquire_lease-IsHeld env n k initialize role c h =
    let (result, c') = acquire_pins env initialize role c in
    let success = is_ok (status_of result) in
    let after = (Keeps-acquire_pins env (Pinned-IsGrowing env n k) initialize role).at c h in
    settle_status-IsHeld n k (release_unless env success c').0 (release_unless env success c').1 _
      (release_unless-IsHeld env n k success c' after)

module _ (env : Environment) (token role next : ℕ) where
  release_unless-IsMarked :
      (success : Bool) (c : Context)
      → IsMarked token role next c
      → IsMarked token role next (release_unless env success c).1
  unfolding release_unless pure
  release_unless-IsMarked true c h = h
  release_unless-IsMarked false c h = (Keeps-release env token role next).at c h

  settle_status-IsMarked :
      {A : Type 0} (r : Result Bool) (c : Context) (f : Bool → A)
      → IsMarked token role next c
      → IsMarked token role next (continue r (λ closed. pure (f closed)) c).1
  unfolding pure
  settle_status-IsMarked (done a) c f h = h
  settle_status-IsMarked (raised r) c f h = h

  pub acquire_lease-IsMarked :
      (initialize : Bool) (kind : ℕ) (c : Context)
      → IsMarked token role next c
      → IsMarked token role next (acquire_lease env initialize kind c).1
  unfolding acquire_lease ◌>>=◌ attempt release_unless
  acquire_lease-IsMarked initialize kind c h =
      let (result, c') = acquire_pins env initialize kind c in
      let success = is_ok (status_of result) in
      let after =
        (Keeps-acquire_pins env (Marked-IsGrowing env token role next) initialize kind).at c h in
      settle_status-IsMarked (release_unless env success c').0 (release_unless env success c').1 _
        (release_unless-IsMarked success c' after)
