-- ===== src/Owners.antt =====
-- The table of owners: `acquire`, `validate`, `close` and the destructor of ProtectedObjects
-- (windows/external_native/protected_objects.cpp), and `find` (association_files.cpp). The mutex makes
-- each call one step, so concurrent callers are an order of calls.
pub mod Numbers
pub mod Acquire
pub mod Balance
pub mod Tokens
use shiroha_quiz.Base.{
  ℕ, zero, suc, ◌+◌, ◌-◌, ◌%◌, Bool, true, false, not, ◌&&◌, ◌||◌, Option, none, some, List, [],
  ◌∷◌, ltb, ◌==◌, if◌then◌else◌, is_empty, set, codes, Bytes,
}
use shiroha_quiz.Status.{
  Status, ok, invalid_input, abi_mismatch, resource_limit, unavailable, is_ok, abi_version, app,
  bridge, int64_max, uintptr_max,
}
use shiroha_quiz.Memory.{Memory, store}
use shiroha_quiz.Objects.{Sid, object_valid}
use shiroha_quiz.Machine.{
  Handle, usable, local_directory, Environment, History, Lease, new_lease, Context, no_locals,
  Locals, Result, done, raised, Action, pure, fail, ◌>>=◌, ◌>>◌, require, get_lease, change_lease,
  settle, attempt, status_of, raised_status, current_sid, open_at,
}
use shiroha_quiz.Leases.{inspect_pins, add, inspect_last, release, last_pin, new_pin_place}

-- `owners_`, `next_token_` and `next_ticket_` of ProtectedObjects, with the memory of the process and
-- the calls made so far.
pub record World : Type 0 where
  pub owners : List (Option Lease)
  pub next_token : ℕ
  pub next_ticket : ℕ
  pub history : History
  pub memory : Memory

abbrev pub enter : World → Lease → Context
enter w l = record {
  lease = l;
  history = w.history;
  memory = w.memory;
  next_ticket = w.next_ticket;
  locals = no_locals;
}

-- The world behind an operation, with the slot of the lease as given.
abbrev pub leave : World → ℕ → Option Lease → Context → World
leave w slot l c = record w {
  owners = set w.owners slot l;
  next_ticket = c.next_ticket;
  history = c.history;
  memory = c.memory;
}

-- The index and the lease of a token.
unfoldable pub find_from : ℕ → ℕ → List (Option Lease) → Option (ℕ × Lease)
find_from slot token [] = none
find_from slot token (none ∷ owners) = find_from (slot + 1) token owners
find_from slot token (some l ∷ owners) =
    let rest = find_from (slot + 1) token owners in
    if l.token == token then some (slot, l) else rest

unfoldable pub find : ℕ → List (Option Lease) → Option (ℕ × Lease)
unfolding find_from
find token owners = find_from 0 token owners

-- The first slot that is free.
unfoldable pub free_from : ℕ → List (Option Lease) → Option ℕ
free_from slot [] = none
free_from slot (none ∷ owners) = some slot
free_from slot (some l ∷ owners) = free_from (slot + 1) owners

unfoldable pub free_slot : List (Option Lease) → Option ℕ
unfolding free_from
free_slot owners = free_from 0 owners

-- The status of an operation whose last catch clause returns.
abbrev pub returned_status : Result Status → Status
returned_status (done s) = s
returned_status (raised r) = raised_status r

-- An operation on the lease in a slot, which stays there.
abbrev pub run_in : Action Status → ℕ → Lease → World → Status × World
run_in m slot l w = let (r, c) = m (enter w l) in (returned_status r, leave w slot (some c.lease) c)

-- The same with the local variables that it leaves, which hold its diagnostic output.
abbrev pub run_with : Action Status → ℕ → Lease → World → Status × Locals × World
run_with m slot l w =
    let (r, c) = m (enter w l) in (returned_status r, c.locals, leave w slot (some c.lease) c)

-- The versions of the owner calls are 2 and 3.
abbrev pub owner_version : ℕ → Bool
owner_version version = version == 2 || version == abi_version

module _ (env : Environment) where
  -- The handle of the pin that was added last.
  unfoldable pub last_handle : Action Handle
  last_handle = do lease ← get_lease; pure (last_pin lease.pins).handle

  -- The local application data directory, as it is.
  unfoldable pub acquire_root : Sid → Action (Unit {0})
  acquire_root sid = do
    outcome ← open_at env (new_pin_place false false) local_directory
    settle outcome
    handle ← last_handle
    require (usable handle) unavailable
    info ← inspect_last env
    require (object_valid info sid true false false) unavailable

  unfoldable pub acquire_bridge : Bool → ℕ → Handle → Sid → Action (Unit {0})
  acquire_bridge initialize role external sid =
      if role == bridge
      then add env initialize external (codes "bridge") true sid true true
      else pure tt

  -- Only a successful lock precedes any store directory.
  unfoldable pub acquire_stores : Bool → ℕ → Handle → Sid → Action (Unit {0})
  acquire_stores initialize role external sid =
      if role == app
      then (do
        add env initialize external (codes "app") true sid true true
        store ← last_handle
        add env initialize store (codes "trust") true sid true true
        add env initialize store (codes "state") true sid true true
        add env initialize external (codes "discovery") true sid true true
        add env initialize external (codes "exchange") true sid true true)
      else pure tt

  abbrev pub lock_name : ℕ → Bytes
  lock_name role = if role == app then codes "runtime.lock" else codes "client.lock"

  -- The try block of `acquire`.
  unfoldable pub acquire_pins : Bool → ℕ → Action (Unit {0})
  acquire_pins initialize role = do
    sid ← current_sid env
    require (not (is_empty sid)) unavailable
    acquire_root sid
    root ← last_handle
    add env initialize root (codes "Shiroha") true sid false (role == app)
    shiroha ← last_handle
    add env initialize shiroha (codes "external") true sid true (role == app)
    external ← last_handle
    acquire_bridge initialize role external sid
    parent ← last_handle
    add env initialize parent (lock_name role) false sid true true
    acquire_stores initialize role external sid
    inspect_pins env sid

  -- The status, and whether `release` closed every handle of a failed acquisition.
  unfoldable pub acquire_lease : Bool → ℕ → Action (Status × Bool)
  acquire_lease initialize role = do
    result ← attempt (acquire_pins initialize role)
    closed ← (if is_ok (status_of result) then pure false else release env)
    pure (status_of result, closed)

  -- The slot behind an acquisition, and the token at the caller's address.
  unfoldable pub settle_acquired :
      ℕ → ℕ → Lease → Result (Status × Bool) × Context → World → Status × World
  settle_acquired address slot l (raised r, c) w = (raised_status r, leave w slot (some c.lease) c)
  settle_acquired address slot l (done (s, closed), c) w =
      if is_ok s
      then (
        s,
        record (leave w slot (some c.lease) c) { memory = store address c.lease.token c.memory },
      )
      else (s, leave w slot (if closed then none else some c.lease) c)

  unfoldable pub start_acquire : Bool → ℕ → ℕ → Option ℕ → World → Status × World
  start_acquire initialize role address none w = (resource_limit, w)
  start_acquire initialize role address (some slot) w =
      if ltb int64_max w.next_token
      then (resource_limit, w)
      else (let l = new_lease w.next_token role in
          let w' : World = record w { next_token = w.next_token + 1 } in
          settle_acquired address slot l (acquire_lease initialize role (enter w' l)) w')

  -- `token` is the address of the caller's uint64_t.
  unfoldable pub acquire : Bool → ℕ → ℕ → ℕ → World → Status × World
  acquire initialize version role token w =
      if token == 0 || (not (token % 8 == 0) || ltb (uintptr_max - 8) token)
      then (invalid_input, w)
      else (let cleared : World = record w { memory = store token 0 w.memory } in
          if not (owner_version version)
          then (abi_mismatch, cleared)
          else if not (role == app) && not (role == bridge)
          then (invalid_input, cleared)
          else start_acquire initialize role token (free_slot w.owners) cleared)

  -- Denial is permanent: a denied lease is not looked at again.
  pub validate_lease : Action Status
  validate_lease = do
    lease ← get_lease
    require (not lease.denied) unavailable
    change_lease (λ l. record l { denied = true })
    sid ← current_sid env
    inspect_pins env sid
    change_lease (λ l. record l { denied = false })
    pure ok

  pub validate_found : Option (ℕ × Lease) → World → Status × World
  validate_found none w = (invalid_input, w)
  validate_found (some (slot, l)) w = run_in validate_lease slot l w

  pub validate : ℕ → ℕ → World → Status × World
  validate version token w =
      if not (owner_version version)
      then (abi_mismatch, w)
      else if token == 0
      then (invalid_input, w)
      else validate_found (find token w.owners) w

  -- Whether every handle was closed decides whether the slot is freed.
  unfoldable pub settle_release : ℕ → Result Bool × Context → World → Status × World
  settle_release slot (done true, c) w = (ok, leave w slot none c)
  settle_release slot (done false, c) w = (unavailable, leave w slot (some c.lease) c)
  settle_release slot (raised r, c) w = (unavailable, leave w slot (some c.lease) c)

  unfoldable pub close_found : Option (ℕ × Lease) → World → Status × World
  close_found none w = (invalid_input, w)
  close_found (some (slot, l)) w =
      if l.quarantined then (unavailable, w) else settle_release slot (release env (enter w l)) w

  unfoldable pub close : ℕ → ℕ → World → Status × World
  close version token w =
      if not (owner_version version)
      then (abi_mismatch, w)
      else if token == 0
      then (invalid_input, w)
      else close_found (find token w.owners) w

  -- The destructor, over the slots that are left; a quarantined lease is left alone.
  pub destroy_slot : ℕ → Option Lease → World → World
  destroy_slot slot none w = w
  destroy_slot slot (some l) w =
      if l.quarantined
      then w
      else (let (r, c) = release env (enter w l) in leave w slot (some c.lease) c)

  pub destroy_from : ℕ → List (Option Lease) → World → World
  destroy_from slot [] w = w
  destroy_from slot (l ∷ owners) w = destroy_from (slot + 1) owners (destroy_slot slot l w)

  pub destroy : World → World
  destroy w = destroy_from 0 w.owners w
