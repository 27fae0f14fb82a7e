-- ===== src/Interface/Tests.antt =====
-- A bridge that is acquired, closed and asked for again, on an operating system where every call
-- succeeds.
use shiroha_quiz.Base.{
  ℕ, ◌+◌, ◌*◌, ◌%◌, ◌≤◌, ◌≡◌, refl, Bool, true, false, [], ◌∷◌, ◌==◌, if◌then◌else◌, Option, none,
  some, get_or, Bytes, length, codes,
}
use shiroha_quiz.Status.{ok, invalid_input}
use shiroha_quiz.Memory.{Memory}
use shiroha_quiz.Objects.{
  ObjectInfo, file_all_access, object_valid, safe_component, only_ace_valid, ace_valid,
}
use shiroha_quiz.Machine.{
  Lease, new_lease, Handle, null, os, child, inspect, Environment, Answer, returned, ◌>>=◌, pure,
  raise, require, get_lease, get_locals, change_lease, change_locals, settle, attempt, ask, observe,
  current_sid, open_at, close_if,
}
use shiroha_quiz.Leases.{
  inspect_each, inspect_pins, inspect_last, add, finish, close_reads, close_receipts, close_pin,
  close_pins, release_places, release_pins, release,
}
use shiroha_quiz.Leases.Accounts.{opened, closed}
use shiroha_quiz.Owners.{
  World, find, find_from, free_slot, free_from, last_handle, acquire_root, acquire_bridge,
  acquire_stores, acquire_pins, acquire_lease, settle_acquired, start_acquire, acquire,
  settle_release, close_found, close, validate, destroy,
}
use shiroha_quiz.Owners.Balance.{StandsAt}
use shiroha_quiz.Interface.{initial, acquire_owner, serve, run}
use shiroha_quiz.Interface.Sound.{closed-run_le, run-tokens, close-validate}

abbrev some_memory : Memory
some_memory a = 0

abbrev an_owner : Bytes
an_owner = 1 ∷ []

-- A valid object.
abbrev an_object : Bool → ObjectInfo
an_object directory = record {
  volume = 9;
  file = 8;
  attributes = if directory then 16 else 0;
  drive_type = 3;
  links = 1;
  filesystem = codes "NTFS";
  owner = an_owner;
  dacl_present = true;
  dacl_protected = true;
  aces =
      record {
        type = 0;
        flags = if directory then 3 else 0;
        mask = file_all_access;
        sid = an_owner;
      }
      ∷ [];
}

-- A handle tells the number of calls before it, and whether it is a directory's.
abbrev an_answer : Handle → Bool → Answer
an_answer h directory = record {
  outcome = returned ok;
  handle = h;
  info = an_object directory;
  bytes = an_owner;
  number = 0;
  runtime = [];
  random = [];
  done = true;
}

abbrev benign : Environment
benign h (child p name true create sid) = an_answer (os (2 * length h + 1)) true
benign h (child p name false create sid) = an_answer (os (2 * length h)) false
benign h (inspect (os n)) = an_answer null (n % 2 == 1)
benign h call = an_answer (os (2 * length h + 1)) true

abbrev acquired : World
acquired = run benign true (acquire_owner 3 2 64 ∷ []) (initial some_memory)

close-ok_run : (close benign 3 1 acquired).0 ≡ ok
unfolding run serve acquire start_acquire free_slot free_from settle_acquired acquire_lease
    acquire_pins acquire_root acquire_bridge acquire_stores last_handle add inspect_last
    inspect_pins inspect_each object_valid only_ace_valid ace_valid safe_component close close_found
    find find_from settle_release release release_places release_pins close_reads close_receipts
    close_pins close_pin finish ◌>>=◌ pure raise require get_lease get_locals change_lease
    change_locals settle attempt ask observe current_sid open_at close_if
close-ok_run = refl

close-validate_example :
    validate benign 3 1 (
      run benign true
        (acquire_owner 3 2 64 ∷ acquire_owner 3 1 72 ∷ [])
        (close benign 3 1 acquired).1)
    ≡ (
      invalid_input,
      run benign true
          (acquire_owner 3 2 64 ∷ acquire_owner 3 1 72 ∷ [])
          (close benign 3 1 acquired).1,
    )
close-validate_example =
    close-validate benign true (acquire_owner 3 2 64 ∷ [])
      (acquire_owner 3 2 64 ∷ acquire_owner 3 1 72 ∷ []) some_memory 3 1 close-ok_run

closed-run_le_example :
    closed 1 (destroy benign acquired).history ≤ opened 1 (destroy benign acquired).history
closed-run_le_example = closed-run_le benign true (acquire_owner 3 2 64 ∷ []) some_memory 1

-- The lease in a slot.
abbrev lease_of : Option Lease → Lease
lease_of none = new_lease 0 0
lease_of (some l) = l

abbrev first_lease : Lease
first_lease = lease_of (get_or acquired.owners 0 none)

abbrev is_some : Option Lease → Bool
is_some none = false
is_some (some l) = true

some_lease : (o : Option Lease) → is_some o ≡ true → o ≡ some (lease_of o)
some_lease none e = absurd (cc e)
some_lease (some l) e = refl

first_lease-is_some : is_some (get_or acquired.owners 0 none) ≡ true
unfolding run serve acquire start_acquire free_slot free_from settle_acquired acquire_lease
    acquire_pins acquire_root acquire_bridge acquire_stores last_handle add inspect_last
    inspect_pins inspect_each object_valid only_ace_valid ace_valid safe_component close close_found
    find find_from settle_release release release_places release_pins close_reads close_receipts
    close_pins close_pin finish ◌>>=◌ pure raise require get_lease get_locals change_lease
    change_locals settle attempt ask observe current_sid open_at close_if
first_lease-is_some = refl

first_lease-StandsAt : StandsAt acquired 0 first_lease
first_lease-StandsAt = some_lease (get_or acquired.owners 0 none) first_lease-is_some

run-tokens_example : ◌≡◌ {A = ℕ} 0 0
run-tokens_example =
    run-tokens benign true (acquire_owner 3 2 64 ∷ []) some_memory 0 0 first_lease first_lease
      first_lease-StandsAt first_lease-StandsAt refl
