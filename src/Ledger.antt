-- ===== src/Ledger.antt =====
-- windows/external_native/diagnostics/probe_ledger.h: what a probe counts of its calls, and how it
-- stops. An int is its 32 bits; the output to the console is left out.
pub mod Stopped
use shiroha_quiz.Base.{
  ℕ, ◌+◌, ◌*◌, ◌^◌, ◌%◌, Bool, true, false, not, ◌&&◌, ◌||◌, Option, none, some, List, [], ◌∷◌, ltb,
  leb, ◌==◌, if◌then◌else◌,
}

-- The strings that name a step. The fourteen business steps are those of `steps`, in its order.
pub data Step : Type 0 where
  abi_step acquire protect begin1 begin2 commit1 begin3 abort1 protect2 begin4 : Step
  commit2 begin5 abort2 stale_commit bridge_begin : Step

-- The index in `steps`, 14 for the one step that is not in it.
abbrev pub index : Step → ℕ
index acquire = 0
index protect = 1
index begin1 = 2
index begin2 = 3
index commit1 = 4
index begin3 = 5
index abort1 = 6
index protect2 = 7
index begin4 = 8
index commit2 = 9
index begin5 = 10
index abort2 = 11
index stale_commit = 12
index bridge_begin = 13
index abi_step = 14

-- What `first_failure` names.
pub data Failure : Type 0 where
  no_failure resource_observation duplicate_owner_close owner_close : Failure
  at_step : Step → Failure

-- A mask of steps, as the set of its bits.
abbrev pub Mask : Type 0
Mask = ℕ → Bool

pub record Ledger : Type 0 where
  pub done : Mask
  pub returned_steps : Mask
  pub completed_steps : Mask
  pub returned : ℕ
  pub completed : ℕ
  pub successful : ℕ
  pub accepted : ℕ
  pub observation_attempts : ℕ
  pub observation_failures : ℕ
  pub abi : ℕ
  pub acquires : ℕ
  pub protects : ℕ
  pub begins : ℕ
  pub commits : ℕ
  pub aborts : ℕ
  pub closes : ℕ
  pub stopped : Bool
  pub first_failure : Failure
  pub first_status : ℕ
  pub peak_working_set : ℕ
  pub peak_commit : ℕ
  pub handles_first : ℕ
  pub handles_last : ℕ
  pub handles_max_sampled : ℕ
  pub samples : ℕ

-- `++` on an unsigned counter.
abbrev pub next : ℕ → ℕ
next n = (n + 1) % 2 ^ 32

-- `mask |= 1u << i` for a step of the list.
abbrev mark : Step → Mask → Mask
mark s mask j = ltb j 14 && j == index s || mask j

-- -1
abbrev pub minus_one : ℕ
minus_one = 0xffffffff

unfoldable pub stop : Failure → ℕ → Ledger → Ledger
stop f status l = record l {
  first_failure = if l.stopped then l.first_failure else f;
  first_status = if l.stopped then l.first_status else status;
  stopped = true;
}

abbrev larger : ℕ → ℕ → ℕ
larger a b = if ltb b a then a else b

unfoldable pub resources : ℕ → ℕ → ℕ → Ledger → Bool × Ledger
resources working commit handles l = (
  leb working (64 * 1024 * 1024) && (leb commit (64 * 1024 * 1024) && leb handles 128),
  record l {
    peak_working_set = larger working l.peak_working_set;
    peak_commit = larger commit l.peak_commit;
    handles_first = if l.samples == 0 then handles else l.handles_first;
    handles_last = handles;
    handles_max_sampled = larger handles l.handles_max_sampled;
    samples = next l.samples;
  },
)

-- What the sampler of a probe does: there is none, it reads nothing, or it calls `resources`.
pub data Sample : Type 0 where
  unset unread : Sample
  reading : ℕ → ℕ → ℕ → Sample

unfoldable pub sampled : Sample → Ledger → Bool × Ledger
unfolding resources
sampled unset l = (true, l)
sampled unread l = (false, l)
sampled (reading working commit handles) l = resources working commit handles l

abbrev pub counted : Ledger → Ledger
counted l = record l { observation_attempts = next l.observation_attempts }

unfoldable pub judged : Bool → Ledger → Ledger
unfolding stop
judged true l = l
judged false l =
    stop resource_observation minus_one
      (record l { observation_failures = next l.observation_failures })

unfoldable pub observe : Sample → Ledger → Bool × Ledger
unfolding sampled judged
observe unset l = (not l.stopped, l)
observe s l =
    let (within, l') = sampled s (counted l) in let l'' = judged within l' in (not l''.stopped, l'')

unfoldable pub attempted : Step → Ledger → Ledger
attempted abi_step l = record l { abi = next l.abi }
attempted acquire l = record l { done = mark acquire l.done; acquires = next l.acquires }
attempted protect l = record l { done = mark protect l.done; protects = next l.protects }
attempted protect2 l = record l { done = mark protect2 l.done; protects = next l.protects }
attempted begin1 l = record l { done = mark begin1 l.done; begins = next l.begins }
attempted begin2 l = record l { done = mark begin2 l.done; begins = next l.begins }
attempted begin3 l = record l { done = mark begin3 l.done; begins = next l.begins }
attempted begin4 l = record l { done = mark begin4 l.done; begins = next l.begins }
attempted begin5 l = record l { done = mark begin5 l.done; begins = next l.begins }
attempted bridge_begin l = record l { done = mark bridge_begin l.done; begins = next l.begins }
attempted abort1 l = record l { done = mark abort1 l.done; aborts = next l.aborts }
attempted abort2 l = record l { done = mark abort2 l.done; aborts = next l.aborts }
attempted s l = record l { done = mark s l.done; commits = next l.commits }

-- A call returns a status, or throws.
unfoldable pub called : Step → Option ℕ → Sample → Ledger → Option ℕ × Ledger
unfolding stop observe
called step none s l = (none, (observe s (stop (at_step step) minus_one l)).1)
called step (some status) s l = (
  some status,
  record l { returned = next l.returned; returned_steps = mark step l.returned_steps },
)

-- The result is the status, none where the exception goes on. Behind a stop nothing is called.
unfoldable pub invoke : Step → Option ℕ → Sample → Ledger → Option ℕ × Ledger
unfolding attempted called
invoke step call s l =
    if l.stopped then (some minus_one, l) else called step call s (attempted step l)

abbrev is_abi : Step → Bool
is_abi step = index step == 14

-- `record`: the checks of a status and of the shape of the outputs.
unfoldable pub record_result : Step → ℕ → ℕ → Bool → Sample → Ledger → Bool × Ledger
unfolding stop observe
record_result step status expected valid s l =
    let checked : Ledger = record l {
      completed = next l.completed;
      completed_steps = mark step l.completed_steps;
      successful =
          if (if is_abi step then status == expected else status == 0)
          then next l.successful
          else l.successful;
      accepted = if status == expected && valid then next l.accepted else l.accepted;
    } in
    observe s (
      if not (status == expected) || not valid then stop (at_step step) status checked else checked)

unfoldable pub closed : Option ℕ → Ledger → Ledger
unfolding stop
closed none l = stop owner_close minus_one l
closed (some status) l =
    let settled : Ledger = record l {
      returned = next l.returned;
      completed = next l.completed;
      successful = if status == 0 then next l.successful else l.successful;
      accepted = if status == 0 then next l.accepted else l.accepted;
    } in
    if not (status == 0) then stop owner_close status settled else settled

-- The owner is closed once; a second close is a stop.
unfoldable pub release : Option ℕ → Sample → Ledger → Bool × Ledger
unfolding closed stop observe
release call s l =
    if not (l.closes == 0)
    then (false, stop duplicate_owner_close minus_one l)
    else observe s (closed call (record l { closes = next l.closes }))

-- A use of the ledger.
pub data Use : Type 0 where
  invokes : Step → Option ℕ → Sample → Use
  records : Step → ℕ → ℕ → Bool → Sample → Use
  releases : Option ℕ → Sample → Use
  observes : Sample → Use

unfoldable pub use_ledger : Use → Ledger → Ledger
unfolding invoke record_result release observe
use_ledger (invokes step call s) l = (invoke step call s l).1
use_ledger (records step status expected valid s) l =
    (record_result step status expected valid s l).1
use_ledger (releases call s) l = (release call s l).1
use_ledger (observes s) l = (observe s l).1

unfoldable pub use_all : List Use → Ledger → Ledger
unfolding use_ledger
use_all [] l = l
use_all (u ∷ us) l = use_all us (use_ledger u l)
