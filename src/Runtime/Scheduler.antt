-- ===== src/Runtime/Scheduler.antt =====
-- src/thorn/runtime/_scheduler.py: the prompt rounds of one session, the guard of its forward
-- progress, and the map of drivers that submit and shutdown act on. The dispatcher, the saver
-- and the evictor are callbacks that the driver is given; cancellation is not modelled.
pub mod Progress
pub mod Rounds
pub mod Runs
pub mod Submit
use thorn.Prelude.Dict.{Dict, get, put}
use thorn.Prelude.{
  ==_iff, Bool, List, Option, Text, [], any, bool_eq, codes, contains, false, if◌then◌else◌, leb,
  list_eq, ltb, map, max, nat_eq, none, not, option_eq, pair_eq, some, true, ℕ, ◌&&◌, ◌+◌, ◌∷◌,
}
use thorn.Errors.{Result, dispatch_error, err, ok}
use thorn.Runtime.Address.Book.{AddressBook}
use thorn.Runtime.Notification.{Notification, errored, status_eq}
use thorn.Runtime.World.{Exec, World, pure, ◌>>=◌, ◌>>◌}
use thorn.Runtime.Queue.{DurableQueue}
use thorn.Runtime.Inbox.{prompt_pending}
use thorn.Runtime.Dispatch.{apply_handling_transition}
use thorn.Runtime.ProviderHealth.{
  Config, Monitor, Snapshot, is_healthy, report_failure, report_success, snapshot,
}

-- How a call of the dispatcher ends: ProviderUnavailableError carries its attempts and its text.
pub data DispatchOutcome : Type 0 where
  returned : DispatchOutcome
  unavailable : (attempts : ℕ) (reason : Text) → DispatchOutcome
  no_progress : DispatchOutcome
  failed : DispatchOutcome

-- The metadata entry of a session that waits for the provider; its state is always
-- "waiting_on_provider".
pub record Outage : Type 0 where
  pub recorded_at : Text
  pub attempts : ℕ
  pub reason : Text
  pub provider_health : Option Snapshot

pub record Driver : Type 0 where
  pub inbox : DurableQueue
  pub dispatcher : World → DispatchOutcome × World
  pub save_session : Option (Option Outage → Exec (Unit {0}))
  pub progress_strikes : ℕ
  pub progress_evictor : Option (Option Monitor → Exec (Unit {0}))
  pub health_config : Config

pub record Session : Type 0 where
  pub stall_count : ℕ
  pub outage : Option Outage
  pub monitor : Option Monitor

-- The readings of the clock and of the random generator during a round.
pub record Clock : Type 0 where
  pub now : ℕ
  pub jitter : ℕ
  pub later : ℕ
  -- datetime.now in ISO format
  pub recorded_at : Text

-- before_ids - after_ids is not empty.
unfoldable pub closed_out : List Text → List Text → Bool
unfolding contains
closed_out before after = any (λ id. not (contains id after)) before

-- The update of the strike counter after a round.
unfoldable pub count_round : ℕ → Bool → DispatchOutcome → ℕ → ℕ
count_round strikes true outcome stall = 0
count_round strikes false (unavailable attempts reason) stall = stall
count_round strikes false no_progress stall = max (stall + 1) strikes
count_round strikes false _ stall = stall + 1

-- The conditions under which _maybe_evict_for_progress goes on to a given evictor.
unfoldable pub is_due : ℕ → ℕ → Bool
is_due strikes stall = not (leb strikes 0) && not (ltb stall strikes)

-- After the evictor: its exception is logged and leaves the counter.
abbrev reset_unless_raised : ℕ → Result (Unit {0}) × World → ℕ × World
reset_unless_raised stall (ok _, w) = (0, w)
reset_unless_raised stall (err e, w) = (stall, w)

unfoldable pub maybe_evict_for_progress : Driver → Option Monitor → ℕ → World → ℕ × World
maybe_evict_for_progress d monitor stall w = elim d.progress_evictor [
  | none ↦ (stall, w)
  | some evict ↦
      if is_due d.progress_strikes stall
      then reset_unless_raised stall (evict monitor w)
      else (stall, w)
]

-- Exceptions of the callback are logged.
unfoldable pub save : Driver → Option Outage → World → World
save d outage w = elim d.save_session [ none ↦ w | some callback ↦ (callback outage w).1 ]

unfoldable pub record_outage : Option Monitor → ℕ → Text → ℕ → Text → Outage
record_outage monitor attempts reason now recorded_at = record {
  recorded_at = recorded_at;
  attempts = attempts;
  reason = reason;
  provider_health = elim monitor [ none ↦ none | some m ↦ some (snapshot m now) ];
}

abbrev pub on_monitor : (Monitor → Monitor) → Option Monitor → Option Monitor
on_monitor f none = none
on_monitor f (some m) = some (f m)

-- What follows the agent's slot: the metadata, the saver and the report to the monitor.
unfoldable pub conclude : Driver → Clock → DispatchOutcome → Session → World → Session × World
conclude d clock returned s w =
    (record s { outage = none; monitor = on_monitor report_success s.monitor }, save d none w)
conclude d clock (unavailable attempts reason) s w =
    let monitor =
      on_monitor (λ m. report_failure d.health_config m clock.now clock.jitter) s.monitor in
    let outage = some (record_outage monitor attempts reason clock.later clock.recorded_at) in
    (record s { outage = outage; monitor = monitor }, save d outage w)
conclude d clock no_progress s w = (s, w)
conclude d clock failed s w = (s, w)

abbrev pub ids : List Notification → List Text
ids ns = map (λ (n : Notification). n.id) ns

-- The part of a round after both readings of the inbox.
unfoldable pub finish_round :
    Driver → Clock → Session → DispatchOutcome → Bool → World → Session × World
finish_round d clock s outcome closed w =
    let counted = count_round d.progress_strikes closed outcome s.stall_count in
    let (stall, evicted) = maybe_evict_for_progress d s.monitor counted w in
    conclude d clock outcome (record s { stall_count = stall }) evicted

-- _run_one_round, from the moment the monitor lets the driver through and a slot is free.
unfoldable pub run_one_round : Driver → Clock → Session → Exec Session
run_one_round d clock s = do
  before ← prompt_pending d.inbox
  outcome ← λ w. let (o, w') = d.dispatcher w in (ok o, w')
  after ← prompt_pending d.inbox
  λ w.
      let (s', w') = finish_round d clock s outcome (closed_out (ids before) (ids after)) w in
      (ok s', w')

abbrev eviction_reason : Text
eviction_reason =
    codes
      "Evicted by progress guarantee: this session did not close out any inbox items across multiple prompt rounds."

-- `except DispatchError`: logged, and the eviction counts as done.
abbrev suppress : Result Notification × World → Result (Unit {0}) × World
suppress (ok n, w) = (ok tt, w)
suppress (err dispatch_error, w) = (ok tt, w)
suppress (err e, w) = (err e, w)

abbrev allows : Option Monitor → Bool
allows none = true
allows (some m) = is_healthy m

unfoldable pub default_progress_evictor :
    AddressBook DurableQueue → DurableQueue → Option Monitor → Exec (Unit {0})
default_progress_evictor book inbox monitor = if not (allows monitor) then pure tt else do
  items ← prompt_pending inbox
  elim items [
    | [] ↦ pure tt
    | oldest ∷ _ ↦ λ w. suppress (
        apply_handling_transition book inbox oldest.id errored
          (record {
            notes = none;
            completion_rationale = none;
            error_reason = some eviction_reason;
          })
          w)
  ]
