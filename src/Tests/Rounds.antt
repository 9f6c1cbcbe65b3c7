-- ===== src/Tests/Rounds.antt =====
-- Rounds and the progress guard of src/thorn/runtime/_scheduler.py at samples.
use thorn.Prelude.{
  ==_iff, List, Option, [], arith, bool_eq, codes, false, length, list_eq, nat_eq, none, option_eq,
  pair_eq, refl, some, ℕ, ◌*◌, ◌+◌, ◌∷◌, ◌≡◌, ◌≤◌,
}
use thorn.Errors.{ok}
use thorn.Runtime.Notification.{status_eq}
use thorn.Runtime.Queue.{list, load_live}
use thorn.Runtime.Inbox.{prompt_pending}
use thorn.Runtime.ProviderHealth.{Config, Monitor, initial, report_failure}
use thorn.Runtime.World.{Exec, World}
use thorn.Runtime.Scheduler.{
  Clock, DispatchOutcome, Driver, Outage, Session, failed, record_outage, returned, run_one_round,
  save, unavailable,
}
use thorn.Runtime.Scheduler.Runs.{reports_of, rounds_run, rounds_run-cost, rounds_run-stalled}
use thorn.Runtime.Scheduler.Progress.{RoundReport, total_cost}
use thorn.Runtime.Scheduler.Rounds.{run_one_round-unavailable}
use thorn.Tests.Samples.{bare, inbox}

abbrev config : Config
config = record {
  failure_threshold = 2;
  failure_window_seconds = 60;
  base_cooldown_seconds = 10;
  max_cooldown_seconds = 100;
  cooldown_jitter_seconds = 5;
}

abbrev driver : DispatchOutcome → Driver
driver outcome = record {
  inbox = inbox;
  dispatcher = λ w. (outcome, w);
  save_session = none;
  progress_strikes = 3;
  progress_evictor = some (λ monitor w. (ok tt, w));
  health_config = config;
}

abbrev clock : Clock
clock = record { now = 5; jitter = 0; later = 6; recorded_at = codes "2026-01-01T00:00:00+00:00" }

abbrev calm : Monitor
calm = record initial { failure_times = 4 ∷ [] }

abbrev stalled_twice : Session
stalled_twice = record { stall_count = 2; outage = none; monitor = some calm }

empty_inbox : prompt_pending inbox bare ≡ (ok [], bare)
unfolding prompt_pending list load_live thorn.Prelude.Sorting.sort_by
empty_inbox = refl

abbrev offline : Driver
offline = driver (unavailable 4 (codes "timeout"))

run_one_round-unavailable_example :
    (s' : Session) × (run_one_round offline clock stalled_twice bare
      ≡ (ok s', save offline s'.outage bare))
    × (s'.stall_count ≤ 2)
    × (s'.monitor ≡ some (report_failure config calm 5 0))
    × (s'.outage
        ≡ some (record_outage s'.monitor 4 (codes "timeout") 6 (codes "2026-01-01T00:00:00+00:00")))
run_one_round-unavailable_example =
    run_one_round-unavailable offline clock stalled_twice bare bare bare bare [] [] 4
      (codes "timeout") empty_inbox refl empty_inbox (omega arith) refl

-- An evictor that leaves a mark for each of its calls
abbrev mark : Option Monitor → Exec (Unit {0})
mark monitor w = (ok tt, record w { index = [] ∷ w.index })

abbrev marked : Driver
marked = record (driver failed) { progress_evictor = some mark }

abbrev marks : World → ℕ
marks w = length w.index

abbrev idle : ℕ → World → World
idle k w = w

abbrev fresh : Session
fresh = record { stall_count = 0; outage = none; monitor = none }

abbrev stalls : List (Clock × RoundReport)
stalls = (clock, (false, failed)) ∷ (clock, (false, returned)) ∷ (clock, (false, failed)) ∷ []

saved : (o : Option Outage) (w : World) → marks (save marked o w) ≡ marks w
unfolding save
saved o w = refl

one_more : (m : Option Monitor) (w : World) → marks (mark m w).1 ≡ marks w + 1
one_more m w = omega arith

rounds_run-cost_example :
    let (s', w') = rounds_run marked idle (fresh, bare) stalls in
    marks w' * 3 + s'.stall_count ≤ marks bare * 3 + 0 + total_cost 3 (reports_of stalls)
rounds_run-cost_example =
    rounds_run-cost marked mark marks idle refl (λ m w. refl) one_more saved (λ k w. refl) fresh
      bare stalls

rounds_run-stalled_example :
    let (s', w') = rounds_run marked idle (fresh, bare) stalls in
    (s'.stall_count ≡ 0) × (marks w' ≡ marks bare + 1)
rounds_run-stalled_example =
    rounds_run-stalled marked mark marks idle refl (λ m w. refl) one_more saved (λ k w. refl) fresh
      bare stalls refl (omega arith) (omega arith)
