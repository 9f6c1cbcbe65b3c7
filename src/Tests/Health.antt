-- ===== src/Tests/Health.antt =====
-- The breaker of src/thorn/runtime/_provider_health.py at sample readings.
use thorn.Prelude.{
  [], arith, bool_eq, false, length, list_eq, min, nat_eq, option_eq, pair_eq, refl, true, ◌*◌, ◌+◌,
  ◌<◌, ◌^◌, ◌∷◌, ◌≡◌, ◌≤◌, ◌⊎◌,
}
use thorn.Errors.{ok}
use thorn.Runtime.ProviderHealth.{
  Config, Monitor, admitted, compute_cooldown, create, degraded, evict_failures_older_than, healthy,
  initial, report_failure, wait_turn,
}
use thorn.Runtime.ProviderHealth.Run.{
  Reach, Reach-admitted, admissions, admissions_single, fail_all, fail_all_trips, failure, latest,
  next, report_failure_cooldown, start, step,
}

abbrev config : Config
config = record {
  failure_threshold = 2;
  failure_window_seconds = 60;
  base_cooldown_seconds = 10;
  max_cooldown_seconds = 100;
  cooldown_jitter_seconds = 5;
}

abbrev tripped : Monitor
tripped = record {
  state = degraded;
  failure_times = 3 ∷ 4 ∷ [];
  cooldown_until = 20;
  consecutive_probe_failures = 0;
  probe_in_flight = false;
  wake_events = 2;
}

abbrev failed_once : Monitor
failed_once = step config initial 3 (failure 1)

created : create config ≡ ok initial
unfolding create
created = refl

once-Reach : Reach config failed_once
once-Reach = next initial 3 (failure 1) (start initial created)

abbrev failed_twice : Monitor
failed_twice = step config failed_once 4 (failure 2)

twice-Reach : Reach config failed_twice
twice-Reach = next failed_once 4 (failure 2) once-Reach

few : failed_twice.consecutive_probe_failures < 1024
unfolding step report_failure compute_cooldown evict_failures_older_than
few = omega arith

returns : (wait_turn failed_twice 16).1 ≡ admitted
unfolding step report_failure compute_cooldown evict_failures_older_than wait_turn
returns = refl

Reach-admitted_example :
    ((failed_twice.state ≡ healthy)
      × (length failed_twice.failure_times < 2)
      × (failed_twice.probe_in_flight ≡ false))
    ⊎ ((failed_twice.state ≡ degraded)
        × (failed_twice.probe_in_flight ≡ false)
        × ((wait_turn failed_twice 16).0.probe_in_flight ≡ true)
        × (latest failed_twice.failure_times + 10 ≤ 16))
Reach-admitted_example = Reach-admitted config failed_twice 16 twice-Reach few returns

admissions_single_example : admissions tripped (30 ∷ 31 ∷ []) ≤ 1
admissions_single_example = admissions_single tripped (30 ∷ 31 ∷ []) refl

report_failure_cooldown_example :
    let m' = report_failure config tripped 30 4 in
    (m'.state ≡ degraded)
    × (m'.consecutive_probe_failures ≡ 1)
    × (m'.probe_in_flight ≡ false)
    × (30 + min (config.base_cooldown_seconds * 2 ^ 1) config.max_cooldown_seconds
        ≤ m'.cooldown_until)
    × (m'.cooldown_until ≤ 30 + config.max_cooldown_seconds + config.cooldown_jitter_seconds)
report_failure_cooldown_example =
    report_failure_cooldown config tripped 30 4 refl (omega arith) (omega arith)

fail_all_trips_example : (fail_all config initial ((3, 0) ∷ (4, 1) ∷ [])).state ≡ degraded
fail_all_trips_example =
    fail_all_trips config initial 4 ((3, 0) ∷ (4, 1) ∷ []) (omega arith) (omega arith) tt
      ((omega arith, omega arith), ((omega arith, omega arith), tt))
