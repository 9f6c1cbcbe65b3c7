-- ===== src/Runtime/ProviderHealth.antt =====
-- src/thorn/runtime/_provider_health.py: the circuit breaker around the LLM provider.
-- Seconds are numbers of one small unit (a float's time is not negative here); the result of
-- random.uniform(0, jitter) is an argument.
pub mod Run
use thorn.Prelude.{
  ==_iff, Bool, List, Option, [], false, if◌then◌else◌, leb, length, list_eq, ltb, min, nat_eq,
  none, not, option_eq, some, true, ℕ, ◌&&◌, ◌*◌, ◌++◌, ◌+◌, ◌-◌, ◌^◌, ◌∷◌,
}
use thorn.Errors.{Result, err, ok, value_error}

pub data HealthState : Type 0 where
  healthy degraded : HealthState

pub record Config : Type 0 where
  pub failure_threshold : ℕ
  pub failure_window_seconds : ℕ
  pub base_cooldown_seconds : ℕ
  pub max_cooldown_seconds : ℕ
  pub cooldown_jitter_seconds : ℕ

-- `wake_events` counts the events that were set and replaced.
pub record Monitor : Type 0 where
  pub state : HealthState
  pub failure_times : List ℕ
  pub cooldown_until : ℕ
  pub consecutive_probe_failures : ℕ
  pub probe_in_flight : Bool
  pub wake_events : ℕ

abbrev pub initial : Monitor
initial = record {
  state = healthy;
  failure_times = [];
  cooldown_until = 0;
  consecutive_probe_failures = 0;
  probe_in_flight = false;
  wake_events = 0;
}

-- __init__: the checks that a number of seconds, never below zero here, can fail.
unfoldable pub create : Config → Result Monitor
create c =
    if ltb c.failure_threshold 1
    then err value_error
    else if leb c.failure_window_seconds 0
    then err value_error
    else if ltb c.max_cooldown_seconds c.base_cooldown_seconds
    then err value_error
    else ok initial

unfoldable pub is_healthy : Monitor → Bool
is_healthy m = elim m.state [ healthy ↦ true | degraded ↦ false ]

pub record Snapshot : Type 0 where
  pub state : HealthState
  pub recent_failure_count : ℕ
  pub seconds_until_probe : ℕ
  pub probe_in_flight : Bool
  pub consecutive_probe_failures : ℕ

-- max(0.0, cooldown_until - now) is the subtraction that stops at zero.
unfoldable pub snapshot : Monitor → ℕ → Snapshot
snapshot m now = record {
  state = m.state;
  recent_failure_count = length m.failure_times;
  seconds_until_probe = elim m.state [ healthy ↦ 0 | degraded ↦ m.cooldown_until - now ];
  probe_in_flight = m.probe_in_flight;
  consecutive_probe_failures = m.consecutive_probe_failures;
}

-- What one turn of the loop of wait_until_healthy does: return to the caller, or await the event
-- for at most so many seconds, or with no limit.
pub data Turn : Type 0 where
  admitted : Turn
  blocked : (timeout : Option ℕ) → Turn

unfoldable pub wait_turn : Monitor → ℕ → Monitor × Turn
wait_turn m now = elim m.state [
  | healthy ↦ (m, admitted)
  | degraded ↦
      if not m.probe_in_flight && leb m.cooldown_until now
      then (record m { probe_in_flight = true }, admitted)
      else if m.probe_in_flight
      then (m, blocked none)
      else (m, blocked (some (m.cooldown_until - now)))
]

-- `failures[0] < cutoff` with the cutoff's subtraction on the other side.
unfoldable pub evict_failures_older_than : ℕ → ℕ → List ℕ → List ℕ
evict_failures_older_than now window [] = []
evict_failures_older_than now window (t ∷ ts) =
    let rest = evict_failures_older_than now window ts in
    if ltb (t + window) now then rest else t ∷ ts

-- The source's seconds are floats unless a configuration gives whole numbers: 2 ** attempt then has
-- no float from attempt 1024 on, and the product raises OverflowError. Here numbers are unbounded;
-- what is stated of a cooldown is stated for fewer failed probes in a row.
unfoldable pub compute_cooldown : Config → ℕ → ℕ → ℕ
compute_cooldown c attempt jitter =
    let capped = min (c.base_cooldown_seconds * 2 ^ attempt) c.max_cooldown_seconds in
    if ltb 0 c.cooldown_jitter_seconds then capped + jitter else capped

unfoldable pub report_success : Monitor → Monitor
report_success m =
    let cleared = record m {
      failure_times = [];
      probe_in_flight = false;
      wake_events = m.wake_events + 1;
    } in
    elim m.state [
      | healthy ↦ cleared
      | degraded ↦ record cleared {
        state = healthy;
        consecutive_probe_failures = 0;
        cooldown_until = 0;
      }
    ]

unfoldable pub report_failure : Config → Monitor → ℕ → ℕ → Monitor
unfolding evict_failures_older_than compute_cooldown
report_failure c m now jitter =
    let times =
      evict_failures_older_than now c.failure_window_seconds (m.failure_times ++ (now ∷ [])) in
    let noted = record m {
      failure_times = times;
      probe_in_flight = false;
      wake_events = m.wake_events + 1;
    } in
    elim m.state [
      | healthy ↦
          if leb c.failure_threshold (length times)
          then record noted {
            state = degraded;
            consecutive_probe_failures = 0;
            cooldown_until = now + compute_cooldown c 0 jitter;
          }
          else noted
      | degraded ↦ record noted {
        consecutive_probe_failures = m.consecutive_probe_failures + 1;
        cooldown_until = now + compute_cooldown c (m.consecutive_probe_failures + 1) jitter;
      }
    ]
