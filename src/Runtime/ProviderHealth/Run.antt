-- ===== src/Runtime/ProviderHealth/Run.antt =====
-- Runs of the breaker of src/thorn/runtime/_provider_health.py: every order of turns and reports.
use thorn.Prelude.{
  All, All-append, List, [], ap, arith, bool_eq, false, inl, inr, length, length-append, list_eq,
  map, min, nat_eq, option_eq, pair_eq, refl, some, suc, true, zero, ℕ, ◌*◌, ◌++◌, ◌+◌, ◌<◌, ◌^◌,
  ◌↔◌, ◌∙◌, ◌∷◌, ◌≡◌, ◌≤◌, ◌⊎◌,
}
use native.Mathlib.Nat.{pow-suc}
use thorn.Errors.{ok}
use thorn.Runtime.ProviderHealth.{
  Config, HealthState, Monitor, admitted, blocked, compute_cooldown, create, degraded,
  evict_failures_older_than, healthy, report_failure, report_success, wait_turn,
}

-- What a task does to the monitor, under its lock.
pub data Event : Type 0 where
  turn success : Event
  failure : (jitter : ℕ) → Event

unfoldable pub step : Config → Monitor → ℕ → Event → Monitor
step c m now turn = (wait_turn m now).0
step c m now success = report_success m
step c m now (failure jitter) = report_failure c m now jitter

-- A new monitor, and what any events at any clock readings make of it.
pub data Reach (c : Config) : Monitor → Type 0 where
  start : (m : Monitor) → create c ≡ ok m → Reach c m
  next : (m : Monitor) (now : ℕ) (e : Event) → Reach c m → Reach c (step c m now e)

-- The last of some times
unfoldable pub latest : List ℕ → ℕ
latest [] = 0
latest (t ∷ []) = t
latest (t ∷ u ∷ ts) = latest (u ∷ ts)

abbrev pub CoherentAt : HealthState → Config → Monitor → Type 0
CoherentAt healthy c m =
    (length m.failure_times < c.failure_threshold)
    × (m.probe_in_flight ≡ false)
    × (m.cooldown_until ≡ 0)
    × (m.consecutive_probe_failures ≡ 0)
CoherentAt degraded c m =
    (1 ≤ length m.failure_times)
    × (latest m.failure_times + c.base_cooldown_seconds ≤ m.cooldown_until)

-- The configuration is an accepted one. While it is healthy the monitor holds fewer failures than
-- the threshold, no probe is out, and there is no cooldown; while it is degraded it holds a failure,
-- and the cooldown ends no sooner than the base cooldown after the last one.
abbrev pub IsCoherent : Config → Monitor → Type 0
IsCoherent c m =
    (1 ≤ c.failure_threshold)
    × (c.base_cooldown_seconds ≤ c.max_cooldown_seconds)
    × CoherentAt m.state c m

create-IsCoherent : (c : Config) (m : Monitor) → create c ≡ ok m → IsCoherent c m
unfolding create
create-IsCoherent c m h = ground arith

one_le_pow : (k : ℕ) → 1 ≤ 2 ^ k
one_le_pow zero = omega arith
one_le_pow (suc k) = let half = one_le_pow k in rw pow-suc (omega arith)

compute_cooldown-base :
    (c : Config) (k jitter : ℕ)
    → c.base_cooldown_seconds ≤ c.max_cooldown_seconds
    → c.base_cooldown_seconds ≤ compute_cooldown c k jitter
unfolding compute_cooldown
compute_cooldown-base c k jitter h =
    let scaled : c.base_cooldown_seconds ≤ c.base_cooldown_seconds * 2 ^ k =
      grind (arith, one_le_pow k) in
    ground (arith, scaled, h)

latest-snoc : (ts : List ℕ) (now : ℕ) → latest (ts ++ (now ∷ [])) ≡ now
unfolding latest
latest-snoc [] now = refl
latest-snoc (t ∷ []) now = refl
latest-snoc (t ∷ u ∷ ts) now = latest-snoc (u ∷ ts) now

evict-latest :
    (now window : ℕ) (ts : List ℕ)
    → (1 ≤ length (evict_failures_older_than now window (ts ++ (now ∷ []))))
      × (latest (evict_failures_older_than now window (ts ++ (now ∷ []))) ≡ now)
unfolding evict_failures_older_than latest
evict-latest now window [] = ground arith
evict-latest now window (t ∷ ts) =
    ground (arith, evict-latest now window ts, latest-snoc (t ∷ ts) now)

step-IsCoherent :
    (c : Config) (m : Monitor) (now : ℕ) (e : Event)
    → IsCoherent c m
    → IsCoherent c (step c m now e)
unfolding step wait_turn report_success report_failure
step-IsCoherent c m now turn h = ground arith
step-IsCoherent c m now success h = ground arith
step-IsCoherent c m now (failure jitter) h =
    let (threshold, capped, rest) = h in
    ground (
      arith,
      h,
      evict-latest now c.failure_window_seconds m.failure_times,
      compute_cooldown-base c 0 jitter capped,
      compute_cooldown-base c (m.consecutive_probe_failures + 1) jitter capped,
    )

pub Reach-IsCoherent : (c : Config) (m : Monitor) → Reach c m → IsCoherent c m
Reach-IsCoherent c _ (start m h) = create-IsCoherent c m h
Reach-IsCoherent c _ (next m now e r) = step-IsCoherent c m now e (Reach-IsCoherent c m r)

-- Where a turn returns to its caller, at a monitor that a run reaches from an accepted configuration,
-- whatever the clock read, and that has fewer than 1024 failed probes in a row: either the monitor
-- is healthy, holds fewer failures than the threshold and has no probe out; or it is degraded, had
-- no probe out and now has this one, and the clock reads at least the base cooldown more than at the
-- last failure that was reported.
pub Reach-admitted :
    (c : Config) (m : Monitor) (now : ℕ)
    → Reach c m
    → m.consecutive_probe_failures < 1024
    → (wait_turn m now).1 ≡ admitted
    → ((m.state ≡ healthy)
        × (length m.failure_times < c.failure_threshold)
        × (m.probe_in_flight ≡ false))
      ⊎ ((m.state ≡ degraded)
          × (m.probe_in_flight ≡ false)
          × ((wait_turn m now).0.probe_in_flight ≡ true)
          × (latest m.failure_times + c.base_cooldown_seconds ≤ now))
unfolding wait_turn
Reach-admitted c m now r few h =
    let coherent = Reach-IsCoherent c m r in ground (arith, h, coherent)

-- How many of the turns at these clock readings, one after another, return to their callers.
pub admissions : Monitor → List ℕ → ℕ
admissions m [] = 0
admissions m (now ∷ later) =
    let rest = admissions (wait_turn m now).0 later in
    elim (wait_turn m now).1 [ admitted ↦ suc rest | blocked t ↦ rest ]

-- While a probe is out and nobody reports, no turn returns, whatever the clock reads.
pub admissions_lost_probe :
    (m : Monitor) (times : List ℕ)
    → m.state ≡ degraded
    → m.probe_in_flight ≡ true
    → admissions m times ≡ 0
unfolding admissions wait_turn
admissions_lost_probe m [] s p = refl
admissions_lost_probe m (now ∷ later) s p = ground (arith, admissions_lost_probe m later s p)

-- While the monitor is degraded and nobody reports, at most one turn returns.
pub admissions_single : (m : Monitor) (times : List ℕ) → m.state ≡ degraded → admissions m times ≤ 1
unfolding admissions wait_turn
admissions_single m [] s = omega arith
admissions_single m (now ∷ later) s = ground (
  arith,
  admissions_single m later s,
  admissions_lost_probe (record m { probe_in_flight = true }) later s refl,
)

-- A turn that is blocked for a time is admitted at the end of it, if nobody reports and no other
-- turn is taken; and not before.
pub wait_turn_timeout :
    (m : Monitor) (now timeout later : ℕ)
    → (wait_turn m now).1 ≡ blocked (some timeout)
    → ((wait_turn m (now + timeout)).1 ≡ admitted)
      × (((wait_turn m later).1 ≡ admitted) ↔ (now + timeout ≤ later))
unfolding wait_turn
wait_turn_timeout m now timeout later h = ground arith

-- A failure while the monitor is degraded, not yet the 1024th in a row, starts a cooldown between the
-- capped exponential delay and the configured maximum with the jitter, releases the probe's slot and
-- counts the failure.
pub report_failure_cooldown :
    (c : Config) (m : Monitor) (now jitter : ℕ)
    → m.state ≡ degraded
    → m.consecutive_probe_failures + 1 < 1024
    → jitter ≤ c.cooldown_jitter_seconds
    → let m' = report_failure c m now jitter in
      let k = m.consecutive_probe_failures + 1 in
      (m'.state ≡ degraded)
      × (m'.consecutive_probe_failures ≡ k)
      × (m'.probe_in_flight ≡ false)
      × (now + min (c.base_cooldown_seconds * 2 ^ k) c.max_cooldown_seconds ≤ m'.cooldown_until)
      × (m'.cooldown_until ≤ now + c.max_cooldown_seconds + c.cooldown_jitter_seconds)
unfolding report_failure
report_failure_cooldown c m now jitter s few j = ground arith

-- The times lie in one window that ends at `last`.
abbrev pub Within : ℕ → ℕ → List ℕ → Type 0
Within window last = All (λ t. (t ≤ last) × (last ≤ t + window))

-- Failures are reported one after another.
pub fail_all : Config → Monitor → List (ℕ × ℕ) → Monitor
fail_all c m [] = m
fail_all c m ((now, jitter) ∷ later) = fail_all c (report_failure c m now jitter) later

abbrev pub times_of : List (ℕ × ℕ) → List ℕ
times_of = map (λ (now, jitter). now)

evict_none :
    (window last now : ℕ) (ts : List ℕ)
    → now ≤ last
    → Within window last ts
    → evict_failures_older_than now window ts ≡ ts
unfolding evict_failures_older_than
evict_none window last now [] h w = refl
evict_none window last now (t ∷ ts) h w = ground arith

fail_all_degraded :
    (c : Config) (m : Monitor) (reports : List (ℕ × ℕ))
    → m.state ≡ degraded
    → (fail_all c m reports).state ≡ degraded
unfolding fail_all report_failure
fail_all_degraded c m [] s = s
fail_all_degraded c m ((now, jitter) ∷ later) s =
    fail_all_degraded c (report_failure c m now jitter) later (ground arith)

report_failure-times :
    (c : Config) (m : Monitor) (now jitter last : ℕ)
    → (now ≤ last) × (last ≤ now + c.failure_window_seconds)
    → Within c.failure_window_seconds last m.failure_times
    → (report_failure c m now jitter).failure_times ≡ m.failure_times ++ (now ∷ [])
unfolding report_failure
report_failure-times c m now jitter last h old = ground (
  arith,
  evict_none c.failure_window_seconds last now (m.failure_times ++ (now ∷ [])) h.0 (
      All-append (λ t. (t ≤ last) × (last ≤ t + c.failure_window_seconds)) m.failure_times
        (now ∷ []) old (h, tt)),
)

report_failure_calm :
    (c : Config) (m : Monitor) (now jitter : ℕ)
    → (report_failure c m now jitter).state ≡ healthy
    → length (report_failure c m now jitter).failure_times < c.failure_threshold
unfolding report_failure
report_failure_calm c m now jitter h = ground arith

state_cases : (s : HealthState) → (s ≡ degraded) ⊎ (s ≡ healthy)
state_cases healthy = inr refl
state_cases degraded = inl refl

-- From a monitor whose failures lie in one window with those that are reported to it, as many
-- reports as make up the threshold with them leave it degraded.
pub fail_all_trips :
    (c : Config) (m : Monitor) (last : ℕ) (reports : List (ℕ × ℕ))
    → 1 ≤ length reports
    → c.failure_threshold ≤ length m.failure_times + length reports
    → Within c.failure_window_seconds last m.failure_times
    → Within c.failure_window_seconds last (times_of reports)
    → (fail_all c m reports).state ≡ degraded
unfolding fail_all
fail_all_trips c m last [] nonempty enough old new = absurd (omega arith)
fail_all_trips c m last ((now, jitter) ∷ later) nonempty enough old new =
    let m' = report_failure c m now jitter in
    let times = report_failure-times c m now jitter last new.0 old in
    elim (state_cases m'.state) [
      | inl tripped ↦ fail_all_degraded c m' later tripped
      | inr calm ↦
          let few = report_failure_calm c m now jitter calm in
          let longer = ap length times ∙ length-append m.failure_times (now ∷ []) in
          fail_all_trips c m' last later (omega arith) (omega arith)
            (rw times (
              All-append (λ t. (t ≤ last) × (last ≤ t + c.failure_window_seconds)) m.failure_times
                (now ∷ []) old (new.0, tt)))
            new.1
    ]
