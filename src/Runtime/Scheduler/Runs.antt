-- ===== src/Runtime/Scheduler/Runs.antt =====
-- The forward-progress guard of src/thorn/runtime/_scheduler.py over many rounds of one driver.
use thorn.Prelude.{
  Bool, List, Option, [], all, ap, arith, bool_eq, false, if◌then◌else◌, length, list_eq, map,
  nat_eq, none, option_eq, pair_eq, refl, some, true, ℕ, ◌*◌, ◌+◌, ◌<◌, ◌∙◌, ◌∷◌, ◌≡◌, ◌≤◌,
}
use thorn.Errors.{ok}
use thorn.Runtime.World.{Exec, World}
use thorn.Runtime.ProviderHealth.{Monitor}
use thorn.Runtime.Scheduler.{
  Clock, DispatchOutcome, Driver, Outage, Session, conclude, count_round, failed, finish_round,
  is_due, maybe_evict_for_progress, no_progress, returned, save, unavailable,
}
use thorn.Runtime.Scheduler.Progress.{
  RoundReport, guard_check, guard_run, guard_run-cost, guard_run-stalled, guard_step,
  is_plain_stall, total_cost,
}

-- The ends of rounds, one after another: each with its clock, whether an item closed out, and the
-- outcome. What happens before the end of a round acts on the world by `between`, which is told how
-- many rounds are left.
unfoldable pub rounds_run :
    Driver → (ℕ → World → World) → Session × World → List (Clock × RoundReport) → Session × World
rounds_run d between state [] = state
rounds_run d between (s, w) ((clock, (closed, outcome)) ∷ later) =
    rounds_run d between (finish_round d clock s outcome closed (between (length later) w)) later

abbrev pub reports_of : List (Clock × RoundReport) → List RoundReport
reports_of rounds = map (λ r. r.1) rounds

-- The counter, and the number of evictions
abbrev tally : (World → ℕ) → Session × World → ℕ × ℕ
tally evictions (s, w) = (s.stall_count, evictions w)

if-evicted :
    (evictions : World → ℕ) (b : Bool) (stall : ℕ) (w w' : World)
    → evictions w' ≡ evictions w + 1
    → (
      (if◌then◌else◌ {A = ℕ × World} b (0, w') (stall, w)).0,
      evictions (if◌then◌else◌ {A = ℕ × World} b (0, w') (stall, w)).1,
    )
      ≡ (if◌then◌else◌ {A = ℕ × ℕ} b (0, evictions w + 1) (stall, evictions w))
if-evicted evictions true stall w w' h = ap (λ n. (0, n)) h
if-evicted evictions false stall w w' h = refl

module _ (d : Driver) (evict : Option Monitor → Exec (Unit {0})) (evictions : World → ℕ)
    (between : ℕ → World → World) (given : d.progress_evictor ≡ some evict)
    (returns : (m : Option Monitor) (w : World) → evict m w ≡ (ok tt, (evict m w).1))
    (counts : (m : Option Monitor) (w : World) → evictions (evict m w).1 ≡ evictions w + 1)
    (saves : (o : Option Outage) (w : World) → evictions (save d o w) ≡ evictions w)
    (keeps : (k : ℕ) (w : World) → evictions (between k w) ≡ evictions w) where
  maybe_evict-counts :
      (m : Option Monitor) (stall : ℕ) (w : World)
      → (
        (maybe_evict_for_progress d m stall w).0,
        evictions (maybe_evict_for_progress d m stall w).1,
      )
        ≡ guard_check d.progress_strikes stall (evictions w)
  unfolding maybe_evict_for_progress guard_check
  maybe_evict-counts m stall w =
      rw (given, returns m w)
        (if-evicted evictions (is_due d.progress_strikes stall) stall w (evict m w).1 (counts m w))

  conclude-counts :
      (clock : Clock) (outcome : DispatchOutcome) (s : Session) (w : World)
      → tally evictions (conclude d clock outcome s w) ≡ tally evictions (s, w)
  unfolding conclude
  conclude-counts clock returned s w = ap (λ n. (s.stall_count, n)) (saves none w)
  conclude-counts clock (unavailable attempts reason) s w = ap (λ n. (s.stall_count, n)) (saves _ w)
  conclude-counts clock no_progress s w = refl
  conclude-counts clock failed s w = refl

  finish_round-counts :
      (clock : Clock) (outcome : DispatchOutcome) (closed : Bool) (s : Session) (w : World)
      → tally evictions (finish_round d clock s outcome closed w)
        ≡ guard_step d.progress_strikes (s.stall_count, evictions w) (closed, outcome)
  unfolding finish_round
  finish_round-counts clock outcome closed s w =
      let counted = count_round d.progress_strikes closed outcome s.stall_count in
      let (stall, evicted) = maybe_evict_for_progress d s.monitor counted w in
      conclude-counts clock outcome (record s { stall_count = stall }) evicted
      ∙ maybe_evict-counts s.monitor counted w

  rounds_run-guard_run :
      (s : Session) (w : World) (rounds : List (Clock × RoundReport))
      → tally evictions (rounds_run d between (s, w) rounds)
        ≡ guard_run d.progress_strikes (s.stall_count, evictions w) (reports_of rounds)
  unfolding rounds_run guard_run
  rounds_run-guard_run s w [] = refl
  rounds_run-guard_run s w ((clock, (closed, outcome)) ∷ later) =
      let here = between (length later) w in
      let (s', w') = finish_round d clock s outcome closed here in
      rounds_run-guard_run s' w' later
      ∙ ap (λ state. guard_run d.progress_strikes state (reports_of later))
          (finish_round-counts clock outcome closed s here
            ∙ ap (λ n. guard_step d.progress_strikes (s.stall_count, n) (closed, outcome))
                (keeps (length later) w))

  -- For an evictor that always returns and a number of the world that each of its calls raises by
  -- one, and that neither the saver nor what happens between the ends of rounds changes: over any
  -- rounds, what this number grows by, times the threshold, and the counter that is left stay within
  -- the counter at the start and what the rounds cost. A round costs nothing where it closes an item
  -- out or finds no provider, the threshold, or one if that is zero, where it closes nothing out and
  -- reports no progress, and one in every other case.
  pub rounds_run-cost :
      (s : Session) (w : World) (rounds : List (Clock × RoundReport))
      → let (s', w') = rounds_run d between (s, w) rounds in
        evictions w' * d.progress_strikes + s'.stall_count
        ≤ evictions w * d.progress_strikes
          + s.stall_count
          + total_cost d.progress_strikes (reports_of rounds)
  rounds_run-cost s w rounds =
      let run = rounds_run-guard_run s w rounds in
      omega (
        arith,
        ap (λ state. state.0) run,
        ap (λ state. state.1 * d.progress_strikes) run,
        guard_run-cost d.progress_strikes s.stall_count (evictions w) (reports_of rounds),
      )

  -- For such an evictor and number: as many stalled rounds as the threshold still lacks, none of
  -- them for want of a provider or by a report of no progress, lead to one call of the evictor and
  -- leave a counter of zero.
  pub rounds_run-stalled :
      (s : Session) (w : World) (rounds : List (Clock × RoundReport))
      → all is_plain_stall (reports_of rounds) ≡ true
      → s.stall_count < d.progress_strikes
      → s.stall_count + length (reports_of rounds) ≡ d.progress_strikes
      → let (s', w') = rounds_run d between (s, w) rounds in
        (s'.stall_count ≡ 0) × (evictions w' ≡ evictions w + 1)
  rounds_run-stalled s w rounds plain below meets =
      let run =
        rounds_run-guard_run s w rounds
        ∙ guard_run-stalled d.progress_strikes s.stall_count (evictions w) (reports_of rounds) plain
            below meets in
      (ap (λ state. state.0) run, ap (λ state. state.1) run)
