-- ===== src/Runtime/Scheduler/Rounds.antt =====
-- One prompt round of src/thorn/runtime/_scheduler.py, from the reading of the inbox to its end.
use thorn.Prelude.{
  Bool, List, Option, Option-cases, Text, ap, arith, bool_eq, false, if◌then◌else◌, inl, inr,
  list_eq, ltb, nat_eq, none, option_eq, pair_eq, refl, some, true, ℕ, ◌+◌, ◌<◌, ◌∙◌, ◌≡◌, ◌≤◌,
}
use thorn.Errors.{ok}
use thorn.Runtime.Notification.{Notification, status_eq}
use thorn.Runtime.World.{Exec, World}
use thorn.Runtime.Inbox.{prompt_pending}
use thorn.Runtime.ProviderHealth.{Monitor, report_failure}
use thorn.Runtime.Scheduler.{
  Clock, DispatchOutcome, Driver, Session, closed_out, conclude, count_round, failed, finish_round,
  ids, is_due, maybe_evict_for_progress, no_progress, on_monitor, record_outage, returned,
  run_one_round, save, unavailable,
}
use thorn.Runtime.Scheduler.Progress.{guard_check, guard_step}

conclude-stall_count :
    (d : Driver) (clock : Clock) (outcome : DispatchOutcome) (s : Session) (w : World)
    → (conclude d clock outcome s w).0.stall_count ≡ s.stall_count
unfolding conclude
conclude-stall_count d clock returned s w = refl
conclude-stall_count d clock (unavailable attempts reason) s w = refl
conclude-stall_count d clock no_progress s w = refl
conclude-stall_count d clock failed s w = refl

if-first :
    (b : Bool) (stall : ℕ) (w w' : World)
    → (if◌then◌else◌ {A = ℕ × World} b (0, w') (stall, w)).0
      ≡ (if◌then◌else◌ {A = ℕ × ℕ} b (0, 1) (stall, 0)).0
if-first true stall w w' = refl
if-first false stall w w' = refl

maybe_evict-guard_check :
    (d : Driver) (monitor : Option Monitor) (stall : ℕ) (w w' : World)
    (evict : Option Monitor → Exec (Unit {0}))
    → d.progress_evictor ≡ some evict
    → evict monitor w ≡ (ok tt, w')
    → (maybe_evict_for_progress d monitor stall w).0 ≡ (guard_check d.progress_strikes stall 0).0
unfolding maybe_evict_for_progress guard_check
maybe_evict-guard_check d monitor stall w w' evict given returns =
    rw (given, returns) (if-first (is_due d.progress_strikes stall) stall w w')

not_due : (strikes stall : ℕ) → stall < strikes → is_due strikes stall ≡ false
unfolding is_due
not_due strikes stall h = ground arith

maybe_evict-below :
    (d : Driver) (monitor : Option Monitor) (stall : ℕ) (w : World)
    → stall < d.progress_strikes
    → maybe_evict_for_progress d monitor stall w ≡ (stall, w)
unfolding maybe_evict_for_progress
maybe_evict-below d monitor stall w h = elim (Option-cases d.progress_evictor) [
  | inl e ↦ rw (e) refl
  | inr (evict, e) ↦ rw (e, not_due d.progress_strikes stall h) refl
]

finish_round-unavailable :
    (d : Driver) (clock : Clock) (s : Session) (closed : Bool) (attempts : ℕ) (reason : Text)
    (w : World)
    → s.stall_count < d.progress_strikes
    → let (s', w') = finish_round d clock s (unavailable attempts reason) closed w in
      (w' ≡ save d s'.outage w)
      × (s'.stall_count ≤ s.stall_count)
      × (s'.monitor
          ≡ on_monitor (λ m. report_failure d.health_config m clock.now clock.jitter) s.monitor)
      × (s'.outage ≡ some (record_outage s'.monitor attempts reason clock.later clock.recorded_at))
unfolding finish_round conclude count_round
finish_round-unavailable d clock s true attempts reason w h =
    rw (maybe_evict-below d s.monitor 0 w (omega (arith, h))) (refl, omega arith, refl, refl)
finish_round-unavailable d clock s false attempts reason w h =
    rw (maybe_evict-below d s.monitor s.stall_count w h) (refl, omega arith, refl, refl)

module _ (d : Driver) (clock : Clock) (s : Session) (w w0 w1 w2 : World)
    (before after : List Notification) (outcome : DispatchOutcome)
    (first : prompt_pending d.inbox w ≡ (ok before, w0))
    (dispatched : d.dispatcher w0 ≡ (outcome, w1))
    (second : prompt_pending d.inbox w1 ≡ (ok after, w2)) where
  abbrev closed : Bool
  closed = closed_out (ids before) (ids after)

  run_one_round-finish : run_one_round d clock s w ≡ (
    ok (finish_round d clock s outcome closed w2).0,
    (finish_round d clock s outcome closed w2).1,
  )
  unfolding run_one_round
  run_one_round-finish = rw (first, dispatched, second) refl

  -- A round whose two readings of the inbox succeed, and whose evictor returns at the world of the
  -- second reading, returns, and the counter that it leaves is that of the guard's step.
  pub run_one_round-counts :
      (evict : Option Monitor → Exec (Unit {0})) (w3 : World)
      → d.progress_evictor ≡ some evict
      → evict s.monitor w2 ≡ (ok tt, w3)
      → (s' : Session) × (w' : World) × (run_one_round d clock s w ≡ (ok s', w'))
        × (s'.stall_count ≡ (guard_step d.progress_strikes (s.stall_count, 0) (closed, outcome)).0)
  unfolding finish_round
  run_one_round-counts evict w3 given returns =
      let counted = count_round d.progress_strikes closed outcome s.stall_count in
      let (stall, evicted) = maybe_evict_for_progress d s.monitor counted w2 in
      (
        (finish_round d clock s outcome closed w2).0,
        (finish_round d clock s outcome closed w2).1,
        run_one_round-finish,
        conclude-stall_count d clock outcome (record s { stall_count = stall }) evicted
            ∙ maybe_evict-guard_check d s.monitor counted w2 w3 evict given returns,
      )

-- No more failed probes in a row than the base cooldown has a float for, one more included.
abbrev pub has_float : Option Monitor → Bool
has_float none = true
has_float (some m) = ltb (m.consecutive_probe_failures + 1) 1024

-- A round that finds no provider, with the counter below the threshold, fewer than 1023 failed probes
-- in a row at its monitor and both readings of the inbox successful, returns and does not raise the counter; no evictor is called, so that after
-- the dispatcher only the saver acts; a monitor, where there is one, has the failure reported to
-- it, and the session's metadata record the outage and a snapshot of the monitor after the report.
pub run_one_round-unavailable :
    (d : Driver) (clock : Clock) (s : Session) (w w0 w1 w2 : World)
    (before after : List Notification) (attempts : ℕ) (reason : Text)
    → prompt_pending d.inbox w ≡ (ok before, w0)
    → d.dispatcher w0 ≡ (unavailable attempts reason, w1)
    → prompt_pending d.inbox w1 ≡ (ok after, w2)
    → s.stall_count < d.progress_strikes
    → has_float s.monitor ≡ true
    → (s' : Session) × (run_one_round d clock s w ≡ (ok s', save d s'.outage w2))
      × (s'.stall_count ≤ s.stall_count)
      × (s'.monitor
          ≡ on_monitor (λ m. report_failure d.health_config m clock.now clock.jitter) s.monitor)
      × (s'.outage ≡ some (record_outage s'.monitor attempts reason clock.later clock.recorded_at))
run_one_round-unavailable d clock s w w0 w1 w2 before after attempts reason first dispatched second
      below few =
    let closed = closed_out (ids before) (ids after) in
    let (s', w') = finish_round d clock s (unavailable attempts reason) closed w2 in
    let (world, stall, heard, outage) =
      finish_round-unavailable d clock s closed attempts reason w2 below in
    (
      s',
      run_one_round-finish d clock s w w0 w1 w2 before after (unavailable attempts reason) first
            dispatched second
          ∙ ap (λ v. (ok s', v)) world,
      stall,
      heard,
      outage,
    )
