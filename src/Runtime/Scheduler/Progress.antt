-- ===== src/Runtime/Scheduler/Progress.antt =====
-- The counter of the forward-progress guard of src/thorn/runtime/_scheduler.py, over many rounds.
use thorn.Prelude.{
  Bool, Bool-cases, List, [], all, arith, bool_eq, false, if◌then◌else◌, inl, inr, length, list_eq,
  ltb, max, nat_eq, option_eq, pair_eq, refl, true, ℕ, ◌*◌, ◌+◌, ◌<◌, ◌∷◌, ◌≡◌, ◌≤◌,
}
use thorn.Runtime.Scheduler.{
  DispatchOutcome, count_round, failed, is_due, no_progress, returned, unavailable,
}

-- A finished round, as the counter sees it: whether an item closed out, and the outcome.
abbrev pub RoundReport : Type 0
RoundReport = Bool × DispatchOutcome

-- What a counter leads to: an evictor that returns resets it.
unfoldable pub guard_check : ℕ → ℕ → ℕ → ℕ × ℕ
unfolding is_due
guard_check strikes counted evictions =
    if is_due strikes counted then (0, evictions + 1) else (counted, evictions)

-- The counter and the number of evictions after a round, with an evictor that returns.
abbrev pub guard_step : ℕ → ℕ × ℕ → RoundReport → ℕ × ℕ
guard_step strikes (stall, evictions) (closed, outcome) =
    guard_check strikes (count_round strikes closed outcome stall) evictions

unfoldable pub guard_run : ℕ → ℕ × ℕ → List RoundReport → ℕ × ℕ
guard_run strikes state [] = state
guard_run strikes state (report ∷ reports) =
    guard_run strikes (guard_step strikes state report) reports

-- The rounds that count against the session, in strikes: a report of no progress forces the
-- threshold, a round that closes an item out or finds no provider counts nothing.
abbrev pub cost : ℕ → RoundReport → ℕ
cost strikes (true, outcome) = 0
cost strikes (false, unavailable attempts reason) = 0
cost strikes (false, no_progress) = max 1 strikes
cost strikes (false, _) = 1

abbrev pub total_cost : ℕ → List RoundReport → ℕ
total_cost strikes [] = 0
total_cost strikes (r ∷ rs) = cost strikes r + total_cost strikes rs

count_round-cost :
    (strikes stall : ℕ) (report : RoundReport)
    → count_round strikes report.0 report.1 stall ≤ stall + cost strikes report
unfolding count_round
count_round-cost strikes stall (closed, outcome) = ground arith

due-le : (strikes counted : ℕ) → is_due strikes counted ≡ true → strikes ≤ counted
unfolding is_due
due-le strikes counted h = ground arith

guard_check-cost :
    (strikes counted evictions : ℕ)
    → (guard_check strikes counted evictions).1 * strikes
        + (guard_check strikes counted evictions).0
      ≤ evictions * strikes + counted
unfolding guard_check is_due
guard_check-cost strikes counted evictions = elim (Bool-cases (is_due strikes counted)) [
  | inl e ↦ rw (e) (grind (arith, e, due-le strikes counted e))
  | inr e ↦ rw (e) (omega arith)
]

-- Over any rounds, with an evictor that returns, the evictions times the threshold and the
-- counter that is left stay within the counter at the start and what the rounds cost: a round
-- costs nothing where it closes an item out or finds no provider, the threshold, or one if that is
-- zero, where it closes nothing out and reports no progress, and one in every other case.
pub guard_run-cost :
    (strikes stall evictions : ℕ) (reports : List RoundReport)
    → (guard_run strikes (stall, evictions) reports).1 * strikes
        + (guard_run strikes (stall, evictions) reports).0
      ≤ evictions * strikes + stall + total_cost strikes reports
unfolding guard_run
guard_run-cost strikes stall evictions [] = omega arith
guard_run-cost strikes stall evictions ((closed, outcome) ∷ reports) =
    let next = guard_step strikes (stall, evictions) (closed, outcome) in
    omega (
      arith,
      guard_run-cost strikes next.0 next.1 reports,
      count_round-cost strikes stall (closed, outcome),
      guard_check-cost strikes (count_round strikes closed outcome stall) evictions,
    )

abbrev pub is_plain_stall : RoundReport → Bool
is_plain_stall (false, returned) = true
is_plain_stall (false, failed) = true
is_plain_stall _ = false

plain-step :
    (strikes stall evictions : ℕ) (report : RoundReport)
    → is_plain_stall report ≡ true
    → guard_step strikes (stall, evictions) report ≡ guard_check strikes (stall + 1) evictions
unfolding count_round
plain-step strikes stall evictions (false, returned) h = refl
plain-step strikes stall evictions (false, failed) h = refl
plain-step strikes stall evictions (false, unavailable n reason) h = ground arith
plain-step strikes stall evictions (false, no_progress) h = ground arith
plain-step strikes stall evictions (true, outcome) h = ground arith

guard_check-lem :
    (strikes counted evictions : ℕ)
    → 0 < strikes
    → guard_check strikes counted evictions
      ≡ (if ltb counted strikes then (counted, evictions) else (0, evictions + 1))
unfolding guard_check is_due
guard_check-lem strikes counted evictions h = ground arith

-- As many stalled rounds as the threshold still lacks, none of them for want of a provider or by
-- a report of no progress, lead to one eviction, at the last of them, and to a counter of zero.
pub guard_run-stalled :
    (strikes stall evictions : ℕ) (reports : List RoundReport)
    → all is_plain_stall reports ≡ true
    → stall < strikes
    → stall + length reports ≡ strikes
    → guard_run strikes (stall, evictions) reports ≡ (0, evictions + 1)
unfolding guard_run
guard_run-stalled strikes stall evictions [] plain below meets = ground arith
guard_run-stalled strikes stall evictions (r ∷ []) plain below meets =
    rw
      (
        plain-step strikes stall evictions r (ground (arith, plain)),
        guard_check-lem strikes (stall + 1) evictions (omega (arith, below)),
      )
      (ground (arith, meets))
guard_run-stalled strikes stall evictions (r ∷ q ∷ reports) plain below meets =
    rw
      (
        plain-step strikes stall evictions r (ground (arith, plain)),
        guard_check-lem strikes (stall + 1) evictions (omega (arith, below)),
      )
      (let lower : ltb (stall + 1) strikes ≡ true = ground (arith, meets) in
        rw (lower) (
          guard_run-stalled strikes (stall + 1) evictions (q ∷ reports) (ground (arith, plain))
            (omega (arith, meets)) (omega (arith, meets))))
