-- ===== src/Core/Loop/Guard.antt =====
-- The no-progress guard of src/thorn/core/_loop.py. The event sink, the telemetry and the text of the
-- diagnostic are left out: a round either warns, or raises LoopNoProgressError, or neither.
use thorn.Prelude.{
  Bool, List, Option, Text, [], bool_eq, false, if◌then◌else◌, leb, length, list_eq, ltb, max,
  nat_beq, nat_eq, none, not, option_eq, pair_eq, some, suc, true, ℕ, ◌&&◌, ◌++◌, ◌+◌, ◌/◌, ◌==◌,
  ◌∷◌,
}
use thorn.Core.Loop.Round.{ResourceAccess}
use thorn.Core.Loop.Progress.{RoundProgress}

-- The equality of _ResourceAccessFingerprint
unfoldable pub same_access : ResourceAccess → ResourceAccess → Bool
same_access a b = (a.tool_name == b.tool_name) && (a.resource == b.resource)

pub record NoProgressTracker : Type 0 where
  pub rounds_without_progress : ℕ
  pub recent_tool_patterns : List Text
  pub last_reason : Text
  pub repeated_resource : Option ResourceAccess
  pub repeated_resource_count : ℕ
  pub warning_emitted : Bool

-- A tracker by its defaults, and after reset
abbrev pub fresh_guard : NoProgressTracker
fresh_guard = record {
  rounds_without_progress = 0;
  recent_tool_patterns = [];
  last_reason = [];
  repeated_resource = none;
  repeated_resource_count = 0;
  warning_emitted = false;
}

-- del patterns[:-4]
unfoldable pub last_four : List Text → List Text
last_four [] = []
last_four (p ∷ ps) = let rest = last_four ps in if ltb (length ps) 4 then p ∷ ps else rest

-- _observe_resource_access: the repeated resource and its count.
unfoldable pub observe_resource_access :
    Option ResourceAccess × ℕ → List ResourceAccess → Option ResourceAccess × ℕ
observe_resource_access (repeated, count) [] = (none, 0)
observe_resource_access (none, count) (resource ∷ []) = (some resource, 1)
observe_resource_access (some old, count) (resource ∷ []) =
    if same_access old resource then (some old, suc count) else (some resource, 1)
observe_resource_access (repeated, count) (a ∷ b ∷ rest) = (none, 0)

unfoldable pub observe_round : NoProgressTracker → RoundProgress → NoProgressTracker
observe_round t round =
    if round.made_progress
    then fresh_guard
    else (let (repeated, count) =
          observe_resource_access (t.repeated_resource, t.repeated_resource_count)
            round.resource_accesses in
        record {
          rounds_without_progress = suc t.rounds_without_progress;
          recent_tool_patterns = last_four (t.recent_tool_patterns ++ (round.tool_pattern ∷ []));
          last_reason = round.reason;
          repeated_resource = repeated;
          repeated_resource_count = count;
          warning_emitted = t.warning_emitted;
        })

unfoldable pub no_progress_warning_threshold : ℕ → Option ℕ
no_progress_warning_threshold limit = if leb limit 1 then none else some (max 1 ((limit + 1) / 2))

-- The tests of _warn_if_no_progress
unfoldable pub warns : ℕ → NoProgressTracker → Bool
warns limit t = elim (no_progress_warning_threshold limit) [
  | none ↦ false
  | some threshold ↦
      not t.warning_emitted
      && not (ltb t.rounds_without_progress threshold)
      && not (leb limit t.rounds_without_progress)
]

-- The tests of _raise_if_no_progress
unfoldable pub raises : ℕ → NoProgressTracker → Bool
raises limit t = not (nat_beq limit 0) && not (ltb t.rounds_without_progress limit)

-- What a round does to the loop.
pub record GuardStep : Type 0 where
  pub tracker : NoProgressTracker
  pub warned : Bool
  pub raised : Bool

-- Observed, then warned of and raised if there was no progress.
unfoldable pub guard_round : ℕ → NoProgressTracker → RoundProgress → GuardStep
guard_round limit t round =
    let observed = observe_round t round in
    let warning = not round.made_progress && warns limit observed in
    let told = if warning then record observed { warning_emitted = true } else observed in
    record {
      tracker = told;
      warned = warning;
      raised = not round.made_progress && raises limit told;
    }
