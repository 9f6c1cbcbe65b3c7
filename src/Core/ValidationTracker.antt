-- ===== src/Core/ValidationTracker.antt =====
-- src/thorn/core/_validation_tracker.py: validation targets, their staleness and dependencies.
-- The scan of the file system is a parameter: the checksums that a target's patterns give.
pub mod Passing
pub mod Fuel
pub mod Staleness
use thorn.Prelude.Dict.{Dict, get, put}
use thorn.Prelude.{
  ==_iff, Bool, List, Option, Text, [], contains, false, if◌then◌else◌, keep, length, list_eq, ltb,
  nat_eq, none, not, option_eq, some, suc, true, zero, ℕ, ◌++◌, ◌+◌, ◌==◌, ◌∷◌,
}

pub data ValidationStatus : Type 0 where
  unknown stale passing failing : ValidationStatus

-- FileSnapshot.checksums
abbrev pub FileSnapshot : Type 0
FileSnapshot = Dict Text Text

pub record ValidationTarget : Type 0 where
  pub name : Text
  pub file_patterns : List Text
  pub depends_on : List Text
  pub last_result : ValidationStatus
  pub last_summary : Option Text
  pub baseline : Option FileSnapshot
  pub stale_file_count : ℕ

abbrev pub Targets : Type 0
Targets = Dict Text ValidationTarget

abbrev pub keys : FileSnapshot → List Text
keys [] = []
keys ((p, sum) ∷ rest) = p ∷ keys rest

abbrev pub differs : FileSnapshot → FileSnapshot → Text → Bool
differs a b p = not (get a p == get b p)

-- set(self.checksums) | set(other.checksums): the paths of the first, then what the second adds.
unfoldable pub all_paths : FileSnapshot → FileSnapshot → List Text
unfolding contains
all_paths a b = keys a ++ keep (λ p. not (contains p (keys a))) (keys b)

unfoldable pub diff_count : FileSnapshot → FileSnapshot → ℕ
diff_count a b = length (keep (differs a b) (all_paths a b))

unfoldable pub add_target : Targets → Text → List Text → List Text → Targets
add_target targets name file_patterns depends_on = put targets name (record {
  name = name;
  file_patterns = file_patterns;
  depends_on = depends_on;
  last_result = unknown;
  last_summary = none;
  baseline = none;
  stale_file_count = 0;
})

abbrev pub result_of : Bool → ValidationStatus
result_of true = passing
result_of false = failing

abbrev pub is_passing : ValidationStatus → Bool
is_passing passing = true
is_passing _ = false

module _ (scan : List Text → FileSnapshot) where
  unfoldable pub record_result : Targets → Text → Bool → Option Text → Targets
  record_result targets name passed summary = elim (get targets name) [
    | none ↦ targets
    | some target ↦ put targets name (record target {
      last_result = result_of passed;
      last_summary = summary;
      baseline = some (scan target.file_patterns);
      stale_file_count = 0;
    })
  ]

  unfoldable pub stale_count : ValidationTarget → ℕ
  stale_count target = elim target.baseline [
    | none ↦ length (scan target.file_patterns)
    | some baseline ↦ diff_count (scan target.file_patterns) baseline
  ]

  unfoldable pub refresh : Targets → Targets
  refresh [] = []
  refresh ((name, target) ∷ rest) =
      (name, record target { stale_file_count = stale_count target }) ∷ refresh rest

-- The loop over depends_on: whether some dependency blocks, and the names visited by then.
-- None: out of fuel.
unfoldable pub scan_dependencies :
    (List Text → Text → Option (ValidationStatus × List Text))
    → List Text
    → List Text
    → Option (Bool × List Text)
scan_dependencies status visited [] = some (false, visited)
scan_dependencies status visited (dependency ∷ rest) = elim (status visited dependency) [
  | none ↦ none
  | some (dep_status, visited') ↦ elim (is_passing dep_status) [
    | true ↦ scan_dependencies status visited' rest
    | false ↦ some (true, visited')
  ]
]

-- What is returned for a target once its dependencies have been looked at.
abbrev pub own_status : ValidationTarget → ValidationStatus
own_status target = if ltb 0 target.stale_file_count then stale else target.last_result

abbrev pub settle :
    ValidationTarget → Option (Bool × List Text) → Option (ValidationStatus × List Text)
settle target none = none
settle target (some (true, visited)) = some (stale, visited)
settle target (some (false, visited)) = some (own_status target, visited)

-- effective_status with its set of visited names, on fuel.
unfoldable pub effective : ℕ → Targets → List Text → Text → Option (ValidationStatus × List Text)
unfolding contains scan_dependencies
effective zero targets visited name = none
effective (suc fuel) targets visited name = elim (contains name visited) [
  | true ↦ some (stale, visited)
  | false ↦ elim (get targets name) [
    | none ↦ some (unknown, name ∷ visited)
    | some target ↦
        settle target
          (scan_dependencies (effective fuel targets) (name ∷ visited) target.depends_on)
  ]
]

abbrev status_of : Option (ValidationStatus × List Text) → Option ValidationStatus
status_of none = none
status_of (some (s, visited)) = some s

-- effective_status: one level of fuel for each target, and two more.
unfoldable pub effective_status : Targets → Text → Option ValidationStatus
effective_status targets name = status_of (effective (length targets + 2) targets [] name)
