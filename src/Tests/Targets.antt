-- ===== src/Tests/Targets.antt =====
-- Validation targets of src/thorn/core/_validation_tracker.py at samples.
use thorn.Prelude.Dict
use thorn.Prelude.{
  ==_iff, List, Text, [], codes, contains, false, list_beq, list_eq, nat_eq, none, option_eq, refl,
  some, ◌==◌, ◌↔◌, ◌∷◌, ◌≡◌,
}
use thorn.Core.ValidationTracker.{
  FileSnapshot, Targets, ValidationStatus, ValidationTarget, effective, effective_status, failing,
  passing, record_result, refresh, scan_dependencies,
}
use thorn.Core.ValidationTracker.Passing.{DependsOn, effective_status-passing, itself, through}
use thorn.Core.ValidationTracker.Fuel.{effective_status-returns}
use thorn.Core.ValidationTracker.Staleness.{refresh-record_result}

abbrev tests : ValidationTarget
tests = record {
  name = codes "tests";
  file_patterns = [];
  depends_on = codes "build" ∷ [];
  last_result = passing;
  last_summary = none;
  baseline = none;
  stale_file_count = 0;
}

abbrev build : ValidationTarget
build = record tests { name = codes "build"; depends_on = [] }

abbrev targets : Targets
targets = (codes "tests", tests) ∷ (codes "build", build) ∷ []

all_pass : effective_status targets (codes "tests") ≡ some passing
unfolding effective_status effective scan_dependencies contains Dict.get thorn.Prelude.list_beq
all_pass = refl

needs_build : DependsOn targets (codes "tests") (codes "build")
unfolding contains Dict.get thorn.Prelude.list_beq
needs_build =
    through (codes "tests") (codes "build") (codes "build") tests refl refl (itself (codes "build"))

effective_status-passing_example :
    (target : ValidationTarget) × (Dict.get targets (codes "build") ≡ some target)
    × (target.last_result ≡ passing)
    × (target.stale_file_count ≡ 0)
effective_status-passing_example =
    effective_status-passing targets (codes "tests") (codes "build") all_pass needs_build

abbrev looping : Targets
looping = (codes "tests", record tests { depends_on = codes "tests" ∷ [] }) ∷ []

effective_status-returns_example :
    (s : ValidationStatus) × (effective_status looping (codes "tests") ≡ some s)
effective_status-returns_example = effective_status-returns looping (codes "tests")

abbrev before : FileSnapshot
before = (codes "a.py", codes "11") ∷ (codes "b.py", codes "22") ∷ []

abbrev scan : List Text → FileSnapshot
scan patterns = before

abbrev recorded : Targets
recorded = record_result scan targets (codes "build") false (some (codes "2 errors"))

known : Dict.get targets (codes "build") ≡ some build
unfolding Dict.get thorn.Prelude.list_beq
known = refl

apart : (codes "build" == codes "tests") ≡ false
unfolding thorn.Prelude.list_beq
apart = refl

refresh-record_result_example :
    (Dict.get (refresh scan recorded) (codes "build")
      ≡ some (record build {
        last_result = failing;
        last_summary = some (codes "2 errors");
        baseline = some before;
        stale_file_count = 0;
      }))
    × (Dict.get (refresh scan recorded) (codes "tests")
        ≡ Dict.get (refresh scan targets) (codes "tests"))
refresh-record_result_example =
    refresh-record_result scan targets (codes "build") (codes "tests") build false
      (some (codes "2 errors")) known apart
