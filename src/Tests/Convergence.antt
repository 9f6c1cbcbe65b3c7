-- ===== src/Tests/Convergence.antt =====
-- Repeated validations of src/thorn/core/_validation_convergence.py at samples.
use thorn.Prelude.Json.{Json, field, lookup, no_field, object, text}
use thorn.Prelude.{
  Bool, List, Option, Text, [], all, any, bool_eq, codes, contains, false, is_empty, leb, list_beq,
  list_eq, nat_eq, none, option_eq, pair_eq, refl, some, starts_with, true, ℕ, ◌&&◌, ◌↔◌, ◌∷◌, ◌≡◌,
}
use thorn.Errors.{err, index_error, ok}
use thorn.Core.Convergence.Identity.{
  ValidationIdentity, ValidationOutcome, ValidationRunner, action_epoch_v1, edit_file, failed,
  identity_eq, native_material_mutation, outcome_eq, pytest, ruff_check, runner_eq, scope_eq,
  succeeded, targeted, workspace,
}
use thorn.Core.Convergence.Tracker.{ValidationConvergenceTelemetry, fresh, observe}
use thorn.Core.Convergence.History.{
  Event, acted, actions, effect_of, expected_decision, last_outcome, observe-history, tracker_after,
  validated,
}
use thorn.Core.Convergence.Content.{
  WorkspaceContentSnapshot, fresh_content, known, observe_v2, path_limit, unknown_snapshot,
}
use thorn.Core.Convergence.Content.Simulation.{action_verdicts, verdicts, verdicts-action_verdicts}
use thorn.Core.Convergence.Command.Arguments.{
  ambiguous_shell_syntax, before_equals, drop_first, drop_last_dot, first_is,
  normalize_runner_arguments, recognized_runner, scope_by_targets, validation_scope,
}
use thorn.Core.Convergence.Command.Parse.{
  command_fields, identify, is_environment_assignment, is_python, normalize_working_directory,
  parse_argv, parse_shell_tool_arguments, parse_stripped, parse_validation_command,
  strip_environment_assignments, strip_runner_wrapper,
}
use thorn.Core.Convergence.Command.Recognition.{leaves_files, parse-leaves_files, parse-raises}

abbrev digest : ValidationRunner → List Text → Option Text → Text
digest runner arguments directory = []

abbrev all_tests : ValidationIdentity
all_tests = record { runner = pytest; arguments = []; working_directory = none; scope = workspace }

abbrev one_test : ValidationIdentity
one_test = record all_tests { arguments = codes "tests/a.py" ∷ []; scope = targeted }

-- An edit, a failing test, and the whole suite failing; the newest first.
abbrev past : List Event
past =
    validated all_tests failed (codes "3") (codes "r") action_epoch_v1
    ∷ validated one_test failed (codes "2") (codes "r") action_epoch_v1
    ∷ acted (codes "1") (codes "r") native_material_mutation edit_file
    ∷ []

abbrev told : ValidationConvergenceTelemetry
told =
    (observe digest (tracker_after digest past) one_test succeeded (codes "4") (codes "r")
      action_epoch_v1).1

observe-history_example :
    (told.decision ≡ expected_decision past one_test succeeded)
    × (told.progress_effect ≡ effect_of (expected_decision past one_test succeeded))
    × (told.prior_outcome ≡ last_outcome past one_test)
    × (told.workspace_action_epoch ≡ actions past)
observe-history_example =
    observe-history digest past one_test succeeded (codes "4") (codes "r") action_epoch_v1

-- The same content twice, none, and another content.
abbrev steps : List (ValidationIdentity × ValidationOutcome × WorkspaceContentSnapshot)
steps =
    (all_tests, failed, known (codes "aa") 2 10)
    ∷ (all_tests, failed, known (codes "aa") 2 10)
    ∷ (all_tests, failed, unknown_snapshot path_limit)
    ∷ (all_tests, failed, known (codes "bb") 2 11)
    ∷ []

verdicts-action_verdicts_example :
    verdicts digest (codes "c") (codes "r") observe_v2 action_epoch_v1 fresh_content steps
    ≡ action_verdicts digest (codes "c") (codes "r") observe_v2 action_epoch_v1 none fresh steps
verdicts-action_verdicts_example =
    verdicts-action_verdicts digest (codes "c") (codes "r") observe_v2 action_epoch_v1 fresh_content
      steps

abbrev same : Text → Text
same t = t

abbrev is_letter : ℕ → Bool
is_letter c = leb 65 c

abbrev is_figure : ℕ → Bool
is_figure c = leb 48 c && leb c 57

abbrev given : Text → Text → Option Json
given command t = some (object (field (codes "command") (text command) no_field))

-- A command that only assigns a variable.
abbrev one_word : Text → Option (List Text)
one_word t = some (t ∷ [])

assigning :
    parse_shell_tool_arguments (given (codes "FOO=1")) (codes "{}") ≡ some (codes "FOO=1", none)
unfolding parse_shell_tool_arguments command_fields lookup is_empty list_beq
assigning = refl

plain : any (λ c. contains c ambiguous_shell_syntax) (codes "FOO=1") ≡ false
unfolding contains
plain = refl

parse-raises_example :
    (parse_validation_command
        (given (codes "FOO=1"))
        one_word
        same
        same
        is_letter
        is_figure
        (codes "{}")
      ≡ err index_error)
    ↔ (all (is_environment_assignment is_letter is_figure) (codes "FOO=1" ∷ []) ≡ true)
parse-raises_example =
    parse-raises (given (codes "FOO=1")) one_word same same is_letter is_figure (codes "{}")
      (codes "FOO=1") none (codes "FOO=1") [] assigning plain refl

abbrev ruff_words : Text → Option (List Text)
ruff_words t = some (codes "ruff" ∷ codes "check" ∷ codes "--preview" ∷ codes "." ∷ [])

abbrev ruff_identity : ValidationIdentity
ruff_identity = record {
  runner = ruff_check;
  arguments = codes "--preview" ∷ [];
  working_directory = none;
  scope = workspace;
}

ruff_parses :
    parse_validation_command
      (given (codes "ruff check --preview ."))
      ruff_words
      same
      same
      is_letter
      is_figure
      (codes "{}")
    ≡ ok (some ruff_identity)
unfolding parse_validation_command parse_shell_tool_arguments command_fields lookup is_empty
    list_beq contains parse_argv parse_stripped strip_environment_assignments
    is_environment_assignment before_equals strip_runner_wrapper recognized_runner first_is
    drop_first identify normalize_runner_arguments drop_last_dot validation_scope scope_by_targets
    normalize_working_directory starts_with is_python
ruff_parses = refl

parse-leaves_files_example : leaves_files ruff_check (codes "--preview" ∷ []) ≡ true
parse-leaves_files_example =
    parse-leaves_files (given (codes "ruff check --preview .")) ruff_words same same is_letter
      is_figure (codes "{}") ruff_identity ruff_parses
