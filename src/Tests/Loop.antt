-- ===== src/Tests/Loop.antt =====
-- Rounds and guards of src/thorn/core/_loop.py at samples.
use thorn.Prelude.Json.{field, lookup, no_field, object, text}
use thorn.Prelude.{
  Option, Text, [], arith, bool_eq, codes, contains, false, if◌then◌else◌, is_empty, leb, list_beq,
  list_eq, nat_beq, nat_eq, none, not, option_eq, pair_eq, refl, some, starts_with, true, ℕ, ◌&&◌,
  ◌+◌, ◌-◌, ◌/◌, ◌∷◌, ◌≡◌,
}
use thorn.Errors.{ok}
use thorn.Core.Convergence.Identity.{
  ValidationIdentity, failed, identity_eq, outcome_eq, pytest, runner_eq, scope_eq, targeted,
}
use thorn.Core.Convergence.Tracker.{fresh}
use thorn.Core.Convergence.Content.{fresh_content}
use thorn.Core.Convergence.Command.Arguments.{
  before_equals, bundled_flags, drop_last_dot, is_presentation, normalize_runner_arguments,
  pytest_scope, pytest_scope_loop, recognized_runner, validation_scope,
}
use thorn.Core.Convergence.Command.Parse.{
  command_fields, drop, ends_exit_code, has_exit_code_prefix, identify, is_environment_assignment,
  is_python, normalize_working_directory, parse_argv, parse_shell_tool_arguments, parse_stripped,
  parse_validation_command, skip_digits, strip_environment_assignments, strip_runner_wrapper,
  validation_outcome_from_tool_result,
}
use thorn.Core.ShellInspection.Words.{has_shell_control, safe_tokens}
use thorn.Core.ShellInspection.Command.{inspect, inspect_tokens, parse_shell_inspection_command}
use thorn.Core.Loop.Round.{
  External, ToolCall, normalize_tool_name, parse_tool_arguments, resource_access_for_tool_call,
  shell_inspection_for_tool_arguments, shell_tool, tool_call_is_observation,
}
use thorn.Core.Loop.Progress.{RoundProgress, Trackers, is_decimal, parsed_validation, progress}
use thorn.Core.Loop.Guard.{fresh_guard, guard_round}
use thorn.Core.Loop.Stretch.{guard_after, guard_round-stretch, stretch}
use thorn.Core.Loop.Repetition.{LoopRound, repetition_after, repetition_round, with_tools}
use thorn.Core.Loop.Repetition.Alike.{alike_run, has_success, repetition_round-repeats}
use thorn.Core.Loop.Repeats.{loop_rounds, loop_rounds-raises}

abbrev idle : RoundProgress
idle = progress false (codes "read/search-only round") (codes "read_file:ok") [] []

guard_round-stretch_example :
    ((guard_round 4 (guard_after 4 (idle ∷ [])) idle).raised
      ≡ (leb 1 4 && leb 4 (stretch (idle ∷ idle ∷ []))))
    × ((guard_round 4 (guard_after 4 (idle ∷ [])) idle).warned
        ≡ (leb 2 4 && nat_beq (stretch (idle ∷ idle ∷ [])) ((4 + 1) / 2)))
guard_round-stretch_example = guard_round-stretch 4 (idle ∷ []) idle

abbrev shell_call : ToolCall
shell_call = record { call_id = codes "1"; name = codes "run_shell"; arguments = codes "{}" }

abbrev refused : LoopRound
refused =
    with_tools [] (shell_call ∷ [])
      (record { call_id = codes "1"; content = codes "denied"; is_error = true } ∷ [])

abbrev verbatim : Text → Option Text
verbatim t = none

repetition_round-repeats_example :
    (repetition_round verbatim 3 (repetition_after verbatim 3 (refused ∷ refused ∷ [])) refused).1
    ≡ (not (has_success verbatim refused)
        && leb 3 (alike_run verbatim refused (refused ∷ refused ∷ refused ∷ [])))
repetition_round-repeats_example =
    repetition_round-repeats verbatim 3 (refused ∷ refused ∷ []) refused

-- Every command is `pytest tests`.
abbrev env : External
env = record {
  load = λ t. some (object (field (codes "command") (text (codes "pytest tests")) no_field));
  split = λ t. some (codes "pytest" ∷ codes "tests" ∷ []);
  program_name = λ t. t;
  normal_path = λ t. t;
  is_alnum = λ c. leb 65 c;
  is_digit = λ c. leb 48 c && leb c 57;
  digit_value = λ c. if leb 48 c && leb c 57 then some (c - 48) else none;
  lower = λ t. t;
  to_str = λ v. [];
  fingerprint = λ runner arguments directory. [];
}

abbrev tests : ValidationIdentity
tests = record {
  runner = pytest;
  arguments = codes "tests" ∷ [];
  working_directory = none;
  scope = targeted;
}

named : normalize_tool_name env shell_call.name ≡ shell_tool
unfolding normalize_tool_name
named = refl

parses : parsed_validation env shell_call.arguments ≡ ok (some tests)
unfolding parse_validation_command parse_shell_tool_arguments command_fields lookup is_empty
    list_beq contains parse_argv parse_stripped strip_environment_assignments
    is_environment_assignment before_equals strip_runner_wrapper recognized_runner identify
    normalize_runner_arguments drop_last_dot validation_scope pytest_scope pytest_scope_loop
    normalize_working_directory starts_with is_presentation bundled_flags is_python
parses = refl

abbrev output : Text
output = codes "[exit code 1]\nfailed"

fails : validation_outcome_from_tool_result (is_decimal env) output false ≡ failed
unfolding validation_outcome_from_tool_result has_exit_code_prefix skip_digits ends_exit_code drop
    starts_with
fails = refl

blind : tool_call_is_observation env shell_call ≡ ok false
unfolding tool_call_is_observation normalize_tool_name parse_tool_arguments
    shell_inspection_for_tool_arguments lookup is_empty list_beq contains
    parse_shell_inspection_command inspect_tokens inspect safe_tokens has_shell_control
blind = refl

unused : resource_access_for_tool_call env shell_call ≡ ok none
unfolding resource_access_for_tool_call normalize_tool_name parse_tool_arguments
    shell_inspection_for_tool_arguments lookup is_empty list_beq contains
    parse_shell_inspection_command inspect_tokens inspect safe_tokens has_shell_control
unused = refl

abbrev start : Trackers
start = record { action = fresh; content = fresh_content }

abbrev unchanged : Option ℕ × Option ℕ
unchanged = (some 1, none)

loop_rounds-raises_example :
    loop_rounds env [] (codes "r") shell_call output unchanged 3 4 start fresh_guard ≡ ok true
loop_rounds-raises_example =
    loop_rounds-raises env [] (codes "r") shell_call output unchanged 3 tests failed named parses
      fails refl blind unused start fresh_guard (omega arith)
