-- ===== src/Core/Convergence/Command/Parse.antt =====
-- parse_validation_command and validation_outcome_from_tool_result of
-- src/thorn/core/_validation_convergence.py. json.loads, shlex.split, PurePath and the Unicode tables
-- of isalnum, isdigit and `\d` are parameters.
use mathlib.Core.Option
use thorn.Prelude.Json.{Fields, Json, lookup, null, object, text}
use thorn.Prelude.{
  Bool, List, Option, Text, [], all, any, codes, contains, false, if◌then◌else◌, is_empty, length,
  list_eq, nat_beq, nat_eq, none, not, option_eq, some, starts_with, suc, true, zero, ℕ, ◌&&◌, ◌==◌,
  ◌||◌, ◌∷◌,
}
use thorn.Errors.{Result, err, index_error, ok}
use thorn.Core.Convergence.Identity.{
  ValidationIdentity, ValidationOutcome, ValidationRunner, failed, identity_eq, indeterminate,
  outcome_eq, runner_eq, scope_eq, succeeded,
}
use thorn.Core.Convergence.Command.Arguments.{
  ambiguous_shell_syntax, before_equals, letter_for_underscore, normalize_runner_arguments,
  recognized_runner, validation_scope,
}

module _ (is_alnum is_digit : ℕ → Bool) where
  -- bool(name) and name.replace("_", "a").isalnum() and not name[0].isdigit()
  unfoldable pub is_environment_name : Text → Bool
  is_environment_name [] = false
  is_environment_name (c ∷ name) =
      all (λ d. is_alnum (letter_for_underscore d)) (c ∷ name) && not (is_digit c)

  unfoldable pub is_environment_assignment : Text → Bool
  is_environment_assignment argument = elim (before_equals argument) [
    | none ↦ false
    | some name ↦ is_environment_name name
  ]

  unfoldable pub strip_environment_assignments : List Text → List Text
  strip_environment_assignments [] = []
  strip_environment_assignments (a ∷ rest) =
      let stripped = strip_environment_assignments rest in
      if is_environment_assignment a then stripped else a ∷ rest

module _ (program_name : Text → Text) where
  -- program_name is PurePath(..).name.lower()
  unfoldable pub is_python : Text → Bool
  is_python executable =
      (executable == codes "python")
      || (executable == codes "python3")
      || (executable == codes "python.exe")

  -- Of no arguments at all the source raises IndexError; its caller then fails: none.
  unfoldable pub strip_runner_wrapper : List Text → Option (List Text)
  strip_runner_wrapper [] = none
  strip_runner_wrapper (a ∷ []) = some (a ∷ [])
  strip_runner_wrapper (a ∷ b ∷ rest) =
      if program_name a == codes "uv" && b == codes "run"
      then some rest
      else if not (rest == []) && is_python (program_name a) && b == codes "-m"
      then some rest
      else some (a ∷ b ∷ rest)

module _ (normal_path : Text → Text) where
  -- normal_path is str(PurePath(..)).
  unfoldable pub normalize_working_directory : Option Text → Option Text
  normalize_working_directory none = none
  normalize_working_directory (some directory) =
      if is_empty directory || directory == codes "." then none else some (normal_path directory)

  -- What the recognized runner and its arguments identify.
  unfoldable pub identify : Option Text → ValidationRunner × List Text → ValidationIdentity
  identify directory (runner, arguments) =
      let normalized = normalize_runner_arguments runner arguments in
      record {
        runner = runner;
        arguments = normalized;
        working_directory = normalize_working_directory directory;
        scope = validation_scope runner normalized;
      }

-- working_directory is not None and not isinstance(working_directory, str): the outer none
abbrev directory_of : Option Json → Option (Option Text)
directory_of none = some none
directory_of (some null) = some none
directory_of (some (text t)) = some (some t)
directory_of (some _) = none

unfoldable pub command_fields : Fields → Option (Text × Option Text)
command_fields fields = elim (lookup fields (codes "command")) [
  | some (text command) ↦ elim (directory_of (lookup fields (codes "working_directory"))) [
    | some directory ↦ some (command, directory)
    | none ↦ none
  ]
  | _ ↦ none
]

module _ (load : Text → Option Json) where
  -- load is none where json.loads raises.
  unfoldable pub parse_shell_tool_arguments : Text → Option (Text × Option Text)
  parse_shell_tool_arguments arguments =
      if is_empty arguments
      then none
      else elim (load arguments) [ some (object fields) ↦ command_fields fields | _ ↦ none ]

module _ (program_name normal_path : Text → Text) (is_alnum is_digit : ℕ → Bool) where
  -- What is left of the words once the assignments and the wrapper are stripped.
  unfoldable pub parse_stripped :
      Option Text → Option (List Text) → Result (Option ValidationIdentity)
  parse_stripped directory none = err index_error
  parse_stripped directory (some []) = ok none
  parse_stripped directory (some (executable ∷ arguments)) = ok (
      Option.map (identify normal_path directory)
        (recognized_runner (program_name executable) arguments))

  -- What shlex.split gives: none where it raises ValueError.
  unfoldable pub parse_argv : Option Text → Option (List Text) → Result (Option ValidationIdentity)
  parse_argv directory none = ok none
  parse_argv directory (some []) = ok none
  parse_argv directory (some (word ∷ words)) = parse_stripped directory (
      strip_runner_wrapper program_name
        (strip_environment_assignments is_alnum is_digit (word ∷ words)))

module _ (load : Text → Option Json) (split : Text → Option (List Text))
    (program_name normal_path : Text → Text) (is_alnum is_digit : ℕ → Bool) where
  -- The error is IndexError, which the source does not catch.
  unfoldable pub parse_validation_command : Text → Result (Option ValidationIdentity)
  unfolding contains
  parse_validation_command arguments = elim (parse_shell_tool_arguments load arguments) [
    | none ↦ ok none
    | some (command, directory) ↦
        if any (λ c. contains c ambiguous_shell_syntax) command
        then ok none
        else parse_argv program_name normal_path is_alnum is_digit directory (split command)
  ]

-- The text after as many digits as there are, and whether there was one.
unfoldable pub skip_digits : (ℕ → Bool) → Text → Bool × Text
skip_digits is_decimal [] = (false, [])
skip_digits is_decimal (c ∷ t) = elim (is_decimal c) [
  | true ↦ (true, (skip_digits is_decimal t).1)
  | false ↦ (false, c ∷ t)
]

-- What follows the number: `]`, then a newline or the end.
unfoldable pub ends_exit_code : Bool × Text → Bool
ends_exit_code (true, c ∷ []) = nat_beq c 93
ends_exit_code (true, c ∷ d ∷ rest) = nat_beq c 93 && nat_beq d 10
ends_exit_code _ = false

-- text[n:]
unfoldable pub drop : ℕ → Text → Text
drop zero t = t
drop (suc n) [] = []
drop (suc n) (c ∷ t) = drop n t

-- _EXIT_CODE_PREFIX.match; is_decimal is `\d`.
unfoldable pub has_exit_code_prefix : (ℕ → Bool) → Text → Bool
has_exit_code_prefix is_decimal content =
    let rest = drop (length (codes "[exit code ")) content in
    starts_with content (codes "[exit code ")
    && ends_exit_code
        (skip_digits is_decimal (if starts_with rest (codes "-") then drop 1 rest else rest))

unfoldable pub validation_outcome_from_tool_result : (ℕ → Bool) → Text → Bool → ValidationOutcome
validation_outcome_from_tool_result is_decimal content tool_reported_error =
    if tool_reported_error || starts_with content (codes "[timed out after ")
    then indeterminate
    else if has_exit_code_prefix is_decimal content
    then failed
    else succeeded
