-- ===== src/Core/Convergence/Command/Recognition.antt =====
-- What src/thorn/core/_validation_convergence.py recognizes as a validation, and where its parser raises.
use mathlib.Core.Option
use thorn.Prelude.{
  ==_iff, Bool, Bool-cases, List, Option, Option-cases, Text, [], all, any, arith, codes, contains,
  false, inl, inr, list_beq, list_eq, nat_eq, none, not, option_eq, refl, some, true, ℕ, ◌&&◌, ◌==◌,
  ◌↔◌, ◌∷◌, ◌≡◌,
}
use thorn.Errors.{Result, err, index_error, ok}
use thorn.Prelude.Json.{Json}
use thorn.Core.Convergence.Identity.{
  ValidationIdentity, ValidationRunner, cargo_test, go_test, identity_eq, mypy, npm_test,
  outcome_eq, pnpm_test, pyright, pytest, ruff_check, ruff_format_check, runner_eq, scope_eq,
  yarn_test,
}
use thorn.Core.Convergence.Command.Arguments.{
  ambiguous_shell_syntax, drop_first, drop_last_dot, first_is, normalize_runner_arguments,
  package_runner, package_test, recognized_runner,
}
use thorn.Core.Convergence.Command.Parse.{
  identify, is_environment_assignment, parse_argv, parse_shell_tool_arguments, parse_stripped,
  parse_validation_command, strip_environment_assignments, strip_runner_wrapper,
}

abbrev pub fix : Text
fix = codes "--fix"

abbrev pub fix_only : Text
fix_only = codes "--fix-only"

abbrev pub check_only : Text
check_only = codes "--check"

-- The ruff commands that write files are a check with a fix and a format without a check.
abbrev pub leaves_files : ValidationRunner → List Text → Bool
leaves_files ruff_check arguments =
    not (contains fix arguments) && not (contains fix_only arguments)
leaves_files ruff_format_check arguments = contains check_only arguments
leaves_files _ arguments = true

contains-drop_last_dot :
    (x : Text) (xs : List Text)
    → (codes "." == x) ≡ false
    → contains x (drop_last_dot xs) ≡ contains x xs
unfolding contains drop_last_dot
contains-drop_last_dot x [] h = refl
contains-drop_last_dot x (a ∷ []) h = elim (Bool-cases (a == codes ".")) [
  | inl dot ↦ rw (dot, (==_iff a (codes ".")).0 dot, h) refl
  | inr other ↦ rw (other) refl
]
contains-drop_last_dot x (a ∷ b ∷ xs) h = rw (contains-drop_last_dot x (b ∷ xs) h) refl

drop_first-contains :
    (x y : Text) (arguments : List Text)
    → (y == x) ≡ false
    → first_is y arguments ≡ true
    → contains x (drop_first arguments) ≡ contains x arguments
unfolding contains drop_first first_is
drop_first-contains x y [] other h = refl
drop_first-contains x y (a ∷ rest) other h = rw ((==_iff a y).0 h, other) refl

recognized-leaves_files :
    (executable : Text) (arguments : List Text) (r : ValidationRunner) (rest : List Text)
    → recognized_runner executable arguments ≡ some (r, rest)
    → leaves_files r rest ≡ true
unfolding recognized_runner package_runner package_test list_beq
recognized-leaves_files executable arguments r rest h = ground (
  arith,
  h,
  drop_first-contains fix (codes "check") arguments refl,
  drop_first-contains fix_only (codes "check") arguments refl,
  drop_first-contains check_only (codes "format") arguments refl,
)

normalized-leaves_files :
    (r : ValidationRunner) (arguments : List Text)
    → leaves_files r arguments ≡ true
    → leaves_files r (normalize_runner_arguments r arguments) ≡ true
unfolding normalize_runner_arguments list_beq
normalized-leaves_files ruff_check arguments h =
    rw (contains-drop_last_dot fix arguments refl, contains-drop_last_dot fix_only arguments refl) h
normalized-leaves_files ruff_format_check arguments h =
    rw (contains-drop_last_dot check_only arguments refl) h
normalized-leaves_files pytest arguments h = refl
normalized-leaves_files mypy arguments h = refl
normalized-leaves_files pyright arguments h = refl
normalized-leaves_files npm_test arguments h = refl
normalized-leaves_files pnpm_test arguments h = refl
normalized-leaves_files yarn_test arguments h = refl
normalized-leaves_files cargo_test arguments h = refl
normalized-leaves_files go_test arguments h = refl

-- strip_runner_wrapper raises of no words alone.
strip_runner_wrapper-missing :
    (program_name : Text → Text) (argv : List Text)
    → (strip_runner_wrapper program_name argv ≡ none) ↔ (argv ≡ [])
unfolding strip_runner_wrapper
strip_runner_wrapper-missing program_name [] = ground arith
strip_runner_wrapper-missing program_name (a ∷ []) = ground arith
strip_runner_wrapper-missing program_name (a ∷ b ∷ rest) = ground arith

all_assigned :
    (is_alnum is_digit : ℕ → Bool) (argv : List Text)
    → (strip_environment_assignments is_alnum is_digit argv ≡ [])
      ↔ (all (is_environment_assignment is_alnum is_digit) argv ≡ true)
unfolding strip_environment_assignments
all_assigned is_alnum is_digit [] = (λ h. refl, λ h. refl)
all_assigned is_alnum is_digit (a ∷ rest) = ground (arith, all_assigned is_alnum is_digit rest)

module _ (program_name normal_path : Text → Text) (is_alnum is_digit : ℕ → Bool) where
  argv-raises :
      (directory : Option Text) (word : Text) (words : List Text)
      → (parse_argv program_name normal_path is_alnum is_digit directory (some (word ∷ words))
          ≡ err index_error)
        ↔ (all (is_environment_assignment is_alnum is_digit) (word ∷ words) ≡ true)
  unfolding parse_argv parse_stripped
  argv-raises directory word words = ground (
    arith,
    all_assigned is_alnum is_digit (word ∷ words),
    strip_runner_wrapper-missing program_name
        (strip_environment_assignments is_alnum is_digit (word ∷ words)),
  )

  mapped-leaves_files :
      (directory : Option Text) (o : Option (ValidationRunner × List Text)) (i : ValidationIdentity)
      → ((r : ValidationRunner) (rest : List Text)
          → o ≡ some (r, rest)
          → leaves_files r rest ≡ true)
      → Option.map (identify normal_path directory) o ≡ some i
      → leaves_files i.runner i.arguments ≡ true
  unfolding identify
  mapped-leaves_files directory none i kept h = cc
  mapped-leaves_files directory (some (r, rest)) i kept h =
      ground (arith, h, normalized-leaves_files r rest (kept r rest refl))

  stripped-leaves_files :
      (directory : Option Text) (words : Option (List Text)) (i : ValidationIdentity)
      → parse_stripped program_name normal_path is_alnum is_digit directory words ≡ ok (some i)
      → leaves_files i.runner i.arguments ≡ true
  unfolding parse_stripped
  stripped-leaves_files directory none i h = cc
  stripped-leaves_files directory (some []) i h = cc
  stripped-leaves_files directory (some (executable ∷ arguments)) i h =
      mapped-leaves_files directory (recognized_runner (program_name executable) arguments) i
        (recognized-leaves_files (program_name executable) arguments) cc

  argv-leaves_files :
      (directory : Option Text) (argv : Option (List Text)) (i : ValidationIdentity)
      → parse_argv program_name normal_path is_alnum is_digit directory argv ≡ ok (some i)
      → leaves_files i.runner i.arguments ≡ true
  unfolding parse_argv
  argv-leaves_files directory none i h = cc
  argv-leaves_files directory (some []) i h = cc
  argv-leaves_files directory (some (word ∷ words)) i h =
      stripped-leaves_files directory
        (strip_runner_wrapper program_name
          (strip_environment_assignments is_alnum is_digit (word ∷ words)))
        i h

module _ (load : Text → Option Json) (split : Text → Option (List Text))
    (program_name normal_path : Text → Text) (is_alnum is_digit : ℕ → Bool) where
  abbrev parsed : Text → Result (Option ValidationIdentity)
  parsed = parse_validation_command load split program_name normal_path is_alnum is_digit

  -- On an unambiguous command that shlex splits into at least one word, parsing raises IndexError
  -- exactly if every word is an assignment to an environment variable.
  pub parse-raises :
      (arguments command : Text) (directory : Option Text) (word : Text) (words : List Text)
      → parse_shell_tool_arguments load arguments ≡ some (command, directory)
      → any (λ c. contains c ambiguous_shell_syntax) command ≡ false
      → split command ≡ some (word ∷ words)
      → (parsed arguments ≡ err index_error)
        ↔ (all (is_environment_assignment is_alnum is_digit) (word ∷ words) ≡ true)
  unfolding parse_validation_command
  parse-raises arguments command directory word words fields plain splits =
      rw (parse_validation_command, fields, plain, splits)
        (argv-raises program_name normal_path is_alnum is_digit directory word words)

  -- A recognized ruff check has neither of the arguments that make it fix files, and a recognized
  -- ruff format has the one that keeps it from writing them.
  pub parse-leaves_files :
      (arguments : Text) (i : ValidationIdentity)
      → parsed arguments ≡ ok (some i)
      → leaves_files i.runner i.arguments ≡ true
  unfolding parse_validation_command
  parse-leaves_files arguments i h =
      elim (Option-cases (parse_shell_tool_arguments load arguments)) [
        | inl missing ↦ ground (arith, h, missing)
        | inr ((command, directory), found) ↦
            elim (Bool-cases (any (λ c. contains c ambiguous_shell_syntax) command)) [
              | inl vague ↦ ground (arith, h, found, vague)
              | inr plain ↦
                  argv-leaves_files program_name normal_path is_alnum is_digit directory
                    (split command) i (ground (arith, h, found, plain))
            ]
      ]
