-- ===== src/Core/Convergence/Command/Arguments.antt =====
-- What a validation command's arguments mean: recognition, normalisation and scope of
-- src/thorn/core/_validation_convergence.py.
use thorn.Prelude.{
  Bool, List, Option, Text, [], all, codes, contains, false, if◌then◌else◌, keep, list_eq, nat_beq,
  nat_eq, none, not, option_eq, some, starts_with, true, ℕ, ◌&&◌, ◌==◌, ◌||◌, ◌∷◌,
}
use thorn.Core.Convergence.Identity.{
  ValidationRunner, ValidationScope, cargo_test, go_test, identity_eq, mypy, npm_test, outcome_eq,
  pnpm_test, pyright, pytest, ruff_check, ruff_format_check, runner_eq, scope_eq, targeted,
  workspace, yarn_test,
}

-- _AMBIGUOUS_SHELL_SYNTAX
abbrev pub ambiguous_shell_syntax : Text
ambiguous_shell_syntax = codes "$`|&;()<>\n\r\0#*?[]{}~"

abbrev pub pytest_presentation_arguments : List Text
pytest_presentation_arguments =
    codes "-q" ∷ codes "--quiet" ∷ codes "-v" ∷ codes "--verbose" ∷ codes "--disable-warnings" ∷ []

abbrev pub pytest_selection_options_with_values : List Text
pytest_selection_options_with_values =
    codes "-k" ∷ codes "-m" ∷ codes "--deselect" ∷ codes "--ignore" ∷ codes "--ignore-glob" ∷ []

abbrev pub pytest_options_with_values : List Text
pytest_options_with_values =
    codes "--basetemp"
    ∷ codes "--confcutdir"
    ∷ codes "--override-ini"
    ∷ codes "--rootdir"
    ∷ codes "-o"
    ∷ []

-- argument.startswith("-")
abbrev pub is_option : Text → Bool
is_option argument = starts_with argument (codes "-")

-- The text before the first `=`: none if there is no `=`.
unfoldable pub before_equals : Text → Option Text
before_equals [] = none
before_equals (c ∷ t) =
    let rest = before_equals t in
    if nat_beq c 61 then some [] else elim rest [ none ↦ none | some name ↦ some (c ∷ name) ]

-- name.replace("_", "a"), one character
abbrev pub letter_for_underscore : ℕ → ℕ
letter_for_underscore c = if nat_beq c 95 then 97 else c

-- re.fullmatch(r"-[qv]{2}", argument)
abbrev pub is_q_or_v : ℕ → Bool
is_q_or_v c = nat_beq c 113 || nat_beq c 118

unfoldable pub bundled_flags : Text → Bool
bundled_flags (d ∷ a ∷ b ∷ rest) = nat_beq d 45 && all is_q_or_v (a ∷ b ∷ rest)
bundled_flags _ = false

unfoldable pub is_presentation : Text → Bool
unfolding contains bundled_flags
is_presentation argument =
    contains argument pytest_presentation_arguments
    || bundled_flags argument
    || starts_with argument (codes "--color=")
    || starts_with argument (codes "--tb=")

-- arguments[:1] == [word], and arguments[1:]
unfoldable pub first_is : Text → List Text → Bool
first_is word [] = false
first_is word (a ∷ rest) = a == word

unfoldable pub drop_first : List Text → List Text
drop_first [] = []
drop_first (a ∷ rest) = rest

-- The three package managers, by their names.
unfoldable pub package_runner : Text → Option ValidationRunner
package_runner executable =
    if executable == codes "npm"
    then some npm_test
    else if executable == codes "pnpm"
    then some pnpm_test
    else if executable == codes "yarn"
    then some yarn_test
    else none

unfoldable pub package_test : ValidationRunner → List Text → Option (ValidationRunner × List Text)
package_test runner remaining =
    if first_is (codes "test") remaining then some (runner, drop_first remaining) else none

unfoldable pub recognized_runner : Text → List Text → Option (ValidationRunner × List Text)
unfolding contains
recognized_runner executable arguments =
    if executable == codes "pytest"
    then some (pytest, arguments)
    else if executable == codes "ruff" && first_is (codes "check") arguments
    then if contains (codes "--fix") arguments || contains (codes "--fix-only") arguments
      then none
      else some (ruff_check, drop_first arguments)
    else if executable == codes "ruff" && first_is (codes "format") arguments
    then if not (contains (codes "--check") arguments)
      then none
      else some (ruff_format_check, drop_first arguments)
    else if executable == codes "mypy"
    then some (mypy, arguments)
    else if executable == codes "pyright"
    then some (pyright, arguments)
    else elim (package_runner executable) [
      | some runner ↦
          package_test runner
            (if first_is (codes "run") arguments then drop_first arguments else arguments)
      | none ↦
          if executable == codes "cargo" && first_is (codes "test") arguments
          then some (cargo_test, drop_first arguments)
          else if executable == codes "go" && first_is (codes "test") arguments
          then some (go_test, drop_first arguments)
          else none
    ]

-- The text without a last "."
unfoldable pub drop_last_dot : List Text → List Text
drop_last_dot [] = []
drop_last_dot (a ∷ []) = if a == codes "." then [] else a ∷ []
drop_last_dot (a ∷ b ∷ rest) = a ∷ drop_last_dot (b ∷ rest)

unfoldable pub normalize_runner_arguments : ValidationRunner → List Text → List Text
unfolding drop_last_dot
normalize_runner_arguments pytest arguments =
    drop_last_dot (keep (λ a. not (is_presentation a)) arguments)
normalize_runner_arguments ruff_check arguments = drop_last_dot arguments
normalize_runner_arguments ruff_format_check arguments = drop_last_dot arguments
normalize_runner_arguments pyright arguments = drop_last_dot arguments
normalize_runner_arguments _ arguments = arguments

-- The loop of _pytest_scope, with expect_option_value.
unfoldable pub pytest_scope_loop : Bool → List Text → ValidationScope
unfolding contains
pytest_scope_loop expect [] = workspace
pytest_scope_loop true (argument ∷ rest) = pytest_scope_loop false rest
pytest_scope_loop false (argument ∷ rest) =
    elim (contains argument pytest_selection_options_with_values) [
      | true ↦ targeted
      | false ↦ elim (contains argument pytest_options_with_values) [
        | true ↦ pytest_scope_loop true rest
        | false ↦ elim (is_option argument) [
          | true ↦ pytest_scope_loop false rest
          | false ↦ targeted
        ]
      ]
    ]

unfoldable pub pytest_scope : List Text → ValidationScope
pytest_scope arguments = pytest_scope_loop false arguments

-- The arguments that are no options are none, or the one that stands for the whole workspace.
unfoldable pub scope_by_targets : Text → List Text → ValidationScope
scope_by_targets everything arguments =
    let targets = keep (λ a. not (is_option a)) arguments in
    if (targets == []) || (targets == everything ∷ []) then workspace else targeted

unfoldable pub validation_scope : ValidationRunner → List Text → ValidationScope
validation_scope pytest arguments = pytest_scope arguments
validation_scope ruff_check arguments = scope_by_targets (codes ".") arguments
validation_scope ruff_format_check arguments = scope_by_targets (codes ".") arguments
validation_scope mypy arguments = scope_by_targets (codes ".") arguments
validation_scope pyright arguments = scope_by_targets (codes ".") arguments
validation_scope cargo_test arguments =
    if (arguments == []) || all is_option arguments then workspace else targeted
validation_scope go_test arguments = scope_by_targets (codes "./...") arguments
validation_scope _ arguments = if arguments == [] then workspace else targeted
