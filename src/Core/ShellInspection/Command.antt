-- ===== src/Core/ShellInspection/Command.antt =====
-- parse_shell_inspection_command of src/thorn/core/_shell_inspection.py. shlex.split, str.lower and the
-- value of a decimal digit by Unicode are parameters.
use thorn.Prelude.{
  List, Option, Text, [], codes, if◌then◌else◌, list_eq, nat_eq, none, option_eq, some, ℕ, ◌==◌,
  ◌∷◌,
}
use thorn.Errors.{Result, ok}
use thorn.Core.ShellInspection.Words.{
  ShellInspectionCommand, parse_cat, parse_search, safe_tokens, spaced,
}
use thorn.Core.ShellInspection.Ranges.{parse_head, parse_sed, parse_tail}

module _ (digit_value : ℕ → Option ℕ) where
  -- The match on the command's name.
  unfoldable pub inspect : Text → List Text → Text → Result (Option ShellInspectionCommand)
  inspect command_name args normalized_command =
      if command_name == codes "cat"
      then ok (parse_cat args normalized_command)
      else if command_name == codes "sed"
      then parse_sed digit_value args normalized_command
      else if command_name == codes "head"
      then ok (parse_head digit_value args normalized_command)
      else if command_name == codes "tail"
      then ok (parse_tail digit_value args normalized_command)
      else if command_name == codes "grep"
      then ok (parse_search args normalized_command (codes "grep") none)
      else if command_name == codes "rg"
      then ok (parse_search args normalized_command (codes "rg") (some (codes ".")))
      else ok none

module _ (lower : Text → Text) (digit_value : ℕ → Option ℕ) where
  -- The tokens are the safe ones.
  unfoldable pub inspect_tokens : List Text → Result (Option ShellInspectionCommand)
  inspect_tokens [] = ok none
  inspect_tokens (token ∷ tokens) =
      inspect digit_value (lower token) tokens (spaced (token ∷ tokens))

module _ (split : Text → Option (List Text)) (lower : Text → Text)
    (digit_value : ℕ → Option ℕ) where
  unfoldable pub parse_shell_inspection_command : Text → Result (Option ShellInspectionCommand)
  parse_shell_inspection_command command =
      inspect_tokens lower digit_value (safe_tokens (split command))
