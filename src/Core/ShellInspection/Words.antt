-- ===== src/Core/ShellInspection/Words.antt =====
-- Words and operands of src/thorn/core/_shell_inspection.py, and the commands that need no number.
use thorn.Prelude.{
  Bool, List, Option, Text, [], any, codes, contains, false, if◌then◌else◌, list_eq, nat_eq, none,
  option_eq, some, starts_with, true, ℕ, ◌&&◌, ◌++◌, ◌==◌, ◌||◌, ◌∷◌,
}

pub data ShellInspectionKind : Type 0 where
  read search : ShellInspectionKind

pub record ShellInspectionCommand : Type 0 where
  pub kind : ShellInspectionKind
  pub command_name : Text
  pub normalized_command : Text
  pub path : Option Text
  pub pattern : Option Text
  pub start_line : Option ℕ
  pub end_line : Option ℕ
  pub line_range_label : Option Text

-- _CONTROL_CHARS
abbrev pub control_chars : Text
control_chars = codes "|;&<>"

abbrev pub options_with_values : List Text
options_with_values =
    codes "-A"
    ∷ codes "-B"
    ∷ codes "-C"
    ∷ codes "-e"
    ∷ codes "-f"
    ∷ codes "-g"
    ∷ codes "-m"
    ∷ codes "-t"
    ∷ codes "--after-context"
    ∷ codes "--before-context"
    ∷ codes "--context"
    ∷ codes "--file"
    ∷ codes "--glob"
    ∷ codes "--max-count"
    ∷ codes "--regexp"
    ∷ codes "--type"
    ∷ []

unfoldable pub has_shell_control : Text → Bool
unfolding contains
has_shell_control token = any (λ c. contains c token) control_chars

-- " ".join(tokens)
unfoldable pub spaced : List Text → Text
spaced [] = []
spaced (t ∷ []) = t
spaced (t ∷ u ∷ rest) = t ++ (codes " " ++ spaced (u ∷ rest))

-- What split gives, () where it raises ValueError or a token has a control character.
unfoldable pub safe_tokens : Option (List Text) → List Text
unfolding has_shell_control
safe_tokens none = []
safe_tokens (some tokens) = if any has_shell_control tokens then [] else tokens

abbrev double_dash : Text
double_dash = codes "--"

-- token.startswith("--") and "=" in token
unfoldable pub carries_value : Text → Bool
unfolding contains
carries_value token = starts_with token double_dash && contains 61 token

-- The loop of _operands_after_options; skip: the token is an option's value.
unfoldable pub operands_loop : Bool → List Text → List Text
unfolding contains
operands_loop skip [] = []
operands_loop true (token ∷ rest) = operands_loop false rest
operands_loop false (token ∷ rest) = elim (token == codes "--") [
  | true ↦ rest
  | false ↦ elim (carries_value token) [
    | true ↦ operands_loop false rest
    | false ↦ elim (contains token options_with_values) [
      | true ↦ operands_loop true rest
      | false ↦ elim (starts_with token (codes "-")) [
        | true ↦ operands_loop false rest
        | false ↦ token ∷ operands_loop false rest
      ]
    ]
  ]
]

unfoldable pub operands_after_options : List Text → List Text
operands_after_options args = operands_loop false args

unfoldable pub parse_cat : List Text → Text → Option ShellInspectionCommand
parse_cat args normalized_command = elim (operands_after_options args) [
  | operand ∷ [] ↦ some (record {
    kind = read;
    command_name = codes "cat";
    normalized_command = normalized_command;
    path = some operand;
    pattern = none;
    start_line = none;
    end_line = none;
    line_range_label = none;
  })
  | _ ↦ none
]

unfoldable pub unsupported_pattern_option : Text → Bool
unfolding contains
unsupported_pattern_option token =
    contains token (codes "-e" ∷ codes "-f" ∷ codes "--file" ∷ codes "--regexp" ∷ [])
    || starts_with token (codes "--file=")
    || starts_with token (codes "--regexp=")

-- The path of a search: one operand after the pattern, or the default if there is none.
unfoldable pub search_path : List Text → Option Text → Option Text
search_path [] default_path = default_path
search_path (p ∷ []) default_path = some p
search_path (p ∷ q ∷ rest) default_path = none

unfoldable pub searching : Text → Text → Text → Option Text → Option ShellInspectionCommand
searching command_name normalized_command pattern none = none
searching command_name normalized_command pattern (some path) = some (record {
  kind = search;
  command_name = command_name;
  normalized_command = normalized_command;
  path = some path;
  pattern = some pattern;
  start_line = none;
  end_line = none;
  line_range_label = none;
})

unfoldable pub parse_search : List Text → Text → Text → Option Text → Option ShellInspectionCommand
unfolding unsupported_pattern_option
parse_search args normalized_command command_name default_path =
    if any unsupported_pattern_option args then none else elim (operands_after_options args) [
      | [] ↦ none
      | pattern ∷ paths ↦
          searching command_name normalized_command pattern (search_path paths default_path)
    ]
