-- ===== src/Core/Loop/Round.antt =====
-- Tool calls, their results and what each says of progress: src/thorn/core/_loop.py.
use thorn.Prelude.Dict.{Dict, get}
use thorn.Prelude.Json.{Fields, Json, boolean, lookup, no_field, null, number, object, text}
use thorn.Prelude.{
  Bool, List, Option, Text, [], any, codes, contains, false, has_part, if◌then◌else◌, is_empty,
  list_eq, map, nat_beq, nat_eq, none, not, option_eq, some, true, words, ℕ, ◌++◌, ◌==◌, ◌||◌, ◌∷◌,
}
use thorn.Errors.{Result, attribute_error, err, ok, ◌>>=◌}
use thorn.Core.Convergence.Identity.{ValidationRunner, identity_eq, outcome_eq, runner_eq, scope_eq}
use thorn.Core.ShellInspection.Words.{ShellInspectionCommand, read, search, spaced}
use thorn.Core.ShellInspection.Ranges.{decimal}
use thorn.Core.ShellInspection.Command.{parse_shell_inspection_command}

-- What the rounds take from Python's library: json.loads, shlex.split, PurePath, str.lower, str, the
-- Unicode tables, and the digest of an identity.
pub record External : Type 0 where
  pub load : Text → Option Json
  pub split : Text → Option (List Text)
  pub program_name : Text → Text
  pub normal_path : Text → Text
  pub is_alnum : ℕ → Bool
  pub is_digit : ℕ → Bool
  pub digit_value : ℕ → Option ℕ
  pub lower : Text → Text
  pub to_str : Json → Text
  pub fingerprint : ValidationRunner → List Text → Option Text → Text

pub record ToolCall : Type 0 where
  pub call_id : Text
  pub name : Text
  pub arguments : Text

-- ToolResultMessage
pub record ToolResult : Type 0 where
  pub call_id : Text
  pub content : Text
  pub is_error : Bool

pub record ResourceAccess : Type 0 where
  pub tool_name : Text
  pub resource : List (Text × Text)

abbrev pub action_progress_tool_names : List Text
action_progress_tool_names =
    codes "create_file"
    ∷ codes "edit_file"
    ∷ codes "delete_file"
    ∷ codes "move_file"
    ∷ codes "write_journal"
    ∷ codes "forge_create_issue"
    ∷ codes "forge_update_issue"
    ∷ codes "forge_post_comment"
    ∷ codes "forge_create_change_request"
    ∷ codes "forge_mark_notification_done"
    ∷ codes "complete_focused_work"
    ∷ codes "park_focused_work"
    ∷ codes "update_inbox_item"
    ∷ []

abbrev pub observation_tool_names : List Text
observation_tool_names =
    codes "find_files"
    ∷ codes "forge_get_change_request"
    ∷ codes "forge_get_project_info"
    ∷ codes "forge_list_change_requests"
    ∷ codes "forge_list_comments"
    ∷ codes "forge_list_issues"
    ∷ codes "forge_read_file"
    ∷ codes "forge_read_issue"
    ∷ codes "list_directory"
    ∷ codes "list_inbox_items"
    ∷ codes "list_peers"
    ∷ codes "list_session_todos"
    ∷ codes "peer_by_account"
    ∷ codes "read_file"
    ∷ codes "read_inbox_item"
    ∷ codes "read_journal"
    ∷ codes "search_files"
    ∷ []

abbrev pub run_shell_progress_patterns : List Text
run_shell_progress_patterns =
    codes "pytest"
    ∷ codes "ruff"
    ∷ codes "mypy"
    ∷ codes "pyright"
    ∷ codes "npm test"
    ∷ codes "pnpm test"
    ∷ codes "yarn test"
    ∷ codes "cargo test"
    ∷ codes "go test"
    ∷ codes "git commit"
    ∷ codes "git clone"
    ∷ codes "git fetch"
    ∷ codes "git push"
    ∷ codes "git merge"
    ∷ codes "git pull"
    ∷ codes "git rebase"
    ∷ codes "git cherry-pick"
    ∷ codes "git switch -c"
    ∷ codes "git checkout -b"
    ∷ codes "uv sync"
    ∷ []

abbrev pub shell_tool : Text
shell_tool = codes "run_shell"

-- The keys that tell one access of a tool from another; run_shell has its own.
abbrev pub resource_tools : Dict Text (List Text)
resource_tools =
    (codes "read_file", codes "path" ∷ codes "offset" ∷ codes "limit" ∷ [])
    ∷ (
      codes "search_files",
      codes "path"
          ∷ codes "pattern"
          ∷ codes "glob"
          ∷ codes "use_regex"
          ∷ codes "ignore_case"
          ∷ codes "context_lines"
          ∷ [],
    )
    ∷ (codes "list_directory", codes "path" ∷ codes "recursive" ∷ codes "max_depth" ∷ [])
    ∷ (codes "find_files", codes "path" ∷ codes "pattern" ∷ codes "type" ∷ [])
    ∷ (codes "forge_read_file", codes "project" ∷ codes "file_path" ∷ codes "ref" ∷ [])
    ∷ (codes "read_inbox_item", codes "item_id" ∷ [])
    ∷ (codes "list_session_todos", codes "status_filter" ∷ [])
    ∷ []

-- .replace("-", "_").replace(" ", "_"), one character
abbrev pub underscored : ℕ → ℕ
underscored c = if nat_beq c 45 || nat_beq c 32 then 95 else c

module _ (env : External) where
  unfoldable pub normalize_tool_name : Text → Text
  normalize_tool_name name = map underscored (env.lower name)

  -- A JSON value that is a dict; {} for no text.
  unfoldable pub parse_tool_arguments : Text → Option Fields
  parse_tool_arguments arguments =
      if is_empty arguments
      then some no_field
      else elim (env.load arguments) [ some (object fields) ↦ some fields | _ ↦ none ]

  unfoldable pub shell_inspection_for_tool_arguments :
      Fields → Result (Option ShellInspectionCommand)
  shell_inspection_for_tool_arguments fields = elim (lookup fields (codes "command")) [
    | some (text command) ↦
        parse_shell_inspection_command env.split env.lower env.digit_value command
    | _ ↦ ok none
  ]

  unfoldable pub canonical_resource_value : Json → Text
  canonical_resource_value (boolean true) = codes "true"
  canonical_resource_value (boolean false) = codes "false"
  canonical_resource_value (number n) = decimal n
  canonical_resource_value null = codes "none"
  canonical_resource_value (text t) = t
  canonical_resource_value v = env.to_str v

  -- The arguments that are not None, by the keys in order.
  unfoldable pub resource_access : Fields → List Text → List (Text × Text)
  unfolding canonical_resource_value
  resource_access fields [] = []
  resource_access fields (key ∷ keys) = elim (lookup fields key) [
    | none ↦ resource_access fields keys
    | some null ↦ resource_access fields keys
    | some v ↦ (key, canonical_resource_value v) ∷ resource_access fields keys
  ]

  abbrev part : Text → Option Text → List (Text × Text)
  part key none = []
  part key (some v) = (key, v) ∷ []

  abbrev kind_name : ShellInspectionCommand → Text
  kind_name i = elim i.kind [ read ↦ codes "read" | search ↦ codes "search" ]

  unfoldable pub shell_inspection_resource_access : ShellInspectionCommand → ResourceAccess
  shell_inspection_resource_access i = record {
    tool_name = shell_tool;
    resource =
        (codes "kind", kind_name i) ∷ (codes "command", i.command_name) ∷ part (codes "path") i.path
        ++ (part (codes "pattern") i.pattern ++ part (codes "range") i.line_range_label);
  }

  abbrev inspected : Option ShellInspectionCommand → Option ResourceAccess
  inspected none = none
  inspected (some i) = some (shell_inspection_resource_access i)

  unfoldable pub resource_access_for_tool_call : ToolCall → Result (Option ResourceAccess)
  unfolding resource_access
  resource_access_for_tool_call call =
      let tool_name = normalize_tool_name call.name in
      elim (parse_tool_arguments call.arguments) [
        | none ↦ ok none
        | some fields ↦
            if tool_name == shell_tool
            then (shell_inspection_for_tool_arguments fields >>= λ i. ok (inspected i))
            else elim (get resource_tools tool_name) [
              | none ↦ ok none
              | some keys ↦
                  ok (
                    some (record { tool_name = tool_name; resource = resource_access fields keys }))
            ]
      ]

  unfoldable pub tool_call_is_observation : ToolCall → Result Bool
  unfolding contains
  tool_call_is_observation call =
      if contains (normalize_tool_name call.name) observation_tool_names
      then ok true
      else if not (normalize_tool_name call.name == shell_tool)
      then ok false
      else elim (parse_tool_arguments call.arguments) [
        | none ↦ ok false
        | some fields ↦ shell_inspection_for_tool_arguments fields >>= λ i.
            ok (elim i [ none ↦ false | some found ↦ true ])
      ]

  unfoldable pub command_makes_progress : Text → Option ShellInspectionCommand → Bool
  command_makes_progress command (some i) = false
  command_makes_progress command none =
      any (λ p. has_part p (spaced (words (env.lower command)))) run_shell_progress_patterns

  -- parsed.get of a JSON value that is no dict raises AttributeError.
  unfoldable pub run_shell_command_makes_progress : Text → Result Bool
  run_shell_command_makes_progress arguments =
      if is_empty arguments then ok false else elim (env.load arguments) [
        | none ↦ ok false
        | some (object fields) ↦ elim (lookup fields (codes "command")) [
          | some (text command) ↦
              parse_shell_inspection_command env.split env.lower env.digit_value command >>= λ i.
              ok (command_makes_progress command i)
          | _ ↦ ok false
        ]
        | some _ ↦ err attribute_error
      ]
