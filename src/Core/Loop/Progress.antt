-- ===== src/Core/Loop/Progress.antt =====
-- _classify_tool_round_progress of src/thorn/core/_loop.py. A snapshot of the working set or of the
-- TODO items is a value of a type with an equality test; the result sentinel is `captured` being false.
use thorn.Prelude.Dict.{Dict, get, put}
use thorn.Prelude.{
  Bool, Eq, List, Option, Text, [], any, codes, contains, false, if◌then◌else◌, keep, length,
  list_eq, nat_eq, none, not, option_eq, some, true, ℕ, ◌&&◌, ◌++◌, ◌==◌, ◌||◌, ◌∷◌,
}
use thorn.Errors.{Result, ok, ◌>>=◌}
use thorn.Core.Convergence.Identity.{
  ValidationActionEpochReason, ValidationActionTool, ValidationConvergencePolicy,
  ValidationIdentity, ValidationOutcome, ValidationProgressEffect, applies_progress_effect,
  counts_as_progress, create_file, defer_to_conservative_classifier, delete_file,
  does_not_count_as_progress, edit_file, identity_eq, move_file, native_material_mutation,
  opaque_shell_possible_mutation, outcome_eq, run_shell, runner_eq, scope_eq,
}
use thorn.Core.Convergence.Tracker.{
  Tracker, ValidationActionEpochTelemetry, ValidationConvergenceTelemetry,
  advance_workspace_action_epoch, observe,
}
use thorn.Core.Convergence.Content.{
  ContentTracker, WorkspaceContentConvergenceTelemetry, WorkspaceContentSnapshot, content_observe,
  from_validation_policy, unknown_snapshot, workspace_unavailable,
}
use thorn.Core.Convergence.Command.Parse.{
  parse_validation_command, validation_outcome_from_tool_result,
}
use thorn.Core.Loop.Round.{
  External, ResourceAccess, ToolCall, ToolResult, action_progress_tool_names, normalize_tool_name,
  resource_access_for_tool_call, run_shell_command_makes_progress, shell_tool,
  tool_call_is_observation,
}

-- ValidationTelemetry's three classes.
pub data Telemetry : Type 0 where
  epoch_advanced : ValidationActionEpochTelemetry → Telemetry
  validated : ValidationConvergenceTelemetry → Telemetry
  content_validated : WorkspaceContentConvergenceTelemetry → Telemetry

pub record RoundProgress : Type 0 where
  pub made_progress : Bool
  pub reason : Text
  pub tool_pattern : Text
  pub resource_accesses : List ResourceAccess
  pub validation_telemetry : List Telemetry

pub record Trackers : Type 0 where
  pub action : Tracker
  pub content : ContentTracker

-- The members of _WORKSPACE_MUTATION_TOOL_NAMES, as ValidationActionTool reads them.
unfoldable pub mutation_tool : Text → Option ValidationActionTool
mutation_tool tool_name =
    if tool_name == codes "create_file"
    then some create_file
    else if tool_name == codes "edit_file"
    then some edit_file
    else if tool_name == codes "delete_file"
    then some delete_file
    else if tool_name == codes "move_file"
    then some move_file
    else none

-- {result.call_id: result for result in result_messages}
unfoldable pub result_by_call_id : Dict Text ToolResult → List ToolResult → Dict Text ToolResult
result_by_call_id d [] = d
result_by_call_id d (r ∷ rs) = result_by_call_id (put d r.call_id r) rs

unfoldable pub result_suffix : Option ToolResult → Text
result_suffix none = codes "missing"
result_suffix (some r) = if r.is_error then codes "error" else codes "ok"

abbrev pub effect_is : ValidationProgressEffect → ValidationProgressEffect → Bool
effect_is counts_as_progress counts_as_progress = true
effect_is does_not_count_as_progress does_not_count_as_progress = true
effect_is defer_to_conservative_classifier defer_to_conservative_classifier = true
effect_is _ _ = false

-- The effect of an observation is wanted; an advanced epoch is no observation.
unfoldable pub observed : ValidationProgressEffect → Telemetry → Bool
observed wanted (epoch_advanced t) = false
observed wanted (validated t) = effect_is wanted t.progress_effect
observed wanted (content_validated t) = effect_is wanted t.progress_effect

-- None of the two, or different.
unfoldable pub changed {ℓ} : {S : Type ℓ} ⦃e : Eq S⦄ → Option S → Option S → Bool
changed (some before) (some after) = not (before == after)
changed _ _ = false

-- tool_call.call_id in successful_results
unfoldable pub is_success : List ToolResult → ToolCall → Bool
is_success results call = any (λ r. (r.call_id == call.call_id) && not r.is_error) results

abbrev pub progress : Bool → Text → Text → List ResourceAccess → List Telemetry → RoundProgress
progress made reason pattern accesses telemetry = record {
  made_progress = made;
  reason = reason;
  tool_pattern = pattern;
  resource_accesses = accesses;
  validation_telemetry = telemetry;
}

module _ (env : External) where
  -- The parts of the pattern, joined by +.
  unfoldable pub pattern_of : Dict Text ToolResult → List ToolCall → Text
  unfolding result_suffix
  pattern_of results [] = []
  pattern_of results (c ∷ []) =
      normalize_tool_name env c.name ++ (codes ":" ++ result_suffix (get results c.call_id))
  pattern_of results (c ∷ d ∷ calls) =
      normalize_tool_name env c.name
      ++ (codes ":"
          ++ (result_suffix (get results c.call_id)
              ++ (codes "+" ++ pattern_of results (d ∷ calls))))

  unfoldable pub tool_round_pattern : Dict Text ToolResult → List ToolCall → Text
  tool_round_pattern results [] = codes "none"
  tool_round_pattern results (c ∷ calls) = pattern_of results (c ∷ calls)

  abbrev pub parsed_validation : Text → Result (Option ValidationIdentity)
  parsed_validation =
      parse_validation_command env.load env.split env.program_name env.normal_path env.is_alnum
        env.is_digit

  abbrev pub is_decimal : ℕ → Bool
  is_decimal c = elim (env.digit_value c) [ none ↦ false | some d ↦ true ]

  module _ (policy : ValidationConvergencePolicy) (snapshots : Dict Text WorkspaceContentSnapshot)
      (render_id : Text) where
    unfoldable pub advanced :
        Trackers
        → Text
        → ValidationActionEpochReason
        → ValidationActionTool
        → Trackers × List Telemetry
    advanced ts call_id reason tool =
        let (t, told) = advance_workspace_action_epoch ts.action call_id render_id reason tool in
        (record ts { action = t }, epoch_advanced told ∷ [])

    -- A recognized validation, by the content tracker if the policy uses the content, which is where
    -- it has a content policy.
    unfoldable pub judge :
        Trackers → Text → ValidationIdentity → ValidationOutcome → Trackers × List Telemetry
    judge ts call_id identity outcome = elim (from_validation_policy policy) [
      | some content_policy ↦
          (let snapshot : WorkspaceContentSnapshot = elim (get snapshots call_id) [
            | none ↦ unknown_snapshot workspace_unavailable
            | some s ↦ s
          ] in
            let (c, told) =
              content_observe env.fingerprint ts.content identity outcome snapshot call_id render_id
                content_policy in
            (record ts { content = c }, content_validated told ∷ []))
      | none ↦
          (let (t, told) =
              observe env.fingerprint ts.action identity outcome call_id render_id policy in
            (record ts { action = t }, validated told ∷ []))
    ]

    -- A shell call, once its arguments are parsed.
    unfoldable pub observe_shell :
        Trackers
        → ToolCall
        → ToolResult
        → Option ValidationIdentity
        → Result (Trackers × List Telemetry)
    observe_shell ts call result (some identity) = ok (
        judge ts call.call_id identity
          (validation_outcome_from_tool_result is_decimal result.content result.is_error))
    observe_shell ts call result none =
        if result.is_error
        then ok (ts, [])
        else (tool_call_is_observation env call >>= λ inspects. ok (
            if inspects
            then (ts, [])
            else advanced ts call.call_id opaque_shell_possible_mutation run_shell))

    unfoldable pub observe_call :
        Trackers → ToolCall → ToolResult → Result (Trackers × List Telemetry)
    observe_call ts call result =
        let tool_name = normalize_tool_name env call.name in
        elim (mutation_tool tool_name) [
          | some tool ↦ ok (
              if result.is_error
              then (ts, [])
              else advanced ts call.call_id native_material_mutation tool)
          | none ↦
              if not (tool_name == shell_tool)
              then ok (ts, [])
              else (parsed_validation call.arguments >>= λ parsed.
                  observe_shell ts call result parsed)
        ]

    -- The first loop over the calls; a call without a result is passed over.
    unfoldable pub observe_calls :
        Trackers → Dict Text ToolResult → List ToolCall → Result (Trackers × List Telemetry)
    observe_calls ts results [] = ok (ts, [])
    observe_calls ts results (call ∷ calls) = elim (get results call.call_id) [
      | none ↦ observe_calls ts results calls
      | some result ↦ observe_call ts call result >>= λ first.
          observe_calls first.0 results calls >>= λ rest. ok (rest.0, first.1 ++ rest.1)
    ]

    -- The reason of the first successful call that is material by itself.
    unfoldable pub material_reason : List ToolCall → Result (Option Text)
    unfolding contains
    material_reason [] = ok none
    material_reason (call ∷ calls) =
        let tool_name = normalize_tool_name env call.name in
        if contains tool_name action_progress_tool_names
        then ok (some (tool_name ++ codes " performed a material action"))
        else if not (tool_name == shell_tool)
        then material_reason calls
        else ((if applies_progress_effect policy
              then (parsed_validation call.arguments >>= λ parsed.
                  ok (elim parsed [ none ↦ false | some i ↦ true ]))
              else ok false)
            >>= λ left_to_tracker.
                if left_to_tracker
                then material_reason calls
                else (run_shell_command_makes_progress env call.arguments >>= λ makes.
                    if makes
                    then ok (some (codes "shell command performed validation or workspace setup"))
                    else material_reason calls))

    unfoldable pub accesses : List ToolCall → Result (List ResourceAccess)
    accesses [] = ok []
    accesses (call ∷ calls) = resource_access_for_tool_call env call >>= λ access.
        accesses calls >>= λ rest. ok (elim access [ none ↦ rest | some a ↦ a ∷ rest ])

    unfoldable pub all_observations : List ToolCall → Result Bool
    all_observations [] = ok true
    all_observations (call ∷ calls) = tool_call_is_observation env call >>= λ inspects.
        if inspects then all_observations calls else ok false

    -- The branches once the loop over the successful calls has found nothing material.
    unfoldable pub remaining : Text → List Telemetry → List ToolCall → Result RoundProgress
    unfolding accesses
    remaining pattern telemetry successful =
        let made = any (observed counts_as_progress) telemetry in
        let deferred = any (observed defer_to_conservative_classifier) telemetry in
        if applies_progress_effect policy && (made || deferred)
        then ok (
            progress true
              (if made
                then codes "validation produced a new convergence observation"
                else codes "validation outcome was uncertain")
              pattern [] telemetry)
        else (accesses successful >>= λ used. all_observations successful >>= λ only_reads. ok (
            progress false
              (if not (length successful == 0) && only_reads
                then codes "read/search-only round"
                else codes "successful tool round only used non-material tools")
              pattern used telemetry))

    -- Of a round with some successful result; the two tests say whether the working set and the TODO
    -- items changed.
    unfoldable pub successful_progress :
        Bool → Bool → Text → List Telemetry → List ToolCall → Result RoundProgress
    unfolding material_reason
    successful_progress working_set_changed todos_changed pattern telemetry successful =
        if working_set_changed
        then ok (progress true (codes "working set changed materially") pattern [] telemetry)
        else if todos_changed
        then ok (progress true (codes "TODO lifecycle changed") pattern [] telemetry)
        else (material_reason successful >>= λ found. elim found [
          | some reason ↦ ok (progress true reason pattern [] telemetry)
          | none ↦ remaining pattern telemetry successful
        ])

    unfoldable pub failed_progress : Text → List Telemetry → RoundProgress
    failed_progress pattern telemetry =
        let deferred =
          applies_progress_effect policy
          && any (observed defer_to_conservative_classifier) telemetry in
        progress deferred
          (if deferred
            then codes "validation outcome was uncertain"
            else codes "all tool calls failed")
          pattern [] telemetry

    -- _classify_tool_round_progress; captured: a structured result was returned.
    unfoldable pub classify_tool_round_progress {ℓ κ} :
        {W : Type ℓ} {I : Type κ} ⦃same_set : Eq W⦄ ⦃same_todos : Eq I⦄
        → Trackers
        → List ToolCall
        → List ToolResult
        → Bool
        → Option W × Option I
        → Option W × Option I
        → Result (Trackers × RoundProgress)
    classify_tool_round_progress ts tool_calls result_messages captured before after =
        let results = result_by_call_id [] result_messages in
        let pattern = tool_round_pattern results tool_calls in
        observe_calls ts results tool_calls >>= λ seen.
        if captured
        then ok (seen.0, progress true (codes "structured result returned") pattern [] seen.1)
        else if not (any (λ r. not r.is_error) result_messages)
        then ok (seen.0, failed_progress pattern seen.1)
        else (successful_progress (changed before.0 after.0) (changed before.1 after.1) pattern
              seen.1 (keep (is_success result_messages) tool_calls)
            >>= λ made. ok (seen.0, made))
