-- ===== src/Core/Convergence/Tracker.antt =====
-- ValidationConvergenceTracker of src/thorn/core/_validation_convergence.py. The digest of an
-- identity (json.dumps and hashlib) is a parameter.
use thorn.Prelude.Dict.{Dict, get, put}
use thorn.Prelude.{
  Bool, List, Option, Text, [], any, false, if◌then◌else◌, list_eq, nat_eq, none, not, option_eq,
  some, suc, ℕ, ◌&&◌, ◌==◌, ◌∷◌,
}
use thorn.Core.Convergence.Identity.{
  ValidationActionEpochReason, ValidationActionTool, ValidationConvergenceDecision,
  ValidationConvergencePolicy, ValidationIdentity, ValidationOutcome, ValidationProgressEffect,
  ValidationRunner, ValidationScope, applies_progress_effect, broader_validation, changed_outcome,
  counts_as_progress, defer_to_conservative_classifier, distinct_validation,
  does_not_count_as_progress, equivalent_repeat, first_in_action_epoch, identity_eq, indeterminate,
  indeterminate_outcome, outcome_eq, runner_eq, scope_eq, targeted, workspace,
}

pub record ValidationConvergenceTelemetry : Type 0 where
  pub call_id : Text
  pub render_id : Text
  pub workspace_action_epoch : ℕ
  pub runner : ValidationRunner
  pub identity_fingerprint : Text
  pub scope : ValidationScope
  pub outcome : ValidationOutcome
  pub prior_outcome : Option ValidationOutcome
  pub decision : ValidationConvergenceDecision
  pub progress_effect : ValidationProgressEffect
  pub policy_effect_applied : Bool

pub record ValidationActionEpochTelemetry : Type 0 where
  pub call_id : Text
  pub render_id : Text
  pub prior_workspace_action_epoch : ℕ
  pub workspace_action_epoch : ℕ
  pub reason : ValidationActionEpochReason
  pub tool_name : ValidationActionTool

abbrev pub Outcomes : Type 0
Outcomes = Dict ValidationIdentity ValidationOutcome

pub record Tracker : Type 0 where
  pub workspace_action_epoch : ℕ
  pub outcomes : Outcomes

-- A tracker by its defaults
abbrev pub fresh : Tracker
fresh = record { workspace_action_epoch = 0; outcomes = [] }

unfoldable pub advance_workspace_action_epoch :
    Tracker
    → Text
    → Text
    → ValidationActionEpochReason
    → ValidationActionTool
    → Tracker × ValidationActionEpochTelemetry
advance_workspace_action_epoch t call_id render_id reason tool_name = (
  record { workspace_action_epoch = suc t.workspace_action_epoch; outcomes = [] },
  record {
    call_id = call_id;
    render_id = render_id;
    prior_workspace_action_epoch = t.workspace_action_epoch;
    workspace_action_epoch = suc t.workspace_action_epoch;
    reason = reason;
    tool_name = tool_name;
  },
)

-- The condition of the generator in _is_broader_than_prior
unfoldable pub narrower : ValidationIdentity → ValidationIdentity → Bool
narrower identity prior = (prior.runner == identity.runner) && (prior.scope == targeted)

unfoldable pub is_broader_than_prior : ValidationIdentity → List ValidationIdentity → Bool
is_broader_than_prior identity prior_identities =
    if not (identity.scope == workspace) then false else any (narrower identity) prior_identities

-- tuple(self._outcomes)
abbrev pub identities : Outcomes → List ValidationIdentity
identities [] = []
identities ((i, o) ∷ rest) = i ∷ identities rest

-- A determinate outcome of an identity that has one in this epoch
unfoldable pub repeated :
    ValidationOutcome → ValidationOutcome → ValidationConvergenceDecision × ValidationProgressEffect
repeated prior_outcome outcome =
    if prior_outcome == outcome
    then (equivalent_repeat, does_not_count_as_progress)
    else (changed_outcome, counts_as_progress)

-- A determinate outcome of an identity that has none
unfoldable pub novel : ValidationIdentity → List ValidationIdentity → ValidationConvergenceDecision
novel identity [] = first_in_action_epoch
novel identity (i ∷ is) =
    if is_broader_than_prior identity (i ∷ is) then broader_validation else distinct_validation

-- The decision and the effect of a determinate outcome.
unfoldable pub classify_outcome :
    ValidationIdentity
    → Option ValidationOutcome
    → List ValidationIdentity
    → ValidationOutcome
    → ValidationConvergenceDecision × ValidationProgressEffect
classify_outcome identity none previous_identities outcome =
    (novel identity previous_identities, counts_as_progress)
classify_outcome identity (some prior_outcome) previous_identities outcome =
    repeated prior_outcome outcome

module _ (fingerprint : ValidationRunner → List Text → Option Text → Text) where
  unfoldable pub observation :
      Tracker
      → ValidationIdentity
      → ValidationOutcome
      → Option ValidationOutcome
      → ValidationConvergenceDecision × ValidationProgressEffect
      → Text
      → Text
      → ValidationConvergencePolicy
      → ValidationConvergenceTelemetry
  observation t identity outcome prior_outcome (decision, progress_effect) call_id render_id
        policy =
      record {
        call_id = call_id;
        render_id = render_id;
        workspace_action_epoch = t.workspace_action_epoch;
        runner = identity.runner;
        identity_fingerprint =
            fingerprint identity.runner identity.arguments identity.working_directory;
        scope = identity.scope;
        outcome = outcome;
        prior_outcome = prior_outcome;
        decision = decision;
        progress_effect = progress_effect;
        policy_effect_applied = applies_progress_effect policy;
      }

  unfoldable pub observe :
      Tracker
      → ValidationIdentity
      → ValidationOutcome
      → Text
      → Text
      → ValidationConvergencePolicy
      → Tracker × ValidationConvergenceTelemetry
  observe t identity outcome call_id render_id policy =
      let prior_outcome = get t.outcomes identity in
      if outcome == indeterminate
      then (
        t,
        observation t identity outcome prior_outcome
            (indeterminate_outcome, defer_to_conservative_classifier) call_id render_id policy,
      )
      else (
        record t { outcomes = put t.outcomes identity outcome },
        observation t identity outcome prior_outcome
            (classify_outcome identity prior_outcome (identities t.outcomes) outcome) call_id
            render_id policy,
      )
