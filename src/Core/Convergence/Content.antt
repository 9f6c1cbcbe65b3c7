-- ===== src/Core/Convergence/Content.antt =====
-- WorkspaceContentConvergenceTracker of src/thorn/core/_validation_convergence.py, with the snapshots
-- of src/thorn/core/_workspace_content.py. The digest of an identity is a parameter.
pub mod Simulation
use thorn.Prelude.Dict.{get, put}
use thorn.Prelude.{
  ==_iff, Bool, List, Option, Text, [], false, if◌then◌else◌, list_eq, nat_eq, none, not, option_eq,
  some, suc, true, ℕ, ◌==◌, ◌∷◌,
}
use thorn.Core.Convergence.Identity.{
  ValidationConvergencePolicy, ValidationIdentity, ValidationOutcome, ValidationProgressEffect,
  ValidationRunner, ValidationScope, counts_as_progress, defer_to_conservative_classifier,
  does_not_count_as_progress, identity_eq, indeterminate, outcome_eq, runner_eq, scope_eq,
  workspace_content_observe_v2, workspace_content_v2,
}
use thorn.Core.Convergence.Tracker.{Outcomes, identities, is_broader_than_prior}

pub data WorkspaceContentCollectionFailure : Type 0 where
  workspace_unavailable not_git_root git_error path_limit : WorkspaceContentCollectionFailure
  listing_byte_limit byte_limit time_limit : WorkspaceContentCollectionFailure
  unsupported_entry io_error concurrent_change : WorkspaceContentCollectionFailure

-- A snapshot as its two class methods make it: with an identity, or with a failure.
pub data WorkspaceContentSnapshot : Type 0 where
  known : (identity : Text) (path_count content_bytes : ℕ) → WorkspaceContentSnapshot
  unknown_snapshot : (failure : WorkspaceContentCollectionFailure) → WorkspaceContentSnapshot

abbrev pub snapshot_identity : WorkspaceContentSnapshot → Option Text
snapshot_identity (known identity path_count content_bytes) = some identity
snapshot_identity (unknown_snapshot failure) = none

abbrev pub snapshot_failure : WorkspaceContentSnapshot → Option WorkspaceContentCollectionFailure
snapshot_failure (known identity path_count content_bytes) = none
snapshot_failure (unknown_snapshot failure) = some failure

abbrev pub snapshot_path_count : WorkspaceContentSnapshot → Option ℕ
snapshot_path_count (known identity path_count content_bytes) = some path_count
snapshot_path_count (unknown_snapshot failure) = none

abbrev pub snapshot_bytes : WorkspaceContentSnapshot → Option ℕ
snapshot_bytes (known identity path_count content_bytes) = some content_bytes
snapshot_bytes (unknown_snapshot failure) = none

pub data WorkspaceContentConvergencePolicy : Type 0 where
  observe_v2 apply_v2 : WorkspaceContentConvergencePolicy

abbrev pub content_policy_applies : WorkspaceContentConvergencePolicy → Bool
content_policy_applies observe_v2 = false
content_policy_applies apply_v2 = true

-- from_validation_policy: none is its ValueError.
unfoldable pub from_validation_policy :
    ValidationConvergencePolicy → Option WorkspaceContentConvergencePolicy
from_validation_policy workspace_content_observe_v2 = some observe_v2
from_validation_policy workspace_content_v2 = some apply_v2
from_validation_policy _ = none

-- ValidationConvergencePolicy.uses_workspace_content
unfoldable pub uses_workspace_content : ValidationConvergencePolicy → Bool
uses_workspace_content workspace_content_observe_v2 = true
uses_workspace_content workspace_content_v2 = true
uses_workspace_content _ = false

pub data WorkspaceContentStateTransition : Type 0 where
  known_same known_changed unknown_state : WorkspaceContentStateTransition

pub data WorkspaceContentConvergenceDecision : Type 0 where
  first_in_content_epoch distinct_in_content : WorkspaceContentConvergenceDecision
  broader_in_content changed_in_content : WorkspaceContentConvergenceDecision
  repeat_in_content indeterminate_in_content unknown_content : WorkspaceContentConvergenceDecision

pub record WorkspaceContentConvergenceTelemetry : Type 0 where
  pub call_id : Text
  pub render_id : Text
  pub content_epoch : ℕ
  pub content_identity : Option Text
  pub prior_content_identity : Option Text
  pub content_transition : WorkspaceContentStateTransition
  pub collection_failure : Option WorkspaceContentCollectionFailure
  pub path_count : Option ℕ
  pub content_bytes : Option ℕ
  pub runner : ValidationRunner
  pub identity_fingerprint : Text
  pub scope : ValidationScope
  pub outcome : ValidationOutcome
  pub prior_outcome : Option ValidationOutcome
  pub decision : WorkspaceContentConvergenceDecision
  pub progress_effect : ValidationProgressEffect
  pub policy_effect_applied : Bool

pub record ContentTracker : Type 0 where
  pub content_epoch : ℕ
  pub content_identity : Option Text
  pub outcomes : Outcomes

abbrev pub fresh_content : ContentTracker
fresh_content = record { content_epoch = 0; content_identity = none; outcomes = [] }

-- The branches on the prior content: the tracker they leave, and the transition.
unfoldable pub enter : ContentTracker → Text → ContentTracker × WorkspaceContentStateTransition
enter t current = elim t.content_identity [
  | none ↦ (record t { content_identity = some current }, known_changed)
  | some prior ↦
      if not (current == prior)
      then (
        record {
          content_epoch = suc t.content_epoch;
          content_identity = some current;
          outcomes = [];
        },
        known_changed,
      )
      else (t, known_same)
]

-- The decision on an identity that has no outcome under this content
unfoldable pub novel_content :
    ValidationIdentity → List ValidationIdentity → WorkspaceContentConvergenceDecision
novel_content identity [] = first_in_content_epoch
novel_content identity (i ∷ is) =
    if is_broader_than_prior identity (i ∷ is) then broader_in_content else distinct_in_content

-- The decision and the effect under known content.
unfoldable pub classify_content :
    ValidationIdentity
    → Option ValidationOutcome
    → List ValidationIdentity
    → ValidationOutcome
    → WorkspaceContentConvergenceDecision × ValidationProgressEffect
classify_content identity none previous_identities outcome =
    (novel_content identity previous_identities, counts_as_progress)
classify_content identity (some prior_outcome) previous_identities outcome =
    if prior_outcome == outcome
    then (repeat_in_content, does_not_count_as_progress)
    else (changed_in_content, counts_as_progress)

module _ (fingerprint : ValidationRunner → List Text → Option Text → Text) where
  unfoldable pub content_observation :
      ContentTracker
      → ValidationIdentity
      → ValidationOutcome
      → Option ValidationOutcome
      → WorkspaceContentSnapshot
      → Option Text
      → WorkspaceContentStateTransition
      → WorkspaceContentConvergenceDecision × ValidationProgressEffect
      → Text
      → Text
      → WorkspaceContentConvergencePolicy
      → WorkspaceContentConvergenceTelemetry
  content_observation t identity outcome prior_outcome snapshot prior_content transition
        (decision, progress_effect) call_id render_id policy =
      record {
        call_id = call_id;
        render_id = render_id;
        content_epoch = t.content_epoch;
        content_identity = snapshot_identity snapshot;
        prior_content_identity = prior_content;
        content_transition = transition;
        collection_failure = snapshot_failure snapshot;
        path_count = snapshot_path_count snapshot;
        content_bytes = snapshot_bytes snapshot;
        runner = identity.runner;
        identity_fingerprint =
            fingerprint identity.runner identity.arguments identity.working_directory;
        scope = identity.scope;
        outcome = outcome;
        prior_outcome = prior_outcome;
        decision = decision;
        progress_effect = progress_effect;
        policy_effect_applied = content_policy_applies policy;
      }

  unfoldable pub content_observe :
      ContentTracker
      → ValidationIdentity
      → ValidationOutcome
      → WorkspaceContentSnapshot
      → Text
      → Text
      → WorkspaceContentConvergencePolicy
      → ContentTracker × WorkspaceContentConvergenceTelemetry
  content_observe t identity outcome (unknown_snapshot failure) call_id render_id policy = (
    t,
    content_observation t identity outcome none (unknown_snapshot failure) t.content_identity
        unknown_state (unknown_content, defer_to_conservative_classifier) call_id render_id policy,
  )
  content_observe t identity outcome (known current paths bytes) call_id render_id policy =
      let (entered, transition) = enter t current in
      let prior_outcome = get entered.outcomes identity in
      let verdict : WorkspaceContentConvergenceDecision × ValidationProgressEffect =
        if outcome == indeterminate
        then (indeterminate_in_content, defer_to_conservative_classifier)
        else classify_content identity prior_outcome (identities entered.outcomes) outcome in
      let left : ContentTracker =
        if outcome == indeterminate
        then entered
        else record entered { outcomes = put entered.outcomes identity outcome } in
      (
        left,
        content_observation left identity outcome prior_outcome (known current paths bytes)
            t.content_identity transition verdict call_id render_id policy,
      )
