-- ===== src/Core/Convergence/Content/Simulation.antt =====
-- The content tracker of src/thorn/core/_validation_convergence.py against its action tracker, with an
-- epoch advanced where the known content changes.
use thorn.Prelude.Dict.{get}
use thorn.Prelude.{
  ==_iff, Bool-cases, List, Option, Option-cases, Text, [], ap, if◌then◌else◌, inl, inr, list_eq,
  nat_eq, none, option_eq, refl, some, sym, ℕ, ◌==◌, ◌∙◌, ◌∷◌, ◌≡◌,
}
use thorn.Core.Convergence.Identity.{
  ValidationConvergenceDecision, ValidationConvergencePolicy, ValidationIdentity, ValidationOutcome,
  ValidationProgressEffect, ValidationRunner, broader_validation, changed_outcome,
  defer_to_conservative_classifier, distinct_validation, equivalent_repeat, first_in_action_epoch,
  identity_eq, indeterminate, indeterminate_outcome, opaque_shell_possible_mutation, outcome_eq,
  run_shell, runner_eq, scope_eq,
}
use thorn.Core.Convergence.Tracker.{
  Tracker, advance_workspace_action_epoch, classify_outcome, identities, is_broader_than_prior,
  novel, observation, observe, repeated,
}
use thorn.Core.Convergence.Content.{
  ContentTracker, WorkspaceContentCollectionFailure, WorkspaceContentConvergenceDecision,
  WorkspaceContentConvergencePolicy, WorkspaceContentConvergenceTelemetry, WorkspaceContentSnapshot,
  broader_in_content, changed_in_content, classify_content, content_observation, content_observe,
  distinct_in_content, enter, first_in_content_epoch, indeterminate_in_content, known,
  novel_content, repeat_in_content, unknown_content, unknown_snapshot,
}

abbrev pub content_decision : ValidationConvergenceDecision → WorkspaceContentConvergenceDecision
content_decision first_in_action_epoch = first_in_content_epoch
content_decision distinct_validation = distinct_in_content
content_decision broader_validation = broader_in_content
content_decision changed_outcome = changed_in_content
content_decision equivalent_repeat = repeat_in_content
content_decision indeterminate_outcome = indeterminate_in_content

-- The content tracker's state but for the content.
abbrev pub view : ContentTracker → Tracker
view ct = record { workspace_action_epoch = ct.content_epoch; outcomes = ct.outcomes }

-- The action tracker, told that the content is `current` after `prior`.
unfoldable pub told_content : Option Text → Text → Tracker → Tracker
told_content none current t = t
told_content (some prior) current t =
    if current == prior
    then t
    else (advance_workspace_action_epoch t [] [] opaque_shell_possible_mutation run_shell).0

view-enter :
    (ct : ContentTracker) (current : Text)
    → (view (enter ct current).0 ≡ told_content ct.content_identity current (view ct))
      × ((enter ct current).0.content_identity ≡ some current)
unfolding enter told_content advance_workspace_action_epoch
view-enter ct current = elim (Option-cases ct.content_identity) [
  | inl missing ↦ rw (missing, enter, told_content) (refl, refl)
  | inr (prior, found) ↦ elim (Bool-cases (current == prior)) [
    | inl same ↦
        rw (found, enter, told_content, same)
          (refl, found ∙ ap some (sym ((==_iff current prior).0 same)))
    | inr other ↦ rw (found, enter, told_content, other) (refl, refl)
  ]
]

novel_content-novel :
    (i : ValidationIdentity) (js : List ValidationIdentity)
    → novel_content i js ≡ content_decision (novel i js)
unfolding novel_content novel
novel_content-novel i [] = refl
novel_content-novel i (j ∷ js) = elim (Bool-cases (is_broader_than_prior i (j ∷ js))) [
  | inl wide ↦ rw (wide) refl
  | inr narrow ↦ rw (narrow) refl
]

classify_content-classify_outcome :
    (i : ValidationIdentity) (prior : Option ValidationOutcome) (js : List ValidationIdentity)
    (o : ValidationOutcome)
    → classify_content i prior js o
      ≡ (content_decision (classify_outcome i prior js o).0, (classify_outcome i prior js o).1)
unfolding classify_content classify_outcome repeated
classify_content-classify_outcome i none js o = rw (novel_content-novel i js) refl
classify_content-classify_outcome i (some prior) js o = elim (Bool-cases (prior == o)) [
  | inl same ↦ rw (same) refl
  | inr other ↦ rw (other) refl
]

module _ (fingerprint : ValidationRunner → List Text → Option Text → Text) (c r : Text)
    (p : WorkspaceContentConvergencePolicy) (q : ValidationConvergencePolicy) where
  abbrev pub Verdict : Type 0
  Verdict = WorkspaceContentConvergenceDecision × ValidationProgressEffect

  -- One validation after a snapshot: the verdict and what is left of the content tracker.
  abbrev judged :
      ContentTracker
      → ValidationIdentity
      → ValidationOutcome
      → WorkspaceContentSnapshot
      → ContentTracker × WorkspaceContentConvergenceTelemetry
  judged ct i o snapshot = content_observe fingerprint ct i o snapshot c r p

  judged-observe :
      (ct : ContentTracker) (i : ValidationIdentity) (o : ValidationOutcome) (current : Text)
      (paths bytes : ℕ)
      → let t = told_content ct.content_identity current (view ct) in
        let after = judged ct i o (known current paths bytes) in
        let other = observe fingerprint t i o c r q in
        (view after.0 ≡ other.0)
        × (after.0.content_identity ≡ some current)
        × (after.1.decision ≡ content_decision other.1.decision)
        × (after.1.progress_effect ≡ other.1.progress_effect)
  unfolding content_observe content_observation observe observation
  judged-observe ct i o current paths bytes =
      let (same, entered) = view-enter ct current in
      elim (Bool-cases (o == indeterminate)) [
        | inl vague ↦ rw (sym same, vague) (refl, entered, refl, refl)
        | inr clear ↦
            (let e = (enter ct current).0 in
              rw
                (
                  sym same,
                  clear,
                  classify_content-classify_outcome i (get e.outcomes i) (identities e.outcomes) o,
                )
                (refl, entered, refl, refl))
      ]

  judged-unknown :
      (ct : ContentTracker) (i : ValidationIdentity) (o : ValidationOutcome)
      (failure : WorkspaceContentCollectionFailure)
      → let after = judged ct i o (unknown_snapshot failure) in
        (after.0 ≡ ct)
        × (after.1.decision ≡ unknown_content)
        × (after.1.progress_effect ≡ defer_to_conservative_classifier)
  unfolding content_observe content_observation
  judged-unknown ct i o failure = (refl, refl, refl)

  -- The verdicts on a sequence of validations, each after its snapshot.
  unfoldable pub verdicts :
      ContentTracker
      → List (ValidationIdentity × ValidationOutcome × WorkspaceContentSnapshot)
      → List Verdict
  verdicts ct [] = []
  verdicts ct ((i, o, snapshot) ∷ rest) =
      let (ct', told) = content_observe fingerprint ct i o snapshot c r p in
      (told.decision, told.progress_effect) ∷ verdicts ct' rest

  -- The same by an action tracker: an unknown snapshot defers and tells it nothing.
  unfoldable pub action_verdicts :
      Option Text
      → Tracker
      → List (ValidationIdentity × ValidationOutcome × WorkspaceContentSnapshot)
      → List Verdict
  action_verdicts prior t [] = []
  action_verdicts prior t ((i, o, unknown_snapshot failure) ∷ rest) =
      (unknown_content, defer_to_conservative_classifier) ∷ action_verdicts prior t rest
  action_verdicts prior t ((i, o, known current paths bytes) ∷ rest) =
      let (t', told) = observe fingerprint (told_content prior current t) i o c r q in
      (content_decision told.decision, told.progress_effect)
      ∷ action_verdicts (some current) t' rest

  -- The content tracker gives each validation of a sequence the verdict that an action tracker gives
  -- it whose epoch advances where the known content differs from the last known one, and unknown
  -- content defers and leaves both as they are.
  pub verdicts-action_verdicts :
      (ct : ContentTracker)
      (steps : List (ValidationIdentity × ValidationOutcome × WorkspaceContentSnapshot))
      → verdicts ct steps ≡ action_verdicts ct.content_identity (view ct) steps
  unfolding verdicts action_verdicts
  verdicts-action_verdicts ct [] = refl
  verdicts-action_verdicts ct ((i, o, unknown_snapshot failure) ∷ rest) =
      let (state, decision, effect) = judged-unknown ct i o failure in
      rw (state, decision, effect, verdicts-action_verdicts ct rest) refl
  verdicts-action_verdicts ct ((i, o, known current paths bytes) ∷ rest) =
      let (state, content, decision, effect) = judged-observe ct i o current paths bytes in
      let later = verdicts-action_verdicts (judged ct i o (known current paths bytes)).0 rest in
      rw (decision, effect, later, state, content) refl
