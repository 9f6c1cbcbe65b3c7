-- ===== src/Core/Convergence/History.antt =====
-- The convergence tracker of src/thorn/core/_validation_convergence.py against the history of what
-- it was told.
use thorn.Prelude.Dict.{get, put, get-put}
use thorn.Prelude.{
  ==_iff, Bool, Bool-cases, List, Option, Option-cases, Text, [], any, ap, arith, false,
  if◌then◌else◌, inl, inr, list_eq, nat_eq, none, not, option_eq, refl, some, suc, sym, true, ℕ,
  ◌&&◌, ◌==◌, ◌||◌, ◌∷◌, ◌≡◌,
}
use thorn.Core.Convergence.Identity.{
  ValidationActionEpochReason, ValidationActionTool, ValidationConvergenceDecision,
  ValidationConvergencePolicy, ValidationIdentity, ValidationOutcome, ValidationProgressEffect,
  ValidationRunner, broader_validation, changed_outcome, counts_as_progress,
  defer_to_conservative_classifier, distinct_validation, does_not_count_as_progress,
  equivalent_repeat, first_in_action_epoch, identity_eq, indeterminate, indeterminate_outcome,
  outcome_eq, runner_eq, scope_eq, workspace,
}
use thorn.Core.Convergence.Tracker.{
  Outcomes, Tracker, advance_workspace_action_epoch, classify_outcome, fresh, identities,
  is_broader_than_prior, narrower, novel, observation, observe, repeated,
}

-- What the loop tells a tracker.
pub data Event : Type 0 where
  acted :
      (call_id render_id : Text) (reason : ValidationActionEpochReason)
      (tool_name : ValidationActionTool)
      → Event
  validated :
      (identity : ValidationIdentity) (outcome : ValidationOutcome) (call_id render_id : Text)
      (policy : ValidationConvergencePolicy)
      → Event

-- A history has its newest event first. The outcome an identity last had, in the newest epoch.
unfoldable pub last_outcome : List Event → ValidationIdentity → Option ValidationOutcome
last_outcome [] i = none
last_outcome (acted c r reason tool ∷ earlier) i = none
last_outcome (validated j o c r p ∷ earlier) i =
    let rest = last_outcome earlier i in
    if o == indeterminate then rest else if j == i then some o else rest

-- Whether some identity with a determinate outcome in the newest epoch passes a test.
unfoldable pub validated_any : (ValidationIdentity → Bool) → List Event → Bool
validated_any q [] = false
validated_any q (acted c r reason tool ∷ earlier) = false
validated_any q (validated j o c r p ∷ earlier) =
    let rest = validated_any q earlier in if o == indeterminate then rest else q j || rest

unfoldable pub actions : List Event → ℕ
actions [] = 0
actions (acted c r reason tool ∷ earlier) = suc (actions earlier)
actions (validated j o c r p ∷ earlier) = actions earlier

-- The decision that the history calls for.
unfoldable pub expected_decision :
    List Event → ValidationIdentity → ValidationOutcome → ValidationConvergenceDecision
expected_decision h i o =
    if o == indeterminate then indeterminate_outcome else elim (last_outcome h i) [
      | some prior ↦ if prior == o then equivalent_repeat else changed_outcome
      | none ↦
          if not (validated_any (λ j. true) h)
          then first_in_action_epoch
          else if (i.scope == workspace) && validated_any (narrower i) h
          then broader_validation
          else distinct_validation
    ]

abbrev pub effect_of : ValidationConvergenceDecision → ValidationProgressEffect
effect_of equivalent_repeat = does_not_count_as_progress
effect_of indeterminate_outcome = defer_to_conservative_classifier
effect_of _ = counts_as_progress

any-put :
    (q : ValidationIdentity → Bool) (d : Outcomes) (i : ValidationIdentity) (o : ValidationOutcome)
    → any q (identities (put d i o)) ≡ (q i || any q (identities d))
unfolding put
any-put q [] i o = refl
any-put q ((j, p) ∷ d) i o = elim (Bool-cases (j == i)) [
  | inl same ↦ (let equal = (==_iff j i).0 same in rw (same, equal) (ground arith))
  | inr other ↦ rw (other) (ground (arith, any-put q d i o))
]

novel_lem :
    (i : ValidationIdentity) (js : List ValidationIdentity)
    → novel i js ≡ (
        if not (any (λ j. true) js)
        then first_in_action_epoch
        else if (i.scope == workspace) && any (narrower i) js
        then broader_validation
        else distinct_validation)
unfolding novel is_broader_than_prior
novel_lem i [] = refl
novel_lem i (j ∷ js) = elim (Bool-cases (i.scope == workspace)) [
  | inl wide ↦ rw (wide) refl
  | inr narrow ↦ rw (narrow) refl
]

module _ (fingerprint : ValidationRunner → List Text → Option Text → Text) where
  unfoldable pub step : Tracker → Event → Tracker
  step t (acted c r reason tool) = (advance_workspace_action_epoch t c r reason tool).0
  step t (validated i o c r p) = (observe fingerprint t i o c r p).0

  -- A new tracker, told a history.
  unfoldable pub tracker_after : List Event → Tracker
  tracker_after [] = fresh
  tracker_after (e ∷ earlier) = step (tracker_after earlier) e

  pub observe-outcomes :
      (t : Tracker) (i : ValidationIdentity) (o : ValidationOutcome) (c r : Text)
      (p : ValidationConvergencePolicy)
      → (observe fingerprint t i o c r p).0
        ≡ (if o == indeterminate then t else record t { outcomes = put t.outcomes i o })
  unfolding observe
  observe-outcomes t i o c r p = elim (Bool-cases (o == indeterminate)) [
    | inl vague ↦ rw (vague) refl
    | inr clear ↦ rw (clear) refl
  ]

  pub observe-effect :
      (t : Tracker) (i : ValidationIdentity) (o : ValidationOutcome) (c r : Text)
      (p : ValidationConvergencePolicy)
      → (o == indeterminate) ≡ false
      → (observe fingerprint t i o c r p).1.progress_effect
        ≡ (classify_outcome i (get t.outcomes i) (identities t.outcomes) o).1
  unfolding observe observation
  observe-effect t i o c r p clear = rw (clear) refl

  get-tracker_after :
      (h : List Event) (i : ValidationIdentity)
      → get (tracker_after h).outcomes i ≡ last_outcome h i
  unfolding tracker_after step last_outcome advance_workspace_action_epoch get
  get-tracker_after [] i = refl
  get-tracker_after (acted c r reason tool ∷ h) i = refl
  get-tracker_after (validated j o c r p ∷ h) i = elim (Bool-cases (o == indeterminate)) [
    | inl vague ↦ rw (observe-outcomes (tracker_after h) j o c r p, vague) (get-tracker_after h i)
    | inr clear ↦
        rw
          (
            observe-outcomes (tracker_after h) j o c r p,
            clear,
            get-put (tracker_after h).outcomes j o i,
            get-tracker_after h i,
          )
          refl
  ]

  any-tracker_after :
      (q : ValidationIdentity → Bool) (h : List Event)
      → any q (identities (tracker_after h).outcomes) ≡ validated_any q h
  unfolding tracker_after step validated_any advance_workspace_action_epoch
  any-tracker_after q [] = refl
  any-tracker_after q (acted c r reason tool ∷ h) = refl
  any-tracker_after q (validated j o c r p ∷ h) = elim (Bool-cases (o == indeterminate)) [
    | inl vague ↦ rw (observe-outcomes (tracker_after h) j o c r p, vague) (any-tracker_after q h)
    | inr clear ↦
        rw
          (
            observe-outcomes (tracker_after h) j o c r p,
            clear,
            any-put q (tracker_after h).outcomes j o,
            any-tracker_after q h,
          )
          refl
  ]

  epoch-tracker_after : (h : List Event) → (tracker_after h).workspace_action_epoch ≡ actions h
  unfolding tracker_after step actions advance_workspace_action_epoch
  epoch-tracker_after [] = refl
  epoch-tracker_after (acted c r reason tool ∷ h) = ap suc (epoch-tracker_after h)
  epoch-tracker_after (validated j o c r p ∷ h) = elim (Bool-cases (o == indeterminate)) [
    | inl vague ↦ rw (observe-outcomes (tracker_after h) j o c r p, vague) (epoch-tracker_after h)
    | inr clear ↦ rw (observe-outcomes (tracker_after h) j o c r p, clear) (epoch-tracker_after h)
  ]

  effect-repeated :
      (prior o : ValidationOutcome)
      → repeated prior o ≡ (
        if prior == o then equivalent_repeat else changed_outcome,
        effect_of (if prior == o then equivalent_repeat else changed_outcome),
      )
  unfolding repeated
  effect-repeated prior o = elim (Bool-cases (prior == o)) [
    | inl same ↦ rw (same) refl
    | inr other ↦ rw (other) refl
  ]

  effect-novel :
      (i : ValidationIdentity) (js : List ValidationIdentity)
      → effect_of (novel i js) ≡ counts_as_progress
  unfolding novel
  effect-novel i [] = refl
  effect-novel i (j ∷ js) = elim (Bool-cases (is_broader_than_prior i (j ∷ js))) [
    | inl wide ↦ rw (wide) refl
    | inr narrow ↦ rw (narrow) refl
  ]

  expected-classify_outcome :
      (h : List Event) (i : ValidationIdentity) (o : ValidationOutcome)
      → (o == indeterminate) ≡ false
      → classify_outcome i (last_outcome h i) (identities (tracker_after h).outcomes) o
        ≡ (expected_decision h i o, effect_of (expected_decision h i o))
  unfolding classify_outcome expected_decision
  expected-classify_outcome h i o clear = elim (Option-cases (last_outcome h i)) [
    | inr (prior, found) ↦ rw (found, clear) (effect-repeated prior o)
    | inl missing ↦
        (let js = identities (tracker_after h).outcomes in
          let decision : novel i js ≡ (
              if not (validated_any (λ j. true) h)
              then first_in_action_epoch
              else if (i.scope == workspace) && validated_any (narrower i) h
              then broader_validation
              else distinct_validation) =
            rw (sym (any-tracker_after (λ j. true) h), sym (any-tracker_after (narrower i) h))
              (novel_lem i js) in
          rw (missing, clear, sym decision, effect-novel i js) refl)
  ]

  expected-indeterminate :
      (h : List Event) (i : ValidationIdentity) (o : ValidationOutcome)
      → (o == indeterminate) ≡ true
      → expected_decision h i o ≡ indeterminate_outcome
  unfolding expected_decision
  expected-indeterminate h i o vague = rw (vague) refl

  -- After any history of actions and validations a validation is judged by the history alone: the decision is the expected one, the effect is the decision's,
  -- the prior outcome is the last determinate one of the identity since the last action, and the
  -- epoch is the number of actions.
  pub observe-history :
      (h : List Event) (i : ValidationIdentity) (o : ValidationOutcome) (c r : Text)
      (p : ValidationConvergencePolicy)
      → let told = (observe fingerprint (tracker_after h) i o c r p).1 in
        (told.decision ≡ expected_decision h i o)
        × (told.progress_effect ≡ effect_of (expected_decision h i o))
        × (told.prior_outcome ≡ last_outcome h i)
        × (told.workspace_action_epoch ≡ actions h)
  unfolding observe observation
  observe-history h i o c r p = elim (Bool-cases (o == indeterminate)) [
    | inl vague ↦
        rw (vague, expected-indeterminate h i o vague)
          (refl, refl, get-tracker_after h i, epoch-tracker_after h)
    | inr clear ↦
        rw (clear, get-tracker_after h i, expected-classify_outcome h i o clear)
          (refl, refl, refl, epoch-tracker_after h)
  ]
