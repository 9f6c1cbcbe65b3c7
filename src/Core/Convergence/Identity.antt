-- ===== src/Core/Convergence/Identity.antt =====
-- The vocabulary of src/thorn/core/_validation_convergence.py, and the equality of identities.
use thorn.Prelude.{
  ==_iff, Bool, Eq, List, Option, Text, [], ap, arith, false, get_or, list_eq, nat_beq, nat_eq,
  option_eq, refl, sym, true, ℕ, ◌&&◌, ◌==◌, ◌↔◌, ◌∙◌, ◌∷◌, ◌≡◌,
}

pub data ValidationRunner : Type 0 where
  pytest ruff_check ruff_format_check mypy pyright : ValidationRunner
  npm_test pnpm_test yarn_test cargo_test go_test : ValidationRunner

pub data ValidationConvergencePolicy : Type 0 where
  baseline action_epoch_v1 workspace_content_observe_v2 : ValidationConvergencePolicy
  workspace_content_v2 : ValidationConvergencePolicy

abbrev pub applies_progress_effect : ValidationConvergencePolicy → Bool
applies_progress_effect action_epoch_v1 = true
applies_progress_effect workspace_content_v2 = true
applies_progress_effect _ = false

pub data ValidationScope : Type 0 where
  targeted workspace unknown : ValidationScope

pub data ValidationOutcome : Type 0 where
  succeeded failed indeterminate : ValidationOutcome

pub data ValidationConvergenceDecision : Type 0 where
  first_in_action_epoch distinct_validation broader_validation : ValidationConvergenceDecision
  changed_outcome equivalent_repeat indeterminate_outcome : ValidationConvergenceDecision

pub data ValidationProgressEffect : Type 0 where
  counts_as_progress does_not_count_as_progress : ValidationProgressEffect
  defer_to_conservative_classifier : ValidationProgressEffect

pub data ValidationActionEpochReason : Type 0 where
  native_material_mutation opaque_shell_possible_mutation : ValidationActionEpochReason

pub data ValidationActionTool : Type 0 where
  create_file edit_file delete_file move_file run_shell : ValidationActionTool

pub record ValidationIdentity : Type 0 where
  pub runner : ValidationRunner
  pub arguments : List Text
  pub working_directory : Option Text
  pub scope : ValidationScope

-- The equality of the enumerations, by the place of a constructor.
abbrev pub runner_index : ValidationRunner → ℕ
runner_index pytest = 0
runner_index ruff_check = 1
runner_index ruff_format_check = 2
runner_index mypy = 3
runner_index pyright = 4
runner_index npm_test = 5
runner_index pnpm_test = 6
runner_index yarn_test = 7
runner_index cargo_test = 8
runner_index go_test = 9

abbrev pub runner_at : ℕ → ValidationRunner
runner_at i =
    get_or
      (pytest ∷ ruff_check ∷ ruff_format_check ∷ mypy ∷ pyright ∷ npm_test ∷ pnpm_test ∷ yarn_test
        ∷ cargo_test ∷ [])
      i go_test

pub runner_at-index : (r : ValidationRunner) → runner_at (runner_index r) ≡ r
runner_at-index pytest = refl
runner_at-index ruff_check = refl
runner_at-index ruff_format_check = refl
runner_at-index mypy = refl
runner_at-index pyright = refl
runner_at-index npm_test = refl
runner_at-index pnpm_test = refl
runner_at-index yarn_test = refl
runner_at-index cargo_test = refl
runner_at-index go_test = refl

abbrev pub scope_index : ValidationScope → ℕ
scope_index targeted = 0
scope_index workspace = 1
scope_index unknown = 2

abbrev pub scope_at : ℕ → ValidationScope
scope_at i = get_or (targeted ∷ workspace ∷ []) i unknown

pub scope_at-index : (s : ValidationScope) → scope_at (scope_index s) ≡ s
scope_at-index targeted = refl
scope_at-index workspace = refl
scope_at-index unknown = refl

abbrev pub outcome_index : ValidationOutcome → ℕ
outcome_index succeeded = 0
outcome_index failed = 1
outcome_index indeterminate = 2

abbrev pub outcome_at : ℕ → ValidationOutcome
outcome_at i = get_or (succeeded ∷ failed ∷ []) i indeterminate

pub outcome_at-index : (o : ValidationOutcome) → outcome_at (outcome_index o) ≡ o
outcome_at-index succeeded = refl
outcome_at-index failed = refl
outcome_at-index indeterminate = refl

-- A type with a left inverse into the numbers has an equality test.
abbrev pub eq_by {ℓ} :
    {A : Type ℓ} (index : A → ℕ) (at : ℕ → A) → ((a : A) → at (index a) ≡ a) → Eq A
eq_by index at inverse = record {
  beq = λ a b. nat_beq (index a) (index b);
  beq_iff = λ a b. (
    λ h. sym (inverse a) ∙ ap at ((==_iff (index a) (index b)).0 h) ∙ inverse b,
    λ h. (==_iff (index a) (index b)).1 (ap index h),
  );
}

instance abbrev pub runner_eq : Eq ValidationRunner
runner_eq = eq_by runner_index runner_at runner_at-index

instance abbrev pub scope_eq : Eq ValidationScope
scope_eq = eq_by scope_index scope_at scope_at-index

instance abbrev pub outcome_eq : Eq ValidationOutcome
outcome_eq = eq_by outcome_index outcome_at outcome_at-index

unfoldable pub identity_beq : ValidationIdentity → ValidationIdentity → Bool
identity_beq a b =
    (a.runner == b.runner)
    && (a.arguments == b.arguments)
    && (a.working_directory == b.working_directory)
    && (a.scope == b.scope)

pub identity_beq_iff : (a b : ValidationIdentity) → (identity_beq a b ≡ true) ↔ (a ≡ b)
unfolding identity_beq
identity_beq_iff a b = ground (
  arith,
  ==_iff a.runner b.runner,
  ==_iff a.arguments b.arguments,
  ==_iff a.working_directory b.working_directory,
  ==_iff a.scope b.scope,
)

instance abbrev pub identity_eq : Eq ValidationIdentity
identity_eq = record { beq = identity_beq; beq_iff = identity_beq_iff }
