-- ===== src/Core/Convergence/Command/Scopes.antt =====
-- Arguments that leave the identity of a validation of src/thorn/core/_validation_convergence.py as it
-- is, and the scope of a pytest run.
use thorn.Prelude.{
  Bool, List, Option, Text, [], all, arith, contains, false, keep, list_eq, nat_eq, not, option_eq,
  refl, true, ◌&&◌, ◌++◌, ◌∷◌, ◌≡◌,
}
use thorn.Core.Convergence.Identity.{
  identity_eq, outcome_eq, pytest, runner_eq, scope_eq, workspace,
}
use thorn.Core.Convergence.Command.Arguments.{
  is_option, is_presentation, normalize_runner_arguments, pytest_options_with_values, pytest_scope,
  pytest_scope_loop, pytest_selection_options_with_values,
}
use thorn.Core.Convergence.Command.Parse.{identify}

keep-append-dropped :
    (p : Text → Bool) (xs ys : List Text) (a : Text)
    → p a ≡ false
    → keep p (xs ++ (a ∷ ys)) ≡ keep p (xs ++ ys)
keep-append-dropped p [] ys a h = rw (h) refl
keep-append-dropped p (x ∷ xs) ys a h = rw (keep-append-dropped p xs ys a h) refl

-- A pytest run with one more flag of presentation, wherever it stands, has the same identity.
pub identify-presentation :
    (normal_path : Text → Text) (directory : Option Text) (xs ys : List Text) (flag : Text)
    → is_presentation flag ≡ true
    → identify normal_path directory (pytest, xs ++ (flag ∷ ys))
      ≡ identify normal_path directory (pytest, xs ++ ys)
unfolding identify normalize_runner_arguments
identify-presentation normal_path directory xs ys flag h =
    rw (keep-append-dropped (λ a. not (is_presentation a)) xs ys flag (rw (h) refl)) refl

-- An option that takes its value from the same word, or none.
abbrev pub lone_option : Text → Bool
lone_option a =
    is_option a
    && not (contains a pytest_selection_options_with_values)
    && not (contains a pytest_options_with_values)

pytest_scope_loop-options :
    (arguments : List Text)
    → all lone_option arguments ≡ true
    → pytest_scope_loop false arguments ≡ workspace
unfolding pytest_scope_loop
pytest_scope_loop-options [] h = refl
pytest_scope_loop-options (a ∷ rest) h = ground (arith, h, pytest_scope_loop-options rest)

-- A pytest run whose arguments all start with a dash, and none of which is exactly an option with a
-- value, validates the workspace: also one that selects by `-kname` or `--ignore=path`.
pub pytest_scope-options :
    (arguments : List Text) → all lone_option arguments ≡ true → pytest_scope arguments ≡ workspace
unfolding pytest_scope
pytest_scope-options arguments h = pytest_scope_loop-options arguments h
