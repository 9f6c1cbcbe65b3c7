-- ===== src/Core/Convergence/Progress.antt =====
-- Repeated runs of the same validations under src/thorn/core/_validation_convergence.py.
use thorn.Prelude.Dict.{get, get-put}
use thorn.Prelude.{
  ==_iff, ==_refl, All, Bool, Bool-cases, List, Option, Text, [], arith, false, if◌then◌else◌, inl,
  inr, list_eq, nat_eq, option_eq, refl, some, suc, sym, true, ℕ, ◌==◌, ◌||◌, ◌∷◌, ◌≡◌,
}
use thorn.Core.Convergence.Identity.{
  ValidationConvergencePolicy, ValidationIdentity, ValidationOutcome, ValidationProgressEffect,
  ValidationRunner, counts_as_progress, identity_eq, indeterminate, outcome_eq, runner_eq, scope_eq,
}
use thorn.Core.Convergence.Tracker.{Tracker, classify_outcome, observation, observe, repeated}
use thorn.Core.Convergence.History.{observe-outcomes}

abbrev pub counts : ValidationProgressEffect → Bool
counts counts_as_progress = true
counts _ = false

module _ (fingerprint : ValidationRunner → List Text → Option Text → Text)
    (answer : ValidationIdentity → ValidationOutcome) (c r : Text)
    (p : ValidationConvergencePolicy) where
  -- Each identity observed in turn with its answer, and how many of them counted as progress.
  unfoldable pub suite : Tracker → List ValidationIdentity → Tracker × ℕ
  suite t [] = (t, 0)
  suite t (i ∷ is) =
      let (t', told) = observe fingerprint t i (answer i) c r p in
      let (t'', n) = suite t' is in (t'', if counts told.progress_effect then suc n else n)

  abbrev after : Tracker → ValidationIdentity → Tracker
  after t i = (observe fingerprint t i (answer i) c r p).0

  abbrev settled : Tracker → ValidationIdentity → Bool
  settled t i = (answer i == indeterminate) || (get t.outcomes i == some (answer i))

  settled-after : (t : Tracker) (i : ValidationIdentity) → settled (after t i) i ≡ true
  settled-after t i = elim (Bool-cases (answer i == indeterminate)) [
    | inl vague ↦ rw (vague) refl
    | inr clear ↦
        rw
          (
            observe-outcomes fingerprint t i (answer i) c r p,
            clear,
            get-put t.outcomes i (answer i) i,
            ==_refl i,
          )
          (==_refl (some (answer i)))
  ]

  settled-keeps :
      (t : Tracker) (i j : ValidationIdentity) → settled t j ≡ true → settled (after t i) j ≡ true
  settled-keeps t i j h = elim (Bool-cases (answer i == indeterminate)) [
    | inl vague ↦ rw (observe-outcomes fingerprint t i (answer i) c r p, vague) h
    | inr clear ↦ elim (Bool-cases (i == j)) [
      | inl same ↦ rw (sym ((==_iff i j).0 same)) (settled-after t i)
      | inr other ↦
          rw
            (
              observe-outcomes fingerprint t i (answer i) c r p,
              clear,
              get-put t.outcomes i (answer i) j,
              other,
            )
            h
    ]
  ]

  suite-settled :
      (t : Tracker) (is : List ValidationIdentity) (j : ValidationIdentity)
      → settled t j ≡ true
      → settled (suite t is).0 j ≡ true
  unfolding suite
  suite-settled t [] j h = h
  suite-settled t (i ∷ is) j h = suite-settled (after t i) is j (settled-keeps t i j h)

  suite-All :
      (t : Tracker) (is : List ValidationIdentity) → All (λ j. settled (suite t is).0 j ≡ true) is
  unfolding suite
  suite-All t [] = tt
  suite-All t (i ∷ is) =
      (suite-settled (after t i) is i (settled-after t i), suite-All (after t i) is)

  All-after :
      (t : Tracker) (i : ValidationIdentity) (js : List ValidationIdentity)
      → All (λ j. settled t j ≡ true) js
      → All (λ j. settled (after t i) j ≡ true) js
  All-after t i [] h = tt
  All-after t i (j ∷ js) h = (settled-keeps t i j h.0, All-after t i js h.1)

  quiet :
      (t : Tracker) (i : ValidationIdentity)
      → settled t i ≡ true
      → counts (observe fingerprint t i (answer i) c r p).1.progress_effect ≡ false
  unfolding observe observation classify_outcome repeated
  quiet t i h = elim (Bool-cases (answer i == indeterminate)) [
    | inl vague ↦ rw (vague) refl
    | inr clear ↦
        (let found : get t.outcomes i ≡ some (answer i) =
            (==_iff (get t.outcomes i) (some (answer i))).0 (ground (arith, h, clear)) in
          rw (clear, found, ==_refl (answer i)) refl)
  ]

  suite-quiet :
      (t : Tracker) (is : List ValidationIdentity)
      → All (λ j. settled t j ≡ true) is
      → (suite t is).1 ≡ 0
  unfolding suite
  suite-quiet t [] h = refl
  suite-quiet t (i ∷ is) h = rw (quiet t i h.0) (suite-quiet (after t i) is (All-after t i is h.1))

  -- Whatever was validated before, a list of validations that ran once in an epoch counts nothing as
  -- progress when it runs again in that epoch with the same answers.
  pub suite-repeated :
      (t : Tracker) (is : List ValidationIdentity) → (suite (suite t is).0 is).1 ≡ 0
  suite-repeated t is = suite-quiet (suite t is).0 is (suite-All t is)
