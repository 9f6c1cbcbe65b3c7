-- ===== src/Core/Loop/Repeats.antt =====
-- An agent that runs one validation again and again: src/thorn/core/_loop.py with its convergence
-- tracker and its no-progress guard.
use thorn.Prelude.Dict.{Dict, get, put, get-put}
use thorn.Prelude.{
  ==_refl, Bool, Bool-cases, Eq, List, Option, Text, [], arith, codes, contains, false,
  if◌then◌else◌, inl, inr, keep, list_beq, list_eq, nat_eq, none, option_eq, refl, some, suc, true,
  zero, ℕ, ◌+◌, ◌==◌, ◌∷◌, ◌≡◌, ◌≤◌,
}
use thorn.Errors.{Result, ok, ◌>>=◌}
use thorn.Core.Convergence.Identity.{
  ValidationIdentity, ValidationOutcome, ValidationProgressEffect, action_epoch_v1,
  counts_as_progress, defer_to_conservative_classifier, does_not_count_as_progress, identity_eq,
  indeterminate, outcome_eq, runner_eq, scope_eq,
}
use thorn.Core.Convergence.Tracker.{
  ValidationConvergenceTelemetry, classify_outcome, identities, observe, repeated,
}
use thorn.Core.Convergence.History.{observe-effect, observe-outcomes}
use thorn.Core.Convergence.Content.{WorkspaceContentSnapshot, from_validation_policy}
use thorn.Core.Convergence.Command.Parse.{validation_outcome_from_tool_result}
use thorn.Core.Loop.Round.{
  External, ToolCall, ToolResult, normalize_tool_name, resource_access_for_tool_call, shell_tool,
  tool_call_is_observation,
}
use thorn.Core.Loop.Progress.{
  RoundProgress, Trackers, accesses, all_observations, changed, classify_tool_round_progress,
  effect_is, is_decimal, is_success, judge, material_reason, mutation_tool, observe_call,
  observe_calls, observe_shell, observed, parsed_validation, progress, remaining, result_by_call_id,
  successful_progress, tool_round_pattern, validated,
}
use thorn.Core.Loop.Guard.{NoProgressTracker, guard_round}
use thorn.Core.Loop.Stretch.{raised-guard_round, rounds-guard_round, rounds-observe_round}

module _ {ℓ κ} {W : Type ℓ} {I : Type κ} ⦃same_set : Eq W⦄ ⦃same_todos : Eq I⦄ (env : External)
    (snapshots : Dict Text WorkspaceContentSnapshot) (render_id : Text) (call : ToolCall)
    (content : Text) (state : Option W × Option I) (limit : ℕ) where
  abbrev result : ToolResult
  result = record { call_id = call.call_id; content = content; is_error = false }

  -- A round of that one call, after which the working set and the TODO items are as before.
  abbrev round_of : Trackers → Result (Trackers × RoundProgress)
  round_of ts =
      classify_tool_round_progress env action_epoch_v1 snapshots render_id ts (call ∷ [])
        (result ∷ []) false state state

  -- The loop's rounds until the guard raises, at most some number of them: whether it raised.
  unfoldable pub loop_rounds : ℕ → Trackers → NoProgressTracker → Result Bool
  loop_rounds zero ts guard = ok false
  loop_rounds (suc n) ts guard = round_of ts >>= λ seen.
      let step = guard_round limit guard seen.1 in
      let rest = loop_rounds n seen.0 step.tracker in if step.raised then ok true else rest

  changed-same {ℓ'} : {S : Type ℓ'} ⦃e : Eq S⦄ (s : Option S) → changed s s ≡ false
  unfolding changed
  changed-same none = refl
  changed-same (some v) = rw (==_refl v) refl

  -- What the tracker says of the call.
  abbrev told : Trackers → ValidationIdentity → ValidationOutcome → ValidationConvergenceTelemetry
  told ts identity o =
      (observe env.fingerprint ts.action identity o call.call_id render_id action_epoch_v1).1

  abbrev later : Trackers → ValidationIdentity → ValidationOutcome → Trackers
  later ts identity o = record ts {
    action =
        (observe env.fingerprint ts.action identity o call.call_id render_id action_epoch_v1).0;
  }

  observed_call :
      (ts : Trackers) (identity : ValidationIdentity) (o : ValidationOutcome)
      → normalize_tool_name env call.name ≡ shell_tool
      → parsed_validation env call.arguments ≡ ok (some identity)
      → validation_outcome_from_tool_result (is_decimal env) content false ≡ o
      → observe_call env action_epoch_v1 snapshots render_id ts call result
        ≡ ok (later ts identity o, validated (told ts identity o) ∷ [])
  unfolding observe_call observe_shell judge from_validation_policy mutation_tool list_beq
  observed_call ts identity o named parses outcome =
      rw (observe_call, named, parses, outcome, named) refl

  found : get (result_by_call_id [] (result ∷ [])) call.call_id ≡ some result
  unfolding result_by_call_id put get
  found = rw (==_refl call.call_id) refl

  observed_calls :
      (ts : Trackers) (identity : ValidationIdentity) (o : ValidationOutcome)
      → normalize_tool_name env call.name ≡ shell_tool
      → parsed_validation env call.arguments ≡ ok (some identity)
      → validation_outcome_from_tool_result (is_decimal env) content false ≡ o
      → observe_calls env action_epoch_v1 snapshots render_id ts
          (result_by_call_id [] (result ∷ []))
          (call ∷ [])
        ≡ ok (later ts identity o, validated (told ts identity o) ∷ [])
  unfolding observe_calls
  observed_calls ts identity o named parses outcome =
      rw (observe_calls, found, observed_call ts identity o named parses outcome) refl

  no_material :
      (identity : ValidationIdentity)
      → normalize_tool_name env call.name ≡ shell_tool
      → parsed_validation env call.arguments ≡ ok (some identity)
      → material_reason env action_epoch_v1 snapshots render_id (call ∷ []) ≡ ok none
  unfolding material_reason contains list_beq
  no_material identity named parses = rw (material_reason, named, parses) refl

  abbrev judged : Text → ValidationConvergenceTelemetry → ValidationProgressEffect → RoundProgress
  judged pattern t counts_as_progress =
      progress true (codes "validation produced a new convergence observation") pattern []
        (validated t ∷ [])
  judged pattern t _ =
      progress false (codes "successful tool round only used non-material tools") pattern []
        (validated t ∷ [])

  -- Where nothing is material, of an effect that does not defer.
  remaining-judged :
      (pattern : Text) (t : ValidationConvergenceTelemetry) (e : ValidationProgressEffect)
      → tool_call_is_observation env call ≡ ok false
      → resource_access_for_tool_call env call ≡ ok none
      → t.progress_effect ≡ e
      → effect_is defer_to_conservative_classifier e ≡ false
      → remaining env action_epoch_v1 snapshots render_id pattern (validated t ∷ []) (call ∷ [])
        ≡ ok (judged pattern t e)
  unfolding remaining observed accesses all_observations
  remaining-judged pattern t counts_as_progress blind unused effect h = rw (effect) refl
  remaining-judged pattern t does_not_count_as_progress blind unused effect h =
      rw (effect, unused, blind) refl
  remaining-judged pattern t defer_to_conservative_classifier blind unused effect h = cc

  abbrev pattern : Text
  pattern = tool_round_pattern env (result_by_call_id [] (result ∷ [])) (call ∷ [])

  all_successful : keep (is_success (result ∷ [])) (call ∷ []) ≡ call ∷ []
  unfolding is_success
  all_successful = rw (==_refl call.call_id) refl

  successful-judged :
      (identity : ValidationIdentity) (t : ValidationConvergenceTelemetry)
      → normalize_tool_name env call.name ≡ shell_tool
      → parsed_validation env call.arguments ≡ ok (some identity)
      → tool_call_is_observation env call ≡ ok false
      → resource_access_for_tool_call env call ≡ ok none
      → effect_is defer_to_conservative_classifier t.progress_effect ≡ false
      → successful_progress env action_epoch_v1 snapshots render_id false false pattern
          (validated t ∷ [])
          (call ∷ [])
        ≡ ok (judged pattern t t.progress_effect)
  unfolding successful_progress
  successful-judged identity t named parses blind unused clear =
      rw
        (
          successful_progress,
          no_material identity named parses,
          remaining-judged pattern t t.progress_effect blind unused refl clear,
        )
        refl

  -- A round of the call is judged by the effect of its validation alone.
  round-judged :
      (ts : Trackers) (identity : ValidationIdentity) (o : ValidationOutcome)
      → normalize_tool_name env call.name ≡ shell_tool
      → parsed_validation env call.arguments ≡ ok (some identity)
      → validation_outcome_from_tool_result (is_decimal env) content false ≡ o
      → tool_call_is_observation env call ≡ ok false
      → resource_access_for_tool_call env call ≡ ok none
      → effect_is defer_to_conservative_classifier (told ts identity o).progress_effect ≡ false
      → round_of ts
        ≡ ok (
          later ts identity o,
          judged pattern (told ts identity o) (told ts identity o).progress_effect,
        )
  unfolding classify_tool_round_progress
  round-judged ts identity o named parses outcome blind unused clear =
      rw
        (
          classify_tool_round_progress,
          observed_calls ts identity o named parses outcome,
          all_successful,
          changed-same state.0,
          changed-same state.1,
          successful-judged identity (told ts identity o) named parses blind unused clear,
        )
        refl

  module _ (identity : ValidationIdentity) (o : ValidationOutcome)
      (named : normalize_tool_name env call.name ≡ shell_tool)
      (parses : parsed_validation env call.arguments ≡ ok (some identity))
      (outcome : validation_outcome_from_tool_result (is_decimal env) content false ≡ o)
      (determinate : (o == indeterminate) ≡ false)
      (blind : tool_call_is_observation env call ≡ ok false)
      (unused : resource_access_for_tool_call env call ≡ ok none) where
    abbrev effect : Trackers → ValidationProgressEffect
    effect ts = (told ts identity o).progress_effect

    repeated-effect :
        (prior : ValidationOutcome)
        → effect_is defer_to_conservative_classifier (repeated prior o).1 ≡ false
    unfolding repeated
    repeated-effect prior = elim (Bool-cases (prior == o)) [
      | inl same ↦ rw (same) refl
      | inr other ↦ rw (other) refl
    ]

    classify_outcome-effect :
        (prior : Option ValidationOutcome) (js : List ValidationIdentity)
        → effect_is defer_to_conservative_classifier (classify_outcome identity prior js o).1
          ≡ false
    unfolding classify_outcome
    classify_outcome-effect none js = refl
    classify_outcome-effect (some prior) js = repeated-effect prior

    effect-classify_outcome :
        (ts : Trackers)
        → effect ts
          ≡ (classify_outcome identity
              (get ts.action.outcomes identity)
              (identities ts.action.outcomes)
              o).1
    effect-classify_outcome ts =
        observe-effect env.fingerprint ts.action identity o call.call_id render_id action_epoch_v1
          determinate

    effect-clear : (ts : Trackers) → effect_is defer_to_conservative_classifier (effect ts) ≡ false
    effect-clear ts =
        rw (effect-classify_outcome ts) (
          classify_outcome-effect (get ts.action.outcomes identity) (identities ts.action.outcomes))

    effect-known :
        (ts : Trackers)
        → get ts.action.outcomes identity ≡ some o
        → effect ts ≡ does_not_count_as_progress
    unfolding classify_outcome repeated
    effect-known ts before = rw (effect-classify_outcome ts, before, ==_refl o) refl

    later-known : (ts : Trackers) → get (later ts identity o).action.outcomes identity ≡ some o
    later-known ts =
        rw
          (
            observe-outcomes env.fingerprint ts.action identity o call.call_id render_id
                action_epoch_v1,
            determinate,
            get-put ts.action.outcomes identity o identity,
            ==_refl identity,
          )
          refl

    round-lem :
        (ts : Trackers)
        → round_of ts ≡ ok (later ts identity o, judged pattern (told ts identity o) (effect ts))
    round-lem ts = round-judged ts identity o named parses outcome blind unused (effect-clear ts)

    idle-raises :
        (n : ℕ) (ts : Trackers) (guard : NoProgressTracker)
        → get ts.action.outcomes identity ≡ some o
        → 1 ≤ limit
        → 1 ≤ n
        → limit ≤ guard.rounds_without_progress + n
        → loop_rounds n ts guard ≡ ok true
    unfolding loop_rounds
    idle-raises zero ts guard before positive some_left enough = ground (arith, some_left)
    idle-raises (suc n) ts guard before positive some_left enough =
        let r = judged pattern (told ts identity o) does_not_count_as_progress in
        let raised = raised-guard_round limit guard r in
        let rounds = rounds-guard_round limit guard r in
        let seen = rounds-observe_round guard r in
        elim (Bool-cases (guard_round limit guard r).raised) [
          | inl stops ↦ rw (loop_rounds, round-lem ts, effect-known ts before, stops) refl
          | inr goes_on ↦
              rw (loop_rounds, round-lem ts, effect-known ts before, goes_on)
                (idle-raises n (later ts identity o) (guard_round limit guard r).tracker
                  (later-known ts) positive
                  (ground (arith, goes_on, raised, seen, positive, enough))
                  (ground (arith, goes_on, raised, rounds, seen, positive, enough)))
        ]

    -- A round of one call to run_shell, whose arguments parse to a validation, which is no
    -- inspection of files and has a determinate outcome, the same each time: where the working set
    -- and the TODO items stay as they are and the limit is not 0, the loop under the action epoch
    -- policy raises within limit + 1 such rounds, whatever was validated before.
    pub loop_rounds-raises :
        (ts : Trackers) (guard : NoProgressTracker)
        → 1 ≤ limit
        → loop_rounds (suc limit) ts guard ≡ ok true
    unfolding loop_rounds
    loop_rounds-raises ts guard positive =
        let r = judged pattern (told ts identity o) (effect ts) in
        elim (Bool-cases (guard_round limit guard r).raised) [
          | inl stops ↦ rw (loop_rounds, round-lem ts, stops) refl
          | inr goes_on ↦
              rw (loop_rounds, round-lem ts, goes_on)
                (idle-raises limit (later ts identity o) (guard_round limit guard r).tracker
                  (later-known ts) positive positive (ground arith))
        ]
