-- ===== src/Core/Loop/Repetition/Alike.antt =====
-- When the repetition guard of src/thorn/core/_loop.py raises, in terms of the rounds themselves.
use thorn.Prelude.{
  Bool, Bool-cases, List, Option, Text, [], any, ap, arith, bool_eq, false, if◌then◌else◌, inl, inr,
  leb, list_eq, map, nat_eq, none, not, option_beq, option_eq, pair_eq, refl, some, suc, sym, ℕ,
  ◌&&◌, ◌==◌, ◌∙◌, ◌∷◌, ◌≡◌,
}
use thorn.Core.Loop.Round.{ToolCall, ToolResult}
use thorn.Core.Loop.Repetition.{
  fingerprint_eq, Fingerprint, LoopRound, canonicalize_tool_arguments, fingerprint_beq,
  fingerprint_of, raised-step, repeats, repetition_after, repetition_round, repetition_step,
  text_kind, text_only, tool_calls_kind, with_tools,
}

module _ (canonical : Text → Option Text) where
  -- The calls of a round with canonical arguments, and its results, as far as they are compared.
  abbrev pub calls_of : List ToolCall → List (Text × Text)
  calls_of calls = map (λ c. (c.name, canonicalize_tool_arguments canonical c.arguments)) calls

  abbrev pub results_of : List ToolResult → List (Text × Bool)
  results_of results = map (λ r. (r.content, r.is_error)) results

  abbrev pub has_success : LoopRound → Bool
  has_success (text_only text) = false
  has_success (with_tools text calls results) = any (λ r. not r.is_error) results

  -- Two rounds say and do the same, the older of them without a successful result.
  abbrev pub alike : LoopRound → LoopRound → Bool
  alike (text_only t) (text_only u) = t == u
  alike (with_tools t calls results) (with_tools u others outcomes) =
      not (any (λ r. not r.is_error) results)
      && (t == u)
      && (calls_of calls == calls_of others)
      && (results_of results == results_of outcomes)
  alike _ _ = false

  -- How many of the newest rounds in a row are like a round.
  abbrev pub alike_run : LoopRound → List LoopRound → ℕ
  alike_run r [] = 0
  alike_run r (earlier ∷ rounds) =
      let rest = alike_run r rounds in if alike earlier r then suc rest else 0

  -- The fingerprint of a round without a successful result.
  print : LoopRound → Fingerprint
  print (text_only text) = text_kind text
  print (with_tools text calls results) = tool_calls_kind text (calls_of calls) (results_of results)

  fingerprint_of-print :
      (r : LoopRound)
      → fingerprint_of canonical r ≡ (if has_success r then none else some (print r))
  unfolding fingerprint_of print
  fingerprint_of-print (text_only text) = refl
  fingerprint_of-print (with_tools text calls results) = refl

  print-alike : (r s : LoopRound) → (fingerprint_of canonical s == some (print r)) ≡ alike s r
  unfolding fingerprint_of fingerprint_beq option_beq print
  print-alike (text_only t) (text_only u) = refl
  print-alike (with_tools t calls results) (text_only u) = refl
  print-alike (text_only t) (with_tools u others outcomes) = ground arith
  print-alike (with_tools t calls results) (with_tools u others outcomes) = ground arith

  repeats-alike :
      (r : LoopRound) (h : List LoopRound) → repeats canonical (print r) h ≡ alike_run r h
  unfolding repeats
  repeats-alike r [] = refl
  repeats-alike r (s ∷ h) = rw (print-alike r s, repeats-alike r h) refl

  -- Whatever the rounds before, a round raises exactly if it has no successful tool result and the
  -- newest rounds in a row that are like it, this one included, are at least the limit: of the same
  -- text and, with tools, the same names, canonical arguments and results, none of them successful.
  pub repetition_round-repeats :
      (limit : ℕ) (h : List LoopRound) (r : LoopRound)
      → (repetition_round canonical limit (repetition_after canonical limit h) r).1
        ≡ (not (has_success r) && leb limit (alike_run r (r ∷ h)))
  unfolding repetition_round
  repetition_round-repeats limit h r = elim (Bool-cases (has_success r)) [
    | inl succeeds ↦
        let given : fingerprint_of canonical r ≡ none =
          fingerprint_of-print r ∙ ap (λ b. if b then none else some (print r)) succeeds in
        ap (λ o. (repetition_step limit (repetition_after canonical limit h) o).1) given
        ∙ raised-step canonical limit none r h given
        ∙ ap (λ b. not b && leb limit (alike_run r (r ∷ h))) (sym succeeds)
    | inr fails ↦
        let given : fingerprint_of canonical r ≡ (some (print r)) =
          fingerprint_of-print r ∙ ap (λ b. if b then none else some (print r)) fails in
        ap (λ o. (repetition_step limit (repetition_after canonical limit h) o).1) given
        ∙ raised-step canonical limit (some (print r)) r h given
        ∙ ap (leb limit) (repeats-alike r (r ∷ h))
        ∙ ap (λ b. not b && leb limit (alike_run r (r ∷ h))) (sym fails)
  ]
