-- ===== src/Core/Loop/Repetition.antt =====
-- The repetition guard of src/thorn/core/_loop.py. json.loads followed by json.dumps with sorted keys
-- is a parameter, none where json.loads raises.
pub mod Alike
use thorn.Prelude.{
  ==_iff, ==_refl, Bool, Bool-cases, Eq, List, Option, Text, [], any, arith, bool_eq, false,
  if◌then◌else◌, inl, inr, is_empty, leb, list_eq, ltb, map, nat_eq, none, not, option_eq, pair_eq,
  refl, some, suc, sym, true, ℕ, ◌&&◌, ◌==◌, ◌↔◌, ◌∙◌, ◌∷◌, ◌≡◌,
}
use thorn.Core.Loop.Round.{ToolCall, ToolResult}

-- _AssistantRoundFingerprint: of a text, or of a text with its calls and their results.
pub data Fingerprint : Type 0 where
  text_kind : Text → Fingerprint
  tool_calls_kind : Text → List (Text × Text) → List (Text × Bool) → Fingerprint

unfoldable pub fingerprint_beq : Fingerprint → Fingerprint → Bool
fingerprint_beq (text_kind t) (text_kind u) = t == u
fingerprint_beq (tool_calls_kind t cs rs) (tool_calls_kind u ds ss) =
    (t == u) && (cs == ds) && (rs == ss)
fingerprint_beq _ _ = false

pub fingerprint_beq_iff : (x y : Fingerprint) → (fingerprint_beq x y ≡ true) ↔ (x ≡ y)
unfolding fingerprint_beq
fingerprint_beq_iff (text_kind t) (text_kind u) = ground (arith, ==_iff t u)
fingerprint_beq_iff (text_kind t) (tool_calls_kind u ds ss) = ground arith
fingerprint_beq_iff (tool_calls_kind t cs rs) (text_kind u) = ground arith
fingerprint_beq_iff (tool_calls_kind t cs rs) (tool_calls_kind u ds ss) =
    ground (arith, ==_iff t u, ==_iff cs ds, ==_iff rs ss)

instance abbrev pub fingerprint_eq : Eq Fingerprint
fingerprint_eq = record { beq = fingerprint_beq; beq_iff = fingerprint_beq_iff }

-- What a round of the loop was, as far as the guard is concerned.
pub data LoopRound : Type 0 where
  text_only : (text : Text) → LoopRound
  with_tools : (text : Text) (calls : List ToolCall) (results : List ToolResult) → LoopRound

pub record RepetitionTracker : Type 0 where
  pub previous : Option Fingerprint
  pub count : ℕ

abbrev pub fresh_repetition : RepetitionTracker
fresh_repetition = record { previous = none; count = 0 }

-- observe, whose result is the count it leaves
unfoldable pub observe_fingerprint : RepetitionTracker → Fingerprint → RepetitionTracker
observe_fingerprint t fingerprint =
    if t.previous == some fingerprint
    then record t { count = suc t.count }
    else record { previous = some fingerprint; count = 1 }

-- _raise_if_repeated on a fingerprint, and a reset without one: the tracker, and whether
-- LoopRepetitionError is raised.
unfoldable pub repetition_step :
    ℕ → RepetitionTracker → Option Fingerprint → RepetitionTracker × Bool
repetition_step limit t none = (fresh_repetition, false)
repetition_step limit t (some fingerprint) =
    let observed = observe_fingerprint t fingerprint in (observed, not (ltb observed.count limit))

module _ (canonical : Text → Option Text) where
  unfoldable pub canonicalize_tool_arguments : Text → Text
  canonicalize_tool_arguments arguments =
      if is_empty arguments
      then []
      else elim (canonical arguments) [ none ↦ arguments | some t ↦ t ]

  -- _fingerprint_text_round and _fingerprint_repeated_tool_error_round
  unfoldable pub fingerprint_of : LoopRound → Option Fingerprint
  fingerprint_of (text_only text) = some (text_kind text)
  fingerprint_of (with_tools text calls results) =
      if any (λ r. not r.is_error) results
      then none
      else some (
          tool_calls_kind text (map (λ c. (c.name, canonicalize_tool_arguments c.arguments)) calls)
            (map (λ r. (r.content, r.is_error)) results))

  unfoldable pub repetition_round : ℕ → RepetitionTracker → LoopRound → RepetitionTracker × Bool
  repetition_round limit t round = repetition_step limit t (fingerprint_of round)

  -- After some rounds, the newest first.
  unfoldable pub repetition_after : ℕ → List LoopRound → RepetitionTracker
  repetition_after limit [] = fresh_repetition
  repetition_after limit (r ∷ earlier) =
      (repetition_round limit (repetition_after limit earlier) r).0

  -- How many of the newest rounds in a row have this fingerprint.
  unfoldable pub repeats : Fingerprint → List LoopRound → ℕ
  repeats f [] = 0
  repeats f (r ∷ earlier) =
      let rest = repeats f earlier in if fingerprint_of r == some f then suc rest else 0

  unfoldable pub last_fingerprint : List LoopRound → Option Fingerprint
  last_fingerprint [] = none
  last_fingerprint (r ∷ earlier) = fingerprint_of r

  abbrev run_length : Option Fingerprint → List LoopRound → ℕ
  run_length none h = 0
  run_length (some f) h = repeats f h

  previous-observe :
      (t : RepetitionTracker) (f : Fingerprint) → (observe_fingerprint t f).previous ≡ some f
  unfolding observe_fingerprint
  previous-observe t f = elim (Bool-cases (t.previous == some f)) [
    | inl same ↦ rw (same) ((==_iff t.previous (some f)).0 same)
    | inr other ↦ rw (other) refl
  ]

  previous-step :
      (limit : ℕ) (t : RepetitionTracker) (o : Option Fingerprint)
      → (repetition_step limit t o).0.previous ≡ o
  unfolding repetition_step
  previous-step limit t none = refl
  previous-step limit t (some f) = previous-observe t f

  previous-after :
      (limit : ℕ) (h : List LoopRound) → (repetition_after limit h).previous ≡ last_fingerprint h
  unfolding repetition_after last_fingerprint repetition_round
  previous-after limit [] = refl
  previous-after limit (r ∷ earlier) =
      previous-step limit (repetition_after limit earlier) (fingerprint_of r)

  repeats-other :
      (f : Fingerprint) (h : List LoopRound)
      → (last_fingerprint h == some f) ≡ false
      → repeats f h ≡ 0
  unfolding repeats last_fingerprint
  repeats-other f [] other = refl
  repeats-other f (r ∷ earlier) other = rw (other) refl

  -- One more round with the fingerprint makes the run one longer.
  count-observe :
      (limit : ℕ) (f : Fingerprint) (h : List LoopRound)
      → (repetition_after limit h).count ≡ run_length (last_fingerprint h) h
      → (observe_fingerprint (repetition_after limit h) f).count ≡ suc (repeats f h)
  unfolding observe_fingerprint repeats
  count-observe limit f h before = elim (Bool-cases (last_fingerprint h == some f)) [
    | inl same ↦
        rw
          (
            observe_fingerprint,
            previous-after limit h,
            same,
            before,
            (==_iff (last_fingerprint h) (some f)).0 same,
          )
          refl
    | inr other ↦
        rw (observe_fingerprint, previous-after limit h, other, repeats-other f h other) refl
  ]

  -- A fingerprint's run, one round longer.
  abbrev longer : Option Fingerprint → List LoopRound → ℕ
  longer none h = 0
  longer (some f) h = suc (repeats f h)

  longer-run :
      (o : Option Fingerprint) (r : LoopRound) (h : List LoopRound)
      → fingerprint_of r ≡ o
      → run_length o (r ∷ h) ≡ longer o h
  unfolding repeats
  longer-run none r h found = refl
  longer-run (some f) r h found = rw (found, ==_refl (some f)) refl

  count-step :
      (limit : ℕ) (o : Option Fingerprint) (h : List LoopRound)
      → (repetition_after limit h).count ≡ run_length (last_fingerprint h) h
      → (repetition_step limit (repetition_after limit h) o).0.count ≡ longer o h
  unfolding repetition_step
  count-step limit none h before = refl
  count-step limit (some f) h before = count-observe limit f h before

  count-after :
      (limit : ℕ) (h : List LoopRound)
      → (repetition_after limit h).count ≡ run_length (last_fingerprint h) h
  unfolding repetition_after last_fingerprint repetition_round
  count-after limit [] = refl
  count-after limit (r ∷ earlier) =
      count-step limit (fingerprint_of r) earlier (count-after limit earlier)
      ∙ sym (longer-run (fingerprint_of r) r earlier refl)

  pub raised-step :
      (limit : ℕ) (o : Option Fingerprint) (r : LoopRound) (h : List LoopRound)
      → fingerprint_of r ≡ o
      → (repetition_step limit (repetition_after limit h) o).1
        ≡ (elim o [ none ↦ false | some f ↦ leb limit (repeats f (r ∷ h)) ])
  unfolding repetition_step
  raised-step limit none r h found = refl
  raised-step limit (some f) r h found =
      rw (count-observe limit f h (count-after limit h), longer-run (some f) r h found)
        (ground arith)
