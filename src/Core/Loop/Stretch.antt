-- ===== src/Core/Loop/Stretch.antt =====
-- The no-progress guard of src/thorn/core/_loop.py against the stretch of rounds without progress.
use thorn.Prelude.{
  Bool, Bool-cases, List, [], arith, false, if◌then◌else◌, inl, inr, leb, list_eq, nat_beq, nat_eq,
  not, option_eq, refl, suc, ℕ, ◌&&◌, ◌+◌, ◌/◌, ◌||◌, ◌∷◌, ◌≡◌,
}
use thorn.Core.Loop.Progress.{RoundProgress}
use thorn.Core.Loop.Guard.{
  NoProgressTracker, fresh_guard, guard_round, no_progress_warning_threshold, observe_round, raises,
  warns,
}

-- The tracker after some rounds, the newest first.
unfoldable pub guard_after : ℕ → List RoundProgress → NoProgressTracker
guard_after limit [] = fresh_guard
guard_after limit (r ∷ earlier) = (guard_round limit (guard_after limit earlier) r).tracker

-- How many rounds have gone by since the last one that made progress.
unfoldable pub stretch : List RoundProgress → ℕ
stretch [] = 0
stretch (r ∷ earlier) = let rest = stretch earlier in if r.made_progress then 0 else suc rest

pub rounds-observe_round :
    (t : NoProgressTracker) (r : RoundProgress)
    → (observe_round t r).rounds_without_progress
      ≡ (if r.made_progress then 0 else suc t.rounds_without_progress)
unfolding observe_round
rounds-observe_round t r = elim (Bool-cases r.made_progress) [
  | inl made ↦ rw (made) refl
  | inr idle ↦ rw (idle) refl
]

emitted-observe_round :
    (t : NoProgressTracker) (r : RoundProgress)
    → (observe_round t r).warning_emitted ≡ (if r.made_progress then false else t.warning_emitted)
unfolding observe_round
emitted-observe_round t r = elim (Bool-cases r.made_progress) [
  | inl made ↦ rw (made) refl
  | inr idle ↦ rw (idle) refl
]

pub rounds-guard_round :
    (limit : ℕ) (t : NoProgressTracker) (r : RoundProgress)
    → (guard_round limit t r).tracker.rounds_without_progress
      ≡ (if r.made_progress then 0 else suc t.rounds_without_progress)
unfolding guard_round
rounds-guard_round limit t r =
    elim (Bool-cases (not r.made_progress && warns limit (observe_round t r))) [
      | inl warning ↦ rw (warning) (rounds-observe_round t r)
      | inr silent ↦ rw (silent) (rounds-observe_round t r)
    ]

rounds-stretch :
    (limit : ℕ) (h : List RoundProgress) → (guard_after limit h).rounds_without_progress ≡ stretch h
unfolding guard_after stretch
rounds-stretch limit [] = refl
rounds-stretch limit (r ∷ earlier) =
    rw (rounds-guard_round limit (guard_after limit earlier) r, rounds-stretch limit earlier) refl

-- The warning comes at half the limit, rounded up.
abbrev due : ℕ → ℕ → Bool
due limit n = leb 2 limit && leb ((limit + 1) / 2) n

warns_lem :
    (limit : ℕ) (t : NoProgressTracker)
    → warns limit t ≡ (
        due limit t.rounds_without_progress
        && not t.warning_emitted
        && not (leb limit t.rounds_without_progress))
unfolding warns no_progress_warning_threshold
warns_lem limit t = ground arith

emitted-guard_round :
    (limit : ℕ) (t : NoProgressTracker) (r : RoundProgress)
    → (guard_round limit t r).tracker.warning_emitted ≡ (
        (not r.made_progress && warns limit (observe_round t r))
        || (observe_round t r).warning_emitted)
unfolding guard_round
emitted-guard_round limit t r =
    elim (Bool-cases (not r.made_progress && warns limit (observe_round t r))) [
      | inl warning ↦ rw (warning) refl
      | inr silent ↦ rw (silent) refl
    ]

emitted-stretch :
    (limit : ℕ) (h : List RoundProgress)
    → (guard_after limit h).warning_emitted ≡ due limit (stretch h)
unfolding guard_after stretch
emitted-stretch limit [] = ground arith
emitted-stretch limit (r ∷ earlier) =
    let t = guard_after limit earlier in
    ground (
      arith,
      emitted-guard_round limit t r,
      warns_lem limit (observe_round t r),
      emitted-observe_round t r,
      rounds-observe_round t r,
      emitted-stretch limit earlier,
      rounds-stretch limit earlier,
    )

pub raised-guard_round :
    (limit : ℕ) (t : NoProgressTracker) (r : RoundProgress)
    → (guard_round limit t r).raised ≡ (
        not r.made_progress
        && (leb 1 limit && leb limit (observe_round t r).rounds_without_progress))
unfolding guard_round raises
raised-guard_round limit t r =
    elim (Bool-cases (not r.made_progress && warns limit (observe_round t r))) [
      | inl warning ↦ rw (warning) (ground arith)
      | inr silent ↦ rw (silent) (ground arith)
    ]

warned-guard_round :
    (limit : ℕ) (t : NoProgressTracker) (r : RoundProgress)
    → (guard_round limit t r).warned ≡ (not r.made_progress && warns limit (observe_round t r))
unfolding guard_round
warned-guard_round limit t r = refl

-- Whatever the rounds before, a round raises exactly if the limit is not 0 and the rounds since the
-- last progress are at least the limit, and it warns exactly if the limit is at least 2 and they are
-- half the limit, rounded up: once in a stretch, and before the limit is reached.
pub guard_round-stretch :
    (limit : ℕ) (h : List RoundProgress) (r : RoundProgress)
    → let step = guard_round limit (guard_after limit h) r in
      (step.raised ≡ (leb 1 limit && leb limit (stretch (r ∷ h))))
      × (step.warned ≡ (leb 2 limit && nat_beq (stretch (r ∷ h)) ((limit + 1) / 2)))
unfolding stretch
guard_round-stretch limit h r =
    let t = guard_after limit h in
    let told = warns_lem limit (observe_round t r) in
    let emitted = emitted-observe_round t r in
    let rounds = rounds-observe_round t r in
    let before = emitted-stretch limit h in
    let since = rounds-stretch limit h in
    (
      ground (arith, raised-guard_round limit t r, rounds, since),
      ground (arith, warned-guard_round limit t r, told, emitted, rounds, before, since),
    )
