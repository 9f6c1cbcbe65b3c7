-- ===== src/Core/ValidationTracker/Passing.antt =====
-- What a passing effective status of src/thorn/core/_validation_tracker.py stands for.
use thorn.Prelude.Dict.{get}
use thorn.Prelude.{
  ==_iff, Bool, Bool-cases, List, Option, Option-cases, Text, [], arith, contains, false, inl, inr,
  length, list_eq, nat_eq, none, option_eq, some, suc, sym, true, zero, ℕ, ◌+◌, ◌==◌, ◌∷◌, ◌≡◌,
}
use thorn.Core.ValidationTracker.{
  Targets, ValidationStatus, ValidationTarget, effective, effective_status, failing, passing,
  scan_dependencies, settle, stale, unknown,
}

-- The dependencies of a target, through any number of targets, itself included.
pub data DependsOn (targets : Targets) : Text → Text → Type 0 where
  itself : (n : Text) → DependsOn targets n n
  through :
      (n d m : Text) (target : ValidationTarget)
      → get targets n ≡ some target
      → contains d target.depends_on ≡ true
      → DependsOn targets d m
      → DependsOn targets n m

scan_dependencies-cons :
    (status : List Text → Text → Option (ValidationStatus × List Text)) (visited out ds : List Text)
    (e : Text)
    → scan_dependencies status visited (e ∷ ds) ≡ some (false, out)
    → (next : List Text) × (status visited e ≡ some (passing, next))
      × (scan_dependencies status next ds ≡ some (false, out))
unfolding scan_dependencies
scan_dependencies-cons status visited out ds e h = elim (Option-cases (status visited e)) [
  | inl missing ↦ ground (arith, h, missing)
  | inr ((passing, next), found) ↦ (next, found, ground (arith, h, found))
  | inr ((unknown, next), found) ↦ ground (arith, h, found)
  | inr ((stale, next), found) ↦ ground (arith, h, found)
  | inr ((failing, next), found) ↦ ground (arith, h, found)
]

scan_dependencies-clear :
    (status : List Text → Text → Option (ValidationStatus × List Text)) (ds visited out : List Text)
    (d : Text)
    → scan_dependencies status visited ds ≡ some (false, out)
    → contains d ds ≡ true
    → (u : List Text) × (u' : List Text) × (status u d ≡ some (passing, u'))
unfolding contains
scan_dependencies-clear status [] visited out d h member = ground (arith, member)
scan_dependencies-clear status (e ∷ ds) visited out d h member =
    let (next, found, rest) = scan_dependencies-cons status visited out ds e h in
    elim (Bool-cases (e == d)) [
      | inl same ↦ (let equal = (==_iff e d).0 same in (visited, next, rw (sym equal) found))
      | inr other ↦
          scan_dependencies-clear status ds next out d rest (ground (arith, member, other))
    ]

effective-settled :
    (fuel : ℕ) (targets : Targets) (visited out : List Text) (n : Text)
    → effective fuel targets visited n ≡ some (passing, out)
    → (f : ℕ) × (target : ValidationTarget) × (get targets n ≡ some target)
      × (settle target (scan_dependencies (effective f targets) (n ∷ visited) target.depends_on)
          ≡ some (passing, out))
unfolding effective
effective-settled zero targets visited out n h = ground (arith, h)
effective-settled (suc f) targets visited out n h = elim (Bool-cases (contains n visited)) [
  | inl seen ↦ ground (arith, h, seen)
  | inr new ↦ elim (Option-cases (get targets n)) [
    | inl missing ↦ ground (arith, h, new, missing)
    | inr (target, found) ↦ (f, target, found, ground (arith, h, new, found))
  ]
]

settle-passing :
    (target : ValidationTarget) (o : Option (Bool × List Text)) (out : List Text)
    → settle target o ≡ some (passing, out)
    → (o ≡ some (false, out)) × (target.last_result ≡ passing) × (target.stale_file_count ≡ 0)
settle-passing target none out h = ground (arith, h)
settle-passing target (some (true, v)) out h = ground (arith, h)
settle-passing target (some (false, v)) out h = ground (arith, h)

effective-passing :
    (targets : Targets) (fuel : ℕ) (visited out : List Text) (n m : Text)
    → effective fuel targets visited n ≡ some (passing, out)
    → DependsOn targets n m
    → (target : ValidationTarget) × (get targets m ≡ some target)
      × (target.last_result ≡ passing)
      × (target.stale_file_count ≡ 0)
effective-passing targets fuel visited out n m h (itself _) =
    let (f, target, found, settled) = effective-settled fuel targets visited out n h in
    let (_, passed, unchanged) = settle-passing target _ out settled in
    (target, found, passed, unchanged)
effective-passing targets fuel visited out n m h (through _ d _ target found member rest) =
    let (f, own, found', settled) = effective-settled fuel targets visited out n h in
    let (clear, _, _) = settle-passing own _ out settled in
    let same : own ≡ target = cc in
    let (u, u', passed) =
      scan_dependencies-clear (effective f targets) own.depends_on (n ∷ visited) out d clear
        (rw (same) member) in
    effective-passing targets f u u' d m passed rest

-- A target whose effective status is passing, and all that it depends on, through any number of
-- targets, are known, passed at their last run, and have no changed file.
pub effective_status-passing :
    (targets : Targets) (n m : Text)
    → effective_status targets n ≡ some passing
    → DependsOn targets n m
    → (target : ValidationTarget) × (get targets m ≡ some target)
      × (target.last_result ≡ passing)
      × (target.stale_file_count ≡ 0)
unfolding effective_status
effective_status-passing targets n m h depends =
    elim (Option-cases (effective (length targets + 2) targets [] n)) [
      | inl missing ↦ ground (arith, h, missing)
      | inr ((s, out), found) ↦
          effective-passing targets (length targets + 2) [] out n m (ground (arith, h, found))
            depends
    ]
