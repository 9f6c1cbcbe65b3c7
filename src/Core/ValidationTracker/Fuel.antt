-- ===== src/Core/ValidationTracker/Fuel.antt =====
-- The recursion of effective_status in src/thorn/core/_validation_tracker.py ends.
use thorn.Prelude.Dict.{get}
use thorn.Prelude.{
  ==_iff, ==_refl, Bool, Bool-cases, List, Option, Option-cases, Text, [], arith, contains, false,
  if◌then◌else◌, inl, inr, length, list_eq, nat_eq, option_eq, refl, some, suc, true, zero, ℕ, ◌+◌,
  ◌<◌, ◌==◌, ◌∷◌, ◌≡◌, ◌≤◌,
}
use thorn.Core.ValidationTracker.{
  Targets, ValidationStatus, ValidationTarget, effective, effective_status, is_passing, own_status,
  scan_dependencies, settle, stale, unknown,
}

-- The targets that are not visited yet.
abbrev fresh : List Text → Targets → ℕ
fresh visited [] = 0
fresh visited ((name, target) ∷ rest) =
    if contains name visited then fresh visited rest else suc (fresh visited rest)

abbrev IsWithin : List Text → List Text → Type 0
IsWithin v v' = (k : Text) → contains k v ≡ true → contains k v' ≡ true

fresh-le :
    (v v' : List Text) (targets : Targets) → IsWithin v v' → fresh v' targets ≤ fresh v targets
fresh-le v v' [] within = omega arith
fresh-le v v' ((name, target) ∷ rest) within =
    ground (arith, within name, fresh-le v v' rest within)

IsWithin-cons : (n : Text) (v : List Text) → IsWithin v (n ∷ v)
unfolding contains
IsWithin-cons n v k h = ground (arith, h)

fresh-lt :
    (n : Text) (v : List Text) (targets : Targets) (target : ValidationTarget)
    → get targets n ≡ some target
    → contains n v ≡ false
    → fresh (n ∷ v) targets < fresh v targets
unfolding get contains
fresh-lt n v [] target h unvisited = ground (arith, h)
fresh-lt n v ((name, t) ∷ rest) target h unvisited = elim (Bool-cases (name == n)) [
  | inl same ↦
      (let equal = (==_iff name n).0 same in
        rw (equal)
          (ground (arith, unvisited, ==_refl n, fresh-le v (n ∷ v) rest (IsWithin-cons n v))))
  | inr other ↦ ground (
    arith,
    other,
    ==_iff n name,
    ==_iff name n,
    fresh-lt n v rest target (ground (arith, h, other)) unvisited,
  )
]

-- A call that has an answer, and only adds to the names visited.
abbrev Answers : Option (ValidationStatus × List Text) → List Text → Type 0
Answers o v = (s : ValidationStatus) × (v' : List Text) × (o ≡ some (s, v')) × IsWithin v v'

scan_dependencies-Answers :
    (targets : Targets) (bound : ℕ)
    (status : List Text → Text → Option (ValidationStatus × List Text))
    (answers : (v : List Text) (d : Text) → fresh v targets < bound → Answers (status v d) v)
    (ds v : List Text)
    → fresh v targets < bound
    → (b : Bool) × (v' : List Text) × (scan_dependencies status v ds ≡ some (b, v')) × IsWithin v v'
unfolding scan_dependencies
scan_dependencies-Answers targets bound status answers [] v h = (false, v, refl, λ k m. m)
scan_dependencies-Answers targets bound status answers (d ∷ ds) v h =
    let (s, v', found, within) = answers v d h in
    elim (Bool-cases (is_passing s)) [
      | inl clear ↦
          (let (b, v'', rest, further) =
              scan_dependencies-Answers targets bound status answers ds v'
                (omega (arith, h, fresh-le v v' targets within)) in
            (b, v'', ground (arith, found, clear, rest), λ k m. further k (within k m)))
      | inr blocked ↦ (true, v', ground (arith, found, blocked), within)
    ]

settle-some :
    (target : ValidationTarget) (b : Bool) (v : List Text)
    → settle target (some (b, v)) ≡ some (if b then stale else own_status target, v)
settle-some target true v = refl
settle-some target false v = refl

effective-Answers :
    (fuel : ℕ) (targets : Targets) (v : List Text) (n : Text)
    → fresh v targets < fuel
    → Answers (effective fuel targets v n) v
unfolding effective
effective-Answers zero targets v n h = ground (arith, h)
effective-Answers (suc fuel) targets v n h = elim (Bool-cases (contains n v)) [
  | inl seen ↦ (stale, v, ground (arith, seen), λ k m. m)
  | inr new ↦ elim (Option-cases (get targets n)) [
    | inl missing ↦ (unknown, n ∷ v, ground (arith, new, missing), IsWithin-cons n v)
    | inr (target, found) ↦
        (let (b, v', scanned, within) =
            scan_dependencies-Answers targets fuel (effective fuel targets)
              (effective-Answers fuel targets) target.depends_on (n ∷ v)
              (omega (arith, h, fresh-lt n v targets target found new)) in
          (
            if b then stale else own_status target,
            v',
            ground (arith, new, found, scanned, settle-some target b v'),
            λ k m. within k (IsWithin-cons n v k m),
          ))
  ]
]

fresh-all : (targets : Targets) → fresh [] targets ≤ length targets
unfolding contains
fresh-all [] = omega arith
fresh-all ((name, target) ∷ rest) = ground (arith, fresh-all rest)

-- The status of a name is found within the fuel given, whatever cycles the dependencies form.
pub effective_status-returns :
    (targets : Targets) (n : Text) → (s : ValidationStatus) × (effective_status targets n ≡ some s)
unfolding effective_status
effective_status-returns targets n =
    let (s, v, found, _) =
      effective-Answers (length targets + 2) targets [] n (omega (arith, fresh-all targets)) in
    (s, ground (arith, found))
