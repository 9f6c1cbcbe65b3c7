-- ===== src/Core/FileAccess.antt =====
-- src/thorn/core/_file_access.py: which paths an agent may see, read and write.
-- Path.resolve, the reading of a text as a path and the matching of one gitignore pattern by
-- pathspec are the section's parameters; a path is its components.
pub mod Levels
use thorn.Prelude.{
  ==_iff, Bool, List, Option, Text, [], codes, contains, false, if◌then◌else◌, is_empty, keep,
  list_eq, ltb, nat_eq, none, not, option_eq, some, starts_with, strip, ℕ, ◌++◌, ◌/◌, ◌==◌, ◌||◌,
  ◌∷◌,
}
use thorn.Errors.{Result, err, ok, permission_error}

pub data FileAccessLevel : Type 0 where
  hidden no_access read_access write_access : FileAccessLevel

abbrev pub value : FileAccessLevel → ℕ
value hidden = 0
value no_access = 1
value read_access = 2
value write_access = 3

-- min(a, b)
unfoldable pub level_min : FileAccessLevel → FileAccessLevel → FileAccessLevel
level_min a b = if ltb (value b) (value a) then b else a

pub data RelativeTo : Type 0 where
  workspace agent_home : RelativeTo

pub record FileAccessRule : Type 0 where
  pub pattern : Text
  pub access : FileAccessLevel
  pub relative_to : RelativeTo

abbrev pub Location : Type 0
Location = List Text

-- `roots` gives each conceptual root its resolved directory, or None.
pub record Policy : Type 0 where
  pub rules : List FileAccessRule
  pub default_level : FileAccessLevel
  pub roots : RelativeTo → Option Location

-- A policy with no global ceiling, or with one.
pub data FileAccessPolicy : Type 0 where
  unlimited : Policy → FileAccessPolicy
  limited : Policy → FileAccessPolicy → FileAccessPolicy

-- path.relative_to(root): none is its ValueError.
unfoldable pub relative_to : Location → Location → Option Location
relative_to path [] = some path
relative_to [] (r ∷ rs) = none
relative_to (p ∷ ps) (r ∷ rs) = let rest = relative_to ps rs in if p == r then rest else none

-- PurePath.as_posix of a relative path
abbrev as_posix : Location → Text
as_posix [] = codes "."
as_posix (p ∷ []) = p
as_posix (p ∷ q ∷ ps) = p ++ (codes "/" ++ as_posix (q ∷ ps))

module _ (resolve : Location → Location) (parse : Text → Bool × Location)
    (matches : Text → Text → Bool) where
  -- parse gives whether Path(text) is absolute, and its components.
  unfoldable pub normalise_pattern : Text → Option Location → Text
  unfolding contains
  normalise_pattern pattern none = pattern
  normalise_pattern pattern (some root) =
      if contains 42 pattern || contains 63 pattern
      then pattern
      else if not (parse pattern).0
      then pattern
      else elim (relative_to (resolve (parse pattern).1) root) [
        | none ↦ pattern
        | some rel ↦ as_posix rel
      ]

  -- One compiled rule on a resolved path.
  unfoldable pub applies : (RelativeTo → Option Location) → Location → FileAccessRule → Bool
  applies roots resolved rule = elim (roots rule.relative_to) [
    | none ↦ false
    | some root ↦ elim (relative_to resolved root) [
      | none ↦ false
      | some rel ↦ matches (normalise_pattern rule.pattern (some root)) (as_posix rel)
    ]
  ]

  -- The loop of check
  unfoldable pub last_match :
      (RelativeTo → Option Location)
      → Location
      → FileAccessLevel
      → List FileAccessRule
      → FileAccessLevel
  last_match roots resolved result [] = result
  last_match roots resolved result (rule ∷ rules) =
      last_match roots resolved (if applies roots resolved rule then rule.access else result) rules

  unfoldable pub check : FileAccessPolicy → Location → FileAccessLevel
  check (unlimited p) path = last_match p.roots (resolve path) p.default_level p.rules
  check (limited p ceiling) path =
      let resolved = resolve path in
      let result = last_match p.roots resolved p.default_level p.rules in
      level_min result (check ceiling resolved)

  unfoldable pub filter_listing : FileAccessPolicy → List Text → Location → List Text
  filter_listing policy entries directory =
      keep (λ e. ltb (value hidden) (value (check policy (directory ++ (e ∷ []))))) entries

  unfoldable pub resolve_for_check : Text → Location → Location
  resolve_for_check raw root =
      let (absolute, p) = parse raw in if absolute then resolve p else resolve (root ++ p)

  -- The result is Path(path), as its components.
  unfoldable pub check_access :
      Text → FileAccessLevel → FileAccessPolicy → Location → Result Location
  check_access path required policy root =
      if ltb (value (check policy (resolve_for_check path root))) (value required)
      then err permission_error
      else ok (parse path).1

-- The rules of the given policy under another ceiling.
unfoldable pub with_ceiling : FileAccessPolicy → FileAccessPolicy → FileAccessPolicy
with_ceiling (unlimited p) ceiling = limited p ceiling
with_ceiling (limited p old) ceiling = limited p ceiling

-- The lines of an ignore file; a file that is absent gives none.
unfoldable pub load_ignore_file : List Text → List FileAccessRule
unfolding strip is_empty starts_with
load_ignore_file [] = []
load_ignore_file (line ∷ lines) =
    let stripped = strip line in
    let rest = load_ignore_file lines in
    if is_empty stripped || starts_with stripped (codes "#")
    then rest
    else record { pattern = stripped; access = hidden; relative_to = workspace } ∷ rest

abbrev pub workspace_only : Location → RelativeTo → Option Location
workspace_only root workspace = some root
workspace_only root agent_home = none

unfoldable pub ignore_policy : List FileAccessRule → Location → Option FileAccessPolicy
ignore_policy [] root = none
ignore_policy (r ∷ rs) root = some (
    unlimited
      (record { rules = r ∷ rs; default_level = write_access; roots = workspace_only root }))

unfoldable pub load_global_ignores : List Text → List Text → Location → Option FileAccessPolicy
unfolding ignore_policy
load_global_ignores aiignore thornignore root =
    ignore_policy (load_ignore_file aiignore ++ load_ignore_file thornignore) root
