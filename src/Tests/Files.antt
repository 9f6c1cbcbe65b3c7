-- ===== src/Tests/Files.antt =====
-- Policies of src/thorn/core/_file_access.py at samples.
use thorn.Prelude.{
  Bool, Option, Text, [], bool_eq, codes, false, list_eq, nat_eq, none, option_eq, pair_eq, refl,
  some, ◌==◌, ◌∷◌, ◌≡◌,
}
use thorn.Errors.{◌>>=◌}
use thorn.Core.FileAccess.{
  FileAccessPolicy, FileAccessRule, Location, Policy, RelativeTo, agent_home, check_access,
  no_access, read_access, unlimited, with_ceiling, workspace, write_access,
}
use thorn.Core.FileAccess.Levels.{check_access-with_ceiling, own_rules}

-- No symbolic links.
abbrev resolve : Location → Location
resolve path = path

-- A text is a relative path of one component.
abbrev parse : Text → Bool × Location
parse text = (false, text ∷ [])

-- A pattern matches the path that it spells.
abbrev matches : Text → Text → Bool
matches pattern path = pattern == path

abbrev root : Location
root = codes "work" ∷ []

abbrev roots : RelativeTo → Option Location
roots workspace = some root
roots agent_home = none

abbrev notes_rule : FileAccessRule
notes_rule = record { pattern = codes "notes"; access = read_access; relative_to = workspace }

abbrev policy : Policy
policy = record { rules = notes_rule ∷ []; default_level = no_access; roots = roots }

abbrev notes : Location
notes = codes "work" ∷ codes "notes" ∷ []

abbrev ceiling : FileAccessPolicy
ceiling = unlimited (record { rules = []; default_level = write_access; roots = roots })

-- A policy that was capped before
abbrev capped : FileAccessPolicy
capped = with_ceiling (unlimited policy) ceiling

check_access-with_ceiling_example :
    check_access resolve parse matches
      (codes "notes")
      read_access
      (with_ceiling capped ceiling)
      root
    ≡ (check_access resolve parse matches
          (codes "notes")
          read_access
          (unlimited (own_rules capped))
          root
        >>= λ _. check_access resolve parse matches (codes "notes") read_access ceiling root)
check_access-with_ceiling_example =
    check_access-with_ceiling resolve parse matches (λ path. refl) (codes "notes") read_access
      capped ceiling root
