-- ===== src/Core/FileAccess/Levels.antt =====
-- What a policy of src/thorn/core/_file_access.py grants.
use thorn.Prelude.{
  Bool, List, Option, Text, [], all, any, ap, arith, bool_eq, false, if◌then◌else◌, list_eq, ltb,
  nat_beq, nat_eq, option_eq, pair_eq, refl, some, true, ◌++◌, ◌||◌, ◌∙◌, ◌∷◌, ◌≡◌,
}
use thorn.Errors.{◌>>=◌}
use thorn.Core.FileAccess.{
  FileAccessLevel, FileAccessPolicy, FileAccessRule, Location, Policy, RelativeTo, applies, check,
  check_access, hidden, ignore_policy, last_match, level_min, limited, load_global_ignores,
  load_ignore_file, resolve_for_check, unlimited, value, with_ceiling, workspace_only, write_access,
}

abbrev is_hiding : FileAccessRule → Bool
is_hiding rule = nat_beq (value rule.access) 0

is_hiding-hidden : (rule : FileAccessRule) → is_hiding rule ≡ true → rule.access ≡ hidden
is_hiding-hidden rule h = ground (arith, h)

all-append :
    (p : FileAccessRule → Bool) (xs ys : List FileAccessRule)
    → all p xs ≡ true
    → all p ys ≡ true
    → all p (xs ++ ys) ≡ true
all-append p [] ys hx hy = hy
all-append p (x ∷ xs) ys hx hy = ground (arith, hx, all-append p xs ys (ground (arith, hx)) hy)

load_ignore_file-is_hiding : (lines : List Text) → all is_hiding (load_ignore_file lines) ≡ true
unfolding load_ignore_file
load_ignore_file-is_hiding [] = refl
load_ignore_file-is_hiding (line ∷ lines) = ground (arith, load_ignore_file-is_hiding lines)

-- A policy without its ceiling
abbrev pub own_rules : FileAccessPolicy → Policy
own_rules (unlimited p) = p
own_rules (limited p ceiling) = p

module _ (resolve : Location → Location) (parse : Text → Bool × Location)
    (matches : Text → Text → Bool) where
  last_match-append :
      (roots : RelativeTo → Option Location) (path : Location) (xs ys : List FileAccessRule)
      (start : FileAccessLevel)
      → last_match resolve parse matches roots path start (xs ++ ys)
        ≡ last_match resolve parse matches roots path
            (last_match resolve parse matches roots path start xs)
            ys
  unfolding last_match
  last_match-append roots path [] ys start = refl
  last_match-append roots path (x ∷ xs) ys start =
      last_match-append roots path xs ys
        (if applies resolve parse matches roots path x then x.access else start)

  last_match-none :
      (roots : RelativeTo → Option Location) (path : Location) (xs : List FileAccessRule)
      (start : FileAccessLevel)
      → any (applies resolve parse matches roots path) xs ≡ false
      → last_match resolve parse matches roots path start xs ≡ start
  unfolding last_match
  last_match-none roots path [] start none_applies = refl
  last_match-none roots path (x ∷ xs) start none_applies =
      let head : applies resolve parse matches roots path x ≡ false =
        ground (arith, none_applies) in
      rw (head) (last_match-none roots path xs start (ground (arith, none_applies)))

  last_match-one :
      (roots : RelativeTo → Option Location) (path : Location) (rule : FileAccessRule)
      (after : List FileAccessRule) (start : FileAccessLevel)
      → any (applies resolve parse matches roots path) after ≡ false
      → last_match resolve parse matches roots path start (rule ∷ after)
        ≡ (if applies resolve parse matches roots path rule then rule.access else start)
  unfolding last_match
  last_match-one roots path rule after start later = last_match-none roots path after _ later

  -- Under a policy with no ceiling, where no rule after a given one applies to a path, the level of
  -- the path is that of the given rule, if it applies, and otherwise that of the rules before it.
  pub check-last_match :
      (p : Policy) (before after : List FileAccessRule) (rule : FileAccessRule) (path : Location)
      → any (applies resolve parse matches p.roots (resolve path)) after ≡ false
      → check resolve parse matches (unlimited (record p { rules = before ++ rule ∷ after })) path
        ≡ (if applies resolve parse matches p.roots (resolve path) rule
            then rule.access
            else check resolve parse matches (unlimited (record p { rules = before })) path)
  unfolding check
  check-last_match p before after rule path later =
      let earlier =
        last_match resolve parse matches p.roots (resolve path) p.default_level before in
      last_match-append p.roots (resolve path) before (rule ∷ after) p.default_level
      ∙ last_match-one p.roots (resolve path) rule after earlier later

  module _ (resolve_resolve : (path : Location) → resolve (resolve path) ≡ resolve path) where
    check-resolve :
        (policy : FileAccessPolicy) (path : Location)
        → check resolve parse matches policy (resolve path)
          ≡ check resolve parse matches policy path
    unfolding check
    check-resolve (unlimited p) path = rw (resolve_resolve path) refl
    check-resolve (limited p ceiling) path = rw (resolve_resolve path) refl

    check-limited :
        (p : Policy) (ceiling : FileAccessPolicy) (path : Location)
        → check resolve parse matches (limited p ceiling) path
          ≡ level_min
              (check resolve parse matches (unlimited p) path)
              (check resolve parse matches ceiling path)
    unfolding check
    check-limited p ceiling path =
        ap (level_min (check resolve parse matches (unlimited p) path)) (check-resolve ceiling path)

    ltb-level_min :
        (a b c : FileAccessLevel)
        → ltb (value (level_min a b)) (value c)
          ≡ (ltb (value a) (value c) || ltb (value b) (value c))
    unfolding level_min
    ltb-level_min a b c = ground arith

    check_access-limited :
        (path : Text) (required : FileAccessLevel) (p : Policy) (ceiling : FileAccessPolicy)
        (root : Location)
        → check_access resolve parse matches path required (limited p ceiling) root ≡ (
            check_access resolve parse matches path required (unlimited p) root >>= λ _.
            check_access resolve parse matches path required ceiling root)
    unfolding check_access
    check_access-limited path required p ceiling root =
        let place = resolve_for_check resolve parse matches path root in
        rw
          (
            check-limited p ceiling place,
            ltb-level_min (check resolve parse matches (unlimited p) place)
                (check resolve parse matches ceiling place) required,
          )
          (ground arith)

    -- Where a policy is given a ceiling, an access is granted exactly if the policy's own rules, of
    -- which an earlier ceiling is no part, grant it and the ceiling grants it, with the same result,
    -- and it is refused with the same error; resolving a path twice is taken to be resolving it
    -- once.
    pub check_access-with_ceiling :
        (path : Text) (required : FileAccessLevel) (policy ceiling : FileAccessPolicy)
        (root : Location)
        → check_access resolve parse matches path required (with_ceiling policy ceiling) root ≡ (
            check_access resolve parse matches path required (unlimited (own_rules policy)) root
            >>= λ _. check_access resolve parse matches path required ceiling root)
    unfolding with_ceiling
    check_access-with_ceiling path required (unlimited p) ceiling root =
        check_access-limited path required p ceiling root
    check_access-with_ceiling path required (limited p old) ceiling root =
        check_access-limited path required p ceiling root

  last_match-hiding :
      (roots : RelativeTo → Option Location) (path : Location) (xs : List FileAccessRule)
      (start : FileAccessLevel)
      → all is_hiding xs ≡ true
      → last_match resolve parse matches roots path start xs
        ≡ (if any (applies resolve parse matches roots path) xs then hidden else start)
  unfolding last_match
  last_match-hiding roots path [] start h = refl
  last_match-hiding roots path (x ∷ xs) start h =
      let first : x.access ≡ hidden = is_hiding-hidden x (ground (arith, h)) in
      rw (first) (
        ground (
          arith,
          last_match-hiding roots path xs
              (if applies resolve parse matches roots path x then hidden else start)
              (ground (arith, h)),
        ))

  ignore_policy-check :
      (rules : List FileAccessRule) (root path : Location) (policy : FileAccessPolicy)
      → all is_hiding rules ≡ true
      → ignore_policy rules root ≡ some policy
      → check resolve parse matches policy path ≡ (
          if any (applies resolve parse matches (workspace_only root) (resolve path)) rules
          then hidden
          else write_access)
  unfolding ignore_policy check
  ignore_policy-check [] root path policy hides h = ground (arith, h)
  ignore_policy-check (r ∷ rs) root path policy hides h =
      let made : policy
          ≡ unlimited (record {
            rules = r ∷ rs;
            default_level = write_access;
            roots = workspace_only root;
          }) =
        cc in
      rw (made) (last_match-hiding (workspace_only root) (resolve path) (r ∷ rs) write_access hides)

  -- The ignore files of a workspace, where they hold a rule, hide what one of their lines applies
  -- to and allow all else; they bring no rule that gives access back.
  pub load_global_ignores-check :
      (aiignore thornignore : List Text) (root path : Location) (policy : FileAccessPolicy)
      → load_global_ignores aiignore thornignore root ≡ some policy
      → check resolve parse matches policy path ≡ (
          if any
            (applies resolve parse matches (workspace_only root) (resolve path))
            (load_ignore_file aiignore ++ load_ignore_file thornignore)
          then hidden
          else write_access)
  unfolding load_global_ignores
  load_global_ignores-check aiignore thornignore root path policy h =
      ignore_policy-check (load_ignore_file aiignore ++ load_ignore_file thornignore) root path
        policy
        (all-append is_hiding (load_ignore_file aiignore) (load_ignore_file thornignore)
          (load_ignore_file-is_hiding aiignore) (load_ignore_file-is_hiding thornignore))
        h
