-- ===== src/Core/ValidationTracker/Staleness.antt =====
-- Snapshots, recorded results and refreshes of src/thorn/core/_validation_tracker.py.
use thorn.Prelude.Dict.{get, get-put, put}
use thorn.Prelude.{
  ==_iff, ==_refl, Bool, Bool-cases, List, Option, Text, [], arith, contains, false, inl, inr, keep,
  length, list_eq, nat_eq, none, not, option_eq, refl, some, sym, true, ◌++◌, ◌==◌, ◌||◌, ◌↔◌, ◌∙◌,
  ◌∷◌, ◌≡◌,
}
use thorn.Core.ValidationTracker.{
  FileSnapshot, Targets, ValidationTarget, all_paths, diff_count, differs, keys, record_result,
  refresh, result_of, stale_count,
}

keep-none :
    (p : Text → Bool) (xs : List Text) (x : Text)
    → length (keep p xs) ≡ 0
    → contains x xs ≡ true
    → p x ≡ false
unfolding contains
keep-none p [] x h member = ground (arith, member)
keep-none p (y ∷ xs) x h member = elim (Bool-cases (y == x)) [
  | inl same ↦ (let equal = (==_iff y x).0 same in rw (sym equal) (ground (arith, h)))
  | inr other ↦ keep-none p xs x (ground (arith, h)) (ground (arith, member, other))
]

keep-all : (p : Text → Bool) (xs : List Text) → ((x : Text) → p x ≡ false) → length (keep p xs) ≡ 0
keep-all p [] h = refl
keep-all p (x ∷ xs) h = ground (arith, h x, keep-all p xs h)

get-missing : (a : FileSnapshot) (p : Text) → contains p (keys a) ≡ false → get a p ≡ none
unfolding get contains
get-missing [] p h = refl
get-missing ((q, sum) ∷ rest) p h = ground (arith, h, get-missing rest p)

contains-append :
    (p : Text) (xs ys : List Text) → contains p (xs ++ ys) ≡ (contains p xs || contains p ys)
unfolding contains
contains-append p [] ys = refl
contains-append p (x ∷ xs) ys = ground (arith, contains-append p xs ys)

contains-keep :
    (p : Text) (f : Text → Bool) (xs : List Text)
    → contains p xs ≡ true
    → f p ≡ true
    → contains p (keep f xs) ≡ true
unfolding contains
contains-keep p f [] h fp = ground (arith, h)
contains-keep p f (x ∷ xs) h fp = elim (Bool-cases (x == p)) [
  | inl same ↦ (let equal = (==_iff x p).0 same in rw (equal, fp) (ground (arith, ==_refl p)))
  | inr other ↦ ground (arith, other, h, contains-keep p f xs (ground (arith, h, other)) fp)
]

all_paths-covers :
    (a b : FileSnapshot) (p : Text)
    → contains p (all_paths a b) ≡ false
    → (contains p (keys a) ≡ false) × (contains p (keys b) ≡ false)
unfolding all_paths
all_paths-covers a b p h =
    let split = contains-append p (keys a) (keep (λ q. not (contains q (keys a))) (keys b)) in
    let first : contains p (keys a) ≡ false = ground (arith, h, split) in
    (
      first,
      elim (Bool-cases (contains p (keys b))) [
        | inr other ↦ other
        | inl member ↦ ground (
          arith,
          h,
          split,
          contains-keep p (λ q. not (contains q (keys a))) (keys b) member (ground (arith, first)),
        )
      ],
    )

diff_count-agree : (a b : FileSnapshot) (p : Text) → diff_count a b ≡ 0 → get a p ≡ get b p
unfolding diff_count
diff_count-agree a b p h = elim (Bool-cases (contains p (all_paths a b))) [
  | inl member ↦
      (let alike : (get a p == get b p) ≡ true =
          ground (arith, keep-none (differs a b) (all_paths a b) p h member) in
        (==_iff (get a p) (get b p)).0 alike)
  | inr absent ↦
      (let (in_a, in_b) = all_paths-covers a b p absent in
        get-missing a p in_a ∙ sym (get-missing b p in_b))
]

-- Two snapshots have no differing file exactly if every path has the same checksum in both, or is
-- in neither.
pub diff_count-zero : (a b : FileSnapshot) → (diff_count a b ≡ 0) ↔ ((p : Text) → get a p ≡ get b p)
unfolding diff_count
diff_count-zero a b = (
  λ h p. diff_count-agree a b p h,
  λ same.
      keep-all (differs a b) (all_paths a b)
        (λ p. ground (arith, same p, (==_iff (get a p) (get b p)).1 (same p))),
)

module _ (scan : List Text → FileSnapshot) where
  abbrev refreshed : Option ValidationTarget → Option ValidationTarget
  refreshed none = none
  refreshed (some target) = some (record target { stale_file_count = stale_count scan target })

  get-refresh :
      (targets : Targets) (n : Text) → get (refresh scan targets) n ≡ refreshed (get targets n)
  unfolding get refresh
  get-refresh [] n = refl
  get-refresh ((name, target) ∷ rest) n = elim (Bool-cases (name == n)) [
    | inl same ↦ rw (same) refl
    | inr other ↦ rw (other) (get-refresh rest n)
  ]

  record_result-put :
      (targets : Targets) (n : Text) (target : ValidationTarget) (passed : Bool)
      (summary : Option Text)
      → get targets n ≡ some target
      → record_result scan targets n passed summary
        ≡ put targets n (record target {
          last_result = result_of passed;
          last_summary = summary;
          baseline = some (scan target.file_patterns);
          stale_file_count = 0;
        })
  unfolding record_result
  record_result-put targets n target passed summary found = rw (record_result, found) refl

  stale_count-recorded :
      (target : ValidationTarget)
      → target.baseline ≡ some (scan target.file_patterns)
      → stale_count scan target ≡ 0
  unfolding stale_count
  stale_count-recorded target h =
      let s = scan target.file_patterns in rw (h) ((diff_count-zero s s).1 (λ p. refl))

  -- Where a known target's run is recorded and no file changes until the next refresh, the target
  -- then has the recorded result, summary and snapshot, with no changed file; any other target
  -- is as a refresh without the recording leaves it.
  pub refresh-record_result :
      (targets : Targets) (n m : Text) (target : ValidationTarget) (passed : Bool)
      (summary : Option Text)
      → get targets n ≡ some target
      → (n == m) ≡ false
      → (get (refresh scan (record_result scan targets n passed summary)) n
          ≡ some (record target {
            last_result = result_of passed;
            last_summary = summary;
            baseline = some (scan target.file_patterns);
            stale_file_count = 0;
          }))
        × (get (refresh scan (record_result scan targets n passed summary)) m
            ≡ get (refresh scan targets) m)
  refresh-record_result targets n m target passed summary found apart =
      let recorded = record target {
        last_result = result_of passed;
        last_summary = summary;
        baseline = some (scan target.file_patterns);
        stale_file_count = 0;
      } in
      let written = record_result-put targets n target passed summary found in
      rw
        (
          written,
          get-refresh (put targets n recorded) n,
          get-refresh (put targets n recorded) m,
          get-refresh targets m,
          get-put targets n recorded n,
          get-put targets n recorded m,
          ==_refl n,
          apart,
          stale_count-recorded recorded refl,
        )
        (refl, refl)
