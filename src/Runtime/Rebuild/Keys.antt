-- ===== src/Runtime/Rebuild/Keys.antt =====
-- The keys in an index that src/thorn/runtime/_in_flight_index.py rebuilds.
use thorn.Prelude.{
  ==_iff, Bool, Bool-cases, List, Option, Text, [], any, ap, arith, bool_eq, codes, contains, false,
  inl, inr, list_eq, nat_eq, none, not, option_eq, pair_eq, refl, some, starts_with, sym, true,
  ◌&&◌, ◌++◌, ◌==◌, ◌||◌, ◌∙◌, ◌∷◌, ◌≡◌,
}
use thorn.Errors.{Result, err, ok, ◌>>=◌}
use thorn.Runtime.Queue.{is_tolerated, load_entry, loads_back, reloaded}
use thorn.Runtime.Notification.{status_eq}
use thorn.Runtime.World.{Entry, FilePath, World, file, folder, index_add, read}
use thorn.Runtime.Rebuild.{
  both, bulk_add, iter_keys_in_agency, iter_keys_in_dirs, iter_keys_in_queue_dir, key_at,
  key_of_entry, key_of_loaded, rebuild_in_flight_index, with_key,
}

abbrev pub is_key : Text → Option Text → Bool
is_key key none = false
is_key key (some k) = k == key

abbrev pub loads_with : Text → Option Entry → Bool
loads_with key (some (file (ok n))) = loads_back n.target n.rsvp_to && is_key key n.external_key
loads_with key _ = false

-- A path holds a committed notification with this key, which loads.
abbrev pub holds : World → Text → FilePath × Text → Bool
holds w key (root, name) = not (starts_with name (codes ".")) && loads_with key (read w root name)

abbrev pub breaks_with : Option Entry → Bool
breaks_with (some (file (err e))) = not (is_tolerated e)
breaks_with _ = false

-- A path whose reading raises an exception that is not caught.
abbrev pub breaks : World → FilePath × Text → Bool
breaks w (root, name) = not (starts_with name (codes ".")) && breaks_with (read w root name)

abbrev pub is_ok {ℓ} : {A : Type ℓ} → Result A → Bool
is_ok (ok v) = true
is_ok (err e) = false

abbrev pub keys_of : Result (List Text) → List Text
keys_of (ok keys) = keys
keys_of (err e) = []

abbrev found_key : Result (Option Text) → Option Text
found_key (ok o) = o
found_key (err e) = none

key_of_entry-holds :
    (key name : Text) (entry : Option Entry)
    → (is_key key (found_key (key_of_entry name entry))
        ≡ not (starts_with name (codes ".")) && loads_with key entry)
      × (is_ok (key_of_entry name entry)
          ≡ not (not (starts_with name (codes ".")) && breaks_with entry))
unfolding key_of_entry key_of_loaded load_entry reloaded is_tolerated
key_of_entry-holds key name none = ground (arith)
key_of_entry-holds key name (some folder) = ground (arith)
key_of_entry-holds key name (some (file (err e))) = ground (arith)
key_of_entry-holds key name (some (file (ok n))) = ground (arith)

key_at-holds :
    (w : World) (key : Text) (path : FilePath × Text)
    → (is_key key (found_key (key_at w path)) ≡ holds w key path)
      × (is_ok (key_at w path) ≡ not (breaks w path))
unfolding key_at
key_at-holds w key (root, name) = key_of_entry-holds key name (read w root name)

abbrev pub distinct : List Text → Bool
distinct [] = true
distinct (k ∷ ks) = not (contains k ks) && distinct ks

contains-index_add :
    (keys : List Text) (added key : Text)
    → contains key (index_add keys added) ≡ (added == key) || contains key keys
unfolding index_add contains
contains-index_add keys added key = elim (Bool-cases (contains added keys)) [
  | inl here ↦ elim (Bool-cases (added == key)) [
    | inl same ↦
        let found : contains key keys ≡ true =
          ap (λ k. contains k keys) (sym ((==_iff added key).0 same)) ∙ here in
        ground (arith, here, same, found)
    | inr other ↦ ground (arith, here, other)
  ]
  | inr new ↦ ground (arith, new)
]

index_add-distinct :
    (keys : List Text) (key : Text) → distinct keys ≡ true → distinct (index_add keys key) ≡ true
unfolding index_add
index_add-distinct keys key h = ground (arith, h)

contains-append :
    (key : Text) (xs ys : List Text) → contains key (xs ++ ys) ≡ contains key xs || contains key ys
unfolding contains
contains-append key [] ys = refl
contains-append key (x ∷ xs) ys = ground (arith, contains-append key xs ys)

both-keys :
    (key : Text) (o : Result (Option Text)) (rest : Result (List Text)) (here later : Bool)
    → is_key key (found_key o) ≡ here
    → contains key (keys_of rest) ≡ (is_ok rest && later)
    → contains key (keys_of (o >>= λ k. rest >>= λ keys. ok (with_key k keys)))
      ≡ (is_ok o && is_ok rest && (here || later))
unfolding contains
both-keys key (err e) rest here later h r = refl
both-keys key (ok none) (err e) here later h r = refl
both-keys key (ok (some k)) (err e) here later h r = refl
both-keys key (ok none) (ok keys) here later h r = ground (arith, h, r)
both-keys key (ok (some k)) (ok keys) here later h r = ground (arith, h, r)

both-is_ok :
    (o : Result (Option Text)) (rest : Result (List Text))
    → is_ok (o >>= λ k. rest >>= λ keys. ok (with_key k keys)) ≡ (is_ok o && is_ok rest)
both-is_ok (err e) rest = refl
both-is_ok (ok k) (err e) = refl
both-is_ok (ok k) (ok keys) = refl

iter_keys-is_ok :
    (w : World) (paths : List (FilePath × Text))
    → is_ok (iter_keys_in_queue_dir w paths) ≡ not (any (breaks w) paths)
unfolding iter_keys_in_queue_dir
iter_keys-is_ok w [] = refl
iter_keys-is_ok w (path ∷ paths) =
    both-is_ok (key_at w path) (iter_keys_in_queue_dir w paths)
    ∙ ground (arith, (key_at-holds w [] path).1, iter_keys-is_ok w paths)

contains-iter_keys :
    (w : World) (key : Text) (paths : List (FilePath × Text))
    → contains key (keys_of (iter_keys_in_queue_dir w paths))
      ≡ (is_ok (iter_keys_in_queue_dir w paths) && any (holds w key) paths)
unfolding iter_keys_in_queue_dir contains
contains-iter_keys w key [] = refl
contains-iter_keys w key (path ∷ paths) =
    both-keys key (key_at w path) (iter_keys_in_queue_dir w paths) (holds w key path)
      (any (holds w key) paths) (key_at-holds w key path).0 (contains-iter_keys w key paths)
    ∙ ap (λ b. b && (holds w key path || any (holds w key) paths))
        (sym (both-is_ok (key_at w path) (iter_keys_in_queue_dir w paths)))

both-append :
    (o : Result (Option Text)) (xs ys : Result (List Text))
    → (o >>= λ k. both xs ys >>= λ keys. ok (with_key k keys))
      ≡ both (o >>= λ k. xs >>= λ keys. ok (with_key k keys)) ys
both-append (err e) xs ys = refl
both-append (ok k) (err e) ys = refl
both-append (ok none) (ok xs) (err e) = refl
both-append (ok (some k)) (ok xs) (err e) = refl
both-append (ok none) (ok xs) (ok ys) = refl
both-append (ok (some k)) (ok xs) (ok ys) = refl

both-empty : (ys : Result (List Text)) → ys ≡ both (ok []) ys
both-empty (ok ys) = refl
both-empty (err e) = refl

iter_keys-append :
    (w : World) (xs ys : List (FilePath × Text))
    → iter_keys_in_queue_dir w (xs ++ ys)
      ≡ both (iter_keys_in_queue_dir w xs) (iter_keys_in_queue_dir w ys)
unfolding iter_keys_in_queue_dir
iter_keys-append w [] ys = both-empty (iter_keys_in_queue_dir w ys)
iter_keys-append w (x ∷ xs) ys =
    ap (λ r. key_at w x >>= λ k. r >>= λ keys. ok (with_key k keys)) (iter_keys-append w xs ys)
    ∙ both-append (key_at w x) (iter_keys_in_queue_dir w xs) (iter_keys_in_queue_dir w ys)

contains-bulk_add :
    (key : Text) (keys added : List Text)
    → contains key (bulk_add keys added) ≡ contains key keys || contains key added
unfolding bulk_add contains
contains-bulk_add key keys [] = ground (arith)
contains-bulk_add key keys (k ∷ added) =
    let rest = contains-bulk_add key (index_add keys k) added in
    ground (arith, rest, contains-index_add keys k key)

bulk_add-distinct :
    (keys added : List Text) → distinct keys ≡ true → distinct (bulk_add keys added) ≡ true
unfolding bulk_add
bulk_add-distinct keys [] h = h
bulk_add-distinct keys (k ∷ added) h =
    bulk_add-distinct (index_add keys k) added (index_add-distinct keys k h)

-- The files below the directories.
abbrev pub files_of : (FilePath → List (FilePath × Text)) → List FilePath → List (FilePath × Text)
files_of rglob [] = []
files_of rglob (dir ∷ dirs) = rglob dir ++ files_of rglob dirs

added-distinct :
    (r : Result (List Text)) → distinct (keys_of (r >>= λ keys. ok (bulk_add [] keys))) ≡ true
added-distinct (ok keys) = bulk_add-distinct [] keys refl
added-distinct (err e) = refl

added-contains :
    (key : Text) (r : Result (List Text))
    → contains key (keys_of (r >>= λ keys. ok (bulk_add [] keys))) ≡ contains key (keys_of r)
unfolding contains
added-contains key (ok keys) = contains-bulk_add key [] keys
added-contains key (err e) = refl

added-is_ok : (r : Result (List Text)) → is_ok (r >>= λ keys. ok (bulk_add [] keys)) ≡ is_ok r
added-is_ok (ok keys) = refl
added-is_ok (err e) = refl

module _ (rglob : FilePath → List (FilePath × Text)) (w : World) where
  iter_dirs-files :
      (dirs : List FilePath)
      → iter_keys_in_dirs rglob w dirs ≡ iter_keys_in_queue_dir w (files_of rglob dirs)
  unfolding iter_keys_in_dirs iter_keys_in_queue_dir
  iter_dirs-files [] = refl
  iter_dirs-files (dir ∷ dirs) =
      ap (both (iter_keys_in_queue_dir w (rglob dir))) (iter_dirs-files dirs)
      ∙ sym (iter_keys-append w (rglob dir) (files_of rglob dirs))

  iter_agency-files :
      (inbox_dirs service_dirs : List FilePath)
      → iter_keys_in_agency rglob w inbox_dirs service_dirs
        ≡ iter_keys_in_queue_dir w (files_of rglob inbox_dirs ++ files_of rglob service_dirs)
  unfolding iter_keys_in_agency
  iter_agency-files inbox_dirs service_dirs =
      rw
        (
          iter_dirs-files inbox_dirs,
          iter_dirs-files service_dirs,
          iter_keys-append w (files_of rglob inbox_dirs) (files_of rglob service_dirs),
        )
        refl

  -- The rebuild returns an index exactly if reading none of the committed files below the inboxes'
  -- and the services' directories raises an exception other than OSError, ValueError and KeyError.
  -- The index holds no key twice, and then it holds a key if and only if one of these files is a
  -- notification with that key that loads.
  pub rebuild-holds :
      (inbox_dirs service_dirs : List FilePath) (key : Text)
      → let rebuilt = rebuild_in_flight_index rglob w inbox_dirs service_dirs in
        let files = files_of rglob inbox_dirs ++ files_of rglob service_dirs in
        (is_ok rebuilt ≡ not (any (breaks w) files))
        × (distinct (keys_of rebuilt) ≡ true)
        × (contains key (keys_of rebuilt) ≡ (not (any (breaks w) files) && any (holds w key) files))
  unfolding rebuild_in_flight_index
  rebuild-holds inbox_dirs service_dirs key =
      let files = files_of rglob inbox_dirs ++ files_of rglob service_dirs in
      let keys = iter_keys_in_queue_dir w files in
      rw (iter_agency-files inbox_dirs service_dirs) (
        added-is_ok keys ∙ iter_keys-is_ok w files,
        added-distinct keys,
        added-contains key keys
            ∙ contains-iter_keys w key files
            ∙ ap (λ b. b && any (holds w key) files) (iter_keys-is_ok w files),
      )
