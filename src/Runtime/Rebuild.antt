-- ===== src/Runtime/Rebuild.antt =====
-- rebuild_in_flight_index of src/thorn/runtime/_in_flight_index.py. What root.rglob("*.json") yields
-- is an argument, nothing where there is no such directory, as are the directories that AgencyPaths
-- iterates over.
pub mod Keys
use thorn.Prelude.{
  ==_iff, List, Option, Text, [], bool_eq, codes, if◌then◌else◌, list_eq, nat_eq, none, option_eq,
  pair_eq, some, starts_with, ◌++◌, ◌∷◌,
}
use thorn.Errors.{Result, err, ok, ◌>>=◌}
use thorn.Runtime.Queue.{is_tolerated, load_entry}
use thorn.Runtime.Notification.{Notification, status_eq}
use thorn.Runtime.World.{Entry, FilePath, World, file, folder, index_add, read}

-- One turn of the loop in _iter_keys_in_queue_dir: a folder and a sidecar are passed over, a file
-- that does not load has no key, unless its exception is of another class than those caught.
unfoldable pub key_of_loaded : Result Notification → Result (Option Text)
unfolding is_tolerated
key_of_loaded (ok n) = ok n.external_key
key_of_loaded (err e) = if is_tolerated e then ok none else err e

unfoldable pub key_of_entry : Text → Option Entry → Result (Option Text)
key_of_entry name none = ok none
key_of_entry name (some folder) = ok none
key_of_entry name (some (file f)) =
    if starts_with name (codes ".") then ok none else key_of_loaded (load_entry (some (file f)))

unfoldable pub key_at : World → FilePath × Text → Result (Option Text)
key_at w (root, name) = key_of_entry name (read w root name)

abbrev pub with_key : Option Text → List Text → List Text
with_key none keys = keys
with_key (some key) keys = key ∷ keys

unfoldable pub iter_keys_in_queue_dir : World → List (FilePath × Text) → Result (List Text)
iter_keys_in_queue_dir w [] = ok []
iter_keys_in_queue_dir w (path ∷ paths) =
    let rest = iter_keys_in_queue_dir w paths in
    key_at w path >>= λ key. rest >>= λ keys. ok (with_key key keys)

-- InFlightIndex.bulk_add: set.update, key by key
unfoldable pub bulk_add : List Text → List Text → List Text
bulk_add keys [] = keys
bulk_add keys (key ∷ added) = bulk_add (index_add keys key) added

-- yield from one, then from the other
abbrev pub both : Result (List Text) → Result (List Text) → Result (List Text)
both first second = first >>= λ xs. second >>= λ ys. ok (xs ++ ys)

module _ (rglob : FilePath → List (FilePath × Text)) where
  -- The directories of a queue's kind, one after another
  unfoldable pub iter_keys_in_dirs : World → List FilePath → Result (List Text)
  iter_keys_in_dirs w [] = ok []
  iter_keys_in_dirs w (dir ∷ dirs) =
      both (iter_keys_in_queue_dir w (rglob dir)) (iter_keys_in_dirs w dirs)

  unfoldable pub iter_keys_in_agency : World → List FilePath → List FilePath → Result (List Text)
  iter_keys_in_agency w inbox_dirs service_dirs =
      both (iter_keys_in_dirs w inbox_dirs) (iter_keys_in_dirs w service_dirs)

  unfoldable pub rebuild_in_flight_index :
      World → List FilePath → List FilePath → Result (List Text)
  rebuild_in_flight_index w inbox_dirs service_dirs =
      iter_keys_in_agency w inbox_dirs service_dirs >>= λ keys. ok (bulk_add [] keys)
