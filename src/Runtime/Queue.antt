-- ===== src/Runtime/Queue.antt =====
-- DurableQueue of src/thorn/runtime/_queue.py: one file for a notification, written by rename.
pub mod Names
pub mod View
pub mod Moves
pub mod Ends
pub mod Post
use thorn.Prelude.Sorting.{sort_by}
use thorn.Prelude.{
  ==_iff, Bool, List, Option, Text, [], all, bool_eq, codes, contains, ends_with, false,
  if◌then◌else◌, is_empty, keep, leb, length, list_eq, nat_beq, nat_eq, none, not, option_eq,
  pair_eq, some, starts_with, true, ℕ, ◌&&◌, ◌++◌, ◌==◌, ◌||◌, ◌∷◌,
}
use thorn.Errors.{Error, Result, bind, err, key_error, ok, os_error, value_error}
use thorn.Runtime.Address.{Address, address_eq, service, session}
use thorn.Runtime.Ulid.{generate_ulid}
use thorn.Runtime.Notification.{
  Notification, NotificationSpec, Status, Surroundings, Updates, from_spec, status_eq, with_updates,
}
use thorn.Runtime.World.{
  Entry, Exec, FilePath, World, file, folder, gets, index_add, index_remove, lift, modify, pure,
  read, unlink, write, ◌>>=◌, ◌>>◌,
}

-- The class of a queue object.
pub data QueueClass : Type 0 where
  durable_queue session_inbox notification_queue : QueueClass

-- `in_flight_index is not None` is `indexed`: an agency has one index.
pub record DurableQueue : Type 0 where
  pub class : QueueClass
  pub root : FilePath
  pub indexed : Bool

abbrev pub live_suffix : Text
live_suffix = codes ".json"

abbrev pub temp_prefix : Text
temp_prefix = codes ".tmp-"

-- The classes of _QUEUE_LOCAL_NOTIFICATION_ID_PATTERN.
unfoldable pub is_first : ℕ → Bool
is_first c =
    (leb b'A' c && leb c b'Z')
    || (leb b'a' c && leb c b'z')
    || (leb b'0' c && leb c b'9')
    || nat_beq c b'_'
    || nat_beq c b'-'

unfoldable pub is_later : ℕ → Bool
unfolding is_first
is_later c = is_first c || nat_beq c b'.'

unfoldable pub is_queue_local : Text → Bool
unfolding is_later
is_queue_local [] = false
is_queue_local (c ∷ t) = is_first c && all is_later t

abbrev pub live_name : Text → Text
live_name id = id ++ live_suffix

abbrev pub temp_name : Text → Text
temp_name id = temp_prefix ++ (id ++ live_suffix)

-- _path_for and _temp_path_for: the name below the root. The check for a direct child always
-- passes, for a local id has no slash.
unfoldable pub path_for : Text → Result Text
path_for id = if is_queue_local id then ok (live_name id) else err key_error

unfoldable pub temp_path_for : Text → Result Text
temp_path_for id = if is_queue_local id then ok (temp_name id) else err key_error

-- Address.parse of the text of an address: of the addresses that exist only those of a session with
-- an empty agent id are refused.
unfoldable pub is_loadable : Address → Bool
is_loadable (session agent_id key) = not (is_empty agent_id)
is_loadable (service name) = true

unfoldable pub is_loadable_rsvp : Option Address → Bool
unfolding is_loadable
is_loadable_rsvp none = true
is_loadable_rsvp (some address) = is_loadable address

-- Both addresses of a notification load.
unfoldable pub loads_back : Address → Option Address → Bool
unfolding is_loadable_rsvp
loads_back target rsvp_to = is_loadable target && is_loadable_rsvp rsvp_to

-- from_json of what to_json gives
unfoldable pub reloaded : Notification → Result Notification
reloaded n = if loads_back n.target n.rsvp_to then ok n else err value_error

unfoldable pub load_entry : Option Entry → Result Notification
load_entry (some (file (ok n))) = reloaded n
load_entry (some (file (err e))) = err e
load_entry (some folder) = err os_error
load_entry none = err os_error

-- except (OSError, ValueError, KeyError)
unfoldable pub is_tolerated : Error → Bool
is_tolerated os_error = true
is_tolerated value_error = true
is_tolerated key_error = true
is_tolerated _ = false

unfoldable pub tolerant_key : Result Notification → Result (Option Text)
unfolding is_tolerated
tolerant_key (ok n) = ok n.external_key
tolerant_key (err e) = if is_tolerated e then ok none else err e

module _ (q : DurableQueue) where
  -- path.exists()
  unfoldable pub exists : World → Text → Bool
  exists w name = elim (read w q.root name) [ some entry ↦ true | none ↦ false ]

  unfoldable pub load : Text → Exec Notification
  load name w = (load_entry (read w q.root name), w)

  -- path.exists(), or KeyError
  unfoldable pub require : Text → Exec (Unit {0})
  unfolding exists
  require name w = (if exists w name then ok tt else err key_error, w)

  -- _rename from this root: os.replace, of which the new name is never that of a directory
  unfoldable pub rename : Text → FilePath → Text → Exec (Unit {0})
  rename src root dst w = elim (read w q.root src) [
    | some entry ↦ (ok tt, write (unlink w q.root src) root dst entry)
    | none ↦ (err os_error, w)
  ]

  unfoldable pub write_atomic : Notification → Exec (Unit {0})
  unfolding rename temp_path_for path_for
  write_atomic n = do
    temp_path ← lift (temp_path_for n.id)
    final_path ← lift (path_for n.id)
    modify (λ w. write w q.root temp_path (file (ok n)))
    rename temp_path q.root final_path

  -- The index after a post and after a delete.
  unfoldable pub index_posted : Option Text → World → World
  index_posted none w = w
  index_posted (some key) w = if q.indexed then record w { index = index_add w.index key } else w

  unfoldable pub index_deleted : Option Text → World → World
  index_deleted none w = w
  index_deleted (some key) w =
      if q.indexed then record w { index = index_remove w.index key } else w

  unfoldable pub post : NotificationSpec → Surroundings → Exec Notification
  post spec outside = do
    (id, ulid) ← gets (λ w. generate_ulid w.ulid outside.time_ns outside.random)
    modify (λ w. record w { ulid = ulid })
    let notification = from_spec id outside.now spec
    write_atomic notification
    modify (index_posted notification.external_key)
    pure notification

  -- _is_live_file
  unfoldable pub is_live_file : Text × Entry → Bool
  unfolding starts_with
  is_live_file (name, folder) = false
  is_live_file (name, file n) = not (starts_with name (codes ".")) && ends_with name live_suffix

  unfoldable pub is_allowed : Option (List Status) → Status → Bool
  is_allowed none s = true
  is_allowed (some allowed) s = contains s allowed

  -- The loop of `list`, over the sorted entries.
  unfoldable pub load_live : Option (List Status) → List (Text × Entry) → Result (List Notification)
  unfolding is_live_file load_entry is_allowed
  load_live allowed [] = ok []
  load_live allowed ((name, entry) ∷ entries) =
      let rest = load_live allowed entries in
      if is_live_file (name, entry)
      then bind (load_entry (some entry))
          (λ n. bind rest (λ ns. ok (if is_allowed allowed n.status then n ∷ ns else ns)))
      else rest

  unfoldable pub list : Option (List Status) → Exec (List Notification)
  unfolding load_live
  list allowed w = (load_live allowed (sort_by (λ (name, entry). name) (w.disk q.root)), w)

  unfoldable pub get : Text → Exec Notification
  unfolding path_for require load
  get id = do path ← lift (path_for id); require path; load path

  unfoldable pub update_status : Text → Status → Updates → Exec Notification
  update_status id status fields = do
    current ← get id
    let updated = with_updates current (some status) fields
    write_atomic updated
    pure updated

  unfoldable pub move_to : Text → DurableQueue → Exec Notification
  unfolding path_for require load rename
  move_to id target = do
    src ← lift (path_for id)
    require src
    if q.root == target.root
        then load src
        else do rename src target.root src; (λ w. (load_entry (read w target.root src), w))

  -- path.unlink() of a name that exists
  unfoldable pub unlink_file : Text → Exec (Unit {0})
  unlink_file name w = elim (read w q.root name) [
    | some (file n) ↦ (ok tt, unlink w q.root name)
    | other ↦ (err os_error, w)
  ]

  unfoldable pub delete : Text → Exec (Unit {0})
  unfolding path_for require load unlink_file index_deleted tolerant_key
  delete id = do
    path ← lift (path_for id)
    require path
    external_key ← λ w. (if q.indexed then tolerant_key (load path w).0 else ok none, w)
    unlink_file path
    modify (index_deleted external_key)

  unfoldable pub is_temp_file : Text × Entry → Bool
  is_temp_file (name, folder) = false
  is_temp_file (name, file n) = starts_with name temp_prefix

  unfoldable pub cleanup_temp_files : Exec ℕ
  unfolding is_temp_file
  cleanup_temp_files w =
      let dir = w.disk q.root in
      (
        ok (length (keep is_temp_file dir)),
        record w {
          disk = λ r. if q.root == r then keep (λ e. not (is_temp_file e)) dir else w.disk r;
        },
      )
