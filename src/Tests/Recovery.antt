-- ===== src/Tests/Recovery.antt =====
-- Recovery, parking and draining of src/thorn/runtime at sample items.
use thorn.Prelude.{
  ==_iff, List, Text, [], any, bool_eq, codes, contains, is_empty, list_beq, list_eq, nat_eq, none,
  not, option_beq, option_eq, pair_eq, refl, some, starts_with, true, ◌&&◌, ◌++◌, ◌∷◌, ◌≡◌,
}
use thorn.Runtime.Rebuild.{
  bulk_add, iter_keys_in_agency, iter_keys_in_dirs, iter_keys_in_queue_dir, key_at, key_of_entry,
  key_of_loaded, rebuild_in_flight_index,
}
use thorn.Runtime.Rebuild.Keys.{breaks, distinct, files_of, holds, is_ok, keys_of, rebuild-holds}
use thorn.Errors.{Result, err, key_error, ok}
use thorn.Runtime.Address.{address_beq, address_eq}
use thorn.Runtime.Notification.{
  Notification, errored, is_prompt_ready, is_terminal, pending, status_beq, status_eq, with_updates,
}
use thorn.Runtime.World.{FilePath, World, index_add, read, unlink, write}
use thorn.Runtime.Queue.{get, is_queue_local, load_entry, reloaded, update_status, write_atomic}
use thorn.Runtime.Inbox.{errored_queue, park_live}
use thorn.Runtime.Inbox.Parking.{get-park_live, park_fields}
use thorn.Runtime.Dispatch.{apply_handling_transition, is_consistent, update_fields}
use thorn.Runtime.Dispatch.Transition.{closed}
use thorn.Runtime.NotificationQueue.{
  Handler, NotificationQueue, classify, drain_one, drained, handler_for, outcome, rsvp,
}
use thorn.Runtime.NotificationQueue.Draining.{drain_one-handled}
use thorn.Runtime.Sweep.{clean_report, sweep_session_item}
use thorn.Runtime.Sweep.Recovery.{sweep_session_item-recovers}
use thorn.Tests.Samples.{
  book, desk, desk_address, failing_arguments, get-holding, holding, holding-IsNamed, inbox,
  item_id, item_id-local, plain_item, rsvp_item, rsvp_item-reloaded,
}

abbrev held : World
held = holding rsvp_item

pending-is_prompt_ready : is_prompt_ready pending ≡ true
unfolding is_prompt_ready
pending-is_prompt_ready = refl

failing-is_consistent : is_consistent errored failing_arguments ≡ true
unfolding is_consistent is_empty
failing-is_consistent = refl

errored-is_terminal : is_terminal errored ≡ true
unfolding is_terminal
errored-is_terminal = refl

abbrev stopped : World
stopped = (update_status inbox item_id errored (update_fields errored failing_arguments) held).1

sweep_session_item-recovers_example :
    (sweep_session_item book inbox
      (closed rsvp_item errored failing_arguments)
      clean_report
      stopped).1
    ≡ (apply_handling_transition book inbox item_id errored failing_arguments held).1
sweep_session_item-recovers_example =
    sweep_session_item-recovers book inbox item_id errored failing_arguments held rsvp_item
      clean_report (holding-IsNamed rsvp_item item_id-local rsvp_item-reloaded)
      (get-holding rsvp_item item_id-local rsvp_item-reloaded) pending-is_prompt_ready
      failing-is_consistent errored-is_terminal

abbrev parked : Notification
parked = with_updates rsvp_item (some errored) (park_fields (codes "stop"))

abbrev after_park : Result Notification × World
after_park = park_live inbox item_id (codes "stop") held

get-park_live_example :
    (after_park.0 ≡ ok parked)
    × ((get (errored_queue inbox) item_id after_park.1).0 ≡ ok parked)
    × ((get inbox item_id after_park.1).0 ≡ err key_error)
get-park_live_example =
    get-park_live inbox item_id (codes "stop") held rsvp_item
      (holding-IsNamed rsvp_item item_id-local rsvp_item-reloaded)
      (get-holding rsvp_item item_id-local rsvp_item-reloaded) pending-is_prompt_ready

abbrev accept : Handler
accept n w = (ok tt, w)

abbrev listener : NotificationQueue
listener = record {
  queue = inbox;
  address = desk_address;
  fresh_handler = none;
  rsvp_handler = some accept;
}

a_reply : classify listener rsvp_item ≡ ok rsvp
unfolding classify status_beq address_beq thorn.Prelude.option_beq thorn.Prelude.list_beq
a_reply = refl

accepts : handler_for listener rsvp ≡ some accept
unfolding handler_for
accepts = refl

drain_one-handled_example :
    ((drain_one listener rsvp_item held).0 ≡ ok (outcome rsvp_item rsvp drained none))
    × ((get inbox item_id (drain_one listener rsvp_item held).1).0 ≡ err key_error)
drain_one-handled_example =
    drain_one-handled listener rsvp_item rsvp accept held held a_reply accepts refl
      (holding-IsNamed rsvp_item item_id-local rsvp_item-reloaded)
      (get-holding rsvp_item item_id-local rsvp_item-reloaded)

-- What is found below a directory: one committed notification, and one that was half written.
abbrev found_files : FilePath → List (FilePath × Text)
found_files dir = (dir, item_id ++ codes ".json") ∷ (dir, codes ".tmp-01B.json") ∷ []

abbrev all_files : List (FilePath × Text)
all_files = files_of found_files (inbox.root ∷ []) ++ files_of found_files (desk.root ∷ [])

rebuild-holds_example :
    let rebuilt =
      rebuild_in_flight_index found_files (holding plain_item) (inbox.root ∷ []) (desk.root ∷ []) in
    (is_ok rebuilt ≡ not (any (breaks (holding plain_item)) all_files))
    × (distinct (keys_of rebuilt) ≡ true)
    × (contains (codes "pr-7") (keys_of rebuilt) ≡ (
        not (any (breaks (holding plain_item)) all_files)
        && any (holds (holding plain_item) (codes "pr-7")) all_files))
rebuild-holds_example =
    rebuild-holds found_files (holding plain_item) (inbox.root ∷ []) (desk.root ∷ []) (codes "pr-7")

rebuilt :
    rebuild_in_flight_index found_files (holding plain_item) (inbox.root ∷ []) (desk.root ∷ [])
    ≡ ok (codes "pr-7" ∷ [])
unfolding rebuild_in_flight_index iter_keys_in_agency iter_keys_in_dirs iter_keys_in_queue_dir
    bulk_add index_add key_at key_of_entry thorn.Runtime.World.read thorn.Prelude.Dict.get
    thorn.Runtime.Queue.write_atomic thorn.Runtime.Queue.is_queue_local thorn.Runtime.World.write
    thorn.Prelude.list_beq thorn.Prelude.Dict.put thorn.Runtime.World.unlink
    thorn.Prelude.Dict.remove thorn.Prelude.starts_with thorn.Prelude.contains
    thorn.Runtime.Queue.load_entry thorn.Runtime.Queue.reloaded thorn.Runtime.Rebuild.key_of_loaded
    thorn.Prelude.is_empty thorn.Runtime.Queue.loads_back
rebuilt = refl
