-- ===== src/Tests/Queues.antt =====
-- Queue operations of src/thorn/runtime/_queue.py at sample items.
use thorn.Prelude.{
  ==_iff, [], bool_eq, codes, if◌then◌else◌, is_empty, list_eq, nat_eq, none, option_eq, pair_eq,
  some, ◌&&◌, ◌==◌, ◌≡◌,
}
use thorn.Errors.{Result, err, key_error, ok}
use thorn.Runtime.Address.{address_eq, session}
use thorn.Runtime.Notification.{
  Notification, NotificationSpec, Surroundings, in_progress, no_updates, pending, status_eq,
}
use thorn.Runtime.World.{World, index_add, index_remove}
use thorn.Runtime.Queue.{delete, get, loads_back, post, update_status}
use thorn.Runtime.Queue.View.{update_status_raises}
use thorn.Runtime.Queue.Ends.{get-delete}
use thorn.Runtime.Queue.Post.{get-post, posted}
use thorn.Tests.Samples.{
  bare, get-holding, holding, inbox, item_id, item_id-local, nothing, plain_item,
  plain_item-reloaded,
}

abbrev held : World
held = holding plain_item

missing : (get inbox item_id bare).0 ≡ err key_error
missing = nothing item_id

update_status_raises_example :
    update_status inbox item_id in_progress no_updates bare ≡ (err key_error, bare)
update_status_raises_example =
    update_status_raises inbox item_id in_progress no_updates bare key_error missing

abbrev deleted : Result (Unit {0}) × World
deleted = delete inbox item_id held

get-delete_example :
    (deleted.0 ≡ ok tt)
    × (deleted.1.index ≡ index_remove held.index (codes "pr-7"))
    × ((get inbox item_id deleted.1).0 ≡ (
        if (inbox.root == inbox.root) && (item_id == item_id)
        then err key_error
        else (get inbox item_id held).0))
get-delete_example =
    get-delete inbox inbox item_id item_id held plain_item
      (get-holding plain_item item_id-local plain_item-reloaded)

abbrev request : NotificationSpec
request = record {
  source = codes "github";
  content = codes "review";
  target = session (codes "ada") (codes "main");
  metadata = [];
  rsvp_to = none;
  external_key = some (codes "pr-8");
}

abbrev surroundings : Surroundings
surroundings = record { time_ns = 9_000_000; random = 4; now = 9 }

abbrev made : Notification
made = posted request surroundings held

abbrev arrived : Result Notification × World
arrived = post inbox request surroundings held

get-post_example :
    (arrived.0 ≡ ok made)
    × (made.status ≡ pending)
    × (arrived.1.index ≡ index_add held.index (codes "pr-8"))
    × ((get inbox made.id arrived.1).0 ≡ (
        if (inbox.root == inbox.root) && (made.id == made.id)
        then ok made
        else (get inbox made.id held).0))
unfolding thorn.Runtime.Queue.loads_back thorn.Prelude.is_empty
get-post_example = get-post inbox inbox request surroundings held made.id
