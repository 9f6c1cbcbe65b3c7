-- ===== src/Tests/Dispatch.antt =====
-- Transitions of src/thorn/runtime/_dispatch.py at sample items.
use thorn.Prelude.Dict
use thorn.Prelude.{
  ==_iff, [], bool_eq, codes, is_empty, is_space, list_beq, list_eq, lstrip, nat_eq, none,
  option_eq, pair_eq, refl, rstrip, some, strip, true, ◌≡◌, ◌≢◌,
}
use thorn.Errors.{Result, dispatch_error, err, key_error, ok}
use thorn.Runtime.Address.{address_beq, address_eq}
use thorn.Runtime.Notification.{
  Notification, errored, handled, is_prompt_ready, is_terminal, pending, status_eq,
}
use thorn.Runtime.Notification.Rationale.{
  blank_check, has_meaningful_entry, is_blank, validation_errors,
}
use thorn.Runtime.World.{World, index_remove}
use thorn.Runtime.Queue.{DurableQueue, get}
use thorn.Runtime.Inbox.{errored_queue}
use thorn.Runtime.Dispatch.{is_complete, is_consistent}
use thorn.Runtime.Dispatch.Transition.{
  apply-errored, apply-handled, apply-resolved, apply-unresolved, closed, result,
}
use thorn.Tests.Samples.{
  book, closing, desk, desk_address, failing_arguments, get-holding, holding, holding-IsNamed,
  inbox, item_id, item_id-local, plain_item, plain_item-reloaded, rsvp_item, rsvp_item-reloaded,
}

abbrev plain_world : World
plain_world = holding plain_item

abbrev rsvp_world : World
rsvp_world = holding rsvp_item

apart : inbox.root ≢ desk.root
apart e = cc

closing-is_consistent : is_consistent handled closing ≡ true
unfolding is_consistent is_complete is_empty validation_errors has_meaningful_entry blank_check
    is_blank strip lstrip rstrip is_space
closing-is_consistent = refl

failing-is_consistent : is_consistent errored failing_arguments ≡ true
unfolding is_consistent is_empty
failing-is_consistent = refl

handled-is_terminal : is_terminal handled ≡ true
unfolding is_terminal
handled-is_terminal = refl

errored-is_terminal : is_terminal errored ≡ true
unfolding is_terminal
errored-is_terminal = refl

pending-is_prompt_ready : is_prompt_ready pending ≡ true
unfolding is_prompt_ready
pending-is_prompt_ready = refl

bound : Dict.get book desk_address ≡ some desk
unfolding Dict.get address_beq thorn.Prelude.list_beq
bound = refl

unbound : Dict.get {V = DurableQueue} [] desk_address ≡ none
unfolding Dict.get
unbound = refl

abbrev resolved : Result Notification × World
resolved = result book inbox item_id handled closing rsvp_world rsvp_item

apply-resolved_example :
    (resolved.0 ≡ ok (closed rsvp_item handled closing))
    × ((get desk item_id resolved.1).0 ≡ ok (closed rsvp_item handled closing))
    × ((get inbox item_id resolved.1).0 ≡ err key_error)
    × (resolved.1.index ≡ rsvp_world.index)
apply-resolved_example =
    apply-resolved book inbox item_id handled closing rsvp_world rsvp_item
      (holding-IsNamed rsvp_item item_id-local rsvp_item-reloaded)
      (get-holding rsvp_item item_id-local rsvp_item-reloaded) pending-is_prompt_ready
      closing-is_consistent handled-is_terminal desk_address desk refl bound apart

abbrev unresolved : Result Notification × World
unresolved = result [] inbox item_id handled closing rsvp_world rsvp_item

apply-unresolved_example :
    (unresolved.0 ≡ err dispatch_error)
    × ((get inbox item_id unresolved.1).0 ≡ ok (closed rsvp_item handled closing))
    × (unresolved.1.index ≡ rsvp_world.index)
apply-unresolved_example =
    apply-unresolved [] inbox item_id handled closing rsvp_world rsvp_item
      (holding-IsNamed rsvp_item item_id-local rsvp_item-reloaded)
      (get-holding rsvp_item item_id-local rsvp_item-reloaded) pending-is_prompt_ready
      closing-is_consistent handled-is_terminal desk_address refl unbound

abbrev done : Result Notification × World
done = result book inbox item_id handled closing plain_world plain_item

apply-handled_example :
    (done.0 ≡ ok (closed plain_item handled closing))
    × ((get inbox item_id done.1).0 ≡ err key_error)
    × (done.1.index ≡ index_remove plain_world.index (codes "pr-7"))
apply-handled_example =
    apply-handled book inbox item_id handled closing plain_world plain_item
      (holding-IsNamed plain_item item_id-local plain_item-reloaded)
      (get-holding plain_item item_id-local plain_item-reloaded) pending-is_prompt_ready
      closing-is_consistent handled-is_terminal refl refl

abbrev parked : Result Notification × World
parked = result book inbox item_id errored failing_arguments plain_world plain_item

apply-errored_example :
    (parked.0 ≡ ok (closed plain_item errored failing_arguments))
    × ((get (errored_queue inbox) item_id parked.1).0
        ≡ ok (closed plain_item errored failing_arguments))
    × ((get inbox item_id parked.1).0 ≡ err key_error)
    × (parked.1.index ≡ plain_world.index)
apply-errored_example =
    apply-errored book inbox item_id errored failing_arguments plain_world plain_item
      (holding-IsNamed plain_item item_id-local plain_item-reloaded)
      (get-holding plain_item item_id-local plain_item-reloaded) pending-is_prompt_ready
      failing-is_consistent errored-is_terminal refl refl
