-- ===== src/Runtime/Dispatch/Transition.antt =====
-- apply_handling_transition of src/thorn/runtime/_dispatch.py, both steps together.
use thorn.Prelude.Dict
use thorn.Prelude.{
  ==_iff, ==_refl, Text, ap, arith, false, if◌then◌else◌, list_beq_iff, list_eq, nat_eq, none,
  option_eq, refl, some, true, ◌&&◌, ◌==◌, ◌∙◌, ◌≡◌, ◌≢◌,
}
use thorn.Errors.{Result, dispatch_error, err, key_error, ok}
use thorn.Runtime.Address.{Address, address_eq}
use thorn.Runtime.Address.Book.{AddressBook}
use thorn.Runtime.Notification.{
  Notification, Status, errored, handled, in_progress, is_prompt_ready, is_terminal, open_facts,
  status_eq, with_updates,
}
use thorn.Runtime.World.{World, continue, index_remove, pure}
use thorn.Runtime.Queue.{DurableQueue, get, is_queue_local, update_status}
use thorn.Runtime.Queue.View.{
  IsNamed, get-eq, get-is_queue_local, get-update_status, update_status_lem, with_updates-id,
}
use thorn.Runtime.Queue.Post.{index-write_atomic}
use thorn.Runtime.Inbox.{errored_queue}
use thorn.Runtime.Dispatch.{
  Arguments, apply_handling_transition, dispatch_step_two, is_consistent, update_fields,
}
use thorn.Runtime.Dispatch.Outcomes.{
  dispatch_step_two_errored, dispatch_step_two_handled, dispatch_step_two_resolved,
  dispatch_step_two_unresolved, errored-ne-root,
}

-- The notification as step 1 writes it.
abbrev pub closed : Notification → Status → Arguments → Notification
closed n status a = with_updates n (some status) (update_fields status a)

-- The result of step 2, with the updated notification for its value.
abbrev pub returning : Notification → Result (Unit {0}) × World → Result Notification × World
returning u (ok x, w) = (ok u, w)
returning u (err e, w) = (err e, w)

returning_lem :
    (u : Notification) (r : Result (Unit {0}) × World)
    → continue r.0 (λ _. pure u) r.1 ≡ returning u r
returning_lem u (ok x, w) = refl
returning_lem u (err e, w) = refl

returning_ok :
    (u : Notification) (r : Result (Unit {0}) × World) → r.0 ≡ ok tt → returning u r ≡ (ok u, r.1)
returning_ok u (ok x, w) h = refl
returning_ok u (err e, w) h = ground arith

module _ (book : AddressBook DurableQueue) (inbox : DurableQueue) (id : Text) (status : Status)
    (a : Arguments) (w : World) (n : Notification) where
  abbrev pub result : Result Notification × World
  result = apply_handling_transition book inbox id status a w

  -- The world after step 1.
  abbrev pub first : World
  first = (update_status inbox id status (update_fields status a) w).1

  module _ (named : IsNamed inbox w) (there : (get inbox id w).0 ≡ ok n)
      (live : is_prompt_ready n.status ≡ true) (good : is_consistent status a ≡ true) where
    first-get : (get inbox id first).0 ≡ ok (closed n status a)
    first-get =
        (get-update_status inbox inbox id id status (update_fields status a) w n named there).1
        ∙ rw (==_refl inbox.root, ==_refl id)

    first-ok :
        update_status inbox id status (update_fields status a) w ≡ (ok (closed n status a), first)
    first-ok = ground (
      arith,
      (get-update_status inbox inbox id id status (update_fields status a) w n named there).0,
    )

    closed-id : (closed n status a).id ≡ id
    closed-id = with_updates-id n status (update_fields status a) ∙ named id n there

    first-index : first.index ≡ w.index
    first-index =
        let k : is_queue_local n.id ≡ true =
          rw (named id n there) (get-is_queue_local inbox id w n there) in
        let k' : is_queue_local (closed n status a).id ≡ true =
          rw (with_updates-id n status (update_fields status a)) k in
        ap (λ x. x.1.index)
          (update_status_lem inbox id status (update_fields status a) w n
            (get-eq inbox id w (ok n) there) k)
        ∙ index-write_atomic inbox (closed n status a) w k'

    open_eq : is_terminal status ≡ false → result ≡ (ok (closed n status a), first)
    unfolding apply_handling_transition
    open_eq s =
        let (o, c) = open_facts n.status live in
        rw (good, get-eq inbox id w (ok n) there) (rw (o, c) (rw first-ok (rw s)))

    pub terminal_eq :
        is_terminal status ≡ true
        → result
          ≡ returning (closed n status a) (dispatch_step_two book inbox (closed n status a) first)
    unfolding apply_handling_transition
    terminal_eq s =
        let (o, c) = open_facts n.status live in
        rw (good, get-eq inbox id w (ok n) there)
          (rw (o, c)
            (rw first-ok (
              rw s (
                returning_lem (closed n status a)
                  (dispatch_step_two book inbox (closed n status a) first)))))

    found-first : (get inbox (closed n status a).id first).0 ≡ ok (closed n status a)
    found-first = ap (λ x. (get inbox x first).0) closed-id ∙ first-get

    same : (n.id == id) ≡ true
    same = (==_iff n.id id).1 (named id n there)

    -- The inbox finds nothing where the item went to another root.
    left :
        (target : DurableQueue)
        → inbox.root ≢ target.root
        → (if (target.root == inbox.root) && (n.id == id)
            then ok (closed n status a)
            else if (inbox.root == inbox.root) && (n.id == id)
            then err key_error
            else (get inbox id first).0)
          ≡ err key_error
    left target apart =
        ground (arith, same, list_beq_iff target.root inbox.root, ==_refl inbox.root)

    -- In an inbox whose files are named for the notifications in them, an item that is found open
    -- and is taken in progress, with the arguments of that status, is updated where it is, and the
    -- index is left alone.
    pub apply-in_progress :
        (status ≡ in_progress)
        → (result.0 ≡ ok (closed n status a))
          × ((get inbox id result.1).0 ≡ ok (closed n status a))
          × (result.1.index ≡ w.index)
    unfolding is_terminal
    apply-in_progress s =
        let e : result ≡ (ok (closed n status a), first) = open_eq (ap is_terminal s) in
        (
          ap (λ x. x.0) e,
          ap (λ x. (get inbox id x.1).0) e ∙ first-get,
          ap (λ x. x.1.index) e ∙ first-index,
        )

    module _ (terminal : is_terminal status ≡ true) where
      -- In an inbox whose files are named for the notifications in them, an item that is found
      -- open and is closed, with the arguments of its new status, and whose reply address the book
      -- binds to a queue of another root, is found in that queue with its new status and no longer
      -- in the inbox, and the index is left alone.
      pub apply-resolved :
          (address : Address) (target : DurableQueue)
          → n.rsvp_to ≡ some address
          → Dict.get book address ≡ some target
          → inbox.root ≢ target.root
          → (result.0 ≡ ok (closed n status a))
            × ((get target id result.1).0 ≡ ok (closed n status a))
            × ((get inbox id result.1).0 ≡ err key_error)
            × (result.1.index ≡ w.index)
      unfolding with_updates
      apply-resolved address target r b apart =
          let u = closed n status a in
          let (done, indexes, moved) =
            dispatch_step_two_resolved book inbox u first found-first terminal address target r b
              apart in
          let step = dispatch_step_two book inbox u first in
          let e : result ≡ (ok u, step.1) = terminal_eq terminal ∙ returning_ok u step done in
          (
            ap (λ x. x.0) e,
            ap (λ x. (get target id x.1).0) e ∙ moved target id ∙ rw (==_refl target.root, same),
            ap (λ x. (get inbox id x.1).0) e ∙ moved inbox id ∙ left target apart,
            ap (λ x. x.1.index) e ∙ indexes ∙ first-index,
          )

      -- In an inbox whose files are named for the notifications in them, an item that is found
      -- open and is closed, with the arguments of its new status, and whose reply address the book
      -- does not bind, makes DispatchError, stays in the inbox with its new status, and the index
      -- is left alone.
      pub apply-unresolved :
          (address : Address)
          → n.rsvp_to ≡ some address
          → Dict.get book address ≡ none
          → (result.0 ≡ err dispatch_error)
            × ((get inbox id result.1).0 ≡ ok (closed n status a))
            × (result.1.index ≡ w.index)
      unfolding with_updates
      apply-unresolved address r b =
          let u = closed n status a in
          let e : result ≡ (err dispatch_error, first) =
            terminal_eq terminal
            ∙ ap (returning u) (
                dispatch_step_two_unresolved book inbox u first found-first terminal address r b) in
          (
            ap (λ x. x.0) e,
            ap (λ x. (get inbox id x.1).0) e ∙ first-get,
            ap (λ x. x.1.index) e ∙ first-index,
          )

      -- In an inbox whose files are named for the notifications in them, an item with no reply
      -- address that is found open and is marked handled, with a complete rationale, is gone from
      -- the inbox, and its key, if any, from the index that the inbox is wired to.
      pub apply-handled :
          n.rsvp_to ≡ none
          → status ≡ handled
          → (result.0 ≡ ok (closed n status a))
            × ((get inbox id result.1).0 ≡ err key_error)
            × (result.1.index ≡ (
                if inbox.indexed
                then elim n.external_key [ some k ↦ index_remove w.index k | none ↦ w.index ]
                else w.index))
      unfolding with_updates
      apply-handled r s =
          let u = closed n status a in
          let (done, indexes, gone) =
            dispatch_step_two_handled book inbox u first found-first terminal r s in
          let step = dispatch_step_two book inbox u first in
          let e : result ≡ (ok u, step.1) = terminal_eq terminal ∙ returning_ok u step done in
          (
            ap (λ x. x.0) e,
            ap (λ x. (get inbox id x.1).0) e ∙ gone inbox id ∙ rw (==_refl inbox.root, same),
            ap (λ x. x.1.index) e ∙ indexes ∙ ground (arith, first-index),
          )

      -- In an inbox whose files are named for the notifications in them, an item with no reply
      -- address that is found open and is marked errored, with a reason, is found in the inbox's
      -- `errored` directory with that status and no longer in the inbox, and the index is left
      -- alone.
      pub apply-errored :
          n.rsvp_to ≡ none
          → status ≡ errored
          → (result.0 ≡ ok (closed n status a))
            × ((get (errored_queue inbox) id result.1).0 ≡ ok (closed n status a))
            × ((get inbox id result.1).0 ≡ err key_error)
            × (result.1.index ≡ w.index)
      unfolding with_updates
      apply-errored r s =
          let u = closed n status a in
          let parked = errored_queue inbox in
          let (done, indexes, moved) =
            dispatch_step_two_errored book inbox u first found-first terminal r s in
          let step = dispatch_step_two book inbox u first in
          let e : result ≡ (ok u, step.1) = terminal_eq terminal ∙ returning_ok u step done in
          (
            ap (λ x. x.0) e,
            ap (λ x. (get parked id x.1).0) e ∙ moved parked id ∙ rw (==_refl parked.root, same),
            ap (λ x. (get inbox id x.1).0) e
                ∙ moved inbox id
                ∙ left parked (errored-ne-root inbox.root),
            ap (λ x. x.1.index) e ∙ indexes ∙ first-index,
          )
