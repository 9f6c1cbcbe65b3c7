-- ===== src/Runtime/Dispatch/Outcomes.antt =====
-- What a transition of src/thorn/runtime/_dispatch.py leaves behind, on every branch.
use thorn.Prelude.Dict
use thorn.Prelude.{
  Bool-cases, Text, [], codes, false, if◌then◌else◌, inl, inr, list_eq, nat_eq, none, option_eq,
  refl, some, true, ◌&&◌, ◌++◌, ◌==◌, ◌∷◌, ◌≡◌, ◌≢◌,
}
use thorn.Errors.{dispatch_error, err, key_error, ok, value_error}
use thorn.Runtime.Address.{Address, address_eq}
use thorn.Runtime.Address.Book.{AddressBook}
use thorn.Runtime.Notification.{
  Notification, Status, closed_cases, errored, handled, is_prompt_ready, is_terminal, status_beq,
  status_eq,
}
use thorn.Runtime.World.{FilePath, World, index_remove}
use thorn.Runtime.Queue.{DurableQueue, delete, get, move_to}
use thorn.Runtime.Queue.View.{get-eq}
use thorn.Runtime.Queue.Moves.{get-move_to, move_to-eq}
use thorn.Runtime.Queue.Ends.{delete-eq, get-delete}
use thorn.Runtime.Inbox.{errored_queue}
use thorn.Runtime.Dispatch.{Arguments, apply_handling_transition, dispatch_step_two, is_consistent}

pub errored-ne-root : (r : FilePath) → r ≢ r ++ (codes "errored" ∷ [])
errored-ne-root [] e = cc
errored-ne-root (x ∷ r) e = errored-ne-root r (cc)

module _ (book : AddressBook DurableQueue) (inbox : DurableQueue) where
  -- A transition of an item that is found is refused with ValueError, and nothing changes, if its
  -- arguments are not those of its status or the item is already closed.
  apply_handling_transition_refuses :
      (id : Text) (status : Status) (a : Arguments) (w : World) (n : Notification)
      → (get inbox id w).0 ≡ ok n
      → (is_consistent status a && is_prompt_ready n.status) ≡ false
      → apply_handling_transition book inbox id status a w ≡ (err value_error, w)
  unfolding apply_handling_transition
  apply_handling_transition_refuses id status a w n h refused =
      elim (Bool-cases (is_consistent status a)) [
        | inl good ↦
            rw (good, get-eq inbox id w (ok n) h)
              (elim (closed_cases n.status (rw good at refused)) [
                | inl terminal ↦ rw terminal
                | inr (live, final) ↦ rw (live, final)
              ])
        | inr bad ↦ rw bad
      ]

  -- Lookups after an item has left the inbox for the queue `target`.
  abbrev Moved : DurableQueue → Notification → World → World → Type 0
  Moved target n w w' =
      (p : DurableQueue) (j : Text)
      → (get p j w').0 ≡ (
          if (target.root == p.root) && (n.id == j)
          then ok n
          else if (inbox.root == p.root) && (n.id == j)
          then err key_error
          else (get p j w).0)

  -- Lookups after an item has been deleted from the inbox.
  abbrev Gone : Notification → World → World → Type 0
  Gone n w w' =
      (p : DurableQueue) (j : Text)
      → (get p j w').0
        ≡ (if (inbox.root == p.root) && (n.id == j) then err key_error else (get p j w).0)

  module _ (n : Notification) (w : World) (there : (get inbox n.id w).0 ≡ ok n)
      (terminal : is_terminal n.status ≡ true) where
    -- The four outcomes of step 2.
    pub dispatch_step_two_unresolved :
        (address : Address)
        → n.rsvp_to ≡ some address
        → Dict.get book address ≡ none
        → dispatch_step_two book inbox n w ≡ (err dispatch_error, w)
    unfolding dispatch_step_two
    dispatch_step_two_unresolved address r b = rw (terminal, r) (rw b)

    resolved_eq :
        (address : Address) (target : DurableQueue)
        → n.rsvp_to ≡ some address
        → Dict.get book address ≡ some target
        → inbox.root ≢ target.root
        → dispatch_step_two book inbox n w ≡ (ok tt, (move_to inbox n.id target w).1)
    unfolding dispatch_step_two
    resolved_eq address target r b apart =
        rw (terminal, r) (rw b (rw (move_to-eq inbox target n.id w n apart there)))

    handled_eq :
        n.rsvp_to ≡ none
        → n.status ≡ handled
        → dispatch_step_two book inbox n w ≡ (ok tt, (delete inbox n.id w).1)
    unfolding dispatch_step_two status_beq
    handled_eq r s = rw (terminal, r) (rw s (rw (delete-eq inbox n.id w n there)))

    errored_eq :
        n.rsvp_to ≡ none
        → n.status ≡ errored
        → dispatch_step_two book inbox n w ≡ (ok tt, (move_to inbox n.id (errored_queue inbox) w).1)
    unfolding dispatch_step_two status_beq
    errored_eq r s =
        rw (terminal, r)
          (rw s (
            rw
              (move_to-eq inbox (errored_queue inbox) n.id w n (errored-ne-root inbox.root) there)))

    pub dispatch_step_two_resolved :
        (address : Address) (target : DurableQueue)
        → n.rsvp_to ≡ some address
        → Dict.get book address ≡ some target
        → inbox.root ≢ target.root
        → ((dispatch_step_two book inbox n w).0 ≡ ok tt)
          × ((dispatch_step_two book inbox n w).1.index ≡ w.index)
          × Moved target n w (dispatch_step_two book inbox n w).1
    dispatch_step_two_resolved address target r b apart =
        rw (resolved_eq address target r b apart) (
          refl,
          (get-move_to inbox target target n.id n.id w n there apart).1,
          λ p j. (get-move_to inbox target p n.id j w n there apart).2,
        )

    pub dispatch_step_two_handled :
        n.rsvp_to ≡ none
        → n.status ≡ handled
        → ((dispatch_step_two book inbox n w).0 ≡ ok tt)
          × ((dispatch_step_two book inbox n w).1.index ≡ (
              if inbox.indexed
              then elim n.external_key [ some k ↦ index_remove w.index k | none ↦ w.index ]
              else w.index))
          × Gone n w (dispatch_step_two book inbox n w).1
    dispatch_step_two_handled r s = rw (handled_eq r s) (
      refl,
      (get-delete inbox inbox n.id n.id w n there).1,
      λ p j. (get-delete inbox p n.id j w n there).2,
    )

    pub dispatch_step_two_errored :
        n.rsvp_to ≡ none
        → n.status ≡ errored
        → ((dispatch_step_two book inbox n w).0 ≡ ok tt)
          × ((dispatch_step_two book inbox n w).1.index ≡ w.index)
          × Moved (errored_queue inbox) n w (dispatch_step_two book inbox n w).1
    dispatch_step_two_errored r s =
        let apart = errored-ne-root inbox.root in
        let parked = errored_queue inbox in
        rw (errored_eq r s) (
          refl,
          (get-move_to inbox parked parked n.id n.id w n there apart).1,
          λ p j. (get-move_to inbox parked p n.id j w n there apart).2,
        )
