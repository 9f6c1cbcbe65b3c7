-- ===== src/Runtime/Dispatch.antt =====
-- src/thorn/runtime/_dispatch.py: the two steps by which an inbox item is closed.
pub mod Outcomes
pub mod Transition
use thorn.Prelude.Dict
use thorn.Prelude.{
  ==_iff, Bool, Option, Text, [], false, if◌then◌else◌, is_empty, list_eq, nat_eq, none, not,
  option_eq, some, true, ◌&&◌, ◌==◌, ◌∷◌,
}
use thorn.Errors.{dispatch_error, err, ok, value_error}
use thorn.Runtime.Address.{address_eq}
use thorn.Runtime.Address.Book.{AddressBook}
use thorn.Runtime.Notification.{
  Notification, Status, Updates, confirmed, errored, handled, in_progress, is_terminal, no_updates,
  status_eq,
}
use thorn.Runtime.Notification.Rationale.{InboxCompletionRationale, validation_errors}
use thorn.Runtime.World.{Exec, lift, pure, raise, ◌>>=◌, ◌>>◌}
use thorn.Runtime.Queue.{DurableQueue, delete, get, move_to, update_status}
use thorn.Runtime.Inbox.{errored_queue}

-- The optional arguments of a transition.
pub record Arguments : Type 0 where
  pub notes : Option Text
  pub completion_rationale : Option InboxCompletionRationale
  pub error_reason : Option Text

abbrev is_given {ℓ} : {A : Type ℓ} → Option A → Bool
is_given none = false
is_given (some a) = true

-- `not error_reason`: None or the empty text
abbrev is_falsy : Option Text → Bool
is_falsy none = true
is_falsy (some t) = is_empty t

unfoldable pub is_complete : Option InboxCompletionRationale → Bool
unfolding validation_errors
is_complete none = true
is_complete (some r) = elim (validation_errors r) [ [] ↦ true | i ∷ is ↦ false ]

-- The checks at the top of apply_handling_transition; every failure is a ValueError.
unfoldable pub is_consistent : Status → Arguments → Bool
unfolding is_complete is_empty
is_consistent errored a =
    not (is_falsy a.error_reason) && not (is_given a.notes) && not (is_given a.completion_rationale)
is_consistent handled a =
    not (is_given a.error_reason)
    && is_given a.completion_rationale
    && is_complete a.completion_rationale
is_consistent in_progress a = not (is_given a.error_reason) && not (is_given a.completion_rationale)
is_consistent _ a = false

-- `if value is not None: update_fields[...] = value`
abbrev field_of {ℓ} : {A : Type ℓ} → Option A → Option (Option A)
field_of none = none
field_of (some a) = some (some a)

unfoldable pub update_fields : Status → Arguments → Updates
update_fields errored a = record no_updates { error_reason = some a.error_reason }
update_fields _ a = record no_updates {
  notes = field_of a.notes;
  completion_rationale = field_of a.completion_rationale;
}

unfoldable pub dispatch_step_two :
    AddressBook DurableQueue → DurableQueue → Notification → Exec (Unit {0})
unfolding is_terminal
dispatch_step_two book inbox n =
    if not (is_terminal n.status) then raise value_error else elim n.rsvp_to [
      | some address ↦ elim (Dict.get book address) [
        | none ↦ raise dispatch_error
        | some target ↦ move_to inbox n.id target >>= λ _. pure tt
      ]
      | none ↦
          if n.status == handled
          then delete inbox n.id
          else move_to inbox n.id (errored_queue inbox) >>= λ _. pure tt
    ]

unfoldable pub apply_handling_transition :
    AddressBook DurableQueue → DurableQueue → Text → Status → Arguments → Exec Notification
unfolding is_terminal
apply_handling_transition book inbox id status a = do
  lift (if is_consistent status a then ok tt else err value_error)
  current ← get inbox id
  lift (if is_terminal current.status then err value_error else ok tt)
  lift (if current.status == confirmed then err value_error else ok tt)
  updated ← update_status inbox id status (update_fields status a)
  if not (is_terminal status)
      then pure updated
      else do dispatch_step_two book inbox updated; pure updated
