-- ===== src/Runtime/NotificationQueue.antt =====
-- src/thorn/runtime/_notification_queue.py: a service's queue, drained by handlers.
pub mod Draining
use thorn.Prelude.{
  ==_iff, List, Option, Text, [], if◌then◌else◌, list_eq, nat_eq, none, option_eq, some, ◌==◌, ◌∷◌,
}
use thorn.Errors.{Error, Result, err, ok, value_error}
use thorn.Runtime.Address.{Address, address_eq}
use thorn.Runtime.Notification.{Notification, confirmed, in_progress, no_updates, status_eq}
use thorn.Runtime.World.{Exec, lift, pure, ◌>>=◌, ◌>>◌}
use thorn.Runtime.Queue.{DurableQueue, delete, list, update_status}

pub data ArrivalKind : Type 0 where
  fresh rsvp : ArrivalKind

pub data DrainResult : Type 0 where
  drained recovered handler_failed no_handler : DrainResult

pub record DrainOutcome : Type 0 where
  pub notification_id : Text
  pub kind : ArrivalKind
  pub result : DrainResult
  pub error : Option Error

-- A handler may do anything to the world, and may raise.
abbrev pub Handler : Type 0
Handler = Notification → Exec (Unit {0})

pub record NotificationQueue : Type 0 where
  pub queue : DurableQueue
  pub address : Address
  pub fresh_handler : Option Handler
  pub rsvp_handler : Option Handler

unfoldable pub on_fresh : NotificationQueue → Handler → Result NotificationQueue
on_fresh q handler = elim q.fresh_handler [
  | some old ↦ err value_error
  | none ↦ ok (record q { fresh_handler = some handler })
]

unfoldable pub on_rsvp : NotificationQueue → Handler → Result NotificationQueue
on_rsvp q handler = elim q.rsvp_handler [
  | some old ↦ err value_error
  | none ↦ ok (record q { rsvp_handler = some handler })
]

unfoldable pub clear_handlers : NotificationQueue → NotificationQueue
clear_handlers q = record q { fresh_handler = none; rsvp_handler = none }

unfoldable pub classify : NotificationQueue → Notification → Result ArrivalKind
classify q n =
    if n.status == confirmed
    then err value_error
    else if n.target == q.address
    then ok fresh
    else if n.rsvp_to == some q.address
    then ok rsvp
    else err value_error

abbrev pub outcome : Notification → ArrivalKind → DrainResult → Option Error → DrainOutcome
outcome n kind result error = record {
  notification_id = n.id;
  kind = kind;
  result = result;
  error = error;
}

unfoldable pub handler_for : NotificationQueue → ArrivalKind → Option Handler
handler_for q fresh = q.fresh_handler
handler_for q rsvp = q.rsvp_handler

-- Step 1 and step 2 after a handler that returned.
unfoldable pub complete : NotificationQueue → Notification → ArrivalKind → Exec DrainOutcome
complete q n kind = do
  updated ← update_status q.queue n.id confirmed no_updates
  delete q.queue n.id
  pure (outcome n kind drained none)

-- What follows the handler's call: its exception is caught.
unfoldable pub after_handler :
    NotificationQueue → Notification → ArrivalKind → Result (Unit {0}) → Exec DrainOutcome
after_handler q n kind (ok u) = complete q n kind
after_handler q n kind (err e) = pure (outcome n kind handler_failed (some e))

unfoldable pub run_handler : NotificationQueue → Notification → ArrivalKind → Exec DrainOutcome
run_handler q n kind = elim (handler_for q kind) [
  | none ↦ pure (outcome n kind no_handler none)
  | some handler ↦ λ w. let (r, w') = handler n w in after_handler q n kind r w'
]

unfoldable pub drain_one : NotificationQueue → Notification → Exec DrainOutcome
drain_one q n =
    if n.status == confirmed
    then (do
      delete q.queue n.id
      pure (outcome n (if n.rsvp_to == some q.address then rsvp else fresh) recovered none))
    else (do kind ← lift (classify q n); run_handler q n kind)

unfoldable pub drain_each : NotificationQueue → List Notification → Exec (List DrainOutcome)
drain_each q [] = pure []
drain_each q (n ∷ ns) =
    let rest = drain_each q ns in
    if n.status == in_progress
    then rest
    else (do outcome ← drain_one q n; outcomes ← rest; pure (outcome ∷ outcomes))

unfoldable pub drain : NotificationQueue → Exec (List DrainOutcome)
unfolding drain_each
drain q = do notifications ← list q.queue none; drain_each q notifications
