-- ===== src/Runtime/Inbox.antt =====
-- SessionInbox of src/thorn/runtime/_inbox.py: a queue's slices by lifecycle, and recovery.
pub mod Parking
use thorn.Prelude.{
  ==_iff, List, Text, [], codes, false, if◌then◌else◌, list_eq, nat_eq, none, option_eq, some, ◌++◌,
  ◌∷◌,
}
use thorn.Errors.{err, ok, value_error}
use thorn.Runtime.Notification.{
  Notification, confirmed, errored, handled, in_progress, is_prompt_ready, no_updates, pending,
  status_eq,
}
use thorn.Runtime.World.{Exec, lift, ◌>>=◌, ◌>>◌}
use thorn.Runtime.Queue.{DurableQueue, durable_queue, get, list, move_to, update_status}

module _ (inbox : DurableQueue) where
  unfoldable pub prompt_pending : Exec (List Notification)
  prompt_pending = list inbox (some (pending ∷ in_progress ∷ []))

  unfoldable pub awaiting_dispatch : Exec (List Notification)
  awaiting_dispatch = list inbox (some (handled ∷ errored ∷ []))

  unfoldable pub awaiting_cleanup : Exec (List Notification)
  awaiting_cleanup = list inbox (some (confirmed ∷ []))

  -- The queue of the `errored/` directory: no index is wired to it.
  abbrev pub errored_queue : DurableQueue
  errored_queue = record {
    class = durable_queue;
    root = inbox.root ++ (codes "errored" ∷ []);
    indexed = false;
  }

  unfoldable pub errored_items : Exec (List Notification)
  errored_items = list errored_queue none

  unfoldable pub requeue_errored : Text → Exec Notification
  requeue_errored id = do
    cleared ←
        update_status errored_queue id pending
          (record { notes = some none; completion_rationale = some none; error_reason = some none })
    move_to errored_queue id inbox

  unfoldable pub park_live : Text → Text → Exec Notification
  park_live id reason = do
    notification ← get inbox id
    lift (if is_prompt_ready notification.status then ok tt else err value_error)
    updated ←
        update_status inbox id errored (record no_updates { error_reason = some (some reason) })
    move_to inbox id errored_queue
