-- ===== src/Runtime/NotificationQueue/Draining.antt =====
-- What draining does with one arrival, of src/thorn/runtime/_notification_queue.py.
use thorn.Prelude.{
  ==_refl, arith, false, list_eq, nat_eq, none, option_eq, refl, some, ◌==◌, ◌∙◌, ◌≡◌,
}
use thorn.Errors.{err, key_error, ok}
use thorn.Runtime.Address.{address_eq}
use thorn.Runtime.Notification.{Notification, confirmed, no_updates, status_eq, with_updates}
use thorn.Runtime.World.{World}
use thorn.Runtime.Queue.{get, update_status}
use thorn.Runtime.Queue.View.{IsNamed, get-update_status}
use thorn.Runtime.Queue.Ends.{delete-eq, get-delete}
use thorn.Runtime.NotificationQueue.{
  ArrivalKind, Handler, NotificationQueue, after_handler, classify, complete, drain_one, drained,
  handler_for, outcome, run_handler,
}

classify-open :
    (q : NotificationQueue) (n : Notification) (kind : ArrivalKind)
    → classify q n ≡ ok kind
    → (n.status == confirmed) ≡ false
unfolding classify
classify-open q n kind h = ground (arith, h)

-- Confirming an item and then deleting it.
complete-gone :
    (q : NotificationQueue) (n : Notification) (kind : ArrivalKind) (w : World)
    → IsNamed q.queue w
    → (get q.queue n.id w).0 ≡ ok n
    → ((complete q n kind w).0 ≡ ok (outcome n kind drained none))
      × ((get q.queue n.id (complete q n kind w).1).0 ≡ err key_error)
unfolding complete
complete-gone q n kind w named there =
    let done = with_updates n (some confirmed) no_updates in
    let marked = (update_status q.queue n.id confirmed no_updates w).1 in
    let seen = get-update_status q.queue q.queue n.id n.id confirmed no_updates w n named there in
    let found : (get q.queue n.id marked).0 ≡ ok done =
      seen.1 ∙ rw (==_refl q.queue.root, ==_refl n.id) refl in
    let marked_eq : update_status q.queue n.id confirmed no_updates w ≡ (ok done, marked) =
      ground (arith, seen.0) in
    rw (complete, marked_eq, delete-eq q.queue n.id marked done found)
      (
        refl,
        (get-delete q.queue q.queue n.id n.id marked done found).2
            ∙ rw (==_refl q.queue.root, ==_refl n.id) refl,
      )

-- An item that the queue can classify, and for whose kind a handler is set that returns, with the
-- item still in the queue and the queue's files named for the notifications in them at that time,
-- is drained: the outcome says so, and the queue finds the item no longer.
pub drain_one-handled :
    (q : NotificationQueue) (n : Notification) (kind : ArrivalKind) (handler : Handler)
    (w w' : World)
    → classify q n ≡ ok kind
    → handler_for q kind ≡ some handler
    → handler n w ≡ (ok tt, w')
    → IsNamed q.queue w'
    → (get q.queue n.id w').0 ≡ ok n
    → ((drain_one q n w).0 ≡ ok (outcome n kind drained none))
      × ((get q.queue n.id (drain_one q n w).1).0 ≡ err key_error)
unfolding drain_one run_handler after_handler
drain_one-handled q n kind handler w w' classified set returns named there =
    rw (drain_one, classify-open q n kind classified, classified, run_handler, set, returns)
      (complete-gone q n kind w' named there)
