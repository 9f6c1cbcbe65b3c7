-- ===== src/Runtime/Inbox/Parking.antt =====
-- Parking an open item and requeueing a parked one, of src/thorn/runtime/_inbox.py.
use thorn.Prelude.{
  ==_refl, Text, [], arith, codes, if◌then◌else◌, list_beq_iff, list_eq, nat_eq, none, option_eq,
  refl, some, sym, true, ◌&&◌, ◌++◌, ◌==◌, ◌∙◌, ◌∷◌, ◌≡◌, ◌≢◌,
}
use thorn.Errors.{err, key_error, ok}
use thorn.Runtime.Notification.{
  Notification, Status, Updates, errored, is_prompt_ready, no_updates, pending, status_eq,
  with_updates,
}
use thorn.Runtime.World.{FilePath, World}
use thorn.Runtime.Queue.{DurableQueue, get, move_to, update_status}
use thorn.Runtime.Queue.View.{IsNamed, get-eq, get-update_status}
use thorn.Runtime.Queue.Moves.{get-move_to, move_to-eq}
use thorn.Runtime.Inbox.{errored_queue, park_live, requeue_errored}

-- An update of an item in one queue, and then its move to a queue of another root.
module _ (q target : DurableQueue) (id : Text) (s : Status) (fields : Updates) (w : World)
    (n : Notification) (named : IsNamed q w) (there : (get q id w).0 ≡ ok n)
    (apart : q.root ≢ target.root) where
  abbrev updated : Notification
  updated = with_updates n (some s) fields

  abbrev marked : World
  marked = (update_status q id s fields w).1

  marked-eq : update_status q id s fields w ≡ (ok updated, marked)
  marked-eq = ground (arith, (get-update_status q q id id s fields w n named there).0)

  get-marked : (get q id marked).0 ≡ ok updated
  get-marked =
      (get-update_status q q id id s fields w n named there).1 ∙ rw (==_refl q.root, ==_refl id)

  moved-eq : move_to q id target marked ≡ (ok updated, (move_to q id target marked).1)
  moved-eq = move_to-eq q target id marked updated apart get-marked

  get-moved :
      (p : DurableQueue) (j : Text)
      → (get p j (move_to q id target marked).1).0 ≡ (
          if (target.root == p.root) && (id == j)
          then ok updated
          else if (q.root == p.root) && (id == j)
          then err key_error
          else (get p j marked).0)
  get-moved p j = (get-move_to q target p id j marked updated get-marked apart).2

  get-target : (get target id (move_to q id target marked).1).0 ≡ ok updated
  get-target = get-moved target id ∙ rw (==_refl target.root, ==_refl id) refl

  get-source : (get q id (move_to q id target marked).1).0 ≡ err key_error
  get-source =
      get-moved q id
      ∙ ground (arith, list_beq_iff target.root q.root, apart, ==_refl q.root, ==_refl id)

root-ne-errored : (r : FilePath) → r ≢ r ++ (codes "errored" ∷ [])
root-ne-errored [] e = cc
root-ne-errored (x ∷ r) e = root-ne-errored r (cc)

abbrev pub park_fields : Text → Updates
park_fields reason = record no_updates { error_reason = some (some reason) }

-- In an inbox whose files are named for the notifications in them, parking an item that is open
-- returns it as errored with the reason; the `errored` directory then finds it so, and the inbox
-- finds it no longer.
pub get-park_live :
    (inbox : DurableQueue) (id reason : Text) (w : World) (n : Notification)
    → IsNamed inbox w
    → (get inbox id w).0 ≡ ok n
    → is_prompt_ready n.status ≡ true
    → ((park_live inbox id reason w).0 ≡ ok (with_updates n (some errored) (park_fields reason)))
      × ((get (errored_queue inbox) id (park_live inbox id reason w).1).0
          ≡ ok (with_updates n (some errored) (park_fields reason)))
      × ((get inbox id (park_live inbox id reason w).1).0 ≡ err key_error)
unfolding park_live
get-park_live inbox id reason w n named there live =
    let parked = errored_queue inbox in
    let apart = root-ne-errored inbox.root in
    let marked' = marked-eq inbox parked id errored (park_fields reason) w n named there apart in
    let moved' = moved-eq inbox parked id errored (park_fields reason) w n named there apart in
    rw (park_live, get-eq inbox id w (ok n) there, live, marked', moved')
      (
        refl,
        get-target inbox parked id errored (park_fields reason) w n named there apart,
        get-source inbox parked id errored (park_fields reason) w n named there apart,
      )

abbrev pub cleared_fields : Updates
cleared_fields = record {
  notes = some none;
  completion_rationale = some none;
  error_reason = some none;
}

-- Where the files of the `errored` directory are named for the notifications in them, requeueing
-- one that is found there returns it as pending, without notes, rationale or reason; the inbox
-- then finds it so, and the directory finds it no longer.
pub get-requeue_errored :
    (inbox : DurableQueue) (id : Text) (w : World) (n : Notification)
    → IsNamed (errored_queue inbox) w
    → (get (errored_queue inbox) id w).0 ≡ ok n
    → ((requeue_errored inbox id w).0 ≡ ok (with_updates n (some pending) cleared_fields))
      × ((get inbox id (requeue_errored inbox id w).1).0
          ≡ ok (with_updates n (some pending) cleared_fields))
      × ((get (errored_queue inbox) id (requeue_errored inbox id w).1).0 ≡ err key_error)
unfolding requeue_errored
get-requeue_errored inbox id w n named there =
    let parked = errored_queue inbox in
    let apart : parked.root ≢ inbox.root = λ e. root-ne-errored inbox.root (sym e) in
    let marked' = marked-eq parked inbox id pending cleared_fields w n named there apart in
    let moved' = moved-eq parked inbox id pending cleared_fields w n named there apart in
    rw (requeue_errored, marked', moved')
      (
        refl,
        get-target parked inbox id pending cleared_fields w n named there apart,
        get-source parked inbox id pending cleared_fields w n named there apart,
      )
