-- ===== src/Runtime/Queue/View.antt =====
-- What `get` returns after each operation of src/thorn/runtime/_queue.py: the queues behave as
-- finite maps from identifiers to notifications.
use thorn.Prelude.{
  ==_refl, Bool, Bool-cases, Option, Text, ap, arith, bool_eq, false, if◌then◌else◌, inl, inr,
  list_beq_iff, list_eq, nat_eq, none, option_eq, pair_eq, refl, some, true, ◌&&◌, ◌==◌, ◌∙◌, ◌≡◌,
}
use thorn.Errors.{Error, Result, err, key_error, ok}
use thorn.Runtime.Notification.{Notification, Status, Updates, status_eq, with_updates}
use thorn.Runtime.World.{Entry, FilePath, World, file, read, read-unlink, read-write, unlink, write}
use thorn.Runtime.Queue.{
  DurableQueue, get, is_queue_local, live_name, load_entry, reloaded, temp_name, update_status,
  write_atomic,
}
use thorn.Runtime.Queue.Names.{live_name_beq, temp-ne-live}

-- What `get` returns, by the entry under the live name.
abbrev pub found : Bool → Option Entry → Result Notification
found false e = err key_error
found true none = err key_error
found true (some e) = load_entry (some e)

pub get_lem :
    (q : DurableQueue) (j : Text) (w : World)
    → get q j w ≡ (found (is_queue_local j) (read w q.root (live_name j)), w)
unfolding get
get_lem q j w = ground arith

pub write_atomic_lem :
    (q : DurableQueue) (n : Notification) (w : World)
    → is_queue_local n.id ≡ true
    → write_atomic q n w ≡ (
      ok tt,
      write
          (unlink (write w q.root (temp_name n.id) (file (ok n))) q.root (temp_name n.id))
          q.root
          (live_name n.id)
          (file (ok n)),
    )
unfolding write_atomic
write_atomic_lem q n w h = ground (
  arith,
  read-write w q.root (temp_name n.id) (file (ok n)) q.root (temp_name n.id),
  ==_refl q.root,
  ==_refl (temp_name n.id),
)

read-write_atomic :
    (q : DurableQueue) (n : Notification) (w : World) (r : FilePath) (j : Text)
    → is_queue_local n.id ≡ true
    → is_queue_local j ≡ true
    → read (write_atomic q n w).1 r (live_name j)
      ≡ (if (q.root == r) && (n.id == j) then some (file (ok n)) else read w r (live_name j))
read-write_atomic q n w r j h k =
    let temp = temp_name n.id in
    let sidecar = write w q.root temp (file (ok n)) in
    rw (write_atomic_lem q n w h) (
      ground (
        arith,
        live_name_beq n.id j,
        temp-ne-live n.id j k,
        read-write w q.root temp (file (ok n)) r (live_name j),
        read-unlink sidecar q.root temp r (live_name j),
        read-write (unlink sidecar q.root temp) q.root (live_name n.id) (file (ok n)) r
            (live_name j),
      ))

pub get-write_atomic :
    (q p : DurableQueue) (n : Notification) (w : World) (j : Text)
    → is_queue_local n.id ≡ true
    → (get p j (write_atomic q n w).1).0
      ≡ (if (q.root == p.root) && (n.id == j) then reloaded n else (get p j w).0)
unfolding load_entry
get-write_atomic q p n w j h = elim (Bool-cases (is_queue_local j)) [
  | inl k ↦
      rw
        (get_lem p j (write_atomic q n w).1, get_lem p j w, k, read-write_atomic q n w p.root j h k)
        (ground (arith, list_beq_iff n.id j))
  | inr k ↦
      rw (get_lem p j (write_atomic q n w).1, get_lem p j w, k)
        (ground (arith, list_beq_iff n.id j))
]

-- The identifier that a notification's file is named for is its own.
abbrev pub IsNamed : DurableQueue → World → Type 0
IsNamed q w = (j : Text) (n : Notification) → (get q j w).0 ≡ ok n → n.id ≡ j

pub get-is_queue_local :
    (q : DurableQueue) (j : Text) (w : World) (n : Notification)
    → (get q j w).0 ≡ ok n
    → is_queue_local j ≡ true
get-is_queue_local q j w n h = elim (Bool-cases (is_queue_local j)) [
  | inl k ↦ k
  | inr k ↦ ground (arith, get_lem q j w)
]

-- What was loaded loads again, and so with another status and other fields.
pub get-reloaded :
    (q : DurableQueue) (j : Text) (w : World) (n : Notification)
    → (get q j w).0 ≡ ok n
    → reloaded n ≡ ok n
unfolding load_entry reloaded
get-reloaded q j w n h = ground (arith, h, get_lem q j w)

pub with_updates-reloaded :
    (n : Notification) (s : Status) (fields : Updates)
    → reloaded n ≡ ok n
    → reloaded (with_updates n (some s) fields) ≡ ok (with_updates n (some s) fields)
unfolding with_updates reloaded
with_updates-reloaded n s fields h = ground (arith, h)

-- `get` writes nothing.
pub get-eq :
    (q : DurableQueue) (i : Text) (w : World) (r : Result Notification)
    → (get q i w).0 ≡ r
    → get q i w ≡ (r, w)
get-eq q i w r h = get_lem q i w ∙ ap (λ x. (x, w)) (rw (get_lem q i w) at h)

pub with_updates-id :
    (n : Notification) (s : Status) (fields : Updates) → (with_updates n (some s) fields).id ≡ n.id
unfolding with_updates
with_updates-id n s fields = refl

pub write_atomic-eq :
    (q : DurableQueue) (n : Notification) (w : World)
    → is_queue_local n.id ≡ true
    → write_atomic q n w ≡ (ok tt, (write_atomic q n w).1)
write_atomic-eq q n w h = ground (arith, write_atomic_lem q n w h)

pub update_status_lem :
    (q : DurableQueue) (i : Text) (s : Status) (fields : Updates) (w : World) (n : Notification)
    → get q i w ≡ (ok n, w)
    → is_queue_local n.id ≡ true
    → update_status q i s fields w
      ≡ (ok (with_updates n (some s) fields), (write_atomic q (with_updates n (some s) fields) w).1)
unfolding update_status
update_status_lem q i s fields w n h k =
    let k' : is_queue_local (with_updates n (some s) fields).id ≡ true =
      rw (with_updates-id n s fields) k in
    rw (h, write_atomic-eq q (with_updates n (some s) fields) w k')

-- What `get` raises for an identifier, `update_status` raises too, and changes nothing.
pub update_status_raises :
    (q : DurableQueue) (i : Text) (s : Status) (fields : Updates) (w : World) (e : Error)
    → (get q i w).0 ≡ err e
    → update_status q i s fields w ≡ (err e, w)
unfolding update_status
update_status_raises q i s fields w e h = rw (get-eq q i w (err e) h)

-- Where the files of a queue are named for the notifications in them and `get` finds one,
-- `update_status` returns it with the new status and fields; every queue of that root then finds
-- it so, and no other lookup changes.
pub get-update_status :
    (q p : DurableQueue) (i j : Text) (s : Status) (fields : Updates) (w : World) (n : Notification)
    → IsNamed q w
    → (get q i w).0 ≡ ok n
    → ((update_status q i s fields w).0 ≡ ok (with_updates n (some s) fields))
      × ((get p j (update_status q i s fields w).1).0 ≡ (
          if (q.root == p.root) && (i == j)
          then ok (with_updates n (some s) fields)
          else (get p j w).0))
get-update_status q p i j s fields w n named h =
    let k : is_queue_local n.id ≡ true = rw (named i n h) (get-is_queue_local q i w n h) in
    let k' : is_queue_local (with_updates n (some s) fields).id ≡ true =
      rw (with_updates-id n s fields) k in
    rw (update_status_lem q i s fields w n (get-eq q i w (ok n) h) k) (
      refl,
      rw (
        get-write_atomic q p (with_updates n (some s) fields) w j k',
        with_updates-reloaded n s fields (get-reloaded q i w n h),
        with_updates-id n s fields,
        named i n h,
      ),
    )
