-- ===== src/Runtime/Queue/Moves.antt =====
-- What `get` returns after a move and after a deletion, of src/thorn/runtime/_queue.py.
use thorn.Prelude.{
  ==_refl, Text, ap, arith, bool_eq, false, if◌then◌else◌, list_beq_iff, list_eq, nat_eq, none,
  option_eq, pair_eq, refl, some, true, ◌&&◌, ◌==◌, ◌≡◌, ◌≢◌,
}
use thorn.Errors.{err, key_error, ok}
use thorn.Runtime.Notification.{Notification, status_eq}
use thorn.Runtime.World.{Entry, FilePath, World, file, read, read-unlink, read-write, unlink, write}
use thorn.Runtime.Queue.{
  DurableQueue, get, is_queue_local, live_name, load_entry, move_to, reloaded,
}
use thorn.Runtime.Queue.Names.{live_name_beq}
use thorn.Runtime.Queue.View.{get-reloaded, get_lem}

pub load_entry_ok : (n : Notification) → reloaded n ≡ ok n → load_entry (some (file (ok n))) ≡ ok n
unfolding load_entry
load_entry_ok n h = h

-- What a lookup that found a notification says of the directory.
pub found_entry :
    (q : DurableQueue) (i : Text) (w : World) (n : Notification)
    → (get q i w).0 ≡ ok n
    → (is_queue_local i ≡ true) × (read w q.root (live_name i) ≡ some (file (ok n)))
unfolding load_entry reloaded
found_entry q i w n h = ground (arith, get_lem q i w)

pub move_to_lem :
    (q target : DurableQueue) (i : Text) (w : World) (n : Notification)
    → (q.root == target.root) ≡ false
    → (get q i w).0 ≡ ok n
    → move_to q i target w
      ≡ (ok n, write (unlink w q.root (live_name i)) target.root (live_name i) (file (ok n)))
unfolding move_to load_entry
move_to_lem q target i w n apart h =
    let (k, e) = found_entry q i w n h in
    ground (
      arith,
      read-write (unlink w q.root (live_name i)) target.root (live_name i) (file (ok n)) target.root
          (live_name i),
      ==_refl target.root,
      ==_refl (live_name i),
      get-reloaded q i w n h,
    )

read-move_to :
    (q target : DurableQueue) (i j : Text) (w : World) (n : Notification) (r : FilePath)
    → (q.root == target.root) ≡ false
    → (get q i w).0 ≡ ok n
    → read (move_to q i target w).1 r (live_name j) ≡ (
        if (target.root == r) && (i == j)
        then some (file (ok n))
        else if (q.root == r) && (i == j)
        then none
        else read w r (live_name j))
read-move_to q target i j w n r apart h = rw (move_to_lem q target i w n apart h) (
    ground (
      arith,
      live_name_beq i j,
      read-write (unlink w q.root (live_name i)) target.root (live_name i) (file (ok n)) r
          (live_name j),
      read-unlink w q.root (live_name i) r (live_name j),
    ))

pub index-unlink : (w : World) (r : FilePath) (name : Text) → (unlink w r name).index ≡ w.index
unfolding unlink
index-unlink w r name = refl

pub index-write :
    (w : World) (r : FilePath) (name : Text) (e : Entry) → (write w r name e).index ≡ w.index
unfolding write
index-write w r name e = refl

-- Where `get` finds a notification, moving it to a queue of another root returns it; then every
-- queue of the target's root finds it, every queue of the source's root raises KeyError for it,
-- no other lookup changes, and the index is left alone.
pub get-move_to :
    (q target p : DurableQueue) (i j : Text) (w : World) (n : Notification)
    → (get q i w).0 ≡ ok n
    → q.root ≢ target.root
    → ((move_to q i target w).0 ≡ ok n)
      × ((move_to q i target w).1.index ≡ w.index)
      × ((get p j (move_to q i target w).1).0 ≡ (
          if (target.root == p.root) && (i == j)
          then ok n
          else if (q.root == p.root) && (i == j)
          then err key_error
          else (get p j w).0))
get-move_to q target p i j w n h apart =
    let no : (q.root == target.root) ≡ false = ground (arith, list_beq_iff q.root target.root) in
    let (k, e) = found_entry q i w n h in
    (
      ap (λ x. x.0) (move_to_lem q target i w n no h),
      rw (move_to_lem q target i w n no h, index-write, index-unlink),
      rw
          (
            get_lem p j (move_to q i target w).1,
            get_lem p j w,
            read-move_to q target i j w n p.root no h,
          )
          (ground (arith, list_beq_iff i j, load_entry_ok n (get-reloaded q i w n h))),
    )

-- A move to another root, as a step of a longer run.
pub move_to-eq :
    (q target : DurableQueue) (i : Text) (w : World) (n : Notification)
    → (q.root ≢ target.root)
    → (get q i w).0 ≡ ok n
    → move_to q i target w ≡ (ok n, (move_to q i target w).1)
move_to-eq q target i w n apart h =
    let no : (q.root == target.root) ≡ false = ground (arith, list_beq_iff q.root target.root) in
    ground (arith, move_to_lem q target i w n no h)
