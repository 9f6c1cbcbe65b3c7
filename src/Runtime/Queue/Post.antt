-- ===== src/Runtime/Queue/Post.antt =====
-- What a post adds, of src/thorn/runtime/_queue.py.
use thorn.Prelude.{
  Option, Text, bool_eq, if◌then◌else◌, list_eq, nat_eq, none, option_eq, pair_eq, refl, some, true,
  ◌&&◌, ◌==◌, ◌≡◌,
}
use thorn.Errors.{err, ok, value_error}
use thorn.Runtime.Ulid.{advance, generate_ulid, value}
use thorn.Runtime.Notification.{
  Notification, NotificationSpec, Surroundings, from_spec, pending, status_eq,
}
use thorn.Runtime.World.{World, index_add, read}
use thorn.Runtime.Queue.{
  DurableQueue, get, index_posted, is_queue_local, loads_back, post, reloaded, write_atomic,
}
use thorn.Runtime.Queue.View.{get-write_atomic, get_lem, write_atomic-eq, write_atomic_lem}
use thorn.Runtime.Queue.Moves.{index-unlink, index-write}
use thorn.Runtime.Queue.Ends.{encode-is_queue_local, index-index_posted, read-index_posted}

-- The notification that a post makes.
abbrev pub posted : NotificationSpec → Surroundings → World → Notification
posted spec o w = from_spec (generate_ulid w.ulid o.time_ns o.random).0 o.now spec

-- The generator has moved on.
abbrev stepped : Surroundings → World → World
stepped o w = record w { ulid = (generate_ulid w.ulid o.time_ns o.random).1 }

posted-is_queue_local :
    (spec : NotificationSpec) (o : Surroundings) (w : World)
    → is_queue_local (posted spec o w).id ≡ true
unfolding from_spec generate_ulid
posted-is_queue_local spec o w = encode-is_queue_local (value (advance w.ulid o.time_ns o.random))

pub index-write_atomic :
    (q : DurableQueue) (n : Notification) (w : World)
    → is_queue_local n.id ≡ true
    → (write_atomic q n w).1.index ≡ w.index
index-write_atomic q n w h = rw (write_atomic_lem q n w h, index-write, index-unlink, index-write)

post_lem :
    (q : DurableQueue) (spec : NotificationSpec) (o : Surroundings) (w : World)
    → post q spec o w ≡ (
      ok (posted spec o w),
      index_posted q
          (posted spec o w).external_key
          (write_atomic q (posted spec o w) (stepped o w)).1,
    )
unfolding post
post_lem q spec o w =
    rw (write_atomic-eq q (posted spec o w) (stepped o w) (posted-is_queue_local spec o w))

get-stepped :
    (p : DurableQueue) (j : Text) (o : Surroundings) (w : World)
    → (get p j (stepped o w)).0 ≡ (get p j w).0
unfolding read
get-stepped p j o w = rw (get_lem p j (stepped o w), get_lem p j w)

get-index_posted :
    (q p : DurableQueue) (key : Option Text) (w : World) (j : Text)
    → (get p j (index_posted q key w)).0 ≡ (get p j w).0
get-index_posted q p key w j =
    rw (get_lem p j (index_posted q key w), get_lem p j w, read-index_posted)

-- A post returns the pending notification that it makes of the spec under the next identifier;
-- then every queue of that root finds it, or raises ValueError for it where its target or its reply
-- address is a session with an empty agent id; no other lookup changes, and the index has gained the
-- spec's key, if it has one and the queue is wired to the index, and is otherwise unchanged.
pub get-post :
    (q p : DurableQueue) (spec : NotificationSpec) (o : Surroundings) (w : World) (j : Text)
    → ((post q spec o w).0 ≡ ok (posted spec o w))
      × ((posted spec o w).status ≡ pending)
      × ((post q spec o w).1.index ≡ (
          if q.indexed
          then elim spec.external_key [ some key ↦ index_add w.index key | none ↦ w.index ]
          else w.index))
      × ((get p j (post q spec o w).1).0 ≡ (
          if (q.root == p.root) && ((posted spec o w).id == j)
          then (if loads_back spec.target spec.rsvp_to
              then ok (posted spec o w)
              else err value_error)
          else (get p j w).0))
unfolding from_spec reloaded
get-post q p spec o w j =
    let n = posted spec o w in
    let k = posted-is_queue_local spec o w in
    let u = stepped o w in
    rw (post_lem q spec o w) (
      refl,
      refl,
      index-index_posted q spec.external_key (write_atomic q n u).1 w (index-write_atomic q n u k),
      rw (get-index_posted, get-write_atomic q p n u j k, get-stepped),
    )
