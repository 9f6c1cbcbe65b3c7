-- ===== src/Runtime/Queue/Ends.antt =====
-- What a post adds and a deletion takes away, of src/thorn/runtime/_queue.py.
use mathlib.Core.List.{reverse, reverse-cons}
use thorn.Prelude.{
  Bool, Option, Text, [], all, ap, arith, bool_eq, false, get_or, if◌then◌else◌, is_empty, length,
  list_beq_iff, list_eq, nat_eq, none, option_eq, pair_eq, refl, some, suc, true, zero, ℕ, ◌%◌,
  ◌&&◌, ◌++◌, ◌/◌, ◌<◌, ◌==◌, ◌∷◌, ◌≡◌,
}
use thorn.Errors.{err, key_error, ok}
use thorn.Runtime.Ulid.{alphabet, encode, letter, letters}
use thorn.Runtime.Notification.{Notification, status_eq}
use thorn.Runtime.World.{FilePath, World, index_add, index_remove, read, read-unlink, unlink}
use thorn.Runtime.Queue.{
  DurableQueue, delete, get, index_deleted, index_posted, is_first, is_later, is_queue_local,
  live_name, load_entry,
}
use thorn.Runtime.Queue.Names.{live_name_beq}
use thorn.Runtime.Queue.View.{get-reloaded, get_lem}
use thorn.Runtime.Queue.Moves.{found_entry, index-unlink}

all-append : (p : ℕ → Bool) (xs ys : Text) → all p (xs ++ ys) ≡ (all p xs && all p ys)
all-append p [] ys = refl
all-append p (x ∷ xs) ys = ground (arith, all-append p xs ys)

get_or-is_first :
    (t : Text) (d : ℕ) → all is_first t ≡ true → (d < length t) → is_first (get_or t d 0) ≡ true
get_or-is_first [] d h l = absurd (omega arith)
get_or-is_first (c ∷ t) zero h l = ground arith
get_or-is_first (c ∷ t) (suc d) h l = get_or-is_first t d (ground arith) (omega arith)

alphabet-is_first : all is_first alphabet ≡ true
unfolding is_first
alphabet-is_first = refl

letter-is_first : (v : ℕ) → is_first (letter (v % 32)) ≡ true
unfolding letter
letter-is_first v = get_or-is_first alphabet (v % 32) alphabet-is_first (omega arith)

letters-is_first : (n v : ℕ) → all is_first (reverse (letters n v)) ≡ true
unfolding letters
letters-is_first zero v = refl
letters-is_first (suc n) v = rw (
  reverse-cons (letter (v % 32)) (letters n (v / 32)),
  all-append is_first (reverse (letters n (v / 32))) (letter (v % 32) ∷ []),
  letters-is_first n (v / 32),
  letter-is_first v,
)

all_first-all_later : (t : Text) → all is_first t ≡ true → all is_later t ≡ true
unfolding is_later
all_first-all_later [] h = refl
all_first-all_later (c ∷ t) h = ground (arith, all_first-all_later t)

is_queue_local_of :
    (t : Text) → is_empty t ≡ false → all is_first t ≡ true → is_queue_local t ≡ true
unfolding is_queue_local is_empty
is_queue_local_of [] e h = ground arith
is_queue_local_of (c ∷ t) e h = ground (arith, all_first-all_later t)

is_empty_snoc : (t : Text) (c : ℕ) → is_empty (t ++ (c ∷ [])) ≡ false
unfolding is_empty
is_empty_snoc [] c = refl
is_empty_snoc (d ∷ t) c = refl

-- Every identifier that the generator makes is the stem of a file name.
pub encode-is_queue_local : (v : ℕ) → is_queue_local (encode v) ≡ true
unfolding encode
encode-is_queue_local v =
    is_queue_local_of (reverse (letters 26 v)) (nonempty 25 v) (letters-is_first 26 v)
  where
    nonempty : (n v : ℕ) → is_empty (reverse (letters (suc n) v)) ≡ false
    nonempty n v = rw reverse-cons (is_empty_snoc (reverse (letters n (v / 32))) (letter (v % 32)))

-- A queue's delete, where the file is a notification.
pub delete_lem :
    (q : DurableQueue) (i : Text) (w : World) (n : Notification)
    → (get q i w).0 ≡ ok n
    → delete q i w ≡ (ok tt, index_deleted q n.external_key (unlink w q.root (live_name i)))
unfolding delete load_entry
delete_lem q i w n h =
    let (k, e) = found_entry q i w n h in ground (arith, k, e, get-reloaded q i w n h)

pub read-index_deleted :
    (q : DurableQueue) (key : Option Text) (w : World) (r : FilePath) (name : Text)
    → read (index_deleted q key w) r name ≡ read w r name
unfolding index_deleted read
read-index_deleted q none w r name = refl
read-index_deleted q (some k) w r name = ground arith

pub read-index_posted :
    (q : DurableQueue) (key : Option Text) (w : World) (r : FilePath) (name : Text)
    → read (index_posted q key w) r name ≡ read w r name
unfolding index_posted read
read-index_posted q none w r name = refl
read-index_posted q (some k) w r name = ground arith

pub index-index_deleted :
    (q : DurableQueue) (key : Option Text) (u w : World)
    → u.index ≡ w.index
    → (index_deleted q key u).index ≡ (
        if q.indexed
        then elim key [ some k ↦ index_remove w.index k | none ↦ w.index ]
        else w.index)
unfolding index_deleted
index-index_deleted q none u w h = ground arith
index-index_deleted q (some k) u w h = ground arith

pub index-index_posted :
    (q : DurableQueue) (key : Option Text) (u w : World)
    → u.index ≡ w.index
    → (index_posted q key u).index
      ≡ (if q.indexed then elim key [ some k ↦ index_add w.index k | none ↦ w.index ] else w.index)
unfolding index_posted
index-index_posted q none u w h = ground arith
index-index_posted q (some k) u w h = ground arith

-- Where `get` finds a notification, deleting it succeeds; then every queue of that root raises
-- KeyError for it, no other lookup changes, and the index has lost the notification's key, if it
-- has one and the queue is wired to the index, and is otherwise unchanged.
pub get-delete :
    (q p : DurableQueue) (i j : Text) (w : World) (n : Notification)
    → (get q i w).0 ≡ ok n
    → ((delete q i w).0 ≡ ok tt)
      × ((delete q i w).1.index ≡ (
          if q.indexed
          then elim n.external_key [ some key ↦ index_remove w.index key | none ↦ w.index ]
          else w.index))
      × ((get p j (delete q i w).1).0
          ≡ (if (q.root == p.root) && (i == j) then err key_error else (get p j w).0))
get-delete q p i j w n h = (
  ap (λ x. x.0) (delete_lem q i w n h),
  rw (delete_lem q i w n h) (
      index-index_deleted q n.external_key (unlink w q.root (live_name i)) w
        (index-unlink w q.root (live_name i))),
  rw
      (
        get_lem p j (delete q i w).1,
        get_lem p j w,
        delete_lem q i w n h,
        read-index_deleted,
        read-unlink,
      )
      (ground (arith, live_name_beq i j, list_beq_iff i j, found_entry q i w n h)),
)

-- A deletion, as a step of a longer run.
pub delete-eq :
    (q : DurableQueue) (i : Text) (w : World) (n : Notification)
    → (get q i w).0 ≡ ok n
    → delete q i w ≡ (ok tt, (delete q i w).1)
delete-eq q i w n h = ground (arith, delete_lem q i w n h)
