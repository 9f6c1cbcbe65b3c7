-- ===== src/Tests/Samples.antt =====
-- Sample queues, notifications and file systems.
use thorn.Prelude.Dict
use thorn.Prelude.{
  ==_iff, ==_refl, Bool-cases, Text, [], ap, arith, bool_eq, codes, false, inl, inr, is_empty,
  list_eq, nat_eq, none, option_eq, pair_eq, refl, some, sym, true, ◌==◌, ◌∙◌, ◌∷◌, ◌≡◌,
}
use thorn.Errors.{err, key_error, ok}
use thorn.Runtime.Address.{Address, address_eq, service, session}
use thorn.Runtime.Address.Book.{AddressBook}
use thorn.Runtime.Notification.{Notification, pending, status_eq}
use thorn.Runtime.World.{World, read}
use thorn.Runtime.Queue.{
  DurableQueue, get, is_first, is_later, is_loadable, is_loadable_rsvp, is_queue_local, loads_back,
  notification_queue, reloaded, session_inbox, write_atomic,
}
use thorn.Runtime.Queue.View.{IsNamed, get-write_atomic, get_lem}
use thorn.Runtime.Dispatch.{Arguments}

abbrev pub inbox : DurableQueue
inbox = record { class = session_inbox; root = codes "inbox" ∷ []; indexed = true }

abbrev pub desk : DurableQueue
desk = record { class = notification_queue; root = codes "desk" ∷ []; indexed = false }

abbrev pub desk_address : Address
desk_address = service (codes "desk")

abbrev pub item_id : Text
item_id = codes "01A"

abbrev pub plain_item : Notification
plain_item = record {
  id = item_id;
  source = codes "github";
  content = codes "review";
  target = session (codes "ada") (codes "main");
  metadata = [];
  rsvp_to = none;
  external_key = some (codes "pr-7");
  posted_at = 5;
  status = pending;
  attempt_count = 0;
  notes = none;
  completion_rationale = none;
  error_reason = none;
}

abbrev pub rsvp_item : Notification
rsvp_item = record plain_item { rsvp_to = some desk_address }

abbrev pub bare : World
bare = record {
  disk = λ r. [];
  index = codes "pr-7" ∷ [];
  ulid = record { last_ms = 0; last_rand = 0 };
}

abbrev pub holding : Notification → World
holding n = (write_atomic inbox n bare).1

pub item_id-local : is_queue_local item_id ≡ true
unfolding is_queue_local is_later is_first
item_id-local = refl

pub nothing : (j : Text) → (get inbox j bare).0 ≡ err key_error
unfolding read Dict.get
nothing j = ap (λ x. x.0) (get_lem inbox j bare) ∙ ground arith

ok-eq : (n m : Notification) → ok n ≡ ok m → n ≡ m
ok-eq n m h = cc

pub plain_item-reloaded : reloaded plain_item ≡ ok plain_item
unfolding reloaded loads_back is_loadable_rsvp is_loadable is_empty
plain_item-reloaded = refl

pub rsvp_item-reloaded : reloaded rsvp_item ≡ ok rsvp_item
unfolding reloaded loads_back is_loadable_rsvp is_loadable is_empty
rsvp_item-reloaded = refl

module _ (n : Notification) (id : is_queue_local n.id ≡ true) (loads : reloaded n ≡ ok n) where
  pub holding-IsNamed : IsNamed inbox (holding n)
  holding-IsNamed j m h =
      let seen = get-write_atomic inbox inbox n bare j id in
      elim (Bool-cases (n.id == j)) [
        | inl same ↦
            (let equal : ok n ≡ ok m = ground (arith, seen, same, h, loads, ==_refl inbox.root) in
              ap (λ (x : Notification). x.id) (sym (ok-eq n m equal)) ∙ (==_iff n.id j).0 same)
        | inr other ↦ ground (arith, seen, other, h, nothing j)
      ]

  pub get-holding : (get inbox n.id (holding n)).0 ≡ ok n
  get-holding =
      get-write_atomic inbox inbox n bare n.id id ∙ rw (==_refl inbox.root, ==_refl n.id) loads

abbrev pub closing : Arguments
closing = record {
  notes = none;
  completion_rationale = some (record {
    completed_actions = codes "a" ∷ [];
    request_coverage = codes "b" ∷ [];
    self_review = codes "c";
    remaining_work = [];
    external_follow_up = [];
  });
  error_reason = none;
}

abbrev pub failing_arguments : Arguments
failing_arguments = record {
  notes = none;
  completion_rationale = none;
  error_reason = some (codes "no");
}

abbrev pub no_arguments : Arguments
no_arguments = record { notes = none; completion_rationale = none; error_reason = none }

abbrev pub book : AddressBook DurableQueue
book = (desk_address, desk) ∷ []
