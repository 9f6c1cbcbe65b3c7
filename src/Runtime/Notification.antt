-- ===== src/Runtime/Notification.antt =====
-- src/thorn/runtime/_notification.py: notifications and their lifecycle.
pub mod Rationale
use thorn.Prelude.Dict.{Dict}
use thorn.Prelude.{
  ==_iff, Bool, Eq, Option, Text, arith, false, list_eq, nat_eq, none, option_eq, some, true, ℕ,
  ◌==◌, ◌↔◌, ◌≡◌, ◌⊎◌,
}
use thorn.Runtime.Address.{Address, address_eq}
use thorn.Runtime.Notification.Rationale.{InboxCompletionRationale}

-- NotificationStatus
pub data Status : Type 0 where
  pending in_progress handled errored confirmed : Status

-- `is` on two members
unfoldable pub status_beq : Status → Status → Bool
status_beq pending pending = true
status_beq in_progress in_progress = true
status_beq handled handled = true
status_beq errored errored = true
status_beq confirmed confirmed = true
status_beq _ _ = false

pub status_beq_iff : (s t : Status) → (status_beq s t ≡ true) ↔ (s ≡ t)
unfolding status_beq
status_beq_iff s t = ground arith

instance abbrev pub status_eq : Eq Status
status_eq = record { beq = status_beq; beq_iff = status_beq_iff }

-- `status in (...)`
unfoldable pub is_terminal : Status → Bool
is_terminal handled = true
is_terminal errored = true
is_terminal _ = false

unfoldable pub is_prompt_ready : Status → Bool
is_prompt_ready pending = true
is_prompt_ready in_progress = true
is_prompt_ready _ = false

pub record NotificationSpec : Type 0 where
  pub source : Text
  pub content : Text
  pub target : Address
  pub metadata : Dict Text Text
  pub rsvp_to : Option Address
  pub external_key : Option Text

pub record Notification : Type 0 where
  pub id : Text
  pub source : Text
  pub content : Text
  pub target : Address
  pub metadata : Dict Text Text
  pub rsvp_to : Option Address
  pub external_key : Option Text
  pub posted_at : ℕ
  pub status : Status
  pub attempt_count : ℕ
  pub notes : Option Text
  pub completion_rationale : Option InboxCompletionRationale
  pub error_reason : Option Text

-- What a post reads from the outside: the clock, twice, and the random bytes.
pub record Surroundings : Type 0 where
  pub time_ns : ℕ
  pub random : ℕ
  pub now : ℕ

unfoldable pub from_spec : Text → ℕ → NotificationSpec → Notification
from_spec id now spec = record {
  id = id;
  source = spec.source;
  content = spec.content;
  target = spec.target;
  metadata = spec.metadata;
  rsvp_to = spec.rsvp_to;
  external_key = spec.external_key;
  posted_at = now;
  status = pending;
  attempt_count = 0;
  notes = none;
  completion_rationale = none;
  error_reason = none;
}

-- The keyword arguments of an update; `none` is an argument that was not given.
pub record Updates : Type 0 where
  pub notes : Option (Option Text)
  pub completion_rationale : Option (Option InboxCompletionRationale)
  pub error_reason : Option (Option Text)

abbrev pub no_updates : Updates
no_updates = record { notes = none; completion_rationale = none; error_reason = none }

abbrev given_or {ℓ} : {A : Type ℓ} → Option A → A → A
given_or none a = a
given_or (some b) a = b

-- notification.with_updates(status=status, **fields)
unfoldable pub with_updates : Notification → Option Status → Updates → Notification
with_updates n status fields = record n {
  status = given_or status n.status;
  notes = given_or fields.notes n.notes;
  completion_rationale = given_or fields.completion_rationale n.completion_rationale;
  error_reason = given_or fields.error_reason n.error_reason;
}

pub closed_cases :
    (s : Status)
    → is_prompt_ready s ≡ false
    → (is_terminal s ≡ true) ⊎ ((is_terminal s ≡ false) × ((s == confirmed) ≡ true))
unfolding is_prompt_ready is_terminal status_beq
closed_cases s h = ground arith

pub open_facts :
    (s : Status) → is_prompt_ready s ≡ true → (is_terminal s ≡ false) × ((s == confirmed) ≡ false)
unfolding is_prompt_ready is_terminal status_beq
open_facts s h = ground arith
