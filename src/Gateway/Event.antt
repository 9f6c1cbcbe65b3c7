-- ===== src/Gateway/Event.antt =====
-- src/thorn/gateway/_actor.py and the event type of src/thorn/gateway/_event.py.
use thorn.Prelude.{
  Bool, List, Option, Text, [], bool_eq, codes, list_eq, nat_eq, option_eq, pair_eq, ◌&&◌, ◌++◌,
  ◌==◌, ◌∷◌,
}

pub record ActorIdentity : Type 0 where
  pub service : Text
  pub account_id : Text
  pub display_name : Text
  -- bool | None
  pub is_bot : Option Bool
  pub secondary_account_ids : List Text

unfoldable pub at_login_form : ActorIdentity → Text
at_login_form actor =
    codes "@" ++ elim actor.secondary_account_ids [ handle ∷ _ ↦ handle | [] ↦ actor.account_id ]

pub data EventKind : Type 0 where
  structural conversational system : EventKind

pub data ContextItemKind : Type 0 where
  comment issue_body pr_body review harness_note : ContextItemKind

abbrev pub context_item_kind_value : ContextItemKind → Text
context_item_kind_value comment = codes "comment"
context_item_kind_value issue_body = codes "issue_body"
context_item_kind_value pr_body = codes "pr_body"
context_item_kind_value review = codes "review"
context_item_kind_value harness_note = codes "harness_note"

pub record ContextItem : Type 0 where
  pub body : Text
  pub kind : ContextItemKind
  pub actor : Option ActorIdentity
  pub timestamp : Text

-- RawIncomingEvent, less metadata and workspace_bootstrap, which are passed on unread.
pub record RawIncomingEvent : Type 0 where
  pub source : Text
  pub session_key : Text
  pub kind : EventKind
  pub primary_actor : Option ActorIdentity
  pub summary : Text
  pub items : List ContextItem
  pub agent_id : Option Text
  pub external_key : Option Text

-- FormattedEvent, less the same fields.
pub record FormattedEvent : Type 0 where
  pub source : Text
  pub session_key : Text
  pub content : Text
  pub agent_id : Option Text
  pub external_key : Option Text

-- The equality of the dataclass ActorIdentity
unfoldable pub same_actor : ActorIdentity → ActorIdentity → Bool
same_actor a b =
    (a.service == b.service)
    && (a.account_id == b.account_id)
    && (a.display_name == b.display_name)
    && (a.is_bot == b.is_bot)
    && (a.secondary_account_ids == b.secondary_account_ids)
