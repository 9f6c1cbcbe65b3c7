-- ===== src/Gateway/Formatter.antt =====
-- src/thorn/gateway/_formatter.py: an event's authorization and the text of its notification. The
-- nonces that secrets.token_hex draws are an argument, one for each item; logging is left out.
pub mod Labels
pub mod Content
use thorn.Prelude.{
  ==_iff, Bool, List, Option, Text, [], bool_eq, false, if◌then◌else◌, is_empty, list_eq, nat_eq,
  none, option_eq, pair_eq, some, ℕ, ◌++◌, ◌+◌, ◌∷◌,
}
use thorn.Gateway.Event.{
  ActorIdentity, ContextItem, FormattedEvent, RawIncomingEvent, context_item_kind_value, same_actor,
}
use thorn.Gateway.Peer.{PeerRegistry, PeerSpec, lookup_actor}
use thorn.Gateway.Policy.{
  TriggerAuthorizationPolicy, TriggerDecision, decide, deliver, deliver_with_banner, drop,
}
use thorn.Gateway.Envelope.{
  ExternalContent, PeerStatus, non_peer, peer, unknown_peer, wrap_external,
}

pub data FormatterResult : Type 0 where
  formatter_delivery : FormattedEvent → FormatterResult
  formatter_drop : Text → FormatterResult

-- The status where the matched peer, if any, decides.
abbrev pub matched_status : Option PeerSpec → PeerStatus
matched_status (some matched) = peer
matched_status none = non_peer

-- primary_peer_status, after Deliver(peer=matched) or, with none, after DeliverWithBanner
unfoldable pub primary_peer_status : Option PeerSpec → Option ActorIdentity → PeerStatus
primary_peer_status (some matched) actor = peer
primary_peer_status none none = unknown_peer
primary_peer_status none (some actor) = non_peer

-- What _render_item reads besides its item: the registry, the event's source, its actor and status.
pub record Primary : Type 0 where
  pub peers : PeerRegistry
  pub source : Text
  pub primary_actor : Option ActorIdentity
  pub status : PeerStatus

-- item.actor == primary_actor
unfoldable pub is_primary : ActorIdentity → Option ActorIdentity → Bool
is_primary actor none = false
is_primary actor (some primary) = same_actor actor primary

unfoldable pub item_peer_status : Primary → Option ActorIdentity → PeerStatus
item_peer_status p none = p.status
item_peer_status p (some actor) =
    if is_primary actor p.primary_actor
    then p.status
    else matched_status (lookup_actor p.peers actor)

-- Of an event's actor and an item's own
abbrev pub item_actor : Option ActorIdentity → Option ActorIdentity → Option ActorIdentity
item_actor primary none = primary
item_actor primary (some actor) = some actor

unfoldable pub envelope_of : Primary → ContextItem → Text → ExternalContent
envelope_of p item nonce = record {
  body = item.body;
  actor = item_actor p.primary_actor item.actor;
  source = p.source;
  kind = context_item_kind_value item.kind;
  peer_status = item_peer_status p item.actor;
  timestamp = item.timestamp;
  nonce = nonce;
}

unfoldable pub render_item : Primary → ContextItem → Text → Text
render_item p item nonce = wrap_external (envelope_of p item nonce)

-- Each item takes the next nonce.
unfoldable pub render_items : Primary → List ContextItem → (ℕ → Text) → ℕ → List Text
render_items p [] nonces k = []
render_items p (item ∷ items) nonces k =
    render_item p item (nonces k) ∷ render_items p items nonces (k + 1)

-- The sections before the items: the summary and the banner, where there is one.
unfoldable pub headings : Text → Text → List Text
headings summary banner =
    (if is_empty summary then [] else summary ∷ []) ++ (if is_empty banner then [] else banner ∷ [])

-- "\n\n".join(sections)
unfoldable pub join_sections : List Text → Text
join_sections [] = []
join_sections (t ∷ []) = t
join_sections (t ∷ u ∷ ts) = t ++ (10 ∷ 10 ∷ join_sections (u ∷ ts))

-- A banner of none is an empty text here, which _render takes the same way.
unfoldable pub render : PeerRegistry → RawIncomingEvent → Text → PeerStatus → (ℕ → Text) → Text
render peers raw banner status nonces = join_sections (
    headings raw.summary banner
    ++ render_items
        (record {
          peers = peers;
          source = raw.source;
          primary_actor = raw.primary_actor;
          status = status;
        })
        raw.items nonces 0)

abbrev pub delivered : RawIncomingEvent → Text → FormatterResult
delivered raw content = formatter_delivery (record {
  source = raw.source;
  session_key = raw.session_key;
  content = content;
  agent_id = raw.agent_id;
  external_key = raw.external_key;
})

-- process after the decision
unfoldable pub format :
    PeerRegistry → RawIncomingEvent → (ℕ → Text) → TriggerDecision → FormatterResult
format peers raw nonces (drop reason) = formatter_drop reason
format peers raw nonces (deliver matched) =
    delivered raw (render peers raw [] (primary_peer_status matched raw.primary_actor) nonces)
format peers raw nonces (deliver_with_banner banner) =
    delivered raw (render peers raw banner (primary_peer_status none raw.primary_actor) nonces)

-- NotificationFormatter.process
unfoldable pub process :
    PeerRegistry → TriggerAuthorizationPolicy → (ℕ → Text) → RawIncomingEvent → FormatterResult
process peers policy nonces raw = format peers raw nonces (decide policy raw)
