-- ===== src/Gateway/Formatter/Content.antt =====
-- The content that src/thorn/gateway/_formatter.py renders for a delivered event.
use mathlib.Core.Path.{subst}
use thorn.Prelude.{
  Bool, List, Text, [], all, ap, arith, bool_eq, is_empty, keep, list_eq, map, nat_eq, none, not,
  option_eq, pair_eq, refl, true, ℕ, ◌++◌, ◌+◌, ◌∙◌, ◌∷◌, ◌≡◌,
}
use thorn.Gateway.Event.{ContextItem, FormattedEvent, RawIncomingEvent}
use thorn.Gateway.Peer.{PeerRegistry}
use thorn.Gateway.Policy.{
  TriggerAuthorizationPolicy, TriggerDecision, decide, deliver, deliver_with_banner, drop,
}
use thorn.Gateway.Envelope.{ExternalContent, PeerStatus, wrap_external}
use thorn.Gateway.Formatter.{
  FormatterResult, Primary, delivered, envelope_of, format, formatter_delivery, formatter_drop,
  headings, item_actor, join_sections, primary_peer_status, process, render, render_item,
  render_items,
}
use thorn.Gateway.Formatter.Labels.{
  decide-labelled, item-labelled, labelled, primary_peer_status-labelled,
}

-- The envelopes of the items, in order.
abbrev pub envelopes : Primary → List ContextItem → (ℕ → Text) → ℕ → List ExternalContent
envelopes p [] nonces k = []
envelopes p (item ∷ items) nonces k =
    envelope_of p item (nonces k) ∷ envelopes p items nonces (k + 1)

abbrev pub is_labelled : PeerRegistry → ExternalContent → Bool
is_labelled peers e = labelled peers e.peer_status e.actor

render_items-envelopes :
    (p : Primary) (items : List ContextItem) (nonces : ℕ → Text) (k : ℕ)
    → render_items p items nonces k ≡ map wrap_external (envelopes p items nonces k)
unfolding render_items render_item
render_items-envelopes p [] nonces k = refl
render_items-envelopes p (item ∷ items) nonces k =
    ap (λ rest. wrap_external (envelope_of p item (nonces k)) ∷ rest)
      (render_items-envelopes p items nonces (k + 1))

envelopes-body :
    (p : Primary) (items : List ContextItem) (nonces : ℕ → Text) (k : ℕ)
    → map (λ e. e.body) (envelopes p items nonces k) ≡ map (λ i. i.body) items
unfolding envelope_of
envelopes-body p [] nonces k = refl
envelopes-body p (item ∷ items) nonces k =
    ap (λ rest. item.body ∷ rest) (envelopes-body p items nonces (k + 1))

envelopes-actor :
    (p : Primary) (items : List ContextItem) (nonces : ℕ → Text) (k : ℕ)
    → map (λ e. e.actor) (envelopes p items nonces k)
      ≡ map (λ i. item_actor p.primary_actor i.actor) items
unfolding envelope_of
envelopes-actor p [] nonces k = refl
envelopes-actor p (item ∷ items) nonces k =
    ap (λ rest. item_actor p.primary_actor item.actor ∷ rest)
      (envelopes-actor p items nonces (k + 1))

envelopes-labelled :
    (p : Primary) (items : List ContextItem) (nonces : ℕ → Text) (k : ℕ)
    → labelled p.peers p.status p.primary_actor ≡ true
    → all (is_labelled p.peers) (envelopes p items nonces k) ≡ true
unfolding envelope_of
envelopes-labelled p [] nonces k h = refl
envelopes-labelled p (item ∷ items) nonces k h =
    ground (arith, item-labelled p item.actor h, envelopes-labelled p items nonces (k + 1) h)

-- The banner that a decision brings with it
abbrev pub banner_of : TriggerDecision → Text
banner_of (deliver_with_banner banner) = banner
banner_of _ = []

-- The texts that are not empty, in order
abbrev pub nonempty : List Text → List Text
nonempty ts = keep (λ t. not (is_empty t)) ts

-- A content is the summary and the decision's banner, each where there is one, then one envelope for
-- each item, whose labels are right.
abbrev pub IsRendered : PeerRegistry → RawIncomingEvent → TriggerDecision → Text → Type 0
IsRendered peers raw decision content =
    (es : List ExternalContent) × (content
      ≡ join_sections (nonempty (raw.summary ∷ banner_of decision ∷ []) ++ map wrap_external es))
    × (map (λ e. e.body) es ≡ map (λ i. i.body) raw.items)
    × (map (λ e. e.actor) es ≡ map (λ i. item_actor raw.primary_actor i.actor) raw.items)
    × (all (is_labelled peers) es ≡ true)

headings-nonempty :
    (summary banner : Text) → headings summary banner ≡ nonempty (summary ∷ banner ∷ [])
unfolding headings is_empty
headings-nonempty [] [] = refl
headings-nonempty [] (b ∷ banner) = refl
headings-nonempty (c ∷ summary) [] = refl
headings-nonempty (c ∷ summary) (b ∷ banner) = refl

render-IsRendered :
    (peers : PeerRegistry) (raw : RawIncomingEvent) (decision : TriggerDecision)
    (status : PeerStatus) (nonces : ℕ → Text)
    → labelled peers status raw.primary_actor ≡ true
    → IsRendered peers raw decision (render peers raw (banner_of decision) status nonces)
unfolding render
render-IsRendered peers raw decision status nonces h =
    let p : Primary = record {
      peers = peers;
      source = raw.source;
      primary_actor = raw.primary_actor;
      status = status;
    } in
    (
      envelopes p raw.items nonces 0,
      ap (λ rest. join_sections (headings raw.summary (banner_of decision) ++ rest))
            (render_items-envelopes p raw.items nonces 0)
          ∙ ap
              (λ first. join_sections (first ++ map wrap_external (envelopes p raw.items nonces 0)))
              (headings-nonempty raw.summary (banner_of decision)),
      envelopes-body p raw.items nonces 0,
      envelopes-actor p raw.items nonces 0,
      envelopes-labelled p raw.items nonces 0 h,
    )

content_of : FormatterResult → Text
content_of (formatter_delivery event) = event.content
content_of (formatter_drop reason) = []

IsRendered-delivered :
    (peers : PeerRegistry) (raw : RawIncomingEvent) (decision : TriggerDecision) (content : Text)
    (event : FormattedEvent)
    → delivered raw content ≡ formatter_delivery event
    → IsRendered peers raw decision content
    → IsRendered peers raw decision event.content
unfolding content_of
IsRendered-delivered peers raw decision content event h rendered =
    subst (IsRendered peers raw decision) (ap content_of h) rendered

format-IsRendered :
    (policy : TriggerAuthorizationPolicy) (raw : RawIncomingEvent) (nonces : ℕ → Text)
    (d : TriggerDecision) (event : FormattedEvent)
    → decide policy raw ≡ d
    → format policy.peers raw nonces d ≡ formatter_delivery event
    → IsRendered policy.peers raw d event.content
unfolding format
format-IsRendered policy raw nonces (drop reason) event e h = ground (arith, h)
format-IsRendered policy raw nonces (deliver matched) event e h =
    IsRendered-delivered policy.peers raw (deliver matched) _ event h (
      render-IsRendered policy.peers raw (deliver matched)
        (primary_peer_status matched raw.primary_actor) nonces
        (decide-labelled policy raw matched e))
format-IsRendered policy raw nonces (deliver_with_banner banner) event e h =
    IsRendered-delivered policy.peers raw (deliver_with_banner banner) _ event h (
      render-IsRendered policy.peers raw (deliver_with_banner banner)
        (primary_peer_status none raw.primary_actor) nonces
        (primary_peer_status-labelled policy.peers none raw.primary_actor
          (λ found. ground (arith, found))))

-- Where the policy and the formatter have one registry, the content of a delivered event is the
-- summary and the banner of the policy's decision, each if it is not empty, then for each item in
-- order one envelope with the item's body and its actor, or the event's where it has none; an
-- envelope says peer=yes only beside an actor that the registry finds a peer for.
pub process-IsRendered :
    (peers : PeerRegistry) (policy : TriggerAuthorizationPolicy) (nonces : ℕ → Text)
    (raw : RawIncomingEvent) (event : FormattedEvent)
    → policy.peers ≡ peers
    → process peers policy nonces raw ≡ formatter_delivery event
    → IsRendered peers raw (decide policy raw) event.content
unfolding process
process-IsRendered peers policy nonces raw event same h =
    subst (λ r. IsRendered r raw (decide policy raw) event.content) same
      (format-IsRendered policy raw nonces (decide policy raw) event refl
        (ap (λ r. format r raw nonces (decide policy raw)) same ∙ h))
