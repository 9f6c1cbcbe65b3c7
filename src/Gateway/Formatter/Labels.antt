-- ===== src/Gateway/Formatter/Labels.antt =====
-- The envelopes that src/thorn/gateway/_formatter.py labels as a peer's.
use thorn.Prelude.{
  ==_iff, Bool, Bool-cases, Option, Option-cases, Text, ap, arith, bool_eq, codes, false, inl, inr,
  list_eq, nat_eq, none, option_eq, pair_eq, refl, some, true, ◌∙◌, ◌≡◌,
}
use thorn.Gateway.Event.{ActorIdentity, RawIncomingEvent, same_actor}
use thorn.Gateway.Peer.{PeerRegistry, PeerSpec, lookup_actor}
use thorn.Gateway.Policy.{
  TriggerAuthorizationPolicy, TriggerDecision, conversational_no_peer_decision, decide,
  decide_by_peer, decide_external, decide_for_actor, deliver, no_peer_decision,
  structural_no_peer_decision,
}
use thorn.Gateway.Envelope.{PeerStatus, non_peer, peer, unknown_peer}
use thorn.Gateway.Formatter.{
  Primary, is_primary, item_actor, item_peer_status, matched_status, primary_peer_status,
}

abbrev pub is_found : Option PeerSpec → Bool
is_found none = false
is_found (some p) = true

-- An actor that a peer is found for.
abbrev pub leads_to_peer : PeerRegistry → Option ActorIdentity → Bool
leads_to_peer peers none = false
leads_to_peer peers (some actor) = is_found (lookup_actor peers actor)

-- The label "peer" stands only beside such an actor.
abbrev pub labelled : PeerRegistry → PeerStatus → Option ActorIdentity → Bool
labelled peers peer actor = leads_to_peer peers actor
labelled peers non_peer actor = true
labelled peers unknown_peer actor = true

same_actor-lookup :
    (peers : PeerRegistry) (a b : ActorIdentity)
    → same_actor a b ≡ true
    → lookup_actor peers a ≡ lookup_actor peers b
unfolding same_actor lookup_actor
same_actor-lookup peers a b h =
    let service : a.service ≡ b.service = (==_iff a.service b.service).0 (ground (arith, h)) in
    let account : a.account_id ≡ b.account_id =
      (==_iff a.account_id b.account_id).0 (ground (arith, h)) in
    rw (service, account) refl

labelled-same :
    (peers : PeerRegistry) (status : PeerStatus) (a b : ActorIdentity)
    → same_actor a b ≡ true
    → labelled peers status (some b) ≡ true
    → labelled peers status (some a) ≡ true
labelled-same peers peer a b same h = ap is_found (same_actor-lookup peers a b same) ∙ h
labelled-same peers non_peer a b same h = refl
labelled-same peers unknown_peer a b same h = refl

matched_status-labelled :
    (peers : PeerRegistry) (actor : ActorIdentity)
    → labelled peers (matched_status (lookup_actor peers actor)) (some actor) ≡ true
matched_status-labelled peers actor = elim (Option-cases (lookup_actor peers actor)) [
  | inl e ↦ ap (λ o. labelled peers (matched_status o) (some actor)) e
  | inr (p, e) ↦ ap (λ o. labelled peers (matched_status o) (some actor)) e ∙ ap is_found e
]

primary-labelled :
    (peers : PeerRegistry) (status : PeerStatus) (actor : ActorIdentity)
    (primary : Option ActorIdentity)
    → is_primary actor primary ≡ true
    → labelled peers status primary ≡ true
    → labelled peers status (some actor) ≡ true
unfolding is_primary
primary-labelled peers status actor none h l = ground (arith, h)
primary-labelled peers status actor (some b) h l = labelled-same peers status actor b h l

-- An item's label is right when the event's is.
pub item-labelled :
    (p : Primary) (actor : Option ActorIdentity)
    → labelled p.peers p.status p.primary_actor ≡ true
    → labelled p.peers (item_peer_status p actor) (item_actor p.primary_actor actor) ≡ true
unfolding item_peer_status
item-labelled p none h = h
item-labelled p (some actor) h = elim (Bool-cases (is_primary actor p.primary_actor)) [
  | inl same ↦ rw (same) (primary-labelled p.peers p.status actor p.primary_actor same h)
  | inr other ↦ rw (other) (matched_status-labelled p.peers actor)
]

abbrev is_peers : TriggerDecision → Bool
is_peers (deliver matched) = is_found matched
is_peers _ = false

no_peer_decision-deliver :
    (policy : TriggerAuthorizationPolicy) (raw : RawIncomingEvent) (banner_kind : Text)
    → is_peers (no_peer_decision policy raw banner_kind) ≡ false
unfolding no_peer_decision conversational_no_peer_decision structural_no_peer_decision
no_peer_decision-deliver policy raw banner_kind = ground (arith)

decide_for_actor-deliver :
    (policy : TriggerAuthorizationPolicy) (raw : RawIncomingEvent) (actor : ActorIdentity)
    → is_peers (decide_for_actor policy raw actor) ≡ true
    → leads_to_peer policy.peers (some actor) ≡ true
unfolding decide_for_actor decide_by_peer
decide_for_actor-deliver policy raw actor h =
    ground (arith, h, no_peer_decision-deliver policy raw (codes "non-peer"))

identified-deliver :
    (policy : TriggerAuthorizationPolicy) (raw : RawIncomingEvent) (o : Option ActorIdentity)
    → is_peers (elim o [
      | none ↦ no_peer_decision policy raw (codes "non-peer (actor not identified)")
      | some actor ↦ decide_for_actor policy raw actor
    ])
      ≡ true
    → leads_to_peer policy.peers o ≡ true
identified-deliver policy raw none h =
    ground (arith, h, no_peer_decision-deliver policy raw (codes "non-peer (actor not identified)"))
identified-deliver policy raw (some actor) h = decide_for_actor-deliver policy raw actor h

decide_external-deliver :
    (policy : TriggerAuthorizationPolicy) (raw : RawIncomingEvent)
    → is_peers (decide_external policy raw) ≡ true
    → leads_to_peer policy.peers raw.primary_actor ≡ true
unfolding decide_external
decide_external-deliver policy raw h = identified-deliver policy raw raw.primary_actor h

decide-deliver :
    (policy : TriggerAuthorizationPolicy) (raw : RawIncomingEvent)
    → is_peers (decide policy raw) ≡ true
    → leads_to_peer policy.peers raw.primary_actor ≡ true
unfolding decide
decide-deliver policy raw h = ground (arith, h, decide_external-deliver policy raw)

pub primary_peer_status-labelled :
    (peers : PeerRegistry) (matched : Option PeerSpec) (actor : Option ActorIdentity)
    → (is_found matched ≡ true → leads_to_peer peers actor ≡ true)
    → labelled peers (primary_peer_status matched actor) actor ≡ true
unfolding primary_peer_status
primary_peer_status-labelled peers (some p) actor h = h refl
primary_peer_status-labelled peers none none h = refl
primary_peer_status-labelled peers none (some actor) h = refl

-- What the policy says of the peer it delivers for.
pub decide-labelled :
    (policy : TriggerAuthorizationPolicy) (raw : RawIncomingEvent) (matched : Option PeerSpec)
    → decide policy raw ≡ deliver matched
    → labelled policy.peers (primary_peer_status matched raw.primary_actor) raw.primary_actor ≡ true
decide-labelled policy raw matched h =
    primary_peer_status-labelled policy.peers matched raw.primary_actor
      (λ found. decide-deliver policy raw (ap is_peers h ∙ found))
