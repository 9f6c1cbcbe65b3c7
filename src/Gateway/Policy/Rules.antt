-- ===== src/Gateway/Policy/Rules.antt =====
-- What the policy of src/thorn/gateway/_trigger_policy.py lets through, and to whom.
use thorn.Prelude.{
  Bool, Option, arith, false, if◌then◌else◌, list_eq, nat_eq, none, option_eq, refl, some, true, ℕ,
  ◌≡◌, ◌≤◌,
}
use thorn.Gateway.Event.{
  ActorIdentity, EventKind, RawIncomingEvent, conversational, structural, system,
}
use thorn.Gateway.Peer.{PeerRegistry, bot, human, lookup_actor}
use thorn.Gateway.Policy.{
  TriggerAuthorizationPolicy, TriggerDecision, UnknownActorPolicyMode, allow_response,
  conversational_no_peer_decision, decide, decide_by_peer, decide_external, decide_for_actor,
  deliver, deliver_with_banner, drop, drop_mode, is_bot_peer, no_peer_decision, read_only,
  source_policy_for, structural_no_peer_decision,
}

abbrev pub level : TriggerDecision → ℕ
level (drop reason) = 0
level (deliver_with_banner banner) = 1
level (deliver peer) = 2

abbrev pub rank : UnknownActorPolicyMode → ℕ
rank drop_mode = 0
rank read_only = 1
rank allow_response = 2

-- The level that the unknown-actor policy of a source allows an event of a kind.
abbrev pub allowance : EventKind → UnknownActorPolicyMode → ℕ
allowance system mode = 2
allowance conversational allow_response = 1
allowance conversational _ = 0
allowance structural drop_mode = 0
allowance structural _ = 1

-- A peer, and where the platform flags a bot, a peer of kind bot.
abbrev pub is_trusted : PeerRegistry → ActorIdentity → Bool
is_trusted peers actor = elim (lookup_actor peers actor) [
  | none ↦ false
  | some peer ↦ elim actor.is_bot [
    | some true ↦ elim peer.kind [ bot ↦ true | human ↦ false ]
    | some false ↦ true
    | none ↦ true
  ]
]

abbrev flag : Option Bool → Bool
flag (some true) = true
flag _ = false

-- The level of an event with this kind, actor and policy, written as a table.
abbrev pub expected : PeerRegistry → EventKind → Option ActorIdentity → UnknownActorPolicyMode → ℕ
expected peers system actor mode = 2
expected peers kind none mode = allowance kind mode
expected peers kind (some actor) mode =
    if is_trusted peers actor then 2 else if flag actor.is_bot then 0 else allowance kind mode

-- The policy's decision on an event is at the level that a table gives: a system event and one
-- from a trusted peer are delivered; an untrusted bot's event is dropped; any other is dropped
-- or carries a banner as the unknown-actor policy of its source allows for its kind.
pub level-decide :
    (policy : TriggerAuthorizationPolicy) (event : RawIncomingEvent)
    → level (decide policy event)
      ≡ expected policy.peers event.kind event.primary_actor (source_policy_for policy event)
unfolding decide decide_external decide_for_actor decide_by_peer is_bot_peer no_peer_decision
    structural_no_peer_decision conversational_no_peer_decision
level-decide policy event = ground arith

expected-le :
    (peers : PeerRegistry) (kind : EventKind) (actor : Option ActorIdentity)
    (m n : UnknownActorPolicyMode)
    → rank m ≤ rank n
    → expected peers kind actor m ≤ expected peers kind actor n
expected-le peers kind actor m n h = ground arith

-- Of two policies over the same peers, the one whose unknown-actor policy for the event's source
-- is at least as permissive never drops or marks an event that the other lets further through.
decide_monotone :
    (strict lenient : TriggerAuthorizationPolicy) (event : RawIncomingEvent)
    → strict.peers ≡ lenient.peers
    → rank (source_policy_for strict event) ≤ rank (source_policy_for lenient event)
    → level (decide strict event) ≤ level (decide lenient event)
unfolding source_policy_for
decide_monotone strict lenient event same h =
    rw (level-decide strict event, level-decide lenient event, same)
      (expected-le lenient.peers event.kind event.primary_actor (source_policy_for strict event)
        (source_policy_for lenient event) h)

same_trust :
    (peers : PeerRegistry) (a b : ActorIdentity)
    → a.service ≡ b.service
    → a.account_id ≡ b.account_id
    → a.is_bot ≡ b.is_bot
    → is_trusted peers a ≡ is_trusted peers b
unfolding lookup_actor
same_trust peers a b service account flags = rw (service, account, flags) refl

-- Two events of one source and kind whose actors agree in service, account id and bot flag are
-- decided at one level, whatever display names, handles and texts they carry.
decide_ignores_handles :
    (policy : TriggerAuthorizationPolicy) (e f : RawIncomingEvent) (a b : ActorIdentity)
    → e.source ≡ f.source
    → e.kind ≡ f.kind
    → e.primary_actor ≡ some a
    → f.primary_actor ≡ some b
    → a.service ≡ b.service
    → a.account_id ≡ b.account_id
    → a.is_bot ≡ b.is_bot
    → level (decide policy e) ≡ level (decide policy f)
unfolding source_policy_for
decide_ignores_handles policy e f a b source kind ea fb service account flags =
    let alike = same_trust policy.peers a b service account flags in
    rw (level-decide policy e, level-decide policy f, ea, fb, source, kind)
      (ground (arith, alike, flags))
