-- ===== src/Tests/Peers.antt =====
-- Peers and decisions of src/thorn/gateway at samples.
use thorn.Prelude.Dict
use thorn.Prelude.{
  ==_iff, Text, [], bool_eq, codes, false, if◌then◌else◌, list_beq, list_eq, nat_eq, none,
  option_eq, pair_eq, refl, some, true, ℕ, ◌∷◌, ◌≡◌,
}
use thorn.Errors.{ok}
use thorn.Gateway.Event.{
  ActorIdentity, FormattedEvent, RawIncomingEvent, comment, harness_note, review, structural,
}
use thorn.Gateway.Peer.{
  PeerRegistry, PeerSpec, add_account, add_accounts, add_peer, add_peers, bot, build, get_peer,
  human, lookup_account, lookup_actor,
}
use thorn.Gateway.Peer.Accounts.{claims}
use thorn.Gateway.Peer.Owner.{build-owner}
use thorn.Gateway.Policy.{
  TriggerAuthorizationPolicy, banner_for, decide, decide_by_peer, decide_external, decide_for_actor,
  drop_mode, is_bot_peer, no_peer_decision, read_only, source_policy_for,
  structural_no_peer_decision,
}
use thorn.Gateway.Envelope.{non_peer}
use thorn.Gateway.Formatter.{format, formatter_delivery, primary_peer_status, process, render}
use thorn.Gateway.Formatter.Content.{IsRendered, process-IsRendered}
use thorn.Gateway.Policy.Rules.{expected, level, level-decide}

abbrev hub : Text
hub = codes "hub"

abbrev ada : PeerSpec
ada = record {
  id = codes "ada";
  name = codes "Ada";
  kind = human;
  accounts = record { service = hub; account_id = codes "7"; display_handle = [] } ∷ [];
}

abbrev helper : PeerSpec
helper = record {
  id = codes "helper";
  name = [];
  kind = bot;
  accounts = record { service = hub; account_id = codes "9"; display_handle = [] } ∷ [];
}

abbrev registry : PeerRegistry
registry = record {
  peers = (codes "ada", ada) ∷ (codes "helper", helper) ∷ [];
  by_account = (hub, (codes "7", ada) ∷ (codes "9", helper) ∷ []) ∷ [];
}

built : build (ada ∷ helper ∷ []) ≡ ok registry
unfolding build add_peers add_peer add_accounts add_account Dict.get Dict.put thorn.Prelude.list_beq
built = refl

listed : claims hub (codes "9") helper.accounts ≡ true
unfolding thorn.Prelude.list_beq
listed = refl

build-owner_example :
    (get_peer registry (codes "helper") ≡ some helper)
    × (lookup_account registry hub (codes "9") ≡ (
        if claims hub (codes "9") helper.accounts
        then some helper
        else lookup_account registry hub (codes "9")))
build-owner_example = build-owner (ada ∷ []) [] helper registry hub (codes "9") built

abbrev strict : TriggerAuthorizationPolicy
strict = record { peers = registry; source_policies = (hub, drop_mode) ∷ [] }

abbrev lenient : TriggerAuthorizationPolicy
lenient = record { peers = registry; source_policies = [] }

abbrev stranger : ActorIdentity
stranger = record {
  service = hub;
  account_id = codes "55";
  display_name = codes "X";
  is_bot = some false;
  secondary_account_ids = codes "x" ∷ [];
}

abbrev ada_actor : ActorIdentity
ada_actor = record {
  service = hub;
  account_id = codes "7";
  display_name = [];
  is_bot = none;
  secondary_account_ids = [];
}

abbrev event : RawIncomingEvent
event = record {
  source = hub;
  session_key = codes "s";
  kind = structural;
  primary_actor = some stranger;
  summary = codes "Issue 42";
  items = [];
  agent_id = none;
  external_key = none;
}

level-decide_example :
    level (decide lenient event)
    ≡ expected registry structural (some stranger) (source_policy_for lenient event)
level-decide_example = level-decide lenient event

-- The same event with an item of its own actor, one of a peer and one of nobody.
abbrev quoted_event : RawIncomingEvent
quoted_event = record event {
  items =
      record { body = codes "hi"; kind = comment; actor = some stranger; timestamp = [] }
      ∷ record { body = []; kind = review; actor = some ada_actor; timestamp = codes "noon" }
      ∷ record { body = codes "note"; kind = harness_note; actor = none; timestamp = [] }
      ∷ [];
}

abbrev fixed_nonces : ℕ → Text
fixed_nonces k = codes "4f8a91ab"

abbrev shown : FormattedEvent
shown = record {
  source = hub;
  session_key = codes "s";
  content =
      render registry quoted_event (banner_for quoted_event (codes "non-peer") read_only) non_peer
        fixed_nonces;
  agent_id = none;
  external_key = none;
}

delivers : process registry lenient fixed_nonces quoted_event ≡ formatter_delivery shown
unfolding process format decide decide_external decide_for_actor decide_by_peer no_peer_decision
    structural_no_peer_decision primary_peer_status is_bot_peer source_policy_for lookup_actor
    Dict.get thorn.Prelude.list_beq
delivers = refl

process-IsRendered_example :
    IsRendered registry quoted_event (decide lenient quoted_event) shown.content
process-IsRendered_example =
    process-IsRendered registry lenient fixed_nonces quoted_event shown refl delivers
