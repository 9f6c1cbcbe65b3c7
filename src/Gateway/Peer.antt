-- ===== src/Gateway/Peer.antt =====
-- src/thorn/gateway/_peer.py: the operator's peers and the registry that indexes them.
pub mod Accounts
pub mod Lookup
pub mod Owner
use thorn.Prelude.Dict.{Dict, get, put}
use thorn.Prelude.{
  ==_iff, Bool, List, Option, Text, [], false, if◌then◌else◌, is_empty, leb, list_eq, nat_beq,
  nat_eq, none, not, option_eq, some, true, ℕ, ◌&&◌, ◌==◌, ◌||◌, ◌∷◌,
}
use thorn.Errors.{Result, err, ok, value_error, ◌>>=◌}
use thorn.Gateway.Event.{ActorIdentity}

pub data PeerKind : Type 0 where
  human bot : PeerKind

pub record PeerAccount : Type 0 where
  pub service : Text
  pub account_id : Text
  pub display_handle : Text

pub record PeerSpec : Type 0 where
  pub id : Text
  pub name : Text
  pub kind : PeerKind
  pub accounts : List PeerAccount

abbrev pub is_alphanumeric : ℕ → Bool
is_alphanumeric c = (leb 48 c && leb c 57) || (leb 65 c && leb c 90) || (leb 97 c && leb c 122)

-- One character of [A-Za-z0-9_.\-]
unfoldable pub is_id_character : ℕ → Bool
is_id_character c = is_alphanumeric c || nat_beq c 95 || nat_beq c 46 || nat_beq c 45

-- [A-Za-z0-9_.\-]*$ from here on: `$` also matches before a newline that ends the text.
unfoldable pub rest_matches : Text → Bool
unfolding is_id_character
rest_matches [] = true
rest_matches (c ∷ t) =
    let more = rest_matches t in (is_id_character c && more) || (nat_beq c 10 && is_empty t)

-- _PEER_ID_PATTERN.match(id)
unfoldable pub id_matches : Text → Bool
id_matches [] = false
id_matches (c ∷ t) = is_alphanumeric c && rest_matches t

-- PeerAccount(...): both keys have at least one character.
unfoldable pub peer_account : Text → Text → Text → Result PeerAccount
peer_account service account_id display_handle =
    if is_empty service || is_empty account_id
    then err value_error
    else ok (record { service = service; account_id = account_id; display_handle = display_handle })

-- PeerSpec(...): the field checks and _validate_id.
unfoldable pub peer_spec : Text → Text → PeerKind → List PeerAccount → Result PeerSpec
peer_spec id name kind accounts =
    if not (is_empty id) && id_matches id
    then ok (record { id = id; name = name; kind = kind; accounts = accounts })
    else err value_error

abbrev pub Index : Type 0
Index = Dict Text (Dict Text PeerSpec)

pub record PeerRegistry : Type 0 where
  pub peers : Dict Text PeerSpec
  pub by_account : Index

abbrev pub or_empty : Option (Dict Text PeerSpec) → Dict Text PeerSpec
or_empty (some bucket) = bucket
or_empty none = []

-- self._by_account.setdefault(service, {})
abbrev pub bucket_of : Index → Text → Dict Text PeerSpec
bucket_of by service = or_empty (get by service)

abbrev pub find_in : Option (Dict Text PeerSpec) → Text → Option PeerSpec
find_in none account = none
find_in (some bucket) account = get bucket account

abbrev pub find : Index → Text → Text → Option PeerSpec
find by service account = find_in (get by service) account

-- One account of a spec: it may already be claimed only by a peer of the same id.
unfoldable pub add_account : PeerSpec → Index → PeerAccount → Result Index
add_account spec by account =
    let bucket = bucket_of by account.service in
    let added = put by account.service (put bucket account.account_id spec) in
    elim (get bucket account.account_id) [
      | none ↦ ok added
      | some existing ↦ if existing.id == spec.id then ok added else err value_error
    ]

unfoldable pub add_accounts : PeerSpec → Index → List PeerAccount → Result Index
add_accounts spec by [] = ok by
add_accounts spec by (account ∷ accounts) =
    add_account spec by account >>= (λ added. add_accounts spec added accounts)

-- The loop body of PeerRegistry.__init__
unfoldable pub add_peer : PeerRegistry → PeerSpec → Result PeerRegistry
add_peer registry spec = elim (get registry.peers spec.id) [
  | some old ↦ err value_error
  | none ↦
      add_accounts spec registry.by_account spec.accounts
      >>= (λ by. ok (record { peers = put registry.peers spec.id spec; by_account = by }))
]

unfoldable pub add_peers : PeerRegistry → List PeerSpec → Result PeerRegistry
add_peers registry [] = ok registry
add_peers registry (spec ∷ specs) = add_peer registry spec >>= (λ added. add_peers added specs)

-- PeerRegistry(peers)
unfoldable pub build : List PeerSpec → Result PeerRegistry
build specs = add_peers (record { peers = []; by_account = [] }) specs

unfoldable pub get_peer : PeerRegistry → Text → Option PeerSpec
get_peer registry id = get registry.peers id

unfoldable pub lookup_account : PeerRegistry → Text → Text → Option PeerSpec
lookup_account registry service account = find registry.by_account service account

unfoldable pub lookup_actor : PeerRegistry → ActorIdentity → Option PeerSpec
lookup_actor registry actor = find registry.by_account actor.service actor.account_id
