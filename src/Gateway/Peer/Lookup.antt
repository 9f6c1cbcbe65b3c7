-- ===== src/Gateway/Peer/Lookup.antt =====
-- What the peer registry of src/thorn/gateway/_peer.py answers once it is built.
use thorn.Prelude.Dict.{Dict, get, get-put, put}
use thorn.Prelude.{
  ==_iff, ==_refl, Bool, List, Option, Option-cases, Text, [], arith, false, if◌then◌else◌, inl,
  inr, list_eq, nat_eq, none, option_eq, refl, some, true, ◌∷◌, ◌≡◌,
}
use thorn.Errors.{>>=-eq-ok, ok}
use thorn.Gateway.Peer.{
  PeerRegistry, PeerSpec, add_accounts, add_peer, add_peers, build, find, lookup_account,
  lookup_actor,
}
use thorn.Gateway.Event.{ActorIdentity}
use thorn.Gateway.Peer.Accounts.{add_accounts-eq, add_accounts-free, claims, free_for}

-- The first spec that lists the account.
abbrev pub claimant : Text → Text → List PeerSpec → Option PeerSpec
claimant s a [] = none
claimant s a (p ∷ ps) = if claims s a p.accounts then some p else claimant s a ps

abbrev pub or_else {ℓ} : {A : Type ℓ} → Option A → Option A → Option A
or_else (some x) y = some x
or_else none y = y

-- Each peer that an account leads to has its id among the registered ones.
abbrev known : Dict Text PeerSpec → Option PeerSpec → Bool
known peers none = true
known peers (some p) = elim (get peers p.id) [ some q ↦ true | none ↦ false ]

abbrev pub IsRegistered : PeerRegistry → Type 0
IsRegistered r = (s a : Text) → known r.peers (find r.by_account s a) ≡ true

pub add_peer-eq :
    (r added : PeerRegistry) (spec : PeerSpec)
    → add_peer r spec ≡ ok added
    → (get r.peers spec.id ≡ none)
      × (add_accounts spec r.by_account spec.accounts ≡ ok added.by_account)
      × (added.peers ≡ put r.peers spec.id spec)
unfolding add_peer
add_peer-eq r added spec h = elim (Option-cases (get r.peers spec.id)) [
  | inl e ↦ (e, ground (arith, e, h), ground (arith, e, h))
  | inr (p, e) ↦ ground (arith, e, h)
]

-- An id that is not registered yet can only be free.
unclaimed :
    (peers : Dict Text PeerSpec) (o : Option PeerSpec) (id : Text)
    → get peers id ≡ none
    → known peers o ≡ true
    → free_for id o ≡ true
    → o ≡ none
unclaimed peers none id new k f = refl
unclaimed peers (some p) id new k f =
    let same : p.id ≡ id = (==_iff p.id id).0 f in
    let gone : get peers p.id ≡ none = rw (same) new in ground (arith, k, gone)

orelse_if :
    (b : Bool) (p : PeerSpec) (o : Option PeerSpec)
    → (b ≡ true → o ≡ none)
    → (if b then some p else o) ≡ or_else o (if b then some p else none)
orelse_if true p o h = ground (arith, h refl)
orelse_if false p none h = refl
orelse_if false p (some q) h = refl

add_peer-find :
    (r added : PeerRegistry) (spec : PeerSpec) (s a : Text)
    → IsRegistered r
    → add_peer r spec ≡ ok added
    → find added.by_account s a
      ≡ or_else (find r.by_account s a) (if claims s a spec.accounts then some spec else none)
add_peer-find r added spec s a registered h =
    let (new, accounts, _) = add_peer-eq r added spec h in
    rw (add_accounts-eq spec r.by_account added.by_account spec.accounts s a accounts) (
      orelse_if (claims s a spec.accounts) spec (find r.by_account s a) (λ listed.
        unclaimed r.peers (find r.by_account s a) spec.id new (registered s a)
          (add_accounts-free spec r.by_account added.by_account spec.accounts s a accounts listed)))

known-put :
    (peers : Dict Text PeerSpec) (spec : PeerSpec) (o : Option PeerSpec) (b : Bool)
    → known peers o ≡ true
    → known (put peers spec.id spec) (if b then some spec else o) ≡ true
known-put peers spec o true h = ground (arith, get-put peers spec.id spec spec.id, ==_refl spec.id)
known-put peers spec none false h = refl
known-put peers spec (some p) false h = ground (arith, h, get-put peers spec.id spec p.id)

pub add_peer-IsRegistered :
    (r added : PeerRegistry) (spec : PeerSpec)
    → IsRegistered r
    → add_peer r spec ≡ ok added
    → IsRegistered added
add_peer-IsRegistered r added spec registered h s a =
    let (_, accounts, peers) = add_peer-eq r added spec h in
    rw (peers, add_accounts-eq spec r.by_account added.by_account spec.accounts s a accounts)
      (known-put r.peers spec (find r.by_account s a) (claims s a spec.accounts) (registered s a))

or_else-if :
    (o : Option PeerSpec) (b : Bool) (p : PeerSpec) (q : Option PeerSpec)
    → or_else (or_else o (if b then some p else none)) q ≡ or_else o (if b then some p else q)
or_else-if none true p q = refl
or_else-if none false p q = refl
or_else-if (some x) b p q = refl

pub add_peers-find :
    (r built : PeerRegistry) (specs : List PeerSpec) (s a : Text)
    → IsRegistered r
    → add_peers r specs ≡ ok built
    → find built.by_account s a ≡ or_else (find r.by_account s a) (claimant s a specs)
unfolding add_peers
add_peers-find r built [] s a registered h = elim (Option-cases (find r.by_account s a)) [
  | inl e ↦ ground (arith, e, h)
  | inr (p, e) ↦ ground (arith, e, h)
]
add_peers-find r built (p ∷ ps) s a registered h =
    let (middle, first, rest) = >>=-eq-ok (add_peer r p) (λ added. add_peers added ps) h in
    rw
      (
        add_peers-find middle built ps s a (add_peer-IsRegistered r middle p registered first) rest,
        add_peer-find r middle p s a registered first,
      )
      (or_else-if (find r.by_account s a) (claims s a p.accounts) p (claimant s a ps))

abbrev pub empty : PeerRegistry
empty = record { peers = []; by_account = [] }

pub empty-IsRegistered : IsRegistered empty
unfolding get
empty-IsRegistered s a = refl

-- Where a registry could be built of some specs, an account leads to the first spec that lists
-- it, and to none when no spec does; an actor of that service and account to the same.
pub lookup_account-build :
    (specs : List PeerSpec) (r : PeerRegistry) (actor : ActorIdentity)
    → build specs ≡ ok r
    → (lookup_account r actor.service actor.account_id
        ≡ claimant actor.service actor.account_id specs)
      × (lookup_actor r actor ≡ claimant actor.service actor.account_id specs)
unfolding build lookup_account lookup_actor get
lookup_account-build specs r actor h =
    let found = add_peers-find empty r specs actor.service actor.account_id empty-IsRegistered h in
    (found, found)
