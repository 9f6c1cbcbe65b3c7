-- ===== src/Gateway/Peer/Owner.antt =====
-- Whom a built registry of src/thorn/gateway/_peer.py takes for the owner of an account.
use mathlib.Core.Path.{subst}
use thorn.Prelude.Dict.{get, get-put}
use thorn.Prelude.{
  ==_iff, ==_refl, Bool-cases, List, Text, [], arith, bool_eq, if◌then◌else◌, inl, inr, list_eq,
  nat_eq, option_eq, pair_eq, refl, some, true, ◌++◌, ◌∷◌, ◌≡◌,
}
use thorn.Errors.{>>=-eq-ok, ok}
use thorn.Gateway.Peer.{
  PeerRegistry, PeerSpec, add_peer, add_peers, build, find, get_peer, lookup_account,
}
use thorn.Gateway.Peer.Accounts.{add_accounts-eq, claims}
use thorn.Gateway.Peer.Lookup.{
  IsRegistered, add_peer-IsRegistered, add_peer-eq, add_peers-find, empty, empty-IsRegistered,
}

add_peers-append :
    (r built : PeerRegistry) (xs ys : List PeerSpec)
    → add_peers r (xs ++ ys) ≡ ok built
    → (m : PeerRegistry) × (add_peers r xs ≡ ok m) × (add_peers m ys ≡ ok built)
unfolding add_peers
add_peers-append r built [] ys h = (r, refl, h)
add_peers-append r built (x ∷ xs) ys h =
    let (middle, first, rest) = >>=-eq-ok (add_peer r x) (λ added. add_peers added (xs ++ ys)) h in
    let (m, xs_eq, ys_eq) = add_peers-append middle built xs ys rest in (m, rw (first) xs_eq, ys_eq)

ok-eq {ℓ} : {A : Type ℓ} (x y : A) → ok x ≡ ok y → x ≡ y
ok-eq x y h = cc

add_peers-IsRegistered :
    (r built : PeerRegistry) (specs : List PeerSpec)
    → IsRegistered r
    → add_peers r specs ≡ ok built
    → IsRegistered built
unfolding add_peers
add_peers-IsRegistered r built [] registered h = subst IsRegistered (ok-eq r built h) registered
add_peers-IsRegistered r built (p ∷ ps) registered h =
    let (middle, first, rest) = >>=-eq-ok (add_peer r p) (λ added. add_peers added ps) h in
    add_peers-IsRegistered middle built ps (add_peer-IsRegistered r middle p registered first) rest

add_peers-keeps :
    (r built : PeerRegistry) (specs : List PeerSpec) (id : Text) (p : PeerSpec)
    → add_peers r specs ≡ ok built
    → get r.peers id ≡ some p
    → get built.peers id ≡ some p
unfolding add_peers
add_peers-keeps r built [] id p h found = ground (arith, h, found)
add_peers-keeps r built (q ∷ qs) id p h found =
    let (middle, first, rest) = >>=-eq-ok (add_peer r q) (λ added. add_peers added qs) h in
    let (new, _, peers) = add_peer-eq r middle q first in
    add_peers-keeps middle built qs id p rest
      (rw (peers) (ground (arith, found, new, get-put r.peers q.id q id, ==_iff q.id id)))

add_peers-owner :
    (start r : PeerRegistry) (p : PeerSpec) (after : List PeerSpec) (s a : Text)
    → IsRegistered start
    → add_peers start (p ∷ after) ≡ ok r
    → claims s a p.accounts ≡ true
    → find r.by_account s a ≡ some p
unfolding add_peers
add_peers-owner start r p after s a registered h listed =
    let (middle, one, rest) = >>=-eq-ok (add_peer start p) (λ added. add_peers added after) h in
    let (new, accounts, peers) = add_peer-eq start middle p one in
    let held : find middle.by_account s a ≡ some p = ground (
      arith,
      listed,
      add_accounts-eq p start.by_account middle.by_account p.accounts s a accounts,
    ) in
    ground (
      arith,
      held,
      add_peers-find middle r after s a (add_peer-IsRegistered start middle p registered one) rest,
    )

add_peers-get :
    (start r : PeerRegistry) (p : PeerSpec) (after : List PeerSpec)
    → add_peers start (p ∷ after) ≡ ok r
    → get r.peers p.id ≡ some p
unfolding add_peers
add_peers-get start r p after h =
    let (middle, one, rest) = >>=-eq-ok (add_peer start p) (λ added. add_peers added after) h in
    let (new, accounts, peers) = add_peer-eq start middle p one in
    add_peers-keeps middle r after p.id p rest
      (rw (peers) (ground (arith, get-put start.peers p.id p p.id, ==_refl p.id)))

-- Where a registry could be built of some specs, each of them is found under its id, whether or not
-- it lists accounts, and under each of the accounts that it lists: so neither an id nor an account
-- belongs to two different specs.
pub build-owner :
    (before after : List PeerSpec) (p : PeerSpec) (r : PeerRegistry) (s a : Text)
    → build (before ++ p ∷ after) ≡ ok r
    → (get_peer r p.id ≡ some p)
      × (lookup_account r s a ≡ (if claims s a p.accounts then some p else lookup_account r s a))
unfolding build get_peer lookup_account
build-owner before after p r s a h =
    let (start, first, later) = add_peers-append empty r before (p ∷ after) h in
    (
      add_peers-get start r p after later,
      elim (Bool-cases (claims s a p.accounts)) [
        | inl listed ↦ rw (listed) (
            add_peers-owner start r p after s a
              (add_peers-IsRegistered empty start before empty-IsRegistered first) later listed)
        | inr other ↦ rw (other) refl
      ],
    )
