-- ===== src/Gateway/Peer/Accounts.antt =====
-- The index of accounts of src/thorn/gateway/_peer.py: what one spec adds to it.
use thorn.Prelude.Dict.{Dict, get, get-put, put}
use thorn.Prelude.{
  ==_iff, Bool, Bool-cases, List, Option, Text, [], any, arith, false, if◌then◌else◌, inl, inr,
  list_eq, nat_eq, none, option_eq, refl, some, sym, true, ◌&&◌, ◌==◌, ◌∷◌, ◌≡◌,
}
use thorn.Errors.{>>=-eq-ok, ok}
use thorn.Gateway.Peer.{
  Index, PeerAccount, PeerSpec, add_account, add_accounts, bucket_of, find, find_in, or_empty,
}

-- The spec lists the account.
abbrev pub claims : Text → Text → List PeerAccount → Bool
claims service account accounts =
    any (λ a. (a.service == service) && (a.account_id == account)) accounts

find_in-or_empty : (o : Option (Dict Text PeerSpec)) (a : Text) → find_in o a ≡ get (or_empty o) a
unfolding get
find_in-or_empty none a = refl
find_in-or_empty (some bucket) a = refl

find_in-put :
    (b : Bool) (bucket : Dict Text PeerSpec) (o : Option (Dict Text PeerSpec)) (a : Text)
    → find_in (if b then some bucket else o) a ≡ (if b then get bucket a else find_in o a)
find_in-put true bucket o a = refl
find_in-put false bucket o a = refl

pub find-put :
    (index : Index) (service account : Text) (spec : PeerSpec) (s a : Text)
    → find (put index service (put (bucket_of index service) account spec)) s a
      ≡ (if (service == s) && (account == a) then some spec else find index s a)
find-put index service account spec s a =
    rw
      (
        get-put index service (put (bucket_of index service) account spec) s,
        find_in-put (service == s) (put (bucket_of index service) account spec) (get index s) a,
        find_in-or_empty (get index s) a,
        get-put (bucket_of index service) account spec a,
      )
      (ground (arith, ==_iff service s))

add_account-eq :
    (spec : PeerSpec) (index added : Index) (account : PeerAccount) (s a : Text)
    → add_account spec index account ≡ ok added
    → find added s a
      ≡ (if (account.service == s) && (account.account_id == a) then some spec else find index s a)
unfolding add_account
add_account-eq spec index added account s a h =
    ground (arith, find-put index account.service account.account_id spec s a)

-- No peer of another id is found.
abbrev pub free_for : Text → Option PeerSpec → Bool
free_for id none = true
free_for id (some p) = p.id == id

add_account-free :
    (spec : PeerSpec) (index added : Index) (account : PeerAccount)
    → add_account spec index account ≡ ok added
    → free_for spec.id (find index account.service account.account_id) ≡ true
unfolding add_account
add_account-free spec index added account h =
    ground (arith, find_in-or_empty (get index account.service) account.account_id)

-- After the accounts of a spec are in, its accounts lead to it, the others as before; and the
-- accounts that it lists led to no peer of another id.
pub add_accounts-eq :
    (spec : PeerSpec) (index added : Index) (accounts : List PeerAccount) (s a : Text)
    → add_accounts spec index accounts ≡ ok added
    → find added s a ≡ (if claims s a accounts then some spec else find index s a)
unfolding add_accounts
add_accounts-eq spec index added [] s a h = ground arith
add_accounts-eq spec index added (c ∷ cs) s a h =
    let (middle, first, rest) =
      >>=-eq-ok (add_account spec index c) (λ added. add_accounts spec added cs) h in
    ground (
      arith,
      add_account-eq spec index middle c s a first,
      add_accounts-eq spec middle added cs s a rest,
    )

pub add_accounts-free :
    (spec : PeerSpec) (index added : Index) (accounts : List PeerAccount) (s a : Text)
    → add_accounts spec index accounts ≡ ok added
    → claims s a accounts ≡ true
    → free_for spec.id (find index s a) ≡ true
unfolding add_accounts
add_accounts-free spec index added [] s a h listed = ground arith
add_accounts-free spec index added (c ∷ cs) s a h listed =
    let (middle, first, rest) =
      >>=-eq-ok (add_account spec index c) (λ added. add_accounts spec added cs) h in
    elim (Bool-cases ((c.service == s) && (c.account_id == a))) [
      | inl e ↦
          (let same_service = (==_iff c.service s).0 (ground (arith, e)) in
            let same_account = (==_iff c.account_id a).0 (ground (arith, e)) in
            rw (sym same_service, sym same_account) (add_account-free spec index middle c first))
      | inr e ↦
          (let same : find middle s a ≡ find index s a =
              ground (arith, e, add_account-eq spec index middle c s a first) in
            rw (sym same)
              (add_accounts-free spec middle added cs s a rest (ground (arith, e, listed))))
    ]
