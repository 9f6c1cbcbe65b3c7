-- ===== src/Runtime/Address/RoundTrip.antt =====
-- Printing and parsing addresses.
use thorn.Prelude.{
  Bool-cases, Option-cases, Text, [], arith, codes, contains, false, inl, inr, is_empty, list_beq,
  list_beq_iff, list_eq, nat_beq_iff, nat_eq, option_eq, some, ℕ, ◌++◌, ◌==◌, ◌∷◌, ◌≡◌,
}
use thorn.Errors.{ok}
use thorn.Runtime.Address.{
  Address, IsConstructed, address_eq, colon, parse, parse_kind, parse_session, partition, service,
  service_address, session, session_address, slash, to_str,
}

-- A separator-free head is cut off.
pub partition-append :
    (c : ℕ) (h r : Text) → contains c h ≡ false → partition c (h ++ (c ∷ r)) ≡ some (h, r)
unfolding partition contains
partition-append c [] r e = ground (arith, nat_beq_iff c c)
partition-append c (x ∷ h) r e = ground (arith, partition-append c h r)

-- What is cut is the text, and its head has no separator.
pub partition-eq-some :
    (c : ℕ) (t h r : Text)
    → partition c t ≡ some (h, r)
    → (t ≡ h ++ (c ∷ r)) × (contains c h ≡ false)
unfolding partition contains
partition-eq-some c [] h r e = ground arith
partition-eq-some c (x ∷ t) h r e = elim (Bool-cases (x == c)) [
  | inl same ↦ ground (arith, nat_beq_iff x c)
  | inr other ↦ elim (Option-cases (partition c t)) [
    | inl missing ↦ ground arith
    | inr (found, eq) ↦ ground (arith, partition-eq-some c t found.0 found.1)
  ]
]

constructed_session :
    (a k : Text)
    → session_address a k ≡ ok (session a k)
    → (contains slash a ≡ false) × (is_empty k ≡ false)
unfolding session_address
constructed_session a k h = ground arith

parse_session_lem :
    (a k : Text)
    → session_address a k ≡ ok (session a k)
    → is_empty a ≡ false
    → parse_session (a ++ (slash ∷ k)) ≡ ok (session a k)
unfolding parse_session
parse_session_lem a k h e =
    let c = constructed_session a k h in
    rw (partition-append slash a k c.0, parse_session) (ground arith)

-- Only a session address whose agent id is empty does not print to a parsable text.
abbrev pub HasAgent : Address → Type 0
HasAgent (session a k) = is_empty a ≡ false
HasAgent (service n) = Unit

-- An address that its constructor accepted, with a non-empty agent id if it is a session address,
-- is what its text form parses to.
pub parse-to_str : (x : Address) → IsConstructed x → HasAgent x → parse (to_str x) ≡ ok x
unfolding parse to_str parse_kind list_beq
parse-to_str (session a k) h e = parse_session_lem a k h e
parse-to_str (service n) h e = ground arith

session_address-eq-ok : (a k : Text) (x : Address) → session_address a k ≡ ok x → x ≡ session a k
unfolding session_address
session_address-eq-ok a k x h = ground arith

-- What a parser returned prints to the text that it read.
to_str-parse_session :
    (body : Text) (x : Address) → parse_session body ≡ ok x → to_str x ≡ codes "session:" ++ body
unfolding parse_session to_str
to_str-parse_session body x h = elim (Option-cases (partition slash body)) [
  | inl missing ↦ ground arith
  | inr (cut, eq) ↦
      let split = partition-eq-some slash body cut.0 cut.1 eq in
      let made = session_address-eq-ok cut.0 cut.1 x (ground arith) in rw (made, split.0)
]

to_str-parse_kind :
    (kind body : Text) (x : Address)
    → parse_kind kind body ≡ ok x
    → to_str x ≡ kind ++ (colon ∷ body)
unfolding parse_kind to_str service_address
to_str-parse_kind kind body x h = elim (Bool-cases (kind == codes "session")) [
  | inl is_session ↦
      let e = (list_beq_iff kind (codes "session")).0 is_session in
      rw e (to_str-parse_session body x (ground arith))
  | inr other ↦ elim (Bool-cases (kind == codes "service")) [
    | inl is_service ↦ ground (arith, list_beq_iff kind (codes "service"))
    | inr unknown ↦ ground arith
  ]
]

-- A text that parses is the text form of the address that it parses to.
pub to_str-parse : (text : Text) (x : Address) → parse text ≡ ok x → to_str x ≡ text
unfolding parse
to_str-parse text x h = elim (Option-cases (partition colon text)) [
  | inl missing ↦ ground arith
  | inr (cut, eq) ↦
      let split = partition-eq-some colon text cut.0 cut.1 eq in
      rw split.0 (to_str-parse_kind cut.0 cut.1 x (ground arith))
]
