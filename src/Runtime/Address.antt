-- ===== src/Runtime/Address.antt =====
-- src/thorn/runtime/_address.py: queue addresses, their text form, and the address book.
pub mod RoundTrip
pub mod Book
use thorn.Prelude.{
  ==_iff, Bool, Eq, Option, Text, [], arith, codes, contains, false, if◌then◌else◌, is_empty,
  list_beq_iff, list_eq, nat_eq, none, option_eq, some, true, ℕ, ◌&&◌, ◌++◌, ◌==◌, ◌||◌, ◌↔◌, ◌∷◌,
  ◌≡◌,
}
use thorn.Errors.{Result, err, ok, value_error}

pub data Address : Type 0 where
  session : (agent_id session_key : Text) → Address
  service : (service_name : Text) → Address

-- Dataclass equality: the same class and equal fields.
unfoldable pub address_beq : Address → Address → Bool
address_beq (session a k) (session b l) = (a == b) && (k == l)
address_beq (service a) (service b) = a == b
address_beq _ _ = false

pub address_beq_iff : (x y : Address) → (address_beq x y ≡ true) ↔ (x ≡ y)
unfolding address_beq
address_beq_iff (session a k) (session b l) = ground (arith, list_beq_iff a b, list_beq_iff k l)
address_beq_iff (session a k) (service b) = ground arith
address_beq_iff (service a) (session b l) = ground arith
address_beq_iff (service a) (service b) = ground (arith, list_beq_iff a b)

instance abbrev pub address_eq : Eq Address
address_eq = record { beq = address_beq; beq_iff = address_beq_iff }

abbrev pub slash : ℕ
slash = b'/'

abbrev pub colon : ℕ
colon = b':'

-- SessionAddress(agent_id, session_key): `__post_init__` may raise.
unfoldable pub session_address : Text → Text → Result Address
unfolding contains is_empty
session_address agent_id session_key =
    if contains slash agent_id
    then err value_error
    else if contains colon agent_id
    then err value_error
    else if is_empty session_key
    then err value_error
    else ok (session agent_id session_key)

-- ServiceAddress(service_name)
unfoldable pub service_address : Text → Result Address
unfolding contains is_empty
service_address service_name =
    if is_empty service_name
    then err value_error
    else if contains slash service_name || contains colon service_name
    then err value_error
    else ok (service service_name)

-- str(address)
unfoldable pub to_str : Address → Text
to_str (session agent_id session_key) = codes "session:" ++ (agent_id ++ (slash ∷ session_key))
to_str (service service_name) = codes "service:" ++ service_name

-- text.partition(sep): none where the separator is not found
unfoldable pub partition : ℕ → Text → Option (Text × Text)
partition sep [] = none
partition sep (c ∷ t) =
    let rest = partition sep t in
    if c == sep
    then some ([], t)
    else elim rest [ none ↦ none | some (before, after) ↦ some (c ∷ before, after) ]

unfoldable pub parse_session : Text → Result Address
unfolding partition session_address
parse_session body = elim (partition slash body) [
  | none ↦ err value_error
  | some (agent_raw, key_raw) ↦
      if is_empty agent_raw || is_empty key_raw
      then err value_error
      else session_address agent_raw key_raw
]

unfoldable pub parse_kind : Text → Text → Result Address
unfolding parse_session service_address
parse_kind kind body =
    if kind == codes "session"
    then parse_session body
    else if kind == codes "service"
    then (if is_empty body then err value_error else service_address body)
    else err value_error

-- Address.parse(text)
unfoldable pub parse : Text → Result Address
unfolding parse_kind
parse text = elim (partition colon text) [
  | none ↦ err value_error
  | some (kind, body) ↦ parse_kind kind body
]

-- The address came out of its class's constructor.
abbrev pub IsConstructed : Address → Type 0
IsConstructed (session a k) = session_address a k ≡ ok (session a k)
IsConstructed (service n) = service_address n ≡ ok (service n)
