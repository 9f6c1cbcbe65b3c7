-- ===== src/Runtime/Address/Book.antt =====
-- AddressBook of src/thorn/runtime/_address.py: the registry of queues by address.
use thorn.Prelude.Dict.{Dict, get, get-put, get-remove, put, remove}
use thorn.Prelude.{arith, if◌then◌else◌, list_eq, nat_eq, none, option_eq, some, ◌==◌, ◌≡◌}
use thorn.Errors.{Result, err, key_error, lookup_error, ok, value_error}
use thorn.Runtime.Address.{Address, address_beq_iff, address_eq}

-- The entries of the book, which holds no other state.
abbrev pub AddressBook {ℓ} : Type ℓ → Type ℓ
AddressBook Q = Dict Address Q

module _ {ℓ} {Q : Type ℓ} where
  unfoldable pub register : AddressBook Q → Address → Q → Result (AddressBook Q)
  register book address queue = elim (get book address) [
    | some old ↦ err value_error
    | none ↦ ok (put book address queue)
  ]

  unfoldable pub unregister : AddressBook Q → Address → Result (AddressBook Q)
  unregister book address = elim (get book address) [
    | some old ↦ ok (remove book address)
    | none ↦ err key_error
  ]

  unfoldable pub resolve : AddressBook Q → Address → Result Q
  resolve book address = elim (get book address) [ some q ↦ ok q | none ↦ err lookup_error ]

  -- Where an address is registered and then unregistered: it was not bound before; after the
  -- first step it resolves to its queue, cannot be registered again, and all else resolves as
  -- before; after the second every address resolves as at the start.
  pub resolve-register :
      (start bound freed : AddressBook Q) (a b : Address) (q r : Q)
      → register start a q ≡ ok bound
      → unregister bound a ≡ ok freed
      → (resolve start a ≡ err lookup_error)
        × (resolve bound b ≡ (if a == b then ok q else resolve start b))
        × (register bound a r ≡ err value_error)
        × (resolve freed b ≡ resolve start b)
  unfolding register unregister resolve
  resolve-register start bound freed a b q r h u = (
    ground arith,
    ground (arith, get-put start a q b),
    ground (arith, get-put start a q a, address_beq_iff a a),
    ground (
      arith,
      get-put start a q a,
      get-put start a q b,
      get-remove (put start a q) a b,
      address_beq_iff a a,
      address_beq_iff a b,
    ),
  )
