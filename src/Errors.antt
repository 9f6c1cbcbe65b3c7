-- ===== src/Errors.antt =====
-- Python's exceptions as values: the classes that the modelled code raises or catches
-- (src/thorn/runtime/_dispatch.py declares DispatchError; the others are Python's own).
use thorn.Prelude.{bool_eq, list_eq, nat_eq, option_eq, pair_eq, refl, ◌≡◌}

pub data Error : Type 0 where
  value_error key_error lookup_error type_error runtime_error permission_error : Error
  os_error index_error attribute_error dispatch_error handler_error yaml_error : Error

pub data Result {ℓ} (V : Type ℓ) : Type ℓ where
  ok : (value : V) → Result V
  err : (error : Error) → Result V

infixl 5 ◌>>=◌
abbrev pub ◌>>=◌ {ℓ κ} : {V : Type ℓ} {W : Type κ} → Result V → (V → Result W) → Result W
ok v >>= next = next v
err raised >>= next = err raised

-- A chain that succeeds has succeeded in its first part.
pub >>=-eq-ok {ℓ κ} :
    {V : Type ℓ} {W : Type κ} (first : Result V) (next : V → Result W) {w : W}
    → (first >>= next) ≡ ok w
    → (v : V) × (first ≡ ok v) × (next v ≡ ok w)
>>=-eq-ok (ok v) next success = (v, refl, success)
>>=-eq-ok (err raised) next success = cc

-- The same, where another monad's operator is in scope.
abbrev pub bind {ℓ κ} : {V : Type ℓ} {W : Type κ} → Result V → (V → Result W) → Result W
bind first next = first >>= next
