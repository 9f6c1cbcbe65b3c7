-- ===== src/Prelude/Json.antt =====
-- What json.loads gives: a value; an object as a dict in the order of its keys. A number that is no
-- natural number keeps its text.
use Prim.Native.Nat.{ℕ}
use mathlib.Core.Bool.{Bool}
use mathlib.Core.Option.{Option, none, some}
use thorn.Prelude.Chars.{Text}
use thorn.Prelude.Tests.{if◌then◌else◌, list_eq, nat_eq, option_eq, ◌==◌}

mutual
  pub data Json : Type 0 where
    null : Json
    boolean : Bool → Json
    number : ℕ → Json
    other_number : Text → Json
    text : Text → Json
    array : Items → Json
    object : Fields → Json

  pub data Items : Type 0 where
    no_item : Items
    item : Json → Items → Items

  pub data Fields : Type 0 where
    no_field : Fields
    field : Text → Json → Fields → Fields

-- data.get(key), None where there is no entry and JSON's null otherwise the same as Python's None
unfoldable pub lookup : Fields → Text → Option Json
lookup no_field key = none
lookup (field k v rest) key = if k == key then some v else lookup rest key
