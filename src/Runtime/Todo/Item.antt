-- ===== src/Runtime/Todo/Item.antt =====
-- TodoItem of src/thorn/runtime/_todo.py and its data. A time is a number; datetime.isoformat and
-- fromisoformat, and str of what is no text, are parameters.
use thorn.Prelude.Json.{
  Fields, Items, Json, array, boolean, field, item, lookup, no_field, no_item, null, number, object,
  other_number, text,
}
use thorn.Prelude.{
  Bool, List, Option, Text, [], bool_eq, codes, false, if◌then◌else◌, is_empty, list_beq, list_eq,
  map, nat_eq, none, not, option_eq, pair_eq, some, strip, suc, true, zero, ℕ, ◌==◌, ◌∷◌,
}
use thorn.Errors.{Result, err, key_error, ok, type_error, value_error, ◌>>=◌}

pub data TodoStatus : Type 0 where
  unresolved completed abandoned : TodoStatus

unfoldable pub is_resolved : TodoStatus → Bool
is_resolved unresolved = false
is_resolved completed = true
is_resolved abandoned = true

abbrev pub status_value : TodoStatus → Text
status_value unresolved = codes "open"
status_value completed = codes "completed"
status_value abandoned = codes "abandoned"

-- TodoStatus(value)
unfoldable pub status_of_value : Text → Result TodoStatus
unfolding list_beq
status_of_value value =
    if value == codes "open"
    then ok unresolved
    else if value == codes "completed"
    then ok completed
    else if value == codes "abandoned"
    then ok abandoned
    else err value_error

pub record TodoItem : Type 0 where
  pub id : Text
  pub title : Text
  pub status : TodoStatus
  pub linked_inbox_item_ids : List Text
  pub notes : Option Text
  pub resolution_rationale : Option Text
  pub created_at : ℕ
  pub updated_at : ℕ

unfoldable pub required_text : Text → Result Text
required_text value =
    let cleaned = strip value in if is_empty cleaned then err value_error else ok cleaned

-- _optional_text of a text
unfoldable pub cleaned_text : Text → Option Text
cleaned_text value = let cleaned = strip value in if is_empty cleaned then none else some cleaned

unfoldable pub optional_text : Option Text → Option Text
optional_text none = none
optional_text (some value) = cleaned_text value

-- TodoItem.create
unfoldable pub create_item : Text → Text → Option Text → Option Text → ℕ → Result TodoItem
create_item id title linked notes now = required_text title >>= λ cleaned. ok (record {
  id = id;
  title = cleaned;
  status = unresolved;
  linked_inbox_item_ids = elim linked [ none ↦ [] | some n ↦ n ∷ [] ];
  notes = optional_text notes;
  resolution_rationale = none;
  created_at = now;
  updated_at = now;
})

-- TodoItem.with_updates: the title last, since it alone may raise.
unfoldable pub with_updates :
    TodoItem → Option Text → Option Text → Option (List Text) → ℕ → Result TodoItem
with_updates i title notes linked now =
    (elim title [ none ↦ ok i.title | some t ↦ required_text t ]) >>= λ cleaned. ok (record i {
      title = cleaned;
      notes = elim notes [ none ↦ i.notes | some n ↦ cleaned_text n ];
      linked_inbox_item_ids = elim linked [ none ↦ i.linked_inbox_item_ids | some ids ↦ ids ];
      updated_at = now;
    })

-- TodoItem.resolve
unfoldable pub resolve_item : TodoItem → TodoStatus → Text → ℕ → Result TodoItem
resolve_item i status rationale now =
    if not (is_resolved status)
    then err value_error
    else (required_text rationale >>= λ cleaned.
        ok (record i { status = status; resolution_rationale = some cleaned; updated_at = now }))

-- A text or null
abbrev pub optional_json : Option Text → Json
optional_json none = null
optional_json (some t) = text t

unfoldable pub text_items : List Text → Items
text_items [] = no_item
text_items (t ∷ ts) = item (text t) (text_items ts)

-- data[key]
unfoldable pub required : Fields → Text → Result Json
required given key = elim (lookup given key) [ none ↦ err key_error | some v ↦ ok v ]

module _ (isoformat : ℕ → Text) where
  unfoldable pub to_data : TodoItem → Fields
  to_data i = field (codes "id") (text i.id) (
      field (codes "title") (text i.title) (
        field (codes "status") (text (status_value i.status)) (
          field (codes "linked_inbox_item_ids") (array (text_items i.linked_inbox_item_ids)) (
            field (codes "notes") (optional_json i.notes) (
              field (codes "resolution_rationale") (optional_json i.resolution_rationale) (
                field (codes "created_at") (text (isoformat i.created_at))
                  (field (codes "updated_at") (text (isoformat i.updated_at)) no_field)))))))

module _ (to_str : Json → Text) where
  -- str(value)
  abbrev pub str_of : Json → Text
  str_of (text t) = t
  str_of v = to_str v

  unfoldable pub str_items : Items → List Text
  str_items no_item = []
  str_items (item v rest) = str_of v ∷ str_items rest

  abbrev keys_of : Fields → List Text
  keys_of no_field = []
  keys_of (field k v rest) = k ∷ keys_of rest

  -- The loop over `data.get("linked_inbox_item_ids") or ()`: a text gives its characters.
  unfoldable pub linked_of : Option Json → Result (List Text)
  unfolding str_items
  linked_of none = ok []
  linked_of (some null) = ok []
  linked_of (some (boolean false)) = ok []
  linked_of (some (boolean true)) = err type_error
  linked_of (some (number zero)) = ok []
  linked_of (some (number (suc n))) = err type_error
  linked_of (some (other_number t)) = err type_error
  linked_of (some (text t)) = ok (map (λ c. c ∷ []) t)
  linked_of (some (array items)) = ok (str_items items)
  linked_of (some (object fields)) = ok (keys_of fields)

  -- _optional_text(data.get(key))
  unfoldable pub optional_of : Option Json → Option Text
  optional_of none = none
  optional_of (some null) = none
  optional_of (some v) = cleaned_text (str_of v)

module _ (fromisoformat : Text → Result ℕ) (to_str : Json → Text) where
  -- TodoItem.from_data
  unfoldable pub from_data : Fields → Result TodoItem
  unfolding linked_of
  from_data given = required given (codes "id") >>= λ id.
      required given (codes "title") >>= λ title. required_text (str_of to_str title) >>= λ cleaned.
      required given (codes "status") >>= λ status.
      status_of_value (str_of to_str status) >>= λ lifecycle.
      linked_of to_str (lookup given (codes "linked_inbox_item_ids")) >>= λ linked.
      required given (codes "created_at") >>= λ created.
      fromisoformat (str_of to_str created) >>= λ created_at.
      required given (codes "updated_at") >>= λ updated.
      fromisoformat (str_of to_str updated) >>= λ updated_at. ok (record {
        id = str_of to_str id;
        title = cleaned;
        status = lifecycle;
        linked_inbox_item_ids = linked;
        notes = optional_of to_str (lookup given (codes "notes"));
        resolution_rationale = optional_of to_str (lookup given (codes "resolution_rationale"));
        created_at = created_at;
        updated_at = updated_at;
      })
