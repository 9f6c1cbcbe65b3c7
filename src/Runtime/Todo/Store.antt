-- ===== src/Runtime/Todo/Store.antt =====
-- SessionTodoList of src/thorn/runtime/_todo.py. The file is what yaml.safe_load reads from its front
-- matter; the rendered body and the temporary file are left out. The clock and secrets.token_urlsafe
-- are arguments.
use thorn.Prelude.Json.{
  Fields, Items, Json, array, field, item, lookup, no_field, no_item, number, object,
}
use thorn.Prelude.{
  Bool, List, Option, Text, [], any, bool_eq, codes, if◌then◌else◌, list_eq, nat_eq, none,
  option_eq, pair_eq, some, ℕ, ◌++◌, ◌==◌, ◌∷◌,
}
use thorn.Errors.{Error, Result, err, key_error, ok, value_error, ◌>>=◌}
use thorn.Runtime.Todo.Item.{
  TodoItem, TodoStatus, abandoned, completed, create_item, from_data, resolve_item, to_data,
  with_updates,
}

-- No file, a text without a mapping as front matter, or a mapping.
pub data TodoFile : Type 0 where
  absent : TodoFile
  -- what reading the front matter raises: ValueError, or yaml.YAMLError, which is none
  malformed : Error → TodoFile
  front_matter : Fields → TodoFile

module _ (fromisoformat : Text → Result ℕ) (to_str : Json → Text) where
  -- What is no mapping raises TypeError; every error of an item becomes ValueError.
  unfoldable pub load_item : Json → Result TodoItem
  load_item (object given) = elim (from_data fromisoformat to_str given) [
    | ok i ↦ ok i
    | err e ↦ err value_error
  ]
  load_item _ = err value_error

  unfoldable pub load_each : Items → Result (List TodoItem)
  load_each no_item = ok []
  load_each (item v rest) = load_item v >>= λ i. load_each rest >>= λ is. ok (i ∷ is)

  -- `data.get("items") or ()` is a list only if it is one that is not empty.
  unfoldable pub load_raw : Option Json → Result (List TodoItem)
  load_raw (some (array (item v rest))) = load_each (item v rest)
  load_raw _ = err value_error

  -- _load_items
  unfoldable pub load_items : TodoFile → Result (List TodoItem)
  load_items absent = ok []
  load_items (malformed raised) = err raised
  load_items (front_matter given) = load_raw (lookup given (codes "items"))

-- _index_for, and the item there
unfoldable pub find_item : List TodoItem → Text → Result TodoItem
find_item [] todo_id = err key_error
find_item (i ∷ rest) todo_id = if i.id == todo_id then ok i else find_item rest todo_id

-- items[index] = updated
unfoldable pub replace_item : List TodoItem → Text → TodoItem → List TodoItem
replace_item [] todo_id updated = []
replace_item (i ∷ rest) todo_id updated =
    if i.id == todo_id then updated ∷ rest else i ∷ replace_item rest todo_id updated

unfoldable pub has_id : List TodoItem → Text → Bool
has_id items todo_id = any (λ i. i.id == todo_id) items

-- _generate_todo_id: the first candidate that is not taken, of those that the loop draws; none where
-- every one of them is taken, and the source draws on.
unfoldable pub generate_todo_id : List TodoItem → List Text → Option Text
generate_todo_id items [] = none
generate_todo_id items (candidate ∷ later) =
    let rest = generate_todo_id items later in
    if has_id items candidate then rest else some candidate

-- The item with an identifier changed: what it becomes, and the list.
unfoldable pub changed_by :
    List TodoItem → Text → (TodoItem → Result TodoItem) → Result (TodoItem × List TodoItem)
changed_by items todo_id change = find_item items todo_id >>= λ i.
    change i >>= λ updated. ok (updated, replace_item items todo_id updated)

-- The item that a method returns, and the file it leaves; an error leaves the file as it was.
abbrev pub Outcome : Type 0
Outcome = Result TodoItem × TodoFile

module _ (isoformat : ℕ → Text) (fromisoformat : Text → Result ℕ) (to_str : Json → Text) where
  unfoldable pub stored : List TodoItem → Items
  stored [] = no_item
  stored (i ∷ rest) = item (object (to_data isoformat i)) (stored rest)

  -- _write_items
  unfoldable pub write_items : List TodoItem → TodoFile
  write_items items =
      front_matter
        (field (codes "version") (number 1) (field (codes "items") (array (stored items)) no_field))

  abbrev pub written : TodoFile → Result (TodoItem × List TodoItem) → Outcome
  written f (ok (i, items)) = (ok i, write_items items)
  written f (err e) = (err e, f)

  -- The method on the list, and the changed list.
  unfoldable pub created :
      List TodoItem
      → Option Text
      → Text
      → Option Text
      → Option Text
      → ℕ
      → Result (TodoItem × List TodoItem)
  created items none title linked notes now = err value_error
  created items (some id) title linked notes now =
      create_item id title linked notes now >>= λ i. ok (i, items ++ (i ∷ []))

  -- drawn: the identifiers that token_urlsafe gives, one after another.
  unfoldable pub create : TodoFile → List Text → Text → Option Text → Option Text → ℕ → Outcome
  create f drawn title linked notes now = written f (
      load_items fromisoformat to_str f >>= λ items.
      created items (generate_todo_id items drawn) title linked notes now)

  unfoldable pub update :
      TodoFile → Text → Option Text → Option Text → Option (List Text) → ℕ → Outcome
  update f todo_id title notes linked now = written f (
      load_items fromisoformat to_str f >>= λ items.
      changed_by items todo_id (λ i. with_updates i title notes linked now))

  -- _resolve
  unfoldable pub resolve : TodoFile → Text → TodoStatus → Text → ℕ → Outcome
  resolve f todo_id status rationale now = written f (
      load_items fromisoformat to_str f >>= λ items.
      changed_by items todo_id (λ i. resolve_item i status rationale now))

  unfoldable pub complete : TodoFile → Text → Text → ℕ → Outcome
  complete f todo_id rationale now = resolve f todo_id completed rationale now

  unfoldable pub abandon : TodoFile → Text → Text → ℕ → Outcome
  abandon f todo_id rationale now = resolve f todo_id abandoned rationale now
