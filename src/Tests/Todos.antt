-- ===== src/Tests/Todos.antt =====
-- TODO lists of src/thorn/runtime/_todo.py at samples.
use thorn.Prelude.Json.{Json, lookup}
use thorn.Prelude.{
  List, Text, [], all, bool_eq, codes, is_empty, is_space, leb, length, list_beq, list_eq, lstrip,
  map, nat_eq, none, option_eq, pair_eq, refl, rstrip, some, strip, true, ℕ, ◌∷◌, ◌≡◌,
}
use thorn.Errors.{Result, err, ok, value_error}
use thorn.Runtime.Todo.Item.{
  TodoItem, cleaned_text, completed, from_data, is_resolved, linked_of, optional_of, required,
  required_text, resolve_item, status_of_value, str_items, text_items, to_data, unresolved,
}
use thorn.Runtime.Todo.Store.{
  TodoFile, changed_by, find_item, load_each, load_item, load_items, load_raw, replace_item,
  resolve, stored, write_items,
}
use thorn.Runtime.Todo.Stored.{from_data-to_data, resolve-stored, valid}
use thorn.Runtime.Todo.Links.{
  linked_summary_by_inbox_item, occurrences, summary-unresolved, summary_at, unresolved_linked_to,
}

-- A time as the text of one character.
abbrev shown : ℕ → Text
shown t = t ∷ []

abbrev read_time : Text → Result ℕ
read_time [] = err value_error
read_time (t ∷ rest) = ok t

abbrev to_str : Json → Text
to_str v = []

abbrev review : TodoItem
review = record {
  id = codes "todo-1";
  title = codes "Review";
  status = unresolved;
  linked_inbox_item_ids = codes "01J" ∷ [];
  notes = some (codes "both files");
  resolution_rationale = none;
  created_at = 5;
  updated_at = 5;
}

review-valid : valid review ≡ true
unfolding valid strip lstrip rstrip is_space is_empty list_beq
review-valid = refl

from_data-to_data_example : from_data read_time to_str (to_data shown review) ≡ ok review
from_data-to_data_example = from_data-to_data shown read_time to_str review refl refl review-valid

abbrev start : TodoFile
start = write_items shown read_time to_str (review ∷ [])

start_loads : load_items read_time to_str start ≡ ok (review ∷ [])
unfolding load_items write_items load_raw load_each load_item stored lookup from_data to_data
    required linked_of str_items text_items optional_of cleaned_text required_text status_of_value
    strip lstrip rstrip is_space is_empty list_beq
start_loads = refl

abbrev reviewed : TodoItem
reviewed = record review {
  status = completed;
  resolution_rationale = some (codes "done");
  updated_at = 6;
}

abbrev finish : TodoFile
finish = write_items shown read_time to_str (reviewed ∷ [])

finishes :
    resolve shown read_time to_str start (codes "todo-1") completed (codes " done ") 6
    ≡ (ok reviewed, finish)
unfolding resolve changed_by find_item replace_item resolve_item is_resolved load_items write_items
    load_raw load_each load_item stored lookup from_data to_data required linked_of str_items
    text_items optional_of cleaned_text required_text status_of_value strip lstrip rstrip is_space
    is_empty list_beq
finishes = refl

resolve-stored_example :
    (load_items read_time to_str finish ≡ ok (replace_item (review ∷ []) (codes "todo-1") reviewed))
    × (reviewed.status ≡ completed)
    × (is_resolved completed ≡ true)
resolve-stored_example =
    resolve-stored shown read_time to_str (λ t. refl) start finish (review ∷ []) (codes "todo-1")
      completed (codes " done ") 6 reviewed start_loads all_valid finishes
  where
    all_valid : all valid (review ∷ []) ≡ true
    all_valid = rw (review-valid) refl

abbrev todos : List TodoItem
todos = review ∷ reviewed ∷ record review { id = codes "todo-3" } ∷ []

linked_once_each : all (λ i. leb (occurrences (codes "01J") i.linked_inbox_item_ids) 1) todos ≡ true
unfolding occurrences list_beq
linked_once_each = refl

summary-unresolved_example :
    ((summary_at (linked_summary_by_inbox_item todos) (codes "01J")).open_count
      ≡ length (unresolved_linked_to todos (codes "01J")))
    × ((summary_at (linked_summary_by_inbox_item todos) (codes "01J")).open_titles
        ≡ map (λ i. i.title) (unresolved_linked_to todos (codes "01J")))
summary-unresolved_example = summary-unresolved todos (codes "01J") linked_once_each
