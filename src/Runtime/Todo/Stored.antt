-- ===== src/Runtime/Todo/Stored.antt =====
-- What src/thorn/runtime/_todo.py writes and reads back.
use thorn.Prelude.Json.{Json, lookup}
use thorn.Prelude.Strip.{strip-strip}
use thorn.Prelude.{
  ==_iff, ==_refl, Bool, Bool-cases, List, Option, Text, [], all, ap, arith, bool_eq, false, inl,
  inr, is_empty, list_beq, list_eq, nat_eq, none, not, option_eq, pair_eq, refl, some, strip, sym,
  true, ℕ, ◌&&◌, ◌==◌, ◌∙◌, ◌∷◌, ◌≡◌,
}
use thorn.Errors.{>>=-eq-ok, Result, err, ok, value_error, ◌>>=◌}
use thorn.Runtime.Todo.Item.{
  TodoItem, TodoStatus, abandoned, cleaned_text, completed, from_data, is_resolved, linked_of,
  optional_json, optional_of, required, required_text, resolve_item, status_of_value, status_value,
  str_items, text_items, to_data, unresolved,
}
use thorn.Runtime.Todo.Store.{
  TodoFile, changed_by, created, find_item, load_each, load_item, load_items, load_raw,
  replace_item, resolve, stored, write_items, written,
}

-- A text that strip leaves as it is, and is not empty.
abbrev clean : Text → Bool
clean t = (strip t == t) && not (is_empty t)

abbrev clean_or_none : Option Text → Bool
clean_or_none none = true
clean_or_none (some t) = clean t

unfoldable pub valid : TodoItem → Bool
valid i = clean i.title && clean_or_none i.notes && clean_or_none i.resolution_rationale

required_text-clean : (t : Text) → clean t ≡ true → required_text t ≡ ok t
unfolding required_text
required_text-clean t h =
    let same : strip t ≡ t = (==_iff (strip t) t).0 (ground (arith, h)) in
    let full : is_empty t ≡ false = ground (arith, h) in rw (same, full) refl

cleaned_text-clean : (t : Text) → clean t ≡ true → cleaned_text t ≡ some t
unfolding cleaned_text
cleaned_text-clean t h =
    let same : strip t ≡ t = (==_iff (strip t) t).0 (ground (arith, h)) in
    let full : is_empty t ≡ false = ground (arith, h) in rw (same, full) refl

required_text-gives : (t c : Text) → required_text t ≡ ok c → clean c ≡ true
unfolding required_text
required_text-gives t c h = elim (Bool-cases (is_empty (strip t))) [
  | inl nothing ↦ ground (arith, h, nothing)
  | inr full ↦
      (let same : strip t ≡ c = ground (arith, h, full) in
        rw (sym same, strip-strip t, full) (ground (arith, ==_refl (strip t))))
]

cleaned_text-gives : (t : Text) → clean_or_none (cleaned_text t) ≡ true
unfolding cleaned_text
cleaned_text-gives t = elim (Bool-cases (is_empty (strip t))) [
  | inl nothing ↦ rw (nothing) refl
  | inr full ↦ rw (full, strip-strip t, full) (ground (arith, ==_refl (strip t)))
]

status-value : (s : TodoStatus) → status_of_value (status_value s) ≡ ok s
unfolding status_of_value list_beq
status-value unresolved = refl
status-value completed = refl
status-value abandoned = refl

module _ (isoformat : ℕ → Text) (fromisoformat : Text → Result ℕ) (to_str : Json → Text) where
  texts-str : (ts : List Text) → str_items to_str (text_items ts) ≡ ts
  unfolding text_items str_items
  texts-str [] = refl
  texts-str (t ∷ ts) = ap (λ us. t ∷ us) (texts-str ts)

  optional-json :
      (o : Option Text) → clean_or_none o ≡ true → optional_of to_str (some (optional_json o)) ≡ o
  unfolding optional_of
  optional-json none h = refl
  optional-json (some t) h = cleaned_text-clean t h

  -- An item whose texts are stripped and not empty, and whose two times read back from their texts,
  -- reads back from its data as it was written, whatever str makes of what is no text.
  pub from_data-to_data :
      (i : TodoItem)
      → fromisoformat (isoformat i.created_at) ≡ ok i.created_at
      → fromisoformat (isoformat i.updated_at) ≡ ok i.updated_at
      → valid i ≡ true
      → from_data fromisoformat to_str (to_data isoformat i) ≡ ok i
  unfolding from_data to_data lookup required linked_of valid list_beq
  from_data-to_data i created updated h =
      let title : clean i.title ≡ true = ground (arith, h) in
      let notes : clean_or_none i.notes ≡ true = ground (arith, h) in
      let rationale : clean_or_none i.resolution_rationale ≡ true = ground (arith, h) in
      rw
        (
          required_text-clean i.title title,
          status-value i.status,
          texts-str i.linked_inbox_item_ids,
          created,
          updated,
          optional-json i.notes notes,
          optional-json i.resolution_rationale rationale,
        )
        refl

-- What a reader finds where these items were written: an empty list is refused.
abbrev pub read_back : List TodoItem → Result (List TodoItem)
read_back [] = err value_error
read_back (i ∷ is) = ok (i ∷ is)

valid-replace_item :
    (items : List TodoItem) (todo_id : Text) (i : TodoItem)
    → all valid items ≡ true
    → valid i ≡ true
    → all valid (replace_item items todo_id i) ≡ true
unfolding replace_item
valid-replace_item [] todo_id i h new = refl
valid-replace_item (j ∷ rest) todo_id i h new = elim (Bool-cases (j.id == todo_id)) [
  | inl same ↦ rw (same) (ground (arith, h, new))
  | inr other ↦
      rw (other) (ground (arith, h, valid-replace_item rest todo_id i (ground (arith, h)) new))
]

valid-find_item :
    (items : List TodoItem) (todo_id : Text) (i : TodoItem)
    → all valid items ≡ true
    → find_item items todo_id ≡ ok i
    → valid i ≡ true
unfolding find_item
valid-find_item [] todo_id i h found = cc
valid-find_item (j ∷ rest) todo_id i h found = elim (Bool-cases (j.id == todo_id)) [
  | inl same ↦ (let it : j ≡ i = ground (arith, found, same) in rw (sym it) (ground (arith, h)))
  | inr other ↦ valid-find_item rest todo_id i (ground (arith, h)) (ground (arith, found, other))
]

resolved_item :
    (i : TodoItem) (status : TodoStatus) (cleaned : Text) (now : ℕ)
    → valid i ≡ true
    → clean cleaned ≡ true
    → valid (record i { status = status; resolution_rationale = some cleaned; updated_at = now })
      ≡ true
unfolding valid
resolved_item i status cleaned now h new = ground (arith, h, new)

resolve_item-closes :
    (i : TodoItem) (status : TodoStatus) (rationale : Text) (now : ℕ)
    → is_resolved status ≡ true
    → resolve_item i status rationale now ≡ (
        required_text rationale >>= λ cleaned.
        ok (record i { status = status; resolution_rationale = some cleaned; updated_at = now }))
unfolding resolve_item
resolve_item-closes i status rationale now closes = rw (closes) refl

resolve_item-refuses :
    (i : TodoItem) (status : TodoStatus) (rationale : Text) (now : ℕ) (r : TodoItem)
    → is_resolved status ≡ false
    → resolve_item i status rationale now ≡ ok r
    → ⊥
unfolding resolve_item
resolve_item-refuses i status rationale now r stays resolved = ground (arith, resolved, stays)

ok-injective {ℓ} : {A : Type ℓ} (a b : A) → ok a ≡ ok b → a ≡ b
ok-injective a b h = cc

-- What resolving gives is valid, has the status, and that is a resolved one.
resolve_item-valid :
    (i : TodoItem) (status : TodoStatus) (rationale : Text) (now : ℕ) (r : TodoItem)
    → valid i ≡ true
    → resolve_item i status rationale now ≡ ok r
    → (valid r ≡ true) × (r.status ≡ status) × (is_resolved status ≡ true)
resolve_item-valid i status rationale now r h resolved = elim (Bool-cases (is_resolved status)) [
  | inr stays ↦ absurd (resolve_item-refuses i status rationale now r stays resolved)
  | inl closes ↦
      (let next : Text → Result TodoItem = λ cleaned.
          ok
            (record i { status = status; resolution_rationale = some cleaned; updated_at = now }) in
        let (cleaned, given, gives) =
          >>=-eq-ok (required_text rationale) next
            (sym (resolve_item-closes i status rationale now closes) ∙ resolved) in
        let it = ok-injective _ r gives in
        rw (sym it) (
          resolved_item i status cleaned now h (required_text-gives rationale cleaned given),
          refl,
          closes,
        ))
]

changed_by-ok :
    (items : List TodoItem) (todo_id : Text) (change : TodoItem → Result TodoItem) (i : TodoItem)
    (l : List TodoItem)
    → changed_by items todo_id change ≡ ok (i, l)
    → (j : TodoItem) × (find_item items todo_id ≡ ok j)
      × (change j ≡ ok i)
      × (l ≡ replace_item items todo_id i)
unfolding changed_by
changed_by-ok items todo_id change i l h =
    let rest : TodoItem → Result (TodoItem × List TodoItem) =
      λ u. ok (u, replace_item items todo_id u) in
    let (j, found, more) = >>=-eq-ok (find_item items todo_id) (λ k. change k >>= rest) h in
    let (u, gives, last) = >>=-eq-ok (change j) rest more in
    let both : (u, replace_item items todo_id u) ≡ (i, l) = ok-injective _ _ last in
    let same : u ≡ i = ap (λ p. p.0) both in
    (j, found, gives ∙ ap ok same, sym (ap (λ p. p.1) both) ∙ ap (replace_item items todo_id) same)

-- The list with an item replaced that was found in it is not empty.
read_back-replace_item :
    (items : List TodoItem) (todo_id : Text) (i j : TodoItem)
    → find_item items todo_id ≡ ok j
    → read_back (replace_item items todo_id i) ≡ ok (replace_item items todo_id i)
unfolding find_item replace_item
read_back-replace_item [] todo_id i j found = cc
read_back-replace_item (k ∷ rest) todo_id i j found = elim (Bool-cases (k.id == todo_id)) [
  | inl same ↦ rw (same) refl
  | inr other ↦ rw (other) refl
]

module _ (isoformat : ℕ → Text) (fromisoformat : Text → Result ℕ) (to_str : Json → Text)
    (reads : (t : ℕ) → fromisoformat (isoformat t) ≡ ok t) where
  load_each-stored :
      (items : List TodoItem)
      → all valid items ≡ true
      → load_each fromisoformat to_str (stored isoformat fromisoformat to_str items) ≡ ok items
  unfolding load_each load_item stored
  load_each-stored [] h = refl
  load_each-stored (i ∷ rest) h =
      let first =
        from_data-to_data isoformat fromisoformat to_str i (reads i.created_at) (reads i.updated_at)
          (ground (arith, h)) in
      rw (load_item, first, load_each-stored rest (ground (arith, h))) refl

  load-write :
      (items : List TodoItem)
      → all valid items ≡ true
      → load_items fromisoformat to_str (write_items isoformat fromisoformat to_str items)
        ≡ read_back items
  unfolding load_items write_items load_raw lookup list_beq stored
  load-write [] h = refl
  load-write (i ∷ rest) h = load_each-stored (i ∷ rest) h

  written-ok :
      (f g : TodoFile) (r : Result (TodoItem × List TodoItem)) (i : TodoItem)
      → written isoformat fromisoformat to_str f r ≡ (ok i, g)
      → (l : List TodoItem) × (r ≡ ok (i, l)) × (g ≡ write_items isoformat fromisoformat to_str l)
  written-ok f g (ok (j, l)) i h = (l, cc, cc)
  written-ok f g (err e) i h = cc

  -- Where the file reads as valid items and resolving an item of it succeeds, the file then reads as
  -- the same items with the returned one in the place of the first that had the identifier; it has
  -- the requested status, which is a resolved one.
  pub resolve-stored :
      (f g : TodoFile) (items : List TodoItem) (todo_id : Text) (status : TodoStatus)
      (rationale : Text) (now : ℕ) (i : TodoItem)
      → load_items fromisoformat to_str f ≡ ok items
      → all valid items ≡ true
      → resolve isoformat fromisoformat to_str f todo_id status rationale now ≡ (ok i, g)
      → (load_items fromisoformat to_str g ≡ ok (replace_item items todo_id i))
        × (i.status ≡ status)
        × (is_resolved status ≡ true)
  unfolding resolve
  resolve-stored f g items todo_id status rationale now i loads good done =
      let change : TodoItem → Result TodoItem = λ k. resolve_item k status rationale now in
      let (l, gives, leaves) =
        written-ok f g (changed_by items todo_id change) i (rw (loads) at done) in
      let (j, found, becomes, list) = changed_by-ok items todo_id change i l gives in
      let (fine, has, closes) =
        resolve_item-valid j status rationale now i (valid-find_item items todo_id j good found)
          becomes in
      (
        rw (leaves, list)
            (load-write (replace_item items todo_id i)
                (valid-replace_item items todo_id i good fine)
              ∙ read_back-replace_item items todo_id i j found),
        has,
        closes,
      )
