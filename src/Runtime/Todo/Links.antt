-- ===== src/Runtime/Todo/Links.antt =====
-- TODO items linked to inbox items: src/thorn/runtime/_todo.py.
use thorn.Prelude.Dict.{Dict, get, put, get-put}
use thorn.Prelude.{
  ==_iff, Bool, Bool-cases, List, Option, Text, [], all, ap, arith, bool_eq, contains, false,
  if◌then◌else◌, inl, inr, keep, leb, length, list_eq, map, nat_eq, none, not, option_eq, pair_eq,
  refl, some, suc, sym, true, zero, ℕ, ◌&&◌, ◌++◌, ◌+◌, ◌==◌, ◌∙◌, ◌∷◌, ◌≡◌,
}
use mathlib.Core.List.{append-nil, append_assoc}
use mathlib.Core.Path.{subst}
use thorn.Runtime.Todo.Item.{TodoItem, is_resolved}

-- status is TodoStatus.OPEN
abbrev pub is_open : TodoItem → Bool
is_open i = not (is_resolved i.status)

-- unresolved_linked_to, of the items that the file has
unfoldable pub unresolved_linked_to : List TodoItem → Text → List TodoItem
unfolding contains
unresolved_linked_to items n = keep (λ i. is_open i && contains n i.linked_inbox_item_ids) items

-- LinkedTodoSummary, which is also what its builder holds
pub record LinkedTodoSummary : Type 0 where
  pub open_count : ℕ
  pub resolved_count : ℕ
  pub open_titles : List Text

abbrev pub no_links : LinkedTodoSummary
no_links = record { open_count = 0; resolved_count = 0; open_titles = [] }

-- _LinkedTodoSummaryBuilder.add
unfoldable pub add_item : LinkedTodoSummary → TodoItem → LinkedTodoSummary
add_item s i =
    if is_open i
    then record s { open_count = suc s.open_count; open_titles = s.open_titles ++ (i.title ∷ []) }
    else record s { resolved_count = suc s.resolved_count }

-- builders.setdefault(n, ..)
abbrev pub or_no_links : Option LinkedTodoSummary → LinkedTodoSummary
or_no_links none = no_links
or_no_links (some s) = s

abbrev pub summary_at : Dict Text LinkedTodoSummary → Text → LinkedTodoSummary
summary_at builders n = or_no_links (get builders n)

unfoldable pub link_each :
    Dict Text LinkedTodoSummary → TodoItem → List Text → Dict Text LinkedTodoSummary
link_each builders i [] = builders
link_each builders i (n ∷ ns) = link_each (put builders n (add_item (summary_at builders n) i)) i ns

unfoldable pub summarize : Dict Text LinkedTodoSummary → List TodoItem → Dict Text LinkedTodoSummary
summarize builders [] = builders
summarize builders (i ∷ rest) = summarize (link_each builders i i.linked_inbox_item_ids) rest

unfoldable pub linked_summary_by_inbox_item : List TodoItem → Dict Text LinkedTodoSummary
linked_summary_by_inbox_item items = summarize [] items

-- How often an inbox item is linked.
unfoldable pub occurrences : Text → List Text → ℕ
occurrences n [] = 0
occurrences n (m ∷ ms) = let rest = occurrences n ms in if m == n then suc rest else rest

abbrev linked_once : Text → TodoItem → Bool
linked_once n i = leb (occurrences n i.linked_inbox_item_ids) 1

abbrev added : ℕ → TodoItem → LinkedTodoSummary → LinkedTodoSummary
added zero i s = s
added (suc k) i s = added k i (add_item s i)

summary_at-put :
    (builders : Dict Text LinkedTodoSummary) (m n : Text) (s : LinkedTodoSummary)
    → summary_at (put builders m s) n ≡ (if m == n then s else summary_at builders n)
summary_at-put builders m n s = ap or_no_links (get-put builders m s n) ∙ chosen (m == n)
  where
    chosen :
        (b : Bool)
        → or_no_links (if b then some s else get builders n)
          ≡ (if b then s else summary_at builders n)
    chosen true = refl
    chosen false = refl

summary_at-link_each :
    (builders : Dict Text LinkedTodoSummary) (i : TodoItem) (ns : List Text) (n : Text)
    → summary_at (link_each builders i ns) n ≡ added (occurrences n ns) i (summary_at builders n)
unfolding link_each occurrences
summary_at-link_each builders i [] n = refl
summary_at-link_each builders i (m ∷ ns) n =
    let s = add_item (summary_at builders m) i in
    let later = summary_at-link_each (put builders m s) i ns n in
    elim (Bool-cases (m == n)) [
      | inl same ↦
          rw (later, summary_at-put builders m n s, same)
            (ap (λ k. added (occurrences n ns) i (add_item (summary_at builders k) i))
              ((==_iff m n).0 same))
      | inr other ↦ rw (later, summary_at-put builders m n s, other) refl
    ]

contains-occurrences :
    (n : Text) (ns : List Text)
    → leb (occurrences n ns) 1 ≡ true
    → occurrences n ns ≡ (if contains n ns then 1 else 0)
unfolding occurrences contains
contains-occurrences n [] h = refl
contains-occurrences n (m ∷ ns) h = ground (arith, h, contains-occurrences n ns)

abbrev Agrees : LinkedTodoSummary → LinkedTodoSummary → List TodoItem → Type 0
Agrees s before items =
    (s.open_count ≡ before.open_count + length items)
    × (s.open_titles ≡ before.open_titles ++ map (λ i. i.title) items)

Agrees-refl : (s : LinkedTodoSummary) → Agrees s s []
Agrees-refl s = (omega arith, sym (append-nil s.open_titles))

add_item-open :
    (s : LinkedTodoSummary) (i : TodoItem)
    → is_open i ≡ true
    → add_item s i
      ≡ record s { open_count = suc s.open_count; open_titles = s.open_titles ++ (i.title ∷ []) }
unfolding add_item
add_item-open s i active = rw (active) refl

add_item-closed :
    (s : LinkedTodoSummary) (i : TodoItem)
    → is_open i ≡ false
    → add_item s i ≡ record s { resolved_count = suc s.resolved_count }
unfolding add_item
add_item-closed s i closed = rw (closed) refl

-- One more item, linked once or not at all.
step-Agrees :
    (total s : LinkedTodoSummary) (i : TodoItem) (linked : Bool) (items : List TodoItem)
    → Agrees total (added (if linked then 1 else 0) i s) items
    → Agrees total s (if is_open i && linked then i ∷ items else items)
step-Agrees total s i false items h = elim (Bool-cases (is_open i)) [
  | inl active ↦ rw (active) h
  | inr closed ↦ rw (closed) h
]
step-Agrees total s i true items h = elim (Bool-cases (is_open i)) [
  | inl active ↦
      (let (count, titles) = subst (λ x. Agrees total x items) (add_item-open s i active) h in
        rw (active) (omega (arith, count), titles ∙ append_assoc s.open_titles (i.title ∷ []) _))
  | inr closed ↦
      (let (count, titles) = subst (λ x. Agrees total x items) (add_item-closed s i closed) h in
        rw (closed) (count, titles))
]

summarize-Agrees :
    (builders : Dict Text LinkedTodoSummary) (items : List TodoItem) (n : Text)
    → all (linked_once n) items ≡ true
    → Agrees
        (summary_at (summarize builders items) n)
        (summary_at builders n)
        (unresolved_linked_to items n)
unfolding summarize unresolved_linked_to
summarize-Agrees builders [] n h = Agrees-refl (summary_at builders n)
summarize-Agrees builders (i ∷ rest) n h =
    let ids = i.linked_inbox_item_ids in
    let total = summary_at (summarize (link_each builders i ids) rest) n in
    let later = summarize-Agrees (link_each builders i ids) rest n (ground (arith, h)) in
    let once = contains-occurrences n ids (ground (arith, h)) in
    step-Agrees total (summary_at builders n) i (contains n ids) (unresolved_linked_to rest n) (
      subst (λ s. Agrees total s (unresolved_linked_to rest n))
        (summary_at-link_each builders i ids n ∙ ap (λ k. added k i (summary_at builders n)) once)
        later)

-- Where no item is linked to an inbox item twice, the summary of the inbox item counts its unresolved
-- TODO items and has their titles, in the order of the list; a missing summary stands for none.
pub summary-unresolved :
    (items : List TodoItem) (n : Text)
    → all (linked_once n) items ≡ true
    → ((summary_at (linked_summary_by_inbox_item items) n).open_count
        ≡ length (unresolved_linked_to items n))
      × ((summary_at (linked_summary_by_inbox_item items) n).open_titles
          ≡ map (λ i. i.title) (unresolved_linked_to items n))
unfolding linked_summary_by_inbox_item get
summary-unresolved items n h =
    let (count, titles) = summarize-Agrees [] items n h in (omega (arith, count), titles)
