-- ===== src/Runtime/Notification/Rationale/Complete.antt =====
-- When a completion rationale of src/thorn/runtime/_notification.py has no validation error.
use thorn.Prelude.{
  Bool, List, Text, [], all, any, arith, false, list_eq, nat_eq, not, option_eq, refl, true, ◌&&◌,
  ◌↔◌, ◌∷◌, ◌≡◌,
}
use thorn.Runtime.Notification.Rationale.{
  InboxCompletionRationale, blank_check, has_meaningful_entry, is_blank, validation_errors,
}

-- No entry is blank.
abbrev pub filled : List Text → Bool
filled entries = all (λ entry. not (is_blank entry)) entries

abbrev pub some_filled : List Text → Bool
some_filled [] = false
some_filled (entry ∷ entries) = filled (entry ∷ entries)

any_blank-filled : (entries : List Text) → any is_blank entries ≡ not (filled entries)
any_blank-filled [] = refl
any_blank-filled (entry ∷ entries) = ground (arith, any_blank-filled entries)

meaningful-filled :
    (entries : List Text)
    → (has_meaningful_entry entries && not (any is_blank entries)) ≡ some_filled entries
unfolding has_meaningful_entry
meaningful-filled [] = refl
meaningful-filled (entry ∷ entries) = ground (arith, any_blank-filled entries)

-- A rationale has no validation error exactly if it lists completed actions and the coverage of
-- the request, its self-review is not blank, and no entry of its four lists is blank.
pub validation_errors-none :
    (r : InboxCompletionRationale)
    → (validation_errors r ≡ []) ↔ (
        (some_filled r.completed_actions
          && some_filled r.request_coverage
          && not (is_blank r.self_review)
          && filled r.remaining_work
          && filled r.external_follow_up)
        ≡ true)
unfolding validation_errors blank_check
validation_errors-none r = ground (
  arith,
  meaningful-filled r.completed_actions,
  meaningful-filled r.request_coverage,
  any_blank-filled r.remaining_work,
  any_blank-filled r.external_follow_up,
)
