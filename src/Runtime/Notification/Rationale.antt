-- ===== src/Runtime/Notification/Rationale.antt =====
-- InboxCompletionRationale of src/thorn/runtime/_notification.py.
pub mod Complete
use thorn.Prelude.{
  ==_iff, Bool, List, Text, [], any, false, is_empty, list_eq, nat_eq, not, option_eq, strip, true,
  ◌++◌, ◌∷◌,
}

pub record InboxCompletionRationale : Type 0 where
  pub completed_actions : List Text
  pub request_coverage : List Text
  pub self_review : Text
  pub remaining_work : List Text
  pub external_follow_up : List Text

pub data Field : Type 0 where
  completed_actions request_coverage remaining_work external_follow_up : Field

-- The messages of validation_errors.
pub data Issue : Type 0 where
  must_contain_item : Field → Issue
  empty_self_review : Issue
  blank_items : Field → Issue

unfoldable pub is_blank : Text → Bool
unfolding strip is_empty
is_blank entry = is_empty (strip entry)

unfoldable pub has_meaningful_entry : List Text → Bool
unfolding is_blank
has_meaningful_entry entries = any (λ entry. not (is_blank entry)) entries

abbrev pub issue_if : Bool → Issue → List Issue
issue_if true i = i ∷ []
issue_if false i = []

-- any(not entry.strip() for entry in entries)
unfoldable pub blank_check : Field → List Text → List Issue
unfolding is_blank
blank_check f entries = issue_if (any is_blank entries) (blank_items f)

unfoldable pub validation_errors : InboxCompletionRationale → List Issue
unfolding has_meaningful_entry blank_check
validation_errors r =
    issue_if (not (has_meaningful_entry r.completed_actions)) (must_contain_item completed_actions)
    ++ (issue_if (not (has_meaningful_entry r.request_coverage))
          (must_contain_item request_coverage)
        ++ (issue_if (is_blank r.self_review) empty_self_review
            ++ (blank_check completed_actions r.completed_actions
                ++ (blank_check request_coverage r.request_coverage
                    ++ (blank_check remaining_work r.remaining_work
                        ++ blank_check external_follow_up r.external_follow_up)))))
