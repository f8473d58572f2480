-- ===== src/Conditions/Merge.antt =====
-- util/conditions/merge.go: many conditions merged into one.
use addonconfig.Common.{String, Option, none, some, List, [], ◌∷◌, if◌then◌else◌}
use addonconfig.Api.Condition.{condition_true, condition_false, status_eq, ConditionType, Condition}
use addonconfig.Conditions.Setter.{true_condition, false_condition, unknown_condition}
use addonconfig.Conditions.Groups.{
  LocalizedCondition, ConditionGroup, ConditionGroups, get_condition_groups,
}
use addonconfig.Conditions.Strategies.{MergeOptions, get_reason, get_message}

-- What `merge` makes of groups of which `top` is the first.
unfoldable pub merge_top :
    ConditionGroup → ConditionType → (target_reason target_message : String) → Condition
unfolding status_eq true_condition false_condition unknown_condition
merge_top top target_condition target_reason target_message =
    if status_eq top.status condition_true
    then true_condition target_condition
    else if status_eq top.status condition_false
    then false_condition target_condition target_reason top.severity target_message []
    else unknown_condition target_condition target_reason target_message []

unfoldable pub merge_groups : ConditionGroups → ConditionType → MergeOptions → Option Condition
unfolding merge_top get_reason get_message
merge_groups [] target_condition options = none
merge_groups (g ∷ gs) target_condition options =
    some (merge_top g target_condition (get_reason (g ∷ gs) options) (get_message (g ∷ gs) options))

unfoldable pub merge :
    List (Option LocalizedCondition) → ConditionType → MergeOptions → Option Condition
unfolding get_condition_groups merge_groups
merge conditions target_condition options =
    merge_groups (get_condition_groups conditions) target_condition options
