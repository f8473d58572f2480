-- ===== src/Conditions/Groups.antt =====
-- util/conditions/merge.go: the groups of conditions with one status and severity, by priority.
use addonconfig.Common.{
  ℕ, Bool, not, ◌&&◌, Option, none, some, List, [], ◌∷◌, ◌++◌, ◌==◌, str_ltb, ltb, if◌then◌else◌,
}
use addonconfig.Api.Condition.{
  ConditionStatus, condition_true, condition_false, condition_unknown, status_eq, ConditionSeverity,
  severity_error, severity_warning, severity_info, severity_none, severity_eq, Condition,
}
use addonconfig.Conditions.Getter.{Getter}
use addonconfig.Conditions.Setter.{lexicographic_less}

-- A condition with the object that it comes from. Where the source's pointer to the condition is
-- nil, and the object is never read, there is `none` in place of the record.
pub record LocalizedCondition : Type 0 where
  pub condition : Condition
  pub getter : Getter

pub record ConditionGroup : Type 0 where
  pub status : ConditionStatus
  pub severity : ConditionSeverity
  pub conditions : List LocalizedCondition

abbrev pub ConditionGroups : Type 0
ConditionGroups = List ConditionGroup

-- The switches of `mergePriority`; the last clause is the return after them.
unfoldable pub merge_priority : ConditionStatus → ConditionSeverity → ℕ
merge_priority condition_false severity_error = 0
merge_priority condition_false severity_warning = 1
merge_priority condition_false severity_info = 2
merge_priority condition_true _ = 3
merge_priority condition_unknown _ = 4
merge_priority _ _ = 99

abbrev pub is_group : ConditionStatus → ConditionSeverity → ConditionGroup → Bool
unfolding status_eq severity_eq
is_group status severity g = status_eq g.status status && severity_eq g.severity severity

-- The body of the loop over the conditions: into the first group that fits, or into a new one.
unfoldable pub add : LocalizedCondition → ConditionGroups → ConditionGroups
unfolding is_group
add lc [] =
    record { status = lc.condition.status; severity = lc.condition.severity; conditions = lc ∷ [] }
    ∷ []
add lc (g ∷ gs) =
    if is_group lc.condition.status lc.condition.severity g
    then record g { conditions = g.conditions ++ lc ∷ [] } ∷ gs
    else g ∷ add lc gs

unfoldable pub group : List (Option LocalizedCondition) → ConditionGroups → ConditionGroups
unfolding add
group [] groups = groups
group (none ∷ rest) groups = group rest groups
group (some lc ∷ rest) groups = group rest (add lc groups)

-- `Less` of `conditionGroups`.
unfoldable pub group_less : ConditionGroup → ConditionGroup → Bool
unfolding merge_priority
group_less g h = ltb (merge_priority g.status g.severity) (merge_priority h.status h.severity)

-- `sort.Sort`, as the insertion sort that it is on up to 12 elements.
unfoldable pub insert_group : ConditionGroup → ConditionGroups → ConditionGroups
unfolding group_less
insert_group g [] = g ∷ []
insert_group g (h ∷ hs) = if group_less h g then h ∷ insert_group g hs else g ∷ h ∷ hs

unfoldable pub sort_groups : ConditionGroups → ConditionGroups
unfolding insert_group
sort_groups [] = []
sort_groups (g ∷ gs) = insert_group g (sort_groups gs)

-- By type, and by the name of the object where the types agree.
unfoldable pub localized_less : LocalizedCondition → LocalizedCondition → Bool
unfolding lexicographic_less
localized_less a b =
    if not (a.condition.type == b.condition.type)
    then lexicographic_less a.condition b.condition
    else str_ltb a.getter.name b.getter.name

unfoldable pub insert_localized :
    LocalizedCondition → List LocalizedCondition → List LocalizedCondition
unfolding localized_less
insert_localized a [] = a ∷ []
insert_localized a (b ∷ bs) = if localized_less b a then b ∷ insert_localized a bs else a ∷ b ∷ bs

unfoldable pub sort_localized : List LocalizedCondition → List LocalizedCondition
unfolding insert_localized
sort_localized [] = []
sort_localized (a ∷ rest) = insert_localized a (sort_localized rest)

-- "sorts conditions in the TopGroup so we ensure predictable result for merge strategies"
unfoldable pub sort_top : ConditionGroups → ConditionGroups
unfolding sort_localized
sort_top [] = []
sort_top (g ∷ gs) = record g { conditions = sort_localized g.conditions } ∷ gs

unfoldable pub get_condition_groups : List (Option LocalizedCondition) → ConditionGroups
unfolding group sort_groups sort_top
get_condition_groups conditions = sort_top (sort_groups (group conditions []))

unfoldable pub top_group : ConditionGroups → Option ConditionGroup
top_group [] = none
top_group (g ∷ gs) = some g

unfoldable pub get_by_status_and_severity :
    ConditionGroups → ConditionStatus → ConditionSeverity → Option ConditionGroup
unfolding is_group
get_by_status_and_severity [] status severity = none
get_by_status_and_severity (g ∷ gs) status severity =
    if is_group status severity g then some g else get_by_status_and_severity gs status severity

unfoldable pub true_group : ConditionGroups → Option ConditionGroup
unfolding get_by_status_and_severity
true_group groups = get_by_status_and_severity groups condition_true severity_none

unfoldable pub error_group : ConditionGroups → Option ConditionGroup
unfolding get_by_status_and_severity
error_group groups = get_by_status_and_severity groups condition_false severity_error

unfoldable pub warning_group : ConditionGroups → Option ConditionGroup
unfolding get_by_status_and_severity
warning_group groups = get_by_status_and_severity groups condition_false severity_warning
