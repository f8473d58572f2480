-- ===== src/Conditions/GroupTests.antt =====
-- util/conditions/merge.go: the statuses and severities in the groups of a merge, and the first
-- group.
use addonconfig.Common.{
  ℕ, ◌≤◌, ◌≡◌, refl, ap, ap₂, sym, ◌∙◌, Bool, true, false, ◌&&◌, ◌||◌, Option, none, some, List, [],
  ◌∷◌, Bool-cases, inl, inr, arith, any, ltb, eqb,
}
use addonconfig.Api.Condition.{
  ConditionStatus, status_eq, status_eq_iff, ConditionSeverity, severity_eq, severity_eq_iff,
}
use addonconfig.Conditions.Groups.{
  LocalizedCondition, ConditionGroup, ConditionGroups, merge_priority, add, group, group_less,
  insert_group, sort_groups, sort_top, get_condition_groups,
}

-- A test of a status with a severity.
abbrev pub Test : Type 0
Test = ConditionStatus → ConditionSeverity → Bool

abbrev pub in_groups : Test → ConditionGroups → Bool
in_groups p gs = any (λ g. p g.status g.severity) gs

-- Whether one of the conditions that are not nil passes the test.
abbrev pub some_condition : Test → List (Option LocalizedCondition) → Bool
some_condition p [] = false
some_condition p (none ∷ cs) = some_condition p cs
some_condition p (some lc ∷ cs) = p lc.condition.status lc.condition.severity || some_condition p cs

and_both : (a b : Bool) → (a && b) ≡ true → (a ≡ true) × (b ≡ true)
and_both a b h = ground arith

-- A condition's group has its status and severity, so they pass the same tests.
is_group_test :
    (p : Test) (status : ConditionStatus) (severity : ConditionSeverity) (g : ConditionGroup)
    → (status_eq g.status status && severity_eq g.severity severity) ≡ true
    → p g.status g.severity ≡ p status severity
is_group_test p status severity g h =
    let (s, v) = and_both (status_eq g.status status) (severity_eq g.severity severity) h in
    ap₂ p ((status_eq_iff g.status status).0 s) ((severity_eq_iff g.severity severity).0 v)

or_same : (a b : Bool) → (a || (a || b)) ≡ (a || b)
or_same a b = ground arith

or_swap : (a b c : Bool) → (a || (b || c)) ≡ (b || (a || c))
or_swap a b c = ground arith

add_any :
    (p : Test) (lc : LocalizedCondition) (gs : ConditionGroups)
    → in_groups p (add lc gs) ≡ (p lc.condition.status lc.condition.severity || in_groups p gs)
unfolding add
add_any p lc [] = refl
add_any p lc (g ∷ gs) =
    elim (Bool-cases
      (status_eq g.status lc.condition.status && severity_eq g.severity lc.condition.severity)) [
        | inl fits ↦ rw fits (
            rw (is_group_test p lc.condition.status lc.condition.severity g fits)
              (sym (or_same (p lc.condition.status lc.condition.severity) (in_groups p gs))))
        | inr other ↦ rw other (
            ap (λ b. p g.status g.severity || b) (add_any p lc gs)
            ∙ or_swap (p g.status g.severity) (p lc.condition.status lc.condition.severity)
                (in_groups p gs))
      ]

group_any :
    (p : Test) (cs : List (Option LocalizedCondition)) (gs : ConditionGroups)
    → in_groups p (group cs gs) ≡ (some_condition p cs || in_groups p gs)
unfolding group
group_any p [] gs = refl
group_any p (none ∷ cs) gs = group_any p cs gs
group_any p (some lc ∷ cs) gs = ground (arith, group_any p cs (add lc gs), add_any p lc gs)

insert_group_any :
    (p : Test) (g : ConditionGroup) (hs : ConditionGroups)
    → in_groups p (insert_group g hs) ≡ (p g.status g.severity || in_groups p hs)
unfolding insert_group
insert_group_any p g [] = refl
insert_group_any p g (h ∷ hs) = ground (arith, insert_group_any p g hs)

sort_groups_any : (p : Test) (gs : ConditionGroups) → in_groups p (sort_groups gs) ≡ in_groups p gs
unfolding sort_groups
sort_groups_any p [] = refl
sort_groups_any p (g ∷ gs) =
    ground (arith, insert_group_any p g (sort_groups gs), sort_groups_any p gs)

sort_top_any : (p : Test) (gs : ConditionGroups) → in_groups p (sort_top gs) ≡ in_groups p gs
unfolding sort_top
sort_top_any p [] = refl
sort_top_any p (g ∷ gs) = refl

or_false : (b : Bool) → (b || false) ≡ b
or_false b = ground arith

-- A test holds of a group exactly where it holds of a condition.
pub groups_any :
    (p : Test) (cs : List (Option LocalizedCondition))
    → in_groups p (get_condition_groups cs) ≡ some_condition p cs
unfolding get_condition_groups
groups_any p cs =
    sort_top_any p (sort_groups (group cs []))
    ∙ sort_groups_any p (group cs [])
    ∙ group_any p cs []
    ∙ or_false (some_condition p cs)

-- The priority of a test's status and severity is below `n`.
abbrev pub below : ℕ → Test
below n status severity = ltb (merge_priority status severity) n

abbrev pub at : ℕ → Test
at n status severity = eqb (merge_priority status severity) n

-- Nothing in the groups stands before the first.
abbrev pub IsLeast : ConditionGroups → Type 0
IsLeast [] = Unit
IsLeast (g ∷ gs) = in_groups (below (merge_priority g.status g.severity)) gs ≡ false

pub below_mono :
    (m n : ℕ) (gs : ConditionGroups)
    → m ≤ n
    → in_groups (below n) gs ≡ false
    → in_groups (below m) gs ≡ false
below_mono m n [] le h = refl
below_mono m n (g ∷ gs) le h = ground (arith, below_mono m n gs le)

pub some_below_mono :
    (m n : ℕ) (cs : List (Option LocalizedCondition))
    → m ≤ n
    → some_condition (below n) cs ≡ false
    → some_condition (below m) cs ≡ false
some_below_mono m n [] le h = refl
some_below_mono m n (none ∷ cs) le h = some_below_mono m n cs le h
some_below_mono m n (some lc ∷ cs) le h = ground (arith, some_below_mono m n cs le)

insert_group-IsLeast :
    (g : ConditionGroup) (hs : ConditionGroups) → IsLeast hs → IsLeast (insert_group g hs)
unfolding insert_group group_less
insert_group-IsLeast g [] h = refl
insert_group-IsLeast g (k ∷ ks) h = ground (
  arith,
  insert_group_any (below (merge_priority k.status k.severity)) g ks,
  below_mono (merge_priority g.status g.severity) (merge_priority k.status k.severity) ks,
)

sort_groups-IsLeast : (gs : ConditionGroups) → IsLeast (sort_groups gs)
unfolding sort_groups
sort_groups-IsLeast [] = tt
sort_groups-IsLeast (g ∷ gs) = insert_group-IsLeast g (sort_groups gs) (sort_groups-IsLeast gs)

sort_top-IsLeast : (gs : ConditionGroups) → IsLeast gs → IsLeast (sort_top gs)
unfolding sort_top
sort_top-IsLeast [] h = tt
sort_top-IsLeast (g ∷ gs) h = h

pub get_condition_groups-IsLeast :
    (cs : List (Option LocalizedCondition)) → IsLeast (get_condition_groups cs)
unfolding get_condition_groups
get_condition_groups-IsLeast cs =
    sort_top-IsLeast (sort_groups (group cs [])) (sort_groups-IsLeast (group cs []))
