-- ===== src/Conditions/Outcomes.antt =====
-- util/conditions/merge.go: the merges that are True, and those of failures.
use addonconfig.Common.{
  some_not_none, true_not_false, String, List-cases, ℕ, ◌≤◌, ◌<◌, ◌≡◌, ◌↔◌, refl, ap, ap₂, subst,
  sym, ◌∙◌, Bool, true, false, ◌&&◌, Option, none, some, List, [], ◌∷◌, inl, inr, arith,
}
use mathlib.Core.Option.{some-injective}
use native.Mathlib.Decide.{dec_lt}
use addonconfig.Api.Condition.{
  ConditionStatus, condition_true, condition_false, status_eq, status_eq_iff, ConditionSeverity,
  severity_error, severity_warning, severity_info, severity_eq, severity_eq_iff, ConditionType,
  Condition,
}
use addonconfig.Conditions.Setter.{true_condition, false_condition}
use addonconfig.Conditions.Groups.{
  LocalizedCondition, ConditionGroup, merge_priority, get_condition_groups,
}
use addonconfig.Conditions.Strategies.{MergeOptions, get_reason, get_message}
use addonconfig.Conditions.Merge.{merge_top, merge}
use addonconfig.Conditions.GroupTests.{
  Test, in_groups, some_condition, groups_any, below, some_below_mono,
}
use addonconfig.Conditions.Priority.{IsTop, groups-IsTop, merge-nil, merge-cons}

-- "P0 - Status=False, Severity=Error", "P1 - Status=False, Severity=Warning" and "P2 - Status=False,
-- Severity=Info"
abbrev pub is_failure : Test
is_failure condition_false severity_error = true
is_failure condition_false severity_warning = true
is_failure condition_false severity_info = true
is_failure _ _ = false

abbrev pub has_status : ConditionStatus → Test
has_status status s v = status_eq s status

-- A failure of a higher severity than `v`: "P0 - Status=False, Severity=Error" comes before "P1 -
-- Status=False, Severity=Warning", and that before "P2 - Status=False, Severity=Info".
abbrev pub graver : ConditionSeverity → Test
graver severity_info condition_false severity_error = true
graver severity_info condition_false severity_warning = true
graver severity_warning condition_false severity_error = true
graver _ _ _ = false

some_mono :
    (p q : Test) (cs : List (Option LocalizedCondition))
    → ((s : ConditionStatus) (v : ConditionSeverity) → p s v ≡ true → q s v ≡ true)
    → some_condition p cs ≡ true
    → some_condition q cs ≡ true
some_mono p q [] f h = h
some_mono p q (none ∷ cs) f h = some_mono p q cs f h
some_mono p q (some lc ∷ cs) f h =
    ground (arith, f lc.condition.status lc.condition.severity, some_mono p q cs f)

failure_below :
    (s : ConditionStatus) (v : ConditionSeverity) → is_failure s v ≡ true → below 3 s v ≡ true
unfolding merge_priority
failure_below s v h = ground arith

graver-below :
    (g s : ConditionStatus) (w v : ConditionSeverity)
    → is_failure g w ≡ true
    → graver w s v ≡ true
    → below (merge_priority g w) s v ≡ true
unfolding merge_priority
graver-below g s w v fails h = ground arith

true-below :
    (n : ℕ) (s : ConditionStatus) (v : ConditionSeverity)
    → 3 < n
    → has_status condition_true s v ≡ true
    → below n s v ≡ true
unfolding merge_priority status_eq
true-below n s v lt h = ground arith

merge_top-true :
    (g : ConditionGroup) (t : ConditionType) (reason message : String)
    → merge_top g t reason message ≡ true_condition t
    → (has_status condition_true g.status g.severity ≡ true)
      × (merge_priority g.status g.severity ≡ 3)
unfolding merge_top merge_priority
merge_top-true g t reason message h = ground (arith, ap (λ c. c.status) h)

top_is_true :
    (g : ConditionGroup) (t : ConditionType) (reason message : String)
    → is_failure g.status g.severity ≡ false
    → merge_priority g.status g.severity ≤ 3
    → merge_top g t reason message ≡ true_condition t
unfolding merge_top merge_priority
top_is_true g t reason message h k = ground arith

not_absent : {b : Bool} → (b ≡ true → ⊥) → b ≡ false
not_absent {b = true} h = absurd (h refl)
not_absent {b = false} h = refl

top-not-failure :
    {cs : List (Option LocalizedCondition)} {g : ConditionGroup}
    → IsTop cs g
    → merge_priority g.status g.severity ≡ 3
    → some_condition is_failure cs ≡ false
top-not-failure {cs} {g} top e = not_absent λ fails. true_not_false (
    sym (some_mono is_failure (below 3) cs failure_below fails)
    ∙ some_below_mono 3 (merge_priority g.status g.severity) cs (omega arith) top.least)

top-le_three :
    {cs : List (Option LocalizedCondition)} {g : ConditionGroup}
    → IsTop cs g
    → some_condition (has_status condition_true) cs ≡ true
    → merge_priority g.status g.severity ≤ 3
top-le_three {cs} {g} top has = elim (dec_lt 3 (merge_priority g.status g.severity)) [
  | yes lt ↦
      elim (true_not_false (
        sym (
          some_mono (has_status condition_true) (below (merge_priority g.status g.severity)) cs
            (λ s v. true-below (merge_priority g.status g.severity) s v lt) has)
        ∙ top.least)) [ ]
  | no ge ↦ omega arith
]

-- A merge gives a condition that is True exactly where one of the conditions is True and none is False
-- with the severity Error, Warning or Info.
pub merge-true :
    (cs : List (Option LocalizedCondition)) (t : ConditionType) (o : MergeOptions)
    → (merge cs t o ≡ some (true_condition t)) ↔ (
        (some_condition (has_status condition_true) cs ≡ true)
        × (some_condition is_failure cs ≡ false))
merge-true cs t o = elim (List-cases (get_condition_groups cs)) [
  | inl e ↦ (
    (λ h. elim (some_not_none (sym h ∙ merge-nil cs t o e)) [ ]),
    (λ h.
        elim (true_not_false (
          sym h.0
          ∙ sym (groups_any (has_status condition_true) cs)
          ∙ ap (in_groups (has_status condition_true)) e)) [ ]),
  )
  | inr (g, gs, e) ↦
      let top = groups-IsTop cs g gs e in
      let merged = merge-cons cs t o g gs e in
      (
        (λ h.
            let (is, three) = merge_top-true g t _ _ (some-injective _ _ (sym merged ∙ h)) in
            (top.present (has_status condition_true) is, top-not-failure top three)),
        (λ h.
            merged
            ∙ ap some (
                top_is_true g t (get_reason (g ∷ gs) o) (get_message (g ∷ gs) o)
                  (top.absent is_failure h.1) (top-le_three top h.0))),
      )
]

failure-lt_three :
    {cs : List (Option LocalizedCondition)} {g : ConditionGroup}
    → IsTop cs g
    → some_condition is_failure cs ≡ true
    → merge_priority g.status g.severity < 3
failure-lt_three {cs} {g} top fails = elim (dec_lt (merge_priority g.status g.severity) 3) [
  | yes lt ↦ lt
  | no ge ↦
      elim (true_not_false (
        sym (some_mono is_failure (below 3) cs failure_below fails)
        ∙ some_below_mono 3 (merge_priority g.status g.severity) cs (omega arith) top.least)) [ ]
]

merge_top-failure :
    (g : ConditionGroup) (t : ConditionType) (reason message : String)
    → merge_priority g.status g.severity < 3
    → (merge_top g t reason message ≡ false_condition t reason g.severity message [])
      × (is_failure g.status g.severity ≡ true)
unfolding merge_top merge_priority
merge_top-failure g t reason message h = ground arith

failure_status :
    (s : ConditionStatus) (v : ConditionSeverity) → is_failure s v ≡ true → s ≡ condition_false
failure_status s v h = ground arith

-- Where a condition is False with the severity Error, Warning or Info, the merge is False with one of
-- these severities that a False condition given has, and none given has a higher one.
pub merge-failure :
    (cs : List (Option LocalizedCondition)) (t : ConditionType) (o : MergeOptions)
    → some_condition is_failure cs ≡ true
    → (m : Condition) × (merge cs t o ≡ some m)
      × (m.status ≡ condition_false)
      × ((is_failure m.status m.severity ≡ true)
          × (some_condition (λ s v. status_eq s m.status && severity_eq v m.severity) cs ≡ true)
          × (some_condition (graver m.severity) cs ≡ false))
unfolding false_condition
merge-failure cs t o fails = elim (List-cases (get_condition_groups cs)) [
  | inl e ↦
      elim (true_not_false
        (sym fails ∙ sym (groups_any is_failure cs) ∙ ap (in_groups is_failure) e)) [ ]
  | inr (g, gs, e) ↦
      let top = groups-IsTop cs g gs e in
      let (same, failing) =
        merge_top-failure g t (get_reason (g ∷ gs) o) (get_message (g ∷ gs) o)
          (failure-lt_three top fails) in
      (
        false_condition t (get_reason (g ∷ gs) o) g.severity (get_message (g ∷ gs) o) [],
        merge-cons cs t o g gs e ∙ ap some same,
        refl,
        subst
            (λ s.
              (is_failure s g.severity ≡ true)
              × (some_condition (λ r v. status_eq r s && severity_eq v g.severity) cs ≡ true)
              × (some_condition (graver g.severity) cs ≡ false))
            (failure_status g.status g.severity failing)
            (
              failing,
              top.present _ (
                  ap₂ (λ a b. a && b) ((status_eq_iff g.status g.status).1 refl)
                    ((severity_eq_iff g.severity g.severity).1 refl)),
              not_absent λ higher. true_not_false (
                  sym (
                    some_mono (graver g.severity) (below (merge_priority g.status g.severity)) cs
                      (λ s v. graver-below g.status s g.severity v failing) higher)
                  ∙ top.least),
            ),
      )
]
