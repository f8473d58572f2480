-- ===== src/Conditions/Priority.antt =====
-- util/conditions/merge.go: the priority of a merge.
use addonconfig.Common.{
  some_not_none, true_not_false, String, List-cases, ℕ, ◌≤◌, ◌<◌, ◌≡◌, ◌↔◌, refl, ap, ap₂, subst,
  sym, ◌∙◌, Bool, true, false, ◌||◌, Option, none, some, List, [], ◌∷◌, inl, inr, arith, ltb, eqb,
}
use mathlib.Core.Option.{some-injective}
use native.Mathlib.Decide.{dec_lt}
use addonconfig.Api.Condition.{ConditionType, Condition}
use addonconfig.Conditions.Groups.{
  LocalizedCondition, ConditionGroup, ConditionGroups, merge_priority, get_condition_groups,
}
use addonconfig.Conditions.Strategies.{MergeOptions, get_reason, get_message}
use addonconfig.Conditions.Merge.{merge_top, merge}
use addonconfig.Conditions.GroupTests.{
  Test, in_groups, some_condition, groups_any, below, at, IsLeast, some_below_mono,
  get_condition_groups-IsLeast,
}

-- The first group, described by the conditions alone.
pub record IsTop (cs : List (Option LocalizedCondition)) (g : ConditionGroup) : Type 0 where
  pub least : some_condition (below (merge_priority g.status g.severity)) cs ≡ false
  pub present : (p : Test) → p g.status g.severity ≡ true → some_condition p cs ≡ true
  pub absent : (p : Test) → some_condition p cs ≡ false → p g.status g.severity ≡ false

or_left : (a b : Bool) → (a || b) ≡ false → a ≡ false
or_left a b h = ground arith

not_below_self : (n : ℕ) → ltb n n ≡ false
not_below_self n = ground arith

pub groups-IsTop :
    (cs : List (Option LocalizedCondition)) (g : ConditionGroup) (gs : ConditionGroups)
    → get_condition_groups cs ≡ g ∷ gs
    → IsTop cs g
groups-IsTop cs g gs e = record {
  least =
      sym (groups_any (below (merge_priority g.status g.severity)) cs)
      ∙ ap (in_groups (below (merge_priority g.status g.severity))) e
      ∙ ap₂ (λ a b. a || b) (not_below_self (merge_priority g.status g.severity))
          (subst IsLeast e (get_condition_groups-IsLeast cs));
  present = λ p h. sym (groups_any p cs) ∙ ap (in_groups p) e ∙ ap (λ b. b || in_groups p gs) h;
  absent = λ p h.
      or_left (p g.status g.severity) (in_groups p gs)
        (sym (ap (in_groups p) e) ∙ groups_any p cs ∙ h);
}

pub merge-nil :
    (cs : List (Option LocalizedCondition)) (t : ConditionType) (o : MergeOptions)
    → get_condition_groups cs ≡ []
    → merge cs t o ≡ none
unfolding merge
merge-nil cs t o e = rw e

pub merge-cons :
    (cs : List (Option LocalizedCondition)) (t : ConditionType) (o : MergeOptions)
    (g : ConditionGroup) (gs : ConditionGroups)
    → get_condition_groups cs ≡ g ∷ gs
    → merge cs t o ≡ some (merge_top g t (get_reason (g ∷ gs) o) (get_message (g ∷ gs) o))
unfolding merge
merge-cons cs t o g gs e = rw e

true-or : (b : Bool) → (true || b) ≡ true
true-or b = refl

eqb_of_eq : (m n : ℕ) → m ≡ n → eqb m n ≡ true
eqb_of_eq m n e = ground arith

ranked-lt :
    {cs : List (Option LocalizedCondition)} {g : ConditionGroup}
    → IsTop cs g
    → some_condition (below 99) cs ≡ true
    → merge_priority g.status g.severity < 99
ranked-lt {cs} {g} top ranked = elim (dec_lt (merge_priority g.status g.severity) 99) [
  | yes lt ↦ lt
  | no ge ↦
      elim (true_not_false (
        sym ranked
        ∙ some_below_mono 99 (merge_priority g.status g.severity) cs (omega arith) top.least)) [ ]
]

-- A merge gives nothing exactly where every condition given is nil.
pub merge-none :
    (cs : List (Option LocalizedCondition)) (t : ConditionType) (o : MergeOptions)
    → (merge cs t o ≡ none) ↔ (some_condition (λ _ _. true) cs ≡ false)
merge-none cs t o = elim (List-cases (get_condition_groups cs)) [
  | inl e ↦ (
    (λ _. sym (groups_any (λ _ _. true) cs) ∙ ap (in_groups (λ _ _. true)) e),
    (λ _. merge-nil cs t o e),
  )
  | inr (g, gs, e) ↦ (
    (λ h. elim (some_not_none (sym (merge-cons cs t o g gs e) ∙ h)) [ ]),
    (λ h.
        elim (true_not_false (sym ((groups-IsTop cs g gs e).present (λ _ _. true) refl) ∙ h)) [ ]),
  )
]

-- The priority of what is made of a group is the group's, or 4 in place of 99.
merged_priority :
    (g : ConditionGroup) (t : ConditionType) (reason message : String)
    → (merge_priority (merge_top g t reason message).status (merge_top g t reason message).severity
        ≤ merge_priority g.status g.severity)
      × (merge_priority g.status g.severity < 99
          → merge_priority
              (merge_top g t reason message).status
              (merge_top g t reason message).severity
            ≡ merge_priority g.status g.severity)
unfolding merge_top merge_priority
merged_priority g t reason message = ground arith

-- The condition that a merge gives has the highest priority: no condition given comes before it, and
-- one given has its priority, provided that one has a priority at all.
pub merge-priority :
    (cs : List (Option LocalizedCondition)) (t : ConditionType) (o : MergeOptions) (m : Condition)
    → merge cs t o ≡ some m
    → (some_condition (below (merge_priority m.status m.severity)) cs ≡ false)
      × (some_condition (below 99) cs ≡ true
          → some_condition (at (merge_priority m.status m.severity)) cs ≡ true)
merge-priority cs t o m h = elim (List-cases (get_condition_groups cs)) [
  | inl e ↦ elim (some_not_none (sym h ∙ merge-nil cs t o e)) [ ]
  | inr (g, gs, e) ↦
      let top = groups-IsTop cs g gs e in
      let same = some-injective _ _ (sym (merge-cons cs t o g gs e) ∙ h) in
      let rank = merged_priority g t (get_reason (g ∷ gs) o) (get_message (g ∷ gs) o) in
      subst
        (λ m.
          (some_condition (below (merge_priority m.status m.severity)) cs ≡ false)
          × (some_condition (below 99) cs ≡ true
              → some_condition (at (merge_priority m.status m.severity)) cs ≡ true))
        same
        (
          some_below_mono _ _ cs rank.0 top.least,
          (λ ranked. top.present (at _) (eqb_of_eq _ _ (sym (rank.1 (ranked-lt top ranked))))),
        )
]
