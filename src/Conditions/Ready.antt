-- ===== src/Conditions/Ready.antt =====
-- util/conditions/getter.go: the Ready condition of a summary.
use addonconfig.Common.{
  some_not_none, true_not_false, ◌≡◌, ◌↔◌, refl, sym, ap, ◌∙◌, Bool, true, false, ◌&&◌, ◌||◌, not,
  Option, some, List, [], ◌∷◌, ◌==◌, ==_iff, arith, map, Option-cases, List-cases, String, inl, inr,
}
use addonconfig.Api.Condition.{
  Condition, Conditions, ConditionType, Time, ready_condition, condition_true, status_eq,
}
use addonconfig.Conditions.Getter.{Getter, is_true}
use addonconfig.Conditions.Setter.{set, true_condition, stamped}
use addonconfig.Conditions.Groups.{LocalizedCondition, ConditionGroup, get_condition_groups}
use addonconfig.Conditions.GroupTests.{Test, some_condition}
use addonconfig.Conditions.Merge.{merge, merge_top}
use addonconfig.Conditions.Strategies.{
  get_reason, get_message, MergeOptions, no_options, with_conditions, apply_options,
}
use addonconfig.Conditions.Summary.{in_scope, listed, step_options, summary, set_summary}
use addonconfig.Conditions.Lookup.{get-set_condition, written, rewritten}
use mathlib.Core.Option.{some-injective}
use addonconfig.Conditions.Priority.{merge-nil, merge-cons, merge-none}
use addonconfig.Conditions.Outcomes.{has_status, is_failure, merge-true}

-- Whether one of the conditions of the listed types, Ready left out, passes the test.
abbrev pub some_listed : Test → List ConditionType → Conditions → Bool
some_listed p types [] = false
some_listed p types (c ∷ cs) =
    (not (c.type == ready_condition) && listed types c.type && p c.status c.severity)
    || some_listed p types cs

scope_listed :
    (p : Test) (types : List ConditionType) (from : Getter) (cs : Conditions)
    → some_condition p
        (map (λ c. some (record { condition = c; getter = from })) (in_scope (some types) cs))
      ≡ some_listed p types cs
unfolding in_scope
scope_listed p types from [] = refl
scope_listed p types from (c ∷ cs) = ground (arith, scope_listed p types from cs)

merge_top-only :
    (g : ConditionGroup) (t : ConditionType) (reason message : String)
    → status_eq (merge_top g t reason message).status condition_true ≡ true
    → merge_top g t reason message ≡ true_condition t
unfolding merge_top
merge_top-only g t reason message h = ground arith

merge_top-type :
    (g : ConditionGroup) (t : ConditionType) (reason message : String)
    → (merge_top g t reason message).type ≡ t
unfolding merge_top
merge_top-type g t reason message = ground arith

-- A merge has the type asked for, and one whose status is True is the True condition.
merge-shape :
    (cs : List (Option LocalizedCondition)) (t : ConditionType) (o : MergeOptions) (m : Condition)
    → merge cs t o ≡ some m
    → (m.type ≡ t) × (status_eq m.status condition_true ≡ true → m ≡ true_condition t)
merge-shape cs t o m h = elim (List-cases (get_condition_groups cs)) [
  | inl e ↦ elim (some_not_none (sym h ∙ merge-nil cs t o e)) [ ]
  | inr (g, gs, e) ↦
      let same = some-injective _ _ (sym (merge-cons cs t o g gs e) ∙ h) in
      (
        sym (ap (λ c. c.type) same)
            ∙ merge_top-type g t (get_reason (g ∷ gs) o) (get_message (g ∷ gs) o),
        (λ k.
            sym same
            ∙ merge_top-only g t (get_reason (g ∷ gs) o) (get_message (g ∷ gs) o)
                (ap (λ c. status_eq c.status condition_true) same ∙ k)),
      )
]

is_true-set :
    (now : Time) (cs : Conditions) (m : Condition) (t : ConditionType)
    → m.type ≡ t
    → is_true (set now cs (some m)) t ≡ status_eq m.status condition_true
unfolding is_true set written rewritten stamped
is_true-set now cs m t h = grind (arith, get-set_condition now cs m t, ==_iff m.type t)

-- The conditions that the summary merges.
abbrev merged_conditions : Getter → List ConditionType → List (Option LocalizedCondition)
merged_conditions from types =
    map (λ c. some (record { condition = c; getter = from }))
      (in_scope (some types) from.conditions)

summary-merge :
    (from : Getter) (t : ConditionType) (types : List ConditionType)
    → (o : MergeOptions) × (summary from (with_conditions (t ∷ types) ∷ [])
        ≡ merge (merged_conditions from (t ∷ types)) ready_condition o)
unfolding summary apply_options with_conditions
summary-merge from t types = (
  step_options (in_scope (some (t ∷ types)) from.conditions)
      (record no_options { condition_types = some (t ∷ types) }),
  refl,
)

-- Where one of the listed conditions is there, the summary of the listed types sets Ready to True
-- exactly where one of them is True and none is False with the severity Error, Warning or Info.
pub set_summary-Ready :
    (now : Time) (from : Getter) (t : ConditionType) (types : List ConditionType)
    → some_listed (λ _ _. true) (t ∷ types) from.conditions ≡ true
    → (is_true (set_summary now from (with_conditions (t ∷ types) ∷ [])) ready_condition ≡ true) ↔ (
        (some_listed (has_status condition_true) (t ∷ types) from.conditions ≡ true)
        × (some_listed is_failure (t ∷ types) from.conditions ≡ false))
unfolding set_summary
set_summary-Ready now from t types present =
    let cs = merged_conditions from (t ∷ types) in
    let (o, e) = summary-merge from t types in
    let seen = λ (p : Test). scope_listed p (t ∷ types) from from.conditions in
    elim (Option-cases (merge cs ready_condition o)) [
      | inl h ↦
          elim (true_not_false
            (sym present ∙ sym (seen (λ _ _. true)) ∙ (merge-none cs ready_condition o).0 h)) [ ]
      | inr (m, h) ↦
          let (type, only) = merge-shape cs ready_condition o m h in
          let ready =
            ap (λ s. is_true (set now from.conditions s) ready_condition) (e ∙ h)
            ∙ is_true-set now from.conditions m ready_condition type in
          (
            (λ k.
                let (some_true, no_failure) =
                  (merge-true cs ready_condition o).0 (h ∙ ap some (only (sym ready ∙ k))) in
                (
                  sym (seen (has_status condition_true)) ∙ some_true,
                  sym (seen is_failure) ∙ no_failure,
                )),
            (λ k.
                ready
                ∙ ap (λ c. status_eq c.status condition_true)
                    (some-injective _ _ (
                      sym h
                      ∙ (merge-true cs ready_condition o).1
                          (seen (has_status condition_true) ∙ k.0, seen is_failure ∙ k.1)))),
          )
    ]
