-- ===== src/Conditions/Summary.antt =====
-- util/conditions/getter.go and setter.go: the summary of an object's conditions, the mirror of
-- another object's Ready condition, and the aggregate of the Ready conditions of several objects.
use addonconfig.Common.{
  ℕ, String, Bool, true, false, not, ◌&&◌, Option, none, some, List, [], ◌∷◌, ◌==◌, map, any,
  length, if◌then◌else◌,
}
use addonconfig.Api.Condition.{
  ConditionType, ConditionSeverity, severity_none, Condition, Conditions, Time, ready_condition,
}
use addonconfig.Conditions.Getter.{Getter, get}
use addonconfig.Conditions.Setter.{set, true_condition, false_condition}
use addonconfig.Conditions.Groups.{LocalizedCondition}
use addonconfig.Conditions.Strategies.{MergeOptions, MergeOption, no_options, apply_options}
use addonconfig.Conditions.Merge.{merge}

-- Whether the loop over `types` finds `t`.
abbrev pub listed : List ConditionType → ConditionType → Bool
listed types t = any (λ u. t == u) types

abbrev selected : Option (List ConditionType) → ConditionType → Bool
selected none t = true
selected (some types) t = listed types t

-- "all the existing conditions except Ready, or, if a list of conditions types is specified, only the
-- conditions in that list"
unfoldable pub in_scope : Option (List ConditionType) → Conditions → Conditions
in_scope types [] = []
in_scope types (c ∷ cs) =
    if not (c.type == ready_condition) && selected types c.type
    then c ∷ in_scope types cs
    else in_scope types cs

-- The loop that takes the counter away on the first condition that is not in the subset.
abbrev only_listed : Option (List ConditionType) → Conditions → Bool
only_listed none cs = true
only_listed (some types) cs = not (any (λ c. not (listed types c.type)) cs)

abbrev counted : Option (List ConditionType) → ℕ → ℕ
counted none n = n
counted (some types) n = length types

unfoldable pub step_options : Conditions → MergeOptions → MergeOptions
step_options scope o =
    let adds = o.add_step_counter && only_listed o.add_step_counter_if_only_condition_types scope in
    let total =
      counted o.add_step_counter_if_only_condition_types
        (counted o.condition_types (length scope)) in
    record o { add_step_counter = adds; step_counter = if adds then total else o.step_counter }

unfoldable pub summary : Getter → List MergeOption → Option Condition
unfolding apply_options in_scope step_options merge
summary from options =
    let merge_opt = apply_options options no_options in
    let scope = in_scope merge_opt.condition_types from.conditions in
    merge (map (λ c. some (record { condition = c; getter = from })) scope) ready_condition
      (step_options scope merge_opt)

pub record MirrorOptions : Type 0 where
  pub fallback_to : Option Bool
  pub fallback_reason : String
  pub fallback_severity : ConditionSeverity
  pub fallback_message : String

abbrev pub MirrorOption : Type 0
MirrorOption = MirrorOptions → MirrorOptions

-- `&mirrorOptions{}`
abbrev pub no_mirror_options : MirrorOptions
no_mirror_options = record {
  fallback_to = none;
  fallback_reason = "";
  fallback_severity = severity_none;
  fallback_message = "";
}

unfoldable pub with_fallback_value : Bool → String → ConditionSeverity → String → MirrorOption
with_fallback_value value reason severity message c = record {
  fallback_to = some value;
  fallback_reason = reason;
  fallback_severity = severity;
  fallback_message = message;
}

unfoldable pub apply_mirror_options : List MirrorOption → MirrorOptions → MirrorOptions
apply_mirror_options [] c = c
apply_mirror_options (o ∷ os) c = apply_mirror_options os (o c)

-- The condition before its type is set: the mirrored one or, where there is none, the fallback.
unfoldable pub mirrored : Option Condition → ConditionType → MirrorOptions → Option Condition
unfolding true_condition false_condition
mirrored (some c) target o = some c
mirrored none target o = elim o.fallback_to [
  | none ↦ none
  | some true ↦ some (true_condition target)
  | some false ↦
      some (false_condition target o.fallback_reason o.fallback_severity o.fallback_message [])
]

abbrev with_type : ConditionType → Option Condition → Option Condition
with_type target none = none
with_type target (some c) = some (record c { type = target })

unfoldable pub mirror : Getter → ConditionType → List MirrorOption → Option Condition
unfolding get mirrored apply_mirror_options
mirror from target options = with_type target (
    mirrored (get from.conditions ready_condition) target
      (apply_mirror_options options no_mirror_options))

-- The entry of one object: nil where it has no Ready condition.
abbrev pub localized : Getter → Option Condition → Option LocalizedCondition
localized from none = none
localized from (some c) = some (record { condition = c; getter = from })

unfoldable pub aggregate : List Getter → ConditionType → List MergeOption → Option Condition
unfolding get apply_options merge
aggregate from target options =
    merge (map (λ g. localized g (get g.conditions ready_condition)) from) target (
      apply_options options
        (record no_options { add_step_counter = true; step_counter = length from }))

unfoldable pub set_summary : Time → Getter → List MergeOption → Conditions
unfolding set summary
set_summary now to options = set now to.conditions (summary to options)

unfoldable pub set_mirror :
    Time → Conditions → ConditionType → Getter → List MirrorOption → Conditions
unfolding set mirror
set_mirror now to target from options = set now to (mirror from target options)

unfoldable pub set_aggregate :
    Time → Conditions → ConditionType → List Getter → List MergeOption → Conditions
unfolding set aggregate
set_aggregate now to target from options = set now to (aggregate from target options)
