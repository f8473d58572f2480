-- ===== src/Conditions/Strategies.antt =====
-- util/conditions/merge_strategies.go: the options of a merge, and how they make reason and message.
use Prim.Native.Char.{code}
use addonconfig.Common.{
  ℕ, String, Bool, true, false, ◌||◌, Option, none, some, List, [], ◌∷◌, ◌==◌, eqb, length, decimal,
  if◌then◌else◌,
}
use addonconfig.Api.Condition.{ConditionType}
use addonconfig.Conditions.Sprintf.{sprintf}
use addonconfig.Conditions.Getter.{Getter}
use addonconfig.Conditions.Groups.{LocalizedCondition, ConditionGroups, top_group, true_group}

-- A nil slice is `none`.
pub record MergeOptions : Type 0 where
  pub condition_types : Option (List ConditionType)
  pub add_source_ref : Bool
  pub add_step_counter : Bool
  pub add_step_counter_if_only_condition_types : Option (List ConditionType)
  pub step_counter : ℕ

-- `&mergeOptions{}`
abbrev pub no_options : MergeOptions
no_options = record {
  condition_types = none;
  add_source_ref = false;
  add_step_counter = false;
  add_step_counter_if_only_condition_types = none;
  step_counter = 0;
}

abbrev pub MergeOption : Type 0
MergeOption = MergeOptions → MergeOptions

-- The slice of a variadic parameter: nil for no arguments.
abbrev variadic {ℓ} : {A : Type ℓ} → List A → Option (List A)
variadic [] = none
variadic (x ∷ xs) = some (x ∷ xs)

unfoldable pub with_conditions : List ConditionType → MergeOption
with_conditions t c = record c { condition_types = variadic t }

unfoldable pub with_step_counter : MergeOption
with_step_counter c = record c { add_step_counter = true }

unfoldable pub with_step_counter_if : Bool → MergeOption
with_step_counter_if value c = record c { add_step_counter = value }

unfoldable pub with_step_counter_if_only : List ConditionType → MergeOption
with_step_counter_if_only t c = record c { add_step_counter_if_only_condition_types = variadic t }

unfoldable pub add_source_ref : MergeOption
add_source_ref c = record c { add_source_ref = true }

unfoldable pub apply_options : List MergeOption → MergeOptions → MergeOptions
apply_options [] c = c
apply_options (o ∷ os) c = apply_options os (o c)

-- `range` over a nil slice makes no round.
abbrev pub elements {ℓ} : {A : Type ℓ} → Option (List A) → List A
elements none = []
elements (some l) = l

-- The inner loop of `getFirstCondition`.
unfoldable pub of_type : ConditionType → List LocalizedCondition → Option LocalizedCondition
of_type p [] = none
of_type p (c ∷ cs) = if c.condition.type == p then some c else of_type p cs

abbrev or_else {ℓ} : {A : Type ℓ} → Option A → Option A → Option A
or_else none b = b
or_else (some a) b = some a

unfoldable pub by_priority :
    List ConditionType → List LocalizedCondition → Option LocalizedCondition
unfolding of_type
by_priority [] cs = none
by_priority (p ∷ ps) cs = or_else (of_type p cs) (by_priority ps cs)

-- The `switch` over the number of conditions in the group.
unfoldable pub first_in : List LocalizedCondition → List ConditionType → Option LocalizedCondition
unfolding by_priority
first_in [] priority = none
first_in (c ∷ []) priority = some c
first_in (c ∷ d ∷ ds) priority = or_else (by_priority priority (c ∷ d ∷ ds)) (some c)

unfoldable pub get_first_condition :
    ConditionGroups → List ConditionType → Option LocalizedCondition
unfolding top_group first_in
get_first_condition groups priority = elim (top_group groups) [
  | none ↦ none
  | some g ↦ first_in g.conditions priority
]

-- `strings.Contains(s, "@")`
contains_at : String → Bool
contains_at String.[] = false
contains_at (String.◌∷◌ c s) = eqb (code c) b'@' || contains_at s

unfoldable pub localize_reason : String → Getter → String
unfolding contains_at
localize_reason reason from =
    if contains_at reason
    then reason
    else sprintf "%s @ %s/%s" (reason ∷ from.kind ∷ from.name ∷ [])

unfoldable pub get_first_reason : ConditionGroups → List ConditionType → Bool → String
unfolding get_first_condition localize_reason
get_first_reason groups order source_ref = elim (get_first_condition groups order) [
  | none ↦ ""
  | some c ↦ if source_ref then localize_reason c.condition.reason c.getter else c.condition.reason
]

unfoldable pub get_reason : ConditionGroups → MergeOptions → String
unfolding get_first_reason
get_reason groups options =
    get_first_reason groups (elements options.condition_types) options.add_source_ref

-- The number x of "x of y completed".
unfoldable pub completed : ConditionGroups → ℕ
unfolding true_group
completed groups = elim (true_group groups) [ none ↦ 0 | some g ↦ length g.conditions ]

unfoldable pub get_step_counter_message : ConditionGroups → ℕ → String
unfolding completed
get_step_counter_message groups to =
    sprintf "%d of %d completed" (decimal (completed groups) ∷ decimal to ∷ [])

unfoldable pub get_first_message : ConditionGroups → List ConditionType → String
unfolding get_first_condition
get_first_message groups order = elim (get_first_condition groups order) [
  | none ↦ ""
  | some c ↦ c.condition.message
]

unfoldable pub get_message : ConditionGroups → MergeOptions → String
unfolding get_step_counter_message get_first_message
get_message groups options =
    if options.add_step_counter
    then get_step_counter_message groups options.step_counter
    else get_first_message groups (elements options.condition_types)
