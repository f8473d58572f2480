-- ===== src/Conditions/Getter.antt =====
-- util/conditions/getter.go: the readers of one condition. A `Getter` is represented by what its
-- methods return: the kind and the name of the object, and its conditions (nil and empty agree).
use addonconfig.Common.{
  String, Bool, true, false, Option, none, some, [], ◌∷◌, ◌==◌, if◌then◌else◌, is_some,
}
use addonconfig.Api.Condition.{
  condition_true, condition_false, condition_unknown, status_eq, ConditionSeverity, ConditionType,
  Condition, Conditions, Time,
}

pub record Getter : Type 0 where
  pub kind : String
  pub name : String
  pub conditions : Conditions

unfoldable pub get : Conditions → ConditionType → Option Condition
get [] t = none
get (c ∷ cs) t = if c.type == t then some c else get cs t

unfoldable pub has : Conditions → ConditionType → Bool
has cs t = is_some (get cs t)

-- `if c := Get(from, t); c != nil { return f(c) }; return otherwise`
abbrev field_or {ℓ} : {A : Type ℓ} → Option Condition → (Condition → A) → A → A
field_or none f otherwise = otherwise
field_or (some c) f otherwise = f c

unfoldable pub is_true : Conditions → ConditionType → Bool
unfolding status_eq
is_true cs t = field_or (get cs t) (λ c. status_eq c.status condition_true) false

unfoldable pub is_false : Conditions → ConditionType → Bool
unfolding status_eq
is_false cs t = field_or (get cs t) (λ c. status_eq c.status condition_false) false

unfoldable pub is_unknown : Conditions → ConditionType → Bool
unfolding status_eq
is_unknown cs t = field_or (get cs t) (λ c. status_eq c.status condition_unknown) true

unfoldable pub get_reason : Conditions → ConditionType → String
get_reason cs t = field_or (get cs t) (λ c. c.reason) ""

unfoldable pub get_message : Conditions → ConditionType → String
get_message cs t = field_or (get cs t) (λ c. c.message) ""

unfoldable pub get_severity : Conditions → ConditionType → Option ConditionSeverity
get_severity cs t = field_or (get cs t) (λ c. some c.severity) none

unfoldable pub get_last_transition_time : Conditions → ConditionType → Option Time
get_last_transition_time cs t = field_or (get cs t) (λ c. some c.last_transition_time) none
