-- ===== src/Api/Condition.antt =====
-- api/v1alpha1/condition_types.go, and the condition types of addonconfig_types.go.
use addonconfig.Common.{ℕ, String, ◌≡◌, ◌↔◌, Bool, true, false, List, ◌==◌, ==_iff, arith}

-- corev1.ConditionStatus is a string type; `status_text` stands for a text other than the three.
pub data ConditionStatus : Type 0 where
  condition_true condition_false condition_unknown : ConditionStatus
  status_text : String → ConditionStatus

-- `severity_none` is the empty text, `severity_text` one that has no constant.
pub data ConditionSeverity : Type 0 where
  severity_error severity_warning severity_info severity_none : ConditionSeverity
  severity_text : String → ConditionSeverity

-- Go's `==` on the two string types.
unfoldable pub status_eq : ConditionStatus → ConditionStatus → Bool
status_eq condition_true condition_true = true
status_eq condition_false condition_false = true
status_eq condition_unknown condition_unknown = true
status_eq (status_text a) (status_text b) = a == b
status_eq _ _ = false

unfoldable pub severity_eq : ConditionSeverity → ConditionSeverity → Bool
severity_eq severity_error severity_error = true
severity_eq severity_warning severity_warning = true
severity_eq severity_info severity_info = true
severity_eq severity_none severity_none = true
severity_eq (severity_text a) (severity_text b) = a == b
severity_eq _ _ = false

abbrev pub ConditionType : Type 0
ConditionType = String

-- An instant, in nanoseconds from Go's zero time.
abbrev pub Time : Type 0
Time = ℕ

pub record Condition : Type 0 where
  pub type : ConditionType
  pub status : ConditionStatus
  pub severity : ConditionSeverity
  pub last_transition_time : Time
  pub reason : String
  pub message : String

abbrev pub Conditions : Type 0
Conditions = List Condition

abbrev pub ready_condition : ConditionType
ready_condition = "Ready"

abbrev pub valid_schema_condition : ConditionType
valid_schema_condition = "ValidSchema"

abbrev pub valid_config_condition : ConditionType
valid_config_condition = "ValidConfig"

abbrev pub defaulting_complete_condition : ConditionType
defaulting_complete_condition = "DefaultingComplete"

abbrev pub valid_target_condition : ConditionType
valid_target_condition = "ValidTarget"

abbrev pub valid_template_condition : ConditionType
valid_template_condition = "ValidTemplate"

abbrev pub valid_dependency_condition : ConditionType
valid_dependency_condition = "ValidDependency"

abbrev pub output_resource_updated_condition : ConditionType
output_resource_updated_condition = "OutputResourceUpdated"

pub status_eq_iff : (a b : ConditionStatus) → (status_eq a b ≡ true) ↔ (a ≡ b)
unfolding status_eq
status_eq_iff (status_text a) (status_text b) = ground (arith, ==_iff a b)
status_eq_iff condition_true b = ground arith
status_eq_iff condition_false b = ground arith
status_eq_iff condition_unknown b = ground arith
status_eq_iff (status_text a) b = ground arith

pub severity_eq_iff : (a b : ConditionSeverity) → (severity_eq a b ≡ true) ↔ (a ≡ b)
unfolding severity_eq
severity_eq_iff (severity_text a) (severity_text b) = ground (arith, ==_iff a b)
severity_eq_iff severity_error b = ground arith
severity_eq_iff severity_warning b = ground arith
severity_eq_iff severity_info b = ground arith
severity_eq_iff severity_none b = ground arith
severity_eq_iff (severity_text a) b = ground arith
