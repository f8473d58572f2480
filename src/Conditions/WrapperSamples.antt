-- ===== src/Conditions/WrapperSamples.antt =====
-- Matchers, and their theorem applied to them.
use addonconfig.Common.{◌≡◌, refl, Bool, Option, none, some, String, ◌==◌, ==_iff}
use addonconfig.Api.Condition.{
  Condition, ConditionStatus, ConditionSeverity, condition_true, severity_none, status_eq,
  severity_eq, status_eq_iff, severity_eq_iff,
}
use addonconfig.Conditions.Matcher.{
  match_condition, have_same_state_of, match_condition-have_same_state_of,
}

abbrev ready : Condition
ready = record {
  type = "Ready";
  status = condition_true;
  severity = severity_none;
  last_transition_time = 5;
  reason = "";
  message = "";
}

abbrev equal_text : String → String → Bool × Option String
equal_text a b = (a == b, none)

abbrev equal_status : ConditionStatus → ConditionStatus → Bool × Option String
equal_status a b = (status_eq a b, none)

abbrev equal_severity : ConditionSeverity → ConditionSeverity → Bool × Option String
equal_severity a b = (severity_eq a b, none)

match_condition-have_same_state_of_example :
    match_condition (λ message. message) equal_text equal_status equal_severity ready (some ready)
    ≡ have_same_state_of
        (λ message. message)
        equal_text
        equal_status
        equal_severity
        ready
        (some ready)
match_condition-have_same_state_of_example =
    match_condition-have_same_state_of (λ message. message) equal_text equal_status equal_severity
      ready ready (record { compared = ==_iff; succeeds = λ a b. refl })
      (record { compared = status_eq_iff; succeeds = λ a b. refl })
      (record { compared = severity_eq_iff; succeeds = λ a b. refl })
