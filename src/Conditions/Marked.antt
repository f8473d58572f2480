-- ===== src/Conditions/Marked.antt =====
-- util/conditions/setter.go: a condition that has just been marked False is False.
use addonconfig.Common.{◌≡◌, true, List, ==_refl, String, arith}
use addonconfig.Api.Condition.{Conditions, ConditionType, severity_error, Time}
use addonconfig.Conditions.Getter.{is_false}
use addonconfig.Conditions.Setter.{mark_false, set, false_condition, stamped}
use addonconfig.Conditions.Lookup.{get-set_condition, written, rewritten}

pub is_false-mark_false :
    (now : Time) (cs : Conditions) (t : ConditionType) (reason format : String) (args : List String)
    → is_false (mark_false now cs t reason severity_error format args) t ≡ true
unfolding is_false mark_false set false_condition written rewritten stamped
is_false-mark_false now cs t reason format args = grind (
  arith,
  get-set_condition now cs (false_condition t reason severity_error format args) t,
  ==_refl t,
)
