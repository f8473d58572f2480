-- ===== src/Conditions/Setter.antt =====
-- util/conditions/setter.go: how one condition of an object is written and deleted.
use addonconfig.Common.{
  ◌-◌, ◌%◌, String, Bool, not, ◌&&◌, ◌||◌, Option, none, some, List, [], ◌∷◌, ◌++◌, ◌==◌, str_ltb,
  eqb, if◌then◌else◌,
}
use addonconfig.Api.Condition.{
  condition_true, condition_false, condition_unknown, status_eq, ConditionSeverity, severity_none,
  severity_eq, ConditionType, Condition, Conditions, Time, ready_condition,
}
use addonconfig.Conditions.Sprintf.{sprintf}

unfoldable pub lexicographic_less : Condition → Condition → Bool
lexicographic_less i j =
    (i.type == ready_condition || str_ltb i.type j.type) && not (j.type == ready_condition)

unfoldable pub has_same_state : Condition → Condition → Bool
has_same_state i j =
    i.type == j.type
    && status_eq i.status j.status
    && i.reason == j.reason
    && severity_eq i.severity j.severity
    && i.message == j.message

-- `time.Now().UTC().Truncate(time.Second)`, at the instant `now`.
abbrev pub truncate : Time → Time
truncate now = now - now % 1_000_000_000

-- `sort.Slice` with `lexicographicLess`, as the insertion sort that it is on up to 12 elements.
unfoldable pub insert : Condition → Conditions → Conditions
insert c [] = c ∷ []
insert c (d ∷ ds) = if lexicographic_less d c then d ∷ insert c ds else c ∷ d ∷ ds

unfoldable pub sort : Conditions → Conditions
unfolding insert
sort [] = []
sort (c ∷ cs) = insert c (sort cs)

-- What the loop of `Set` leaves behind it: the slice and the condition passed in, whose transition
-- time it sets; `none` where it leaves `exists` false.
abbrev pub Written : Type 0
Written = Option (Conditions × Condition)

abbrev pub behind : Condition → Written → Written
behind e none = none
behind e (some (cs, c)) = some (e ∷ cs, c)

unfoldable pub overwrite : Time → Condition → Conditions → Written
unfolding has_same_state
overwrite now c [] = none
overwrite now c (e ∷ es) =
    let changed = record c { last_transition_time = truncate now } in
    let kept = record c { last_transition_time = e.last_transition_time } in
    let later = behind e (overwrite now c es) in
    if e.type == c.type
    then (if not (has_same_state e c) then some (changed ∷ es, changed) else some (e ∷ es, kept))
    else later

-- "If the condition does not exist, add it, setting the transition time only if not already set"
unfoldable pub stamped : Time → Condition → Condition
stamped now c =
    if eqb c.last_transition_time 0 then record c { last_transition_time = truncate now } else c

abbrev pub or_append : Time → Condition → Conditions → Written → Conditions × Condition
or_append now c cs none = (cs ++ stamped now c ∷ [], stamped now c)
or_append now c cs (some w) = w

-- `Set`, for a condition that is not nil: the new conditions, and the condition that its pointer
-- then points to.
unfoldable pub set_condition : Time → Conditions → Condition → Conditions × Condition
unfolding overwrite stamped sort
set_condition now cs c = let (cs', c') = or_append now c cs (overwrite now c cs) in (sort cs', c')

unfoldable pub set : Time → Conditions → Option Condition → Conditions
unfolding set_condition
set now cs none = cs
set now cs (some c) = (set_condition now cs c).0

unfoldable pub true_condition : ConditionType → Condition
true_condition t = record {
  type = t;
  status = condition_true;
  severity = severity_none;
  last_transition_time = 0;
  reason = "";
  message = "";
}

unfoldable pub false_condition :
    ConditionType → String → ConditionSeverity → String → List String → Condition
false_condition t reason severity message_format message_args = record {
  type = t;
  status = condition_false;
  severity = severity;
  last_transition_time = 0;
  reason = reason;
  message = sprintf message_format message_args;
}

unfoldable pub unknown_condition : ConditionType → String → String → List String → Condition
unknown_condition t reason message_format message_args = record {
  type = t;
  status = condition_unknown;
  severity = severity_none;
  last_transition_time = 0;
  reason = reason;
  message = sprintf message_format message_args;
}

unfoldable pub mark_true : Time → Conditions → ConditionType → Conditions
unfolding set true_condition
mark_true now cs t = set now cs (some (true_condition t))

unfoldable pub mark_unknown :
    Time → Conditions → ConditionType → String → String → List String → Conditions
unfolding set unknown_condition
mark_unknown now cs t reason message_format message_args =
    set now cs (some (unknown_condition t reason message_format message_args))

unfoldable pub mark_false :
    Time
    → Conditions
    → ConditionType
    → String
    → ConditionSeverity
    → String
    → List String
    → Conditions
unfolding set false_condition
mark_false now cs t reason severity message_format message_args =
    set now cs (some (false_condition t reason severity message_format message_args))

unfoldable pub delete : Conditions → ConditionType → Conditions
delete [] t = []
delete (c ∷ cs) t = if not (c.type == t) then c ∷ delete cs t else delete cs t
