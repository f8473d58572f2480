-- ===== src/Conditions/Matcher.antt =====
-- util/conditions/matcher.go and matchers.go: the matchers for conditions. `equal_text`, `equal_status`
-- and `equal_severity` are the Match of gomega.Equal on values of the three types.
use addonconfig.Common.{
  ◌≡◌, ◌↔◌, refl, sym, ap, ap₂, ◌∙◌, Bool, true, false, Option, none, some, List, [], ◌∷◌, String,
  ==_iff, arith, ◌==◌, ◌&&◌,
}
use addonconfig.Api.Condition.{
  ConditionStatus, ConditionSeverity, Condition, Conditions, status_eq_iff, severity_eq_iff,
  status_eq, severity_eq,
}
use addonconfig.Conditions.Setter.{has_same_state}
use addonconfig.Conditions.Sprintf.{sprintf}
use addonconfig.Conditions.Ownership.{same_state_sym}

same_truth : (x y : Bool) (P : Type 0) → (x ≡ true) ↔ P → (y ≡ true) ↔ P → x ≡ y
same_truth true y P h k = sym (k.1 (h.0 refl))
same_truth false true P h k = h.1 (k.0 refl)
same_truth false false P h k = refl

has_same_state_comm : (c d : Condition) → has_same_state c d ≡ has_same_state d c
has_same_state_comm c d =
    same_truth (has_same_state c d) (has_same_state d c) (has_same_state c d ≡ true)
      (λ h. h, λ h. h) (same_state_sym d c, same_state_sym c d)

module _ {Error : Type 0} (new_error : String → Error)
    (equal_text : (expected actual : String) → Bool × Option Error)
    (equal_status : (expected actual : ConditionStatus) → Bool × Option Error)
    (equal_severity : (expected actual : ConditionSeverity) → Bool × Option Error) where
  abbrev pub Matched : Type 0
  Matched = Bool × Option Error

  abbrev if_matched : Matched → Matched → Matched
  if_matched (true, e) rest = rest
  if_matched (false, e) rest = (false, e)

  -- `Match` of matchCondition; a value of another type is `none`.
  unfoldable pub match_condition : Condition → Option Condition → Matched
  match_condition expected none = (false, some (new_error "actual should be of type Condition"))
  match_condition expected (some actual) = if_matched (equal_text expected.type actual.type) (
      if_matched (equal_status expected.status actual.status) (
        if_matched (equal_severity expected.severity actual.severity) (
          if_matched (equal_text expected.reason actual.reason)
            (equal_text expected.message actual.message))))

  -- `Match` of conditionMatcher, which `HaveSameStateOf` makes.
  unfoldable pub have_same_state_of : Condition → Option Condition → Matched
  unfolding has_same_state
  have_same_state_of expected none = (false, some (new_error "value should be a condition"))
  have_same_state_of expected (some actual) = (has_same_state actual expected, none)

  -- The loop of `Match` of matchConditions.
  unfoldable pub match_elements : Conditions → List (Option Condition → Matched)
  unfolding match_condition
  match_elements [] = []
  match_elements (condition ∷ conditions) = match_condition condition ∷ match_elements conditions

  -- `Match` of matchConditions; `consist_of` is the Match of gomega.ConsistOf.
  unfoldable pub match_conditions :
      {Actual : Type 0}
      → (List (Option Condition → Matched) → Actual → Matched)
      → Conditions
      → Actual
      → Matched
  unfolding match_elements
  match_conditions consist_of expected actual = consist_of (match_elements expected) actual

  -- "Equal uses reflect.DeepEqual to compare actual with expected", and fails for two nils only.
  pub record IsEqual {A : Type 0} (equal : A → A → Matched) : Type 0 where
    pub compared : (a b : A) → ((equal a b).0 ≡ true) ↔ (a ≡ b)
    pub succeeds : (a b : A) → (equal a b).1 ≡ none

  equal-test :
      {A : Type 0} (equal : A → A → Matched) (a b : A) (test : Bool)
      → IsEqual equal
      → (test ≡ true) ↔ (a ≡ b)
      → equal a b ≡ (test, none)
  equal-test equal a b test comparing h =
      ap₂ (λ m e. (m, e)) (same_truth (equal a b).0 test (a ≡ b) (comparing.compared a b) h)
        (comparing.succeeds a b)

  in_order :
      (a b c d e : Bool)
      → if_matched
          (a, none)
          (if_matched (b, none) (if_matched (c, none) (if_matched (d, none) (e, none))))
        ≡ (a && b && d && c && e, none)
  in_order a b c d e = ground arith

  match_condition-has_same_state :
      (expected actual : Condition)
      → IsEqual equal_text
      → IsEqual equal_status
      → IsEqual equal_severity
      → match_condition expected (some actual) ≡ (has_same_state expected actual, none)
  unfolding match_condition has_same_state
  match_condition-has_same_state expected actual text status severity =
      rw
        (
          equal-test equal_text expected.type actual.type _ text (==_iff expected.type actual.type),
          equal-test equal_status expected.status actual.status _ status
              (status_eq_iff expected.status actual.status),
          equal-test equal_severity expected.severity actual.severity _ severity
              (severity_eq_iff expected.severity actual.severity),
          equal-test equal_text expected.reason actual.reason _ text
              (==_iff expected.reason actual.reason),
          equal-test equal_text expected.message actual.message _ text
              (==_iff expected.message actual.message),
        )
        (in_order (expected.type == actual.type) (status_eq expected.status actual.status)
          (severity_eq expected.severity actual.severity) (expected.reason == actual.reason)
          (expected.message == actual.message))

  -- The two matchers for a condition agree: each matches exactly the conditions in the same state, and
  -- does not fail for a condition; if gomega.Equal compares as documented.
  pub match_condition-have_same_state_of :
      (expected actual : Condition)
      → IsEqual equal_text
      → IsEqual equal_status
      → IsEqual equal_severity
      → match_condition expected (some actual) ≡ have_same_state_of expected (some actual)
  unfolding have_same_state_of
  match_condition-have_same_state_of expected actual text status severity =
      match_condition-has_same_state expected actual text status severity
      ∙ ap (λ b. (b, none)) (has_same_state_comm expected actual)

-- `FailureMessage` and `NegatedFailureMessage` of matchCondition and of matchConditions, given what `%#v`
-- prints for the two values.
unfoldable pub match_failure_message : (actual expected : String) → String
unfolding sprintf
match_failure_message actual expected =
    sprintf "expected\n\t%#v\nto match\n\t%#v\n" (actual ∷ expected ∷ [])

unfoldable pub negated_match_failure_message : (actual expected : String) → String
unfolding sprintf
negated_match_failure_message actual expected =
    sprintf "expected\n\t%#v\nto not match\n\t%#v\n" (actual ∷ expected ∷ [])

-- The same of conditionMatcher; `message` is format.Message of gomega.
unfoldable pub same_state_failure_message :
    {Value : Type 0}
    → (message : Value → String → Value → String) → (actual expected : Value) → String
same_state_failure_message message actual expected =
    message actual "to have the same state of" expected

unfoldable pub negated_same_state_failure_message :
    {Value : Type 0}
    → (message : Value → String → Value → String) → (actual expected : Value) → String
negated_same_state_failure_message message actual expected =
    message actual "not to have the same state of" expected
