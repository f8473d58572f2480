-- ===== src/Conditions/Samples.antt =====
-- Conditions of an object and the theorems applied to them.
use addonconfig.Common.Result.{ok}
use addonconfig.Common.{
  true_not_false, ℕ, ◌≡◌, ◌≢◌, ◌↔◌, refl, sym, ap, ◌*◌, ◌+◌, true, false, not, ◌&&◌, Option, none,
  some, List, [], ◌∷◌, String, if◌then◌else◌, ◌==◌, is_ok, All, arith, ==_iff,
}
use addonconfig.Api.Condition.{
  Condition, Conditions, ConditionType, condition_true, condition_false, severity_error,
  severity_none, ready_condition, Time, status_eq, severity_eq,
}
use addonconfig.Conditions.Sprintf.{sprintf, quote}
use addonconfig.Conditions.Getter.{Getter, is_true, get}
use addonconfig.Conditions.Setter.{lexicographic_less, set_condition, sort, delete, true_condition}
use addonconfig.Conditions.Groups.{LocalizedCondition, merge_priority}
use addonconfig.Conditions.GroupTests.{some_condition, below, at}
use addonconfig.Conditions.Strategies.{with_conditions, no_options}
use addonconfig.Conditions.Merge.{merge}
use addonconfig.Conditions.Lookup.{written, get-set_condition}
use addonconfig.Conditions.Order.{IsCanonical, IsDistinct}
use addonconfig.Conditions.Canonical.{sort_unique, set_condition_comm, delete-set_condition}
use addonconfig.Conditions.Patch.{
  keeps_after, ApplyOptions, Patch, change_condition, add_condition, diff, apply_all,
}
use addonconfig.Conditions.ThreeWay.{type_of, IsDistinctPatch}
use addonconfig.Conditions.Distinctness.{diff-IsDistinct}
use addonconfig.Conditions.Conflicts.{has_conflict, ThreeWay, apply_all_ok, apply-ThreeWay}
use addonconfig.Conditions.Ownership.{SameState, apply-diff}
use addonconfig.Conditions.Priority.{merge-priority}
use addonconfig.Conditions.Ordering.{IsOrdered, set_condition-IsOrdered}
use addonconfig.Conditions.Summary.{set_summary}
use addonconfig.Conditions.Ready.{some_listed, set_summary-Ready}
use addonconfig.Conditions.Outcomes.{is_failure, graver, has_status, merge-true, merge-failure}

abbrev good : ConditionType → Time → Condition
good t time = record {
  type = t;
  status = condition_true;
  severity = severity_none;
  last_transition_time = time;
  reason = "";
  message = "";
}

abbrev bad : ConditionType → Time → Condition
bad t time = record {
  type = t;
  status = condition_false;
  severity = severity_error;
  last_transition_time = time;
  reason = "Broken";
  message = "it broke";
}

abbrev clock : ℕ → Time
clock n = 7_000_000_001 + n * 1_000_000_000

abbrev nothing_owned : ApplyOptions
nothing_owned = record { owned_conditions = []; force_overwrite = false }

abbrev all_owned : ApplyOptions
all_owned = record { owned_conditions = "A" ∷ "B" ∷ []; force_overwrite = false }

abbrev before : Conditions
before = good "A" 1_000_000_000 ∷ []

abbrev after : Conditions
after = bad "A" 0 ∷ good "B" 0 ∷ []

abbrev latest : Conditions
latest = good ready_condition 2_000_000_000 ∷ good "A" 1_000_000_000 ∷ []

abbrev result : Conditions
result = good ready_condition 2_000_000_000 ∷ bad "A" 7_000_000_000 ∷ good "B" 8_000_000_000 ∷ []

abbrev applied : Patch
applied =
    change_condition (good "A" 1_000_000_000) (bad "A" 7_000_000_000)
    ∷ add_condition (good "B" 8_000_000_000)
    ∷ []

applies : apply_all clock nothing_owned (diff before after) latest ≡ ok (result, applied)
unfolding apply_all diff status_eq severity_eq lexicographic_less
applies = refl

before-IsDistinct : IsDistinct before
unfolding get
before-IsDistinct = (refl, tt)

after-IsDistinct : IsDistinct after
unfolding get
after-IsDistinct = (refl, (refl, tt))

latest-IsCanonical : IsCanonical latest
unfolding get lexicographic_less
latest-IsCanonical = record { sorted = ((refl, tt), (tt, tt)); distinct = (refl, (refl, tt)) }

difference-IsDistinct : IsDistinctPatch (diff before after)
difference-IsDistinct = diff-IsDistinct before after before-IsDistinct after-IsDistinct

apply-ThreeWay_example : ThreeWay (get before "A") (get after "A") (get latest "A") (get result "A")
apply-ThreeWay_example =
    apply-ThreeWay clock nothing_owned before after latest result applied before-IsDistinct
      after-IsDistinct applies "A"

apply_all_ok_example :
    is_ok (apply_all clock nothing_owned (diff before after) latest)
    ≡ not (has_conflict nothing_owned latest (diff before after))
apply_all_ok_example =
    apply_all_ok clock nothing_owned (diff before after) latest difference-IsDistinct

apply-diff_example :
    (r : Conditions) × (p : Patch) × (apply_all clock nothing_owned (diff before after) before
      ≡ ok (r, p))
    × ((t : ConditionType) → SameState (get r t) (get after t))
apply-diff_example = apply-diff clock nothing_owned before after before-IsDistinct after-IsDistinct

types_owned : All (λ op. keeps_after all_owned (type_of op) ≡ true) (diff before after)
unfolding diff keeps_after status_eq
types_owned = (refl, (refl, tt))

get-set_condition_example :
    get (set_condition 7_000_000_001 latest (bad "A" 0)).0 "A"
    ≡ (if "A" == "A" then some (written 7_000_000_001 latest (bad "A" 0)) else get latest "A")
get-set_condition_example = get-set_condition 7_000_000_001 latest (bad "A" 0) "A"

abbrev unsorted : Conditions
unsorted = good "A" 1_000_000_000 ∷ good ready_condition 2_000_000_000 ∷ []

unsorted-IsDistinct : IsDistinct unsorted
unfolding get
unsorted-IsDistinct = (refl, (refl, tt))

apart : (t : ConditionType) → (ready_condition == t) ≡ true → ("A" == t) ≡ false
apart t h = sym (ap (λ u. "A" == u) ((==_iff ready_condition t).0 h))

same_conditions : (t : ConditionType) → get latest t ≡ get unsorted t
unfolding get
same_conditions t = ground (arith, apart t)

sort_unique_example : sort unsorted ≡ latest
sort_unique_example =
    sort_unique unsorted latest unsorted-IsDistinct latest-IsCanonical same_conditions

not_the_same : ◌≢◌ {A = String} "A" "C"
not_the_same e = true_not_false (sym (ap (λ t. t == "C") e))

set_condition_comm_example :
    (set_condition 7_000_000_001 (set_condition 7_000_000_001 after (good "A" 0)).0 (bad "C" 0)).0
    ≡ (set_condition 7_000_000_001 (set_condition 7_000_000_001 after (bad "C" 0)).0 (good "A" 0)).0
set_condition_comm_example =
    set_condition_comm 7_000_000_001 after (good "A" 0) (bad "C" 0) after-IsDistinct not_the_same

absent : get latest "C" ≡ none
unfolding get
absent = refl

delete-set_condition_example :
    delete (set_condition 7_000_000_001 latest (bad "C" 0)).0 "C" ≡ latest
delete-set_condition_example =
    delete-set_condition 7_000_000_001 latest (bad "C" 0) latest-IsCanonical absent

abbrev of_object : Condition → Option LocalizedCondition
of_object c = some (record {
  condition = c;
  getter = record { kind = "AddonConfig"; name = "a"; conditions = [] };
})

abbrev failing : List (Option LocalizedCondition)
failing = of_object (good "A" 0) ∷ none ∷ of_object (bad "B" 0) ∷ []

fails : some_condition is_failure failing ≡ true
fails = refl

abbrev merged : Condition
merged = bad ready_condition 0

merges : merge failing ready_condition no_options ≡ some merged
unfolding merge sprintf
merges = refl

merge-true_example :
    (merge failing ready_condition no_options ≡ some (true_condition ready_condition)) ↔ (
      (some_condition (has_status condition_true) failing ≡ true)
      × (some_condition is_failure failing ≡ false))
merge-true_example = merge-true failing ready_condition no_options

merge-failure_example :
    (m : Condition) × (merge failing ready_condition no_options ≡ some m)
    × (m.status ≡ condition_false)
    × ((is_failure m.status m.severity ≡ true)
        × (some_condition (λ s v. status_eq s m.status && severity_eq v m.severity) failing ≡ true)
        × (some_condition (graver m.severity) failing ≡ false))
merge-failure_example = merge-failure failing ready_condition no_options fails

merge-priority_example :
    (some_condition (below (merge_priority merged.status merged.severity)) failing ≡ false)
    × (some_condition (below 99) failing ≡ true
        → some_condition (at (merge_priority merged.status merged.severity)) failing ≡ true)
merge-priority_example = merge-priority failing ready_condition no_options merged merges

set_condition-IsOrdered_example : IsOrdered (set_condition 7_000_000_001 after (bad "C" 0)).0
set_condition-IsOrdered_example =
    set_condition-IsOrdered 7_000_000_001 after (bad "C" 0) after-IsDistinct

abbrev object : Getter
object = record { kind = "AddonConfig"; name = "a"; conditions = after }

seen : some_listed (λ _ _. true) ("A" ∷ "B" ∷ []) after ≡ true
seen = refl

set_summary-Ready_example :
    (is_true
        (set_summary 7_000_000_001 object (with_conditions ("A" ∷ "B" ∷ []) ∷ []))
        ready_condition
      ≡ true)
    ↔ ((some_listed (has_status condition_true) ("A" ∷ "B" ∷ []) after ≡ true)
        × (some_listed is_failure ("A" ∷ "B" ∷ []) after ≡ false))
set_summary-Ready_example = set_summary-Ready 7_000_000_001 object "A" ("B" ∷ []) seen

quoted :
    sprintf "Unable to find dependency by name %q" (quote "a" ∷ [])
    ≡ "Unable to find dependency by name \"a\""
unfolding sprintf quote
quoted = refl

-- A message that is passed on as a format does not survive a `%`.
garbled : sprintf "50% done" [] ≡ "50%!d(MISSING)one"
unfolding sprintf
garbled = refl
