-- ===== src/Conditions/Patch.antt =====
-- util/conditions/patch.go: the difference of two lists of conditions, and its application to a third.
use addonconfig.Common.Result.{Result, ok, err}
use addonconfig.Common.{
  ℕ, suc, Bool, true, false, not, ◌&&◌, ◌||◌, Option, none, some, List, [], ◌∷◌, ◌++◌, ◌==◌, eqb,
  any, if◌then◌else◌,
}
use addonconfig.Api.Condition.{ConditionType, Condition, Conditions, Time}
use addonconfig.Conditions.Getter.{get}
use addonconfig.Conditions.Setter.{has_same_state, set_condition, delete}

-- One operation, by its `Op`, with the pointers that are set for it.
pub data PatchOperation : Type 0 where
  add_condition : (after : Condition) → PatchOperation
  change_condition : (before after : Condition) → PatchOperation
  remove_condition : (before : Condition) → PatchOperation

abbrev pub Patch : Type 0
Patch = List PatchOperation

pub data PatchError : Type 0 where
  before_is_nil after_is_nil latest_is_nil option_is_nil : PatchError
  add_conflict change_deleted change_conflict remove_conflict : ConditionType → PatchError

-- `reflect.DeepEqual` of two conditions: every field agrees.
unfoldable pub deep_equal : Condition → Condition → Bool
unfolding has_same_state
deep_equal c d = has_same_state c d && eqb c.last_transition_time d.last_transition_time

-- The operation for a condition of `after`, by what `before` has of its type; `rest` is what follows.
abbrev pub change_for : Option Condition → Condition → Patch → Patch
change_for none target rest = add_condition target ∷ rest
change_for (some current) target rest =
    if not (deep_equal target current) then change_condition current target ∷ rest else rest

unfoldable pub changes : Conditions → Conditions → Patch
unfolding get deep_equal
changes before [] = []
changes before (target ∷ targets) =
    change_for (get before target.type) target (changes before targets)

abbrev pub removal_for : Option Condition → Condition → Patch → Patch
removal_for none base rest = remove_condition base ∷ rest
removal_for (some target) base rest = rest

unfoldable pub removals : Conditions → Conditions → Patch
unfolding get
removals after [] = []
removals after (base ∷ bases) = removal_for (get after base.type) base (removals after bases)

unfoldable pub diff : Conditions → Conditions → Patch
unfolding changes removals
diff before after = changes before after ++ removals after before

-- `IsZero`: a patch that is nil or has no operations.
unfoldable pub is_zero : Patch → Bool
is_zero [] = true
is_zero (op ∷ p) = false

-- `NewPatch`; an object that is nil is `none`.
unfoldable pub new_patch : Option Conditions → Option Conditions → Result PatchError Patch
unfolding diff
new_patch none after = err before_is_nil
new_patch (some before) none = err after_is_nil
new_patch (some before) (some after) = ok (diff before after)

pub record ApplyOptions : Type 0 where
  pub owned_conditions : List ConditionType
  pub force_overwrite : Bool

abbrev pub ApplyOption : Type 0
ApplyOption = ApplyOptions → ApplyOptions

unfoldable pub is_owned_condition : ApplyOptions → ConditionType → Bool
is_owned_condition o t = any (λ i. i == t) o.owned_conditions

unfoldable pub with_owned_conditions : List ConditionType → ApplyOption
with_owned_conditions t c = record c { owned_conditions = t }

unfoldable pub with_force_overwrite : Bool → ApplyOption
with_force_overwrite v c = record c { force_overwrite = v }

-- `applyOpt.forceOverwrite || applyOpt.isOwnedCondition(t)`
unfoldable pub keeps_after : ApplyOptions → ConditionType → Bool
unfolding is_owned_condition
keeps_after o t = o.force_overwrite || is_owned_condition o t

-- The rest of the patch is run on the new conditions. An operation that calls `Set` changes the
-- transition time of its own `After`, so it is returned too.
abbrev pub Step : Type 0
Step = Result PatchError (Conditions × PatchOperation)

abbrev pub set_add : Time → Conditions → Condition → Step
set_add now latest after =
    let (latest', after') = set_condition now latest after in ok (latest', add_condition after')

abbrev pub set_change : Time → Conditions → Condition → Condition → Step
set_change now latest before after =
    let (latest', after') = set_condition now latest after in
    ok (latest', change_condition before after')

abbrev pub add_to : Option Condition → Time → Conditions → Condition → Step
add_to none now latest after = set_add now latest after
add_to (some l) now latest after =
    if not (has_same_state l after)
    then err (add_conflict after.type)
    else ok (latest, add_condition after)

abbrev pub change_in : Option Condition → Time → Conditions → Condition → Condition → Step
change_in none now latest before after = err (change_deleted after.type)
change_in (some l) now latest before after =
    if not (deep_equal l before)
    then (if not (has_same_state l after)
        then err (change_conflict after.type)
        else ok (latest, change_condition before after))
    else set_change now latest before after

abbrev pub delete_from : Conditions → Condition → Step
delete_from latest before = ok (delete latest before.type, remove_condition before)

abbrev pub remove_from : Option Condition → Conditions → Condition → Step
remove_from none latest before = delete_from latest before
remove_from (some l) latest before =
    if not (has_same_state l before)
    then err (remove_conflict before.type)
    else delete_from latest before

-- The body of the loop of `Apply`.
unfoldable pub apply_operation : Time → ApplyOptions → Conditions → PatchOperation → Step
unfolding keeps_after get deep_equal set_condition delete
apply_operation now o latest (add_condition after) =
    if keeps_after o after.type
    then set_add now latest after
    else add_to (get latest after.type) now latest after
apply_operation now o latest (change_condition before after) =
    if keeps_after o after.type
    then set_change now latest before after
    else change_in (get latest after.type) now latest before after
apply_operation now o latest (remove_condition before) =
    if keeps_after o before.type
    then delete_from latest before
    else remove_from (get latest before.type) latest before

abbrev pub Applied : Type 0
Applied = Result PatchError (Conditions × Patch)

abbrev pub and_rest : PatchOperation → Applied → Applied
and_rest op (ok (latest, p)) = ok (latest, op ∷ p)
and_rest op (err e) = err e

-- The loop of `Apply`; `clock n` is the time at its round n.
unfoldable pub apply_all : (ℕ → Time) → ApplyOptions → Patch → Conditions → Applied
unfolding apply_operation
apply_all clock o [] latest = ok (latest, [])
apply_all clock o (op ∷ p) latest = elim (apply_operation (clock 0) o latest op) [
  | err e ↦ err e
  | ok (latest', op') ↦ and_rest op' (apply_all (λ n. clock (suc n)) o p latest')
]

-- The loop over the options, of which each may be nil.
unfoldable pub apply_options :
    List (Option ApplyOption) → ApplyOptions → Result PatchError ApplyOptions
apply_options [] o = ok o
apply_options (none ∷ os) o = err option_is_nil
apply_options (some f ∷ os) o = apply_options os (f o)

abbrev no_apply_options : ApplyOptions
no_apply_options = record { owned_conditions = []; force_overwrite = false }

abbrev apply_with : Result PatchError ApplyOptions → (ApplyOptions → Applied) → Applied
apply_with (err e) run = err e
apply_with (ok o) run = run o

-- `Apply`; an object that is nil, which it refuses unless there is nothing to do, is `none`. What it
-- returns are the conditions then on the object, if there is one.
unfoldable pub apply :
    (ℕ → Time)
    → Patch
    → Option Conditions
    → List (Option ApplyOption)
    → Result PatchError (Option Conditions × Patch)
unfolding apply_all apply_options
apply clock [] latest options = ok (latest, [])
apply clock (op ∷ p) none options = err latest_is_nil
apply clock (op ∷ p) (some latest) options =
    elim (apply_with (apply_options options no_apply_options)
      (λ o. apply_all clock o (op ∷ p) latest)) [
        | err e ↦ err e
        | ok (latest', p') ↦ ok (some latest', p')
      ]
