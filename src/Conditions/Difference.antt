-- ===== src/Conditions/Difference.antt =====
-- util/conditions/patch.go: which operations the difference of two lists has for a type.
use addonconfig.Common.{
  ◌≡◌, ◌≢◌, ◌⊎◌, inl, inr, refl, ap, ap₂, ◌∙◌, true, false, not, Option, none, some, [], ◌∷◌, ◌++◌,
  ◌==◌, ==_iff, if◌then◌else◌, Bool-cases, arith,
}
use addonconfig.Api.Condition.{ConditionType, Condition, Conditions}
use addonconfig.Conditions.Getter.{get}
use addonconfig.Conditions.Order.{IsDistinct}
use addonconfig.Conditions.Patch.{
  PatchOperation, add_condition, change_condition, remove_condition, Patch, deep_equal, change_for,
  removal_for, changes, removals, diff,
}
use addonconfig.Conditions.ThreeWay.{type_of, operation_for}

pub get-type :
    (cs : Conditions) (t : ConditionType) (c : Condition) → get cs t ≡ some c → c.type ≡ t
unfolding get
get-type [] t c h = cc
get-type (d ∷ ds) t c h = ground (arith, get-type ds t c, ==_iff d.type t)

-- The operation that turns what `before` has of a type into what `after` has of it.
abbrev pub expected : Option Condition → Option Condition → Option PatchOperation
expected none none = none
expected none (some a) = some (add_condition a)
expected (some b) none = some (remove_condition b)
expected (some b) (some a) = if not (deep_equal a b) then some (change_condition b a) else none

-- Its part that the loop over `after` makes, and the part of the loop over `before`.
abbrev pub changed : Option Condition → Option Condition → Option PatchOperation
changed b none = none
changed b (some a) = expected b (some a)

abbrev pub removed : Option Condition → Option Condition → Option PatchOperation
removed none (some b) = some (remove_condition b)
removed _ _ = none

change_for-operation :
    (found : Option Condition) (a : Condition) (rest : Patch) (t : ConditionType)
    → operation_for rest a.type ≡ none
    → operation_for (change_for found a rest) t
      ≡ (if a.type == t then changed found (some a) else operation_for rest t)
unfolding operation_for
change_for-operation none a rest t alone = refl
change_for-operation (some b) a rest t alone = ground (arith, ==_iff a.type t)

pub operation_for-changes :
    (before targets : Conditions) (t : ConditionType)
    → IsDistinct targets
    → operation_for (changes before targets) t ≡ changed (get before t) (get targets t)
unfolding changes operation_for
operation_for-changes before [] t d = refl
operation_for-changes before (a ∷ rest) t d =
    change_for-operation (get before a.type) a (changes before rest) t
      (operation_for-changes before rest a.type d.1 ∙ ap (changed (get before a.type)) d.0)
    ∙ head (Bool-cases (a.type == t)) (operation_for-changes before rest t d.1)
  where
    head :
        ((a.type == t) ≡ true) ⊎ ((a.type == t) ≡ false)
        → operation_for (changes before rest) t ≡ changed (get before t) (get rest t)
        → (if a.type == t
            then changed (get before a.type) (some a)
            else operation_for (changes before rest) t)
          ≡ changed (get before t) (if a.type == t then some a else get rest t)
    head (inl same) ih =
        rw same (ap (λ u. changed (get before u) (some a)) ((==_iff a.type t).0 same))
    head (inr other) ih = rw other ih

removal_for-operation :
    (found : Option Condition) (b : Condition) (rest : Patch) (t : ConditionType)
    → (found ≢ none → operation_for rest b.type ≡ none)
    → operation_for (removal_for found b rest) t
      ≡ (if b.type == t then removed found (some b) else operation_for rest t)
unfolding operation_for
removal_for-operation none b rest t alone = refl
removal_for-operation (some a) b rest t alone = ground (arith, ==_iff b.type t, alone (λ e. cc))

pub removed-none : (found : Option Condition) → none ≡ removed found none
removed-none none = refl
removed-none (some a) = refl

pub removed_some : (found o : Option Condition) → found ≢ none → removed found o ≡ none
removed_some none o h = absurd (h refl)
removed_some (some a) o h = refl

pub operation_for-removals :
    (after bases : Conditions) (t : ConditionType)
    → operation_for (removals after bases) t ≡ removed (get after t) (get bases t)
unfolding removals operation_for
operation_for-removals after [] t = removed-none (get after t)
operation_for-removals after (b ∷ rest) t =
    removal_for-operation (get after b.type) b (removals after rest) t (λ there.
      operation_for-removals after rest b.type
      ∙ removed_some (get after b.type) (get rest b.type) there)
    ∙ head (Bool-cases (b.type == t)) (operation_for-removals after rest t)
  where
    head :
        ((b.type == t) ≡ true) ⊎ ((b.type == t) ≡ false)
        → operation_for (removals after rest) t ≡ removed (get after t) (get rest t)
        → (if b.type == t
            then removed (get after b.type) (some b)
            else operation_for (removals after rest) t)
          ≡ removed (get after t) (if b.type == t then some b else get rest t)
    head (inl same) ih =
        rw same (ap (λ u. removed (get after u) (some b)) ((==_iff b.type t).0 same))
    head (inr other) ih = rw other ih

abbrev pub or_else : Option PatchOperation → Option PatchOperation → Option PatchOperation
or_else none b = b
or_else (some a) b = some a

pub operation_for-append :
    (p q : Patch) (t : ConditionType)
    → operation_for (p ++ q) t ≡ or_else (operation_for p t) (operation_for q t)
unfolding operation_for
operation_for-append [] q t = refl
operation_for-append (op ∷ p) q t = elim (Bool-cases (type_of op == t)) [
  | inl same ↦ rw same
  | inr other ↦ rw other (operation_for-append p q t)
]

split_expected : (b a : Option Condition) → or_else (changed b a) (removed a b) ≡ expected b a
split_expected none none = refl
split_expected (some b) none = refl
split_expected none (some a) = refl
split_expected (some b) (some a) = ground arith

-- Where no type stands twice in the second of two lists, their difference has for each type the
-- operation that turns what was before into what is after, and none where nothing has changed.
pub operation_for-diff :
    (before after : Conditions) (t : ConditionType)
    → IsDistinct after
    → operation_for (diff before after) t ≡ expected (get before t) (get after t)
unfolding diff
operation_for-diff before after t d =
    operation_for-append (changes before after) (removals after before) t
    ∙ ap₂ or_else (operation_for-changes before after t d) (operation_for-removals after before t)
    ∙ split_expected (get before t) (get after t)
