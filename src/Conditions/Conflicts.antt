-- ===== src/Conditions/Conflicts.antt =====
-- util/conditions/patch.go: when `Apply` succeeds, and what it then leaves.
use addonconfig.Common.Result.{ok, err}
use addonconfig.Common.{
  some_not_none, ℕ, suc, ◌≡◌, inl, inr, refl, sym, ap, ap₂, ◌∙◌, subst, Bool, true, false, not,
  ◌&&◌, ◌||◌, Option, none, some, [], ◌∷◌, ◌==◌, ==_iff, any, if◌then◌else◌, Bool-cases, arith,
  is_ok,
}
use addonconfig.Api.Condition.{ConditionType, Condition, Conditions, Time}
use addonconfig.Conditions.Getter.{get}
use addonconfig.Conditions.Setter.{has_same_state}
use addonconfig.Conditions.Order.{IsDistinct}
use addonconfig.Conditions.Patch.{
  PatchOperation, add_condition, change_condition, remove_condition, Patch, deep_equal, diff,
  ApplyOptions, keeps_after, Step, Applied, apply_operation, apply_all, and_rest,
}
use addonconfig.Conditions.ThreeWay.{
  type_of, HasState, IfOk, apply_operation-IfOk, operation_for, IsDistinctPatch, IfMerged, Merged,
  round, apply_all-IfMerged,
}
use addonconfig.Conditions.Difference.{expected, operation_for-diff}
use addonconfig.Conditions.Distinctness.{diff-IsDistinct}

-- Whether an operation cannot be reconciled with what the latest object has of its type: an added
-- condition that is there in another state, a changed one that is gone or is neither the one before
-- nor in the state after, a removed one that is there in another state.
abbrev pub clashes : Option Condition → PatchOperation → Bool
clashes none (add_condition a) = false
clashes (some l) (add_condition a) = not (has_same_state l a)
clashes none (change_condition b a) = true
clashes (some l) (change_condition b a) = not (deep_equal l b) && not (has_same_state l a)
clashes none (remove_condition b) = false
clashes (some l) (remove_condition b) = not (has_same_state l b)

-- It is a conflict only where the controller does not own the type.
abbrev pub conflicts : ApplyOptions → Option Condition → PatchOperation → Bool
conflicts o found op = not (keeps_after o (type_of op)) && clashes found op

abbrev pub has_conflict : ApplyOptions → Conditions → Patch → Bool
has_conflict o latest p = any (λ op. conflicts o (get latest (type_of op)) op) p

operation_ok_clash :
    (now : Time) (o : ApplyOptions) (latest : Conditions) (op : PatchOperation)
    → is_ok (apply_operation now o latest op) ≡ not (conflicts o (get latest (type_of op)) op)
unfolding apply_operation
operation_ok_clash now o latest (add_condition a) = ground arith
operation_ok_clash now o latest (change_condition b a) = ground arith
operation_ok_clash now o latest (remove_condition b) = ground arith

not_eq : (s t : ConditionType) → (s == t) ≡ false → (t == s) ≡ false
not_eq s t h = ground (arith, ==_iff s t, ==_iff t s)

any_same :
    (o : ApplyOptions) (latest middle : Conditions) (t : ConditionType) (p : Patch)
    → operation_for p t ≡ none
    → ((u : ConditionType) → (t == u) ≡ false → get middle u ≡ get latest u)
    → has_conflict o middle p ≡ has_conflict o latest p
unfolding operation_for
any_same o latest middle t [] alone others = refl
any_same o latest middle t (op ∷ p) alone others = elim (Bool-cases (type_of op == t)) [
  | inl same ↦ absurd (some_not_none (rw same at alone))
  | inr other ↦
      ap₂ (λ found rest. conflicts o found op || rest)
        (others (type_of op) (not_eq (type_of op) t other))
        (any_same o latest middle t p (rw other at alone) others)
]

and_rest_ok : (op : PatchOperation) (r : Applied) → is_ok (and_rest op r) ≡ is_ok r
and_rest_ok op (ok (latest', p')) = refl
and_rest_ok op (err e) = refl

not_or : (a b : Bool) → not (a || b) ≡ (not a && not b)
not_or a b = ground arith

-- Applying a patch without two operations for one type succeeds exactly where none of its operations
-- conflicts with what was there at the start.
pub apply_all_ok :
    (clock : ℕ → Time) (o : ApplyOptions) (p : Patch) (latest : Conditions)
    → IsDistinctPatch p
    → is_ok (apply_all clock o p latest) ≡ not (has_conflict o latest p)
unfolding apply_all
apply_all_ok clock o [] latest d = refl
apply_all_ok clock o (op ∷ p) latest d =
    go (apply_operation (clock 0) o latest op) (apply_operation-IfOk (clock 0) o latest op)
      (operation_ok_clash (clock 0) o latest op)
      (λ middle. apply_all_ok (λ n. clock (suc n)) o p middle d.1)
    ∙ sym (not_or (conflicts o (get latest (type_of op)) op) (has_conflict o latest p))
  where
    go :
        (s : Step)
        → IfOk op latest s
        → is_ok s ≡ not (conflicts o (get latest (type_of op)) op)
        → ((middle : Conditions)
            → is_ok (apply_all (λ n. clock (suc n)) o p middle) ≡ not (has_conflict o middle p))
        → is_ok (round clock o p s)
          ≡ (not (conflicts o (get latest (type_of op)) op) && not (has_conflict o latest p))
    go (err e) ran clash rest = ap (λ b. b && not (has_conflict o latest p)) clash
    go (ok (middle, op')) ran clash rest =
        and_rest_ok op' (apply_all (λ n. clock (suc n)) o p middle)
        ∙ rest middle
        ∙ ap not (any_same o latest middle (type_of op) p d.0 ran.others)
        ∙ ap (λ b. b && not (has_conflict o latest p)) clash

-- What a three-way merge makes of one type: `old` is the condition before, `new` the one after, and
-- `latest` the one on the object that is patched.
abbrev pub ThreeWay : (old new latest result : Option Condition) → Type 0
ThreeWay none none latest result = result ≡ latest
ThreeWay none (some a) latest result = HasState result a
ThreeWay (some b) none latest result = result ≡ none
ThreeWay (some b) (some a) latest result =
    if deep_equal a b then result ≡ latest else HasState result a

pub ThreeWay-of_Merged :
    (old new latest result : Option Condition)
    → Merged (expected old new) latest result
    → ThreeWay old new latest result
ThreeWay-of_Merged none none latest result h = h
ThreeWay-of_Merged none (some a) latest result h = h
ThreeWay-of_Merged (some b) none latest result h = h
ThreeWay-of_Merged (some b) (some a) latest result h = elim (Bool-cases (deep_equal a b)) [
  | inl same ↦ rw same (rw same at h)
  | inr other ↦ rw other (rw other at h)
]

-- Where the difference of two lists, in neither of which a type stands twice, is applied to a
-- third without an error, the result is the three-way merge: for every type the change from before
-- to after, and what the third list has where there was none.
pub apply-ThreeWay :
    (clock : ℕ → Time) (o : ApplyOptions) (before after latest result : Conditions) (p' : Patch)
    → IsDistinct before
    → IsDistinct after
    → apply_all clock o (diff before after) latest ≡ ok (result, p')
    → (t : ConditionType) → ThreeWay (get before t) (get after t) (get latest t) (get result t)
apply-ThreeWay clock o before after latest result p' db da h t = ThreeWay-of_Merged _ _ _ _ (
    subst (λ e. Merged e (get latest t) (get result t)) (operation_for-diff before after t da)
      (subst (IfMerged (diff before after) latest) h
        (apply_all-IfMerged clock o (diff before after) latest (diff-IsDistinct before after db da))
        t))
