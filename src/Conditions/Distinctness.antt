-- ===== src/Conditions/Distinctness.antt =====
-- util/conditions/patch.go: the types of the operations in the difference of two lists.
use addonconfig.Common.{
  some_not_none, ◌≡◌, ◌⊎◌, inl, inr, sym, ap, ◌∙◌, true, false, Option, none, some, [], ◌∷◌, ◌++◌,
  ◌==◌, ==_refl, if◌then◌else◌, Bool-cases,
}
use addonconfig.Api.Condition.{ConditionType, Condition, Conditions}
use addonconfig.Conditions.Getter.{get}
use addonconfig.Conditions.Order.{IsDistinct}
use addonconfig.Conditions.Patch.{
  PatchOperation, Patch, deep_equal, change_for, removal_for, changes, removals, diff,
}
use addonconfig.Conditions.ThreeWay.{type_of, operation_for, IsDistinctPatch}
use addonconfig.Conditions.Difference.{
  changed, removed, operation_for-changes, operation_for-removals, operation_for-append,
  removed-none, or_else,
}

changes-IsDistinct :
    (before targets : Conditions) → IsDistinct targets → IsDistinctPatch (changes before targets)
unfolding changes
changes-IsDistinct before [] d = tt
changes-IsDistinct before (a ∷ rest) d =
    go (get before a.type)
      (operation_for-changes before rest a.type d.1 ∙ ap (changed (get before a.type)) d.0)
      (changes-IsDistinct before rest d.1)
  where
    go :
        (found : Option Condition)
        → operation_for (changes before rest) a.type ≡ none
        → IsDistinctPatch (changes before rest)
        → IsDistinctPatch (change_for found a (changes before rest))
    go none alone ih = (alone, ih)
    go (some b) alone ih = elim (Bool-cases (deep_equal a b)) [
      | inl same ↦ rw same ih
      | inr other ↦ rw other (alone, ih)
    ]

removals-IsDistinct :
    (after bases : Conditions) → IsDistinct bases → IsDistinctPatch (removals after bases)
unfolding removals
removals-IsDistinct after [] d = tt
removals-IsDistinct after (b ∷ rest) d =
    go (get after b.type)
      (operation_for-removals after rest b.type
        ∙ ap (removed (get after b.type)) d.0
        ∙ sym (removed-none (get after b.type)))
      (removals-IsDistinct after rest d.1)
  where
    go :
        (found : Option Condition)
        → operation_for (removals after rest) b.type ≡ none
        → IsDistinctPatch (removals after rest)
        → IsDistinctPatch (removal_for found b (removals after rest))
    go none alone ih = (alone, ih)
    go (some a) alone ih = ih

append-IsDistinctPatch :
    (p q : Patch)
    → IsDistinctPatch p
    → IsDistinctPatch q
    → ((t : ConditionType) → (operation_for p t ≡ none) ⊎ (operation_for q t ≡ none))
    → IsDistinctPatch (p ++ q)
unfolding operation_for
append-IsDistinctPatch [] q dp dq apart = dq
append-IsDistinctPatch (op ∷ p) q dp dq apart = (
  operation_for-append p q (type_of op)
      ∙ ap (λ o. or_else o (operation_for q (type_of op))) dp.0
      ∙ apart_head (apart (type_of op)),
  append-IsDistinctPatch p q dp.1 dq (λ t. apart_tail t (Bool-cases (type_of op == t)) (apart t)),
)
  where
    apart_head :
        ((if type_of op == type_of op then some op else operation_for p (type_of op)) ≡ none)
          ⊎ (operation_for q (type_of op) ≡ none)
        → operation_for q (type_of op) ≡ none
    apart_head (inl e) = absurd (some_not_none (rw (==_refl (type_of op)) at e))
    apart_head (inr e) = e

    apart_tail :
        (t : ConditionType)
        → ((type_of op == t) ≡ true) ⊎ ((type_of op == t) ≡ false)
        → ((if type_of op == t then some op else operation_for p t) ≡ none)
          ⊎ (operation_for q t ≡ none)
        → (operation_for p t ≡ none) ⊎ (operation_for q t ≡ none)
    apart_tail t (inl same) (inl e) = absurd (some_not_none (rw same at e))
    apart_tail t (inr other) (inl e) = inl (rw other at e)
    apart_tail t _ (inr e) = inr e

-- The difference of two lists in which no type stands twice has no type twice.
pub diff-IsDistinct :
    (before after : Conditions)
    → IsDistinct before
    → IsDistinct after
    → IsDistinctPatch (diff before after)
unfolding diff
diff-IsDistinct before after db da =
    append-IsDistinctPatch (changes before after) (removals after before)
      (changes-IsDistinct before after da) (removals-IsDistinct after before db)
      (λ t.
        apart (get after t) (get before t) (operation_for-changes before after t da)
          (operation_for-removals after before t))
  where
    apart :
        (a b : Option Condition) {o r : Option PatchOperation}
        → o ≡ changed b a
        → r ≡ removed a b
        → (o ≡ none) ⊎ (r ≡ none)
    apart none b e f = inl e
    apart (some a) b e f = inr f
