-- ===== src/Conditions/Unopposed.antt =====
-- util/conditions/patch.go: what a patch that was applied without an error says of the changes that other
-- clients have made.
use addonconfig.Common.Result.{ok}
use addonconfig.Common.{
  ℕ, ◌≡◌, ◌⊎◌, inl, inr, refl, sym, ap, ◌∙◌, subst, Bool, true, false, not, ◌&&◌, ◌||◌, Option,
  none, some, [], ◌∷◌, ◌==◌, ==_iff, if◌then◌else◌, Bool-cases, arith, is_ok,
}
use addonconfig.Api.Condition.{ConditionType, Condition, Conditions, Time}
use addonconfig.Conditions.Getter.{get}
use addonconfig.Conditions.Setter.{has_same_state}
use addonconfig.Conditions.Lookup.{same_state_eq}
use addonconfig.Conditions.Order.{IsDistinct}
use addonconfig.Conditions.Patch.{
  PatchOperation, Patch, deep_equal, diff, ApplyOptions, keeps_after, apply_all,
}
use addonconfig.Conditions.ThreeWay.{type_of, operation_for, HasState}
use addonconfig.Conditions.Difference.{expected, operation_for-diff}
use addonconfig.Conditions.Distinctness.{diff-IsDistinct}
use addonconfig.Conditions.Conflicts.{clashes, has_conflict, apply_all_ok}
use addonconfig.Conditions.Alike.{
  has_same_state_trans, Alike, add_alike, change_alike, remove_alike, AllAlike,
}
use addonconfig.Conditions.Reapplied.{
  OptionAlike, both_none, both_some, operation_for-Alike, AllAlike-IsDistinct,
}

-- What the latest object has of a type does not go against the change from `old` to `new`: an added
-- condition is not there or has been added in the same state, a removed one is gone or in the state
-- in which it was, a changed one is as it was or already in the state after.
abbrev pub Unopposed : (old new latest : Option Condition) → Type 0
Unopposed none none latest = Unit
Unopposed none (some a) latest = (latest ≡ none) ⊎ HasState latest a
Unopposed (some b) none latest = (latest ≡ none) ⊎ HasState latest b
Unopposed (some b) (some a) latest =
    if deep_equal a b then Unit else ((latest ≡ some b) ⊎ HasState latest a)

pub deep_equal_lem : (c d : Condition) → deep_equal c d ≡ true → c ≡ d
unfolding deep_equal
deep_equal_lem c d h = ground (arith, same_state_eq c d)

abbrev Unclashed : Option PatchOperation → Option Condition → Type 0
Unclashed none latest = Unit
Unclashed (some op) latest = clashes latest op ≡ false

not-false : (b : Bool) → not b ≡ false → b ≡ true
not-false true h = refl
not-false false h = cc

same_through :
    (l a a' : Condition)
    → has_same_state a' a ≡ true
    → has_same_state l a' ≡ true
    → not (has_same_state l a) ≡ false
same_through l a a' same h = ap not (has_same_state_trans l a' a h same)

Alike-Unclashed :
    {op op' : PatchOperation} (latest : Option Condition)
    → Alike op op'
    → clashes latest op' ≡ false
    → clashes latest op ≡ false
Alike-Unclashed none (add_alike same) h = refl
Alike-Unclashed (some l) (add_alike {a} {a'} same) h =
    same_through l a a' same (not-false (has_same_state l a') h)
Alike-Unclashed none (change_alike e same) h = cc
Alike-Unclashed (some l) (change_alike {b} {b'} {a} {a'} e same) h =
    subst (λ d. (not (deep_equal l d) && not (has_same_state l a)) ≡ false) e
      (elim (Bool-cases (deep_equal l b')) [
        | inl unchanged ↦ rw unchanged refl
        | inr changed ↦
            let moved = not-false (has_same_state l a') (rw changed at h) in
            rw (changed, same_through l a a' same moved) refl
      ])
Alike-Unclashed none (remove_alike e) h = refl
Alike-Unclashed (some l) (remove_alike e) h = subst (λ d. not (has_same_state l d) ≡ false) e h

OptionAlike-Unclashed :
    {o o' : Option PatchOperation} (latest : Option Condition)
    → OptionAlike o o'
    → Unclashed o' latest
    → Unclashed o latest
OptionAlike-Unclashed latest both_none h = tt
OptionAlike-Unclashed latest (both_some same) h = Alike-Unclashed latest same h

or_false : (a b : Bool) → (a || b) ≡ false → (a ≡ false) × (b ≡ false)
or_false a b h = ground arith

has_conflict-Unclashed :
    (o : ApplyOptions) (latest : Conditions) (p : Patch) (t : ConditionType)
    → has_conflict o latest p ≡ false
    → keeps_after o t ≡ false
    → Unclashed (operation_for p t) (get latest t)
unfolding operation_for
has_conflict-Unclashed o latest [] t clean shared = tt
has_conflict-Unclashed o latest (op ∷ p) t clean shared =
    let (here, rest) = or_false _ _ clean in
    elim (Bool-cases (type_of op == t)) [
      | inl same ↦
          let here' : (not (keeps_after o t) && clashes (get latest t) op) ≡ false =
            subst (λ u. (not (keeps_after o u) && clashes (get latest u) op) ≡ false)
              ((==_iff (type_of op) t).0 same) here in
          rw same (rw shared at here')
      | inr other ↦ rw other (has_conflict-Unclashed o latest p t rest shared)
    ]

Unopposed-of :
    (old new latest : Option Condition)
    → Unclashed (expected old new) latest
    → Unopposed old new latest
Unopposed-of none none latest h = tt
Unopposed-of none (some a) none h = inl refl
Unopposed-of none (some a) (some l) h = inr (not-false (has_same_state l a) h)
Unopposed-of (some b) none none h = inl refl
Unopposed-of (some b) none (some l) h = inr (not-false (has_same_state l b) h)
Unopposed-of (some b) (some a) none h = elim (Bool-cases (deep_equal a b)) [
  | inl same ↦ rw same tt
  | inr other ↦ let f : true ≡ false = rw other at h in cc
]
Unopposed-of (some b) (some a) (some l) h = elim (Bool-cases (deep_equal a b)) [
  | inl same ↦ rw same tt
  | inr other ↦ rw other (elim (Bool-cases (deep_equal l b)) [
    | inl unchanged ↦ inl (ap some (deep_equal_lem l b unchanged))
    | inr changed ↦ inr (not-false (has_same_state l a) (rw (other, changed) at h))
  ])
]

-- Where a patch that is alike to the difference of two lists, in neither of which a type stands twice,
-- is applied to a third without an error, the third has nothing of a type that is not the helper's
-- that goes against the change.
pub AllAlike-Unopposed :
    (clock : ℕ → Time) (o : ApplyOptions) (before after latest result : Conditions) (p p' : Patch)
    → IsDistinct before
    → IsDistinct after
    → AllAlike (diff before after) p
    → apply_all clock o p latest ≡ ok (result, p')
    → (t : ConditionType) → keeps_after o t ≡ false
    → Unopposed (get before t) (get after t) (get latest t)
AllAlike-Unopposed clock o before after latest result p p' db da alike h t shared =
    let distinct = AllAlike-IsDistinct alike (diff-IsDistinct before after db da) in
    let clean : has_conflict o latest p ≡ false =
      not_true (has_conflict o latest p)
        (sym (apply_all_ok clock o p latest distinct) ∙ ap is_ok h) in
    Unopposed-of _ _ _ (
      subst (λ e. Unclashed e (get latest t)) (operation_for-diff before after t da)
        (OptionAlike-Unclashed (get latest t) (operation_for-Alike alike t)
          (has_conflict-Unclashed o latest p t clean shared)))
  where
    not_true : (b : Bool) → not b ≡ true → b ≡ false
    not_true true k = cc
    not_true false k = refl
