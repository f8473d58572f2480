-- ===== src/Conditions/Reapplied.antt =====
-- util/conditions/patch.go: a patch that an earlier `Apply` has left is applied again.
use addonconfig.Common.Result.{ok}
use addonconfig.Common.{
  All, ℕ, ◌≡◌, refl, sym, ap, subst, true, Option, none, some, ◌==◌, Bool-cases, inl, inr,
}
use addonconfig.Api.Condition.{ConditionType, Condition, Conditions, Time}
use addonconfig.Conditions.Getter.{get}
use addonconfig.Conditions.Setter.{has_same_state}
use addonconfig.Conditions.Lookup.{same_state_eq}
use addonconfig.Conditions.Order.{IsDistinct}
use addonconfig.Conditions.Patch.{PatchOperation, Patch, diff, ApplyOptions, apply_all}
use addonconfig.Conditions.ThreeWay.{
  type_of, operation_for, IsDistinctPatch, HasState, Merged, IfMerged, apply_all-IfMerged,
}
use addonconfig.Conditions.Difference.{operation_for-diff}
use addonconfig.Conditions.Distinctness.{diff-IsDistinct}
use addonconfig.Conditions.Conflicts.{ThreeWay, ThreeWay-of_Merged}
use addonconfig.Conditions.Alike.{
  has_same_state_trans, Alike, add_alike, change_alike, remove_alike, AllAlike, none_alike,
  more_alike,
}

-- What `Apply` is told to do for a type, by a patch and by one that is alike.
pub data OptionAlike : Option PatchOperation → Option PatchOperation → Type 0 where
  both_none : OptionAlike none none
  both_some : {op op' : PatchOperation} → Alike op op' → OptionAlike (some op) (some op')

pub type_of-Alike : {op op' : PatchOperation} → Alike op op' → type_of op ≡ type_of op'
type_of-Alike (add_alike h) = sym (ap (λ c. c.type) (same_state_eq _ _ h))
type_of-Alike (change_alike e h) = sym (ap (λ c. c.type) (same_state_eq _ _ h))
type_of-Alike (remove_alike e) = sym (ap (λ c. c.type) e)

pub operation_for-Alike :
    {p p' : Patch}
    → AllAlike p p'
    → (t : ConditionType) → OptionAlike (operation_for p t) (operation_for p' t)
unfolding operation_for
operation_for-Alike none_alike t = both_none
operation_for-Alike (more_alike {op} {op'} {p} {p'} h hs) t = elim (Bool-cases (type_of op == t)) [
  | inl same ↦ rw (same, rw (type_of-Alike h) at same) (both_some h)
  | inr other ↦ rw (other, rw (type_of-Alike h) at other) (operation_for-Alike hs t)
]

OptionAlike-none : {o o' : Option PatchOperation} → OptionAlike o o' → o ≡ none → o' ≡ none
OptionAlike-none both_none h = refl
OptionAlike-none (both_some k) h = cc

pub AllAlike-IsDistinct : {p p' : Patch} → AllAlike p p' → IsDistinctPatch p → IsDistinctPatch p'
AllAlike-IsDistinct none_alike d = tt
AllAlike-IsDistinct (more_alike {op} {op'} {p} {p'} h hs) d = (
  OptionAlike-none (operation_for-Alike hs (type_of op'))
      (subst (λ t. operation_for p t ≡ none) (type_of-Alike h) d.0),
  AllAlike-IsDistinct hs d.1,
)

HasState-same :
    (o : Option Condition) (a' a : Condition)
    → has_same_state a' a ≡ true
    → HasState o a'
    → HasState o a
HasState-same none a' a h k = k
HasState-same (some d) a' a h k = has_same_state_trans d a' a k h

Merged-Alike :
    {o o' : Option PatchOperation}
    → OptionAlike o o'
    → (old new : Option Condition) → Merged o' old new
    → Merged o old new
Merged-Alike both_none old new h = h
Merged-Alike (both_some (add_alike same)) old new h = HasState-same new _ _ same h
Merged-Alike (both_some (change_alike e same)) old new h = HasState-same new _ _ same h
Merged-Alike (both_some (remove_alike e)) old new h = h

-- Where a patch that is alike to the difference of two lists, in neither of which a type stands twice,
-- is applied to a third without an error, the result is the three-way merge.
pub AllAlike-ThreeWay :
    (clock : ℕ → Time) (o : ApplyOptions) (before after latest result : Conditions) (p p' : Patch)
    → IsDistinct before
    → IsDistinct after
    → AllAlike (diff before after) p
    → apply_all clock o p latest ≡ ok (result, p')
    → (t : ConditionType) → ThreeWay (get before t) (get after t) (get latest t) (get result t)
AllAlike-ThreeWay clock o before after latest result p p' db da alike h t =
    ThreeWay-of_Merged _ _ _ _ (
      subst (λ e. Merged e (get latest t) (get result t)) (operation_for-diff before after t da)
        (Merged-Alike (operation_for-Alike alike t) _ _ (
          subst (IfMerged p latest) h
            (apply_all-IfMerged clock o p latest
              (AllAlike-IsDistinct alike (diff-IsDistinct before after db da)))
            t)))

-- What holds of the types of all operations holds of those of a patch that is alike.
pub AllAlike-types :
    (P : ConditionType → Type 0) {p p' : Patch}
    → AllAlike p p'
    → All (λ op. P (type_of op)) p
    → All (λ op. P (type_of op)) p'
AllAlike-types P none_alike h = tt
AllAlike-types P (more_alike same rest) h =
    (subst P (type_of-Alike same) h.0, AllAlike-types P rest h.1)
