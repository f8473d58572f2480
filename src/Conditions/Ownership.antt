-- ===== src/Conditions/Ownership.antt =====
-- util/conditions/patch.go: patches on types that the controller owns, and on objects that no one
-- else has changed.
use addonconfig.Common.Result.{ok}
use addonconfig.Common.{
  some_not_none, true_not_false, ℕ, ◌≡◌, ◌⊎◌, inl, inr, refl, sym, ap, ap₂, ◌∙◌, subst, Bool, true,
  false, not, ◌&&◌, ◌||◌, Option, none, some, List, [], ◌∷◌, ◌==◌, ==_iff, ==_refl, All,
  if◌then◌else◌, Bool-cases, Result-cases, arith, is_ok,
}
use mathlib.Core.Option.{some-injective}
use addonconfig.Api.Condition.{
  status_eq_iff, severity_eq_iff, ConditionType, Condition, Conditions, Time,
}
use addonconfig.Conditions.Getter.{get}
use addonconfig.Conditions.Setter.{has_same_state}
use addonconfig.Conditions.Order.{IsDistinct}
use addonconfig.Conditions.Patch.{
  PatchOperation, Patch, deep_equal, diff, ApplyOptions, keeps_after, apply_all,
}
use addonconfig.Conditions.ThreeWay.{type_of, HasState, operation_for, IsDistinctPatch}
use addonconfig.Conditions.States.{has_same_state_refl}
use addonconfig.Conditions.Difference.{expected, operation_for-diff}
use addonconfig.Conditions.Distinctness.{diff-IsDistinct}
use addonconfig.Conditions.Conflicts.{clashes, has_conflict, apply_all_ok, ThreeWay, apply-ThreeWay}

owned-no_conflict :
    (o : ApplyOptions) (latest : Conditions) (p : Patch)
    → All (λ op. keeps_after o (type_of op) ≡ true) p
    → has_conflict o latest p ≡ false
owned-no_conflict o latest [] h = refl
owned-no_conflict o latest (op ∷ p) h =
    ap₂ (λ kept rest. not kept && clashes (get latest (type_of op)) op || rest) h.0
      (owned-no_conflict o latest p h.1)

-- A patch without two operations for one type applies to any conditions without an error where the
-- controller owns every type that it changes, or overwrites by force.
pub apply_all-owned :
    (clock : ℕ → Time) (o : ApplyOptions) (p : Patch) (latest : Conditions)
    → IsDistinctPatch p
    → All (λ op. keeps_after o (type_of op) ≡ true) p
    → is_ok (apply_all clock o p latest) ≡ true
apply_all-owned clock o p latest d h =
    apply_all_ok clock o p latest d ∙ ap not (owned-no_conflict o latest p h)

forced :
    (o : ApplyOptions) (p : Patch)
    → o.force_overwrite ≡ true
    → All (λ op. keeps_after o (type_of op) ≡ true) p
unfolding keeps_after
forced o [] h = tt
forced o (op ∷ p) h = (rw h, forced o p h)

All-map {ℓ κ μ} :
    {A : Type ℓ} (P : A → Type κ) (Q : A → Type μ) (xs : List A)
    → ((x : A) → P x → Q x)
    → All P xs
    → All Q xs
All-map P Q [] f h = tt
All-map P Q (x ∷ xs) f h = (f x h.0, All-map P Q xs f h.1)

-- Each operation of a patch without repeated types is the one for its type.
own_operation :
    (p : Patch) → IsDistinctPatch p → All (λ op. operation_for p (type_of op) ≡ some op) p
unfolding operation_for
own_operation [] d = tt
own_operation (op ∷ p) d = (
  rw (==_refl (type_of op)),
  All-map _ _ p (λ later e. go later e (Bool-cases (type_of op == type_of later)))
      (own_operation p d.1),
)
  where
    go :
        (later : PatchOperation)
        → operation_for p (type_of later) ≡ some later
        → ((type_of op == type_of later) ≡ true) ⊎ ((type_of op == type_of later) ≡ false)
        → (if type_of op == type_of later then some op else operation_for p (type_of later))
          ≡ some later
    go later e (inl same) = absurd (
        some_not_none
          (sym e ∙ ap (operation_for p) (sym ((==_iff (type_of op) (type_of later)).0 same)) ∙ d.0))
    go later e (inr other) = rw other e

pub deep_equal_refl : (c : Condition) → deep_equal c c ≡ true
unfolding deep_equal
deep_equal_refl c = ground (arith, has_same_state_refl c)

and_left : (a b : Bool) → (a && b) ≡ true → a ≡ true
and_left a b h = ground arith

ap_some {ℓ} :
    {A : Type ℓ} (f : A → Bool) {x y : A}
    → ◌≡◌ {A = Option A} (some x) (some y)
    → f x ≡ false
    → f y ≡ false
ap_some f {x} {y} e h = ap f (sym (some-injective x y e)) ∙ h

and_false : (b : Bool) → (b && false || false) ≡ false
and_false b = ground arith

pub same_state_sym : (c d : Condition) → has_same_state c d ≡ true → has_same_state d c ≡ true
unfolding has_same_state
same_state_sym c d h = ground (
  arith,
  ==_iff c.type d.type,
  ==_iff d.type c.type,
  status_eq_iff c.status d.status,
  status_eq_iff d.status c.status,
  ==_iff c.reason d.reason,
  ==_iff d.reason c.reason,
  severity_eq_iff c.severity d.severity,
  severity_eq_iff d.severity c.severity,
  ==_iff c.message d.message,
  ==_iff d.message c.message,
)

deep_state : (a b : Condition) → deep_equal a b ≡ true → has_same_state b a ≡ true
unfolding deep_equal
deep_state a b h = same_state_sym a b (and_left (has_same_state a b) _ h)

expected-clashes :
    (b a : Option Condition) (op : PatchOperation) → expected b a ≡ some op → clashes b op ≡ false
expected-clashes none none op h = cc
expected-clashes none (some a) op h = ap_some (clashes none) h refl
expected-clashes (some b) none op h = ap_some (clashes (some b)) h (ap not (has_same_state_refl b))
expected-clashes (some b) (some a) op h = elim (Bool-cases (deep_equal a b)) [
  | inl same ↦ absurd (some_not_none (sym (rw same at h)))
  | inr other ↦
      ap_some (clashes (some b)) (rw other at h)
        (ap (λ e. not e && not (has_same_state b a)) (deep_equal_refl b))
]

diff-no_conflict :
    (o : ApplyOptions) (before : Conditions) (p : Patch)
    → All (λ op. clashes (get before (type_of op)) op ≡ false) p
    → has_conflict o before p ≡ false
diff-no_conflict o before [] h = refl
diff-no_conflict o before (op ∷ p) h =
    ap₂ (λ clash rest. not (keeps_after o (type_of op)) && clash || rest) h.0
      (diff-no_conflict o before p h.1)
    ∙ and_false (not (keeps_after o (type_of op)))

-- The difference of two lists in which no type stands twice applies to the first of them without
-- an error, whoever owns the types.
pub apply_all-unchanged :
    (clock : ℕ → Time) (o : ApplyOptions) (before after : Conditions)
    → IsDistinct before
    → IsDistinct after
    → is_ok (apply_all clock o (diff before after) before) ≡ true
apply_all-unchanged clock o before after db da =
    apply_all_ok clock o (diff before after) before (diff-IsDistinct before after db da)
    ∙ ap not (
        diff-no_conflict o before (diff before after) (
          All-map _ _ (diff before after)
            (λ op e.
              expected-clashes (get before (type_of op)) (get after (type_of op)) op
                (sym (operation_for-diff before after (type_of op) da) ∙ e))
            (own_operation (diff before after) (diff-IsDistinct before after db da))))

-- Two values that `Get` may return show the same state.
abbrev pub SameState : Option Condition → Option Condition → Type 0
SameState r none = r ≡ none
SameState r (some a) = HasState r a

round_trip : (b a r : Option Condition) → ThreeWay b a b r → SameState r a
round_trip none none r h = h
round_trip none (some a) r h = h
round_trip (some b) none r h = h
round_trip (some b) (some a) r h = elim (Bool-cases (deep_equal a b)) [
  | inl same ↦ subst (λ o. HasState o a) (sym (rw same at h)) (deep_state a b same)
  | inr other ↦ rw other at h
]

-- The difference of two lists in which no type stands twice, applied to the first of them,
-- succeeds and gives every type the state that it has in the second.
pub apply-diff :
    (clock : ℕ → Time) (o : ApplyOptions) (before after : Conditions)
    → IsDistinct before
    → IsDistinct after
    → (result : Conditions) × (p' : Patch) × (apply_all clock o (diff before after) before
        ≡ ok (result, p'))
      × ((t : ConditionType) → SameState (get result t) (get after t))
apply-diff clock o before after db da =
    elim (Result-cases (apply_all clock o (diff before after) before)) [
      | inl ((result, p'), e) ↦ (
        result,
        p',
        e,
        (λ t.
            round_trip (get before t) (get after t) (get result t)
              (apply-ThreeWay clock o before after before result p' db da e t)),
      )
      | inr (fault, e) ↦
          absurd
            (true_not_false (sym (apply_all-unchanged clock o before after db da) ∙ ap is_ok e))
    ]
