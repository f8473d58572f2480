-- ===== src/Conditions/Alike.antt =====
-- util/conditions/patch.go: `Apply` writes transition times into the operations of its patch; what the
-- operations do stays the same.
use addonconfig.Common.Result.{ok, err}
use addonconfig.Common.{
  ℕ, suc, ◌≡◌, refl, ap, ◌∙◌, true, Option, none, some, [], ◌∷◌, Bool-cases, inl, inr,
}
use addonconfig.Api.Condition.{Condition, Conditions, Time}
use addonconfig.Conditions.Getter.{get}
use addonconfig.Conditions.Setter.{has_same_state, set_condition}
use addonconfig.Conditions.Lookup.{same_state_eq, set_condition-written}
use addonconfig.Conditions.Patch.{
  PatchOperation, add_condition, change_condition, remove_condition, Patch, deep_equal,
  ApplyOptions, keeps_after, Step, Applied, add_to, change_in, remove_from, apply_operation,
  apply_all, and_rest,
}
use addonconfig.Conditions.States.{has_same_state_refl, written-same}
use addonconfig.Conditions.ThreeWay.{round}

pub has_same_state_trans :
    (a b c : Condition)
    → has_same_state a b ≡ true
    → has_same_state b c ≡ true
    → has_same_state a c ≡ true
unfolding has_same_state
has_same_state_trans a b c h k = ap (λ d. has_same_state d c) (same_state_eq a b h) ∙ k

-- Two operations that differ in the transition time of their `After` at most.
pub data Alike : PatchOperation → PatchOperation → Type 0 where
  add_alike :
      {a a' : Condition} → has_same_state a' a ≡ true → Alike (add_condition a) (add_condition a')
  change_alike :
      {b b' a a' : Condition}
      → b' ≡ b
      → has_same_state a' a ≡ true
      → Alike (change_condition b a) (change_condition b' a')
  remove_alike : {b b' : Condition} → b' ≡ b → Alike (remove_condition b) (remove_condition b')

pub data AllAlike : Patch → Patch → Type 0 where
  none_alike : AllAlike [] []
  more_alike :
      {op op' : PatchOperation} {p p' : Patch}
      → Alike op op'
      → AllAlike p p'
      → AllAlike (op ∷ p) (op' ∷ p')

Alike-refl : (op : PatchOperation) → Alike op op
Alike-refl (add_condition a) = add_alike (has_same_state_refl a)
Alike-refl (change_condition b a) = change_alike refl (has_same_state_refl a)
Alike-refl (remove_condition b) = remove_alike refl

pub AllAlike-refl : (p : Patch) → AllAlike p p
AllAlike-refl [] = none_alike
AllAlike-refl (op ∷ p) = more_alike (Alike-refl op) (AllAlike-refl p)

Alike-trans : {o p q : PatchOperation} → Alike o p → Alike p q → Alike o q
Alike-trans (add_alike h) (add_alike k) = add_alike (has_same_state_trans _ _ _ k h)
Alike-trans (change_alike e h) (change_alike d k) =
    change_alike (d ∙ e) (has_same_state_trans _ _ _ k h)
Alike-trans (remove_alike e) (remove_alike d) = remove_alike (d ∙ e)

pub AllAlike-trans : {o p q : Patch} → AllAlike o p → AllAlike p q → AllAlike o q
AllAlike-trans none_alike none_alike = none_alike
AllAlike-trans (more_alike h hs) (more_alike k ks) =
    more_alike (Alike-trans h k) (AllAlike-trans hs ks)

-- The operation that a step returns.
abbrev StepAlike : PatchOperation → Step → Type 0
StepAlike op (ok (latest, op')) = Alike op op'
StepAlike op (err e) = Unit

set-same :
    (now : Time) (cs : Conditions) (c : Condition)
    → has_same_state (set_condition now cs c).1 c ≡ true
set-same now cs c =
    ap (λ d. has_same_state d c) (set_condition-written now cs c) ∙ written-same now cs c

set-Alike-add :
    (now : Time) (latest : Conditions) (a : Condition)
    → Alike (add_condition a) (add_condition (set_condition now latest a).1)
set-Alike-add now latest a = add_alike (set-same now latest a)

set-Alike-change :
    (now : Time) (latest : Conditions) (b a : Condition)
    → Alike (change_condition b a) (change_condition b (set_condition now latest a).1)
set-Alike-change now latest b a = change_alike refl (set-same now latest a)

add_to-Alike :
    (now : Time) (latest : Conditions) (a : Condition) (found : Option Condition)
    → StepAlike (add_condition a) (add_to found now latest a)
add_to-Alike now latest a none = set-Alike-add now latest a
add_to-Alike now latest a (some l) = elim (Bool-cases (has_same_state l a)) [
  | inl same ↦ rw same (Alike-refl (add_condition a))
  | inr other ↦ rw other tt
]

change_in-Alike :
    (now : Time) (latest : Conditions) (b a : Condition) (found : Option Condition)
    → StepAlike (change_condition b a) (change_in found now latest b a)
change_in-Alike now latest b a none = tt
change_in-Alike now latest b a (some l) = elim (Bool-cases (deep_equal l b)) [
  | inl unchanged ↦ rw unchanged (set-Alike-change now latest b a)
  | inr changed ↦ elim (Bool-cases (has_same_state l a)) [
    | inl same ↦ rw (changed, same) (Alike-refl (change_condition b a))
    | inr other ↦ rw (changed, other) tt
  ]
]

remove_from-Alike :
    (latest : Conditions) (b : Condition) (found : Option Condition)
    → StepAlike (remove_condition b) (remove_from found latest b)
remove_from-Alike latest b none = remove_alike refl
remove_from-Alike latest b (some l) = elim (Bool-cases (has_same_state l b)) [
  | inl same ↦ rw same (remove_alike refl)
  | inr other ↦ rw other tt
]

apply_operation-Alike :
    (now : Time) (o : ApplyOptions) (latest : Conditions) (op : PatchOperation)
    → StepAlike op (apply_operation now o latest op)
unfolding apply_operation
apply_operation-Alike now o latest (add_condition a) = elim (Bool-cases (keeps_after o a.type)) [
  | inl owned ↦ rw owned (set-Alike-add now latest a)
  | inr shared ↦ rw shared (add_to-Alike now latest a (get latest a.type))
]
apply_operation-Alike now o latest (change_condition b a) =
    elim (Bool-cases (keeps_after o a.type)) [
      | inl owned ↦ rw owned (set-Alike-change now latest b a)
      | inr shared ↦ rw shared (change_in-Alike now latest b a (get latest a.type))
    ]
apply_operation-Alike now o latest (remove_condition b) = elim (Bool-cases (keeps_after o b.type)) [
  | inl owned ↦ rw owned (remove_alike refl)
  | inr shared ↦ rw shared (remove_from-Alike latest b (get latest b.type))
]

-- The patch that `Apply` leaves, where it gives no error.
abbrev pub AppliedAlike : Patch → Applied → Type 0
AppliedAlike p (ok (latest, p')) = AllAlike p p'
AppliedAlike p (err e) = Unit

and_rest-Alike :
    (op op' : PatchOperation) (p : Patch) (r : Applied)
    → Alike op op'
    → AppliedAlike p r
    → AppliedAlike (op ∷ p) (and_rest op' r)
and_rest-Alike op op' p (ok (latest, p')) h k = more_alike h k
and_rest-Alike op op' p (err e) h k = tt

pub apply_all-Alike :
    (clock : ℕ → Time) (o : ApplyOptions) (p : Patch) (latest : Conditions)
    → AppliedAlike p (apply_all clock o p latest)
unfolding apply_all
apply_all-Alike clock o [] latest = none_alike
apply_all-Alike clock o (op ∷ p) latest =
    go (apply_operation (clock 0) o latest op) (apply_operation-Alike (clock 0) o latest op)
      (λ middle. apply_all-Alike (λ n. clock (suc n)) o p middle)
  where
    go :
        (s : Step)
        → StepAlike op s
        → ((middle : Conditions) → AppliedAlike p (apply_all (λ n. clock (suc n)) o p middle))
        → AppliedAlike (op ∷ p) (round clock o p s)
    go (err e) same rest = tt
    go (ok (middle, op')) same rest =
        and_rest-Alike op op' p (apply_all (λ n. clock (suc n)) o p middle) same (rest middle)
