-- ===== src/Conditions/ThreeWay.antt =====
-- util/conditions/patch.go: what each operation of a patch, and a patch, does to the condition of a
-- type.
use addonconfig.Common.Result.{ok, err}
use addonconfig.Common.{
  ℕ, suc, ◌≡◌, inl, inr, refl, sym, subst, true, false, Option, none, some, [], ◌∷◌, ◌==◌, ==_iff,
  ==_refl, if◌then◌else◌, Bool-cases,
}
use addonconfig.Api.Condition.{ConditionType, Condition, Conditions, Time}
use addonconfig.Conditions.Getter.{get}
use addonconfig.Conditions.Setter.{has_same_state, set_condition, delete}
use addonconfig.Conditions.Lookup.{get-set_condition, get-delete}
use addonconfig.Conditions.Patch.{
  PatchOperation, add_condition, change_condition, remove_condition, Patch, deep_equal,
  ApplyOptions, keeps_after, Step, Applied, add_to, change_in, remove_from, apply_operation,
  apply_all, and_rest,
}
use addonconfig.Conditions.States.{written-same}

abbrev pub type_of : PatchOperation → ConditionType
type_of (add_condition after) = after.type
type_of (change_condition before after) = after.type
type_of (remove_condition before) = before.type

-- A condition is there, and in the state of `c`.
abbrev pub HasState : Option Condition → Condition → Type 0
HasState none c = ⊥
HasState (some d) c = has_same_state d c ≡ true

-- What an operation is to make of its type's condition.
abbrev pub Does : PatchOperation → Option Condition → Type 0
Does (add_condition after) o = HasState o after
Does (change_condition before after) o = HasState o after
Does (remove_condition before) o = o ≡ none

-- An operation has run: its type's condition is as it is to be, and no other has changed.
pub record Ran (op : PatchOperation) (latest latest' : Conditions) : Type 0 where
  pub done : Does op (get latest' (type_of op))
  pub others : (t : ConditionType) → (type_of op == t) ≡ false → get latest' t ≡ get latest t

set-HasState :
    (now : Time) (latest : Conditions) (c : Condition)
    → HasState (get (set_condition now latest c).0 c.type) c
set-HasState now latest c =
    rw (get-set_condition now latest c c.type, ==_refl c.type) (written-same now latest c)

set-others :
    (now : Time) (latest : Conditions) (c : Condition) (t : ConditionType)
    → (c.type == t) ≡ false
    → get (set_condition now latest c).0 t ≡ get latest t
set-others now latest c t h = rw (get-set_condition now latest c t, h)

delete-Ran :
    (latest : Conditions) (before : Condition)
    → Ran (remove_condition before) latest (delete latest before.type)
delete-Ran latest before = record {
  done = rw (get-delete latest before.type before.type, ==_refl before.type);
  others = λ t h. rw (get-delete latest before.type t, h);
}

set-Ran-add :
    (now : Time) (latest : Conditions) (c : Condition)
    → Ran (add_condition c) latest (set_condition now latest c).0
set-Ran-add now latest c = record {
  done = set-HasState now latest c;
  others = set-others now latest c;
}

set-Ran-change :
    (now : Time) (latest : Conditions) (b c : Condition)
    → Ran (change_condition b c) latest (set_condition now latest c).0
set-Ran-change now latest b c = record {
  done = set-HasState now latest c;
  others = set-others now latest c;
}

same-Ran-add :
    (latest : Conditions) (l c : Condition)
    → get latest c.type ≡ some l
    → has_same_state l c ≡ true
    → Ran (add_condition c) latest latest
same-Ran-add latest l c found same = record { done = rw found same; others = λ t h. refl }

same-Ran-change :
    (latest : Conditions) (l b c : Condition)
    → get latest c.type ≡ some l
    → has_same_state l c ≡ true
    → Ran (change_condition b c) latest latest
same-Ran-change latest l b c found same = record { done = rw found same; others = λ t h. refl }

-- Where an operation gives no error, it has run.
abbrev pub IfOk : PatchOperation → Conditions → Step → Type 0
IfOk op latest (ok (latest', op')) = Ran op latest latest'
IfOk op latest (err e) = Unit

add_to-IfOk :
    (now : Time) (latest : Conditions) (c : Condition) (found : Option Condition)
    → get latest c.type ≡ found
    → IfOk (add_condition c) latest (add_to found now latest c)
add_to-IfOk now latest c none h = set-Ran-add now latest c
add_to-IfOk now latest c (some l) h = elim (Bool-cases (has_same_state l c)) [
  | inl same ↦ rw same (same-Ran-add latest l c h same)
  | inr other ↦ rw other tt
]

change_in-IfOk :
    (now : Time) (latest : Conditions) (b c : Condition) (found : Option Condition)
    → get latest c.type ≡ found
    → IfOk (change_condition b c) latest (change_in found now latest b c)
change_in-IfOk now latest b c none h = tt
change_in-IfOk now latest b c (some l) h = elim (Bool-cases (deep_equal l b)) [
  | inl unchanged ↦ rw unchanged (set-Ran-change now latest b c)
  | inr changed ↦ elim (Bool-cases (has_same_state l c)) [
    | inl same ↦ rw (changed, same) (same-Ran-change latest l b c h same)
    | inr other ↦ rw (changed, other) tt
  ]
]

remove_from-IfOk :
    (latest : Conditions) (b : Condition) (found : Option Condition)
    → IfOk (remove_condition b) latest (remove_from found latest b)
remove_from-IfOk latest b none = delete-Ran latest b
remove_from-IfOk latest b (some l) = elim (Bool-cases (has_same_state l b)) [
  | inl same ↦ rw same (delete-Ran latest b)
  | inr other ↦ rw other tt
]

pub apply_operation-IfOk :
    (now : Time) (o : ApplyOptions) (latest : Conditions) (op : PatchOperation)
    → IfOk op latest (apply_operation now o latest op)
unfolding apply_operation
apply_operation-IfOk now o latest (add_condition c) = elim (Bool-cases (keeps_after o c.type)) [
  | inl owned ↦ rw owned (set-Ran-add now latest c)
  | inr shared ↦ rw shared (add_to-IfOk now latest c (get latest c.type) refl)
]
apply_operation-IfOk now o latest (change_condition b c) =
    elim (Bool-cases (keeps_after o c.type)) [
      | inl owned ↦ rw owned (set-Ran-change now latest b c)
      | inr shared ↦ rw shared (change_in-IfOk now latest b c (get latest c.type) refl)
    ]
apply_operation-IfOk now o latest (remove_condition b) = elim (Bool-cases (keeps_after o b.type)) [
  | inl owned ↦ rw owned (delete-Ran latest b)
  | inr shared ↦ rw shared (remove_from-IfOk latest b (get latest b.type))
]

-- The operation of a patch for a type.
unfoldable pub operation_for : Patch → ConditionType → Option PatchOperation
operation_for [] t = none
operation_for (op ∷ p) t = if type_of op == t then some op else operation_for p t

-- No type has two operations.
abbrev pub IsDistinctPatch : Patch → Type 0
IsDistinctPatch [] = Unit
IsDistinctPatch (op ∷ p) = (operation_for p (type_of op) ≡ none) × IsDistinctPatch p

-- What a patch is to make of a type's condition, which was `old`: what its operation does, or nothing.
abbrev pub Merged : Option PatchOperation → Option Condition → Option Condition → Type 0
Merged none old new = new ≡ old
Merged (some op) old new = Does op new

-- Where a patch gives no error, it makes of every type's condition what it is to make.
abbrev pub IfMerged : Patch → Conditions → Applied → Type 0
IfMerged p latest (ok (latest', p')) =
    (t : ConditionType) → Merged (operation_for p t) (get latest t) (get latest' t)
IfMerged p latest (err e) = Unit

Merged-cons :
    (op : PatchOperation) (p : Patch) (latest middle latest' : Conditions)
    → operation_for p (type_of op) ≡ none
    → Ran op latest middle
    → ((t : ConditionType) → Merged (operation_for p t) (get middle t) (get latest' t))
    → (t : ConditionType) → Merged (operation_for (op ∷ p) t) (get latest t) (get latest' t)
unfolding operation_for
Merged-cons op p latest middle latest' alone ran rest t = elim (Bool-cases (type_of op == t)) [
  | inl same ↦ rw same (
      subst (λ u. Does op (get latest' u)) ((==_iff (type_of op) t).0 same)
        (subst (Does op)
          (sym (
            subst (λ q. Merged q (get middle (type_of op)) (get latest' (type_of op))) alone
              (rest (type_of op))))
          ran.done))
  | inr other ↦
      rw other (
        subst (λ old. Merged (operation_for p t) old (get latest' t)) (ran.others t other) (rest t))
]

and_rest-IfMerged :
    (op op' : PatchOperation) (p : Patch) (latest middle : Conditions) (r : Applied)
    → operation_for p (type_of op) ≡ none
    → Ran op latest middle
    → IfMerged p middle r
    → IfMerged (op ∷ p) latest (and_rest op' r)
and_rest-IfMerged op op' p latest middle (ok (latest', p')) alone ran rest =
    Merged-cons op p latest middle latest' alone ran rest
and_rest-IfMerged op op' p latest middle (err e) alone ran rest = tt

-- One round of the loop of `Apply`, given what the operation came to.
abbrev pub round : (ℕ → Time) → ApplyOptions → Patch → Step → Applied
round clock o p s = elim s [
  | err e ↦ err e
  | ok (latest', op') ↦ and_rest op' (apply_all (λ n. clock (suc n)) o p latest')
]

pub apply_all-IfMerged :
    (clock : ℕ → Time) (o : ApplyOptions) (p : Patch) (latest : Conditions)
    → IsDistinctPatch p
    → IfMerged p latest (apply_all clock o p latest)
unfolding apply_all operation_for
apply_all-IfMerged clock o [] latest d = λ t. refl
apply_all-IfMerged clock o (op ∷ p) latest d =
    go (apply_operation (clock 0) o latest op) (apply_operation-IfOk (clock 0) o latest op)
      (λ middle. apply_all-IfMerged (λ n. clock (suc n)) o p middle d.1)
  where
    go :
        (s : Step)
        → IfOk op latest s
        → ((middle : Conditions) → IfMerged p middle (apply_all (λ n. clock (suc n)) o p middle))
        → IfMerged (op ∷ p) latest (round clock o p s)
    go (err e) ran rest = tt
    go (ok (middle, op')) ran rest =
        and_rest-IfMerged op op' p latest middle (apply_all (λ n. clock (suc n)) o p middle) d.0 ran
          (rest middle)
