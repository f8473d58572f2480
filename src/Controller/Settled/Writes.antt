-- ===== src/Controller/Settled/Writes.antt =====
-- controllers: what a reconciliation writes, as a list of writes in their order, apart from what it
-- reads: how one condition comes out of such a list, and how it comes out of the list a second time.
use addonconfig.Common.{
  ℕ, ◌+◌, ◌≤◌, suc, ◌≡◌, refl, ap, ◌∙◌, sym, true, false, Option, some, List, [], ◌∷◌, ◌++◌, ◌==◌,
  String, if◌then◌else◌, arith, inl, inr, ◌⊎◌, none, Bool-cases, ==_iff, eqb,
}
use addonconfig.Api.Condition.{Condition, Conditions, ConditionType, Time}
use addonconfig.Api.Config.{FieldErrors, OutputResource}
use addonconfig.Conditions.Getter.{get}
use addonconfig.Conditions.Setter.{set_condition, has_same_state, stamped, truncate}
use addonconfig.Conditions.Lookup.{get-set_condition, written, written_over, rewritten}
use addonconfig.Conditions.States.{timed_same}
use addonconfig.Controller.External.{OutputObject}

-- What a run writes and never reads.
pub record Status : Type 0 where
  pub conditions : Conditions
  pub field_errors : FieldErrors
  pub observed_schema_uid : Option String
  pub output_ref : Option OutputResource
  pub marks : ℕ
  pub saved : List OutputObject

pub data Write : Type 0 where
  mark : Condition → Write
  set_faults : FieldErrors → Write
  set_uid : Option String → Write
  set_output : Option OutputResource → Write
  save : OutputObject → Write

unfoldable pub write : (ℕ → Time) → Status → Write → Status
write clock s (mark c) = record s {
  conditions = (set_condition (clock s.marks) s.conditions c).0;
  marks = suc s.marks;
}
write clock s (set_faults f) = record s { field_errors = f }
write clock s (set_uid u) = record s { observed_schema_uid = u }
write clock s (set_output r) = record s { output_ref = r }
write clock s (save o) = record s { saved = s.saved ++ o ∷ [] }

unfoldable pub write_all : (ℕ → Time) → Status → List Write → Status
unfolding write
write_all clock s [] = s
write_all clock s (w ∷ ws) = write_all clock (write clock s w) ws

pub write_all-append :
    (clock : ℕ → Time) (s : Status) (ws vs : List Write)
    → write_all clock s (ws ++ vs) ≡ write_all clock (write_all clock s ws) vs
unfolding write_all
write_all-append clock s [] vs = refl
write_all-append clock s (w ∷ ws) vs = write_all-append clock (write clock s w) ws vs

-- How often a type is marked.
unfoldable pub count : ConditionType → List Write → ℕ
count t [] = 0
count t (mark c ∷ ws) = (if c.type == t then 1 else 0) + count t ws
count t (set_faults f ∷ ws) = count t ws
count t (set_uid u ∷ ws) = count t ws
count t (set_output r ∷ ws) = count t ws
count t (save o ∷ ws) = count t ws

pub count-append :
    (t : ConditionType) (ws vs : List Write) → count t (ws ++ vs) ≡ count t ws + count t vs
unfolding count
count-append t [] vs = omega arith
count-append t (mark c ∷ ws) vs = ground (arith, count-append t ws vs)
count-append t (set_faults f ∷ ws) vs = count-append t ws vs
count-append t (set_uid u ∷ ws) vs = count-append t ws vs
count-append t (set_output r ∷ ws) vs = count-append t ws vs
count-append t (save o ∷ ws) vs = count-append t ws vs

-- How often a type stands in a list of types.
unfoldable pub tally : ConditionType → List ConditionType → ℕ
tally t [] = 0
tally t (u ∷ us) = (if u == t then 1 else 0) + tally t us

pub tally-append :
    (t : ConditionType) (us vs : List ConditionType) → tally t (us ++ vs) ≡ tally t us + tally t vs
unfolding tally
tally-append t [] vs = omega arith
tally-append t (u ∷ us) vs = ground (arith, tally-append t us vs)

module _ (clock : ℕ → Time) (t : ConditionType) where
  abbrev looked_up : Status → Option Condition
  looked_up s = get s.conditions t

  abbrev Untouched : List Write → Type 0
  Untouched ws = (s : Status) → looked_up (write_all clock s ws) ≡ looked_up s

  -- The list writes `c` at some time, over what stood there.
  abbrev Replaced : List Write → Condition → Type 0
  Replaced ws c =
      (s : Status)
      → (now : Time) × (looked_up (write_all clock s ws) ≡ some (written_over now c (looked_up s)))

  write-other :
      (s : Status) (c : Condition)
      → (c.type == t) ≡ false
      → looked_up (write clock s (mark c)) ≡ looked_up s
  unfolding write
  write-other s c h = get-set_condition (clock s.marks) s.conditions c t ∙ (rw h refl)

  write-same :
      (s : Status) (c : Condition)
      → (c.type == t) ≡ true
      → looked_up (write clock s (mark c)) ≡ some (written_over (clock s.marks) c (looked_up s))
  unfolding write written
  write-same s c h =
      get-set_condition (clock s.marks) s.conditions c t
      ∙ rw h (
          ap (λ u. some (written_over (clock s.marks) c (get s.conditions u)))
            ((==_iff c.type t).0 h))

  one_more_not_none : (n : ℕ) → 1 + n ≡ 0 → ⊥
  one_more_not_none n h = omega arith

  last_one : (n : ℕ) → 1 + n ≡ 1 → n ≡ 0
  last_one n h = omega arith

  none_of_it : (n k : ℕ) → 0 + n ≡ k → n ≡ k
  none_of_it n k h = omega arith

  write_all-Untouched : (ws : List Write) → count t ws ≡ 0 → Untouched ws
  unfolding write_all write count
  write_all-Untouched [] h = λ s. refl
  write_all-Untouched (mark c ∷ ws) h = elim (Bool-cases (c.type == t)) [
    | inl same ↦ absurd (one_more_not_none (count t ws) (rw same at h))
    | inr other ↦ λ s.
        write_all-Untouched ws (none_of_it (count t ws) 0 (rw other at h)) (write clock s (mark c))
        ∙ write-other s c other
  ]
  write_all-Untouched (set_faults f ∷ ws) h = λ s. write_all-Untouched ws h _
  write_all-Untouched (set_uid u ∷ ws) h = λ s. write_all-Untouched ws h _
  write_all-Untouched (set_output r ∷ ws) h = λ s. write_all-Untouched ws h _
  write_all-Untouched (save o ∷ ws) h = λ s. write_all-Untouched ws h _

  write_all-Replaced :
      (ws : List Write) → count t ws ≡ 1 → (c : Condition) × (c.type ≡ t) × Replaced ws c
  unfolding write_all write count
  write_all-Replaced [] h = absurd (omega arith)
  write_all-Replaced (mark c ∷ ws) h = elim (Bool-cases (c.type == t)) [
    | inl same ↦ (
      c,
      (==_iff c.type t).0 same,
      λ s. (
        clock s.marks,
        write_all-Untouched ws (last_one (count t ws) (rw same at h)) (write clock s (mark c))
            ∙ write-same s c same,
      ),
    )
    | inr other ↦
        let (d, of_type, later) =
          write_all-Replaced ws (none_of_it (count t ws) 1 (rw other at h)) in
        (
          d,
          of_type,
          λ s.
              let (now, e) = later (write clock s (mark c)) in
              (now, e ∙ ap (λ o. some (written_over now d o)) (write-other s c other)),
        )
  ]
  write_all-Replaced (set_faults f ∷ ws) h =
      let (d, of_type, later) = write_all-Replaced ws h in (d, of_type, λ s. later _)
  write_all-Replaced (set_uid u ∷ ws) h =
      let (d, of_type, later) = write_all-Replaced ws h in (d, of_type, λ s. later _)
  write_all-Replaced (set_output r ∷ ws) h =
      let (d, of_type, later) = write_all-Replaced ws h in (d, of_type, λ s. later _)
  write_all-Replaced (save o ∷ ws) h =
      let (d, of_type, later) = write_all-Replaced ws h in (d, of_type, λ s. later _)

rewritten-at :
    (later time : Time) (c : Condition)
    → rewritten later (record c { last_transition_time = time }) c
      ≡ record c { last_transition_time = time }
unfolding rewritten
rewritten-at later time c = rw (timed_same c time) refl

-- A condition written over what it has itself written changes nothing.
written_over-again :
    (now later : Time) (c : Condition) (o : Option Condition)
    → written_over later c (some (written_over now c o)) ≡ written_over now c o
unfolding rewritten stamped
written_over-again now later c none = elim (Bool-cases (eqb c.last_transition_time 0)) [
  | inl unset ↦ rw unset (rewritten-at later (truncate now) c)
  | inr set ↦ rw set (rewritten-at later c.last_transition_time c)
]
written_over-again now later c (some e) = elim (Bool-cases (has_same_state e c)) [
  | inl same ↦ rw same (rewritten-at later e.last_transition_time c)
  | inr changed ↦ rw changed (rewritten-at later (truncate now) c)
]

zero_or_one : (n : ℕ) → n ≤ 1 → (n ≡ 0) ⊎ (n ≡ 1)
zero_or_one n h = ground arith

-- A type that a list of writes marks at most once comes out of the list, given what the list has
-- left of the type, as the list has left it, whatever the clock has come to.
pub get-write_all :
    (clock : ℕ → Time) (t : ConditionType) (ws : List Write) (s s' : Status)
    → count t ws ≤ 1
    → get s'.conditions t ≡ get (write_all clock s ws).conditions t
    → get (write_all clock s' ws).conditions t ≡ get s'.conditions t
get-write_all clock t ws s s' h e = elim (zero_or_one (count t ws) h) [
  | inl never ↦ write_all-Untouched clock t ws never s'
  | inr once ↦
      let (c, of_type, replaced) = write_all-Replaced clock t ws once in
      let (now, first) = replaced s in
      let (later, second) = replaced s' in
      second
      ∙ ap some (ap (λ o. written_over later c o) (e ∙ first) ∙ written_over-again now later c _)
      ∙ sym (e ∙ first)
]
