-- ===== src/Controller/Settled/Fields.antt =====
-- controllers: how the fields beside the conditions come out of a list of writes, and out of the same
-- list a second time.
use addonconfig.Common.{
  ℕ, ◌≤◌, ◌≡◌, refl, sym, ap, ◌∙◌, List, [], ◌∷◌, ◌++◌, ◌==◌, ◌⊎◌, inl, inr, Bool-cases, ==_iff,
  arith,
}
use addonconfig.Api.Condition.{ConditionType, Time}
use addonconfig.Controller.Settled.Writes.{
  Status, Write, mark, set_faults, set_uid, set_output, save, write, write_all, tally,
}

module _ {A : Type 0} (clock : ℕ → Time) (field : Status → A) where
  -- The list leaves the field, or sets it to what does not depend on the status.
  abbrev LeavesOrSets : (Status → Status) → Type 0
  LeavesOrSets f =
      ((s : Status) → field (f s) ≡ field s) ⊎ ((a : A) × ((s : Status) → field (f s) ≡ a))

  abbrev after :
      {f g : Status → Status} → LeavesOrSets f → LeavesOrSets g → LeavesOrSets (λ s. g (f s))
  after h (inr (a, k)) = inr (a, λ s. k _)
  after (inl h) (inl k) = inl (λ s. k _ ∙ h s)
  after (inr (a, h)) (inl k) = inr (a, λ s. k _ ∙ h s)

  leaves_or_sets :
      ((w : Write) → LeavesOrSets (λ s. write clock s w))
      → (ws : List Write) → LeavesOrSets (λ s. write_all clock s ws)
  unfolding write_all
  leaves_or_sets each [] = inl (λ s. refl)
  leaves_or_sets each (w ∷ ws) = after (each w) (leaves_or_sets each ws)

  -- A field that every write leaves or sets comes out of a list as it stands, where it stands as the
  -- list has left it before.
  pub field-again :
      ((w : Write) → LeavesOrSets (λ s. write clock s w))
      → (ws : List Write) (s s' : Status) → field s' ≡ field (write_all clock s ws)
      → field (write_all clock s' ws) ≡ field s'
  field-again each ws s s' h = elim (leaves_or_sets each ws) [
    | inl same ↦ same s'
    | inr (a, set) ↦ set s' ∙ sym (set s) ∙ sym h
  ]

pub field_errors-write :
    (clock : ℕ → Time) (w : Write) → LeavesOrSets clock (λ s. s.field_errors) (λ s. write clock s w)
unfolding write
field_errors-write clock (mark c) = inl (λ s. refl)
field_errors-write clock (set_faults f) = inr (f, λ s. refl)
field_errors-write clock (set_uid u) = inl (λ s. refl)
field_errors-write clock (set_output r) = inl (λ s. refl)
field_errors-write clock (save o) = inl (λ s. refl)

pub schema_uid-write :
    (clock : ℕ → Time) (w : Write)
    → LeavesOrSets clock (λ s. s.observed_schema_uid) (λ s. write clock s w)
unfolding write
schema_uid-write clock (mark c) = inl (λ s. refl)
schema_uid-write clock (set_faults f) = inl (λ s. refl)
schema_uid-write clock (set_uid u) = inr (u, λ s. refl)
schema_uid-write clock (set_output r) = inl (λ s. refl)
schema_uid-write clock (save o) = inl (λ s. refl)

pub output_ref-write :
    (clock : ℕ → Time) (w : Write) → LeavesOrSets clock (λ s. s.output_ref) (λ s. write clock s w)
unfolding write
output_ref-write clock (mark c) = inl (λ s. refl)
output_ref-write clock (set_faults f) = inl (λ s. refl)
output_ref-write clock (set_uid u) = inl (λ s. refl)
output_ref-write clock (set_output r) = inr (r, λ s. refl)
output_ref-write clock (save o) = inl (λ s. refl)

saved-write :
    (clock : ℕ → Time) (w : Write) (s s' : Status)
    → s.saved ≡ s'.saved
    → (write clock s w).saved ≡ (write clock s' w).saved
unfolding write
saved-write clock (mark c) s s' h = h
saved-write clock (set_faults f) s s' h = h
saved-write clock (set_uid u) s s' h = h
saved-write clock (set_output r) s s' h = h
saved-write clock (save o) s s' h = ap (λ l. l ++ o ∷ []) h

-- The objects that a list of writes saves are the same from wherever it starts with none.
pub saved-write_all :
    (clock : ℕ → Time) (ws : List Write) (s s' : Status)
    → s.saved ≡ s'.saved
    → (write_all clock s ws).saved ≡ (write_all clock s' ws).saved
unfolding write_all
saved-write_all clock [] s s' h = h
saved-write_all clock (w ∷ ws) s s' h =
    saved-write_all clock ws (write clock s w) (write clock s' w) (saved-write clock w s s' h)

-- A list of types in which none stands twice.
unfoldable pub Distinct : List ConditionType → Type 0
Distinct [] = Unit
Distinct (u ∷ us) = (tally u us ≡ 0) × Distinct us

pub tally-once : (t : ConditionType) (us : List ConditionType) → Distinct us → tally t us ≤ 1
unfolding tally Distinct
tally-once t [] d = omega arith
tally-once t (u ∷ us) (new, d) = elim (Bool-cases (u == t)) [
  | inl same ↦ rw same (omega (arith, ap (λ r. tally r us) (sym ((==_iff u t).0 same))))
  | inr other ↦ rw other (omega (arith, tally-once t us d))
]
