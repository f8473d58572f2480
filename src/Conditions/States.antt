-- ===== src/Conditions/States.antt =====
-- util/conditions/setter.go: the state of the condition that `Set` writes.
use addonconfig.Common.{◌≡◌, inl, inr, refl, true, eqb, ==_refl, Bool-cases, Option-cases, arith}
use addonconfig.Api.Condition.{status_eq_iff, severity_eq_iff, Condition, Conditions, Time}
use addonconfig.Conditions.Getter.{get}
use addonconfig.Conditions.Setter.{has_same_state, stamped}
use addonconfig.Conditions.Lookup.{written, rewritten}

pub has_same_state_refl : (c : Condition) → has_same_state c c ≡ true
unfolding has_same_state
has_same_state_refl c = ground (
  arith,
  ==_refl c.type,
  (status_eq_iff c.status c.status).1 refl,
  ==_refl c.reason,
  (severity_eq_iff c.severity c.severity).1 refl,
  ==_refl c.message,
)

pub timed_same :
    (c : Condition) (time : Time)
    → has_same_state (record c { last_transition_time = time }) c ≡ true
unfolding has_same_state
timed_same c time = has_same_state_refl c

stamped-same : (now : Time) (c : Condition) → has_same_state (stamped now c) c ≡ true
unfolding stamped
stamped-same now c = elim (Bool-cases (eqb c.last_transition_time 0)) [
  | inl h ↦ rw h (timed_same c _)
  | inr h ↦ rw h (has_same_state_refl c)
]

rewritten-same : (now : Time) (e c : Condition) → has_same_state (rewritten now e c) c ≡ true
unfolding rewritten
rewritten-same now e c = elim (Bool-cases (has_same_state e c)) [
  | inl h ↦ rw h (timed_same c e.last_transition_time)
  | inr h ↦ rw h (timed_same c _)
]

-- `Set` writes the state that it was given.
pub written-same :
    (now : Time) (cs : Conditions) (c : Condition) → has_same_state (written now cs c) c ≡ true
unfolding written
written-same now cs c = elim (Option-cases (get cs c.type)) [
  | inl h ↦ rw h (stamped-same now c)
  | inr (e, h) ↦ rw h (rewritten-same now e c)
]
