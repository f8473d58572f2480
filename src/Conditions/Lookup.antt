-- ===== src/Conditions/Lookup.antt =====
-- What `Get` returns after `Set` and `Delete`, whatever the conditions were before.
use addonconfig.Common.{
  ◌≡◌, refl, ap, ◌∙◌, true, false, Option, none, some, [], ◌∷◌, ◌++◌, ◌==◌, ==_iff, str_ltb_irrefl,
  if◌then◌else◌, Bool-cases, inl, inr, arith,
}
use addonconfig.Api.Condition.{
  status_eq_iff, severity_eq_iff, ConditionType, Condition, Conditions, Time,
}
use addonconfig.Conditions.Getter.{get}
use addonconfig.Conditions.Setter.{
  lexicographic_less, has_same_state, truncate, insert, sort, Written, overwrite, stamped,
  or_append, set_condition, delete,
}

pub less_irrefl : (c d : Condition) → c.type ≡ d.type → lexicographic_less c d ≡ false
unfolding lexicographic_less
less_irrefl c d h = rw h (ground (arith, str_ltb_irrefl d.type))

pub get-insert :
    (c : Condition) (ds : Conditions) (t : ConditionType)
    → get (insert c ds) t ≡ (if c.type == t then some c else get ds t)
unfolding get insert
get-insert c [] t = refl
get-insert c (d ∷ ds) t =
    ground (arith, get-insert c ds t, less_irrefl d c, ==_iff c.type t, ==_iff d.type t)

pub get-sort : (cs : Conditions) (t : ConditionType) → get (sort cs) t ≡ get cs t
unfolding get sort
get-sort [] t = refl
get-sort (c ∷ cs) t = ground (arith, get-insert c (sort cs) t, get-sort cs t)

pub get-append :
    (cs : Conditions) (c : Condition) (k t : ConditionType)
    → c.type ≡ k
    → get cs k ≡ none
    → get (cs ++ c ∷ []) t ≡ (if k == t then some c else get cs t)
unfolding get
get-append [] c k t e h = rw e
get-append (d ∷ ds) c k t e h =
    ground (arith, get-append ds c k t, ==_iff k t, ==_iff d.type t, ==_iff d.type k)

-- The condition `c` as `Set` writes it over `e`: the transition time is kept where the state is the
-- same, and is otherwise the present second.
unfoldable pub rewritten : Time → Condition → Condition → Condition
rewritten now e c =
    if has_same_state e c
    then record c { last_transition_time = e.last_transition_time }
    else record c { last_transition_time = truncate now }

abbrev pub written_over : Time → Condition → Option Condition → Condition
written_over now c none = stamped now c
written_over now c (some e) = rewritten now e c

-- The condition that `Set` writes, described from what `Get` returned before.
unfoldable pub written : Time → Conditions → Condition → Condition
unfolding rewritten stamped
written now cs c = written_over now c (get cs c.type)

pub same_state_eq :
    (e c : Condition)
    → has_same_state e c ≡ true
    → e ≡ record c { last_transition_time = e.last_transition_time }
unfolding has_same_state
same_state_eq e c h = ground (
  arith,
  ==_iff e.type c.type,
  status_eq_iff e.status c.status,
  ==_iff e.reason c.reason,
  severity_eq_iff e.severity c.severity,
  ==_iff e.message c.message,
)

-- The first condition of the type of `c` becomes `c`.
unfoldable pub place : Condition → Conditions → Conditions
place c [] = []
place c (e ∷ es) = if e.type == c.type then c ∷ es else e ∷ place c es

pub get-place :
    (c e : Condition) (cs : Conditions) (k t : ConditionType)
    → c.type ≡ k
    → get cs k ≡ some e
    → get (place c cs) t ≡ (if k == t then some c else get cs t)
unfolding get place
get-place c e [] k t p h = cc
get-place c e (d ∷ ds) k t p h = ground (
  arith,
  get-place c e ds k t,
  ==_iff k t,
  ==_iff d.type t,
  ==_iff d.type k,
  ap (λ u. d.type == u) p,
  ap (λ u. u == t) p,
)

abbrev pub overwritten : Time → Condition → Conditions → Option Condition → Written
overwritten now c cs none = none
overwritten now c cs (some e) = some (place (rewritten now e c) cs, rewritten now e c)

pub overwrite_lem :
    (now : Time) (c : Condition) (cs : Conditions)
    → overwrite now c cs ≡ overwritten now c cs (get cs c.type)
unfolding overwrite place get rewritten
overwrite_lem now c [] = refl
overwrite_lem now c (e ∷ es) = ground (arith, overwrite_lem now c es, same_state_eq e c)

pub stamped-type : (now : Time) (c : Condition) → (stamped now c).type ≡ c.type
unfolding stamped
stamped-type now c = ground arith

pub rewritten-type : (now : Time) (e c : Condition) → (rewritten now e c).type ≡ c.type
unfolding rewritten
rewritten-type now e c = elim (Bool-cases (has_same_state e c)) [ inl h ↦ rw h | inr h ↦ rw h ]

abbrev pub result : Time → Conditions → Condition → Option Condition → Conditions × Condition
result now cs c o = or_append now c cs (overwritten now c cs o)

result-written :
    (now : Time) (cs : Conditions) (c : Condition) (o : Option Condition)
    → (result now cs c o).1 ≡ written_over now c o
result-written now cs c none = refl
result-written now cs c (some e) = refl

get-result :
    (now : Time) (cs : Conditions) (c : Condition) (t : ConditionType) (o : Option Condition)
    → get cs c.type ≡ o
    → get (result now cs c o).0 t ≡ (if c.type == t then some (written_over now c o) else get cs t)
get-result now cs c t none h = get-append cs (stamped now c) c.type t (stamped-type now c) h
get-result now cs c t (some e) h =
    get-place (rewritten now e c) e cs c.type t (rewritten-type now e c) h

-- `Set` leaves the condition that it was given as `written`.
pub set_condition-written :
    (now : Time) (cs : Conditions) (c : Condition) → (set_condition now cs c).1 ≡ written now cs c
unfolding set_condition written
set_condition-written now cs c =
    rw (overwrite_lem now c cs) (result-written now cs c (get cs c.type))

-- A type's condition after `Set` is the written one for the type that was set, and is the one before
-- it for every other type.
pub get-set_condition :
    (now : Time) (cs : Conditions) (c : Condition) (t : ConditionType)
    → get (set_condition now cs c).0 t ≡ (if c.type == t then some (written now cs c) else get cs t)
unfolding set_condition written
get-set_condition now cs c t =
    rw (overwrite_lem now c cs)
      (get-sort (result now cs c (get cs c.type)).0 t ∙ get-result now cs c t (get cs c.type) refl)

-- A type's condition after `Delete` is none for the type that was deleted, and is the one before it
-- for every other type.
pub get-delete :
    (cs : Conditions) (t u : ConditionType)
    → get (delete cs t) u ≡ (if t == u then none else get cs u)
unfolding get delete
get-delete [] t u = ground arith
get-delete (c ∷ cs) t u =
    ground (arith, get-delete cs t u, ==_iff t u, ==_iff c.type t, ==_iff c.type u)
