-- ===== src/Conditions/Canonical.antt =====
-- util/conditions/setter.go: sorted lists of conditions without a type twice, compared by what
-- `Get` returns of them.
use addonconfig.Common.{
  ◌≡◌, ◌≢◌, ◌⊎◌, subst, refl, ap, sym, ◌∙◌, none, some, [], ◌∷◌, ◌==◌, Option, ==_iff, ==_refl,
  Bool-cases, inl, inr, arith, All,
}
use mathlib.Core.Option.{some-injective}
use addonconfig.Api.Condition.{ConditionType, Condition, Conditions, Time}
use addonconfig.Conditions.Getter.{get}
use addonconfig.Conditions.Setter.{sort, set_condition, delete}
use addonconfig.Conditions.Lookup.{get-set_condition, get-delete, get-sort, written}
use addonconfig.Conditions.Order.{
  Follows, IsDistinct, IsCanonical, less_total, sort-IsCanonical, set_condition-IsCanonical,
  delete-IsCanonical,
}

none_not_some {ℓ} : {A : Type ℓ} {a : A} → ◌≡◌ {A = Option A} none (some a) → ⊥
none_not_some e = cc

get-All {κ} :
    (P : Condition → Type κ) (cs : Conditions) (t : ConditionType) (d : Condition)
    → All P cs
    → get cs t ≡ some d
    → P d
unfolding get
get-All P [] t d h e = elim (none_not_some e) [ ]
get-All P (c ∷ cs) t d h e = elim (Bool-cases (c.type == t)) [
  | inl same ↦ subst P (some-injective c d (rw same at e)) h.0
  | inr other ↦ get-All P cs t d h.1 (rw other at e)
]

get-cons_self : (c : Condition) (cs : Conditions) → get (c ∷ cs) c.type ≡ some c
unfolding get
get-cons_self c cs = rw (==_refl c.type)

-- A condition that `Get` returns is the first or stands behind it.
first-or-Follows :
    (c d : Condition) (ds : Conditions) (t : ConditionType)
    → All (Follows d) ds
    → get (d ∷ ds) t ≡ some c
    → (d ≡ c) ⊎ Follows d c
unfolding get
first-or-Follows c d ds t h e = elim (Bool-cases (d.type == t)) [
  | inl same ↦ inl (some-injective d c (rw same at e))
  | inr other ↦ inr (get-All (Follows d) ds t c h (rw other at e))
]

heads_eq :
    (c d : Condition) (cs ds : Conditions)
    → All (Follows c) cs
    → All (Follows d) ds
    → ((t : ConditionType) → get (c ∷ cs) t ≡ get (d ∷ ds) t)
    → c ≡ d
heads_eq c d cs ds hc hd same =
    elim (first-or-Follows c d ds c.type hd (sym (same c.type) ∙ get-cons_self c cs)) [
      | inl e ↦ sym e
      | inr behind_d ↦ elim (first-or-Follows d c cs d.type hc (same d.type ∙ get-cons_self d ds)) [
        | inl e ↦ e
        | inr behind_c ↦ some-injective c d (
            sym (get-cons_self c cs)
            ∙ ap (get (c ∷ cs)) (less_total c d behind_d behind_c)
            ∙ same d.type
            ∙ get-cons_self d ds)
      ]
    ]

tails_same :
    (c d : Condition) (cs ds : Conditions)
    → c ≡ d
    → get cs c.type ≡ none
    → get ds d.type ≡ none
    → ((t : ConditionType) → get (c ∷ cs) t ≡ get (d ∷ ds) t)
    → (t : ConditionType) → get cs t ≡ get ds t
unfolding get
tails_same c d cs ds e hc hd same t = ground (arith, same t, ==_iff c.type t, ==_iff d.type t)

-- Two sorted lists in which no type stands twice are equal if `Get` returns the same of both.
pub IsCanonical-ext :
    (cs ds : Conditions)
    → IsCanonical cs
    → IsCanonical ds
    → ((t : ConditionType) → get cs t ≡ get ds t)
    → cs ≡ ds
unfolding get
IsCanonical-ext [] [] h k same = refl
IsCanonical-ext [] (d ∷ ds) h k same = elim (none_not_some (same d.type ∙ get-cons_self d ds)) [ ]
IsCanonical-ext (c ∷ cs) [] h k same =
    elim (none_not_some (sym (same c.type) ∙ get-cons_self c cs)) [ ]
IsCanonical-ext (c ∷ cs) (d ∷ ds) h k same =
    let e = heads_eq c d cs ds h.sorted.0 k.sorted.0 same in
    let rest =
      IsCanonical-ext cs ds (record { sorted = h.sorted.1; distinct = h.distinct.1 })
        (record { sorted = k.sorted.1; distinct = k.distinct.1 })
        (tails_same c d cs ds e h.distinct.0 k.distinct.0 same) in
    cc (e, rest)

-- The list that `Set` sorts is the only sorted one with the same conditions, if no type stands twice:
-- which sorting algorithm `sort.Slice` uses makes no difference.
pub sort_unique :
    (cs sorted : Conditions)
    → IsDistinct cs
    → IsCanonical sorted
    → ((t : ConditionType) → get sorted t ≡ get cs t)
    → sort cs ≡ sorted
sort_unique cs sorted h k same =
    IsCanonical-ext (sort cs) sorted (sort-IsCanonical cs h) k (λ t. get-sort cs t ∙ sym (same t))

written_cong :
    (now : Time) (cs ds : Conditions) (c : Condition)
    → get cs c.type ≡ get ds c.type
    → written now cs c ≡ written now ds c
unfolding written
written_cong now cs ds c h = rw h

-- Another type's condition is written as if the first had not been set.
written-set_condition :
    (now : Time) (cs : Conditions) (c d : Condition)
    → c.type ≢ d.type
    → written now (set_condition now cs c).0 d ≡ written now cs d
written-set_condition now cs c d ne =
    written_cong now _ cs d
      (ground (arith, get-set_condition now cs c d.type, ==_iff c.type d.type))

-- Where no type stands twice, `Set` of two conditions of different types at one time leaves the
-- same list in either order.
pub set_condition_comm :
    (now : Time) (cs : Conditions) (c d : Condition)
    → IsDistinct cs
    → c.type ≢ d.type
    → (set_condition now (set_condition now cs c).0 d).0
      ≡ (set_condition now (set_condition now cs d).0 c).0
set_condition_comm now cs c d h ne =
    IsCanonical-ext _ _
      (set_condition-IsCanonical now _ d (set_condition-IsCanonical now cs c h).distinct)
      (set_condition-IsCanonical now _ c (set_condition-IsCanonical now cs d h).distinct)
      (λ t. ground (
        arith,
        get-set_condition now (set_condition now cs c).0 d t,
        get-set_condition now (set_condition now cs d).0 c t,
        get-set_condition now cs c t,
        get-set_condition now cs d t,
        written-set_condition now cs c d ne,
        written-set_condition now cs d c (λ e. ne (sym e)),
        ==_iff c.type t,
        ==_iff d.type t,
      ))

-- In a sorted list with no type twice, deleting a type that was not there before it was set undoes
-- the setting.
pub delete-set_condition :
    (now : Time) (cs : Conditions) (c : Condition)
    → IsCanonical cs
    → get cs c.type ≡ none
    → delete (set_condition now cs c).0 c.type ≡ cs
delete-set_condition now cs c h absent =
    IsCanonical-ext _ _
      (delete-IsCanonical _ c.type (set_condition-IsCanonical now cs c h.distinct)) h
      (λ t. ground (
        arith,
        get-delete (set_condition now cs c).0 c.type t,
        get-set_condition now cs c t,
        ==_iff c.type t,
      ))
