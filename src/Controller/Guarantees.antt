-- ===== src/Controller/Guarantees.antt =====
-- controllers: the conditions before and after a reconciliation.
use addonconfig.Common.{
  ℕ, true_not_false, ◌≡◌, refl, sym, ap, ◌∙◌, true, false, List, ◌==◌, ==_iff, Bool-cases, inl, inr,
  arith, String,
}
use addonconfig.Api.Condition.{ConditionType, Conditions, Time, severity_error}
use addonconfig.Api.Config.{AddonConfig}
use addonconfig.Conditions.Getter.{get}
use addonconfig.Conditions.Setter.{mark_true, mark_false, set, true_condition, false_condition}
use addonconfig.Conditions.Lookup.{get-set_condition}
use addonconfig.Conditions.Order.{IsCanonical, set_condition-IsCanonical}
use addonconfig.Conditions.Summary.{listed}
use addonconfig.Controller.External.{External}
use addonconfig.Controller.Steps.{controller_types, true_types}
use addonconfig.Controller.Keeps.{reconcile-keeps, reconcile_at-keeps}
use addonconfig.Controller.Reconcile.{reconcile, reconcile_at}

pub listed_same :
    (types : List ConditionType) (t u : ConditionType)
    → listed types t ≡ true
    → listed types u ≡ false
    → (t == u) ≡ false
listed_same types t u h k = elim (Bool-cases (t == u)) [
  | inl same ↦ elim (true_not_false (sym h ∙ ap (listed types) ((==_iff t u).0 same) ∙ k)) [ ]
  | inr other ↦ other
]

-- A type that is not marked is not marked True.
foreign_to_true :
    (t : ConditionType) → listed controller_types t ≡ false → listed true_types t ≡ false
foreign_to_true t foreign = ground arith

pub get-mark_true :
    (now : Time) (cs : Conditions) (t u : ConditionType)
    → (t == u) ≡ false
    → get (mark_true now cs t) u ≡ get cs u
unfolding mark_true set true_condition
get-mark_true now cs t u h = grind (arith, get-set_condition now cs (true_condition t) u)

pub get-mark_false :
    (now : Time) (cs : Conditions) (t u : ConditionType) (reason format : String)
    (args : List String)
    → (t == u) ≡ false
    → get (mark_false now cs t reason severity_error format args) u ≡ get cs u
unfolding mark_false set false_condition
get-mark_false now cs t u reason format args h =
    grind (arith, get-set_condition now cs (false_condition t reason severity_error format args) u)

-- A reconciliation leaves every condition as it was whose type is none of the seven that it marks.
pub reconcile-foreign :
    (x : External) (ac : AddonConfig x.Raw) (t : ConditionType)
    → listed controller_types t ≡ false
    → get (reconcile x ac).0.addon_config.conditions t ≡ get ac.conditions t
reconcile-foreign x ac t foreign =
    reconcile-keeps x (λ cs s. get cs t ≡ get ac.conditions t)
      (λ now cs s u own h.
        get-mark_true now cs u t (listed_same true_types u t own (foreign_to_true t foreign)) ∙ h)
      (λ now cs s u reason format args own h.
        get-mark_false now cs u t reason format args (listed_same controller_types u t own foreign)
        ∙ h)
      ac (λ cs s s' h. h) refl

mark_true-IsCanonical :
    (now : Time) (cs : Conditions) (t : ConditionType)
    → IsCanonical cs
    → IsCanonical (mark_true now cs t)
unfolding mark_true set
mark_true-IsCanonical now cs t h = set_condition-IsCanonical now cs (true_condition t) h.distinct

mark_false-IsCanonical :
    (now : Time) (cs : Conditions) (t : ConditionType) (reason format : String) (args : List String)
    → IsCanonical cs
    → IsCanonical (mark_false now cs t reason severity_error format args)
unfolding mark_false set
mark_false-IsCanonical now cs t reason format args h =
    set_condition-IsCanonical now cs (false_condition t reason severity_error format args)
      h.distinct

pub reconcile_at-IsCanonical :
    (x : External) (n : ℕ) (ac : AddonConfig x.Raw)
    → IsCanonical ac.conditions
    → IsCanonical (reconcile_at x n ac).0.addon_config.conditions
reconcile_at-IsCanonical x n ac canonical =
    reconcile_at-keeps x (λ cs s. IsCanonical cs)
      (λ now cs s u own h. mark_true-IsCanonical now cs u h)
      (λ now cs s u reason format args own h. mark_false-IsCanonical now cs u reason format args h)
      n ac (λ cs s s' h. h) canonical

-- Conditions in their order, Ready first, and with no type twice, are left so by a reconciliation.
pub reconcile-IsCanonical :
    (x : External) (ac : AddonConfig x.Raw)
    → IsCanonical ac.conditions
    → IsCanonical (reconcile x ac).0.addon_config.conditions
unfolding reconcile
reconcile-IsCanonical x ac canonical = reconcile_at-IsCanonical x 0 ac canonical
