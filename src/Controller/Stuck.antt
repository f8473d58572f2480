-- ===== src/Controller/Stuck.antt =====
-- controllers: the condition ValidDependency, which the phase for the dependencies marks.
use addonconfig.Common.{subst, ◌≡◌, refl, true, ◌==◌, Bool-cases, inl, inr, ==_iff, String, List}
use addonconfig.Api.Condition.{
  Conditions, ConditionType, Time, severity_error, valid_dependency_condition,
}
use addonconfig.Api.Config.{AddonConfig}
use addonconfig.Conditions.Getter.{get, is_false}
use addonconfig.Conditions.Setter.{mark_false}
use addonconfig.Controller.External.{External}
use addonconfig.Controller.Reconcile.{reconcile}
use addonconfig.Controller.Keeps.{reconcile-keeps}
use addonconfig.Controller.Steps.{true_types}
use addonconfig.Conditions.Marked.{is_false-mark_false}
use addonconfig.Controller.Guarantees.{listed_same, get-mark_true, get-mark_false}

is_false_same :
    (cs ds : Conditions) (t : ConditionType)
    → get ds t ≡ get cs t
    → is_false cs t ≡ true
    → is_false ds t ≡ true
unfolding is_false
is_false_same cs ds t same h = rw same h

is_false-marked :
    (now : Time) (cs : Conditions) (t u : ConditionType) (reason format : String)
    (args : List String)
    → is_false cs t ≡ true
    → is_false (mark_false now cs u reason severity_error format args) t ≡ true
is_false-marked now cs t u reason format args h = elim (Bool-cases (u == t)) [
  | inl same ↦
      subst (λ r. is_false (mark_false now cs u reason severity_error format args) r ≡ true)
        ((==_iff u t).0 same) (is_false-mark_false now cs u reason format args)
  | inr other ↦ is_false_same cs _ t (get-mark_false now cs u t reason format args other) h
]

-- Where ValidDependency is False, it is False after every reconciliation, whatever has become of the
-- dependencies.
pub reconcile-is_false :
    (x : External) (ac : AddonConfig x.Raw)
    → is_false ac.conditions valid_dependency_condition ≡ true
    → is_false (reconcile x ac).0.addon_config.conditions valid_dependency_condition ≡ true
reconcile-is_false x ac h =
    reconcile-keeps x (λ cs s. is_false cs valid_dependency_condition ≡ true)
      (λ now cs s u own k.
        is_false_same cs _ valid_dependency_condition
          (get-mark_true now cs u valid_dependency_condition
            (listed_same true_types u valid_dependency_condition own refl))
          k)
      (λ now cs s u reason format args own k.
        is_false-marked now cs valid_dependency_condition u reason format args k)
      ac (λ cs s s' k. k) h
