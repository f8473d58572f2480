-- ===== src/Controller/Samples.antt =====
-- A reconciliation of an AddonConfig, and the theorems applied to it.
use addonconfig.Common.Result.{ok_injective, ok}
use addonconfig.Common.{
  ap, sym, ◌∙◌, ◌≡◌, refl, true, not, any, none, some, List, [], ◌∷◌, ◌++◌, String, if◌then◌else◌,
}
use addonconfig.Api.Condition.{
  status_eq, severity_eq, ready_condition, valid_config_condition, valid_dependency_condition,
}
use addonconfig.Conditions.Getter.{get, is_false}
use addonconfig.Conditions.Order.{IsCanonical}
use addonconfig.Util.Requeue.{no_requeue}
use addonconfig.Controller.Context.{mark_config_true, mark_config_false, new_addon_config_context}
use addonconfig.Controller.Schema.{
  reconcile_schema, reconcile_schema_defaulting, reconcile_schema_validation,
}
use addonconfig.Controller.Templating.{reconcile_template}
use addonconfig.Controller.Target.{reconcile_target, reconcile_template_values}
use addonconfig.Controller.Dependencies.{reconcile_dependencies, read_constraints, no_constraints}
use addonconfig.Controller.Constraints.{known_operator, has_operator, read_constraints_lem}
use addonconfig.Controller.Reconcile.{Progress, run_phases, reconcile, reconcile_validation}
use addonconfig.Controller.Failures.{
  context_after, errors_of, run_phases-failed, reconcile-stores_nothing,
}
use addonconfig.Controller.Guarantees.{reconcile-foreign, reconcile-IsCanonical}
use addonconfig.Controller.Reconcile.{reconcile_at}
use addonconfig.Controller.Stuck.{reconcile-is_false}
use addonconfig.Controller.Settled.Defaults.{Settling}
use addonconfig.Controller.Output.{save_rendered_template}
use addonconfig.Controller.Settled.Fixed.{reconcile_at-fixed}
use addonconfig.Controller.Settled.Again.{Repeats, reconcile_at-Repeats}
use addonconfig.Conditions.Setter.{lexicographic_less, mark_false}
use addonconfig.Api.Config.{AddonConfig, with_config_conditions}
use addonconfig.Api.Condition.{severity_error}
use addonconfig.Controller.Simulated.{sample, documented, config_with}

rejected : (reconcile sample (config_with "")).2 ≡ some "a is required"
unfolding reconcile reconcile_template reconcile_dependencies reconcile_template_values
    reconcile_target reconcile_validation reconcile_schema_validation reconcile_schema_defaulting
    mark_config_true reconcile_schema new_addon_config_context mark_config_false
rejected = refl

reconcile-stores_nothing_example : (reconcile sample (config_with "")).0.saved ≡ []
reconcile-stores_nothing_example =
    reconcile-stores_nothing sample (config_with "") "a is required" documented rejected

reconcile-foreign_example :
    get (reconcile sample (config_with "{}")).0.addon_config.conditions ready_condition
    ≡ get (config_with "{}").conditions ready_condition
reconcile-foreign_example = reconcile-foreign sample (config_with "{}") ready_condition refl

none-IsCanonical : IsCanonical []
none-IsCanonical = record { sorted = tt; distinct = tt }

reconcile-IsCanonical_example :
    IsCanonical (reconcile sample (config_with "{}")).0.addon_config.conditions
reconcile-IsCanonical_example = reconcile-IsCanonical sample (config_with "{}") none-IsCanonical

abbrev failed_once : Progress sample
failed_once = record {
  context = new_addon_config_context sample (config_with "{}");
  result = no_requeue;
  errors = "failed" ∷ [];
}

run_phases-failed_example :
    ((run_phases sample (reconcile_target sample ∷ []) failed_once).context
      ≡ context_after sample (reconcile_target sample ∷ []) failed_once.context)
    × ((run_phases sample (reconcile_target sample ∷ []) failed_once).result ≡ failed_once.result)
    × ((run_phases sample (reconcile_target sample ∷ []) failed_once).errors
        ≡ failed_once.errors ++ errors_of sample (reconcile_target sample ∷ []) failed_once.context)
run_phases-failed_example =
    run_phases-failed sample (reconcile_target sample ∷ []) failed_once "failed" [] refl

abbrev operators : List String
operators = "selectFirst" ∷ "optional" ∷ []

read_constraints_example : read_constraints operators no_constraints ≡ (
    if any (λ operator. not (known_operator operator)) operators
    then none
    else some (record {
      unique = has_operator operators "unique";
      select_first = has_operator operators "selectFirst";
      optional = has_operator operators "optional";
    }))
read_constraints_example = read_constraints_lem operators

settling : Settling sample
settling = record {
  stored = λ j text v e u. (v, refl, ap ok (sym (ok_injective u) ∙ sym (ok_injective e)));
  defaulted = λ j ss. refl;
}

abbrev left : AddonConfig String
left = (reconcile_at sample 0 (config_with "{}")).0.addon_config

reconcile_at-Repeats_example :
    Repeats sample valid_config_condition
      (reconcile_at sample 0 (config_with "{}"))
      (reconcile_at sample 7 (with_config_conditions left left.conditions))
reconcile_at-Repeats_example =
    reconcile_at-Repeats sample (config_with "{}") 0 7 valid_config_condition left.conditions
      documented settling refl refl

abbrev not_found : AddonConfig String
not_found = record (config_with "{}") {
  conditions =
      mark_false 0 [] valid_dependency_condition "DependencyNotFound" severity_error
        "Unable to find dependency by using label selectors" [];
}

reconcile-is_false_example :
    is_false (reconcile sample not_found).0.addon_config.conditions valid_dependency_condition
    ≡ true
unfolding is_false get mark_false
reconcile-is_false_example = reconcile-is_false sample not_found refl

left_alone : get left.conditions valid_dependency_condition ≡ none
unfolding reconcile_at get reconcile_template reconcile_dependencies reconcile_template_values
    reconcile_target reconcile_validation reconcile_schema_validation reconcile_schema_defaulting
    mark_config_true reconcile_schema new_addon_config_context mark_config_false
    save_rendered_template lexicographic_less status_eq severity_eq
left_alone = refl

alone : get (reconcile_at sample 7 left).0.addon_config.conditions valid_dependency_condition ≡ none
unfolding reconcile_at get reconcile_template reconcile_dependencies reconcile_template_values
    reconcile_target reconcile_validation reconcile_schema_validation reconcile_schema_defaulting
    mark_config_true reconcile_schema new_addon_config_context mark_config_false
    save_rendered_template lexicographic_less status_eq severity_eq
alone = refl

reconcile_at-fixed_example :
    ((reconcile_at sample 7 left).0.addon_config ≡ left)
    × ((reconcile_at sample 7 left).1 ≡ (reconcile_at sample 0 (config_with "{}")).1)
    × ((reconcile_at sample 7 left).2 ≡ (reconcile_at sample 0 (config_with "{}")).2)
reconcile_at-fixed_example =
    reconcile_at-fixed sample (config_with "{}") 0 7 documented settling none-IsCanonical
      (alone ∙ sym left_alone)
