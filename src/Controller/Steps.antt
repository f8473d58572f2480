-- ===== src/Controller/Steps.antt =====
-- controllers: predicates of the conditions and of the objects saved, carried through each phase of
-- a reconciliation by what each marking of a condition does to them.
use addonconfig.Common.Result.{Result}
use addonconfig.Common.{◌≡◌, refl, String, true, List, [], ◌∷◌, arith}
use addonconfig.Api.Condition.{
  ConditionType, Conditions, Time, valid_schema_condition, valid_config_condition,
  defaulting_complete_condition, valid_target_condition, valid_template_condition,
  valid_dependency_condition, output_resource_updated_condition, severity_error,
}
use addonconfig.Api.Config.{AddonConfigDefinition, FieldFault, LabelSelector, Dependency}
use addonconfig.Conditions.Setter.{mark_true, mark_false}
use addonconfig.Conditions.Summary.{listed}
use addonconfig.Controller.External.{External, OutputObject}
use addonconfig.Controller.Context.{Context, mark_config_true, mark_config_false}
use addonconfig.Controller.Schema.{
  convert_schema, use_definition, reconcile_schema, reconcile_schema_defaulting, report_faults,
  reconcile_schema_validation,
}
use addonconfig.Controller.Target.{reconcile_target, reconcile_template_values}
use addonconfig.Controller.Templating.{render_selector, reconcile_template}
use addonconfig.Controller.Dependencies.{
  set_dependencies, TargetConstraints, Fetch, use_list, list_selected, use_selector,
  fetch_labeled_dependency, fetch_named_dependency, fetch_dependency, record_dependency,
  reconcile_dependency, reconcile_each, reconcile_dependencies,
}

-- The types of the conditions that the phases mark.
abbrev pub controller_types : List ConditionType
controller_types =
    valid_schema_condition ∷ valid_config_condition ∷ defaulting_complete_condition
    ∷ valid_target_condition ∷ valid_template_condition ∷ valid_dependency_condition
    ∷ output_resource_updated_condition ∷ []

-- The types of those that they mark True.
abbrev pub true_types : List ConditionType
true_types =
    valid_schema_condition ∷ valid_config_condition ∷ defaulting_complete_condition
    ∷ valid_target_condition ∷ valid_template_condition ∷ output_resource_updated_condition ∷ []

module _ (x : External) (P : Conditions → List OutputObject → Type 0)
    (keep_true : (now : Time) (cs : Conditions) (s : List OutputObject) (t : ConditionType)
      → listed true_types t ≡ true
      → P cs s
      → P (mark_true now cs t) s)
    (keep_false : (now : Time) (cs : Conditions) (s : List OutputObject) (t : ConditionType)
        (reason format : String) (args : List String)
      → listed controller_types t ≡ true
      → P cs s
      → P (mark_false now cs t reason severity_error format args) s) where
  abbrev pub Holds : Context x → Type 0
  Holds atx = P atx.addon_config.conditions atx.saved

  pub marked_true :
      (atx : Context x) (t : ConditionType)
      → listed true_types t ≡ true
      → Holds atx
      → Holds (mark_config_true x atx t)
  unfolding mark_config_true
  marked_true atx t own h = keep_true _ _ _ t own h

  pub marked_false :
      (atx : Context x) (t : ConditionType) (reason format : String) (args : List String)
      → listed controller_types t ≡ true
      → Holds atx
      → Holds (mark_config_false x atx t reason format args)
  unfolding mark_config_false
  marked_false atx t reason format args own h = keep_false _ _ _ t reason format args own h

  convert_schema-keeps :
      (atx : Context x) (schema : x.Schema) → Holds atx → Holds (convert_schema x atx schema).0
  unfolding convert_schema
  convert_schema-keeps atx schema h = grind (arith, marked_true, marked_false)

  use_definition-keeps :
      (atx : Context x) (d : AddonConfigDefinition x.Schema)
      → Holds atx
      → Holds (use_definition x atx d).0
  unfolding use_definition
  use_definition-keeps atx d h = grind (arith, marked_true, marked_false)

  pub reconcile_schema-keeps : (atx : Context x) → Holds atx → Holds (reconcile_schema x atx).0
  unfolding reconcile_schema
  reconcile_schema-keeps atx h = grind (arith, marked_true, marked_false)

  pub reconcile_schema_defaulting-keeps :
      (atx : Context x) → Holds atx → Holds (reconcile_schema_defaulting x atx).0
  unfolding reconcile_schema_defaulting
  reconcile_schema_defaulting-keeps atx h = grind (arith, marked_true, marked_false)

  report_faults-keeps :
      (atx : Context x) (faults : List FieldFault)
      → Holds atx
      → Holds (report_faults x atx faults).0
  unfolding report_faults
  report_faults-keeps atx [] h = h
  report_faults-keeps atx (e ∷ es) h = marked_false _ _ _ _ _ refl h

  pub reconcile_schema_validation-keeps :
      (atx : Context x) → Holds atx → Holds (reconcile_schema_validation x atx).0
  unfolding reconcile_schema_validation
  reconcile_schema_validation-keeps atx h = grind (arith, report_faults-keeps)

  pub reconcile_target-keeps : (atx : Context x) → Holds atx → Holds (reconcile_target x atx).0
  unfolding reconcile_target
  reconcile_target-keeps atx h = grind (arith, marked_true, marked_false)

  pub reconcile_template_values-keeps :
      (atx : Context x) → Holds atx → Holds (reconcile_template_values x atx).0
  unfolding reconcile_template_values
  reconcile_template_values-keeps atx h = grind arith

  pub reconcile_template-keeps : (atx : Context x) → Holds atx → Holds (reconcile_template x atx).0
  unfolding reconcile_template
  reconcile_template-keeps atx h = grind (arith, marked_true, marked_false)

  render_selector-keeps :
      (atx : Context x) (s : LabelSelector) → Holds atx → Holds (render_selector x atx s).0
  unfolding render_selector
  render_selector-keeps atx s h = grind (arith, marked_false)

  use_list-keeps :
      (atx : Context x) (dep : Dependency) (c : TargetConstraints)
      (r : Result x.Error (List x.Json))
      → Holds atx
      → Holds (use_list x atx dep c r).0
  unfolding use_list
  use_list-keeps atx dep c r h = grind (arith, marked_false)

  fetch_labeled_dependency-keeps :
      (atx : Context x) (dep : Dependency) (s : LabelSelector) (c : TargetConstraints)
      → Holds atx
      → Holds (fetch_labeled_dependency x atx dep s c).0
  unfolding fetch_labeled_dependency use_selector list_selected
  fetch_labeled_dependency-keeps atx dep s c h =
      grind (arith, render_selector-keeps, use_list-keeps)

  fetch_named_dependency-keeps :
      (atx : Context x) (dep : Dependency) (c : TargetConstraints)
      → Holds atx
      → Holds (fetch_named_dependency x atx dep c).0
  unfolding fetch_named_dependency
  fetch_named_dependency-keeps atx dep c h = grind (arith, marked_false)

  fetch_dependency-keeps :
      (atx : Context x) (dep : Dependency) (c : TargetConstraints)
      → Holds atx
      → Holds (fetch_dependency x atx dep c).0
  unfolding fetch_dependency
  fetch_dependency-keeps atx dep c h =
      grind (arith, fetch_labeled_dependency-keeps, fetch_named_dependency-keeps)

  record_dependency-keeps :
      (dep : Dependency) (f : Fetch x) → Holds f.0 → Holds (record_dependency x dep f).0
  unfolding record_dependency
  record_dependency-keeps dep f h = grind arith

  reconcile_dependency-keeps :
      (atx : Context x) (dep : Dependency) → Holds atx → Holds (reconcile_dependency x atx dep).0
  unfolding reconcile_dependency
  reconcile_dependency-keeps atx dep h =
      grind (arith, fetch_dependency-keeps, record_dependency-keeps)

  reconcile_each-keeps :
      (deps : List Dependency) (atx : Context x) → Holds atx → Holds (reconcile_each x deps atx).0
  unfolding reconcile_each
  reconcile_each-keeps [] atx h = h
  reconcile_each-keeps (dep ∷ deps) atx h =
      grind (arith, reconcile_dependency-keeps, λ (c : Context x). reconcile_each-keeps deps c)

  pub reconcile_dependencies-keeps :
      (atx : Context x) → Holds atx → Holds (reconcile_dependencies x atx).0
  unfolding reconcile_dependencies
  reconcile_dependencies-keeps atx h =
      reconcile_each-keeps atx.addon_config_definition.dependencies (set_dependencies x atx []) h
