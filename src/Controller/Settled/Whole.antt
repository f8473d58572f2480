-- ===== src/Controller/Settled/Whole.antt =====
-- controllers: what a whole reconciliation does, apart from what it only writes.
use addonconfig.Common.{Option, List, [], ◌∷◌, ◌++◌}
use addonconfig.Api.Condition.{
  ConditionType, valid_schema_condition, valid_config_condition, defaulting_complete_condition,
  valid_target_condition, valid_template_condition, output_resource_updated_condition,
}
use addonconfig.Api.Config.{AddonConfig}
use addonconfig.Util.Requeue.{CtrlResult, no_requeue}
use addonconfig.Controller.External.{External, Documented}
use addonconfig.Controller.Context.{Context, Phase}
use addonconfig.Controller.Schema.{reconcile_schema, reconcile_schema_defaulting}
use addonconfig.Controller.Target.{reconcile_target, reconcile_template_values}
use addonconfig.Controller.Templating.{reconcile_template}
use addonconfig.Controller.Dependencies.{reconcile_dependencies}
use addonconfig.Controller.Reconcile.{validation_phases, reconcile_validation, reconcile_phases}
use addonconfig.Controller.Reconcile.{reconcile_validation}
use addonconfig.Controller.Target.{reconcile_target, reconcile_template_values}
use addonconfig.Controller.Templating.{reconcile_template}
use addonconfig.Controller.Dependencies.{reconcile_dependencies}
use addonconfig.Util.Requeue.{no_requeue}
use addonconfig.Api.Condition.{
  valid_schema_condition, defaulting_complete_condition, valid_target_condition,
  valid_template_condition, output_resource_updated_condition,
}
use addonconfig.Controller.Schema.{reconcile_schema, reconcile_schema_defaulting}
use addonconfig.Controller.Settled.Schema.{reconcile_schema-Unread}
use addonconfig.Controller.Settled.Defaults.{Settling, Either, reconcile_schema_defaulting-Uniform}
use addonconfig.Controller.External.{Documented}
use addonconfig.Controller.Settled.Middle.{
  reconcile_target-Uniform, reconcile_template_values-Uniform, reconcile_template-Uniform,
}
use addonconfig.Controller.Settled.Depending.{reconcile_dependencies-Uniform}
use addonconfig.Controller.Settled.Run.{
  ran-none, ran, ran-Uniform, clean_end, saving_end, saving_end-Uniform, validated-Uniform,
}
use addonconfig.Controller.Settled.Uniform.{unread, Scratch, Uniform, Only, apart}
use addonconfig.Controller.Settled.Schema.{reconcile_schema-Unread}
use addonconfig.Controller.Settled.Defaults.{Settling, Either, reconcile_schema_defaulting-Uniform}
use addonconfig.Controller.Settled.Middle.{
  reconcile_target-Uniform, reconcile_template_values-Uniform, reconcile_template-Uniform,
}
use addonconfig.Controller.Settled.Depending.{reconcile_dependencies-Uniform}
use addonconfig.Controller.Settled.Ending.{reconcile_schema_validation-Uniform}

module _ (x : External) (ac : AddonConfig x.Raw) where
  abbrev pub later_phases : List (Phase x)
  later_phases =
      reconcile_target x
      ∷ reconcile_template_values x
      ∷ reconcile_dependencies x
      ∷ reconcile_template x
      ∷ []

  abbrev pub later_types : List ConditionType
  later_types =
      valid_target_condition ∷ valid_template_condition ∷ output_resource_updated_condition ∷ []

  -- The phases after the validation, and the end.
  later-Uniform :
      (v : x.Raw) (k : Scratch x ac) (r : CtrlResult) (es : List x.Error)
      → Uniform x ac
          (ran x ac (saving_end x ac) later_phases r es)
          k
          (Only x ac v)
          (Only x ac v)
          later_types
  later-Uniform v k r es =
      let target = reconcile_target-Uniform x ac k v in
      let values = reconcile_template_values-Uniform x ac target.core v in
      let dependencies = reconcile_dependencies-Uniform x ac v values.core in
      let template = reconcile_template-Uniform x ac dependencies.core v in
      ran-Uniform x ac (saving_end x ac) _ _ _ _ _ _ _ _ _ _ target (
        ran-Uniform x ac (saving_end x ac) _ _ _ _ _ _ _ _ _ _ values (
          ran-Uniform x ac (saving_end x ac) _ _ _ _ _ _ _ _ _ _ dependencies (
            ran-Uniform x ac (saving_end x ac) _ _ _ _ _ _ _ _ _ _ template (
              ran-none x ac (saving_end x ac) _ _ _ _ _ _
                (saving_end-Uniform x ac v template.core _ _)))))

  abbrev pub validation_types : List ConditionType
  validation_types =
      valid_schema_condition ∷ defaulting_complete_condition ∷ valid_config_condition ∷ []

  abbrev validation_run : Context x → Context x × (CtrlResult × Option x.Error)
  validation_run = ran x ac (clean_end x ac) (validation_phases x) no_requeue []

  validation_run-Uniform :
      (k : Scratch x ac) (v : x.Raw)
      → Documented x
      → Settling x
      → (w : x.Raw) × Uniform x ac validation_run k
          (Either x ac k v w)
          (Only x ac w)
          validation_types
  validation_run-Uniform k v doc settling =
      let schema = reconcile_schema-Unread x ac k v in
      let (w, defaulting) = reconcile_schema_defaulting-Uniform x ac schema.core v settling in
      (
        w,
        ran-Uniform x ac (clean_end x ac) (reconcile_schema x) _ _ _ _ _ _ _ _ _
            (unread x ac (apart x ac (reconcile_schema x)) k (Either x ac k v w)
              (valid_schema_condition ∷ []) schema)
            (ran-Uniform x ac (clean_end x ac) (reconcile_schema_defaulting x) _ _ _ _ _ _ _ _ _
              defaulting
              (validated-Uniform x ac w defaulting.core _ _
                (reconcile_schema_validation-Uniform x ac defaulting.core w doc))),
      )

  validation-Uniform :
      (k : Scratch x ac) (v : x.Raw)
      → Documented x
      → Settling x
      → (w : x.Raw) × Uniform x ac
          (apart x ac (reconcile_validation x))
          k
          (Either x ac k v w)
          (Only x ac w)
          validation_types
  unfolding reconcile_validation ran
  validation-Uniform k v doc settling = validation_run-Uniform k v doc settling

  -- A reconciliation of an AddonConfig that names its definition.
  unfoldable pub course : Context x → Context x × (CtrlResult × Option x.Error)
  course = ran x ac (saving_end x ac) (reconcile_phases x) no_requeue []

  pub course-Uniform :
      (k : Scratch x ac) (v : x.Raw)
      → Documented x
      → Settling x
      → (w : x.Raw) × Uniform x ac course k
          (Either x ac k v w)
          (Only x ac w)
          (validation_types ++ later_types)
  unfolding course
  course-Uniform k v doc settling =
      let (w, validation) = validation-Uniform k v doc settling in
      (
        w,
        ran-Uniform x ac (saving_end x ac) (reconcile_validation x) later_phases no_requeue [] k _ _
            _ validation_types later_types validation (later-Uniform w validation.core _ _),
      )
