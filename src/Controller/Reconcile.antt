-- ===== src/Controller/Reconcile.antt =====
-- controllers: how the phases of a reconciliation are run one after the other.
use addonconfig.Common.{ℕ, Option, none, some, List, [], ◌∷◌, ◌++◌, ◌==◌, if◌then◌else◌}
use addonconfig.Api.Condition.{
  Time, valid_schema_condition, valid_config_condition, defaulting_complete_condition,
  valid_target_condition, valid_template_condition, ConditionType,
}
use addonconfig.Api.Config.{AddonConfig}
use addonconfig.Conditions.Getter.{Getter}
use addonconfig.Conditions.Strategies.{with_conditions}
use addonconfig.Conditions.Summary.{set_summary}
use addonconfig.Util.Requeue.{CtrlResult, no_requeue, lowest_non_zero_result}
use addonconfig.Controller.External.{External}
use addonconfig.Controller.Context.{
  Context, Outcome, Phase, new_addon_config_context, mark_config_true,
}
use addonconfig.Controller.Schema.{
  reconcile_schema, reconcile_schema_defaulting, reconcile_schema_validation,
}
use addonconfig.Controller.Target.{reconcile_target, reconcile_template_values}
use addonconfig.Controller.Templating.{reconcile_template}
use addonconfig.Controller.Dependencies.{reconcile_dependencies}
use addonconfig.Controller.Output.{save_rendered_template}

-- The types given to the summary.
abbrev pub summarised : List ConditionType
summarised =
    valid_schema_condition ∷ valid_config_condition ∷ defaulting_complete_condition
    ∷ valid_target_condition ∷ valid_template_condition ∷ []

module _ (x : External) where
  open x use {Error, Raw, new_aggregate}

  -- The variables of a loop over phases: the context, `res` and `errs`.
  pub record Progress : Type 0 where
    pub context : Context x
    pub result : CtrlResult
    pub errors : List Error

  abbrev pub with_result : CtrlResult → CtrlResult → List Error → CtrlResult
  with_result res phase_result [] = lowest_non_zero_result res phase_result
  with_result res phase_result (e ∷ es) = res

  abbrev pub with_error : List Error → Option Error → List Error
  with_error errs none = errs
  with_error errs (some e) = errs ++ e ∷ []

  -- The body of the loop; once there is an error the results count no more.
  unfoldable pub run_phase : Progress → Phase x → Progress
  run_phase p phase =
      let (atx, phase_result, e) = phase p.context in
      let errs = with_error p.errors e in
      record { context = atx; result = with_result p.result phase_result errs; errors = errs }

  unfoldable pub run_phases : List (Phase x) → Progress → Progress
  unfolding run_phase
  run_phases [] p = p
  run_phases (phase ∷ phases) p = run_phases phases (run_phase p phase)

  abbrev pub start : Context x → Progress
  start atx = record { context = atx; result = no_requeue; errors = [] }

  abbrev pub validation_phases : List (Phase x)
  validation_phases =
      reconcile_schema x ∷ reconcile_schema_defaulting x ∷ reconcile_schema_validation x ∷ []

  abbrev pub mark_if_clean : List Error → Context x → Context x
  mark_if_clean [] atx = mark_config_true x atx valid_config_condition
  mark_if_clean (e ∷ es) atx = atx

  unfoldable pub reconcile_validation : Phase x
  unfolding run_phases
  reconcile_validation atx =
      let p = run_phases validation_phases (start atx) in
      (mark_if_clean p.errors p.context, p.result, new_aggregate p.errors)

  abbrev pub reconcile_phases : List (Phase x)
  reconcile_phases =
      reconcile_validation
      ∷ reconcile_target x
      ∷ reconcile_template_values x
      ∷ reconcile_dependencies x
      ∷ reconcile_template x
      ∷ []

  -- "Only want to save the rendered template if nothing has failed"
  unfoldable pub save_if_clean : Progress → Progress
  save_if_clean p = elim p.errors [
    | [] ↦
        let (atx, result, e) = save_rendered_template x p.context in
        record {
          context = atx;
          result = lowest_non_zero_result p.result result;
          errors = with_error [] e;
        }
    | e ∷ es ↦ p
  ]

  -- `reconcile`, with the context in place of the AddonConfig that its pointer has changed, by a
  -- reconciler that has read the clock `n` times before.
  unfoldable pub reconcile_at : ℕ → AddonConfig Raw → Outcome x
  unfolding run_phases save_if_clean
  reconcile_at n ac =
      let atx = record (new_addon_config_context x ac) { marks = n } in
      let p = save_if_clean (run_phases reconcile_phases (start atx)) in
      if ac.definition_ref == ""
      then (atx, no_requeue, none)
      else (p.context, p.result, new_aggregate p.errors)

  -- `reconcile`, as the first thing that the reconciler does.
  unfoldable pub reconcile : AddonConfig Raw → Outcome x
  unfolding reconcile_at
  reconcile ac = reconcile_at 0 ac

  -- The summary that `patchAddonConfig` sets before it patches.
  unfoldable pub summarise : Time → AddonConfig Raw → AddonConfig Raw
  unfolding set_summary with_conditions
  summarise now ac =
      let getter : Getter = record {
        kind = "AddonConfig";
        name = ac.name;
        conditions = ac.conditions;
      } in
      record ac { conditions = set_summary now getter (with_conditions summarised ∷ []) }
