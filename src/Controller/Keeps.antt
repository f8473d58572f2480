-- ===== src/Controller/Keeps.antt =====
-- controllers: predicates of the conditions and of the objects saved, carried through the whole of
-- a reconciliation by what each marking of a condition does to them.
use addonconfig.Common.Result.{Result, ok, err}
use addonconfig.Common.{
  ℕ, ◌≡◌, inl, inr, refl, String, true, Option, none, some, List, [], Bool-cases, Result-cases,
  arith, ◌==◌,
}
use addonconfig.Api.Condition.{ConditionType, Conditions, Time, severity_error}
use addonconfig.Api.Config.{LocalOutput, RemoteOutput, OutputResource, set_output_ref, AddonConfig}
use addonconfig.Conditions.Setter.{mark_true, mark_false}
use addonconfig.Conditions.Summary.{listed}
use addonconfig.Controller.External.{External, OutputObject}
use addonconfig.Controller.Context.{new_addon_config_context, Context, Phase}
use addonconfig.Controller.Templating.{render}
use addonconfig.Controller.Reconcile.{
  Progress, run_phase, run_phases, start, reconcile_validation, reconcile_phases, save_if_clean,
  reconcile, reconcile_at,
}
use addonconfig.Controller.Output.{
  choose_output, ignore_result, Destination, store, save_to, save_rendered_template,
}
use addonconfig.Controller.Steps.{
  Holds, controller_types, true_types, marked_true, marked_false, reconcile_schema-keeps,
  reconcile_schema_defaulting-keeps, reconcile_schema_validation-keeps, reconcile_target-keeps,
  reconcile_template_values-keeps, reconcile_template-keeps, reconcile_dependencies-keeps,
}

module _ (x : External) (P : Conditions → List OutputObject → Type 0)
    (keep_true : (now : Time) (cs : Conditions) (s : List OutputObject) (t : ConditionType)
      → listed true_types t ≡ true
      → P cs s
      → P (mark_true now cs t) s)
    (keep_false : (now : Time) (cs : Conditions) (s : List OutputObject) (t : ConditionType)
        (reason format : String) (args : List String)
      → listed controller_types t ≡ true
      → P cs s
      → P (mark_false now cs t reason severity_error format args) s) where
  run_phase-keeps :
      (p : Progress x) (phase : Phase x)
      → ((atx : Context x)
          → (Holds x P keep_true keep_false) atx
          → (Holds x P keep_true keep_false) (phase atx).0)
      → (Holds x P keep_true keep_false) p.context
      → (Holds x P keep_true keep_false) (run_phase x p phase).context
  unfolding run_phase
  run_phase-keeps p phase keep h = keep p.context h

  reconcile_validation-keeps :
      (atx : Context x)
      → (Holds x P keep_true keep_false) atx
      → (Holds x P keep_true keep_false) (reconcile_validation x atx).0
  unfolding reconcile_validation run_phases run_phase
  reconcile_validation-keeps atx h = grind (
    arith,
    (marked_true x P keep_true keep_false),
    (reconcile_schema-keeps x P keep_true keep_false),
    (reconcile_schema_defaulting-keeps x P keep_true keep_false),
    (reconcile_schema_validation-keeps x P keep_true keep_false),
  )

  pub reconcile_phases-keeps :
      (atx : Context x)
      → (Holds x P keep_true keep_false) atx
      → (Holds x P keep_true keep_false) (run_phases x (reconcile_phases x) (start x atx)).context
  unfolding run_phases run_phase
  reconcile_phases-keeps atx h = (reconcile_template-keeps x P keep_true keep_false) _ (
      (reconcile_dependencies-keeps x P keep_true keep_false) _ (
        (reconcile_template_values-keeps x P keep_true keep_false) _
          ((reconcile_target-keeps x P keep_true keep_false) _ (reconcile_validation-keeps atx h))))

  ignored-keeps :
      (r : Result x.Error (Unit {0})) (atx : Context x)
      → (Holds x P keep_true keep_false) atx
      → (Holds x P keep_true keep_false) (ignore_result x r atx)
  ignored-keeps (ok u) atx h = h
  ignored-keeps (err e) atx h = h

  store-keeps :
      (atx : Context x) (output : OutputResource) (d : Destination)
      → ((cs : Conditions) (s s' : List OutputObject) → P cs s → P cs s')
      → (Holds x P keep_true keep_false) atx
      → (Holds x P keep_true keep_false) (store x atx output d).0
  unfolding store set_output_ref
  store-keeps atx output d any_saved h =
      (marked_true x P keep_true keep_false) _ _ refl (ignored-keeps _ _ (any_saved _ _ _ h))

  save_to-keeps :
      (atx : Context x) (output : OutputResource) (d : Destination)
      → ((cs : Conditions) (s s' : List OutputObject) → P cs s → P cs s')
      → (Holds x P keep_true keep_false) atx
      → (Holds x P keep_true keep_false) (save_to x atx output d).0
  unfolding save_to
  save_to-keeps atx output d any_saved h = elim (Bool-cases (d.name == "")) [
    | inl blank ↦ rw blank ((marked_false x P keep_true keep_false) atx _ _ _ _ refl h)
    | inr named ↦
        rw named
          elim (Result-cases (
            render x atx d.name "Output resource name could not be parsed"
              "Rendering template failed")) [
                | inl (name, e) ↦
                    rw e (store-keeps atx output (record d { name = name }) any_saved h)
                | inr ((e, message), fault) ↦
                    rw fault ((marked_false x P keep_true keep_false) atx _ _ _ _ refl h)
              ]
  ]

  choose_output-keeps :
      (atx : Context x) (output : OutputResource) (l : Option LocalOutput) (r : Option RemoteOutput)
      → ((cs : Conditions) (s s' : List OutputObject) → P cs s → P cs s')
      → (Holds x P keep_true keep_false) atx
      → (Holds x P keep_true keep_false) (choose_output x atx output l r).0
  choose_output-keeps atx output none none any_saved h =
      (marked_false x P keep_true keep_false) atx _ _ _ _ refl h
  choose_output-keeps atx output (some l) (some r) any_saved h =
      (marked_false x P keep_true keep_false) atx _ _ _ _ refl h
  choose_output-keeps atx output (some l) none any_saved h = save_to-keeps atx output _ any_saved h
  choose_output-keeps atx output none (some r) any_saved h = elim (Bool-cases (r.namespace == "")) [
    | inl blank ↦ rw blank ((marked_false x P keep_true keep_false) atx _ _ _ _ refl h)
    | inr named ↦ rw named (save_to-keeps atx output _ any_saved h)
  ]

  save_rendered_template-keeps :
      (atx : Context x)
      → ((cs : Conditions) (s s' : List OutputObject) → P cs s → P cs s')
      → (Holds x P keep_true keep_false) atx
      → (Holds x P keep_true keep_false) (save_rendered_template x atx).0
  unfolding save_rendered_template
  save_rendered_template-keeps atx any_saved h =
      choose_output-keeps atx atx.addon_config_definition.output_resource
        atx.addon_config_definition.output_resource.local_output
        atx.addon_config_definition.output_resource.remote_output any_saved h

  pub reconcile_at-keeps :
      (n : ℕ) (ac : AddonConfig x.Raw)
      → ((cs : Conditions) (s s' : List OutputObject) → P cs s → P cs s')
      → P ac.conditions []
      → (Holds x P keep_true keep_false) (reconcile_at x n ac).0
  unfolding reconcile_at save_if_clean new_addon_config_context
  reconcile_at-keeps n ac any_saved h = grind (
    arith,
    save_rendered_template-keeps,
    reconcile_phases-keeps (record (new_addon_config_context x ac) { marks = n }),
  )

  pub reconcile-keeps :
      (ac : AddonConfig x.Raw)
      → ((cs : Conditions) (s s' : List OutputObject) → P cs s → P cs s')
      → P ac.conditions []
      → (Holds x P keep_true keep_false) (reconcile x ac).0
  unfolding reconcile
  reconcile-keeps ac any_saved h = reconcile_at-keeps 0 ac any_saved h
