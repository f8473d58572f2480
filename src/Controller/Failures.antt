-- ===== src/Controller/Failures.antt =====
-- controllers: how the errors of the phases reach the result of a reconciliation, and what they stop.
use addonconfig.Common.{
  some_not_none, ◌≡◌, refl, sym, ap, ap₂, ◌∙◌, Option, none, some, List, [], ◌∷◌, ◌++◌, ◌==◌,
  Bool-cases, List-cases, Option-cases, inl, inr,
}
use addonconfig.Api.Config.{OutputResource, LocalOutput, RemoteOutput, AddonConfig}
use addonconfig.Conditions.Setter.{set}
use addonconfig.Controller.External.{External, Documented}
use addonconfig.Controller.Context.{
  Context, Phase, new_addon_config_context, Outcome, mark_config_false,
}
use addonconfig.Controller.Output.{
  save_rendered_template, save_to, store, choose_output, Destination,
}
use mathlib.Core.List.{append-nil, append_assoc}
use addonconfig.Controller.Templating.{render}
use addonconfig.Common.{Result-cases}
use addonconfig.Controller.Keeps.{reconcile_phases-keeps}
use addonconfig.Controller.Reconcile.{
  Progress, run_phase, run_phases, start, reconcile_phases, save_if_clean, reconcile,
}

module _ (x : External) where
  abbrev error_list : Option x.Error → List x.Error
  error_list none = []
  error_list (some e) = e ∷ []

  -- The context when each of the phases has run, on the context that the ones before it left.
  abbrev pub context_after : List (Phase x) → Context x → Context x
  context_after [] atx = atx
  context_after (phase ∷ phases) atx = context_after phases (phase atx).0

  -- The errors of all these phases, in their order.
  abbrev pub errors_of : List (Phase x) → Context x → List x.Error
  errors_of [] atx = []
  errors_of (phase ∷ phases) atx = error_list (phase atx).2 ++ errors_of phases (phase atx).0

  run_phase-failed :
      (phase : Phase x) (p : Progress x) (e : x.Error) (es : List x.Error)
      → p.errors ≡ e ∷ es
      → ((run_phase x p phase).context ≡ (phase p.context).0)
        × ((run_phase x p phase).result ≡ p.result)
        × ((run_phase x p phase).errors ≡ p.errors ++ error_list (phase p.context).2)
  unfolding run_phase
  run_phase-failed phase p e es h = elim (Option-cases (phase p.context).2) [
    | inl clean ↦ (refl, rw (clean, h) refl, rw clean (sym (append-nil p.errors)))
    | inr (fault, failed) ↦ (refl, rw (failed, h) refl, rw failed refl)
  ]

  -- Once a phase of a run has failed, every later phase still runs, on the context that the one before
  -- it left, and its error is added to the errors; the result stays what it was.
  pub run_phases-failed :
      (phases : List (Phase x)) (p : Progress x) (e : x.Error) (es : List x.Error)
      → p.errors ≡ e ∷ es
      → ((run_phases x phases p).context ≡ context_after phases p.context)
        × ((run_phases x phases p).result ≡ p.result)
        × ((run_phases x phases p).errors ≡ p.errors ++ errors_of phases p.context)
  unfolding run_phases
  run_phases-failed [] p e es h = (refl, refl, sym (append-nil p.errors))
  run_phases-failed (phase ∷ phases) p e es h =
      let (moved, same, more) = run_phase-failed phase p e es h in
      let now = error_list (phase p.context).2 in
      let (moved', same', more') =
        run_phases-failed phases (run_phase x p phase) e (es ++ now)
          (more ∙ ap (λ l. l ++ now) h) in
      (
        moved' ∙ ap (context_after phases) moved,
        same' ∙ same,
        more'
            ∙ ap₂ (λ l c. l ++ errors_of phases c) more moved
            ∙ append_assoc p.errors now (errors_of phases (phase p.context).0),
      )

  -- An outcome with an error has stored nothing that the context had not.
  abbrev Unsaved : Context x → Outcome x → Type 0
  Unsaved atx o = (e : x.Error) → o.2 ≡ some e → o.0.saved ≡ atx.saved

  store-Unsaved :
      (atx : Context x) (output : OutputResource) (d : Destination)
      → Unsaved atx (store x atx output d)
  unfolding store
  store-Unsaved atx output d e h = absurd (some_not_none (sym h))

  save_to-Unsaved :
      (atx : Context x) (output : OutputResource) (d : Destination)
      → Unsaved atx (save_to x atx output d)
  unfolding save_to mark_config_false
  save_to-Unsaved atx output d = elim (Bool-cases (d.name == "")) [
    | inl blank ↦ rw blank (λ e h. refl)
    | inr named ↦
        rw named
          elim (Result-cases (
            render x atx d.name "Output resource name could not be parsed"
              "Rendering template failed")) [
                | inl (name, e) ↦ rw e (store-Unsaved atx output (record d { name = name }))
                | inr ((e, message), fault) ↦ rw fault (λ e h. refl)
              ]
  ]

  choose_output-Unsaved :
      (atx : Context x) (output : OutputResource) (l : Option LocalOutput) (r : Option RemoteOutput)
      → Unsaved atx (choose_output x atx output l r)
  unfolding mark_config_false
  choose_output-Unsaved atx output none none = λ e h. refl
  choose_output-Unsaved atx output (some l) (some r) = λ e h. refl
  choose_output-Unsaved atx output (some l) none = save_to-Unsaved atx output _
  choose_output-Unsaved atx output none (some r) = elim (Bool-cases (r.namespace == "")) [
    | inl blank ↦ rw blank (λ e h. refl)
    | inr named ↦ rw named (save_to-Unsaved atx output _)
  ]

  save_rendered_template-Unsaved : (atx : Context x) → Unsaved atx (save_rendered_template x atx)
  unfolding save_rendered_template
  save_rendered_template-Unsaved atx =
      choose_output-Unsaved atx atx.addon_config_definition.output_resource
        atx.addon_config_definition.output_resource.local_output
        atx.addon_config_definition.output_resource.remote_output

  save_if_clean-Unsaved :
      (p : Progress x) (e : x.Error)
      → Documented x
      → x.new_aggregate (save_if_clean x p).errors ≡ some e
      → (save_if_clean x p).context.saved ≡ p.context.saved
  unfolding save_if_clean
  save_if_clean-Unsaved p e doc h = elim (List-cases p.errors) [
    | inl clean ↦ elim (Option-cases (save_rendered_template x p.context).2) [
      | inl ok_ ↦ absurd (some_not_none (sym (rw (clean, ok_) at h) ∙ doc.aggregate_nil))
      | inr (fault, failed) ↦ rw clean (save_rendered_template-Unsaved p.context fault failed)
    ]
    | inr (fault, faults, failed) ↦ rw failed refl
  ]

  phases_saved :
      (atx : Context x)
      → (run_phases x (reconcile_phases x) (start x atx)).context.saved ≡ atx.saved
  phases_saved atx =
      reconcile_phases-keeps x (λ cs s. s ≡ atx.saved) (λ now cs s t own h. h)
        (λ now cs s t reason format args own h. h) atx refl

  -- Where the error values are as documented, a reconciliation that returns an error has stored
  -- nothing: there is no call of `CreateOrUpdate`.
  pub reconcile-stores_nothing :
      (ac : AddonConfig x.Raw) (e : x.Error)
      → Documented x
      → (reconcile x ac).2 ≡ some e
      → (reconcile x ac).0.saved ≡ []
  unfolding reconcile new_addon_config_context
  reconcile-stores_nothing ac e doc h = elim (Bool-cases (ac.definition_ref == "")) [
    | inl unset ↦ rw unset refl
    | inr set ↦ rw set (
        save_if_clean-Unsaved
          (run_phases x (reconcile_phases x) (start x (new_addon_config_context x ac))) e doc
          (rw set at h)
        ∙ phases_saved (new_addon_config_context x ac))
  ]
