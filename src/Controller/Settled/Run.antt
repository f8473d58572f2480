-- ===== src/Controller/Settled/Run.antt =====
-- controllers: how a run of phases does what its phases do, apart from what they only write.
use addonconfig.Common.{
  ◌≡◌, refl, sym, Option, none, some, List, [], ◌∷◌, ◌++◌, inl, inr, some_not_none,
}
use addonconfig.Api.Condition.{
  ConditionType, valid_config_condition, output_resource_updated_condition,
}
use addonconfig.Api.Config.{AddonConfig}
use addonconfig.Conditions.Setter.{set, true_condition, mark_true}
use addonconfig.Util.Requeue.{CtrlResult, lowest_non_zero_result}
use addonconfig.Controller.External.{External}
use addonconfig.Controller.Context.{Context, Phase, mark_config_true}
use addonconfig.Controller.Schema.{reconcile_schema_validation}
use addonconfig.Controller.Output.{save_rendered_template}
use addonconfig.Controller.Reconcile.{
  with_result, with_error, run_phase, run_phases, mark_if_clean, save_if_clean,
}
use addonconfig.Controller.Settled.Writes.{write}
use addonconfig.Controller.Reconcile.{save_if_clean}
use addonconfig.Controller.Output.{save_rendered_template}
use addonconfig.Util.Requeue.{lowest_non_zero_result}
use addonconfig.Api.Condition.{output_resource_updated_condition}
use addonconfig.Controller.Settled.Ending.{save_rendered_template-Uniform}
use addonconfig.Controller.Settled.Uniform.{Scratch, Uniform, Only, apart, and_then}
use addonconfig.Controller.Settled.Forms.{quiet, marking}
use addonconfig.Controller.Settled.Ending.{Validated, save_rendered_template-Uniform}

module _ (x : External) (ac : AddonConfig x.Raw) where
  -- What a run of phases has come to, and what is done with it.
  abbrev pub Finish : Type 0 → Type 0
  Finish B = CtrlResult → List x.Error → Context x → Context x × B

  -- A run of phases with a result and errors before it, and the end of the function after it.
  unfoldable pub ran :
      {B : Type 0}
      → Finish B
      → List (Phase x)
      → CtrlResult
      → List x.Error
      → Context x
      → Context x × B
  ran g phases r es c =
      let p = run_phases x phases (record { context = c; result = r; errors = es }) in
      g p.result p.errors p.context

  abbrev pub next_result : CtrlResult → List x.Error → CtrlResult × Option x.Error → CtrlResult
  next_result r es o = with_result x r o.0 (with_error x es o.1)

  pub ran-Uniform :
      {B : Type 0} (g : Finish B) (phase : Phase x) (phases : List (Phase x)) (r : CtrlResult)
      (es : List x.Error) (k : Scratch x ac) (W W' W'' : x.Raw → Type 0)
      (types more : List ConditionType) (u : Uniform x ac (apart x ac phase) k W W' types)
      → Uniform x ac
          (ran g phases (next_result r es u.value) (with_error x es u.value.1))
          u.core
          W'
          W''
          more
      → Uniform x ac (ran g (phase ∷ phases) r es) k W W'' (types ++ more)
  unfolding ran run_phases run_phase
  ran-Uniform g phase phases r es k W W' W'' types more u u' =
      and_then x ac (apart x ac phase)
        (λ o. ran g phases (next_result r es o) (with_error x es o.1)) k W W' W'' types more u u'

  pub ran-none :
      {B : Type 0} (g : Finish B) (r : CtrlResult) (es : List x.Error) (k : Scratch x ac)
      (W W' : x.Raw → Type 0) (types : List ConditionType)
      → Uniform x ac (g r es) k W W' types
      → Uniform x ac (ran g [] r es) k W W' types
  unfolding ran run_phases
  ran-none g r es k W W' types u = u

  -- The end of `reconcileValidation`.
  abbrev pub clean_end : Finish (CtrlResult × Option x.Error)
  clean_end r es c = (mark_if_clean x es c, (r, x.new_aggregate es))

  -- The end of `reconcile`.
  abbrev pub saving_end : Finish (CtrlResult × Option x.Error)
  saving_end r es c =
      let p = save_if_clean x (record { context = c; result = r; errors = es }) in
      (p.context, (p.result, x.new_aggregate p.errors))

  module _ (v : x.Raw) where
    clean_end-Uniform :
        (k : Scratch x ac) (r : CtrlResult) (es : List x.Error)
        → Uniform x ac (clean_end r es) k (Only x ac v) (Only x ac v) (valid_config_condition ∷ [])
    unfolding write set mark_true true_condition mark_config_true
    clean_end-Uniform k r [] =
        marking x ac _ k v (true_condition valid_config_condition) (λ s. refl)
    clean_end-Uniform k r (e ∷ es) = quiet x ac _ k v _ (λ s. refl)

    failed_end-Uniform :
        (k : Scratch x ac) (r : CtrlResult) (es : List x.Error) (e : x.Error) (o : Option x.Error)
        → o ≡ some e
        → Uniform x ac (clean_end r (with_error x es o)) k (Only x ac v) (Only x ac v) []
    failed_end-Uniform k r es e none h = absurd (some_not_none (sym h))
    failed_end-Uniform k r [] e (some f) h = quiet x ac _ k v [] (λ s. refl)
    failed_end-Uniform k r (d ∷ es) e (some f) h = quiet x ac _ k v [] (λ s. refl)

    -- The validation and the end, which mark ValidConfig once between them.
    pub validated-Uniform :
        (k : Scratch x ac) (r : CtrlResult) (es : List x.Error)
        → Validated x ac k v
        → Uniform x ac
            (ran clean_end (reconcile_schema_validation x ∷ []) r es)
            k
            (Only x ac v)
            (Only x ac v)
            (valid_config_condition ∷ [])
    unfolding ran run_phases
    validated-Uniform k r es (inl u) =
        ran-Uniform clean_end (reconcile_schema_validation x) [] r es k (Only x ac v) (Only x ac v)
          (Only x ac v) [] (valid_config_condition ∷ []) u (clean_end-Uniform u.core _ _)
    validated-Uniform k r es (inr (u, e, h)) =
        ran-Uniform clean_end (reconcile_schema_validation x) [] r es k (Only x ac v) (Only x ac v)
          (Only x ac v) (valid_config_condition ∷ []) [] u
          (failed_end-Uniform u.core (next_result r es u.value) es e u.value.1 h)

    abbrev saved_end :
        CtrlResult
        → CtrlResult × Option x.Error
        → Context x
        → Context x × (CtrlResult × Option x.Error)
    saved_end r o c = (c, (lowest_non_zero_result r o.0, x.new_aggregate (with_error x [] o.1)))

    pub saving_end-Uniform :
        (k : Scratch x ac) (r : CtrlResult) (es : List x.Error)
        → Uniform x ac
            (saving_end r es)
            k
            (Only x ac v)
            (Only x ac v)
            (output_resource_updated_condition ∷ [])
    unfolding save_if_clean
    saving_end-Uniform k r [] =
        let u = save_rendered_template-Uniform x ac k v in
        and_then x ac (apart x ac (save_rendered_template x)) (saved_end r) k (Only x ac v)
          (Only x ac v) (Only x ac v) (output_resource_updated_condition ∷ []) [] u
          (quiet x ac (saved_end r u.value) u.core v [] (λ s. refl))
    saving_end-Uniform k r (e ∷ es) = quiet x ac _ k v _ (λ s. refl)
