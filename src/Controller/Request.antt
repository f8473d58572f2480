-- ===== src/Controller/Request.antt =====
-- controllers/addonconfig_controller.go: a request for a reconciliation, from the reading of the
-- AddonConfig to the patch of its status.
use addonconfig.Common.Result.{Result, ok, err}
use addonconfig.Common.{Bool, Option, none, some, List, [], ◌∷◌, ◌++◌, if◌then◌else◌}
use addonconfig.Api.Condition.{
  ready_condition, valid_schema_condition, valid_config_condition, defaulting_complete_condition,
  valid_target_condition, valid_template_condition, ConditionType, Time,
}
use addonconfig.Api.Config.{AddonConfig}
use addonconfig.Util.Requeue.{CtrlResult, no_requeue}
use addonconfig.Patching.Platform.{Platform, ObjectKey}
use addonconfig.Patching.Options.{
  HelperOption, with_status_observed_generation, with_owned_condition_types,
}
use addonconfig.Patching.Retry.{Helper, World, get_request, requested}
use addonconfig.Patching.Helper.{new_helper, patch, Patched}
use addonconfig.Controller.External.{External}
use addonconfig.Controller.Context.{Outcome}
use addonconfig.Controller.Reconcile.{reconcile, summarise}

-- The types of `WithOwnedConditions`.
abbrev pub owned_types : List ConditionType
owned_types =
    ready_condition ∷ valid_schema_condition ∷ valid_config_condition
    ∷ defaulting_complete_condition ∷ valid_target_condition ∷ valid_template_condition ∷ []

-- `is_not_found` is IsNotFound of apimachinery; `left_by` is what a Get that fails leaves in the empty
-- AddonConfig that it is given.
module _ (x : External) (p : Platform x.Error (AddonConfig x.Raw)) (is_not_found : x.Error → Bool)
    (left_by : x.Error → AddonConfig x.Raw) where
  -- `patchAddonConfig`, at the time of its summary.
  unfoldable pub patch_addon_config :
      Time → Helper p → World p → AddonConfig x.Raw → List HelperOption → Patched p
  unfolding summarise patch with_owned_condition_types
  patch_addon_config now h w ac options =
      patch p h w (some (summarise x now ac))
        (options ++ with_owned_condition_types owned_types ∷ [])

  -- What `Reconcile` returns, and the world as it leaves it.
  abbrev pub Reconciled : Type 0
  Reconciled = World p × CtrlResult × Option x.Error

  -- The deferred function, on the error of the reconciliation.
  abbrev pub deferred : CtrlResult → Option x.Error → Patched p → Reconciled
  deferred result reterr (w, obj, none) = (w, result, reterr)
  deferred result reterr (w, obj, some e) = (w, result, p.aggregate (reterr ∷ some e ∷ []))

  abbrev and_patch : Helper p → World p → Outcome x → Reconciled
  and_patch h w (atx, result, e) = deferred result e (
      patch_addon_config (x.clock atx.marks) h w atx.addon_config
        (with_status_observed_generation ∷ []))

  abbrev pub with_helper : World p → AddonConfig x.Raw → Result x.Error (Helper p) → Reconciled
  with_helper w ac (err e) = (w, no_requeue, some e)
  with_helper w ac (ok h) = and_patch h w (reconcile x ac)

  -- What follows the reading of the AddonConfig.
  unfoldable pub reconcile_object : World p → AddonConfig x.Raw → Reconciled
  unfolding new_helper reconcile patch_addon_config with_status_observed_generation
  reconcile_object w ac = with_helper w ac (new_helper p (some ac))

  abbrev pub after_get : World p → Result x.Error (AddonConfig x.Raw) → Reconciled
  after_get w (err e) =
      if is_not_found e then (w, no_requeue, none) else reconcile_object w (left_by e)
  after_get w (ok ac) = reconcile_object w ac

  -- `Reconcile`
  unfoldable pub reconcile_request : World p → ObjectKey → Reconciled
  unfolding reconcile_object
  reconcile_request w key =
      let (s, r) = p.get w.server key in after_get (requested p w get_request s) r
