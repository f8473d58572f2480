-- ===== src/Controller/Limits.antt =====
-- controllers/addonconfig_controller.go: how many requests of the API server a reconciliation makes.
use addonconfig.Common.Result.{Result, ok, err}
use addonconfig.Common.{
  ◌≡◌, ◌≤◌, ◌+◌, refl, Bool, Option, none, some, [], ◌∷◌, arith, length, length-append, Bool-cases,
  inl, inr,
}
use addonconfig.Api.Config.{AddonConfig}
use addonconfig.Util.Requeue.{CtrlResult}
use addonconfig.Patching.Platform.{Platform, ObjectKey}
use addonconfig.Patching.Options.{with_status_observed_generation, with_owned_condition_types}
use addonconfig.Patching.Retry.{Helper, World, Attempt, get_request, requested}
use addonconfig.Patching.Helper.{new_helper, Patched}
use addonconfig.Patching.Laws.{Retries}
use addonconfig.Patching.Whole.{patch-bound}
use addonconfig.Controller.External.{External}
use addonconfig.Controller.Reconcile.{reconcile, summarise}
use addonconfig.Controller.Request.{
  patch_addon_config, owned_types, deferred, with_helper, reconcile_object, after_get,
  reconcile_request,
}

module _ (x : External) (p : Platform x.Error (AddonConfig x.Raw)) (is_not_found : x.Error → Bool)
    (left_by : x.Error → AddonConfig x.Raw) (retries : Retries p (Attempt p)) where
  length-deferred :
      (result : CtrlResult) (reterr : Option x.Error) (r : Patched p)
      → length (deferred x p is_not_found left_by result reterr r).0.log ≡ length r.0.log
  length-deferred result reterr (w, obj, none) = refl
  length-deferred result reterr (w, obj, some e) = refl

  length-with_helper :
      (w : World p) (ac : AddonConfig x.Raw) (r : Result x.Error (Helper p))
      → length (with_helper x p is_not_found left_by w ac r).0.log ≤ length w.log + 12
  unfolding patch_addon_config
  length-with_helper w ac (err e) = omega arith
  length-with_helper w ac (ok h) = omega (
    arith,
    length-deferred (reconcile x ac).1 (reconcile x ac).2 (
        patch_addon_config x p is_not_found left_by (x.clock (reconcile x ac).0.marks) h w
          (reconcile x ac).0.addon_config (with_status_observed_generation ∷ [])),
    patch-bound p retries h w
        (some (summarise x (x.clock (reconcile x ac).0.marks) (reconcile x ac).0.addon_config))
        (with_status_observed_generation ∷ with_owned_condition_types owned_types ∷ []),
  )

  length-after_get :
      (w : World p) (r : Result x.Error (AddonConfig x.Raw))
      → length (after_get x p is_not_found left_by w r).0.log ≤ length w.log + 12
  unfolding reconcile_object
  length-after_get w (ok ac) = length-with_helper w ac (new_helper p (some ac))
  length-after_get w (err e) = elim (Bool-cases (is_not_found e)) [
    | inl gone ↦ rw gone (omega arith)
    | inr other ↦ rw other (length-with_helper w (left_by e) (new_helper p (some (left_by e))))
  ]

  -- A request makes at most thirteen requests of the server for the AddonConfig, whatever fails, if
  -- the retries are as documented.
  pub length-reconcile_request :
      (w : World p) (key : ObjectKey)
      → length (reconcile_request x p is_not_found left_by w key).0.log ≤ length w.log + 13
  unfolding reconcile_request
  length-reconcile_request w key = omega (
    arith,
    length-append {0} w.log (get_request ∷ []),
    length-after_get (requested p w get_request (p.get w.server key).0) (p.get w.server key).1,
  )
