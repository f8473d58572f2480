-- ===== src/Controller/Recorded.antt =====
-- controllers/addonconfig_controller.go: what a request for a reconciliation leaves on the API server.
use addonconfig.Common.Result.{Result, ok, err, err_not_ok, ok_injective}
use addonconfig.Common.{
  List, ◌≡◌, refl, sym, ap, ap₂, ◌∙◌, subst, Bool, true, false, Option, none, some, [], ◌∷◌,
  some_not_none,
}
use addonconfig.Api.Condition.{Condition, Conditions, Time}
use addonconfig.Api.Config.{AddonConfig, config_conditions}
use addonconfig.Conditions.Order.{IsCanonical, IsDistinct, set_condition-IsCanonical}
use addonconfig.Conditions.Setter.{set}
use addonconfig.Conditions.Summary.{set_summary}
use addonconfig.Conditions.Patch.{diff, is_zero}
use addonconfig.Util.Requeue.{CtrlResult}
use addonconfig.Patching.Platform.{Platform, ObjectKey, GroupVersionKind}
use addonconfig.Patching.Options.{
  HelperOption, apply_helper_options, no_helper_options, with_status_observed_generation,
  with_owned_condition_types,
}
use addonconfig.Patching.Copies.{Fields}
use addonconfig.Patching.Retry.{Helper, World, Attempt, get_request, requested}
use addonconfig.Patching.Helper.{new_helper, helper_for, helper_of_kind, Patched}
use addonconfig.Patching.Laws.{Retries, Locking, Aggregates, Observing}
use addonconfig.Patching.Landing.{IsLanded, patch-IsLanded}
use addonconfig.Controller.External.{External}
use addonconfig.Controller.Reconcile.{reconcile, summarise}
use addonconfig.Controller.Guarantees.{reconcile-IsCanonical}
use addonconfig.Controller.Request.{
  Reconciled, patch_addon_config, owned_types, deferred, with_helper, reconcile_object, after_get,
  reconcile_request,
}

set-IsDistinct :
    (now : Time) (cs : Conditions) (c : Option Condition)
    → IsDistinct cs
    → IsDistinct (set now cs c)
unfolding set
set-IsDistinct now cs none h = h
set-IsDistinct now cs (some c) h = (set_condition-IsCanonical now cs c h).distinct

module _ (x : External) (p : Platform x.Error (AddonConfig x.Raw)) (is_not_found : x.Error → Bool)
    (left_by : x.Error → AddonConfig x.Raw) where
  -- The helper is for the object that it is made from.
  helper_for-before :
      (ac : AddonConfig x.Raw) (gvk : GroupVersionKind) (r : Result x.Error (Fields p.Json))
      (h : Helper p)
      → helper_for p ac gvk r ≡ ok h
      → (h.before_object ≡ ac) × (h.is_conditions_setter ≡ p.is_setter ac)
  helper_for-before ac gvk (err e) h made = absurd (err_not_ok made)
  helper_for-before ac gvk (ok fields) h made = (
    ap (λ g. g.before_object) (sym (ok_injective made)),
    ap (λ g. g.is_conditions_setter) (sym (ok_injective made)),
  )

  new_helper-before :
      (ac : AddonConfig x.Raw) (h : Helper p)
      → new_helper p (some ac) ≡ ok h
      → (h.before_object ≡ ac) × (h.is_conditions_setter ≡ p.is_setter ac)
  unfolding new_helper
  new_helper-before ac h made = go (p.gvk_for_object ac) made
    where
      go :
          (r : Result x.Error GroupVersionKind)
          → helper_of_kind p ac r ≡ ok h
          → (h.before_object ≡ ac) × (h.is_conditions_setter ≡ p.is_setter ac)
      go (err e) made = absurd (err_not_ok made)
      go (ok gvk) made = helper_for-before ac gvk (p.to_unstructured ac) h made

  deferred-clean :
      (result : CtrlResult) (reterr : Option x.Error) (r : Patched p)
      → Aggregates p
      → (deferred x p is_not_found left_by result reterr r).2 ≡ none
      → (reterr ≡ none) × (r.2 ≡ none)
  deferred-clean result reterr (w, obj, none) aggregates clean = (clean, refl)
  deferred-clean result reterr (w, obj, some e) aggregates clean =
      absurd (some_not_none (aggregates.all_nil (reterr ∷ some e ∷ []) clean).1.0)

  deferred-world :
      (result : CtrlResult) (reterr : Option x.Error) (r : Patched p)
      → (deferred x p is_not_found left_by result reterr r).0 ≡ r.0
  deferred-world result reterr (w, obj, none) = refl
  deferred-world result reterr (w, obj, some e) = refl

  -- What the platform knows of AddonConfigs, whose type has the methods of conditions.Setter.
  pub record Serving : Type 0 where
    pub is_setter : (ac : AddonConfig x.Raw) → p.is_setter ac ≡ true
    pub conditions : (ac : AddonConfig x.Raw) → p.get_conditions ac ≡ config_conditions ac

  -- The AddonConfig as a reconciliation leaves it, with its summary.
  abbrev pub result_of : AddonConfig x.Raw → AddonConfig x.Raw
  result_of ac = let atx = (reconcile x ac).0 in summarise x (x.clock atx.marks) atx.addon_config

  abbrev patched_by : World p → AddonConfig x.Raw → Helper p → Patched p
  patched_by w ac h =
      patch_addon_config x p is_not_found left_by (x.clock (reconcile x ac).0.marks) h w
        (reconcile x ac).0.addon_config (with_status_observed_generation ∷ [])

  result_of-IsDistinct :
      (ac : AddonConfig x.Raw) → IsCanonical ac.conditions → IsDistinct (result_of ac).conditions
  unfolding summarise set_summary
  result_of-IsDistinct ac canonical =
      set-IsDistinct _ _ _ (reconcile-IsCanonical x ac canonical).distinct

  module _ (retries : Retries p (Attempt p)) (stored : p.State → Conditions)
      (locking : Locking p stored) (aggregates : Aggregates p) (observing : Observing p)
      (serving : Serving) where
    -- The helper that was made for the AddonConfig, and the run of `Patch` with it, from `w` to `end`, for
    -- what the reconciliation and the summary leave.
    abbrev pub HasLanded : World p → AddonConfig x.Raw → World p → Type 0
    HasLanded w ac end =
        (h : Helper p) × (new_helper p (some ac) ≡ ok h)
        × (h.before_object ≡ ac)
        × IsLanded p retries stored locking h w
            (apply_helper_options
              (with_status_observed_generation ∷ with_owned_condition_types owned_types ∷ [])
              no_helper_options)
            (result_of ac) end

    patch_addon_config-HasLanded :
        (w : World p) (ac : AddonConfig x.Raw) (h : Helper p)
        → new_helper p (some ac) ≡ ok h
        → IsCanonical ac.conditions
        → is_zero (diff ac.conditions (result_of ac).conditions) ≡ false
        → (patched_by w ac h).2 ≡ none
        → HasLanded w ac (patched_by w ac h).0
    unfolding patch_addon_config
    patch_addon_config-HasLanded w ac h made canonical changed clean =
        let (same, setter) = new_helper-before ac h made in
        let options : List HelperOption =
          with_status_observed_generation ∷ with_owned_condition_types owned_types ∷ [] in
        let old : p.get_conditions h.before_object ≡ ac.conditions =
          ap p.get_conditions same ∙ serving.conditions ac in
        let new = serving.conditions (result_of ac) in
        (
          h,
          made,
          same,
          patch-IsLanded p retries stored locking h w (result_of ac) options aggregates observing
              (setter ∙ serving.is_setter ac) (subst IsDistinct (sym old) canonical.distinct)
              (subst IsDistinct (sym new) (result_of-IsDistinct ac canonical))
              (ap₂ (λ a b. is_zero (diff a b)) old new ∙ changed) clean,
        )

    reconcile_object-HasLanded :
        (w : World p) (ac : AddonConfig x.Raw) (r : Result x.Error (Helper p))
        → new_helper p (some ac) ≡ r
        → IsCanonical ac.conditions
        → is_zero (diff ac.conditions (result_of ac).conditions) ≡ false
        → (with_helper x p is_not_found left_by w ac r).2 ≡ none
        → ((reconcile x ac).2 ≡ none)
          × HasLanded w ac (with_helper x p is_not_found left_by w ac r).0
    reconcile_object-HasLanded w ac (err e) made canonical changed clean =
        absurd (some_not_none clean)
    reconcile_object-HasLanded w ac (ok h) made canonical changed clean =
        let (finished, patched) = deferred-clean _ _ (patched_by w ac h) aggregates clean in
        (
          finished,
          subst (HasLanded w ac) (sym (deferred-world _ _ (patched_by w ac h)))
              (patch_addon_config-HasLanded w ac h made canonical changed patched),
        )

    -- A request that returns no error, for an AddonConfig that is there, has reconciled it without an
    -- error and then patched it: the server has accepted a patch that leaves the three-way merge of the
    -- conditions that it had with the change from the conditions as they were read to those of the
    -- reconciliation and its summary; then one of the rest and one of the status, each just where the
    -- merge patch from the AddonConfig as read to the result, with its observed generation, has the
    -- metadata or the spec, or the status; if the conditions are in their order with no type twice, and
    -- change, the platform knows what an AddonConfig has, the retries, the lock and the aggregates are as
    -- documented, and to write the observed generation keeps the conditions.
    pub reconcile_request-HasLanded :
        (w : World p) (key : ObjectKey) (ac : AddonConfig x.Raw)
        → (p.get w.server key).1 ≡ ok ac
        → IsCanonical ac.conditions
        → is_zero (diff ac.conditions (result_of ac).conditions) ≡ false
        → (reconcile_request x p is_not_found left_by w key).2 ≡ none
        → ((reconcile x ac).2 ≡ none)
          × HasLanded
              (requested p w get_request (p.get w.server key).0)
              ac
              (reconcile_request x p is_not_found left_by w key).0
    unfolding reconcile_request reconcile_object
    reconcile_request-HasLanded w key ac read canonical changed clean =
        let w' = requested p w get_request (p.get w.server key).0 in
        let run : Result x.Error (AddonConfig x.Raw) → Reconciled x p is_not_found left_by =
          λ r. after_get x p is_not_found left_by w' r in
        subst (λ r. ((reconcile x ac).2 ≡ none) × HasLanded w' ac (run r).0) (sym read)
          (reconcile_object-HasLanded w' ac (new_helper p (some ac)) refl canonical changed
            (subst (λ r. (run r).2 ≡ none) read clean))
