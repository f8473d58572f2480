-- ===== src/Patching/Helper.antt =====
-- util/patch/patch.go: making a helper, and the three patches of an object.
use addonconfig.Common.Result.{Result, ok, err}
use addonconfig.Common.{
  Bool, not, ◌&&◌, Option, none, some, List, [], ◌∷◌, ◌==◌, any, String, if◌then◌else◌,
}
use addonconfig.Conditions.Sprintf.{sprintf, quote}
use addonconfig.Patching.Platform.{Platform, GroupVersionKind}
use addonconfig.Patching.Options.{
  HelperOptions, HelperOption, no_helper_options, apply_helper_options,
}
use addonconfig.Patching.Copies.{
  Fields, PatchType, spec_patch, status_patch, unstructured_has_status, unsafe_unstructured_copy,
}
use addonconfig.Patching.Retry.{
  Helper, World, Request, patch_request, status_request, requested, patch_status_conditions,
}

-- `==` on kinds.
abbrev pub gvk_eq : GroupVersionKind → GroupVersionKind → Bool
gvk_eq a b = a.group == b.group && a.version == b.version && a.kind == b.kind

-- `shouldPatch`
unfoldable pub should_patch : List String → String → Bool
should_patch changes name = any (λ k. k == name) changes

module _ {Error Object : Type 0} (p : Platform Error Object) where
  open p use {
    State, Json, new_error, wrap, aggregate, gvk_text, gvk_for_object, is_setter, to_unstructured,
    from_unstructured, get_generation, set_nested_field, without_field, merge_data, unmarshal_map,
    patch_status,
  }

  abbrev pub helper_for :
      Object → GroupVersionKind → Result Error (Fields Json) → Result Error (Helper p)
  helper_for obj gvk (err e) = err e
  helper_for obj gvk (ok fields) = ok (record {
    gvk = gvk;
    before_object = obj;
    before = fields;
    is_conditions_setter = is_setter obj;
  })

  abbrev pub helper_of_kind : Object → Result Error GroupVersionKind → Result Error (Helper p)
  helper_of_kind obj (err e) = err e
  helper_of_kind obj (ok gvk) = helper_for obj gvk (to_unstructured obj)

  -- `NewHelper`; an object that is nil is `none`.
  unfoldable pub new_helper : Option Object → Result Error (Helper p)
  new_helper none = err (new_error "helper could not be created: object is nil")
  new_helper (some obj) = helper_of_kind obj (gvk_for_object obj)

  abbrev pub keys : Fields Json → List String
  keys [] = []
  keys ((k, v) ∷ fields) = k ∷ keys fields

  abbrev pub keys_of : Result Error (Fields Json) → Result Error (List String)
  keys_of (err e) = err (wrap e "failed to unmarshal patch data into a map")
  keys_of (ok diff) = ok (keys diff)

  abbrev pub changes_in : Result Error String → Result Error (List String)
  changes_in (err e) = err (wrap e "failed to calculate patch data")
  changes_in (ok text) = keys_of (unmarshal_map text)

  -- `calculateChanges`; the set is the list of its keys.
  unfoldable pub calculate_changes : Helper p → Object → Result Error (List String)
  calculate_changes h after = changes_in (merge_data h.before_object after)

  abbrev pub both : Result Error Object → Result Error Object → Result Error (Object × Object)
  both (err e) after = err e
  both (ok before) (err e) = err e
  both (ok before) (ok after) = ok (before, after)

  -- `calculatePatch`: the objects before and after, with the focus only.
  unfoldable pub calculate_patch :
      Helper p → Fields Json → Object → PatchType → Result Error (Object × Object)
  unfolding unsafe_unstructured_copy
  calculate_patch h after_fields after_obj focus =
      let (before, before_left) =
        unsafe_unstructured_copy Json without_field h.before focus h.is_conditions_setter in
      let (after, after_left) =
        unsafe_unstructured_copy Json without_field after_fields focus h.is_conditions_setter in
      both (from_unstructured before h.before_object) (from_unstructured after after_obj)

  abbrev sent : World p → Request → State × Option Error → World p × Option Error
  sent w r (s, e) = (requested p w r s, e)

  abbrev pub send_patch : World p → Result Error (Object × Object) → World p × Option Error
  send_patch w (err e) = (w, some e)
  send_patch w (ok (before, after)) = sent w patch_request (p.patch w.server before after)

  -- `patch`
  unfoldable pub patch_spec :
      Helper p → List String → Fields Json → World p → Object → World p × Option Error
  unfolding should_patch calculate_patch
  patch_spec h changes after w obj =
      if not (should_patch changes "metadata") && not (should_patch changes "spec")
      then (w, none)
      else send_patch w (calculate_patch h after obj spec_patch)

  abbrev pub send_status : World p → Result Error (Object × Object) → World p × Option Error
  send_status w (err e) = (w, some e)
  send_status w (ok (before, after)) = sent w status_request (patch_status w.server before after)

  -- `patchStatus`
  unfoldable pub patch_status_part :
      Helper p → List String → Fields Json → World p → Object → World p × Option Error
  unfolding should_patch calculate_patch
  patch_status_part h changes after w obj =
      if not (should_patch changes "status")
      then (w, none)
      else send_status w (calculate_patch h after obj status_patch)

  -- What `Patch` returns, with the object as it leaves it.
  abbrev pub Patched : Type 0
  Patched = World p × Option Object × Option Error

  abbrev failed : World p → Object → Error → Patched
  failed w obj e = (w, some obj, some e)

  -- The three patches one after the other, whatever the ones before came to.
  unfoldable pub issue_patches :
      Helper p → HelperOptions → Fields Json → List String → World p → Object → Patched
  unfolding patch_status_conditions patch_spec patch_status_part
  issue_patches h options after changes w obj =
      let (w1, e1) =
        patch_status_conditions p h w obj options.force_overwrite_conditions
          options.owned_conditions in
      let (w2, e2) = patch_spec h changes after w1 obj in
      let (w3, e3) = patch_status_part h changes after w2 obj in
      (w3, some obj, aggregate (e1 ∷ e2 ∷ e3 ∷ []))

  abbrev pub patch_changes :
      Helper p
      → HelperOptions
      → Fields Json
      → World p
      → Object
      → Result Error (List String)
      → Patched
  patch_changes h options after w obj (err e) = failed w obj e
  patch_changes h options after w obj (ok changes) = issue_patches h options after changes w obj

  abbrev pub restored :
      Helper p → HelperOptions → Fields Json → World p → Object → Result Error Object → Patched
  restored h options after w obj (err e) = failed w obj e
  restored h options after w obj (ok obj') =
      patch_changes h options after w obj' (calculate_changes h obj')

  abbrev pub observed :
      Helper p → HelperOptions → World p → Object → Result Error (Fields Json) → Patched
  observed h options w obj (err e) = failed w obj e
  observed h options w obj (ok after) = restored h options after w obj (from_unstructured after obj)

  -- What follows the conversion: the generation is set where it is asked for and there is a status.
  unfoldable pub patch_converted :
      Helper p → HelperOptions → World p → Object → Result Error (Fields Json) → Patched
  unfolding unstructured_has_status calculate_changes issue_patches
  patch_converted h options w obj (err e) = failed w obj e
  patch_converted h options w obj (ok after) =
      if unstructured_has_status Json after && options.include_status_observed_generation
      then observed h options w obj
          (set_nested_field after (get_generation after) ("status" ∷ "observedGeneration" ∷ []))
      else patch_changes h options after w obj (calculate_changes h obj)

  abbrev pub patch_of_kind :
      Helper p → World p → Object → List HelperOption → Result Error GroupVersionKind → Patched
  patch_of_kind h w obj opts (err e) = failed w obj e
  patch_of_kind h w obj opts (ok gvk) =
      if not (gvk_eq gvk h.gvk)
      then failed w obj (
          new_error (
            sprintf "unmatched GroupVersionKind, expected %q got %q"
              (quote (gvk_text h.gvk) ∷ quote (gvk_text gvk) ∷ [])))
      else patch_converted h (apply_helper_options opts no_helper_options) w obj
          (to_unstructured obj)

  -- `Patch`; an object that is nil is `none`.
  unfoldable pub patch : Helper p → World p → Option Object → List HelperOption → Patched
  unfolding patch_converted apply_helper_options
  patch h w none opts = (w, none, some (new_error "Patch could not be completed: object is nil"))
  patch h w (some obj) opts = patch_of_kind h w obj opts (gvk_for_object obj)
