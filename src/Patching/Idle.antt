-- ===== src/Patching/Idle.antt =====
-- util/patch/patch.go: a patch of an object that has not changed.
use addonconfig.Common.Result.{Result, ok, err, err_not_ok, ok_injective}
use addonconfig.Common.{
  ◌≡◌, refl, sym, ap, ◌∙◌, true, String, Option, none, some, List, [], ◌∷◌, inl, inr, Bool-cases,
  some_not_none, ==_refl,
}
use addonconfig.Api.Condition.{Condition, Conditions}
use addonconfig.Conditions.Getter.{get}
use addonconfig.Conditions.Order.{IsDistinct}
use addonconfig.Conditions.Patch.{Patch, diff, is_zero, new_patch}
use addonconfig.Conditions.ThreeWay.{type_of, operation_for}
use addonconfig.Conditions.Difference.{expected, operation_for-diff}
use addonconfig.Conditions.Ownership.{deep_equal_refl}
use addonconfig.Patching.Platform.{Platform, GroupVersionKind}
use addonconfig.Patching.Options.{
  HelperOptions, HelperOption, no_helper_options, apply_helper_options,
}
use addonconfig.Patching.Copies.{Fields}
use addonconfig.Patching.Retry.{Helper, World, patch_status_conditions}
use addonconfig.Patching.Helper.{
  gvk_eq, should_patch, calculate_changes, patch_spec, patch_status_part, issue_patches,
  patch_converted, patch, new_helper, helper_for, helper_of_kind,
}
use addonconfig.Patching.Laws.{Aggregates}
use addonconfig.Patching.Whole.{is_observed, with_generation}

is_zero-none : (q : Patch) → ((t : String) → operation_for q t ≡ none) → is_zero q ≡ true
unfolding is_zero operation_for
is_zero-none [] h = refl
is_zero-none (op ∷ q) h =
    let here = h (type_of op) in absurd (some_not_none (rw (==_refl (type_of op)) at here))

expected-same : (o : Option Condition) → expected o o ≡ none
expected-same none = refl
expected-same (some c) = rw (deep_equal_refl c) refl

diff-same : (cs : Conditions) → IsDistinct cs → is_zero (diff cs cs) ≡ true
diff-same cs d =
    is_zero-none (diff cs cs) λ t. operation_for-diff cs cs t d ∙ expected-same (get cs t)

gvk_eq_refl : (g : GroupVersionKind) → gvk_eq g g ≡ true
gvk_eq_refl g = rw (==_refl g.group, ==_refl g.version, ==_refl g.kind) refl

module _ {Error Object : Type 0} (p : Platform Error Object) where
  issue_patches-idle :
      (h : Helper p) (options : HelperOptions) (w : World p) (after : Fields p.Json) (obj : Object)
      → Aggregates p
      → is_zero (diff (p.get_conditions h.before_object) (p.get_conditions obj)) ≡ true
      → issue_patches p h options after [] w obj ≡ (w, some obj, none)
  unfolding issue_patches patch_status_conditions new_patch patch_spec patch_status_part
      should_patch
  issue_patches-idle h options w after obj aggregates same =
      let clean = aggregates.no_errors (none ∷ none ∷ none ∷ []) (refl, (refl, (refl, tt))) in
      elim (Bool-cases h.is_conditions_setter) [
        | inl setter ↦ rw (setter, same) (ap (λ e. (w, some obj, e)) clean)
        | inr other ↦ rw other (ap (λ e. (w, some obj, e)) clean)
      ]

  -- What `NewHelper` has read of the object.
  helper_for-read :
      (obj : Object) (gvk : GroupVersionKind) (r : Result Error (Fields p.Json)) (h : Helper p)
      → helper_for p obj gvk r ≡ ok h
      → (fields : Fields p.Json) × (r ≡ ok fields) × (h.gvk ≡ gvk) × (h.before_object ≡ obj)
  helper_for-read obj gvk (err e) h made = absurd (err_not_ok made)
  helper_for-read obj gvk (ok fields) h made = (
    fields,
    refl,
    ap (λ g. g.gvk) (sym (ok_injective made)),
    ap (λ g. g.before_object) (sym (ok_injective made)),
  )

  helper_of_kind-read :
      (obj : Object) (r : Result Error GroupVersionKind) (h : Helper p)
      → helper_of_kind p obj r ≡ ok h
      → (r ≡ ok h.gvk)
        × (h.before_object ≡ obj)
        × ((fields : Fields p.Json) × (p.to_unstructured obj ≡ ok fields))
  helper_of_kind-read obj (err e) h made = absurd (err_not_ok made)
  helper_of_kind-read obj (ok gvk) h made =
      let (fields, read, kind, object) = helper_for-read obj gvk (p.to_unstructured obj) h made in
      (ap ok (sym kind), object, (fields, read))

  calculate_changes-same :
      (h : Helper p) (obj : Object) (text : String)
      → h.before_object ≡ obj
      → p.merge_data obj obj ≡ ok text
      → p.unmarshal_map text ≡ ok []
      → calculate_changes p h obj ≡ ok []
  unfolding calculate_changes
  calculate_changes-same h obj text object merged decoded = rw (object, merged, decoded) refl

  module _ (h : Helper p) (options : HelperOptions) (w : World p) (obj : Object)
      (fields : Fields p.Json)
      (issued : issue_patches p h options fields [] w obj ≡ (w, some obj, none))
      (computed : calculate_changes p h obj ≡ ok []) where
    patch_converted-idle :
        (is_observed p options fields ≡ true
          → (with_generation p fields ≡ ok fields) × (p.from_unstructured fields obj ≡ ok obj))
        → patch_converted p h options w obj (ok fields) ≡ (w, some obj, none)
    unfolding patch_converted
    patch_converted-idle settled = elim (Bool-cases (is_observed p options fields)) [
      | inl asked ↦
          let (written, made) = settled asked in rw (asked, written, made, computed) issued
      | inr other ↦ rw (other, computed) issued
    ]

  -- Where `Patch` is called for the object that its helper was made from, it makes no request, leaves the
  -- object as it is and returns no error, whatever its options are; if the object has no type of
  -- condition twice, the merge patch from an object to itself is empty, where the observed generation is
  -- to be written to write it changes nothing, and an aggregate of no errors is nil.
  pub patch-idle :
      (h : Helper p) (w : World p) (obj : Object) (opts : List HelperOption) (text : String)
      → Aggregates p
      → new_helper p (some obj) ≡ ok h
      → IsDistinct (p.get_conditions obj)
      → p.merge_data obj obj ≡ ok text
      → p.unmarshal_map text ≡ ok []
      → ((fields : Fields p.Json)
          → p.to_unstructured obj ≡ ok fields
          → is_observed p (apply_helper_options opts no_helper_options) fields ≡ true
          → (with_generation p fields ≡ ok fields) × (p.from_unstructured fields obj ≡ ok obj))
      → patch p h w (some obj) opts ≡ (w, some obj, none)
  unfolding patch new_helper
  patch-idle h w obj opts text aggregates made distinct merged decoded settled =
      let options = apply_helper_options opts no_helper_options in
      let (kind, object, (fields, read)) = helper_of_kind-read obj (p.gvk_for_object obj) h made in
      let same : is_zero (diff (p.get_conditions h.before_object) (p.get_conditions obj)) ≡ true =
        ap (λ o. is_zero (diff (p.get_conditions o) (p.get_conditions obj))) object
        ∙ diff-same (p.get_conditions obj) distinct in
      rw (kind, gvk_eq_refl h.gvk, read)
        (patch_converted-idle h options w obj fields
          (issue_patches-idle h options w fields obj aggregates same)
          (calculate_changes-same h obj text object merged decoded) (settled fields read))
