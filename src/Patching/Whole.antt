-- ===== src/Patching/Whole.antt =====
-- util/patch/patch.go: what the three patches of an object come to together.
use addonconfig.Common.Result.{Result, ok, err}
use addonconfig.Common.{
  ◌≡◌, ◌⊎◌, ◌≤◌, ◌+◌, refl, Bool, true, false, ◌&&◌, String, Option, none, some, List, [], ◌∷◌,
  length, length-append, inl, inr, arith, if◌then◌else◌, Bool-cases,
}
use addonconfig.Patching.Platform.{Platform}
use addonconfig.Patching.Options.{
  HelperOptions, HelperOption, no_helper_options, apply_helper_options,
}
use addonconfig.Patching.Copies.{Fields, unstructured_has_status}
use addonconfig.Patching.Retry.{
  Helper, World, Attempt, patch_request, status_request, patch_status_conditions,
}
use addonconfig.Patching.Helper.{
  gvk_eq, calculate_changes, send_patch, send_status, patch_spec, patch_status_part, issue_patches,
  patch_changes, restored, observed, patch_converted, patch_of_kind, patch, Patched,
}
use addonconfig.Patching.Laws.{Retries}
use addonconfig.Patching.Contention.{patch_status_conditions-bound}

module _ {Error Object : Type 0} (p : Platform Error Object) where
  open p use {Json}

  length-send_patch :
      (w : World p) (r : Result Error (Object × Object))
      → length (send_patch p w r).0.log ≤ length w.log + 1
  length-send_patch w (err e) = omega arith
  length-send_patch w (ok (before, after)) =
      omega (arith, length-append {0} w.log (patch_request ∷ []))

  length-send_status :
      (w : World p) (r : Result Error (Object × Object))
      → length (send_status p w r).0.log ≤ length w.log + 1
  length-send_status w (err e) = omega arith
  length-send_status w (ok (before, after)) =
      omega (arith, length-append {0} w.log (status_request ∷ []))

  length-if :
      (b : Bool) (w : World p) (r : World p × Option Error)
      → length r.0.log ≤ length w.log + 1
      → length (if b then (w, none) else r).0.log ≤ length w.log + 1
  length-if true w r h = omega arith
  length-if false w r h = h

  length-patch_spec :
      (h : Helper p) (changes : List String) (after : Fields Json) (w : World p) (obj : Object)
      → length (patch_spec p h changes after w obj).0.log ≤ length w.log + 1
  unfolding patch_spec
  length-patch_spec h changes after w obj = length-if _ w (send_patch p w _) (length-send_patch w _)

  length-patch_status_part :
      (h : Helper p) (changes : List String) (after : Fields Json) (w : World p) (obj : Object)
      → length (patch_status_part p h changes after w obj).0.log ≤ length w.log + 1
  unfolding patch_status_part
  length-patch_status_part h changes after w obj =
      length-if _ w (send_status p w _) (length-send_status w _)

  -- Whether the observed generation is to be written into the object, which has these fields.
  abbrev pub is_observed : HelperOptions → Fields Json → Bool
  is_observed options fields =
      unstructured_has_status Json fields && options.include_status_observed_generation

  abbrev pub with_generation : Fields Json → Result Error (Fields Json)
  with_generation fields =
      p.set_nested_field fields (p.get_generation fields) ("status" ∷ "observedGeneration" ∷ [])

  -- The object that is patched and its fields, for one given to `Patch`: the same, or where the observed
  -- generation is to be written, the object of the fields with it.
  abbrev pub IsPrepared : HelperOptions → Object → Fields Json → Object → Type 0
  IsPrepared options obj after object =
      ((object ≡ obj) × (p.to_unstructured obj ≡ ok after) × (is_observed options after ≡ false))
      ⊎ ((fields : Fields Json) × (p.to_unstructured obj ≡ ok fields)
          × (is_observed options fields ≡ true)
          × (with_generation fields ≡ ok after)
          × (p.from_unstructured after obj ≡ ok object))

  -- What `Patch` ends with: an error before the first request, or what the three patches come to for the
  -- prepared object and the changes computed for it.
  module _ (h : Helper p) (w : World p) (P : Patched p → Type 0)
      (failing : (o : Option Object) (e : Error) → P (w, o, some e)) where
    module _ (options : HelperOptions) (given : Object)
        (issuing : (after : Fields Json) (changes : List String) (obj : Object)
          → IsPrepared options given after obj
          → calculate_changes p h obj ≡ ok changes
          → P (issue_patches p h options after changes w obj)) where
      patch_changes_lem :
          (after : Fields Json) (obj : Object) (r : Result Error (List String))
          → IsPrepared options given after obj
          → calculate_changes p h obj ≡ r
          → P (patch_changes p h options after w obj r)
      patch_changes_lem after obj (err e) q computed = failing (some obj) e
      patch_changes_lem after obj (ok changes) q computed = issuing after changes obj q computed

      restored_lem :
          (after : Fields Json) (r : Result Error Object)
          → ((obj : Object) → r ≡ ok obj → IsPrepared options given after obj)
          → P (restored p h options after w given r)
      restored_lem after (err e) q = failing (some given) e
      restored_lem after (ok obj) q =
          patch_changes_lem after obj (calculate_changes p h obj) (q obj refl) refl

      observed_lem :
          (r : Result Error (Fields Json))
          → ((after : Fields Json) (obj : Object)
              → r ≡ ok after
              → p.from_unstructured after given ≡ ok obj
              → IsPrepared options given after obj)
          → P (observed p h options w given r)
      observed_lem (err e) q = failing (some given) e
      observed_lem (ok after) q =
          restored_lem after (p.from_unstructured after given) (λ obj. q after obj refl)

      patch_converted_lem :
          (r : Result Error (Fields Json))
          → p.to_unstructured given ≡ r
          → P (patch_converted p h options w given r)
      unfolding patch_converted
      patch_converted_lem (err e) read = failing (some given) e
      patch_converted_lem (ok fields) read = elim (Bool-cases (is_observed options fields)) [
        | inl asked ↦ rw asked (
            observed_lem (with_generation fields)
              (λ after obj written made. inr (fields, read, asked, written, made)))
        | inr other ↦ rw other (
            patch_changes_lem fields given (calculate_changes p h given) (inl (refl, read, other))
              refl)
      ]

    pub patch_lem :
        (obj : Object) (opts : List HelperOption)
        → ((after : Fields Json) (changes : List String) (obj' : Object)
            → IsPrepared (apply_helper_options opts no_helper_options) obj after obj'
            → calculate_changes p h obj' ≡ ok changes
            → P (
                issue_patches p h
                  (apply_helper_options opts no_helper_options)
                  after
                  changes
                  w
                  obj'))
        → P (patch p h w (some obj) opts)
    unfolding patch
    patch_lem obj opts issuing =
        elim (p.gvk_for_object obj) as (λ r. P (patch_of_kind p h w obj opts r)) [
          | err e ↦ failing (some obj) e
          | ok gvk ↦ elim (Bool-cases (gvk_eq gvk h.gvk)) [
            | inl same ↦ rw same (
                patch_converted_lem (apply_helper_options opts no_helper_options) obj issuing
                  (p.to_unstructured obj) refl)
            | inr other ↦ rw other (failing (some obj) _)
          ]
        ]

  module _ (retries : Retries p (Attempt p)) (h : Helper p) (w : World p) where
    abbrev IsBounded : Patched p → Type 0
    IsBounded r = length r.0.log ≤ length w.log + 12

    issue_patches-bound :
        (options : HelperOptions) (after : Fields Json) (changes : List String) (obj : Object)
        → IsBounded (issue_patches p h options after changes w obj)
    unfolding issue_patches
    issue_patches-bound options after changes obj =
        let w1 =
          (patch_status_conditions p h w obj options.force_overwrite_conditions
            options.owned_conditions).0 in
        let w2 = (patch_spec p h changes after w1 obj).0 in
        omega (
          arith,
          patch_status_conditions-bound p retries h w obj options.force_overwrite_conditions
              options.owned_conditions,
          length-patch_spec h changes after w1 obj,
          length-patch_status_part h changes after w2 obj,
        )

    -- `Patch` makes twelve requests at most, whatever its options are and wherever it fails, if the
    -- retries are as documented.
    pub patch-bound :
        (obj : Option Object) (opts : List HelperOption)
        → length (patch p h w obj opts).0.log ≤ length w.log + 12
    unfolding patch
    patch-bound none opts = omega arith
    patch-bound (some obj) opts =
        patch_lem h w IsBounded (λ o e. omega arith) obj opts
          (λ after changes obj' q c.
            issue_patches-bound (apply_helper_options opts no_helper_options) after changes obj')
