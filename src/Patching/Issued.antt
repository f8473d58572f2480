-- ===== src/Patching/Issued.antt =====
-- util/patch/patch.go: the patches of the spec and of the status, that are made for what has changed.
use addonconfig.Common.Result.{Result, ok, err, err_not_ok, ok_injective}
use addonconfig.Common.{
  ◌≡◌, refl, ap, Bool, true, false, not, ◌&&◌, ◌||◌, String, Option, none, List, [], ◌∷◌, ◌==◌, any,
  some_not_none, Bool-cases, inl, inr, arith,
}
use addonconfig.Patching.Platform.{Platform}
use addonconfig.Patching.Copies.{
  Fields, PatchType, spec_patch, status_patch, unsafe_unstructured_copy,
}
use addonconfig.Patching.Retry.{Helper, World, Request, patch_request, status_request, requested}
use addonconfig.Patching.Helper.{
  should_patch, keys, keys_of, changes_in, calculate_changes, both, calculate_patch, send_patch,
  send_status, patch_spec, patch_status_part,
}

module _ {Error Object : Type 0} (p : Platform Error Object) where
  -- The merge patch from the helper's object to this one, as a map.
  abbrev pub IsDifference : Helper p → Object → Fields p.Json → Type 0
  IsDifference h object difference =
      (text : String) × (p.merge_data h.before_object object ≡ ok text)
      × (p.unmarshal_map text ≡ ok difference)

  abbrev pub in_metadata_or_spec : Fields p.Json → Bool
  in_metadata_or_spec difference =
      any (λ entry. entry.0 == "metadata" || entry.0 == "spec") difference

  abbrev pub in_status : Fields p.Json → Bool
  in_status difference = any (λ entry. entry.0 == "status") difference

  -- The fields with the focus only, and what every copy has.
  abbrev cut_down : Helper p → PatchType → Fields p.Json → Fields p.Json
  cut_down h focus fields =
      (unsafe_unstructured_copy p.Json p.without_field fields focus h.is_conditions_setter).0

  -- From `w` to `w'`, one request was made and accepted, with the objects before and after cut down to
  -- the focus, where there is something to patch; and none where there is not.
  abbrev pub IsIssued :
      (p.State → Object → Object → p.State × Option Error)
      → Request
      → PatchType
      → Helper p
      → Fields p.Json
      → Object
      → Bool
      → World p
      → World p
      → Type 0
  IsIssued send request focus h fields object false w w' = w' ≡ w
  IsIssued send request focus h fields object true w w' =
      (before : Object) × (after : Object) × (p.from_unstructured (cut_down h focus h.before)
          h.before_object
        ≡ ok before)
      × ((p.from_unstructured (cut_down h focus fields) object ≡ ok after)
          × ((server : p.State) × (send w.server before after ≡ (server, none))
              × (w' ≡ requested p w request server)))

  both-ok :
      (b a : Result Error Object) (before after : Object)
      → both p b a ≡ ok (before, after)
      → (b ≡ ok before) × (a ≡ ok after)
  both-ok (err e) a before after h = absurd (err_not_ok h)
  both-ok (ok b) (err e) before after h = absurd (err_not_ok h)
  both-ok (ok b) (ok a) before after h =
      (ap (λ q. ok q.0) (ok_injective h), ap (λ q. ok q.1) (ok_injective h))

  -- The two objects that are sent.
  calculate_patch-ok :
      (h : Helper p) (fields : Fields p.Json) (object before after : Object) (focus : PatchType)
      → calculate_patch p h fields object focus ≡ ok (before, after)
      → (p.from_unstructured (cut_down h focus h.before) h.before_object ≡ ok before)
        × (p.from_unstructured (cut_down h focus fields) object ≡ ok after)
  unfolding calculate_patch
  calculate_patch-ok h fields object before after focus computed = both-ok _ _ before after computed

  keys_of-ok :
      (r : Result Error (Fields p.Json)) (changes : List String)
      → keys_of p r ≡ ok changes
      → (difference : Fields p.Json) × (r ≡ ok difference) × (keys p difference ≡ changes)
  keys_of-ok (err e) changes h = absurd (err_not_ok h)
  keys_of-ok (ok difference) changes h = (difference, refl, ok_injective h)

  changes_in-ok :
      (r : Result Error String) (changes : List String)
      → changes_in p r ≡ ok changes
      → (text : String) × (r ≡ ok text)
        × ((difference : Fields p.Json) × (p.unmarshal_map text ≡ ok difference)
            × (keys p difference ≡ changes))
  changes_in-ok (err e) changes h = absurd (err_not_ok h)
  changes_in-ok (ok text) changes h = (text, refl, keys_of-ok (p.unmarshal_map text) changes h)

  pub calculate_changes-IsDifference :
      (h : Helper p) (object : Object) (changes : List String)
      → calculate_changes p h object ≡ ok changes
      → (difference : Fields p.Json) × IsDifference h object difference
        × (keys p difference ≡ changes)
  unfolding calculate_changes
  calculate_changes-IsDifference h object changes computed =
      let (text, merged, (difference, decoded, same)) =
        changes_in-ok (p.merge_data h.before_object object) changes computed in
      (difference, (text, merged, decoded), same)

  metadata_or_spec :
      (difference : Fields p.Json)
      → (not (should_patch (keys p difference) "metadata")
          && not (should_patch (keys p difference) "spec"))
        ≡ not (in_metadata_or_spec difference)
  unfolding should_patch
  metadata_or_spec [] = refl
  metadata_or_spec ((k, v) ∷ rest) = ground (arith, metadata_or_spec rest)

  status_key :
      (difference : Fields p.Json)
      → should_patch (keys p difference) "status" ≡ in_status difference
  unfolding should_patch
  status_key [] = refl
  status_key ((k, v) ∷ rest) = ap (λ b. k == "status" || b) (status_key rest)

  sent_patch :
      (h : Helper p) (fields : Fields p.Json) (object : Object) (w : World p)
      (r : Result Error (Object × Object))
      → calculate_patch p h fields object spec_patch ≡ r
      → (send_patch p w r).1 ≡ none
      → IsIssued p.patch patch_request spec_patch h fields object true w (send_patch p w r).0
  sent_patch h fields object w (err e) computed clean = absurd (some_not_none clean)
  sent_patch h fields object w (ok (before, after)) computed clean =
      let (old, new) = calculate_patch-ok h fields object before after spec_patch computed in
      (before, after, old, (new, (_, ap (λ e. ((p.patch w.server before after).0, e)) clean, refl)))

  sent_status :
      (h : Helper p) (fields : Fields p.Json) (object : Object) (w : World p)
      (r : Result Error (Object × Object))
      → calculate_patch p h fields object status_patch ≡ r
      → (send_status p w r).1 ≡ none
      → IsIssued p.patch_status status_request status_patch h fields object true w
          (send_status p w r).0
  sent_status h fields object w (err e) computed clean = absurd (some_not_none clean)
  sent_status h fields object w (ok (before, after)) computed clean =
      let (old, new) = calculate_patch-ok h fields object before after status_patch computed in
      (
        before,
        after,
        old,
        (new, (_, ap (λ e. ((p.patch_status w.server before after).0, e)) clean, refl)),
      )

  pub patch_spec-IsIssued :
      (h : Helper p) (difference fields : Fields p.Json) (w : World p) (object : Object)
      → (patch_spec p h (keys p difference) fields w object).1 ≡ none
      → IsIssued p.patch patch_request spec_patch h fields object
          (in_metadata_or_spec difference)
          w
          (patch_spec p h (keys p difference) fields w object).0
  unfolding patch_spec
  patch_spec-IsIssued h difference fields w object =
      elim (Bool-cases (in_metadata_or_spec difference)) [
        | inl there ↦
            rw (metadata_or_spec difference, there)
              (sent_patch h fields object w (calculate_patch p h fields object spec_patch) refl)
        | inr absent ↦ rw (metadata_or_spec difference, absent) (λ clean. refl)
      ]

  pub patch_status_part-IsIssued :
      (h : Helper p) (difference fields : Fields p.Json) (w : World p) (object : Object)
      → (patch_status_part p h (keys p difference) fields w object).1 ≡ none
      → IsIssued p.patch_status status_request status_patch h fields object
          (in_status difference)
          w
          (patch_status_part p h (keys p difference) fields w object).0
  unfolding patch_status_part
  patch_status_part-IsIssued h difference fields w object =
      elim (Bool-cases (in_status difference)) [
        | inl there ↦
            rw (status_key difference, there)
              (sent_status h fields object w (calculate_patch p h fields object status_patch) refl)
        | inr absent ↦ rw (status_key difference, absent) (λ clean. refl)
      ]
