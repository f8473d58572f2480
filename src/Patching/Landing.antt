-- ===== src/Patching/Landing.antt =====
-- util/patch/patch.go: what a patch without an error has done.
use addonconfig.Common.Result.{ok}
use addonconfig.Common.{
  ◌≡◌, sym, ap, ◌∙◌, subst, true, false, String, none, some, List, inl, inr, some_not_none,
}
use addonconfig.Api.Condition.{Conditions}
use addonconfig.Conditions.Order.{IsDistinct}
use addonconfig.Conditions.Patch.{diff, is_zero}
use addonconfig.Patching.Platform.{Platform}
use addonconfig.Patching.Options.{
  HelperOptions, HelperOption, no_helper_options, apply_helper_options,
}
use addonconfig.Patching.Copies.{Fields, spec_patch, status_patch}
use addonconfig.Patching.Retry.{
  Helper, World, Attempt, patch_request, status_request, patch_status_conditions,
}
use addonconfig.Patching.Helper.{
  calculate_changes, patch_spec, patch_status_part, issue_patches, patch,
}
use addonconfig.Patching.Laws.{Retries, Locking, Aggregates, Observing}
use addonconfig.Patching.Merging.{IsMerged, patch_status_conditions-IsMerged}
use addonconfig.Patching.Issued.{
  IsDifference, IsIssued, in_metadata_or_spec, in_status, calculate_changes-IsDifference,
  patch_spec-IsIssued, patch_status_part-IsIssued,
}
use addonconfig.Patching.Whole.{IsPrepared, patch_lem}

module _ {Error Object : Type 0} (p : Platform Error Object) where
  module _ (retries : Retries p (Attempt p)) (stored : p.State → Conditions)
      (locking : Locking p stored) where
    -- A run of `Patch` for `obj`, from `w` to `end`. The object was prepared, and its difference from the
    -- helper's computed. Then the conditions were merged, from `w` to `merged_world`; then the rest was
    -- patched where the difference has the metadata or the spec, to `specced`; and then the status where
    -- the difference has it.
    pub record IsLanded (h : Helper p) (w : World p) (options : HelperOptions) (obj : Object)
        (end : World p) : Type 0 where
      pub object : Object
      pub fields : Fields p.Json
      pub prepared : IsPrepared p options obj fields object
      pub difference : Fields p.Json
      pub compared : IsDifference p h object difference
      pub merged_world : World p
      pub first :
          patch_status_conditions p h w object options.force_overwrite_conditions
            options.owned_conditions
          ≡ (merged_world, none)
      pub merged :
          IsMerged p retries stored options.force_overwrite_conditions options.owned_conditions
            (p.key_of object)
            (p.get_conditions h.before_object)
            (p.get_conditions obj)
            merged_world.server
      pub specced : World p
      pub second :
          IsIssued p p.patch patch_request spec_patch h fields object
            (in_metadata_or_spec p difference)
            merged_world
            specced
      pub third :
          IsIssued p p.patch_status status_request status_patch h fields object
            (in_status p difference)
            specced
            end

    kept :
        (options : HelperOptions) (obj object : Object) (after : Fields p.Json)
        → Observing p
        → IsPrepared p options obj after object
        → p.get_conditions object ≡ p.get_conditions obj
    kept options obj object after observing (inl (same, read, other)) = ap p.get_conditions same
    kept options obj object after observing (inr (fields, read, asked, written, made)) =
        observing.conditions_kept obj object fields after read written made

    issue_patches-IsLanded :
        (h : Helper p) (options : HelperOptions) (w : World p) (after : Fields p.Json)
        (changes : List String) (obj object : Object)
        → Aggregates p
        → Observing p
        → h.is_conditions_setter ≡ true
        → IsDistinct (p.get_conditions h.before_object)
        → IsDistinct (p.get_conditions obj)
        → is_zero (diff (p.get_conditions h.before_object) (p.get_conditions obj)) ≡ false
        → IsPrepared p options obj after object
        → calculate_changes p h object ≡ ok changes
        → (issue_patches p h options after changes w object).2 ≡ none
        → IsLanded h w options obj (issue_patches p h options after changes w object).0
    unfolding issue_patches
    issue_patches-IsLanded h options w after changes obj object aggregates observing setter dold
          dnew some_change prepared computed clean =
        let old = p.get_conditions h.before_object in
        let same = kept options obj object after observing prepared in
        let (difference, compared, listed) =
          calculate_changes-IsDifference p h object changes computed in
        let patched =
          patch_status_conditions p h w object options.force_overwrite_conditions
            options.owned_conditions in
        let (none_first, (none_second, (none_third, _))) = aggregates.all_nil _ clean in
        record {
          object = object;
          fields = after;
          prepared = prepared;
          difference = difference;
          compared = compared;
          merged_world = patched.0;
          first = ap (λ e. (patched.0, e)) none_first;
          merged =
              subst
                (λ cs.
                  IsMerged p retries stored options.force_overwrite_conditions
                    options.owned_conditions (p.key_of object) old cs patched.0.server)
                same
                (patch_status_conditions-IsMerged p retries stored h w object
                  options.force_overwrite_conditions options.owned_conditions locking setter dold
                  (subst IsDistinct (sym same) dnew)
                  (ap (λ cs. is_zero (diff old cs)) same ∙ some_change) none_first);
          specced = (patch_spec p h changes after patched.0 object).0;
          second =
              subst
                (λ ks.
                  (patch_spec p h ks after patched.0 object).1 ≡ none
                  → IsIssued p p.patch patch_request spec_patch h after object
                      (in_metadata_or_spec p difference) patched.0
                      (patch_spec p h ks after patched.0 object).0)
                listed (patch_spec-IsIssued p h difference after patched.0 object) none_second;
          third =
              let w2 = (patch_spec p h changes after patched.0 object).0 in
              subst
                (λ ks.
                  (patch_status_part p h ks after w2 object).1 ≡ none
                  → IsIssued p p.patch_status status_request status_patch h after object
                      (in_status p difference) w2 (patch_status_part p h ks after w2 object).0)
                listed (patch_status_part-IsIssued p h difference after w2 object) none_third;
        }

    -- Where `Patch` returns no error, it has prepared the object, with its observed generation where that
    -- is asked for, and computed its difference from the helper's; then the server has accepted a patch
    -- that leaves the three-way merge of the conditions that it had with the change from those of the
    -- helper's object to those of the object; then one of the rest, just where the difference has the
    -- metadata or the spec; and then one of the status, just where the difference has it; if the helper
    -- is for an object with conditions, the two objects have different ones and none of a type twice, to
    -- write the observed generation keeps the conditions, an aggregate of errors is nil only for none,
    -- the retries are as documented, and the server refuses a patch with the lock for an object that is
    -- not as it was read.
    pub patch-IsLanded :
        (h : Helper p) (w : World p) (obj : Object) (opts : List HelperOption)
        → Aggregates p
        → Observing p
        → h.is_conditions_setter ≡ true
        → IsDistinct (p.get_conditions h.before_object)
        → IsDistinct (p.get_conditions obj)
        → is_zero (diff (p.get_conditions h.before_object) (p.get_conditions obj)) ≡ false
        → (patch p h w (some obj) opts).2 ≡ none
        → IsLanded h w
            (apply_helper_options opts no_helper_options)
            obj
            (patch p h w (some obj) opts).0
    patch-IsLanded h w obj opts aggregates observing setter dold dnew some_change =
        let options = apply_helper_options opts no_helper_options in
        patch_lem p h w (λ r. r.2 ≡ none → IsLanded h w options obj r.0)
          (λ o e clean. absurd (some_not_none clean)) obj opts
          (λ after changes object.
            issue_patches-IsLanded h options w after changes obj object aggregates observing setter
              dold dnew some_change)
