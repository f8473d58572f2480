-- ===== src/Util/OwnerLaws.antt =====
-- util/util.go: `EnsureOwnerRef`, `HasOwnerRef` and `RemoveOwnerRef` on the same list.
use addonconfig.Common.{
  ◌≡◌, refl, sym, ap, ◌∙◌, String, Bool, true, false, Option, some, List, [], ◌∷◌, ◌==◌, any,
  if◌then◌else◌, arith, ==_refl,
}
use addonconfig.Util.Owners.{
  OwnerReference, refer_same_object, index_owner_ref, has_owner_ref, ensure_owner_ref,
  remove_owner_ref, replace_first, replace_owner_ref,
}

module _ (parse_group : String → Option String) where
  -- The first reference to the same object becomes `ref`, which is appended where there is none.
  ensured : List OwnerReference → OwnerReference → List OwnerReference
  ensured [] ref = ref ∷ []
  ensured (r ∷ refs) ref =
      if refer_same_object parse_group r ref then ref ∷ refs else r ∷ ensured refs ref

  ensure_lem :
      (refs : List OwnerReference) (ref : OwnerReference)
      → ensure_owner_ref parse_group refs ref ≡ ensured refs ref
  unfolding ensure_owner_ref ensured index_owner_ref
  ensure_lem [] ref = refl
  ensure_lem (r ∷ refs) ref = ground (arith, ensure_lem refs ref)

  removed : List OwnerReference → OwnerReference → List OwnerReference
  removed [] ref = []
  removed (r ∷ refs) ref =
      if refer_same_object parse_group r ref then refs else r ∷ removed refs ref

  remove_lem :
      (refs : List OwnerReference) (ref : OwnerReference)
      → remove_owner_ref parse_group refs ref ≡ removed refs ref
  unfolding remove_owner_ref removed index_owner_ref
  remove_lem [] ref = refl
  remove_lem (r ∷ refs) ref = ground (arith, remove_lem refs ref)

  owned : List OwnerReference → OwnerReference → Bool
  owned [] ref = false
  owned (r ∷ refs) ref = if refer_same_object parse_group r ref then true else owned refs ref

  has_lem :
      (refs : List OwnerReference) (ref : OwnerReference)
      → has_owner_ref parse_group refs ref ≡ owned refs ref
  unfolding has_owner_ref owned index_owner_ref
  has_lem [] ref = refl
  has_lem (r ∷ refs) ref = ground (arith, has_lem refs ref)

  same_refl :
      (ref : OwnerReference) (g : String)
      → parse_group ref.api_version ≡ some g
      → refer_same_object parse_group ref ref ≡ true
  unfolding refer_same_object
  same_refl ref g h = rw h (ground (arith, ==_refl g, ==_refl ref.kind, ==_refl ref.name))

  module _ (ref : OwnerReference) (same : refer_same_object parse_group ref ref ≡ true) where
    owned-ensured : (l : List OwnerReference) → owned (ensured l ref) ref ≡ true
    unfolding owned ensured
    owned-ensured [] = rw same
    owned-ensured (r ∷ l) = ground (arith, same, owned-ensured l)

    ensured_idem : (l : List OwnerReference) → ensured (ensured l ref) ref ≡ ensured l ref
    unfolding ensured
    ensured_idem [] = rw same
    ensured_idem (r ∷ l) = ground (arith, same, ensured_idem l)

    removed-ensured :
        (l : List OwnerReference) → owned l ref ≡ false → removed (ensured l ref) ref ≡ l
    unfolding owned ensured removed
    removed-ensured [] h = rw same
    removed-ensured (r ∷ l) h = ground (arith, same, removed-ensured l)

  -- After `EnsureOwnerRef` of a reference whose version can be parsed, `HasOwnerRef` finds it.
  pub has-ensure :
      (refs : List OwnerReference) (ref : OwnerReference) (g : String)
      → parse_group ref.api_version ≡ some g
      → has_owner_ref parse_group (ensure_owner_ref parse_group refs ref) ref ≡ true
  has-ensure refs ref g h =
      has_lem (ensure_owner_ref parse_group refs ref) ref
      ∙ ap (λ l. owned l ref) (ensure_lem refs ref)
      ∙ owned-ensured ref (same_refl ref g h) refs

  -- `EnsureOwnerRef` of such a reference a second time changes nothing.
  pub ensure_idem :
      (refs : List OwnerReference) (ref : OwnerReference) (g : String)
      → parse_group ref.api_version ≡ some g
      → ensure_owner_ref parse_group (ensure_owner_ref parse_group refs ref) ref
        ≡ ensure_owner_ref parse_group refs ref
  ensure_idem refs ref g h =
      ensure_lem (ensure_owner_ref parse_group refs ref) ref
      ∙ ap (λ l. ensured l ref) (ensure_lem refs ref)
      ∙ ensured_idem ref (same_refl ref g h) refs
      ∙ sym (ensure_lem refs ref)

  -- `RemoveOwnerRef` takes back what `EnsureOwnerRef` added to a list without the reference, if its version
  -- can be parsed.
  pub remove-ensure :
      (refs : List OwnerReference) (ref : OwnerReference) (g : String)
      → parse_group ref.api_version ≡ some g
      → has_owner_ref parse_group refs ref ≡ false
      → remove_owner_ref parse_group (ensure_owner_ref parse_group refs ref) ref ≡ refs
  remove-ensure refs ref g h absent =
      remove_lem (ensure_owner_ref parse_group refs ref) ref
      ∙ ap (λ l. removed l ref) (ensure_lem refs ref)
      ∙ removed-ensured ref (same_refl ref g h) refs (sym (has_lem refs ref) ∙ absent)

-- The first reference with the uid becomes the target, which is appended where there is none.
replaced : List OwnerReference → String → OwnerReference → List OwnerReference
replaced [] uid target = target ∷ []
replaced (r ∷ refs) uid target =
    if r.uid == uid then target ∷ refs else r ∷ replaced refs uid target

replace_lem :
    (refs : List OwnerReference) (uid : String) (target : OwnerReference)
    → replace_owner_ref refs uid target ≡ replaced refs uid target
unfolding replace_owner_ref replace_first replaced
replace_lem [] uid target = refl
replace_lem (r ∷ refs) uid target = ground (arith, replace_lem refs uid target)

-- Whether a reference of the list has the uid.
abbrev pub has_uid : List OwnerReference → String → Bool
has_uid refs uid = any (λ r. r.uid == uid) refs

replaced_twice :
    (refs : List OwnerReference) (uid : String) (target next : OwnerReference)
    → has_uid refs target.uid ≡ false
    → replaced (replaced refs uid target) target.uid next ≡ replaced refs uid next
unfolding replaced
replaced_twice [] uid target next h = rw (==_refl target.uid) refl
replaced_twice (r ∷ refs) uid target next h =
    ground (arith, ==_refl target.uid, replaced_twice refs uid target next)

-- Replacing a reference by a target whose uid no reference has, and the target by another reference,
-- is replacing the first by the last.
pub replace_twice :
    (refs : List OwnerReference) (uid : String) (target next : OwnerReference)
    → has_uid refs target.uid ≡ false
    → replace_owner_ref (replace_owner_ref refs uid target) target.uid next
      ≡ replace_owner_ref refs uid next
replace_twice refs uid target next h =
    replace_lem (replace_owner_ref refs uid target) target.uid next
    ∙ ap (λ l. replaced l target.uid next) (replace_lem refs uid target)
    ∙ replaced_twice refs uid target next h
    ∙ sym (replace_lem refs uid next)
