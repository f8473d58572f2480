-- ===== src/Util/Owners.antt =====
-- util/util.go: lists of owner references. Two references are compared by group, kind and name;
-- `parse_group` is the group that `ParseGroupVersion` of apimachinery finds, `none` for its error.
use addonconfig.Common.{
  ℕ, suc, String, Bool, true, false, ◌&&◌, Option, none, some, List, [], ◌∷◌, ◌++◌, ◌==◌, any, set,
  take, drop, if◌then◌else◌,
}

-- metav1.OwnerReference, with the fields that are read.
pub record OwnerReference : Type 0 where
  pub api_version : String
  pub kind : String
  pub name : String
  pub uid : String

-- What `IsOwnedByObject` asks of an object.
pub record Owner : Type 0 where
  pub group : String
  pub kind : String
  pub name : String

module _ (parse_group : String → Option String) where
  abbrev same_group : Option String → Option String → Bool
  same_group none b = false
  same_group (some a) none = false
  same_group (some a) (some b) = a == b

  unfoldable pub refer_same_object : OwnerReference → OwnerReference → Bool
  refer_same_object a b =
      same_group (parse_group a.api_version) (parse_group b.api_version)
      && a.kind == b.kind
      && a.name == b.name

  unfoldable pub refers_to : OwnerReference → Owner → Bool
  refers_to ref obj =
      same_group (parse_group ref.api_version) (some obj.group)
      && ref.kind == obj.kind
      && ref.name == obj.name

  -- `indexOwnerRef`; -1 is `none`.
  unfoldable pub index_owner_ref : List OwnerReference → OwnerReference → Option ℕ
  unfolding refer_same_object
  index_owner_ref [] ref = none
  index_owner_ref (r ∷ refs) ref =
      let later : Option ℕ = elim (index_owner_ref refs ref) [
        | none ↦ none
        | some i ↦ some (suc i)
      ] in
      if refer_same_object r ref then some 0 else later

  unfoldable pub has_owner_ref : List OwnerReference → OwnerReference → Bool
  unfolding index_owner_ref
  has_owner_ref refs ref = elim (index_owner_ref refs ref) [ none ↦ false | some i ↦ true ]

  unfoldable pub ensure_owner_ref : List OwnerReference → OwnerReference → List OwnerReference
  unfolding index_owner_ref
  ensure_owner_ref refs ref = elim (index_owner_ref refs ref) [
    | none ↦ refs ++ ref ∷ []
    | some i ↦ set refs i ref
  ]

  unfoldable pub remove_owner_ref : List OwnerReference → OwnerReference → List OwnerReference
  unfolding index_owner_ref
  remove_owner_ref refs ref = elim (index_owner_ref refs ref) [
    | none ↦ refs
    | some i ↦ take i refs ++ drop (suc i) refs
  ]

  unfoldable pub is_owned_by_object : List OwnerReference → Owner → Bool
  unfolding refers_to
  is_owned_by_object refs target = any (λ ref. refers_to ref target) refs

  -- The loop of `HasOwner`, for the group of its `apiVersion`; a reference whose version cannot be
  -- parsed ends it.
  unfoldable pub has_owner_in : String → List String → List OwnerReference → Bool
  has_owner_in group kinds [] = false
  has_owner_in group kinds (mr ∷ refs) =
      let later = has_owner_in group kinds refs in
      elim (parse_group mr.api_version) [
        | none ↦ false
        | some g ↦ if g == group && any (λ k. k == mr.kind) kinds then true else later
      ]

  unfoldable pub has_owner : List OwnerReference → String → List String → Bool
  unfolding has_owner_in
  has_owner refs api_version kinds = elim (parse_group api_version) [
    | none ↦ false
    | some group ↦ has_owner_in group kinds refs
  ]

-- `ReplaceOwnerRef`: the first reference with the uid of the source becomes the target, which is
-- appended where there is none. The flag says whether the loop has found one.
unfoldable pub replace_first :
    List OwnerReference → String → OwnerReference → Bool × List OwnerReference
replace_first [] uid target = (false, [])
replace_first (r ∷ refs) uid target =
    let (found, later) = replace_first refs uid target in
    if r.uid == uid then (true, target ∷ refs) else (found, r ∷ later)

unfoldable pub replace_owner_ref :
    List OwnerReference → String → OwnerReference → List OwnerReference
unfolding replace_first
replace_owner_ref refs source_uid target =
    let (found, refs') = replace_first refs source_uid target in
    if found then refs' else refs' ++ target ∷ []
