-- ===== src/Util/Kube.antt =====
-- util/util.go: the controller of an object, the scope of a kind, references as objects, and the
-- sortable slice of versions. The calls of apimachinery are parameters.
use addonconfig.Common.Result.{Result, ok, err}
use addonconfig.Common.{
  ℕ, zero, suc, String, Bool, true, false, Option, none, some, List, [], ◌∷◌, ◌==◌, set, length,
  if◌then◌else◌,
}
use addonconfig.Util.Owners.{OwnerReference, Owner, refers_to}
use addonconfig.Util.Infrastructure.{GroupKind}

-- `IsControlledBy`; `controller_of` is GetControllerOfNoCopy.
abbrev refers : (String → Option String) → Option OwnerReference → Owner → Bool
refers parse_group none owner = false
refers parse_group (some ref) owner = refers_to parse_group ref owner

unfoldable pub is_controlled_by :
    (parse_group : String → Option String)
    → (controller_of : List OwnerReference → Option OwnerReference) → List OwnerReference
    → Owner
    → Bool
unfolding refers_to
is_controlled_by parse_group controller_of refs owner =
    refers parse_group (controller_of refs) owner

module _ {Error : Type 0} (new_error : String → Error) (wrap : Error → String → Error) where
  abbrev namespaced : Result Error String → Result Error Bool
  namespaced (err e) = err (wrap e "failed to get restmapping")
  namespaced (ok scope) =
      if scope == ""
      then err (new_error "Scope cannot be identified. Empty scope returned")
      else if scope == "root"
      then ok false
      else ok true

  -- `isAPINamespaced`; `scope_of` is RESTMapping with the name of the scope that it finds.
  unfoldable pub is_api_namespaced :
      (scope_of : GroupKind → Result Error String) → GroupKind → Result Error Bool
  is_api_namespaced scope_of gk = namespaced (scope_of gk)

-- corev1.ObjectReference, with the fields that are read, and the object with these fields set.
pub record ObjectReference : Type 0 where
  pub kind : String
  pub api_version : String
  pub namespace : String
  pub name : String

-- What `SetKind`, `SetAPIVersion`, `SetNamespace` and `SetName` do to an unstructured object.
pub record Setters (Object : Type 0) : Type 0 where
  pub empty : Object
  pub set_kind : Object → String → Object
  pub set_api_version : Object → String → Object
  pub set_namespace : Object → String → Object
  pub set_name : Object → String → Object

-- `ObjectReferenceToUnstructured`
unfoldable pub object_reference_to_unstructured :
    {Object : Type 0} → Setters Object → ObjectReference → Object
object_reference_to_unstructured s ref =
    let out = s.set_kind s.empty ref.kind in
    let out = s.set_api_version out ref.api_version in
    let out = s.set_namespace out ref.namespace in s.set_name out ref.name

-- `Len`, `Swap` and `Less` of KubeAwareAPIVersions. An index out of range, for which Go panics, gives
-- `none`; `before` is the test that CompareKubeAwareVersionStrings gives a number below 0.
unfoldable pub version_at : List String → ℕ → Option String
version_at [] i = none
version_at (v ∷ k) zero = some v
version_at (v ∷ k) (suc i) = version_at k i

abbrev pub versions_len : List String → ℕ
versions_len k = length k

abbrev exchanged : List String → ℕ → ℕ → Option String → Option String → Option (List String)
exchanged k i j none w = none
exchanged k i j (some v) none = none
exchanged k i j (some v) (some w) = some (set (set k i w) j v)

unfoldable pub versions_swap : List String → ℕ → ℕ → Option (List String)
unfolding version_at
versions_swap k i j = exchanged k i j (version_at k i) (version_at k j)

abbrev compared : (String → String → Bool) → Option String → Option String → Option Bool
compared before none w = none
compared before (some v) none = none
compared before (some v) (some w) = some (before v w)

unfoldable pub versions_less : (String → String → Bool) → List String → ℕ → ℕ → Option Bool
unfolding version_at
versions_less before k i j = compared before (version_at k i) (version_at k j)
