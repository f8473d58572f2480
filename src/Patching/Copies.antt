-- ===== src/Patching/Copies.antt =====
-- util/patch/utils.go: the copies of an object that a patch is made from. An unstructured object is
-- the list of its entries, in the order in which a loop goes through them.
use mathlib.Core.Option
use Prim.Native.Char.{code}
use addonconfig.Common.{
  String, Bool, ◌&&◌, ◌||◌, Option, none, some, List, [], ◌∷◌, ◌++◌, ◌==◌, eqb, is_some,
  if◌then◌else◌,
}

-- patchType
abbrev pub PatchType : Type 0
PatchType = String

abbrev pub spec_patch : PatchType
spec_patch = "spec"

abbrev pub status_patch : PatchType
status_patch = "status"

-- `Key`: the text before the first point.
unfoldable pub key : PatchType → String
key String.[] = String.[]
key (String.◌∷◌ c s) =
    let rest = String.◌∷◌ c (key s) in if eqb (code c) b'.' then String.[] else rest

unfoldable pub preserved : String → Bool
preserved name = name == "kind" || name == "apiVersion" || name == "metadata"

module _ (Json : Type 0) where
  abbrev pub Fields : Type 0
  Fields = List (String × Json)

  unfoldable pub find : Fields → String → Option Json
  find [] name = none
  find ((k, v) ∷ fields) name = if k == name then some v else find fields name

  unfoldable pub unstructured_has_status : Fields → Bool
  unfolding find
  unstructured_has_status fields = is_some (find fields "status")

  -- What the copy shares with the incoming object has changed there too.
  unfoldable pub left_behind : Fields → Fields → Fields
  unfolding find
  left_behind res [] = []
  left_behind res ((k, v) ∷ fields) = (k, Option.get_or (find res k) v) ∷ left_behind res fields

  module _ (without_field : Json → String → Json) where
    -- `RemoveNestedField` of "status" and "conditions".
    unfoldable pub remove_conditions : Fields → Fields
    remove_conditions [] = []
    remove_conditions ((k, v) ∷ fields) =
        (k, if k == "status" then without_field v "conditions" else v) ∷ remove_conditions fields

    unfoldable pub trimmed : PatchType → Bool → Fields → Fields
    unfolding remove_conditions
    trimmed focus is_conditions_setter res =
        if is_conditions_setter && focus == status_patch then remove_conditions res else res

    -- The loop over the entries; `res` is the copy so far.
    unfoldable pub copy_entries : PatchType → Bool → Fields → Fields → Fields
    unfolding trimmed key preserved
    copy_entries focus is_conditions_setter res [] = res
    copy_entries focus is_conditions_setter res ((k, v) ∷ rest) =
        copy_entries focus is_conditions_setter
          (trimmed focus is_conditions_setter
            (if k == key focus || preserved k then res ++ (k, v) ∷ [] else res))
          rest

    -- `unsafeUnstructuredCopy`: the copy, and the incoming object as it is afterwards.
    unfoldable pub unsafe_unstructured_copy : Fields → PatchType → Bool → Fields × Fields
    unfolding copy_entries left_behind
    unsafe_unstructured_copy fields focus is_conditions_setter =
        let res = copy_entries focus is_conditions_setter [] fields in (res, left_behind res fields)
