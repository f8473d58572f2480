-- ===== src/Conditions/Unstructured.antt =====
-- util/conditions/unstructured.go: the conditions of an unstructured object.
use addonconfig.Common.Result.{Result, ok, err}
use addonconfig.Common.{String, some, List, [], ◌∷◌}
use addonconfig.Api.Condition.{Condition, Conditions}
use addonconfig.Util.Unmarshal.{Decoding, unstructured_unmarshal_field}

-- `to_unstructured` is the converter, `of_list` a list as a value, and `set_nested_field` is
-- SetNestedField, which returns the object with the field set.
module _ {Error Fields Json Bytes : Type 0} (d : Decoding Error Fields Json Bytes Conditions)
    (to_unstructured : Condition → Result Error Json) (of_list : List Json → Json)
    (set_nested_field : Fields → Json → List String → Result Error Fields) where
  abbrev conditions_or_nil : Result Error Conditions → Conditions
  conditions_or_nil (err e) = []
  conditions_or_nil (ok conditions) = conditions

  -- `GetConditions`; nil is the empty list.
  unfoldable pub get_conditions : Fields → Conditions
  unfolding unstructured_unmarshal_field
  get_conditions c =
      conditions_or_nil (unstructured_unmarshal_field d (some c) [] ("status" ∷ "conditions" ∷ []))

  abbrev and_converted : Result Error Json → List Json → List Json
  and_converted (err e) v = v
  and_converted (ok m) v = m ∷ v

  -- The loop: a condition that cannot be converted is left out.
  unfoldable pub converted : Conditions → List Json
  converted [] = []
  converted (c ∷ conditions) = and_converted (to_unstructured c) (converted conditions)

  abbrev set_or_logged : Fields → Result Error Fields → Fields
  set_or_logged c (err e) = c
  set_or_logged c (ok c') = c'

  -- `SetConditions`, with the object as it leaves it.
  unfoldable pub set_conditions : Fields → Conditions → Fields
  unfolding converted
  set_conditions c conditions =
      set_or_logged c
        (set_nested_field c (of_list (converted conditions)) ("status" ∷ "conditions" ∷ []))
