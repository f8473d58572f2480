-- ===== src/Util/Unmarshal.antt =====
-- util/util.go: the decoding of a field of an unstructured object.
use addonconfig.Common.Result.{Result, ok, err}
use addonconfig.Common.{String, Bool, Option, none, some, List, [], ◌∷◌, if◌then◌else◌}
use addonconfig.Conditions.Sprintf.{sprintf, quote}

-- What `UnstructuredUnmarshalField` calls, for a value of the type `Value` to decode into. An
-- unstructured object is a `Fields`; where it or its map is nil, it is `none`.
pub record Decoding (Error Fields Json Bytes Value : Type 0) : Type 0 where
  -- errors.Errorf, errors.Wrapf, ErrUnstructuredFieldNotFound
  pub new_error : String → Error
  pub wrap : Error → String → Error
  pub field_not_found : Error
  -- NestedFieldNoCopy, which finds nothing or a value that may be nil; the text of the kind;
  -- strings.Join with points; json.Marshal; json.Unmarshal
  pub nested_field : Fields → List String → Result Error (Option Json)
  pub is_nil : Json → Bool
  pub gvk_text : Fields → String
  pub join : List String → String
  pub marshal : Json → Result Error Bytes
  pub unmarshal : Bytes → Value → Result Error Value

module _ {Error Fields Json Bytes Value : Type 0} (d : Decoding Error Fields Json Bytes Value) where
  open d use {
    new_error, wrap, field_not_found, nested_field, is_nil, gvk_text, join, marshal, unmarshal,
  }

  abbrev for_field : Fields → List String → String → String
  for_field obj fields format = sprintf format (quote (join fields) ∷ quote (gvk_text obj) ∷ [])

  abbrev pub decoded : Fields → List String → Result Error Value → Result Error Value
  decoded obj fields (err e) =
      err (wrap e (for_field obj fields "failed to json-decode field %q value from %q"))
  decoded obj fields (ok v) = ok v

  abbrev pub encoded : Fields → Value → List String → Result Error Bytes → Result Error Value
  encoded obj v fields (err e) =
      err (wrap e (for_field obj fields "failed to json-encode field %q value from %q"))
  encoded obj v fields (ok bytes) = decoded obj fields (unmarshal bytes v)

  abbrev pub retrieved :
      Fields → Value → List String → Result Error (Option Json) → Result Error Value
  retrieved obj v fields (err e) =
      err (wrap e (for_field obj fields "failed to retrieve field %q from %q"))
  retrieved obj v fields (ok none) = err field_not_found
  retrieved obj v fields (ok (some value)) =
      if is_nil value then err field_not_found else encoded obj v fields (marshal value)

  -- `UnstructuredUnmarshalField`, with the value that it leaves where it returns no error.
  unfoldable pub unstructured_unmarshal_field :
      Option Fields → Value → List String → Result Error Value
  unstructured_unmarshal_field none v fields =
      err (new_error "failed to unmarshal unstructured object: object is nil")
  unstructured_unmarshal_field (some obj) v fields =
      retrieved obj v fields (nested_field obj fields)
