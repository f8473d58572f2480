-- ===== src/Controller/Schema.antt =====
-- controllers/addonconfig_controller_phases.go: the schema of the definition, the defaults and the
-- validation of the values.
use addonconfig.Common.Result.{Result, ok, err}
use addonconfig.Common.{String, none, some, List, [], ◌∷◌}
use addonconfig.Api.Condition.{
  valid_schema_condition, valid_config_condition, defaulting_complete_condition,
}
use addonconfig.Api.Config.{AddonConfigDefinition, FieldFault, FieldErrors, set_error}
use addonconfig.Conditions.Sprintf.{quote}
use addonconfig.Controller.External.{External, found, not_found, failed}
use addonconfig.Controller.Context.{
  Context, Outcome, Phase, with_config, mark_config_true, mark_config_false, done, again_in_30_s,
  return_error, fail,
}

module _ (x : External) where
  open x use {
    Error, Raw, Json, Schema, Structural, Validator, wrap, to_aggregate, get_definition, convert,
    new_structural, default_values, new_validator, validate, marshal, unmarshal_raw, unmarshal,
    encode,
  }

  -- The conversion, for a definition with a schema.
  unfoldable pub convert_schema : Context x → Schema → Outcome x
  convert_schema atx schema = elim (convert schema) [
    | err e ↦
        return_error x
          (mark_config_false x atx valid_schema_condition "InvalidSchema" "Schema is invalid" [])
          (wrap (some e) "failed converting CRD validation to internal version")
    | ok internal ↦ done x (
        mark_config_true x (record atx { custom_resource_validation = internal })
          valid_schema_condition)
  ]

  -- What follows the request, with the definition that it has left in the context.
  unfoldable pub use_definition : Context x → AddonConfigDefinition Schema → Outcome x
  unfolding convert_schema
  use_definition atx definition =
      let observed = record atx {
        addon_config = record (atx.addon_config) { observed_schema_uid = some definition.uid };
        addon_config_definition = definition;
      } in
      elim definition.schema [
        | none ↦
            fail x
              (mark_config_false x observed valid_schema_condition "InvalidSchema"
                "Schema is undefined" [])
              "No schema to validate against"
        | some schema ↦ convert_schema observed schema
      ]

  -- A request that fails for another reason than a missing object is not noticed: it goes on with the
  -- definition that the context had.
  unfoldable pub reconcile_schema : Phase x
  unfolding use_definition
  reconcile_schema atx = elim (get_definition atx.addon_config.definition_ref) [
    | not_found e ↦ again_in_30_s x (
        mark_config_false x
          (with_config x atx (record (atx.addon_config) { observed_schema_uid = none }))
          valid_schema_condition "SchemaNotFound" "Unable to find AddonConfigDefinition by name %q"
          (quote atx.addon_config.definition_ref ∷ []))
    | failed e ↦ use_definition atx atx.addon_config_definition
    | found definition ↦ use_definition atx definition
  ]

  unfoldable pub defaulting_internal_error : Context x → Context x
  defaulting_internal_error atx =
      mark_config_false x atx defaulting_complete_condition "DefaultingInternalError"
        "Unable to render defaults due to an internal error" []

  abbrev defaulting_fails : Context x → Error → String → Outcome x
  defaulting_fails atx e message =
      return_error x (defaulting_internal_error atx) (wrap (some e) message)

  -- The steps of the defaulting, each given what the one before it came to.
  unfoldable pub store_defaults : Context x → Result Error Raw → Outcome x
  store_defaults atx (err e) = defaulting_fails atx e "unable to unmarshal the defaulted JSON"
  store_defaults atx (ok values) = done x (
      mark_config_true x (with_config x atx (record (atx.addon_config) { values = values }))
        defaulting_complete_condition)

  unfoldable pub encode_defaults : Context x → Result Error String → Outcome x
  unfolding store_defaults
  encode_defaults atx (err e) = defaulting_fails atx e "unable to encode defaulted JSON"
  encode_defaults atx (ok text) = store_defaults atx (unmarshal_raw text)

  unfoldable pub apply_defaults : Context x → Structural → Result Error Json → Outcome x
  unfolding encode_defaults
  apply_defaults atx ss (err e) = defaulting_fails atx e "unable to unmarshal JSON"
  apply_defaults atx ss (ok values) = encode_defaults atx (encode (default_values values ss))

  unfoldable pub read_values : Context x → Structural → Result Error String → Outcome x
  unfolding apply_defaults
  read_values atx ss (err e) = defaulting_fails atx e "unable to marshal values to JSON"
  read_values atx ss (ok raw) = apply_defaults atx ss (unmarshal raw)

  unfoldable pub reconcile_schema_defaulting : Phase x
  unfolding read_values defaulting_internal_error
  reconcile_schema_defaulting atx = elim (new_structural atx.custom_resource_validation) [
    | ok ss ↦ read_values atx ss (marshal atx.addon_config.values)
    | err e ↦ defaulting_fails atx e "unable to convert internal schema to structural"
  ]

  -- The loop of `SetError` over the errors.
  unfoldable pub set_errors : FieldErrors → List FieldFault → FieldErrors
  unfolding set_error
  set_errors f [] = f
  set_errors f (e ∷ es) = set_errors (set_error f e) es

  -- What follows the validation, by the errors that it found.
  unfoldable pub report_faults : Context x → List FieldFault → Outcome x
  unfolding set_errors
  report_faults atx [] =
      done x (with_config x atx (record (atx.addon_config) { field_errors = [] }))
  report_faults atx (e ∷ es) =
      return_error x
        (mark_config_false x
          (with_config x atx (record (atx.addon_config) { field_errors = set_errors [] (e ∷ es) }))
          valid_config_condition "InvalidConfiguration"
          "Invalid configuration; see .status.fieldErrors for more information" [])
        (to_aggregate (e ∷ es))

  unfoldable pub reconcile_schema_validation : Phase x
  unfolding report_faults
  reconcile_schema_validation atx = elim (new_validator atx.custom_resource_validation) [
    | err e ↦
        return_error x atx (wrap (some e) "unable to convert internal validation to a validator")
    | ok validator ↦ report_faults atx (validate atx.addon_config.values validator)
  ]
