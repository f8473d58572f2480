-- ===== src/Controller/Target.antt =====
-- controllers/addonconfig_controller_phases.go: the target cluster, and the values for the template.
use addonconfig.Common.Result.{Result, ok, err}
use addonconfig.Common.{String, Option, none, some, [], ◌∷◌, ◌==◌, if◌then◌else◌}
use addonconfig.Api.Condition.{valid_target_condition}
use addonconfig.Util.Infrastructure.{get_infrastructure_provider}
use addonconfig.Controller.External.{External, Variables, found, not_found, failed}
use addonconfig.Controller.Context.{
  Context, Outcome, Phase, mark_config_true, mark_config_false, done, again_in_30_s, return_error,
  fail,
}

module _ (x : External) where
  open x use {
    Error, Json, wrap, get_object, nested_string, nested_map, group_kind_of, marshal, unmarshal_map,
  }

  abbrev set_variables : Context x → Variables Json → Context x
  set_variables atx v = record atx { template_variables = v }

  abbrev no_api_version : String
  no_api_version =
      "unable to find the value of the nested field spec.infrastructureRef.apiVersion in the target cluster"

  abbrev no_kind : String
  no_kind =
      "unable to find the value of the nested field spec.infrastructureRef.kind in the target cluster"

  abbrev no_metadata : String
  no_metadata = "unable to find the value of the nested field metadata in the target cluster"

  -- The last steps, given what the reading of the metadata came to.
  unfoldable pub use_metadata :
      Context x → (api_version kind : String) → Result Error (Option Json) → Outcome x
  use_metadata atx api_version kind (err e) = fail x atx no_metadata
  use_metadata atx api_version kind (ok none) = fail x atx no_metadata
  use_metadata atx api_version kind (ok (some meta)) = done x (
      mark_config_true x
        (set_variables atx (record (atx.template_variables) {
          cluster_meta = some meta;
          infrastructure = get_infrastructure_provider group_kind_of api_version kind;
        }))
        valid_target_condition)

  unfoldable pub use_kind : Context x → Json → String → Result Error String → Outcome x
  unfolding use_metadata
  use_kind atx cluster api_version (err e) = fail x atx no_kind
  use_kind atx cluster api_version (ok kind) =
      use_metadata atx api_version kind (nested_map cluster ("metadata" ∷ []))

  -- What follows the request for the cluster.
  unfoldable pub use_cluster : Context x → Json → Outcome x
  unfolding use_kind
  use_cluster atx cluster =
      elim (nested_string cluster ("spec" ∷ "infrastructureRef" ∷ "apiVersion" ∷ [])) [
        | err e ↦ fail x atx no_api_version
        | ok api_version ↦
            use_kind atx cluster api_version
              (nested_string cluster ("spec" ∷ "infrastructureRef" ∷ "kind" ∷ []))
      ]

  unfoldable pub fetch_target : Context x → String → Outcome x
  unfolding use_cluster
  fetch_target atx name =
      elim (get_object "Cluster" atx.addon_config.namespace name "cluster.x-k8s.io/v1beta1") [
        | failed e ↦
            return_error x atx (wrap (some e) "failed to retrieve the target cluster object")
        | not_found e ↦ again_in_30_s x (
            mark_config_false x atx valid_target_condition "TargetNotFound"
              "No target has been found" [])
        | found cluster ↦ use_cluster atx cluster
      ]

  unfoldable pub reconcile_target : Phase x
  unfolding fetch_target
  reconcile_target atx =
      if atx.addon_config.target_name == ""
      then again_in_30_s x (
          mark_config_false x atx valid_target_condition "TargetUndefined"
            "No target name has been defined" [])
      else fetch_target atx atx.addon_config.target_name

  -- The second step of the values, given what the first came to.
  unfoldable pub store_values : Context x → Result Error Json → Outcome x
  store_values atx (err e) =
      return_error x atx (wrap (some e) "Unable to unmarshal addonconfig value json to map")
  store_values atx (ok value_map) =
      done x (set_variables atx (record (atx.template_variables) { values = some value_map }))

  unfoldable pub reconcile_template_values : Phase x
  unfolding store_values
  reconcile_template_values atx = elim (marshal atx.addon_config.values) [
    | err e ↦ return_error x atx (wrap (some e) "Unable to marshal addonconfig values to json")
    | ok json_val ↦ store_values atx (unmarshal_map json_val)
  ]
