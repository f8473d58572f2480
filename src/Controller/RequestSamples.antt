-- ===== src/Controller/RequestSamples.antt =====
-- A request for an AddonConfig while other clients change it, and the theorems applied to it.
use addonconfig.Common.{◌≤◌, List, ◌∷◌, any, length, ◌≡◌, refl, Bool, false, none, [], String, ◌==◌}
use addonconfig.Conditions.Order.{IsCanonical}
use addonconfig.Controller.Context.{mark_config_true, new_addon_config_context}
use addonconfig.Controller.Schema.{
  reconcile_schema, reconcile_schema_defaulting, reconcile_schema_validation,
}
use addonconfig.Controller.Templating.{reconcile_template}
use addonconfig.Controller.Target.{reconcile_target, reconcile_template_values}
use addonconfig.Controller.Dependencies.{reconcile_dependencies}
use addonconfig.Controller.Reconcile.{summarise, reconcile, reconcile_validation}
use addonconfig.Conditions.Patch.{diff, is_zero}
use addonconfig.Patching.Platform.{ObjectKey}
use addonconfig.Patching.Retry.{get_request, requested, World, Attempt}
use addonconfig.Patching.Cluster.{
  cluster, stored, rounds, first_error, patch_locked_in, merge_patch, cluster-Retries,
  cluster-Locking, cluster-Aggregates, cluster-Observing,
}
use addonconfig.Controller.Request.{reconcile_request}
use addonconfig.Controller.Recorded.{HasLanded, Serving, result_of, reconcile_request-HasLanded}
use addonconfig.Api.Config.{AddonConfig}
use addonconfig.Common.Result.{ok}
use addonconfig.Controller.Watch.{
  definition_named, addon_config_definition_to_addon_config, key_eq, is_listed,
  addon_config_definition_to_addon_config_lem,
}
use addonconfig.Controller.Limits.{length-reconcile_request}
use addonconfig.Controller.Output.{save_rendered_template}
use addonconfig.Controller.Simulated.{sample, config_with}

-- A request for the AddonConfig of the cluster, while two changes of other clients come between.
abbrev request_world : World cluster
request_world = record { server = record { object = config_with "values"; rivals = 2 }; log = [] }

abbrev request_key : ObjectKey
request_key = record { namespace = "default"; name = "antrea" }

abbrev gone : String → Bool
gone e = e == "not found"

serving : Serving sample cluster gone (λ e. config_with "")
serving = record { is_setter = λ ac. refl; conditions = λ ac. refl }

no_conditions : IsCanonical []
no_conditions = record { sorted = tt; distinct = tt }

request_changes :
    is_zero (
      diff []
        (result_of sample cluster gone (λ e. config_with "") (config_with "values")).conditions)
    ≡ false
unfolding is_zero diff summarise reconcile reconcile_template reconcile_dependencies
    reconcile_template_values reconcile_target reconcile_validation reconcile_schema_validation
    reconcile_schema_defaulting mark_config_true reconcile_schema new_addon_config_context
    save_rendered_template
request_changes = refl

request_clean :
    (reconcile_request sample cluster gone (λ e. config_with "") request_world request_key).2 ≡ none
unfolding reconcile_request first_error reconcile_template reconcile_dependencies
    reconcile_template_values reconcile_target reconcile_validation reconcile_schema_validation
    reconcile_schema_defaulting mark_config_true reconcile_schema new_addon_config_context
    save_rendered_template rounds patch_locked_in merge_patch
request_clean = refl

reconcile_request-HasLanded_example :
    ((reconcile sample (config_with "values")).2 ≡ none)
    × HasLanded sample cluster gone
        (λ e. config_with "")
        (cluster-Retries (Attempt cluster))
        stored
        cluster-Locking
        cluster-Aggregates
        cluster-Observing
        serving
        (requested cluster request_world get_request request_world.server)
        (config_with "values")
        (reconcile_request sample cluster gone (λ e. config_with "") request_world request_key).0
reconcile_request-HasLanded_example =
    reconcile_request-HasLanded sample cluster gone (λ e. config_with "")
      (cluster-Retries (Attempt cluster)) stored cluster-Locking cluster-Aggregates
      cluster-Observing serving request_world request_key (config_with "values") refl no_conditions
      request_changes request_clean

length-reconcile_request_example :
    length
      (reconcile_request sample cluster gone (λ e. config_with "") request_world request_key).0.log
    ≤ 13
length-reconcile_request_example =
    length-reconcile_request sample cluster gone (λ e. config_with "")
      (cluster-Retries (Attempt cluster)) request_world request_key

abbrev in_list : List (AddonConfig String)
in_list = config_with "values" ∷ []

watched :
    addon_config_definition_to_addon_config
      (λ e message. message)
      (ok in_list)
      (definition_named "antrea")
    ≡ ok (request_key ∷ [])
unfolding addon_config_definition_to_addon_config
watched = refl

addon_config_definition_to_addon_config_example :
    any (λ k. key_eq k request_key) (request_key ∷ [])
    ≡ is_listed (λ e message. message) "antrea" request_key in_list
addon_config_definition_to_addon_config_example =
    addon_config_definition_to_addon_config_lem (λ e message. message) in_list "antrea" request_key
      (request_key ∷ []) watched
