-- ===== src/Controller/Output.antt =====
-- controllers/addonconfig_controller_phases.go: where the rendered template is stored.
use addonconfig.Common.Result.{Result, ok, err}
use addonconfig.Common.{String, Option, none, some, [], ◌∷◌, ◌++◌, ◌==◌, is_some, if◌then◌else◌}
use addonconfig.Api.Condition.{output_resource_updated_condition}
use addonconfig.Api.Config.{LocalOutput, RemoteOutput, OutputResource, set_output_ref}
use addonconfig.Controller.External.{External, OutputObject}
use addonconfig.Controller.Context.{
  Context, Outcome, Phase, mark_config_true, mark_config_false, done, again_in_30_s, return_error,
}
use addonconfig.Controller.Templating.{render}

-- The four variables that the two kinds of output are read into.
pub record Destination : Type 0 where
  pub api_version : String
  pub kind : String
  pub name : String
  pub namespace : String

abbrev pub of_local : String → LocalOutput → Destination
of_local namespace o = record {
  api_version = o.api_version;
  kind = o.kind;
  name = o.name;
  namespace = namespace;
}

abbrev pub of_remote : RemoteOutput → Destination
of_remote o = record {
  api_version = o.api_version;
  kind = o.kind;
  name = o.name;
  namespace = o.namespace;
}

-- The field that the mutation of the stored object sets, by its kind.
unfoldable pub content_for : String → String → Option (String × String)
content_for kind text =
    if kind == "Secret"
    then some ("stringData", text)
    else if kind == "ConfigMap"
    then some ("data", text)
    else none

-- The outputs that the status then refers to.
unfoldable pub stored_ref : OutputResource → Destination → Option LocalOutput × Option RemoteOutput
stored_ref o d =
    let local : LocalOutput = record {
      api_version = d.api_version;
      kind = d.kind;
      name = d.name;
    } in
    let remote : RemoteOutput = record {
      api_version = d.api_version;
      kind = d.kind;
      name = d.name;
      namespace = "";
    } in
    if is_some o.local_output
    then (some local, o.remote_output)
    else if is_some o.remote_output
    then (o.local_output, some remote)
    else (o.local_output, o.remote_output)

module _ (x : External) where
  open x use {Error, wrap, error_text, create_or_update}

  abbrev not_updated : Context x → (reason message_format : String) → Context x
  not_updated atx reason message_format =
      mark_config_false x atx output_resource_updated_condition reason message_format []

  -- `CreateOrUpdate` of the object. What it returns is discarded, so the run goes on in the same way
  -- whether the object was stored or not.
  abbrev pub ignore_result : Result Error (Unit {0}) → Context x → Context x
  ignore_result (ok u) atx = atx
  ignore_result (err e) atx = atx

  -- What follows the rendering of the name.
  unfoldable pub store : Context x → OutputResource → Destination → Outcome x
  unfolding content_for stored_ref set_output_ref
  store atx output d =
      let object : OutputObject = record {
        api_version = d.api_version;
        kind = d.kind;
        name = d.name;
        namespace = d.namespace;
        content = content_for d.kind atx.rendered_template;
      } in
      let stored =
        ignore_result (create_or_update object) (record atx { saved = atx.saved ++ object ∷ [] }) in
      let marked = mark_config_true x stored output_resource_updated_condition in
      let (local, remote) = stored_ref output d in
      done x (record marked { addon_config = set_output_ref marked.addon_config local remote })

  -- What follows the reading of the four variables.
  unfoldable pub save_to : Context x → OutputResource → Destination → Outcome x
  unfolding render store
  save_to atx output d =
      if d.name == ""
      then again_in_30_s x
          (not_updated atx "OutputResourceUndefined" "No output resource has been defined")
      else elim (render x atx d.name "Output resource name could not be parsed"
          "Rendering template failed") [
            | err (e, message) ↦
                return_error x (not_updated atx "NameTemplatingFailed" (error_text e))
                  (wrap (some e) message)
            | ok name ↦ store atx output (record d { name = name })
          ]

  abbrev pub choose_output :
      Context x → OutputResource → Option LocalOutput → Option RemoteOutput → Outcome x
  choose_output atx output none none =
      again_in_30_s x
        (not_updated atx "OutputResourceUndefined" "No output resource has been defined")
  choose_output atx output (some l) (some r) =
      again_in_30_s x (
        not_updated atx "MultipleOutputResourceDefined"
          "Multiple output resources has been defined")
  choose_output atx output none (some r) =
      if r.namespace == ""
      then again_in_30_s x (
          not_updated atx "RemoteOutputResourceNoNamespaceDefined"
            "No namespace defined for the remote output resource")
      else save_to atx output (of_remote r)
  choose_output atx output (some l) none =
      save_to atx output (of_local atx.addon_config.namespace l)

  unfoldable pub save_rendered_template : Phase x
  unfolding save_to
  save_rendered_template atx =
      let output = atx.addon_config_definition.output_resource in
      choose_output atx output output.local_output output.remote_output
