-- ===== src/Controller/Settled/Middle.antt =====
-- controllers: what the phases for the target, the values and the template do, apart from what a run
-- only writes.
use addonconfig.Common.Result.{Result, ok, err}
use addonconfig.Common.{
  refl, Option, none, some, List, [], ◌∷◌, ◌==◌, ltb, String, inl, inr, Bool-cases, Result-cases,
}
use addonconfig.Api.Condition.{
  ConditionType, Condition, valid_target_condition, valid_template_condition, severity_error,
}
use addonconfig.Api.Config.{AddonConfig}
use addonconfig.Conditions.Setter.{true_condition, false_condition, set, mark_true, mark_false}
use addonconfig.Controller.External.{External, Fetched, Fetched-cases}
use addonconfig.Controller.Context.{mark_config_true, mark_config_false}
use addonconfig.Controller.Target.{
  reconcile_target, fetch_target, use_cluster, use_kind, use_metadata, reconcile_template_values,
  store_values,
}
use addonconfig.Controller.Templating.{reconcile_template, use_template, use_rendered}
use addonconfig.Controller.Settled.Writes.{write}
use addonconfig.Controller.Settled.Uniform.{Scratch}
use addonconfig.Controller.Settled.Forms.{quiet, marking, KeepsValues, as_does}

abbrev false_error : ConditionType → (reason format : String) → List String → Condition
false_error t reason format args = false_condition t reason severity_error format args

module _ (x : External) (ac : AddonConfig x.Raw) (k : Scratch x ac) (v : x.Raw) where
  pub reconcile_template_values-Uniform : KeepsValues x ac k v (reconcile_template_values x) []
  unfolding reconcile_template_values store_values
  reconcile_template_values-Uniform = elim (Result-cases (x.marshal v)) [
    | inr (e, h) ↦ quiet x ac _ k v [] (λ s. rw (h, reconcile_template_values) refl)
    | inl (text, h) ↦ elim (Result-cases (x.unmarshal_map text)) [
      | inr (e, h') ↦
          quiet x ac _ k v [] (λ s. rw (h, h', reconcile_template_values, store_values) refl)
      | inl (j, h') ↦
          quiet x ac _ k v [] (λ s. rw (h, h', reconcile_template_values, store_values) refl)
    ]
  ]

  abbrev cluster : Fetched x.Error x.Json
  cluster = x.get_object "Cluster" ac.namespace ac.target_name "cluster.x-k8s.io/v1beta1"

  use_metadata-Uniform :
      (api_version kind : String) (r : Result x.Error (Option x.Json))
      → KeepsValues x ac k v
          (λ c. use_metadata x c api_version kind r)
          (valid_target_condition ∷ [])
  unfolding use_metadata write set mark_true true_condition mark_config_true
  use_metadata-Uniform api_version kind (err e) = quiet x ac _ k v _ (λ s. refl)
  use_metadata-Uniform api_version kind (ok none) = quiet x ac _ k v _ (λ s. refl)
  use_metadata-Uniform api_version kind (ok (some meta)) =
      marking x ac _ k v (true_condition valid_target_condition) (λ s. refl)

  use_kind-Uniform :
      (j : x.Json) (api_version : String) (r : Result x.Error String)
      → KeepsValues x ac k v (λ c. use_kind x c j api_version r) (valid_target_condition ∷ [])
  unfolding use_kind
  use_kind-Uniform j api_version (err e) = quiet x ac _ k v _ (λ s. refl)
  use_kind-Uniform j api_version (ok kind) = use_metadata-Uniform api_version kind _

  abbrev kind_of : x.Json → Result x.Error String
  kind_of j = x.nested_string j ("spec" ∷ "infrastructureRef" ∷ "kind" ∷ [])

  use_cluster-Uniform :
      (j : x.Json) → KeepsValues x ac k v (λ c. use_cluster x c j) (valid_target_condition ∷ [])
  unfolding use_cluster
  use_cluster-Uniform j =
      elim (Result-cases (x.nested_string j ("spec" ∷ "infrastructureRef" ∷ "apiVersion" ∷ []))) [
        | inl (api_version, h) ↦
            as_does x ac k v _ _ _ (use_kind-Uniform j api_version (kind_of j))
              (λ s. rw (h, use_cluster) refl)
        | inr (e, h) ↦ quiet x ac _ k v _ (λ s. rw (h, use_cluster) refl)
      ]

  pub reconcile_target-Uniform :
      KeepsValues x ac k v (reconcile_target x) (valid_target_condition ∷ [])
  unfolding reconcile_target fetch_target write set mark_false false_condition mark_config_false
  reconcile_target-Uniform = elim (Bool-cases (ac.target_name == "")) [
    | inl unset ↦
        marking x ac _ k v
          (false_error valid_target_condition "TargetUndefined" "No target name has been defined"
            [])
          (λ s. rw unset refl)
    | inr named ↦ elim (Fetched-cases cluster) [
      | inl (j, h) ↦
          as_does x ac k v _ _ _ (use_cluster-Uniform j) (λ s. rw (named, h, fetch_target) refl)
      | inr (inl (e, h)) ↦
          marking x ac _ k v
            (false_error valid_target_condition "TargetNotFound" "No target has been found" [])
            (λ s. rw (named, h, fetch_target) refl)
      | inr (inr (e, h)) ↦ quiet x ac _ k v _ (λ s. rw (named, h, fetch_target) refl)
    ]
  ]

  use_rendered-Uniform :
      (r : Result x.Error String)
      → KeepsValues x ac k v (λ c. use_rendered x c r) (valid_template_condition ∷ [])
  unfolding use_rendered write set mark_true mark_false true_condition false_condition
      mark_config_true mark_config_false
  use_rendered-Uniform (ok out) =
      marking x ac _ k v (true_condition valid_template_condition) (λ s. refl)
  use_rendered-Uniform (err e) = elim (Bool-cases (x.is_exec_error e)) [
    | inl exec ↦
        marking x ac _ k v
          (false_error valid_template_condition "FailedRendering" (x.error_text e) [])
          (λ s. rw (exec, use_rendered) refl)
    | inr writing ↦
        marking x ac _ k v
          (false_error valid_template_condition "FailedWritingRenderedTemplate"
            "Unable to write the rendered template into bytes" [])
          (λ s. rw (writing, use_rendered) refl)
  ]

  use_template-Uniform :
      (r : Result x.Error x.Template)
      → KeepsValues x ac k v (λ c. use_template x c r) (valid_template_condition ∷ [])
  unfolding use_template write set mark_false false_condition mark_config_false
  use_template-Uniform (err e) =
      marking x ac _ k v
        (false_error valid_template_condition "InvalidTemplate" "Unable to parse the template" [])
        (λ s. refl)
  use_template-Uniform (ok t) = elim (Bool-cases (ltb 1 (x.template_count t))) [
    | inl nested ↦
        marking x ac _ k v
          (false_error valid_template_condition "InvalidTemplate"
            "Unable to define nested templates in the template" [])
          (λ s. rw (nested, use_template) refl)
    | inr single ↦
        as_does x ac k v _ _ _ (use_rendered-Uniform (x.execute t k.variables))
          (λ s. rw (single, use_template) refl)
  ]

  pub reconcile_template-Uniform :
      KeepsValues x ac k v (reconcile_template x) (valid_template_condition ∷ [])
  unfolding reconcile_template write set mark_true true_condition mark_config_true
  reconcile_template-Uniform = elim (Bool-cases (k.definition.template == "")) [
    | inl unset ↦
        marking x ac _ k v (true_condition valid_template_condition)
          (λ s. rw (unset, reconcile_template) refl)
    | inr given ↦
        as_does x ac k v _ _ _ (use_template-Uniform (x.parse_with_functions k.definition.template))
          (λ s. rw (given, reconcile_template) refl)
  ]
