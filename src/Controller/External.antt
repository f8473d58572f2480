-- ===== src/Controller/External.antt =====
-- What the controllers call and do not implement: the API server, JSON, the schema packages of
-- Kubernetes, text/template, and the error values of github.com/pkg/errors and apimachinery.
use addonconfig.Common.Result.{Result}
use addonconfig.Common.{
  ℕ, String, Bool, refl, ◌⊎◌, inl, inr, ◌≡◌, Option, none, some, List, [], ◌∷◌,
}
use addonconfig.Api.Condition.{Time}
use addonconfig.Api.Config.{AddonConfigDefinition, FieldFault, LabelSelector}
use addonconfig.Util.Infrastructure.{GroupKind}

-- What `Get` of the API client comes to, with `IsNotFound` of its error.
pub data Fetched {ℓ κ} (E : Type ℓ) (A : Type κ) : Type (ℓ ⊔ κ) where
  found : A → Fetched E A
  not_found : E → Fetched E A
  failed : E → Fetched E A

-- AddonConfigTemplateVariables and AddonConfigTemplateDefaults; a map that is nil is `none`.
pub record Variables (Json : Type 0) : Type 0 where
  pub cluster_meta : Option Json
  pub infrastructure : String
  pub dependencies : List (String × Json)
  pub values : Option Json

-- The object given to `CreateOrUpdate`: its identity, and the nested field that is set to a map from
-- "values.yaml" to the rendered template, if one is.
pub record OutputObject : Type 0 where
  pub api_version : String
  pub kind : String
  pub name : String
  pub namespace : String
  pub content : Option (String × String)

pub record External : Type 1 where
  pub Error : Type 0
  pub Raw : Type 0
  pub Json : Type 0
  pub Schema : Type 0
  pub Internal : Type 0
  pub Structural : Type 0
  pub Validator : Type 0
  pub Template : Type 0
  pub Selector : Type 0
  -- errors.New, errors.Wrap, kerrors.NewAggregate, field.ErrorList.ToAggregate, err.Error()
  pub new_error : String → Error
  pub wrap : Option Error → String → Option Error
  pub new_aggregate : List Error → Option Error
  pub to_aggregate : List FieldFault → Option Error
  pub error_text : Error → String
  -- The instant at which the n-th condition of a reconciliation is set.
  pub clock : ℕ → Time
  -- r.Client.Get of a definition, external.Get, r.Client.List, CreateOrUpdate
  pub get_definition : String → Fetched Error (AddonConfigDefinition Schema)
  pub get_object : (kind namespace name api_version : String) → Fetched Error Json
  pub list_objects :
      (api_version kind : String) → Selector → (namespace : String) → Result Error (List Json)
  pub create_or_update : OutputObject → Result Error (Unit {0})
  -- The empty CustomResourceValidation, and the conversion, defaulting and validation by a schema.
  pub no_validation : Internal
  pub convert : Schema → Result Error Internal
  pub new_structural : Internal → Result Error Structural
  pub default_values : Json → Structural → Json
  pub new_validator : Internal → Result Error Validator
  pub validate : Raw → Validator → List FieldFault
  -- MarshalJSON and UnmarshalJSON of the raw values; json.Unmarshal, into an interface and into a
  -- map; Encode
  pub marshal : Raw → Result Error String
  pub unmarshal_raw : String → Result Error Raw
  pub unmarshal : String → Result Error Json
  pub unmarshal_map : String → Result Error Json
  pub encode : Json → Result Error String
  -- unstructured.NestedString ("" where there is none) and unstructured.NestedMap
  pub nested_string : Json → List String → Result Error String
  pub nested_map : Json → List String → Result Error (Option Json)
  pub group_kind_of : (api_version kind : String) → GroupKind
  -- template.New("").Parse, the same with the function map and `missingkey=error`, the number of
  -- templates that it holds, Execute, and the test for template.ExecError
  pub parse : String → Result Error Template
  pub parse_with_functions : String → Result Error Template
  pub template_count : Template → ℕ
  pub execute : Template → Variables Json → Result Error String
  pub is_exec_error : Error → Bool
  -- metav1.LabelSelectorAsSelector
  pub as_selector : LabelSelector → Result Error Selector

-- What their documentation says of the error values: `Wrap` returns nil for nil and an error for an
-- error, and an aggregate is nil exactly for an empty list.
pub record Documented (x : External) : Type 0 where
  pub wrap_nil : (message : String) → x.wrap none message ≡ none
  pub wrap_error :
      (e : x.Error) (message : String) → (w : x.Error) × (x.wrap (some e) message ≡ some w)
  pub aggregate_nil : x.new_aggregate [] ≡ none
  pub aggregate_error :
      (e : x.Error) (es : List x.Error) → (w : x.Error) × (x.new_aggregate (e ∷ es) ≡ some w)
  pub faults_error :
      (e : FieldFault) (es : List FieldFault) → (w : x.Error) × (x.to_aggregate (e ∷ es) ≡ some w)

pub Fetched-cases {ℓ κ} :
    {E : Type ℓ} {A : Type κ} (r : Fetched E A)
    → ((a : A) × (r ≡ found a)) ⊎ ((e : E) × (r ≡ not_found e)) ⊎ ((e : E) × (r ≡ failed e))
Fetched-cases (found a) = inl (a, refl)
Fetched-cases (not_found e) = inr (inl (e, refl))
Fetched-cases (failed e) = inr (inr (e, refl))
