-- ===== src/Api/Config.antt =====
-- api/v1alpha1: the objects AddonConfig and AddonConfigDefinition, and the errors of their fields.
-- `Raw` is apiextensionsv1.JSON and `Schema` apiextensionsv1.CustomResourceValidation. Metadata has
-- the fields that the controller reads.
use addonconfig.Common.{String, Option, some, List, [], ◌∷◌, ◌==◌, if◌then◌else◌, ℕ}
use addonconfig.Api.Condition.{Conditions}

pub record LocalOutput : Type 0 where
  pub api_version : String
  pub kind : String
  pub name : String

pub record RemoteOutput : Type 0 where
  pub api_version : String
  pub kind : String
  pub name : String
  pub namespace : String

pub record OutputResource : Type 0 where
  pub local_output : Option LocalOutput
  pub remote_output : Option RemoteOutput

-- metav1.LabelSelectorRequirement
pub record Requirement : Type 0 where
  pub key : String
  pub operator : String
  pub values : List String

-- metav1.LabelSelector; the map is a list in the order in which a loop goes through it.
pub record LabelSelector : Type 0 where
  pub match_labels : List (String × String)
  pub match_expressions : List Requirement

-- Target, with the operators of its constraints.
pub record Target : Type 0 where
  pub api_version : String
  pub kind : String
  pub name : String
  pub selector : Option LabelSelector
  pub constraints : List String

-- AddonConfigDefinitionDependencies
pub record Dependency : Type 0 where
  pub name : String
  pub target : Target

pub record AddonConfigDefinition (Schema : Type 0) : Type 0 where
  pub uid : String
  pub schema : Option Schema
  pub dependencies : List Dependency
  pub template : String
  pub output_resource : OutputResource

pub record FieldError : Type 0 where
  pub type : String
  pub detail : String
  pub bad_value : String

-- field.Error, with `BadValue` as `%v` prints it.
pub record FieldFault : Type 0 where
  pub field : String
  pub type : String
  pub detail : String
  pub bad_value : String

-- The map by field; a key stands in it once.
abbrev pub FieldErrors : Type 0
FieldErrors = List (String × FieldError)

abbrev described : FieldFault → FieldError
described e = record { type = e.type; detail = e.detail; bad_value = e.bad_value }

-- `SetError`, for an error that is not nil.
unfoldable pub set_error : FieldErrors → FieldFault → FieldErrors
set_error [] e = (e.field, described e) ∷ []
set_error ((k, v) ∷ f) e = if k == e.field then (k, described e) ∷ f else (k, v) ∷ set_error f e

pub record AddonConfig (Raw : Type 0) : Type 0 where
  pub namespace : String
  pub name : String
  pub definition_ref : String
  pub target_name : String
  pub values : Raw
  pub conditions : Conditions
  pub field_errors : FieldErrors
  pub observed_generation : Option ℕ
  pub observed_schema_uid : Option String
  pub output_ref : Option OutputResource

unfoldable pub set_output_ref :
    {Raw : Type 0} → AddonConfig Raw → Option LocalOutput → Option RemoteOutput → AddonConfig Raw
set_output_ref a local remote = record a {
  output_ref = some (record { local_output = local; remote_output = remote });
}

-- `GetConditions` and `SetConditions` of an AddonConfig.
abbrev pub config_conditions : {Raw : Type 0} → AddonConfig Raw → Conditions
config_conditions a = a.conditions

abbrev pub with_config_conditions : {Raw : Type 0} → AddonConfig Raw → Conditions → AddonConfig Raw
with_config_conditions a conditions = record a { conditions = conditions }
