-- ===== src/Controller/Simulated.antt =====
-- A cluster with one definition, as the controllers see it.
use addonconfig.Common.Result.{ok}
use addonconfig.Common.{
  refl, ◌*◌, Bool, true, false, Option, none, some, List, [], ◌∷◌, String, if◌then◌else◌, ◌==◌,
}
use addonconfig.Api.Config.{AddonConfig, AddonConfigDefinition, FieldFault}
use addonconfig.Controller.External.{External, Documented, found}

abbrev pub first_of : List String → Option String
first_of [] = none
first_of (e ∷ es) = some e

abbrev pub details : List FieldFault → List String
details [] = []
details (e ∷ es) = e.detail ∷ details es

abbrev pub wrapped : Option String → String → Option String
wrapped none message = none
wrapped (some e) message = some message

abbrev pub definition : AddonConfigDefinition Bool
definition = record {
  uid = "7";
  schema = some true;
  dependencies = [];
  template = "";
  output_resource = record {
    local_output = some (record { api_version = "v1"; kind = "Secret"; name = "out" });
    remote_output = none;
  };
}

abbrev pub required : FieldFault
required = record { field = "a"; type = "Required"; detail = "a is required"; bad_value = "" }

-- Where the values are the empty text, a field is missing.
abbrev pub faults_of : String → List FieldFault
faults_of values = if values == "" then required ∷ [] else []

abbrev pub sample : External
sample = record {
  Error = String;
  Raw = String;
  Json = String;
  Schema = Bool;
  Internal = Bool;
  Structural = Bool;
  Validator = Bool;
  Template = String;
  Selector = Bool;
  new_error = λ message. message;
  wrap = wrapped;
  new_aggregate = first_of;
  to_aggregate = λ faults. first_of (details faults);
  error_text = λ e. e;
  clock = λ n. n * 1_000_000_000;
  get_definition = λ name. found definition;
  get_object = λ kind namespace name api_version. found name;
  list_objects = λ api_version kind selector namespace. ok [];
  create_or_update = λ object. ok tt;
  no_validation = false;
  convert = λ schema. ok schema;
  new_structural = λ internal. ok internal;
  default_values = λ values structural. values;
  new_validator = λ internal. ok internal;
  validate = λ values validator. faults_of values;
  marshal = λ values. ok values;
  unmarshal_raw = λ text. ok text;
  unmarshal = λ text. ok text;
  unmarshal_map = λ text. ok text;
  encode = λ values. ok values;
  nested_string = λ object path. ok "v1";
  nested_map = λ object path. ok (some object);
  group_kind_of = λ api_version kind. record { group = api_version; kind = kind };
  parse = λ text. ok text;
  parse_with_functions = λ text. ok text;
  template_count = λ template. 2;
  execute = λ template variables. ok template;
  is_exec_error = λ e. false;
  as_selector = λ selector. ok true;
}

pub documented : Documented sample
documented = record {
  wrap_nil = λ message. refl;
  wrap_error = λ e message. (message, refl);
  aggregate_nil = refl;
  aggregate_error = λ e es. (e, refl);
  faults_error = λ e es. (e.detail, refl);
}

abbrev pub config_with : String → AddonConfig String
config_with values = record {
  namespace = "default";
  name = "antrea";
  definition_ref = "antrea";
  target_name = "cluster";
  values = values;
  conditions = [];
  field_errors = [];
  observed_generation = none;
  observed_schema_uid = none;
  output_ref = none;
}
