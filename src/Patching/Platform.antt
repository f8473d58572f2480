-- ===== src/Patching/Platform.antt =====
-- What util/patch calls and does not implement: the converter between objects and maps, JSON, the API
-- client, the retries of wait.ExponentialBackoff, and the error values.
use addonconfig.Common.Result.{Result}
use addonconfig.Common.{ℕ, String, Bool, Option, List}
use addonconfig.Api.Condition.{Conditions, Time}
use addonconfig.Conditions.Patch.{PatchError}

-- schema.GroupVersionKind
pub record GroupVersionKind : Type 0 where
  pub group : String
  pub version : String
  pub kind : String

-- client.ObjectKey
pub record ObjectKey : Type 0 where
  pub namespace : String
  pub name : String

-- wait.Backoff, with the fields that are set; the duration in nanoseconds.
pub record Backoff : Type 0 where
  pub steps : ℕ
  pub duration : ℕ
  pub jitter : ℕ

-- `Object` is the Go type of the object that is patched, and `State` the state of the API server and of
-- all that acts on it; each request moves it on.
pub record Platform (Error Object : Type 0) : Type 1 where
  pub State : Type 0
  pub Json : Type 0
  -- errors.New, errors.Wrapf, the errors of `Apply`, and kerrors.NewAggregate
  pub new_error : String → Error
  pub wrap : Error → String → Error
  pub patch_error : PatchError → Error
  pub aggregate : List (Option Error) → Option Error
  -- The instant of the n-th operation in a round of the retries.
  pub clock : (round operation : ℕ) → Time
  -- String of a kind; apiutil.GVKForObject; whether the type of the object satisfies conditions.Setter, and its methods;
  -- client.ObjectKeyFromObject
  pub gvk_text : GroupVersionKind → String
  pub gvk_for_object : Object → Result Error GroupVersionKind
  pub is_setter : Object → Bool
  pub get_conditions : Object → Conditions
  pub set_conditions : Object → Conditions → Object
  pub key_of : Object → ObjectKey
  -- ToUnstructured and FromUnstructured; the generation of a map; SetNestedField; the value of a key of
  -- the top level without one of its own keys, as RemoveNestedField leaves it
  pub to_unstructured : Object → Result Error (List (String × Json))
  pub from_unstructured : List (String × Json) → Object → Result Error Object
  pub get_generation : List (String × Json) → Json
  pub set_nested_field :
      List (String × Json) → Json → List String → Result Error (List (String × Json))
  pub without_field : Json → String → Json
  -- The data of a merge patch between two objects, and its decoding
  pub merge_data : (before after : Object) → Result Error String
  pub unmarshal_map : String → Result Error (List (String × Json))
  -- Get; Status().Patch with the optimistic lock; Patch; Status().Patch
  pub get : State → ObjectKey → State × Result Error Object
  pub patch_locked : State → (before after : Object) → State × Result Error (Unit {0})
  pub patch : State → (before after : Object) → State × Option Error
  pub patch_status : State → (before after : Object) → State × Option Error
  pub is_conflict : Error → Bool
  -- wait.ExponentialBackoff, of a condition that runs on a state
  pub timeout : Error
  pub exponential_backoff :
      (S : Type 0) → Backoff → (S → S × Result Error Bool) → S → S × Option Error
