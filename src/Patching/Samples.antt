-- ===== src/Patching/Samples.antt =====
-- A patch of an AddonConfig in the cluster, while other clients change it, and the theorems applied to it.
use addonconfig.Common.{
  ◌≡◌, ◌≤◌, ap, refl, true, false, none, some, List, [], ◌∷◌, length, inr, All, String, arith,
}
use addonconfig.Common.Result.{ok}
use addonconfig.Api.Condition.{
  Condition, condition_true, condition_false, severity_none, severity_error, ready_condition,
  valid_schema_condition, status_eq, severity_eq,
}
use addonconfig.Api.Config.{AddonConfig, with_config_conditions}
use addonconfig.Conditions.Getter.{get}
use addonconfig.Conditions.Setter.{lexicographic_less}
use addonconfig.Conditions.Order.{IsDistinct}
use addonconfig.Conditions.Patch.{diff, is_zero, keeps_after}
use addonconfig.Conditions.ThreeWay.{type_of}
use addonconfig.Patching.Options.{
  apply_helper_options, HelperOption, with_force_overwrite_conditions,
  with_status_observed_generation, no_helper_options,
}
use addonconfig.Patching.Copies.{Fields, find, unsafe_unstructured_copy, status_patch}
use addonconfig.Patching.Retry.{Helper, World, Attempt, patch_status_conditions}
use addonconfig.Patching.Helper.{new_helper, patch}
use addonconfig.Patching.Rounds.{chosen}
use addonconfig.Patching.Merging.{IsMerged, patch_status_conditions-IsMerged}
use addonconfig.Patching.Contention.{patch_status_conditions-bound, patch_status_conditions-lands}
use addonconfig.Patching.Landing.{patch-IsLanded, IsLanded}
use addonconfig.Patching.Idle.{patch-idle}
use addonconfig.Patching.Laws.{Retries}
use addonconfig.Patching.Entries.{copied, shared}
use addonconfig.Patching.Focus.{find-unsafe_unstructured_copy}
use addonconfig.Patching.Cluster.{
  merge_patch, rounds, first_error, patch_locked_in, cluster, stored, cluster-Retries,
  cluster-Locking, cluster-Aggregates, cluster-Observing, cluster-Contended,
}

abbrev plain : AddonConfig String
plain = record {
  namespace = "default";
  name = "antrea";
  definition_ref = "antrea";
  target_name = "cluster";
  values = "";
  conditions = [];
  field_errors = [];
  observed_generation = none;
  observed_schema_uid = none;
  output_ref = none;
}

abbrev holds : String → Condition
holds t = record {
  type = t;
  status = condition_true;
  severity = severity_none;
  last_transition_time = 5_000_000_000;
  reason = "";
  message = "";
}

abbrev missing : Condition
missing = record {
  type = ready_condition;
  status = condition_false;
  severity = severity_error;
  last_transition_time = 7_000_000_000;
  reason = "NotReady";
  message = "";
}

abbrev before : AddonConfig String
before = with_config_conditions plain (holds ready_condition ∷ [])

abbrev after : AddonConfig String
after = with_config_conditions plain (missing ∷ holds valid_schema_condition ∷ [])

-- Two changes of other clients come between.
abbrev world : World cluster
world = record { server = record { object = before; rivals = 2 }; log = [] }

abbrev helper : Helper cluster
helper = record {
  gvk = record { group = "addon.tvs.io"; version = "v1alpha1"; kind = "AddonConfig" };
  before_object = before;
  before = ("metadata", "antrea") ∷ ("status", "conditions") ∷ [];
  is_conditions_setter = true;
}

abbrev owned : List String
owned = ready_condition ∷ valid_schema_condition ∷ []

abbrev retries : Retries cluster (Attempt cluster)
retries = cluster-Retries (Attempt cluster)

before-IsDistinct : IsDistinct before.conditions
unfolding get
before-IsDistinct = (refl, tt)

after-IsDistinct : IsDistinct after.conditions
unfolding get
after-IsDistinct = (refl, (refl, tt))

changed : is_zero (diff before.conditions after.conditions) ≡ false
unfolding is_zero diff status_eq
changed = refl

all_owned :
    All
      (λ op. keeps_after (chosen false owned) (type_of op) ≡ true)
      (diff before.conditions after.conditions)
unfolding diff keeps_after status_eq
all_owned = (refl, (refl, tt))

-- The run makes six requests, and leaves the rivals' condition where it is.
six_requests : length (patch_status_conditions cluster helper world after false owned).0.log ≡ 6
unfolding patch_status_conditions status_eq rounds patch_locked_in lexicographic_less severity_eq
six_requests = refl

patch_status_conditions-bound_example :
    length (patch_status_conditions cluster helper world after false owned).0.log ≤ 10
patch_status_conditions-bound_example =
    patch_status_conditions-bound cluster retries helper world after false owned

patch_status_conditions-lands_example :
    (patch_status_conditions cluster helper world after false owned).1 ≡ none
patch_status_conditions-lands_example =
    patch_status_conditions-lands cluster retries (λ s. s.rivals) cluster-Contended false owned
      helper world after before-IsDistinct after-IsDistinct all_owned (omega arith)

clean : (patch_status_conditions cluster helper world after false owned).1 ≡ none
unfolding patch_status_conditions status_eq rounds patch_locked_in lexicographic_less severity_eq
clean = refl

patch_status_conditions-IsMerged_example :
    IsMerged cluster retries stored false owned
      (cluster.key_of after)
      before.conditions
      after.conditions
      (patch_status_conditions cluster helper world after false owned).0.server
patch_status_conditions-IsMerged_example =
    patch_status_conditions-IsMerged cluster retries stored helper world after false owned
      cluster-Locking refl before-IsDistinct after-IsDistinct changed clean

abbrev options : List HelperOption
options = with_status_observed_generation ∷ with_force_overwrite_conditions ∷ []

patched : (patch cluster helper world (some after) options).2 ≡ none
unfolding patch merge_patch with_force_overwrite_conditions with_status_observed_generation
    first_error status_eq rounds patch_locked_in lexicographic_less severity_eq
patched = refl

patch-IsLanded_example :
    IsLanded cluster retries stored cluster-Locking helper world
      (apply_helper_options options no_helper_options)
      after
      (patch cluster helper world (some after) options).0
patch-IsLanded_example =
    patch-IsLanded cluster retries stored cluster-Locking helper world after options
      cluster-Aggregates cluster-Observing refl before-IsDistinct after-IsDistinct changed patched

made : new_helper cluster (some before) ≡ ok helper
unfolding new_helper
made = refl

unchanged : merge_patch before.conditions before.conditions ≡ ""
unfolding merge_patch status_eq severity_eq
unchanged = refl

patch-idle_example : patch cluster helper world (some before) options ≡ (world, some before, none)
patch-idle_example =
    patch-idle cluster helper world before options "" cluster-Aggregates made before-IsDistinct
      (ap ok unchanged) refl (λ fields read asked. (refl, refl))

abbrev fields : Fields String
fields = ("kind", "AddonConfig") ∷ ("status", "conditions") ∷ ("spec", "values") ∷ []

abbrev emptied : String → String → String
emptied v name = ""

find-unsafe_unstructured_copy_example :
    (find String (unsafe_unstructured_copy String emptied fields status_patch true).0 "status"
      ≡ copied String emptied status_patch true fields "status")
    × (find String (unsafe_unstructured_copy String emptied fields status_patch true).1 "status"
        ≡ shared String emptied status_patch true fields "status")
find-unsafe_unstructured_copy_example =
    find-unsafe_unstructured_copy String emptied status_patch true (λ v. refl) fields "status"
      (inr refl)

-- The status of the copy is without its conditions, and so is that of the incoming object.
trimmed_status :
    (copied String emptied status_patch true fields "status" ≡ some "")
    × (shared String emptied status_patch true fields "status" ≡ some "")
unfolding copied shared
trimmed_status = (refl, refl)
