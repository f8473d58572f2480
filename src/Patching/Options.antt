-- ===== src/Patching/Options.antt =====
-- util/patch/options.go: the options of a patch.
use addonconfig.Common.{Bool, true, false, List, [], ◌∷◌}
use addonconfig.Api.Condition.{ConditionType}

pub record HelperOptions : Type 0 where
  pub include_status_observed_generation : Bool
  pub force_overwrite_conditions : Bool
  pub owned_conditions : List ConditionType

-- `&HelperOptions{}`
abbrev pub no_helper_options : HelperOptions
no_helper_options = record {
  include_status_observed_generation = false;
  force_overwrite_conditions = false;
  owned_conditions = [];
}

-- `Option`, by its `ApplyToHelper`.
abbrev pub HelperOption : Type 0
HelperOption = HelperOptions → HelperOptions

unfoldable pub with_force_overwrite_conditions : HelperOption
with_force_overwrite_conditions o = record o { force_overwrite_conditions = true }

unfoldable pub with_status_observed_generation : HelperOption
with_status_observed_generation o = record o { include_status_observed_generation = true }

unfoldable pub with_owned_condition_types : List ConditionType → HelperOption
with_owned_condition_types types o = record o { owned_conditions = types }

unfoldable pub apply_helper_options : List HelperOption → HelperOptions → HelperOptions
apply_helper_options [] o = o
apply_helper_options (f ∷ fs) o = apply_helper_options fs (f o)
