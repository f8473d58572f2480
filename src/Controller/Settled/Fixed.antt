-- ===== src/Controller/Settled/Fixed.antt =====
-- controllers: an AddonConfig that a reconciliation leaves as it is.
use addonconfig.Common.{false, ℕ, ◌≡◌, refl, subst, Bool-cases, ◌==◌, ==_iff, inl, inr}
use addonconfig.Api.Condition.{ConditionType, valid_dependency_condition, valid_schema_condition}
use addonconfig.Api.Config.{AddonConfig}
use addonconfig.Conditions.Getter.{get}
use addonconfig.Conditions.Order.{IsCanonical}
use addonconfig.Conditions.Canonical.{IsCanonical-ext}
use addonconfig.Controller.External.{External, Documented}
use addonconfig.Controller.Reconcile.{reconcile_at}
use addonconfig.Controller.Guarantees.{reconcile_at-IsCanonical}
use addonconfig.Controller.Settled.Defaults.{Settling}
use addonconfig.Controller.Settled.Again.{reconcile_at-Repeats}

module _ {Raw : Type 0} where
  -- Two AddonConfigs that agree in what a reconciliation writes and in the rest.
  configs_eq :
      (a b : AddonConfig Raw)
      → a.values ≡ b.values
      → a.conditions ≡ b.conditions
      → a.field_errors ≡ b.field_errors
      → a.observed_schema_uid ≡ b.observed_schema_uid
      → a.output_ref ≡ b.output_ref
      → record a {
        values = b.values;
        conditions = b.conditions;
        field_errors = b.field_errors;
        observed_schema_uid = b.observed_schema_uid;
        output_ref = b.output_ref;
      }
        ≡ b
      → a ≡ b
  configs_eq a b v c f u r rest = cc

-- Where the conditions are in order with no type twice, a second reconciliation that leaves
-- ValidDependency as it is leaves the whole AddonConfig as it is, and returns the same result and error
-- as the first. The error values are to be as documented, stored values to be read back as they were
-- encoded, and defaulted values to get no other defaults.
pub reconcile_at-fixed :
    (x : External) (ac : AddonConfig x.Raw) (m n : ℕ)
    → Documented x
    → Settling x
    → IsCanonical ac.conditions
    → get
        (reconcile_at x n (reconcile_at x m ac).0.addon_config).0.addon_config.conditions
        valid_dependency_condition
      ≡ get (reconcile_at x m ac).0.addon_config.conditions valid_dependency_condition
    → ((reconcile_at x n (reconcile_at x m ac).0.addon_config).0.addon_config
        ≡ (reconcile_at x m ac).0.addon_config)
      × ((reconcile_at x n (reconcile_at x m ac).0.addon_config).1 ≡ (reconcile_at x m ac).1)
      × ((reconcile_at x n (reconcile_at x m ac).0.addon_config).2 ≡ (reconcile_at x m ac).2)
reconcile_at-fixed x ac m n doc settling canonical dependency =
    let left = (reconcile_at x m ac).0.addon_config in
    let repeats = λ (t : ConditionType) (other : (valid_dependency_condition == t) ≡ false).
      reconcile_at-Repeats x ac m n t left.conditions doc settling other refl in
    let all = repeats valid_schema_condition refl in
    let conditions =
      IsCanonical-ext (reconcile_at x n left).0.addon_config.conditions left.conditions
        (reconcile_at-IsCanonical x n left (reconcile_at-IsCanonical x m ac canonical))
        (reconcile_at-IsCanonical x m ac canonical)
        (λ t. elim (Bool-cases (valid_dependency_condition == t)) [
          | inl same ↦
              subst
                (λ u.
                  get (reconcile_at x n left).0.addon_config.conditions u ≡ get left.conditions u)
                ((==_iff valid_dependency_condition t).0 same) dependency
          | inr other ↦ (repeats t other).condition
        ]) in
    (
      configs_eq (reconcile_at x n left).0.addon_config left all.values conditions all.field_errors
          all.observed_schema_uid all.output_ref all.others,
      all.result,
      all.error,
    )
