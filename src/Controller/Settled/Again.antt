-- ===== src/Controller/Settled/Again.antt =====
-- controllers: a reconciliation of what a reconciliation has left.
use addonconfig.Common.{
  none, true, subst, sym, ap, ◌∙◌, ◌++◌, arith, refl, inl, inr, Bool-cases, ℕ, ◌≡◌, refl, false,
  Option, [], ◌==◌,
}
use addonconfig.Api.Config.{AddonConfig, with_config_conditions}
use addonconfig.Util.Requeue.{CtrlResult, no_requeue}
use addonconfig.Controller.External.{External}
use addonconfig.Controller.Context.{Context, Outcome, new_addon_config_context}
use addonconfig.Controller.Reconcile.{reconcile_at}
use addonconfig.Controller.Settled.Writes.{get-write_all, tally, write_all, Status}
use addonconfig.Controller.Settled.Fields.{
  field-again, field_errors-write, schema_uid-write, output_ref-write, saved-write_all, tally-once,
  Distinct,
}
use addonconfig.Controller.Settled.Whole.{course-Uniform, validation_types, later_types}
use addonconfig.Controller.Settled.Defaults.{Settling}
use addonconfig.Controller.External.{Documented}
use addonconfig.Api.Condition.{Conditions, ConditionType, valid_dependency_condition}
use addonconfig.Conditions.Getter.{get}
use addonconfig.Controller.Settled.Uniform.{Uniform, Only, Scratch, dressed, scratch_of}
use addonconfig.Controller.Settled.Run.{ran}
use addonconfig.Controller.Settled.Whole.{course}

module _ (x : External) (ac : AddonConfig x.Raw) where
  abbrev fresh : Scratch x ac
  unfolding new_addon_config_context
  fresh = scratch_of x ac (new_addon_config_context x ac)

  abbrev status_of : Status
  status_of = record {
    conditions = ac.conditions;
    field_errors = ac.field_errors;
    observed_schema_uid = ac.observed_schema_uid;
    output_ref = ac.output_ref;
    marks = 0;
    saved = [];
  }

  abbrev restarted : Status → ℕ → Status
  restarted s n = record s { marks = n; saved = [] }

  abbrev parts : Outcome x → Context x × (CtrlResult × Option x.Error)
  parts o = (o.0, (o.1, o.2))

  reconcile_at-course :
      (k : Scratch x ac) (v : x.Raw) (s : Status) (n : ℕ)
      → (ac.definition_ref == "") ≡ false
      → parts (reconcile_at x n (dressed x ac k v s).addon_config)
        ≡ course x ac (dressed x ac fresh v (restarted s n))
  unfolding reconcile_at course ran new_addon_config_context
  reconcile_at-course k v s n named = rw named refl

-- The second outcome is the first one in the AddonConfig that it leaves, with the condition of type `t`
-- for the conditions, in the objects that it saves, and in what it returns.
pub record Repeats (x : External) (t : ConditionType) (o o' : Outcome x) : Type 0 where
  pub condition : get o'.0.addon_config.conditions t ≡ get o.0.addon_config.conditions t
  pub values : o'.0.addon_config.values ≡ o.0.addon_config.values
  pub field_errors : o'.0.addon_config.field_errors ≡ o.0.addon_config.field_errors
  pub observed_schema_uid :
      o'.0.addon_config.observed_schema_uid ≡ o.0.addon_config.observed_schema_uid
  pub output_ref : o'.0.addon_config.output_ref ≡ o.0.addon_config.output_ref
  pub saved : o'.0.saved ≡ o.0.saved
  pub others :
      record (o'.0.addon_config) {
        values = o.0.addon_config.values;
        conditions = o.0.addon_config.conditions;
        field_errors = o.0.addon_config.field_errors;
        observed_schema_uid = o.0.addon_config.observed_schema_uid;
        output_ref = o.0.addon_config.output_ref;
      }
      ≡ o.0.addon_config
  pub result : o'.1 ≡ o.1
  pub error : o'.2 ≡ o.2

module _ (x : External) (ac : AddonConfig x.Raw) (t : ConditionType)
    (other : (valid_dependency_condition == t) ≡ false) where
  types-Distinct : Distinct (validation_types x ac ++ later_types x ac)
  unfolding Distinct tally
  types-Distinct = (refl, (refl, (refl, (refl, (refl, (refl, tt))))))

  -- What is left, with other conditions.
  abbrev changed : Status → Conditions → ℕ → Status
  changed s cs n = restarted x ac (record s { conditions = cs }) n

  -- Two ends of a uniform function, the second from what the first has left but for the conditions of
  -- other types.
  uniform-Repeats :
      (f : Context x → Context x × (CtrlResult × Option x.Error)) (k : Scratch x ac)
      (V : x.Raw → Type 0) (w v v' : x.Raw) (s : Status) (n : ℕ) (cs : Conditions)
      (u : Uniform x ac f k V (Only x ac w) (validation_types x ac ++ later_types x ac))
      → s.saved ≡ []
      → v ≡ w
      → v' ≡ w
      → get cs t ≡ get (write_all x.clock s u.writes).conditions t
      → Repeats x t
          (dressed x ac u.core v (write_all x.clock s u.writes), u.value.0, u.value.1)
          (
            dressed x ac u.core v'
                (write_all x.clock (changed (write_all x.clock s u.writes) cs n) u.writes),
            u.value.0,
            u.value.1,
          )
  uniform-Repeats f k V w v v' s n cs u unsaved e e' h =
      let s' = changed (write_all x.clock s u.writes) cs n in
      record {
        condition =
            get-write_all x.clock t u.writes s s'
              (omega (arith, u.within t other, tally-once t _ types-Distinct)) h
            ∙ h;
        values = e' ∙ sym e;
        field_errors =
            field-again x.clock (λ r. r.field_errors) (field_errors-write x.clock) u.writes s s'
              refl;
        observed_schema_uid =
            field-again x.clock (λ r. r.observed_schema_uid) (schema_uid-write x.clock) u.writes s
              s' refl;
        output_ref =
            field-again x.clock (λ r. r.output_ref) (output_ref-write x.clock) u.writes s s' refl;
        saved = saved-write_all x.clock u.writes s' s (sym unsaved);
        others = refl;
        result = refl;
        error = refl;
      }

  abbrev whole : Context x × (CtrlResult × Option x.Error) → Outcome x
  whole r = (r.0, r.1.0, r.1.1)

  abbrev first : ℕ → Outcome x
  first m = reconcile_at x m ac

  abbrev from : ℕ → Conditions → Outcome x → Outcome x
  from n cs o = reconcile_at x n (with_config_conditions o.0.addon_config cs)

  abbrev Repeated : ℕ → ℕ → Conditions → Type 0
  Repeated m n cs =
      get cs t ≡ get (first m).0.addon_config.conditions t
      → Repeats x t (first m) (from n cs (first m))

  named-Repeats :
      (m n : ℕ) (cs : Conditions)
      → Documented x
      → Settling x
      → (ac.definition_ref == "") ≡ false
      → Repeated m n cs
  named-Repeats m n cs doc settling named =
      let (w, u) = course-Uniform x ac (fresh x ac) ac.values doc settling in
      let begun = restarted x ac (status_of x ac) m in
      let (v, e, run) = u.runs ac.values (inl refl) begun in
      let left = write_all x.clock begun u.writes in
      let (v', e', again) = u.runs v (inr e) (changed left cs n) in
      let begins =
        ap whole (reconcile_at-course x ac (fresh x ac) ac.values (status_of x ac) m named ∙ run) in
      let goes_on =
        ap whole
          (reconcile_at-course x ac u.core v (record left { conditions = cs }) n named ∙ again) in
      subst (λ o. get cs t ≡ get o.0.addon_config.conditions t → Repeats x t o (from n cs o))
        (sym begins)
        (subst
          (λ o.
            get cs t ≡ get left.conditions t
            → Repeats x t (dressed x ac u.core v left, u.value.0, u.value.1) o)
          (sym goes_on)
          (uniform-Repeats (course x ac) (fresh x ac) _ w v v' begun n cs u refl e e'))

  abbrev idle : ℕ → AddonConfig x.Raw → Outcome x
  idle n a = (record (new_addon_config_context x a) { marks = n }, no_requeue, none)

  reconcile_at-idle :
      (n : ℕ) (a : AddonConfig x.Raw)
      → (a.definition_ref == "") ≡ true
      → reconcile_at x n a ≡ idle n a
  unfolding reconcile_at
  reconcile_at-idle n a unnamed = rw unnamed refl

  unnamed-Repeats : (m n : ℕ) (cs : Conditions) → (ac.definition_ref == "") ≡ true → Repeated m n cs
  unfolding new_addon_config_context
  unnamed-Repeats m n cs unnamed =
      subst (λ o. get cs t ≡ get o.0.addon_config.conditions t → Repeats x t o (from n cs o))
        (sym (reconcile_at-idle m ac unnamed))
        (subst (λ o. get cs t ≡ get ac.conditions t → Repeats x t (idle m ac) o)
          (sym (reconcile_at-idle n (with_config_conditions ac cs) unnamed))
          (λ h. record {
            condition = h;
            values = refl;
            field_errors = refl;
            observed_schema_uid = refl;
            output_ref = refl;
            saved = refl;
            others = refl;
            result = refl;
            error = refl;
          }))

-- A reconciliation of what a reconciliation has left, at whatever later time and whatever has become of
-- the conditions of other types, leaves the AddonConfig, its values, the errors of the fields, the
-- observed schema and the output as they are, and the condition of the type with its transition time,
-- for every type but ValidDependency; it saves the same objects and returns the same result and error.
-- The error values are to be as documented, stored values to be read back as they were encoded, and
-- defaulted values to get no other defaults.
pub reconcile_at-Repeats :
    (x : External) (ac : AddonConfig x.Raw) (m n : ℕ) (t : ConditionType) (cs : Conditions)
    → Documented x
    → Settling x
    → (valid_dependency_condition == t) ≡ false
    → get cs t ≡ get (reconcile_at x m ac).0.addon_config.conditions t
    → Repeats x t
        (reconcile_at x m ac)
        (reconcile_at x n (with_config_conditions (reconcile_at x m ac).0.addon_config cs))
reconcile_at-Repeats x ac m n t cs doc settling other =
    elim (Bool-cases (ac.definition_ref == "")) [
      | inl unnamed ↦ unnamed-Repeats x ac t other m n cs unnamed
      | inr named ↦ named-Repeats x ac t other m n cs doc settling named
    ]
