-- ===== src/Controller/Settled/Uniform.antt =====
-- controllers: functions of the context whose course does not depend on what a run only writes.
use addonconfig.Common.{
  Option, String, ◌≤◌, ◌≡◌, refl, sym, ap, ◌∙◌, false, none, List, [], ◌++◌, ◌==◌, arith,
}
use addonconfig.Api.Condition.{ConditionType, valid_dependency_condition}
use addonconfig.Api.Config.{AddonConfig, AddonConfigDefinition}
use addonconfig.Controller.External.{External, Variables}
use addonconfig.Util.Requeue.{CtrlResult}
use addonconfig.Controller.Context.{Context, Outcome}
use addonconfig.Controller.Settled.Writes.{
  Status, Write, write_all, write_all-append, count, count-append, tally, tally-append,
}

module _ (x : External) (ac : AddonConfig x.Raw) where
  -- What a run keeps to itself.
  pub record Scratch : Type 0 where
    pub definition : AddonConfigDefinition x.Schema
    pub validation : x.Internal
    pub variables : Variables x.Json
    pub rendered : String

  -- A context of a run on `ac`, put together from its parts.
  abbrev pub dressed : Scratch → x.Raw → Status → Context x
  dressed k v s = record {
    addon_config = record ac {
      values = v;
      conditions = s.conditions;
      field_errors = s.field_errors;
      observed_schema_uid = s.observed_schema_uid;
      output_ref = s.output_ref;
    };
    addon_config_definition = k.definition;
    custom_resource_validation = k.validation;
    template_variables = k.variables;
    rendered_template = k.rendered;
    marks = s.marks;
    saved = s.saved;
  }

  abbrev pub scratch_of : Context x → Scratch
  scratch_of atx = record {
    definition = atx.addon_config_definition;
    validation = atx.custom_resource_validation;
    variables = atx.template_variables;
    rendered = atx.rendered_template;
  }

  abbrev pub blank : Status
  blank = record {
    conditions = [];
    field_errors = [];
    observed_schema_uid = none;
    output_ref = none;
    marks = 0;
    saved = [];
  }

  abbrev pub Within : List ConditionType → List Write → Type 0
  Within types ws =
      (t : ConditionType) → (valid_dependency_condition == t) ≡ false → count t ws ≤ tally t types

  -- From the scratch `k`, with any values in `W` and any status, `f` comes to the same value by the
  -- same writes, with values in `W'`. It marks the types in `types` at most once each, and no other
  -- type but ValidDependency, of which the number is not limited.
  pub record Uniform {B : Type 0} (f : Context x → Context x × B) (k : Scratch)
      (W W' : x.Raw → Type 0) (types : List ConditionType) : Type 0 where
    pub core : Scratch
    pub value : B
    pub writes : List Write
    pub within : Within types writes
    pub runs :
        (v : x.Raw)
        → W v
        → (s : Status)
        → (v' : x.Raw) × W' v'
          × (f (dressed k v s) ≡ (dressed core v' (write_all x.clock s writes), value))

  abbrev pub Only : x.Raw → x.Raw → Type 0
  Only v u = u ≡ v

  pub value_of :
      {B : Type 0} (f : Context x → Context x × B) (k : Scratch) (v : x.Raw) (W' : x.Raw → Type 0)
      (types : List ConditionType) (u : Uniform f k (Only v) W' types)
      → u.value ≡ (f (dressed k v blank)).1
  value_of f k v W' types u = let (w, here, e) = u.runs v refl blank in sym (ap (λ r. r.1) e)

  -- The same for fewer values.
  pub narrow :
      {B : Type 0} (f : Context x → Context x × B) (k : Scratch) (V W W' : x.Raw → Type 0)
      (types : List ConditionType)
      → ((v : x.Raw) → V v → W v)
      → Uniform f k W W' types
      → Uniform f k V W' types
  narrow f k V W W' types among u = record {
    core = u.core;
    value = u.value;
    writes = u.writes;
    within = u.within;
    runs = λ v here s. u.runs v (among v here) s;
  }

  -- The same for one that does not look at the values.
  pub record Unread {B : Type 0} (f : Context x → Context x × B) (k : Scratch)
      (types : List ConditionType) : Type 0 where
    pub core : Scratch
    pub value : B
    pub writes : List Write
    pub within : Within types writes
    pub runs :
        (v : x.Raw) (s : Status)
        → f (dressed k v s) ≡ (dressed core v (write_all x.clock s writes), value)

  abbrev pub unread :
      {B : Type 0} (f : Context x → Context x × B) (k : Scratch) (W : x.Raw → Type 0)
      (types : List ConditionType)
      → Unread f k types
      → Uniform f k W W types
  unread f k W types u = record {
    core = u.core;
    value = u.value;
    writes = u.writes;
    within = u.within;
    runs = λ v here s. (v, here, u.runs v s);
  }

  pub along_anyhow :
      {B : Type 0} (f g : Context x → Context x × B) (k : Scratch) (types : List ConditionType)
      → ((v : x.Raw) (s : Status) → f (dressed k v s) ≡ g (dressed k v s))
      → Unread g k types
      → Unread f k types
  along_anyhow f g k types same u = record {
    core = u.core;
    value = u.value;
    writes = u.writes;
    within = u.within;
    runs = λ v s. same v s ∙ u.runs v s;
  }

  -- What does from the scratch `k` the same as another from `l` is as uniform.
  pub along :
      {B : Type 0} (f g : Context x → Context x × B) (k l : Scratch) (W W' : x.Raw → Type 0)
      (types : List ConditionType)
      → ((v : x.Raw) (s : Status) → W v → f (dressed k v s) ≡ g (dressed l v s))
      → Uniform g l W W' types
      → Uniform f k W W' types
  along f g k l W W' types same u = record {
    core = u.core;
    value = u.value;
    writes = u.writes;
    within = u.within;
    runs = λ v here s. let (v', there, e) = u.runs v here s in (v', there, same v s here ∙ e);
  }

  Within-append :
      (types more : List ConditionType) (ws vs : List Write)
      → Within types ws
      → Within more vs
      → Within (types ++ more) (ws ++ vs)
  Within-append types more ws vs h h' t other =
      omega (arith, h t other, h' t other, count-append t ws vs, tally-append t types more)

  -- One function after the other.
  pub and_then :
      {A B : Type 0} (f : Context x → Context x × A) (g : A → Context x → Context x × B)
      (k : Scratch) (W W' W'' : x.Raw → Type 0) (types more : List ConditionType)
      (u : Uniform f k W W' types)
      → Uniform (g u.value) u.core W' W'' more
      → Uniform (λ c. g (f c).1 (f c).0) k W W'' (types ++ more)
  and_then f g k W W' W'' types more u u' = record {
    core = u'.core;
    value = u'.value;
    writes = u.writes ++ u'.writes;
    within = Within-append types more u.writes u'.writes u.within u'.within;
    runs = λ v h s.
        let (v', h', e) = u.runs v h s in
        let (v'', h'', e') = u'.runs v' h' (write_all x.clock s u.writes) in
        (
          v'',
          h'',
          ap (λ r. g r.1 r.0) e
              ∙ e'
              ∙ ap (λ r. (dressed u'.core v'' r, u'.value))
                  (sym (write_all-append x.clock s u.writes u'.writes)),
        );
  }

  -- An outcome as a context and what is returned.
  abbrev pub apart : (Context x → Outcome x) → Context x → Context x × (CtrlResult × Option x.Error)
  apart f c = ((f c).0, ((f c).1, (f c).2))
