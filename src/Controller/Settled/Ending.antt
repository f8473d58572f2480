-- ===== src/Controller/Settled/Ending.antt =====
-- controllers: what the validation of the values and the storing of the output do, apart from what a
-- run only writes.
use addonconfig.Common.{
  ◌≡◌, refl, ap, ◌∙◌, Option, none, some, List, [], ◌∷◌, ◌==◌, ◌⊎◌, inl, inr, String, Bool-cases,
  Result-cases, arith, List-cases,
}
use addonconfig.Api.Condition.{
  Condition, valid_config_condition, output_resource_updated_condition, severity_error,
}
use addonconfig.Api.Config.{
  AddonConfig, FieldErrors, OutputResource, LocalOutput, RemoteOutput, set_output_ref,
}
use addonconfig.Conditions.Setter.{set, true_condition, false_condition, mark_true, mark_false}
use addonconfig.Controller.External.{External, Documented, OutputObject}
use addonconfig.Controller.Context.{mark_config_true, mark_config_false, Context, Outcome}
use addonconfig.Controller.Schema.{reconcile_schema_validation, report_faults, set_errors}
use addonconfig.Controller.Templating.{render}
use addonconfig.Controller.Output.{
  content_for, stored_ref, store, save_to, choose_output, save_rendered_template, Destination,
  of_local, of_remote,
}
use addonconfig.Controller.Settled.Writes.{
  Write, mark, set_faults, set_output, save, write, write_all, count, tally,
}
use addonconfig.Controller.Settled.Uniform.{Only, dressed, blank, value_of, Scratch, Within, apart}
use addonconfig.Controller.Settled.Forms.{by_writes, marking, quiet, KeepsValues, as_does}

module _ (x : External) (ac : AddonConfig x.Raw) (k : Scratch x ac) (v : x.Raw) where
  -- A validation that returns no error marks nothing.
  abbrev pub Validated : Type 0
  Validated =
      KeepsValues x ac k v (reconcile_schema_validation x) []
      ⊎ ((u : KeepsValues x ac k v (reconcile_schema_validation x) (valid_config_condition ∷ []))
          × (e : x.Error) × (u.value.1 ≡ some e))

  abbrev invalid : Condition
  invalid =
      false_condition valid_config_condition "InvalidConfiguration" severity_error
        "Invalid configuration; see .status.fieldErrors for more information" []

  abbrev faults_and : FieldErrors → List Write
  faults_and f = set_faults f ∷ mark invalid ∷ []

  faults-Within : (f : FieldErrors) → Within x ac (valid_config_condition ∷ []) (faults_and f)
  unfolding count tally false_condition
  faults-Within f t other = omega arith

  none-Within : Within x ac [] (set_faults [] ∷ [])
  unfolding count tally
  none-Within t other = omega arith

  reported :
      (u : KeepsValues x ac k v (reconcile_schema_validation x) (valid_config_condition ∷ []))
      (e : x.Error)
      → (reconcile_schema_validation x (dressed x ac k v (blank x ac))).2 ≡ some e
      → Validated
  reported u e h = inr (
    u,
    e,
    ap (λ r. r.1)
          (value_of x ac (apart x ac (reconcile_schema_validation x)) k v (Only x ac v)
            (valid_config_condition ∷ []) u)
        ∙ h,
  )

  pub reconcile_schema_validation-Uniform : Documented x → Validated
  unfolding reconcile_schema_validation report_faults write_all write set mark_false false_condition
      mark_config_false
  reconcile_schema_validation-Uniform doc = elim (Result-cases (x.new_validator k.validation)) [
    | inr (e, h) ↦ inl (quiet x ac _ k v [] (λ s. rw (h, reconcile_schema_validation) refl))
    | inl (validator, h) ↦ elim (List-cases (x.validate v validator)) [
      | inl clean ↦ inl (
          by_writes x ac _ k v [] (set_faults [] ∷ []) none-Within
            (λ s. rw (h, clean, reconcile_schema_validation, report_faults) refl))
      | inr (e, es, faulty) ↦
          let (w, failed) = doc.faults_error e es in
          reported
            (by_writes x ac _ k v (valid_config_condition ∷ [])
              (faults_and (set_errors x [] (e ∷ es))) (faults-Within (set_errors x [] (e ∷ es)))
              (λ s. rw (h, faulty, reconcile_schema_validation, report_faults) refl))
            w (rw (h, faulty, reconcile_schema_validation, report_faults) failed)
    ]
  ]

  abbrev not_updated : (reason message : String) → Condition
  not_updated reason message =
      false_condition output_resource_updated_condition reason severity_error message []

  abbrev Stores : (Context x → Outcome x) → Type 0
  Stores f = KeepsValues x ac k v f (output_resource_updated_condition ∷ [])

  abbrev object_of : Destination → OutputObject
  object_of d = record {
    api_version = d.api_version;
    kind = d.kind;
    name = d.name;
    namespace = d.namespace;
    content = content_for d.kind k.rendered;
  }

  abbrev stored_writes : OutputResource → Destination → List Write
  stored_writes output d =
      save (object_of d)
      ∷ mark (true_condition output_resource_updated_condition)
      ∷ set_output (
          some (record {
            local_output = (stored_ref output d).0;
            remote_output = (stored_ref output d).1;
          }))
      ∷ []

  stored-Within :
      (output : OutputResource) (d : Destination)
      → Within x ac (output_resource_updated_condition ∷ []) (stored_writes output d)
  unfolding count tally true_condition
  stored-Within output d t other = omega arith

  store-Uniform : (output : OutputResource) (d : Destination) → Stores (λ c. store x c output d)
  unfolding store set_output_ref write_all write set mark_true true_condition mark_config_true
  store-Uniform output d = elim (Result-cases (x.create_or_update (object_of d))) [
    | inl (u, h) ↦
        by_writes x ac _ k v _ (stored_writes output d) (stored-Within output d)
          (λ s. rw (h, store) refl)
    | inr (e, h) ↦
        by_writes x ac _ k v _ (stored_writes output d) (stored-Within output d)
          (λ s. rw (h, store) refl)
  ]

  save_to-Uniform : (output : OutputResource) (d : Destination) → Stores (λ c. save_to x c output d)
  unfolding save_to render write set mark_false false_condition mark_config_false
  save_to-Uniform output d = elim (Bool-cases (d.name == "")) [
    | inl unnamed ↦
        marking x ac _ k v
          (not_updated "OutputResourceUndefined" "No output resource has been defined")
          (λ s. rw (unnamed, save_to) refl)
    | inr named ↦ elim (Result-cases (x.parse d.name)) [
      | inr (e, h) ↦
          marking x ac _ k v (not_updated "NameTemplatingFailed" (x.error_text e))
            (λ s. rw (named, h, save_to, render) refl)
      | inl (t, h) ↦ elim (Result-cases (x.execute t k.variables)) [
        | inr (e, h') ↦
            marking x ac _ k v (not_updated "NameTemplatingFailed" (x.error_text e))
              (λ s. rw (named, h, h', save_to, render) refl)
        | inl (name, h') ↦
            as_does x ac k v _ _ _ (store-Uniform output (record d { name = name }))
              (λ s. rw (named, h, h', save_to, render) refl)
      ]
    ]
  ]

  choose_output-Uniform :
      (output : OutputResource) (l : Option LocalOutput) (r : Option RemoteOutput)
      → Stores (λ c. choose_output x c output l r)
  unfolding write set mark_false false_condition mark_config_false
  choose_output-Uniform output none none =
      marking x ac _ k v
        (not_updated "OutputResourceUndefined" "No output resource has been defined") (λ s. refl)
  choose_output-Uniform output (some l) (some r) =
      marking x ac _ k v
        (not_updated "MultipleOutputResourceDefined" "Multiple output resources has been defined")
        (λ s. refl)
  choose_output-Uniform output (some l) none =
      as_does x ac k v _ _ _ (save_to-Uniform output (of_local ac.namespace l)) (λ s. refl)
  choose_output-Uniform output none (some r) = elim (Bool-cases (r.namespace == "")) [
    | inl unset ↦
        marking x ac _ k v
          (not_updated "RemoteOutputResourceNoNamespaceDefined"
            "No namespace defined for the remote output resource")
          (λ s. rw (unset) refl)
    | inr given ↦
        as_does x ac k v _ _ _ (save_to-Uniform output (of_remote r)) (λ s. rw (given) refl)
  ]

  pub save_rendered_template-Uniform : Stores (save_rendered_template x)
  unfolding save_rendered_template
  save_rendered_template-Uniform =
      as_does x ac k v _ _ _
        (choose_output-Uniform k.definition.output_resource
          k.definition.output_resource.local_output k.definition.output_resource.remote_output)
        (λ s. refl)
