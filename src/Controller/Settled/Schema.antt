-- ===== src/Controller/Settled/Schema.antt =====
-- controllers: what the phase for the schema does, apart from what a run only writes.
use addonconfig.Common.{
  refl, Option, none, some, List, [], ◌∷◌, inl, inr, String, Option-cases, Result-cases, arith,
}
use addonconfig.Api.Condition.{Condition, valid_schema_condition, severity_error}
use addonconfig.Api.Config.{AddonConfig, AddonConfigDefinition}
use addonconfig.Conditions.Setter.{set, true_condition, false_condition, mark_true, mark_false}
use addonconfig.Conditions.Sprintf.{quote}
use addonconfig.Controller.External.{External, Fetched-cases}
use addonconfig.Controller.Context.{mark_config_true, mark_config_false}
use addonconfig.Controller.Schema.{reconcile_schema, use_definition, convert_schema}
use addonconfig.Controller.Settled.Writes.{Write, mark, set_uid, write, write_all, count, tally}
use addonconfig.Controller.Settled.Uniform.{Unread, along_anyhow, Scratch, Within, apart}
use addonconfig.Controller.Settled.Forms.{by_writes_anyhow}

module _ (x : External) (ac : AddonConfig x.Raw) (k : Scratch x ac) (v : x.Raw) where
  abbrev schema_false : (reason format : String) (args : List String) → Condition
  schema_false reason format args =
      false_condition valid_schema_condition reason severity_error format args

  abbrev uid_and : Option String → Condition → List Write
  uid_and u c = set_uid u ∷ mark c ∷ []

  uid-Within : (u : Option String) (c : Condition) → Within x ac (c.type ∷ []) (uid_and u c)
  unfolding count tally
  uid-Within u c t other = omega arith

  use_definition-Unread :
      (d : AddonConfigDefinition x.Schema)
      → Unread x ac (apart x ac (λ c. use_definition x c d)) k (valid_schema_condition ∷ [])
  unfolding use_definition convert_schema write_all write set mark_true mark_false true_condition
      false_condition mark_config_true mark_config_false
  use_definition-Unread d = elim (Option-cases d.schema) [
    | inl undefined ↦
        by_writes_anyhow x ac _ k v _
          (uid_and (some d.uid) (schema_false "InvalidSchema" "Schema is undefined" []))
          (uid-Within _ _) (λ u s. rw (undefined, use_definition) refl)
    | inr (schema, h) ↦ elim (Result-cases (x.convert schema)) [
      | inl (internal, h') ↦
          by_writes_anyhow x ac _ k v _
            (uid_and (some d.uid) (true_condition valid_schema_condition)) (uid-Within _ _)
            (λ u s. rw (h, h', use_definition, convert_schema) refl)
      | inr (e, h') ↦
          by_writes_anyhow x ac _ k v _
            (uid_and (some d.uid) (schema_false "InvalidSchema" "Schema is invalid" []))
            (uid-Within _ _) (λ u s. rw (h, h', use_definition, convert_schema) refl)
    ]
  ]

  pub reconcile_schema-Unread :
      Unread x ac (apart x ac (reconcile_schema x)) k (valid_schema_condition ∷ [])
  unfolding reconcile_schema write_all write set mark_false false_condition mark_config_false
  reconcile_schema-Unread = elim (Fetched-cases (x.get_definition ac.definition_ref)) [
    | inl (d, h) ↦
        along_anyhow x ac (apart x ac (reconcile_schema x)) (apart x ac (λ c. use_definition x c d))
          k _ (λ u s. rw (h, reconcile_schema) refl) (use_definition-Unread d)
    | inr (inl (e, h)) ↦
        by_writes_anyhow x ac _ k v _
          (uid_and none (
            schema_false "SchemaNotFound" "Unable to find AddonConfigDefinition by name %q"
              (quote ac.definition_ref ∷ [])))
          (uid-Within _ _) (λ u s. rw (h, reconcile_schema) refl)
    | inr (inr (e, h)) ↦
        along_anyhow x ac (apart x ac (reconcile_schema x))
          (apart x ac (λ c. use_definition x c k.definition)) k _
          (λ u s. rw (h, reconcile_schema) refl) (use_definition-Unread k.definition)
  ]
