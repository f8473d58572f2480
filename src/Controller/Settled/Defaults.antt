-- ===== src/Controller/Settled/Defaults.antt =====
-- controllers: what the phase for the defaults does, apart from what a run only writes.
use addonconfig.Common.Result.{ok}
use addonconfig.Common.{
  ◌≡◌, refl, ap, ◌∙◌, none, [], ◌∷◌, ◌⊎◌, inl, inr, String, Result-cases, arith,
}
use addonconfig.Api.Condition.{Condition, defaulting_complete_condition, severity_error}
use addonconfig.Api.Config.{AddonConfig}
use addonconfig.Conditions.Setter.{set, true_condition, false_condition, mark_true, mark_false}
use addonconfig.Util.Requeue.{no_requeue}
use addonconfig.Controller.External.{External}
use addonconfig.Controller.Context.{mark_config_true, mark_config_false}
use addonconfig.Controller.Schema.{
  reconcile_schema_defaulting, read_values, apply_defaults, encode_defaults, store_defaults,
  defaulting_internal_error,
}
use addonconfig.Controller.Settled.Writes.{mark, write, write_all, count, tally}
use addonconfig.Controller.Settled.Uniform.{Scratch, Uniform, Only, narrow, apart}
use addonconfig.Controller.Settled.Forms.{marking}

-- What the defaulting of stored values relies on. Values that were stored from a JSON text are read
-- back as what was encoded in it, and values that have their defaults are given no others.
pub record Settling (x : External) : Type 0 where
  pub stored :
      (j : x.Json) (text : String) (v : x.Raw)
      → x.encode j ≡ ok text
      → x.unmarshal_raw text ≡ ok v
      → (t : String) × (x.marshal v ≡ ok t) × (x.unmarshal t ≡ ok j)
  pub defaulted :
      (j : x.Json) (ss : x.Structural)
      → x.default_values (x.default_values j ss) ss ≡ x.default_values j ss

module _ (x : External) (ac : AddonConfig x.Raw) (k : Scratch x ac) (v : x.Raw) where
  -- The values before the defaulting, and those that it leaves.
  abbrev pub Either : x.Raw → x.Raw → Type 0
  Either w u = (u ≡ v) ⊎ (u ≡ w)

  Either-same : (u : x.Raw) → Either v u → u ≡ v
  Either-same u (inl h) = h
  Either-same u (inr h) = h

  abbrev pub Defaulting : x.Raw → Type 0
  Defaulting w =
      Uniform x ac (apart x ac (reconcile_schema_defaulting x)) k (Either w) (Only x ac w)
        (defaulting_complete_condition ∷ [])

  abbrev defaulting_false : Condition
  defaulting_false =
      false_condition defaulting_complete_condition "DefaultingInternalError" severity_error
        "Unable to render defaults due to an internal error" []

  unchanged :
      Uniform x ac
        (apart x ac (reconcile_schema_defaulting x))
        k
        (Only x ac v)
        (Only x ac v)
        (defaulting_complete_condition ∷ [])
      → (w : x.Raw) × Defaulting w
  unchanged u = (v, narrow x ac _ k (Either v) (Only x ac v) (Only x ac v) _ Either-same u)

  -- The steps at values that come to be defaulted to `w`.
  DefaultsTo : x.Structural → String → x.Raw → x.Raw → Type 0
  DefaultsTo ss text w u =
      (t : String) × (j : x.Json) × ((x.marshal u ≡ ok t)
        × (x.unmarshal t ≡ ok j)
        × (x.encode (x.default_values j ss) ≡ ok text)
        × (x.unmarshal_raw text ≡ ok w))

  defaulted_to :
      (ss : x.Structural) (text : String) (w : x.Raw)
      → x.new_structural k.validation ≡ ok ss
      → ((u : x.Raw) → Either w u → DefaultsTo ss text w u)
      → Defaulting w
  unfolding reconcile_schema_defaulting read_values apply_defaults encode_defaults store_defaults
      write_all write set mark_true true_condition mark_config_true count tally DefaultsTo
  defaulted_to ss text w structural steps = record {
    core = k;
    value = (no_requeue, none);
    writes = mark (true_condition defaulting_complete_condition) ∷ [];
    within = λ t other. omega arith;
    runs = λ u here s.
        let (t, j, (m, r, e, d)) = steps u here in
        (
          w,
          refl,
          rw
              (
                structural, m, r, e, d, reconcile_schema_defaulting, read_values, apply_defaults,
                encode_defaults, store_defaults,
              )
              refl,
        );
  }

  abbrev Defaulted : Type 0
  Defaulted = (w : x.Raw) × Defaulting w

  store_defaults-Uniform :
      (ss : x.Structural) (t text : String) (j : x.Json)
      → Settling x
      → x.new_structural k.validation ≡ ok ss
      → x.marshal v ≡ ok t
      → x.unmarshal t ≡ ok j
      → x.encode (x.default_values j ss) ≡ ok text
      → Defaulted
  unfolding reconcile_schema_defaulting read_values apply_defaults encode_defaults store_defaults
      defaulting_internal_error write set mark_false false_condition mark_config_false DefaultsTo
  store_defaults-Uniform ss t text j settling st m r e =
      elim (Result-cases (x.unmarshal_raw text)) [
        | inr (fault, h) ↦ unchanged (
            marking x ac _ k v defaulting_false (λ s.
              rw
                (
                  st, m, r, e, h, reconcile_schema_defaulting, read_values, apply_defaults,
                  encode_defaults, store_defaults,
                )
                refl))
        | inl (w, h) ↦
            let (t', m', r') = settling.stored (x.default_values j ss) text w e h in
            (
              w,
              defaulted_to ss text w st (λ u here. elim here [
                | inl before ↦ (t, j, (ap x.marshal before ∙ m, r, e, h))
                | inr after ↦ (
                  t',
                  x.default_values j ss,
                  (ap x.marshal after ∙ m', r', ap x.encode (settling.defaulted j ss) ∙ e, h),
                )
              ]),
            )
      ]

  pub reconcile_schema_defaulting-Uniform : Settling x → Defaulted
  unfolding reconcile_schema_defaulting read_values apply_defaults encode_defaults
      defaulting_internal_error write set mark_false false_condition mark_config_false
  reconcile_schema_defaulting-Uniform settling =
      elim (Result-cases (x.new_structural k.validation)) [
        | inr (fault, h) ↦
            unchanged
              (marking x ac _ k v defaulting_false (λ s. rw (h, reconcile_schema_defaulting) refl))
        | inl (ss, h) ↦ elim (Result-cases (x.marshal v)) [
          | inr (fault, m) ↦ unchanged (
              marking x ac _ k v defaulting_false
                (λ s. rw (h, m, reconcile_schema_defaulting, read_values) refl))
          | inl (t, m) ↦ elim (Result-cases (x.unmarshal t)) [
            | inr (fault, r) ↦ unchanged (
                marking x ac _ k v defaulting_false (λ s.
                  rw (h, m, r, reconcile_schema_defaulting, read_values, apply_defaults) refl))
            | inl (j, r) ↦ elim (Result-cases (x.encode (x.default_values j ss))) [
              | inr (fault, e) ↦ unchanged (
                  marking x ac _ k v defaulting_false (λ s.
                    rw
                      (
                        h, m, r, e, reconcile_schema_defaulting, read_values, apply_defaults,
                        encode_defaults,
                      )
                      refl))
              | inl (text, e) ↦ store_defaults-Uniform ss t text j settling h m r e
            ]
          ]
        ]
      ]
