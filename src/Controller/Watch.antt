-- ===== src/Controller/Watch.antt =====
-- controllers/addonconfig_controller.go: which AddonConfigs are reconciled for a change of a definition.
use addonconfig.Common.Result.{Result, ok, err, ok_injective}
use addonconfig.Common.{
  ◌≡◌, refl, sym, ap, ◌∙◌, Bool, ◌&&◌, ◌||◌, String, List, [], ◌∷◌, ◌==◌, any, Bool-cases, inl, inr,
}
use addonconfig.Api.Config.{AddonConfig}
use addonconfig.Conditions.Sprintf.{sprintf}
use addonconfig.Patching.Platform.{ObjectKey}
use addonconfig.Util.Listing.{object_key, of_definition, get_addon_configs_by_type}

-- The object of an event: a definition, by its name, or an object of another type.
pub data Watched : Type 0 where
  definition_named : String → Watched
  other_type : String → Watched

abbrev pub key_eq : ObjectKey → ObjectKey → Bool
key_eq a b = a.namespace == b.namespace && a.name == b.name

module _ {Error Raw : Type 0} (wrap : Error → String → Error) where
  -- The loop over the configs.
  unfoldable pub requests_for : List (AddonConfig Raw) → List ObjectKey
  unfolding object_key
  requests_for [] = []
  requests_for (config ∷ configs) = object_key config ∷ requests_for configs

  abbrev listed : Result Error (List (AddonConfig Raw)) → List ObjectKey
  listed (err e) = []
  listed (ok configs) = requests_for configs

  -- `addonConfigDefinitionToAddonConfig`, of what `List` comes to; a panic is an error.
  unfoldable pub addon_config_definition_to_addon_config :
      Result Error (List (AddonConfig Raw)) → Watched → Result String (List ObjectKey)
  unfolding get_addon_configs_by_type requests_for
  addon_config_definition_to_addon_config items (definition_named name) =
      ok (listed (get_addon_configs_by_type wrap items name))
  addon_config_definition_to_addon_config items (other_type type) =
      err (sprintf "Expected an AddonConfigDefinition but got a %T" (type ∷ []))

  -- Whether a config with the key and of the definition is in a list.
  unfoldable pub is_listed : String → ObjectKey → List (AddonConfig Raw) → Bool
  unfolding object_key
  is_listed name key items = any (λ a. a.definition_ref == name && key_eq (object_key a) key) items

  any-requests_for :
      (name : String) (key : ObjectKey) (items : List (AddonConfig Raw))
      → any (λ k. key_eq k key) (requests_for (of_definition name items)) ≡ is_listed name key items
  unfolding requests_for of_definition is_listed
  any-requests_for name key [] = refl
  any-requests_for name key (a ∷ items) = elim (Bool-cases (a.definition_ref == name)) [
    | inl same ↦
        rw same (ap (λ b. key_eq (object_key a) key || b) (any-requests_for name key items))
    | inr other ↦ rw other (any-requests_for name key items)
  ]

  -- A change of a definition requests a reconciliation for the key of an AddonConfig exactly where one
  -- with that key and a reference to the definition is listed.
  pub addon_config_definition_to_addon_config_lem :
      (items : List (AddonConfig Raw)) (name : String) (key : ObjectKey) (keys : List ObjectKey)
      → addon_config_definition_to_addon_config (ok items) (definition_named name) ≡ ok keys
      → any (λ k. key_eq k key) keys ≡ is_listed name key items
  unfolding addon_config_definition_to_addon_config get_addon_configs_by_type
  addon_config_definition_to_addon_config_lem items name key keys h =
      ap (any (λ k. key_eq k key)) (sym (ok_injective h)) ∙ any-requests_for name key items
