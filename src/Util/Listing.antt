-- ===== src/Util/Listing.antt =====
-- util/util.go: the AddonConfigs of a definition, and the key of an object.
use addonconfig.Common.Result.{Result, ok, err}
use addonconfig.Common.{String, List, [], ◌∷◌, ◌==◌, if◌then◌else◌}
use addonconfig.Api.Config.{AddonConfig}
use addonconfig.Patching.Platform.{ObjectKey}

module _ {Raw : Type 0} where
  -- `ObjectKey`
  unfoldable pub object_key : AddonConfig Raw → ObjectKey
  object_key object = record { namespace = object.namespace; name = object.name }

  -- The loop over the list.
  unfoldable pub of_definition : String → List (AddonConfig Raw) → List (AddonConfig Raw)
  of_definition name [] = []
  of_definition name (a ∷ items) =
      let rest = of_definition name items in if a.definition_ref == name then a ∷ rest else rest

  -- `GetAddonConfigsByType`, of what `List` of the API client comes to.
  unfoldable pub get_addon_configs_by_type :
      {Error : Type 0}
      → (wrap : Error → String → Error) → Result Error (List (AddonConfig Raw))
      → String
      → Result Error (List (AddonConfig Raw))
  unfolding of_definition
  get_addon_configs_by_type wrap (err e) name = err (wrap e "failed to list AddonConfigs")
  get_addon_configs_by_type wrap (ok items) name = ok (of_definition name items)
