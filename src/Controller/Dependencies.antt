-- ===== src/Controller/Dependencies.antt =====
-- controllers/addonconfig_controller_phases.go: the objects that a definition depends on.
use addonconfig.Common.Result.{Result, ok, err}
use addonconfig.Common.{
  String, Bool, true, false, not, ◌&&◌, Option, none, some, List, [], ◌∷◌, ◌==◌, ltb, length,
  is_some, if◌then◌else◌,
}
use addonconfig.Api.Condition.{valid_dependency_condition}
use addonconfig.Api.Config.{LabelSelector, Dependency}
use addonconfig.Conditions.Sprintf.{sprintf, quote}
use addonconfig.Controller.External.{External, Fetched, found, not_found, failed}
use addonconfig.Controller.Context.{Context, Outcome, Phase, mark_config_false, done, return_error}
use addonconfig.Controller.Templating.{render, render_selector}

pub record TargetConstraints : Type 0 where
  pub unique : Bool
  pub select_first : Bool
  pub optional : Bool

-- `var constraints targetConstraints`
abbrev pub no_constraints : TargetConstraints
no_constraints = record { unique = false; select_first = false; optional = false }

-- The switch over the operators of a target's constraints, in their loop; an operator that is none of
-- the three ends it with an error.
unfoldable pub read_constraints : List String → TargetConstraints → Option TargetConstraints
read_constraints [] c = some c
read_constraints (operator ∷ rest) c =
    let unique = read_constraints rest (record c { unique = true }) in
    let select_first = read_constraints rest (record c { select_first = true }) in
    let optional = read_constraints rest (record c { optional = true }) in
    if operator == "unique"
    then unique
    else if operator == "selectFirst"
    then select_first
    else if operator == "optional"
    then optional
    else none

-- The map entry of a name, new or replaced.
unfoldable pub put {ℓ} : {A : Type ℓ} → String → A → List (String × A) → List (String × A)
put k v [] = (k, v) ∷ []
put k v ((j, w) ∷ m) = if j == k then (k, v) ∷ m else (j, w) ∷ put k v m

module _ (x : External) where
  open x use {Error, Json, Selector, wrap, new_error, get_object, list_objects, as_selector}

  -- `(*unstructured.Unstructured, error)`, either of which may be nil.
  abbrev pub Fetch : Type 0
  Fetch = Context x × Option Json × Option Error

  abbrev nothing : Context x → Option Error → Fetch
  nothing atx e = (atx, none, e)

  abbrev invalid_dependency : Context x → (reason message_format : String) → List String → Context x
  invalid_dependency atx reason message_format message_args =
      mark_config_false x atx valid_dependency_condition reason message_format message_args

  -- The branch for no object: `e` is the error of the request, nil where it found none.
  unfoldable pub none_listed : Context x → TargetConstraints → Option Error → Fetch
  none_listed atx constraints e =
      if constraints.optional
      then nothing atx none
      else nothing
          (invalid_dependency atx "DependencyNotFound"
            "Unable to find dependency by using label selectors" [])
          (wrap e "unable to find any dependency matching the specified selector")

  -- What follows a request that found objects, `first` before the others.
  unfoldable pub choose_listed :
      Context x → Dependency → TargetConstraints → Json → List Json → Fetch
  choose_listed atx dep constraints first others =
      if ltb 1 (length dep.target.constraints) && constraints.unique && constraints.select_first
      then nothing
          (invalid_dependency atx "DependencyConstraintFailed"
            "incorrect set of dependency constraints" [])
          (wrap none "incorrect set of dependency constraints")
      else if ltb 0 (length others) && constraints.unique
      then nothing
          (invalid_dependency atx "DependencyUniquenessNotSatisfied"
            "Multiple dependencies found while expecting a single one" [])
          (some (new_error "multiple dependency resources matched the label selector"))
      else (atx, some first, none)

  unfoldable pub use_list :
      Context x → Dependency → TargetConstraints → Result Error (List Json) → Fetch
  unfolding none_listed choose_listed
  use_list atx dep constraints (err e) = none_listed atx constraints (some e)
  use_list atx dep constraints (ok []) = none_listed atx constraints none
  use_list atx dep constraints (ok (first ∷ others)) =
      choose_listed atx dep constraints first others

  unfoldable pub list_selected :
      Context x → Dependency → TargetConstraints → Result Error Selector → Fetch
  unfolding use_list
  list_selected atx dep constraints (err e) =
      nothing atx (wrap (some e) "unable to convert rendered LabelSelector into Selector")
  list_selected atx dep constraints (ok selector) =
      use_list atx dep constraints
        (list_objects dep.target.api_version dep.target.kind selector atx.addon_config.namespace)

  -- What follows the rendering of the selector; its error is not nil.
  unfoldable pub use_selector :
      Dependency → TargetConstraints → Context x × Result (Option Error) LabelSelector → Fetch
  unfolding list_selected
  use_selector dep constraints (atx, err e) =
      nothing atx (wrap e "unable to render target selector")
  use_selector dep constraints (atx, ok ls) = list_selected atx dep constraints (as_selector ls)

  unfoldable pub fetch_labeled_dependency :
      Context x → Dependency → LabelSelector → TargetConstraints → Fetch
  unfolding use_selector render_selector
  fetch_labeled_dependency atx dep selector constraints =
      use_selector dep constraints (render_selector x atx selector)

  -- The branch for an object that could not be fetched.
  unfoldable pub not_fetched : Context x → TargetConstraints → (name : String) → Error → Fetch
  not_fetched atx constraints name e =
      if constraints.optional
      then nothing atx none
      else nothing
          (invalid_dependency atx "DependencyNotFound"
            (sprintf "Unable to find dependency by name %q" (quote name ∷ [])) [])
          (wrap (some e)
            (sprintf "unable to find object %s/%s" (atx.addon_config.namespace ∷ name ∷ [])))

  unfoldable pub use_named :
      Context x → TargetConstraints → (name : String) → Fetched Error Json → Fetch
  unfolding not_fetched
  use_named atx constraints name (found obj) = (atx, some obj, none)
  use_named atx constraints name (not_found e) = not_fetched atx constraints name e
  use_named atx constraints name (failed e) = not_fetched atx constraints name e

  unfoldable pub fetch_named_dependency : Context x → Dependency → TargetConstraints → Fetch
  unfolding render use_named
  fetch_named_dependency atx dep constraints =
      elim (render x atx dep.target.name "Target name could not be parsed"
        "Rendering template failed") [
          | err (e, message) ↦
              nothing
                (invalid_dependency atx "DependencyTemplatingFailed"
                  (sprintf "Failed to template dependency name: %q" (quote dep.target.name ∷ []))
                  [])
                (wrap (some e) message)
          | ok name ↦
              use_named atx constraints name
                (get_object dep.target.kind atx.addon_config.namespace name dep.target.api_version)
        ]

  -- The call of one of the two, by whether the target has a selector.
  unfoldable pub fetch_dependency : Context x → Dependency → TargetConstraints → Fetch
  unfolding fetch_labeled_dependency fetch_named_dependency
  fetch_dependency atx dep constraints = elim dep.target.selector [
    | some selector ↦ fetch_labeled_dependency atx dep selector constraints
    | none ↦ fetch_named_dependency atx dep constraints
  ]

  abbrev pub set_dependencies : Context x → List (String × Json) → Context x
  set_dependencies atx deps = record atx {
    template_variables = record (atx.template_variables) { dependencies = deps };
  }

  -- The end of one round of the loop: an error to return, or the context to go on with.
  unfoldable pub record_dependency : Dependency → Fetch → Context x × Option Error
  unfolding put
  record_dependency dep (atx, obj, some e) = (atx, some e)
  record_dependency dep (atx, none, none) = (atx, none)
  record_dependency dep (atx, some obj, none) =
      (set_dependencies atx (put dep.name obj atx.template_variables.dependencies), none)

  -- The body of the loop over the dependencies.
  unfoldable pub reconcile_dependency : Context x → Dependency → Context x × Option Error
  unfolding read_constraints fetch_dependency record_dependency
  reconcile_dependency atx dep =
      if not (dep.target.name == "") && is_some dep.target.selector
      then (atx, some (new_error "Dependency target has both name and a label selector"))
      else elim (read_constraints dep.target.constraints no_constraints) [
        | none ↦ (
          atx,
          some (
              new_error
                "invalid dependency constraint operator used. Only 'unique' and 'selectFirst' allowed"),
        )
        | some constraints ↦ record_dependency dep (fetch_dependency atx dep constraints)
      ]

  unfoldable pub reconcile_each : List Dependency → Context x → Outcome x
  unfolding reconcile_dependency
  reconcile_each [] atx = done x atx
  reconcile_each (dep ∷ deps) atx =
      let (atx', fault) = reconcile_dependency atx dep in
      elim fault [ some e ↦ return_error x atx' (some e) | none ↦ reconcile_each deps atx' ]

  unfoldable pub reconcile_dependencies : Phase x
  unfolding reconcile_each
  reconcile_dependencies atx =
      reconcile_each atx.addon_config_definition.dependencies (set_dependencies atx [])
