-- ===== src/Controller/Settled/Fetching.antt =====
-- controllers: what the fetching of one dependency does, apart from what a run only writes.
use addonconfig.Common.Result.{Result, ok, err}
use addonconfig.Common.{
  refl, Bool, Option, none, some, List, [], ◌∷◌, inl, inr, String, Bool-cases, Option-cases,
  Result-cases, ◌&&◌, ltb, length,
}
use addonconfig.Api.Config.{AddonConfig, Dependency, LabelSelector}
use addonconfig.Conditions.Setter.{set, false_condition, mark_false}
use addonconfig.Conditions.Sprintf.{sprintf, quote}
use addonconfig.Controller.External.{External, Fetched, found, not_found, failed}
use addonconfig.Controller.Context.{mark_config_false, Context}
use addonconfig.Controller.Templating.{render, render_selector}
use addonconfig.Controller.Dependencies.{
  TargetConstraints, Fetch, none_listed, choose_listed, use_list, list_selected, use_selector,
  fetch_labeled_dependency, not_fetched, use_named, fetch_named_dependency, fetch_dependency,
}
use addonconfig.Controller.Settled.Writes.{write}
use addonconfig.Controller.Settled.Uniform.{Scratch}
use addonconfig.Controller.Settled.Forms.{quiet}
use addonconfig.Controller.Settled.Selected.{
  Depends, marking_dependency, follow, in_turn, render_selector-Uniform,
}

module _ (x : External) (ac : AddonConfig x.Raw) (v : x.Raw) where
  abbrev Got : Type 0
  Got = Option x.Json × Option x.Error

  abbrev pub fetched : (Context x → Fetch x) → Context x → Context x × Got
  fetched f c = ((f c).0, ((f c).1, (f c).2))

  abbrev pub Fetches : (Context x → Fetch x) → Type 0
  Fetches f = (k : Scratch x ac) → Depends x ac v (fetched f) k

  none_listed-Uniform :
      (c : TargetConstraints) (e : Option x.Error) → Fetches (λ atx. none_listed x atx c e)
  unfolding none_listed write set mark_false false_condition mark_config_false
  none_listed-Uniform c e k = elim (Bool-cases c.optional) [
    | inl optional ↦ quiet x ac _ k v [] (λ s. rw (optional, none_listed) refl)
    | inr needed ↦
        marking_dependency x ac v _ k "DependencyNotFound"
          "Unable to find dependency by using label selectors" []
          (λ s. rw (needed, none_listed) refl)
  ]

  abbrev wrong_constraints : Dependency → TargetConstraints → Bool
  wrong_constraints dep c = ltb 1 (length dep.target.constraints) && c.unique && c.select_first

  choose_listed-Uniform :
      (dep : Dependency) (c : TargetConstraints) (first : x.Json) (others : List x.Json)
      → Fetches (λ atx. choose_listed x atx dep c first others)
  unfolding choose_listed write set mark_false false_condition mark_config_false
  choose_listed-Uniform dep c first others k = elim (Bool-cases (wrong_constraints dep c)) [
    | inl wrong ↦
        marking_dependency x ac v _ k "DependencyConstraintFailed"
          "incorrect set of dependency constraints" [] (λ s. rw (wrong, choose_listed) refl)
    | inr right ↦ elim (Bool-cases (ltb 0 (length others) && c.unique)) [
      | inl many ↦
          marking_dependency x ac v _ k "DependencyUniquenessNotSatisfied"
            "Multiple dependencies found while expecting a single one" []
            (λ s. rw (right, many, choose_listed) refl)
      | inr chosen ↦ quiet x ac _ k v [] (λ s. rw (right, chosen, choose_listed) refl)
    ]
  ]

  use_list-Uniform :
      (dep : Dependency) (c : TargetConstraints) (r : Result x.Error (List x.Json))
      → Fetches (λ atx. use_list x atx dep c r)
  unfolding use_list
  use_list-Uniform dep c (err e) = none_listed-Uniform c (some e)
  use_list-Uniform dep c (ok []) = none_listed-Uniform c none
  use_list-Uniform dep c (ok (first ∷ others)) = choose_listed-Uniform dep c first others

  list_selected-Uniform :
      (dep : Dependency) (c : TargetConstraints) (r : Result x.Error x.Selector)
      → Fetches (λ atx. list_selected x atx dep c r)
  unfolding list_selected
  list_selected-Uniform dep c (err e) k = quiet x ac _ k v [] (λ s. refl)
  list_selected-Uniform dep c (ok selector) k =
      follow x ac v _ _ k k
        (use_list-Uniform dep c
          (x.list_objects dep.target.api_version dep.target.kind selector ac.namespace) k)
        (λ s. refl)

  abbrev Rendering : Type 0
  Rendering = Result (Option x.Error) LabelSelector

  use_selector-Uniform :
      (dep : Dependency) (c : TargetConstraints) (r : Rendering)
      → Fetches (λ atx. use_selector x dep c (atx, r))
  unfolding use_selector
  use_selector-Uniform dep c (err e) k = quiet x ac _ k v [] (λ s. refl)
  use_selector-Uniform dep c (ok l) k = list_selected-Uniform dep c (x.as_selector l) k

  fetch_labeled_dependency-Uniform :
      (dep : Dependency) (l : LabelSelector) (c : TargetConstraints)
      → Fetches (λ atx. fetch_labeled_dependency x atx dep l c)
  unfolding fetch_labeled_dependency
  fetch_labeled_dependency-Uniform dep l c k =
      in_turn x ac v (λ atx. render_selector x atx l)
        (λ r. fetched (λ atx. use_selector x dep c (atx, r))) k (render_selector-Uniform x ac v k l)
        (use_selector-Uniform dep c)

  not_fetched-Uniform :
      (c : TargetConstraints) (name : String) (e : x.Error)
      → Fetches (λ atx. not_fetched x atx c name e)
  unfolding not_fetched write set mark_false false_condition mark_config_false
  not_fetched-Uniform c name e k = elim (Bool-cases c.optional) [
    | inl optional ↦ quiet x ac _ k v [] (λ s. rw (optional, not_fetched) refl)
    | inr needed ↦
        marking_dependency x ac v _ k "DependencyNotFound"
          (sprintf "Unable to find dependency by name %q" (quote name ∷ [])) []
          (λ s. rw (needed, not_fetched) refl)
  ]

  use_named-Uniform :
      (c : TargetConstraints) (name : String) (r : Fetched x.Error x.Json)
      → Fetches (λ atx. use_named x atx c name r)
  unfolding use_named
  use_named-Uniform c name (found obj) k = quiet x ac _ k v [] (λ s. refl)
  use_named-Uniform c name (not_found e) k = not_fetched-Uniform c name e k
  use_named-Uniform c name (failed e) k = not_fetched-Uniform c name e k

  abbrev object_named : Dependency → String → Fetched x.Error x.Json
  object_named dep name = x.get_object dep.target.kind ac.namespace name dep.target.api_version

  abbrev not_templated : Dependency → String
  not_templated dep = sprintf "Failed to template dependency name: %q" (quote dep.target.name ∷ [])

  fetch_named_dependency-Uniform :
      (dep : Dependency) (c : TargetConstraints)
      → Fetches (λ atx. fetch_named_dependency x atx dep c)
  unfolding fetch_named_dependency render write set mark_false false_condition mark_config_false
  fetch_named_dependency-Uniform dep c k = elim (Result-cases (x.parse dep.target.name)) [
    | inr (e, h) ↦
        marking_dependency x ac v _ k "DependencyTemplatingFailed" (not_templated dep) []
          (λ s. rw (h, fetch_named_dependency, render) refl)
    | inl (t, h) ↦ elim (Result-cases (x.execute t k.variables)) [
      | inr (e, h') ↦
          marking_dependency x ac v _ k "DependencyTemplatingFailed" (not_templated dep) []
            (λ s. rw (h, h', fetch_named_dependency, render) refl)
      | inl (name, h') ↦
          follow x ac v _ _ k k (use_named-Uniform c name (object_named dep name) k)
            (λ s. rw (h, h', fetch_named_dependency, render) refl)
    ]
  ]

  pub fetch_dependency-Uniform :
      (dep : Dependency) (c : TargetConstraints) → Fetches (λ atx. fetch_dependency x atx dep c)
  unfolding fetch_dependency
  fetch_dependency-Uniform dep c k = elim (Option-cases dep.target.selector) [
    | inl named ↦
        follow x ac v _ _ k k (fetch_named_dependency-Uniform dep c k)
          (λ s. rw (named, fetch_dependency) refl)
    | inr (l, labelled) ↦
        follow x ac v _ _ k k (fetch_labeled_dependency-Uniform dep l c k)
          (λ s. rw (labelled, fetch_dependency) refl)
  ]
