-- ===== src/Controller/Templating.antt =====
-- controllers/addonconfig_controller_phases.go: the rendering of label selectors and of the template.
use addonconfig.Common.Result.{Result, ok, err}
use addonconfig.Common.{
  String, Bool, true, false, Option, none, some, List, [], ◌∷◌, ◌||◌, ◌==◌, ltb, not, if◌then◌else◌,
}
use addonconfig.Api.Condition.{valid_dependency_condition, valid_template_condition}
use addonconfig.Api.Config.{Requirement, LabelSelector}
use addonconfig.Controller.External.{External}
use addonconfig.Controller.Context.{
  Context, Outcome, Phase, mark_config_true, mark_config_false, done, return_error,
}

-- Where the range of a `for` loop is not empty.
abbrev pub is_filled {ℓ} : {A : Type ℓ} → List A → Bool
is_filled [] = false
is_filled (a ∷ rest) = true

module _ (x : External) where
  open x use {
    Error, Json, Template, wrap, error_text, parse, parse_with_functions, template_count, execute,
    is_exec_error,
  }

  -- `template.New("").Parse(text)` and `Execute` with the variables; the error comes with the message
  -- that it is wrapped in, which tells the two steps apart.
  unfoldable pub render :
      Context x → String → (parse_message execute_message : String) → Result (Error × String) String
  render atx text parse_message execute_message = elim (parse text) [
    | err e ↦ err (e, parse_message)
    | ok t ↦ elim (execute t atx.template_variables) [
      | err e ↦ err (e, execute_message)
      | ok out ↦ ok out
    ]
  ]

  abbrev pub Rendered : Type 0 → Type 0
  Rendered A = Result (Error × String) A

  abbrev bind : {A B : Type 0} → Rendered A → (A → Rendered B) → Rendered B
  bind (err e) f = err e
  bind (ok a) f = f a

  -- The loop over the labels.
  unfoldable pub render_labels :
      Context x → List (String × String) → Rendered (List (String × String))
  unfolding render
  render_labels atx [] = ok []
  render_labels atx ((k, v) ∷ labels) =
      bind (render atx v "Target label selector could not be parsed" "Rendering template failed")
        (λ out. bind (render_labels atx labels) (λ rest. ok ((k, out) ∷ rest)))

  -- The inner loop over the values of one expression.
  unfoldable pub render_values : Context x → List String → Rendered (List String)
  unfolding render
  render_values atx [] = ok []
  render_values atx (v ∷ values) =
      bind
        (render atx v "Target label expression's value could not be parsed"
          "Rendering template failed")
        (λ out. bind (render_values atx values) (λ rest. ok (out ∷ rest)))

  -- The loop over the expressions. The source writes the rendered values into the slice that the
  -- definition in the context shares; each dependency is visited once, so no one reads them again.
  unfoldable pub render_expressions : Context x → List Requirement → Rendered (List Requirement)
  unfolding render_values
  render_expressions atx [] = ok []
  render_expressions atx (e ∷ es) = bind (render_values atx e.values) (λ values.
      bind (render_expressions atx es) (λ rest. ok (record e { values = values } ∷ rest)))

  abbrev both :
      Rendered (List (String × String)) → Rendered (List Requirement) → Rendered LabelSelector
  both labels expressions =
      bind labels
        (λ l. bind expressions (λ e. ok (record { match_labels = l; match_expressions = e })))

  abbrev marked :
      Context x → Rendered LabelSelector → Context x × Result (Option Error) LabelSelector
  marked atx (ok ls) = (atx, ok ls)
  marked atx (err (e, message)) = (
    mark_config_false x atx valid_dependency_condition "DependencyTemplatingFailed"
        "Failed to template dependency label selector" [],
    err (wrap (some e) message),
  )

  -- `renderSelector`: the selector, or the error in place of it.
  unfoldable pub render_selector :
      Context x → LabelSelector → Context x × Result (Option Error) LabelSelector
  unfolding render_labels render_expressions
  render_selector atx selector =
      if is_filled selector.match_labels || is_filled selector.match_expressions
      then marked atx (
          both (render_labels atx selector.match_labels)
            (render_expressions atx selector.match_expressions))
      else (atx, ok (record { match_labels = []; match_expressions = [] }))

  abbrev invalid_template : Context x → String → Context x
  invalid_template atx message =
      mark_config_false x atx valid_template_condition "InvalidTemplate" message []

  -- What follows the execution of the template.
  unfoldable pub use_rendered : Context x → Result Error String → Outcome x
  use_rendered atx (err e) =
      if is_exec_error e
      then return_error x
          (mark_config_false x atx valid_template_condition "FailedRendering" (error_text e) [])
          (wrap (some e) "Unable to render the template")
      else return_error x
          (mark_config_false x atx valid_template_condition "FailedWritingRenderedTemplate"
            "Unable to write the rendered template into bytes" [])
          (wrap (some e) "Unable to write the rendered template into bytes")
  use_rendered atx (ok out) =
      done x (mark_config_true x (record atx { rendered_template = out }) valid_template_condition)

  -- What follows the parsing. Where there are templates inside it, the error that is wrapped is the
  -- nil that the parsing returned.
  unfoldable pub use_template : Context x → Result Error Template → Outcome x
  unfolding use_rendered
  use_template atx (err e) =
      return_error x (invalid_template atx "Unable to parse the template")
        (wrap (some e) "Unable to parse the template")
  use_template atx (ok t) =
      if ltb 1 (template_count t)
      then return_error x (invalid_template atx "Unable to define nested templates in the template")
          (wrap none "Template does not support sub-templates")
      else use_rendered atx (execute t atx.template_variables)

  unfoldable pub reconcile_template : Phase x
  unfolding use_template
  reconcile_template atx =
      if not (atx.addon_config_definition.template == "")
      then use_template atx (parse_with_functions atx.addon_config_definition.template)
      else done x (mark_config_true x atx valid_template_condition)
