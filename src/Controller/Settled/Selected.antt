-- ===== src/Controller/Settled/Selected.antt =====
-- controllers: what the phase for the dependencies does, apart from what a run only writes.
use addonconfig.Common.{
  inl, inr, ◌||◌, Bool-cases, Result-cases, ◌≡◌, refl, sym, ap, ◌∙◌, List, [], ◌∷◌, String, arith,
}
use addonconfig.Api.Condition.{Condition, valid_dependency_condition, severity_error}
use addonconfig.Api.Config.{LabelSelector, AddonConfig, Requirement}
use addonconfig.Conditions.Setter.{set, mark_false, false_condition}
use addonconfig.Controller.External.{External}
use addonconfig.Controller.Context.{mark_config_false, Context}
use addonconfig.Controller.Templating.{
  render_selector, is_filled, render, render_labels, render_values, render_expressions,
}
use addonconfig.Controller.Settled.Writes.{mark, write, write_all, count, tally, Status}
use addonconfig.Controller.Settled.Uniform.{
  Scratch, dressed, scratch_of, blank, Uniform, Only, along, and_then,
}
use addonconfig.Controller.Settled.Forms.{quiet, by_writes}

module _ (x : External) (ac : AddonConfig x.Raw) (v : x.Raw) where
  -- A function that leaves the values as they are and marks no type but ValidDependency.
  abbrev pub Depends : {B : Type 0} (f : Context x → Context x × B) (k : Scratch x ac) → Type 0
  Depends f k = Uniform x ac f k (Only x ac v) (Only x ac v) []

  abbrev pub dependency_false : (reason format : String) (args : List String) → Condition
  dependency_false reason format args =
      false_condition valid_dependency_condition reason severity_error format args

  pub marking_dependency :
      {B : Type 0} (f : Context x → Context x × B) (k : Scratch x ac) (reason format : String)
      (args : List String)
      → ((s : Status)
          → f (dressed x ac k v s) ≡ (
            dressed x ac
                (scratch_of x ac (f (dressed x ac k v (blank x ac))).0)
                v
                (write x.clock s (mark (dependency_false reason format args))),
            (f (dressed x ac k v (blank x ac))).1,
          ))
      → Depends f k
  unfolding count tally write_all false_condition
  marking_dependency f k reason format args same =
      by_writes x ac f k v [] (mark (dependency_false reason format args) ∷ [])
        (λ t other. rw (other, count) (omega arith)) same

  pub follow :
      {B : Type 0} (f g : Context x → Context x × B) (k l : Scratch x ac)
      → Depends g l
      → ((s : Status) → f (dressed x ac k v s) ≡ g (dressed x ac l v s))
      → Depends f k
  follow f g k l u same =
      along x ac f g k l (Only x ac v) (Only x ac v) []
        (λ u s here.
          ap (λ r. f (dressed x ac k r s)) here
          ∙ same s
          ∙ sym (ap (λ r. g (dressed x ac l r s)) here))
        u

  pub in_turn :
      {A B : Type 0} (f : Context x → Context x × A) (g : A → Context x → Context x × B)
      (k : Scratch x ac)
      → Depends f k
      → ((a : A) (k' : Scratch x ac) → Depends (g a) k')
      → Depends (λ c. g (f c).1 (f c).0) k
  in_turn f g k u later =
      and_then x ac f g k (Only x ac v) (Only x ac v) (Only x ac v) [] [] u (later u.value u.core)

  module _ (k : Scratch x ac) (s : Status) where
    abbrev here : Context x
    here = dressed x ac k v s

    abbrev there : Context x
    there = dressed x ac k v (blank x ac)

    render_labels_same :
        (labels : List (String × String))
        → render_labels x here labels ≡ render_labels x there labels
    unfolding render_labels render
    render_labels_same [] = refl
    render_labels_same ((l, t) ∷ labels) = rw (render_labels_same labels) refl

    render_values_same :
        (values : List String) → render_values x here values ≡ render_values x there values
    unfolding render_values render
    render_values_same [] = refl
    render_values_same (t ∷ values) = rw (render_values_same values) refl

    render_expressions_same :
        (es : List Requirement) → render_expressions x here es ≡ render_expressions x there es
    unfolding render_expressions
    render_expressions_same [] = refl
    render_expressions_same (e ∷ es) =
        rw (render_values_same e.values, render_expressions_same es) refl

  -- A rendering of a selector as what goes wrong in it, or as what it comes to.
  pub render_selector-Uniform :
      (k : Scratch x ac) (l : LabelSelector) → Depends (λ c. render_selector x c l) k
  unfolding render_selector write set mark_false false_condition mark_config_false
  render_selector-Uniform k l =
      elim (Bool-cases (is_filled l.match_labels || is_filled l.match_expressions)) [
        | inr empty ↦ quiet x ac _ k v [] (λ s. rw (empty, render_selector) refl)
        | inl filled ↦ elim (Result-cases (render_labels x (there k (blank x ac)) l.match_labels)) [
          | inr ((e, message), h) ↦
              marking_dependency _ k "DependencyTemplatingFailed"
                "Failed to template dependency label selector" []
                (λ s. rw (filled, render_selector, render_labels_same k s l.match_labels, h) refl)
          | inl (labels, h) ↦
              elim (Result-cases
                (render_expressions x (there k (blank x ac)) l.match_expressions)) [
                  | inr ((e, message), h') ↦
                      marking_dependency _ k "DependencyTemplatingFailed"
                        "Failed to template dependency label selector" []
                        (λ s.
                          rw
                            (
                              filled,
                              render_selector,
                              render_labels_same k s l.match_labels,
                              h,
                              render_expressions_same k s l.match_expressions,
                              h',
                            )
                            refl)
                  | inl (expressions, h') ↦ quiet x ac _ k v [] (λ s.
                      rw
                        (
                          filled,
                          render_selector,
                          render_labels_same k s l.match_labels,
                          h,
                          render_expressions_same k s l.match_expressions,
                          h',
                        )
                        refl)
                ]
        ]
      ]
