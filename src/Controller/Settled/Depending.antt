-- ===== src/Controller/Settled/Depending.antt =====
-- controllers: what the phase for the dependencies does, apart from what a run only writes.
use addonconfig.Common.{
  ◌≡◌, refl, Option, none, some, List, [], ◌∷◌, ◌==◌, inl, inr, Bool-cases, Option-cases, ◌&&◌,
  is_some, not,
}
use addonconfig.Api.Config.{AddonConfig, Dependency}
use addonconfig.Util.Requeue.{CtrlResult, no_requeue}
use addonconfig.Controller.External.{External}
use addonconfig.Controller.Context.{Context}
use addonconfig.Controller.Dependencies.{
  TargetConstraints, fetch_dependency, record_dependency, reconcile_dependency, reconcile_each,
  reconcile_dependencies, read_constraints, no_constraints,
}
use addonconfig.Controller.Settled.Uniform.{Scratch, dressed, apart}
use addonconfig.Controller.Settled.Forms.{quiet}
use addonconfig.Controller.Settled.Fetching.{fetched, fetch_dependency-Uniform}
use addonconfig.Controller.Settled.Selected.{Depends, follow, in_turn}

module _ (x : External) (ac : AddonConfig x.Raw) (v : x.Raw) where
  record_dependency-Uniform :
      (dep : Dependency) (o : Option x.Json) (e : Option x.Error) (k : Scratch x ac)
      → Depends x ac v (λ atx. record_dependency x dep (atx, o, e)) k
  unfolding record_dependency
  record_dependency-Uniform dep o (some e) k = quiet x ac _ k v [] (λ s. refl)
  record_dependency-Uniform dep none none k = quiet x ac _ k v [] (λ s. refl)
  record_dependency-Uniform dep (some obj) none k = quiet x ac _ k v [] (λ s. refl)

  fetch_and_record-Uniform :
      (dep : Dependency) (c : TargetConstraints) (k : Scratch x ac)
      → Depends x ac v (λ atx. record_dependency x dep (fetch_dependency x atx dep c)) k
  fetch_and_record-Uniform dep c k =
      in_turn x ac v (fetched x ac v (λ atx. fetch_dependency x atx dep c))
        (λ r atx. record_dependency x dep (atx, r.0, r.1)) k
        (fetch_dependency-Uniform x ac v dep c k) (λ r. record_dependency-Uniform dep r.0 r.1)

  reconcile_dependency-Uniform :
      (dep : Dependency) (k : Scratch x ac)
      → Depends x ac v (λ atx. reconcile_dependency x atx dep) k
  unfolding reconcile_dependency
  reconcile_dependency-Uniform dep k =
      elim (Bool-cases (not (dep.target.name == "") && is_some dep.target.selector)) [
        | inl twice ↦ quiet x ac _ k v [] (λ s. rw (twice, reconcile_dependency) refl)
        | inr once ↦ elim (Option-cases (read_constraints dep.target.constraints no_constraints)) [
          | inl wrong ↦ quiet x ac _ k v [] (λ s. rw (once, wrong, reconcile_dependency) refl)
          | inr (c, right) ↦
              follow x ac v _ _ k k (fetch_and_record-Uniform dep c k)
                (λ s. rw (once, right, reconcile_dependency) refl)
        ]
      ]

  -- What follows one round of the loop.
  abbrev go_on :
      List Dependency → Option x.Error → Context x → Context x × (CtrlResult × Option x.Error)
  go_on deps (some e) atx = (atx, (no_requeue, some e))
  go_on deps none atx = apart x ac (reconcile_each x deps) atx

  go_on-Uniform :
      (deps : List Dependency)
      → ((k : Scratch x ac) → Depends x ac v (apart x ac (reconcile_each x deps)) k)
      → (fault : Option x.Error) (k : Scratch x ac) → Depends x ac v (go_on deps fault) k
  go_on-Uniform deps rest (some e) k = quiet x ac _ k v [] (λ s. refl)
  go_on-Uniform deps rest none k = rest k

  each_same :
      (dep : Dependency) (deps : List Dependency) (atx : Context x)
      → apart x ac (reconcile_each x (dep ∷ deps)) atx
        ≡ go_on deps (reconcile_dependency x atx dep).1 (reconcile_dependency x atx dep).0
  unfolding reconcile_each
  each_same dep deps atx = elim (Option-cases (reconcile_dependency x atx dep).1) [
    | inl h ↦ rw (h, reconcile_each) refl
    | inr (e, h) ↦ rw (h, reconcile_each) refl
  ]

  reconcile_each-Uniform :
      (deps : List Dependency) (k : Scratch x ac)
      → Depends x ac v (apart x ac (reconcile_each x deps)) k
  unfolding reconcile_each
  reconcile_each-Uniform [] k = quiet x ac _ k v [] (λ s. refl)
  reconcile_each-Uniform (dep ∷ deps) k =
      follow x ac v _ _ k k
        (in_turn x ac v (λ atx. reconcile_dependency x atx dep) (go_on deps) k
          (reconcile_dependency-Uniform dep k) (go_on-Uniform deps (reconcile_each-Uniform deps)))
        (λ s. each_same dep deps (dressed x ac k v s))

  abbrev no_dependencies : Scratch x ac → Scratch x ac
  no_dependencies k = record k { variables = record (k.variables) { dependencies = [] } }

  pub reconcile_dependencies-Uniform :
      (k : Scratch x ac) → Depends x ac v (apart x ac (reconcile_dependencies x)) k
  unfolding reconcile_dependencies
  reconcile_dependencies-Uniform k =
      follow x ac v _ _ k (no_dependencies k)
        (reconcile_each-Uniform k.definition.dependencies (no_dependencies k)) (λ s. refl)
