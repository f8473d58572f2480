-- ===== src/Patching/Focus.antt =====
-- util/patch/utils.go: what a copy has under each key, and what becomes of the object it is made from.
use mathlib.Core.Option
use addonconfig.Common.{
  ◌≡◌, ◌⊎◌, refl, sym, ap, ◌∙◌, subst, String, Bool, true, false, ◌&&◌, Option, none, some, [], ◌∷◌,
  ◌++◌, ◌==◌, ==_iff, if◌then◌else◌, Bool-cases, inl, inr,
}
use addonconfig.Patching.Copies.{
  PatchType, spec_patch, status_patch, key, Fields, find, trimmed, copy_entries, left_behind,
  unsafe_unstructured_copy,
}
use addonconfig.Patching.Entries.{
  is_kept, key-preserved, focused, copied, shared, first_of, first_of-none, find-trimmed, find-keep,
}

module _ (Json : Type 0) (without_field : Json → String → Json) where
  module _ (focus : PatchType) (is_conditions_setter : Bool) where
    module _
        (again : (v : Json)
          → without_field (without_field v "conditions") "conditions"
            ≡ without_field v "conditions") where
      focused_idem :
          (name : String) (v : Json)
          → focused Json without_field focus is_conditions_setter name
              (focused Json without_field focus is_conditions_setter name v)
            ≡ focused Json without_field focus is_conditions_setter name v
      unfolding focused
      focused_idem name v =
          elim (Bool-cases ((is_conditions_setter && focus == status_patch) && name == "status")) [
            | inl status ↦ rw status (again v)
            | inr other ↦ rw other refl
          ]

      -- The entries of the copy so far have been trimmed.
      abbrev IsTrimmed : Option Json → String → Type 0
      IsTrimmed o name =
          o ≡ Option.map (focused Json without_field focus is_conditions_setter name) o

      IsTrimmed-map :
          (o : Option Json) (name : String)
          → IsTrimmed
              (Option.map (focused Json without_field focus is_conditions_setter name) o)
              name
      IsTrimmed-map none name = refl
      IsTrimmed-map (some v) name = ap some (sym (focused_idem name v))

      map-first_of :
          (o e : Option Json) (name : String)
          → IsTrimmed o name
          → Option.map (focused Json without_field focus is_conditions_setter name) (first_of o e)
            ≡ first_of o (Option.map (focused Json without_field focus is_conditions_setter name) e)
      map-first_of none e name h = refl
      map-first_of (some v) e name h = sym h

      find-step :
          (res : Fields Json) (k name : String) (v : Json)
          → IsTrimmed (find Json res name) name
          → find Json
              (trimmed Json without_field focus is_conditions_setter
                (if is_kept focus k then res ++ (k, v) ∷ [] else res))
              name
            ≡ first_of (find Json res name) (
                Option.map
                  (focused Json without_field focus is_conditions_setter name)
                  (if is_kept focus k && k == name then some v else none))
      find-step res k name v h =
          find-trimmed Json without_field focus is_conditions_setter _ name
          ∙ ap (Option.map (focused Json without_field focus is_conditions_setter name))
              (find-keep Json without_field focus is_conditions_setter res k name v)
          ∙ map-first_of (find Json res name) _ name h

      copied-cons :
          (k name : String) (v : Json) (rest : Fields Json) (o : Option Json)
          → first_of
              (first_of o (
                Option.map
                  (focused Json without_field focus is_conditions_setter name)
                  (if is_kept focus k && k == name then some v else none)))
              (copied Json without_field focus is_conditions_setter rest name)
            ≡ first_of o (copied Json without_field focus is_conditions_setter ((k, v) ∷ rest) name)
      unfolding copied find
      copied-cons k name v rest (some u) = refl
      copied-cons k name v rest none = elim (Bool-cases (k == name)) [
        | inl here ↦
            rw (here, (==_iff k name).0 here)
              (elim (Bool-cases (is_kept focus name)) [
                | inl kept ↦ rw kept refl
                | inr left ↦ rw left refl
              ])
        | inr other ↦ rw (other, and_false (is_kept focus k)) refl
      ]
        where
          and_false : (b : Bool) → (b && false) ≡ false
          and_false true = refl
          and_false false = refl

      copied-none :
          (name : String) → copied Json without_field focus is_conditions_setter [] name ≡ none
      unfolding copied find
      copied-none name = elim (Bool-cases (is_kept focus name)) [
        | inl kept ↦ rw kept refl
        | inr left ↦ rw left refl
      ]

      find-copy_entries :
          (fields res : Fields Json) (name : String)
          → key focus ≡ focus
          → IsTrimmed (find Json res name) name
          → find Json (copy_entries Json without_field focus is_conditions_setter res fields) name
            ≡ first_of
                (find Json res name)
                (copied Json without_field focus is_conditions_setter fields name)
      unfolding copy_entries
      find-copy_entries [] res name plain h = sym (
          ap (first_of (find Json res name)) (copied-none name)
          ∙ first_of-none (find Json res name))
      find-copy_entries ((k, v) ∷ rest) res name plain h =
          let res' =
            trimmed Json without_field focus is_conditions_setter
              (if is_kept focus k then res ++ (k, v) ∷ [] else res) in
          ap
            (λ b.
              find Json
                (copy_entries Json without_field focus is_conditions_setter
                  (trimmed Json without_field focus is_conditions_setter
                    (if b then res ++ (k, v) ∷ [] else res))
                  rest)
                name)
            (key-preserved focus k plain)
          ∙ find-copy_entries rest res' name plain (
              subst (λ o. IsTrimmed o name)
                (sym (find-trimmed Json without_field focus is_conditions_setter _ name))
                (IsTrimmed-map _ name))
          ∙ ap (λ o. first_of o (copied Json without_field focus is_conditions_setter rest name))
              (find-step res k name v h)
          ∙ copied-cons k name v rest (find Json res name)

      find-left_behind :
          (res fields : Fields Json) (name : String)
          → find Json (left_behind Json res fields) name
            ≡ Option.map (λ v. Option.get_or (find Json res name) v) (find Json fields name)
      unfolding find left_behind
      find-left_behind res [] name = refl
      find-left_behind res ((k, v) ∷ fields) name = elim (Bool-cases (k == name)) [
        | inl here ↦
            rw here (ap (λ n. some (Option.get_or (find Json res n) v)) ((==_iff k name).0 here))
        | inr other ↦ rw other (find-left_behind res fields name)
      ]

      left-shared :
          (fields : Fields Json) (name : String) (o : Option Json)
          → find Json fields name ≡ o
          → Option.map
              (λ v.
                Option.get_or (copied Json without_field focus is_conditions_setter fields name) v)
              o
            ≡ shared Json without_field focus is_conditions_setter fields name
      unfolding copied shared find
      left-shared fields name none h = elim (Bool-cases (is_kept focus name)) [
        | inl kept ↦ rw (kept, h) refl
        | inr left ↦ rw (left, h) refl
      ]
      left-shared fields name (some v) h = elim (Bool-cases (is_kept focus name)) [
        | inl kept ↦ rw (kept, h) refl
        | inr left ↦ rw (left, h) refl
      ]

      key-focus : (focus ≡ spec_patch) ⊎ (focus ≡ status_patch) → key focus ≡ focus
      unfolding key
      key-focus (inl e) = subst (λ f. key f ≡ f) (sym e) refl
      key-focus (inr e) = subst (λ f. key f ≡ f) (sym e) refl

      -- A copy for a patch of the spec or of the status has the values of the object under that key and
      -- under kind, apiVersion and metadata, and no others; for the patch of the status of an object
      -- with conditions the status is without them, and then it is so in the incoming object too, which
      -- is else unchanged: if to remove the conditions twice is to remove them.
      pub find-unsafe_unstructured_copy :
          (fields : Fields Json) (name : String)
          → (focus ≡ spec_patch) ⊎ (focus ≡ status_patch)
          → (find Json
                (unsafe_unstructured_copy Json without_field fields focus is_conditions_setter).0
                name
              ≡ copied Json without_field focus is_conditions_setter fields name)
            × (find Json
                  (unsafe_unstructured_copy Json without_field fields focus is_conditions_setter).1
                  name
                ≡ shared Json without_field focus is_conditions_setter fields name)
      unfolding unsafe_unstructured_copy find
      find-unsafe_unstructured_copy fields name one =
          let same = find-copy_entries fields [] name (key-focus one) refl in
          (
            same,
            find-left_behind (copy_entries Json without_field focus is_conditions_setter [] fields)
                  fields name
                ∙ ap (λ r. Option.map (λ v. Option.get_or r v) (find Json fields name)) same
                ∙ left-shared fields name (find Json fields name) refl,
          )
