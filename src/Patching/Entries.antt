-- ===== src/Patching/Entries.antt =====
-- util/patch/utils.go: what a copy is to have under each key, and the steps of its making.
use mathlib.Core.Option
use addonconfig.Common.{
  ◌≡◌, refl, sym, ap, ◌∙◌, String, Bool, true, false, ◌&&◌, ◌||◌, Option, none, some, [], ◌∷◌, ◌++◌,
  ◌==◌, ==_iff, if◌then◌else◌, Bool-cases, inl, inr,
}
use addonconfig.Patching.Copies.{
  PatchType, status_patch, key, preserved, Fields, find, remove_conditions, trimmed,
}

-- The keys that a copy is to have: those of every object, and that of its focus.
unfoldable pub is_kept : PatchType → String → Bool
is_kept focus name = name == "kind" || name == "apiVersion" || name == "metadata" || name == focus

-- The test of the loop, for a focus without a point.
pub key-preserved :
    (focus : PatchType) (name : String)
    → key focus ≡ focus
    → (name == key focus || preserved name) ≡ is_kept focus name
unfolding preserved is_kept
key-preserved focus name plain =
    rw plain
      (last_first (name == focus) (name == "kind" || name == "apiVersion" || name == "metadata"))
  where
    last_first : (a b : Bool) → (a || b) ≡ (b || a)
    last_first true true = refl
    last_first true false = refl
    last_first false true = refl
    last_first false false = refl

abbrev pub first_of {ℓ} : {A : Type ℓ} → Option A → Option A → Option A
first_of none o = o
first_of (some v) o = some v

pub first_of-none {ℓ} : {A : Type ℓ} (o : Option A) → first_of o none ≡ o
first_of-none none = refl
first_of-none (some v) = refl

module _ (Json : Type 0) (without_field : Json → String → Json) where
  -- The value that a copy is to have for one of the object: the status of an object with conditions is
  -- copied for its patch without them.
  unfoldable pub focused : PatchType → Bool → String → Json → Json
  focused focus is_conditions_setter name v =
      if (is_conditions_setter && focus == status_patch) && name == "status"
      then without_field v "conditions"
      else v

  unfoldable pub copied : PatchType → Bool → Fields Json → String → Option Json
  unfolding is_kept focused find
  copied focus is_conditions_setter fields name =
      if is_kept focus name
      then Option.map (focused focus is_conditions_setter name) (find Json fields name)
      else none

  -- What the incoming object has afterwards: a value that the copy shares is the copy's.
  unfoldable pub shared : PatchType → Bool → Fields Json → String → Option Json
  unfolding copied find
  shared focus is_conditions_setter fields name =
      if is_kept focus name
      then copied focus is_conditions_setter fields name
      else find Json fields name

  pub find-append :
      (fields : Fields Json) (k name : String) (v : Json)
      → find Json (fields ++ (k, v) ∷ []) name
        ≡ first_of (find Json fields name) (if k == name then some v else none)
  unfolding find
  find-append [] k name v = refl
  find-append ((j, u) ∷ fields) k name v = elim (Bool-cases (j == name)) [
    | inl here ↦ rw here refl
    | inr other ↦ rw other (find-append fields k name v)
  ]

  find-remove_conditions :
      (fields : Fields Json) (name : String)
      → find Json (remove_conditions Json without_field fields) name
        ≡ Option.map
            (λ v. if name == "status" then without_field v "conditions" else v)
            (find Json fields name)
  unfolding find remove_conditions
  find-remove_conditions [] name = refl
  find-remove_conditions ((k, v) ∷ fields) name = elim (Bool-cases (k == name)) [
    | inl here ↦ rw here (
        ap (λ n. some (if n == "status" then without_field v "conditions" else v))
          ((==_iff k name).0 here))
    | inr other ↦ rw other (find-remove_conditions fields name)
  ]

  module _ (focus : PatchType) (is_conditions_setter : Bool) where
    pub find-trimmed :
        (fields : Fields Json) (name : String)
        → find Json (trimmed Json without_field focus is_conditions_setter fields) name
          ≡ Option.map (focused focus is_conditions_setter name) (find Json fields name)
    unfolding trimmed focused
    find-trimmed fields name = elim (Bool-cases (is_conditions_setter && focus == status_patch)) [
      | inl status ↦
          rw status (find-remove_conditions fields name ∙ map_status (find Json fields name) status)
      | inr other ↦ rw other (map_same (find Json fields name) other)
    ]
      where
        map_status :
            (o : Option Json)
            → (is_conditions_setter && focus == status_patch) ≡ true
            → Option.map (λ v. if name == "status" then without_field v "conditions" else v) o
              ≡ Option.map (focused focus is_conditions_setter name) o
        map_status none h = refl
        map_status (some v) h = rw h refl

        map_same :
            (o : Option Json)
            → (is_conditions_setter && focus == status_patch) ≡ false
            → o ≡ Option.map (focused focus is_conditions_setter name) o
        map_same none h = refl
        map_same (some v) h = rw h refl

    pub find-keep :
        (res : Fields Json) (k name : String) (v : Json)
        → find Json (if is_kept focus k then res ++ (k, v) ∷ [] else res) name
          ≡ first_of (find Json res name) (if is_kept focus k && k == name then some v else none)
    find-keep res k name v = elim (Bool-cases (is_kept focus k)) [
      | inl kept ↦ rw kept (find-append res k name v)
      | inr left ↦ rw left (sym (first_of-none (find Json res name)))
    ]
