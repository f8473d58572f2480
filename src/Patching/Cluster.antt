-- ===== src/Patching/Cluster.antt =====
-- A cluster with one AddonConfig, to which other clients still make some changes.
use addonconfig.Common.Result.{Result, ok, err, err_not_ok, ok_injective}
use addonconfig.Common.{
  ◌≡◌, ◌⊎◌, ◌<◌, inl, inr, refl, sym, ap, ap₂, ℕ, zero, suc, ◌*◌, String, Bool, true, false, Option,
  none, some, List, [], ◌∷◌, ◌==◌, if◌then◌else◌, Bool-cases, arith, All, some_not_none,
}
use addonconfig.Api.Condition.{Conditions}
use addonconfig.Api.Config.{AddonConfig, config_conditions, with_config_conditions}
use addonconfig.Conditions.Setter.{mark_true}
use addonconfig.Conditions.Unopposed.{deep_equal_lem}
use addonconfig.Conditions.Patch.{deep_equal}
use addonconfig.Conditions.Ownership.{deep_equal_refl}
use addonconfig.Patching.Platform.{Platform}
use addonconfig.Patching.Laws.{Retries, Locking, Aggregates, Observing, Contended}

-- The object on the server, and how many changes other clients have still to make.
pub record Store : Type 0 where
  pub object : AddonConfig String
  pub rivals : ℕ

unfoldable conditions_eq : Conditions → Conditions → Bool
unfolding deep_equal
conditions_eq [] [] = true
conditions_eq [] (d ∷ ds) = false
conditions_eq (c ∷ cs) [] = false
conditions_eq (c ∷ cs) (d ∷ ds) =
    let rest = conditions_eq cs ds in if deep_equal c d then rest else false

conditions_eq_lem : (cs ds : Conditions) → conditions_eq cs ds ≡ true → cs ≡ ds
unfolding conditions_eq
conditions_eq_lem [] [] h = refl
conditions_eq_lem [] (d ∷ ds) h = cc
conditions_eq_lem (c ∷ cs) [] h = cc
conditions_eq_lem (c ∷ cs) (d ∷ ds) h = elim (Bool-cases (deep_equal c d)) [
  | inl same ↦
      ap₂ (λ e es. e ∷ es) (deep_equal_lem c d same) (conditions_eq_lem cs ds (rw same at h))
  | inr other ↦ let f : false ≡ true = rw other at h in cc
]

conditions_eq_refl : (cs : Conditions) → conditions_eq cs cs ≡ true
unfolding conditions_eq
conditions_eq_refl [] = refl
conditions_eq_refl (c ∷ cs) = rw (deep_equal_refl c) (conditions_eq_refl cs)

-- Another client sets a condition of its own.
abbrev rival_change : Store → ℕ → Store
rival_change s n = record {
  object =
      with_config_conditions s.object (mark_true (n * 1_000_000_000) s.object.conditions "Rival");
  rivals = n;
}

unfoldable pub patch_locked_in :
    ℕ → Store → AddonConfig String → AddonConfig String → Store × Result String (Unit {0})
unfolding conditions_eq mark_true
patch_locked_in zero s before after =
    if conditions_eq s.object.conditions before.conditions
    then (record s { object = with_config_conditions s.object after.conditions }, ok tt)
    else (s, err "conflict")
patch_locked_in (suc n) s before after = (rival_change s n, err "conflict")

abbrev next_round :
    {S : Type 0} → (S → S × Option String) → S × Result String Bool → S × Option String
next_round rest (s, err e) = (s, some e)
next_round rest (s, ok true) = (s, none)
next_round rest (s, ok false) = rest s

unfoldable pub rounds : {S : Type 0} → ℕ → (S → S × Result String Bool) → S → S × Option String
rounds zero f s = (s, some "timeout")
rounds (suc n) f s = next_round (rounds n f) (f s)

unfoldable pub first_error : List (Option String) → Option String
first_error [] = none
first_error (none ∷ es) = first_error es
first_error (some e ∷ es) = some e

-- The key that a change of the conditions is under, or the empty text.
unfoldable pub merge_patch : Conditions → Conditions → String
unfolding conditions_eq
merge_patch before after = if conditions_eq before after then "" else "status"

abbrev pub cluster : Platform String (AddonConfig String)
cluster = record {
  State = Store;
  Json = String;
  new_error = λ message. message;
  wrap = λ e message. message;
  patch_error = λ e. "patch conflict";
  aggregate = first_error;
  clock = λ round operation. round * 1_000_000_000;
  gvk_text = λ gvk. gvk.kind;
  gvk_for_object =
      λ ac. ok (record { group = "addon.tvs.io"; version = "v1alpha1"; kind = "AddonConfig" });
  is_setter = λ ac. true;
  get_conditions = config_conditions;
  set_conditions = with_config_conditions;
  key_of = λ ac. record { namespace = ac.namespace; name = ac.name };
  to_unstructured = λ ac. ok (("metadata", ac.name) ∷ ("status", "conditions") ∷ []);
  from_unstructured = λ fields ac. ok ac;
  get_generation = λ fields. "1";
  set_nested_field = λ fields v path. ok fields;
  without_field = λ v name. "";
  merge_data = λ before after. ok (merge_patch before.conditions after.conditions);
  unmarshal_map = λ text. ok (if text == "" then [] else (text, "") ∷ []);
  get = λ s key. (s, ok s.object);
  patch_locked = λ s before after. patch_locked_in s.rivals s before after;
  patch = λ s before after. (s, none);
  patch_status = λ s before after. (s, none);
  is_conflict = λ e. e == "conflict";
  timeout = "timeout";
  exponential_backoff = λ S b f s. rounds b.steps f s;
}

pub cluster-Retries : (S : Type 0) → Retries cluster S
unfolding rounds
cluster-Retries S = record {
  no_steps = λ b f s. refl;
  finished = λ b n f s s' h. ap (next_round (rounds n f)) h;
  again = λ b n f s s' h. ap (next_round (rounds n f)) h;
  given_up = λ b n f s s' e h. ap (next_round (rounds n f)) h;
}

abbrev pub stored : Store → Conditions
stored s = s.object.conditions

patched-locked :
    (n : ℕ) (s s' : Store) (before after : AddonConfig String)
    → patch_locked_in n s before after ≡ (s', ok tt)
    → (stored s ≡ before.conditions) × (stored s' ≡ after.conditions)
unfolding patch_locked_in
patched-locked (suc n) s s' before after h = absurd (err_not_ok (ap (λ r. r.1) h))
patched-locked zero s s' before after h =
    elim (Bool-cases (conditions_eq s.object.conditions before.conditions)) [
      | inl same ↦ (
        conditions_eq_lem s.object.conditions before.conditions same,
        sym (ap (λ r. stored r.0) (rw same at h)),
      )
      | inr other ↦ absurd (err_not_ok (ap (λ r. r.1) (rw other at h)))
    ]

pub cluster-Locking : Locking cluster stored
cluster-Locking = record {
  get_conditions-set = λ ac cs. refl;
  locked = λ s s' before after h. patched-locked s.rivals s s' before after h;
}

first_error-none : (es : List (Option String)) → All (λ e. e ≡ none) es → first_error es ≡ none
unfolding first_error
first_error-none [] h = refl
first_error-none (none ∷ es) h = first_error-none es h.1
first_error-none (some e ∷ es) h = h.0

first_error-All : (es : List (Option String)) → first_error es ≡ none → All (λ e. e ≡ none) es
unfolding first_error
first_error-All [] h = tt
first_error-All (none ∷ es) h = (refl, first_error-All es h)
first_error-All (some e ∷ es) h = absurd (some_not_none h)

pub cluster-Aggregates : Aggregates cluster
cluster-Aggregates = record { no_errors = first_error-none; all_nil = first_error-All }

pub cluster-Observing : Observing cluster
cluster-Observing = record {
  conditions_kept = λ ac ac' fields after a b c. ap (λ o. o.conditions) (sym (ok_injective c));
}

patched-lockable :
    (n : ℕ) (s : Store) (after : AddonConfig String)
    → ((patch_locked_in n s s.object after).1 ≡ ok tt)
      ⊎ ((e : String) × ((patch_locked_in n s s.object after).1 ≡ err e)
          × ((e == "conflict") ≡ true)
          × ((patch_locked_in n s s.object after).0.rivals < n))
unfolding patch_locked_in
patched-lockable zero s after = inl (rw (conditions_eq_refl s.object.conditions) refl)
patched-lockable (suc n) s after = inr ("conflict", refl, refl, omega arith)

pub cluster-Contended : Contended cluster (λ s. s.rivals)
cluster-Contended = record {
  readable = λ s k. (s.object, refl, omega arith, λ after. patched-lockable s.rivals s after);
}
