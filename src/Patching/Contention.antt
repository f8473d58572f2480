-- ===== src/Patching/Contention.antt =====
-- util/patch/patch.go: how often the patch of the conditions is tried, and when that is often enough.
use addonconfig.Common.Result.{Result, ok, err, is_ok}
use addonconfig.Common.{
  ℕ, ◌≡◌, ◌⊎◌, ◌≤◌, ◌<◌, ◌+◌, refl, sym, ap, ◌∙◌, subst, Bool, true, false, none, List, All, length,
  inl, inr, arith, Bool-cases,
}
use addonconfig.Api.Condition.{ConditionType}
use addonconfig.Conditions.Order.{IsDistinct}
use addonconfig.Conditions.Patch.{Patch, Applied, diff, is_zero, new_patch, keeps_after}
use addonconfig.Conditions.ThreeWay.{type_of, IsDistinctPatch}
use addonconfig.Conditions.Distinctness.{diff-IsDistinct}
use addonconfig.Conditions.Ownership.{apply_all-owned}
use addonconfig.Conditions.Alike.{AllAlike, AllAlike-refl}
use addonconfig.Conditions.Reapplied.{AllAlike-IsDistinct, AllAlike-types}
use addonconfig.Patching.Platform.{Platform, ObjectKey}
use addonconfig.Patching.Retry.{
  Helper, World, Attempt, requested, get_request, verdict, send_conditions, send_applied,
  merge_latest, try_conditions, retry_conditions, start_patch, patch_status_conditions,
}
use addonconfig.Patching.Laws.{IsLockable, Retries, Contended, attempts_bound, attempts_enough}
use addonconfig.Patching.Rounds.{
  chosen, placed, apply-apply_all, try_conditions-AllAlike, length-try_conditions, requests,
}
use addonconfig.Patching.Merging.{first, five_rounds}

module _ {Error Object : Type 0} (p : Platform Error Object) (retries : Retries p (Attempt p)) where
  retry_conditions-bound :
      (force : Bool) (owned : List ConditionType) (key : ObjectKey) (w : World p) (patch : Patch)
      → length (retry_conditions p force owned key w patch).0.log ≤ length w.log + 10
  unfolding retry_conditions
  retry_conditions-bound force owned key w patch =
      subst (λ r. requests p r.0 ≤ length w.log + 10)
        (sym (five_rounds p retries force owned key w patch))
        (attempts_bound p (try_conditions p force owned key) (requests p) 2
          (length-try_conditions p force owned key) 5 (first p retries w patch))

  start_patch-bound :
      (force : Bool) (owned : List ConditionType) (key : ObjectKey) (w : World p) (patch : Patch)
      → length (start_patch p force owned key w (ok patch)).0.log ≤ length w.log + 10
  start_patch-bound force owned key w patch = elim (Bool-cases (is_zero patch)) [
    | inl none_changed ↦ rw none_changed (omega arith)
    | inr changed ↦ rw changed (retry_conditions-bound force owned key w patch)
  ]

  -- The patch of the conditions makes ten requests at most, if the retries are as documented.
  pub patch_status_conditions-bound :
      (h : Helper p) (w : World p) (obj : Object) (force : Bool) (owned : List ConditionType)
      → length (patch_status_conditions p h w obj force owned).0.log ≤ length w.log + 10
  unfolding patch_status_conditions new_patch
  patch_status_conditions-bound h w obj force owned = elim (Bool-cases h.is_conditions_setter) [
    | inl setter ↦ rw setter (start_patch-bound force owned (p.key_of obj) w _)
    | inr other ↦ rw other (omega arith)
  ]

  -- A patch that no conditions can refuse: the types are each there once, and each is kept.
  abbrev pub IsWelcome : Bool → List ConditionType → Patch → Type 0
  IsWelcome force owned patch =
      IsDistinctPatch patch × All (λ op. keeps_after (chosen force owned) (type_of op) ≡ true) patch

  -- A round comes to an end or to a conflict, which is one of the rivals' changes.
  abbrev IsRound : (p.State → ℕ) → Attempt p → Attempt p × Result Error Bool → Type 0
  IsRound rivals a r =
      (r.1 ≡ ok true) ⊎ ((r.1 ≡ ok false) × (rivals r.0.world.server < rivals a.world.server))

  module _ (rivals : p.State → ℕ) (contended : Contended p rivals) (force : Bool)
      (owned : List ConditionType) where
    send_applied-IsRound :
        (a : Attempt p) (latest : Object) (r : Applied)
        → IsLockable p rivals a.world.server latest
        → is_ok r ≡ true
        → IsRound rivals a (send_applied p a latest (placed r))
    unfolding send_conditions
    send_applied-IsRound a latest (err e) lockable h = cc
    send_applied-IsRound a latest (ok (cs, patch)) lockable h =
        elim (lockable (p.set_conditions latest cs)) [
          | inl accepted ↦ inl (ap (verdict p) accepted)
          | inr (e, refused, conflict, fewer) ↦
              inr (ap (verdict p) refused ∙ rw conflict refl, fewer)
        ]

    merge_latest-IsRound :
        (a : Attempt p) (latest : Object)
        → IsLockable p rivals a.world.server latest
        → IsWelcome force owned a.patch
        → IsRound rivals a (merge_latest p force owned a (ok latest))
    unfolding merge_latest
    merge_latest-IsRound a latest lockable h =
        subst (λ r. IsRound rivals a (send_applied p a latest r))
          (sym (apply-apply_all (p.clock a.round) a.patch (p.get_conditions latest) force owned))
          (send_applied-IsRound a latest _ lockable (
            apply_all-owned (p.clock a.round) (chosen force owned) a.patch (p.get_conditions latest)
              h.0 h.1))

    try_conditions-IsRound :
        (key : ObjectKey) (a : Attempt p)
        → IsWelcome force owned a.patch
        → IsRound rivals a (try_conditions p force owned key a)
    unfolding try_conditions
    try_conditions-IsRound key a h =
        let (latest, read, fewer, lockable) = contended.readable a.world.server key in
        let a' : Attempt p = record a {
          world = requested p a.world get_request (p.get a.world.server key).0;
        } in
        subst (λ r. IsRound rivals a (merge_latest p force owned a' r)) (sym read)
          (later a a' (merge_latest p force owned a' (ok latest)) fewer
            (merge_latest-IsRound a' latest lockable h))
      where
        later :
            (a a' : Attempt p) (r : Attempt p × Result Error Bool)
            → rivals a'.world.server ≤ rivals a.world.server
            → IsRound rivals a' r
            → IsRound rivals a r
        later a a' r fewer (inl done) = inl done
        later a a' r fewer (inr (again, less)) = inr (again, omega (arith, fewer, less))

    IsWelcome-Alike :
        (patch patch' : Patch)
        → IsWelcome force owned patch
        → AllAlike patch patch'
        → IsWelcome force owned patch'
    IsWelcome-Alike patch patch' h alike = (
      AllAlike-IsDistinct alike h.0,
      AllAlike-types (λ t. keeps_after (chosen force owned) t ≡ true) alike h.1,
    )

    retry_conditions-lands :
        (key : ObjectKey) (w : World p) (patch : Patch)
        → IsWelcome force owned patch
        → rivals w.server < 5
        → (retry_conditions p force owned key w patch).1 ≡ none
    unfolding retry_conditions
    retry_conditions-lands key w patch h few =
        ap (λ r. r.1) (five_rounds p retries force owned key w patch)
        ∙ attempts_enough p (try_conditions p force owned key) (λ a. AllAlike patch a.patch)
            (λ a. rivals a.world.server)
            (λ a same. try_conditions-AllAlike p patch force owned key a same)
            (λ a same. try_conditions-IsRound key a (IsWelcome-Alike patch a.patch h same)) 5
            (first p retries w patch) (AllAlike-refl patch) few

    start_patch-lands :
        (key : ObjectKey) (w : World p) (patch : Patch)
        → IsWelcome force owned patch
        → rivals w.server < 5
        → (start_patch p force owned key w (ok patch)).1 ≡ none
    start_patch-lands key w patch h few = elim (Bool-cases (is_zero patch)) [
      | inl none_changed ↦ rw none_changed refl
      | inr changed ↦ rw changed (retry_conditions-lands key w patch h few)
    ]

    -- The patch of the conditions ends without an error where other clients make fewer than five
    -- changes meanwhile, if every type that it changes is owned or overwritten by force, neither the
    -- object nor that of the helper has a type twice, the retries are as documented, and whatever state
    -- the server is in, it can be read at every key without adding to the changes, and refuses a patch of
    -- what was read just before only with a conflict, for one of these changes.
    pub patch_status_conditions-lands :
        (h : Helper p) (w : World p) (obj : Object)
        → IsDistinct (p.get_conditions h.before_object)
        → IsDistinct (p.get_conditions obj)
        → All
            (λ op. keeps_after (chosen force owned) (type_of op) ≡ true)
            (diff (p.get_conditions h.before_object) (p.get_conditions obj))
        → rivals w.server < 5
        → (patch_status_conditions p h w obj force owned).1 ≡ none
    unfolding patch_status_conditions new_patch
    patch_status_conditions-lands h w obj dold dnew kept few =
        elim (Bool-cases h.is_conditions_setter) [
          | inl setter ↦
              rw setter
                (start_patch-lands (p.key_of obj) w _ (diff-IsDistinct _ _ dold dnew, kept) few)
          | inr other ↦ rw other refl
        ]
