-- ===== src/Patching/Retry.antt =====
-- util/patch/patch.go: the patch of the conditions, which is tried again where another client has
-- changed the object since it was read.
use addonconfig.Common.Result.{Result, ok, err}
use addonconfig.Common.{
  ℕ, suc, Bool, true, false, not, Option, none, some, List, [], ◌∷◌, ◌++◌, String, if◌then◌else◌,
}
use addonconfig.Api.Condition.{ConditionType, Conditions}
use addonconfig.Conditions.Patch.{
  Patch, PatchError, new_patch, is_zero, apply, with_force_overwrite, with_owned_conditions,
}
use addonconfig.Patching.Platform.{Platform, ObjectKey, GroupVersionKind, Backoff}

-- The requests that the helper makes of the API server.
pub data Request : Type 0 where
  get_request locked_request patch_request status_request : Request

module _ {Error Object : Type 0} (p : Platform Error Object) where
  open p use {
    State, Json, clock, wrap, patch_error, is_setter, get_conditions, set_conditions, key_of, get,
    patch_locked, is_conflict, exponential_backoff,
  }

  -- Helper, as `NewHelper` leaves it.
  pub record Helper : Type 0 where
    pub gvk : GroupVersionKind
    pub before_object : Object
    pub before : List (String × Json)
    pub is_conditions_setter : Bool

  -- The server, and the requests made so far.
  pub record World : Type 0 where
    pub server : State
    pub log : List Request

  -- What one round of the retries leaves to the next: the operations of the patch, into which `Apply`
  -- has written transition times, and the number of the round.
  pub record Attempt : Type 0 where
    pub world : World
    pub patch : Patch
    pub round : ℕ

  abbrev pub requested : World → Request → State → World
  requested w r s = record { server = s; log = w.log ++ r ∷ [] }

  -- The switch on the error of the request.
  abbrev pub verdict : Result Error (Unit {0}) → Result Error Bool
  verdict (ok u) = ok true
  verdict (err e) = if is_conflict e then ok false else err e

  -- The request for the patch: `latest` is the object as it was read, `conditions` what is to be on it.
  unfoldable pub send_conditions :
      Attempt → Object → Conditions → Patch → Attempt × Result Error Bool
  send_conditions a latest conditions patch =
      let (s, r) = patch_locked a.world.server latest (set_conditions latest conditions) in
      (
        record { world = requested a.world locked_request s; patch = patch; round = suc a.round },
        verdict r,
      )

  -- What follows `Apply`, which works on an object that is there.
  abbrev pub send_applied :
      Attempt → Object → Result PatchError (Option Conditions × Patch) → Attempt × Result Error Bool
  send_applied a latest (err e) = (a, err (patch_error e))
  send_applied a latest (ok (none, patch)) = send_conditions a latest [] patch
  send_applied a latest (ok (some conditions, patch)) = send_conditions a latest conditions patch

  -- What follows the reading of the object.
  unfoldable pub merge_latest :
      Bool → List ConditionType → Attempt → Result Error Object → Attempt × Result Error Bool
  unfolding send_conditions apply with_force_overwrite with_owned_conditions
  merge_latest force_overwrite owned a (err e) = (a, err e)
  merge_latest force_overwrite owned a (ok latest) = send_applied a latest (
      apply (clock a.round) a.patch (some (get_conditions latest))
        (some (with_force_overwrite force_overwrite) ∷ some (with_owned_conditions owned) ∷ []))

  -- The body of the retries.
  unfoldable pub try_conditions :
      Bool → List ConditionType → ObjectKey → Attempt → Attempt × Result Error Bool
  unfolding merge_latest
  try_conditions force_overwrite owned key a =
      let (s, r) = get a.world.server key in
      merge_latest force_overwrite owned (record a { world = requested a.world get_request s }) r

  -- Five steps of 100 milliseconds with full jitter.
  abbrev pub conflict_backoff : Backoff
  conflict_backoff = record { steps = 5; duration = 100_000_000; jitter = 1 }

  unfoldable pub retry_conditions :
      Bool → List ConditionType → ObjectKey → World → Patch → World × Option Error
  unfolding try_conditions
  retry_conditions force_overwrite owned key w patch =
      let (a, e) =
        exponential_backoff Attempt conflict_backoff (try_conditions force_overwrite owned key)
          (record { world = w; patch = patch; round = 0 }) in
      (a.world, e)

  abbrev pub start_patch :
      Bool → List ConditionType → ObjectKey → World → Result PatchError Patch → World × Option Error
  start_patch force_overwrite owned key w (err e) =
      (w, some (wrap (patch_error e) "object can not be patched"))
  start_patch force_overwrite owned key w (ok patch) =
      if is_zero patch then (w, none) else retry_conditions force_overwrite owned key w patch

  -- `patchStatusConditions`. The type of `obj` is the one that the helper was made for, so it satisfies
  -- the interfaces that the source asks it for again.
  unfoldable pub patch_status_conditions :
      Helper → World → Object → Bool → List ConditionType → World × Option Error
  unfolding retry_conditions new_patch is_zero
  patch_status_conditions h w obj force_overwrite owned =
      if not h.is_conditions_setter
      then (w, none)
      else start_patch force_overwrite owned (key_of obj) w
          (new_patch (some (get_conditions h.before_object)) (some (get_conditions obj)))
