-- ===== src/Patching/Rounds.antt =====
-- util/patch/patch.go: one round of the patch of the conditions.
use addonconfig.Common.Result.{Result, ok, err, err_not_ok}
use addonconfig.Common.{
  ℕ, suc, ◌≡◌, refl, sym, ap, ap₂, ◌∙◌, subst, Bool, true, false, Option, none, some, List, [], ◌∷◌,
  Bool-cases, inl, inr, arith, ◌+◌, ◌≤◌, length, length-append,
}
use addonconfig.Api.Condition.{ConditionType, Conditions, Time}
use addonconfig.Conditions.Patch.{
  Patch, PatchError, Applied, ApplyOptions, apply, apply_all, with_force_overwrite,
  with_owned_conditions,
}
use addonconfig.Conditions.Alike.{AllAlike, AllAlike-trans, AppliedAlike, apply_all-Alike}
use addonconfig.Patching.Platform.{Platform, ObjectKey}
use addonconfig.Patching.Retry.{
  get_request, locked_request, Attempt, requested, verdict, send_conditions, send_applied,
  merge_latest, try_conditions,
}

abbrev pub chosen : Bool → List ConditionType → ApplyOptions
chosen force_overwrite owned = record {
  owned_conditions = owned;
  force_overwrite = force_overwrite;
}

abbrev pub placed : Applied → Result PatchError (Option Conditions × Patch)
placed (err e) = err e
placed (ok (latest, patch)) = ok (some latest, patch)

-- `Apply` with the options of the helper, on conditions that are there.
pub apply-apply_all :
    (clock : ℕ → Time) (patch : Patch) (latest : Conditions) (force : Bool)
    (owned : List ConditionType)
    → apply clock patch
        (some latest)
        (some (with_force_overwrite force) ∷ some (with_owned_conditions owned) ∷ [])
      ≡ placed (apply_all clock (chosen force owned) patch latest)
unfolding apply apply_all with_force_overwrite with_owned_conditions
apply-apply_all clock [] latest force owned = refl
apply-apply_all clock (op ∷ patch) latest force owned = refl

module _ {Error Object : Type 0} (p : Platform Error Object) where
  -- The round that was finished has sent these conditions for the object that it had read.
  pub record Sent (key : ObjectKey) (o : ApplyOptions) (a a' : Attempt p) : Type 0 where
    pub latest : Object
    pub read : p.State
    pub was_read : p.get a.world.server key ≡ (read, ok latest)
    pub conditions : Conditions
    pub patch : Patch
    pub applied :
        apply_all (p.clock a.round) o a.patch (p.get_conditions latest) ≡ ok (conditions, patch)
    pub accepted :
        p.patch_locked read latest (p.set_conditions latest conditions) ≡ (a'.world.server, ok tt)

  -- The next attempt, for what the request came to.
  abbrev sent_attempt :
      Attempt p → Patch → p.State × Result Error (Unit {0}) → Attempt p × Result Error Bool
  sent_attempt a patch (s, r) = (
    record { world = requested p a.world locked_request s; patch = patch; round = suc a.round },
    verdict p r,
  )

  verdict-ok : (r : Result Error (Unit {0})) → verdict p r ≡ ok true → r ≡ ok tt
  verdict-ok (ok u) h = refl
  verdict-ok (err e) h = elim (Bool-cases (p.is_conflict e)) [
    | inl conflict ↦
        let f : ◌≡◌ {A = Result Error Bool} (ok false) (ok true) = rw conflict at h in cc
    | inr other ↦ let f : ◌≡◌ {A = Result Error Bool} (err e) (ok true) = rw other at h in cc
  ]

  sent_attempt-accepted :
      (a a' : Attempt p) (patch : Patch) (r : p.State × Result Error (Unit {0}))
      → sent_attempt a patch r ≡ (a', ok true)
      → r ≡ (a'.world.server, ok tt)
  sent_attempt-accepted a a' patch (s, r) h i =
      ((ap (λ t. t.0.world.server) h) i, verdict-ok r (ap (λ t. t.1) h) i)

  send_conditions-accepted :
      (a a' : Attempt p) (latest : Object) (cs : Conditions) (patch : Patch)
      → send_conditions p a latest cs patch ≡ (a', ok true)
      → p.patch_locked a.world.server latest (p.set_conditions latest cs) ≡ (a'.world.server, ok tt)
  unfolding send_conditions
  send_conditions-accepted a a' latest cs patch h = sent_attempt-accepted a a' patch _ h

  -- What follows the reading, which left the attempt `b`, of the object at the start of the round.
  module _ (key : ObjectKey) (a b : Attempt p) (unchanged : b.patch ≡ a.patch)
      (same_round : b.round ≡ a.round) where
    send_applied-Sent :
        (o : ApplyOptions) (a' : Attempt p) (latest : Object) (r : Applied)
        → p.get a.world.server key ≡ (b.world.server, ok latest)
        → apply_all (p.clock a.round) o a.patch (p.get_conditions latest) ≡ r
        → send_applied p b latest (placed r) ≡ (a', ok true)
        → Sent key o a a'
    send_applied-Sent o a' latest (err e) was_read applied h = absurd (err_not_ok (ap (λ t. t.1) h))
    send_applied-Sent o a' latest (ok (cs, patch)) was_read applied h = record {
      latest = latest;
      read = b.world.server;
      was_read = was_read;
      conditions = cs;
      patch = patch;
      applied = applied;
      accepted = send_conditions-accepted b a' latest cs patch h;
    }

    merge_latest-Sent :
        (force : Bool) (owned : List ConditionType) (a' : Attempt p) (r : Result Error Object)
        → p.get a.world.server key ≡ (b.world.server, r)
        → merge_latest p force owned b r ≡ (a', ok true)
        → Sent key (chosen force owned) a a'
    unfolding merge_latest
    merge_latest-Sent force owned a' (err e) was_read h = absurd (err_not_ok (ap (λ t. t.1) h))
    merge_latest-Sent force owned a' (ok latest) was_read h =
        send_applied-Sent (chosen force owned) a' latest _ was_read
          (ap₂
            (λ n patch. apply_all (p.clock n) (chosen force owned) patch (p.get_conditions latest))
            (sym same_round) (sym unchanged))
          (ap (send_applied p b latest) (
              sym (apply-apply_all (p.clock b.round) b.patch (p.get_conditions latest) force owned))
            ∙ h)

  -- A finished round has sent what `Apply` made of the conditions that it had read.
  pub try_conditions-Sent :
      (force : Bool) (owned : List ConditionType) (key : ObjectKey) (a a' : Attempt p)
      → try_conditions p force owned key a ≡ (a', ok true)
      → Sent key (chosen force owned) a a'
  unfolding try_conditions
  try_conditions-Sent force owned key a a' h =
      merge_latest-Sent key a
        (record a { world = requested p a.world get_request (p.get a.world.server key).0 }) refl
        refl force owned a' (p.get a.world.server key).1 refl h

  send_applied-AllAlike :
      (diff : Patch) (a : Attempt p) (latest : Object) (r : Applied)
      → AllAlike diff a.patch
      → AppliedAlike a.patch r
      → AllAlike diff (send_applied p a latest (placed r)).0.patch
  unfolding send_conditions
  send_applied-AllAlike diff a latest (err e) h k = h
  send_applied-AllAlike diff a latest (ok (cs, patch)) h k = AllAlike-trans h k

  merge_latest-AllAlike :
      (diff : Patch) (force : Bool) (owned : List ConditionType) (a : Attempt p)
      (r : Result Error Object)
      → AllAlike diff a.patch
      → AllAlike diff (merge_latest p force owned a r).0.patch
  unfolding merge_latest
  merge_latest-AllAlike diff force owned a (err e) h = h
  merge_latest-AllAlike diff force owned a (ok latest) h =
      subst (λ r. AllAlike diff (send_applied p a latest r).0.patch)
        (sym (apply-apply_all (p.clock a.round) a.patch (p.get_conditions latest) force owned))
        (send_applied-AllAlike diff a latest _ h (
          apply_all-Alike (p.clock a.round) (chosen force owned) a.patch (p.get_conditions latest)))

  -- A round leaves a patch that is alike to the one before it.
  pub try_conditions-AllAlike :
      (diff : Patch) (force : Bool) (owned : List ConditionType) (key : ObjectKey) (a : Attempt p)
      → AllAlike diff a.patch
      → AllAlike diff (try_conditions p force owned key a).0.patch
  unfolding try_conditions
  try_conditions-AllAlike diff force owned key a h =
      merge_latest-AllAlike diff force owned
        (record a { world = requested p a.world get_request (p.get a.world.server key).0 })
        (p.get a.world.server key).1 h

  abbrev pub requests : Attempt p → ℕ
  requests a = length a.world.log

  length-send_applied :
      (a : Attempt p) (latest : Object) (r : Result PatchError (Option Conditions × Patch))
      → requests (send_applied p a latest r).0 ≤ requests a + 1
  unfolding send_conditions
  length-send_applied a latest (err e) = omega arith
  length-send_applied a latest (ok (none, patch)) =
      omega (arith, length-append {0} a.world.log (locked_request ∷ []))
  length-send_applied a latest (ok (some cs, patch)) =
      omega (arith, length-append {0} a.world.log (locked_request ∷ []))

  length-merge_latest :
      (force : Bool) (owned : List ConditionType) (a : Attempt p) (r : Result Error Object)
      → requests (merge_latest p force owned a r).0 ≤ requests a + 1
  unfolding merge_latest
  length-merge_latest force owned a (err e) = omega arith
  length-merge_latest force owned a (ok latest) = length-send_applied a latest _

  -- A round makes two requests at most.
  pub length-try_conditions :
      (force : Bool) (owned : List ConditionType) (key : ObjectKey) (a : Attempt p)
      → requests (try_conditions p force owned key a).0 ≤ requests a + 2
  unfolding try_conditions
  length-try_conditions force owned key a =
      let a' : Attempt p = record a {
        world = requested p a.world get_request (p.get a.world.server key).0;
      } in
      omega (
        arith,
        length-merge_latest force owned a' (p.get a.world.server key).1,
        length-append {0} a.world.log (get_request ∷ []),
      )
