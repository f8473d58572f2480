-- ===== src/Patching/Merging.antt =====
-- util/patch/patch.go: what the patch of the conditions comes to, over all its rounds.
use addonconfig.Common.Result.{ok}
use addonconfig.Common.{◌≡◌, sym, ap, ◌∙◌, subst, Bool, true, false, none, List, ◌||◌, ◌==◌, any}
use addonconfig.Api.Condition.{ConditionType, Conditions}
use addonconfig.Conditions.Getter.{get}
use addonconfig.Conditions.Order.{IsDistinct}
use addonconfig.Conditions.Patch.{Patch, diff, is_zero, keeps_after, new_patch}
use addonconfig.Conditions.Conflicts.{ThreeWay}
use addonconfig.Conditions.Unopposed.{Unopposed, AllAlike-Unopposed}
use addonconfig.Conditions.Alike.{AllAlike, AllAlike-refl}
use addonconfig.Conditions.Reapplied.{AllAlike-ThreeWay}
use addonconfig.Patching.Platform.{Platform, ObjectKey}
use addonconfig.Patching.Retry.{
  Helper, World, Attempt, try_conditions, retry_conditions, conflict_backoff, start_patch,
  patch_status_conditions,
}
use addonconfig.Patching.Laws.{Retries, Locking, attempts, backoff-attempts, attempts_end}
use addonconfig.Patching.Rounds.{Sent, try_conditions-Sent, try_conditions-AllAlike, chosen}

keeps_after-chosen :
    (force : Bool) (owned : List ConditionType) (t : ConditionType)
    → (force || any (λ i. i == t) owned) ≡ false
    → keeps_after (chosen force owned) t ≡ false
unfolding keeps_after
keeps_after-chosen force owned t h = h

module _ {Error Object : Type 0} (p : Platform Error Object) (retries : Retries p (Attempt p)) where
  abbrev pub first : World p → Patch → Attempt p
  first w patch = record { world = w; patch = patch; round = 0 }

  -- The retries are five rounds at most.
  pub five_rounds :
      (force : Bool) (owned : List ConditionType) (key : ObjectKey) (w : World p) (patch : Patch)
      → p.exponential_backoff
          (Attempt p)
          (conflict_backoff p)
          (try_conditions p force owned key)
          (first w patch)
        ≡ attempts p 5 (try_conditions p force owned key) (first w patch)
  five_rounds force owned key w patch =
      backoff-attempts p (Attempt p) retries (conflict_backoff p) 5
        (try_conditions p force owned key) (first w patch)

  -- The request that was accepted last, for the object at the key that had been read just before it:
  -- `before` it the server had the conditions that this object had, and after it their three-way merge
  -- with the change from `old` to `new`. For a type that is neither owned nor overwritten by force, what
  -- the server had does not go against the change.
  pub record IsMerged (stored : p.State → Conditions) (force : Bool) (owned : List ConditionType)
      (key : ObjectKey) (old new : Conditions) (after : p.State) : Type 0 where
    pub asked : p.State
    pub before : p.State
    pub object : Object
    pub patched : Object
    pub was_read : p.get asked key ≡ (before, ok object)
    pub accepted : p.patch_locked before object patched ≡ (after, ok tt)
    pub merged :
        (t : ConditionType)
        → ThreeWay (get old t) (get new t) (get (stored before) t) (get (stored after) t)
    pub unopposed :
        (t : ConditionType)
        → (force || any (λ i. i == t) owned) ≡ false
        → Unopposed (get old t) (get new t) (get (stored before) t)

  Sent-IsMerged :
      (stored : p.State → Conditions) (force : Bool) (owned : List ConditionType) (key : ObjectKey)
      (old new : Conditions) (a a' : Attempt p)
      → Locking p stored
      → IsDistinct old
      → IsDistinct new
      → AllAlike (diff old new) a.patch
      → Sent p key (chosen force owned) a a'
      → IsMerged stored force owned key old new a'.world.server
  Sent-IsMerged stored force owned key old new a a' locking dold dnew alike sent =
      let (read, left) = locking.locked sent.read a'.world.server sent.latest _ sent.accepted in
      record {
        asked = a.world.server;
        before = sent.read;
        was_read = sent.was_read;
        object = sent.latest;
        patched = p.set_conditions sent.latest sent.conditions;
        accepted = sent.accepted;
        merged = λ t.
            subst (λ l. ThreeWay (get old t) (get new t) (get l t) (get (stored a'.world.server) t))
              (sym read)
              (subst
                (λ r.
                  ThreeWay (get old t) (get new t) (get (p.get_conditions sent.latest) t) (get r t))
                (sym (left ∙ locking.get_conditions-set sent.latest sent.conditions))
                (AllAlike-ThreeWay (p.clock a.round) (chosen force owned) old new
                  (p.get_conditions sent.latest) sent.conditions a.patch sent.patch dold dnew alike
                  sent.applied t));
        unopposed = λ t shared.
            subst (λ l. Unopposed (get old t) (get new t) (get l t)) (sym read)
              (AllAlike-Unopposed (p.clock a.round) (chosen force owned) old new
                (p.get_conditions sent.latest) sent.conditions a.patch sent.patch dold dnew alike
                sent.applied t (keeps_after-chosen force owned t shared));
      }

  retry_conditions-IsMerged :
      (stored : p.State → Conditions) (force : Bool) (owned : List ConditionType) (key : ObjectKey)
      (old new : Conditions) (w : World p)
      → Locking p stored
      → IsDistinct old
      → IsDistinct new
      → (retry_conditions p force owned key w (diff old new)).1 ≡ none
      → IsMerged stored force owned key old new
          (retry_conditions p force owned key w (diff old new)).0.server
  unfolding retry_conditions
  retry_conditions-IsMerged stored force owned key old new w locking dold dnew h =
      let f = try_conditions p force owned key in
      let run = attempts p 5 f (first w (diff old new)) in
      let same = five_rounds force owned key w (diff old new) in
      let clean : run.1 ≡ none = sym (ap (λ r. r.1) same) ∙ h in
      let (a, alike, done) =
        attempts_end p f (λ a. AllAlike (diff old new) a.patch)
          (λ a k. try_conditions-AllAlike p (diff old new) force owned key a k) 5
          (first w (diff old new)) run.0 (AllAlike-refl (diff old new))
          (ap (λ e. (run.0, e)) clean) in
      subst (λ r. IsMerged stored force owned key old new r.0.world.server) (sym same)
        (Sent-IsMerged stored force owned key old new a run.0 locking dold dnew alike
          (try_conditions-Sent p force owned key a run.0 done))

  start_patch-IsMerged :
      (stored : p.State → Conditions) (force : Bool) (owned : List ConditionType) (key : ObjectKey)
      (old new : Conditions) (w : World p)
      → Locking p stored
      → IsDistinct old
      → IsDistinct new
      → is_zero (diff old new) ≡ false
      → (start_patch p force owned key w (ok (diff old new))).1 ≡ none
      → IsMerged stored force owned key old new
          (start_patch p force owned key w (ok (diff old new))).0.server
  start_patch-IsMerged stored force owned key old new w locking dold dnew some_change =
      rw some_change (retry_conditions-IsMerged stored force owned key old new w locking dold dnew)

  -- Where the conditions of the object are patched without an error, the request that the server accepted
  -- last leaves, type by type, the three-way merge of the conditions that the server had just then with
  -- the change from those of the helper's object to those of the object, and for a type that is neither
  -- owned nor overwritten by force no other client had made a different change; if the objects have
  -- methods for conditions, have changed them and have none of a type twice, the retries are as
  -- documented, and the server refuses a patch with the lock for an object that is not as it was read.
  pub patch_status_conditions-IsMerged :
      (stored : p.State → Conditions) (h : Helper p) (w : World p) (obj : Object) (force : Bool)
      (owned : List ConditionType)
      → Locking p stored
      → h.is_conditions_setter ≡ true
      → IsDistinct (p.get_conditions h.before_object)
      → IsDistinct (p.get_conditions obj)
      → is_zero (diff (p.get_conditions h.before_object) (p.get_conditions obj)) ≡ false
      → (patch_status_conditions p h w obj force owned).1 ≡ none
      → IsMerged stored force owned
          (p.key_of obj)
          (p.get_conditions h.before_object)
          (p.get_conditions obj)
          (patch_status_conditions p h w obj force owned).0.server
  unfolding patch_status_conditions new_patch
  patch_status_conditions-IsMerged stored h w obj force owned locking setter dold dnew some_change =
      rw setter (
        start_patch-IsMerged stored force owned (p.key_of obj) (p.get_conditions h.before_object)
          (p.get_conditions obj) w locking dold dnew some_change)
