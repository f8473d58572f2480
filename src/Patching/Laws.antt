-- ===== src/Patching/Laws.antt =====
-- What util/patch relies on: the documentation of wait.ExponentialBackoff and of kerrors.NewAggregate,
-- and the optimistic lock of the API server.
use addonconfig.Common.Result.{Result, ok, err}
use addonconfig.Common.{
  ℕ, zero, suc, String, Bool, true, false, ◌≡◌, ◌⊎◌, ◌≤◌, ◌<◌, ◌+◌, ◌*◌, refl, sym, ap, arith,
  some_not_none, Option, none, some, List, [], ◌∷◌, ◌∙◌, inl, inr, All,
}
use addonconfig.Api.Condition.{Conditions}
use addonconfig.Patching.Platform.{Platform, Backoff, ObjectKey}

abbrev pub with_steps : Backoff → ℕ → Backoff
with_steps b n = record b { steps = n }

module _ {Error Object : Type 0} (p : Platform Error Object) where
  -- "ExponentialBackoff repeats a condition check": up to `Steps` times, until it is true or fails.
  pub record Retries (S : Type 0) : Type 0 where
    pub no_steps :
        (b : Backoff) (f : S → S × Result Error Bool) (s : S)
        → p.exponential_backoff S (with_steps b 0) f s ≡ (s, some p.timeout)
    pub finished :
        (b : Backoff) (n : ℕ) (f : S → S × Result Error Bool) (s s' : S)
        → f s ≡ (s', ok true)
        → p.exponential_backoff S (with_steps b (suc n)) f s ≡ (s', none)
    pub again :
        (b : Backoff) (n : ℕ) (f : S → S × Result Error Bool) (s s' : S)
        → f s ≡ (s', ok false)
        → p.exponential_backoff S (with_steps b (suc n)) f s
          ≡ p.exponential_backoff S (with_steps b n) f s'
    pub given_up :
        (b : Backoff) (n : ℕ) (f : S → S × Result Error Bool) (s s' : S) (e : Error)
        → f s ≡ (s', err e)
        → p.exponential_backoff S (with_steps b (suc n)) f s ≡ (s', some e)

  -- A patch with the optimistic lock is accepted only while the object is as it was read, and then
  -- leaves on the server the conditions that it was given. `stored` are the conditions of the object
  -- on the server.
  pub record Locking (stored : p.State → Conditions) : Type 0 where
    pub get_conditions-set :
        (obj : Object) (cs : Conditions) → p.get_conditions (p.set_conditions obj cs) ≡ cs
    pub locked :
        (s s' : p.State) (before after : Object)
        → p.patch_locked s before after ≡ (s', ok tt)
        → (stored s ≡ p.get_conditions before) × (stored s' ≡ p.get_conditions after)

  -- An aggregate is nil exactly where each of the errors given to it is.
  pub record Aggregates : Type 0 where
    pub no_errors : (es : List (Option Error)) → All (λ e. e ≡ none) es → p.aggregate es ≡ none
    pub all_nil : (es : List (Option Error)) → p.aggregate es ≡ none → All (λ e. e ≡ none) es

  -- To write the observed generation into the status of an object keeps its conditions.
  pub record Observing : Type 0 where
    pub conditions_kept :
        (obj obj' : Object) (fields after : List (String × p.Json))
        → p.to_unstructured obj ≡ ok fields
        → p.set_nested_field fields (p.get_generation fields) ("status" ∷ "observedGeneration" ∷ [])
          ≡ ok after
        → p.from_unstructured after obj ≡ ok obj'
        → p.get_conditions obj' ≡ p.get_conditions obj

  -- A patch with the lock is accepted, or refused for one of the changes of other clients: `rivals` are
  -- those that they have still to make.
  abbrev pub IsLockable : (p.State → ℕ) → p.State → Object → Type 0
  IsLockable rivals s latest =
      (after : Object)
      → ((p.patch_locked s latest after).1 ≡ ok tt)
        ⊎ ((e : Error) × ((p.patch_locked s latest after).1 ≡ err e)
            × (p.is_conflict e ≡ true)
            × (rivals (p.patch_locked s latest after).0 < rivals s))

  -- What is known where other clients leave off changing the object: it can be read, and a patch of what
  -- was read just before is refused only for a change since then.
  pub record Contended (rivals : p.State → ℕ) : Type 0 where
    pub readable :
        (s : p.State) (k : ObjectKey)
        → (latest : Object) × ((p.get s k).1 ≡ ok latest)
          × (rivals (p.get s k).0 ≤ rivals s)
          × IsLockable rivals (p.get s k).0 latest

  -- What follows a round: the end, with or without an error, or the rounds that are left.
  abbrev pub resume :
      {S : Type 0} → (S → S × Option Error) → S × Result Error Bool → S × Option Error
  resume rest (s, err e) = (s, some e)
  resume rest (s, ok true) = (s, none)
  resume rest (s, ok false) = rest s

  -- The loop that `ExponentialBackoff` runs, as a function of the steps left.
  unfoldable pub attempts : {S : Type 0} → ℕ → (S → S × Result Error Bool) → S → S × Option Error
  attempts zero f s = (s, some p.timeout)
  attempts (suc n) f s = resume (attempts n f) (f s)

  pub backoff-attempts :
      (S : Type 0)
      → Retries S
      → (b : Backoff) (n : ℕ) (f : S → S × Result Error Bool) (s : S)
      → p.exponential_backoff S (with_steps b n) f s ≡ attempts n f s
  unfolding attempts
  backoff-attempts S laws b zero f s = laws.no_steps b f s
  backoff-attempts S laws b (suc n) f s = go (f s) refl (λ s'. backoff-attempts S laws b n f s')
    where
      go :
          (r : S × Result Error Bool)
          → f s ≡ r
          → ((s' : S) → p.exponential_backoff S (with_steps b n) f s' ≡ attempts n f s')
          → p.exponential_backoff S (with_steps b (suc n)) f s ≡ resume (attempts n f) (f s)
      go (s', ok true) e ih = laws.finished b n f s s' e ∙ ap (resume (attempts n f)) (sym e)
      go (s', ok false) e ih = laws.again b n f s s' e ∙ ih s' ∙ ap (resume (attempts n f)) (sym e)
      go (s', err x) e ih = laws.given_up b n f s s' x e ∙ ap (resume (attempts n f)) (sym e)

  module _ {S : Type 0} (f : S → S × Result Error Bool) where
    -- A run that ends without an error ends in a round that was finished, from a state with the
    -- invariant.
    pub attempts_end :
        (P : S → Type 0)
        → ((s : S) → P s → P (f s).0)
        → (n : ℕ) (s s' : S) → P s
        → attempts n f s ≡ (s', none)
        → (t : S) × P t × (f t ≡ (s', ok true))
    unfolding attempts
    attempts_end P keep zero s s' h e = absurd (some_not_none (ap (λ r. r.1) e))
    attempts_end P keep (suc n) s s' h e =
        go (f s) refl (keep s h) (λ t k. attempts_end P keep n t s' k) e
      where
        go :
            (r : S × Result Error Bool)
            → f s ≡ r
            → P r.0
            → ((t : S) → P t → attempts n f t ≡ (s', none) → (u : S) × P u × (f u ≡ (s', ok true)))
            → resume (attempts n f) r ≡ (s', none)
            → (t : S) × P t × (f t ≡ (s', ok true))
        go (t, ok true) e' k ih e = (s, h, e' ∙ ap (λ x. (x, ok true)) (ap (λ r. r.0) e))
        go (t, ok false) e' k ih e = ih t k e
        go (t, err x) e' k ih e = absurd (some_not_none (ap (λ r. r.1) e))

    -- What each round adds at most to a measure, the run adds at most as often as it has steps.
    pub attempts_bound :
        (size : S → ℕ) (k : ℕ)
        → ((s : S) → size (f s).0 ≤ size s + k)
        → (n : ℕ) (s : S) → size (attempts n f s).0 ≤ size s + n * k
    unfolding attempts
    attempts_bound size k step zero s = omega arith
    attempts_bound size k step (suc n) s = go (f s) (step s) (λ t. attempts_bound size k step n t)
      where
        go :
            (r : S × Result Error Bool)
            → size r.0 ≤ size s + k
            → ((t : S) → size (attempts n f t).0 ≤ size t + n * k)
            → size (resume (attempts n f) r).0 ≤ size s + suc n * k
        go (t, ok true) h ih = grind arith
        go (t, ok false) h ih = grind (arith, ih t)
        go (t, err x) h ih = grind arith

    -- A measure that a round with a conflict lowers, where no round that starts with the invariant
    -- fails: with more steps than the measure the run ends without an error.
    pub attempts_enough :
        (P : S → Type 0) (size : S → ℕ)
        → ((s : S) → P s → P (f s).0)
        → ((s : S) → P s → ((f s).1 ≡ ok true) ⊎ (((f s).1 ≡ ok false) × (size (f s).0 < size s)))
        → (n : ℕ) (s : S) → P s
        → size s < n
        → (attempts n f s).1 ≡ none
    unfolding attempts
    attempts_enough P size keep step zero s i h = absurd (omega arith)
    attempts_enough P size keep step (suc n) s i h =
        go (f s) (keep s i) (step s i) (λ t. attempts_enough P size keep step n t)
      where
        go :
            (r : S × Result Error Bool)
            → P r.0
            → ((r.1 ≡ ok true) ⊎ ((r.1 ≡ ok false) × (size r.0 < size s)))
            → ((t : S) → P t → size t < n → (attempts n f t).1 ≡ none)
            → (resume (attempts n f) r).1 ≡ none
        go (t, ok true) j d ih = refl
        go (t, ok false) j (inl d) ih = cc
        go (t, ok false) j (inr d) ih = ih t j (omega (arith, d.1))
        go (t, err x) j (inl d) ih = cc
        go (t, err x) j (inr d) ih = cc
