-- ===== src/Util/Requeue.antt =====
-- util/util.go: choosing among reconciliation results, and among numbers where 0 means none.
use addonconfig.Common.{
  ℕ, ◌≤◌, ◌<◌, ◌≡◌, ◌⊎◌, Bool, false, not, ◌&&◌, ltb, eqb, if◌then◌else◌, arith,
}

-- ctrl.Result; `requeue_after` in nanoseconds, which the controller never sets below 0.
pub record CtrlResult : Type 0 where
  pub requeue : Bool
  pub requeue_after : ℕ

-- `Result{}`
abbrev pub no_requeue : CtrlResult
no_requeue = record { requeue = false; requeue_after = 0 }

-- `Result.IsZero`
abbrev pub is_zero : CtrlResult → Bool
is_zero r = not r.requeue && eqb r.requeue_after 0

unfoldable pub lowest_non_zero_result : CtrlResult → CtrlResult → CtrlResult
lowest_non_zero_result i j =
    if is_zero i
    then j
    else if is_zero j
    then i
    else if i.requeue
    then i
    else if j.requeue
    then j
    else if ltb i.requeue_after j.requeue_after
    then i
    else j

unfoldable pub lowest_non_zero_int32 : ℕ → ℕ → ℕ
lowest_non_zero_int32 i j = if eqb i 0 then j else if eqb j 0 then i else if ltb i j then i else j

-- When controller-runtime comes back to an object: after the time, where there is one; else at once,
-- where a requeue is asked for; else never.
pub data Urgency : Type 0 where
  at_once never : Urgency
  after : ℕ → Urgency

unfoldable pub urgency : CtrlResult → Urgency
urgency r =
    if ltb 0 r.requeue_after then after r.requeue_after else if r.requeue then at_once else never

-- `u` is at least as urgent as `v`.
abbrev pub Sooner : Urgency → Urgency → Type 0
Sooner at_once v = Unit
Sooner u never = Unit
Sooner (after m) (after n) = m ≤ n
Sooner never v = ⊥
Sooner (after m) at_once = ⊥

-- The choice among three results does not depend on the order in which they are combined.
lowest_non_zero_result_assoc :
    (i j k : CtrlResult)
    → lowest_non_zero_result (lowest_non_zero_result i j) k
      ≡ lowest_non_zero_result i (lowest_non_zero_result j k)
unfolding lowest_non_zero_result
lowest_non_zero_result_assoc i j k = ground arith

-- The number chosen is the smaller of the two, where 0 counts as greater than any.
pub lowest_non_zero_int32_lem :
    (i j : ℕ)
    → (lowest_non_zero_int32 i j ≡ 0 → (i ≡ 0) × (j ≡ 0))
      × (0 < i → lowest_non_zero_int32 i j ≤ i)
      × (0 < j → lowest_non_zero_int32 i j ≤ j)
      × ((lowest_non_zero_int32 i j ≡ i) ⊎ (lowest_non_zero_int32 i j ≡ j))
unfolding lowest_non_zero_int32
lowest_non_zero_int32_lem i j = ground arith
